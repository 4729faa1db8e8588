-- ===== src/Db/Write/Turn.antt =====
-- The turn of a writer, and how `Write` ends.
use level_db.Prelude.{
  ℕ, zero, suc, ◌<◌, ◌≡◌, ◌⊎◌, inl, inr, ap, ◌∙◌, Bool, true, false, Option, none, some, ◌>>=◌,
  refl, not, ◌&&◌, is_some, [], ◌∷◌, ◌++◌, Bool-cases, arith, if-true, if-false,
}
use level_db.Status.{Status, ok}
use level_db.Options.{WriteOptions}
use level_db.Batch.{WriteBatch}
use level_db.Db.Write.{
  WriteState, WriteEnd, is_front, enqueue, must_wait, await_turn, write_front, write,
}

-- The waits of the writer at `a`: as long as it is not marked as done and another writer is at the
-- front of the queue, the other threads run.
module _ {W Key Mem : Type 0} (others : WriteState W Key Mem → WriteState W Key Mem) (a : ℕ) where
  pub data Awaited : WriteState W Key Mem → WriteState W Key Mem → Type 0 where
    turn :
        {s : WriteState W Key Mem}
        → ((s.writer_at a).done ≡ true) ⊎ (is_front a s.writers ≡ true)
        → Awaited s s
    later :
        {s t : WriteState W Key Mem}
        → (s.writer_at a).done ≡ false
        → is_front a s.writers ≡ false
        → Awaited (others s) t
        → Awaited s t

module _ {W Key Mem : Type 0} (others : WriteState W Key Mem → WriteState W Key Mem)
    (make_room_for_write : Bool → WriteState W Key Mem → Status × WriteState W Key Mem)
    (build_batch_group : ℕ → WriteState W Key Mem → WriteState W Key Mem) (a : ℕ)
    (rank : WriteState W Key Mem → ℕ)
    (nearer : (s : WriteState W Key Mem)
      → must_wait others make_room_for_write build_batch_group a s ≡ true
      → rank (others s) < rank s) where
  its_turn :
      (s : WriteState W Key Mem)
      → must_wait others make_room_for_write build_batch_group a s ≡ false
      → ((s.writer_at a).done ≡ true) ⊎ (is_front a s.writers ≡ true)
  its_turn s e = elim (Bool-cases (s.writer_at a).done) [
    | inl done ↦ inl done
    | inr waits ↦ inr (ground (arith, e, waits))
  ]

  -- Where a call ends that has its turn at `t`: with the status that another thread has left for it,
  -- or at the front of the queue without a value, behind `MakeRoomForWrite` and, where this has
  -- made room for a batch, `BuildBatchGroup`.
  abbrev pub Served : WriteState W Key Mem → WriteEnd × WriteState W Key Mem → Type 0
  Served t r = ((t.writer_at a).done ≡ true) × (r ≡ (WriteEnd.returned (t.writer_at a).status, t))

  abbrev pub Refused :
      Option WriteBatch → WriteState W Key Mem → WriteEnd × WriteState W Key Mem → Type 0
  Refused my_batch t r =
      (is_front a t.writers ≡ true)
      × ((my_batch ≡ none) ⊎ (ok (make_room_for_write (not (is_some my_batch)) t).0 ≡ false))
      × (r ≡ (WriteEnd.no_value, (make_room_for_write (not (is_some my_batch)) t).1))

  abbrev pub Grouped :
      Option WriteBatch → WriteState W Key Mem → WriteEnd × WriteState W Key Mem → Type 0
  Grouped my_batch t r =
      (is_front a t.writers ≡ true)
      × (b : WriteBatch) × (my_batch ≡ some b)
      × (ok (make_room_for_write false t).0 ≡ true)
      × (r ≡ (WriteEnd.no_value, build_batch_group a (make_room_for_write false t).1))

  room_made :
      (my_batch : Option WriteBatch) (t : WriteState W Key Mem)
      → (t.writer_at a).done ≡ false
      → is_front a t.writers ≡ true
      → Refused my_batch t (write_front others make_room_for_write build_batch_group my_batch a t)
        ⊎ Grouped my_batch t (write_front others make_room_for_write build_batch_group my_batch a t)
  unfolding write_front
  room_made none t waits front = inl (
    front,
    inl refl,
    if-false (t.writer_at a).done _ _ waits
        ∙ ap (λ (u : WriteState W Key Mem). (WriteEnd.no_value, u))
            (if-false (ok (make_room_for_write true t).0 && false) _ _ (ground arith)),
  )
  room_made (some b) t waits front = elim (Bool-cases (ok (make_room_for_write false t).0)) [
    | inl e ↦ inr (
      front,
      b,
      refl,
      e,
      if-false (t.writer_at a).done _ _ waits
          ∙ ap (λ (u : WriteState W Key Mem). (WriteEnd.no_value, u))
              (if-true (ok (make_room_for_write false t).0 && true) _ _ (ground (arith, e))),
    )
    | inr e ↦ inl (
      front,
      inr e,
      if-false (t.writer_at a).done _ _ waits
          ∙ ap (λ (u : WriteState W Key Mem). (WriteEnd.no_value, u))
              (if-false (ok (make_room_for_write false t).0 && true) _ _ (ground (arith, e))),
    )
  ]

  ended_at :
      {s : WriteState W Key Mem} (my_batch : Option WriteBatch) (t : WriteState W Key Mem)
      → Awaited others a s t
      → Served t (write_front others make_room_for_write build_batch_group my_batch a t)
        ⊎ (Refused my_batch t
              (write_front others make_room_for_write build_batch_group my_batch a t)
            ⊎ Grouped my_batch t
                (write_front others make_room_for_write build_batch_group my_batch a t))
  unfolding write_front
  ended_at my_batch t (later undone behind rest) = ended_at my_batch t rest
  ended_at my_batch t (turn h) = elim (Bool-cases (t.writer_at a).done) [
    | inl e ↦ inl (e, if-true (t.writer_at a).done _ _ e)
    | inr e ↦ elim h [
      | inl done ↦ absurd (cc (e, done))
      | inr front ↦ inr (room_made my_batch t e front)
    ]
  ]

  await_turn_ends :
      (k : ℕ) (s : WriteState W Key Mem)
      → rank s < k
      → (s' : WriteState W Key Mem) × (await_turn others make_room_for_write build_batch_group k a s
          ≡ some s')
        × Awaited others a s s'
  unfolding await_turn
  await_turn_ends zero s h = absurd (omega arith)
  await_turn_ends (suc k) s h =
      elim (Bool-cases (must_wait others make_room_for_write build_batch_group a s)) [
        | inr e ↦ (
          s,
          if-false (must_wait others make_room_for_write build_batch_group a s) _ _ e,
          turn (its_turn s e),
        )
        | inl e ↦
            let (s', run, over) = await_turn_ends k (others s) (omega (arith, nearer s e)) in
            (
              s',
              if-true (must_wait others make_room_for_write build_batch_group a s) _ _ e ∙ run,
              later (ground (arith, e)) (ground (arith, e)) over,
            )
      ]

  -- If every wait of a writer brings it nearer to its turn, then `Write` puts it at the end of the
  -- queue, waits as long as it is not done and not at the front, and ends: with the status that
  -- another thread has left for it; or, at the front of the queue, without a value, behind
  -- `MakeRoomForWrite`, which failed or made room for no batch, or behind `BuildBatchGroup`.
  pub write_ends :
      (fuel : ℕ) (options : WriteOptions) (my_batch : Option WriteBatch) (s : WriteState W Key Mem)
      → rank (enqueue others make_room_for_write build_batch_group options my_batch a s) < fuel
      → (t : WriteState W Key Mem) × (r : WriteEnd × WriteState W Key Mem) × (write others
            make_room_for_write build_batch_group fuel options my_batch a s
          ≡ some r)
        × ((enqueue others make_room_for_write build_batch_group options my_batch a s).writers
            ≡ s.writers ++ a ∷ [])
        × Awaited others a
            (enqueue others make_room_for_write build_batch_group options my_batch a s)
            t
        × (Served t r ⊎ (Refused my_batch t r ⊎ Grouped my_batch t r))
  unfolding write enqueue
  write_ends fuel options my_batch s h =
      let begun = enqueue others make_room_for_write build_batch_group options my_batch a s in
      let (t, run, awaited) = await_turn_ends fuel begun h in
      let front = write_front others make_room_for_write build_batch_group my_batch a in
      (
        t,
        front t,
        ap (λ o. o >>= λ u. some (front u)) run,
        refl,
        awaited,
        ended_at my_batch t awaited,
      )
