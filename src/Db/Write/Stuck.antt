-- ===== src/Db/Write/Stuck.antt =====
-- The writers that stand behind one that has ended without a value.
use level_db.Prelude.{
  ℕ, zero, suc, ◌≡◌, ◌≢◌, inl, inr, refl, ap, sym, ◌∙◌, subst, Bool, true, false, ◌&&◌, not,
  is_some, List, [], ◌∷◌, ◌++◌, Option, none, some, ◌>>=◌, Bool-cases, arith, if-true, if-false,
  from_some, >>=-eq-some,
}
use level_db.Status.{Status, ok}
use level_db.Options.{WriteOptions}
use level_db.Batch.{WriteBatch}
use level_db.Db.Write.{
  WriteState, WriteEnd, is_front, enqueue, must_wait, await_turn, write_front, write,
}

front_unique : (a b : ℕ) (ws : List ℕ) → is_front a ws ≡ true → is_front b ws ≡ true → a ≡ b
front_unique a b [] h k = absurd (cc)
front_unique a b (w ∷ ws) h k = ground (arith, h, k)

front-append : (b : ℕ) (ws more : List ℕ) → is_front b ws ≡ true → is_front b (ws ++ more) ≡ true
front-append b [] more h = absurd (cc)
front-append b (w ∷ ws) more h = h

no_value_returned : (s : Status) → WriteEnd.returned s ≢ WriteEnd.no_value
no_value_returned s h = cc

module _ {W Key Mem : Type 0} (others : WriteState W Key Mem → WriteState W Key Mem)
    (make_room_for_write : Bool → WriteState W Key Mem → Status × WriteState W Key Mem)
    (build_batch_group : ℕ → WriteState W Key Mem → WriteState W Key Mem) where
  await_turn_over :
      (k a : ℕ) (s t : WriteState W Key Mem)
      → await_turn others make_room_for_write build_batch_group k a s ≡ some t
      → must_wait others make_room_for_write build_batch_group a t ≡ false
  unfolding await_turn
  await_turn_over zero a s t h = absurd (cc)
  await_turn_over (suc k) a s t h =
      let test = must_wait others make_room_for_write build_batch_group in
      elim (Bool-cases (test a s)) [
        | inr e ↦ ap (test a) (sym (from_some s t (sym (if-false (test a s) _ _ e) ∙ h))) ∙ e
        | inl e ↦ await_turn_over k a (others s) t (sym (if-true (test a s) _ _ e) ∙ h)
      ]

  module _ (a b : ℕ)
      (others_front : (s : WriteState W Key Mem)
        → is_front b s.writers ≡ true
        → is_front b (others s).writers ≡ true)
      (others_done : (s : WriteState W Key Mem)
        → (s.writer_at a).done ≡ false
        → ((others s).writer_at a).done ≡ false)
      (room_front : (force : Bool) (s : WriteState W Key Mem)
        → is_front b s.writers ≡ true
        → is_front b (make_room_for_write force s).1.writers ≡ true)
      (group_front : (s : WriteState W Key Mem)
        → is_front b s.writers ≡ true
        → is_front b (build_batch_group b s).writers ≡ true) where
    blocked :
        (k : ℕ) (s : WriteState W Key Mem)
        → a ≢ b
        → is_front b s.writers ≡ true
        → (s.writer_at a).done ≡ false
        → await_turn others make_room_for_write build_batch_group k a s ≡ none
    unfolding await_turn
    blocked zero s apart front undone = refl
    blocked (suc k) s apart front undone =
        let waits : must_wait others make_room_for_write build_batch_group a s ≡ true =
          elim (Bool-cases (is_front a s.writers)) [
            | inl e ↦ absurd (apart (front_unique a b s.writers e front))
            | inr e ↦ ground (arith, e, undone)
          ] in
        if-true (must_wait others make_room_for_write build_batch_group a s) _ _ waits
        ∙ blocked k (others s) apart (others_front s front) (others_done s undone)

    write_front-front :
        (my_batch : Option WriteBatch) (t s' : WriteState W Key Mem)
        → must_wait others make_room_for_write build_batch_group b t ≡ false
        → write_front others make_room_for_write build_batch_group my_batch b t
          ≡ (WriteEnd.no_value, s')
        → is_front b s'.writers ≡ true
    unfolding write_front
    write_front-front my_batch t s' over h = elim (Bool-cases (t.writer_at b).done) [
      | inl e ↦ absurd (
          no_value_returned (t.writer_at b).status (
            ap (λ (u : WriteEnd × WriteState W Key Mem). u.0)
              (sym (if-true (t.writer_at b).done _ _ e) ∙ h)))
      | inr e ↦
          let (status, t') = make_room_for_write (not (is_some my_batch)) t in
          let front : is_front b t.writers ≡ true = ground (arith, e, over) in
          let room = room_front (not (is_some my_batch)) t front in
          let same =
            ap (λ (u : WriteEnd × WriteState W Key Mem). u.1)
              (sym (if-false (t.writer_at b).done _ _ e) ∙ h) in
          subst (λ (u : WriteState W Key Mem). is_front b u.writers ≡ true) same
            (elim (Bool-cases (ok status && is_some my_batch)) [
              | inl f ↦
                  subst (λ (u : WriteState W Key Mem). is_front b u.writers ≡ true)
                    (sym (if-true (ok status && is_some my_batch) _ _ f)) (group_front t' room)
              | inr f ↦
                  subst (λ (u : WriteState W Key Mem). is_front b u.writers ≡ true)
                    (sym (if-false (ok status && is_some my_batch) _ _ f)) room
            ])
    ]

    -- If a writer came to the end of `Write`, and the other threads, `MakeRoomForWrite` and
    -- `BuildBatchGroup` leave it at the front of the queue and mark no waiting writer as done,
    -- then every later `Write` of another writer waits for ever.
    pub write_blocks :
        (fuel later : ℕ) (options options' : WriteOptions) (my_batch my_batch' : Option WriteBatch)
        (s s' : WriteState W Key Mem)
        → a ≢ b
        → write others make_room_for_write build_batch_group fuel options my_batch b s
          ≡ some (WriteEnd.no_value, s')
        → write others make_room_for_write build_batch_group later options' my_batch' a s' ≡ none
    unfolding write enqueue
    write_blocks fuel later options options' my_batch my_batch' s s' apart h =
        let begun = enqueue others make_room_for_write build_batch_group options my_batch b s in
        let (t, turn, ended) =
          >>=-eq-some (await_turn others make_room_for_write build_batch_group fuel b begun) _ h in
        let front =
          write_front-front my_batch t s' (await_turn_over fuel b begun t turn)
            (from_some _ (WriteEnd.no_value, s') ended) in
        let next = enqueue others make_room_for_write build_batch_group options' my_batch' a s' in
        let undone : (next.writer_at a).done ≡ false = ground arith in
        ap
          (λ o. o >>= λ u.
            some (write_front others make_room_for_write build_batch_group my_batch' a u))
          (blocked later next apart (front-append b s'.writers (a ∷ []) front) undone)
