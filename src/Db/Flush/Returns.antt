-- ===== src/Db/Flush/Returns.antt =====
-- The wait for the memtable, and the levels that `CompactRange` asks for.
use level_db.Prelude.{
  ◌&&◌, ◌>>=◌, ap, ◌∙◌, if-true, if-false, ◌==◌, is_some, ℕ, zero, suc, ◌+◌, ◌-◌, ◌≤◌, ◌<◌, ◌≡◌,
  ◌⊎◌, refl, Bool, true, false, none, some, if◌then◌else◌, Bool-cases, inl, inr, arith,
}
use level_db.Status.{Status, ok}
use level_db.Decimal.{NumberReader}
use level_db.Coding.{Coding}
use level_db.Options.{default_write_options}
use level_db.Db.{Backend}
use level_db.Db.Write.{WriteState, WriteEnd, must_wait, enqueue, write}
use level_db.Db.Write.Turn.{write_ends}
use level_db.Db.Flush.{
  await_flush, flush_status, wait_for_flush, test_compact_mem_table, last_level,
  max_level_with_files,
}

last_level_found :
    (overlaps : ℕ → Bool) (k level found : ℕ)
    → (last_level overlaps k level found ≡ found)
      ⊎ (overlaps (last_level overlaps k level found) ≡ true)
unfolding last_level
last_level_found overlaps zero level found = inl refl
last_level_found overlaps (suc k) level found =
    let next = if overlaps level then level else found in
    elim (last_level_found overlaps k (level + 1) next) [
      | inr h ↦ inr h
      | inl h ↦ elim (Bool-cases (overlaps level)) [
        | inl e ↦ inr (ap overlaps h ∙ ap overlaps (if-true (overlaps level) level found e) ∙ e)
        | inr e ↦ inl (h ∙ if-false (overlaps level) level found e)
      ]
    ]

last_level_le :
    (overlaps : ℕ → Bool) (k level found : ℕ)
    → found ≤ level
    → found ≤ last_level overlaps k level found
unfolding last_level
last_level_le overlaps zero level found h = omega arith
last_level_le overlaps (suc k) level found h =
    let next = if overlaps level then level else found in
    let below : next ≤ level + 1 = ground arith in
    ground (arith, last_level_le overlaps k (level + 1) next below)

last_level_covers :
    (overlaps : ℕ → Bool) (k level found l : ℕ)
    → found ≤ level
    → level ≤ l
    → l < level + k
    → overlaps l ≡ true
    → l ≤ last_level overlaps k level found
unfolding last_level
last_level_covers overlaps zero level found l h a b e = absurd (omega arith)
last_level_covers overlaps (suc k) level found l h a b e =
    let next = if overlaps level then level else found in
    let below : next ≤ level + 1 = ground arith in
    elim (Bool-cases (level == l)) [
      | inl same ↦ ground (arith, last_level_le overlaps k (level + 1) next below, same)
      | inr other ↦
          last_level_covers overlaps k (level + 1) next l below (ground (arith, other))
            (omega arith) e
    ]

-- `CompactRange` compacts the levels below a level that is 1 or overlaps the range, and no level
-- from 1 on that overlaps the range is above it.
pub max_level_with_files_lem :
    (overlaps : ℕ → Bool) (num_levels l : ℕ)
    → 1 ≤ l
    → l < num_levels
    → ((max_level_with_files overlaps num_levels ≡ 1)
        ⊎ (overlaps (max_level_with_files overlaps num_levels) ≡ true))
      × ((overlaps l ≡ false) ⊎ (l ≤ max_level_with_files overlaps num_levels))
unfolding max_level_with_files
max_level_with_files_lem overlaps num_levels l a b = (
  last_level_found overlaps (num_levels - 1) 1 1,
  elim (Bool-cases (overlaps l)) [
    | inr e ↦ inl e
    | inl e ↦
        inr (last_level_covers overlaps (num_levels - 1) 1 1 l (omega arith) a (omega arith) e)
  ],
)

-- What the waits of `TEST_CompactMemTable` rely on: every wait of the writer at `a` brings it nearer
-- to its turn, and every wait for the memtable brings its end nearer.
module _ {W File Lock Logger Key Mem Compaction : Type 0} (reader : NumberReader) (coding : Coding)
    (be : Backend W File Lock Logger Key Mem Compaction)
    (others : WriteState W Key Mem → WriteState W Key Mem)
    (make_room_for_write : Bool → WriteState W Key Mem → Status × WriteState W Key Mem)
    (build_batch_group : ℕ → WriteState W Key Mem → WriteState W Key Mem) (a : ℕ)
    (turn_rank flush_rank : WriteState W Key Mem → ℕ)
    (nearer : (s : WriteState W Key Mem)
      → must_wait others make_room_for_write build_batch_group a s ≡ true
      → turn_rank (others s) < turn_rank s)
    (progress : (s : WriteState W Key Mem)
      → is_some s.db.imm ≡ true
      → ok s.db.bg_error ≡ true
      → flush_rank (others s) < flush_rank s) where
  await_flush_ends :
      (k : ℕ) (s : WriteState W Key Mem)
      → flush_rank s < k
      → (t : WriteState W Key Mem) × (await_flush reader coding be others make_room_for_write
            build_batch_group k s
          ≡ some t)
        × ((is_some t.db.imm ≡ false) ⊎ (ok t.db.bg_error ≡ false))
  unfolding await_flush
  await_flush_ends zero s h = absurd (omega arith)
  await_flush_ends (suc k) s h =
      let test = is_some s.db.imm && ok s.db.bg_error in
      elim (Bool-cases (is_some s.db.imm)) [
        | inr e ↦ (s, if-false test _ _ (ground (arith, e)), inl e)
        | inl e ↦ elim (Bool-cases (ok s.db.bg_error)) [
          | inr f ↦ (s, if-false test _ _ (ground (arith, e, f)), inr f)
          | inl f ↦
              let (t, run, over) = await_flush_ends k (others s) (omega (arith, progress s e f)) in
              (t, if-true test _ _ (ground (arith, e, f)) ∙ run, over)
        ]
      ]

  -- How `TEST_CompactMemTable` ends behind a `Write` that has ended with `u`: without a value, if
  -- the write has none; with the error of the write; with the success of the write, and no
  -- memtable that is to be written; or with the background error that has ended the wait.
  abbrev pub Flushed : WriteEnd × WriteState W Key Mem → WriteEnd × WriteState W Key Mem → Type 0
  Flushed u r =
      ((u.0 ≡ WriteEnd.no_value) × (r ≡ u))
      ⊎ ((status : Status) × (u.0 ≡ WriteEnd.returned status)
          × (((ok status ≡ false) × (r ≡ u))
              ⊎ (((ok status ≡ true)
                    × (is_some r.1.db.imm ≡ false)
                    × (r.0 ≡ WriteEnd.returned status))
                  ⊎ ((ok status ≡ true)
                      × (is_some r.1.db.imm ≡ true)
                      × (ok r.1.db.bg_error ≡ false)
                      × (r.0 ≡ WriteEnd.returned r.1.db.bg_error)))))

  flush_status-Flushed :
      (status : Status) (s t : WriteState W Key Mem)
      → ok status ≡ true
      → (is_some t.db.imm ≡ false) ⊎ (ok t.db.bg_error ≡ false)
      → Flushed
          (WriteEnd.returned status, s)
          (flush_status reader coding be others make_room_for_write build_batch_group status t)
  unfolding flush_status
  flush_status-Flushed status s t good over = elim (Bool-cases (is_some t.db.imm)) [
    | inr e ↦ inr (
      status,
      refl,
      inr (inl (good, e, ap WriteEnd.returned (if-false (is_some t.db.imm) _ _ e))),
    )
    | inl e ↦ elim over [
      | inl none_left ↦ absurd (cc (e, none_left))
      | inr bad ↦ inr (
        status,
        refl,
        inr (inr (good, e, bad, ap WriteEnd.returned (if-true (is_some t.db.imm) _ _ e))),
      )
    ]
  ]

  wait_for_flush_ends :
      (u : WriteEnd × WriteState W Key Mem)
      → (r : WriteEnd × WriteState W Key Mem) × (wait_for_flush reader coding be others
            make_room_for_write build_batch_group
            (suc (flush_rank u.1))
            u
          ≡ some r)
        × Flushed u r
  unfolding wait_for_flush
  wait_for_flush_ends (WriteEnd.no_value, s) = ((WriteEnd.no_value, s), refl, inl (refl, refl))
  wait_for_flush_ends (WriteEnd.returned status, s) = elim (Bool-cases (ok status)) [
    | inr e ↦ (
      (WriteEnd.returned status, s),
      if-false (ok status) _ _ e,
      inr (status, refl, inl (e, refl)),
    )
    | inl e ↦
        let status_of =
          flush_status reader coding be others make_room_for_write build_batch_group status in
        let (t, run, over) = await_flush_ends (suc (flush_rank s)) s (omega arith) in
        (
          status_of t,
          if-true (ok status) _ _ e ∙ ap (λ o. o >>= λ v. some (status_of v)) run,
          flush_status-Flushed status s t e over,
        )
  ]

  -- If every wait of the writer brings it nearer to its turn, and every wait for the memtable brings
  -- the end of that wait nearer, then `TEST_CompactMemTable` ends behind its `Write` without a
  -- batch, which ends too: without a value, if the write has none; with the error that the write
  -- returns; or, where the write returns a success, with this status and no memtable that is to be
  -- written, or with the background error, which is one, and such a memtable.
  pub test_compact_mem_table_ends :
      (fuel : ℕ) (s : WriteState W Key Mem)
      → turn_rank
          (enqueue others make_room_for_write build_batch_group default_write_options none a s)
        < fuel
      → (k : ℕ) × (u : WriteEnd × WriteState W Key Mem) × (r : WriteEnd × WriteState W Key Mem)
        × (write others make_room_for_write build_batch_group fuel default_write_options none a s
            ≡ some u)
        × (test_compact_mem_table reader coding be others make_room_for_write build_batch_group fuel
              k a s
            ≡ some r)
        × Flushed u r
  unfolding test_compact_mem_table
  test_compact_mem_table_ends fuel s h =
      let (_, u, run, _, _, _) =
        write_ends others make_room_for_write build_batch_group a turn_rank nearer fuel
          default_write_options none s h in
      let (r, waited, ended) = wait_for_flush_ends u in
      let waits =
        wait_for_flush reader coding be others make_room_for_write build_batch_group
          (suc (flush_rank u.1)) in
      (suc (flush_rank u.1), u, r, run, ap (λ o. o >>= waits) run ∙ waited, ended)
