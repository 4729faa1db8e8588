-- ===== src/Db/Outputs/Pending.antt =====
-- The outputs of a compaction in `pending_outputs_`, from `OpenCompactionOutputFile` to
-- `CleanupCompaction`.
use level_db.Prelude.{
  is_some, ℕ, ◌≡◌, refl, sym, ap, ◌∙◌, true, false, ◌&&◌, ◌||◌, not, List, [], ◌∷◌, ◌++◌, some,
  Bytes, codes, ◌==◌, Bool-cases, inl, inr, arith, from_some, >>=-eq-some, assert-eq-some,
  assert-true,
}
use level_db.Status.{Status, ok}
use level_db.Decimal.{NumberReader}
use level_db.FileName.{FileType, parse_file_name, table_file_name}
use level_db.Db.{
  Output, CompactionState, numbers_of, DbImpl, Backend, contains, insert, erase, erase_all,
}
use level_db.Db.Startup.Logs.{contains-erase}
use level_db.Db.Schedule.{cleanup_compaction}
use level_db.Db.Obsolete.{delete_obsolete_files, keep}
use level_db.Db.Obsolete.Frame.{IsFramed, survives, survives_parsed, survives_keeps}
use level_db.Db.Outputs.{add_output, make_output, open_compaction_output_file}

contains-insert : (n m : ℕ) (xs : List ℕ) → contains (insert m xs) n ≡ contains xs n || (m == n)
unfolding contains insert
contains-insert n m xs = elim (Bool-cases (contains xs m)) [
  | inl e ↦ rw e (ground (arith, e))
  | inr e ↦ rw e (ground arith)
]

contains-erase_all :
    (n : ℕ) (ns xs : List ℕ) → contains (erase_all ns xs) n ≡ contains xs n && not (contains ns n)
unfolding contains erase_all
contains-erase_all n [] xs = ground arith
contains-erase_all n (m ∷ ns) xs =
    ground (arith, contains-erase_all n ns (erase m xs), contains-erase n m xs)

contains-append : (n : ℕ) (xs ys : List ℕ) → contains (xs ++ ys) n ≡ contains xs n || contains ys n
unfolding contains
contains-append n [] ys = refl
contains-append n (x ∷ xs) ys = ground (arith, contains-append n xs ys)

contains-numbers :
    {Key : Type 0} (n : ℕ) (os : List (Output Key)) (o : Output Key)
    → contains (numbers_of (os ++ o ∷ [])) n ≡ contains (numbers_of os) n || (o.number == n)
unfolding contains
contains-numbers n [] o = ground arith
contains-numbers n (p ∷ os) o = ground (arith, contains-numbers n os o)

module _ {W File Lock Logger Key Mem Compaction : Type 0} (reader : NumberReader)
    (be : Backend W File Lock Logger Key Mem Compaction) where
  -- What a call that returns has done.
  opened :
      (compact : CompactionState File Key) (db : DbImpl W Key Mem)
      (r : Status × CompactionState File Key × DbImpl W Key Mem)
      → open_compaction_output_file be compact db ≡ some r
      → (r.1.outputs ≡ (add_output be compact db).1.outputs)
        × (r.2.pending_outputs ≡ (be.others (add_output be compact db).2).pending_outputs)
        × (r.1.builder ≡ ok r.0)
        × (compact.builder ≡ false)
  unfolding open_compaction_output_file make_output
  opened compact db r h =
      let (number, compact', db') = add_output be compact db in
      let inner = assert-eq-some (not compact.builder) _ r h in
      let (fname, named, made) = >>=-eq-some (table_file_name db.dbname number) _ inner in
      let same = from_some (make_output be fname compact' (be.others db')) r made in
      (
        ap (λ t. t.1.outputs) (sym same),
        ap (λ t. t.2.pending_outputs) (sym same),
        ap (λ t. t.1.builder) (sym same) ∙ ap (λ t. ok t.0) same,
        ground (arith, assert-true (not compact.builder) _ r h),
      )

  -- The number that a call takes is pending when the call has it.
  pending_number :
      (compact : CompactionState File Key) (db : DbImpl W Key Mem)
      → contains (add_output be compact db).2.pending_outputs (be.new_file_number db.world).0 ≡ true
  unfolding add_output
  pending_number compact db =
      let n = (be.new_file_number db.world).0 in
      ground (arith, contains-insert n n db.pending_outputs)

  -- If other threads take no number out of the pending ones, then `DeleteObsoleteFiles` behind a
  -- call of `OpenCompactionOutputFile` that returns does not delete the table with the number that
  -- the call took, as long as deleting one file touches neither another one nor the version set.
  pub open_compaction_output_file_spared :
      IsFramed be
      → ((d : DbImpl W Key Mem) (n : ℕ)
          → contains d.pending_outputs n ≡ true
          → contains (be.others d).pending_outputs n ≡ true)
      → (compact : CompactionState File Key) (db : DbImpl W Key Mem)
        (r : Status × CompactionState File Key × DbImpl W Key Mem) (f : Bytes)
      → open_compaction_output_file be compact db ≡ some r
      → parse_file_name reader f ≡ some ((be.new_file_number db.world).0, FileType.table_file)
      → be.env.file_exists (r.2.dbname ++ codes "/" ++ f) r.2.world ≡ true
      → be.env.file_exists
          (r.2.dbname ++ codes "/" ++ f)
          (delete_obsolete_files reader be r.2).world
        ≡ true
  unfolding survives survives_parsed keep
  open_compaction_output_file_spared framed keeps compact db r f h parsed there =
      let n = (be.new_file_number db.world).0 in
      let (_, pending, _, _) = opened compact db r h in
      let kept = keeps (add_output be compact db).2 n (pending_number compact db) in
      let live = r.2.pending_outputs ++ be.live_files r.2.world in
      survives_keeps reader be framed r.2 f there (
        ap (survives_parsed reader be live r.2.world) parsed
        ∙ contains-append n r.2.pending_outputs (be.live_files r.2.world)
        ∙ ap (λ b. b || contains (be.live_files r.2.world) n)
            (ap (λ xs. contains xs n) pending ∙ kept))

  cleaned :
      (m : ℕ) (compact : CompactionState File Key) (db db' : DbImpl W Key Mem)
      → cleanup_compaction reader be compact db ≡ some db'
      → contains db'.pending_outputs m
        ≡ (contains db.pending_outputs m && not (contains (numbers_of compact.outputs) m))
  unfolding cleanup_compaction
  cleaned m compact db db' h =
      let held = assert-eq-some (compact.builder || not (is_some compact.outfile)) _ db' h in
      ap (λ d. contains d.pending_outputs m) (sym (from_some _ db' held))
      ∙ contains-erase_all m (numbers_of compact.outputs) db.pending_outputs

  added :
      (compact : CompactionState File Key) (db : DbImpl W Key Mem) (m : ℕ)
      → contains db.pending_outputs (be.new_file_number db.world).0 ≡ false
      → (contains (add_output be compact db).2.pending_outputs m
          && not (contains (numbers_of (add_output be compact db).1.outputs) m))
        ≡ (contains db.pending_outputs m && not (contains (numbers_of compact.outputs) m))
  unfolding add_output
  added compact db m fresh =
      let n = (be.new_file_number db.world).0 in
      let out : Output Key = record { number = n; smallest = be.no_key; largest = be.no_key } in
      elim (Bool-cases (n == m)) [
        | inr e ↦
            ground (
              arith,
              contains-insert m n db.pending_outputs,
              contains-numbers m compact.outputs out,
            )
        | inl e ↦
            let gone : contains db.pending_outputs m ≡ false =
              ap (contains db.pending_outputs) (sym (ground (arith, e))) ∙ fresh in
            ground (
              arith,
              gone,
              contains-insert m n db.pending_outputs,
              contains-numbers m compact.outputs out,
            )
      ]

  -- If other threads leave the pending numbers alone, and the version set answers a number that is
  -- not pending, then `CleanupCompaction` behind a call of `OpenCompactionOutputFile`, where both
  -- return, leaves the same numbers pending as `CleanupCompaction` in place of the call: what was
  -- opened is given up, and nothing else.
  pub cleanup-open_compaction_output_file :
      ((d : DbImpl W Key Mem) → (be.others d).pending_outputs ≡ d.pending_outputs)
      → (compact : CompactionState File Key) (db before after : DbImpl W Key Mem)
        (r : Status × CompactionState File Key × DbImpl W Key Mem) (m : ℕ)
      → contains db.pending_outputs (be.new_file_number db.world).0 ≡ false
      → open_compaction_output_file be compact db ≡ some r
      → cleanup_compaction reader be compact db ≡ some before
      → cleanup_compaction reader be r.1 r.2 ≡ some after
      → contains after.pending_outputs m ≡ contains before.pending_outputs m
  cleanup-open_compaction_output_file quiet compact db before after r m fresh h earlier later =
      let (outputs, pending, _, _) = opened compact db r h in
      cleaned m r.1 r.2 after later
      ∙ cc (outputs, pending, quiet (add_output be compact db).2)
      ∙ added compact db m fresh
      ∙ sym (cleaned m compact db before earlier)
