-- ===== src/Db/Outputs.antt =====
-- `OpenCompactionOutputFile`: a new output of a compaction. The function is called without the
-- mutex; the state it takes is that of the time when it gets the mutex.
pub mod Pending
use level_db.Prelude.{
  ℕ, Bool, true, false, ◌||◌, not, List, [], ◌∷◌, ◌++◌, Option, none, some, Bytes, ◌>>=◌, assert,
}
use level_db.Status.{Status, ok}
use level_db.FileName.{table_file_name}
use level_db.Db.{DbImpl, Backend, Output, CompactionState, insert}

-- `CompactionState(Compaction*)`
abbrev pub new_compaction_state : {File Key : Type 0} → CompactionState File Key
new_compaction_state = record { outputs = []; outfile = none; builder = false }

-- `current_output`, a pointer to the last output; none where there is no output.
pub current_output : {Key : Type 0} → List (Output Key) → Option (Output Key)
current_output [] = none
current_output (o ∷ []) = some o
current_output (o ∷ p ∷ os) = current_output (p ∷ os)

module _ {W File Lock Logger Key Mem Compaction : Type 0}
    (be : Backend W File Lock Logger Key Mem Compaction) where
  open be use {env, new_file_number, others, no_key}

  -- With the mutex: a number, which is pending from here on. A key that was cleared is empty.
  unfoldable pub add_output :
      CompactionState File Key → DbImpl W Key Mem → ℕ × CompactionState File Key × DbImpl W Key Mem
  add_output compact db =
      let (number, w) = new_file_number db.world in
      let out : Output Key = record { number = number; smallest = no_key; largest = no_key } in
      (
        number,
        record compact { outputs = compact.outputs ++ out ∷ [] },
        record db { pending_outputs = insert number db.pending_outputs; world = w },
      )

  -- Without the mutex: the file, and a builder that writes to it.
  unfoldable pub make_output :
      Bytes
      → CompactionState File Key
      → DbImpl W Key Mem
      → Status × CompactionState File Key × DbImpl W Key Mem
  make_output fname compact db =
      let (s, file, w) = env.new_writable_file fname db.world in
      (s, record compact { outfile = file; builder = ok s }, record db { world = w })

  unfoldable pub open_compaction_output_file :
      CompactionState File Key
      → DbImpl W Key Mem
      → Option (Status × CompactionState File Key × DbImpl W Key Mem)
  unfolding add_output make_output
  open_compaction_output_file compact db =
      let (number, compact', db') = add_output compact db in
      assert (not compact.builder) (
        table_file_name db.dbname number >>= λ fname.
        some (make_output fname compact' (others db')))
