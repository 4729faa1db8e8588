-- ===== src/Db.antt =====
-- db/dp_impl.cpp and db/dp_impl.hpp: the database. This file holds the state of `DBImpl` and the
-- interface to the code that the repository does not hold: the version set, memtables, compactions
-- and logs. A function takes the state with the mutex held and returns the state with the mutex
-- held; what other threads do while it is released is the field `others` of the interface.
-- `none` stands for a failed `assert`.
pub mod CurrentFile
pub mod Level0
pub mod LogFile
pub mod Schedule
pub mod Obsolete
pub mod Startup
pub mod Open
pub mod Requests
pub mod Waits
pub mod Outputs
pub mod Flush
pub mod Lifetime
pub mod Write
pub mod Sample
use level_db.Prelude.{
  ℕ, Bool, true, false, List, [], ◌∷◌, ◌++◌, Option, none, some, Bytes, ◌||◌, ◌==◌, if◌then◌else◌,
}
use level_db.Status.{Status, ok_status, ok}
use level_db.Env.{Env}
use level_db.Builder.{FileMetaData, TableOps}

-- The calls made on a `VersionEdit`, in order.
pub data EditCall (Key : Type 0) : Type 0 where
  set_comparator_name : Bytes → EditCall Key
  set_log_number set_prev_log_number set_next_file set_last_sequence : ℕ → EditCall Key
  add_file : ℕ → FileMetaData Key → EditCall Key
  delete_file : ℕ → ℕ → EditCall Key

abbrev pub Edit : Type 0 → Type 0
Edit Key = List (EditCall Key)

-- `DBImpl::ManualCompaction`; `tmp_storage` is where the new `begin` is kept.
pub record ManualCompaction (Key : Type 0) : Type 0 where
  pub level : ℕ
  pub done : Bool
  pub begin : Option Key
  pub end : Option Key

-- The members of `DBImpl`. Objects that requests own on their stacks, `ManualCompaction`, are found
-- in `manuals` under their addresses. `world` holds the files, the versions and the caches.
pub record DbImpl (W Key Mem : Type 0) : Type 0 where
  pub dbname : Bytes
  pub create_if_missing : Bool
  pub error_if_exists : Bool
  pub paranoid_checks : Bool
  pub reuse_logs : Bool
  pub write_buffer_size : ℕ
  pub db_locked : Bool
  pub shutting_down : Bool
  pub mem : Option Mem
  pub imm : Option Mem
  pub has_imm : Bool
  pub log_open : Bool
  pub logfile_number : ℕ
  pub bg_compaction_scheduled : Bool
  pub bg_error : Status
  pub manual_compaction : Option ℕ
  pub manuals : ℕ → ManualCompaction Key
  pub pending_outputs : List ℕ
  -- How often `bg_cv_` was signalled to all, and how many calls of `BGWork` the environment owes.
  pub signals : ℕ
  pub owed_calls : ℕ
  -- The calls of `stats_[level].Add`: level, microseconds, bytes written.
  pub stats : List (ℕ × ℕ × ℕ)
  pub world : W

-- `CompactionState::Output`; its size is set when the table is finished.
pub record Output (Key : Type 0) : Type 0 where
  pub number : ℕ
  pub smallest : Key
  pub largest : Key

-- The members of `CompactionState` that the functions use; `builder` says whether there is one.
pub record CompactionState (File Key : Type 0) : Type 0 where
  pub outputs : List (Output Key)
  pub outfile : Option File
  pub builder : Bool

abbrev pub numbers_of : {Key : Type 0} → List (Output Key) → List ℕ
numbers_of [] = []
numbers_of (o ∷ os) = o.number ∷ numbers_of os

-- What the version set, a compaction and the memtable promise to `DBImpl`.
pub record Backend (W File Lock Logger Key Mem Compaction : Type 0) : Type 0 where
  pub env : Env W File Lock Logger
  pub tables : TableOps W File Key
  -- VersionSet and Version
  pub new_file_number : W → ℕ × W
  pub mark_file_number_used : ℕ → W → W
  pub live_files : W → List ℕ
  pub log_number : W → ℕ
  pub prev_log_number : W → ℕ
  pub manifest_file_number : W → ℕ
  pub last_sequence : W → ℕ
  pub set_last_sequence : ℕ → W → W
  pub log_and_apply : Edit Key → W → Status × W
  pub needs_compaction : W → Bool
  pub pick_compaction : W → Option Compaction × W
  pub compact_range : ℕ → Option Key → Option Key → W → Option Compaction × W
  pub pick_level : Key → Key → W → ℕ
  pub overlap_in_level : ℕ → Option Bytes → Option Bytes → W → Bool
  pub recover_versions : W → Status × Bool × W
  pub evict : ℕ → W → W
  -- Compaction
  pub is_trivial_move : Compaction → Bool
  pub num_first_inputs : Compaction → ℕ
  pub input_level : Compaction → ℕ
  pub first_input : Compaction → FileMetaData Key
  pub last_input_largest : Compaction → Key
  pub release_inputs : Compaction → W → W
  -- MemTable: its entries, and the status of its iterator at the end.
  pub entries : Mem → List (Bytes × Bytes)
  pub iter_status : Mem → Status
  pub empty_mem : Mem
  pub memory_usage : Mem → ℕ
  pub add_entry : ℕ → ℕ → Bytes → Bytes → Mem → Mem
  -- `VersionEdit::EncodeTo`, `log::Writer::AddRecord`, and the records that `log::Reader` finds.
  pub encode_edit : Edit Key → Bytes
  pub comparator_name : Bytes
  pub add_record : File → Bytes → W → Status × W
  pub log_records : File → W → List Bytes
  -- `WriteStringToFileSync` and `CurrentFileName`, which are declared and not defined.
  pub write_string_to_file_sync : Bytes → Bytes → W → Status × W
  pub current_file_name : Bytes → Bytes
  -- InternalKey(), and InternalKey(user_key, sequence, type) at the ends of the sequence numbers
  pub no_key : Key
  pub first_key : Bytes → Key
  pub last_key : Bytes → Key
  -- The other threads between `mutex_.Unlock()` and `mutex_.Lock()`.
  pub others : DbImpl W Key Mem → DbImpl W Key Mem
  -- `DoCompactionWork` on a new `CompactionState`: what it leaves of that, its status and the
  -- state.
  pub do_compaction_work :
      Compaction → DbImpl W Key Mem → CompactionState File Key × Status × DbImpl W Key Mem

-- `std::set<uint64_t>` as a list without repetitions.
unfoldable pub contains : List ℕ → ℕ → Bool
contains [] n = false
contains (x ∷ xs) n = (x == n) || contains xs n

unfoldable pub insert : ℕ → List ℕ → List ℕ
unfolding contains
insert n xs = if contains xs n then xs else n ∷ xs

unfoldable pub erase : ℕ → List ℕ → List ℕ
erase n [] = []
erase n (x ∷ xs) = let rest = erase n xs in if x == n then rest else x ∷ rest

unfoldable pub erase_all : List ℕ → List ℕ → List ℕ
unfolding erase
erase_all [] xs = xs
erase_all (n ∷ ns) xs = erase_all ns (erase n xs)
