-- ===== src/Lib.antt =====
-- A verification library for the C++ key-value store of this repository, a copy of LevelDB in
-- progress. Paths are from the repository's root.
--
-- The parts and their files:
-- - Prelude: what the modules share: names of the libraries, Boolean tests on native numbers, lists
--   and texts as lists of bytes (`Bytes`), bit masks. `none` of `assert` is a failed assertion.
-- - Status: include/status.hpp. A status is null or a code with two messages.
-- - Slice: include/slice.hpp. A slice is the range of bytes that it refers to; `memcmp` is the C
--   library's, of which the callers read the sign alone.
-- - Random: util/random.hpp, with the wrap-around of its words of 32 and 64 bits.
-- - Decimal, FileName: db/filename.cpp. Decimal is what `snprintf` prints and the interface of
--   `ConsumeDecimalNumber`, which is not in the repository; Decimal.Reader is an instance of it.
--   FileName has one function for each C++ function: `MakeFileName` is `make_file_name` and so on.
-- - Coding: the interface of util/coding.h, which is not in the repository; Coding.Sample is an
--   instance.
-- - Batch: db/write_batch.cpp. `rep_` is the field `rep`; `WriteBatch::Put` is `put`, and so on.
--   `Iterate` runs on fuel, a round for each byte of `rep_`: every round takes the tag at least.
--   `int` counts are patterns of 32 bits.
--   Batch.Refine reads a batch as the list of its operations.
-- - Arena: util/arena.cpp and util/arena.hpp. The heap is a parameter that answers an address for a
--   size and the blocks so far.
-- - Env: include/env.hpp, as an interface over a state of the world; `EnvWrapper` is `env_wrapper`.
-- - Options: include/options.hpp, and `ClipToRange` and `SanitizeOptions` of db/dp_impl.cpp.
-- - Builder: db/builder.cpp. An iterator is the list of its entries and the status it ends with.
-- - Db: db/dp_impl.cpp. `DbImpl` has the members of `DBImpl`; `Backend` is the interface to the
--   version set, the compactions, the memtables and the logs, which the repository does not hold.
--   Functions run with the mutex held; what other threads do to the members while it is released is
--   the field `others` of `Backend`. The files below Db:
--     CurrentFile (`SetCurrentFile` of db/filename.cpp), Obsolete (`DeleteObsoleteFiles`,
--     `MaybeIgnoreError`), Level0 (`WriteLevel10Table`, `CompactMemtable`,
--     `RecordBackgroundError`), LogFile (`RecoverLogFile`), Startup (`NewDb`, `Recover`), Open
--     (`DB::Open`), Schedule (`MaybeScheduleCompaction`, `BGWork`, `BackgroundCall`,
--     `BackgroundCompaction`, `CleanupCompaction`), Requests (`TEST_CompactRange`, whose loop runs on
--     fuel: two rounds for each step that the background thread still
--     needs are enough), Waits (the loops that only wait, on fuel: a round for each step of the other
--     threads is enough), Lifetime (the constructor and the destructor), Outputs
--     (`OpenCompactionOutputFile`), Flush (`Put`, `TEST_CompactMemTable` and `CompactRange`, over
--     the `write` of Write), Write (`Write` as far as its body goes, with the queue of the
--     writers; its wait runs on fuel), Sample (a small instance of the interfaces).
--   A batch of a log is an `Entry` of LogFile.Entries: its sequence number and its records.
--   LogFile.Segments, LogFile.Restored, Startup.Joined and Open.Logged say where the batches are
--   behind the loop over the records, behind a log, behind all logs and behind `DB::Open`: in
--   tables of the edit, segment by segment, and in the memtable. Level0.Saves says when an edit
--   stores a memtable, Builder.Written when a table has all its entries, Builder.Frame and
--   Level0.Frame what the work on tables leaves alone. Schedule.Protocol has the states that the
--   threads reach in any order of their steps, as the data type `Reach`.
-- - Posix: util/env_posix.cpp, over the record `System` of the calls of the C library and the kernel on
--   a state of the world. Limiter (the class `Limiter`, as calls and as the steps of its threads),
--   Files (the four classes of files, each method a function named after class and method),
--   LockTable (`LockOrUnlock`, `PosixFileLock`, `PosixLockTable`), Environment (`PosixEnv`), Sample (a
--   small world).
-- - SearchTree: the class `BST` of main.cpp, `OptionalBST` (Weighted; a round for each element is
--   enough fuel) and `OptionalBSTDP` (Table), whose weights are numbers that are not negative.
--
-- Each part calls the ones above it: the database builds tables from memtables and fills memtables
-- from the batches in its logs.
--
-- The C++ files do not compile as they are: misspelt names are read as the names that are meant.
-- What is not modelled: what a write does behind `BuildBatchGroup`, where the source of
-- `DBImpl::Write` ends; the destructor of `PosixEnv`, which aborts; the files of other/, which are
-- fragments of other projects and are not called; log messages; tests and generated files.
pub mod Arena
pub mod Batch
pub mod Builder
pub mod Coding
pub mod Db
pub mod Decimal
pub mod Env
pub mod FileName
pub mod Options
pub mod Posix
pub mod Prelude
pub mod Random
pub mod SearchTree
pub mod Slice
pub mod Status
