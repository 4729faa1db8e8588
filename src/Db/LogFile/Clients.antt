-- ===== src/Db/LogFile/Clients.antt =====
-- The batches that clients put together, logged and recovered.
use level_db.Prelude.{
  inr, Bool, ℕ, ◌^◌, ◌+◌, ◌<◌, ◌≡◌, ◌⊎◌, sym, subst, true, false, List, [], ◌∷◌, All, map, none,
  some, Bytes, length, arith,
}
use level_db.Status.{Status, ok}
use level_db.Decimal.{NumberReader}
use level_db.Coding.{Coding}
use level_db.FileName.{log_file_name}
use level_db.Batch.{init, set_sequence}
use level_db.Batch.Header.{IsShort}
use level_db.Batch.Contents.{apply_ops, init-Holds, apply_ops-Holds, set_sequence-Holds}
use level_db.Db.{DbImpl, Backend}
use level_db.Db.LogFile.{Recovery, recover_log_file}
use level_db.Db.LogFile.Entries.{Entry, Encodes, EncodeAll}
use level_db.Db.LogFile.Restored.{Restored}
use level_db.Db.LogFile.Lossless.{recover_log_file-Restored}

-- The record of a batch that a client has made with `Put` and `Delete` and that got its sequence
-- number.
abbrev pub record_of : Coding → Entry → Bytes
record_of coding e = (apply_ops coding (set_sequence coding init e.first) e.ops).rep

-- At least one record and less than 2^31, keys and values with 32-bit lengths, and sequence
-- numbers of 64 bits.
pub record IsBatch (e : Entry) : Type 0 where
  pub some_ops : 0 < length e.ops
  pub few_ops : length e.ops < 2 ^ 31
  pub last_fits : e.first + length e.ops < 2 ^ 64
  pub short : All IsShort e.ops

module _ {W File Lock Logger Key Mem Compaction : Type 0} (reader : NumberReader) (coding : Coding)
    (be : Backend W File Lock Logger Key Mem Compaction) where
  record_of-Encodes : (e : Entry) → IsBatch e → Encodes reader coding be (record_of coding e) e
  record_of-Encodes e h = record {
    holds =
        apply_ops-Holds coding (set_sequence coding init e.first) e.first [] e.ops
          (set_sequence-Holds coding init 0 e.first [] (init-Holds coding)
            (omega (arith, h.last_fits)))
          h.short (omega (arith, h.few_ops));
    some_ops = h.some_ops;
    few_ops = h.few_ops;
    last_fits = h.last_fits;
  }

  pub records-EncodeAll :
      (es : List Entry) → All IsBatch es → EncodeAll reader coding be (map (record_of coding) es) es
  records-EncodeAll [] h = tt
  records-EncodeAll (e ∷ es) (h, hs) = inr (record_of-Encodes e h, records-EncodeAll es hs)

module _ {W File Lock Logger Key Mem Compaction : Type 0} (reader : NumberReader) (coding : Coding)
    (be : Backend W File Lock Logger Key Mem Compaction)
    (opens : (f : Bytes) (w : W)
      → ok (be.env.new_writable_file f w).0 ≡ true
      → (file : File) × ((be.env.new_writable_file f w).1 ≡ some file))
    (fills : (file : File) (w : W)
      → ok (be.tables.finish file w).0 ≡ true
      → 0 < be.tables.file_size file (be.tables.finish file w).1)
    (counts : (w : W) → 0 < (be.new_file_number w).0) where
  -- Clients make batches with `Put` and `Delete`, each with at least one record and with sizes and
  -- sequence numbers that fit their widths. If a log that can be opened holds these batches, then
  -- `RecoverLogFile`, on a database without an open log or a memtable, for any size of the write
  -- buffer and whether it reuses the log or not, returns an error, or has every record of the
  -- batches in order: a prefix is stored in synced tables that were added to the edit, which is
  -- marked to be saved, and the rest, if there is one, is the contents of `mem_`. The largest
  -- sequence number is recorded. File numbers are positive, a file that is opened with success is
  -- there, and a table that is finished with success is not empty.
  pub recover_log_file-records :
      (n : ℕ) (last_log : Bool) (recovery : Recovery Key) (db : DbImpl W Key Mem) (fname : Bytes)
      (file : File) (es : List Entry)
      → All IsBatch es
      → log_file_name db.dbname n ≡ some fname
      → ok (be.env.new_sequential_file fname db.world).0 ≡ true
      → (be.env.new_sequential_file fname db.world).1 ≡ some file
      → be.log_records file (be.env.new_sequential_file fname db.world).2
        ≡ map (record_of coding) es
      → db.log_open ≡ false
      → db.mem ≡ none
      → (r : Status × Recovery Key × DbImpl W Key Mem) × (recover_log_file reader coding be n
            last_log recovery db
          ≡ some r)
        × ((ok r.0 ≡ false) ⊎ Restored reader coding be es recovery r.1 r.2)
  recover_log_file-records n last_log recovery db fname file es batches named opened got logged
        closed empty =
      recover_log_file-Restored reader coding be opens fills counts n last_log recovery db fname
        file es named opened got
        (subst (λ recs. EncodeAll reader coding be recs es) (sym logged)
          (records-EncodeAll reader coding be es batches))
        closed empty
