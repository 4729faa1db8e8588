-- ===== src/Db/Sample/Recovery.antt =====
-- The recovery of two logs with one batch each.
use level_db.Prelude.{
  if◌then◌else◌, ◌>>=◌, true, inr, ℕ, ◌≡◌, ◌⊎◌, refl, arith, false, List, [], ◌∷◌, some, Bytes,
  codes, subst, sym, All, Option, none,
}
use level_db.Status.{Status, ok, ok_status}
use level_db.Decimal.Reader.{run_reader, consume_run}
use level_db.Decimal.{print_padded, digits, in_buffer}
use level_db.Coding.Sample.{little_endian}
use level_db.FileName.{log_file_name, make_file_name, parse_file_name}
use level_db.Builder.Frame.{IsKept}
use level_db.Db.LogFile.{Recovery}
use level_db.Db.LogFile.Entries.{Entry, Encodes}
use level_db.Batch.{init}
use level_db.Batch.Contents.{apply_ops}
use level_db.Db.LogFile.Restored.{Restored}
use level_db.Db.Level0.Frame.{IsReady}
use level_db.Db.Startup.{recover_logs, find_logs, sort, finish_recovery, recover}
use level_db.Db.Startup.Intact.{IsIntact, found, begun, listed_db}
use level_db.Db.Startup.Logs.{count, IsAscending, logs_named, is_named, is_needed}
use level_db.Db.Startup.Replays.{recover_replays}
use level_db.Db.Open.{db_open}
use level_db.Db.Open.Logged.{Durable}
use level_db.Db.Open.Lossless.{db_open-Durable}
use level_db.Db.{Backend, contains, erase}
use level_db.Slice.{equal, starts_with}
use level_db.Db.Startup.Lossless.{IsReadable, contents_of, recover_logs-Restored}
use level_db.Db.Sample.{World, sample_env, sample_tables, sample_fills}
use level_db.Db.Sample.Logs.{ops, State, logged, logged_there, numbering, nothing, tight, named}

-- The logs of the sample environment do not change.
abbrev There : World → Type 0
There w = Unit

abbrev batches : ℕ → List Entry
batches n = logged ∷ []

tables_kept : IsKept sample_env sample_tables (codes "/db") There
tables_kept = record {
  opened = λ n f w h t. tt;
  deleted = λ n f w h t. tt;
  added = λ file k v w t. tt;
  finished = λ file w t. tt;
  synced = λ file w t. tt;
  closed = λ file w t. tt;
  checked = λ n size w t. tt;
}

named_next : log_file_name (codes "/db") 4 ≡ some (codes "/db000004.log")
unfolding log_file_name make_file_name print_padded digits in_buffer
named_next = refl

file-IsReadable :
    (n : ℕ) (fname : Bytes)
    → log_file_name (codes "/db") n ≡ some fname
    → IsReadable run_reader little_endian numbering (codes "/db") There batches n
file-IsReadable n fname h = record {
  fname = fname;
  named = h;
  opens = λ w t. refl;
  reads = λ w t. (0, refl, inr (logged_there, tt));
  stays = λ w t. tt;
}

tight-IsReady : IsReady run_reader numbering (codes "/db") There tight
tight-IsReady = record { there = tt; named = refl; closed = refl; empty = refl }

-- The sample environment with a directory that lists CURRENT and two logs.
abbrev two_logs : List Bytes
two_logs = codes "CURRENT" ∷ codes "000005.log" ∷ codes "000004.log" ∷ []

abbrev listing : Backend World ℕ ℕ ℕ Bytes (List (Bytes × Bytes)) ℕ
listing = record numbering {
  env = record sample_env { get_children = λ d w. (ok_status, two_logs, w) };
}

abbrev existing : State
existing = record tight { world = record tight.world { names = codes "/db/CURRENT" ∷ [] } }

logs_found : sort (found run_reader little_endian listing existing).1 ≡ 4 ∷ 5 ∷ []
unfolding sort find_logs parse_file_name consume_run equal starts_with
logs_found = refl

listed_there :
    Encodes run_reader little_endian listing (apply_ops little_endian init ops).rep logged
listed_there = record {
  holds = logged_there.holds;
  some_ops = omega arith;
  few_ops = omega arith;
  last_fits = omega arith;
}

named_last : log_file_name (codes "/db") 5 ≡ some (codes "/db000005.log")
unfolding log_file_name make_file_name print_padded digits in_buffer
named_last = refl

listed-IsReadable :
    (n : ℕ) (fname : Bytes)
    → log_file_name (codes "/db") n ≡ some fname
    → IsReadable run_reader little_endian listing (codes "/db") There batches n
listed-IsReadable n fname h = record {
  fname = fname;
  named = h;
  opens = λ w t. refl;
  reads = λ w t. (0, refl, inr (listed_there, tt));
  stays = λ w t. tt;
}

listing_kept : IsKept listing.env sample_tables (codes "/db") There
listing_kept = record {
  opened = λ n f w h t. tt;
  deleted = λ n f w h t. tt;
  added = λ file k v w t. tt;
  finished = λ file w t. tt;
  synced = λ file w t. tt;
  closed = λ file w t. tt;
  checked = λ n size w t. tt;
}

existing-IsIntact : IsIntact run_reader little_endian listing existing
unfolding find_logs parse_file_name consume_run equal starts_with erase
existing-IsIntact = record {
  free = refl;
  locks = refl;
  current = refl;
  versioned = refl;
  listed = refl;
  complete = refl;
}

logs-IsReadable :
    All
      (IsReadable run_reader little_endian listing (codes "/db") There batches)
      (sort (found run_reader little_endian listing existing).1)
logs-IsReadable =
    subst (All (IsReadable run_reader little_endian listing (codes "/db") There batches))
      (sym logs_found)
      (
        listed-IsReadable 4 (codes "/db000004.log") named_next,
        (listed-IsReadable 5 (codes "/db000005.log") named_last, tt),
      )

db_open-Durable_example :
    (r : Status × Option State) × (db_open run_reader little_endian listing existing ≡ some r)
    × (((ok r.0 ≡ false) × (r.1 ≡ none))
        ⊎ ((db' : State) × (r.1 ≡ some db')
            × Durable run_reader little_endian listing
                (contents_of batches (sort (found run_reader little_endian listing existing).1))
                db'))
db_open-Durable_example =
    db_open-Durable run_reader little_endian listing (λ f w e. (0, refl)) sample_fills
      (λ w. omega arith) (codes "/db") There batches listing_kept (λ w t. tt) (λ n w t. tt)
      (λ db h. h) (λ db m h. h) existing existing-IsIntact logs-IsReadable tt refl refl refl

recover_logs-Restored_example :
    (r : Status × Recovery Bytes × State) × (recover_logs run_reader little_endian numbering
        (3 ∷ 4 ∷ [])
        nothing
        tight
      ≡ some r)
    × ((ok r.0 ≡ false)
        ⊎ Restored run_reader little_endian numbering
            (contents_of batches (3 ∷ 4 ∷ []))
            nothing
            r.1
            r.2)
recover_logs-Restored_example =
    recover_logs-Restored run_reader little_endian numbering (λ f w e. (0, refl)) sample_fills
      (λ w. omega arith) (codes "/db") There batches tables_kept (λ w t. tt) (λ n w t. tt)
      (λ db h. h) (3 ∷ 4 ∷ []) nothing tight
      (
        file-IsReadable 3 (codes "/db000003.log") named,
        (file-IsReadable 4 (codes "/db000004.log") named_next, tt),
      )
      tight-IsReady

recover_replays_example :
    (recover run_reader little_endian listing nothing existing ≡ (
      recover_logs run_reader little_endian listing
        (sort (found run_reader little_endian listing existing).1)
        (begun run_reader little_endian listing nothing existing)
        (listed_db run_reader little_endian listing existing)
      >>= λ r. some (finish_recovery run_reader little_endian listing r)))
    × IsAscending (sort (found run_reader little_endian listing existing).1)
    × (count 5 (sort (found run_reader little_endian listing existing).1) ≡ (
        if is_needed run_reader little_endian listing 0 0 5
        then logs_named run_reader little_endian listing 5 two_logs
        else 0))
    × ((contains [] 5 ≡ false) ⊎ (is_named run_reader little_endian listing 5 two_logs ≡ true))
recover_replays_example =
    recover_replays run_reader little_endian listing nothing existing 5 existing-IsIntact
