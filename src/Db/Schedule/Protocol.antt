-- ===== src/Db/Schedule/Protocol.antt =====
-- The background calls under every interleaving of the threads.
use level_db.Prelude.{◌<◌, ◌≡◌, sym, ap, ◌∙◌, false, some, if◌then◌else◌, arith}
use level_db.Decimal.{NumberReader}
use level_db.Db.{DbImpl, Backend}
use level_db.Db.Level0.Running.{IsRunning}
use level_db.Db.Schedule.{maybe_schedule_compaction, bg_work}
use level_db.Db.Schedule.OneCall.{OneCall, maybe_schedule_compaction-OneCall, bg_work-OneCall}

module _ {W File Lock Logger Key Mem Compaction : Type 0} (reader : NumberReader)
    (be : Backend W File Lock Logger Key Mem Compaction) where
  -- What a thread that is not the background thread does with the mutex held: it asks for a
  -- background call, or changes other members.
  pub data Client (db : DbImpl W Key Mem) : DbImpl W Key Mem → Type 0 where
    asks : Client db (maybe_schedule_compaction reader be db)
    changes :
        (db' : DbImpl W Key Mem)
        → db'.bg_compaction_scheduled ≡ db.bg_compaction_scheduled
        → db'.owed_calls ≡ db.owed_calls
        → Client db db'

  -- What such threads do one after the other.
  pub data Clients (db : DbImpl W Key Mem) : DbImpl W Key Mem → Type 0 where
    done : Clients db db
    next : {db₁ db₂ : DbImpl W Key Mem} → Clients db db₁ → Client db₁ db₂ → Clients db db₂

  -- The states that the threads reach from a database without a background call, where the
  -- environment makes the calls that it owes.
  pub data Reach : DbImpl W Key Mem → Type 0 where
    start :
        (db : DbImpl W Key Mem) → db.bg_compaction_scheduled ≡ false → db.owed_calls ≡ 0 → Reach db
    client : {db db' : DbImpl W Key Mem} → Reach db → Client db db' → Reach db'
    call :
        {db db' : DbImpl W Key Mem}
        → Reach db
        → 0 < db.owed_calls
        → bg_work reader be db ≡ some db'
        → Reach db'

  Client-IsRunning : (db db' : DbImpl W Key Mem) → IsRunning db → Client db db' → IsRunning db'
  unfolding maybe_schedule_compaction
  Client-IsRunning db db' h asks = ground (arith, h)
  Client-IsRunning db db' h (changes _ marked owed) = (marked ∙ h.0, owed ∙ h.1)

  Clients-IsRunning : (db db' : DbImpl W Key Mem) → IsRunning db → Clients db db' → IsRunning db'
  Clients-IsRunning db db' h done = h
  Clients-IsRunning db db' h (next {db₁ = db₁} before step) =
      Client-IsRunning db₁ db' (Clients-IsRunning db db₁ h before) step

  Client-OneCall : (db db' : DbImpl W Key Mem) → OneCall db → Client db db' → OneCall db'
  Client-OneCall db db' h asks = (maybe_schedule_compaction-OneCall reader be db h).0
  Client-OneCall db db' h (changes _ marked owed) =
      owed ∙ h ∙ ap (λ b. if b then 1 else 0) (sym marked)

  module _ (others_clients : (db : DbImpl W Key Mem) → Clients db (be.others db))
      (work_clients : (c : Compaction) (db : DbImpl W Key Mem)
        → Clients db (be.do_compaction_work c db).2) where
    -- However the threads that use the database are interleaved, where the background thread meets
    -- others only while the mutex is released, the environment owes at most one background call,
    -- and owes it exactly when the mark is set, which the call asserts.
    pub Reach-OneCall : (db : DbImpl W Key Mem) → Reach db → OneCall db
    Reach-OneCall db (start _ unmarked none_owed) =
        none_owed ∙ ap (λ b. if b then 1 else 0) (sym unmarked)
    Reach-OneCall db (client {db = before} reached step) =
        Client-OneCall before db (Reach-OneCall before reached) step
    Reach-OneCall db (call {db = before} reached owed run) =
        (bg_work-OneCall reader be (λ d h. Clients-IsRunning d (be.others d) h (others_clients d))
          (λ c d h. Clients-IsRunning d (be.do_compaction_work c d).2 h (work_clients c d)) before
          db (Reach-OneCall before reached) run).1.0
