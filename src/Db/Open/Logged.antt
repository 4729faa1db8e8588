-- ===== src/Db/Open/Logged.antt =====
-- The batches of the logs behind the steps of `DB::Open`.
use level_db.Prelude.{
  ℕ, ◌≡◌, ◌⊎◌, inl, inr, ap, sym, subst, ◌∙◌, true, false, is_some, List, [], ◌∷◌, ◌++◌,
  append_assoc, append-nil, some, Bool-cases, from_some, >>=-eq-some,
}
use level_db.Status.{Status, ok}
use level_db.Decimal.{NumberReader}
use level_db.Coding.{Coding}
use level_db.FileName.{log_file_name}
use level_db.Db.{DbImpl, Backend, Edit, EditCall}
use level_db.Db.LogFile.{Recovery}
use level_db.Db.LogFile.Entries.{Entry, add_entries}
use level_db.Db.LogFile.Segments.{joined, Stored}
use level_db.Db.LogFile.Restored.{Restored}
use level_db.Db.Open.{create_log, ensure_log}

module _ {W File Lock Logger Key Mem Compaction : Type 0} (reader : NumberReader) (coding : Coding)
    (be : Backend W File Lock Logger Key Mem Compaction) where
  -- The batches behind `Recover` and the choice of a log: the edit begins with the tables.
  pub record Logged (es : List Entry) (recovery : Recovery Key) (db : DbImpl W Key Mem)
      : Type 0 where
    pub segs : List (List Entry)
    pub rest : List Entry
    pub added : Edit Key
    pub more : Edit Key
    pub all : joined segs ++ rest ≡ es
    pub stored : Stored reader coding be segs added
    pub edited : recovery.edit ≡ added ++ more
    pub left : (rest ≡ []) ⊎ (db.mem ≡ some (add_entries reader coding be rest be.empty_mem))
    pub marked : (segs ≡ []) ⊎ (recovery.save_manifest ≡ true)

  -- The batches behind the manifest: the version set has installed an edit that begins with the
  -- tables, or there are none, and the rest is in the memtable.
  pub record Durable (es : List Entry) (db : DbImpl W Key Mem) : Type 0 where
    pub segs : List (List Entry)
    pub rest : List Entry
    pub added : Edit Key
    pub all : joined segs ++ rest ≡ es
    pub stored : Stored reader coding be segs added
    pub applied :
        (segs ≡ [])
        ⊎ ((more : Edit Key) × (w : W) × (ok (be.log_and_apply (added ++ more) w).0 ≡ true))
    pub left : (rest ≡ []) ⊎ (db.mem ≡ some (add_entries reader coding be rest be.empty_mem))

  pub Logged-Restored :
      (es : List Entry) (a b : Recovery Key) (db : DbImpl W Key Mem)
      → a.edit ≡ []
      → Restored reader coding be es a b db
      → Logged es b db
  Logged-Restored es a b db fresh h = record {
    segs = h.segs;
    rest = h.rest;
    added = h.added;
    more = [];
    all = h.all;
    stored = h.stored;
    edited = h.edited ∙ ap (λ e. e ++ h.added) fresh ∙ sym (append-nil h.added);
    left = h.left;
    marked = elim h.marked [ inl (nothing, same) ↦ inl nothing | inr marked ↦ inr marked ];
  }

  -- A new log has an empty memtable, where there was none.
  Logged-create :
      (es : List Entry) (b : Recovery Key) (db : DbImpl W Key Mem) (n : ℕ) (w : W)
      → is_some db.mem ≡ false
      → Logged es b db
      → Logged es
          (record b { edit = b.edit ++ EditCall.set_log_number n ∷ [] })
          (record db { log_open = true; mem = some be.empty_mem; world = w })
  Logged-create es b db n w empty h = record {
    segs = h.segs;
    rest = h.rest;
    added = h.added;
    more = h.more ++ EditCall.set_log_number n ∷ [];
    all = h.all;
    stored = h.stored;
    edited =
        ap (λ e. e ++ EditCall.set_log_number n ∷ []) h.edited
        ∙ append_assoc h.added h.more (EditCall.set_log_number n ∷ []);
    left = elim h.left [
      | inl nothing ↦ inl nothing
      | inr held ↦ absurd (cc (empty, ap is_some held))
    ];
    marked = h.marked;
  }

  create_log-Logged :
      (es : List Entry) (b : Recovery Key) (db : DbImpl W Key Mem)
      (r : Status × Recovery Key × DbImpl W Key Mem)
      → is_some db.mem ≡ false
      → create_log reader coding be b db ≡ some r
      → Logged es b db
      → (ok r.0 ≡ false) ⊎ Logged es r.1 r.2
  unfolding create_log
  create_log-Logged es b db r empty h logged =
      let (number, w) = be.new_file_number db.world in
      let (name, named, same) = >>=-eq-some (log_file_name db.dbname number) _ h in
      let (s, file, w') = be.env.new_writable_file name w in
      elim (Bool-cases (ok s)) [
        | inr e ↦ inl (
            ap (λ (t : Status × Recovery Key × DbImpl W Key Mem). ok t.0)
              (sym (from_some _ r (rw e at same)))
            ∙ e)
        | inl e ↦ inr (
            subst (λ (t : Status × Recovery Key × DbImpl W Key Mem). Logged es t.1 t.2)
              (from_some _ r (rw e at same)) (Logged-create es b db number w' empty logged))
      ]

  pub ensure_log-Logged :
      (es : List Entry) (t r : Status × Recovery Key × DbImpl W Key Mem)
      → ensure_log reader coding be t ≡ some r
      → ok t.0 ≡ true
      → Logged es t.1 t.2
      → (ok r.0 ≡ false) ⊎ Logged es r.1 r.2
  unfolding ensure_log
  ensure_log-Logged es (s, b, db) r h good logged = elim (Bool-cases (is_some db.mem)) [
    | inl m ↦ inr (
        subst (λ (t : Status × Recovery Key × DbImpl W Key Mem). Logged es t.1 t.2)
          (from_some (s, b, db) r (rw (good, m) at h)) logged)
    | inr m ↦ create_log-Logged es b db r m (rw (good, m) at h) logged
  ]
