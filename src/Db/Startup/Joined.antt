-- ===== src/Db/Startup/Joined.antt =====
-- What was recovered from one log and from the logs behind it.
use level_db.Prelude.{
  ℕ, ◌≡◌, inl, inr, refl, ap, sym, subst, ◌∙◌, List, [], ◌∷◌, ◌++◌, append_assoc, append-nil, Bytes,
  ltb, if◌then◌else◌,
}
use level_db.Decimal.{NumberReader}
use level_db.Coding.{Coding}
use level_db.Db.{DbImpl, Backend, Edit}
use level_db.Db.Level0.Frame.{IsReady}
use level_db.Db.LogFile.{Recovery}
use level_db.Db.LogFile.Entries.{Entry, largest_of, last_of}
use level_db.Db.LogFile.Segments.{joined, Stored}
use level_db.Db.LogFile.Restored.{Restored}

largest-append :
    (es more : List Entry) (m : ℕ) → largest_of m (es ++ more) ≡ largest_of (largest_of m es) more
largest-append [] more m = refl
largest-append (e ∷ es) more m = largest-append es more (if ltb m (last_of e) then last_of e else m)

joined-append {ℓ} :
    {A : Type ℓ} (xs ys : List (List A)) → joined (xs ++ ys) ≡ joined xs ++ joined ys
joined-append [] ys = refl
joined-append (x ∷ xs) ys =
    ap (λ t. x ++ t) (joined-append xs ys) ∙ sym (append_assoc x (joined xs) (joined ys))

module _ {W File Lock Logger Key Mem Compaction : Type 0} (reader : NumberReader) (coding : Coding)
    (be : Backend W File Lock Logger Key Mem Compaction) where
  Stored-append :
      (segs more_segs : List (List Entry)) (added more : Edit Key)
      → Stored reader coding be segs added
      → Stored reader coding be more_segs more
      → Stored reader coding be (segs ++ more_segs) (added ++ more)
  Stored-append [] more_segs _ more Stored.done rest = rest
  Stored-append (s ∷ segs) more_segs _ more (Stored.table {added = a} {more = b} first rest)
        stored =
      subst (Stored reader coding be (s ∷ segs ++ more_segs)) (sym (append_assoc a b more))
        (Stored.table first (Stored-append segs more_segs b more rest stored))

  -- A log that left nothing in the memtable, and what comes behind it.
  pub Restored-append :
      (es more : List Entry) (a b c : Recovery Key) (db db' : DbImpl W Key Mem)
      → (h : Restored reader coding be es a b db) → h.rest ≡ []
      → Restored reader coding be more b c db'
      → Restored reader coding be (es ++ more) a c db'
  Restored-append es more a b c db db' h empty k = record {
    segs = h.segs ++ k.segs;
    rest = k.rest;
    added = h.added ++ k.added;
    all =
        ap (λ t. t ++ k.rest) (joined-append h.segs k.segs)
        ∙ append_assoc (joined h.segs) (joined k.segs) k.rest
        ∙ ap (λ t. joined h.segs ++ t) k.all
        ∙ ap (λ t. t ++ more)
            (sym (append-nil (joined h.segs)) ∙ ap (λ t. joined h.segs ++ t) (sym empty) ∙ h.all);
    stored = Stored-append h.segs k.segs h.added k.added h.stored k.stored;
    edited = k.edited ∙ ap (λ t. t ++ k.added) h.edited ∙ append_assoc a.edit h.added k.added;
    left = k.left;
    largest =
        k.largest
        ∙ ap (λ m. largest_of m more) h.largest
        ∙ sym (largest-append es more a.max_sequence);
    marked = elim k.marked [
      | inr marked ↦ inr marked
      | inl (no_more, same) ↦ elim h.marked [
        | inr marked ↦ inr (same ∙ marked)
        | inl (nothing, same') ↦ inl (ap (λ t. t ++ k.segs) nothing ∙ no_more, same ∙ same')
      ]
    ];
  }

  -- Nothing is in the memtable of a database that is ready.
  pub rest_nil :
      (dbname : Bytes) (There : W → Type 0) (es : List Entry) (a b : Recovery Key)
      (db : DbImpl W Key Mem) (h : Restored reader coding be es a b db)
      → IsReady reader be dbname There db
      → h.rest ≡ []
  rest_nil dbname There es a b db h ready = elim h.left [
    | inl empty ↦ empty
    | inr held ↦ absurd (cc (held, ready.empty))
  ]

  -- Another world does not change where the batches are.
  pub Restored-world :
      (es : List Entry) (a b : Recovery Key) (db : DbImpl W Key Mem) (w : W)
      → Restored reader coding be es a b db
      → Restored reader coding be (es ++ []) a b (record db { world = w })
  Restored-world es a b db w h = record {
    segs = h.segs;
    rest = h.rest;
    added = h.added;
    all = h.all ∙ sym (append-nil es);
    stored = h.stored;
    edited = h.edited;
    left = h.left;
    largest = h.largest ∙ sym (largest-append es [] a.max_sequence);
    marked = h.marked;
  }
