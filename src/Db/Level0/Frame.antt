-- ===== src/Db/Level0/Frame.antt =====
-- What `WriteLevel10Table` leaves alone while a log is recovered.
use level_db.Prelude.{◌≡◌, subst, false, none, some, Bytes, from_some, >>=-eq-some, Option}
use level_db.Status.{Status}
use level_db.Decimal.{NumberReader}
use level_db.Builder.{FileMetaData, build_table}
use level_db.Builder.Frame.{IsKept, build_table-There}
use level_db.Db.{DbImpl, Backend, Edit}
use level_db.Db.Level0.{write_level0_table, build_level0, start_level0, table_written}

module _ {W File Lock Logger Key Mem Compaction : Type 0} (reader : NumberReader)
    (be : Backend W File Lock Logger Key Mem Compaction) (dbname : Bytes) (There : W → Type 0) where
  -- The database before its log is opened, with the files that are to be read.
  pub record IsReady (db : DbImpl W Key Mem) : Type 0 where
    pub there : There db.world
    pub named : db.dbname ≡ dbname
    pub closed : db.log_open ≡ false
    pub empty : db.mem ≡ none

  module _ (kept : IsKept be.env be.tables dbname There)
      (numbered : (w : W) → There w → There (be.new_file_number w).1)
      (others_ready : (db : DbImpl W Key Mem) → IsReady db → IsReady (be.others db)) where
    pub write_level0_table-IsReady :
        (mem : Mem) (edit : Edit Key) (base : Option W) (db : DbImpl W Key Mem)
        (t : Status × Edit Key × DbImpl W Key Mem)
        → write_level0_table reader be mem edit base db ≡ some t
        → IsReady db
        → IsReady t.2
    unfolding write_level0_table build_level0 start_level0 table_written
    write_level0_table-IsReady mem edit base db t h ready =
        let (number, started) = start_level0 reader be db in
        let (r, built, same) = >>=-eq-some (build_level0 reader be mem (number, started)) _ h in
        let new : FileMetaData Key = record {
          number = number;
          file_size = 0;
          smallest = be.no_key;
          largest = be.no_key;
        } in
        let ready₁ : IsReady started = others_ready _ (record {
          there = numbered db.world ready.there;
          named = ready.named;
          closed = ready.closed;
          empty = ready.empty;
        }) in
        let there =
          build_table-There be.env be.tables dbname There kept (be.entries mem) (be.iter_status mem)
            new started.world r
            (subst
              (λ name.
                build_table be.env be.tables name (be.entries mem) (be.iter_status mem) new
                  started.world
                ≡ some r)
              ready₁.named built)
            ready₁.there in
        let ready₂ =
          others_ready (record started { world = r.2 })
            (record {
              there = there;
              named = ready₁.named;
              closed = ready₁.closed;
              empty = ready₁.empty;
            }) in
        subst (λ (u : Status × Edit Key × DbImpl W Key Mem). IsReady u.2) (from_some _ t same)
          (record {
            there = ready₂.there;
            named = ready₂.named;
            closed = ready₂.closed;
            empty = ready₂.empty;
          })
