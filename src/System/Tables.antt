-- ===== src/System/Tables.antt =====
-- `SmManager::create_table` of src/system/sm_manager.cpp, over the record files of Record/Manager.
use Prim.Native.String.{String}
use rubcase_lab.Base.{ℕ, if◌then◌else◌, List, [], ◌∷◌, ◌++◌}
use rubcase_lab.Storage.Page.{Bytes}
use rubcase_lab.Storage.Posix.{Posix}
use rubcase_lab.Storage.Disk.{DiskState}
use rubcase_lab.Record.Layout.{RmFileHdr}
use rubcase_lab.Record.Manager.{RmFileOutcome, create_record_file, open_record_file}
use rubcase_lab.System.Meta.{
  TabMeta, DbMeta, ColDef, Result, ok, err, table_exists_error, file_error, is_table, set_table,
  table_cols,
}

module _ (P : Posix) where
  pub record SmManager : Type 0 where
    pub db : DbMeta
    pub disk : DiskState P
    -- The handles of the record files, the first entry of a name being the one in the map.
    pub fhs : List (String × (ℕ × RmFileHdr))

  -- `create_table` from the file on: the table is entered before its file is opened. The last
  -- argument is what the header of the file handle held before it is read.
  unfoldable pub add_table :
      SmManager → String → TabMeta → ℕ → Bytes → SmManager × Result (Unit {0})
  unfolding set_table
  add_table s tab_name tab record_size any_bytes =
      let (d, created) = create_record_file P s.disk tab_name record_size in
      elim created [
        | RmFileOutcome.throws e ↦ (record s { disk = d }, err (file_error e))
        | RmFileOutcome.returns _ ↦
            let db : DbMeta = record (s.db) { tabs = set_table s.db.tabs tab_name tab } in
            let (o, opened) = open_record_file P d tab_name any_bytes in
            elim opened [
              | RmFileOutcome.throws e ↦ (record s { db = db; disk = o }, err (file_error e))
              | RmFileOutcome.returns h ↦
                  (record s { db = db; disk = o; fhs = s.fhs ++ (tab_name, h) ∷ [] }, ok tt)
            ]
      ]

  unfoldable pub create_table :
      SmManager → String → List ColDef → Bytes → SmManager × Result (Unit {0})
  unfolding is_table table_cols add_table
  create_table s tab_name col_defs any_bytes =
      let (cols, record_size) = table_cols tab_name 0 col_defs in
      if is_table s.db tab_name
      then (s, err (table_exists_error tab_name))
      else add_table s tab_name (record { name = tab_name; cols = cols }) record_size any_bytes
