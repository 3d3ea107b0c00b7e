-- ===== src/System/Layout.antt =====
-- Where the columns of a table lie, and what `create_table` enters.
use Prim.Native.String.{String}
use text.Mathlib.TextEquality.{eq_iff}
use native.Mathlib.Nat.{mod-eq_of_lt, add_assoc}
use text.Mathlib.Text.{◌==◌ as str_eq}
use rubcase_lab.Base.{
  ℕ, ◌+◌, ◌%◌, ◌^◌, ◌≤◌, ◌<◌, ◌≡◌, refl, ap, true, false, if◌then◌else◌, List, [], ◌∷◌, ◌++◌, map,
  some, arith, Bool-cases, ◌⊎◌, inl, inr,
}
use rubcase_lab.Storage.Disk.{DiskState}
use rubcase_lab.Storage.Page.{Bytes}
use rubcase_lab.Storage.Posix.{Posix}
use rubcase_lab.Record.Layout.{RmFileHdr, new_file_hdr}
use rubcase_lab.Record.Manager.{RmFileError, RmFileOutcome, create_record_file, open_record_file}
use rubcase_lab.System.Meta.{
  ColMeta, TabMeta, DbMeta, ColDef, Result, ok, err, table_exists_error, file_error, is_table,
  set_table, find_table, table_cols,
}
use rubcase_lab.System.Tables.{SmManager, add_table, create_table}

-- The columns lie one behind the other from `a` to `b`.
abbrev pub IsPacked : ℕ → List ColMeta → ℕ → Type 0
IsPacked a [] b = a ≡ b
IsPacked a (c ∷ cols) b = (c.offset ≡ a) × IsPacked (a + c.len) cols b

abbrev pub total_len : List ColDef → ℕ
total_len [] = 0
total_len (d ∷ defs) = d.len + total_len defs

-- The columns of every table of the catalogue lie one behind the other in a record of 1 to 512 bytes.
abbrev pub IsLaidOut : DbMeta → Type 0
IsLaidOut db =
    (tab_name : String) (tab : TabMeta)
    → find_table db.tabs tab_name ≡ some tab
    → (n : ℕ) × (1 ≤ n) × (n ≤ 512) × IsPacked 0 tab.cols n

-- What a definition says of a column.
abbrev pub col_def : ColMeta → ColDef
col_def c = record { name = c.name; type = c.type; len = c.len }

-- A column per definition, packed behind the offset.
pub table_cols-IsPacked :
    (tab_name : String) (a : ℕ) (defs : List ColDef)
    → a + total_len defs < 2 ^ 32
    → IsPacked a (table_cols tab_name a defs).0 (a + total_len defs)
      × ((table_cols tab_name a defs).1 ≡ a + total_len defs)
unfolding table_cols
table_cols-IsPacked tab_name a [] h = omega arith
table_cols-IsPacked tab_name a (d ∷ defs) h =
    let here : (a + d.len) % 2 ^ 32 ≡ a + d.len = mod-eq_of_lt (omega arith) in
    let (p, e) = table_cols-IsPacked tab_name (a + d.len) defs (omega arith) in
    rw here ((refl, rw (← add_assoc a d.len (total_len defs)) p), rw e (add_assoc a d.len _))

-- The columns of a table begin at 0.
pub table_cols-IsPacked_zero :
    (tab_name : String) (defs : List ColDef)
    → total_len defs < 2 ^ 32
    → IsPacked 0 (table_cols tab_name 0 defs).0 (total_len defs)
      × ((table_cols tab_name 0 defs).1 ≡ total_len defs)
table_cols-IsPacked_zero tab_name defs small =
    let sum : 0 + total_len defs ≡ total_len defs = omega arith in
    rw sum at (table_cols-IsPacked tab_name 0 defs (omega arith))

table_cols-col_def :
    (tab_name : String) (a : ℕ) (defs : List ColDef)
    → map col_def (table_cols tab_name a defs).0 ≡ defs
unfolding table_cols
table_cols-col_def tab_name a [] = refl
table_cols-col_def tab_name a (d ∷ defs) =
    ap (◌∷◌ d) (table_cols-col_def tab_name ((a + d.len) % 2 ^ 32) defs)

-- The entry of a name after an assignment: that of the name itself, and every other as before.
find_table-set_table :
    (tabs : List (String × TabMeta)) (k j : String) (t : TabMeta)
    → find_table (set_table tabs k t) j ≡ (if str_eq k j then some t else find_table tabs j)
unfolding find_table set_table
find_table-set_table [] k j t = refl
find_table-set_table ((i, u) ∷ tabs) k j t =
    ground (arith, eq_iff i k, eq_iff i j, eq_iff k j, find_table-set_table tabs k j t)

module _ (P : Posix) where
  create_record_file_size :
      (d : DiskState P) (tab_name : String) (n : ℕ)
      → (create_record_file P d tab_name n).1 ≡ RmFileOutcome.returns tt
      → (1 ≤ n) × (n ≤ 512)
  unfolding create_record_file new_file_hdr
  create_record_file_size d tab_name n h = ground arith

  -- The table is in the catalogue `db'`, every other name as in `db`: its columns are those of the
  -- definitions, lie one behind the other from 0 on, and fill a record of 1 to 512 bytes.
  pub record IsEntered (db db' : DbMeta) (tab_name : String) (defs : List ColDef) : Type 0 where
    pub tab : TabMeta
    pub named : tab.name ≡ tab_name
    pub described : map col_def tab.cols ≡ defs
    pub packed : IsPacked 0 tab.cols (total_len defs)
    pub not_empty : 1 ≤ total_len defs
    pub bounded : total_len defs ≤ 512
    pub entry :
        (j : String)
        → find_table db'.tabs j ≡ (if str_eq tab_name j then some tab else find_table db.tabs j)

  -- What `create_table` may come to, with what each step of it did.
  pub data Creates (s : SmManager P) (tab_name : String) (defs : List ColDef) (any_bytes : Bytes)
      : SmManager P × Result (Unit {0}) → Type 0 where
    exists :
        is_table s.db tab_name ≡ true
        → Creates s tab_name defs any_bytes (s, err (table_exists_error tab_name))
    not_created :
        (d : DiskState P) (e : RmFileError)
        → is_table s.db tab_name ≡ false
        → create_record_file P s.disk tab_name (total_len defs) ≡ (d, RmFileOutcome.throws e)
        → Creates s tab_name defs any_bytes (record s { disk = d }, err (file_error e))
    not_opened :
        (c d : DiskState P) (db : DbMeta) (e : RmFileError)
        → is_table s.db tab_name ≡ false
        → create_record_file P s.disk tab_name (total_len defs) ≡ (c, RmFileOutcome.returns tt)
        → open_record_file P c tab_name any_bytes ≡ (d, RmFileOutcome.throws e)
        → IsEntered s.db db tab_name defs
        → Creates s tab_name defs any_bytes (record s { db = db; disk = d }, err (file_error e))
    created :
        (c d : DiskState P) (db : DbMeta) (h : ℕ × RmFileHdr)
        → is_table s.db tab_name ≡ false
        → create_record_file P s.disk tab_name (total_len defs) ≡ (c, RmFileOutcome.returns tt)
        → open_record_file P c tab_name any_bytes ≡ (d, RmFileOutcome.returns h)
        → IsEntered s.db db tab_name defs
        → Creates s tab_name defs any_bytes
            (record s { db = db; disk = d; fhs = s.fhs ++ (tab_name, h) ∷ [] }, ok tt)

  RmFileOutcome-cases :
      {A : Type 0} (o : RmFileOutcome A)
      → ((e : RmFileError) × (o ≡ RmFileOutcome.throws e))
        ⊎ ((a : A) × (o ≡ RmFileOutcome.returns a))
  RmFileOutcome-cases (RmFileOutcome.throws e) = inl (e, refl)
  RmFileOutcome-cases (RmFileOutcome.returns a) = inr (a, refl)

  set_table-IsEntered :
      (db : DbMeta) (tab_name : String) (defs : List ColDef)
      → total_len defs < 2 ^ 32
      → (1 ≤ total_len defs) × (total_len defs ≤ 512)
      → let cols = (table_cols tab_name 0 defs).0 in
        let tab : TabMeta = record { name = tab_name; cols = cols } in
        IsEntered db (record db { tabs = set_table db.tabs tab_name tab }) tab_name defs
  set_table-IsEntered db tab_name defs small (low, high) =
      let cols = (table_cols tab_name 0 defs).0 in
      let tab : TabMeta = record { name = tab_name; cols = cols } in
      record {
        tab = tab;
        named = refl;
        described = table_cols-col_def tab_name 0 defs;
        packed = (table_cols-IsPacked_zero tab_name defs small).0;
        not_empty = low;
        bounded = high;
        entry = λ j. find_table-set_table db.tabs tab_name j tab;
      }

  -- `create_table` from the file on.
  add_table-Creates :
      (s : SmManager P) (tab_name : String) (defs : List ColDef) (any_bytes : Bytes)
      → total_len defs < 2 ^ 32
      → is_table s.db tab_name ≡ false
      → let cols = (table_cols tab_name 0 defs).0 in
        Creates s tab_name defs any_bytes (
          add_table P s tab_name
            (record { name = tab_name; cols = cols })
            (total_len defs)
            any_bytes)
  unfolding add_table
  add_table-Creates s tab_name defs any_bytes small fresh =
      let size = total_len defs in
      let made = create_record_file P s.disk tab_name size in
      let opens = open_record_file P made.0 tab_name any_bytes in
      elim (RmFileOutcome-cases made.1) [
        | inl (e, failed) ↦
            rw (failed, add_table) (not_created made.0 e fresh (ap (λ r. (made.0, r)) failed))
        | inr (_, done) ↦
            let fits = create_record_file_size s.disk tab_name size done in
            let entered = set_table-IsEntered s.db tab_name defs small fits in
            let made_file = ap (λ r. (made.0, r)) done in
            elim (RmFileOutcome-cases opens.1) [
              | inl (e, failed) ↦
                  let no_file = ap (λ r. (opens.0, r)) failed in
                  rw (done, add_table)
                    (rw failed (not_opened made.0 opens.0 _ e fresh made_file no_file entered))
              | inr (h, opened) ↦
                  let file = ap (λ r. (opens.0, r)) opened in
                  rw (done, add_table)
                    (rw opened (created made.0 opens.0 _ h fresh made_file file entered))
            ]
      ]

  -- `create_table`, for columns whose lengths add up to less than 2^32: a table that is there is
  -- refused and nothing changed; where making its file throws, the catalogue is as before; where the
  -- file is made, the table is in the catalogue, with a column for every definition, packed from 0
  -- into a record of 1 to 512 bytes, and no other name changed. Where opening the file then throws,
  -- the table stays there, without a handle; where it does not, the handle is entered.
  pub create_table-Creates :
      (s : SmManager P) (tab_name : String) (defs : List ColDef) (any_bytes : Bytes)
      → total_len defs < 2 ^ 32
      → Creates s tab_name defs any_bytes (create_table P s tab_name defs any_bytes)
  unfolding create_table
  create_table-Creates s tab_name defs any_bytes small =
      elim (Bool-cases (is_table s.db tab_name)) [
        | inl old ↦ rw old (exists old)
        | inr fresh ↦
            rw (fresh, create_table)
              (rw (table_cols-IsPacked_zero tab_name defs small).1
                (add_table-Creates s tab_name defs any_bytes small fresh))
      ]

  IsEntered-IsLaidOut :
      {db db' : DbMeta} {tab_name : String} {defs : List ColDef}
      → IsEntered db db' tab_name defs
      → IsLaidOut db
      → IsLaidOut db'
  IsEntered-IsLaidOut {db} {db'} {tab_name} {defs} e laid j tab f =
      elim (Bool-cases (str_eq tab_name j)) [
        | inl same ↦
            let is : e.tab ≡ tab = ground (arith, e.entry j) in
            (total_len defs, e.not_empty, e.bounded, rw (← is) e.packed)
        | inr other ↦ laid j tab (ground (arith, e.entry j))
      ]

  Creates-IsLaidOut :
      {s : SmManager P} {tab_name : String} {defs : List ColDef} {any_bytes : Bytes}
      {r : SmManager P × Result (Unit {0})}
      → Creates s tab_name defs any_bytes r
      → IsLaidOut s.db
      → IsLaidOut r.0.db
  Creates-IsLaidOut (exists _) laid = laid
  Creates-IsLaidOut (not_created d e _ _) laid = laid
  Creates-IsLaidOut (not_opened c d db e _ _ _ entered) laid = IsEntered-IsLaidOut entered laid
  Creates-IsLaidOut (created c d db h _ _ _ entered) laid = IsEntered-IsLaidOut entered laid

  -- `create_table`, for columns whose lengths add up without overflow, keeps the tables laid out,
  -- whatever it comes to.
  pub create_table-IsLaidOut :
      (s : SmManager P) (tab_name : String) (defs : List ColDef) (any_bytes : Bytes)
      → total_len defs < 2 ^ 32
      → IsLaidOut s.db
      → IsLaidOut (create_table P s tab_name defs any_bytes).0.db
  create_table-IsLaidOut s tab_name defs any_bytes small =
      Creates-IsLaidOut (create_table-Creates s tab_name defs any_bytes small)
