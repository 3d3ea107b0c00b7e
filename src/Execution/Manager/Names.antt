-- ===== src/Execution/Manager/Names.antt =====
-- Which table a column is taken to belong to.
use Prim.Native.String.{String}
use text.Mathlib.Text.{◌==◌ as str_eq}
use rubcase_lab.Base.{◌≡◌, refl, false, if◌then◌else◌, inl, inr, Bool-cases, List, [], ◌∷◌, arith}
use rubcase_lab.System.Meta.{
  ColMeta, DbMeta, Result, ok, err, ◌>>=◌, column_not_found_error, ambiguous_column_error, is_table,
  get_table, is_col,
}
use rubcase_lab.Execution.Defs.{TabCol}
use rubcase_lab.Execution.Manager.{infer_table, column_exists, check_column}

-- The tables of the columns of a name, in their order.
abbrev pub tables_of : List ColMeta → String → List String
tables_of [] col_name = []
tables_of (c ∷ cols) col_name =
    if str_eq c.name col_name then c.tab_name ∷ tables_of cols col_name else tables_of cols col_name

-- The one table, of those that have the column.
abbrev pub the_only : String → List String → Result String
the_only col_name [] = err (column_not_found_error "" col_name)
the_only col_name (t ∷ []) = ok t
the_only col_name (t ∷ u ∷ tables) = err (ambiguous_column_error col_name)

abbrev pub AllNamed : List ColMeta → Type 0
AllNamed [] = Unit
AllNamed (c ∷ cols) = (str_eq c.tab_name "" ≡ false) × AllNamed cols

-- One was found before.
infer_table-found :
    (cols : List ColMeta) (col_name t : String)
    → str_eq t "" ≡ false
    → infer_table cols col_name t ≡ the_only col_name (t ∷ tables_of cols col_name)
unfolding infer_table
infer_table-found [] col_name t e = rw (e, infer_table) refl
infer_table-found (c ∷ cols) col_name t e = elim (Bool-cases (str_eq c.name col_name)) [
  | inl f ↦ rw (f, infer_table) (rw (e, infer_table) refl)
  | inr f ↦ rw (f, infer_table) (infer_table-found cols col_name t e)
]

infer_table-the_only :
    (cols : List ColMeta) (col_name : String)
    → AllNamed cols
    → infer_table cols col_name "" ≡ the_only col_name (tables_of cols col_name)
unfolding infer_table
infer_table-the_only [] col_name named = refl
infer_table-the_only (c ∷ cols) col_name (n, named) = elim (Bool-cases (str_eq c.name col_name)) [
  | inl f ↦ rw (f, infer_table) (infer_table-found cols col_name c.tab_name n)
  | inr f ↦ rw (f, infer_table) (infer_table-the_only cols col_name named)
]

column_exists_never : (db : DbMeta) (target : TabCol) → column_exists db target ≡ ok false
unfolding column_exists is_table get_table is_col
column_exists_never db target = ground arith

-- `check_column`, where every column has a table: a column without a table goes to the one table that
-- has it, is ambiguous if more columns have its name, and is not found if none has; a column with a
-- table is never found, whatever the catalogue holds.
pub check_column_lem :
    (db : DbMeta) (all_cols : List ColMeta) (target : TabCol)
    → AllNamed all_cols
    → check_column db all_cols target ≡ (
        if str_eq target.tab_name ""
        then (the_only target.col_name (tables_of all_cols target.col_name) >>= λ t.
            ok (record target { tab_name = t }))
        else err (column_not_found_error target.tab_name target.col_name))
unfolding check_column
check_column_lem db all_cols target named =
    rw (infer_table-the_only all_cols target.col_name named, check_column)
      (rw (column_exists_never db target) refl)
