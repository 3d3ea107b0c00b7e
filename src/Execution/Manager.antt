-- ===== src/Execution/Manager.antt =====
-- The planning of src/execution/execution_manager.cpp: names of columns, and the conditions that go to
-- the scan of each table.
pub mod Names
pub mod Plan
pub mod Popped
use Prim.Native.String.{String}
use text.Mathlib.Text.{◌==◌ as str_eq}
use rubcase_lab.Base.{
  ℕ, Bool, true, false, ◌&&◌, ◌||◌, not, if◌then◌else◌, Option, none, some, List, [], ◌∷◌, ◌++◌,
}
use rubcase_lab.System.Meta.{
  ColMeta, TabMeta, DbMeta, Result, ok, err, ◌>>=◌, ◌>>◌, guard, column_not_found_error,
  ambiguous_column_error, undefined, is_table, get_table, is_col,
}
use rubcase_lab.Execution.Defs.{TabCol, Condition, CompOp, op_eq, op_ne, op_lt, op_gt, op_le, op_ge}

-- The loop that infers a table from a column, from the name found so far.
unfoldable pub infer_table : List ColMeta → String → String → Result String
infer_table [] col_name tab_name =
    if str_eq tab_name "" then err (column_not_found_error "" col_name) else ok tab_name
infer_table (c ∷ cols) col_name tab_name =
    let skip = infer_table cols col_name tab_name in
    let found = infer_table cols col_name c.tab_name in
    if str_eq c.name col_name
    then (if str_eq tab_name "" then found else err (ambiguous_column_error col_name))
    else skip

-- The test on a column whose table is given. `get_table` does not throw behind `is_table`.
unfoldable pub column_exists : DbMeta → TabCol → Result Bool
unfolding is_table get_table is_col
column_exists db target =
    let looked_up : Result Bool = (do
      tab ← get_table db target.tab_name
      ok (is_col tab target.col_name)) in
    if is_table db target.tab_name then looked_up else ok false

abbrev or_not_found : Bool → TabCol → Result TabCol
or_not_found true target = ok target
or_not_found false target = err (column_not_found_error target.tab_name target.col_name)

unfoldable pub check_column : DbMeta → List ColMeta → TabCol → Result TabCol
unfolding infer_table column_exists
check_column db all_cols target =
    let inferred : Result TabCol = (do
      tab_name ← infer_table all_cols target.col_name ""
      ok (record target { tab_name = tab_name })) in
    let given : Result TabCol = (do exists ← column_exists db target; or_not_found exists target) in
    if str_eq target.tab_name "" then inferred else given

unfoldable pub get_all_cols : DbMeta → List String → Result (List ColMeta)
unfolding get_table
get_all_cols db [] = ok []
get_all_cols db (t ∷ tab_names) = do
  tab ← get_table db t
  all_cols ← get_all_cols db tab_names
  ok (tab.cols ++ all_cols)

abbrev is_ne : CompOp → Bool
is_ne op_ne = true
is_ne _ = false

-- The loop of `get_indexNo`. The method of a table that looks a column up is still to be written: it
-- returns an iterator that is not initialised, whose use is undefined.
unfoldable pub find_index : List Condition → Result (Option ℕ)
find_index [] = ok none
find_index (c ∷ conds) =
    let rest = find_index conds in if c.is_rhs_val && not (is_ne c.op) then err undefined else rest

-- `none` is -1.
unfoldable pub get_index_no : DbMeta → String → List Condition → Result (Option ℕ)
unfolding get_table find_index
get_index_no db tab_name curr_conds = do _ ← get_table db tab_name; find_index curr_conds

unfoldable pub has_tab : List String → String → Bool
has_tab [] tab_name = false
has_tab (t ∷ tab_names) tab_name = str_eq t tab_name || has_tab tab_names tab_name

-- Every column of the condition is one of the tables.
unfoldable pub solvable : List String → Condition → Bool
unfolding has_tab
solvable tab_names c =
    has_tab tab_names c.lhs_col.tab_name && (c.is_rhs_val || has_tab tab_names c.rhs_col.tab_name)

-- The conditions taken out, and those that stay.
unfoldable pub pop_conds : List Condition → List String → List Condition × List Condition
unfolding solvable
pop_conds [] tab_names = ([], [])
pop_conds (c ∷ conds) tab_names =
    let (solved_conds, rest) = pop_conds conds tab_names in
    if solvable tab_names c then (c ∷ solved_conds, rest) else (solved_conds, c ∷ rest)

-- The calls of `pop_conds` in the loop of `select_from` over the tables: the conditions popped for
-- each, and those left at the end. The first argument holds the tables before.
unfoldable pub table_conds :
    List String → List String → List Condition → List (List Condition) × List Condition
unfolding pop_conds
table_conds before [] conds = ([], conds)
table_conds before (t ∷ tab_names) conds =
    let upto = before ++ t ∷ [] in
    let (curr_conds, rest) = pop_conds conds upto in
    let (rows, left) = table_conds upto tab_names rest in (curr_conds ∷ rows, left)
