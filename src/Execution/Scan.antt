-- ===== src/Execution/Scan.antt =====
-- src/execution/executor_seq_scan.h: the conditions of a scan, and their test on a record. The loops
-- over the records are unfinished there.
pub mod Swap
use Prim.Native.String.{String}
use text.Mathlib.Text.{◌==◌ as str_eq}
use rubcase_lab.Base.{
  ℕ, zero, suc, ◌+◌, ◌-◌, ◌*◌, ◌/◌, ◌%◌, ◌^◌, Bool, true, false, ◌&&◌, ◌||◌, not, if◌then◌else◌,
  Option, none, some, List, [], ◌∷◌,
}
use rubcase_lab.Base.Int.{ℤ, pos, negsuc}
use rubcase_lab.Storage.Page.{Bytes}
use rubcase_lab.Record.Layout.{RmFileHdr, drop}
use rubcase_lab.Index.Compare.{
  ColType, type_int, type_float, type_string, ix_compare, Sign, less, same, more, sign,
}
use rubcase_lab.System.Meta.{
  ColMeta, DbMeta, Result, ok, err, ◌>>=◌, ◌>>◌, guard, each, out_of_range, undefined, get_table,
}
use rubcase_lab.Execution.Defs.{
  TabCol, Value, Condition, CompOp, op_eq, op_ne, op_lt, op_gt, op_le, op_ge, Dict, get_col,
  value_at,
}

-- The scan, without the record file that it reads and where it stands there.
pub record SeqScan : Type 0 where
  pub tab_name : String
  pub conds : List Condition
  pub cols : List ColMeta
  pub len : ℕ
  pub fed_conds : List Condition

unfoldable pub swap_op : CompOp → CompOp
swap_op op_eq = op_eq
swap_op op_ne = op_ne
swap_op op_lt = op_gt
swap_op op_gt = op_lt
swap_op op_le = op_ge
swap_op op_ge = op_le

-- Left and right exchanged, where the left column is one of another table.
unfoldable pub swapped : Condition → Condition
unfolding swap_op
swapped c = record c { lhs_col = c.rhs_col; rhs_col = c.lhs_col; op = swap_op c.op }

unfoldable pub orient : String → Condition → Result Condition
unfolding swapped
orient tab_name c =
    let turned : Result Condition = (do
      guard (not c.is_rhs_val && str_eq c.rhs_col.tab_name tab_name)
      ok (swapped c)) in
    if str_eq c.lhs_col.tab_name tab_name then ok c else turned

-- `fhs_.at`
unfoldable pub handle_at : List (String × (ℕ × RmFileHdr)) → String → Result (ℕ × RmFileHdr)
handle_at [] tab_name = err out_of_range
handle_at ((k, h) ∷ fhs) tab_name = if str_eq k tab_name then ok h else handle_at fhs tab_name

-- `back().offset + back().len`, as an `int` made a `size_t`.
abbrev pub to_size : ℕ → ℕ
to_size n = (n + n / 2 ^ 31 * (2 ^ 64 - 2 ^ 32)) % 2 ^ 64

unfoldable pub end_of : List ColMeta → Result ℕ
end_of [] = err undefined
end_of (c ∷ []) = ok (to_size ((c.offset + c.len) % 2 ^ 32))
end_of (c ∷ d ∷ cols) = end_of (d ∷ cols)

unfoldable pub seq_scan :
    DbMeta → List (String × (ℕ × RmFileHdr)) → String → List Condition → Result SeqScan
unfolding get_table handle_at end_of each orient
seq_scan db fhs tab_name conds = do
  tab ← get_table db tab_name
  _ ← handle_at fhs tab_name
  len ← end_of tab.cols
  turned ← each (orient tab_name) conds
  ok (record {
    tab_name = tab_name;
    conds = turned;
    cols = tab.cols;
    len = len;
    fed_conds = turned;
  })

-- The assertions on a condition that is about to be tested.
unfoldable pub is_local : String → Condition → Bool
is_local tab_name c =
    str_eq c.lhs_col.tab_name tab_name && (c.is_rhs_val || str_eq c.rhs_col.tab_name tab_name)

unfoldable pub check_runtime_conds : String → List Condition → Result (Unit {0})
unfolding is_local
check_runtime_conds tab_name [] = ok tt
check_runtime_conds tab_name (c ∷ fed_conds) = do
  guard (is_local tab_name c)
  check_runtime_conds tab_name fed_conds

-- A column of another table becomes the value that is fed for it.
unfoldable pub feed_cond : String → Dict → Condition → Result Condition
unfolding value_at
feed_cond tab_name feed_dict c =
    let fed : Result Condition = (do
      v ← value_at feed_dict c.rhs_col
      ok (record c { is_rhs_val = true; rhs_val = v })) in
    if not c.is_rhs_val && not (str_eq c.rhs_col.tab_name tab_name) then fed else ok c

unfoldable pub feed : SeqScan → Dict → Result SeqScan
unfolding each feed_cond check_runtime_conds
feed s feed_dict = do
  fed ← each (feed_cond s.tab_name feed_dict) s.conds
  check_runtime_conds s.tab_name fed
  ok (record s { fed_conds = fed })

abbrev pub same_type : ColType → ColType → Bool
same_type type_int type_int = true
same_type type_float type_float = true
same_type type_string type_string = true
same_type _ _ = false

-- The tests on the outcome of a comparison.
unfoldable pub holds : CompOp → Sign → Bool
holds op_eq same = true
holds op_eq _ = false
holds op_ne same = false
holds op_ne _ = true
holds op_lt less = true
holds op_lt _ = false
holds op_gt more = true
holds op_gt _ = false
holds op_le more = false
holds op_le _ = true
holds op_ge less = false
holds op_ge _ = true

-- The right-hand side: its type and its bytes.
unfoldable pub rhs_of : List ColMeta → Condition → Bytes → Result (ColType × Bytes)
unfolding get_col
rhs_of rec_cols c rec =
    let value : Result (ColType × Bytes) = elim c.rhs_val.raw [
      | none ↦ err undefined
      | some raw ↦ ok (c.rhs_val.type, raw)
    ] in
    let column : Result (ColType × Bytes) = (do
      (_, rhs_col) ← get_col rec_cols c.rhs_col
      ok (rhs_col.type, drop rhs_col.offset rec)) in
    if c.is_rhs_val then value else column

module _ (lt_float : Bytes → Bytes → Bool) where
  unfoldable pub eval_cond : List ColMeta → Condition → Bytes → Result Bool
  unfolding get_col rhs_of ix_compare holds
  eval_cond rec_cols c rec = do
    (_, lhs_col) ← get_col rec_cols c.lhs_col
    (rhs_type, rhs) ← rhs_of rec_cols c rec
    guard (same_type rhs_type lhs_col.type)
    ok (holds c.op (sign (ix_compare lt_float (drop lhs_col.offset rec) rhs rhs_type lhs_col.len)))

  -- `all_of` stops at the first condition that fails.
  unfoldable pub eval_conds : List ColMeta → List Condition → Bytes → Result Bool
  unfolding eval_cond
  eval_conds rec_cols [] rec = ok true
  eval_conds rec_cols (c ∷ conds) rec = do
    b ← eval_cond rec_cols c rec
    let rest = eval_conds rec_cols conds rec
    if b then rest else ok false
