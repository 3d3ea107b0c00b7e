-- ===== src/Execution/Scan/Swap.antt =====
-- A condition turned round tests the same.
use rubcase_lab.Base.{◌≡◌, refl, Bool, true, false, ap, List, arith, ℕ}
use rubcase_lab.Storage.Page.{Bytes}
use rubcase_lab.Record.Layout.{drop}
use rubcase_lab.Index.Compare.{
  ColType, type_int, type_float, type_string, ix_compare, Sign, less, same, more, sign, opposite,
}
use rubcase_lab.Index.Compare.Orders.{ix_compare-IsOrder_int, ix_compare-IsOrder_string}
use rubcase_lab.System.Meta.{ColMeta, Result, ok, ◌>>◌, guard}
use rubcase_lab.Execution.Defs.{
  Condition, CompOp, op_eq, op_ne, op_lt, op_gt, op_le, op_ge, get_col,
}
use rubcase_lab.Execution.Scan.{same_type, swap_op, swapped, holds, rhs_of, eval_cond}

holds-swap_op : (op : CompOp) (s : Sign) → holds (swap_op op) (opposite s) ≡ holds op s
unfolding holds swap_op
holds-swap_op op_eq less = refl
holds-swap_op op_eq same = refl
holds-swap_op op_eq more = refl
holds-swap_op op_ne less = refl
holds-swap_op op_ne same = refl
holds-swap_op op_ne more = refl
holds-swap_op op_lt less = refl
holds-swap_op op_lt same = refl
holds-swap_op op_lt more = refl
holds-swap_op op_gt less = refl
holds-swap_op op_gt same = refl
holds-swap_op op_gt more = refl
holds-swap_op op_le less = refl
holds-swap_op op_le same = refl
holds-swap_op op_le more = refl
holds-swap_op op_ge less = refl
holds-swap_op op_ge same = refl
holds-swap_op op_ge more = refl

-- What `eval_cond` does with the two sides: their types, the length of the left column, their bytes.
abbrev pub test :
    (Bytes → Bytes → Bool) → CompOp → ColType → ColType → ℕ → Bytes → Bytes → Result Bool
test lt_float op t u n x y = do
  guard (same_type u t)
  ok (holds op (sign (ix_compare lt_float x y u n)))

module _ (lt_float : Bytes → Bytes → Bool)
    (asym : (a b : Bytes) → lt_float a b ≡ true → lt_float b a ≡ false) where
  ix_compare-flip :
      (a b : Bytes) (type : ColType) (n : ℕ)
      → sign (ix_compare lt_float b a type n) ≡ opposite (sign (ix_compare lt_float a b type n))
  unfolding ix_compare
  ix_compare-flip a b type_int n = (ix_compare-IsOrder_int lt_float n).flip a b
  ix_compare-flip a b type_float n = ground (arith, asym a b, asym b a)
  ix_compare-flip a b type_string n = (ix_compare-IsOrder_string lt_float n).flip a b

  holds-flip :
      (op : CompOp) (t : ColType) (n : ℕ) (x y : Bytes)
      → holds (swap_op op) (sign (ix_compare lt_float y x t n))
        ≡ holds op (sign (ix_compare lt_float x y t n))
  holds-flip op t n x y =
      rw (ix_compare-flip x y t n) (holds-swap_op op (sign (ix_compare lt_float x y t n)))

  test-swap_op :
      (op : CompOp) (t u : ColType) (n : ℕ) (x y : Bytes)
      → test lt_float (swap_op op) u t n y x ≡ test lt_float op t u n x y
  test-swap_op op type_int type_int n x y = ap ok (holds-flip op type_int n x y)
  test-swap_op op type_float type_float n x y = ap ok (holds-flip op type_float n x y)
  test-swap_op op type_string type_string n x y = ap ok (holds-flip op type_string n x y)
  test-swap_op op type_int type_float n x y = refl
  test-swap_op op type_int type_string n x y = refl
  test-swap_op op type_float type_int n x y = refl
  test-swap_op op type_float type_string n x y = refl
  test-swap_op op type_string type_int n x y = refl
  test-swap_op op type_string type_float n x y = refl

  -- A condition on two columns of the same length that are found tests the same on a record when its
  -- sides are exchanged and its operator is turned by `swap_op`, whatever the operator and the types;
  -- the comparison of floats is taken to be asymmetric.
  pub eval_cond-swapped :
      (cols : List ColMeta) (c : Condition) (rec : Bytes) (i j : ℕ) (l r : ColMeta)
      → c.is_rhs_val ≡ false
      → get_col cols c.lhs_col ≡ ok (i, l)
      → get_col cols c.rhs_col ≡ ok (j, r)
      → l.len ≡ r.len
      → eval_cond lt_float cols (swapped c) rec ≡ eval_cond lt_float cols c rec
  unfolding eval_cond swapped rhs_of
  eval_cond-swapped cols c rec i j l r column left right same_len =
      rw (column, eval_cond)
        (rw (left, right, same_len)
          (test-swap_op c.op l.type r.type r.len (drop l.offset rec) (drop r.offset rec)))
