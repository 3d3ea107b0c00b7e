-- ===== src/Execution/Tree/Lookup.antt =====
-- `get_col` without positions, on the columns of a join, and what `eval_cond` reads.
use Prim.Native.String.{String}
use text.Mathlib.Text.{◌==◌ as str_eq}
use text.Mathlib.TextEquality.{eq_iff}
use rubcase_lab.Base.{
  ℕ, zero, suc, ◌+◌, ◌≤◌, ◌≡◌, refl, ap, ◌⊎◌, inl, inr, Bool, false, if◌then◌else◌, Option, none,
  some, List, [], ◌∷◌, ◌++◌, map, length, arith, Option-cases, Bool-cases,
}
use mathlib.Core.Option
use rubcase_lab.Storage.Page.{Bytes}
use rubcase_lab.Record.Layout.{take, drop}
use rubcase_lab.Index.Compare.{ColType}
use rubcase_lab.System.Meta.{ColMeta, Result, ok, err, ◌>>=◌, column_not_found_error, undefined}
use rubcase_lab.System.Layout.{IsPacked}
use rubcase_lab.Execution.Defs.{TabCol, Condition, find_col, get_col, col_key, same_col}
use rubcase_lab.Execution.Scan.{rhs_of, eval_cond}
use rubcase_lab.Execution.Scan.Swap.{test}
use rubcase_lab.Execution.Tree.{shift}
use rubcase_lab.Execution.Tree.Columns.{IsPacked-le}

abbrev pub lookup : List ColMeta → TabCol → Option ColMeta
lookup [] key = none
lookup (c ∷ cols) key = if same_col (col_key c) key then some c else lookup cols key

abbrev pub or_not_found : TabCol → Option ColMeta → Result ColMeta
or_not_found key none = err (column_not_found_error key.tab_name key.col_name)
or_not_found key (some c) = ok c

abbrev pub column_of : List ColMeta → TabCol → Result ColMeta
column_of cols key = or_not_found key (lookup cols key)

find_col-lookup :
    (i : ℕ) (cols : List ColMeta) (key : TabCol)
    → ((find_col i cols key ≡ none) × (lookup cols key ≡ none))
      ⊎ ((j : ℕ) × (c : ColMeta) × (find_col i cols key ≡ some (j, c)) × (lookup cols key ≡ some c))
unfolding find_col
find_col-lookup i [] key = inl (refl, refl)
find_col-lookup i (c ∷ cols) key = elim (Bool-cases (same_col (col_key c) key)) [
  | inl e ↦ inr (i, c, rw (e, find_col) refl, rw e refl)
  | inr e ↦ rw (e, find_col) (find_col-lookup (i + 1) cols key)
]

get_col-column_of :
    {B : Type 0} (cols : List ColMeta) (key : TabCol) (f : ColMeta → Result B)
    → (get_col cols key >>= λ p. f p.1) ≡ (column_of cols key >>= f)
unfolding get_col
get_col-column_of cols key f = elim (find_col-lookup 0 cols key) [
  | inl (e, g) ↦ rw (e, get_col) (rw g refl)
  | inr (j, c, e, g) ↦ rw (e, get_col) (rw g refl)
]

-- The right-hand side of a condition.
abbrev pub side : List ColMeta → Condition → Bytes → Result (ColType × Bytes)
side cols c rec =
    if c.is_rhs_val
    then elim c.rhs_val.raw [ none ↦ err undefined | some raw ↦ ok (c.rhs_val.type, raw) ]
    else (column_of cols c.rhs_col >>= λ r. ok (r.type, drop r.offset rec))

rhs_of-side :
    (cols : List ColMeta) (c : Condition) (rec : Bytes) → rhs_of cols c rec ≡ side cols c rec
unfolding rhs_of
rhs_of-side cols c rec = elim (Bool-cases c.is_rhs_val) [
  | inl e ↦ rw (e, rhs_of) refl
  | inr e ↦ rw (e, rhs_of) (get_col-column_of cols c.rhs_col (λ r. ok (r.type, drop r.offset rec)))
]

pub eval_cond-column_of :
    (lt_float : Bytes → Bytes → Bool) (cols : List ColMeta) (c : Condition) (rec : Bytes)
    → eval_cond lt_float cols c rec ≡ (
        column_of cols c.lhs_col >>= λ l. side cols c rec >>= λ (p : ColType × Bytes).
        test lt_float c.op l.type p.0 l.len (drop l.offset rec) p.1)
unfolding eval_cond
eval_cond-column_of lt_float cols c rec =
    rw (rhs_of-side cols c rec, eval_cond)
      (get_col-column_of cols c.lhs_col (λ l. side cols c rec >>= λ (p : ColType × Bytes).
        test lt_float c.op l.type p.0 l.len (drop l.offset rec) p.1))

-- No column of the list is one of the table, and all are.
abbrev pub Apart : String → List ColMeta → Type 0
Apart t [] = Unit
Apart t (c ∷ cols) = (str_eq c.tab_name t ≡ false) × Apart t cols

abbrev pub Within : String → List ColMeta → Type 0
Within t [] = Unit
Within t (c ∷ cols) = (c.tab_name ≡ t) × Within t cols

-- A column of the table is looked up behind the columns that are apart from it.
lookup-Apart :
    (t : String) (xs ys : List ColMeta) (key : TabCol)
    → Apart t xs
    → key.tab_name ≡ t
    → lookup (xs ++ ys) key ≡ lookup ys key
lookup-Apart t [] ys key h e = refl
lookup-Apart t (x ∷ xs) ys key (a, h) e = ground (arith, lookup-Apart t xs ys key h e)

-- A column of another table is not among those within the table.
lookup-Within :
    (t : String) (xs ys : List ColMeta) (key : TabCol)
    → Within t ys
    → str_eq key.tab_name t ≡ false
    → lookup (xs ++ ys) key ≡ lookup xs key
lookup-Within t [] [] key h e = refl
lookup-Within t [] (y ∷ ys) key (w, h) e =
    ground
      (arith, eq_iff y.tab_name key.tab_name, eq_iff key.tab_name t, lookup-Within t [] ys key h e)
lookup-Within t (x ∷ xs) ys key h e = ground (arith, lookup-Within t xs ys key h e)

lookup-shift :
    (len : ℕ) (cols : List ColMeta) (key : TabCol)
    → lookup (map (shift len) cols) key ≡ Option.map (shift len) (lookup cols key)
unfolding shift
lookup-shift len [] key = refl
lookup-shift len (c ∷ cols) key = ground (arith, lookup-shift len cols key)

Within-shift :
    (t : String) (len : ℕ) (cols : List ColMeta) → Within t cols → Within t (map (shift len) cols)
unfolding shift
Within-shift t len [] h = tt
Within-shift t len (c ∷ cols) (w, h) = (w, Within-shift t len cols h)

-- A column that is looked up lies between the ends.
pub lookup-IsPacked :
    (a b : ℕ) (cols : List ColMeta) (key : TabCol) (c : ColMeta)
    → IsPacked a cols b
    → lookup cols key ≡ some c
    → (a ≤ c.offset) × (c.offset + c.len ≤ b)
lookup-IsPacked a b [] key c p f = cc
lookup-IsPacked a b (d ∷ cols) key c (e, p) f =
    ground (arith, IsPacked-le (a + d.len) cols b p, lookup-IsPacked (a + d.len) b cols key c p)

pub drop-append :
    {A : Type 0} (xs ys : List A) (n : ℕ) → drop (n + length xs) (xs ++ ys) ≡ drop n ys
drop-append [] ys n = let none_before : n + 0 ≡ n = omega arith in rw none_before refl
drop-append (x ∷ xs) ys n =
    let one : n + suc (length xs) ≡ suc (n + length xs) = omega arith in
    rw one (drop-append xs ys n)

pub take-drop-append :
    {A : Type 0} (xs ys : List A) (n k : ℕ)
    → n + k ≤ length xs
    → take k (drop n (xs ++ ys)) ≡ take k (drop n xs)
take-drop-append xs ys zero zero h = refl
take-drop-append [] ys zero (suc k) h = absurd (omega arith)
take-drop-append (x ∷ xs) ys zero (suc k) h =
    ap (◌∷◌ x) (take-drop-append xs ys zero k (omega arith))
take-drop-append [] ys (suc n) k h = absurd (omega arith)
take-drop-append (x ∷ xs) ys (suc n) k h = take-drop-append xs ys n k (omega arith)

-- A column of a join is that of the right child, moved, where the left one is apart from its table.
pub column_of-right :
    (t : String) (len : ℕ) (xs ys : List ColMeta) (key : TabCol)
    → Apart t xs
    → key.tab_name ≡ t
    → column_of (xs ++ map (shift len) ys) key ≡ (column_of ys key >>= λ c. ok (shift len c))
column_of-right t len xs ys key h e =
    rw (lookup-Apart t xs (map (shift len) ys) key h e, lookup-shift len ys key)
      (elim (Option-cases (lookup ys key)) [ inl f ↦ rw f refl | inr (c, f) ↦ rw f refl ])

-- A column of another table is that of the left child.
pub lookup-left :
    (t : String) (len : ℕ) (xs ys : List ColMeta) (key : TabCol)
    → Within t ys
    → str_eq key.tab_name t ≡ false
    → lookup (xs ++ map (shift len) ys) key ≡ lookup xs key
lookup-left t len xs ys key h e =
    lookup-Within t xs (map (shift len) ys) key (Within-shift t len ys h) e
