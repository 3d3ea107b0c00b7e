-- ===== src/Execution/Manager/Popped.antt =====
-- Which conditions `select_from` pops for each table, told by the tables that their columns name.
use Prim.Native.String.{String}
use mathlib.Core.Logic.Or
use mathlib.Core.Bool.{Bool-set}
use mathlib.Core.List.{Mem, mem-cons, not-mem-nil}
use text.Mathlib.Text.{◌==◌ as str_eq}
use text.Mathlib.TextEquality.{eq_iff}
use rubcase_lab.Base.{
  ◌≡◌, refl, sym, inl, inr, Bool, true, false, not, Bool-cases, List, [], ◌∷◌, ◌++◌, arith,
}
use rubcase_lab.Execution.Defs.{Condition}
use rubcase_lab.Execution.Manager.{has_tab, solvable, table_conds}
use rubcase_lab.Execution.Manager.Plan.{keep, first_solvable, first_rows, table_conds-first_rows}

-- The left column is of one of the tables, and so is the right one unless a value stands there.
abbrev pub AllOf : List String → Condition → Type 0
AllOf tab_names c =
    Mem c.lhs_col.tab_name tab_names × (c.is_rhs_val ≡ false → Mem c.rhs_col.tab_name tab_names)

-- All of a list that meets the predicate, and nothing else, in the order of the list.
pub data Kept (P : Condition → Type 0) : List Condition → List Condition → Type 0 where
  none_left : Kept P [] []
  taken :
      {c : Condition} {conds kept : List Condition}
      → P c
      → Kept P conds kept
      → Kept P (c ∷ conds) (c ∷ kept)
  passed :
      {c : Condition} {conds kept : List Condition}
      → ¬ P c
      → Kept P conds kept
      → Kept P (c ∷ conds) kept

-- For each table, behind those before, the conditions whose columns are all of the tables up to it
-- and not all of the tables before it.
abbrev pub Popped : List String → List String → List Condition → List (List Condition) → Type 0
Popped before [] conds rows = rows ≡ []
Popped before (t ∷ tab_names) conds [] = ⊥
Popped before (t ∷ tab_names) conds (row ∷ rows) =
    Kept (λ c. AllOf (before ++ t ∷ []) c × (¬ AllOf before c)) conds row
    × Popped (before ++ t ∷ []) tab_names conds rows

has_tab-Mem : (tab_names : List String) (t : String) → has_tab tab_names t ≡ true → Mem t tab_names
unfolding has_tab
has_tab-Mem [] t h = absurd (ground (arith, h))
has_tab-Mem (x ∷ tab_names) t h = elim (Bool-cases (str_eq x t)) [
  | inl e ↦ mem-cons.1 (Or.inl (sym ((eq_iff x t).0 e)))
  | inr e ↦ mem-cons.1 (Or.inr (has_tab-Mem tab_names t (ground (arith, h))))
]

Mem-has_tab : (tab_names : List String) (t : String) → Mem t tab_names → has_tab tab_names t ≡ true
unfolding has_tab
Mem-has_tab [] t m = absurd (not-mem-nil m)
Mem-has_tab (x ∷ tab_names) t m =
    Or.elim (Bool-set (has_tab (x ∷ tab_names) t) true) (mem-cons.0 m)
      (λ e. ground (arith, eq_iff x t, e)) (λ later. ground (arith, Mem-has_tab tab_names t later))

solvable-AllOf :
    (tab_names : List String) (c : Condition) → solvable tab_names c ≡ true → AllOf tab_names c
unfolding solvable
solvable-AllOf tab_names c h = (
  has_tab-Mem tab_names c.lhs_col.tab_name (ground (arith, h)),
  λ column. has_tab-Mem tab_names c.rhs_col.tab_name (ground (arith, h, column)),
)

AllOf-solvable :
    (tab_names : List String) (c : Condition) → AllOf tab_names c → solvable tab_names c ≡ true
unfolding solvable
AllOf-solvable tab_names c (left, right) =
    let l = Mem-has_tab tab_names c.lhs_col.tab_name left in
    elim (Bool-cases c.is_rhs_val) [
      | inl value ↦ ground (arith, l, value)
      | inr column ↦
          let r = Mem-has_tab tab_names c.rhs_col.tab_name (right column) in
          ground (arith, l, r, column)
    ]

not-AllOf :
    (tab_names : List String) (c : Condition) → solvable tab_names c ≡ false → ¬ AllOf tab_names c
not-AllOf tab_names c h all = cc (AllOf-solvable tab_names c all)

keep-Kept :
    (test : Condition → Bool) (P : Condition → Type 0)
    → ((c : Condition) → test c ≡ true → P c)
    → ((c : Condition) → test c ≡ false → ¬ P c)
    → (conds : List Condition) → Kept P conds (keep test conds)
keep-Kept test P meets fails [] = none_left
keep-Kept test P meets fails (c ∷ conds) =
    let later = keep-Kept test P meets fails conds in
    elim (Bool-cases (test c)) [
      | inl e ↦ rw e (taken (meets c e) later)
      | inr e ↦ rw e (passed (fails c e) later)
    ]

first_rows-Popped :
    (before tab_names : List String) (conds : List Condition)
    → Popped before tab_names conds (first_rows before tab_names conds)
first_rows-Popped before [] conds = refl
first_rows-Popped before (t ∷ tab_names) conds =
    let upto = before ++ t ∷ [] in
    (
      keep-Kept (first_solvable before t) _
          (λ c h.
            (solvable-AllOf upto c (ground (arith, h)), not-AllOf before c (ground (arith, h))))
          (λ c h (all, fresh).
            let solved = AllOf-solvable upto c all in
            fresh (solvable-AllOf before c (ground (arith, h, solved))))
          conds,
      first_rows-Popped upto tab_names conds,
    )

-- The conditions that `select_from` pops for a table are, in their order, exactly those whose columns
-- are all of the tables up to it and not all of the tables before it, the right-hand side counting
-- only where it is a column; what is left at the end are, in their order, exactly those whose columns
-- are not all of the tables.
pub table_conds_lem :
    (tab_names : List String) (conds : List Condition)
    → Popped [] tab_names conds (table_conds [] tab_names conds).0
      × Kept (λ c. ¬ AllOf tab_names c) conds (table_conds [] tab_names conds).1
table_conds_lem tab_names conds = rw (table_conds-first_rows tab_names conds) (
  first_rows-Popped [] tab_names conds,
  keep-Kept (λ c. not (solvable tab_names c)) _ (λ c h. not-AllOf tab_names c (ground (arith, h)))
      (λ c h some_else. some_else (solvable-AllOf tab_names c (ground (arith, h)))) conds,
)
