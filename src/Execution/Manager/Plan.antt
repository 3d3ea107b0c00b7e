-- ===== src/Execution/Manager/Plan.antt =====
-- Which conditions go to the scan of which table, and that each scan can use them.
use Prim.Native.String.{String}
use text.Mathlib.Text.{◌==◌ as str_eq}
use text.Mathlib.TextEquality.{eq_iff}
use mathlib.Core.List.{append_assoc, append-nil}
use rubcase_lab.Base.{
  ◌≡◌, refl, ap, inl, inr, Bool, true, false, ◌&&◌, ◌||◌, not, if◌then◌else◌, Bool-cases, List, [],
  ◌∷◌, ◌++◌, arith,
}
use rubcase_lab.System.Meta.{ok, each}
use rubcase_lab.Execution.Defs.{Condition}
use rubcase_lab.Execution.Manager.{has_tab, solvable, pop_conds, table_conds}
use rubcase_lab.Execution.Scan.{orient, swapped}

-- The conditions that meet a test, in their order.
abbrev pub keep : (Condition → Bool) → List Condition → List Condition
keep p [] = []
keep p (c ∷ conds) = if p c then c ∷ keep p conds else keep p conds

pop_conds-keep :
    (conds : List Condition) (tab_names : List String)
    → pop_conds conds tab_names
      ≡ (keep (solvable tab_names) conds, keep (λ c. not (solvable tab_names c)) conds)
unfolding pop_conds
pop_conds-keep [] tab_names = refl
pop_conds-keep (c ∷ conds) tab_names = rw (pop_conds-keep conds tab_names, pop_conds) (ground arith)

keep-keep :
    (p q r : Condition → Bool)
    → ((c : Condition) → (q c && p c) ≡ r c)
    → (conds : List Condition) → keep p (keep q conds) ≡ keep r conds
keep-keep p q r h [] = refl
keep-keep p q r h (c ∷ conds) = ground (arith, h c, keep-keep p q r h conds)

has_tab-append :
    (xs ys : List String) (t : String) → has_tab (xs ++ ys) t ≡ (has_tab xs t || has_tab ys t)
unfolding has_tab
has_tab-append [] ys t = refl
has_tab-append (x ∷ xs) ys t = ground (arith, has_tab-append xs ys t)

-- More tables solve no fewer conditions.
solvable-append :
    (xs ys : List String) (c : Condition) → solvable xs c ≡ true → solvable (xs ++ ys) c ≡ true
unfolding solvable
solvable-append xs ys c h =
    ground (arith, has_tab-append xs ys c.lhs_col.tab_name, has_tab-append xs ys c.rhs_col.tab_name)

-- Solvable with the tables up to this one, and not with those before it.
abbrev pub first_solvable : List String → String → Condition → Bool
first_solvable before t c = not (solvable before c) && solvable (before ++ t ∷ []) c

abbrev pub first_rows : List String → List String → List Condition → List (List Condition)
first_rows before [] conds = []
first_rows before (t ∷ tab_names) conds =
    keep (first_solvable before t) conds ∷ first_rows (before ++ t ∷ []) tab_names conds

abbrev unsolvable : List String → Condition → Bool
unsolvable tab_names c = not (solvable tab_names c)

table_conds-from :
    (before tab_names : List String) (conds : List Condition)
    → table_conds before tab_names (keep (unsolvable before) conds)
      ≡ (first_rows before tab_names conds, keep (unsolvable (before ++ tab_names)) conds)
unfolding table_conds
table_conds-from before [] conds = rw (append-nil before) refl
table_conds-from before (t ∷ tab_names) conds =
    let upto = before ++ t ∷ [] in
    let row =
      keep-keep (solvable upto) (unsolvable before) (first_solvable before t) (λ c. refl) conds in
    let rest =
      keep-keep (unsolvable upto) (unsolvable before) (unsolvable upto)
        (λ c. ground (arith, solvable-append before (t ∷ []) c)) conds in
    let later = table_conds-from upto tab_names conds in
    rw (pop_conds-keep (keep (unsolvable before) conds) upto, table_conds)
      (rw (row, rest) (rw later (rw (append_assoc before (t ∷ []) tab_names) refl)))

keep-unsolvable_nil : (conds : List Condition) → keep (unsolvable []) conds ≡ conds
unfolding solvable has_tab
keep-unsolvable_nil [] = refl
keep-unsolvable_nil (c ∷ conds) = ap (◌∷◌ c) (keep-unsolvable_nil conds)

pub table_conds-first_rows :
    (tab_names : List String) (conds : List Condition)
    → table_conds [] tab_names conds
      ≡ (first_rows [] tab_names conds, keep (λ c. not (solvable tab_names c)) conds)
table_conds-first_rows tab_names conds =
    rw (keep-unsolvable_nil conds) at (table_conds-from [] tab_names conds)

-- The left column is one of the table `t`; the right-hand side is a value, or a column of one of the
-- tables `upto`.
abbrev pub IsUsable : String → List String → Condition → Type 0
IsUsable t upto c =
    (c.lhs_col.tab_name ≡ t) × ((c.is_rhs_val || has_tab upto c.rhs_col.tab_name) ≡ true)

abbrev pub AllUsable : String → List String → List Condition → Type 0
AllUsable t upto [] = Unit
AllUsable t upto (c ∷ conds) = IsUsable t upto c × AllUsable t upto conds

-- The constructor of the scan of `t` takes each row without a failed assertion.
abbrev pub RowsUsable : List String → List String → List (List Condition) → Type 0
RowsUsable before [] rows = rows ≡ []
RowsUsable before (t ∷ tab_names) [] = ⊥
RowsUsable before (t ∷ tab_names) (row ∷ rows) =
    ((turned : List Condition) × (each (orient t) row ≡ ok turned)
      × AllUsable t (before ++ t ∷ []) turned)
    × RowsUsable (before ++ t ∷ []) tab_names rows

-- Where the left column is one of another table, the right-hand side is a column of this one.
column_here :
    (before : List String) (t : String) (c : Condition)
    → first_solvable before t c ≡ true
    → str_eq c.lhs_col.tab_name t ≡ false
    → (c.is_rhs_val ≡ false)
      × (c.rhs_col.tab_name ≡ t)
      × (has_tab (before ++ t ∷ []) c.lhs_col.tab_name ≡ true)
unfolding solvable has_tab
column_here before t c h e =
    let left = has_tab-append before (t ∷ []) c.lhs_col.tab_name in
    let right = has_tab-append before (t ∷ []) c.rhs_col.tab_name in
    let same = eq_iff t c.lhs_col.tab_name in
    let same' = eq_iff c.lhs_col.tab_name t in
    let there = eq_iff t c.rhs_col.tab_name in
    (ground (arith, h), ground (arith, h), ground (arith, h))

orient-IsUsable :
    (before : List String) (t : String) (c : Condition)
    → first_solvable before t c ≡ true
    → (d : Condition) × (orient t c ≡ ok d) × IsUsable t (before ++ t ∷ []) d
unfolding orient solvable swapped has_tab
orient-IsUsable before t c h = elim (Bool-cases (str_eq c.lhs_col.tab_name t)) [
  | inl e ↦ (
    c,
    rw (e, orient) refl,
    (
      (eq_iff c.lhs_col.tab_name t).0 e,
      ground (arith, h, has_tab-append before (t ∷ []) c.rhs_col.tab_name),
    ),
  )
  | inr e ↦
      let (column, here, there) = column_here before t c h e in
      (
        swapped c,
        rw (e, orient) (rw column (ground (arith, eq_iff c.rhs_col.tab_name t, here))),
        (here, ground (arith, column, there)),
      )
]

row-AllUsable :
    (before : List String) (t : String) (conds : List Condition)
    → (turned : List Condition) × (each (orient t) (keep (first_solvable before t) conds)
        ≡ ok turned)
      × AllUsable t (before ++ t ∷ []) turned
unfolding each
row-AllUsable before t [] = ([], refl, tt)
row-AllUsable before t (c ∷ conds) =
    let (turned, done, use_all) = row-AllUsable before t conds in
    elim (Bool-cases (first_solvable before t c)) [
      | inl e ↦
          let (d, one, usable) = orient-IsUsable before t c e in
          (d ∷ turned, rw e (rw (one, each) (rw done refl)), (usable, use_all))
      | inr e ↦ (turned, rw e done, use_all)
    ]

first_rows-RowsUsable :
    (before tab_names : List String) (conds : List Condition)
    → RowsUsable before tab_names (first_rows before tab_names conds)
first_rows-RowsUsable before [] conds = refl
first_rows-RowsUsable before (t ∷ tab_names) conds =
    (row-AllUsable before t conds, first_rows-RowsUsable (before ++ t ∷ []) tab_names conds)

-- The conditions that `select_from` pops for each table are ones that the constructor of its scan
-- takes without a failed assertion: turned round where need be, the left column of each is one of the
-- table, and the right-hand side is a value or a column of one of the tables up to it.
pub table_conds-RowsUsable :
    (tab_names : List String) (conds : List Condition)
    → RowsUsable [] tab_names (table_conds [] tab_names conds).0
table_conds-RowsUsable tab_names conds =
    rw (table_conds-first_rows tab_names conds) (first_rows-RowsUsable [] tab_names conds)
