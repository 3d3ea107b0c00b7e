-- ===== src/Base/Lists.antt =====
-- Lists measured and indexed by native numbers, and `std::list` at both ends.
use Prim.Native.Nat.{ℕ, zero, suc, ◌<◌}
use mathlib.Core.Path.{◌≡◌, refl, ap}
use mathlib.Core.Logic.{◌⊎◌, inl, inr}
use mathlib.Core.Bool.{Bool, false, ◌||◌}
use mathlib.Core.List.{List, [], ◌∷◌, ◌++◌}
use mathlib.Core.Option.{Option, none, some}
use native.Mathlib.Omega.{arith}
use rubcase_lab.Base.Tests.{◌==◌, if◌then◌else◌}

module _ {ℓ} {A : Type ℓ} where
  abbrev pub length : List A → ℕ
  length [] = 0
  length (x ∷ xs) = suc (length xs)

  -- A list without its last element, and that element.
  unfoldable pub unsnoc : List A → Option (List A × A)
  unsnoc [] = none
  unsnoc (x ∷ xs) = elim (unsnoc xs) [ none ↦ some ([], x) | some (ys, y) ↦ some (x ∷ ys, y) ]

  abbrev pub replicate : ℕ → A → List A
  replicate zero a = []
  replicate (suc n) a = a ∷ replicate n a

-- Whether a number stands in a list.
unfoldable pub contains : ℕ → List ℕ → Bool
contains k [] = false
contains k (x ∷ xs) = x == k || contains k xs

-- The list without the first occurrence of a number.
unfoldable pub erase : ℕ → List ℕ → List ℕ
erase k [] = []
erase k (x ∷ xs) = if x == k then xs else x ∷ erase k xs

-- The last element is split off at the end.
pub unsnoc-cases {ℓ} :
    {A : Type ℓ} (l : List A)
    → ((l ≡ []) × (unsnoc l ≡ none))
      ⊎ ((ys : List A) × (y : A) × (l ≡ ys ++ y ∷ []) × (unsnoc l ≡ some (ys, y)))
unfolding unsnoc
unsnoc-cases [] = inl (refl, refl)
unsnoc-cases (x ∷ xs) = elim (unsnoc-cases xs) [
  | inl (e, u) ↦ inr ([], x, ap (◌∷◌ x) e, rw (u, unsnoc))
  | inr (ys, y, e, u) ↦ inr (x ∷ ys, y, ap (◌∷◌ x) e, rw (u, unsnoc))
]

pub unsnoc-snoc {ℓ} : {A : Type ℓ} (ys : List A) (y : A) → unsnoc (ys ++ y ∷ []) ≡ some (ys, y)
unfolding unsnoc
unsnoc-snoc [] y = refl
unsnoc-snoc (x ∷ ys) y = rw (unsnoc-snoc ys y, unsnoc)

module _ {ℓ} {A : Type ℓ} where
  abbrev pub get_or : List A → ℕ → A → A
  get_or [] i d = d
  get_or (x ∷ xs) zero d = x
  get_or (x ∷ xs) (suc i) d = get_or xs i d

  -- A write out of bounds changes nothing.
  abbrev pub set : List A → ℕ → A → List A
  set [] i v = []
  set (x ∷ xs) zero v = v ∷ xs
  set (x ∷ xs) (suc i) v = x ∷ set xs i v

  pub length-set : (xs : List A) (i : ℕ) (v : A) → length (set xs i v) ≡ length xs
  length-set [] i v = refl
  length-set (x ∷ xs) zero v = refl
  length-set (x ∷ xs) (suc i) v = ap suc (length-set xs i v)

  pub get_or-set :
      (xs : List A) (i j : ℕ) (v d : A)
      → i < length xs
      → get_or (set xs i v) j d ≡ (if i == j then v else get_or xs j d)
  get_or-set [] i j v d h = absurd (omega arith)
  get_or-set (x ∷ xs) zero zero v d h = refl
  get_or-set (x ∷ xs) zero (suc j) v d h = ground arith
  get_or-set (x ∷ xs) (suc i) zero v d h = ground arith
  get_or-set (x ∷ xs) (suc i) (suc j) v d h = ground (arith, get_or-set xs i j v d (omega arith))
