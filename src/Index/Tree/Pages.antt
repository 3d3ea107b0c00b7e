-- ===== src/Index/Tree/Pages.antt =====
-- Lists of different pages.
use rubcase_lab.Base.{◌≢◌, sym, List, [], ◌∷◌, ◌++◌}
use rubcase_lab.Base.Int.{ℤ}

abbrev pub Each : (ℤ → Type 0) → List ℤ → Type 0
Each P [] = Unit
Each P (p ∷ ps) = P p × Each P ps

-- No page of the list is `p`.
abbrev pub NotIn : ℤ → List ℤ → Type 0
NotIn p ps = Each (λ q. p ≢ q) ps

abbrev pub Distinct : List ℤ → Type 0
Distinct [] = Unit
Distinct (p ∷ ps) = NotIn p ps × Distinct ps

pub Each-map : {P Q : ℤ → Type 0} → ((q : ℤ) → P q → Q q) → (ps : List ℤ) → Each P ps → Each Q ps
Each-map f [] e = e
Each-map f (p ∷ ps) (e, es) = (f p e, Each-map f ps es)

pub Each-zip :
    {P Q R : ℤ → Type 0}
    → ((q : ℤ) → P q → Q q → R q)
    → (ps : List ℤ) → Each P ps
    → Each Q ps
    → Each R ps
Each-zip f [] e e' = e
Each-zip f (p ∷ ps) (e, es) (e', es') = (f p e e', Each-zip f ps es es')

pub Each-split : (P : ℤ → Type 0) (ps qs : List ℤ) → Each P (ps ++ qs) → Each P ps × Each P qs
Each-split P [] qs e = (_, e)
Each-split P (p ∷ ps) qs (e, es) = let (l, r) = Each-split P ps qs es in ((e, l), r)

pub Each-insert :
    (P : ℤ → Type 0) (ps : List ℤ) (p new : ℤ) (qs : List ℤ)
    → P new
    → Each P (ps ++ p ∷ qs)
    → Each P (ps ++ p ∷ new ∷ qs)
Each-insert P [] p new qs n (e, es) = (e, (n, es))
Each-insert P (x ∷ ps) p new qs n (e, es) = (e, Each-insert P ps p new qs n es)

pub Each-remove :
    (P : ℤ → Type 0) (ps : List ℤ) (p : ℤ) (qs : List ℤ) → Each P (ps ++ p ∷ qs) → Each P (ps ++ qs)
Each-remove P [] p qs (e, es) = es
Each-remove P (x ∷ ps) p qs (e, es) = (e, Each-remove P ps p qs es)

pub ≢-sym : {p q : ℤ} → p ≢ q → q ≢ p
≢-sym differ e = differ (sym e)

pub Distinct-insert :
    (ps : List ℤ) (p new : ℤ) (qs : List ℤ)
    → Distinct (ps ++ p ∷ qs)
    → NotIn new (ps ++ p ∷ qs)
    → Distinct (ps ++ p ∷ new ∷ qs)
Distinct-insert [] p new qs (n, d) (differ, m) = ((≢-sym differ, n), (m, d))
Distinct-insert (x ∷ ps) p new qs (n, d) (differ, m) =
    (Each-insert (λ q. x ≢ q) ps p new qs (≢-sym differ) n, Distinct-insert ps p new qs d m)

pub Distinct-remove :
    (ps : List ℤ) (p : ℤ) (qs : List ℤ) → Distinct (ps ++ p ∷ qs) → Distinct (ps ++ qs)
Distinct-remove [] p qs (n, d) = d
Distinct-remove (x ∷ ps) p qs (n, d) =
    (Each-remove (λ q. x ≢ q) ps p qs n, Distinct-remove ps p qs d)

apart_of_none : (qs : List ℤ) → Each (λ q. NotIn q []) qs
apart_of_none [] = _
apart_of_none (q ∷ qs) = (_, apart_of_none qs)

-- The pages of the second part are not in the first.
pub Distinct-split :
    (ps qs : List ℤ) → Distinct (ps ++ qs) → Distinct qs × Each (λ q. NotIn q ps) qs
Distinct-split [] qs d = (d, apart_of_none qs)
Distinct-split (x ∷ ps) qs (n, d) =
    let (d', e) = Distinct-split ps qs d in
    let (l, r) = Each-split (λ q. x ≢ q) ps qs n in
    (d', Each-zip (λ q differ others. (≢-sym differ, others)) qs r e)
