-- ===== src/Index/Tree/Store.antt =====
-- Writes, pins and releases of single pages.
use mathlib.Core.Logic.{ite}
use rubcase_lab.Base.{◌≤◌, ◌<◌, ◌≡◌, ◌≢◌, refl, ap, sym, ◌∙◌, Bool, arith}
use rubcase_lab.Base.Int.{ℤ, ℤ-discrete}
use rubcase_lab.Index.Node.{IxNodeHandle}
use rubcase_lab.Index.Tree.{IxIndexHandle, put_at, unpin, fetch_node}

pub put_at-same {ℓ} : {A : Type ℓ} (f : ℤ → A) (p : ℤ) (a : A) → put_at f p a p ≡ a
put_at-same f p a = ground arith

pub put_at-other {ℓ} :
    {A : Type ℓ} (f : ℤ → A) (p : ℤ) (a : A) (q : ℤ) → p ≢ q → put_at f p a q ≡ f q
put_at-other f p a q differ = ground arith

-- A write of a node that keeps one of its fields.
pub put_at-field :
    {A : Type 0} (f : IxNodeHandle → A) (nodes : ℤ → IxNodeHandle) (p : ℤ) (m : IxNodeHandle)
    → f m ≡ f (nodes p)
    → (q : ℤ) → f (put_at nodes p m q) ≡ f (nodes q)
put_at-field f nodes p m e q = elim (ℤ-discrete p q) [
  | yes there ↦
      ap (λ x. f (put_at nodes p m x)) (sym there)
      ∙ ap f (put_at-same nodes p m)
      ∙ e
      ∙ ap (λ x. f (nodes x)) there
  | no differ ↦ ap f (put_at-other nodes p m q differ)
]

pub unpin-nodes : (h : IxIndexHandle) (p : ℤ) (dirty : Bool) → (unpin h p dirty).nodes ≡ h.nodes
unfolding unpin
unpin-nodes h p dirty = ground arith

pub unpin-pin_count :
    (h : IxIndexHandle) (p q : ℤ) (dirty : Bool)
    → p ≢ q
    → (unpin h p dirty).pin_count q ≡ h.pin_count q
unfolding unpin
unpin-pin_count h p q dirty differ = ground arith

pub fetch_node-pins : (h : IxIndexHandle) (p q : ℤ) → h.pin_count q ≤ (fetch_node h p).pin_count q
unfolding fetch_node
fetch_node-pins h p q = elim (ℤ-discrete p q) [
  | yes e ↦ ground (arith, ap h.pin_count e)
  | no e ↦ ground arith
]

pub fetch_node-pinned : (h : IxIndexHandle) (p : ℤ) → h.pin_count p < (fetch_node h p).pin_count p
unfolding fetch_node
fetch_node-pinned h p = ground arith

pub unpin-file_hdr :
    (h : IxIndexHandle) (p : ℤ) (dirty : Bool) → (unpin h p dirty).file_hdr ≡ h.file_hdr
unfolding unpin
unpin-file_hdr h p dirty = ground arith

pub ite_true {ℓ} : {P : Type 0} {A : Type ℓ} (d : Dec P) (a b : A) → P → ite d a b ≡ a
ite_true (yes p) a b h = refl
ite_true (no p) a b h = absurd (p h)

pub ite_false {ℓ} : {P : Type 0} {A : Type ℓ} (d : Dec P) (a b : A) → ¬ P → ite d a b ≡ b
ite_false (yes p) a b h = absurd (h p)
ite_false (no p) a b h = refl

pub either {ℓ κ} :
    {P : Type 0} {A : Type ℓ} (B : A → Type κ) (d : Dec P) (a b : A) → B a → B b → B (ite d a b)
either B (yes p) a b x y = x
either B (no p) a b x y = y
