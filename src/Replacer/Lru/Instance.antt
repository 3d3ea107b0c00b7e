-- ===== src/Replacer/Lru/Instance.antt =====
-- The LRU replacer keeps what the abstract class asks for.
use rubcase_lab.Base.{
  ℕ, ◌≡◌, refl, inl, inr, ◌==◌, if◌then◌else◌, none, some, Bool, true, false, arith, unsnoc-cases,
}
use rubcase_lab.Replacer.Interface.{Replacer}
use rubcase_lab.Replacer.Lru.{LruReplacer, init, victim, pin, unpin, size}
use rubcase_lab.Replacer.Lru.Invariant.{
  IsValid, find_node, find_node-snoc, find_node-last, init-IsValid, victim-IsValid, pin-IsValid,
  unpin-IsValid,
}

-- A frame may be evicted when the hash table has it.
abbrev pub has : LruReplacer → ℕ → Bool
has r f = elim (r.lru_hash f) [ none ↦ false | some _ ↦ true ]

pub has-init : (n f : ℕ) → has (init n) f ≡ false
unfolding init
has-init n f = refl

module _ (r : LruReplacer) (f : ℕ) where
  pub has-pin : (g : ℕ) → IsValid r → has (pin r f) g ≡ (if f == g then false else has r g)
  unfolding pin
  has-pin g v = ground arith

  pub has-unpin : (g : ℕ) → IsValid r → has (unpin r f) g ≡ (if f == g then true else has r g)
  unfolding unpin
  has-unpin g v = ground arith

  pub victim_none : IsValid r → (victim r).1 ≡ none → has r f ≡ false
  unfolding victim find_node
  victim_none v e = ground (arith, unsnoc-cases r.lru_list, v.linked f)

  pub has-victim_none : IsValid r → (victim r).1 ≡ none → has (victim r).0 f ≡ false
  unfolding victim find_node
  has-victim_none v e = ground (arith, unsnoc-cases r.lru_list, v.linked f)

  pub has-victim :
      (g : ℕ)
      → IsValid r
      → (victim r).1 ≡ some f
      → has (victim r).0 g ≡ (if f == g then false else has r g)
  unfolding victim
  has-victim g v e = ground arith

  pub victim_some : IsValid r → (victim r).1 ≡ some f → has r f ≡ true
  unfolding victim
  victim_some v e = elim (unsnoc-cases r.lru_list) [
    | inl (_, u) ↦ ground arith
    | inr (l, n, s, u) ↦ ground (
      arith,
      v.linked f,
      rw s at (v.linked f),
      find_node-snoc l n f,
      find_node-last l n (rw s at v.distinct),
    )
  ]

abbrev pub lru_replacer : Replacer
lru_replacer = record {
  State = LruReplacer;
  victim = victim;
  pin = pin;
  unpin = unpin;
  size = size;
  init = init;
  IsValid = IsValid;
  has = has;
  init-IsValid = init-IsValid;
  has-init = has-init;
  victim-IsValid = λ r v. victim-IsValid v;
  pin-IsValid = λ r f v. pin-IsValid v f;
  unpin-IsValid = λ r f v. unpin-IsValid v f;
  victim_none = victim_none;
  victim_some = victim_some;
  has-victim_none = has-victim_none;
  has-victim = has-victim;
  has-pin = has-pin;
  has-unpin = has-unpin;
}
