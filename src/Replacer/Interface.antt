-- ===== src/Replacer/Interface.antt =====
-- src/replacer/replacer.h: the abstract class, with what the buffer pool relies on.
use rubcase_lab.Base.{ℕ, ◌≡◌, Bool, true, false, ◌==◌, if◌then◌else◌, Option, none, some}

pub record Replacer : Type 1 where
  pub State : Type 0
  pub victim : State → State × Option ℕ
  pub pin : State → ℕ → State
  pub unpin : State → ℕ → State
  pub size : State → ℕ
  pub init : ℕ → State
  pub IsValid : State → Type 0
  -- The frames that may be evicted.
  pub has : State → ℕ → Bool
  pub init-IsValid : (n : ℕ) → IsValid (init n)
  pub has-init : (n f : ℕ) → has (init n) f ≡ false
  pub victim-IsValid : (s : State) → IsValid s → IsValid (victim s).0
  pub pin-IsValid : (s : State) (f : ℕ) → IsValid s → IsValid (pin s f)
  pub unpin-IsValid : (s : State) (f : ℕ) → IsValid s → IsValid (unpin s f)
  pub victim_none : (s : State) (f : ℕ) → IsValid s → (victim s).1 ≡ none → has s f ≡ false
  pub has-victim_none :
      (s : State) (f : ℕ) → IsValid s → (victim s).1 ≡ none → has (victim s).0 f ≡ false
  pub victim_some : (s : State) (f : ℕ) → IsValid s → (victim s).1 ≡ some f → has s f ≡ true
  pub has-victim :
      (s : State) (f g : ℕ)
      → IsValid s
      → (victim s).1 ≡ some f
      → has (victim s).0 g ≡ (if f == g then false else has s g)
  pub has-pin :
      (s : State) (f g : ℕ) → IsValid s → has (pin s f) g ≡ (if f == g then false else has s g)
  pub has-unpin :
      (s : State) (f g : ℕ) → IsValid s → has (unpin s f) g ≡ (if f == g then true else has s g)
