-- ===== src/Storage/Page.antt =====
-- src/storage/page.h and the constants of src/common/config.h.
use native.Mathlib.Decide.{ℕ_discrete}
use rubcase_lab.Base.{ℕ, zero, suc, ◌<◌, ◌≡◌, refl, ap, Bool, List, length, replicate}
use rubcase_lab.Base.Int.{ℤ, pos, negsuc, ℤ-discrete}

abbrev pub page_size : ℕ
page_size = 4096

abbrev pub invalid_page_id : ℤ
invalid_page_id = negsuc 0

-- A descriptor is one that `open` returned: not negative.
pub record PageId : Type 0 where
  pub fd : ℕ
  pub page_no : ℤ

unfoldable pub PageId-discrete : Discrete PageId
unfolding ℤ-discrete
PageId-discrete = hlevel (ℕ_discrete, ℤ-discrete)

abbrev pub Bytes : Type 0
Bytes = List ℕ

-- The latch of a page is not part of it here: the buffer pool does not take it.
pub record Page : Type 0 where
  pub id : PageId
  pub content : Bytes
  pub is_dirty : Bool
  pub pin_count : ℕ

-- What `ResetMemory` leaves.
pub blank : Bytes
blank = replicate page_size 0

length-replicate {ℓ} : {A : Type ℓ} (n : ℕ) (a : A) → length (replicate n a) ≡ n
length-replicate zero a = refl
length-replicate (suc n) a = ap suc (length-replicate n a)

pub length-blank : length blank ≡ page_size
unfolding blank
length-blank = length-replicate {A = ℕ} page_size 0

-- The page numbers whose byte offset fits in an `int`.
abbrev pub InFile : ℤ → Type 0
InFile (pos n) = n < 524288
InFile (negsuc n) = ⊥
