-- ===== src/Record/Bitmap.antt =====
-- src/record/bitmap.h: the bits of a page that say which slots hold a record.
pub mod Bytes
pub mod Scan
mod Tests
use Prim.Native.Nat.{bit_and, bit_or}
use rubcase_lab.Base.{
  ℕ, zero, suc, ◌+◌, ◌-◌, ◌/◌, ◌%◌, ◌^◌, Bool, true, false, not, ◌&&◌, ◌||◌, ltb, ◌==◌,
  if◌then◌else◌, List, get_or, set, replicate,
}
use rubcase_lab.Base.Int.{ℤ, pos, negsuc}

abbrev pub bitmap_width : ℕ
bitmap_width = 8

abbrev pub bitmap_highest_bit : ℕ
bitmap_highest_bit = 0x80

unfoldable pub init : ℕ → List ℕ
init size = replicate size 0

abbrev pub get_bucket : ℕ → ℕ
get_bucket p = p / bitmap_width

-- `>>` by the position in the byte.
abbrev pub get_bit : ℕ → ℕ
get_bit p = bitmap_highest_bit / 2 ^ (p % bitmap_width)

-- The operations on the byte that holds the bit. `~` of a byte is 255 less it.
unfoldable pub set_in : ℕ → ℕ → ℕ
set_in byte p = bit_or byte (get_bit p)

unfoldable pub reset_in : ℕ → ℕ → ℕ
reset_in byte p = bit_and byte (255 - get_bit p)

unfoldable pub is_set_in : ℕ → ℕ → Bool
is_set_in byte p = not (bit_and byte (get_bit p) == 0)

unfoldable pub set_bit : List ℕ → ℕ → List ℕ
unfolding set_in
set_bit bm p = set bm (get_bucket p) (set_in (get_or bm (get_bucket p) 0) p)

unfoldable pub reset_bit : List ℕ → ℕ → List ℕ
unfolding reset_in
reset_bit bm p = set bm (get_bucket p) (reset_in (get_or bm (get_bucket p) 0) p)

unfoldable pub is_set : List ℕ → ℕ → Bool
unfolding is_set_in
is_set bm p = is_set_in (get_or bm (get_bucket p) 0) p

abbrev pub bool_eq : Bool → Bool → Bool
bool_eq true b = b
bool_eq false b = not b

-- The rounds of the loop that are left, from position `i`.
unfoldable pub next_from : ℕ → Bool → List ℕ → ℕ → ℕ
next_from zero bit bm i = i
next_from (suc rounds) bit bm i =
    let rest = next_from rounds bit bm (i + 1) in if bool_eq (is_set bm i) bit then i else rest

-- `curr + 1`; no caller passes less than -1.
abbrev pub after : ℤ → ℕ
after (pos n) = n + 1
after (negsuc n) = 0

unfoldable pub next_bit : Bool → List ℕ → ℕ → ℤ → ℕ
unfolding next_from
next_bit bit bm max_n curr =
    if ltb (after curr) max_n then next_from (max_n - after curr) bit bm (after curr) else max_n

unfoldable pub first_bit : Bool → List ℕ → ℕ → ℕ
unfolding next_bit
first_bit bit bm max_n = next_bit bit bm max_n (negsuc 0)
