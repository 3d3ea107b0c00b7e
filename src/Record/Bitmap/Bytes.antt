-- ===== src/Record/Bitmap/Bytes.antt =====
-- Setting and clearing a bit, seen through `is_set`: a table over one byte, and then any bitmap.
use rubcase_lab.Base.{
  if◌then◌else◌, ℕ, zero, suc, ◌+◌, ◌*◌, ◌/◌, ◌%◌, ◌<◌, ◌≡◌, refl, sym, Bool, true, false, not,
  ◌&&◌, ◌||◌, ◌==◌, List, length, get_or, get_or-set, length-set, arith, ltb,
}
use rubcase_lab.Record.Bitmap.{set_bit, reset_bit, is_set, set_in, reset_in, is_set_in, bool_eq}

-- A test that a range of numbers passes, from `count - 1` down to 0.
passes : (ℕ → Bool) → ℕ → Bool
passes test zero = true
passes test (suc count) = if test count then passes test count else false

passes-lt : (test : ℕ → Bool) (count i : ℕ) → i < count → passes test count ≡ true → test i ≡ true
unfolding passes
passes-lt test zero i below h = absurd (omega arith)
passes-lt test (suc count) i below h =
    let earlier = passes-lt test count i in ground (arith, earlier)

-- A check of a byte and two positions, at one number that codes the three.
abbrev coded : (ℕ → ℕ → ℕ → Bool) → ℕ → Bool
coded check x = check (x / 64) (x / 8 % 8) (x % 8)

coded_sound :
    (check : ℕ → ℕ → ℕ → Bool)
    → passes (coded check) 16384 ≡ true
    → (byte i j : ℕ) → byte < 256
    → i < 8
    → j < 8
    → check byte i j ≡ true
coded_sound check table byte i j hb hi hj =
    let x = byte * 64 + i * 8 + j in
    let at_byte : x / 64 ≡ byte = omega arith in
    let at_first : x / 8 % 8 ≡ i = omega arith in
    let at_second : x % 8 ≡ j = omega arith in
    rw (at_byte, at_first, at_second) at (passes-lt (coded check) 16384 x (omega arith) table)

set_check : ℕ → ℕ → ℕ → Bool
unfolding set_in is_set_in
set_check byte i j =
    bool_eq (is_set_in (set_in byte i) j) (i == j || is_set_in byte j) && ltb (set_in byte i) 256

reset_check : ℕ → ℕ → ℕ → Bool
unfolding reset_in is_set_in
reset_check byte i j =
    bool_eq (is_set_in (reset_in byte i) j) (not (i == j) && is_set_in byte j)
    && ltb (reset_in byte i) 256

set_table : passes (coded set_check) 16384 ≡ true
unfolding passes set_check
set_table = refl

reset_table : passes (coded reset_check) 16384 ≡ true
unfolding passes reset_check
reset_table = refl

bool_eq→eq : (a b : Bool) → bool_eq a b ≡ true → a ≡ b
bool_eq→eq true b h = sym h
bool_eq→eq false true h = cc
bool_eq→eq false false h = refl

and_parts : (a b : Bool) → (a && b) ≡ true → (a ≡ true) × (b ≡ true)
and_parts a b h = ground arith

module _ (byte p q : ℕ) (hb : byte < 256) where
  -- Only the position in the byte matters.
  in_byte : (p % 8 % 8 ≡ p % 8) × (q % 8 % 8 ≡ q % 8)
  in_byte = omega arith

  set_in_byte :
      (is_set_in (set_in byte p) q ≡ (p % 8 == q % 8 || is_set_in byte q)) × (set_in byte p < 256)
  unfolding set_check set_in is_set_in
  set_in_byte =
      let (first, second) = and_parts _ _ (
        rw (in_byte.0, in_byte.1) at
          (coded_sound set_check set_table byte (p % 8) (q % 8) hb (omega arith) (omega arith))) in
      (bool_eq→eq _ _ first, ground arith)

  reset_in_byte :
      (is_set_in (reset_in byte p) q ≡ (not (p % 8 == q % 8) && is_set_in byte q))
      × (reset_in byte p < 256)
  unfolding reset_check reset_in is_set_in
  reset_in_byte =
      let (first, second) = and_parts _ _ (
        rw (in_byte.0, in_byte.1) at
          (coded_sound reset_check reset_table byte (p % 8) (q % 8) hb (omega arith)
            (omega arith))) in
      (bool_eq→eq _ _ first, ground arith)

-- The bitmap has a byte for the position, and every entry is a byte.
pub record Fits (bm : List ℕ) (p : ℕ) : Type 0 where
  pub inside : p < length bm * 8
  pub bytes : (i : ℕ) → get_or bm i 0 < 256

module _ (bm : List ℕ) (p : ℕ) (f : Fits bm p) where
  -- `Bitmap::set` of a position in the bitmap sets the bit and no other.
  pub is_set-set_bit : (q : ℕ) → is_set (set_bit bm p) q ≡ (p == q || is_set bm q)
  unfolding set_bit is_set
  is_set-set_bit q =
      let old = get_or bm (p / 8) 0 in
      let here = set_in_byte old p q (f.bytes (p / 8)) in
      ground (arith, get_or-set bm (p / 8) (q / 8) (set_in old p) 0, here, f.inside)

  -- `Bitmap::reset` of a position in the bitmap clears the bit and no other.
  pub is_set-reset_bit : (q : ℕ) → is_set (reset_bit bm p) q ≡ (not (p == q) && is_set bm q)
  unfolding reset_bit is_set
  is_set-reset_bit q =
      let old = get_or bm (p / 8) 0 in
      let here = reset_in_byte old p q (f.bytes (p / 8)) in
      ground (arith, get_or-set bm (p / 8) (q / 8) (reset_in old p) 0, here, f.inside)

  -- A bitmap stays one when a bit is set.
  pub set_bit-Fits : (q : ℕ) → q < length bm * 8 → Fits (set_bit bm p) q
  unfolding set_bit
  set_bit-Fits q h =
      let old = get_or bm (p / 8) 0 in
      record {
        inside = omega (arith, length-set bm (p / 8) (set_in old p));
        bytes = λ i. ground (
          arith,
          get_or-set bm (p / 8) i (set_in old p) 0,
          set_in_byte old p q (f.bytes (p / 8)),
          f.bytes i,
          f.inside,
        );
      }
