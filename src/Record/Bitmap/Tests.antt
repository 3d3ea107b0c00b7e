-- ===== src/Record/Bitmap/Tests.antt =====
-- A bitmap of two bytes.
use rubcase_lab.Base.{
  ℕ, zero, suc, ◌+◌, ◌<◌, ◌≡◌, true, false, ◌||◌, ◌==◌, List, [], ◌∷◌, get_or, arith,
}
use rubcase_lab.Record.Bitmap.{set_bit, is_set, is_set_in, first_bit}
use rubcase_lab.Record.Bitmap.Bytes.{Fits}
use rubcase_lab.Record.Bitmap.Scan.{count_set, first_bit-set_bit}

-- The first two of the sixteen bits are set.
abbrev some_bits : List ℕ
some_bits = 192 ∷ 0 ∷ []

some_bytes : (i : ℕ) → get_or some_bits i 0 < 256
some_bytes zero = omega arith
some_bytes (suc zero) = omega arith
some_bytes (suc (suc i)) = omega arith

some-Fits : (p : ℕ) → p < 16 → Fits some_bits p
some-Fits p h = record { inside = h; bytes = some_bytes }

two_set : count_set some_bits 16 < 16
unfolding count_set is_set is_set_in
two_set = omega arith

first_bit-set_bit_example :
    (first_bit false some_bits 16 < 16)
    × (is_set some_bits (first_bit false some_bits 16) ≡ false)
    × ((j : ℕ) → j < first_bit false some_bits 16 → is_set some_bits j ≡ true)
    × (count_set (set_bit some_bits (first_bit false some_bits 16)) 16 ≡ count_set some_bits 16 + 1)
    × ((q : ℕ)
        → is_set (set_bit some_bits (first_bit false some_bits 16)) q
          ≡ (first_bit false some_bits 16 == q || is_set some_bits q))
first_bit-set_bit_example = first_bit-set_bit some_bits 16 some-Fits two_set
