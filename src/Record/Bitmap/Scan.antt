-- ===== src/Record/Bitmap/Scan.antt =====
-- The search for the next bit, and the number of bits that are set.
use native.Mathlib.Decide.{dec_lt}
use rubcase_lab.Base.{
  ℕ, zero, suc, ◌+◌, ◌<◌, ◌≤◌, ◌≡◌, refl, sym, Bool, true, false, not, ◌||◌, ◌==◌, if◌then◌else◌,
  List, arith, ltb, Bool-cases, inl, inr,
}
use rubcase_lab.Base.Int.{ℤ, negsuc}
use rubcase_lab.Record.Bitmap.{set_bit, is_set, bool_eq, next_from, next_bit, first_bit, after}
use rubcase_lab.Record.Bitmap.Bytes.{Fits, is_set-set_bit}

-- `r` is the first position of [lo, hi) whose bit is as wanted, or `hi` if there is none.
pub record First (bit : Bool) (bm : List ℕ) (lo hi r : ℕ) : Type 0 where
  pub bounded : r ≤ hi
  pub found : r < hi → (lo ≤ r) × (is_set bm r ≡ bit)
  pub before : (j : ℕ) → lo ≤ j → j < r → is_set bm j ≡ not bit

matches : (a b : Bool) → bool_eq a b ≡ true → a ≡ b
matches true b h = sym h
matches false true h = cc
matches false false h = refl

differs : (a b : Bool) → bool_eq a b ≡ false → a ≡ not b
differs true true h = cc
differs true false h = refl
differs false true h = refl
differs false false h = cc

next_from-First :
    (rounds : ℕ) (bit : Bool) (bm : List ℕ) (i hi : ℕ)
    → i + rounds ≡ hi
    → First bit bm i hi (next_from rounds bit bm i)
unfolding next_from
next_from-First zero bit bm i hi e = record {
  bounded = omega arith;
  found = λ h. absurd (omega arith);
  before = λ j p q. absurd (omega arith);
}
next_from-First (suc k) bit bm i hi e = elim (Bool-cases (bool_eq (is_set bm i) bit)) [
  | inl hit ↦ rw hit (record {
    bounded = omega arith;
    found = λ h. (omega arith, matches _ _ hit);
    before = λ j p q. absurd (omega arith);
  })
  | inr miss ↦
      let rest = next_from-First k bit bm (i + 1) hi (omega arith) in
      rw miss (record {
        bounded = rest.bounded;
        found = λ h. let (p, q) = rest.found h in (omega arith, q);
        before = λ j p q. grind (arith, differs, rest.before);
      })
]

-- `Bitmap::next_bit` returns the first position after `curr` and below `max_n` whose bit is as
-- wanted, or `max_n` if there is none.
pub next_bit-First :
    (bit : Bool) (bm : List ℕ) (max_n : ℕ) (curr : ℤ)
    → First bit bm (after curr) max_n (next_bit bit bm max_n curr)
unfolding next_bit
next_bit-First bit bm max_n curr = elim (Bool-cases (ltb (after curr) max_n)) [
  | inl below ↦ rw below (next_from-First _ bit bm (after curr) max_n (ground arith))
  | inr past ↦ rw past (record {
    bounded = omega arith;
    found = λ h. absurd (omega arith);
    before = λ j p q. absurd (ground arith);
  })
]

-- The number of positions below `n` whose bit is set.
unfoldable pub count_set : List ℕ → ℕ → ℕ
count_set bm zero = 0
count_set bm (suc n) = count_set bm n + (if is_set bm n then 1 else 0)

count_same :
    (bm cm : List ℕ) (n : ℕ)
    → ((q : ℕ) → q < n → is_set bm q ≡ is_set cm q)
    → count_set bm n ≡ count_set cm n
unfolding count_set
count_same bm cm zero h = refl
count_same bm cm (suc n) h = ground (arith, h n, count_same bm cm n (λ q k. h q (omega arith)))

count_set-set_bit :
    (bm : List ℕ) (p n : ℕ)
    → Fits bm p
    → p < n
    → is_set bm p ≡ false
    → count_set (set_bit bm p) n ≡ count_set bm n + 1
unfolding count_set
count_set-set_bit bm p zero f h e = absurd (omega arith)
count_set-set_bit bm p (suc n) f h e = elim (Bool-cases (p == n)) [
  | inl last ↦ ground (
    arith,
    is_set-set_bit bm p f n,
    count_same (set_bit bm p) bm n (λ q k. ground (arith, is_set-set_bit bm p f q)),
  )
  | inr other ↦ ground (arith, is_set-set_bit bm p f n, count_set-set_bit bm p n f)
]

count_set_full : (bm : List ℕ) (n : ℕ) → ((q : ℕ) → q < n → is_set bm q ≡ true) → count_set bm n ≡ n
unfolding count_set
count_set_full bm zero h = refl
count_set_full bm (suc n) h = ground (arith, h n, count_set_full bm n (λ q k. h q (omega arith)))

-- To take the first clear slot, as an insert does: where fewer than `n` bits are set there is one
-- below `n`, no slot before it is clear, and setting it raises the number of bits that are set by
-- one and leaves every other bit.
pub first_bit-set_bit :
    (bm : List ℕ) (n : ℕ)
    → ((q : ℕ) → q < n → Fits bm q)
    → count_set bm n < n
    → (first_bit false bm n < n)
      × (is_set bm (first_bit false bm n) ≡ false)
      × ((j : ℕ) → j < first_bit false bm n → is_set bm j ≡ true)
      × (count_set (set_bit bm (first_bit false bm n)) n ≡ count_set bm n + 1)
      × ((q : ℕ)
          → is_set (set_bit bm (first_bit false bm n)) q
            ≡ (first_bit false bm n == q || is_set bm q))
unfolding first_bit
first_bit-set_bit bm n fits room =
    let r = next_bit false bm n (negsuc 0) in
    let first = next_bit-First false bm n (negsuc 0) in
    let below : r < n = inside r first in
    let clear : is_set bm r ≡ false = (first.found below).1 in
    (
      below,
      clear,
      λ j h. first.before j (omega arith) h,
      count_set-set_bit bm r n (fits r below) below clear,
      is_set-set_bit bm r (fits r below),
    )
  where
    inside : (r : ℕ) → First false bm 0 n r → r < n
    inside r first = elim (dec_lt r n) [
      | yes below ↦ below
      | no past ↦
          let full = count_set_full bm n (λ q k. first.before q (omega arith) (omega arith)) in
          absurd (omega arith)
    ]
