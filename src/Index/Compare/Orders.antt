-- ===== src/Index/Compare/Orders.antt =====
-- `ix_compare` orders integers, and strings of the length of the column.
use rubcase_lab.Base.{ℕ, zero, suc, ◌≡◌, refl, Bool, if◌then◌else◌, arith}
use rubcase_lab.Base.Int.{ℤ, pos, negsuc, lt_int}
use rubcase_lab.Storage.Page.{Bytes}
use rubcase_lab.Index.Compare.{
  type_int, type_string, int_at, memcmp, other_bytes, ix_compare, less, same, sign, opposite,
  IsOrder,
}

-- The three outcomes of the comparison of two integers.
compare_int : ℤ → ℤ → ℤ
unfolding lt_int
compare_int a b = if lt_int a b then negsuc 0 else if lt_int b a then pos 1 else pos 0

compare_int-same_self : (a : ℤ) → sign (compare_int a a) ≡ same
unfolding compare_int
compare_int-same_self (pos n) = ground arith
compare_int-same_self (negsuc n) = ground arith

compare_int-flip : (a b : ℤ) → sign (compare_int b a) ≡ opposite (sign (compare_int a b))
unfolding compare_int
compare_int-flip a b = ground arith

compare_int_trans :
    (a b c : ℤ)
    → sign (compare_int a b) ≡ less
    → sign (compare_int b c) ≡ less
    → sign (compare_int a c) ≡ less
unfolding compare_int
compare_int_trans a b c p q = ground arith

compare_int-same_left :
    (a b c : ℤ) → sign (compare_int a b) ≡ same → sign (compare_int a c) ≡ sign (compare_int b c)
unfolding compare_int
compare_int-same_left a b c p = ground arith

-- Keys of type INT are ordered as the integers that they hold.
pub ix_compare-IsOrder_int :
    (lt_float : Bytes → Bytes → Bool) (col_len : ℕ)
    → IsOrder (λ a b. ix_compare lt_float a b type_int col_len)
unfolding ix_compare compare_int
ix_compare-IsOrder_int lt_float col_len = record {
  same_self = λ a. compare_int-same_self (int_at a);
  flip = λ a b. compare_int-flip (int_at a) (int_at b);
  less_trans = λ a b c. compare_int_trans (int_at a) (int_at b) (int_at c);
  same_left = λ a b c. compare_int-same_left (int_at a) (int_at b) (int_at c);
}

memcmp-same_self : (n : ℕ) (a : Bytes) → sign (memcmp n a a) ≡ same
unfolding memcmp
memcmp-same_self zero a = refl
memcmp-same_self (suc n) a = ground (arith, memcmp-same_self n (other_bytes a))

memcmp-flip : (n : ℕ) (a b : Bytes) → sign (memcmp n b a) ≡ opposite (sign (memcmp n a b))
unfolding memcmp
memcmp-flip zero a b = refl
memcmp-flip (suc n) a b = ground (arith, memcmp-flip n (other_bytes a) (other_bytes b))

memcmp-same_left :
    (n : ℕ) (a b c : Bytes) → sign (memcmp n a b) ≡ same → sign (memcmp n a c) ≡ sign (memcmp n b c)
unfolding memcmp
memcmp-same_left zero a b c p = refl
memcmp-same_left (suc n) a b c p =
    ground (arith, memcmp-same_left n (other_bytes a) (other_bytes b) (other_bytes c))

memcmp_trans :
    (n : ℕ) (a b c : Bytes)
    → sign (memcmp n a b) ≡ less
    → sign (memcmp n b c) ≡ less
    → sign (memcmp n a c) ≡ less
unfolding memcmp
memcmp_trans zero a b c p q = cc
memcmp_trans (suc n) a b c p q =
    ground (arith, memcmp_trans n (other_bytes a) (other_bytes b) (other_bytes c))

-- Keys of type STRING are ordered byte by byte.
pub ix_compare-IsOrder_string :
    (lt_float : Bytes → Bytes → Bool) (col_len : ℕ)
    → IsOrder (λ a b. ix_compare lt_float a b type_string col_len)
unfolding ix_compare
ix_compare-IsOrder_string lt_float col_len = record {
  same_self = memcmp-same_self col_len;
  flip = memcmp-flip col_len;
  less_trans = memcmp_trans col_len;
  same_left = memcmp-same_left col_len;
}
