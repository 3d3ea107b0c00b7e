-- ===== src/Index/Compare.antt =====
-- `ix_compare` of src/index/ix_node_handle.h, and what the nodes rely on.
pub mod Orders
use rubcase_lab.Base.{
  ℕ, zero, suc, ◌+◌, ◌*◌, ◌≡◌, Bool, true, false, ltb, if◌then◌else◌, List, [], ◌∷◌, get_or,
}
use rubcase_lab.Base.Int.{ℤ, pos, negsuc, int32, lt_int}
use rubcase_lab.Storage.Page.{Bytes}

-- src/defs.h
pub data ColType : Type 0 where
  type_int type_float type_string : ColType

-- An `int` from its four bytes, least significant first.
unfoldable pub int_at : Bytes → ℤ
unfolding int32
int_at b =
    int32 (get_or b 0 0 + get_or b 1 0 * 256 + get_or b 2 0 * 65536 + get_or b 3 0 * 16777216)

abbrev pub first_byte : Bytes → ℕ
first_byte [] = 0
first_byte (x ∷ a) = x

abbrev pub other_bytes : Bytes → Bytes
other_bytes [] = []
other_bytes (x ∷ a) = a

-- `memcmp`, of which only the sign is specified. A key has all its bytes: what is missing counts
-- as 0.
unfoldable pub memcmp : ℕ → Bytes → Bytes → ℤ
memcmp zero a b = pos 0
memcmp (suc n) a b =
    let rest = memcmp n (other_bytes a) (other_bytes b) in
    if ltb (first_byte a) (first_byte b)
    then negsuc 0
    else if ltb (first_byte b) (first_byte a)
    then pos 1
    else rest

-- `lt_float` is `<` of the hardware on the floats in two byte sequences. An enum has one of its
-- values, so the default case does not arise.
unfoldable pub ix_compare : (Bytes → Bytes → Bool) → Bytes → Bytes → ColType → ℕ → ℤ
unfolding int_at lt_int memcmp
ix_compare lt_float a b type_int col_len =
    if lt_int (int_at a) (int_at b)
    then negsuc 0
    else if lt_int (int_at b) (int_at a)
    then pos 1
    else pos 0
ix_compare lt_float a b type_float col_len =
    if lt_float a b then negsuc 0 else if lt_float b a then pos 1 else pos 0
ix_compare lt_float a b type_string col_len = memcmp col_len a b

pub data Sign : Type 0 where
  less same more : Sign

abbrev pub sign : ℤ → Sign
sign (pos zero) = same
sign (pos (suc n)) = more
sign (negsuc n) = less

abbrev pub opposite : Sign → Sign
opposite less = more
opposite same = same
opposite more = less

-- A comparison whose signs order the keys.
pub record IsOrder (cmp : Bytes → Bytes → ℤ) : Type 0 where
  pub same_self : (a : Bytes) → sign (cmp a a) ≡ same
  pub flip : (a b : Bytes) → sign (cmp b a) ≡ opposite (sign (cmp a b))
  pub less_trans :
      (a b c : Bytes) → sign (cmp a b) ≡ less → sign (cmp b c) ≡ less → sign (cmp a c) ≡ less
  pub same_left : (a b c : Bytes) → sign (cmp a b) ≡ same → sign (cmp a c) ≡ sign (cmp b c)
