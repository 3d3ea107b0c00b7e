-- ===== src/Index/Node/Tests.antt =====
-- Nodes of INT keys.
use rubcase_lab.Base.{
  ℕ, zero, suc, ◌<◌, ◌≤◌, ◌≡◌, ◌≢◌, refl, Bool, true, false, none, some, [], ◌∷◌, arith,
}
use rubcase_lab.Base.Int.{ℤ, pos, int32, lt_int}
use rubcase_lab.Storage.Page.{Bytes}
use rubcase_lab.Index.Compare.{type_int, ix_compare, int_at, same, more, sign, IsOrder}
use rubcase_lab.Index.Compare.Orders.{ix_compare-IsOrder_int}
use rubcase_lab.Defs.{Rid}
use rubcase_lab.Index.Node.{IxNodeHandle, leaf_lookup, insert, remove}
use rubcase_lab.Index.Node.Search.{Sorted}
use rubcase_lab.Index.Node.Insert.{insert_lem}
use rubcase_lab.Index.Node.Remove.{remove_lem, remove_drops_last}

abbrev no_floats : Bytes → Bytes → Bool
no_floats a b = false

abbrev cmp : Bytes → Bytes → ℤ
cmp a b = ix_compare no_floats a b type_int 4

abbrev order : IsOrder cmp
order = ix_compare-IsOrder_int no_floats 4

abbrev small : ℕ → Bytes
small n = n ∷ 0 ∷ 0 ∷ 0 ∷ []

abbrev minus_five : Bytes
minus_five = 251 ∷ 255 ∷ 255 ∷ 255 ∷ []

abbrev pair_keys : ℕ → Bytes
pair_keys zero = small 10
pair_keys (suc zero) = small 20
pair_keys (suc (suc n)) = small 0

abbrev rid_of : ℕ → Rid
rid_of n = record { page_no = pos n; slot_no = pos 7 }

-- A leaf in a page of zeroes, with the first keys filled in.
abbrev leaf : ℕ → (ℕ → Bytes) → IxNodeHandle
leaf size keys = record {
  page_no = pos 2;
  parent = pos 0;
  num_key = pos size;
  is_leaf = true;
  prev_leaf = pos 1;
  next_leaf = pos 1;
  keys = keys;
  rids = rid_of;
}

abbrev pair : IxNodeHandle
pair = leaf 2 pair_keys

abbrev one_keys : ℕ → Bytes
one_keys zero = minus_five
one_keys (suc n) = small 0

pair-Sorted : Sorted cmp pair_keys 2
unfolding ix_compare int_at int32 lt_int
pair-Sorted i zero p q = absurd (omega arith)
pair-Sorted zero (suc zero) p q = refl
pair-Sorted (suc i) (suc zero) p q = absurd (omega arith)
pair-Sorted i (suc (suc j)) p q = absurd (omega arith)

small-Sorted : (keys : ℕ → Bytes) (size : ℕ) → size < 2 → Sorted cmp keys size
small-Sorted keys size h i j p q = absurd (omega arith)

fresh_15 : (j : ℕ) → j ≤ 2 → sign (cmp (small 15) (pair_keys j)) ≢ same
unfolding ix_compare int_at int32 lt_int
fresh_15 zero h = λ e. cc
fresh_15 (suc zero) h = λ e. cc
fresh_15 (suc (suc j)) h = λ e. cc

has_20 : sign (cmp (small 20) (pair_keys 1)) ≡ same
unfolding ix_compare int_at int32 lt_int
has_20 = refl

above_minus_five : (j : ℕ) → j < 1 → sign (cmp (small 0) (one_keys j)) ≡ more
unfolding ix_compare int_at int32 lt_int
above_minus_five zero h = refl
above_minus_five (suc j) h = absurd (omega arith)

insert_lem_example :
    let m : IxNodeHandle = (insert cmp pair (small 15) (rid_of 9)).0 in
    (m.num_key ≡ pos 3)
    × ((insert cmp pair (small 15) (rid_of 9)).1 ≡ pos 3)
    × Sorted cmp m.keys 3
    × (leaf_lookup cmp m (small 15) ≡ some (rid_of 9))
    × ((other : Bytes)
        → sign (cmp other (small 15)) ≢ same
        → leaf_lookup cmp m other ≡ leaf_lookup cmp pair other)
insert_lem_example = insert_lem cmp order pair 2 refl pair-Sorted (small 15) (rid_of 9) fresh_15

remove_lem_example :
    let m : IxNodeHandle = (remove cmp pair (small 20)).0 in
    (m.num_key ≡ pos 1)
    × ((remove cmp pair (small 20)).1 ≡ pos 1)
    × Sorted cmp m.keys 1
    × (leaf_lookup cmp m (small 20) ≡ none)
    × ((other : Bytes)
        → sign (cmp other (small 20)) ≢ same
        → leaf_lookup cmp m other ≡ leaf_lookup cmp pair other)
remove_lem_example = remove_lem cmp order pair 1 refl pair-Sorted (small 20) 1 (omega arith) has_20

-- The key 0 and a leaf that holds only -5.
remove_drops_last_example :
    (leaf_lookup cmp (leaf 1 one_keys) (small 0) ≡ none)
    × ((remove cmp (leaf 1 one_keys) (small 0)).1 ≡ pos 0)
    × ((j : ℕ) → j < 0 → (remove cmp (leaf 1 one_keys) (small 0)).0.keys j ≡ one_keys j)
    × (leaf_lookup cmp (remove cmp (leaf 1 one_keys) (small 0)).0 (one_keys 0) ≡ none)
remove_drops_last_example =
    remove_drops_last cmp order (leaf 1 one_keys) 0 refl (small-Sorted one_keys 1 (omega arith))
      (small 0) above_minus_five (order.same_self (small 0))
