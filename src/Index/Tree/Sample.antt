-- ===== src/Index/Tree/Sample.antt =====
-- An index as `create_index` makes it, and a tree of INT keys with two leaves.
use rubcase_lab.Base.{
  ℕ, zero, suc, ◌+◌, ◌*◌, ◌<◌, ◌≡◌, ◌≢◌, ◌⊎◌, inl, inr, ◌∙◌, refl, true, false, [], ◌∷◌, arith,
}
use rubcase_lab.Base.Int.{ℤ, pos, negsuc, int32, lt_int}
use rubcase_lab.Storage.Page.{Bytes}
use rubcase_lab.Index.Compare.{type_int, ix_compare, int_at, less, sign, IsOrder}
use rubcase_lab.Index.Compare.Orders.{ix_compare-IsOrder_int}
use rubcase_lab.Defs.{Rid}
use rubcase_lab.Index.Node.{IxNodeHandle}
use rubcase_lab.Index.Tree.{IxIndexHandle}
use rubcase_lab.Index.Tree.Grow.{child_rid}
use rubcase_lab.Index.Node.Search.{Sorted}
use rubcase_lab.Index.Tree.Search.{IsTree, InTree, child}

abbrev pub cmp : Bytes → Bytes → ℤ
cmp a b = ix_compare (λ x y. false) a b type_int 4

abbrev pub key_of : ℕ → Bytes
key_of n = n ∷ 0 ∷ 0 ∷ 0 ∷ []

abbrev pub rid_of : ℕ → Rid
rid_of n = record { page_no = pos n; slot_no = pos 7 }

abbrev pub empty_leaf : ℤ → ℤ → IxNodeHandle
empty_leaf p neighbor = record {
  page_no = p;
  parent = negsuc 0;
  num_key = pos 0;
  is_leaf = true;
  prev_leaf = neighbor;
  next_leaf = neighbor;
  keys = λ i. key_of 0;
  rids = λ i. rid_of 0;
}

-- Page 1 is the leaf header, and every other page is the root that `create_index` writes.
abbrev pub created_nodes : ℤ → IxNodeHandle
created_nodes (pos (suc zero)) = empty_leaf (pos 1) (pos 2)
created_nodes p = empty_leaf p (pos 1)

abbrev pub created : ℕ → IxIndexHandle
created order = record {
  file_hdr = record {
    first_free_page_no = negsuc 0;
    num_pages = pos 3;
    root_page = pos 2;
    col_type = type_int;
    col_len = 4;
    btree_order = order;
    keys_size = (order + 1) * 4;
    first_leaf = pos 2;
    last_leaf = pos 2;
  };
  nodes = created_nodes;
  pin_count = λ _. 0;
  is_dirty = λ _. false;
  next_page_no = pos 3;
}

abbrev pub order : IsOrder cmp
order = ix_compare-IsOrder_int (λ x y. false) 4

abbrev pub two_keys : ℕ → ℕ → ℕ → Bytes
two_keys a b zero = key_of a
two_keys a b (suc zero) = key_of b
two_keys a b (suc (suc n)) = key_of 0

abbrev pub two_rids : ℕ → Rid
two_rids zero = child_rid (pos 4)
two_rids (suc n) = child_rid (pos 5)

pub only_one : (j : ℕ) → 0 < j → j < 2 → j ≡ 1
only_one j p q = omega arith

-- Keys below 100, in order.
abbrev pub sample_nodes : ℤ → IxNodeHandle
sample_nodes (pos (suc zero)) = record (empty_leaf (pos 1) (pos 1)) {
  next_leaf = pos 4;
  prev_leaf = pos 5;
}
sample_nodes (pos (suc (suc (suc zero)))) = record (empty_leaf (pos 3) (pos 0)) {
  is_leaf = false;
  num_key = pos 2;
  keys = two_keys 10 50;
  rids = two_rids;
}
sample_nodes (pos (suc (suc (suc (suc zero))))) = record (empty_leaf (pos 4) (pos 1)) {
  parent = pos 3;
  num_key = pos 2;
  next_leaf = pos 5;
  keys = two_keys 10 20;
  rids = λ i. rid_of i;
}
sample_nodes (pos (suc (suc (suc (suc (suc zero)))))) = record (empty_leaf (pos 5) (pos 1)) {
  parent = pos 3;
  num_key = pos 2;
  prev_leaf = pos 4;
  keys = two_keys 50 60;
  rids = λ i. rid_of i;
}
sample_nodes p = record (empty_leaf p (pos 0)) { is_leaf = false }

abbrev pub sample : IxIndexHandle
sample = record (created 3) {
  file_hdr = record ((created 3).file_hdr) {
    root_page = pos 3;
    last_leaf = pos 5;
    num_pages = pos 6;
  };
  nodes = sample_nodes;
}

pub two-Sorted : (a b : ℕ) → sign (cmp (key_of a) (key_of b)) ≡ less → Sorted cmp (two_keys a b) 2
two-Sorted a b h i zero p q = absurd (omega arith)
two-Sorted a b h zero (suc zero) p q = h
two-Sorted a b h (suc i) (suc zero) p q = absurd (omega arith)
two-Sorted a b h i (suc (suc j)) p q = absurd (omega arith)

pub less_10_20 : sign (cmp (key_of 10) (key_of 20)) ≡ less
unfolding ix_compare int_at int32 lt_int
less_10_20 = refl

pub less_10_50 : sign (cmp (key_of 10) (key_of 50)) ≡ less
unfolding ix_compare int_at int32 lt_int
less_10_50 = refl

pub less_20_50 : sign (cmp (key_of 20) (key_of 50)) ≡ less
unfolding ix_compare int_at int32 lt_int
less_20_50 = refl

pub less_50_60 : sign (cmp (key_of 50) (key_of 60)) ≡ less
unfolding ix_compare int_at int32 lt_int
less_50_60 = refl

sample-children : (i : ℕ) → i < 2 → IsTree cmp sample_nodes 0 (child cmp sample_nodes (pos 3) i)
sample-children zero h = (refl, refl, two-Sorted 10 20 less_10_20)
sample-children (suc zero) h = (refl, refl, two-Sorted 50 60 less_50_60)
sample-children (suc (suc i)) h = absurd (omega arith)

below_50 :
    (key : Bytes) (r : Rid)
    → InTree cmp sample_nodes 0 (pos 4) key r
    → sign (cmp key (key_of 50)) ≡ less
below_50 key r (zero, p, hit, u) = order.same_left key (key_of 10) (key_of 50) hit ∙ less_10_50
below_50 key r (suc zero, p, hit, u) = order.same_left key (key_of 20) (key_of 50) hit ∙ less_20_50
below_50 key r (suc (suc i), p, hit, u) = absurd (omega arith)

not_below_50 :
    (key : Bytes) (r : Rid)
    → InTree cmp sample_nodes 0 (pos 5) key r
    → sign (cmp key (key_of 50)) ≢ less
not_below_50 key r (zero, p, hit, u) = λ below. cc
not_below_50 key r (suc zero, p, hit, u) = λ below. ground (
  arith,
  order.same_left key (key_of 60) (key_of 50) hit,
  order.flip (key_of 50) (key_of 60),
  less_50_60,
  below,
)
not_below_50 key r (suc (suc i), p, hit, u) = absurd (omega arith)

sample-bounds :
    (i : ℕ) (key : Bytes) (r : Rid)
    → i < 2
    → InTree cmp sample_nodes 0 (child cmp sample_nodes (pos 3) i) key r
    → ((i ≡ 0) ⊎ (sign (cmp key (two_keys 10 50 i)) ≢ less))
      × ((j : ℕ) → i < j → j < 2 → sign (cmp key (two_keys 10 50 j)) ≡ less)
sample-bounds zero key r h t = (inl refl, λ j p q. rw (only_one j p q) (below_50 key r t))
sample-bounds (suc zero) key r h t = (inr (not_below_50 key r t), λ j p q. absurd (omega arith))
sample-bounds (suc (suc i)) key r h t = absurd (omega arith)

pub sample-IsTree : IsTree cmp sample_nodes 1 (pos 3)
sample-IsTree =
    (refl, refl, two-Sorted 10 50 less_10_50, omega arith, sample-children, sample-bounds)
