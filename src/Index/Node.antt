-- ===== src/Index/Node.antt =====
-- src/index/ix_node_handle.h and ix_node_handle.cpp: the keys and values in one page of the tree. The
-- comparison of two keys, `ix_compare` at the type and length in the file header, is an argument.
pub mod Search
pub mod Insert
pub mod Remove
pub mod Routing
mod Tests
use mathlib.Core.Logic.{ite}
use rubcase_lab.Base.{
  ℕ, zero, suc, ◌+◌, ◌-◌, ◌*◌, ◌/◌, Bool, true, false, not, ◌&&◌, ltb, leb, ◌==◌, if◌then◌else◌,
  Option, none, some, update,
}
use rubcase_lab.Base.Int.{ℤ, pos, negsuc, ℤ-discrete}
use rubcase_lab.Defs.{Rid}
use rubcase_lab.Index.Compare.{ColType}
use rubcase_lab.Storage.Page.{Bytes}

-- src/index/ix_defs.h: the header of an index file. A size is not negative.
pub record IxFileHdr : Type 0 where
  pub first_free_page_no : ℤ
  pub num_pages : ℤ
  pub root_page : ℤ
  pub col_type : ColType
  pub col_len : ℕ
  pub btree_order : ℕ
  pub keys_size : ℕ
  pub first_leaf : ℤ
  pub last_leaf : ℤ

-- `IxPageHdr`, and the arrays of keys and rids that follow it in the page: slots from `num_key` on
-- hold whatever was there.
pub record IxNodeHandle : Type 0 where
  pub page_no : ℤ
  pub parent : ℤ
  pub num_key : ℤ
  pub is_leaf : Bool
  pub prev_leaf : ℤ
  pub next_leaf : ℤ
  pub keys : ℕ → Bytes
  pub rids : ℕ → Rid

-- The rounds of a loop up to an `int`.
abbrev pub count : ℤ → ℕ
count (pos n) = n
count (negsuc n) = 0

-- `compareRes >= 0` and `compareRes == 0`.
abbrev pub nonneg : ℤ → Bool
nonneg (pos n) = true
nonneg (negsuc n) = false

abbrev pub is_zero : ℤ → Bool
is_zero (pos n) = n == 0
is_zero (negsuc n) = false

abbrev pub add_int : ℤ → ℕ → ℤ
add_int (pos n) k = pos (n + k)
add_int (negsuc n) k = if ltb n k then pos (k - n - 1) else negsuc (n - k)

abbrev pub pred_int : ℤ → ℤ
pred_int (pos zero) = negsuc 0
pred_int (pos (suc n)) = pos n
pred_int (negsuc n) = negsuc (suc n)

unfoldable pub get_max_size : IxFileHdr → ℕ
get_max_size h = h.btree_order + 1

unfoldable pub get_min_size : IxFileHdr → ℕ
unfolding get_max_size
get_min_size h = get_max_size h / 2

unfoldable pub is_full : IxFileHdr → IxNodeHandle → Bool
unfolding get_max_size ℤ-discrete
is_full h n = ite (ℤ-discrete n.num_key (pos (get_max_size h))) true false

-- `memmove` of `len` entries within an array, and `memcpy` of `len` entries of another.
abbrev pub move {ℓ} : {A : Type ℓ} → (ℕ → A) → ℕ → ℕ → ℕ → ℕ → A
move a to from len i = if leb to i && ltb i (to + len) then a (from + (i - to)) else a i

abbrev pub copy {ℓ} : {A : Type ℓ} → (ℕ → A) → ℕ → (ℕ → A) → ℕ → ℕ → A
copy a to b len i = if leb to i && ltb i (to + len) then b (i - to) else a i

-- For a position up to `num_key`; past it the code does nothing.
unfoldable pub insert_pairs : IxNodeHandle → ℕ → (ℕ → Bytes) → (ℕ → Rid) → ℕ → IxNodeHandle
insert_pairs n p key rid k =
    let size = count n.num_key in
    let grown = record n {
      keys = copy (move n.keys (p + k) p (size - p)) p key k;
      rids = copy (move n.rids (p + k) p (size - p)) p rid k;
      num_key = add_int n.num_key k;
    } in
    if nonneg n.num_key && leb p size then grown else n

unfoldable pub insert_pair : IxNodeHandle → ℕ → Bytes → Rid → IxNodeHandle
unfolding insert_pairs
insert_pair n p key rid = insert_pairs n p (λ _. key) (λ _. rid) 1

-- The rounds of the loop of `erase_pair` that are left, from slot `i`.
unfoldable pub shift_down : ℕ → ℕ → IxNodeHandle → IxNodeHandle
shift_down zero i n = n
shift_down (suc rounds) i n =
    shift_down rounds (i + 1) (record n {
      keys = update n.keys i (n.keys (i + 1));
      rids = update n.rids i (n.rids (i + 1));
    })

unfoldable pub erase_pair : IxNodeHandle → ℕ → IxNodeHandle
unfolding shift_down
erase_pair n p =
    let shifted = shift_down (count n.num_key - p) p n in
    record shifted { num_key = pred_int n.num_key }

-- The loop of `find_child`: `none` is the failed assertion.
unfoldable pub find_child_from : ℕ → ℕ → IxNodeHandle → ℤ → Option ℕ
unfolding ℤ-discrete
find_child_from zero i n child = none
find_child_from (suc rounds) i n child =
    let rest = find_child_from rounds (i + 1) n child in
    ite (ℤ-discrete (n.rids i).page_no child) (some i) rest

unfoldable pub find_child : IxNodeHandle → IxNodeHandle → Option ℕ
unfolding find_child_from
find_child n child = find_child_from (count n.num_key) 0 n child.page_no

-- `none` is a failed assertion.
unfoldable pub remove_and_return_only_child : IxNodeHandle → Option (IxNodeHandle × ℤ)
unfolding erase_pair ℤ-discrete
remove_and_return_only_child n =
    ite (ℤ-discrete n.num_key (pos 1)) (some (erase_pair n 0, (n.rids 0).page_no)) none

module _ (cmp : Bytes → Bytes → ℤ) where
  -- Whether the loop of `lower_bound` (`op` is 1) or `upper_bound` (`op` is 0) goes to the right.
  abbrev pub goes_right : ℕ → ℤ → Bool
  goes_right op compare_res = nonneg compare_res && not (op == 1 && is_zero compare_res)

  -- The loop, with fuel: `right - left` rounds are enough.
  unfoldable pub bound_loop : ℕ → Bytes → (ℕ → Bytes) → ℕ → ℕ → ℕ → ℕ
  bound_loop op target keys zero left right = left
  bound_loop op target keys (suc fuel) left right =
      let mid = (left + right) / 2 in
      let upper = bound_loop op target keys fuel (mid + 1) right in
      let lower = bound_loop op target keys fuel left mid in
      if ltb left right
      then (if goes_right op (cmp target (keys mid)) then upper else lower)
      else left

  unfoldable pub lower_bound : IxNodeHandle → Bytes → ℕ
  unfolding bound_loop
  lower_bound n target = bound_loop 1 target n.keys (count n.num_key) 0 (count n.num_key)

  unfoldable pub upper_bound : IxNodeHandle → Bytes → ℕ
  unfolding bound_loop
  upper_bound n target = bound_loop 0 target n.keys (count n.num_key) 0 (count n.num_key)

  -- `none` is -1.
  unfoldable pub locate_key_index : IxNodeHandle → Bytes → Option ℕ
  unfolding lower_bound ℤ-discrete
  locate_key_index n key =
      let index = lower_bound n key in
      ite (ℤ-discrete (pos index) n.num_key) none
        (if is_zero (cmp key (n.keys index)) then some index else none)

  unfoldable pub leaf_lookup : IxNodeHandle → Bytes → Option Rid
  unfolding locate_key_index
  leaf_lookup n key = elim (locate_key_index n key) [
    | none ↦ none
    | some index ↦ some (n.rids index)
  ]

  unfoldable pub internal_lookup : IxNodeHandle → Bytes → ℤ
  unfolding upper_bound
  internal_lookup n key =
      let index = upper_bound n key in (n.rids (if index == 0 then index else index - 1)).page_no

  -- The slot at `lower_bound` is compared also where it lies behind the last key.
  unfoldable pub insert : IxNodeHandle → Bytes → Rid → IxNodeHandle × ℤ
  unfolding lower_bound insert_pair
  insert n key value =
      let index = lower_bound n key in
      let grown = insert_pair n index key value in
      if is_zero (cmp key (n.keys index)) then (n, n.num_key) else (grown, grown.num_key)

  unfoldable pub remove : IxNodeHandle → Bytes → IxNodeHandle × ℤ
  unfolding lower_bound erase_pair
  remove n key =
      let remove_pos = lower_bound n key in
      let shrunk = erase_pair n remove_pos in
      if is_zero (cmp key (n.keys remove_pos)) then (shrunk, shrunk.num_key) else (n, n.num_key)
