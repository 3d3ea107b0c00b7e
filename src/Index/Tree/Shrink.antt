-- ===== src/Index/Tree/Shrink.antt =====
-- `delete_entry` and what it calls: the way up to the root after a node has lost a pair.
use mathlib.Core.Logic.{ite}
use rubcase_lab.Base.{
  ℕ, zero, suc, ◌+◌, ◌-◌, ◌*◌, Bool, true, false, leb, ◌==◌, if◌then◌else◌, Option, none, some,
  update,
}
use rubcase_lab.Base.Int.{ℤ, pos, ℤ-discrete}
use rubcase_lab.Storage.Page.{Bytes, invalid_page_id}
use rubcase_lab.Index.Compare.{memcmp}
use rubcase_lab.Index.Node.{
  count, is_zero, get_min_size, insert_pairs, insert_pair, erase_pair, find_child, remove,
}
use rubcase_lab.Index.Tree.{
  IxIndexHandle, set_node, set_root, unpin, fetch_node, release_node_handle, is_root_page,
  maintain_child, maintain_children, find_leaf_page,
}

-- One round of the loop of `maintain_parent` at slot `rank` of the parent, whose page is pinned: `up`
-- is the rest of the loop.
unfoldable pub maintain_key :
    (IxIndexHandle → ℤ → Option IxIndexHandle) → IxIndexHandle → ℤ → ℤ → ℕ → Option IxIndexHandle
unfolding memcmp unpin
maintain_key up h curr parent rank =
    let first_key = (h.nodes curr).keys 0 in
    let p = h.nodes parent in
    let d = set_node h parent (record p { keys = update p.keys rank first_key }) in
    let raised = up (unpin d parent true) parent in
    if is_zero (memcmp h.file_hdr.col_len (p.keys rank) first_key)
    then some (unpin h parent true)
    else raised

-- The loop, with fuel: the number of levels above the node is enough. `none` is also the failed
-- assertion of `find_child`.
unfoldable pub maintain_parent : ℕ → IxIndexHandle → ℤ → Option IxIndexHandle
unfolding find_child maintain_key fetch_node
maintain_parent zero h curr = if is_root_page (h.nodes curr) then some h else none
maintain_parent (suc fuel) h curr =
    let parent = (h.nodes curr).parent in
    let c = fetch_node h parent in
    let up = maintain_parent fuel in
    let raised : Option IxIndexHandle = elim (find_child (c.nodes parent) (c.nodes curr)) [
      | none ↦ none
      | some rank ↦ maintain_key up c curr parent rank
    ] in
    if is_root_page (h.nodes curr) then some h else raised

-- `none` is the failed assertion.
unfoldable pub erase_leaf : IxIndexHandle → ℤ → Option IxIndexHandle
unfolding fetch_node unpin
erase_leaf h leaf =
    let prev = (h.nodes leaf).prev_leaf in
    let c = fetch_node h prev in
    let d = set_node c prev (record (c.nodes prev) { next_leaf = (c.nodes leaf).next_leaf }) in
    let e = unpin d prev true in
    let next = (e.nodes leaf).next_leaf in
    let f = fetch_node e next in
    let g = set_node f next (record (f.nodes next) { prev_leaf = (f.nodes leaf).prev_leaf }) in
    if (h.nodes leaf).is_leaf then some (unpin g next true) else none

-- Whether the root is to be deleted.
unfoldable pub adjust_root : IxIndexHandle → ℤ → IxIndexHandle × Bool
unfolding fetch_node release_node_handle unpin ℤ-discrete
adjust_root h old_root =
    let o = h.nodes old_root in
    let emptied = set_root (release_node_handle h) invalid_page_id in
    let new_root = (o.rids 0).page_no in
    let c = fetch_node h new_root in
    let d = set_node c new_root (record (c.nodes new_root) { parent = invalid_page_id }) in
    let lowered = unpin (release_node_handle (set_root d new_root)) new_root true in
    if o.is_leaf
    then ite (ℤ-discrete o.num_key (pos 0)) (emptied, true) (h, false)
    else ite (ℤ-discrete o.num_key (pos 1)) (lowered, true) (h, false)

-- The neighbor has more than half of the keys, so its last slot exists.
unfoldable pub redistribute : ℕ → IxIndexHandle → ℤ → ℤ → ℕ → Option IxIndexHandle
unfolding insert_pair erase_pair maintain_child maintain_parent
redistribute fuel h neighbor node index =
    let b = h.nodes neighbor in
    let n = h.nodes node in
    let last = count b.num_key - 1 in
    let a = set_node h node (insert_pair n 0 (b.keys last) (b.rids last)) in
    let c = set_node a neighbor (erase_pair (a.nodes neighbor) last) in
    let from_left = maintain_parent fuel (maintain_child c node 0) node in
    let d = set_node h node (insert_pair n (count n.num_key) (b.keys 0) (b.rids 0)) in
    let e = set_node d neighbor (erase_pair (d.nodes neighbor) 0) in
    let from_right =
      maintain_parent fuel (maintain_child e node (count (e.nodes node).num_key - 1)) neighbor in
    if index == 0 then from_right else from_left

-- What `Coalesce` does before it erases the node, which is to the right of the neighbor.
unfoldable pub move_left : IxIndexHandle → ℤ → ℤ → IxIndexHandle
unfolding insert_pairs maintain_children ℤ-discrete
move_left h neighbor node =
    let b = h.nodes neighbor in
    let n = h.nodes node in
    let before_num = count b.num_key in
    let a = set_node h neighbor (insert_pairs b before_num n.keys n.rids (count n.num_key)) in
    let c = maintain_children (count n.num_key) before_num a neighbor in
    let last = record c { file_hdr = record c.file_hdr { last_leaf = neighbor } } in
    ite (ℤ-discrete node c.file_hdr.last_leaf) last c

-- `Coalesce` of a node into its left neighbor, which are in order; `index` is the place of the node
-- and `again` is `CoalesceOrRedistribute`.
unfoldable pub merge_left :
    (IxIndexHandle → ℤ → Option (IxIndexHandle × Bool))
    → IxIndexHandle
    → ℤ
    → ℤ
    → ℤ
    → ℕ
    → Option (IxIndexHandle × Bool)
unfolding move_left erase_leaf release_node_handle erase_pair
merge_left again h neighbor node parent index = elim (erase_leaf (move_left h neighbor node) node) [
  | none ↦ none
  | some e ↦
      let f = release_node_handle e in
      again (set_node f parent (erase_pair (f.nodes parent) index)) parent
]

unfoldable pub coalesce :
    (IxIndexHandle → ℤ → Option (IxIndexHandle × Bool))
    → IxIndexHandle
    → ℤ
    → ℤ
    → ℤ
    → ℕ
    → Option (IxIndexHandle × Bool)
unfolding merge_left
coalesce again h neighbor node parent index =
    let swapped = merge_left again h node neighbor parent (index + 1) in
    let in_order = merge_left again h neighbor node parent index in
    if index == 0 then swapped else in_order

-- `CoalesceOrRedistribute` with the parent and the brother at hand, for a node at place `index`.
unfoldable pub borrow_or_merge :
    ℕ
    → (IxIndexHandle → ℤ → Option (IxIndexHandle × Bool))
    → IxIndexHandle
    → ℤ
    → ℤ
    → ℤ
    → ℕ
    → Option (IxIndexHandle × Bool)
unfolding redistribute coalesce unpin get_min_size
borrow_or_merge fuel again h node parent brother index =
    let sizes = count (h.nodes node).num_key + count (h.nodes brother).num_key in
    let left = if index == 0 then node else brother in
    let borrowed : Option (IxIndexHandle × Bool) = elim (redistribute fuel h brother node index) [
      | none ↦ none
      | some e ↦ some (unpin (unpin e parent true) brother true, false)
    ] in
    let merged : Option (IxIndexHandle × Bool) = elim (coalesce again h brother node parent index) [
      | none ↦ none
      | some (e, deleted) ↦ some (unpin (unpin e parent true) left true, true)
    ] in
    if leb (get_min_size h.file_hdr * 2) sizes then borrowed else merged

-- With fuel: one more than the number of levels above the node is enough.
unfoldable pub coalesce_or_redistribute : ℕ → IxIndexHandle → ℤ → Option (IxIndexHandle × Bool)
unfolding adjust_root get_min_size maintain_parent fetch_node find_child borrow_or_merge
coalesce_or_redistribute zero h node = none
coalesce_or_redistribute (suc fuel) h node =
    let n = h.nodes node in
    let parent = n.parent in
    let c = fetch_node h parent in
    let again = coalesce_or_redistribute fuel in
    let kept : Option (IxIndexHandle × Bool) = elim (maintain_parent (suc fuel) h node) [
      | none ↦ none
      | some e ↦ some (e, false)
    ] in
    let thin : Option (IxIndexHandle × Bool) = elim (find_child (c.nodes parent) (c.nodes node)) [
      | none ↦ none
      | some index ↦
          let brother = if index == 0 then n.next_leaf else n.prev_leaf in
          borrow_or_merge (suc fuel) again (fetch_node c brother) node parent brother index
    ] in
    if is_root_page n
    then some (adjust_root h node)
    else if leb (get_min_size h.file_hdr) (count n.num_key)
    then kept
    else thin

module _ (cmp : Bytes → Bytes → ℤ) where
  -- `delete_entry` from the leaf on.
  unfoldable pub delete_at_leaf : ℕ → IxIndexHandle → ℤ → Bytes → Option (IxIndexHandle × Bool)
  unfolding remove coalesce_or_redistribute unpin ℤ-discrete
  delete_at_leaf fuel h leaf key =
      let (shrunk, now_size) = remove cmp (h.nodes leaf) key in
      let d = set_node h leaf shrunk in
      let removed : Option (IxIndexHandle × Bool) = elim (coalesce_or_redistribute fuel d leaf) [
        | none ↦ none
        | some (e, deleted) ↦ some (unpin e leaf true, true)
      ] in
      ite (ℤ-discrete now_size (h.nodes leaf).num_key) (some (unpin d leaf false, false)) removed

  unfoldable pub delete_entry : ℕ → IxIndexHandle → Bytes → Option (IxIndexHandle × Bool)
  unfolding find_leaf_page delete_at_leaf
  delete_entry fuel h key = elim (find_leaf_page cmp fuel h key) [
    | none ↦ none
    | some (c, leaf) ↦ delete_at_leaf fuel c leaf key
  ]
