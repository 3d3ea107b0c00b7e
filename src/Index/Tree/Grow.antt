-- ===== src/Index/Tree/Grow.antt =====
-- `insert_entry` and what it calls: the split of a full node and the way up to the root.
use mathlib.Core.Logic.{ite}
use rubcase_lab.Base.{
  ℕ, zero, suc, ◌+◌, ◌-◌, ◌/◌, Bool, true, false, if◌then◌else◌, Option, none, some, update,
}
use rubcase_lab.Base.Int.{ℤ, pos, negsuc, ℤ-discrete, lt_int}
use rubcase_lab.Defs.{Rid}
use rubcase_lab.Storage.Page.{Bytes, invalid_page_id}
use rubcase_lab.Index.Node.{IxNodeHandle, count, copy, is_full, insert}
use rubcase_lab.Index.Tree.{
  IxIndexHandle, set_node, set_root, unpin, fetch_node, create_node, is_root_page,
  maintain_children, find_leaf_page,
}

-- `Rid{page_no, -1}`: the value of a slot of an internal node.
abbrev pub child_rid : ℤ → Rid
child_rid p = record { page_no = p; slot_no = negsuc 0 }

-- What `evenlyDistributePairs` makes of the new node `n` and of the old one `o`, which is full, so that
-- its size is not negative.
unfoldable pub upper_half : IxNodeHandle → IxNodeHandle → IxNodeHandle
upper_half n o =
    let size = count o.num_key in
    let new_key_num = size / 2 in
    record n {
      is_leaf = o.is_leaf;
      num_key = pos (size - new_key_num);
      parent = o.parent;
      keys = copy n.keys 0 (λ i. o.keys (new_key_num + i)) (size - new_key_num);
      rids = copy n.rids 0 (λ i. o.rids (new_key_num + i)) (size - new_key_num);
    }

unfoldable pub lower_half : IxNodeHandle → IxNodeHandle
lower_half o = record o { num_key = pos (count o.num_key / 2) }

unfoldable pub evenly_distribute_pairs : IxIndexHandle → ℤ → ℤ → IxIndexHandle
unfolding upper_half lower_half
evenly_distribute_pairs h new origin =
    let o = h.nodes origin in
    set_node (set_node h new (upper_half (h.nodes new) o)) origin (lower_half o)

-- The rest of `insertLeaf` for a new node that has its next leaf.
unfoldable pub link_next : IxIndexHandle → ℤ → IxIndexHandle
unfolding fetch_node unpin ℤ-discrete
link_next h new =
    let next = (h.nodes new).next_leaf in
    let c = fetch_node h next in
    ite (ℤ-discrete next invalid_page_id) h
      (unpin (set_node c next (record (c.nodes next) { prev_leaf = new })) next true)

unfoldable pub insert_leaf : IxIndexHandle → ℤ → ℤ → Bool → IxIndexHandle
unfolding link_next
insert_leaf h origin new keep =
    let a = set_node h new (record (h.nodes new) { next_leaf = (h.nodes origin).next_leaf }) in
    let b = set_node a new (record (a.nodes new) { prev_leaf = origin }) in
    let c = set_node b origin (record (b.nodes origin) { next_leaf = new }) in
    link_next (if keep then c else a) new

-- `Split`, and the page number of the new node.
unfoldable pub split : IxIndexHandle → ℤ → IxIndexHandle × ℤ
unfolding create_node evenly_distribute_pairs insert_leaf maintain_children
split h node =
    let (c, new) = create_node h in
    let d = evenly_distribute_pairs c new node in
    let chained = insert_leaf d node new true in
    let adopted = maintain_children (count (d.nodes new).num_key) 0 d new in
    (if (d.nodes new).is_leaf then chained else adopted, new)

unfoldable pub set_new_root : IxIndexHandle → ℤ → ℤ → ℤ → IxIndexHandle
unfolding maintain_children unpin
set_new_root h root left right =
    let r = h.nodes root in
    let n : IxNodeHandle = record r {
      is_leaf = false;
      num_key = pos 2;
      parent = invalid_page_id;
      keys = update (update r.keys 0 ((h.nodes left).keys 0)) 1 ((h.nodes right).keys 0);
      rids = update (update r.rids 0 (child_rid left)) 1 (child_rid right);
    } in
    unpin (maintain_children 2 0 (set_node (set_root h root) root n) root) root true

unfoldable pub update_last_leaf : IxIndexHandle → ℤ → ℤ → IxIndexHandle
unfolding ℤ-discrete
update_last_leaf h origin new =
    ite (ℤ-discrete origin h.file_hdr.last_leaf)
      (record h { file_hdr = record h.file_hdr { last_leaf = new } }) h

-- What `splitNodeIfFull` does after `InsertIntoParent`.
unfoldable pub release_halves : IxIndexHandle → ℤ → ℤ → IxIndexHandle
unfolding update_last_leaf unpin
release_halves h node new =
    let u = update_last_leaf h node new in
    if (h.nodes node).is_leaf then unpin (unpin u node true) new true else h

module _ (cmp : Bytes → Bytes → ℤ) where
  -- `up` is `splitNodeIfFull` for the parent.
  unfoldable pub insert_into_parent :
      (IxIndexHandle → ℤ → Option IxIndexHandle)
      → IxIndexHandle
      → ℤ
      → Bytes
      → ℤ
      → Option IxIndexHandle
  unfolding create_node set_new_root fetch_node insert unpin ℤ-discrete
  insert_into_parent up h old_node key new_node =
      let (r, root) = create_node h in
      let rooted = set_new_root r root old_node new_node in
      let parent = (h.nodes old_node).parent in
      let c = fetch_node h parent in
      let d = set_node c parent (insert cmp (c.nodes parent) key (child_rid new_node)).0 in
      let raised : Option IxIndexHandle = elim (up d parent) [
        | none ↦ none
        | some e ↦ some (unpin e parent true)
      ] in
      if is_root_page (h.nodes old_node) then some rooted else raised

  -- What `splitNodeIfFull` does to a full node.
  unfoldable pub split_full :
      (IxIndexHandle → ℤ → Option IxIndexHandle) → IxIndexHandle → ℤ → Option IxIndexHandle
  unfolding split insert_into_parent release_halves
  split_full up h node =
      let (s, new) = split h node in
      elim (insert_into_parent up s node ((s.nodes new).keys 0) new) [
        | none ↦ none
        | some e ↦ some (release_halves e node new)
      ]

  -- With fuel: the number of levels from the node to the root is enough, and `none` is a recursion
  -- that has not ended.
  unfoldable pub split_node_if_full : ℕ → IxIndexHandle → ℤ → Option IxIndexHandle
  unfolding is_full split_full
  split_node_if_full zero h node = if is_full h.file_hdr (h.nodes node) then none else some h
  split_node_if_full (suc fuel) h node =
      let done = split_full (split_node_if_full fuel) h node in
      if is_full h.file_hdr (h.nodes node) then done else some h

  -- `insert_entry` from the leaf on, which stays pinned where it is not split.
  unfoldable pub insert_at_leaf :
      ℕ → IxIndexHandle → ℤ → Bytes → Rid → Option (IxIndexHandle × Bool)
  unfolding insert split_node_if_full lt_int
  insert_at_leaf fuel h leaf key value =
      let origin_size = (h.nodes leaf).num_key in
      let (grown, now_size) = insert cmp (h.nodes leaf) key value in
      let split_done : Option (IxIndexHandle × Bool) =
        elim (split_node_if_full fuel (set_node h leaf grown) leaf) [
          | none ↦ none
          | some e ↦ some (e, true)
        ] in
      if lt_int origin_size now_size then split_done else some (set_node h leaf grown, false)

  unfoldable pub insert_entry : ℕ → IxIndexHandle → Bytes → Rid → Option (IxIndexHandle × Bool)
  unfolding find_leaf_page insert_at_leaf
  insert_entry fuel h key value = elim (find_leaf_page cmp fuel h key) [
    | none ↦ none
    | some (c, leaf) ↦ insert_at_leaf fuel c leaf key value
  ]
