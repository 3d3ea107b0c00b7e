-- ===== src/Index/Tree/Parents.antt =====
-- `InsertIntoParent` where the parent has room: where the parent leads each key afterwards.
use rubcase_lab.Base.{ℕ, suc, ◌≤◌, ◌<◌, ◌≡◌, ◌≢◌, refl, ap, ◌∙◌, true, false, some, arith}
use rubcase_lab.Base.Int.{ℤ, pos}
use rubcase_lab.Storage.Page.{Bytes, invalid_page_id}
use rubcase_lab.Index.Compare.{less, same, more, sign, IsOrder}
use rubcase_lab.Index.Node.{IxNodeHandle, get_max_size, is_full, insert, internal_lookup}
use rubcase_lab.Index.Node.Search.{Sorted}
use rubcase_lab.Index.Node.Insert.{insert_lem}
use rubcase_lab.Index.Node.Routing.{insert_routes, internal_lookup-first, insert_misroutes}
use rubcase_lab.Index.Tree.Store.{put_at-same, put_at-other, unpin-nodes}
use rubcase_lab.Index.Tree.Pages.{≢-sym}
use rubcase_lab.Index.Tree.{IxIndexHandle, set_node, unpin, fetch_node, is_root_page}
use rubcase_lab.Index.Tree.Grow.{child_rid, insert_into_parent, split_node_if_full}
use rubcase_lab.Index.Tree.InsertEntry.{split_node_if_full-skip, is_full-not}

-- A node that has a parent is not a root.
is_root_page-not : (n : IxNodeHandle) → n.parent ≢ invalid_page_id → is_root_page n ≡ false
is_root_page-not n e = ground arith

module _ (cmp : Bytes → Bytes → ℤ) (o : IsOrder cmp) (fuel : ℕ) (h : IxIndexHandle)
    (old_node new_node : ℤ) (key : Bytes) (size : ℕ)
    (not_root : (h.nodes old_node).parent ≢ invalid_page_id)
    (e : (h.nodes (h.nodes old_node).parent).num_key ≡ pos size)
    (s : Sorted cmp (h.nodes (h.nodes old_node).parent).keys size) (some_keys : 0 < size)
    (fresh : (j : ℕ)
      → j ≤ size
      → sign (cmp key ((h.nodes (h.nodes old_node).parent).keys j)) ≢ same)
    (room : suc size ≢ get_max_size h.file_hdr) where
  abbrev parent : ℤ
  parent = (h.nodes old_node).parent

  abbrev grown : IxNodeHandle
  grown = (insert cmp (h.nodes parent) key (child_rid new_node)).0

  insert_into_parent-grown :
      (c : IxIndexHandle) × (insert_into_parent cmp
          (split_node_if_full cmp fuel)
          h
          old_node
          key
          new_node
        ≡ some c)
      × (c.nodes parent ≡ grown)
      × ((q : ℤ) → q ≢ parent → c.nodes q ≡ h.nodes q)
  unfolding insert_into_parent fetch_node
  insert_into_parent-grown =
      let d = set_node (fetch_node h parent) parent grown in
      let (longer, returned, sorted, hit, others) =
        insert_lem cmp o (h.nodes parent) size e s key (child_rid new_node) fresh in
      let skip = split_node_if_full-skip cmp fuel d parent (
        ap (is_full h.file_hdr) (put_at-same h.nodes parent grown)
        ∙ is_full-not h.file_hdr grown (suc size) longer room) in
      (
        unpin d parent true,
        rw (is_root_page-not (h.nodes old_node) not_root, skip, insert_into_parent) refl,
        ap (λ f. f parent) (unpin-nodes d parent true) ∙ put_at-same h.nodes parent grown,
        λ q differ.
            ap (λ f. f q) (unpin-nodes d parent true)
            ∙ put_at-other h.nodes parent grown q (≢-sym differ),
      )

  -- `InsertIntoParent` of a node that is not the root, whose parent has room and does not hold the
  -- key, also not in the bytes behind its last key, where the key lies above the first key of the
  -- parent: it returns, and the parent then leads a key below the new one where it led it, a key that
  -- is not below it, but below every larger key of the parent, to the new node, and every other key
  -- where it led it.
  pub insert_into_parent_routes :
      sign (cmp key ((h.nodes parent).keys 0)) ≡ more
      → (c : IxIndexHandle) × (insert_into_parent cmp
            (split_node_if_full cmp fuel)
            h
            old_node
            key
            new_node
          ≡ some c)
        × ((k : Bytes)
            → (sign (cmp k key) ≡ less
                → internal_lookup cmp (c.nodes parent) k ≡ internal_lookup cmp (h.nodes parent) k)
              × (sign (cmp k key) ≢ less
                  → ((j : ℕ)
                      → j < size
                      → sign (cmp key ((h.nodes parent).keys j)) ≡ less
                      → sign (cmp k ((h.nodes parent).keys j)) ≡ less)
                  → internal_lookup cmp (c.nodes parent) k ≡ new_node)
              × ((j : ℕ)
                  → j < size
                  → sign (cmp key ((h.nodes parent).keys j)) ≡ less
                  → sign (cmp k ((h.nodes parent).keys j)) ≢ less
                  → internal_lookup cmp (c.nodes parent) k
                    ≡ internal_lookup cmp (h.nodes parent) k))
  insert_into_parent_routes above_first =
      let (c, returned, there, _) = insert_into_parent-grown in
      let routes =
        insert_routes cmp o (h.nodes parent) size e s key (child_rid new_node) some_keys fresh
          above_first in
      (
        c,
        returned,
        λ k.
            let (below, at, behind) = routes k in
            let same_lookup = ap (λ n. internal_lookup cmp n k) there in
            (
              λ x. same_lookup ∙ below x,
              λ x y. same_lookup ∙ at x y,
              λ j x y z. same_lookup ∙ behind j x y z,
            ),
      )

  -- `InsertIntoParent` of a node that is not the root, whose parent has room and does not hold the
  -- key, also not in the bytes behind its last key, where the key lies below all keys of the parent:
  -- it returns; a key below the new one, which the parent led to its first child before, it then
  -- leads to the new node; and no node but the parent is changed.
  pub insert_into_parent_misroutes :
      sign (cmp key ((h.nodes parent).keys 0)) ≡ less
      → (c : IxIndexHandle) × (insert_into_parent cmp
            (split_node_if_full cmp fuel)
            h
            old_node
            key
            new_node
          ≡ some c)
        × ((k : Bytes)
            → sign (cmp k key) ≡ less
            → (internal_lookup cmp (h.nodes parent) k ≡ ((h.nodes parent).rids 0).page_no)
              × (internal_lookup cmp (c.nodes parent) k ≡ new_node))
        × ((q : ℤ) → q ≢ parent → c.nodes q ≡ h.nodes q)
  insert_into_parent_misroutes below_first =
      let (c, returned, there, others) = insert_into_parent-grown in
      let n = h.nodes parent in
      (
        c,
        returned,
        λ k k_below. (
          internal_lookup-first cmp o n size e s key (child_rid new_node) some_keys fresh k
              (o.less_trans k key (n.keys 0) k_below below_first),
          ap (λ m. internal_lookup cmp m k) there
              ∙ insert_misroutes cmp o n size e s key (child_rid new_node) some_keys fresh
                  below_first k k_below,
        ),
        others,
      )
