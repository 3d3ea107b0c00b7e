-- ===== src/Index/Tree/Siblings.antt =====
-- `Coalesce` of internal nodes.
use rubcase_lab.Base.{
  ℕ, zero, suc, ◌+◌, ◌≡◌, refl, ap, ◌∙◌, inl, inr, Bool, true, false, ◌==◌, Option, none, arith,
  Bool-cases,
}
use rubcase_lab.Base.Int.{ℤ, ℤ-discrete}
use rubcase_lab.Index.Node.{IxNodeHandle, count, insert_pairs}
use rubcase_lab.Index.Tree.Store.{either, put_at-field, unpin-nodes}
use rubcase_lab.Index.Tree.{IxIndexHandle, set_node, fetch_node, maintain_child, maintain_children}
use rubcase_lab.Index.Tree.Shrink.{erase_leaf, move_left, merge_left, coalesce}

maintain_child-is_leaf :
    (h : IxIndexHandle) (p : ℤ) (i : ℕ) (q : ℤ)
    → ((maintain_child h p i).nodes q).is_leaf ≡ (h.nodes q).is_leaf
unfolding maintain_child fetch_node
maintain_child-is_leaf h p i q =
    let child = ((h.nodes p).rids i).page_no in
    let c = fetch_node h child in
    let d = set_node c child (record (c.nodes child) { parent = p }) in
    let kept =
      ap (λ f. (f q).is_leaf) (unpin-nodes d child true)
      ∙ put_at-field (λ n. n.is_leaf) h.nodes child (record (h.nodes child) { parent = p }) refl
          q in
    elim (Bool-cases (h.nodes p).is_leaf) [
      | inl leaf ↦ rw (leaf, maintain_child) refl
      | inr internal ↦ rw (internal, maintain_child) kept
    ]

maintain_children-is_leaf :
    (rounds i : ℕ) (h : IxIndexHandle) (p q : ℤ)
    → ((maintain_children rounds i h p).nodes q).is_leaf ≡ (h.nodes q).is_leaf
unfolding maintain_children
maintain_children-is_leaf zero i h p q = refl
maintain_children-is_leaf (suc rounds) i h p q =
    maintain_children-is_leaf rounds (i + 1) (maintain_child h p i) p q
    ∙ maintain_child-is_leaf h p i q

insert_pairs-is_leaf :
    (n : IxNodeHandle) (p k : ℕ) (m : IxNodeHandle)
    → (insert_pairs n p m.keys m.rids k).is_leaf ≡ n.is_leaf
unfolding insert_pairs
insert_pairs-is_leaf n p k m = ground arith

move_left-is_leaf :
    (h : IxIndexHandle) (neighbor node q : ℤ)
    → ((move_left h neighbor node).nodes q).is_leaf ≡ (h.nodes q).is_leaf
unfolding move_left
move_left-is_leaf h neighbor node q =
    let b = h.nodes neighbor in
    let n = h.nodes node in
    let m = insert_pairs b (count b.num_key) n.keys n.rids (count n.num_key) in
    let a = set_node h neighbor m in
    let c = maintain_children (count n.num_key) (count b.num_key) a neighbor in
    let kept =
      maintain_children-is_leaf (count n.num_key) (count b.num_key) a neighbor q
      ∙ put_at-field (λ x. x.is_leaf) h.nodes neighbor m
          (insert_pairs-is_leaf b (count b.num_key) (count n.num_key) n) q in
    either (λ (x : IxIndexHandle). (x.nodes q).is_leaf ≡ (h.nodes q).is_leaf)
      (ℤ-discrete node c.file_hdr.last_leaf)
      (record c { file_hdr = record c.file_hdr { last_leaf = neighbor } }) c kept kept

erase_leaf-internal :
    (h : IxIndexHandle) (leaf : ℤ) → (h.nodes leaf).is_leaf ≡ false → erase_leaf h leaf ≡ none
unfolding erase_leaf
erase_leaf-internal h leaf e = rw (e, erase_leaf) refl

module _ (again : IxIndexHandle → ℤ → Option (IxIndexHandle × Bool)) (h : IxIndexHandle)
    (parent : ℤ) where
  merge_left-internal :
      (neighbor node : ℤ) (index : ℕ)
      → (h.nodes node).is_leaf ≡ false
      → merge_left again h neighbor node parent index ≡ none
  unfolding merge_left
  merge_left-internal neighbor node index e =
      let internal = move_left-is_leaf h neighbor node node ∙ e in
      rw (erase_leaf-internal (move_left h neighbor node) node internal, merge_left) refl

  -- `Coalesce` of two internal nodes never gets to the parent: the assertion of `erase_leaf` fails.
  pub coalesce_internal :
      (neighbor node : ℤ) (index : ℕ)
      → (h.nodes neighbor).is_leaf ≡ false
      → (h.nodes node).is_leaf ≡ false
      → coalesce again h neighbor node parent index ≡ none
  unfolding coalesce
  coalesce_internal neighbor node index e e' = elim (Bool-cases (index == 0)) [
    | inl first ↦ rw (first, coalesce) (merge_left-internal node neighbor (index + 1) e)
    | inr later ↦ rw (later, coalesce) (merge_left-internal neighbor node index e')
  ]
