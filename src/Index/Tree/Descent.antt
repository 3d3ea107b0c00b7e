-- ===== src/Index/Tree/Descent.antt =====
-- `FindLeafPage` and `GetValue` as functions of the pages alone.
use rubcase_lab.Base.{
  ℕ, zero, suc, ◌≡◌, ◌≢◌, refl, ap, sym, ◌∙◌, inl, inr, true, false, if◌then◌else◌, Option, none,
  some, arith, Bool-cases,
}
use rubcase_lab.Base.Int.{ℤ, ℤ-discrete}
use rubcase_lab.Storage.Page.{Bytes}
use rubcase_lab.Defs.{Rid}
use rubcase_lab.Index.Node.{IxNodeHandle, leaf_lookup, internal_lookup}
use rubcase_lab.Index.Tree.{IxIndexHandle, fetch_node, find_from, find_leaf_page, get_value}
use rubcase_lab.Index.Tree.Search.{find_from-leaf, find_from-internal}
use rubcase_lab.Index.Tree.Lookup.{leaf_value-result}

module _ (cmp : Bytes → Bytes → ℤ) (key : Bytes) where
  -- The leaf that the path of a key ends in.
  unfoldable pub descend : (ℤ → IxNodeHandle) → ℕ → ℤ → Option ℤ
  descend nodes zero p = if (nodes p).is_leaf then some p else none
  descend nodes (suc fuel) p =
      let below = descend nodes fuel (internal_lookup cmp (nodes p) key) in
      if (nodes p).is_leaf then some p else below

  -- The page handle has found what the path of the key ends in.
  abbrev Reaches : IxIndexHandle → Option ℤ → Option (IxIndexHandle × ℤ) → Type 0
  Reaches h none found = found ≡ none
  Reaches h (some leaf) found =
      (c : IxIndexHandle) × (found ≡ some (c, leaf))
      × (c.nodes ≡ h.nodes)
      × (c.file_hdr ≡ h.file_hdr)

  pub descend-leaf :
      (nodes : ℤ → IxNodeHandle) (fuel : ℕ) (p : ℤ)
      → (nodes p).is_leaf ≡ true
      → descend nodes fuel p ≡ some p
  unfolding descend
  descend-leaf nodes zero p e = ground arith
  descend-leaf nodes (suc fuel) p e = ground arith

  pub descend-internal :
      (nodes : ℤ → IxNodeHandle) (fuel : ℕ) (p : ℤ)
      → (nodes p).is_leaf ≡ false
      → descend nodes (suc fuel) p ≡ descend nodes fuel (internal_lookup cmp (nodes p) key)
  unfolding descend
  descend-internal nodes fuel p e = ground arith

  pub descend-unfinished :
      (nodes : ℤ → IxNodeHandle) (p : ℤ) → (nodes p).is_leaf ≡ false → descend nodes zero p ≡ none
  unfolding descend
  descend-unfinished nodes p e = ground arith

  find_from-unfinished :
      (h : IxIndexHandle) (p : ℤ) → (h.nodes p).is_leaf ≡ false → find_from cmp zero h p key ≡ none
  unfolding find_from
  find_from-unfinished h p e = ground arith

  find_from-Reaches :
      (fuel : ℕ) (h : IxIndexHandle) (p : ℤ)
      → Reaches h (descend h.nodes fuel p) (find_from cmp fuel h p key)
  unfolding fetch_node
  find_from-Reaches zero h p = elim (Bool-cases (h.nodes p).is_leaf) [
    | inl leaf ↦
        rw (descend-leaf h.nodes zero p leaf) (h, find_from-leaf cmp zero h p key leaf, refl, refl)
    | inr internal ↦ rw (descend-unfinished h.nodes p internal) (find_from-unfinished h p internal)
  ]
  find_from-Reaches (suc fuel) h p =
      let next = internal_lookup cmp (h.nodes p) key in
      elim (Bool-cases (h.nodes p).is_leaf) [
        | inl leaf ↦
            rw (descend-leaf h.nodes (suc fuel) p leaf)
              (h, find_from-leaf cmp (suc fuel) h p key leaf, refl, refl)
        | inr internal ↦
            rw
              (
                descend-internal h.nodes fuel p internal,
                find_from-internal cmp fuel h p key internal refl,
              )
              (find_from-Reaches fuel (fetch_node h next) next)
      ]

  abbrev pub lookup_at : (ℤ → IxNodeHandle) → Option ℤ → Option (Option Rid)
  lookup_at nodes none = none
  lookup_at nodes (some leaf) = some (leaf_lookup cmp (nodes leaf) key)

  -- What a lookup of the key answers, from the pages alone: `none` is a descent that has not ended.
  unfoldable pub tree_lookup : (ℤ → IxNodeHandle) → ℕ → ℤ → Option (Option Rid)
  unfolding descend
  tree_lookup nodes fuel root = lookup_at nodes (descend nodes fuel root)

  abbrev leaf_of : Option (IxIndexHandle × ℤ) → Option ℤ
  leaf_of none = none
  leaf_of (some (c, leaf)) = some leaf

  Reaches-inj :
      (h : IxIndexHandle) (d : Option ℤ) (found : Option (IxIndexHandle × ℤ)) (c : IxIndexHandle)
      (leaf : ℤ)
      → Reaches h d found
      → found ≡ some (c, leaf)
      → d ≡ some leaf
  Reaches-inj h none found c leaf e e' = absurd (cc)
  Reaches-inj h (some l) found c leaf (c', e, nodes, hdr) e' = ap leaf_of (sym e ∙ e')

  -- `FindLeafPage` returns the leaf that the path of the key ends in.
  pub find_leaf_page-descend :
      (h c : IxIndexHandle) (leaf : ℤ) (fuel : ℕ)
      → find_leaf_page cmp fuel h key ≡ some (c, leaf)
      → descend h.nodes fuel h.file_hdr.root_page ≡ some leaf
  unfolding find_leaf_page fetch_node
  find_leaf_page-descend h c leaf fuel found =
      let root = h.file_hdr.root_page in
      Reaches-inj h (descend h.nodes fuel root) (find_leaf_page cmp fuel h key) c leaf
        (find_from-Reaches fuel (fetch_node h root) root) found

-- The answer of `GetValue` without the handle.
abbrev pub answer : Option (IxIndexHandle × Option Rid) → Option (Option Rid)
answer none = none
answer (some (c, result)) = some result

module _ (cmp : Bytes → Bytes → ℤ) (key : Bytes) where
  -- A handle with the pages of `h` gives the same answer.
  get_value-cases :
      (h : IxIndexHandle) (fuel : ℕ) (d : Option ℤ)
      → descend cmp key h.nodes fuel h.file_hdr.root_page ≡ d
      → Reaches cmp key h d (find_leaf_page cmp fuel h key)
      → answer (get_value cmp fuel h key) ≡ tree_lookup cmp key h.nodes fuel h.file_hdr.root_page
  unfolding get_value tree_lookup
  get_value-cases h fuel none e found = rw (found, e, get_value, tree_lookup) refl
  get_value-cases h fuel (some leaf) e (c, found, nodes, hdr) =
      let (result, kept_nodes, pins) =
        leaf_value-result cmp c leaf key (leaf_lookup cmp (c.nodes leaf) key) refl in
      rw (found, e, get_value, tree_lookup)
        (ap some (result ∙ ap (λ n. leaf_lookup cmp (n leaf) key) nodes))

  -- The answer of `GetValue` is that of the lookup in the leaf that the path of the key ends in: it
  -- depends on no pin, no mark and no field of the header but the root.
  pub get_value-tree_lookup :
      (h : IxIndexHandle) (fuel : ℕ)
      → answer (get_value cmp fuel h key) ≡ tree_lookup cmp key h.nodes fuel h.file_hdr.root_page
  unfolding find_leaf_page fetch_node
  get_value-tree_lookup h fuel =
      let root = h.file_hdr.root_page in
      get_value-cases h fuel (descend cmp key h.nodes fuel root) refl
        (find_from-Reaches cmp key fuel (fetch_node h root) root)

module _ (cmp : Bytes → Bytes → ℤ) (key : Bytes) (nodes nodes' : ℤ → IxNodeHandle) (leaf : ℤ)
    (was_leaf : (nodes leaf).is_leaf ≡ true) (still_leaf : (nodes' leaf).is_leaf ≡ true)
    (others : (q : ℤ) → leaf ≢ q → nodes' q ≡ nodes q) where
  descend-at_leaf :
      (fuel : ℕ) (p : ℤ) → leaf ≡ p → descend cmp key nodes' fuel p ≡ descend cmp key nodes fuel p
  descend-at_leaf fuel p e =
      descend-leaf cmp key nodes' fuel p (ap (λ q. (nodes' q).is_leaf) (sym e) ∙ still_leaf)
      ∙ sym (descend-leaf cmp key nodes fuel p (ap (λ q. (nodes q).is_leaf) (sym e) ∙ was_leaf))

  -- In pages that differ in one leaf only, the path of a key is the same.
  pub descend-agree :
      (fuel : ℕ) (p : ℤ) → descend cmp key nodes' fuel p ≡ descend cmp key nodes fuel p
  unfolding descend
  descend-agree zero p = elim (ℤ-discrete leaf p) [
    | yes e ↦ descend-at_leaf zero p e
    | no differ ↦ ap (λ n. if n.is_leaf then some p else none) (others p differ)
  ]
  descend-agree (suc fuel) p =
      let next = internal_lookup cmp (nodes p) key in
      let below = descend-agree fuel next in
      elim (ℤ-discrete leaf p) [
        | yes e ↦ descend-at_leaf (suc fuel) p e
        | no differ ↦
            ap
              (λ n.
                if n.is_leaf
                then some p
                else descend cmp key nodes' fuel (internal_lookup cmp n key))
              (others p differ)
            ∙ ap (λ d. if (nodes p).is_leaf then some p else d) below
      ]
