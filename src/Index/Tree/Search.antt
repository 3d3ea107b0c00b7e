-- ===== src/Index/Tree/Search.antt =====
-- `FindLeafPage` and `GetValue` on a search tree.
use native.Mathlib.Decide.{dec_lt}
use rubcase_lab.Base.{
  ℕ, zero, suc, ◌≤◌, ◌<◌, ◌≡◌, ◌≢◌, refl, ap, ◌∙◌, ◌⊎◌, inl, inr, true, false, Option, none, some,
  arith,
}
use rubcase_lab.Base.Int.{ℤ, pos}
use rubcase_lab.Storage.Page.{Bytes}
use rubcase_lab.Index.Compare.{less, same, sign, IsOrder}
use rubcase_lab.Defs.{Rid}
use rubcase_lab.Index.Node.{IxNodeHandle, count, internal_lookup}
use rubcase_lab.Index.Node.Search.{Sorted, internal_lookup_lem}
use rubcase_lab.Index.Tree.Store.{fetch_node-pins}
use rubcase_lab.Index.Tree.{IxIndexHandle, fetch_node, find_from}

module _ (cmp : Bytes → Bytes → ℤ) (nodes : ℤ → IxNodeHandle) where
  abbrev pub size : ℤ → ℕ
  size p = count (nodes p).num_key

  abbrev pub child : ℤ → ℕ → ℤ
  child p i = ((nodes p).rids i).page_no

  -- The key and the rid stand in a leaf under the page, which is `levels` above the leaves.
  abbrev pub InTree : (levels : ℕ) → ℤ → Bytes → Rid → Type 0
  InTree zero p key r =
      (i : ℕ) × (i < size p) × (sign (cmp key ((nodes p).keys i)) ≡ same) × ((nodes p).rids i ≡ r)
  InTree (suc levels) p key r = (i : ℕ) × (i < size p) × InTree levels (child p i) key r

  -- The page is the root of a search tree whose leaves are all `levels` below it: what stands under
  -- a slot of an internal node is not below the key of the slot, except for the first slot, and is
  -- below the keys of the later slots.
  abbrev pub IsTree : (levels : ℕ) → ℤ → Type 0
  IsTree zero p =
      ((nodes p).is_leaf ≡ true)
      × ((nodes p).num_key ≡ pos (size p))
      × Sorted cmp (nodes p).keys (size p)
  IsTree (suc levels) p =
      ((nodes p).is_leaf ≡ false)
      × ((nodes p).num_key ≡ pos (size p))
      × Sorted cmp (nodes p).keys (size p)
      × (0 < size p)
      × ((i : ℕ) → i < size p → IsTree levels (child p i))
      × ((i : ℕ) (key : Bytes) (r : Rid)
          → i < size p
          → InTree levels (child p i) key r
          → ((i ≡ 0) ⊎ (sign (cmp key ((nodes p).keys i)) ≢ less))
            × ((j : ℕ) → i < j → j < size p → sign (cmp key ((nodes p).keys j)) ≡ less))

  -- What a lookup in the tree may return.
  abbrev pub TreeFinds : (levels : ℕ) → ℤ → Bytes → Option Rid → Type 0
  TreeFinds levels p key (some r) = InTree levels p key r
  TreeFinds levels p key none = (r : Rid) → ¬ InTree levels p key r

module _ (cmp : Bytes → Bytes → ℤ) (o : IsOrder cmp) (nodes : ℤ → IxNodeHandle) where
  -- `InternalLookup` leads to the only child that a key can stand under.
  step_down :
      (levels : ℕ) (p : ℤ) (key : Bytes)
      → IsTree cmp nodes (suc levels) p
      → (i : ℕ) × (i < size cmp nodes p)
        × (internal_lookup cmp (nodes p) key ≡ child cmp nodes p i)
        × ((j : ℕ) (r : Rid)
            → j < size cmp nodes p
            → InTree cmp nodes levels (child cmp nodes p j) key r
            → j ≡ i)
  step_down levels p key (internal, e, s, some_keys, below, bounds) =
      let (i, inside, leads, from, after) =
        internal_lookup_lem cmp o (nodes p) (size cmp nodes p) e s key some_keys in
      (
        i,
        inside,
        leads,
        λ j r q t.
            let (lower, upper) = bounds j key r q t in
            elim (dec_lt i j) [
              | yes lt ↦
                  absurd (elim lower [
                    | inl first ↦ omega arith
                    | inr not_less ↦ not_less (after j lt q)
                  ])
              | no ge ↦ elim (dec_lt j i) [
                | yes gt ↦ absurd (elim from [
                  | inl first ↦ omega arith
                  | inr not_less ↦ not_less (upper i gt inside)
                ])
                | no le ↦ omega arith
              ]
            ],
      )

-- What the loop of `FindLeafPage` from a page returns: the handle, in which only pins are new, and the
-- leaf, which alone can hold the key.
pub record Descends (cmp : Bytes → Bytes → ℤ) (h c : IxIndexHandle) (levels : ℕ) (p leaf : ℤ)
    (key : Bytes) : Type 0 where
  pub same_nodes : c.nodes ≡ h.nodes
  pub same_header : c.file_hdr ≡ h.file_hdr
  pub at_leaf : IsTree cmp h.nodes zero leaf
  pub to_leaf : (r : Rid) → InTree cmp h.nodes levels p key r → InTree cmp h.nodes zero leaf key r
  pub from_leaf : (r : Rid) → InTree cmp h.nodes zero leaf key r → InTree cmp h.nodes levels p key r
  pub pins : (q : ℤ) → h.pin_count q ≤ c.pin_count q

module _ (cmp : Bytes → Bytes → ℤ) where
  pub find_from-leaf :
      (fuel : ℕ) (h : IxIndexHandle) (p : ℤ) (key : Bytes)
      → (h.nodes p).is_leaf ≡ true
      → find_from cmp fuel h p key ≡ some (h, p)
  unfolding find_from
  find_from-leaf zero h p key e = ground arith
  find_from-leaf (suc fuel) h p key e = ground arith

  pub find_from-internal :
      (fuel : ℕ) (h : IxIndexHandle) (p : ℤ) (key : Bytes) {next : ℤ}
      → (h.nodes p).is_leaf ≡ false
      → internal_lookup cmp (h.nodes p) key ≡ next
      → find_from cmp (suc fuel) h p key ≡ find_from cmp fuel (fetch_node h next) next key
  unfolding find_from
  find_from-internal fuel h p key {next} e leads =
      let here : find_from cmp (suc fuel) h p key
          ≡ find_from cmp fuel (fetch_node h (internal_lookup cmp (h.nodes p) key))
              (internal_lookup cmp (h.nodes p) key) key =
        ground arith in
      here ∙ ap (λ q. find_from cmp fuel (fetch_node h q) q key) leads

module _ (cmp : Bytes → Bytes → ℤ) (o : IsOrder cmp) where
  -- `FindLeafPage` from a page that is the root of a search tree, with as much fuel as levels.
  pub find_from-Descends :
      (levels fuel : ℕ) (h : IxIndexHandle) (p : ℤ) (key : Bytes)
      → levels ≤ fuel
      → IsTree cmp h.nodes levels p
      → (c : IxIndexHandle) × (leaf : ℤ) × (find_from cmp fuel h p key ≡ some (c, leaf))
        × Descends cmp h c levels p leaf key
  unfolding fetch_node
  find_from-Descends zero fuel h p key enough t = (
    h,
    p,
    find_from-leaf cmp fuel h p key (t.0),
    record {
      same_nodes = refl;
      same_header = refl;
      at_leaf = t;
      to_leaf = λ r x. x;
      from_leaf = λ r x. x;
      pins = λ q. omega arith;
    },
  )
  find_from-Descends (suc levels) zero h p key enough t = absurd (omega arith)
  find_from-Descends (suc levels) (suc fuel) h p key enough t =
      let (internal, e, s, some_keys, below, bounds) = t in
      let (i, inside, leads, only) = step_down cmp o h.nodes levels p key t in
      let next = child cmp h.nodes p i in
      let (c, leaf, found, d) =
        find_from-Descends levels fuel (fetch_node h next) next key (omega arith)
          (below i inside) in
      (
        c,
        leaf,
        find_from-internal cmp fuel h p key internal leads ∙ found,
        record {
          same_nodes = d.same_nodes;
          same_header = d.same_header;
          at_leaf = d.at_leaf;
          to_leaf = λ r (j, q, x). d.to_leaf r (rw⁻¹ (only j r q x) x);
          from_leaf = λ r x. (i, inside, d.from_leaf r x);
          pins = λ q. omega (arith, fetch_node-pins h next q, d.pins q);
        },
      )
