-- ===== src/Index/Tree/Lookup.antt =====
-- `GetValue` on a search tree, and the pins it leaves.
use rubcase_lab.Base.{
  ℕ, zero, suc, ◌≤◌, ◌<◌, ◌≡◌, ◌≢◌, refl, ap, sym, ◌∙◌, false, Option, none, some, arith,
}
use rubcase_lab.Base.Int.{ℤ}
use rubcase_lab.Storage.Page.{Bytes}
use rubcase_lab.Index.Compare.{IsOrder}
use rubcase_lab.Defs.{Rid}
use rubcase_lab.Index.Node.{IxNodeHandle, leaf_lookup}
use rubcase_lab.Index.Node.Search.{Finds, clash, leaf_lookup-Finds}
use rubcase_lab.Index.Tree.Store.{unpin-nodes, unpin-pin_count, fetch_node-pinned}
use rubcase_lab.Index.Tree.{IxIndexHandle, fetch_node, find_leaf_page, leaf_value, get_value}
use rubcase_lab.Index.Tree.Search.{IsTree, TreeFinds, size, Descends, find_from-Descends}

-- `GetValue` from the leaf on, for what the lookup in the leaf gives.
pub leaf_value-result :
    (cmp : Bytes → Bytes → ℤ) (c : IxIndexHandle) (leaf : ℤ) (key : Bytes) (result : Option Rid)
    → leaf_lookup cmp (c.nodes leaf) key ≡ result
    → ((leaf_value cmp c leaf key).1 ≡ result)
      × ((leaf_value cmp c leaf key).0.nodes ≡ c.nodes)
      × ((q : ℤ) → leaf ≢ q → (leaf_value cmp c leaf key).0.pin_count q ≡ c.pin_count q)
unfolding leaf_value
leaf_value-result cmp c leaf key none e =
    rw (e, leaf_value)
      (refl, unpin-nodes c leaf false, λ q differ. unpin-pin_count c leaf q false differ)
leaf_value-result cmp c leaf key (some r) e = rw (e, leaf_value) (refl, refl, λ q differ. refl)

Finds-TreeFinds :
    (cmp : Bytes → Bytes → ℤ) (nodes : ℤ → IxNodeHandle) (leaf : ℤ) (key : Bytes)
    (result : Option Rid)
    → Finds cmp (nodes leaf) (size cmp nodes leaf) key result
    → TreeFinds cmp nodes zero leaf key result
Finds-TreeFinds cmp nodes leaf key (some r) f = f
Finds-TreeFinds cmp nodes leaf key none f = λ r (i, inside, hit, u). f i inside hit

Descends-TreeFinds :
    (cmp : Bytes → Bytes → ℤ) (h c : IxIndexHandle) (levels : ℕ) (p leaf : ℤ) (key : Bytes)
    (result : Option Rid)
    → Descends cmp h c levels p leaf key
    → TreeFinds cmp h.nodes zero leaf key result
    → TreeFinds cmp h.nodes levels p key result
Descends-TreeFinds cmp h c levels p leaf key (some r) d f = d.from_leaf r f
Descends-TreeFinds cmp h c levels p leaf key none d f = λ r x. f r (d.to_leaf r x)

module _ (cmp : Bytes → Bytes → ℤ) (o : IsOrder cmp) (levels fuel : ℕ) (h : IxIndexHandle)
    (key : Bytes) (enough : levels ≤ fuel)
    (t : IsTree cmp h.nodes levels h.file_hdr.root_page) where
  -- `FindLeafPage` in a search tree, with as much fuel as levels, ends in a leaf, and the pages are
  -- as before: the key stands in the tree where it stands in that leaf.
  pub find_leaf_page-Descends :
      (c : IxIndexHandle) × (leaf : ℤ) × (find_leaf_page cmp fuel h key ≡ some (c, leaf))
      × Descends cmp (fetch_node h h.file_hdr.root_page) c levels h.file_hdr.root_page leaf key
  unfolding find_leaf_page fetch_node
  find_leaf_page-Descends =
      let root = h.file_hdr.root_page in
      find_from-Descends cmp o levels fuel (fetch_node h root) root key enough t

  -- `GetValue` in a search tree, with as much fuel as levels, returns, leaves every page as it was,
  -- and answers with a rid that stands in the tree with a key that compares equal, or with none if no
  -- such key stands in the tree.
  pub get_value-TreeFinds :
      (c : IxIndexHandle) × (result : Option Rid) × (get_value cmp fuel h key ≡ some (c, result))
      × (c.nodes ≡ h.nodes)
      × TreeFinds cmp h.nodes levels h.file_hdr.root_page key result
  unfolding get_value fetch_node
  get_value-TreeFinds =
      let (c, leaf, found, d) = find_leaf_page-Descends in
      let result = leaf_lookup cmp (h.nodes leaf) key in
      let (is_leaf, e, s) = d.at_leaf in
      let (answer, nodes, pins) =
        leaf_value-result cmp c leaf key result
          (ap (λ n. leaf_lookup cmp (n leaf) key) d.same_nodes) in
      (
        (leaf_value cmp c leaf key).0,
        result,
        rw (found, get_value) (ap (λ x. some ((leaf_value cmp c leaf key).0, x)) answer),
        nodes ∙ d.same_nodes,
        Descends-TreeFinds cmp (fetch_node h h.file_hdr.root_page) c levels h.file_hdr.root_page
            leaf key result d
            (Finds-TreeFinds cmp h.nodes leaf key result
              (leaf_lookup-Finds cmp o (h.nodes leaf) (size cmp h.nodes leaf) e s key)),
      )

-- `GetValue` in a search tree of more than one level, with as much fuel as levels, returns with more
-- pins on the page of the root than before.
pub get_value_leak :
    (cmp : Bytes → Bytes → ℤ) (o : IsOrder cmp) (levels fuel : ℕ) (h : IxIndexHandle) (key : Bytes)
    → suc levels ≤ fuel
    → IsTree cmp h.nodes (suc levels) h.file_hdr.root_page
    → (c : IxIndexHandle) × (result : Option Rid) × (get_value cmp fuel h key ≡ some (c, result))
      × (h.pin_count h.file_hdr.root_page < c.pin_count h.file_hdr.root_page)
unfolding get_value
get_value_leak cmp o levels fuel h key enough t =
    let root = h.file_hdr.root_page in
    let (c, leaf, found, d) = find_leaf_page-Descends cmp o (suc levels) fuel h key enough t in
    let (answer, nodes, pins) =
      leaf_value-result cmp c leaf key (leaf_lookup cmp (c.nodes leaf) key) refl in
    let (is_leaf, e, s) = d.at_leaf in
    let apart : leaf ≢ root =
      (λ same_page. clash (sym is_leaf ∙ ap (λ q. (h.nodes q).is_leaf) same_page ∙ t.0)) in
    (
      (leaf_value cmp c leaf key).0,
      (leaf_value cmp c leaf key).1,
      rw (found, get_value) refl,
      omega (arith, pins root apart, d.pins root, fetch_node-pinned h root),
    )
