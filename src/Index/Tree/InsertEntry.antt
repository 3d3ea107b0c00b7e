-- ===== src/Index/Tree/InsertEntry.antt =====
-- `insert_entry` where no node is split.
use rubcase_lab.Base.{
  ℕ, zero, suc, ◌≤◌, ◌≡◌, ◌≢◌, refl, ap, ap₂, sym, ◌∙◌, true, false, Option, none, some, arith,
}
use rubcase_lab.Base.Int.{ℤ, pos, ℤ-discrete, lt_int}
use rubcase_lab.Storage.Page.{Bytes}
use rubcase_lab.Index.Compare.{same, sign, IsOrder}
use rubcase_lab.Defs.{Rid}
use rubcase_lab.Index.Node.{
  IxFileHdr, IxNodeHandle, is_full, get_max_size, insert, insert_pair, insert_pairs, leaf_lookup,
}
use rubcase_lab.Index.Node.Search.{pos-inj}
use rubcase_lab.Index.Node.Insert.{insert_lem}
use rubcase_lab.Index.Tree.Store.{put_at-same, put_at-other}
use rubcase_lab.Index.Tree.{IxIndexHandle, set_node, put_at, get_value}
use rubcase_lab.Index.Tree.Grow.{split_node_if_full, insert_at_leaf, insert_entry}
use rubcase_lab.Index.Tree.Search.{IsTree, size}
use rubcase_lab.Index.Tree.Lookup.{find_leaf_page-Descends}
use rubcase_lab.Index.Tree.Descent.{
  descend, lookup_at, tree_lookup, answer, get_value-tree_lookup, descend-agree,
  find_leaf_page-descend,
}

-- A node that is not full is not split.
pub split_node_if_full-skip :
    (cmp : Bytes → Bytes → ℤ) (fuel : ℕ) (h : IxIndexHandle) (p : ℤ)
    → is_full h.file_hdr (h.nodes p) ≡ false
    → split_node_if_full cmp fuel h p ≡ some h
unfolding split_node_if_full
split_node_if_full-skip cmp zero h p e = ground arith
split_node_if_full-skip cmp (suc fuel) h p e = rw (e, split_node_if_full) refl

suc-longer : (s : ℕ) → lt_int (pos s) (pos (suc s)) ≡ true
unfolding lt_int
suc-longer s = ground arith

insert_at_leaf-grown :
    (cmp : Bytes → Bytes → ℤ) (fuel : ℕ) (h : IxIndexHandle) (leaf : ℤ) (key : Bytes) (value : Rid)
    (s : ℕ)
    → (h.nodes leaf).num_key ≡ pos s
    → (insert cmp (h.nodes leaf) key value).1 ≡ pos (suc s)
    → is_full h.file_hdr (insert cmp (h.nodes leaf) key value).0 ≡ false
    → insert_at_leaf cmp fuel h leaf key value
      ≡ some (set_node h leaf (insert cmp (h.nodes leaf) key value).0, true)
unfolding insert_at_leaf
insert_at_leaf-grown cmp fuel h leaf key value s e grown room =
    let m = (insert cmp (h.nodes leaf) key value).0 in
    let longer : lt_int (h.nodes leaf).num_key (insert cmp (h.nodes leaf) key value).1 ≡ true =
      ap₂ lt_int e grown ∙ suc-longer s in
    let skip =
      split_node_if_full-skip cmp fuel (set_node h leaf m) leaf
        (ap (is_full h.file_hdr) (put_at-same h.nodes leaf m) ∙ room) in
    rw (longer, skip, insert_at_leaf) refl

pub is_full-not :
    (hdr : IxFileHdr) (n : IxNodeHandle) (k : ℕ)
    → n.num_key ≡ pos k
    → k ≢ get_max_size hdr
    → is_full hdr n ≡ false
unfolding is_full
is_full-not hdr n k e differ =
    let other : n.num_key ≢ pos (get_max_size hdr) =
      (λ full. differ (pos-inj k (get_max_size hdr) (sym e ∙ full))) in
    ground arith

pub insert-is_leaf :
    (cmp : Bytes → Bytes → ℤ) (n : IxNodeHandle) (key : Bytes) (value : Rid)
    → (insert cmp n key value).0.is_leaf ≡ n.is_leaf
unfolding insert insert_pair insert_pairs
insert-is_leaf cmp n key value = ground arith

-- The pages with another node for a leaf.
module _ (cmp : Bytes → Bytes → ℤ) (key : Bytes) (nodes : ℤ → IxNodeHandle) (leaf : ℤ)
    (m : IxNodeHandle) (was_leaf : (nodes leaf).is_leaf ≡ true) (still_leaf : m.is_leaf ≡ true)
    (fuel : ℕ) (root : ℤ) where
  descend-put_at : descend cmp key (put_at nodes leaf m) fuel root ≡ descend cmp key nodes fuel root
  descend-put_at =
      descend-agree cmp key nodes (put_at nodes leaf m) leaf was_leaf
        (ap (λ n. n.is_leaf) (put_at-same nodes leaf m) ∙ still_leaf) (put_at-other nodes leaf m)
        fuel root

  pub tree_lookup-there :
      descend cmp key nodes fuel root ≡ some leaf
      → tree_lookup cmp key (put_at nodes leaf m) fuel root ≡ some (leaf_lookup cmp m key)
  unfolding tree_lookup
  tree_lookup-there e =
      ap (lookup_at cmp key (put_at nodes leaf m)) (descend-put_at ∙ e)
      ∙ ap (λ n. some (leaf_lookup cmp n key)) (put_at-same nodes leaf m)

  lookup_at-unchanged :
      leaf_lookup cmp m key ≡ leaf_lookup cmp (nodes leaf) key
      → (d : Option ℤ) → lookup_at cmp key (put_at nodes leaf m) d ≡ lookup_at cmp key nodes d
  lookup_at-unchanged e none = refl
  lookup_at-unchanged e (some l) = elim (ℤ-discrete leaf l) [
    | yes there ↦
        let back = ap (λ q. leaf_lookup cmp (nodes q) key) there in
        let here = ap (λ q. leaf_lookup cmp (put_at nodes leaf m q) key) (sym there) in
        ap some (here ∙ ap (λ n. leaf_lookup cmp n key) (put_at-same nodes leaf m) ∙ e ∙ back)
    | no differ ↦ ap (λ n. some (leaf_lookup cmp n key)) (put_at-other nodes leaf m l differ)
  ]

  pub tree_lookup-unchanged :
      leaf_lookup cmp m key ≡ leaf_lookup cmp (nodes leaf) key
      → tree_lookup cmp key (put_at nodes leaf m) fuel root ≡ tree_lookup cmp key nodes fuel root
  unfolding tree_lookup
  tree_lookup-unchanged e =
      lookup_at-unchanged e (descend cmp key (put_at nodes leaf m) fuel root)
      ∙ ap (lookup_at cmp key nodes) descend-put_at

module _ (cmp : Bytes → Bytes → ℤ) (o : IsOrder cmp) (levels fuel : ℕ) (h : IxIndexHandle)
    (key : Bytes) (value : Rid) (enough : levels ≤ fuel)
    (t : IsTree cmp h.nodes levels h.file_hdr.root_page) where
  -- The leaf that the path of the key ends in has room for one more pair, and neither its keys nor the
  -- slot behind them compare equal to the key.
  abbrev pub Room : Type 0
  Room =
      (leaf : ℤ)
      → descend cmp key h.nodes fuel h.file_hdr.root_page ≡ some leaf
      → (suc (size cmp h.nodes leaf) ≢ get_max_size h.file_hdr)
        × ((j : ℕ) → j ≤ size cmp h.nodes leaf → sign (cmp key ((h.nodes leaf).keys j)) ≢ same)

  -- `insert_entry` in a search tree, with as much fuel as levels, of a key whose leaf has room and
  -- whose bytes stand neither in the leaf nor behind its last key: it returns true, `GetValue` then
  -- finds the key with its value, and answers for every other key as before.
  pub insert_entry_lem :
      Room
      → (c : IxIndexHandle) × (insert_entry cmp fuel h key value ≡ some (c, true))
        × (answer (get_value cmp fuel c key) ≡ some (some value))
        × ((other : Bytes)
            → sign (cmp other key) ≢ same
            → answer (get_value cmp fuel c other) ≡ answer (get_value cmp fuel h other))
  unfolding insert_entry
  insert_entry_lem room =
      let root = h.file_hdr.root_page in
      let (c, leaf, found, d) = find_leaf_page-Descends cmp o levels fuel h key enough t in
      let path = find_leaf_page-descend cmp key h c leaf fuel found in
      let (space, fresh) = room leaf path in
      let (is_leaf, e, s) = d.at_leaf in
      let n = h.nodes leaf in
      let m = (insert cmp n key value).0 in
      let (longer, returned, sorted, hit, others) =
        insert_lem cmp o n (size cmp h.nodes leaf) e s key value fresh in
      let still_leaf = insert-is_leaf cmp n key value ∙ is_leaf in
      let here = ap (λ f. f leaf) d.same_nodes in
      let c' = set_node c leaf (insert cmp (c.nodes leaf) key value).0 in
      let pages : c'.nodes ≡ put_at h.nodes leaf m =
        ap (λ f. put_at f leaf (insert cmp (f leaf) key value).0) d.same_nodes in
      let answers = (λ (k : Bytes).
        get_value-tree_lookup cmp k c' fuel
        ∙ ap₂ (λ f r. tree_lookup cmp k f fuel r) pages
            (ap (λ hdr. hdr.root_page) d.same_header)) in
      (
        c',
        rw (found, insert_entry)
            (insert_at_leaf-grown cmp fuel c leaf key value (size cmp h.nodes leaf)
              (ap (λ x. x.num_key) here ∙ e) (ap (λ x. (insert cmp x key value).1) here ∙ returned)
              (ap₂ (λ hdr x. is_full hdr (insert cmp x key value).0) d.same_header here
                ∙ is_full-not h.file_hdr m (suc (size cmp h.nodes leaf)) longer space)),
        answers key
            ∙ tree_lookup-there cmp key h.nodes leaf m is_leaf still_leaf fuel root path
            ∙ ap some hit,
        λ other differ.
            answers other
            ∙ tree_lookup-unchanged cmp other h.nodes leaf m is_leaf still_leaf fuel root
                (others other differ)
            ∙ sym (get_value-tree_lookup cmp other h fuel),
      )
