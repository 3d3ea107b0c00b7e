-- ===== src/Index/Tree/DeleteEntry.antt =====
-- `delete_entry` in a tree of one leaf.
use rubcase_lab.Base.{
  ℕ, zero, suc, ◌+◌, ◌-◌, ◌<◌, ◌≡◌, ◌≢◌, refl, ap, ap₂, sym, ◌∙◌, Bool, true, false, none, some,
  arith, update, inl, inr, Bool-cases,
}
use rubcase_lab.Base.Int.{ℤ, pos, ℤ-discrete}
use rubcase_lab.Storage.Page.{Bytes, invalid_page_id}
use rubcase_lab.Index.Compare.{same, sign, IsOrder}
use rubcase_lab.Defs.{Rid}
use rubcase_lab.Index.Node.{
  IxNodeHandle, count, is_zero, shift_down, erase_pair, remove, lower_bound,
}
use rubcase_lab.Index.Node.Search.{Sorted, pos-inj}
use rubcase_lab.Index.Node.Remove.{remove_lem}
use rubcase_lab.Index.Tree.Store.{ite_true, ite_false, put_at-same, unpin-nodes, unpin-file_hdr}
use rubcase_lab.Index.Tree.{
  IxIndexHandle, set_node, set_root, unpin, fetch_node, release_node_handle, is_root_page,
  find_from, find_leaf_page, get_value,
}
use rubcase_lab.Index.Tree.Shrink.{
  adjust_root, coalesce_or_redistribute, delete_at_leaf, delete_entry,
}
use rubcase_lab.Index.Tree.Search.{find_from-leaf}
use rubcase_lab.Index.Tree.Descent.{descend-leaf, tree_lookup, answer, get_value-tree_lookup}
use rubcase_lab.Index.Tree.InsertEntry.{tree_lookup-there, tree_lookup-unchanged}

module _ {A : Type 0} (f : IxNodeHandle → A)
    (keeps : (n : IxNodeHandle) (keys : ℕ → Bytes) (rids : ℕ → Rid)
      → f (record n { keys = keys; rids = rids }) ≡ f n) where
  shift_down-field : (rounds i : ℕ) (n : IxNodeHandle) → f (shift_down rounds i n) ≡ f n
  unfolding shift_down
  shift_down-field zero i n = refl
  shift_down-field (suc rounds) i n =
      shift_down-field rounds (i + 1) (record n {
        keys = update n.keys i (n.keys (i + 1));
        rids = update n.rids i (n.rids (i + 1));
      })
      ∙ keeps n (update n.keys i (n.keys (i + 1))) (update n.rids i (n.rids (i + 1)))

  remove-field :
      ((n : IxNodeHandle) (z : ℤ) → f (record n { num_key = z }) ≡ f n)
      → (cmp : Bytes → Bytes → ℤ) (n : IxNodeHandle) (key : Bytes) → f (remove cmp n key).0 ≡ f n
  unfolding remove erase_pair
  remove-field kept cmp n key =
      let r = lower_bound cmp n key in
      elim (Bool-cases (is_zero (cmp key (n.keys r)))) [
        | inl hit ↦
            rw (hit, remove)
              (kept (shift_down (count n.num_key - r) r n) _
                ∙ shift_down-field (count n.num_key - r) r n)
        | inr other ↦ rw (other, remove) refl
      ]

-- The root after the delete: a leaf that is the root.
coalesce_or_redistribute-root :
    (fuel : ℕ) (h : IxIndexHandle) (p : ℤ)
    → (h.nodes p).parent ≡ invalid_page_id
    → coalesce_or_redistribute (suc fuel) h p ≡ some (adjust_root h p)
unfolding coalesce_or_redistribute
coalesce_or_redistribute-root fuel h p e =
    let root : is_root_page (h.nodes p) ≡ true = ground arith in
    rw (root, coalesce_or_redistribute) refl

adjust_root-kept :
    (h : IxIndexHandle) (p : ℤ) (s : ℕ)
    → (h.nodes p).is_leaf ≡ true
    → (h.nodes p).num_key ≡ pos (suc s)
    → adjust_root h p ≡ (h, false)
unfolding adjust_root
adjust_root-kept h p s leaf e =
    let more : (h.nodes p).num_key ≢ pos 0 =
      (λ x. let y = pos-inj (suc s) 0 (sym e ∙ x) in omega arith) in
    rw (leaf, adjust_root) (ite_false (ℤ-discrete (h.nodes p).num_key (pos 0)) _ _ more)

adjust_root-emptied :
    (h : IxIndexHandle) (p : ℤ)
    → (h.nodes p).is_leaf ≡ true
    → (h.nodes p).num_key ≡ pos 0
    → adjust_root h p ≡ (set_root (release_node_handle h) invalid_page_id, true)
unfolding adjust_root
adjust_root-emptied h p leaf e =
    rw (leaf, adjust_root) (ite_true (ℤ-discrete (h.nodes p).num_key (pos 0)) _ _ e)

module _ (cmp : Bytes → Bytes → ℤ) (fuel : ℕ) (h : IxIndexHandle) (key : Bytes) where
  abbrev root : ℤ
  root = h.file_hdr.root_page

  abbrev shrunk : IxNodeHandle
  shrunk = (remove cmp (h.nodes root) key).0

  -- The handle after the pair has been removed from the root.
  abbrev removed : IxIndexHandle
  removed = set_node (fetch_node h root) root shrunk

  delete_at_leaf-root :
      (adjusted : IxIndexHandle × Bool)
      → coalesce_or_redistribute (suc fuel) removed root ≡ some adjusted
      → (remove cmp (h.nodes root) key).1 ≢ (h.nodes root).num_key
      → delete_at_leaf cmp (suc fuel) (fetch_node h root) root key
        ≡ some (unpin adjusted.0 root true, true)
  unfolding delete_at_leaf fetch_node
  delete_at_leaf-root adjusted done changed =
      rw (done, delete_at_leaf)
        (ite_false (ℤ-discrete (remove cmp (h.nodes root) key).1 (h.nodes root).num_key) _ _
          changed)

  delete_entry-root :
      (s : ℕ) (adjusted : IxIndexHandle × Bool)
      → (h.nodes root).is_leaf ≡ true
      → (h.nodes root).parent ≡ invalid_page_id
      → (h.nodes root).num_key ≡ pos (suc s)
      → (remove cmp (h.nodes root) key).1 ≡ pos s
      → adjust_root removed root ≡ adjusted
      → delete_entry cmp (suc fuel) h key ≡ some (unpin adjusted.0 root true, true)
  unfolding delete_entry find_leaf_page fetch_node
  delete_entry-root s adjusted leaf parent e returned adjusts =
      let there = put_at-same h.nodes root shrunk in
      let top : (removed.nodes root).parent ≡ invalid_page_id =
        ap (λ n. n.parent) there
        ∙ remove-field (λ n. n.parent) (λ n keys rids. refl) (λ n z. refl) cmp (h.nodes root) key
        ∙ parent in
      let done = coalesce_or_redistribute-root fuel removed root top ∙ ap some adjusts in
      let changed : (remove cmp (h.nodes root) key).1 ≢ (h.nodes root).num_key =
        (λ x. let y = pos-inj s (suc s) (sym returned ∙ x ∙ e) in omega arith) in
      rw (find_from-leaf cmp (suc fuel) (fetch_node h root) root key leaf, delete_entry)
        (delete_at_leaf-root adjusted done changed)

module _ (cmp : Bytes → Bytes → ℤ) (o : IsOrder cmp) (fuel : ℕ) (h : IxIndexHandle) (key : Bytes)
    (leaf : (h.nodes h.file_hdr.root_page).is_leaf ≡ true)
    (parent : (h.nodes h.file_hdr.root_page).parent ≡ invalid_page_id) (j : ℕ)
    (hit : sign (cmp key ((h.nodes h.file_hdr.root_page).keys j)) ≡ same) where
  -- `delete_entry` of a key from a tree of one leaf with more than one key, in order: it returns
  -- true, `GetValue` then does not find the key, and answers for every other key as before.
  pub delete_entry_lem :
      (s : ℕ)
      → (h.nodes h.file_hdr.root_page).num_key ≡ pos (suc (suc s))
      → Sorted cmp (h.nodes h.file_hdr.root_page).keys (suc (suc s))
      → j < suc (suc s)
      → (c : IxIndexHandle) × (delete_entry cmp (suc fuel) h key ≡ some (c, true))
        × (answer (get_value cmp fuel c key) ≡ some none)
        × ((other : Bytes)
            → sign (cmp other key) ≢ same
            → answer (get_value cmp fuel c other) ≡ answer (get_value cmp fuel h other))
  unfolding fetch_node
  delete_entry_lem s e sorted inside =
      let p = h.file_hdr.root_page in
      let n = h.nodes p in
      let m = shrunk cmp fuel h key in
      let d = removed cmp fuel h key in
      let (shorter, returned, kept, gone, others) =
        remove_lem cmp o n (suc s) e sorted key j inside hit in
      let there = put_at-same h.nodes p m in
      let still_leaf : m.is_leaf ≡ true =
        remove-field (λ x. x.is_leaf) (λ x keys rids. refl) (λ x z. refl) cmp n key ∙ leaf in
      let adjusts =
        adjust_root-kept d p s (ap (λ x. x.is_leaf) there ∙ still_leaf)
          (ap (λ x. x.num_key) there ∙ shorter) in
      let c = unpin d p true in
      let answers = (λ (k : Bytes).
        get_value-tree_lookup cmp k c fuel
        ∙ ap₂ (λ f r. tree_lookup cmp k f fuel r) (unpin-nodes d p true)
            (ap (λ x. x.root_page) (unpin-file_hdr d p true))) in
      (
        c,
        delete_entry-root cmp fuel h key (suc s) (d, false) leaf parent e returned adjusts,
        answers key
            ∙ tree_lookup-there cmp key h.nodes p m leaf still_leaf fuel p
                (descend-leaf cmp key h.nodes fuel p leaf)
            ∙ ap some gone,
        λ other differ.
            answers other
            ∙ tree_lookup-unchanged cmp other h.nodes p m leaf still_leaf fuel p
                (others other differ)
            ∙ sym (get_value-tree_lookup cmp other h fuel),
      )

  -- `delete_entry` of the only key of a tree of one leaf: it returns true and sets the root to -1,
  -- where the next descent, whatever its key is, looks for a page.
  pub delete_entry_last :
      (h.nodes h.file_hdr.root_page).num_key ≡ pos 1
      → Sorted cmp (h.nodes h.file_hdr.root_page).keys 1
      → j < 1
      → (c : IxIndexHandle) × (delete_entry cmp (suc fuel) h key ≡ some (c, true))
        × (c.file_hdr.root_page ≡ invalid_page_id)
        × ((k : Bytes)
            → find_leaf_page cmp fuel c k
              ≡ find_from cmp fuel (fetch_node c invalid_page_id) invalid_page_id k)
  unfolding find_leaf_page
  delete_entry_last e sorted inside =
      let p = h.file_hdr.root_page in
      let n = h.nodes p in
      let m = shrunk cmp fuel h key in
      let d = removed cmp fuel h key in
      let (shorter, returned, kept, gone, others) =
        remove_lem cmp o n 0 e sorted key j inside hit in
      let there = put_at-same h.nodes p m in
      let still_leaf : m.is_leaf ≡ true =
        remove-field (λ x. x.is_leaf) (λ x keys rids. refl) (λ x z. refl) cmp n key ∙ leaf in
      let adjusts =
        adjust_root-emptied d p (ap (λ x. x.is_leaf) there ∙ still_leaf)
          (ap (λ x. x.num_key) there ∙ shorter) in
      let a = set_root (release_node_handle d) invalid_page_id in
      let c = unpin a p true in
      let emptied : c.file_hdr.root_page ≡ invalid_page_id =
        ap (λ x. x.root_page) (unpin-file_hdr a p true) in
      (
        c,
        delete_entry-root cmp fuel h key 0 (a, true) leaf parent e returned adjusts,
        emptied,
        λ k. ap (λ q. find_from cmp fuel (fetch_node c q) q k) emptied,
      )
