-- ===== src/Index/Tree/SplitLeaf.antt =====
-- `Split` of a leaf: the ring of the leaves and the lookups in the two halves.
use rubcase_lab.Base.{
  ℕ, ◌<◌, ◌≡◌, ◌≢◌, refl, ap, sym, ◌∙◌, Bool, true, if◌then◌else◌, List, ◌∷◌, ◌++◌,
}
use rubcase_lab.Base.Int.{ℤ, pos}
use rubcase_lab.Storage.Page.{Bytes, invalid_page_id}
use rubcase_lab.Index.Compare.{less, sign, IsOrder}
use rubcase_lab.Index.Node.{IxNodeHandle, count, leaf_lookup, locate_key_index, lower_bound}
use rubcase_lab.Index.Node.Search.{Sorted}
use rubcase_lab.Index.Tree.Store.{put_at-same, put_at-other, put_at-field}
use rubcase_lab.Index.Tree.{IxIndexHandle, put_at, zero_node, create_node, maintain_children}
use rubcase_lab.Index.Tree.Grow.{
  upper_half, lower_half, evenly_distribute_pairs, insert_leaf, split,
}
use rubcase_lab.Index.Tree.Pages.{NotIn, Each-map, Each-split, ≢-sym}
use rubcase_lab.Index.Tree.Relink.{
  next_of, prev_of, link_next-nodes, insert_leaf-nodes, n1, n2, n3, n3-next_new,
}
use rubcase_lab.Index.Tree.Chain.{IsRing, IsRing-next, Linked-agree, insert_leaf-IsRing}
use rubcase_lab.Index.Tree.Halves.{evenly_distribute_pairs_lem}

-- What does not depend on the links of a node is as before `insertLeaf`.
insert_leaf-field :
    {A : Type 0} (f : IxNodeHandle → A)
    → ((n : IxNodeHandle) (next prev : ℤ)
        → f (record n { next_leaf = next; prev_leaf = prev }) ≡ f n)
    → (h : IxIndexHandle) (origin new : ℤ) → origin ≢ new
    → next_of h.nodes origin ≢ invalid_page_id
    → (q : ℤ) → f ((insert_leaf h origin new true).nodes q) ≡ f (h.nodes q)
insert_leaf-field f keeps h origin new apart real q =
    let c : IxIndexHandle = record h { nodes = n3 h.nodes origin new } in
    let a = n1 h.nodes origin new in
    let b = n2 h.nodes origin new in
    let next = next_of c.nodes new in
    let there = n3-next_new h.nodes origin new apart in
    ap (λ g. f (g q))
      (insert_leaf-nodes h origin new ∙ link_next-nodes c new (λ e. real (sym there ∙ e)))
    ∙ put_at-field f c.nodes next (record (c.nodes next) { prev_leaf = new })
        (keeps (c.nodes next) (c.nodes next).next_leaf new) q
    ∙ put_at-field f b origin (record (b origin) { next_leaf = new })
        (keeps (b origin) new (b origin).prev_leaf) q
    ∙ put_at-field f a new (record (a new) { prev_leaf = origin })
        (keeps (a new) (a new).next_leaf origin) q
    ∙ put_at-field f h.nodes new (record (h.nodes new) { next_leaf = next_of h.nodes origin })
        (keeps (h.nodes new) (next_of h.nodes origin) (h.nodes new).prev_leaf) q

leaf_lookup-links :
    (cmp : Bytes → Bytes → ℤ) (k : Bytes) (n : IxNodeHandle) (next prev : ℤ)
    → leaf_lookup cmp (record n { next_leaf = next; prev_leaf = prev }) k ≡ leaf_lookup cmp n k
unfolding leaf_lookup locate_key_index lower_bound
leaf_lookup-links cmp k n next prev = refl

-- A ring is a ring in pages with the same links.
IsRing-agree :
    (nodes after : ℤ → IxNodeHandle) (header new : ℤ) (pages : List ℤ)
    → ((q : ℤ) → new ≢ q → next_of after q ≡ next_of nodes q)
    → ((q : ℤ) → new ≢ q → prev_of after q ≡ prev_of nodes q)
    → NotIn new (header ∷ pages)
    → IsRing nodes header pages
    → IsRing after header pages
IsRing-agree nodes after header new pages nexts prevs (n, ns) ring = record {
  linked =
      Linked-agree nodes after header pages header (nexts header n) (Each-map nexts pages ns)
        (Each-map prevs pages ns) (prevs header n) ring.linked;
  distinct = ring.distinct;
  real = ring.real;
}

module _ (h : IxIndexHandle) (node : ℤ) (leaf : (h.nodes node).is_leaf ≡ true)
    (apart : node ≢ h.next_page_no) where
  abbrev new : ℤ
  new = h.next_page_no

  -- The handle with the new node, and with the pairs in both.
  abbrev c : IxIndexHandle
  c = (create_node h).0

  abbrev d : IxIndexHandle
  d = evenly_distribute_pairs c new node

  made : (create_node h).1 ≡ new
  unfolding create_node
  made = refl

  c-nodes : c.nodes ≡ put_at h.nodes new (zero_node h.file_hdr new)
  unfolding create_node
  c-nodes = refl

  c-others : (q : ℤ) → new ≢ q → c.nodes q ≡ h.nodes q
  c-others q differ =
      ap (λ g. g q) c-nodes ∙ put_at-other h.nodes new (zero_node h.file_hdr new) q differ

  d-links :
      (f : IxNodeHandle → ℤ)
      → ((n : IxNodeHandle) → f (lower_half n) ≡ f n)
      → (q : ℤ) → new ≢ q
      → f (d.nodes q) ≡ f (h.nodes q)
  unfolding evenly_distribute_pairs
  d-links f keeps q differ =
      let up = upper_half (c.nodes new) (c.nodes node) in
      put_at-field f (put_at c.nodes new up) node (lower_half (c.nodes node))
        (keeps (c.nodes node) ∙ ap f (sym (put_at-other c.nodes new up node (≢-sym apart)))) q
      ∙ ap f (put_at-other c.nodes new up q differ ∙ c-others q differ)

  d-is_leaf : (d.nodes new).is_leaf ≡ true
  unfolding evenly_distribute_pairs upper_half
  d-is_leaf =
      let up = upper_half (c.nodes new) (c.nodes node) in
      ap (λ n. n.is_leaf)
        (put_at-other (put_at c.nodes new up) node (lower_half (c.nodes node)) new apart
          ∙ put_at-same c.nodes new up)
      ∙ ap (λ n. n.is_leaf) (c-others node (≢-sym apart))
      ∙ leaf

  split-leaf : split h node ≡ (insert_leaf d node new true, new)
  unfolding split create_node
  split-leaf =
      let chained = insert_leaf d node new true in
      let adopted = maintain_children (count (d.nodes new).num_key) 0 d new in
      let either_way : Bool → IxIndexHandle × ℤ =
        (λ is_leaf. (if is_leaf then chained else adopted, new)) in
      ap either_way d-is_leaf

-- `Split` of a leaf with keys, in order, in the ring of the leaves, where the page that the disk
-- manager gives out is a real page outside the ring: it returns a new page, which stands right behind
-- the leaf in the ring of the leaves afterwards; every key below the first of the new page is looked
-- up in the leaf with the answer that the leaf gave before, and every other key in the new page.
pub split-IsRing :
    (cmp : Bytes → Bytes → ℤ) (o : IsOrder cmp) (h : IxIndexHandle) (header node : ℤ)
    (xs ys : List ℤ) (size : ℕ)
    → IsRing h.nodes header (xs ++ node ∷ ys)
    → NotIn h.next_page_no (header ∷ xs ++ node ∷ ys)
    → invalid_page_id ≢ h.next_page_no
    → (h.nodes node).is_leaf ≡ true
    → (h.nodes node).num_key ≡ pos size
    → 0 < size
    → Sorted cmp (h.nodes node).keys size
    → (e : IxIndexHandle) × (new : ℤ) × (split h node ≡ (e, new))
      × IsRing e.nodes header (xs ++ node ∷ new ∷ ys)
      × ((k : Bytes)
          → (sign (cmp k ((e.nodes new).keys 0)) ≡ less
              → leaf_lookup cmp (e.nodes node) k ≡ leaf_lookup cmp (h.nodes node) k)
            × (sign (cmp k ((e.nodes new).keys 0)) ≢ less
                → leaf_lookup cmp (e.nodes new) k ≡ leaf_lookup cmp (h.nodes node) k))
unfolding lower_half
split-IsRing cmp o h header node xs ys size ring fresh real leaf e some_keys s =
    let new = h.next_page_no in
    let (n_header, n_list) = fresh in
    let (n_xs, (n_node, n_ys)) = Each-split (λ q. new ≢ q) xs (node ∷ ys) n_list in
    let apart = ≢-sym n_node in
    let b = d h node leaf apart in
    let made = c h node leaf apart in
    let same_node = c-others h node leaf apart node n_node in
    let ring' =
      IsRing-agree h.nodes b.nodes header new (xs ++ node ∷ ys)
        (d-links h node leaf apart (λ n. n.next_leaf) (λ n. refl))
        (d-links h node leaf apart (λ n. n.prev_leaf) (λ n. refl)) fresh ring in
    let (left_size, right_size, halves) =
      evenly_distribute_pairs_lem cmp o made new node size apart (ap (λ n. n.num_key) same_node ∙ e)
        some_keys (rw same_node s) in
    let a = insert_leaf b node new true in
    let real_next = IsRing-next b.nodes header node xs ys ring' in
    let first : (a.nodes new).keys 0 ≡ (b.nodes new).keys 0 =
      insert_leaf-field (λ n. n.keys 0) (λ n x y. refl) b node new apart real_next new in
    let lookups = (λ (k : Bytes).
      insert_leaf-field (λ n. leaf_lookup cmp n k) (leaf_lookup-links cmp k) b node new apart
        real_next) in
    let whole = (λ (k : Bytes). ap (λ n. leaf_lookup cmp n k) same_node) in
    (
      a,
      new,
      split-leaf h node leaf apart,
      insert_leaf-IsRing b header node new xs ys ring' fresh real,
      λ k. (
        λ below.
            lookups k node ∙ (halves k).0 (ap (λ x. sign (cmp k x)) (sym first) ∙ below) ∙ whole k,
        λ not_below.
            lookups k new
            ∙ (halves k).1 (λ q. not_below (ap (λ x. sign (cmp k x)) first ∙ q))
            ∙ whole k,
      ),
    )
