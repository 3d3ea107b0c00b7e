-- ===== src/Index/Tree/Relink.antt =====
-- The links between leaves that `insertLeaf` and `erase_leaf` write.
use rubcase_lab.Base.{◌≡◌, ◌≢◌, refl, ap, sym, ◌∙◌, true, some, arith}
use rubcase_lab.Base.Int.{ℤ}
use rubcase_lab.Storage.Page.{invalid_page_id}
use rubcase_lab.Index.Node.{IxNodeHandle}
use rubcase_lab.Index.Tree.Store.{put_at-same, put_at-other, put_at-field, unpin-nodes}
use rubcase_lab.Index.Tree.{IxIndexHandle, put_at, set_node, unpin, fetch_node}
use rubcase_lab.Index.Tree.Grow.{link_next, insert_leaf}
use rubcase_lab.Index.Tree.Shrink.{erase_leaf}

abbrev pub next_of : (ℤ → IxNodeHandle) → ℤ → ℤ
next_of nodes p = (nodes p).next_leaf

abbrev pub prev_of : (ℤ → IxNodeHandle) → ℤ → ℤ
prev_of nodes p = (nodes p).prev_leaf

pub link_next-nodes :
    (h : IxIndexHandle) (new : ℤ)
    → next_of h.nodes new ≢ invalid_page_id
    → (link_next h new).nodes
      ≡ put_at h.nodes
          (next_of h.nodes new)
          (record (h.nodes (next_of h.nodes new)) { prev_leaf = new })
unfolding link_next fetch_node unpin
link_next-nodes h new e = ground arith

module _ (nodes : ℤ → IxNodeHandle) (origin new : ℤ) where
  -- The pages after each of the three assignments of `insertLeaf` to the two nodes.
  abbrev pub n1 : ℤ → IxNodeHandle
  n1 = put_at nodes new (record (nodes new) { next_leaf = next_of nodes origin })

  abbrev pub n2 : ℤ → IxNodeHandle
  n2 = put_at n1 new (record (n1 new) { prev_leaf = origin })

  abbrev pub n3 : ℤ → IxNodeHandle
  n3 = put_at n2 origin (record (n2 origin) { next_leaf = new })

  n2-prev : (q : ℤ) → new ≢ q → prev_of n2 q ≡ prev_of nodes q
  n2-prev q differ =
      ap (λ n. n.prev_leaf) (put_at-other n1 new (record (n1 new) { prev_leaf = origin }) q differ)
      ∙ put_at-field (λ n. n.prev_leaf) nodes new
          (record (nodes new) { next_leaf = next_of nodes origin }) refl q

  n3-prev : (q : ℤ) → prev_of n3 q ≡ prev_of n2 q
  n3-prev = put_at-field (λ n. n.prev_leaf) n2 origin (record (n2 origin) { next_leaf = new }) refl

  n3-next : (q : ℤ) → origin ≢ q → new ≢ q → next_of n3 q ≡ next_of nodes q
  n3-next q p r =
      ap (λ n. n.next_leaf) (put_at-other n2 origin (record (n2 origin) { next_leaf = new }) q p)
      ∙ ap (λ n. n.next_leaf) (put_at-other n1 new (record (n1 new) { prev_leaf = origin }) q r)
      ∙ ap (λ n. n.next_leaf)
          (put_at-other nodes new (record (nodes new) { next_leaf = next_of nodes origin }) q r)

  pub n3-next_new : origin ≢ new → next_of n3 new ≡ next_of nodes origin
  n3-next_new apart =
      ap (λ n. n.next_leaf)
        (put_at-other n2 origin (record (n2 origin) { next_leaf = new }) new apart)
      ∙ put_at-field (λ n. n.next_leaf) n1 new (record (n1 new) { prev_leaf = origin }) refl new
      ∙ ap (λ n. n.next_leaf)
          (put_at-same nodes new (record (nodes new) { next_leaf = next_of nodes origin }))

-- What `insertLeaf` does to the links: `after` are the pages afterwards.
pub record LinkedIn (nodes after : ℤ → IxNodeHandle) (origin new : ℤ) : Type 0 where
  pub next_origin : next_of after origin ≡ new
  pub next_new : next_of after new ≡ next_of nodes origin
  pub next_others : (q : ℤ) → origin ≢ q → new ≢ q → next_of after q ≡ next_of nodes q
  pub prev_new : prev_of after new ≡ origin
  pub prev_next : prev_of after (next_of nodes origin) ≡ new
  pub prev_others : (q : ℤ) → new ≢ q → next_of nodes origin ≢ q → prev_of after q ≡ prev_of nodes q

pub insert_leaf-nodes :
    (h : IxIndexHandle) (origin new : ℤ)
    → (insert_leaf h origin new true).nodes
      ≡ (link_next (record h { nodes = n3 h.nodes origin new }) new).nodes
unfolding insert_leaf
insert_leaf-nodes h origin new = refl

pub insert_leaf-LinkedIn :
    (h : IxIndexHandle) (origin new : ℤ)
    → origin ≢ new
    → next_of h.nodes origin ≢ invalid_page_id
    → next_of h.nodes origin ≢ new
    → LinkedIn h.nodes (insert_leaf h origin new true).nodes origin new
insert_leaf-LinkedIn h origin new apart real apart_next =
    let c : IxIndexHandle = record h { nodes = n3 h.nodes origin new } in
    let next = next_of h.nodes origin in
    let there = n3-next_new h.nodes origin new apart in
    let m : IxNodeHandle = record (c.nodes next) { prev_leaf = new } in
    let pages : (insert_leaf h origin new true).nodes ≡ put_at c.nodes next m =
      insert_leaf-nodes h origin new
      ∙ link_next-nodes c new (λ e. real (sym there ∙ e))
      ∙ ap (λ q. put_at c.nodes q (record (c.nodes q) { prev_leaf = new })) there in
    let nexts = put_at-field (λ n. n.next_leaf) c.nodes next m refl in
    rw pages (record {
      next_origin =
          nexts origin
          ∙ ap (λ n. n.next_leaf)
              (put_at-same (n2 h.nodes origin new) origin
                (record (n2 h.nodes origin new origin) { next_leaf = new }));
      next_new = nexts new ∙ there;
      next_others = λ q p r. nexts q ∙ n3-next h.nodes origin new q p r;
      prev_new =
          ap (λ n. n.prev_leaf) (put_at-other c.nodes next m new apart_next)
          ∙ n3-prev h.nodes origin new new
          ∙ ap (λ n. n.prev_leaf)
              (put_at-same (n1 h.nodes origin new) new
                (record (n1 h.nodes origin new new) { prev_leaf = origin }));
      prev_next = ap (λ n. n.prev_leaf) (put_at-same c.nodes next m);
      prev_others = λ q p r.
          ap (λ n. n.prev_leaf) (put_at-other c.nodes next m q r)
          ∙ n3-prev h.nodes origin new q
          ∙ n2-prev h.nodes origin new q p;
    })

-- What `erase_leaf` does to the links.
pub record LinkedOut (nodes after : ℤ → IxNodeHandle) (leaf : ℤ) : Type 0 where
  pub next_prev : next_of after (prev_of nodes leaf) ≡ next_of nodes leaf
  pub next_others : (q : ℤ) → prev_of nodes leaf ≢ q → next_of after q ≡ next_of nodes q
  pub prev_next : prev_of after (next_of nodes leaf) ≡ prev_of nodes leaf
  pub prev_others : (q : ℤ) → next_of nodes leaf ≢ q → prev_of after q ≡ prev_of nodes q

module _ (nodes : ℤ → IxNodeHandle) (leaf : ℤ) where
  -- The pages after each of the two assignments of `erase_leaf`.
  abbrev e1 : ℤ → IxNodeHandle
  e1 =
      put_at nodes (prev_of nodes leaf)
        (record (nodes (prev_of nodes leaf)) { next_leaf = next_of nodes leaf })

  abbrev e2 : (ℤ → IxNodeHandle) → ℤ → IxNodeHandle
  e2 first =
      put_at first (next_of first leaf)
        (record (first (next_of first leaf)) { prev_leaf = prev_of first leaf })

  e1-next : (q : ℤ) → prev_of nodes leaf ≢ q → next_of e1 q ≡ next_of nodes q
  e1-next q differ =
      ap (λ n. n.next_leaf)
        (put_at-other nodes (prev_of nodes leaf)
          (record (nodes (prev_of nodes leaf)) { next_leaf = next_of nodes leaf }) q differ)

  e1-prev : (q : ℤ) → prev_of e1 q ≡ prev_of nodes q
  e1-prev =
      put_at-field (λ n. n.prev_leaf) nodes (prev_of nodes leaf)
        (record (nodes (prev_of nodes leaf)) { next_leaf = next_of nodes leaf }) refl

  e1-LinkedOut : prev_of nodes leaf ≢ leaf → LinkedOut nodes (e2 e1) leaf
  e1-LinkedOut apart =
      let next = next_of e1 leaf in
      let there : next ≡ next_of nodes leaf = e1-next leaf apart in
      let m : IxNodeHandle = record (e1 next) { prev_leaf = prev_of e1 leaf } in
      let nexts = put_at-field (λ n. n.next_leaf) e1 next m refl in
      record {
        next_prev =
            nexts (prev_of nodes leaf)
            ∙ ap (λ n. n.next_leaf)
                (put_at-same nodes (prev_of nodes leaf)
                  (record (nodes (prev_of nodes leaf)) { next_leaf = next_of nodes leaf }));
        next_others = λ q differ. nexts q ∙ e1-next q differ;
        prev_next =
            ap (prev_of (e2 e1)) (sym there)
            ∙ ap (λ n. n.prev_leaf) (put_at-same e1 next m)
            ∙ e1-prev leaf;
        prev_others = λ q differ.
            ap (λ n. n.prev_leaf) (put_at-other e1 next m q (λ e. differ (sym there ∙ e)))
            ∙ e1-prev q;
      }

pub erase_leaf-LinkedOut :
    (h : IxIndexHandle) (leaf : ℤ)
    → (h.nodes leaf).is_leaf ≡ true
    → prev_of h.nodes leaf ≢ leaf
    → (e : IxIndexHandle) × (erase_leaf h leaf ≡ some e) × LinkedOut h.nodes e.nodes leaf
unfolding erase_leaf fetch_node
erase_leaf-LinkedOut h leaf is_leaf apart =
    let prev = prev_of h.nodes leaf in
    let c = fetch_node h prev in
    let d = set_node c prev (record (c.nodes prev) { next_leaf = next_of c.nodes leaf }) in
    let u = unpin d prev true in
    let next = next_of u.nodes leaf in
    let f = fetch_node u next in
    let g = set_node f next (record (f.nodes next) { prev_leaf = prev_of f.nodes leaf }) in
    (
      unpin g next true,
      rw (is_leaf, erase_leaf) refl,
      rw (unpin-nodes g next true ∙ ap (e2 h.nodes leaf) (unpin-nodes d prev true))
          (e1-LinkedOut h.nodes leaf apart),
    )
