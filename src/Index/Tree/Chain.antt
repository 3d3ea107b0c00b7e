-- ===== src/Index/Tree/Chain.antt =====
-- The doubly linked list of the leaves: `insertLeaf` and `erase_leaf` as operations on a list of pages.
use rubcase_lab.Base.{◌≡◌, ◌≢◌, ap, sym, ◌∙◌, true, some, List, [], ◌∷◌, ◌++◌}
use rubcase_lab.Base.Int.{ℤ}
use rubcase_lab.Storage.Page.{invalid_page_id}
use rubcase_lab.Index.Node.{IxNodeHandle}
use rubcase_lab.Index.Tree.{IxIndexHandle}
use rubcase_lab.Index.Tree.Grow.{insert_leaf}
use rubcase_lab.Index.Tree.Shrink.{erase_leaf}
use rubcase_lab.Index.Tree.Relink.{
  next_of, prev_of, LinkedIn, insert_leaf-LinkedIn, LinkedOut, erase_leaf-LinkedOut,
}
use rubcase_lab.Index.Tree.Pages.{
  Each, NotIn, Distinct, Each-map, Each-zip, Each-split, Each-insert, Each-remove, ≢-sym,
  Distinct-insert, Distinct-remove, Distinct-split,
}

-- From `a` over the pages of the list to `b`, each page is linked to the one behind it and back.
abbrev pub Linked : (ℤ → IxNodeHandle) → ℤ → List ℤ → ℤ → Type 0
Linked nodes a [] b = (next_of nodes a ≡ b) × (prev_of nodes b ≡ a)
Linked nodes a (p ∷ ps) b = (next_of nodes a ≡ p) × (prev_of nodes p ≡ a) × Linked nodes p ps b

-- Links are the same in pages that agree on them.
pub Linked-agree :
    (nodes after : ℤ → IxNodeHandle) (a : ℤ) (ps : List ℤ) (b : ℤ)
    → next_of after a ≡ next_of nodes a
    → Each (λ q. next_of after q ≡ next_of nodes q) ps
    → Each (λ q. prev_of after q ≡ prev_of nodes q) ps
    → prev_of after b ≡ prev_of nodes b
    → Linked nodes a ps b
    → Linked after a ps b
Linked-agree nodes after a [] b ea en ep eb (n, p) = (ea ∙ n, eb ∙ p)
Linked-agree nodes after a (q ∷ qs) b ea (en, ens) (ep, eps) eb (n, p, rest) =
    (ea ∙ n, ep ∙ p, Linked-agree nodes after q qs b en ens eps eb rest)

Linked-join :
    (nodes : ℤ → IxNodeHandle) (a : ℤ) (ps : List ℤ) (p : ℤ) (qs : List ℤ) (b : ℤ)
    → Linked nodes a ps p
    → Linked nodes p qs b
    → Linked nodes a (ps ++ p ∷ qs) b
Linked-join nodes a [] p qs b (n, e) r = (n, e, r)
Linked-join nodes a (x ∷ xs) p qs b (n, e, rest) r = (n, e, Linked-join nodes x xs p qs b rest r)

Linked-split :
    (nodes : ℤ → IxNodeHandle) (a : ℤ) (ps : List ℤ) (p : ℤ) (qs : List ℤ) (b : ℤ)
    → Linked nodes a (ps ++ p ∷ qs) b
    → Linked nodes a ps p × Linked nodes p qs b
Linked-split nodes a [] p qs b (n, e, r) = ((n, e), r)
Linked-split nodes a (x ∷ xs) p qs b (n, e, rest) =
    let (l, r) = Linked-split nodes x xs p qs b rest in ((n, e, l), r)

-- The leaves from the header page around to it again: linked both ways, all different, all real pages.
pub record IsRing (nodes : ℤ → IxNodeHandle) (header : ℤ) (pages : List ℤ) : Type 0 where
  pub linked : Linked nodes header pages header
  pub distinct : Distinct (header ∷ pages)
  pub real : NotIn invalid_page_id (header ∷ pages)

module _ (nodes after : ℤ → IxNodeHandle) (header origin new : ℤ) (xs : List ℤ)
    (w : LinkedIn nodes after origin new) where
  -- The links behind the new page.
  links_behind :
      (ys : List ℤ)
      → Distinct (origin ∷ ys)
      → NotIn header (origin ∷ ys)
      → NotIn new (header ∷ origin ∷ ys)
      → Linked nodes origin ys header
      → Linked after new ys header
  links_behind [] d n m (next, prev) =
      (w.next_new ∙ next, ap (prev_of after) (sym next) ∙ w.prev_next)
  links_behind (y ∷ ys) ((oy, o), (yn, d)) (ho, (hy, h)) (nh, (n_o, (ny, n))) (next, prev, rest) = (
    w.next_new ∙ next,
    ap (prev_of after) (sym next) ∙ w.prev_next,
    Linked-agree nodes after y ys header (w.next_others y oy ny)
        (Each-zip (λ q a b. w.next_others q a b) ys o n)
        (Each-zip (λ q a b. w.prev_others q a (λ e. b (sym next ∙ e))) ys n yn)
        (w.prev_others header nh (λ e. hy (sym (sym next ∙ e)))) rest,
  )

  -- The links before the old page.
  links_before :
      NotIn (next_of nodes origin) xs
      → next_of nodes origin ≢ origin
      → NotIn origin (header ∷ xs)
      → NotIn new (header ∷ xs)
      → origin ≢ new
      → Linked nodes header xs origin
      → Linked after header xs origin
  links_before nx n_o (oh, o) (nh, n) differ =
      Linked-agree nodes after header xs origin (w.next_others header oh nh)
        (Each-zip (λ q a b. w.next_others q a b) xs o n)
        (Each-zip (λ q a b. w.prev_others q a b) xs n nx) (w.prev_others origin (≢-sym differ) n_o)

-- The page behind `origin` stands neither before it nor is it the new one.
next_apart :
    (nodes : ℤ → IxNodeHandle) (header origin new : ℤ) (xs ys : List ℤ)
    → Linked nodes origin ys header
    → NotIn header (xs ++ origin ∷ ys)
    → Distinct (xs ++ origin ∷ ys)
    → NotIn new (header ∷ xs ++ origin ∷ ys)
    → NotIn (next_of nodes origin) xs
      × (next_of nodes origin ≢ origin)
      × (next_of nodes origin ≢ new)
next_apart nodes header origin new xs [] (next, prev) h d (nh, n) =
    let (hx, (ho, hy)) = Each-split (λ q. header ≢ q) xs (origin ∷ []) h in
    rw next (hx, ho, ≢-sym nh)
next_apart nodes header origin new xs (y ∷ ys) (next, prev, rest) h d (nh, n) =
    let (((oy, o), d'), (ox, (yx, others))) = Distinct-split xs (origin ∷ y ∷ ys) d in
    let (nx, (n_o, (ny, n'))) = Each-split (λ q. new ≢ q) xs (origin ∷ y ∷ ys) n in
    rw next (yx, ≢-sym oy, ≢-sym ny)

-- The page behind the first, and the page before the last.
next_in :
    (P : ℤ → Type 0) (nodes : ℤ → IxNodeHandle) (a : ℤ) (ps : List ℤ) (b : ℤ)
    → Linked nodes a ps b
    → P b
    → Each P ps
    → P (next_of nodes a)
next_in P nodes a [] b (next, prev) pb e = rw next pb
next_in P nodes a (q ∷ qs) b (next, prev, rest) pb (pq, e) = rw next pq

prev_in :
    (P : ℤ → Type 0) (nodes : ℤ → IxNodeHandle) (a : ℤ) (ps : List ℤ) (b : ℤ)
    → Linked nodes a ps b
    → P a
    → Each P ps
    → P (prev_of nodes b)
prev_in P nodes a [] b (next, prev) pa e = rw prev pa
prev_in P nodes a (q ∷ qs) b (next, prev, rest) pa (pq, e) = prev_in P nodes q qs b rest pq e

-- `insertLeaf`, which keeps the old node, on the ring of the leaves: where the new page is a real
-- page outside the ring, it stands right behind the old one afterwards, and the ring is a ring again.
pub insert_leaf-IsRing :
    (h : IxIndexHandle) (header origin new : ℤ) (xs ys : List ℤ)
    → IsRing h.nodes header (xs ++ origin ∷ ys)
    → NotIn new (header ∷ xs ++ origin ∷ ys)
    → invalid_page_id ≢ new
    → IsRing (insert_leaf h origin new true).nodes header (xs ++ origin ∷ new ∷ ys)
insert_leaf-IsRing h header origin new xs ys ring fresh real =
    let (n_header, n_list) = fresh in
    let (head, d) = ring.distinct in
    let (r_header, r_list) = ring.real in
    let (before, behind) = Linked-split h.nodes header xs origin ys header ring.linked in
    let (nx, n_o, n_n) = next_apart h.nodes header origin new xs ys behind head d fresh in
    let (n_xs, (n_origin, n_ys)) = Each-split (λ q. new ≢ q) xs (origin ∷ ys) n_list in
    let (h_xs, h_rest) = Each-split (λ q. header ≢ q) xs (origin ∷ ys) head in
    let (r_xs, (r_origin, r_ys)) = Each-split (λ q. invalid_page_id ≢ q) xs (origin ∷ ys) r_list in
    let (d_rest, (o_xs, others)) = Distinct-split xs (origin ∷ ys) d in
    let real_next =
      next_in (λ q. invalid_page_id ≢ q) h.nodes origin ys header behind r_header r_ys in
    let w = insert_leaf-LinkedIn h origin new (≢-sym n_origin) (≢-sym real_next) n_n in
    let after = (insert_leaf h origin new true).nodes in
    record {
      linked =
          Linked-join after header xs origin (new ∷ ys) header
            (links_before h.nodes after header origin new xs w nx n_o (≢-sym (h_rest.0), o_xs)
              (n_header, n_xs) (≢-sym n_origin) before)
            (
              w.next_origin,
              w.prev_new,
              links_behind h.nodes after header origin new xs w ys d_rest h_rest
                  (n_header, (n_origin, n_ys)) behind,
            );
      distinct = (
        Each-insert (λ q. header ≢ q) xs origin new ys (≢-sym n_header) head,
        Distinct-insert xs origin new ys d n_list,
      );
      real = (r_header, Each-insert (λ q. invalid_page_id ≢ q) xs origin new ys real r_list);
    }

-- A page of the ring leads to a real page.
pub IsRing-next :
    (nodes : ℤ → IxNodeHandle) (header p : ℤ) (xs ys : List ℤ)
    → IsRing nodes header (xs ++ p ∷ ys)
    → next_of nodes p ≢ invalid_page_id
IsRing-next nodes header p xs ys ring =
    let (r_header, r_list) = ring.real in
    let (before, behind) = Linked-split nodes header xs p ys header ring.linked in
    let (r_xs, (r_p, r_ys)) = Each-split (λ q. invalid_page_id ≢ q) xs (p ∷ ys) r_list in
    ≢-sym (next_in (λ q. invalid_page_id ≢ q) nodes p ys header behind r_header r_ys)

module _ (nodes after : ℤ → IxNodeHandle) (leaf : ℤ) (ys : List ℤ) (b : ℤ)
    (w : LinkedOut nodes after leaf) (behind : Linked nodes leaf ys b) where
  -- The links behind the erased page, from the page before it.
  links_across :
      (a : ℤ) (zs : List ℤ)
      → prev_of nodes leaf ≡ a
      → NotIn a zs
      → Distinct zs
      → NotIn b zs
      → Linked nodes leaf zs b
      → Linked after a zs b
  links_across a [] e n d m (next, prev) = (
    ap (next_of after) (sym e) ∙ w.next_prev ∙ next,
    ap (prev_of after) (sym next) ∙ w.prev_next ∙ e,
  )
  links_across a (y ∷ zs) e (ay, n) (yn, d) (by, m) (next, prev, rest) = (
    ap (next_of after) (sym e) ∙ w.next_prev ∙ next,
    ap (prev_of after) (sym next) ∙ w.prev_next ∙ e,
    Linked-agree nodes after y zs b (w.next_others y (λ p. ay (sym e ∙ p)))
        (Each-map (λ q differ. w.next_others q (λ p. differ (sym e ∙ p))) zs n)
        (Each-map (λ q differ. w.prev_others q (λ p. differ (sym next ∙ p))) zs yn)
        (w.prev_others b (λ p. by (sym (sym next ∙ p)))) rest,
  )

  links_without :
      (a : ℤ) (xs : List ℤ)
      → Distinct (a ∷ xs ++ leaf ∷ ys)
      → NotIn b (xs ++ leaf ∷ ys)
      → Linked nodes a xs leaf
      → Linked after a (xs ++ ys) b
  links_without a [] ((al, an), (ln, d)) (bl, bn) (next, prev) =
      links_across a ys prev an d bn behind
  links_without a (x ∷ xs) ((ax, an), (xn, d)) (bx, bn) (next, prev, rest) =
      let (a_xs, a_rest) = Each-split (λ q. a ≢ q) xs (leaf ∷ ys) an in
      let (x_xs, (x_leaf, x_ys)) = Each-split (λ q. x ≢ q) xs (leaf ∷ ys) xn in
      (
        w.next_others a (≢-sym (prev_in (λ q. a ≢ q) nodes x xs leaf rest ax a_xs)) ∙ next,
        w.prev_others x (≢-sym (next_in (λ q. x ≢ q) nodes leaf ys b behind (≢-sym bx) x_ys))
            ∙ prev,
        links_without x xs (xn, d) bn rest,
      )

-- `erase_leaf` of a leaf in the ring of the leaves: it returns, and the ring is a ring without the
-- leaf.
pub erase_leaf-IsRing :
    (h : IxIndexHandle) (header leaf : ℤ) (xs ys : List ℤ)
    → (h.nodes leaf).is_leaf ≡ true
    → IsRing h.nodes header (xs ++ leaf ∷ ys)
    → (e : IxIndexHandle) × (erase_leaf h leaf ≡ some e) × IsRing e.nodes header (xs ++ ys)
erase_leaf-IsRing h header leaf xs ys is_leaf ring =
    let (head, d) = ring.distinct in
    let (r_header, r_list) = ring.real in
    let (before, behind) = Linked-split h.nodes header xs leaf ys header ring.linked in
    let (h_xs, (h_leaf, h_ys)) = Each-split (λ q. header ≢ q) xs (leaf ∷ ys) head in
    let (d_rest, (l_xs, others)) = Distinct-split xs (leaf ∷ ys) d in
    let apart = prev_in (λ q. leaf ≢ q) h.nodes header xs leaf before (≢-sym h_leaf) l_xs in
    let (e, erased, w) = erase_leaf-LinkedOut h leaf is_leaf (≢-sym apart) in
    (
      e,
      erased,
      record {
        linked =
            links_without h.nodes e.nodes leaf ys header w behind header xs ring.distinct head
              before;
        distinct = (Each-remove (λ q. header ≢ q) xs leaf ys head, Distinct-remove xs leaf ys d);
        real = (r_header, Each-remove (λ q. invalid_page_id ≢ q) xs leaf ys r_list);
      },
    )
