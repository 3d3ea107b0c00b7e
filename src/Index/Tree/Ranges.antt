-- ===== src/Index/Tree/Ranges.antt =====
-- The positions that `lower_bound` and `upper_bound` give a scan to start and to stop at.
use native.Mathlib.Decide.{dec_lt}
use rubcase_lab.Base.{
  ℕ, ◌<◌, ◌≡◌, ◌≢◌, refl, ap, sym, ◌∙◌, ◌⊎◌, inl, inr, Bool, true, false, not, ◌&&◌, ltb,
  if◌then◌else◌, Option, none, some, arith,
}
use rubcase_lab.Base.Int.{ℤ, pos, ℤ-discrete}
use rubcase_lab.Storage.Page.{Bytes}
use rubcase_lab.Index.Compare.{less, more, sign, IsOrder}
use rubcase_lab.Index.Node.{count, lower_bound, upper_bound}
use rubcase_lab.Index.Node.Search.{Sorted, lower_bound_lem, upper_bound_lem, pos-inj}
use rubcase_lab.Index.Tree.Store.{ite_true, ite_false, unpin-nodes}
use rubcase_lab.Index.Tree.{IxIndexHandle, unpin, fetch_node, find_leaf_page}
use rubcase_lab.Index.Tree.Entries.{
  Iid, is_end, get_rid, leaf_end, lower_bound_iid, upper_iid, upper_bound_iid, IxScan, next,
}

-- `get_rid` at a slot with a key, and behind the last key.
get_rid-inside :
    (h : IxIndexHandle) (p : ℤ) (size slot : ℕ)
    → (h.nodes p).num_key ≡ pos size
    → slot < size
    → (get_rid h (record { page_no = p; slot_no = slot })).1 ≡ some ((h.nodes p).rids slot)
unfolding get_rid fetch_node
get_rid-inside h p size slot e lt =
    let measured : count (h.nodes p).num_key ≡ size = ap count e in
    let inside : ltb slot (count (h.nodes p).num_key) ≡ true = rw measured (ground arith) in
    rw (inside, get_rid) refl

get_rid-outside :
    (h : IxIndexHandle) (p : ℤ) (size : ℕ)
    → (h.nodes p).num_key ≡ pos size
    → (get_rid h (record { page_no = p; slot_no = size })).1 ≡ none
unfolding get_rid fetch_node
get_rid-outside h p size e =
    let measured : count (h.nodes p).num_key ≡ size = ap count e in
    let outside : ltb size (count (h.nodes p).num_key) ≡ false = rw measured (ground arith) in
    rw (outside, get_rid) refl

refused {ℓ} :
    {A : Type ℓ} (a b : Bool) (x : Option A) → (if not a && (b && false) then x else none) ≡ none
refused true b x = refl
refused false true x = refl
refused false false x = refl

next-outside :
    (s : IxScan) (size : ℕ)
    → (s.ih.nodes s.iid.page_no).num_key ≡ pos size
    → s.iid.slot_no ≡ size
    → next s ≡ none
unfolding next
next-outside s size e at =
    let measured : count (s.ih.nodes s.iid.page_no).num_key ≡ size = ap count e in
    let outside : ltb s.iid.slot_no (count (s.ih.nodes s.iid.page_no).num_key) ≡ false =
      rw (measured, at) (ground arith) in
    rw (outside, next) (refused (is_end s) (s.ih.nodes s.iid.page_no).is_leaf _)

module _ (cmp : Bytes → Bytes → ℤ) (c : IxIndexHandle) (leaf : ℤ) (key : Bytes) where
  abbrev slot_of : ℕ
  slot_of = upper_bound cmp (c.nodes leaf) key

  abbrev last_iid : Iid
  last_iid = record {
    page_no = c.file_hdr.last_leaf;
    slot_no = count (c.nodes c.file_hdr.last_leaf).num_key;
  }

  upper_iid-inside :
      pos slot_of ≢ (c.nodes leaf).num_key
      → (upper_iid cmp c leaf key).1 ≡ record { page_no = leaf; slot_no = slot_of }
  unfolding upper_iid leaf_end fetch_node
  upper_iid-inside e =
      ap (λ (x : IxIndexHandle × Iid). x.1)
        (ite_false (ℤ-discrete (pos slot_of) (c.nodes leaf).num_key)
          (unpin (leaf_end c).0 leaf false, last_iid)
          (unpin c leaf false, record { page_no = leaf; slot_no = slot_of }) e)

  upper_iid-end : pos slot_of ≡ (c.nodes leaf).num_key → (upper_iid cmp c leaf key).1 ≡ last_iid
  unfolding upper_iid leaf_end fetch_node
  upper_iid-end e =
      ap (λ (x : IxIndexHandle × Iid). x.1)
        (ite_true (ℤ-discrete (pos slot_of) (c.nodes leaf).num_key)
          (unpin (leaf_end c).0 leaf false, last_iid)
          (unpin c leaf false, record { page_no = leaf; slot_no = slot_of }) e)

module _ (cmp : Bytes → Bytes → ℤ) (o : IsOrder cmp) (fuel : ℕ) (h c : IxIndexHandle) (leaf : ℤ)
    (key : Bytes) (size : ℕ) (found : find_leaf_page cmp fuel h key ≡ some (c, leaf))
    (e : (c.nodes leaf).num_key ≡ pos size) (s : Sorted cmp (c.nodes leaf).keys size) where
  abbrev keys : ℕ → Bytes
  keys = (c.nodes leaf).keys

  -- `lower_bound` of a key whose path ends in a leaf with keys in order: all keys before its slot are
  -- below the key, and either the slot holds a key not below it, with the rid that `get_rid` gives,
  -- or it is behind the last slot of the leaf, where `get_rid` throws and `next` fails an assertion,
  -- whatever the end of the scan is and whether or not more leaves follow.
  pub lower_bound_iid_lem :
      (d : IxIndexHandle) × (slot : ℕ) × (lower_bound_iid cmp fuel h key
        ≡ some (d, record { page_no = leaf; slot_no = slot }))
      × ((i : ℕ) → i < slot → sign (cmp key (keys i)) ≡ more)
      × (((slot < size)
            × (sign (cmp key (keys slot)) ≢ more)
            × ((get_rid d (record { page_no = leaf; slot_no = slot })).1
                ≡ some ((c.nodes leaf).rids slot)))
          ⊎ ((slot ≡ size)
              × ((get_rid d (record { page_no = leaf; slot_no = slot })).1 ≡ none)
              × ((end : Iid)
                  → next (record {
                    ih = d;
                    iid = record { page_no = leaf; slot_no = slot };
                    end = end;
                  })
                    ≡ none)))
  unfolding lower_bound_iid
  lower_bound_iid_lem =
      let (bounded, left, right) = lower_bound_lem cmp o (c.nodes leaf) size e s key in
      let slot = lower_bound cmp (c.nodes leaf) key in
      let d = unpin c leaf false in
      let there = ap (λ f. (f leaf).num_key) (unpin-nodes c leaf false) ∙ e in
      (
        d,
        slot,
        rw (found, lower_bound_iid) refl,
        left,
        elim (dec_lt slot size) [
          | yes lt ↦ inl (
            lt,
            right slot (omega arith) lt,
            get_rid-inside d leaf size slot there lt
                ∙ ap (λ f. some ((f leaf).rids slot)) (unpin-nodes c leaf false),
          )
          | no ge ↦
              let end_of : slot ≡ size = omega arith in
              inr (
                end_of,
                rw end_of (get_rid-outside d leaf size there),
                λ end.
                    next-outside
                      (record {
                        ih = d;
                        iid = record { page_no = leaf; slot_no = slot };
                        end = end;
                      })
                      size there end_of,
              )
        ],
      )

  -- `upper_bound` of a key whose path ends in a leaf with keys in order: the first slot with a larger
  -- key, if the leaf has one, and else the end of the last leaf of the index, whatever leaf this is.
  pub upper_bound_iid_lem :
      (d : IxIndexHandle) × (iid : Iid) × (upper_bound_iid cmp fuel h key ≡ some (d, iid))
      × (((iid.page_no ≡ leaf)
            × (iid.slot_no < size)
            × ((i : ℕ) → i < iid.slot_no → sign (cmp key (keys i)) ≢ less)
            × (sign (cmp key (keys iid.slot_no)) ≡ less))
          ⊎ (((i : ℕ) → i < size → sign (cmp key (keys i)) ≢ less)
              × (iid.page_no ≡ c.file_hdr.last_leaf)
              × (iid.slot_no ≡ count (c.nodes c.file_hdr.last_leaf).num_key)))
  unfolding upper_bound_iid
  upper_bound_iid_lem =
      let (bounded, left, right) = upper_bound_lem cmp o (c.nodes leaf) size e s key in
      let slot = upper_bound cmp (c.nodes leaf) key in
      let d = (upper_iid cmp c leaf key).0 in
      let pair_with : Iid → Option (IxIndexHandle × Iid) = (λ iid. some (d, iid)) in
      elim (dec_lt slot size) [
        | yes lt ↦
            let inside : pos slot ≢ (c.nodes leaf).num_key =
              (λ p. let q = pos-inj slot size (p ∙ e) in omega arith) in
            (
              d,
              record { page_no = leaf; slot_no = slot },
              rw (found, upper_bound_iid) (ap pair_with (upper_iid-inside cmp c leaf key inside)),
              inl (refl, lt, left, right slot (omega arith) lt),
            )
        | no ge ↦
            let end_of : pos slot ≡ (c.nodes leaf).num_key =
              (let q : slot ≡ size = omega arith in ap pos q ∙ sym e) in
            (
              d,
              last_iid cmp c leaf key,
              rw (found, upper_bound_iid) (ap pair_with (upper_iid-end cmp c leaf key end_of)),
              inr (λ i p. left i (omega arith), refl, refl),
            )
      ]
