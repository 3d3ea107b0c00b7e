-- ===== src/Index/Tree/Scanning.antt =====
-- One entry of a scan: `is_end`, `rid` and `next`, and the loop over them.
use mathlib.Core.Logic.{ite}
use rubcase_lab.Base.{
  ℕ, zero, suc, ◌<◌, ◌≡◌, ◌≢◌, refl, ap, ap₂, ◌∙◌, Bool, true, false, not, ◌&&◌, ltb, if◌then◌else◌,
  Option, none, some, List, [], ◌∷◌, ◌++◌, arith,
}
use rubcase_lab.Base.Int.{ℤ, pos, ℤ-discrete}
use rubcase_lab.Defs.{Rid}
use rubcase_lab.Index.Node.{IxFileHdr, IxNodeHandle, count}
use rubcase_lab.Index.Tree.Store.{either, ite_true, ite_false, unpin-nodes, unpin-file_hdr}
use rubcase_lab.Index.Tree.{IxIndexHandle, unpin, fetch_node}
use rubcase_lab.Index.Tree.Entries.{Iid, same_iid, get_rid, IxScan, is_end, next_iid, next, rid}

abbrev pub with_rid : Rid → Option IxScan → Option (Rid × IxScan)
with_rid r none = none
with_rid r (some t) = some (r, t)

abbrev pub advance : IxScan × Option Rid → Option (Rid × IxScan)
advance (s, none) = none
advance (s, some r) = with_rid r (next s)

-- What the loop does with one entry: the rid, and the scan behind it.
unfoldable pub take_one : IxScan → Option (Rid × IxScan)
unfolding rid next
take_one s = advance (rid s)

abbrev pub cons_to : Rid → Option (List Rid) → Option (List Rid)
cons_to r none = none
cons_to r (some rs) = some (r ∷ rs)

-- The rids that a scan gives up to its end, with fuel: `none` is a scan that has not ended or failed.
unfoldable pub collect : ℕ → IxScan → Option (List Rid)
unfolding is_end take_one
collect zero s = if is_end s then some [] else none
collect (suc fuel) s =
    let after = collect fuel in
    let rest : Option (List Rid) = elim (take_one s) [
      | none ↦ none
      | some (r, t) ↦ cons_to r (after t)
    ] in
    if is_end s then some [] else rest

-- A scan at slot `slot` of page `p`.
abbrev pub scan_at : IxIndexHandle → ℤ → ℕ → Iid → IxScan
scan_at h p slot end = record { ih = h; iid = record { page_no = p; slot_no = slot }; end = end }

pub collect-end : (fuel : ℕ) (s : IxScan) → is_end s ≡ true → collect fuel s ≡ some []
unfolding collect
collect-end zero s e = rw (e, collect) refl
collect-end (suc fuel) s e = rw (e, collect) refl

collect-step :
    (fuel : ℕ) (s t : IxScan) (r : Rid)
    → is_end s ≡ false
    → take_one s ≡ some (r, t)
    → collect (suc fuel) s ≡ cons_to r (collect fuel t)
unfolding collect
collect-step fuel s t r e e' = rw (e, e', collect) refl

accepted {ℓ} :
    {A : Type ℓ} (a b c : Bool) (x : Option A)
    → a ≡ false
    → b ≡ true
    → c ≡ true
    → (if not a && (b && c) then x else none) ≡ x
accepted a b c x e e' e'' = ground arith

module _ (h : IxIndexHandle) (p : ℤ) (slot size : ℕ) (end : Iid) (leaf : (h.nodes p).is_leaf ≡ true)
    (e : (h.nodes p).num_key ≡ pos size) (lt : slot < size)
    (going : same_iid (record { page_no = p; slot_no = slot }) end ≡ false) where
  abbrev here : Iid
  here = record { page_no = p; slot_no = slot }

  -- The handle after the rid has been read.
  abbrev read : IxIndexHandle
  read = unpin (fetch_node h p) p false

  inside : ltb slot (count (h.nodes p).num_key) ≡ true
  inside =
      let measured : count (h.nodes p).num_key ≡ size = ap count e in rw measured (ground arith)

  get_rid-there : get_rid h here ≡ (read, some ((h.nodes p).rids slot))
  unfolding get_rid fetch_node
  get_rid-there = rw (inside, get_rid) refl

  next-there :
      next (scan_at read p slot end)
      ≡ some (
          scan_at
            (fetch_node read p)
            (next_iid h.file_hdr (h.nodes p) here).page_no
            (next_iid h.file_hdr (h.nodes p) here).slot_no
            end)
  unfolding next is_end fetch_node
  next-there =
      let kept = unpin-nodes (fetch_node h p) p false in
      let hdr = unpin-file_hdr (fetch_node h p) p false in
      accepted (same_iid here end) (read.nodes p).is_leaf (ltb slot (count (read.nodes p).num_key))
        (some (record (scan_at read p slot end) {
          ih = fetch_node read p;
          iid = next_iid read.file_hdr (read.nodes p) here;
        }))
        going (ap (λ f. (f p).is_leaf) kept ∙ leaf)
        (ap (λ f. ltb slot (count (f p).num_key)) kept ∙ inside)
      ∙ ap₂
          (λ f x. some (
            scan_at (fetch_node read p) (next_iid x (f p) here).page_no
              (next_iid x (f p) here).slot_no end))
          kept hdr

  take_one-there :
      take_one (scan_at h p slot end)
      ≡ some (
        (h.nodes p).rids slot,
        scan_at
            (fetch_node read p)
            (next_iid h.file_hdr (h.nodes p) here).page_no
            (next_iid h.file_hdr (h.nodes p) here).slot_no
            end,
      )
  unfolding take_one rid
  take_one-there =
      let handed : IxIndexHandle × Option Rid → IxScan × Option Rid =
        (λ x. (scan_at x.0 p slot end, x.1)) in
      ap advance (ap handed get_rid-there) ∙ ap (with_rid ((h.nodes p).rids slot)) next-there

module _ (hdr : IxFileHdr) (n : IxNodeHandle) (p : ℤ) (slot : ℕ) where
  abbrev along : Iid
  along = record { page_no = p; slot_no = suc slot }

  abbrev over : Iid
  over = record { page_no = n.next_leaf; slot_no = 0 }

  abbrev later : Iid
  later = ite (ℤ-discrete (pos (suc slot)) n.num_key) over along

  pub next_iid-last :
      p ≡ hdr.last_leaf → next_iid hdr n (record { page_no = p; slot_no = slot }) ≡ along
  unfolding next_iid
  next_iid-last e = ite_true (ℤ-discrete p hdr.last_leaf) along later e

  pub next_iid-along :
      pos (suc slot) ≢ n.num_key → next_iid hdr n (record { page_no = p; slot_no = slot }) ≡ along
  unfolding next_iid
  next_iid-along e =
      either (λ (x : Iid). x ≡ along) (ℤ-discrete p hdr.last_leaf) along later refl
        (ite_false (ℤ-discrete (pos (suc slot)) n.num_key) over along e)

  pub next_iid-over :
      p ≢ hdr.last_leaf
      → pos (suc slot) ≡ n.num_key
      → next_iid hdr n (record { page_no = p; slot_no = slot }) ≡ over
  unfolding next_iid
  next_iid-over e e' =
      ite_false (ℤ-discrete p hdr.last_leaf) along later e
      ∙ ite_true (ℤ-discrete (pos (suc slot)) n.num_key) over along e'

-- The rids of `k` slots of a node from slot `slot` on.
abbrev pub rids_from : IxNodeHandle → ℕ → ℕ → List Rid
rids_from n slot zero = []
rids_from n slot (suc k) = n.rids slot ∷ rids_from n (suc slot) k

-- The rids of the leaves of the list and of a last leaf.
abbrev pub rids_of : (ℤ → IxNodeHandle) → List ℤ → ℤ → List Rid
rids_of nodes [] last = rids_from (nodes last) 0 (count (nodes last).num_key)
rids_of nodes (p ∷ ps) last =
    rids_from (nodes p) 0 (count (nodes p).num_key) ++ rids_of nodes ps last

abbrev pub append_to : List Rid → Option (List Rid) → Option (List Rid)
append_to rs none = none
append_to rs (some qs) = some (rs ++ qs)

pub cons_to-append : (r : Rid) (o : Option (List Rid)) → cons_to r o ≡ append_to (r ∷ []) o
cons_to-append r none = refl
cons_to-append r (some qs) = refl

pub append_to-cons :
    (r : Rid) (rs : List Rid) (o : Option (List Rid))
    → cons_to r (append_to rs o) ≡ append_to (r ∷ rs) o
append_to-cons r rs none = refl
append_to-cons r rs (some qs) = refl

module _ (nodes : ℤ → IxNodeHandle) (last : ℤ) (end : Iid) where
  -- A handle that has the pages and the last leaf.
  abbrev pub Keeps : IxIndexHandle → Type 0
  Keeps h = (h.nodes ≡ nodes) × (h.file_hdr.last_leaf ≡ last)

  pub step :
      (fuel : ℕ) (h : IxIndexHandle) (p q : ℤ) (slot j size : ℕ)
      → Keeps h
      → (nodes p).is_leaf ≡ true
      → (nodes p).num_key ≡ pos size
      → slot < size
      → same_iid (record { page_no = p; slot_no = slot }) end ≡ false
      → ((hdr : IxFileHdr)
          → hdr.last_leaf ≡ last
          → next_iid hdr (nodes p) (record { page_no = p; slot_no = slot })
            ≡ record { page_no = q; slot_no = j })
      → (h' : IxIndexHandle) × Keeps h'
        × (collect (suc fuel) (scan_at h p slot end)
            ≡ cons_to ((nodes p).rids slot) (collect fuel (scan_at h' q j end)))
  unfolding is_end fetch_node
  step fuel h p q slot j size (pages, hdr) leaf e lt going goes =
      let h' = fetch_node (unpin (fetch_node h p) p false) p in
      let here : Iid = record { page_no = p; slot_no = slot } in
      let moved : next_iid h.file_hdr (h.nodes p) here ≡ record { page_no = q; slot_no = j } =
        ap (λ f. next_iid h.file_hdr (f p) here) pages ∙ goes h.file_hdr hdr in
      let one =
        take_one-there h p slot size end (ap (λ f. (f p).is_leaf) pages ∙ leaf)
          (ap (λ f. (f p).num_key) pages ∙ e) lt going in
      (
        h',
        (
          unpin-nodes (fetch_node h p) p false ∙ pages,
          ap (λ x. x.last_leaf) (unpin-file_hdr (fetch_node h p) p false) ∙ hdr,
        ),
        collect-step fuel (scan_at h p slot end)
              (scan_at h' (next_iid h.file_hdr (h.nodes p) here).page_no
                (next_iid h.file_hdr (h.nodes p) here).slot_no end)
              ((h.nodes p).rids slot) going one
            ∙ ap₂
                (λ f x.
                  cons_to ((f p).rids slot) (collect fuel (scan_at h' x.page_no x.slot_no end)))
                pages moved,
      )
