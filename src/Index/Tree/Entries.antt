-- ===== src/Index/Tree/Entries.antt =====
-- The entries of the leaves as positions: `get_rid`, the bounds of a range, and src/index/ix_scan.cpp.
use mathlib.Core.Logic.{ite}
use rubcase_lab.Base.{ℕ, suc, Bool, false, not, ◌&&◌, ltb, ◌==◌, if◌then◌else◌, Option, none, some}
use rubcase_lab.Base.Int.{ℤ, pos, ℤ-discrete}
use rubcase_lab.Defs.{Rid}
use rubcase_lab.Storage.Page.{Bytes}
use rubcase_lab.Index.Node.{IxFileHdr, IxNodeHandle, count, lower_bound, upper_bound}
use rubcase_lab.Index.Tree.{IxIndexHandle, unpin, fetch_node, find_leaf_page}

-- A slot number is not negative.
pub record Iid : Type 0 where
  pub page_no : ℤ
  pub slot_no : ℕ

unfoldable pub same_iid : Iid → Iid → Bool
unfolding ℤ-discrete
same_iid x y = ite (ℤ-discrete x.page_no y.page_no) (x.slot_no == y.slot_no) false

-- `none` is `IndexEntryNotFoundError`, which leaves the page pinned.
unfoldable pub get_rid : IxIndexHandle → Iid → IxIndexHandle × Option Rid
unfolding fetch_node unpin
get_rid h iid =
    let c = fetch_node h iid.page_no in
    let n = c.nodes iid.page_no in
    if ltb iid.slot_no (count n.num_key)
    then (unpin c iid.page_no false, some (n.rids iid.slot_no))
    else (c, none)

unfoldable pub leaf_begin : IxIndexHandle → Iid
leaf_begin h = record { page_no = h.file_hdr.first_leaf; slot_no = 0 }

unfoldable pub leaf_end : IxIndexHandle → IxIndexHandle × Iid
unfolding fetch_node unpin
leaf_end h =
    let last = h.file_hdr.last_leaf in
    let c = fetch_node h last in
    (unpin c last false, record { page_no = last; slot_no = count (c.nodes last).num_key })

module _ (cmp : Bytes → Bytes → ℤ) where
  unfoldable pub lower_bound_iid : ℕ → IxIndexHandle → Bytes → Option (IxIndexHandle × Iid)
  unfolding find_leaf_page lower_bound unpin
  lower_bound_iid fuel h key = elim (find_leaf_page cmp fuel h key) [
    | none ↦ none
    | some (c, leaf) ↦ some (
      unpin c leaf false,
      record { page_no = leaf; slot_no = lower_bound cmp (c.nodes leaf) key },
    )
  ]

  -- `upper_bound` from the leaf on.
  unfoldable pub upper_iid : IxIndexHandle → ℤ → Bytes → IxIndexHandle × Iid
  unfolding upper_bound leaf_end unpin ℤ-discrete
  upper_iid h leaf key =
      let key_idx = upper_bound cmp (h.nodes leaf) key in
      let (e, end) = leaf_end h in
      ite (ℤ-discrete (pos key_idx) (h.nodes leaf).num_key) (unpin e leaf false, end)
        (unpin h leaf false, record { page_no = leaf; slot_no = key_idx })

  unfoldable pub upper_bound_iid : ℕ → IxIndexHandle → Bytes → Option (IxIndexHandle × Iid)
  unfolding find_leaf_page upper_iid
  upper_bound_iid fuel h key = elim (find_leaf_page cmp fuel h key) [
    | none ↦ none
    | some (c, leaf) ↦ some (upper_iid c leaf key)
  ]

pub record IxScan : Type 0 where
  pub ih : IxIndexHandle
  pub iid : Iid
  pub end : Iid

unfoldable pub is_end : IxScan → Bool
unfolding same_iid
is_end s = same_iid s.iid s.end

-- The place behind `iid` in the leaf `n`.
unfoldable pub next_iid : IxFileHdr → IxNodeHandle → Iid → Iid
unfolding ℤ-discrete
next_iid hdr n iid =
    let along : Iid = record iid { slot_no = suc iid.slot_no } in
    let over : Iid = record { page_no = n.next_leaf; slot_no = 0 } in
    ite (ℤ-discrete iid.page_no hdr.last_leaf) along
      (ite (ℤ-discrete (pos (suc iid.slot_no)) n.num_key) over along)

-- `next`, which leaves the page pinned: `none` is a failed assertion.
unfoldable pub next : IxScan → Option IxScan
unfolding is_end fetch_node next_iid
next s =
    let n = s.ih.nodes s.iid.page_no in
    let on : IxScan = record s {
      ih = fetch_node s.ih s.iid.page_no;
      iid = next_iid s.ih.file_hdr n s.iid;
    } in
    if not (is_end s) && (n.is_leaf && ltb s.iid.slot_no (count n.num_key)) then some on else none

unfoldable pub rid : IxScan → IxScan × Option Rid
unfolding get_rid
rid s = let (h, r) = get_rid s.ih s.iid in (record s { ih = h }, r)
