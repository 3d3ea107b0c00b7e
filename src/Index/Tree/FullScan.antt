-- ===== src/Index/Tree/FullScan.antt =====
-- A scan over all leaves: the loop of src/index/ix_scan.cpp from `leaf_begin` to `leaf_end`.
use rubcase_lab.Base.{
  ℕ, zero, suc, ◌+◌, ◌-◌, ◌≤◌, ◌<◌, ◌≡◌, ◌≢◌, refl, ap, sym, ◌∙◌, Bool, true, false, ◌==◌, some,
  List, [], ◌∷◌, ◌++◌, arith,
}
use rubcase_lab.Base.Int.{ℤ, pos, ℤ-discrete}
use rubcase_lab.Index.Node.{IxNodeHandle, count}
use rubcase_lab.Index.Node.Search.{pos-inj}
use rubcase_lab.Index.Tree.Store.{either, ite_true, ite_false, unpin-nodes, unpin-file_hdr}
use rubcase_lab.Index.Tree.{IxIndexHandle, unpin, fetch_node}
use rubcase_lab.Index.Tree.Entries.{Iid, same_iid, leaf_begin, leaf_end, is_end}
use rubcase_lab.Index.Tree.Scanning.{
  Keeps, append_to, append_to-cons, collect, collect-end, cons_to, cons_to-append, next_iid-along,
  next_iid-last, next_iid-over, rids_from, rids_of, scan_at, step,
}

same_iid_self : (x : Iid) → same_iid x x ≡ true
unfolding same_iid
same_iid_self x =
    ite_true (ℤ-discrete x.page_no x.page_no) (x.slot_no == x.slot_no) false refl ∙ ground arith

same_iid_page : (x y : Iid) → x.page_no ≢ y.page_no → same_iid x y ≡ false
unfolding same_iid
same_iid_page x y e = ite_false (ℤ-discrete x.page_no y.page_no) (x.slot_no == y.slot_no) false e

same_iid_slot : (x y : Iid) → x.slot_no ≢ y.slot_no → same_iid x y ≡ false
unfolding same_iid
same_iid_slot x y e =
    either (λ (b : Bool). b ≡ false) (ℤ-discrete x.page_no y.page_no) (x.slot_no == y.slot_no) false
      (ground arith) refl

abbrev pub size_of : (ℤ → IxNodeHandle) → ℤ → ℕ
size_of nodes p = count (nodes p).num_key

-- The leaves of the list lead one to the next and to a last leaf; only the last may be empty.
abbrev pub first_of : List ℤ → ℤ → ℤ
first_of [] last = last
first_of (p ∷ ps) last = p

abbrev pub IsRun : (ℤ → IxNodeHandle) → List ℤ → ℤ → Type 0
IsRun nodes [] last =
    ((nodes last).is_leaf ≡ true) × ((nodes last).num_key ≡ pos (size_of nodes last))
IsRun nodes (p ∷ ps) last =
    (p ≢ last)
    × ((nodes p).is_leaf ≡ true)
    × ((nodes p).num_key ≡ pos (size_of nodes p))
    × (0 < size_of nodes p)
    × ((nodes p).next_leaf ≡ first_of ps last)
    × IsRun nodes ps last

abbrev pub total : (ℤ → IxNodeHandle) → List ℤ → ℤ → ℕ
total nodes [] last = size_of nodes last
total nodes (p ∷ ps) last = size_of nodes p + total nodes ps last

module _ (nodes : ℤ → IxNodeHandle) (last : ℤ) where
  abbrev end_of : Iid
  end_of = record { page_no = last; slot_no = size_of nodes last }

  walk_last :
      (k fuel : ℕ) (h : IxIndexHandle) (slot : ℕ)
      → k ≤ fuel
      → slot + k ≡ size_of nodes last
      → Keeps nodes last end_of h
      → (nodes last).is_leaf ≡ true
      → (nodes last).num_key ≡ pos (size_of nodes last)
      → collect fuel (scan_at h last slot end_of) ≡ some (rids_from (nodes last) slot k)
  unfolding is_end
  walk_last zero fuel h slot enough e keeps leaf n =
      let there : slot ≡ size_of nodes last = omega arith in
      collect-end fuel (scan_at h last slot end_of) (
        ap (λ j. same_iid (record { page_no = last; slot_no = j }) end_of) there
        ∙ same_iid_self end_of)
  walk_last (suc k) zero h slot enough e keeps leaf n = absurd (omega arith)
  walk_last (suc k) (suc fuel) h slot enough e keeps leaf n =
      let (h', keeps', one) =
        step nodes last end_of fuel h last last slot (suc slot) (size_of nodes last) keeps leaf n
          (omega arith)
          (same_iid_slot (record { page_no = last; slot_no = slot }) end_of (omega arith))
          (λ hdr q. next_iid-last hdr (nodes last) last slot (sym q)) in
      one
      ∙ ap (cons_to ((nodes last).rids slot))
          (walk_last k fuel h' (suc slot) (omega arith) (omega arith) keeps' leaf n)

  walk :
      (p : ℤ) (k fuel rest : ℕ) (h : IxIndexHandle) (slot : ℕ)
      → fuel ≡ suc k + rest
      → slot + suc k ≡ size_of nodes p
      → Keeps nodes last end_of h
      → p ≢ last
      → (nodes p).is_leaf ≡ true
      → (nodes p).num_key ≡ pos (size_of nodes p)
      → (h' : IxIndexHandle) × Keeps nodes last end_of h'
        × (collect fuel (scan_at h p slot end_of)
            ≡ append_to
                (rids_from (nodes p) slot (suc k))
                (collect rest (scan_at h' (nodes p).next_leaf 0 end_of)))
  walk p k zero rest h slot f e keeps differ leaf n = absurd (omega arith)
  walk p zero (suc fuel) rest h slot f e keeps differ leaf n =
      let (h', keeps', one) =
        step nodes last end_of fuel h p (nodes p).next_leaf slot 0 (size_of nodes p) keeps leaf n
          (omega arith) (same_iid_page (record { page_no = p; slot_no = slot }) end_of differ)
          (λ hdr q.
            next_iid-over hdr (nodes p) p slot (λ x. differ (x ∙ q))
              (ap pos (omega arith) ∙ sym n)) in
      let last_one : fuel ≡ rest = omega arith in
      (
        h',
        keeps',
        one
            ∙ ap
                (λ g.
                  cons_to ((nodes p).rids slot)
                    (collect g (scan_at h' (nodes p).next_leaf 0 end_of)))
                last_one
            ∙ cons_to-append ((nodes p).rids slot)
                (collect rest (scan_at h' (nodes p).next_leaf 0 end_of)),
      )
  walk p (suc k) (suc fuel) rest h slot f e keeps differ leaf n =
      let (h', keeps', one) =
        step nodes last end_of fuel h p p slot (suc slot) (size_of nodes p) keeps leaf n
          (omega arith) (same_iid_page (record { page_no = p; slot_no = slot }) end_of differ)
          (λ hdr q.
            next_iid-along hdr (nodes p) p slot
              (λ x. let y = pos-inj (suc slot) (size_of nodes p) (x ∙ n) in omega arith)) in
      let (h'', keeps'', others) =
        walk p k fuel rest h' (suc slot) (omega arith) (omega arith) keeps' differ leaf n in
      (
        h'',
        keeps'',
        one
            ∙ ap (cons_to ((nodes p).rids slot)) others
            ∙ append_to-cons ((nodes p).rids slot) (rids_from (nodes p) (suc slot) (suc k))
                (collect rest (scan_at h'' (nodes p).next_leaf 0 end_of)),
      )

  collect_run :
      (ps : List ℤ) (fuel : ℕ) (h : IxIndexHandle)
      → total nodes ps last ≤ fuel
      → Keeps nodes last end_of h
      → IsRun nodes ps last
      → collect fuel (scan_at h (first_of ps last) 0 end_of) ≡ some (rids_of nodes ps last)
  collect_run [] fuel h enough keeps (leaf, n) =
      walk_last (size_of nodes last) fuel h 0 enough (omega arith) keeps leaf n
  collect_run (p ∷ ps) fuel h enough keeps (differ, leaf, n, some_keys, leads, run) =
      let size = size_of nodes p in
      let k = size - 1 in
      let rest = fuel - size in
      let all_of : suc k ≡ size = omega arith in
      let (h', keeps', walked) =
        walk p k fuel rest h 0 (omega arith) (omega arith) keeps differ leaf n in
      let others = collect_run ps rest h' (omega arith) keeps' run in
      walked
      ∙ ap (append_to (rids_from (nodes p) 0 (suc k)))
          (ap (λ q. collect rest (scan_at h' q 0 end_of)) leads ∙ others)
      ∙ ap (λ j. some (rids_from (nodes p) 0 j ++ rids_of nodes ps last)) all_of

-- A scan from `leaf_begin` to `leaf_end`, where the leaves lead one to the next from the first to the
-- last and only the last may be empty, with as much fuel as entries: it ends and gives the rid of
-- every entry of every leaf, in the order of the leaves and of their slots.
pub collect-rids_of :
    (h : IxIndexHandle) (ps : List ℤ) (fuel : ℕ)
    → h.file_hdr.first_leaf ≡ first_of ps h.file_hdr.last_leaf
    → IsRun h.nodes ps h.file_hdr.last_leaf
    → total h.nodes ps h.file_hdr.last_leaf ≤ fuel
    → collect fuel (record { ih = (leaf_end h).0; iid = leaf_begin h; end = (leaf_end h).1 })
      ≡ some (rids_of h.nodes ps h.file_hdr.last_leaf)
unfolding leaf_end leaf_begin fetch_node
collect-rids_of h ps fuel first run enough =
    let last = h.file_hdr.last_leaf in
    let c = unpin (fetch_node h last) last false in
    ap (λ q. collect fuel (scan_at c q 0 (end_of h.nodes last))) first
    ∙ collect_run h.nodes last ps fuel c enough
        (
          unpin-nodes (fetch_node h last) last false,
          ap (λ x. x.last_leaf) (unpin-file_hdr (fetch_node h last) last false),
        )
        run
