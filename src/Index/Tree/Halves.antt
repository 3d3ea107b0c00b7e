-- ===== src/Index/Tree/Halves.antt =====
-- The two halves of a split leaf.
use native.Mathlib.Decide.{dec_lt}
use rubcase_lab.Base.{
  ℕ, ◌+◌, ◌-◌, ◌/◌, ◌≤◌, ◌<◌, ◌≡◌, ◌≢◌, refl, ap, sym, ◌∙◌, Option, none, some, arith,
}
use rubcase_lab.Base.Int.{ℤ, pos}
use rubcase_lab.Storage.Page.{Bytes}
use rubcase_lab.Index.Compare.{less, same, sign, IsOrder}
use rubcase_lab.Defs.{Rid}
use rubcase_lab.Index.Node.{IxNodeHandle, count, copy, leaf_lookup}
use rubcase_lab.Index.Node.Search.{Sorted, Finds, Finds-unique, leaf_lookup-Finds}
use rubcase_lab.Index.Tree.Store.{put_at-same, put_at-other}
use rubcase_lab.Index.Tree.{IxIndexHandle, put_at}
use rubcase_lab.Index.Tree.Grow.{upper_half, lower_half, evenly_distribute_pairs}

-- `l` and `r` hold the keys of `n` below slot `half` and from it on.
record IsSplit (n l r : IxNodeHandle) (size half : ℕ) : Type 0 where
  left_size : l.num_key ≡ pos half
  right_size : r.num_key ≡ pos (size - half)
  left_keys : (i : ℕ) → i < half → l.keys i ≡ n.keys i
  left_rids : (i : ℕ) → i < half → l.rids i ≡ n.rids i
  right_keys : (i : ℕ) → i < size - half → r.keys i ≡ n.keys (half + i)
  right_rids : (i : ℕ) → i < size - half → r.rids i ≡ n.rids (half + i)

copied : {A : Type 0} (a b : ℕ → A) (len i : ℕ) → i < len → copy a 0 b len i ≡ b i
copied a b len i h = ground arith

halves-IsSplit :
    (n o : IxNodeHandle) (size : ℕ)
    → o.num_key ≡ pos size
    → IsSplit o (lower_half o) (upper_half n o) size (size / 2)
unfolding upper_half lower_half
halves-IsSplit n o size e =
    let measured : count o.num_key ≡ size = ap count e in
    let half = size / 2 in
    rw measured (record {
      left_size = refl;
      right_size = refl;
      left_keys = λ i h. refl;
      left_rids = λ i h. refl;
      right_keys = λ i h. copied n.keys (λ j. o.keys (half + j)) (size - half) i h;
      right_rids = λ i h. copied n.rids (λ j. o.rids (half + j)) (size - half) i h;
    })

module _ (cmp : Bytes → Bytes → ℤ) (o : IsOrder cmp) (n l r : IxNodeHandle) (size half : ℕ)
    (e : n.num_key ≡ pos size) (s : Sorted cmp n.keys size) (within : half ≤ size)
    (w : IsSplit n l r size half) where
  left-Sorted : Sorted cmp l.keys half
  left-Sorted i j p q = rw (w.left_keys i (omega arith), w.left_keys j q) (s i j p (omega arith))

  right-Sorted : Sorted cmp r.keys (size - half)
  right-Sorted i j p q =
      rw (w.right_keys i (omega arith), w.right_keys j q)
        (s (half + i) (half + j) (omega arith) (omega arith))

  left-Finds :
      (k : Bytes) (result : Option Rid)
      → ((j : ℕ) → half ≤ j → j < size → sign (cmp k (n.keys j)) ≢ same)
      → Finds cmp l half k result
      → Finds cmp n size k result
  left-Finds k none rest f = λ i h. elim (dec_lt i half) [
    | yes lt ↦ rw⁻¹ (w.left_keys i lt) (f i lt)
    | no ge ↦ rest i (omega arith) h
  ]
  left-Finds k (some x) rest (i, h, hit, u) =
      (i, omega arith, rw⁻¹ (w.left_keys i h) hit, sym (w.left_rids i h) ∙ u)

  right-Finds :
      (k : Bytes) (result : Option Rid)
      → ((j : ℕ) → j < half → sign (cmp k (n.keys j)) ≢ same)
      → Finds cmp r (size - half) k result
      → Finds cmp n size k result
  right-Finds k none rest f = λ i h. elim (dec_lt i half) [
    | yes lt ↦ rest i lt
    | no ge ↦
        let back : half + (i - half) ≡ i = omega arith in
        let inside : i - half < size - half = omega arith in
        rw⁻¹ (w.right_keys (i - half) inside ∙ ap n.keys back) (f (i - half) inside)
  ]
  right-Finds k (some x) rest (i, h, hit, u) =
      (half + i, omega arith, rw⁻¹ (w.right_keys i h) hit, sym (w.right_rids i h) ∙ u)

  lookup_left :
      (k : Bytes)
      → ((j : ℕ) → half ≤ j → j < size → sign (cmp k (n.keys j)) ≢ same)
      → leaf_lookup cmp l k ≡ leaf_lookup cmp n k
  lookup_left k rest =
      Finds-unique cmp o n size e s k (leaf_lookup cmp l k) (leaf_lookup cmp n k)
        (left-Finds k (leaf_lookup cmp l k) rest
          (leaf_lookup-Finds cmp o l half w.left_size left-Sorted k))
        (leaf_lookup-Finds cmp o n size e s k)

  lookup_right :
      (k : Bytes)
      → ((j : ℕ) → j < half → sign (cmp k (n.keys j)) ≢ same)
      → leaf_lookup cmp r k ≡ leaf_lookup cmp n k
  lookup_right k rest =
      Finds-unique cmp o n size e s k (leaf_lookup cmp r k) (leaf_lookup cmp n k)
        (right-Finds k (leaf_lookup cmp r k) rest
          (leaf_lookup-Finds cmp o r (size - half) w.right_size right-Sorted k))
        (leaf_lookup-Finds cmp o n size e s k)

module _ (cmp : Bytes → Bytes → ℤ) (o : IsOrder cmp) (keys : ℕ → Bytes) (size half : ℕ)
    (s : Sorted cmp keys size) (k : Bytes) where
  not_after :
      sign (cmp k (keys half)) ≡ less → (j : ℕ) → half ≤ j → j < size → sign (cmp k (keys j)) ≢ same
  not_after below j p q = elim (dec_lt half j) [
    | yes lt ↦ ground (arith, s half j lt q, o.less_trans k (keys half) (keys j) below)
    | no ge ↦ let there : half ≡ j = omega arith in rw⁻¹ there (λ hit. ground (arith, below, hit))
  ]

  not_before :
      half < size
      → sign (cmp k (keys half)) ≢ less
      → (j : ℕ) → j < half
      → sign (cmp k (keys j)) ≢ same
  not_before inside not_below j p hit =
      not_below (o.same_left k (keys j) (keys half) hit ∙ s j half p inside)

-- `evenlyDistributePairs` on a node with keys in order and another node: every key below the first of
-- the new node is looked up in the old node with the answer of the whole node, and every other key in
-- the new node.
pub evenly_distribute_pairs_lem :
    (cmp : Bytes → Bytes → ℤ) (o : IsOrder cmp) (h : IxIndexHandle) (new origin : ℤ) (size : ℕ)
    → origin ≢ new
    → (h.nodes origin).num_key ≡ pos size
    → 0 < size
    → Sorted cmp (h.nodes origin).keys size
    → let after : ℤ → IxNodeHandle = (evenly_distribute_pairs h new origin).nodes in
      ((after origin).num_key ≡ pos (size / 2))
      × ((after new).num_key ≡ pos (size - size / 2))
      × ((k : Bytes)
          → (sign (cmp k ((after new).keys 0)) ≡ less
              → leaf_lookup cmp (after origin) k ≡ leaf_lookup cmp (h.nodes origin) k)
            × (sign (cmp k ((after new).keys 0)) ≢ less
                → leaf_lookup cmp (after new) k ≡ leaf_lookup cmp (h.nodes origin) k))
unfolding evenly_distribute_pairs
evenly_distribute_pairs_lem cmp o h new origin size apart e some_keys s =
    let n = h.nodes origin in
    let half = size / 2 in
    let w = halves-IsSplit (h.nodes new) n size e in
    let written = put_at h.nodes new (upper_half (h.nodes new) n) in
    let first : (upper_half (h.nodes new) n).keys 0 ≡ n.keys half =
      w.right_keys 0 (omega arith) ∙ ap n.keys (omega arith) in
    rw
      (
        put_at-same written origin (lower_half n),
        put_at-other written origin (lower_half n) new apart,
        put_at-same h.nodes new (upper_half (h.nodes new) n),
      )
      (
        w.left_size,
        w.right_size,
        λ k. (
          λ below.
              lookup_left cmp o n (lower_half n) (upper_half (h.nodes new) n) size half e s
                (omega arith) w k
                (not_after cmp o n.keys size half s k
                  (ap (λ x. sign (cmp k x)) (sym first) ∙ below)),
          λ not_below.
              lookup_right cmp o n (lower_half n) (upper_half (h.nodes new) n) size half e s
                (omega arith) w k
                (not_before cmp o n.keys size half s k (omega arith)
                  (λ q. not_below (ap (λ x. sign (cmp k x)) first ∙ q))),
        ),
      )
