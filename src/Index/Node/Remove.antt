-- ===== src/Index/Node/Remove.antt =====
-- `Remove` of a key: the node as a map from keys to rids.
use native.Mathlib.Decide.{dec_lt, ℕ_discrete}
use rubcase_lab.Base.{
  ℕ, zero, suc, ◌+◌, ◌-◌, ◌≤◌, ◌<◌, ◌≡◌, ◌≢◌, refl, ap, sym, ◌∙◌, inl, inr, ◌&&◌, ltb, leb,
  if◌then◌else◌, Option, none, some, arith, Bool-cases, update,
}
use rubcase_lab.Base.Int.{ℤ, pos}
use rubcase_lab.Storage.Page.{Bytes}
use rubcase_lab.Index.Compare.{same, more, sign, IsOrder}
use rubcase_lab.Defs.{Rid}
use rubcase_lab.Index.Node.{
  IxNodeHandle, count, is_zero, pred_int, shift_down, erase_pair, lower_bound, leaf_lookup, remove,
}
use rubcase_lab.Index.Node.Search.{
  Sorted, Finds, Finds-unique, lower_bound_lem, leaf_lookup-Finds, is_zero-same, same-is_zero,
  lower_bound-hit, lower_bound-end, leaf_lookup-end, same_place,
}

-- One round of the loop of `erase_pair`, then the rest, on one of the arrays.
shift_slot :
    {A : Type 0} (a : ℕ → A) (rounds i j : ℕ)
    → (if leb (i + 1) j && ltb j (i + 1 + rounds)
        then update a i (a (i + 1)) (j + 1)
        else update a i (a (i + 1)) j)
      ≡ (if leb i j && ltb j (i + suc rounds) then a (j + 1) else a j)
shift_slot a rounds i j = elim (ℕ_discrete i j) [
  | yes p ↦ rw p (ground arith)
  | no p ↦ ground arith
]

shift_down-keys :
    (rounds i j : ℕ) (n : IxNodeHandle)
    → (shift_down rounds i n).keys j
      ≡ (if leb i j && ltb j (i + rounds) then n.keys (j + 1) else n.keys j)
unfolding shift_down
shift_down-keys zero i j n = ground arith
shift_down-keys (suc rounds) i j n =
    shift_down-keys rounds (i + 1) j (record n {
      keys = update n.keys i (n.keys (i + 1));
      rids = update n.rids i (n.rids (i + 1));
    })
    ∙ shift_slot n.keys rounds i j

shift_down-rids :
    (rounds i j : ℕ) (n : IxNodeHandle)
    → (shift_down rounds i n).rids j
      ≡ (if leb i j && ltb j (i + rounds) then n.rids (j + 1) else n.rids j)
unfolding shift_down
shift_down-rids zero i j n = ground arith
shift_down-rids (suc rounds) i j n =
    shift_down-rids rounds (i + 1) j (record n {
      keys = update n.keys i (n.keys (i + 1));
      rids = update n.rids i (n.rids (i + 1));
    })
    ∙ shift_slot n.rids rounds i j

-- `n` without the pair at place `p`.
record Removed (n m : IxNodeHandle) (size p : ℕ) : Type 0 where
  shorter : m.num_key ≡ pos size
  key_before : (i : ℕ) → i < p → m.keys i ≡ n.keys i
  rid_before : (i : ℕ) → i < p → m.rids i ≡ n.rids i
  key_behind : (i : ℕ) → p ≤ i → i < size → m.keys i ≡ n.keys (suc i)
  rid_behind : (i : ℕ) → p ≤ i → i < size → m.rids i ≡ n.rids (suc i)

moved :
    {A : Type 0} (a : ℕ → A) (rounds i : ℕ) {p : ℕ}
    → i < p + rounds
    → p ≤ i
    → (if leb p i && ltb i (p + rounds) then a (i + 1) else a i) ≡ a (suc i)
moved a rounds i h q = let next : i + 1 ≡ suc i = omega arith in ground (arith, ap a next)

erase_pair-Removed :
    (n : IxNodeHandle) (size p : ℕ)
    → n.num_key ≡ pos (suc size)
    → p ≤ size
    → Removed n (erase_pair n p) size p
unfolding erase_pair
erase_pair-Removed n size p e h =
    let rounds = count n.num_key - p in
    let keys_count : count n.num_key ≡ suc size = ap count e in
    record {
      shorter = ap pred_int e;
      key_before = λ i lt. shift_down-keys rounds p i n ∙ ground arith;
      rid_before = λ i lt. shift_down-rids rounds p i n ∙ ground arith;
      key_behind = λ i le lt. shift_down-keys rounds p i n ∙ moved n.keys rounds i (omega arith) le;
      rid_behind = λ i le lt. shift_down-rids rounds p i n ∙ moved n.rids rounds i (omega arith) le;
    }

-- Behind the last key there is nothing to shift: only the count goes down.
erase_pair-end :
    (n : IxNodeHandle) (size : ℕ)
    → n.num_key ≡ pos (suc size)
    → erase_pair n (suc size) ≡ record n { num_key = pos size }
unfolding erase_pair shift_down
erase_pair-end n size e =
    let keys_count : count n.num_key ≡ suc size = ap count e in
    let no_rounds : count n.num_key - suc size ≡ 0 = omega arith in
    rw no_rounds (ap (λ z. record n { num_key = z }) (ap pred_int e))

module _ (cmp : Bytes → Bytes → ℤ) (o : IsOrder cmp) (n m : IxNodeHandle) (size p : ℕ)
    (s : Sorted cmp n.keys (suc size)) (within : p ≤ size) (w : Removed n m size p) where
  -- The slot of the longer node that slot `i` of the shorter one comes from.
  origin :
      (i : ℕ)
      → i < size
      → (j : ℕ) × (j < suc size)
        × (j ≢ p)
        × (m.keys i ≡ n.keys j)
        × (m.rids i ≡ n.rids j)
        × (j ≡ (if ltb i p then i else suc i))
  origin i h = elim (dec_lt i p) [
    | yes lt ↦ (i, omega arith, omega arith, w.key_before i lt, w.rid_before i lt, ground arith)
    | no ge ↦ (
      suc i,
      omega arith,
      omega arith,
      w.key_behind i (omega arith) h,
      w.rid_behind i (omega arith) h,
      ground arith,
    )
  ]

  Removed-Sorted : Sorted cmp m.keys size
  Removed-Sorted a b lt h =
      let (i, i_in, i_not, i_key, i_rid, i_is) = origin a (omega arith) in
      let (j, j_in, j_not, j_key, j_rid, j_is) = origin b h in
      rw (i_key, j_key) (s i j (ground arith) j_in)

  -- What a lookup in `n` finds for a key other than the removed one, it finds in `m`.
  Removed-Finds :
      (other : Bytes) (result : Option Rid)
      → sign (cmp other (n.keys p)) ≢ same
      → Finds cmp n (suc size) other result
      → Finds cmp m size other result
  Removed-Finds other none differ f =
      λ j h. let (i, i_in, i_not, i_key, i_rid, i_is) = origin j h in rw i_key (f i i_in)
  Removed-Finds other (some r) differ (j, h, hit, u) = elim (dec_lt j p) [
    | yes lt ↦ (j, omega arith, rw (w.key_before j lt) hit, w.rid_before j lt ∙ u)
    | no ge ↦ elim (ℕ_discrete j p) [
      | yes there ↦ absurd (differ (rw (sym there) hit))
      | no away ↦
          let back : suc (j - 1) ≡ j = omega arith in
          let later : p ≤ j - 1 = omega arith in
          let inside : j - 1 < size = omega arith in
          (
            j - 1,
            inside,
            rw (w.key_behind (j - 1) later inside ∙ ap n.keys back) hit,
            w.rid_behind (j - 1) later inside ∙ ap n.rids back ∙ u,
          )
    ]
  ]

module _ (cmp : Bytes → Bytes → ℤ) (o : IsOrder cmp) (n : IxNodeHandle) (size : ℕ)
    (e : n.num_key ≡ pos (suc size)) (s : Sorted cmp n.keys (suc size)) (key : Bytes) where
  remove_hit :
      sign (cmp key (n.keys (lower_bound cmp n key))) ≡ same
      → remove cmp n key
        ≡ (erase_pair n (lower_bound cmp n key), (erase_pair n (lower_bound cmp n key)).num_key)
  unfolding remove
  remove_hit hit =
      let zero_there = same-is_zero (cmp key (n.keys (lower_bound cmp n key))) hit in
      rw zero_there refl

  linked :
      (r : ℕ)
      → sign (cmp key (n.keys r)) ≡ same
      → (other : Bytes) → sign (cmp other (n.keys r)) ≡ same
      → sign (cmp other key) ≡ same
  linked r hit other q =
      ground
        (arith, o.same_left key (n.keys r) other hit, o.flip other (n.keys r), o.flip key other)

  gone :
      (j : ℕ)
      → j < suc size
      → sign (cmp key (n.keys j)) ≡ same
      → {m : IxNodeHandle} (r : ℕ) → r ≡ j
      → Removed n m size r
      → (i : ℕ) → i < size
      → sign (cmp key (m.keys i)) ≢ same
  gone j h hit {m} r at w i p q =
      let (k, k_in, k_not, k_key, k_rid, k_is) = origin cmp o n m size r s (omega arith) w i p in
      k_not (same_place cmp o n (suc size) e s key k j k_in h (rw⁻¹ k_key q) hit ∙ sym at)

  -- `Remove` of a key that slot `j` of the node holds: the node has one key less, the keys still rise,
  -- the key is not found any more, and every other key is found or not as before. The size is
  -- returned.
  pub remove_lem :
      (j : ℕ)
      → j < suc size
      → sign (cmp key (n.keys j)) ≡ same
      → let m : IxNodeHandle = (remove cmp n key).0 in
        (m.num_key ≡ pos size)
        × ((remove cmp n key).1 ≡ pos size)
        × Sorted cmp m.keys size
        × (leaf_lookup cmp m key ≡ none)
        × ((other : Bytes)
            → sign (cmp other key) ≢ same
            → leaf_lookup cmp m other ≡ leaf_lookup cmp n other)
  remove_lem j h hit =
      let r = lower_bound cmp n key in
      let at : r ≡ j = lower_bound-hit cmp o n (suc size) e s key j h hit in
      let hit_there : sign (cmp key (n.keys r)) ≡ same = rw at hit in
      let m = erase_pair n r in
      let w = erase_pair-Removed n size r e (omega arith) in
      let s' = Removed-Sorted cmp o n m size r s (omega arith) w in
      rw (remove_hit hit_there) (
        w.shorter,
        w.shorter,
        s',
        Finds-unique cmp o m size w.shorter s' key (leaf_lookup cmp m key) none
            (leaf_lookup-Finds cmp o m size w.shorter s' key) (λ i p q. gone j h hit r at w i p q),
        λ other differ.
            Finds-unique cmp o m size w.shorter s' other (leaf_lookup cmp m other)
              (leaf_lookup cmp n other) (leaf_lookup-Finds cmp o m size w.shorter s' other)
              (Removed-Finds cmp o n m size r s (omega arith) w other (leaf_lookup cmp n other)
                (λ q. differ (linked r hit_there other q))
                (leaf_lookup-Finds cmp o n (suc size) e s other)),
      )

  -- `Remove` of a key above all keys of the node, when the bytes behind the last key happen to compare
  -- equal to it: the count drops by one, so the largest key is lost, though the node does not hold
  -- the key to remove.
  pub remove_drops_last :
      ((j : ℕ) → j < suc size → sign (cmp key (n.keys j)) ≡ more)
      → sign (cmp key (n.keys (suc size))) ≡ same
      → (leaf_lookup cmp n key ≡ none)
        × ((remove cmp n key).1 ≡ pos size)
        × ((j : ℕ) → j < size → (remove cmp n key).0.keys j ≡ n.keys j)
        × (leaf_lookup cmp (remove cmp n key).0 (n.keys size) ≡ none)
  remove_drops_last all_more stale =
      let at_end : lower_bound cmp n key ≡ suc size =
        lower_bound-end cmp o n (suc size) e s key all_more in
      let m : IxNodeHandle = record n { num_key = pos size } in
      let dropped : remove cmp n key ≡ (m, pos size) =
        remove_hit (rw at_end stale)
        ∙ ap (λ x. (x, x.num_key)) (ap (erase_pair n) at_end ∙ erase_pair-end n size e) in
      let sorted : Sorted cmp n.keys size = λ i j p q. s i j p (omega arith) in
      rw dropped (
        leaf_lookup-end cmp o n (suc size) e s key all_more,
        refl,
        λ j p. refl,
        leaf_lookup-end cmp o m size refl sorted (n.keys size)
            (λ j p. ground (arith, s j size p (omega arith), o.flip (n.keys j) (n.keys size))),
      )

  -- `Remove` of a key that no slot up to the one behind the last key holds changes nothing.
  pub remove_absent :
      ((j : ℕ) → j ≤ suc size → sign (cmp key (n.keys j)) ≢ same)
      → remove cmp n key ≡ (n, pos (suc size))
  unfolding remove
  remove_absent fresh =
      let (bounded, left, right) = lower_bound_lem cmp o n (suc size) e s key in
      let r = lower_bound cmp n key in
      elim (Bool-cases (is_zero (cmp key (n.keys r)))) [
        | inl hit ↦ absurd (fresh r bounded (is_zero-same (cmp key (n.keys r)) hit))
        | inr other ↦ rw other (ap (λ z. (n, z)) e)
      ]
