-- ===== src/Index/Node/Insert.antt =====
-- `Insert` of a key and its value: the node as a map from keys to rids.
use native.Mathlib.Decide.{dec_lt}
use rubcase_lab.Base.{
  ℕ, suc, ◌+◌, ◌-◌, ◌≤◌, ◌<◌, ◌≡◌, ◌≢◌, ap, ◌∙◌, ◌⊎◌, inl, inr, true, leb, Option, none, some,
  arith, Bool-cases,
}
use rubcase_lab.Base.Int.{ℤ, pos}
use rubcase_lab.Storage.Page.{Bytes}
use rubcase_lab.Index.Compare.{less, same, more, sign, IsOrder}
use rubcase_lab.Defs.{Rid}
use rubcase_lab.Index.Node.{
  IxNodeHandle, is_zero, move, copy, insert_pairs, insert_pair, lower_bound, leaf_lookup, insert,
}
use rubcase_lab.Index.Node.Search.{
  Sorted, Finds, Finds-unique, lower_bound_lem, leaf_lookup-Finds, is_zero-same, same-is_zero,
  lower_bound-hit, lower_bound-end, leaf_lookup-end,
}

-- A slot after one pair has gone in at `p`.
module _ {A : Type 0} (a b : ℕ → A) (p size : ℕ) where
  before : (i : ℕ) → i < p → copy (move a (p + 1) p (size - p)) p b 1 i ≡ a i
  before i h = ground arith

  at_place : copy (move a (p + 1) p (size - p)) p b 1 p ≡ b 0
  at_place = ground arith

  behind : (i : ℕ) → p ≤ i → i < size → copy (move a (p + 1) p (size - p)) p b 1 (suc i) ≡ a i
  behind i h q = let back : p + (suc i - (p + 1)) ≡ i = omega arith in ground (arith, ap a back)

-- `n` with a pair put in at place `p`.
pub record Inserted (n m : IxNodeHandle) (size p : ℕ) (key : Bytes) (value : Rid) : Type 0 where
  pub longer : m.num_key ≡ pos (suc size)
  pub key_before : (i : ℕ) → i < p → m.keys i ≡ n.keys i
  pub rid_before : (i : ℕ) → i < p → m.rids i ≡ n.rids i
  pub key_there : m.keys p ≡ key
  pub rid_there : m.rids p ≡ value
  pub key_behind : (i : ℕ) → p ≤ i → i < size → m.keys (suc i) ≡ n.keys i
  pub rid_behind : (i : ℕ) → p ≤ i → i < size → m.rids (suc i) ≡ n.rids i

insert_pair-Inserted :
    (n : IxNodeHandle) (size p : ℕ) (key : Bytes) (value : Rid)
    → n.num_key ≡ pos size
    → p ≤ size
    → Inserted n (insert_pair n p key value) size p key value
unfolding insert_pair insert_pairs
insert_pair-Inserted n size p key value e h =
    let fits : leb p size ≡ true = ground arith in
    let grow = size - p in
    rw (e, fits, insert_pair)
      (record {
        longer = ground arith;
        key_before = before n.keys (λ _. key) p size;
        rid_before = before n.rids (λ _. value) p size;
        key_there = at_place n.keys (λ _. key) p size;
        rid_there = at_place n.rids (λ _. value) p size;
        key_behind = behind n.keys (λ _. key) p size;
        rid_behind = behind n.rids (λ _. value) p size;
      })

module _ (cmp : Bytes → Bytes → ℤ) (o : IsOrder cmp) (n m : IxNodeHandle) (size : ℕ)
    (e : n.num_key ≡ pos size) (s : Sorted cmp n.keys size) (key : Bytes) (value : Rid)
    (i : Inserted n m size (lower_bound cmp n key) key value)
    (fresh : (j : ℕ) → j < size → sign (cmp key (n.keys j)) ≢ same) where
  below : (j : ℕ) → j < lower_bound cmp n key → sign (cmp (n.keys j) key) ≡ less
  below j h =
      let (bounded, left, right) = lower_bound_lem cmp o n size e s key in
      ground (arith, left j h, o.flip key (n.keys j))

  above : (j : ℕ) → lower_bound cmp n key ≤ j → j < size → sign (cmp key (n.keys j)) ≡ less
  above j h q =
      let (bounded, left, right) = lower_bound_lem cmp o n size e s key in
      ground (arith, right j h q, fresh j q)

  -- A slot of the longer node: before the new pair, the new pair, or behind it.
  pub Inserted-cases :
      (j : ℕ)
      → j < suc size
      → ((j < lower_bound cmp n key) × (j < size))
        ⊎ ((j ≡ lower_bound cmp n key)
            ⊎ ((k : ℕ) × (lower_bound cmp n key ≤ k) × (k < size) × (j ≡ suc k)))
  Inserted-cases j h =
      let (bounded, left, right) = lower_bound_lem cmp o n size e s key in
      let r = lower_bound cmp n key in
      elim (dec_lt j r) [
        | yes lt ↦ inl (lt, omega arith)
        | no ge ↦ elim (dec_lt r j) [
          | yes gt ↦ inr (inr (j - 1, omega arith, omega arith, omega arith))
          | no le ↦ inr (inl (omega arith))
        ]
      ]

  pub Inserted-Sorted : Sorted cmp m.keys (suc size)
  Inserted-Sorted a b lt h = elim (Inserted-cases a (omega arith)) [
    | inl (p, q) ↦ elim (Inserted-cases b h) [
      | inl (p', q') ↦ rw (i.key_before a p, i.key_before b p') (s a b lt q')
      | inr (inl p') ↦ rw (i.key_before a p, p', i.key_there) (below a p)
      | inr (inr (k, p', q', u)) ↦
          rw (i.key_before a p, u, i.key_behind k p' q') (s a k (omega arith) q')
    ]
    | inr (inl p) ↦ elim (Inserted-cases b h) [
      | inl (p', q') ↦ absurd (omega arith)
      | inr (inl p') ↦ absurd (omega arith)
      | inr (inr (k, p', q', u)) ↦ rw (p, i.key_there, u, i.key_behind k p' q') (above k p' q')
    ]
    | inr (inr (l, p, q, v)) ↦ elim (Inserted-cases b h) [
      | inl (p', q') ↦ absurd (omega arith)
      | inr (inl p') ↦ absurd (omega arith)
      | inr (inr (k, p', q', u)) ↦
          rw (v, i.key_behind l p q, u, i.key_behind k p' q') (s l k (omega arith) q')
    ]
  ]

  -- What a lookup in `n` finds for another key, it finds in `m`.
  Inserted-Finds :
      (other : Bytes) (result : Option Rid)
      → sign (cmp other key) ≢ same
      → Finds cmp n size other result
      → Finds cmp m (suc size) other result
  Inserted-Finds other none differ f = λ j h. elim (Inserted-cases j h) [
    | inl (p, q) ↦ rw (i.key_before j p) (f j q)
    | inr (inl p) ↦ rw (p, i.key_there) differ
    | inr (inr (k, p, q, u)) ↦ rw (u, i.key_behind k p q) (f k q)
  ]
  Inserted-Finds other (some r) differ (j, h, hit, u) = elim (dec_lt j (lower_bound cmp n key)) [
    | yes p ↦ (j, omega arith, rw (i.key_before j p) hit, i.rid_before j p ∙ u)
    | no p ↦
        let later : lower_bound cmp n key ≤ j = omega arith in
        (suc j, omega arith, rw (i.key_behind j later h) hit, i.rid_behind j later h ∙ u)
  ]

  Inserted-Finds_key : Finds cmp m (suc size) key (some value)
  Inserted-Finds_key =
      let (bounded, left, right) = lower_bound_lem cmp o n size e s key in
      (lower_bound cmp n key, omega arith, rw (i.key_there) (o.same_self key), i.rid_there)

module _ (cmp : Bytes → Bytes → ℤ) (o : IsOrder cmp) (n : IxNodeHandle) (size : ℕ)
    (e : n.num_key ≡ pos size) (s : Sorted cmp n.keys size) (key : Bytes) (value : Rid) where
  -- Where the slot at the lower bound holds another key, `Insert` puts the pair there.
  pub insert-Inserted :
      sign (cmp key (n.keys (lower_bound cmp n key))) ≢ same
      → (Inserted n (insert cmp n key value).0 size (lower_bound cmp n key) key value)
        × ((insert cmp n key value).1 ≡ pos (suc size))
  unfolding insert
  insert-Inserted differ =
      let (bounded, left, right) = lower_bound_lem cmp o n size e s key in
      let w = insert_pair-Inserted n size (lower_bound cmp n key) key value e bounded in
      elim (Bool-cases (is_zero (cmp key (n.keys (lower_bound cmp n key))))) [
        | inl hit ↦ absurd (differ (is_zero-same (cmp key (n.keys (lower_bound cmp n key))) hit))
        | inr other ↦ rw other (w, w.longer)
      ]

  -- `Insert` of a key that no slot up to the one behind the last key holds: the node has one key more,
  -- the keys still rise, the key is found with its value, and every other key is found or not as
  -- before. The size is returned.
  pub insert_lem :
      ((j : ℕ) → j ≤ size → sign (cmp key (n.keys j)) ≢ same)
      → let m : IxNodeHandle = (insert cmp n key value).0 in
        (m.num_key ≡ pos (suc size))
        × ((insert cmp n key value).1 ≡ pos (suc size))
        × Sorted cmp m.keys (suc size)
        × (leaf_lookup cmp m key ≡ some value)
        × ((other : Bytes)
            → sign (cmp other key) ≢ same
            → leaf_lookup cmp m other ≡ leaf_lookup cmp n other)
  insert_lem fresh =
      let (bounded, left, right) = lower_bound_lem cmp o n size e s key in
      let m = (insert cmp n key value).0 in
      let (w, returned) = insert-Inserted (fresh (lower_bound cmp n key) bounded) in
      let absent : (j : ℕ) → j < size → sign (cmp key (n.keys j)) ≢ same =
        λ j p. fresh j (omega arith) in
      let s' = Inserted-Sorted cmp o n m size e s key value w absent in
      (
        w.longer,
        returned,
        s',
        Finds-unique cmp o m (suc size) w.longer s' key (leaf_lookup cmp m key) (some value)
            (leaf_lookup-Finds cmp o m (suc size) w.longer s' key)
            (Inserted-Finds_key cmp o n m size e s key value w absent),
        λ other differ.
            Finds-unique cmp o m (suc size) w.longer s' other (leaf_lookup cmp m other)
              (leaf_lookup cmp n other) (leaf_lookup-Finds cmp o m (suc size) w.longer s' other)
              (Inserted-Finds cmp o n m size e s key value w absent other (leaf_lookup cmp n other)
                differ (leaf_lookup-Finds cmp o n size e s other)),
      )

  insert_unchanged :
      sign (cmp key (n.keys (lower_bound cmp n key))) ≡ same
      → insert cmp n key value ≡ (n, pos size)
  unfolding insert
  insert_unchanged hit =
      let zero_there = same-is_zero (cmp key (n.keys (lower_bound cmp n key))) hit in
      rw zero_there (ap (λ z. (n, z)) e)

  -- `Insert` of a key that a slot of the node holds changes nothing and returns the size.
  pub insert_duplicate :
      (j : ℕ) → j < size → sign (cmp key (n.keys j)) ≡ same → insert cmp n key value ≡ (n, pos size)
  insert_duplicate j h hit =
      insert_unchanged (rw (lower_bound-hit cmp o n size e s key j h hit) hit)

  -- `Insert` of a key above all keys of the node, when the bytes behind the last key happen to compare
  -- equal to it: nothing is inserted, though the node does not hold the key.
  pub insert_refused :
      ((j : ℕ) → j < size → sign (cmp key (n.keys j)) ≡ more)
      → sign (cmp key (n.keys size)) ≡ same
      → (insert cmp n key value ≡ (n, pos size)) × (leaf_lookup cmp n key ≡ none)
  insert_refused all_more stale = (
    insert_unchanged (rw (lower_bound-end cmp o n size e s key all_more) stale),
    leaf_lookup-end cmp o n size e s key all_more,
  )
