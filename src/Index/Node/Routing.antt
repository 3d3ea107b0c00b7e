-- ===== src/Index/Node/Routing.antt =====
-- `InternalLookup` in a node into which a pair has been put: where a key is led to.
use native.Mathlib.Decide.{dec_lt}
use rubcase_lab.Base.{ℕ, suc, ◌≤◌, ◌<◌, ◌≡◌, ◌≢◌, refl, ap, sym, ◌∙◌, ◌⊎◌, inl, inr, arith}
use rubcase_lab.Base.Int.{ℤ, pos}
use rubcase_lab.Storage.Page.{Bytes}
use rubcase_lab.Index.Compare.{less, same, more, sign, IsOrder}
use rubcase_lab.Defs.{Rid}
use rubcase_lab.Index.Node.{IxNodeHandle, lower_bound, internal_lookup, insert}
use rubcase_lab.Index.Node.Search.{Sorted, lower_bound_lem, internal_lookup_lem}
use rubcase_lab.Index.Node.Insert.{Inserted, insert-Inserted, Inserted-Sorted, Inserted-cases}

module _ (cmp : Bytes → Bytes → ℤ) (o : IsOrder cmp) where
  -- The slot whose child a key is led to.
  pub record Leads (n : IxNodeHandle) (size : ℕ) (k : Bytes) (i : ℕ) : Type 0 where
    pub inside : i < size
    pub from : (i ≡ 0) ⊎ (sign (cmp k (n.keys i)) ≢ less)
    pub after : (j : ℕ) → i < j → j < size → sign (cmp k (n.keys j)) ≡ less

  Leads-le :
      (n : IxNodeHandle) (size : ℕ) (k : Bytes) (i j : ℕ)
      → Leads n size k i
      → Leads n size k j
      → ¬ (i < j)
  Leads-le n size k i j a b lt = elim b.from [
    | inl first ↦ omega arith
    | inr not_less ↦ not_less (a.after j lt b.inside)
  ]

  pub Leads-unique :
      (n : IxNodeHandle) (size : ℕ) (k : Bytes) (i j : ℕ)
      → Leads n size k i
      → Leads n size k j
      → i ≡ j
  Leads-unique n size k i j a b =
      let le = Leads-le n size k i j a b in let ge = Leads-le n size k j i b a in omega arith

  pub internal_lookup-Leads :
      (n : IxNodeHandle) (size : ℕ)
      → n.num_key ≡ pos size
      → Sorted cmp n.keys size
      → (k : Bytes) (i : ℕ) → Leads n size k i
      → internal_lookup cmp n k ≡ (n.rids i).page_no
  internal_lookup-Leads n size e s k i a =
      let (j, inside, leads, from, after) =
        internal_lookup_lem cmp o n size e s k (let lt = a.inside in omega arith) in
      let there : j ≡ i =
        Leads-unique n size k j i (record { inside = inside; from = from; after = after }) a in
      leads ∙ ap (λ x. (n.rids x).page_no) there

  module _ (n m : IxNodeHandle) (size : ℕ) (e : n.num_key ≡ pos size) (s : Sorted cmp n.keys size)
      (key : Bytes) (value : Rid) (w : Inserted n m size (lower_bound cmp n key) key value)
      (fresh : (j : ℕ) → j < size → sign (cmp key (n.keys j)) ≢ same) where
    abbrev r : ℕ
    r = lower_bound cmp n key

    sorted : Sorted cmp m.keys (suc size)
    sorted = Inserted-Sorted cmp o n m size e s key value w fresh

    key_below : (j : ℕ) → r ≤ j → j < size → sign (cmp key (n.keys j)) ≡ less
    key_below j h q =
        let (bounded, left, right) = lower_bound_lem cmp o n size e s key in
        ground (arith, right j h q, fresh j q)

    fits : r ≤ size
    fits = (lower_bound_lem cmp o n size e s key).0

    -- A key below the new one is led where it was, if a key stands before the new one.
    below-Leads :
        (k : Bytes) (i : ℕ)
        → 0 < r
        → sign (cmp k key) ≡ less
        → Leads n size k i
        → (i < r) × Leads m (suc size) k i
    below-Leads k i some_before k_below a = elim (dec_lt i r) [
      | no ge ↦ absurd (elim a.from [
        | inl first ↦ omega arith
        | inr not_less ↦
            not_less (o.less_trans k key (n.keys i) k_below (key_below i (omega arith) a.inside))
      ])
      | yes lt ↦ (
        lt,
        record {
          inside = (let q = a.inside in omega arith);
          from = elim a.from [
            | inl first ↦ inl first
            | inr not_less ↦ inr (rw (w.key_before i lt) not_less)
          ];
          after = λ j gt q. elim (Inserted-cases cmp o n m size e s key value w fresh j q) [
            | inl (p, q') ↦ rw (w.key_before j p) (a.after j gt q')
            | inr (inl p) ↦ rw (p, w.key_there) k_below
            | inr (inr (l, p, q', u)) ↦ rw (u, w.key_behind l p q') (a.after l (omega arith) q')
          ];
        },
      )
    ]

    -- A key not below the new one and below those behind it is led to the new child.
    new-Leads :
        (k : Bytes)
        → sign (cmp k key) ≢ less
        → ((j : ℕ) → r ≤ j → j < size → sign (cmp k (n.keys j)) ≡ less)
        → Leads m (suc size) k r
    new-Leads k not_below rest = record {
      inside = (let q = fits in omega arith);
      from = inr (rw (w.key_there) not_below);
      after = λ j gt q. elim (Inserted-cases cmp o n m size e s key value w fresh j q) [
        | inl (p, q') ↦ absurd (omega arith)
        | inr (inl p) ↦ absurd (omega arith)
        | inr (inr (l, p, q', u)) ↦ rw (u, w.key_behind l p q') (rest l p q')
      ];
    }

    -- A key that is led behind the new pair is led to the same child, one slot on.
    behind-Leads :
        (k : Bytes) (i : ℕ)
        → r ≤ i
        → sign (cmp k (n.keys i)) ≢ less
        → Leads n size k i
        → Leads m (suc size) k (suc i)
    behind-Leads k i h not_below a = record {
      inside = (let q = a.inside in omega arith);
      from = inr (rw (w.key_behind i h a.inside) not_below);
      after = λ j gt q. elim (Inserted-cases cmp o n m size e s key value w fresh j q) [
        | inl (p, q') ↦ absurd (omega arith)
        | inr (inl p) ↦ absurd (omega arith)
        | inr (inr (l, p, q', u)) ↦ rw (u, w.key_behind l p q') (a.after l (omega arith) q')
      ];
    }

    -- A key below the new one is led to the new child, if the new one is the first.
    first-Leads : (k : Bytes) → r ≡ 0 → sign (cmp k key) ≡ less → Leads m (suc size) k r
    first-Leads k first k_below = record {
      inside = (let q = fits in omega arith);
      from = inl first;
      after = λ j gt q. elim (Inserted-cases cmp o n m size e s key value w fresh j q) [
        | inl (p, q') ↦ absurd (omega arith)
        | inr (inl p) ↦ absurd (omega arith)
        | inr (inr (l, p, q', u)) ↦
            rw (u, w.key_behind l p q') (o.less_trans k key (n.keys l) k_below (key_below l p q'))
      ];
    }

module _ (cmp : Bytes → Bytes → ℤ) (o : IsOrder cmp) (n : IxNodeHandle) (size : ℕ)
    (e : n.num_key ≡ pos size) (s : Sorted cmp n.keys size) (key : Bytes) (value : Rid)
    (some_keys : 0 < size) (fresh : (j : ℕ) → j ≤ size → sign (cmp key (n.keys j)) ≢ same) where
  leads :
      (k : Bytes)
      → (i : ℕ) × Leads cmp o n size k i × (internal_lookup cmp n k ≡ (n.rids i).page_no)
  leads k =
      let (i, inside, there, from, after) = internal_lookup_lem cmp o n size e s k some_keys in
      (i, record { inside = inside; from = from; after = after }, there)

  -- An internal node after `Insert` of a new key with a child, where the key lies above the first: a
  -- key below the new one is led where it was, a key not below it but below every larger key of the
  -- node is led to the new child, and a key not below one of those larger keys is led where it was.
  pub insert_routes :
      sign (cmp key (n.keys 0)) ≡ more
      → let m : IxNodeHandle = (insert cmp n key value).0 in
        (k : Bytes)
        → (sign (cmp k key) ≡ less → internal_lookup cmp m k ≡ internal_lookup cmp n k)
          × (sign (cmp k key) ≢ less
              → ((j : ℕ)
                  → j < size
                  → sign (cmp key (n.keys j)) ≡ less
                  → sign (cmp k (n.keys j)) ≡ less)
              → internal_lookup cmp m k ≡ value.page_no)
          × ((j : ℕ)
              → j < size
              → sign (cmp key (n.keys j)) ≡ less
              → sign (cmp k (n.keys j)) ≢ less
              → internal_lookup cmp m k ≡ internal_lookup cmp n k)
  insert_routes above_first k =
      let (bounded, left, right) = lower_bound_lem cmp o n size e s key in
      let r = lower_bound cmp n key in
      let some_before : 0 < r = ground (arith, right 0) in
      let m = (insert cmp n key value).0 in
      let (w, returned) = insert-Inserted cmp o n size e s key value (fresh r bounded) in
      let absent : (j : ℕ) → j < size → sign (cmp key (n.keys j)) ≢ same =
        (λ j p. fresh j (omega arith)) in
      let s' = Inserted-Sorted cmp o n m size e s key value w absent in
      let lookup = internal_lookup-Leads cmp o m (suc size) w.longer s' k in
      let (i, a, there) = leads k in
      (
        λ k_below.
            let (lt, b) =
              below-Leads cmp o n m size e s key value w absent k i some_before k_below a in
            lookup i b ∙ ap (λ x. x.page_no) (w.rid_before i lt) ∙ sym there,
        λ not_below rest.
            lookup r (
              new-Leads cmp o n m size e s key value w absent k not_below
                (λ j p q. rest j q (key_below cmp o n m size e s key value w absent j p q)))
            ∙ ap (λ x. x.page_no) (w.rid_there),
        λ j p key_less k_not.
            let late : r ≤ j = ground (arith, left j) in
            let later : j ≤ i = ground (arith, a.after j) in
            let k_not_i : sign (cmp k (n.keys i)) ≢ less = elim a.from [
              | inl first ↦ absurd (omega arith)
              | inr not_less ↦ not_less
            ] in
            let b =
              behind-Leads cmp o n m size e s key value w absent k i (omega arith) k_not_i a in
            lookup (suc i) b
            ∙ ap (λ x. x.page_no) (w.rid_behind i (omega arith) a.inside)
            ∙ sym there,
      )

  -- A key below the first key of an internal node is led to its first child.
  pub internal_lookup-first :
      (k : Bytes) → sign (cmp k (n.keys 0)) ≡ less → internal_lookup cmp n k ≡ (n.rids 0).page_no
  internal_lookup-first k below = internal_lookup-Leads cmp o n size e s k 0 (record {
    inside = some_keys;
    from = inl refl;
    after = λ j gt q. o.less_trans k (n.keys 0) (n.keys j) below (s 0 j gt q);
  })

  -- An internal node after `Insert` of a key with a child, where the key lies below all keys of the
  -- node: the pair is the first, so that every key below the new one is led to the new child.
  pub insert_misroutes :
      sign (cmp key (n.keys 0)) ≡ less
      → let m : IxNodeHandle = (insert cmp n key value).0 in
        (k : Bytes) → sign (cmp k key) ≡ less → internal_lookup cmp m k ≡ value.page_no
  insert_misroutes below_first k k_below =
      let (bounded, left, right) = lower_bound_lem cmp o n size e s key in
      let r = lower_bound cmp n key in
      let first : r ≡ 0 = ground (arith, left 0) in
      let m = (insert cmp n key value).0 in
      let (w, returned) = insert-Inserted cmp o n size e s key value (fresh r bounded) in
      let absent : (j : ℕ) → j < size → sign (cmp key (n.keys j)) ≢ same =
        (λ j p. fresh j (omega arith)) in
      let s' = Inserted-Sorted cmp o n m size e s key value w absent in
      internal_lookup-Leads cmp o m (suc size) w.longer s' k r
        (first-Leads cmp o n m size e s key value w absent k first k_below)
      ∙ ap (λ x. x.page_no) (w.rid_there)
