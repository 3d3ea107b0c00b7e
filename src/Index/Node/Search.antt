-- ===== src/Index/Node/Search.antt =====
-- The binary searches in a node, and the lookups that rest on them.
use native.Mathlib.Decide.{dec_lt}
use rubcase_lab.Base.{
  ℕ, zero, suc, ◌+◌, ◌-◌, ◌/◌, ◌≤◌, ◌<◌, ◌≡◌, ◌≢◌, refl, ap, sym, ◌∙◌, ◌⊎◌, inl, inr, true, false,
  ltb, ◌==◌, Option, none, some, arith, Bool-cases, ltb→lt,
}
use rubcase_lab.Base.Int.{ℤ, pos, negsuc, ℤ-discrete}
use rubcase_lab.Storage.Page.{Bytes}
use rubcase_lab.Index.Compare.{less, same, more, sign, IsOrder}
use rubcase_lab.Defs.{Rid}
use rubcase_lab.Index.Node.{
  IxNodeHandle, count, is_zero, goes_right, bound_loop, lower_bound, upper_bound, locate_key_index,
  leaf_lookup, internal_lookup,
}

pub clash : true ≡ false → ⊥
clash e = cc

pub pos-inj : (a b : ℕ) → pos a ≡ pos b → a ≡ b
pos-inj a b e = ap count e

pub is_zero-same : (z : ℤ) → is_zero z ≡ true → sign z ≡ same
is_zero-same (pos n) h = ground arith
is_zero-same (negsuc n) h = ground arith

pub same-is_zero : (z : ℤ) → sign z ≡ same → is_zero z ≡ true
same-is_zero (pos n) h = ground arith
same-is_zero (negsuc n) h = ground arith

module _ (cmp : Bytes → Bytes → ℤ) where
  -- The keys rise strictly.
  abbrev pub Sorted : (ℕ → Bytes) → ℕ → Type 0
  Sorted keys size = (i j : ℕ) → i < j → j < size → sign (cmp (keys i) (keys j)) ≡ less

  -- `r` splits the keys into those on whose right the loop goes and the others.
  pub record Splits (op : ℕ) (target : Bytes) (keys : ℕ → Bytes) (size r : ℕ) : Type 0 where
    pub bounded : r ≤ size
    pub left : (i : ℕ) → i < r → goes_right cmp op (cmp target (keys i)) ≡ true
    pub right : (i : ℕ) → r ≤ i → i < size → goes_right cmp op (cmp target (keys i)) ≡ false

  module _ (op : ℕ) (target : Bytes) (keys : ℕ → Bytes) (size : ℕ) where
    -- Going right at a key is going right at every key before it.
    abbrev Falls : Type 0
    Falls =
        (i j : ℕ)
        → i < j
        → j < size
        → goes_right cmp op (cmp target (keys j)) ≡ true
        → goes_right cmp op (cmp target (keys i)) ≡ true

    not_right :
        (i j : ℕ)
        → Falls
        → j < i
        → i < size
        → goes_right cmp op (cmp target (keys j)) ≡ false
        → goes_right cmp op (cmp target (keys i)) ≡ false
    not_right i j falls p q h = elim (Bool-cases (goes_right cmp op (cmp target (keys i)))) [
      | inl up ↦ absurd (clash (sym (falls j i p q up) ∙ h))
      | inr down ↦ down
    ]

    bound_loop-Splits :
        (fuel left right : ℕ)
        → Falls
        → left ≤ right
        → right ≤ size
        → right - left ≤ fuel
        → ((i : ℕ) → i < left → goes_right cmp op (cmp target (keys i)) ≡ true)
        → ((i : ℕ) → right ≤ i → i < size → goes_right cmp op (cmp target (keys i)) ≡ false)
        → Splits op target keys size (bound_loop cmp op target keys fuel left right)
    unfolding bound_loop
    bound_loop-Splits zero l r falls lr rs enough below above = record {
      bounded = omega arith;
      left = below;
      right = λ i p q. above i (omega arith) q;
    }
    bound_loop-Splits (suc fuel) l r falls lr rs enough below above = elim (Bool-cases (ltb l r)) [
      | inr done ↦ rw done (record {
        bounded = omega arith;
        left = below;
        right = λ i p q. above i (ground arith) q;
      })
      | inl open_range ↦
          let mid = (l + r) / 2 in
          let lt : l < r = ltb→lt l r open_range in
          elim (Bool-cases (goes_right cmp op (cmp target (keys mid)))) [
            | inl up ↦
                rw (open_range, up)
                  (bound_loop-Splits fuel (mid + 1) r falls (omega arith) rs (omega arith)
                    (λ i p. elim (dec_lt i mid) [
                      | yes q ↦ falls i mid q (omega arith) up
                      | no q ↦ let e : mid ≡ i = omega arith in rw e at up
                    ])
                    above)
            | inr down ↦
                rw (open_range, down)
                  (bound_loop-Splits fuel l mid falls (omega arith) (omega arith) (omega arith)
                    below
                    (λ i p q. elim (dec_lt mid i) [
                      | yes s ↦ not_right i mid falls s q down
                      | no s ↦ let e : mid ≡ i = omega arith in rw e at down
                    ]))
          ]
    ]

  module _ (o : IsOrder cmp) (op : ℕ) (target : Bytes) where
    -- On sorted keys the loop of either search goes right up to one place.
    Sorted-Falls : (keys : ℕ → Bytes) (size : ℕ) → Sorted keys size → Falls op target keys size
    Sorted-Falls keys size s i j p q h = ground (
      arith,
      s i j p q,
      o.flip (keys i) (keys j),
      o.flip target (keys j),
      o.less_trans (keys i) (keys j) target,
      o.flip (keys i) target,
      o.same_left target (keys j) (keys i),
    )

  -- What a lookup may return: the rid of a slot whose key is the target, or nothing if there is none.
  abbrev pub Finds : IxNodeHandle → ℕ → Bytes → Option Rid → Type 0
  Finds n size key (some r) =
      (i : ℕ) × (i < size) × (sign (cmp key (n.keys i)) ≡ same) × (n.rids i ≡ r)
  Finds n size key none = (i : ℕ) → i < size → sign (cmp key (n.keys i)) ≢ same

  module _ (o : IsOrder cmp) (n : IxNodeHandle) (size : ℕ) (e : n.num_key ≡ pos size)
      (s : Sorted n.keys size) (key : Bytes) where
    -- `lower_bound` is the number of keys below the target: every key before it is smaller than the
    -- target, and none from it on is.
    pub lower_bound_lem :
        (lower_bound cmp n key ≤ size)
        × ((i : ℕ) → i < lower_bound cmp n key → sign (cmp key (n.keys i)) ≡ more)
        × ((i : ℕ) → lower_bound cmp n key ≤ i → i < size → sign (cmp key (n.keys i)) ≢ more)
    unfolding lower_bound
    lower_bound_lem =
        let w =
          bound_loop-Splits 1 key n.keys size size 0 size (Sorted-Falls o 1 key n.keys size s)
            (omega arith) (omega arith) (omega arith) (λ i p. absurd (omega arith))
            (λ i p q. absurd (omega arith)) in
        rw e (w.bounded, λ i p. ground (arith, w.left i), λ i p q. ground (arith, w.right i))

    -- `upper_bound` is the number of keys not above the target.
    pub upper_bound_lem :
        (upper_bound cmp n key ≤ size)
        × ((i : ℕ) → i < upper_bound cmp n key → sign (cmp key (n.keys i)) ≢ less)
        × ((i : ℕ) → upper_bound cmp n key ≤ i → i < size → sign (cmp key (n.keys i)) ≡ less)
    unfolding upper_bound
    upper_bound_lem =
        let w =
          bound_loop-Splits 0 key n.keys size size 0 size (Sorted-Falls o 0 key n.keys size s)
            (omega arith) (omega arith) (omega arith) (λ i p. absurd (omega arith))
            (λ i p q. absurd (omega arith)) in
        rw e (w.bounded, λ i p. ground (arith, w.left i), λ i p q. ground (arith, w.right i))

    -- Behind a key that the target lies below, the target lies below every key.
    pub less_after :
        (i j : ℕ)
        → i < j
        → j < size
        → sign (cmp key (n.keys i)) ≡ less
        → sign (cmp key (n.keys j)) ≡ less
    less_after i j p q h = o.less_trans key (n.keys i) (n.keys j) h (s i j p q)

    miss :
        let r : ℕ = lower_bound cmp n key in
        (r ≡ size) ⊎ (sign (cmp key (n.keys r)) ≢ same)
        → (i : ℕ) → i < size
        → sign (cmp key (n.keys i)) ≢ same
    miss h i p =
        let (bounded, left, right) = lower_bound_lem in
        let r = lower_bound cmp n key in ground (arith, left i, right r, less_after r i)

    locate_key_index-cases :
        let r : ℕ = lower_bound cmp n key in
        ((locate_key_index cmp n key ≡ none) × ((r ≡ size) ⊎ (sign (cmp key (n.keys r)) ≢ same)))
        ⊎ ((locate_key_index cmp n key ≡ some r) × (r < size) × (sign (cmp key (n.keys r)) ≡ same))
    unfolding locate_key_index
    locate_key_index-cases =
        let (bounded, left, right) = lower_bound_lem in
        let r = lower_bound cmp n key in
        elim (ℤ-discrete (pos r) n.num_key) [
          | yes last ↦ inl (ground arith, inl (pos-inj r size (last ∙ e)))
          | no before ↦
              let inside : r < size =
                (let differ : r ≢ size = (λ p. before (ap pos p ∙ sym e)) in omega arith) in
              elim (Bool-cases (is_zero (cmp key (n.keys r)))) [
                | inl hit ↦ inr (ground arith, inside, is_zero-same (cmp key (n.keys r)) hit)
                | inr other ↦ inl (
                  ground arith,
                  inr (λ p. clash (sym (same-is_zero (cmp key (n.keys r)) p) ∙ other)),
                )
              ]
        ]

    -- `LeafLookup` finds the rid of the key that equals the target, and finds none only where no key
    -- does.
    pub leaf_lookup-Finds : Finds n size key (leaf_lookup cmp n key)
    unfolding leaf_lookup
    leaf_lookup-Finds =
        let r = lower_bound cmp n key in
        elim locate_key_index-cases [
          | inl (none_there, why) ↦ rw (none_there, leaf_lookup, Finds) (miss why)
          | inr (there, inside, equal) ↦ rw (there, leaf_lookup, Finds) (r, inside, equal, refl)
        ]

    -- `InternalLookup` on a node with keys follows the last key that is not above the target, or the
    -- first key if all are above it.
    pub internal_lookup_lem :
        0 < size
        → (i : ℕ) × (i < size)
          × (internal_lookup cmp n key ≡ (n.rids i).page_no)
          × ((i ≡ 0) ⊎ (sign (cmp key (n.keys i)) ≢ less))
          × ((j : ℕ) → i < j → j < size → sign (cmp key (n.keys j)) ≡ less)
    unfolding internal_lookup
    internal_lookup_lem h =
        let (bounded, left, right) = upper_bound_lem in
        let r = upper_bound cmp n key in
        elim (Bool-cases (r == 0)) [
          | inl first ↦ (0, h, ground arith, inl refl, λ j p q. right j (ground arith) q)
          | inr later ↦ (
            r - 1,
            ground arith,
            ground arith,
            inr (left (r - 1) (ground arith)),
            λ j p q. right j (ground arith) q,
          )
        ]

    apart :
        (i j : ℕ)
        → i < j
        → j < size
        → sign (cmp key (n.keys i)) ≡ same
        → sign (cmp key (n.keys j)) ≢ same
    apart i j lt p q q' = ground (arith, s i j lt p, o.same_left key (n.keys i) (n.keys j) q, q')

    pub same_place :
        (i j : ℕ)
        → i < size
        → j < size
        → sign (cmp key (n.keys i)) ≡ same
        → sign (cmp key (n.keys j)) ≡ same
        → i ≡ j
    same_place i j p p' q q' = elim (dec_lt i j) [
      | yes lt ↦ absurd (apart i j lt p' q q')
      | no ge ↦ elim (dec_lt j i) [ yes lt ↦ absurd (apart j i lt p q' q) | no le ↦ omega arith ]
    ]

    -- Keys that rise strictly hold the target at most once, so a lookup has one answer.
    pub Finds-unique : (a b : Option Rid) → Finds n size key a → Finds n size key b → a ≡ b
    Finds-unique none none f g = refl
    Finds-unique none (some r) f (i, p, q, u) = absurd (f i p q)
    Finds-unique (some r) none (i, p, q, u) g = absurd (g i p q)
    Finds-unique (some r) (some t) (i, p, q, u) (j, p', q', u') =
        let one_place : i ≡ j = same_place i j p p' q q' in
        ap some (sym u ∙ ap n.rids one_place ∙ u')

    -- The lower bound of a key that a slot holds is that slot.
    pub lower_bound-hit :
        (j : ℕ) → j < size → sign (cmp key (n.keys j)) ≡ same → lower_bound cmp n key ≡ j
    lower_bound-hit j h hit =
        let (bounded, left, right) = lower_bound_lem in
        let r = lower_bound cmp n key in
        elim (dec_lt j r) [
          | yes lt ↦ absurd (ground (arith, left j lt))
          | no ge ↦ elim (dec_lt r j) [
            | yes lt ↦ absurd (
                ground (
                  arith,
                  right r,
                  s r j lt h,
                  o.same_left key (n.keys j) (n.keys r) hit,
                  o.flip (n.keys r) (n.keys j),
                ))
            | no le ↦ omega arith
          ]
        ]

    -- The lower bound of a key above all keys is the end of the node.
    pub lower_bound-end :
        ((j : ℕ) → j < size → sign (cmp key (n.keys j)) ≡ more) → lower_bound cmp n key ≡ size
    lower_bound-end all_more =
        let (bounded, left, right) = lower_bound_lem in
        let r = lower_bound cmp n key in
        elim (dec_lt r size) [
          | yes lt ↦ absurd (right r (omega arith) lt (all_more r lt))
          | no ge ↦ omega arith
        ]

    -- A key above all keys is not found.
    pub leaf_lookup-end :
        ((j : ℕ) → j < size → sign (cmp key (n.keys j)) ≡ more) → leaf_lookup cmp n key ≡ none
    leaf_lookup-end all_more =
        Finds-unique (leaf_lookup cmp n key) none leaf_lookup-Finds
          (λ j p. ground (arith, all_more j p))
