-- ===== src/Record/Scan/Next.antt =====
-- `RmScan::next` goes to the next record.
use native.Mathlib.Decide.{ℕ_discrete}
use rubcase_lab.Base.{
  ℕ, zero, suc, ◌+◌, ◌≤◌, ◌<◌, ◌≡◌, ◌⊎◌, inl, inr, refl, ◌∙◌, true, false, arith, ◌==◌, Bool-cases,
}
use rubcase_lab.Base.Int.{ℤ, pos, negsuc}
use rubcase_lab.Defs.{Rid}
use rubcase_lab.Replacer.Interface.{Replacer}
use rubcase_lab.Storage.DiskInterface.{DiskManager}
use rubcase_lab.Storage.Page.{Bytes}
use rubcase_lab.Storage.BufferPool.Invariant.{IsValid, view}
use rubcase_lab.Record.Bitmap.{after}
use rubcase_lab.Record.Bitmap.Scan.{First, next_bit-First}
use rubcase_lab.Record.Layout.{marked, next_marked, drop, bitmap_offset}
use rubcase_lab.Record.File.{
  RmFileHandle, RmOutcome, RmError, returns, throws, id_of, data_of, fetch_page_handle,
}
use rubcase_lab.Record.File.Reads.{fetched, RmOutcome-cases}
use rubcase_lab.Record.Scan.{no_rid, next_loop}

-- Where a search from slot `slot` of page `p` on looks in page `j`.
abbrev pub Ahead : ℕ → ℤ → ℕ → ℕ → Type 0
Ahead p slot j i = j ≡ p → after slot ≤ i

-- The answer of a search in `rounds` pages of `n` slots from behind a rid on: the end, if there is no
-- record, and the first record otherwise.
abbrev pub Next : (ℕ → Bytes) → ℕ → ℕ → ℤ → ℕ → Rid → Type 0
Next pages n p slot rounds r =
    ((r ≡ no_rid)
      × ((j i : ℕ)
          → p ≤ j
          → j < p + rounds
          → i < n
          → Ahead p slot j i
          → marked (pages j) i ≡ false))
    ⊎ ((q : ℕ) × (i : ℕ) × (r ≡ record { page_no = pos q; slot_no = pos i })
        × (p ≤ q)
        × (q < p + rounds)
        × (i < n)
        × Ahead p slot q i
        × (marked (pages q) i ≡ true)
        × ((j k : ℕ)
            → p ≤ j
            → (j < q) ⊎ ((j ≡ q) × (k < i))
            → k < n
            → Ahead p slot j k
            → marked (pages j) k ≡ false))

module _ (pages : ℕ → Bytes) (n p : ℕ) (slot : ℤ) (rounds : ℕ) (r : Rid) where
  -- A page without a record ahead, and then the answer from the next page on.
  Next-later :
      ((i : ℕ) → after slot ≤ i → i < n → marked (pages p) i ≡ false)
      → Next pages n (suc p) (negsuc 0) rounds r
      → Next pages n p slot (suc rounds) r
  Next-later none_here (inl (e, rest)) = inl (
    e,
    λ j i a b c d. elim (ℕ_discrete j p) [
      | yes here ↦ rw here (none_here i (d here) c)
      | no there ↦ rest j i (omega arith) (omega arith) c (λ s. omega arith)
    ],
  )
  Next-later none_here (inr (q, i, e, le, lt, below, ahead, there, rest)) = inr (
    q,
    i,
    e,
    omega arith,
    omega arith,
    below,
    (λ s. absurd (omega arith)),
    there,
    λ j k a b c d. elim (ℕ_discrete j p) [
      | yes here ↦ rw here (none_here k (d here) c)
      | no other ↦ rest j k (omega arith) b c (λ s. omega arith)
    ],
  )

returned : {a b : Rid} → RmOutcome.returns a ≡ returns b → b ≡ a
returned e = cc

not_both : {x : RmError} {a : Rid} {t : RmOutcome Rid} → t ≡ throws x → t ≡ returns a → ⊥
not_both f e = ground arith

module _ (R : Replacer) (D : DiskManager) where
  module _ (rounds p : ℕ) (slot : ℤ) (h : RmFileHandle R D) where
    step_failed :
        (x : RmError)
        → (fetch_page_handle R D h (pos p)).1 ≡ throws x
        → (next_loop R D (suc rounds) (pos p) slot h).1 ≡ throws x
    unfolding next_loop
    step_failed x e = rw (e, next_loop) refl

    abbrev handle_of : RmFileHandle R D
    handle_of = (fetch_page_handle R D h (pos p)).0

    abbrev slot_after : ℕ → ℕ
    slot_after f = next_marked (data_of R D handle_of f) h.file_hdr.num_records_per_page slot

    step_skip :
        (f : ℕ)
        → (fetch_page_handle R D h (pos p)).1 ≡ returns f
        → (slot_after f == h.file_hdr.num_records_per_page) ≡ true
        → next_loop R D (suc rounds) (pos p) slot h
          ≡ next_loop R D rounds (pos (suc p)) (negsuc 0) handle_of
    unfolding next_loop
    step_skip f e last = rw (e, next_loop, last) refl

    step_found :
        (f : ℕ)
        → (fetch_page_handle R D h (pos p)).1 ≡ returns f
        → (slot_after f == h.file_hdr.num_records_per_page) ≡ false
        → next_loop R D (suc rounds) (pos p) slot h
          ≡ (handle_of, returns (record { page_no = pos p; slot_no = pos (slot_after f) }))
    unfolding next_loop
    step_found f e inside = rw (e, next_loop, inside) refl

    -- The search in one page.
    slot_after-First :
        (f : ℕ)
        → First true
            (drop bitmap_offset (data_of R D handle_of f))
            (after slot)
            h.file_hdr.num_records_per_page
            (slot_after f)
    unfolding next_marked
    slot_after-First f =
        next_bit-First true (drop bitmap_offset (data_of R D handle_of f))
          h.file_hdr.num_records_per_page slot

  -- While no call throws, the loop of `next` returns the first record behind the rid, in the pages as a
  -- reader of the buffer pool sees them, and the end if there is none; the pool stays well formed.
  pub next_loop-Next :
      (pages : ℕ → Bytes) (rounds p : ℕ) (slot : ℤ) (h : RmFileHandle R D) (r : Rid)
      → IsValid R D h.pool
      → p + rounds ≤ 524288
      → ((j : ℕ) → j < 524288 → view R D h.pool (id_of R D h (pos j)) ≡ pages j)
      → (next_loop R D rounds (pos p) slot h).1 ≡ returns r
      → IsValid R D (next_loop R D rounds (pos p) slot h).0.pool
        × Next pages h.file_hdr.num_records_per_page p slot rounds r
  unfolding next_loop fetch_page_handle marked
  next_loop-Next pages zero p slot h r v inside seen e =
      (v, inl (returned e, λ j i a b c d. absurd (omega arith)))
  next_loop-Next pages (suc rounds) p slot h r v inside seen e =
      elim (RmOutcome-cases (fetch_page_handle R D h (pos p)).1) [
        | inr (x, failed) ↦ absurd (not_both (step_failed rounds p slot h x failed) e)
        | inl (f, ok) ↦
            let w = fetched R D h v (pos p) (omega arith) f ok in
            let n = h.file_hdr.num_records_per_page in
            let i = slot_after rounds p slot h f in
            let first = slot_after-First rounds p slot h f in
            let bytes : data_of R D (handle_of rounds p slot h) f ≡ pages p =
              w.bytes ∙ seen p (omega arith) in
            elim (Bool-cases (i == n)) [
              | inl last ↦
                  let eq = step_skip rounds p slot h f ok last in
                  let none_here : (k : ℕ) → after slot ≤ k → k < n → marked (pages p) k ≡ false =
                    λ k a b. rw⁻¹ bytes (first.before k a (ground arith)) in
                  let (valid, rest) =
                    next_loop-Next pages rounds (suc p) (negsuc 0) (handle_of rounds p slot h) r
                      w.valid (omega arith) (λ j b. w.others (id_of R D h (pos j)) b ∙ seen j b)
                      (rw eq at e) in
                  rw eq (valid, Next-later pages n p slot rounds r none_here rest)
              | inr inside_page ↦
                  let eq = step_found rounds p slot h f ok inside_page in
                  let below : i < n = ground (arith, first.bounded) in
                  let (le, there) = first.found below in
                  rw eq (
                    w.valid,
                    inr (
                      p,
                      i,
                      returned (rw eq at e),
                      omega arith,
                      omega arith,
                      below,
                      (λ s. le),
                      rw⁻¹ bytes there,
                      λ j k a b c d. elim b [
                        | inl lt ↦ absurd (omega arith)
                        | inr (here, lt) ↦ rw here (rw⁻¹ bytes (first.before k (d here) lt))
                      ],
                    ),
                  )
            ]
      ]
