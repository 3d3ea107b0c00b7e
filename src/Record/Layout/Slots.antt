-- ===== src/Record/Layout/Slots.antt =====
-- A write to a slot of a page, seen through the slots and the bits of the page.
use native.Mathlib.Decide.{dec_lt, ℕ_discrete}
use rubcase_lab.Base.{
  ℕ, zero, suc, ◌+◌, ◌-◌, ◌*◌, ◌/◌, ◌≤◌, ◌<◌, ◌≡◌, ◌≢◌, ◌⊎◌, inl, inr, refl, ap, ap₂, sym, ◌∙◌,
  ◌&&◌, List, [], ◌∷◌, length, set, get_or, arith, ltb, leb, if◌then◌else◌, length-set, get_or-set,
}
use rubcase_lab.Storage.Page.{Bytes}
use rubcase_lab.Record.Bitmap.{is_set, is_set_in}
use rubcase_lab.Record.Layout.{
  RmFileHdr, slot_offset, bitmap_offset, drop, take, store, slot, set_slot, marked,
}
use rubcase_lab.Record.Layout.Bounds.{times_le}

-- Two lists with the same entries.
list_ext :
    (a b : List ℕ)
    → length a ≡ length b
    → ((i : ℕ) → i < length a → get_or a i 0 ≡ get_or b i 0)
    → a ≡ b
list_ext [] [] e h = refl
list_ext [] (y ∷ b) e h = absurd (omega arith)
list_ext (x ∷ a) [] e h = absurd (omega arith)
list_ext (x ∷ a) (y ∷ b) e h =
    ap₂ ◌∷◌ (h 0 (omega arith)) (list_ext a b (omega arith) (λ i p. h (suc i) (omega arith)))

get_or-drop : (b : List ℕ) (n i : ℕ) → get_or (drop n b) i 0 ≡ get_or b (n + i) 0
get_or-drop b zero i = ground arith
get_or-drop [] (suc n) i = ground arith
get_or-drop (x ∷ b) (suc n) i =
    let next : suc n + i ≡ suc (n + i) = omega arith in rw next (get_or-drop b n i)

length-take-drop : (b : List ℕ) (off n : ℕ) → off + n ≤ length b → length (take n (drop off b)) ≡ n
length-take-drop b zero zero h = refl
length-take-drop [] zero (suc n) h = absurd (omega arith)
length-take-drop (x ∷ b) zero (suc n) h = ap suc (length-take-drop b zero n (omega arith))
length-take-drop [] (suc off) n h = absurd (omega arith)
length-take-drop (x ∷ b) (suc off) n h = length-take-drop b off n (omega arith)

get_or-take : (b : List ℕ) (n i : ℕ) → i < n → get_or (take n b) i 0 ≡ get_or b i 0
get_or-take b zero i h = absurd (omega arith)
get_or-take [] (suc n) i h = refl
get_or-take (x ∷ b) (suc n) zero h = refl
get_or-take (x ∷ b) (suc n) (suc i) h = get_or-take b n i (omega arith)

length-store : (b : List ℕ) (off : ℕ) (new : List ℕ) → length (store b off new) ≡ length b
unfolding store
length-store b off [] = refl
length-store b off (x ∷ new) = length-store (set b off x) (off + 1) new ∙ length-set b off x

get_or-store :
    (b : List ℕ) (off : ℕ) (new : List ℕ) (j : ℕ)
    → off + length new ≤ length b
    → get_or (store b off new) j 0
      ≡ (if leb off j && ltb j (off + length new) then get_or new (j - off) 0 else get_or b j 0)
unfolding store
get_or-store b off [] j h = ground arith
get_or-store b off (x ∷ new) j h =
    let inside : off + 1 + length new ≤ length (set b off x) = omega (arith, length-set b off x) in
    get_or-store (set b off x) (off + 1) new j inside ∙ elim (dec_lt off j) [
      | yes lt ↦
          let next : j - off ≡ suc (j - (off + 1)) = omega arith in
          rw next (ground (arith, get_or-set b off j x 0))
      | no ge ↦ elim (ℕ_discrete off j) [
        | yes e ↦
            let none_left : j - off ≡ 0 = omega arith in
            rw none_left (ground (arith, get_or-set b off j x 0))
        | no ne ↦ ground (arith, get_or-set b off j x 0)
      ]
    ]

-- Bytes that are stored are found where they were stored, and any others where they were.
take-store :
    (b : List ℕ) (off : ℕ) (new : List ℕ)
    → off + length new ≤ length b
    → take (length new) (drop off (store b off new)) ≡ new
take-store b off new h =
    let size = length-store b off new in
    let counted = length-take-drop (store b off new) off (length new) (omega arith) in
    list_ext _ new counted (λ i p.
      let back : off + i - off ≡ i = omega arith in
      let below : i < length new = omega arith in
      get_or-take (drop off (store b off new)) (length new) i below
      ∙ get_or-drop (store b off new) off i
      ∙ get_or-store b off new (off + i) h
      ∙ rw back (ground arith))

take-store_apart :
    (b : List ℕ) (off : ℕ) (new : List ℕ) (at n : ℕ)
    → off + length new ≤ length b
    → at + n ≤ length b
    → (at + n ≤ off) ⊎ (off + length new ≤ at)
    → take n (drop at (store b off new)) ≡ take n (drop at b)
take-store_apart b off new at n h k apart =
    let size = length-store b off new in
    let counted = length-take-drop (store b off new) at n (omega arith) in
    let counted_b = length-take-drop b at n k in
    list_ext _ _ (counted ∙ sym counted_b) (λ i p.
      let below : i < n = omega arith in
      get_or-take (drop at (store b off new)) n i below
      ∙ get_or-drop (store b off new) at i
      ∙ get_or-store b off new (at + i) h
      ∙ ground arith
      ∙ sym (get_or-drop b at i)
      ∙ sym (get_or-take (drop at b) n i below))

take_all : (b : List ℕ) → take (length b) b ≡ b
take_all [] = refl
take_all (x ∷ b) = ap (◌∷◌ x) (take_all b)

module _ (h : RmFileHdr) (b buf : Bytes) (n i : ℕ) (size : length buf ≡ h.record_size)
    (room : bitmap_offset + h.bitmap_size + n * h.record_size ≤ length b) (below : i < n) where
  stored_slot : set_slot h b i buf ≡ store b (slot_offset h i) buf
  unfolding set_slot
  stored_slot = ap (store b (slot_offset h i)) (ap (λ k. take k buf) (sym size) ∙ take_all buf)

  slots_apart :
      (j : ℕ)
      → i ≢ j
      → (slot_offset h j + h.record_size ≤ slot_offset h i)
        ⊎ (slot_offset h i + length buf ≤ slot_offset h j)
  slots_apart j other = elim (dec_lt i j) [
    | yes lt ↦ let after = times_le i j h.record_size lt in inr (omega arith)
    | no ge ↦ let before = times_le j i h.record_size (omega arith) in inl (omega arith)
  ]

  same_byte :
      (q : ℕ)
      → q < h.bitmap_size * 8
      → get_or (drop bitmap_offset (store b (slot_offset h i) buf)) (q / 8) 0
        ≡ get_or (drop bitmap_offset b) (q / 8) 0
  same_byte q p =
      let last = times_le i n h.record_size below in
      get_or-drop (store b (slot_offset h i) buf) bitmap_offset (q / 8)
      ∙ get_or-store b (slot_offset h i) buf (bitmap_offset + q / 8) (omega arith)
      ∙ ground arith
      ∙ sym (get_or-drop b bitmap_offset (q / 8))

  -- A record that is written to a slot of a page is read back from it, the records in the other slots
  -- stay, and so does every bit of the bitmap.
  pub slot-set_slot :
      (slot h (set_slot h b i buf) i ≡ buf)
      × ((j : ℕ) → j < n → i ≢ j → slot h (set_slot h b i buf) j ≡ slot h b j)
      × ((q : ℕ) → q < h.bitmap_size * 8 → marked (set_slot h b i buf) q ≡ marked b q)
  unfolding slot marked is_set
  slot-set_slot =
      let off = slot_offset h i in
      let last = times_le i n h.record_size below in
      let whole : off + length buf ≤ length b = omega arith in
      rw stored_slot (
        ap (λ k. take k (drop off (store b off buf))) (sym size) ∙ take-store b off buf whole,
        λ j p other.
            take-store_apart b off buf (slot_offset h j) h.record_size whole
              (let end = times_le j n h.record_size p in omega arith) (slots_apart j other),
        λ q p. ap (λ byte. is_set_in byte q) (same_byte q p),
      )
