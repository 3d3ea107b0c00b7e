-- ===== src/Record/Layout/Bounds.antt =====
-- The parts of a page do not overlap and lie in the page.
use native.Mathlib.Nat.{div-mul-le_self, mul-le-mul_right, add-mul, mul-add, mul_assoc}
use rubcase_lab.Base.{ℕ, ◌+◌, ◌*◌, ◌/◌, ◌≤◌, ◌<◌, ◌≡◌, some, arith}
use rubcase_lab.Storage.Page.{page_size}
use rubcase_lab.Record.Layout.{RmFileHdr, new_file_hdr, bitmap_offset, slot_offset}

pub times_le : (i n r : ℕ) → i < n → i * r + r ≤ n * r
times_le i n r h =
    let le : (i + 1) * r ≤ n * r = mul-le-mul_right r (omega arith) in omega (arith, add-mul i 1 r)

fits : (n r : ℕ) → n * (1 + r * 8) ≤ 32601 → 12 + (n + 7) / 8 + n * r ≤ 4096
fits n r h = omega (arith, mul-add n 1 (r * 8), mul_assoc n r 8)

parts :
    (r : ℕ) (h : RmFileHdr)
    → new_file_hdr r ≡ some h
    → (h.record_size ≡ r)
      × (h.num_records_per_page ≡ 32601 / (1 + r * 8))
      × (h.bitmap_size ≡ (32601 / (1 + r * 8) + 7) / 8)
unfolding new_file_hdr
parts r h e = ground arith

-- The header that `RmManager::create_file` writes: every slot has a bit in the bitmap, the first slot
-- lies behind the bitmap, each slot ends before the next begins, and the slots lie in the page.
pub new_file_hdr_lem :
    (record_size : ℕ) (h : RmFileHdr)
    → new_file_hdr record_size ≡ some h
    → (h.record_size ≡ record_size)
      × (h.num_records_per_page ≤ h.bitmap_size * 8)
      × (bitmap_offset + h.bitmap_size ≤ slot_offset h 0)
      × ((i : ℕ)
          → i < h.num_records_per_page
          → (slot_offset h i + h.record_size ≤ slot_offset h (i + 1))
            × (slot_offset h i + h.record_size ≤ page_size))
unfolding new_file_hdr
new_file_hdr_lem r h e =
    let n = 32601 / (1 + r * 8) in
    let all = fits n r (div-mul-le_self 32601 (1 + r * 8)) in
    let (size, count, bits) = parts r h e in
    (
      size,
      omega arith,
      omega arith,
      λ i p.
          let last = times_le i n r (rw count at p) in
          (omega (arith, add-mul i 1 h.record_size), rw (size, bits) (omega arith)),
    )
