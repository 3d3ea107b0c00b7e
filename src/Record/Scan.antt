-- ===== src/Record/Scan.antt =====
-- src/record/rm_scan.h and rm_scan.cpp: the scan over the records of a file.
pub mod Next
use rubcase_lab.Base.{
  ℕ, zero, suc, ◌+◌, ◌-◌, ◌*◌, ◌/◌, ◌%◌, ◌^◌, Bool, true, false, ◌==◌, if◌then◌else◌, Option, none,
  some, get_or,
}
use rubcase_lab.Base.Int.{ℤ, pos, negsuc, ℤ-discrete}
use rubcase_lab.Defs.{Rid}
use rubcase_lab.Replacer.Interface.{Replacer}
use rubcase_lab.Storage.DiskInterface.{DiskManager}
use rubcase_lab.Storage.Page.{Bytes}
use rubcase_lab.Record.Layout.{RmFileHdr, next_marked, bitmap_offset, drop, rm_no_page}
use rubcase_lab.Record.File.{RmFileHandle, RmOutcome, returns, throws, data_of, fetch_page_handle}
use mathlib.Core.Logic.{ite}

abbrev pub suc_int : ℤ → ℤ
suc_int (pos n) = pos (suc n)
suc_int (negsuc zero) = pos 0
suc_int (negsuc (suc n)) = negsuc n

-- The rounds of a loop from one `int` up to another.
abbrev pub span : ℤ → ℤ → ℕ
span (pos a) (pos b) = b - a
span (pos a) (negsuc b) = 0
span (negsuc a) (pos b) = b + a + 1
span (negsuc a) (negsuc b) = a - b

abbrev pub no_rid : Rid
no_rid = record { page_no = negsuc 0; slot_no = negsuc 0 }

-- `isStored`.
unfoldable pub is_stored : ℕ → ℕ → Bool
is_stored byte bit_n = byte / 2 ^ (7 - bit_n) % 2 == 1

-- The two inner loops of the constructor, as one over `byteN * 8 + bitN`.
unfoldable pub first_stored : ℕ → ℕ → Bytes → Option ℕ
unfolding is_stored
first_stored zero i bitmap = none
first_stored (suc rounds) i bitmap =
    let rest = first_stored rounds (i + 1) bitmap in
    if is_stored (get_or bitmap (i / 8) 0) (i % 8) then some i else rest

module _ (R : Replacer) (D : DiskManager) where
  -- The outer loop of the constructor; without a record `rid_` keeps what was in its memory.
  unfoldable pub start_loop : ℕ → ℤ → RmFileHandle R D → Rid → RmFileHandle R D × RmOutcome Rid
  unfolding first_stored
  start_loop zero page_no h any_rid = (h, returns any_rid)
  start_loop (suc rounds) page_no h any_rid =
      let (c, handle) = fetch_page_handle R D h page_no in
      elim handle [
        | throws e ↦ (c, throws e)
        | returns f ↦
            elim (first_stored (c.file_hdr.bitmap_size * 8) 0
              (drop bitmap_offset (data_of R D c f))) [
                | some i ↦ (c, returns (record { page_no = page_no; slot_no = pos i }))
                | none ↦ start_loop rounds (suc_int page_no) c any_rid
              ]
      ]

  unfoldable pub start_scan : RmFileHandle R D → Rid → RmFileHandle R D × RmOutcome Rid
  unfolding start_loop
  start_scan h any_rid = start_loop (span (pos 1) h.file_hdr.num_pages) (pos 1) h any_rid

  -- The loop of `next`, with the rounds that are left.
  unfoldable pub next_loop : ℕ → ℤ → ℤ → RmFileHandle R D → RmFileHandle R D × RmOutcome Rid
  next_loop zero page_no slot_no h = (h, returns no_rid)
  next_loop (suc rounds) page_no slot_no h =
      let (c, handle) = fetch_page_handle R D h page_no in
      elim handle [
        | throws e ↦ (c, throws e)
        | returns f ↦
            let n = h.file_hdr.num_records_per_page in
            let i = next_marked (data_of R D c f) n slot_no in
            let rest = next_loop rounds (suc_int page_no) (negsuc 0) c in
            if i == n then rest else (c, returns (record { page_no = page_no; slot_no = pos i }))
      ]

  unfoldable pub next : RmFileHandle R D → Rid → RmFileHandle R D × RmOutcome Rid
  unfolding next_loop
  next h rid = next_loop (span rid.page_no h.file_hdr.num_pages) rid.page_no rid.slot_no h

  unfoldable pub is_end : Rid → Bool
  unfolding ℤ-discrete
  is_end rid = ite (ℤ-discrete rid.page_no rm_no_page) true false
