-- ===== src/Record/Tests.antt =====
-- A file of two pages over a disk in memory, with one record of eight bytes.
use rubcase_lab.Base.{
  ℕ, ◌+◌, ◌*◌, ◌≤◌, ◌<◌, ◌≡◌, ◌≢◌, refl, true, false, ◌==◌, if◌then◌else◌, some, [], ◌∷◌, length,
  arith,
}
use rubcase_lab.Base.Int.{pos, negsuc}
use rubcase_lab.Defs.{Rid}
use rubcase_lab.Replacer.Lru.Instance.{lru_replacer}
use rubcase_lab.Storage.DiskInterface.{DiskManager}
use rubcase_lab.Storage.Memory.{Memory, memory_disk, tabulate}
use rubcase_lab.Storage.Page.{PageId, Bytes, InFile, page_size, blank, length-blank}
use rubcase_lab.Storage.BufferPool.{
  init, fetch_page, find_victim_page, load, update_page, read_in, write_back, set_page, frame_ids,
}
use rubcase_lab.Storage.BufferPool.Invariant.{IsValid, view}
use rubcase_lab.Storage.BufferPool.Start.{init-IsValid}
use rubcase_lab.Record.Bitmap.{is_set, is_set_in}
use rubcase_lab.Record.Layout.{RmFileHdr, new_file_hdr, bitmap_offset, slot_offset, slot, marked}
use rubcase_lab.Record.Layout.Bounds.{new_file_hdr_lem}
use rubcase_lab.Record.File.{
  RmFileHandle, returns, id_of, fetch_page_handle, get_record, update_record,
}
use rubcase_lab.Record.File.Reads.{get_record-view, update_record-view}
use rubcase_lab.Record.Scan.{next}
use rubcase_lab.Record.Scan.Next.{Next}

abbrev sixteen : RmFileHdr
sixteen = record {
  record_size = 16;
  num_pages = pos 1;
  num_records_per_page = 252;
  first_free_page_no = negsuc 0;
  bitmap_size = 32;
}

made_sixteen : new_file_hdr 16 ≡ some sixteen
unfolding new_file_hdr
made_sixteen = refl

new_file_hdr_lem_example :
    (sixteen.record_size ≡ 16)
    × (sixteen.num_records_per_page ≤ sixteen.bitmap_size * 8)
    × (bitmap_offset + sixteen.bitmap_size ≤ slot_offset sixteen 0)
    × ((i : ℕ)
        → i < sixteen.num_records_per_page
        → (slot_offset sixteen i + sixteen.record_size ≤ slot_offset sixteen (i + 1))
          × (slot_offset sixteen i + sixteen.record_size ≤ page_size))
new_file_hdr_lem_example = new_file_hdr_lem 16 sixteen made_sixteen

abbrev hdr : RmFileHdr
hdr = record {
  record_size = 8;
  num_pages = pos 2;
  num_records_per_page = 4;
  first_free_page_no = negsuc 0;
  bitmap_size = 1;
}

abbrev buf : Bytes
buf = 1 ∷ 2 ∷ 3 ∷ 4 ∷ 5 ∷ 6 ∷ 7 ∷ 8 ∷ []

room : 13 + 32 ≤ length blank
room = let size = length-blank in omega arith

-- Slot 0 of every page holds a record.
abbrev disk : Memory
disk = record { cells = λ p i. if i == 12 then 128 else 0; next = λ _. pos 0 }

abbrev good : DiskManager
good = memory_disk (λ p. false)

abbrev file : RmFileHandle lru_replacer good
file = record { fd = 3; file_hdr = hdr; pool = init lru_replacer good 2 disk 0 }

file-IsValid : IsValid lru_replacer good file.pool
file-IsValid = (init-IsValid lru_replacer good 2 disk 0).0

abbrev stored_bytes : Bytes
stored_bytes = good.stored disk (id_of lru_replacer good file (pos 1))

got : (get_record lru_replacer good file (pos 1) 0).1 ≡ returns (slot hdr stored_bytes 0)
unfolding get_record fetch_page_handle fetch_page find_victim_page init frame_ids load update_page
    read_in write_back set_page
got = refl

get_record-view_example :
    (slot hdr stored_bytes 0
      ≡ slot hdr (view lru_replacer good file.pool (id_of lru_replacer good file (pos 1))) 0)
    × IsValid lru_replacer good (get_record lru_replacer good file (pos 1) 0).0.pool
    × ((q : PageId)
        → InFile q.page_no
        → view lru_replacer good (get_record lru_replacer good file (pos 1) 0).0.pool q
          ≡ view lru_replacer good file.pool q)
    × ((f : ℕ) × ((get_record lru_replacer good file (pos 1) 0).0.pool.page_table
            (id_of lru_replacer good file (pos 1))
          ≡ some f)
        × (0 < ((get_record lru_replacer good file (pos 1) 0).0.pool.pages f).pin_count))
get_record-view_example =
    get_record-view lru_replacer good file file-IsValid (pos 1) (omega arith) 0
      (slot hdr stored_bytes 0) got

there : marked (view lru_replacer good file.pool (id_of lru_replacer good file (pos 1))) 0 ≡ true
unfolding view init marked is_set is_set_in tabulate
there = refl

updated : (update_record lru_replacer good file (pos 1) 0 buf).1 ≡ returns tt
unfolding update_record fetch_page_handle fetch_page find_victim_page init frame_ids load
    update_page read_in write_back set_page
updated = refl

update_record-view_example :
    let before : Bytes = view lru_replacer good file.pool (id_of lru_replacer good file (pos 1)) in
    let after : Bytes =
      view lru_replacer good
        (update_record lru_replacer good file (pos 1) 0 buf).0.pool
        (id_of lru_replacer good file (pos 1)) in
    (slot hdr after 0 ≡ buf)
    × ((j : ℕ) → j < 4 → 0 ≢ j → slot hdr after j ≡ slot hdr before j)
    × ((q : ℕ) → q < 8 → marked after q ≡ marked before q)
    × ((q : PageId)
        → InFile q.page_no
        → id_of lru_replacer good file (pos 1) ≢ q
        → view lru_replacer good (update_record lru_replacer good file (pos 1) 0 buf).0.pool q
          ≡ view lru_replacer good file.pool q)
update_record-view_example =
    update_record-view lru_replacer good file file-IsValid (pos 1) (omega arith) 4 0 buf refl
      (omega arith) (omega arith) there updated

abbrev first_rid : Rid
first_rid = record { page_no = pos 1; slot_no = pos 0 }

abbrev pages : ℕ → Bytes
pages j = view lru_replacer good file.pool (id_of lru_replacer good file (pos j))
