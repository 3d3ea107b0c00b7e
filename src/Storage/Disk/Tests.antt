-- ===== src/Storage/Disk/Tests.antt =====
-- The disk manager over files in memory.
use mathlib.Core.Logic.{ite, if_pos}
use rubcase_lab.Base.{ℕ, ◌+◌, ◌*◌, ◌≡◌, refl, true, false, none, some, arith, length}
use rubcase_lab.Base.Int.{pos, negsuc, ℤ-discrete}
use rubcase_lab.Storage.Page.{PageId, PageId-discrete, blank, length-blank, page_size}
use rubcase_lab.Storage.Memory.Files.{memory_files, no_files}
use rubcase_lab.Storage.Disk.{
  DiskState, returns, throws, file_not_found_error, page_offset, init, write_page, read_page,
  open_file,
}
use rubcase_lab.Storage.Disk.Pages.{
  page_offset_exact, page_offset_negative, stored, stored-write_page,
}
use rubcase_lab.Storage.Disk.Files.{
  Consistent, init-Consistent, open_file-Consistent, open_file_twice,
}

abbrev start : DiskState memory_files
start = init memory_files no_files

abbrev first : PageId
first = record { fd = 3; page_no = pos 0 }

abbrev second : PageId
second = record { fd = 3; page_no = pos 1 }

page_offset_exact_example : page_offset (pos 524287) ≡ pos (524287 * page_size)
page_offset_exact_example = page_offset_exact 524287 (omega arith)

page_offset_negative_example : (k : ℕ) × (page_offset (pos (0 + 524288)) ≡ negsuc k)
page_offset_negative_example = page_offset_negative 0 (omega arith)

wrote : (write_page memory_files start 3 (pos 0) blank).1 ≡ true
unfolding write_page
wrote = if_pos (ℤ-discrete (pos (length blank)) (pos (length blank))) refl true false

read : (read_page memory_files start 3 (pos 1) page_size blank).2 ≡ true
unfolding read_page
read = if_pos (ℤ-discrete (pos page_size) (pos page_size)) refl true false

stored-write_page_example :
    stored memory_files (write_page memory_files start 3 (pos 0) blank).0 second
    ≡ ite (PageId-discrete first second) blank (stored memory_files start second)
stored-write_page_example =
    stored-write_page memory_files start first second blank (omega arith) (omega arith) length-blank
      wrote

-- The state after `open_file("t")`.
abbrev one_open : DiskState memory_files
one_open = (open_file memory_files start "t").0

opened_three : (open_file memory_files start "t").1 ≡ returns 3
unfolding open_file init
opened_three = refl

no_three : start.fd2path 3 ≡ none
unfolding init
no_three = refl

opened :
    Consistent memory_files one_open
    × (one_open.path2fd "t" ≡ some 3)
    × (one_open.fd2path 3 ≡ some "t")
    × (start.path2fd "t" ≡ none)
opened =
    open_file-Consistent memory_files start (init-Consistent memory_files no_files) "t" 3
      opened_three no_three

open_file_twice_example :
    open_file memory_files one_open "t" ≡ (one_open, throws (file_not_found_error "t"))
open_file_twice_example = open_file_twice memory_files one_open opened.0 "t" 3 opened.1
