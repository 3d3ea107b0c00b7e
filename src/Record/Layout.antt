-- ===== src/Record/Layout.antt =====
-- The bytes of a page of a record file: src/record/rm_defs.h, `RmPageHandle` of
-- src/record/rm_file_handle.h, and the sizes that `RmManager::create_file` of
-- src/record/rm_manager.h computes.
pub mod Bounds
pub mod Slots
use rubcase_lab.Base.{
  ℕ, zero, suc, ◌+◌, ◌-◌, ◌*◌, ◌/◌, ◌%◌, ◌^◌, Bool, true, false, ◌||◌, ltb, if◌then◌else◌, Option,
  none, some, List, [], ◌∷◌, ◌++◌, set, get_or,
}
use rubcase_lab.Base.Int.{ℤ, pos, negsuc, bits32, int32}
use rubcase_lab.Storage.Page.{Bytes, page_size}
use rubcase_lab.Record.Bitmap.{set_bit, reset_bit, is_set, first_bit, next_bit, bitmap_width}

abbrev pub rm_no_page : ℤ
rm_no_page = negsuc 0

abbrev pub rm_max_record_size : ℕ
rm_max_record_size = 512

-- A size that the header of a valid file holds is not negative.
pub record RmFileHdr : Type 0 where
  pub record_size : ℕ
  pub num_pages : ℤ
  pub num_records_per_page : ℕ
  pub first_free_page_no : ℤ
  pub bitmap_size : ℕ

-- `sizeof(RmFileHdr)`, `sizeof(RmPageHdr)` and `Page::OFFSET_PAGE_HDR`.
abbrev pub sizeof_file_hdr : ℕ
sizeof_file_hdr = 20

abbrev pub sizeof_page_hdr : ℕ
sizeof_page_hdr = 8

abbrev pub offset_page_hdr : ℕ
offset_page_hdr = 4

-- The header that `RmManager::create_file` writes; `none` is InvalidRecordSizeError.
unfoldable pub new_file_hdr : ℕ → Option RmFileHdr
new_file_hdr record_size =
    let n =
      (bitmap_width * (page_size - 1 - sizeof_file_hdr) + 1) / (1 + record_size * bitmap_width) in
    if ltb record_size 1 || ltb rm_max_record_size record_size
    then none
    else some (record {
      record_size = record_size;
      num_pages = pos 1;
      num_records_per_page = n;
      first_free_page_no = rm_no_page;
      bitmap_size = (n + bitmap_width - 1) / bitmap_width;
    })

-- Where the parts of a page begin.
abbrev pub bitmap_offset : ℕ
bitmap_offset = sizeof_page_hdr + offset_page_hdr

abbrev pub slot_offset : RmFileHdr → ℕ → ℕ
slot_offset h slot_no = bitmap_offset + h.bitmap_size + slot_no * h.record_size

-- The bytes from a pointer on, those before it, and a count of them.
abbrev pub drop {ℓ} : {A : Type ℓ} → ℕ → List A → List A
drop zero b = b
drop (suc n) [] = []
drop (suc n) (x ∷ b) = drop n b

abbrev pub take {ℓ} : {A : Type ℓ} → ℕ → List A → List A
take zero b = []
take (suc n) [] = []
take (suc n) (x ∷ b) = x ∷ take n b

-- `memcpy` of bytes to an offset.
unfoldable pub store : Bytes → ℕ → Bytes → Bytes
store b off [] = b
store b off (x ∷ new) = store (set b off x) (off + 1) new

-- An `int` in a page, least significant byte first.
unfoldable pub load_int : Bytes → ℕ → ℤ
unfolding int32
load_int b off = int32 (
    get_or b off 0
    + get_or b (off + 1) 0 * 256
    + get_or b (off + 2) 0 * 65536
    + get_or b (off + 3) 0 * 16777216)

unfoldable pub int_bytes : ℤ → Bytes
unfolding bits32
int_bytes z =
    bits32 z % 256 ∷ bits32 z / 256 % 256 ∷ bits32 z / 65536 % 256 ∷ bits32 z / 16777216 % 256 ∷ []

-- The fields of `RmPageHdr`.
unfoldable pub next_free_page_no : Bytes → ℤ
unfolding load_int
next_free_page_no b = load_int b offset_page_hdr

unfoldable pub num_records : Bytes → ℤ
unfolding load_int
num_records b = load_int b (offset_page_hdr + 4)

unfoldable pub set_next_free_page_no : Bytes → ℤ → Bytes
unfolding store int_bytes
set_next_free_page_no b z = store b offset_page_hdr (int_bytes z)

unfoldable pub set_num_records : Bytes → ℤ → Bytes
unfolding store int_bytes
set_num_records b z = store b (offset_page_hdr + 4) (int_bytes z)

-- The calls of Bitmap on the bitmap of a page.
unfoldable pub mark : Bytes → ℕ → Bytes
unfolding set_bit
mark b i = take bitmap_offset b ++ set_bit (drop bitmap_offset b) i

unfoldable pub unmark : Bytes → ℕ → Bytes
unfolding reset_bit
unmark b i = take bitmap_offset b ++ reset_bit (drop bitmap_offset b) i

unfoldable pub marked : Bytes → ℕ → Bool
unfolding is_set
marked b i = is_set (drop bitmap_offset b) i

unfoldable pub first_unmarked : Bytes → ℕ → ℕ
unfolding first_bit
first_unmarked b n = first_bit false (drop bitmap_offset b) n

unfoldable pub next_marked : Bytes → ℕ → ℤ → ℕ
unfolding next_bit
next_marked b n curr = next_bit true (drop bitmap_offset b) n curr

-- The record in a slot.
unfoldable pub slot : RmFileHdr → Bytes → ℕ → Bytes
slot h b i = take h.record_size (drop (slot_offset h i) b)

unfoldable pub set_slot : RmFileHdr → Bytes → ℕ → Bytes → Bytes
unfolding store
set_slot h b i buf = store b (slot_offset h i) (take h.record_size buf)
