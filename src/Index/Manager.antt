-- ===== src/Index/Manager.antt =====
-- The files of the indexes: src/index/ix_manager.h over the disk manager of Storage/Disk, and the
-- constructor of `IxIndexHandle` of src/index/ix_index_handle.cpp.
pub mod Files
pub mod Creation
mod Tests
use Prim.Native.String.{String, ◌++◌ as str_append}
use rubcase_lab.Base.{
  ℕ, zero, suc, ◌+◌, ◌-◌, ◌*◌, ◌/◌, Bool, true, false, ltb, if◌then◌else◌, Option, none, some, List,
  [], ◌∷◌, ◌++◌,
}
use rubcase_lab.Base.Int.{ℤ, pos, negsuc, inc32}
use rubcase_lab.Storage.Page.{Bytes, page_size}
use rubcase_lab.Storage.Posix.{Posix}
use rubcase_lab.Storage.Disk.{
  DiskState, DiskError, unix_error, Outcome, create_file, destroy_file, read_page, write_page,
  set_fd2pageno, open_file, close_file, is_file,
}
use rubcase_lab.Storage.Disk.Pages.{posix_disk}
use rubcase_lab.Storage.BufferPool.{BufferPool, flush_all_pages}
use rubcase_lab.Replacer.Interface.{Replacer}
use rubcase_lab.Record.Layout.{take, drop, int_bytes, load_int}
use rubcase_lab.Index.Compare.{ColType, type_int, type_float, type_string}
use rubcase_lab.Index.Node.{IxFileHdr}

abbrev pub ix_max_col_len : ℕ
ix_max_col_len = 512

abbrev pub sizeof_page_hdr : ℕ
sizeof_page_hdr = 24

abbrev pub sizeof_rid : ℕ
sizeof_rid = 8

abbrev pub sizeof_file_hdr : ℕ
sizeof_file_hdr = 36

abbrev pub ix_no_page : ℤ
ix_no_page = negsuc 0

abbrev pub ix_leaf_header_page : ℕ
ix_leaf_header_page = 1

abbrev pub ix_init_root_page : ℕ
ix_init_root_page = 2

abbrev pub ix_init_num_pages : ℕ
ix_init_num_pages = 3

-- The exceptions of a call on index files; `aborts` is a failed `assert`.
pub data IxFileError : Type 0 where
  invalid_col_length_error : ℕ → IxFileError
  disk_error : DiskError → IxFileError
  aborts : IxFileError

pub data IxFileOutcome (A : Type 0) : Type 0 where
  returns : A → IxFileOutcome A
  throws : IxFileError → IxFileOutcome A

-- How many pairs a node takes: one less than fit in a page.
unfoldable pub order_of : ℕ → ℕ
order_of col_len = (page_size - sizeof_page_hdr) / (col_len + sizeof_rid) - 1

unfoldable pub new_hdr : ColType → ℕ → IxFileHdr
unfolding order_of
new_hdr col_type col_len = record {
  first_free_page_no = ix_no_page;
  num_pages = pos ix_init_num_pages;
  root_page = pos ix_init_root_page;
  col_type = col_type;
  col_len = col_len;
  btree_order = order_of col_len;
  keys_size = (order_of col_len + 1) * col_len;
  first_leaf = pos ix_init_root_page;
  last_leaf = pos ix_init_root_page;
}

-- The header that `create_index` writes. The length of a column is not negative.
unfoldable pub new_index_hdr : ColType → ℕ → IxFileOutcome IxFileHdr
unfolding new_hdr
new_index_hdr col_type col_len =
    if ltb ix_max_col_len col_len
    then IxFileOutcome.throws (invalid_col_length_error col_len)
    else if ltb 2 (order_of col_len)
    then IxFileOutcome.returns (new_hdr col_type col_len)
    else IxFileOutcome.throws aborts

-- The enumerators, as the `int` that they are stored as.
unfoldable pub type_code : ColType → ℤ
type_code type_int = pos 0
type_code type_float = pos 1
type_code type_string = pos 2

unfoldable pub hdr_bytes : IxFileHdr → Bytes
unfolding int_bytes type_code
hdr_bytes h =
    int_bytes h.first_free_page_no
    ++ int_bytes h.num_pages
    ++ int_bytes h.root_page
    ++ int_bytes (type_code h.col_type)
    ++ int_bytes (pos h.col_len)
    ++ int_bytes (pos h.btree_order)
    ++ int_bytes (pos h.keys_size)
    ++ int_bytes h.first_leaf
    ++ int_bytes h.last_leaf

-- A page whose header is that of an empty leaf with both neighbours `leaf`: the padding behind
-- `is_leaf` and what follows the header are what the buffer held.
unfoldable pub empty_leaf : ℕ → Bytes → Bytes
unfolding int_bytes
empty_leaf leaf any_bytes =
    int_bytes ix_no_page
    ++ int_bytes ix_no_page
    ++ int_bytes (pos 0)
    ++ 1 ∷ take 3 (drop 13 any_bytes)
    ++ int_bytes (pos leaf)
    ++ int_bytes (pos leaf)
    ++ drop sizeof_page_hdr any_bytes

-- The pages that `create_index` writes, in this order: the second leaf is made in the buffer of the
-- first.
abbrev pub index_pages : IxFileHdr → Bytes → List (ℕ × Bytes)
index_pages hdr any_bytes =
    let leaf_header = empty_leaf ix_init_root_page any_bytes in
    (0, hdr_bytes hdr)
    ∷ (ix_leaf_header_page, leaf_header)
    ∷ (ix_init_root_page, empty_leaf ix_leaf_header_page leaf_header)
    ∷ []

-- What a header in the first bytes of a file reads as; in a valid file a size is not negative, and
-- the type is one of the three.
abbrev natural : ℤ → ℕ
natural (pos n) = n
natural (negsuc n) = 0

abbrev type_of : ℤ → ColType
type_of (pos zero) = type_int
type_of (pos (suc zero)) = type_float
type_of _ = type_string

unfoldable pub hdr_of : Bytes → IxFileHdr
unfolding load_int
hdr_of b = record {
  first_free_page_no = load_int b 0;
  num_pages = load_int b 4;
  root_page = load_int b 8;
  col_type = type_of (load_int b 12);
  col_len = natural (load_int b 16);
  btree_order = natural (load_int b 20);
  keys_size = natural (load_int b 24);
  first_leaf = load_int b 28;
  last_leaf = load_int b 32;
}

module _ (P : Posix) (to_string : ℕ → String) where
  -- `to_string` is `std::to_string`; an index number is not negative.
  unfoldable pub get_index_name : String → ℕ → String
  get_index_name filename index_no =
      str_append (str_append (str_append filename ".") (to_string index_no)) ".idx"

  unfoldable pub exists : DiskState P → String → ℕ → Bool
  unfolding get_index_name
  exists s filename index_no = is_file P s (get_index_name filename index_no)

  -- The writes of `create_index`, up to the first that fails.
  unfoldable pub write_pages : DiskState P → ℕ → List (ℕ × Bytes) → DiskState P × Bool
  write_pages s fd [] = (s, true)
  write_pages s fd ((page_no, bytes) ∷ pages) =
      let (c, written) = write_page P s fd (pos page_no) bytes in
      let rest = write_pages c fd pages in if written then rest else (c, false)

  -- `create_index` from the descriptor on. The last argument is the page buffer.
  unfoldable pub fill_index :
      DiskState P → ℕ → ColType → ℕ → Bytes → DiskState P × IxFileOutcome (Unit {0})
  unfolding new_index_hdr hdr_bytes empty_leaf write_pages
  fill_index s fd col_type col_len any_bytes = elim (new_index_hdr col_type col_len) [
    | IxFileOutcome.throws e ↦ (s, IxFileOutcome.throws e)
    | IxFileOutcome.returns hdr ↦
        let (c, written) = write_pages s fd (index_pages hdr any_bytes) in
        if written
        then (
          close_file P (set_fd2pageno P c fd (pos (ix_init_num_pages - 1))) fd,
          IxFileOutcome.returns tt,
        )
        else (c, IxFileOutcome.throws (disk_error unix_error))
  ]

  unfoldable pub create_index :
      DiskState P → String → ℕ → ColType → ℕ → Bytes → DiskState P × IxFileOutcome (Unit {0})
  unfolding get_index_name fill_index
  create_index s filename index_no col_type col_len any_bytes =
      let ix_name = get_index_name filename index_no in
      let (c, created) = create_file P s ix_name in
      elim created [
        | Outcome.throws e ↦ (c, IxFileOutcome.throws (disk_error e))
        | Outcome.returns _ ↦
            let (d, opened) = open_file P c ix_name in
            elim opened [
              | Outcome.throws e ↦ (d, IxFileOutcome.throws (disk_error e))
              | Outcome.returns fd ↦ fill_index d fd col_type col_len any_bytes
            ]
      ]

  unfoldable pub destroy_index : DiskState P → String → ℕ → DiskState P × Outcome (Unit {0})
  unfolding get_index_name
  destroy_index s filename index_no = destroy_file P s (get_index_name filename index_no)

  -- The constructor of a handle: the header, and the page numbers go on from the next one. The last
  -- argument is what the header held before.
  unfoldable pub new_handle : DiskState P → ℕ → Bytes → DiskState P × IxFileOutcome (ℕ × IxFileHdr)
  unfolding hdr_of
  new_handle s fd any_bytes =
      let (c, bytes, read) = read_page P s fd (pos 0) sizeof_file_hdr any_bytes in
      if read
      then (set_fd2pageno P c fd (inc32 (c.fd2pageno fd)), IxFileOutcome.returns (fd, hdr_of bytes))
      else (c, IxFileOutcome.throws (disk_error unix_error))

  unfoldable pub open_index :
      DiskState P → String → ℕ → Bytes → DiskState P × IxFileOutcome (ℕ × IxFileHdr)
  unfolding get_index_name new_handle
  open_index s filename index_no any_bytes =
      let (d, opened) = open_file P s (get_index_name filename index_no) in
      elim opened [
        | Outcome.throws e ↦ (d, IxFileOutcome.throws (disk_error e))
        | Outcome.returns fd ↦ new_handle d fd any_bytes
      ]

  -- The pool's disk manager is the one that the files are opened with. False is UnixError.
  unfoldable pub close_index :
      (R : Replacer)
      → BufferPool R (posix_disk P)
      → ℕ
      → IxFileHdr
      → BufferPool R (posix_disk P) × Bool
  unfolding hdr_bytes
  close_index R b fd hdr =
      let (disk', written) = write_page P b.disk fd (pos 0) (hdr_bytes hdr) in
      let (c, flushed) = flush_all_pages R (posix_disk P) (record b { disk = disk' }) fd in
      if written
      then (if flushed then (record c { disk = close_file P c.disk fd }, true) else (c, false))
      else (record b { disk = disk' }, false)
