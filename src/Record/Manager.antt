-- ===== src/Record/Manager.antt =====
-- src/record/rm_manager.h, over the disk manager of Storage/Disk and a pool on it. The header of a
-- file has five fields of four bytes each.
use Prim.Native.String.{String}
use rubcase_lab.Base.{ℕ, Bool, true, false, if◌then◌else◌, none, some, ◌++◌}
use rubcase_lab.Base.Int.{ℤ, pos, negsuc}
use rubcase_lab.Replacer.Interface.{Replacer}
use rubcase_lab.Storage.Page.{Bytes}
use rubcase_lab.Storage.Posix.{Posix}
use rubcase_lab.Storage.Disk.{
  DiskState, DiskError, unix_error, Outcome, create_file, destroy_file, read_page, set_fd2pageno,
  open_file, close_file, write_page,
}
use rubcase_lab.Storage.Disk.Pages.{posix_disk}
use rubcase_lab.Storage.BufferPool.{BufferPool, flush_all_pages}
use rubcase_lab.Record.Layout.{RmFileHdr, load_int, sizeof_file_hdr, new_file_hdr, int_bytes}

-- The exceptions of a call on files.
pub data RmFileError : Type 0 where
  invalid_record_size_error : ℕ → RmFileError
  disk_error : DiskError → RmFileError

pub data RmFileOutcome (A : Type 0) : Type 0 where
  returns : A → RmFileOutcome A
  throws : RmFileError → RmFileOutcome A

unfoldable pub hdr_bytes : RmFileHdr → Bytes
unfolding int_bytes
hdr_bytes h =
    int_bytes (pos h.record_size)
    ++ int_bytes h.num_pages
    ++ int_bytes (pos h.num_records_per_page)
    ++ int_bytes h.first_free_page_no
    ++ int_bytes (pos h.bitmap_size)

module _ (P : Posix) where
  -- `create_file` from the descriptor on.
  unfoldable pub write_hdr : DiskState P → ℕ → RmFileHdr → DiskState P × RmFileOutcome (Unit {0})
  unfolding hdr_bytes
  write_hdr s fd hdr =
      let (c, written) = write_page P s fd (pos 0) (hdr_bytes hdr) in
      if written
      then (close_file P c fd, RmFileOutcome.returns tt)
      else (c, RmFileOutcome.throws (disk_error unix_error))

  unfoldable pub create_record_file :
      DiskState P → String → ℕ → DiskState P × RmFileOutcome (Unit {0})
  unfolding write_hdr
  create_record_file s filename record_size = elim (new_file_hdr record_size) [
    | none ↦ (s, RmFileOutcome.throws (invalid_record_size_error record_size))
    | some hdr ↦
        let (c, created) = create_file P s filename in
        elim created [
          | Outcome.throws e ↦ (c, RmFileOutcome.throws (disk_error e))
          | Outcome.returns _ ↦
              let (d, opened) = open_file P c filename in
              elim opened [
                | Outcome.throws e ↦ (d, RmFileOutcome.throws (disk_error e))
                | Outcome.returns fd ↦ write_hdr d fd hdr
              ]
        ]
  ]

  -- The pool's disk manager is the one that the files are opened with.
  unfoldable pub close_record_file :
      (R : Replacer)
      → BufferPool R (posix_disk P)
      → ℕ
      → RmFileHdr
      → BufferPool R (posix_disk P) × Bool
  unfolding hdr_bytes
  close_record_file R b fd hdr =
      let (disk', written) = write_page P b.disk fd (pos 0) (hdr_bytes hdr) in
      let (c, flushed) = flush_all_pages R (posix_disk P) (record b { disk = disk' }) fd in
      if written
      then (if flushed then (record c { disk = close_file P c.disk fd }, true) else (c, false))
      else (record b { disk = disk' }, false)

  -- The header in the first bytes of a file, as the constructor of the file handle reads it; a size in
  -- the header of a valid file is not negative.
  abbrev natural : ℤ → ℕ
  natural (pos n) = n
  natural (negsuc n) = 0

  unfoldable pub hdr_of : Bytes → RmFileHdr
  unfolding load_int
  hdr_of b = record {
    record_size = natural (load_int b 0);
    num_pages = load_int b 4;
    num_records_per_page = natural (load_int b 8);
    first_free_page_no = load_int b 12;
    bitmap_size = natural (load_int b 16);
  }

  -- `open_file` from the descriptor on. The last argument is what the header held before the read.
  unfoldable pub read_hdr : DiskState P → ℕ → Bytes → DiskState P × RmFileOutcome (ℕ × RmFileHdr)
  unfolding hdr_of
  read_hdr s fd any_bytes =
      let (c, bytes, read) = read_page P s fd (pos 0) sizeof_file_hdr any_bytes in
      let hdr = hdr_of bytes in
      if read
      then (set_fd2pageno P c fd hdr.num_pages, RmFileOutcome.returns (fd, hdr))
      else (c, RmFileOutcome.throws (disk_error unix_error))

  unfoldable pub open_record_file :
      DiskState P → String → Bytes → DiskState P × RmFileOutcome (ℕ × RmFileHdr)
  unfolding read_hdr
  open_record_file s filename any_bytes =
      let (c, opened) = open_file P s filename in
      elim opened [
        | Outcome.throws e ↦ (c, RmFileOutcome.throws (disk_error e))
        | Outcome.returns fd ↦ read_hdr c fd any_bytes
      ]

  unfoldable pub destroy_record_file : DiskState P → String → DiskState P × Outcome (Unit {0})
  destroy_record_file s filename = destroy_file P s filename
