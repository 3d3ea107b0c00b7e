-- ===== src/Index/Manager/Creation.antt =====
-- What `IxManager::create_index` of src/index/ix_manager.h may come to, and which files it leaves open.
use Prim.Native.String.{String}
use text.Mathlib.Text.{◌==◌ as str_eq}
use rubcase_lab.Base.{ℕ, ◌≤◌, ◌<◌, ◌≡◌, some, none, true, false}
use rubcase_lab.Index.Compare.{ColType}
use rubcase_lab.Index.Node.{IxFileHdr}
use rubcase_lab.Storage.Page.{Bytes}
use rubcase_lab.Storage.Posix.{Posix}
use rubcase_lab.Storage.Disk.{DiskState, DiskError, unix_error, Outcome, create_file, open_file}
use rubcase_lab.Index.Manager.{
  IxFileOutcome, disk_error, invalid_col_length_error, index_pages, write_pages, new_index_hdr,
}

module _ (P : Posix) (to_string : ℕ → String) where
  -- The tables of open files are the same.
  abbrev pub SameTables : DiskState P → DiskState P → Type 0
  SameTables s d = (d.path2fd ≡ s.path2fd) × (d.fd2path ≡ s.fd2path)

  -- The file `name` is made and opened as `fd`, with a disk of `d` afterwards.
  pub record Opened (s d : DiskState P) (name : String) (fd : ℕ) : Type 0 where
    pub c : DiskState P
    pub made : create_file P s name ≡ (c, Outcome.returns tt)
    pub opens : open_file P c name ≡ (d, Outcome.returns fd)

  -- What `create_index` may come to, for the file `name` and columns of `n` bytes: a file that is
  -- opened is closed again only where all went well.
  pub data Creates (s : DiskState P) (name : String) (t : ColType) (n : ℕ) (any_bytes : Bytes)
      : DiskState P × IxFileOutcome (Unit {0}) → Type 0 where
    not_created :
        (d : DiskState P) (e : DiskError)
        → create_file P s name ≡ (d, Outcome.throws e)
        → SameTables s d
        → Creates s name t n any_bytes (d, IxFileOutcome.throws (disk_error e))
    not_opened :
        (c d : DiskState P) (e : DiskError)
        → create_file P s name ≡ (c, Outcome.returns tt)
        → open_file P c name ≡ (d, Outcome.throws e)
        → SameTables s d
        → Creates s name t n any_bytes (d, IxFileOutcome.throws (disk_error e))
    too_long :
        (d : DiskState P) (fd : ℕ)
        → Opened s d name fd
        → 512 < n
        → d.path2fd name ≡ some fd
        → Creates s name t n any_bytes (d, IxFileOutcome.throws (invalid_col_length_error n))
    not_written :
        (d w : DiskState P) (fd : ℕ) (h : IxFileHdr)
        → Opened s d name fd
        → n ≤ 512
        → new_index_hdr t n ≡ IxFileOutcome.returns h
        → write_pages P to_string d fd (index_pages h any_bytes) ≡ (w, false)
        → w.path2fd name ≡ some fd
        → Creates s name t n any_bytes (w, IxFileOutcome.throws (disk_error unix_error))
    created :
        (d w closed : DiskState P) (fd : ℕ) (h : IxFileHdr)
        → Opened s d name fd
        → n ≤ 512
        → new_index_hdr t n ≡ IxFileOutcome.returns h
        → write_pages P to_string d fd (index_pages h any_bytes) ≡ (w, true)
        → closed.os ≡ P.close w.os fd
        → ((p : String) → closed.path2fd p ≡ s.path2fd p)
        → closed.fd2path fd ≡ none
        → Creates s name t n any_bytes (closed, IxFileOutcome.returns tt)
