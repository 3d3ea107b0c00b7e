-- ===== src/Storage/DiskInterface.antt =====
-- src/storage/disk_manager.h as the buffer pool uses it. A call that can throw UnixError returns
-- false where it does, beside the state that it leaves.
use mathlib.Core.Logic.{ite}
use rubcase_lab.Base.{ℕ, ◌≡◌, Bool, true, length}
use rubcase_lab.Base.Int.{ℤ}
use rubcase_lab.Storage.Page.{PageId, PageId-discrete, Bytes, page_size, InFile}

pub record DiskManager : Type 1 where
  pub Disk : Type 0
  pub write_page : Disk → PageId → Bytes → Disk × Bool
  -- The last argument is the buffer that is filled.
  pub read_page : Disk → PageId → Bytes → Disk × Bytes × Bool
  pub allocate_page : Disk → ℕ → Disk × ℤ
  pub deallocate_page : Disk → ℤ → Disk
  -- The bytes that stand at the place of a page.
  pub stored : Disk → PageId → Bytes
  pub length-stored : (d : Disk) (p : PageId) → length (stored d p) ≡ page_size
  pub stored-write_page :
      (d : Disk) (p q : PageId) (b : Bytes)
      → InFile p.page_no
      → InFile q.page_no
      → length b ≡ page_size
      → (write_page d p b).1 ≡ true
      → stored (write_page d p b).0 q ≡ ite (PageId-discrete p q) b (stored d q)
  pub stored-read_page :
      (d : Disk) (p q : PageId) (b : Bytes) → stored (read_page d p b).0 q ≡ stored d q
  pub read_page_lem :
      (d : Disk) (p : PageId) (b : Bytes)
      → InFile p.page_no
      → (read_page d p b).2 ≡ true
      → (read_page d p b).1 ≡ stored d p
  pub stored-allocate_page :
      (d : Disk) (fd : ℕ) (q : PageId) → stored (allocate_page d fd).0 q ≡ stored d q
