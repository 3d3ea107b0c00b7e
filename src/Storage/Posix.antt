-- ===== src/Storage/Posix.antt =====
-- The calls of the operating system that src/storage/disk_manager.cpp makes. They are not in this
-- repository: the laws state what the documentation of POSIX says of regular files.
use Prim.Native.String.{String}
use rubcase_lab.Base.{ℕ, ◌+◌, ◌≤◌, ◌≡◌, ◌≢◌, ◌⊎◌, Bool, length}
use rubcase_lab.Base.Int.{ℤ, pos}
use rubcase_lab.Storage.Page.{Bytes}

pub record Posix : Type 1 where
  pub Os : Type 0
  -- `lseek` with SEEK_SET, its result dropped; `write`; `read` of a count into a buffer.
  pub lseek : Os → ℕ → ℤ → Os
  pub write : Os → ℕ → Bytes → Os × ℤ
  pub read : Os → ℕ → ℕ → Bytes → Os × Bytes × ℤ
  -- `stat` succeeds and S_ISREG; `open` with O_RDWR, and with O_CREAT | O_RDWR; `close`; `unlink`.
  pub is_regular : Os → String → Bool
  pub open_existing : Os → String → Os × ℤ
  pub open_creat : Os → String → Os × ℤ
  pub close : Os → ℕ → Os
  pub unlink : Os → String → Os × ℤ
  -- `st_size` after `stat`, -1 if it fails; `stat` succeeds and S_ISDIR; `system`; `lseek` to the end.
  pub file_size : Os → String → ℤ
  pub is_directory : Os → String → Bool
  pub system : Os → String → Os × ℤ
  pub lseek_end : Os → ℕ → Os
  -- The file offset of a descriptor, and the bytes of its file in a range, 0 past the end.
  pub position : Os → ℕ → ℕ
  pub bytes_at : Os → ℕ → ℕ → ℕ → Bytes
  pub length-bytes_at : (o : Os) (fd off n : ℕ) → length (bytes_at o fd off n) ≡ n
  pub position-lseek : (o : Os) (fd n : ℕ) → position (lseek o fd (pos n)) fd ≡ n
  pub bytes_at-lseek :
      (o : Os) (fd : ℕ) (z : ℤ) (g off n : ℕ) → bytes_at (lseek o fd z) g off n ≡ bytes_at o g off n
  -- A write of all its bytes is read back where it began.
  pub bytes_at-write :
      (o : Os) (fd : ℕ) (b : Bytes)
      → (write o fd b).1 ≡ pos (length b)
      → bytes_at (write o fd b).0 fd (position o fd) (length b) ≡ b
  -- A write leaves what lies before or behind it, and the files of other descriptors: no file is
  -- open twice.
  pub bytes_at-write_apart :
      (o : Os) (fd : ℕ) (b : Bytes) (off n : ℕ)
      → (off + n ≤ position o fd) ⊎ (position o fd + length b ≤ off)
      → bytes_at (write o fd b).0 fd off n ≡ bytes_at o fd off n
  pub bytes_at-write_other :
      (o : Os) (fd g : ℕ) (b : Bytes) (off n : ℕ)
      → fd ≢ g
      → bytes_at (write o fd b).0 g off n ≡ bytes_at o g off n
  -- A read of the whole count gives the bytes at the offset, and changes none.
  pub read_lem :
      (o : Os) (fd n : ℕ) (b : Bytes)
      → (read o fd n b).2 ≡ pos n
      → (read o fd n b).1 ≡ bytes_at o fd (position o fd) n
  pub bytes_at-read :
      (o : Os) (fd k : ℕ) (b : Bytes) (g off n : ℕ)
      → bytes_at (read o fd k b).0 g off n ≡ bytes_at o g off n
