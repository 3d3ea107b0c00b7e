-- ===== src/Storage/Disk.antt =====
-- src/storage/disk_manager.h and disk_manager.cpp, over the calls of the operating system. The log
-- files and the directories are in the child Log.
pub mod Pages
pub mod Files
pub mod Log
mod Tests
use Prim.Native.String.{String}
use text.Mathlib.Text.{◌==◌ as str_eq}
use mathlib.Core.Logic.{ite}
use rubcase_lab.Base.{
  ℕ, Bool, true, false, ◌&&◌, not, ◌==◌, if◌then◌else◌, Option, none, some, update, length,
}
use rubcase_lab.Base.Int.{ℤ, pos, negsuc, ℤ-discrete, mul32, inc32}
use rubcase_lab.Storage.Page.{Bytes, page_size}
use rubcase_lab.Storage.Posix.{Posix}

-- The exceptions of src/errors.h that a disk manager throws.
pub data DiskError : Type 0 where
  unix_error : DiskError
  file_exists_error file_not_found_error : String → DiskError
  file_not_open_error : ℕ → DiskError

pub data Outcome (A : Type 0) : Type 0 where
  returns : A → Outcome A
  throws : DiskError → Outcome A

-- `std::unordered_map<std::string, int>`, as the function that looks a path up.
abbrev pub update_path : (String → Option ℕ) → String → Option ℕ → String → Option ℕ
update_path m k v j = if str_eq k j then v else m j

abbrev is_some : Option ℕ → Bool
is_some none = false
is_some (some _) = true

-- `page_no * PAGE_SIZE`, an `int`: from page 524288 on it does not fit and wraps.
unfoldable pub page_offset : ℤ → ℤ
unfolding mul32
page_offset page_no = mul32 page_no page_size

module _ (P : Posix) where
  pub record DiskState : Type 0 where
    pub os : P.Os
    pub path2fd : String → Option ℕ
    pub fd2path : ℕ → Option String
    -- The next page number of each descriptor.
    pub fd2pageno : ℕ → ℤ
    pub log_fd : ℤ

  unfoldable pub init : P.Os → DiskState
  init os = record {
    os = os;
    path2fd = λ _. none;
    fd2path = λ _. none;
    fd2pageno = λ _. pos 0;
    log_fd = negsuc 0;
  }

  -- False is UnixError; the result of `lseek` is not looked at.
  unfoldable pub write_page : DiskState → ℕ → ℤ → Bytes → DiskState × Bool
  unfolding page_offset ℤ-discrete
  write_page s fd page_no bytes =
      let (os', bytes_written) = P.write (P.lseek s.os fd (page_offset page_no)) fd bytes in
      (record s { os = os' }, ite (ℤ-discrete bytes_written (pos (length bytes))) true false)

  -- The last argument is the buffer, of which `num_bytes` bytes are filled.
  unfoldable pub read_page : DiskState → ℕ → ℤ → ℕ → Bytes → DiskState × Bytes × Bool
  unfolding page_offset ℤ-discrete
  read_page s fd page_no num_bytes buffer =
      let (os', bytes, bytes_read) =
        P.read (P.lseek s.os fd (page_offset page_no)) fd num_bytes buffer in
      (record s { os = os' }, bytes, ite (ℤ-discrete bytes_read (pos num_bytes)) true false)

  -- `fd2pageno_[fd]++`.
  unfoldable pub allocate_page : DiskState → ℕ → DiskState × ℤ
  unfolding inc32
  allocate_page s fd =
      (record s { fd2pageno = update s.fd2pageno fd (inc32 (s.fd2pageno fd)) }, s.fd2pageno fd)

  unfoldable pub deallocate_page : DiskState → ℤ → DiskState
  deallocate_page s page_id = s

  unfoldable pub set_fd2pageno : DiskState → ℕ → ℤ → DiskState
  set_fd2pageno s fd start = record s { fd2pageno = update s.fd2pageno fd start }

  unfoldable pub is_file : DiskState → String → Bool
  is_file s path = P.is_regular s.os path

  unfoldable pub create_file : DiskState → String → DiskState × Outcome (Unit {0})
  unfolding is_file
  create_file s path =
      let (opened, ret) = P.open_creat s.os path in
      if is_file s path then (s, throws (file_exists_error path)) else elim ret [
        | pos fd ↦ (record s { os = P.close opened fd }, returns tt)
        | negsuc _ ↦ (record s { os = opened }, throws unix_error)
      ]

  unfoldable pub destroy_file : DiskState → String → DiskState × Outcome (Unit {0})
  unfolding is_file
  destroy_file s path =
      let (os', ret) = P.unlink s.os path in
      if is_file s path
      then elim ret [
        | pos _ ↦ (record s { os = os' }, returns tt)
        | negsuc _ ↦ (record s { os = os' }, throws unix_error)
      ]
      else (s, throws (file_not_found_error path))

  unfoldable pub open_file : DiskState → String → DiskState × Outcome ℕ
  unfolding is_file
  open_file s path =
      let (os', ret) = P.open_existing s.os path in
      if is_file s path && not (is_some (s.path2fd path))
      then elim ret [
        | pos fd ↦ (
          record s {
            os = os';
            path2fd = update_path s.path2fd path (some fd);
            fd2path = update s.fd2path fd (some path);
          },
          returns fd,
        )
        | negsuc _ ↦ (record s { os = os' }, throws unix_error)
      ]
      else (s, throws (file_not_found_error path))

  -- A descriptor that is not in the table is left alone.
  unfoldable pub close_file : DiskState → ℕ → DiskState
  close_file s fd = elim (s.fd2path fd) [
    | none ↦ s
    | some path ↦ record s {
      os = P.close s.os fd;
      path2fd = update_path s.path2fd path none;
      fd2path = update s.fd2path fd none;
    }
  ]

  unfoldable pub get_file_name : DiskState → ℕ → Outcome String
  get_file_name s fd = elim (s.fd2path fd) [
    | none ↦ throws (file_not_open_error fd)
    | some path ↦ returns path
  ]

  unfoldable pub get_file_fd : DiskState → String → DiskState × Outcome ℕ
  unfolding open_file
  get_file_fd s path = elim (s.path2fd path) [ none ↦ open_file s path | some fd ↦ (s, returns fd) ]
