-- ===== src/Storage/Disk/Files.antt =====
-- The two tables of open files.
use Prim.Native.String.{String}
use text.Mathlib.TextEquality.{eq_iff}
use rubcase_lab.Base.{ℕ, ◌≡◌, ◌≢◌, none, some, arith}
use rubcase_lab.Storage.Posix.{Posix}
use rubcase_lab.Storage.Disk.{
  DiskState, file_not_found_error, returns, throws, init, open_file, close_file, get_file_fd,
  get_file_name,
}

module _ (P : Posix) where
  -- The tables say the same: a path has a descriptor exactly when that descriptor has the path.
  pub record Consistent (s : DiskState P) : Type 0 where
    pub opened : (path : String) (fd : ℕ) → s.path2fd path ≡ some fd → s.fd2path fd ≡ some path
    pub named : (fd : ℕ) (path : String) → s.fd2path fd ≡ some path → s.path2fd path ≡ some fd

  pub init-Consistent : (os : P.Os) → Consistent (init P os)
  unfolding init
  init-Consistent os = record { opened = λ path fd e. cc; named = λ fd path e. cc }

  module _ (s : DiskState P) (c : Consistent s) where
    -- To open a file that `stat` finds and that is not open, where `open` returns a descriptor that
    -- is not in use, keeps the tables consistent and enters the file in both.
    pub open_file-Consistent :
        (path : String) (fd : ℕ)
        → (open_file P s path).1 ≡ returns fd
        → s.fd2path fd ≡ none
        → Consistent (open_file P s path).0
          × ((open_file P s path).0.path2fd path ≡ some fd)
          × ((open_file P s path).0.fd2path fd ≡ some path)
          × (s.path2fd path ≡ none)
    unfolding open_file
    open_file-Consistent path fd e fresh = (
      record {
        opened = λ q g m. ground (arith, eq_iff path q, c.opened q g);
        named = λ g q m. ground (arith, eq_iff path q, c.named g q);
      },
      ground (arith, eq_iff path path),
      ground arith,
      ground arith,
    )

    -- A file that is open cannot be opened again, and the attempt changes nothing.
    pub open_file_twice :
        (path : String) (fd : ℕ)
        → s.path2fd path ≡ some fd
        → open_file P s path ≡ (s, throws (file_not_found_error path))
    unfolding open_file
    open_file_twice path fd e = ground arith

    -- To close a descriptor takes its file out of both tables and keeps them consistent.
    pub close_file-Consistent :
        (fd : ℕ) (path : String)
        → s.fd2path fd ≡ some path
        → Consistent (close_file P s fd)
          × ((close_file P s fd).path2fd path ≡ none)
          × ((close_file P s fd).fd2path fd ≡ none)
          × ((q : String) → q ≢ path → (close_file P s fd).path2fd q ≡ s.path2fd q)
    unfolding close_file
    close_file-Consistent fd path e = (
      record {
        opened = λ q g m. ground (arith, eq_iff path q, c.opened q g, c.named fd path e);
        named = λ g q m. ground (arith, eq_iff path q, c.named g q, c.named fd path e);
      },
      ground (arith, eq_iff path path),
      ground arith,
      λ q h. ground (arith, eq_iff path q),
    )

    -- `GetFileFd` of an open file returns its descriptor and changes nothing, and `GetFileName`
    -- turns the descriptor back into the path.
    pub get_file_fd-get_file_name :
        (path : String) (fd : ℕ)
        → s.path2fd path ≡ some fd
        → (get_file_fd P s path ≡ (s, returns fd)) × (get_file_name P s fd ≡ returns path)
    unfolding get_file_fd get_file_name
    get_file_fd-get_file_name path fd e = (ground arith, ground (arith, c.opened path fd e))
