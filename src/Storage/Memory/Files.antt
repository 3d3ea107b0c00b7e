-- ===== src/Storage/Memory/Files.antt =====
-- Files in memory that keep the laws of POSIX, for the examples.
use rubcase_lab.Base.{
  ℕ, ◌+◌, ◌-◌, ◌≤◌, ◌≡◌, ◌≢◌, ◌⊎◌, refl, ap, ◌∙◌, true, false, ◌&&◌, ltb, leb, if◌then◌else◌,
  length, get_or, arith, update,
}
use rubcase_lab.Base.Int.{ℤ, pos, negsuc}
use rubcase_lab.Storage.Page.{Bytes}
use rubcase_lab.Storage.Posix.{Posix}
use rubcase_lab.Storage.Memory.{tabulate, length-tabulate, tabulate-get_or, tabulate_cong}

-- The bytes and the offset of each descriptor.
pub record Files : Type 0 where
  pub cells : ℕ → ℕ → ℕ
  pub offset : ℕ → ℕ

abbrev pub seek : Files → ℕ → ℤ → Files
seek o fd (pos n) = record o { offset = update o.offset fd n }
seek o fd (negsuc n) = o

-- The cell of a file after `b` is written at `at`.
abbrev pub cell : (ℕ → ℕ) → ℕ → Bytes → ℕ → ℕ
cell c at b i = if leb at i && ltb i (at + length b) then get_or b (i - at) 0 else c i

abbrev pub write : Files → ℕ → Bytes → Files
write o fd b = record o {
  cells = update o.cells fd (cell (o.cells fd) (o.offset fd) b);
  offset = update o.offset fd (o.offset fd + length b);
}

abbrev pub bytes_at : Files → ℕ → ℕ → ℕ → Bytes
bytes_at o fd off n = tabulate n (λ i. o.cells fd (off + i))

pub cells-seek : (o : Files) (fd : ℕ) (z : ℤ) (g : ℕ) → (seek o fd z).cells g ≡ o.cells g
cells-seek o fd (pos n) g = refl
cells-seek o fd (negsuc n) g = refl

pub bytes_at-write :
    (o : Files) (fd : ℕ) (b : Bytes) → bytes_at (write o fd b) fd (o.offset fd) (length b) ≡ b
bytes_at-write o fd b =
    tabulate_cong (length b) _ (λ i. get_or b i 0)
      (λ i p.
        let back : o.offset fd + i - o.offset fd ≡ i = omega arith in
        ground (arith, ap (λ k. get_or b k 0) back))
    ∙ tabulate-get_or b

pub bytes_at-write_apart :
    (o : Files) (fd : ℕ) (b : Bytes) (off n : ℕ)
    → (off + n ≤ o.offset fd) ⊎ (o.offset fd + length b ≤ off)
    → bytes_at (write o fd b) fd off n ≡ bytes_at o fd off n
bytes_at-write_apart o fd b off n h =
    tabulate_cong n _ (λ i. o.cells fd (off + i)) (λ i p. ground arith)

pub bytes_at-write_other :
    (o : Files) (fd g : ℕ) (b : Bytes) (off n : ℕ)
    → fd ≢ g
    → bytes_at (write o fd b) g off n ≡ bytes_at o g off n
bytes_at-write_other o fd g b off n h =
    tabulate_cong n _ (λ i. o.cells g (off + i)) (λ i p. ground arith)

pub offset-seek : (o : Files) (fd n : ℕ) → (seek o fd (pos n)).offset fd ≡ n
offset-seek o fd n = ground arith

abbrev pub memory_files : Posix
memory_files = record {
  Os = Files;
  lseek = seek;
  write = λ o fd b. (write o fd b, pos (length b));
  read = λ o fd n b. (o, bytes_at o fd (o.offset fd) n, pos n);
  is_regular = λ o path. true;
  open_existing = λ o path. (o, pos 3);
  open_creat = λ o path. (o, pos 3);
  close = λ o fd. o;
  unlink = λ o path. (o, pos 0);
  file_size = λ o path. pos 0;
  is_directory = λ o path. false;
  system = λ o command. (o, pos 0);
  lseek_end = λ o fd. o;
  position = λ o fd. o.offset fd;
  bytes_at = bytes_at;
  length-bytes_at = λ o fd off n. length-tabulate n (λ i. o.cells fd (off + i));
  position-lseek = offset-seek;
  bytes_at-lseek = λ o fd z g off n. ap (λ c. tabulate n (λ i. c (off + i))) (cells-seek o fd z g);
  bytes_at-write = λ o fd b e. bytes_at-write o fd b;
  bytes_at-write_apart = bytes_at-write_apart;
  bytes_at-write_other = bytes_at-write_other;
  read_lem = λ o fd n b e. refl;
  bytes_at-read = λ o fd k b g off n. refl;
}

abbrev pub no_files : Files
no_files = record { cells = λ _ _. 0; offset = λ _. 0 }
