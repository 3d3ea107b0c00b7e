-- ===== src/Storage/Memory.antt =====
-- A disk in memory, for the examples: the interface of the disk manager and the laws of POSIX can be
-- kept.
pub mod Files
use mathlib.Core.Logic.{ite, if_pos, if_neg}
use rubcase_lab.Base.{
  ℕ, zero, suc, ◌+◌, ◌<◌, ◌≡◌, refl, ap, ap₂, sym, ◌∙◌, Bool, true, false, not, if◌then◌else◌, List,
  [], ◌∷◌, length, get_or, arith, update,
}
use rubcase_lab.Base.Int.{ℤ, pos, inc32}
use rubcase_lab.Storage.DiskInterface.{DiskManager}
use rubcase_lab.Storage.Page.{PageId, PageId-discrete, Bytes, page_size}

-- The first `n` values of a function.
unfoldable pub tabulate : ℕ → (ℕ → ℕ) → List ℕ
tabulate zero f = []
tabulate (suc n) f = f 0 ∷ tabulate n (λ i. f (suc i))

pub length-tabulate : (n : ℕ) (f : ℕ → ℕ) → length (tabulate n f) ≡ n
unfolding tabulate
length-tabulate zero f = refl
length-tabulate (suc n) f = ap suc (length-tabulate n (λ i. f (suc i)))

pub tabulate-get_or : (b : List ℕ) → tabulate (length b) (λ i. get_or b i 0) ≡ b
unfolding tabulate
tabulate-get_or [] = refl
tabulate-get_or (x ∷ b) = ap (◌∷◌ x) (tabulate-get_or b)

pub tabulate_cong :
    (n : ℕ) (f g : ℕ → ℕ) → ((i : ℕ) → i < n → f i ≡ g i) → tabulate n f ≡ tabulate n g
unfolding tabulate
tabulate_cong zero f g h = refl
tabulate_cong (suc n) f g h =
    ap₂ ◌∷◌ (h 0 (omega arith))
      (tabulate_cong n (λ i. f (suc i)) (λ i. g (suc i)) (λ i p. h (suc i) (omega arith)))

-- What stands in each page, and the next number of each file.
pub record Memory : Type 0 where
  pub cells : PageId → ℕ → ℕ
  pub next : ℕ → ℤ

abbrev pub written : Memory → PageId → Bytes → Memory
written d p b = record d { cells = λ q. ite (PageId-discrete p q) (λ i. get_or b i 0) (d.cells q) }

pub stored-written :
    (d : Memory) (p q : PageId) (b : Bytes)
    → length b ≡ page_size
    → tabulate page_size ((written d p b).cells q)
      ≡ ite (PageId-discrete p q) b (tabulate page_size (d.cells q))
stored-written d p q b e = elim (PageId-discrete p q) [
  | yes same ↦ rw (if_pos _ same, if_pos _ same) (rw (← e) (tabulate-get_or b))
  | no other ↦ rw (if_neg _ other, if_neg _ other) refl
]

-- A read that does not fail fills the buffer.
pub read_whole :
    (fails : Bool) (old new : Bytes) → not fails ≡ true → (if fails then old else new) ≡ new
read_whole fails old new e = ground arith

-- `bad` says which pages cannot be read.
abbrev pub memory_disk : (PageId → Bool) → DiskManager
memory_disk bad = record {
  Disk = Memory;
  write_page = λ d p b. (written d p b, true);
  read_page = λ d p b. (d, (if bad p then b else tabulate page_size (d.cells p)), not (bad p));
  allocate_page = λ d fd. (record d { next = update d.next fd (inc32 (d.next fd)) }, d.next fd);
  deallocate_page = λ d n. d;
  stored = λ d p. tabulate page_size (d.cells p);
  length-stored = λ d p. length-tabulate page_size (d.cells p);
  stored-write_page = λ d p q b pf qf e w. stored-written d p q b e;
  stored-read_page = λ d p q b. refl;
  read_page_lem = λ d p b pf e. read_whole (bad p) b (tabulate page_size (d.cells p)) e;
  stored-allocate_page = λ d fd q. refl;
}

abbrev pub empty_disk : Memory
empty_disk = record { cells = λ _ _. 0; next = λ _. pos 0 }
