-- ===== src/Storage/Disk/Pages.antt =====
-- `write_page`, `read_page` and `AllocatePage` keep what the buffer pool asks of a disk manager.
use mathlib.Core.Logic.{ite, if_pos, if_neg}
use native.Mathlib.Decide.{ℕ_discrete}
use rubcase_lab.Base.{ℕ, ◌+◌, ◌-◌, ◌*◌, ◌<◌, ◌⊎◌, ◌≤◌, ◌≡◌, ◌≢◌, refl, ap, ◌∙◌, true, length, arith}
use rubcase_lab.Base.Int.{ℤ, pos, negsuc}
use rubcase_lab.Storage.DiskInterface.{DiskManager}
use rubcase_lab.Storage.Page.{PageId, PageId-discrete, Bytes, page_size, InFile}
use rubcase_lab.Storage.Posix.{Posix}
use rubcase_lab.Storage.Disk.{
  DiskState, page_offset, write_page, read_page, allocate_page, deallocate_page,
}

-- The offset of a page below 524288 is the true product.
pub page_offset_exact : (n : ℕ) → n < 524288 → page_offset (pos n) ≡ pos (n * page_size)
unfolding page_offset
page_offset_exact n h = ground arith

-- From page 1048576 on the offset has wrapped: a page lies where the page 1048576 numbers below it
-- lies.
pub page_offset_wraps : (n : ℕ) → page_offset (pos (n + 1048576)) ≡ page_offset (pos n)
unfolding page_offset
page_offset_wraps n = ground arith

-- The page numbers from 524288 to 1048575 have a negative offset.
pub page_offset_negative :
    (n : ℕ) → n < 524288 → (k : ℕ) × (page_offset (pos (n + 524288)) ≡ negsuc k)
unfolding page_offset
page_offset_negative n h = (2147483647 - n * page_size, ground arith)

module _ (P : Posix) where
  abbrev place : ℤ → ℕ
  place (pos n) = n * page_size
  place (negsuc n) = 0

  -- The bytes at the place of a page.
  unfoldable pub stored : DiskState P → PageId → Bytes
  stored s p = P.bytes_at s.os p.fd (place p.page_no) page_size

  position_page :
      (o : P.Os) (fd : ℕ) (z : ℤ)
      → InFile z
      → P.position (P.lseek o fd (page_offset z)) fd ≡ place z
  position_page o fd (pos n) h = rw (page_offset_exact n h) (P.position-lseek o fd (n * page_size))
  position_page o fd (negsuc n) h = absurd h

  -- Two pages of a file do not overlap.
  place_apart :
      (z w : ℤ)
      → InFile z
      → InFile w
      → z ≢ w
      → (place w + page_size ≤ place z) ⊎ (place z + page_size ≤ place w)
  place_apart (pos n) (pos m) zf wf h = numbers (λ e. h (ap pos e))
    where
      numbers :
          n ≢ m
          → (m * page_size + page_size ≤ n * page_size)
            ⊎ (n * page_size + page_size ≤ m * page_size)
      numbers k = omega arith
  place_apart (negsuc n) w zf wf h = absurd zf
  place_apart (pos n) (negsuc m) zf wf h = absurd wf

  module _ (o : P.Os) (fd : ℕ) (z : ℤ) (b : Bytes) (zf : InFile z)
      (size : length b ≡ page_size) where
    abbrev seeked : P.Os
    seeked = P.lseek o fd (page_offset z)

    written_same :
        (P.write seeked fd b).1 ≡ pos (length b)
        → P.bytes_at (P.write seeked fd b).0 fd (place z) page_size ≡ b
    written_same e = rw (← position_page o fd z zf, ← size) (P.bytes_at-write seeked fd b e)

    written_other :
        (g : ℕ) (w : ℤ)
        → fd ≢ g
        → P.bytes_at (P.write seeked fd b).0 g (place w) page_size
          ≡ P.bytes_at o g (place w) page_size
    written_other g w h =
        P.bytes_at-write_other seeked fd g b (place w) page_size h
        ∙ P.bytes_at-lseek o fd (page_offset z) g (place w) page_size

    written_apart :
        (w : ℤ)
        → InFile w
        → z ≢ w
        → P.bytes_at (P.write seeked fd b).0 fd (place w) page_size
          ≡ P.bytes_at o fd (place w) page_size
    written_apart w wf h =
        P.bytes_at-write_apart seeked fd b (place w) page_size
          (rw (position_page o fd z zf, size) (place_apart z w zf wf h))
        ∙ P.bytes_at-lseek o fd (page_offset z) fd (place w) page_size

  -- A write of a whole page with a number below 524288 that does not throw is read back, and no other
  -- page with such a number is changed, by the laws of `Posix`, which are those of files none of
  -- which is open twice.
  pub stored-write_page :
      (s : DiskState P) (p q : PageId) (b : Bytes)
      → InFile p.page_no
      → InFile q.page_no
      → length b ≡ page_size
      → (write_page P s p.fd p.page_no b).1 ≡ true
      → stored (write_page P s p.fd p.page_no b).0 q ≡ ite (PageId-discrete p q) b (stored s q)
  unfolding write_page stored
  stored-write_page s p q b pf qf size e =
      let full : (P.write (P.lseek s.os p.fd (page_offset p.page_no)) p.fd b).1 ≡ pos (length b) =
        ground arith in
      elim (PageId-discrete p q) [
        | yes same ↦ rw (if_pos _ same, ← same) (written_same s.os p.fd p.page_no b pf size full)
        | no other ↦ rw (if_neg _ other) (elim (ℕ_discrete p.fd q.fd) [
          | no files ↦ written_other s.os p.fd p.page_no b pf size q.fd q.page_no files
          | yes file ↦ rw (← file) (
              written_apart s.os p.fd p.page_no b pf size q.page_no qf
                (λ number. other (λ i. record { fd = file i; page_no = number i })))
        ])
      ]

  module _ (s : DiskState P) (p : PageId) (b : Bytes) where
    pub stored-read_page :
        (q : PageId) → stored (read_page P s p.fd p.page_no page_size b).0 q ≡ stored s q
    unfolding read_page stored
    stored-read_page q =
        P.bytes_at-read (P.lseek s.os p.fd (page_offset p.page_no)) p.fd page_size b q.fd
          (place q.page_no) page_size
        ∙ P.bytes_at-lseek s.os p.fd (page_offset p.page_no) q.fd (place q.page_no) page_size

    -- A read of a whole page with a number below 524288 that does not throw gives the bytes at its
    -- place.
    pub read_page_lem :
        InFile p.page_no
        → (read_page P s p.fd p.page_no page_size b).2 ≡ true
        → (read_page P s p.fd p.page_no page_size b).1 ≡ stored s p
    unfolding read_page stored
    read_page_lem h e =
        let seeked = P.lseek s.os p.fd (page_offset p.page_no) in
        let full : (P.read seeked p.fd page_size b).2 ≡ pos page_size = ground arith in
        P.read_lem seeked p.fd page_size b full
        ∙ P.bytes_at-lseek s.os p.fd (page_offset p.page_no) p.fd (P.position seeked p.fd) page_size
        ∙ ap (λ k. P.bytes_at s.os p.fd k page_size) (position_page s.os p.fd p.page_no h)

  pub length-stored : (s : DiskState P) (p : PageId) → length (stored s p) ≡ page_size
  unfolding stored
  length-stored s p = P.length-bytes_at s.os p.fd (place p.page_no) page_size

  pub stored-allocate_page :
      (s : DiskState P) (fd : ℕ) (q : PageId) → stored (allocate_page P s fd).0 q ≡ stored s q
  unfolding allocate_page stored
  stored-allocate_page s fd q = refl

  abbrev pub posix_disk : DiskManager
  posix_disk = record {
    Disk = DiskState P;
    write_page = λ s p b. write_page P s p.fd p.page_no b;
    read_page = λ s p b. read_page P s p.fd p.page_no page_size b;
    allocate_page = allocate_page P;
    deallocate_page = deallocate_page P;
    stored = stored;
    length-stored = length-stored;
    stored-write_page = stored-write_page;
    stored-read_page = λ d p q b. stored-read_page d p b q;
    read_page_lem = read_page_lem;
    stored-allocate_page = stored-allocate_page;
  }
