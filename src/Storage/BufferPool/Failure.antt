-- ===== src/Storage/BufferPool/Failure.antt =====
-- What `FetchPage` leaves behind when the disk manager throws, and when it does not.
use rubcase_lab.Base.{
  ℕ, ◌≡◌, ap, ◌∙◌, ◌⊎◌, inl, inr, true, false, none, some, contains, Option-cases, arith,
}
use rubcase_lab.Replacer.Interface.{Replacer}
use rubcase_lab.Storage.DiskInterface.{DiskManager}
use rubcase_lab.Storage.Page.{PageId, Page, Bytes, InFile, blank}
use rubcase_lab.Storage.BufferPool.{BufferPool, Fetched, load, find_victim_page, fetch_page}
use rubcase_lab.Storage.BufferPool.Invariant.{IsValid}
use rubcase_lab.Storage.BufferPool.Victim.{find_victim_page-Vacant, find_victim_page-absent}
use rubcase_lab.Storage.BufferPool.Fetch.{miss_load}

module _ (R : Replacer) (D : DiskManager) where
  -- A hit pins the frame and changes no byte of it.
  hit_again :
      (c : BufferPool R D) (p : PageId) (f : ℕ)
      → c.page_table p ≡ some f
      → ((fetch_page R D c p).1 ≡ Fetched.page f)
        × (((fetch_page R D c p).0.pages f).content ≡ (c.pages f).content)
  unfolding fetch_page
  hit_again c p f e = ground arith

  -- A search takes a frame off a list: it touches neither the frames nor the disk.
  find_victim_page_rest :
      (b : BufferPool R D) (f : ℕ)
      → (((find_victim_page R D b).0.pages f) ≡ b.pages f)
        × (D.write_page
              (find_victim_page R D b).0.disk
              ((find_victim_page R D b).0.pages f).id
              ((find_victim_page R D b).0.pages f).content
            ≡ D.write_page b.disk (b.pages f).id (b.pages f).content)
  unfolding find_victim_page
  find_victim_page_rest b f = ground arith

  no_victim :
      (b : BufferPool R D) (f : ℕ)
      → IsValid R D b
      → (find_victim_page R D b).1 ≡ none
      → (contains f b.free_list ≡ true) ⊎ (R.has b.replacer f ≡ true)
      → ⊥
  unfolding find_victim_page contains
  no_victim b f v e there = ground (arith, R.victim_none b.replacer f v.replacer_valid)

  module _ (b : BufferPool R D) (p : PageId) (f : ℕ) where
    -- The disk after the write of the frame.
    abbrev after_write : D.Disk
    after_write = (D.write_page b.disk (b.pages f).id (b.pages f).content).0

    load_total :
        ((d : D.Disk) (q : PageId) (bytes : Bytes) → (D.write_page d q bytes).1 ≡ true)
        → ((d : D.Disk) (bytes : Bytes) → (D.read_page d p bytes).2 ≡ true)
        → (load R D b p f).1 ≡ Fetched.page f
    unfolding load
    load_total writes reads = ground (
      arith,
      writes b.disk (b.pages f).id (b.pages f).content,
      reads b.disk (b.pages f).content,
      reads after_write blank,
    )

    load_failed_read :
        InFile p.page_no
        → b.page_table p ≡ none
        → (b.pages f).is_dirty ≡ true
        → (D.write_page b.disk (b.pages f).id (b.pages f).content).1 ≡ true
        → (D.read_page after_write p blank).2 ≡ false
        → ((load R D b p f).1 ≡ Fetched.unix_error)
          × ((load R D b p f).0.page_table p ≡ some f)
          × ((load R D b p f).0.replacer ≡ b.replacer)
          × (((load R D b p f).0.pages f).content ≡ (D.read_page after_write p blank).1)
    unfolding load
    load_failed_read h absent dirty wrote failed = ground arith

  module _ (b : BufferPool R D) (p : PageId) where
    -- In a well-formed pool, while no write and no read of the page throws, `FetchPage` returns a
    -- page as soon as a frame is free or may be evicted.
    pub fetch_page_total :
        (f : ℕ)
        → IsValid R D b
        → ((d : D.Disk) (q : PageId) (bytes : Bytes) → (D.write_page d q bytes).1 ≡ true)
        → ((d : D.Disk) (bytes : Bytes) → (D.read_page d p bytes).2 ≡ true)
        → (contains f b.free_list ≡ true) ⊎ (R.has b.replacer f ≡ true)
        → (g : ℕ) × ((fetch_page R D b p).1 ≡ Fetched.page g)
    unfolding fetch_page contains
    fetch_page_total f v writes reads there = elim (Option-cases (b.page_table p)) [
      | inr (g, e) ↦ (g, ground arith)
      | inl e ↦ elim (Option-cases (find_victim_page R D b).1) [
        | inl x ↦ absurd (no_victim b f v x there)
        | inr (g, x) ↦
            (g, rw (e, fetch_page, x) (load_total (find_victim_page R D b).0 p g writes reads))
      ]
    ]

    -- In a well-formed pool, for a page with a number below 524288 that is not in the pool: if the
    -- frame that is found is dirty and its write succeeds, but the read of the page throws, then
    -- the next `FetchPage` of the page returns the frame all the same, with whatever the failed
    -- read left in the buffer, and the replacer does not have the frame.
    pub fetch_page_failed_read :
        (f : ℕ)
        → IsValid R D b
        → InFile p.page_no
        → b.page_table p ≡ none
        → (find_victim_page R D b).1 ≡ some f
        → (b.pages f).is_dirty ≡ true
        → (D.write_page b.disk (b.pages f).id (b.pages f).content).1 ≡ true
        → (D.read_page (D.write_page b.disk (b.pages f).id (b.pages f).content).0 p blank).2 ≡ false
        → ((fetch_page R D b p).1 ≡ Fetched.unix_error)
          × ((fetch_page R D (fetch_page R D b p).0 p).1 ≡ Fetched.page f)
          × (R.has (fetch_page R D b p).0.replacer f ≡ false)
          × (((fetch_page R D (fetch_page R D b p).0 p).0.pages f).content
              ≡ (D.read_page (D.write_page b.disk (b.pages f).id (b.pages f).content).0 p blank).1)
    fetch_page_failed_read f v h absent found dirty wrote failed =
        let w = find_victim_page-Vacant R D b v f found in
        let (page, write) = find_victim_page_rest b f in
        let gone = find_victim_page-absent R D b v p absent in
        let (thrown, mapped, kept, bytes) =
          load_failed_read (find_victim_page R D b).0 p f h gone
            (ap (λ (o : Page). o.is_dirty) page ∙ dirty) (ap (λ r. r.1) write ∙ wrote)
            (ap (λ r. (D.read_page r.0 p blank).2) write ∙ failed) in
        let (again, same) = hit_again (load R D (find_victim_page R D b).0 p f).0 p f mapped in
        rw (miss_load R D b p v h f absent found) (
          thrown,
          again,
          ap (λ s. R.has s f) kept ∙ w.tracked,
          same ∙ bytes ∙ ap (λ r. (D.read_page r.0 p blank).1) write,
        )
