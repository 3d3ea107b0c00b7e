-- ===== src/Storage/BufferPool/Release.antt =====
-- `UnpinPage` and `FlushPage`, and the writes that a caller makes to a page that it holds.
use rubcase_lab.Base.{ℕ, ◌<◌, ◌≡◌, ◌⊎◌, Bool, true, false, some, arith, ◌+◌}
use rubcase_lab.Replacer.Interface.{Replacer}
use rubcase_lab.Storage.DiskInterface.{DiskManager}
use rubcase_lab.Storage.Page.{PageId, InFile}
use rubcase_lab.Storage.BufferPool.{BufferPool, unpin_page, flush_page}
use rubcase_lab.Storage.BufferPool.Invariant.{IsValid, view}

module _ (R : Replacer) (D : DiskManager) where
  module _ (b : BufferPool R D) (v : IsValid R D b) (p : PageId) where
    -- `UnpinPage` fails on a page that is not in the pool or not pinned, and changes nothing.
    pub unpin_page_refused :
        (dirty : Bool)
        → (unpin_page R D b p dirty).1 ≡ false
        → ((unpin_page R D b p dirty).0 ≡ b)
          × ((f : ℕ) → b.page_table p ≡ some f → (b.pages f).pin_count ≡ 0)
    unfolding unpin_page
    unpin_page_refused dirty e = (ground arith, λ f m. ground arith)

    module _ (f : ℕ) (e : b.page_table p ≡ some f) (held : 0 < (b.pages f).pin_count) where
      -- In a well-formed pool, `UnpinPage` of a pinned page succeeds, takes one pin off, and keeps
      -- the pool well formed and every page as it was for a reader, if the page is marked dirty,
      -- now or before, or has the bytes that stand on the disk.
      pub unpin_page_lem :
          (dirty : Bool)
          → (dirty ≡ true)
            ⊎ ((b.pages f).is_dirty ≡ true)
            ⊎ ((b.pages f).content ≡ D.stored b.disk p)
          → ((unpin_page R D b p dirty).1 ≡ true)
            × IsValid R D (unpin_page R D b p dirty).0
            × (((unpin_page R D b p dirty).0.pages f).pin_count + 1 ≡ (b.pages f).pin_count)
            × ((q : PageId) → view R D (unpin_page R D b p dirty).0 q ≡ view R D b q)
      unfolding unpin_page view
      unpin_page_lem dirty kept =
          let seen = λ (g : ℕ). R.has-unpin b.replacer f g v.replacer_valid in
          (
            ground arith,
            record {
              replacer_valid = ground (arith, v.replacer_valid, R.unpin-IsValid b.replacer f);
              sized = λ g. ground (arith, v.sized g);
              holds = λ q g m. ground (arith, v.holds q g, v.holds p f e, seen g);
              evictable = λ g m. ground (arith, v.evictable g, seen g, v.holds p f e);
              free = λ g m. ground (arith, v.free g, v.holds p f e, seen g);
              free_distinct = ground (arith, v.free_distinct);
            },
            ground arith,
            λ q. ground arith,
          )

    -- In a well-formed pool, `FlushPage` of a page in the pool that does not throw leaves its bytes
    -- on the disk and the frame clean, and every page with a number below 524288 as it was for a
    -- reader; the pool stays well formed.
    pub flush_page_lem :
        (f : ℕ)
        → b.page_table p ≡ some f
        → (flush_page R D b p).1 ≡ some true
        → IsValid R D (flush_page R D b p).0
          × (D.stored (flush_page R D b p).0.disk p ≡ view R D b p)
          × (((flush_page R D b p).0.pages f).is_dirty ≡ false)
          × ((q : PageId) → InFile q.page_no → view R D (flush_page R D b p).0 q ≡ view R D b q)
    unfolding flush_page view
    flush_page_lem f e ok =
        let here = v.holds p f e in
        let now = λ (q : PageId) (h : InFile q.page_no).
          D.stored-write_page b.disk (b.pages f).id q (b.pages f).content
            (rw here.labelled here.addressable) h (v.sized f) in
        (
          record {
            replacer_valid = ground (arith, v.replacer_valid);
            sized = λ g. ground (arith, v.sized g);
            holds = λ q g m. ground (arith, v.holds q g, here, now q);
            evictable = λ g m. ground (arith, v.evictable g);
            free = λ g m. ground (arith, v.free g);
            free_distinct = ground (arith, v.free_distinct);
          },
          ground (arith, here, now p),
          ground arith,
          λ q h. ground (arith, now q h, here, v.holds q f),
        )
