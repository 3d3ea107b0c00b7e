-- ===== src/Storage/BufferPool/Fetch.antt =====
-- `FetchPage`: a page that it returns has the bytes that a reader of the pool saw before, and no
-- page of the pool is lost, whichever frame is evicted.
use rubcase_lab.Base.{
  ℕ, ◌<◌, ◌≡◌, ◌≢◌, sym, ap, ◌∙◌, inl, inr, true, none, some, length, Option-cases, arith,
}
use rubcase_lab.Replacer.Interface.{Replacer}
use rubcase_lab.Storage.DiskInterface.{DiskManager}
use rubcase_lab.Storage.Page.{PageId, InFile, page_size, blank}
use rubcase_lab.Storage.BufferPool.{
  BufferPool, Fetched, write_back, load, find_victim_page, fetch_page,
}
use rubcase_lab.Storage.BufferPool.Invariant.{IsValid, view, Vacant}
use rubcase_lab.Storage.BufferPool.Victim.{
  pending, find_victim_page-Vacant, find_victim_page-pending, find_victim_page-absent,
  find_victim_page_failed,
}
use rubcase_lab.Storage.BufferPool.Install.{
  write_back-Vacant, view-write_back, Installed, Installed-IsValid, view-Installed,
}

returned_null : {f : ℕ} → Fetched.nullptr ≡ Fetched.page f → ⊥
returned_null e = cc

module _ (R : Replacer) (D : DiskManager) where
  -- What a call that returns a page has done.
  pub record Fetches (b c : BufferPool R D) (p : PageId) (f : ℕ) : Type 0 where
    pub valid : IsValid R D c
    pub mapped : c.page_table p ≡ some f
    pub pinned : 0 < (c.pages f).pin_count
    pub bytes : (c.pages f).content ≡ view R D b p
    pub others : (q : PageId) → InFile q.page_no → view R D c q ≡ view R D b q

  -- What a reader sees of a page is a whole page.
  view_sized :
      (b : BufferPool R D) → IsValid R D b → (p : PageId) → length (view R D b p) ≡ page_size
  unfolding view
  view_sized b v p = elim (Option-cases (b.page_table p)) [
    | inl e ↦ ground (arith, D.length-stored b.disk p)
    | inr (g, e) ↦ ground (arith, v.sized g)
  ]

  load_null : (b : BufferPool R D) (p : PageId) (f : ℕ) → (load R D b p f).1 ≢ Fetched.nullptr
  unfolding load
  load_null b p f e = ground arith

  module _ (b : BufferPool R D) (p : PageId) (f : ℕ) (v : Vacant R D b f) (h : InFile p.page_no)
      (absent : b.page_table p ≡ none) where
    -- Each pool that the read starts from: the one at hand, and the one after the write.
    after_write : D.Disk
    after_write = (D.write_page b.disk (b.pages f).id (b.pages f).content).0

    load-write_back : (load R D b p f).1 ≡ Fetched.page f → (write_back R D b f).1 ≡ true
    unfolding load
    load-write_back e = ground arith

    load-Installed :
        (load R D b p f).1 ≡ Fetched.page f
        → Installed R D
            (write_back R D b f).0
            (load R D b p f).0
            p
            f
            (view R D (write_back R D b f).0 p)
    unfolding load view after_write
    load-Installed e = record {
      pool_size = ground arith;
      pages = λ g. ground (
        arith,
        absent,
        v.unpinned,
        D.read_page_lem b.disk p (b.pages f).content h,
        D.read_page_lem after_write p blank h,
      );
      page_table = λ q. ground (arith, absent, v.forgotten);
      free_list = ground arith;
      disk = λ q. ground (
        arith,
        D.stored-read_page b.disk p q (b.pages f).content,
        D.stored-read_page after_write p q blank,
      );
      replacer = ground arith;
    }

    load_frame : (g : ℕ) → (load R D b p f).1 ≡ Fetched.page g → g ≡ f
    unfolding load
    load_frame g e = ground arith

    write_back-absent : (write_back R D b f).0.page_table p ≡ none
    unfolding write_back
    write_back-absent = ground (arith, absent)

    load-Fetches :
        (load R D b p f).1 ≡ Fetched.page f
        → IsValid R D (load R D b p f).0
          × ((load R D b p f).0.page_table p ≡ some f)
          × (((load R D b p f).0.pages f).pin_count ≡ 1)
          × (((load R D b p f).0.pages f).content ≡ pending R D b f p)
          × ((q : PageId) → InFile q.page_no → view R D (load R D b p f).0 q ≡ pending R D b f q)
    load-Fetches e =
        let written = load-write_back e in
        let i = load-Installed e in
        let w = write_back-Vacant R D b f v written in
        let seen = view-write_back R D b f v written in
        let shown = view-Installed R D _ _ p f _ w i in
        let size = view_sized _ w.valid in
        (
          Installed-IsValid R D _ _ p f _ w i h write_back-absent (size p),
          ground (arith, i.page_table p),
          ground (arith, i.pages f),
          ground (arith, i.pages f, seen p h),
          λ q k. ground (arith, shown q, seen q k),
        )

  -- A page that is in the pool is pinned once more, and keeps its frame.
  hit-IsValid :
      (b : BufferPool R D) (p : PageId) (f : ℕ)
      → IsValid R D b
      → b.page_table p ≡ some f
      → IsValid R D (fetch_page R D b p).0
  unfolding fetch_page
  hit-IsValid b p f v e =
      let pinned = λ (g : ℕ). R.has-pin b.replacer f g v.replacer_valid in
      rw (e, fetch_page)
        (record {
          replacer_valid = R.pin-IsValid b.replacer f v.replacer_valid;
          sized = λ g. ground (arith, v.sized g);
          holds = λ q g m. ground (arith, v.holds q g m, pinned g);
          evictable = λ g m. ground (arith, v.evictable g, pinned g);
          free = λ g m. ground (arith, v.free g m, pinned g, v.holds p f e);
          free_distinct = v.free_distinct;
        })

  module _ (b : BufferPool R D) (p : PageId) (v : IsValid R D b) (h : InFile p.page_no) where
    hit-Fetches :
        (f : ℕ)
        → b.page_table p ≡ some f
        → ((fetch_page R D b p).1 ≡ Fetched.page f) × Fetches b (fetch_page R D b p).0 p f
    unfolding fetch_page view
    hit-Fetches f e = (
      ground arith,
      record {
        valid = hit-IsValid b p f v e;
        mapped = ground arith;
        pinned = ground arith;
        bytes = ground arith;
        others = λ q k. ground arith;
      },
    )

    pub miss_load :
        (f : ℕ)
        → b.page_table p ≡ none
        → (find_victim_page R D b).1 ≡ some f
        → fetch_page R D b p ≡ load R D (find_victim_page R D b).0 p f
    unfolding fetch_page
    miss_load f e found = rw (e, fetch_page, found)

    miss_null :
        b.page_table p ≡ none
        → (find_victim_page R D b).1 ≡ none
        → fetch_page R D b p ≡ ((find_victim_page R D b).0, Fetched.nullptr)
    unfolding fetch_page
    miss_null e out = rw (e, fetch_page, out)

    miss-Fetches :
        (f : ℕ)
        → b.page_table p ≡ none
        → (find_victim_page R D b).1 ≡ some f
        → (load R D (find_victim_page R D b).0 p f).1 ≡ Fetched.page f
        → Fetches b (load R D (find_victim_page R D b).0 p f).0 p f
    miss-Fetches f e found returned =
        let w = find_victim_page-Vacant R D b v f found in
        let absent = find_victim_page-absent R D b v p e in
        let (valid, mapped, pinned, bytes, others) = load-Fetches _ p f w h absent returned in
        let same = λ (q : PageId). find_victim_page-pending R D b v f q found in
        record {
          valid = valid;
          mapped = mapped;
          pinned = omega arith;
          bytes = bytes ∙ same p;
          others = λ q k. others q k ∙ same q;
        }

    -- In a well-formed pool, a page with a number below 524288 that `FetchPage` returns is pinned,
    -- entered in the page table and filled with what a reader of the pool saw of it before; a
    -- reader sees what it saw before of every other page with such a number, and the pool stays
    -- well formed.
    pub fetch_page-Fetches :
        (f : ℕ) → (fetch_page R D b p).1 ≡ Fetched.page f → Fetches b (fetch_page R D b p).0 p f
    fetch_page-Fetches f e = elim (Option-cases (b.page_table p)) [
      | inr (g, hit) ↦
          let (same, w) = hit-Fetches g hit in
          let eq : g ≡ f = ground (arith, e, same) in rw eq at w
      | inl absent ↦ elim (Option-cases (find_victim_page R D b).1) [
        | inl out ↦ absurd (returned_null (rw (miss_null absent out) at e))
        | inr (g, found) ↦
            let eq = miss_load g absent found in
            let returned = rw eq at e in
            let same : f ≡ g =
              load_frame _ p g (find_victim_page-Vacant R D b v g found) h
                (find_victim_page-absent R D b v p absent) f returned in
            rw (eq, same) (miss-Fetches g absent found (rw same at returned))
      ]
    ]

    -- A page that is in the pool is always returned.
    fetch_page_hit : (f : ℕ) → b.page_table p ≡ some f → (fetch_page R D b p).1 ≡ Fetched.page f
    fetch_page_hit f e = (hit-Fetches f e).0

    -- In a well-formed pool, `FetchPage` of a page with a number below 524288 returns a null
    -- pointer only when the page is not in the pool and every page of the pool is pinned; the pool
    -- stays well formed and a reader sees what it saw before.
    pub fetch_page_nullptr :
        (fetch_page R D b p).1 ≡ Fetched.nullptr
        → (b.page_table p ≡ none)
          × ((q : PageId) (f : ℕ) → b.page_table q ≡ some f → 0 < (b.pages f).pin_count)
          × IsValid R D (fetch_page R D b p).0
          × ((q : PageId) → view R D (fetch_page R D b p).0 q ≡ view R D b q)
    fetch_page_nullptr e = elim (Option-cases (b.page_table p)) [
      | inr (f, hit) ↦ absurd (returned_null (sym e ∙ fetch_page_hit f hit))
      | inl absent ↦ elim (Option-cases (find_victim_page R D b).1) [
        | inl out ↦
            let (valid, pinned, same) = find_victim_page_failed R D b v out in
            (
              absent,
              pinned,
              rw (miss_null absent out) valid,
              λ q. rw (miss_null absent out) (same q),
            )
        | inr (g, found) ↦
            absurd (load_null _ p g (sym (ap (λ r. r.1) (miss_load g absent found)) ∙ e))
      ]
    ]
