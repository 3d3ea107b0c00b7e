-- ===== src/Storage/BufferPool/Create.antt =====
-- `NewPage`: the new page is blank and pinned, and no other page is changed.
use rubcase_lab.Base.{
  ℕ, ◌≡◌, ◌≢◌, ◌∙◌, inl, inr, if◌then◌else◌, true, none, some, Option-cases, arith,
}
use rubcase_lab.Base.Int.{ℤ}
use rubcase_lab.Replacer.Interface.{Replacer}
use rubcase_lab.Storage.DiskInterface.{DiskManager}
use rubcase_lab.Storage.Page.{PageId, InFile, blank, length-blank, invalid_page_id}
use rubcase_lab.Storage.BufferPool.{
  BufferPool, Created, write_back, set_page, update_page, find_victim_page, new_page,
}
use rubcase_lab.Storage.BufferPool.Invariant.{IsValid, view, Vacant}
use rubcase_lab.Storage.BufferPool.Victim.{
  pending, find_victim_page-Vacant, find_victim_page-pending, find_victim_page-absent,
}
use rubcase_lab.Storage.BufferPool.Install.{
  write_back-Vacant, view-write_back, Installed, Installed-IsValid, view-Installed,
}

module _ (R : Replacer) (D : DiskManager) where
  -- To give out a page number changes no stored byte.
  module _ (b : BufferPool R D) (fd : ℕ) where
    unfoldable allocated : BufferPool R D
    allocated = record b { disk = (D.allocate_page b.disk fd).0 }

    allocated-Vacant : (f : ℕ) → Vacant R D b f → Vacant R D allocated f
    unfolding allocated
    allocated-Vacant f v = record {
      valid = record {
        replacer_valid = v.valid.replacer_valid;
        sized = v.valid.sized;
        holds = λ p g m. ground (arith, v.valid.holds p g m, D.stored-allocate_page b.disk fd p);
        evictable = λ g m. ground (arith, v.valid.evictable g m);
        free = λ g m. ground (arith, v.valid.free g m);
        free_distinct = v.valid.free_distinct;
      };
      below = v.below;
      unpinned = v.unpinned;
      unmapped = v.unmapped;
      not_free = v.not_free;
      tracked = v.tracked;
      forgotten = v.forgotten;
      owed = v.owed;
    }

    pending-allocated : (f : ℕ) (q : PageId) → pending R D allocated f q ≡ pending R D b f q
    unfolding allocated pending view
    pending-allocated f q = ground (arith, D.stored-allocate_page b.disk fd q)

    -- The id with the number that the disk manager gives out.
    unfoldable pub new_id : PageId
    new_id = record { fd = fd; page_no = (D.allocate_page b.disk fd).1 }

  -- From the allocation to the return of `NewPage`.
  place : BufferPool R D → ℕ → ℕ → BufferPool R D × Created
  unfolding update_page set_page
  place b fd f =
      let page_id = new_id b fd in
      let (c, written) = update_page R D (allocated b fd) f page_id f in
      if written
      then (
        record (set_page R D c f (record (c.pages f) { pin_count = 1 })) {
          replacer = R.pin c.replacer f;
        },
        Created.page f page_id,
      )
      else (c, Created.unix_error)

  -- What a call that returns a page has done.
  pub record Creates (b c : BufferPool R D) (p : PageId) (f : ℕ) : Type 0 where
    pub valid : IsValid R D c
    pub mapped : c.page_table p ≡ some f
    pub pinned : (c.pages f).pin_count ≡ 1
    pub bytes : view R D c p ≡ blank
    pub others : (q : PageId) → InFile q.page_no → p ≢ q → view R D c q ≡ view R D b q

  module _ (b : BufferPool R D) (fd f : ℕ) (h : InFile (new_id b fd).page_no)
      (absent : b.page_table (new_id b fd) ≡ none) (v : Vacant R D b f) where
    InFile-valid : (z : ℤ) → InFile z → z ≢ invalid_page_id
    InFile-valid z k e = rw e at k

    place_result :
        (g : ℕ) (p : PageId)
        → (place b fd f).1 ≡ Created.page g p
        → (g ≡ f) × (p ≡ new_id b fd) × ((write_back R D (allocated b fd) f).1 ≡ true)
    unfolding place
    place_result g p e = ground arith

    place-Installed :
        (write_back R D (allocated b fd) f).1 ≡ true
        → Installed R D (write_back R D (allocated b fd) f).0 (place b fd f).0 (new_id b fd) f blank
    unfolding place allocated
    place-Installed e = record {
      pool_size = ground arith;
      pages = λ g. ground (arith, v.unpinned);
      page_table = λ q. ground (arith, absent, v.forgotten, InFile-valid (new_id b fd).page_no h);
      free_list = ground arith;
      disk = λ q. ground arith;
      replacer = ground arith;
    }

    write_back-absent : (write_back R D (allocated b fd) f).0.page_table (new_id b fd) ≡ none
    unfolding write_back allocated
    write_back-absent = ground (arith, absent)

    place-Creates :
        (write_back R D (allocated b fd) f).1 ≡ true
        → IsValid R D (place b fd f).0
          × ((place b fd f).0.page_table (new_id b fd) ≡ some f)
          × (((place b fd f).0.pages f).pin_count ≡ 1)
          × (view R D (place b fd f).0 (new_id b fd) ≡ blank)
          × ((q : PageId)
              → InFile q.page_no
              → new_id b fd ≢ q
              → view R D (place b fd f).0 q ≡ pending R D b f q)
    place-Creates written =
        let i = place-Installed written in
        let a = allocated-Vacant b fd f v in
        let w = write_back-Vacant R D (allocated b fd) f a written in
        let shown = view-Installed R D _ _ (new_id b fd) f blank w i in
        (
          Installed-IsValid R D _ _ (new_id b fd) f blank w i h write_back-absent length-blank,
          ground (arith, i.page_table (new_id b fd)),
          ground (arith, i.pages f),
          ground (arith, shown (new_id b fd)),
          λ q k other. ground (
            arith,
            shown q,
            view-write_back R D (allocated b fd) f a written q k,
            pending-allocated b fd f q,
          ),
        )

  module _ (b : BufferPool R D) (fd : ℕ) (v : IsValid R D b) where
    new_page_equation :
        (f : ℕ)
        → (find_victim_page R D b).1 ≡ some f
        → new_page R D b fd ≡ place (find_victim_page R D b).0 fd f
    unfolding new_page place allocated new_id
    new_page_equation f e = rw (e, new_page)

    new_page_null : (find_victim_page R D b).1 ≡ none → (new_page R D b fd).1 ≡ Created.nullptr
    unfolding new_page
    new_page_null e = rw (e, new_page)

    same_id : new_id (find_victim_page R D b).0 fd ≡ new_id b fd
    unfolding find_victim_page new_id
    same_id = ground arith

    found-Creates :
        (f : ℕ)
        → InFile (new_id b fd).page_no
        → b.page_table (new_id b fd) ≡ none
        → (find_victim_page R D b).1 ≡ some f
        → (place (find_victim_page R D b).0 fd f).1 ≡ Created.page f (new_id b fd)
        → Creates b (place (find_victim_page R D b).0 fd f).0 (new_id b fd) f
    found-Creates f h absent found e =
        let c = (find_victim_page R D b).0 in
        let w = find_victim_page-Vacant R D b v f found in
        let gone = find_victim_page-absent R D b v (new_id b fd) absent in
        let h' : InFile (new_id c fd).page_no = rw same_id h in
        let gone' : c.page_table (new_id c fd) ≡ none = rw same_id gone in
        let (valid, mapped, pinned, bytes, others) =
          place-Creates c fd f h' gone' w (place_result c fd f h' gone' w f (new_id b fd) e).2 in
        record {
          valid = valid;
          mapped = rw same_id at mapped;
          pinned = pinned;
          bytes = rw same_id at bytes;
          others = λ q k other.
              others q k (rw same_id other) ∙ find_victim_page-pending R D b v f q found;
        }

    -- In a well-formed pool, if the number that the disk manager gives out is below 524288 and no
    -- page of the pool has it, a page that `NewPage` returns has that number, is pinned once and
    -- blank; a reader sees what it saw before of every other page with such a number, and the pool
    -- stays well formed.
    pub new_page-Creates :
        (f : ℕ) (p : PageId)
        → InFile (new_id b fd).page_no
        → b.page_table (new_id b fd) ≡ none
        → (new_page R D b fd).1 ≡ Created.page f p
        → (p ≡ new_id b fd) × Creates b (new_page R D b fd).0 p f
    new_page-Creates f p h absent e = elim (Option-cases (find_victim_page R D b).1) [
      | inl out ↦ absurd (ground (arith, new_page_null out))
      | inr (g, found) ↦
          let c = (find_victim_page R D b).0 in
          let w = find_victim_page-Vacant R D b v g found in
          let eq = new_page_equation g found in
          let returned = rw eq at e in
          let h' : InFile (new_id c fd).page_no = rw same_id h in
          let gone = find_victim_page-absent R D b v (new_id b fd) absent in
          let gone' : c.page_table (new_id c fd) ≡ none = rw same_id gone in
          let (frame, id, written) = place_result c fd g h' gone' w f p returned in
          let named : p ≡ new_id b fd = id ∙ same_id in
          (
            named,
            rw (eq, named, frame) (found-Creates g h absent found (rw (named, frame) at returned)),
          )
    ]
