-- ===== src/Record/File/Reads.antt =====
-- Reads and updates of records.
use rubcase_lab.Base.{
  ℕ, ◌*◌, ◌+◌, ◌≤◌, ◌<◌, ◌≡◌, ◌≢◌, ◌⊎◌, inl, inr, Option-cases, refl, ap, sym, ◌∙◌, true, some,
  arith, length,
}
use rubcase_lab.Base.Int.{ℤ}
use rubcase_lab.Replacer.Interface.{Replacer}
use rubcase_lab.Storage.DiskInterface.{DiskManager}
use rubcase_lab.Storage.Page.{page_size, PageId, Bytes, InFile}
use rubcase_lab.Storage.BufferPool.{Fetched, fetch_page, set_page}
use rubcase_lab.Storage.BufferPool.Invariant.{IsValid, view}
use rubcase_lab.Storage.BufferPool.Fetch.{Fetches, fetch_page-Fetches}
use rubcase_lab.Record.Layout.{slot, set_slot, marked, bitmap_offset}
use rubcase_lab.Record.Layout.Slots.{slot-set_slot}
use rubcase_lab.Record.File.{
  RmError, RmOutcome, returns, throws, RmFileHandle, id_of, data_of, set_data, fetch_page_handle,
  get_record, update_record,
}

pub RmOutcome-cases :
    {A : Type 0} (r : RmOutcome A) → ((a : A) × (r ≡ returns a)) ⊎ ((e : RmError) × (r ≡ throws e))
RmOutcome-cases (returns a) = inl (a, refl)
RmOutcome-cases (throws e) = inr (e, refl)

abbrev result : {A : Type 0} → A → RmOutcome A → A
result d (returns a) = a
result d (throws e) = d

module _ (R : Replacer) (D : DiskManager) (h : RmFileHandle R D) (v : IsValid R D h.pool)
    (page_no : ℤ) (z : InFile page_no) where
  fetched_page :
      (f : ℕ)
      → (fetch_page_handle R D h page_no).1 ≡ returns f
      → (fetch_page R D h.pool (id_of R D h page_no)).1 ≡ Fetched.page f
  unfolding fetch_page_handle
  fetched_page f e = ground arith

  pub fetched :
      (f : ℕ)
      → (fetch_page_handle R D h page_no).1 ≡ returns f
      → Fetches R D h.pool (fetch_page_handle R D h page_no).0.pool (id_of R D h page_no) f
  unfolding fetch_page_handle
  fetched f e = fetch_page-Fetches R D h.pool (id_of R D h page_no) v z f (fetched_page f e)

  get_record_returns :
      (slot_no f : ℕ)
      → (fetch_page_handle R D h page_no).1 ≡ returns f
      → (get_record R D h page_no slot_no).1
        ≡ returns (slot h.file_hdr (data_of R D (fetch_page_handle R D h page_no).0 f) slot_no)
  unfolding get_record fetch_page_handle
  get_record_returns slot_no f ok = ground arith

  get_record_throws :
      (slot_no : ℕ) (x : RmError)
      → (fetch_page_handle R D h page_no).1 ≡ throws x
      → (get_record R D h page_no slot_no).1 ≡ throws x
  unfolding get_record fetch_page_handle
  get_record_throws slot_no x failed = ground arith

  got :
      (slot_no : ℕ) (buf : Bytes)
      → (get_record R D h page_no slot_no).1 ≡ returns buf
      → (f : ℕ) × ((fetch_page_handle R D h page_no).1 ≡ returns f)
        × (buf ≡ slot h.file_hdr (data_of R D (fetch_page_handle R D h page_no).0 f) slot_no)
  unfolding get_record
  got slot_no buf e = elim (RmOutcome-cases (fetch_page_handle R D h page_no).1) [
    | inl (f, ok) ↦
        let same : buf
            ≡ slot h.file_hdr (data_of R D (fetch_page_handle R D h page_no).0 f) slot_no =
          ap (result buf) (sym e ∙ get_record_returns slot_no f ok) in
        (f, ok, same)
    | inr (x, failed) ↦ absurd (ground (arith, e, get_record_throws slot_no x failed))
  ]

  -- In a well-formed pool, a record that `get_record` returns from a page with a number below
  -- 524288 is what stands in its slot of the page as a reader of the buffer pool sees it; the pool
  -- stays well formed and shows every page with such a number as before, but the page stays pinned.
  pub get_record-view :
      (slot_no : ℕ) (buf : Bytes)
      → (get_record R D h page_no slot_no).1 ≡ returns buf
      → (buf ≡ slot h.file_hdr (view R D h.pool (id_of R D h page_no)) slot_no)
        × IsValid R D (get_record R D h page_no slot_no).0.pool
        × ((q : PageId)
            → InFile q.page_no
            → view R D (get_record R D h page_no slot_no).0.pool q ≡ view R D h.pool q)
        × ((f : ℕ) × ((get_record R D h page_no slot_no).0.pool.page_table (id_of R D h page_no)
              ≡ some f)
            × (0 < ((get_record R D h page_no slot_no).0.pool.pages f).pin_count))
  unfolding get_record
  get_record-view slot_no buf e =
      let (f, returned, there) = got slot_no buf e in
      let w = fetched f returned in
      (
        there ∙ ap (λ b. slot h.file_hdr b slot_no) w.bytes,
        w.valid,
        w.others,
        (f, w.mapped, w.pinned),
      )

  -- The frame that `update_record` writes to.
  update_place :
      (slot_no f : ℕ) (buf : Bytes)
      → (fetch_page_handle R D h page_no).1 ≡ returns f
      → marked (data_of R D (fetch_page_handle R D h page_no).0 f) slot_no ≡ true
      → (update_record R D h page_no slot_no buf).0
        ≡ set_data R D
            (fetch_page_handle R D h page_no).0
            f
            (set_slot h.file_hdr (data_of R D (fetch_page_handle R D h page_no).0 f) slot_no buf)
  unfolding update_record fetch_page_handle
  update_place slot_no f buf ok there = ground arith

  update_returns :
      (slot_no : ℕ) (buf : Bytes)
      → (update_record R D h page_no slot_no buf).1 ≡ returns tt
      → (f : ℕ) × ((fetch_page_handle R D h page_no).1 ≡ returns f)
  unfolding update_record
  update_returns slot_no buf e = elim (RmOutcome-cases (fetch_page_handle R D h page_no).1) [
    | inl w ↦ w
    | inr (x, failed) ↦ absurd (ground (arith, e, failed))
  ]

  -- What a reader sees after a write to the frame of a page.
  view-set_data :
      (c : RmFileHandle R D) (f : ℕ) (b : Bytes) (p q : PageId)
      → IsValid R D c.pool
      → c.pool.page_table p ≡ some f
      → (view R D (set_data R D c f b).pool p ≡ b)
        × (p ≢ q → view R D (set_data R D c f b).pool q ≡ view R D c.pool q)
  unfolding view set_data set_page
  view-set_data c f b p q w e = (
    ground arith,
    λ other. elim (Option-cases (c.pool.page_table q)) [
      | inl absent ↦ ground arith
      | inr (g, there) ↦
          let apart : f ≢ g = λ same. other (
            sym (w.holds p f e).labelled
            ∙ ap (λ k. (c.pool.pages k).id) same
            ∙ (w.holds q g there).labelled) in
          ground arith
    ],
  )

  -- In a well-formed pool, `update_record` of a slot whose bit is set, in a page with a number
  -- below 524288 whose slots lie in the page, writes a record of the right size if it does not
  -- throw: a reader of the pool sees it in its slot, and every other slot, every bit and every
  -- other page as before.
  pub update_record-view :
      (n slot_no : ℕ) (buf : Bytes)
      → length buf ≡ h.file_hdr.record_size
      → bitmap_offset + h.file_hdr.bitmap_size + n * h.file_hdr.record_size ≤ page_size
      → slot_no < n
      → marked (view R D h.pool (id_of R D h page_no)) slot_no ≡ true
      → (update_record R D h page_no slot_no buf).1 ≡ returns tt
      → let before : Bytes = view R D h.pool (id_of R D h page_no) in
        let after : Bytes =
          view R D (update_record R D h page_no slot_no buf).0.pool (id_of R D h page_no) in
        (slot h.file_hdr after slot_no ≡ buf)
        × ((j : ℕ) → j < n → slot_no ≢ j → slot h.file_hdr after j ≡ slot h.file_hdr before j)
        × ((q : ℕ) → q < h.file_hdr.bitmap_size * 8 → marked after q ≡ marked before q)
        × ((q : PageId)
            → InFile q.page_no
            → id_of R D h page_no ≢ q
            → view R D (update_record R D h page_no slot_no buf).0.pool q ≡ view R D h.pool q)
  update_record-view n slot_no buf size room below there e =
      let (f, ok) = update_returns slot_no buf e in
      let w = fetched f ok in
      let c = (fetch_page_handle R D h page_no).0 in
      let before = view R D h.pool (id_of R D h page_no) in
      let bytes : data_of R D c f ≡ before = w.bytes in
      let placed = update_place slot_no f buf ok (rw bytes there) in
      let whole : bitmap_offset + h.file_hdr.bitmap_size + n * h.file_hdr.record_size
          ≤ length (data_of R D c f) =
        rw (w.valid.sized f) room in
      let seen = λ (q : PageId).
        view-set_data c f (set_slot h.file_hdr (data_of R D c f) slot_no buf) (id_of R D h page_no)
          q w.valid w.mapped in
      let after = (seen (id_of R D h page_no)).0 in
      let (one, others, bits) =
        slot-set_slot h.file_hdr (data_of R D c f) buf n slot_no size whole below in
      rw (placed, after)
        (
          one,
          λ j p q. others j p q ∙ ap (λ b. slot h.file_hdr b j) bytes,
          λ q p. bits q p ∙ ap (λ b. marked b q) bytes,
          λ q k other. (seen q).1 other ∙ w.others q k,
        )
