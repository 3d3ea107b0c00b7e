-- ===== src/Record/File.antt =====
-- src/record/rm_file_handle.h and rm_file_handle.cpp: a record file over the buffer pool. A write
-- to a page that the code holds does not mark it as dirty, and no call but the insert of a rollback
-- unpins its page. A rid is given as its page and its slot, which is not negative.
pub mod Reads
use rubcase_lab.Base.{ℕ, ◌+◌, Bool, true, false, not, ltb, if◌then◌else◌, List, [], ◌∷◌, update}
use rubcase_lab.Base.Int.{ℤ, pos, negsuc, ℤ-discrete, inc32, dec32, lt_int}
use rubcase_lab.Replacer.Interface.{Replacer}
use rubcase_lab.Storage.DiskInterface.{DiskManager}
use rubcase_lab.Storage.Page.{PageId, Page, Bytes}
use rubcase_lab.Storage.BufferPool.{
  BufferPool, Fetched, Created, fetch_page, new_page, unpin_page, set_page,
}
use rubcase_lab.Record.Layout.{
  RmFileHdr, next_free_page_no, num_records, set_next_free_page_no, set_num_records, mark, unmark,
  marked, first_unmarked, slot, set_slot,
}
use mathlib.Core.Logic.{ite}

-- What a call may end in besides its result. `null_page` is a use of the null pointer that `NewPage`
-- returned, which the code does not check.
pub data RmError : Type 0 where
  page_not_exist_error : ℤ → RmError
  unix_error null_page : RmError

pub data RmOutcome (A : Type 0) : Type 0 where
  returns : A → RmOutcome A
  throws : RmError → RmOutcome A

module _ (R : Replacer) (D : DiskManager) where
  pub record RmFileHandle : Type 0 where
    pub fd : ℕ
    pub file_hdr : RmFileHdr
    pub pool : BufferPool R D

  abbrev pub id_of : RmFileHandle → ℤ → PageId
  id_of h page_no = record { fd = h.fd; page_no = page_no }

  -- The bytes of the page that a page handle points to, and a write to them.
  abbrev pub data_of : RmFileHandle → ℕ → Bytes
  data_of h f = (h.pool.pages f).content

  unfoldable pub set_data : RmFileHandle → ℕ → Bytes → RmFileHandle
  unfolding set_page
  set_data h f b = record h {
    pool = set_page R D h.pool f (record (h.pool.pages f) { content = b });
  }

  abbrev pub set_first_free : RmFileHandle → ℤ → RmFileHandle
  set_first_free h page_no = record h {
    file_hdr = record h.file_hdr { first_free_page_no = page_no };
  }

  -- A page handle is the frame that it points to.
  unfoldable pub fetch_page_handle : RmFileHandle → ℤ → RmFileHandle × RmOutcome ℕ
  fetch_page_handle h page_no =
      let (pool', fetched) = fetch_page R D h.pool (id_of h page_no) in
      (
        record h { pool = pool' },
        elim fetched [
          | Fetched.page f ↦ returns f
          | Fetched.nullptr ↦ throws (page_not_exist_error page_no)
          | Fetched.unix_error ↦ throws RmError.unix_error
        ],
      )

  -- The number of pages is raised before the new page is looked at, but not if `NewPage` throws.
  unfoldable pub create_new_page_handle : RmFileHandle → RmFileHandle × RmOutcome ℕ
  create_new_page_handle h =
      let (pool', created) = new_page R D h.pool h.fd in
      let thrown = record h { pool = pool' } in
      let grown = record thrown {
        file_hdr = record h.file_hdr { num_pages = inc32 h.file_hdr.num_pages };
      } in
      elim created [
        | Created.page f id ↦ (grown, returns f)
        | Created.nullptr ↦ (grown, throws null_page)
        | Created.unix_error ↦ (thrown, throws RmError.unix_error)
      ]

  unfoldable pub create_page_handle : RmFileHandle → RmFileHandle × RmOutcome ℕ
  unfolding create_new_page_handle fetch_page_handle
  create_page_handle h =
      if lt_int h.file_hdr.first_free_page_no (pos 0)
      then create_new_page_handle h
      else fetch_page_handle h h.file_hdr.first_free_page_no

  unfoldable pub release_page_handle : RmFileHandle → ℕ → RmFileHandle
  unfolding set_data
  release_page_handle h f =
      set_first_free
        (set_data h f (set_next_free_page_no (data_of h f) h.file_hdr.first_free_page_no))
        (h.pool.pages f).id.page_no

  unfoldable pub is_record : RmFileHandle → ℤ → ℕ → RmFileHandle × RmOutcome Bool
  unfolding fetch_page_handle
  is_record h page_no slot_no =
      let (c, handle) = fetch_page_handle h page_no in
      (c, elim handle [ returns f ↦ returns (marked (data_of c f) slot_no) | throws e ↦ throws e ])

  unfoldable pub get_record : RmFileHandle → ℤ → ℕ → RmFileHandle × RmOutcome Bytes
  unfolding fetch_page_handle
  get_record h page_no slot_no =
      let (c, handle) = fetch_page_handle h page_no in
      (
        c,
        elim handle [
          | returns f ↦ returns (slot c.file_hdr (data_of c f) slot_no)
          | throws e ↦ throws e
        ],
      )

  -- `insert_record` from the page handle on.
  unfoldable pub fill_slot : RmFileHandle → ℕ → Bytes → RmFileHandle × ℤ × ℕ
  unfolding set_data
  fill_slot h f buf =
      let n = h.file_hdr.num_records_per_page in
      let i = first_unmarked (data_of h f) n in
      let filled = mark (set_slot h.file_hdr (data_of h f) i buf) i in
      let count = inc32 (num_records filled) in
      let c = set_data h f (set_num_records filled count) in
      (
        if lt_int count (pos n) then c else set_first_free c (next_free_page_no (data_of c f)),
        (c.pool.pages f).id.page_no,
        i,
      )

  unfoldable pub insert_record : RmFileHandle → Bytes → RmFileHandle × RmOutcome (ℤ × ℕ)
  unfolding create_page_handle fill_slot
  insert_record h buf =
      let (c, handle) = create_page_handle h in
      elim handle [
        | returns f ↦
            ((fill_slot c f buf).0, returns ((fill_slot c f buf).1, (fill_slot c f buf).2))
        | throws e ↦ (c, throws e)
      ]

  -- `delete_record` from the page handle on.
  unfoldable pub clear_slot : RmFileHandle → ℕ → ℕ → RmFileHandle
  unfolding set_data release_page_handle ℤ-discrete
  clear_slot h f slot_no =
      let cleared = unmark (data_of h f) slot_no in
      let count = dec32 (num_records cleared) in
      let c = set_data h f (set_num_records cleared count) in
      ite (ℤ-discrete count (pos 0)) (release_page_handle c f) c

  unfoldable pub delete_record : RmFileHandle → ℤ → ℕ → RmFileHandle × RmOutcome (Unit {0})
  unfolding fetch_page_handle clear_slot
  delete_record h page_no slot_no =
      let (c, handle) = fetch_page_handle h page_no in
      elim handle [ returns f ↦ (clear_slot c f slot_no, returns tt) | throws e ↦ (c, throws e) ]

  unfoldable pub update_record : RmFileHandle → ℤ → ℕ → Bytes → RmFileHandle × RmOutcome (Unit {0})
  unfolding fetch_page_handle set_data
  update_record h page_no slot_no buf =
      let (c, handle) = fetch_page_handle h page_no in
      elim handle [
        | returns f ↦ (
          if marked (data_of c f) slot_no
              then set_data c f (set_slot c.file_hdr (data_of c f) slot_no buf)
              else c,
          returns tt,
        )
        | throws e ↦ (c, throws e)
      ]

  -- The insert of a rollback from the page handle on. The result of `UnpinPage` is dropped.
  unfoldable pub refill_slot : RmFileHandle → ℕ → ℕ → Bytes → RmFileHandle
  unfolding set_data ℤ-discrete
  refill_slot h f slot_no buf =
      let filled = mark (data_of h f) slot_no in
      let count = inc32 (num_records filled) in
      let c = set_data h f (set_num_records filled count) in
      let d =
        ite (ℤ-discrete count (pos h.file_hdr.num_records_per_page))
          (set_first_free c (next_free_page_no (data_of c f))) c in
      let e = set_data d f (set_slot d.file_hdr (data_of d f) slot_no buf) in
      record e { pool = (unpin_page R D e.pool (e.pool.pages f).id true).0 }

  unfoldable pub insert_fetched : RmFileHandle → ℤ → ℕ → Bytes → RmFileHandle × RmOutcome (Unit {0})
  unfolding fetch_page_handle refill_slot
  insert_fetched h page_no slot_no buf =
      let (c, handle) = fetch_page_handle h page_no in
      elim handle [
        | returns f ↦ (refill_slot c f slot_no buf, returns tt)
        | throws e ↦ (c, throws e)
      ]

  unfoldable pub insert_record_at :
      RmFileHandle → ℤ → ℕ → Bytes → RmFileHandle × RmOutcome (Unit {0})
  unfolding create_new_page_handle insert_fetched
  insert_record_at h page_no slot_no buf =
      let (c, created) = create_new_page_handle h in
      if lt_int page_no h.file_hdr.num_pages
      then elim created [
        | returns f ↦ insert_fetched c page_no slot_no buf
        | throws e ↦ (c, throws e)
      ]
      else insert_fetched h page_no slot_no buf
