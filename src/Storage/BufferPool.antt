-- ===== src/Storage/BufferPool.antt =====
-- src/storage/buffer_pool_manager.h and buffer_pool_manager.cpp, over any replacer and any disk
-- manager that keep their interfaces. The latch makes each call one step.
pub mod Invariant
pub mod Start
pub mod Victim
pub mod Install
pub mod Fetch
pub mod Failure
pub mod Release
pub mod Create
mod Tests
use mathlib.Core.Logic.{ite}
use rubcase_lab.Base.{
  ℕ, zero, suc, ◌+◌, ◌-◌, Bool, true, false, ◌==◌, if◌then◌else◌, Option, none, some, List, [], ◌∷◌,
  ◌++◌, update, ltb,
}
use rubcase_lab.Base.Int.{ℤ, ℤ-discrete}
use rubcase_lab.Replacer.Interface.{Replacer}
use rubcase_lab.Storage.DiskInterface.{DiskManager}
use rubcase_lab.Storage.Page.{PageId, PageId-discrete, Page, Bytes, blank, invalid_page_id}

-- `std::unordered_map<PageId, frame_id_t>`, as the function that looks a key up.
abbrev pub Table : Type 0
Table = PageId → Option ℕ

abbrev pub erase_id : Table → PageId → Table
erase_id t p q = ite (PageId-discrete p q) none (t q)

-- `unordered_map::insert` leaves a key that is there as it is.
abbrev pub insert_id : Table → PageId → ℕ → Table
insert_id t p f q = ite (PageId-discrete p q) (elim (t p) [ none ↦ some f | some g ↦ some g ]) (t q)

-- The pointer that a call returns, as the frame that it points to, or the exception.
pub data Fetched : Type 0 where
  page : ℕ → Fetched
  nullptr unix_error : Fetched

pub data Created : Type 0 where
  page : ℕ → PageId → Created
  nullptr unix_error : Created

-- 0, 1, …, n - 1 in the order of the constructor's loop.
unfoldable pub frame_ids : ℕ → List ℕ
frame_ids zero = []
frame_ids (suc n) = frame_ids n ++ n ∷ []

module _ (R : Replacer) (D : DiskManager) where
  pub record BufferPool : Type 0 where
    pub pool_size : ℕ
    pub pages : ℕ → Page
    pub page_table : Table
    pub free_list : List ℕ
    pub disk : D.Disk
    pub replacer : R.State

  -- A new page: its descriptor is not initialised, so it is an argument.
  unfoldable pub init : ℕ → D.Disk → ℕ → BufferPool
  init pool_size disk any_fd = record {
    pool_size = pool_size;
    pages = λ _. record {
      id = record { fd = any_fd; page_no = invalid_page_id };
      content = blank;
      is_dirty = false;
      pin_count = 0;
    };
    page_table = λ _. none;
    free_list = frame_ids pool_size;
    disk = disk;
    replacer = R.init pool_size;
  }

  unfoldable pub set_page : BufferPool → ℕ → Page → BufferPool
  set_page b f new = record b { pages = update b.pages f new }

  unfoldable pub find_victim_page : BufferPool → BufferPool × Option ℕ
  find_victim_page b = elim b.free_list [
    | [] ↦ elim (R.victim b.replacer).1 [
      | none ↦ (record b { replacer = (R.victim b.replacer).0 }, none)
      | some f ↦ (
        record b {
          replacer = (R.victim b.replacer).0;
          page_table = erase_id b.page_table (b.pages f).id;
        },
        some f,
      )
    ]
    | f ∷ rest ↦ (record b { free_list = rest }, some f)
  ]

  -- The dirty mark goes before the write, and stays away if the write throws.
  unfoldable pub write_back : BufferPool → ℕ → BufferPool × Bool
  unfolding set_page
  write_back b f =
      let old = b.pages f in
      let (disk', written) = D.write_page b.disk old.id old.content in
      if old.is_dirty
      then (record (set_page b f (record old { is_dirty = false })) { disk = disk' }, written)
      else (b, true)

  unfoldable pub update_page : BufferPool → ℕ → PageId → ℕ → BufferPool × Bool
  unfolding write_back ℤ-discrete
  update_page b f new_page_id new_frame_id =
      let (c, written) = write_back b f in
      let old = c.pages f in
      let erased = erase_id c.page_table old.id in
      if written
      then (
        record (set_page c f (record old { content = blank; id = new_page_id })) {
          page_table =
              ite (ℤ-discrete new_page_id.page_no invalid_page_id) erased
                (insert_id erased new_page_id new_frame_id);
        },
        true,
      )
      else (c, false)

  -- From `getParams` to the return.
  unfoldable pub read_in : BufferPool → PageId → ℕ → BufferPool × Fetched
  unfolding set_page
  read_in b page_id f =
      let old = b.pages f in
      let (disk', bytes, read) = D.read_page b.disk old.id old.content in
      let filled = record old { content = bytes } in
      if read
      then (
        record (set_page b f (record filled { pin_count = filled.pin_count + 1 })) {
          disk = disk';
          page_table = insert_id b.page_table page_id f;
          replacer = R.pin b.replacer f;
        },
        Fetched.page f,
      )
      else (record (set_page b f filled) { disk = disk' }, Fetched.unix_error)

  unfoldable pub load : BufferPool → PageId → ℕ → BufferPool × Fetched
  unfolding update_page read_in set_page
  load b page_id f =
      let (c, written) = update_page b f page_id f in
      if (b.pages f).is_dirty
      then (if written then read_in c page_id f else (c, Fetched.unix_error))
      else read_in (set_page b f (record (b.pages f) { id = page_id })) page_id f

  unfoldable pub fetch_page : BufferPool → PageId → BufferPool × Fetched
  unfolding find_victim_page load set_page
  fetch_page b page_id = elim (b.page_table page_id) [
    | some f ↦ (
      record (set_page b f (record (b.pages f) { pin_count = (b.pages f).pin_count + 1 })) {
        replacer = R.pin b.replacer f;
      },
      Fetched.page f,
    )
    | none ↦ elim (find_victim_page b).1 [
      | none ↦ ((find_victim_page b).0, Fetched.nullptr)
      | some f ↦ load (find_victim_page b).0 page_id f
    ]
  ]

  -- The part of `UnpinPage` after the count is found positive.
  unfoldable pub release_frame : BufferPool → ℕ → Bool → BufferPool
  unfolding set_page
  release_frame b f is_dirty =
      let old = b.pages f in
      let count = old.pin_count - 1 in
      let dirty = if is_dirty then true else old.is_dirty in
      let c = set_page b f (record old { pin_count = count; is_dirty = dirty }) in
      if count == 0 then record c { replacer = R.unpin b.replacer f } else c

  unfoldable pub unpin_page : BufferPool → PageId → Bool → BufferPool × Bool
  unfolding release_frame
  unpin_page b page_id is_dirty = elim (b.page_table page_id) [
    | none ↦ (b, false)
    | some f ↦
        if ltb 0 (b.pages f).pin_count then (release_frame b f is_dirty, true) else (b, false)
  ]

  -- Write a frame out and clear its mark; false is the exception.
  unfoldable pub write_out : BufferPool → ℕ → BufferPool × Bool
  unfolding set_page
  write_out b f =
      let old = b.pages f in
      let (disk', written) = D.write_page b.disk old.id old.content in
      if written
      then (record (set_page b f (record old { is_dirty = false })) { disk = disk' }, true)
      else (record b { disk = disk' }, false)

  -- `none` is the exception.
  unfoldable pub flush_page : BufferPool → PageId → BufferPool × Option Bool
  unfolding write_out
  flush_page b page_id = elim (b.page_table page_id) [
    | none ↦ (b, some false)
    | some f ↦ let (c, written) = write_out b f in if written then (c, some true) else (c, none)
  ]

  unfoldable pub new_page : BufferPool → ℕ → BufferPool × Created
  unfolding find_victim_page update_page set_page
  new_page b fd = elim (find_victim_page b).1 [
    | none ↦ ((find_victim_page b).0, Created.nullptr)
    | some f ↦
        let v = (find_victim_page b).0 in
        let (disk', page_no) = D.allocate_page v.disk fd in
        let page_id : PageId = record { fd = fd; page_no = page_no } in
        let (c, written) = update_page (record v { disk = disk' }) f page_id f in
        if written
        then (
          record (set_page c f (record (c.pages f) { pin_count = 1 })) {
            replacer = R.pin c.replacer f;
          },
          Created.page f page_id,
        )
        else (c, Created.unix_error)
  ]

  unfoldable pub delete_page : BufferPool → PageId → BufferPool × Bool
  unfolding set_page
  delete_page b page_id =
      let c = record b { disk = D.deallocate_page b.disk page_id.page_no } in
      elim (c.page_table page_id) [
        | none ↦ (c, true)
        | some f ↦ if ltb 0 (c.pages f).pin_count then (c, false) else (
          record (set_page c f (record (c.pages f) { content = blank })) {
            page_table = erase_id c.page_table page_id;
            free_list = c.free_list ++ f ∷ [];
          },
          true,
        )
      ]

  -- The rounds of the loop from frame `i`; false is the exception, which ends the loop.
  unfoldable pub flush_from : ℕ → ℕ → BufferPool → ℕ → BufferPool × Bool
  unfolding write_out ℤ-discrete
  flush_from zero i b fd = (b, true)
  flush_from (suc n) i b fd =
      let (c, written) = write_out b i in
      let old = (b.pages i).id in
      let rest = flush_from n (i + 1) c fd in
      let skip = flush_from n (i + 1) b fd in
      if old.fd == fd
      then ite (ℤ-discrete old.page_no invalid_page_id) skip (if written then rest else (c, false))
      else skip

  unfoldable pub flush_all_pages : BufferPool → ℕ → BufferPool × Bool
  unfolding flush_from
  flush_all_pages b fd = flush_from b.pool_size 0 b fd
