-- ===== src/Storage/BufferPool/Tests.antt =====
-- The buffer pool with the LRU replacer over a disk in memory.
use Prim.Native.Nat.{ℕ, ◌+◌}
use rubcase_lab.Base.{◌≡◌, refl, inl, Bool, true, false, ◌==◌, none, some, contains, arith, unsnoc}
use rubcase_lab.Base.Int.{ℤ, pos, negsuc, ℤ-discrete}
use native.Mathlib.Decide.{ℕ_discrete}
use rubcase_lab.Replacer.Lru
use rubcase_lab.Replacer.Lru.{erase_node}
use rubcase_lab.Replacer.Lru.Instance.{lru_replacer}
use rubcase_lab.Storage.DiskInterface.{DiskManager}
use rubcase_lab.Storage.Memory.{Memory, memory_disk, empty_disk}
use rubcase_lab.Storage.Page.{PageId, PageId-discrete, InFile}
use rubcase_lab.Storage.BufferPool.{
  BufferPool, Fetched, Created, init, find_victim_page, fetch_page, unpin_page, flush_page,
  new_page, frame_ids, load, update_page, read_in, write_back, set_page, release_frame, write_out,
}
use rubcase_lab.Storage.BufferPool.Invariant.{IsValid, view}
use rubcase_lab.Storage.BufferPool.Start.{init-IsValid}
use rubcase_lab.Storage.BufferPool.Fetch.{Fetches, fetch_page-Fetches}
use rubcase_lab.Storage.BufferPool.Failure.{fetch_page_total}
use rubcase_lab.Storage.BufferPool.Release.{unpin_page_lem, flush_page_lem}
use rubcase_lab.Storage.BufferPool.Create.{Creates, new_id, new_page-Creates}

abbrev first : PageId
first = record { fd = 3; page_no = pos 0 }

abbrev second : PageId
second = record { fd = 3; page_no = pos 1 }

-- Page 1 cannot be read.
abbrev is_one : ℤ → Bool
is_one (pos n) = n == 1
is_one (negsuc n) = false

abbrev good : DiskManager
good = memory_disk (λ p. false)

abbrev flaky : DiskManager
flaky = memory_disk (λ p. is_one p.page_no)

-- A pool of one frame, its frame filled with page 0, and then released as dirty.
abbrev empty_pool : BufferPool lru_replacer good
empty_pool = init lru_replacer good 1 empty_disk 0

abbrev held_pool : BufferPool lru_replacer good
held_pool = (fetch_page lru_replacer good empty_pool first).0

abbrev flaky_pool : BufferPool lru_replacer flaky
flaky_pool = init lru_replacer flaky 1 empty_disk 0

abbrev flaky_held : BufferPool lru_replacer flaky
flaky_held = (fetch_page lru_replacer flaky flaky_pool first).0

abbrev dirty_pool : BufferPool lru_replacer flaky
dirty_pool = (unpin_page lru_replacer flaky flaky_held first true).0

empty-IsValid : IsValid lru_replacer good empty_pool
empty-IsValid = (init-IsValid lru_replacer good 1 empty_disk 0).0

held_first : (fetch_page lru_replacer good empty_pool first).1 ≡ Fetched.page 0
unfolding fetch_page find_victim_page init frame_ids load update_page read_in write_back
held_first = refl

held : Fetches lru_replacer good empty_pool held_pool first 0
held =
    fetch_page-Fetches lru_replacer good empty_pool first empty-IsValid (omega arith) 0 held_first

flaky_returned : (fetch_page lru_replacer flaky flaky_pool first).1 ≡ Fetched.page 0
unfolding fetch_page find_victim_page init frame_ids load update_page read_in write_back
flaky_returned = refl

flaky_fetched : Fetches lru_replacer flaky flaky_pool flaky_held first 0
flaky_fetched =
    fetch_page-Fetches lru_replacer flaky flaky_pool first
      (init-IsValid lru_replacer flaky 1 empty_disk 0).0 (omega arith) 0 flaky_returned

dirty-IsValid : IsValid lru_replacer flaky dirty_pool
dirty-IsValid =
    (unpin_page_lem lru_replacer flaky flaky_held flaky_fetched.valid first 0 flaky_fetched.mapped
      flaky_fetched.pinned true (inl refl)).1

fetch_page-Fetches_example : Fetches lru_replacer good empty_pool held_pool first 0
fetch_page-Fetches_example =
    fetch_page-Fetches lru_replacer good empty_pool first empty-IsValid (omega arith) 0 held_first

second_null : (fetch_page lru_replacer good held_pool second).1 ≡ Fetched.nullptr
unfolding fetch_page find_victim_page init frame_ids load update_page read_in write_back unsnoc
    unpin_page release_frame set_page PageId-discrete ℤ-discrete ℕ_discrete Lru.init Lru.victim
    Lru.pin Lru.unpin erase_node
second_null = refl

one_free : contains 0 empty_pool.free_list ≡ true
unfolding contains init frame_ids
one_free = refl

fetch_page_total_example :
    (g : ℕ) × ((fetch_page lru_replacer good empty_pool first).1 ≡ Fetched.page g)
fetch_page_total_example =
    fetch_page_total lru_replacer good empty_pool first 0 empty-IsValid (λ d q bytes. refl)
      (λ d bytes. refl) (inl one_free)

dirty_absent : dirty_pool.page_table second ≡ none
unfolding fetch_page find_victim_page init frame_ids load update_page read_in write_back unsnoc
    unpin_page release_frame set_page PageId-discrete ℤ-discrete ℕ_discrete Lru.init Lru.victim
    Lru.pin Lru.unpin erase_node
dirty_absent = refl

dirty_victim : (find_victim_page lru_replacer flaky dirty_pool).1 ≡ some 0
unfolding fetch_page find_victim_page init frame_ids load update_page read_in write_back unsnoc
    unpin_page release_frame set_page PageId-discrete ℤ-discrete ℕ_discrete Lru.init Lru.victim
    Lru.pin Lru.unpin erase_node
dirty_victim = refl

dirty_there : (dirty_pool.pages 0).is_dirty ≡ true
unfolding fetch_page find_victim_page init frame_ids load update_page read_in write_back unsnoc
    unpin_page release_frame set_page PageId-discrete ℤ-discrete ℕ_discrete Lru.init Lru.victim
    Lru.pin Lru.unpin erase_node
dirty_there = refl

-- The page that the failed read leaves behind.
abbrev after_write : Memory
after_write =
    (flaky.write_page dirty_pool.disk (dirty_pool.pages 0).id (dirty_pool.pages 0).content).0

nothing_pinned : (unpin_page lru_replacer good empty_pool first true).1 ≡ false
unfolding unpin_page init
nothing_pinned = refl

unpin_page_lem_example :
    ((unpin_page lru_replacer good held_pool first true).1 ≡ true)
    × IsValid lru_replacer good (unpin_page lru_replacer good held_pool first true).0
    × (((unpin_page lru_replacer good held_pool first true).0.pages 0).pin_count + 1
        ≡ (held_pool.pages 0).pin_count)
    × ((q : PageId)
        → view lru_replacer good (unpin_page lru_replacer good held_pool first true).0 q
          ≡ view lru_replacer good held_pool q)
unpin_page_lem_example =
    unpin_page_lem lru_replacer good held_pool held.valid first 0 held.mapped held.pinned true
      (inl refl)

flushed : (flush_page lru_replacer good held_pool first).1 ≡ some true
unfolding fetch_page find_victim_page init frame_ids load update_page read_in write_back unsnoc
    unpin_page release_frame set_page PageId-discrete ℤ-discrete ℕ_discrete Lru.init Lru.victim
    Lru.pin Lru.unpin erase_node flush_page write_out
flushed = refl

flush_page_lem_example :
    IsValid lru_replacer good (flush_page lru_replacer good held_pool first).0
    × (good.stored (flush_page lru_replacer good held_pool first).0.disk first
        ≡ view lru_replacer good held_pool first)
    × (((flush_page lru_replacer good held_pool first).0.pages 0).is_dirty ≡ false)
    × ((q : PageId)
        → InFile q.page_no
        → view lru_replacer good (flush_page lru_replacer good held_pool first).0 q
          ≡ view lru_replacer good held_pool q)
flush_page_lem_example =
    flush_page_lem lru_replacer good held_pool held.valid first 0 held.mapped flushed

created : (new_page lru_replacer good empty_pool 3).1 ≡ Created.page 0 first
unfolding fetch_page find_victim_page init frame_ids load update_page read_in write_back unsnoc
    unpin_page release_frame set_page PageId-discrete ℤ-discrete ℕ_discrete Lru.init Lru.victim
    Lru.pin Lru.unpin erase_node new_page
created = refl

new_absent : empty_pool.page_table (new_id lru_replacer good empty_pool 3) ≡ none
unfolding init
new_absent = refl

new-InFile : InFile (new_id lru_replacer good empty_pool 3).page_no
unfolding new_id init
new-InFile = omega arith

new_page-Creates_example :
    (first ≡ new_id lru_replacer good empty_pool 3)
    × Creates lru_replacer good empty_pool (new_page lru_replacer good empty_pool 3).0 first 0
new_page-Creates_example =
    new_page-Creates lru_replacer good empty_pool 3 empty-IsValid 0 first new-InFile new_absent
      created
