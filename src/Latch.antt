-- ===== src/Latch.antt =====
-- src/common/rwlatch.h and rwlatch.cpp: the reader-writer latch of a page. The mutex makes each part
-- of a call up to a wait one step; a thread that waits may wake at any time, as the condition
-- variables allow, and looks at the condition again.
pub mod Safety
mod Tests
use rubcase_lab.Base.{
  ℕ, suc, ◌+◌, ◌-◌, ◌%◌, ◌^◌, ◌≡◌, ◌<◌, Bool, true, false, not, ◌&&◌, ◌==◌, if◌then◌else◌, List, [],
  ◌∷◌, length, get_or, set, Option, none, some,
}

-- `MAX_READERS`.
abbrev pub max_readers : ℕ
max_readers = 2 ^ 32 - 1

pub record Latch : Type 0 where
  pub reader_count : ℕ
  pub writer_entered : Bool

-- Where a thread is: outside, holding a read latch, in `WLock` behind its first loop, or holding the
-- write latch. A thread in the first loop of `WLock`, or in the loop of `RLock`, is still outside.
pub data Place : Type 0 where
  outside reading draining writing : Place

-- The first loop of `WLock` and what follows it; `none` is a wait.
unfoldable pub w_lock : Latch → Option Latch
w_lock l = if l.writer_entered then none else some (record l { writer_entered = true })

-- The second loop of `WLock`.
unfoldable pub drained : Latch → Option Latch
drained l = if l.reader_count == 0 then some l else none

unfoldable pub w_unlock : Latch → Latch
w_unlock l = record l { writer_entered = false }

unfoldable pub r_lock : Latch → Option Latch
r_lock l =
    if not l.writer_entered && not (l.reader_count == max_readers)
    then some (record l { reader_count = (l.reader_count + 1) % 2 ^ 32 })
    else none

unfoldable pub r_unlock : Latch → Latch
r_unlock l = record l { reader_count = (l.reader_count + (2 ^ 32 - 1)) % 2 ^ 32 }

-- The latch and the places of the threads.
pub record System : Type 0 where
  pub latch : Latch
  pub threads : List Place

abbrev pub place_of : System → ℕ → Place
place_of s t = get_or s.threads t outside

abbrev pub moved : System → Latch → ℕ → Place → System
moved s l t p = record s { latch = l; threads = set s.threads t p }

-- One step of a thread.
pub data Step : System → System → Type 0 where
  locks_write :
      {s : System} {l : Latch} (t : ℕ)
      → t < length s.threads
      → place_of s t ≡ outside
      → w_lock s.latch ≡ some l
      → Step s (moved s l t draining)
  drains :
      {s : System} {l : Latch} (t : ℕ)
      → t < length s.threads
      → place_of s t ≡ draining
      → drained s.latch ≡ some l
      → Step s (moved s l t writing)
  unlocks_write :
      {s : System} (t : ℕ)
      → t < length s.threads
      → place_of s t ≡ writing
      → Step s (moved s (w_unlock s.latch) t outside)
  locks_read :
      {s : System} {l : Latch} (t : ℕ)
      → t < length s.threads
      → place_of s t ≡ outside
      → r_lock s.latch ≡ some l
      → Step s (moved s l t reading)
  unlocks_read :
      {s : System} (t : ℕ)
      → t < length s.threads
      → place_of s t ≡ reading
      → Step s (moved s (r_unlock s.latch) t outside)

pub data Steps : System → System → Type 0 where
  none_yet : {s : System} → Steps s s
  then_one : {s t u : System} → Steps s t → Step t u → Steps s u
