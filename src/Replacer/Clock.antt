-- ===== src/Replacer/Clock.antt =====
-- src/replacer/clock_replacer.h and clock_replacer.cpp: the class as it stands, whose operations are
-- not written yet. No pool uses it.
use rubcase_lab.Base.{ℕ, ◌-◌, ◌^◌, Option, none, List, replicate}

pub data Status : Type 0 where
  untouched accessed empty_or_pinned : Status

pub record ClockReplacer : Type 0 where
  pub circular : List Status
  pub hand : ℕ
  pub capacity : ℕ

unfoldable pub clock_init : ℕ → ClockReplacer
clock_init num_pages = record {
  circular = replicate num_pages empty_or_pinned;
  hand = 0;
  capacity = num_pages;
}

unfoldable pub clock_victim : ClockReplacer → ClockReplacer × Option ℕ
clock_victim r = (r, none)

unfoldable pub clock_pin : ClockReplacer → ℕ → ClockReplacer
clock_pin r frame_id = r

unfoldable pub clock_unpin : ClockReplacer → ℕ → ClockReplacer
clock_unpin r frame_id = r

-- -1 as a `size_t`.
unfoldable pub clock_size : ClockReplacer → ℕ
clock_size r = 2 ^ 64 - 1
