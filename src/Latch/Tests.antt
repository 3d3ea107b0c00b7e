-- ===== src/Latch/Tests.antt =====
-- Two threads and a latch.
use rubcase_lab.Base.{◌≡◌, ◌≢◌, refl, true, arith}
use rubcase_lab.Latch.{
  Latch, reading, draining, writing, w_lock, drained, System, place_of, moved, Step, locks_write,
  drains, none_yet, then_one,
}
use rubcase_lab.Latch.Safety.{reads, total, start, Steps-exclusive}

abbrev entered : Latch
entered = record { reader_count = 0; writer_entered = true }

abbrev wanting : System
wanting = moved (start 2) entered 0 draining

abbrev held : System
held = moved wanting entered 0 writing

begun : Step (start 2) wanting
unfolding w_lock
begun = locks_write 0 (omega arith) refl refl

entering : Step wanting held
unfolding drained
entering = drains 0 (omega arith) refl refl

Steps-exclusive_example :
    (place_of held 1 ≢ writing)
    × (place_of held 1 ≢ reading)
    × (held.latch.reader_count ≡ total reads held.threads)
Steps-exclusive_example =
    Steps-exclusive 2 held 0 1 (then_one (then_one none_yet begun) entering) (omega arith)
      (omega arith) (λ e. absurd (omega arith)) refl
