-- ===== src/Replacer/Lru/Tests.antt =====
-- A run of the LRU replacer.
use rubcase_lab.Base.{◌≡◌, ◌∷◌, [], List, none, some, refl, unsnoc}
use rubcase_lab.Replacer.Lru.{LruReplacer, init, victim, pin, unpin, erase_node}
use rubcase_lab.Replacer.Lru.Invariant.{IsValid, init-IsValid, unpin-IsValid}
use rubcase_lab.Replacer.Lru.Refine.{
  Call, victims, pins, unpins, lru_step, lru_run, recency_run, lru_run-init,
}

-- Frames 1 and 2 are unpinned, in this order.
abbrev two_frames : LruReplacer
two_frames = unpin (unpin (init 4) 1) 2

two_frames-IsValid : IsValid two_frames
two_frames-IsValid = unpin-IsValid (unpin-IsValid (init-IsValid 4) 1) 2

abbrev calls : List Call
calls = unpins 1 ∷ unpins 2 ∷ unpins 3 ∷ unpins 1 ∷ pins 2 ∷ victims ∷ victims ∷ victims ∷ []

lru_run-init_example : lru_run (init 4) calls ≡ recency_run [] calls
lru_run-init_example = lru_run-init 4 calls

-- The frame unpinned longest ago goes first, and a second `Unpin` does not refresh it.
run_result : lru_run (init 4) calls ≡ none ∷ none ∷ none ∷ none ∷ none ∷ some 1 ∷ some 3 ∷ none ∷ []
unfolding lru_run lru_step victim pin unpin init erase_node unsnoc
run_result = refl
