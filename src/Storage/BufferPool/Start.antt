-- ===== src/Storage/BufferPool/Start.antt =====
-- The pool that the constructor makes.
use rubcase_lab.Base.{
  ℕ, zero, suc, ◌<◌, ◌≡◌, refl, ◌==◌, true, false, ◌||◌, List, [], ◌∷◌, ◌++◌, contains, arith,
}
use rubcase_lab.Replacer.Interface.{Replacer}
use rubcase_lab.Storage.DiskInterface.{DiskManager}
use rubcase_lab.Storage.Page.{PageId, length-blank}
use rubcase_lab.Storage.BufferPool.{init, frame_ids}
use rubcase_lab.Storage.BufferPool.Invariant.{Distinct, IsValid, view}

contains-snoc : (x y : ℕ) (l : List ℕ) → contains x (l ++ y ∷ []) ≡ (contains x l || y == x)
unfolding contains
contains-snoc x y [] = ground arith
contains-snoc x y (z ∷ l) = ground (arith, contains-snoc x y l)

Distinct-snoc : (y : ℕ) (l : List ℕ) → contains y l ≡ false → Distinct l → Distinct (l ++ y ∷ [])
unfolding contains
Distinct-snoc y [] h d = (refl, tt)
Distinct-snoc y (z ∷ l) h d =
    (ground (arith, contains-snoc z y l, d.0), Distinct-snoc y l (ground arith) d.1)

frame_ids-lt : (n f : ℕ) → contains f (frame_ids n) ≡ true → f < n
unfolding frame_ids contains
frame_ids-lt zero f h = absurd (ground arith)
frame_ids-lt (suc n) f h = ground (arith, contains-snoc f n (frame_ids n), frame_ids-lt n f)

frame_ids-Distinct : (n : ℕ) → Distinct (frame_ids n)
unfolding frame_ids
frame_ids-Distinct zero = tt
frame_ids-Distinct (suc n) =
    Distinct-snoc n (frame_ids n) (ground (arith, frame_ids-lt n n)) (frame_ids-Distinct n)

module _ (R : Replacer) (D : DiskManager) where
  -- A new pool is well formed, and a reader sees the disk.
  pub init-IsValid :
      (pool_size : ℕ) (disk : D.Disk) (any_fd : ℕ)
      → IsValid R D (init R D pool_size disk any_fd)
        × ((p : PageId) → view R D (init R D pool_size disk any_fd) p ≡ D.stored disk p)
  unfolding init view
  init-IsValid pool_size disk any_fd = (
    record {
      replacer_valid = R.init-IsValid pool_size;
      sized = λ f. length-blank;
      holds = λ p f e. absurd (ground arith);
      evictable = λ f e. absurd (ground (arith, R.has-init pool_size f));
      free = λ f e. record {
        below = frame_ids-lt pool_size f e;
        unpinned = refl;
        clean = refl;
        unlabelled = refl;
        tracked = R.has-init pool_size f;
      };
      free_distinct = frame_ids-Distinct pool_size;
    },
    λ p. refl,
  )
