-- ===== src/Latch/Safety.antt =====
-- Whoever holds the latch.
use rubcase_lab.Base.{
  ℕ, zero, suc, ◌+◌, ◌≡◌, ◌≤◌, ◌<◌, ◌≢◌, refl, ap, false, if◌then◌else◌, List, [], ◌∷◌, length,
  get_or, set, length-set, get_or-set, arith, replicate,
}
use rubcase_lab.Latch.{
  max_readers, Place, outside, reading, draining, writing, w_lock, drained, w_unlock, r_lock,
  r_unlock, System, place_of, Step, locks_write, drains, unlocks_write, locks_read, unlocks_read,
  Steps, none_yet, then_one,
}

abbrev pub reads : Place → ℕ
reads outside = 0
reads reading = 1
reads draining = 0
reads writing = 0

abbrev pub owns : Place → ℕ
owns outside = 0
owns reading = 0
owns draining = 1
owns writing = 1

-- How many threads are at places that count.
unfoldable pub total : (Place → ℕ) → List Place → ℕ
total weight [] = 0
total weight (p ∷ l) = weight p + total weight l

total-set :
    (weight : Place → ℕ) (l : List Place) (t : ℕ) (p : Place)
    → t < length l
    → total weight (set l t p) + weight (get_or l t outside) ≡ total weight l + weight p
unfolding total
total-set weight [] t p h = absurd (omega arith)
total-set weight (q ∷ l) zero p h = omega arith
total-set weight (q ∷ l) (suc t) p h = omega (arith, total-set weight l t p (omega arith))

total-le :
    (weight : Place → ℕ) (l : List Place) (t : ℕ)
    → t < length l
    → weight (get_or l t outside) ≤ total weight l
unfolding total
total-le weight [] t h = absurd (omega arith)
total-le weight (q ∷ l) zero h = omega arith
total-le weight (q ∷ l) (suc t) h = omega (arith, total-le weight l t (omega arith))

-- The latch counts the readers, its mark says that one thread is in the second part of `WLock` or
-- holds the write latch, and a thread that holds it is alone.
pub record IsValid (s : System) : Type 0 where
  pub counted : s.latch.reader_count ≡ total reads s.threads
  pub owned : total owns s.threads ≡ (if s.latch.writer_entered then 1 else 0)
  pub bounded : s.latch.reader_count ≤ max_readers
  pub alone : (t : ℕ) → t < length s.threads → place_of s t ≡ writing → s.latch.reader_count ≡ 0

-- Every step of every thread keeps the latch consistent with the places of the threads: the count is
-- the number of readers, its mark says that one thread is in the second part of `WLock` or holds the
-- write latch, and a holder of the write latch is alone.
pub Step-IsValid : {s u : System} → Step s u → IsValid s → IsValid u
unfolding w_lock drained w_unlock r_lock r_unlock
Step-IsValid (locks_write {s} {l} t h at e) v = record {
  counted = ground (arith, v.counted, total-set reads s.threads t draining h);
  owned = ground (arith, v.owned, total-set owns s.threads t draining h);
  bounded = ground (arith, v.bounded);
  alone = λ g k w. ground (
    arith,
    v.alone g,
    get_or-set s.threads t g draining outside h,
    length-set s.threads t draining,
  );
}
Step-IsValid (drains {s} {l} t h at e) v = record {
  counted = ground (
    arith,
    v.counted,
    v.bounded,
    total-set reads s.threads t writing h,
    total-le reads s.threads t h,
  );
  owned =
      ground (arith, v.owned, total-set owns s.threads t writing h, total-le owns s.threads t h);
  bounded = ground (arith, v.bounded, v.counted);
  alone = λ g k w. ground (
    arith,
    v.alone g,
    v.owned,
    v.counted,
    get_or-set s.threads t g writing outside h,
    length-set s.threads t writing,
    total-le owns s.threads g,
  );
}
Step-IsValid (unlocks_write {s} t h at) v = record {
  counted = ground (
    arith,
    v.counted,
    v.bounded,
    total-set reads s.threads t outside h,
    total-le reads s.threads t h,
  );
  owned =
      ground (arith, v.owned, total-set owns s.threads t outside h, total-le owns s.threads t h);
  bounded = ground (arith, v.bounded, v.counted);
  alone = λ g k w. ground (
    arith,
    v.alone g,
    v.owned,
    v.counted,
    get_or-set s.threads t g outside outside h,
    length-set s.threads t outside,
    total-le owns s.threads g,
  );
}
Step-IsValid (locks_read {s} {l} t h at e) v = record {
  counted = ground (
    arith,
    v.counted,
    v.bounded,
    total-set reads s.threads t reading h,
    total-le reads s.threads t h,
  );
  owned =
      ground (arith, v.owned, total-set owns s.threads t reading h, total-le owns s.threads t h);
  bounded = ground (arith, v.bounded, v.counted);
  alone = λ g k w. ground (
    arith,
    v.alone g,
    v.owned,
    v.counted,
    get_or-set s.threads t g reading outside h,
    length-set s.threads t reading,
    total-le owns s.threads g,
  );
}
Step-IsValid (unlocks_read {s} t h at) v = record {
  counted = ground (
    arith,
    v.counted,
    v.bounded,
    total-set reads s.threads t outside h,
    total-le reads s.threads t h,
  );
  owned =
      ground (arith, v.owned, total-set owns s.threads t outside h, total-le owns s.threads t h);
  bounded = ground (arith, v.bounded, v.counted);
  alone = λ g k w. ground (
    arith,
    v.alone g,
    v.owned,
    v.counted,
    get_or-set s.threads t g outside outside h,
    length-set s.threads t outside,
    total-le owns s.threads g,
    total-le reads s.threads t h,
  );
}

Steps-IsValid : {s u : System} → Steps s u → IsValid s → IsValid u
Steps-IsValid none_yet v = v
Steps-IsValid (then_one before last) v = Step-IsValid last (Steps-IsValid before v)

-- A new latch, and threads that are all outside.
abbrev pub start : ℕ → System
start n = record {
  latch = record { reader_count = 0; writer_entered = false };
  threads = replicate n outside;
}

total-start :
    (weight : Place → ℕ) (n : ℕ) → weight outside ≡ 0 → total weight (replicate n outside) ≡ 0
unfolding total
total-start weight zero e = refl
total-start weight (suc n) e = omega (arith, total-start weight n e)

start_outside : (n t : ℕ) → get_or (replicate n outside) t outside ≡ outside
start_outside zero t = refl
start_outside (suc n) zero = refl
start_outside (suc n) (suc t) = start_outside n t

pub start-IsValid : (n : ℕ) → IsValid (start n)
start-IsValid n = record {
  counted = ground (arith, total-start reads n refl);
  owned = ground (arith, total-start owns n refl);
  bounded = omega arith;
  alone = λ t h e. refl;
}

apart :
    (l : List Place) (t u : ℕ)
    → t < length l
    → u < length l
    → t ≢ u
    → owns (get_or l t outside) + owns (get_or l u outside) ≤ total owns l
unfolding total
apart [] t u h k d = absurd (omega arith)
apart (p ∷ l) zero zero h k d = absurd (d refl)
apart (p ∷ l) zero (suc u) h k d = omega (arith, total-le owns l u (omega arith))
apart (p ∷ l) (suc t) zero h k d = omega (arith, total-le owns l t (omega arith))
apart (p ∷ l) (suc t) (suc u) h k d =
    omega (arith, apart l t u (omega arith) (omega arith) (λ e. d (ap suc e)))

-- Whatever steps the threads take from a new latch on: while one thread holds the write latch, no
-- other thread holds it or a read latch, and the count of readers is the number of threads that hold
-- a read latch.
pub Steps-exclusive :
    (n : ℕ) (s : System) (t u : ℕ)
    → Steps (start n) s
    → t < length s.threads
    → u < length s.threads
    → t ≢ u
    → place_of s t ≡ writing
    → (place_of s u ≢ writing)
      × (place_of s u ≢ reading)
      × (s.latch.reader_count ≡ total reads s.threads)
Steps-exclusive n s t u steps h k d e =
    let v = Steps-IsValid steps (start-IsValid n) in
    (
      λ w. ground (arith, apart s.threads t u h k d, v.owned, e, w),
      λ w. ground (arith, v.alone t h e, v.counted, total-le reads s.threads u k, w),
      v.counted,
    )
