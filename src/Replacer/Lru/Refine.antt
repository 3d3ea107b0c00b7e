-- ===== src/Replacer/Lru/Refine.antt =====
-- What the LRU replacer promises: a list of frames, most recently unpinned first, without the hash
-- table and the addresses.
use rubcase_lab.Base.{
  ℕ, ◌≡◌, refl, ap, sym, ◌∙◌, if◌then◌else◌, Option, none, some, true, false, List, [], ◌∷◌, map,
  arith, unsnoc, unsnoc-cases, contains, erase, Option-cases, inl, inr,
}
use rubcase_lab.Replacer.Lru.{Node, LruReplacer, init, erase_node, victim, pin, unpin}
use rubcase_lab.Replacer.Lru.Invariant.{
  Below, IsValid, find_node, find_node-lt, init-IsValid, victim-IsValid, pin-IsValid, unpin-IsValid,
}

abbrev frames_of : List Node → List ℕ
frames_of = map λ n. n.frame

-- The frames that may be evicted, most recently unpinned first.
abbrev pub frames : LruReplacer → List ℕ
frames r = frames_of r.lru_list

-- A frame is in the list exactly when the hash table has it.
contains-frames_of :
    (f : ℕ) (l : List Node)
    → contains f (frames_of l) ≡ elim (find_node f l) [ none ↦ false | some _ ↦ true ]
unfolding contains find_node
contains-frames_of f [] = refl
contains-frames_of f (n ∷ l) = ground (arith, contains-frames_of f l)

frames_of-erase_node :
    (f b it : ℕ) (l : List Node)
    → Below b l
    → find_node f l ≡ some it
    → frames_of (erase_node it l) ≡ erase f (frames_of l)
unfolding erase_node erase find_node
frames_of-erase_node f b it [] w e = refl
frames_of-erase_node f b it (n ∷ l) w e =
    ground
      (arith, frames_of-erase_node f n.address it l w.1, find_node-lt f n.address l {it = it} w.1)

erase_absent : (f : ℕ) (l : List ℕ) → contains f l ≡ false → erase f l ≡ l
unfolding contains erase
erase_absent f [] e = refl
erase_absent f (x ∷ l) e = ground (arith, erase_absent f l)

frames_of-unsnoc :
    (l : List Node)
    → unsnoc (frames_of l)
      ≡ elim (unsnoc l) [ none ↦ none | some (ys, y) ↦ some (frames_of ys, y.frame) ]
unfolding unsnoc
frames_of-unsnoc [] = refl
frames_of-unsnoc (n ∷ l) = ground (arith, frames_of-unsnoc l)

-- The abstract replacer.
pub data Call : Type 0 where
  victims : Call
  pins unpins : ℕ → Call

unfoldable pub evict : List ℕ → List ℕ × Option ℕ
evict l = elim (unsnoc l) [ none ↦ ([], none) | some (rest, f) ↦ (rest, some f) ]

unfoldable pub refresh : List ℕ → ℕ → List ℕ
refresh l f = if contains f l then l else f ∷ l

-- What each call returns, and the frames after it.
unfoldable pub recency_step : List ℕ → Call → List ℕ × Option ℕ
unfolding evict refresh
recency_step l victims = evict l
recency_step l (pins f) = (erase f l, none)
recency_step l (unpins f) = (refresh l f, none)

unfoldable pub lru_step : LruReplacer → Call → LruReplacer × Option ℕ
lru_step r victims = victim r
lru_step r (pins f) = (pin r f, none)
lru_step r (unpins f) = (unpin r f, none)

unfoldable pub recency_run : List ℕ → List Call → List (Option ℕ)
recency_run l [] = []
recency_run l (c ∷ cs) = let (l', out) = recency_step l c in out ∷ recency_run l' cs

unfoldable pub lru_run : LruReplacer → List Call → List (Option ℕ)
lru_run r [] = []
lru_run r (c ∷ cs) = let (r', out) = lru_step r c in out ∷ lru_run r' cs

module _ {r : LruReplacer} (v : IsValid r) where
  pub victim-evict : (frames (victim r).0, (victim r).1) ≡ evict (frames r)
  unfolding victim evict
  victim-evict = ground (arith, frames_of-unsnoc r.lru_list, unsnoc-cases r.lru_list)

  pub pin-erase : (f : ℕ) → frames (pin r f) ≡ erase f (frames r)
  unfolding pin
  pin-erase f = elim (Option-cases (r.lru_hash f)) [
    | inl absent ↦
        rw (absent, pin)
          (sym (
            erase_absent f (frames r) (rw (contains-frames_of f r.lru_list, ← v.linked f, absent))))
    | inr (it, hit) ↦
        rw (hit, pin)
          (frames_of-erase_node f r.next_address it r.lru_list v.fresh (sym (v.linked f) ∙ hit))
  ]

  pub unpin-refresh : (f : ℕ) → frames (unpin r f) ≡ refresh (frames r) f
  unfolding unpin refresh
  unpin-refresh f = ground (arith, v.linked f, contains-frames_of f r.lru_list)

-- Every call of the replacer does what the recency list says, and keeps the replacer well formed.
pub lru_step-recency_step :
    (r : LruReplacer) (c : Call)
    → IsValid r
    → IsValid (lru_step r c).0
      × ((frames (lru_step r c).0, (lru_step r c).1) ≡ recency_step (frames r) c)
unfolding lru_step recency_step
lru_step-recency_step r victims v = (victim-IsValid v, victim-evict v)
lru_step-recency_step r (pins f) v = (pin-IsValid v f, ap (λ l. (l, none)) (pin-erase v f))
lru_step-recency_step r (unpins f) v = (unpin-IsValid v f, ap (λ l. (l, none)) (unpin-refresh v f))

lru_run-recency_run :
    (r : LruReplacer) (cs : List Call) → IsValid r → lru_run r cs ≡ recency_run (frames r) cs
unfolding lru_run recency_run
lru_run-recency_run r [] v = refl
lru_run-recency_run r (c ∷ cs) v =
    let (w, e) = lru_step-recency_step r c v in rw (← e, lru_run-recency_run (lru_step r c).0 cs w)

-- So the victims of any history are those of the recency list.
pub lru_run-init :
    (num_pages : ℕ) (cs : List Call) → lru_run (init num_pages) cs ≡ recency_run [] cs
unfolding init
lru_run-init num_pages cs = lru_run-recency_run _ cs (init-IsValid num_pages)
