-- ===== src/Replacer/Lru/Invariant.antt =====
-- The hash table and the list of the LRU replacer agree, and every call keeps them so.
use rubcase_lab.Base.{
  ℕ, ◌≤◌, ◌<◌, ◌≡◌, refl, inl, inr, ◌==◌, if◌then◌else◌, Option, none, some, List, [], ◌∷◌, ◌++◌,
  arith, unsnoc-cases, sym, ◌∙◌, Option-cases,
}
use rubcase_lab.Replacer.Lru.{Node, LruReplacer, init, erase_node, victim, pin, unpin}

-- The first node that holds a frame.
unfoldable pub find_node : ℕ → List Node → Option ℕ
find_node f [] = none
find_node f (n ∷ l) = if n.frame == f then some n.address else find_node f l

-- Addresses fall along the list, below a bound: a node is always pushed to the front.
abbrev pub Below : ℕ → List Node → Type 0
Below b [] = Unit {0}
Below b (n ∷ l) = (n.address < b) × Below n.address l

-- No frame stands in two nodes.
abbrev pub Distinct : List Node → Type 0
Distinct [] = Unit {0}
Distinct (n ∷ l) = (find_node n.frame l ≡ none) × Distinct l

pub record IsValid (r : LruReplacer) : Type 0 where
  pub fresh : Below r.next_address r.lru_list
  pub distinct : Distinct r.lru_list
  pub linked : (f : ℕ) → r.lru_hash f ≡ find_node f r.lru_list

Below-mono : {a b : ℕ} (l : List Node) → a ≤ b → Below a l → Below b l
Below-mono [] h w = tt
Below-mono (n ∷ l) h w = (omega arith, w.1)

erase_node-Below : (it b : ℕ) (l : List Node) → Below b l → Below b (erase_node it l)
unfolding erase_node
erase_node-Below it b [] w = tt
erase_node-Below it b (n ∷ l) w =
    ground (arith, erase_node-Below it n.address l w.1, Below-mono {a = n.address} {b = b} l)

-- A node that is found has an address below the bound.
pub find_node-lt : (f b : ℕ) (l : List Node) {it : ℕ} → Below b l → find_node f l ≡ some it → it < b
unfolding find_node
find_node-lt f b [] w e = cc
find_node-lt f b (n ∷ l) {it} w e = ground (arith, find_node-lt f n.address l {it = it} w.1)

-- To erase the node found for one frame leaves every other frame where it was.
pub find_node-erase_node :
    (f g b it : ℕ) (l : List Node)
    → Below b l
    → Distinct l
    → find_node f l ≡ some it
    → find_node g (erase_node it l) ≡ (if f == g then none else find_node g l)
unfolding find_node erase_node
find_node-erase_node f g b it [] w d e = cc
find_node-erase_node f g b it (n ∷ l) w d e = ground (
  arith,
  find_node-erase_node f g n.address it l w.1 d.1,
  find_node-lt f n.address l {it = it} w.1,
)

erase_node-Distinct :
    (f b it : ℕ) (l : List Node)
    → Below b l
    → Distinct l
    → find_node f l ≡ some it
    → Distinct (erase_node it l)
unfolding find_node erase_node
erase_node-Distinct f b it [] w d e = tt
erase_node-Distinct f b it (n ∷ l) w d e = ground (
  arith,
  erase_node-Distinct f n.address it l w.1 d.1,
  find_node-erase_node f n.frame n.address it l w.1 d.1,
  find_node-lt f n.address l {it = it} w.1,
)

-- A node at the end is found where no earlier node holds the frame.
pub find_node-snoc :
    (l : List Node) (n : Node) (g : ℕ)
    → find_node g (l ++ n ∷ []) ≡ elim (find_node g l) [
      | none ↦ if n.frame == g then some n.address else none
      | some a ↦ some a
    ]
unfolding find_node
find_node-snoc [] n g = refl
find_node-snoc (m ∷ l) n g = ground (arith, find_node-snoc l n g)

Below-init : (b : ℕ) (l : List Node) (n : Node) → Below b (l ++ n ∷ []) → Below b l
Below-init b [] n w = tt
Below-init b (m ∷ l) n w = (w.0, Below-init m.address l n w.1)

Distinct-init : (l : List Node) (n : Node) → Distinct (l ++ n ∷ []) → Distinct l
unfolding find_node
Distinct-init [] n d = tt
Distinct-init (m ∷ l) n d = (ground (arith, find_node-snoc l n m.frame), Distinct-init l n d.1)

-- The last node of a list with distinct frames is the only one with its frame.
pub find_node-last :
    (l : List Node) (n : Node) → Distinct (l ++ n ∷ []) → find_node n.frame l ≡ none
unfolding find_node
find_node-last [] n d = refl
find_node-last (m ∷ l) n d = ground (arith, find_node-last l n d.1, find_node-snoc l n m.frame)

pub init-IsValid : (num_pages : ℕ) → IsValid (init num_pages)
unfolding init find_node
init-IsValid num_pages = record { fresh = tt; distinct = tt; linked = λ f. refl }

module _ {r : LruReplacer} (v : IsValid r) where
  pub victim-IsValid : IsValid (victim r).0
  unfolding victim
  victim-IsValid = elim (unsnoc-cases r.lru_list) [
    | inl (e, u) ↦ rw (u, victim) v
    | inr (l, n, e, u) ↦
        rw (u, victim)
          (record {
            fresh = Below-init r.next_address l n (rw e at v.fresh);
            distinct = Distinct-init l n (rw e at v.distinct);
            linked = λ f. ground (
              arith,
              v.linked f,
              rw e at (v.linked f),
              find_node-snoc l n f,
              find_node-last l n (rw e at v.distinct),
            );
          })
  ]

  pub pin-IsValid : (f : ℕ) → IsValid (pin r f)
  unfolding pin
  pin-IsValid f = elim (Option-cases (r.lru_hash f)) [
    | inl absent ↦ rw (absent, pin) v
    | inr (it, hit) ↦
        let found : find_node f r.lru_list ≡ some it = sym (v.linked f) ∙ hit in
        rw (hit, pin)
          (record {
            fresh = erase_node-Below it r.next_address r.lru_list v.fresh;
            distinct = erase_node-Distinct f r.next_address it r.lru_list v.fresh v.distinct found;
            linked = λ g. ground (
              arith,
              v.linked g,
              find_node-erase_node f g r.next_address it r.lru_list v.fresh v.distinct found,
            );
          })
  ]

  pub unpin-IsValid : (f : ℕ) → IsValid (unpin r f)
  unfolding unpin find_node
  unpin-IsValid f = elim (Option-cases (r.lru_hash f)) [
    | inl absent ↦
        rw (absent, unpin)
          (record {
            fresh = (omega arith, v.fresh);
            distinct = (sym (v.linked f) ∙ absent, v.distinct);
            linked = λ g. ground (arith, v.linked g);
          })
    | inr (it, hit) ↦ rw (hit, unpin) v
  ]
