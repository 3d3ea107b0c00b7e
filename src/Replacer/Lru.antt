-- ===== src/Replacer/Lru.antt =====
-- src/replacer/lru_replacer.h and lru_replacer.cpp: the recency list and the hash table of iterators.
pub mod Invariant
pub mod Refine
pub mod Instance
mod Tests
use rubcase_lab.Base.{
  ℕ, suc, ◌==◌, if◌then◌else◌, Option, none, some, List, [], ◌∷◌, length, unsnoc, update,
}

-- A list node: an iterator points to a node, whatever is inserted or erased around it, so a node
-- carries an identity, its address.
pub record Node : Type 0 where
  pub address : ℕ
  pub frame : ℕ

-- `next_address` is the allocator of list nodes: an address that no node has yet.
pub record LruReplacer : Type 0 where
  pub lru_list : List Node
  pub lru_hash : ℕ → Option ℕ
  pub max_size : ℕ
  pub next_address : ℕ

unfoldable pub init : ℕ → LruReplacer
init num_pages = record {
  lru_list = [];
  lru_hash = λ _. none;
  max_size = num_pages;
  next_address = 0;
}

-- `std::list::erase(iterator)`.
unfoldable pub erase_node : ℕ → List Node → List Node
erase_node it [] = []
erase_node it (n ∷ l) = if n.address == it then l else n ∷ erase_node it l

-- The frame that was taken out, or `none` where the code returns false.
unfoldable pub victim : LruReplacer → LruReplacer × Option ℕ
victim r = elim (unsnoc r.lru_list) [
  | none ↦ (r, none)
  | some (rest, back) ↦
      (record r { lru_list = rest; lru_hash = update r.lru_hash back.frame none }, some back.frame)
]

unfoldable pub pin : LruReplacer → ℕ → LruReplacer
pin r frame_id = elim (r.lru_hash frame_id) [
  | none ↦ r
  | some it ↦ record r {
    lru_list = erase_node it r.lru_list;
    lru_hash = update r.lru_hash frame_id none;
  }
]

unfoldable pub unpin : LruReplacer → ℕ → LruReplacer
unpin r frame_id = elim (r.lru_hash frame_id) [
  | none ↦ record r {
    lru_list = front ∷ r.lru_list;
    lru_hash = update r.lru_hash frame_id (some front.address);
    next_address = suc r.next_address;
  }
  | some it ↦ r
]
  where
    front : Node
    front = record { address = r.next_address; frame = frame_id }

pub size : LruReplacer → ℕ
size r = length r.lru_list
