-- ===== src/Storage/BufferPool/Invariant.antt =====
-- When the table, the free list, the replacer and the frames of the buffer pool agree.
use rubcase_lab.Base.{ℕ, ◌<◌, ◌≡◌, ◌≢◌, true, false, none, some, List, [], ◌∷◌, length, contains}
use rubcase_lab.Replacer.Interface.{Replacer}
use rubcase_lab.Storage.DiskInterface.{DiskManager}
use rubcase_lab.Storage.Page.{PageId, Bytes, InFile, page_size, invalid_page_id}
use rubcase_lab.Storage.BufferPool.{BufferPool}

-- No number stands twice in a list.
abbrev pub Distinct : List ℕ → Type 0
Distinct [] = Unit {0}
Distinct (x ∷ xs) = (contains x xs ≡ false) × Distinct xs

module _ (R : Replacer) (D : DiskManager) where
  -- A frame that a table entry leads to holds that page.
  pub record Holds (b : BufferPool R D) (p : PageId) (f : ℕ) : Type 0 where
    pub below : f < b.pool_size
    pub labelled : (b.pages f).id ≡ p
    pub addressable : InFile p.page_no
    pub evictable : (b.pages f).pin_count ≡ 0 → R.has b.replacer f ≡ true
    pub written :
        (b.pages f).pin_count ≡ 0
        → (b.pages f).is_dirty ≡ false
        → (b.pages f).content ≡ D.stored b.disk p

  -- A frame that may be evicted is not pinned, and the table leads to it.
  pub record Evictable (b : BufferPool R D) (f : ℕ) : Type 0 where
    pub unpinned : (b.pages f).pin_count ≡ 0
    pub mapped : b.page_table (b.pages f).id ≡ some f

  pub record Free (b : BufferPool R D) (f : ℕ) : Type 0 where
    pub below : f < b.pool_size
    pub unpinned : (b.pages f).pin_count ≡ 0
    pub clean : (b.pages f).is_dirty ≡ false
    pub unlabelled : (b.pages f).id.page_no ≡ invalid_page_id
    pub tracked : R.has b.replacer f ≡ false

  pub record IsValid (b : BufferPool R D) : Type 0 where
    pub replacer_valid : R.IsValid b.replacer
    pub sized : (f : ℕ) → length (b.pages f).content ≡ page_size
    pub holds : (p : PageId) (f : ℕ) → b.page_table p ≡ some f → Holds b p f
    pub evictable : (f : ℕ) → R.has b.replacer f ≡ true → Evictable b f
    pub free : (f : ℕ) → contains f b.free_list ≡ true → Free b f
    pub free_distinct : Distinct b.free_list

  -- What a reader of a page sees: the frame that holds it, or the disk.
  unfoldable pub view : BufferPool R D → PageId → Bytes
  view b p = elim (b.page_table p) [ none ↦ D.stored b.disk p | some f ↦ (b.pages f).content ]

  -- A frame that `find_victim_page` has taken out of every list. A dirty one still owes a write.
  pub record Vacant (b : BufferPool R D) (f : ℕ) : Type 0 where
    pub valid : IsValid b
    pub below : f < b.pool_size
    pub unpinned : (b.pages f).pin_count ≡ 0
    pub unmapped : (p : PageId) → b.page_table p ≢ some f
    pub not_free : contains f b.free_list ≡ false
    pub tracked : R.has b.replacer f ≡ false
    pub forgotten : b.page_table (b.pages f).id ≡ none
    pub owed : (b.pages f).is_dirty ≡ true → InFile (b.pages f).id.page_no
