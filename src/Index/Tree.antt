-- ===== src/Index/Tree.antt =====
-- src/index/ix_index_handle.h and ix_index_handle.cpp: the B+ tree over the pages of an index file.
-- A node handle points into its page, so here it is the number of the page, which is also its
-- `GetPageNo`: what is done through one handle is seen through all. The buffer pool is what Storage/BufferPool shows to a client whose
-- calls succeed: the bytes of each page, its pins and its dirty mark.
pub mod Grow
pub mod Shrink
pub mod Entries
pub mod Store
pub mod Search
pub mod Lookup
pub mod Descent
pub mod InsertEntry
pub mod DeleteEntry
pub mod SplitLeaf
pub mod Parents
pub mod Relink
pub mod Pages
pub mod Chain
pub mod Halves
pub mod Ranges
pub mod Scanning
pub mod FullScan
pub mod Siblings
pub mod Sample
mod Tests
use mathlib.Core.Logic.{ite}
use rubcase_lab.Base.{
  ℕ, zero, suc, ◌+◌, ◌-◌, Bool, true, false, ◌||◌, ltb, if◌then◌else◌, Option, none, some,
  replicate, update,
}
use rubcase_lab.Base.Int.{ℤ, pos, negsuc, ℤ-discrete, inc32, dec32}
use rubcase_lab.Defs.{Rid}
use rubcase_lab.Storage.Page.{Bytes, invalid_page_id}
use rubcase_lab.Index.Node.{IxFileHdr, IxNodeHandle, count, leaf_lookup, internal_lookup}

-- A map on page numbers, changed at one.
abbrev pub put_at {ℓ} : {A : Type ℓ} → (ℤ → A) → ℤ → A → ℤ → A
put_at f p a q = ite (ℤ-discrete p q) a (f q)

pub record IxIndexHandle : Type 0 where
  pub file_hdr : IxFileHdr
  pub nodes : ℤ → IxNodeHandle
  pub pin_count : ℤ → ℕ
  pub is_dirty : ℤ → Bool
  -- What the disk manager gives out next for the file.
  pub next_page_no : ℤ

abbrev pub set_node : IxIndexHandle → ℤ → IxNodeHandle → IxIndexHandle
set_node h p n = record h { nodes = put_at h.nodes p n }

abbrev pub set_root : IxIndexHandle → ℤ → IxIndexHandle
set_root h p = record h { file_hdr = record h.file_hdr { root_page = p } }

-- `FetchPage` of a page of the file, whose bytes stay as they are.
abbrev pub pin : IxIndexHandle → ℤ → IxIndexHandle
pin h p = record h { pin_count = put_at h.pin_count p (h.pin_count p + 1) }

-- `UnpinPage`: false where the page is not pinned.
abbrev pub is_pinned : IxIndexHandle → ℤ → Bool
is_pinned h p = ltb 0 (h.pin_count p)

unfoldable pub unpin : IxIndexHandle → ℤ → Bool → IxIndexHandle
unpin h p dirty =
    if is_pinned h p
    then record h {
      pin_count = put_at h.pin_count p (h.pin_count p - 1);
      is_dirty = put_at h.is_dirty p (dirty || h.is_dirty p);
    }
    else h

-- `FetchNode`.
unfoldable pub fetch_node : IxIndexHandle → ℤ → IxIndexHandle
fetch_node h p = pin h p

-- The node that a new page holds: `NewPage` fills it with zeroes.
abbrev pub zero_node : IxFileHdr → ℤ → IxNodeHandle
zero_node hdr p = record {
  page_no = p;
  parent = pos 0;
  num_key = pos 0;
  is_leaf = false;
  prev_leaf = pos 0;
  next_leaf = pos 0;
  keys = λ _. replicate hdr.col_len 0;
  rids = λ _. record { page_no = pos 0; slot_no = pos 0 };
}

-- `CreateNode`, and the page number of the new node.
unfoldable pub create_node : IxIndexHandle → IxIndexHandle × ℤ
create_node h =
    let p = h.next_page_no in
    (
      record h {
        file_hdr = record h.file_hdr { num_pages = inc32 h.file_hdr.num_pages };
        nodes = put_at h.nodes p (zero_node h.file_hdr p);
        pin_count = put_at h.pin_count p 1;
        next_page_no = inc32 p;
      },
      p,
    )

unfoldable pub release_node_handle : IxIndexHandle → IxIndexHandle
release_node_handle h = record h {
  file_hdr = record h.file_hdr { num_pages = dec32 h.file_hdr.num_pages };
}

abbrev pub is_root_page : IxNodeHandle → Bool
is_root_page n = ite (ℤ-discrete n.parent invalid_page_id) true false

-- `maintain_child` at a child, and the loops of it over consecutive children.
unfoldable pub maintain_child : IxIndexHandle → ℤ → ℕ → IxIndexHandle
unfolding fetch_node unpin
maintain_child h p i =
    let child = ((h.nodes p).rids i).page_no in
    let c = fetch_node h child in
    let d = set_node c child (record (c.nodes child) { parent = p }) in
    if (h.nodes p).is_leaf then h else unpin d child true

unfoldable pub maintain_children : ℕ → ℕ → IxIndexHandle → ℤ → IxIndexHandle
unfolding maintain_child
maintain_children zero i h p = h
maintain_children (suc rounds) i h p = maintain_children rounds (i + 1) (maintain_child h p i) p

module _ (cmp : Bytes → Bytes → ℤ) where
  -- The loop of `FindLeafPage` from a page that is pinned, with fuel: the number of levels below the
  -- page is enough, and `none` is a loop that has not ended. Every page on the way stays pinned.
  unfoldable pub find_from : ℕ → IxIndexHandle → ℤ → Bytes → Option (IxIndexHandle × ℤ)
  unfolding fetch_node
  find_from zero h p key = if (h.nodes p).is_leaf then some (h, p) else none
  find_from (suc fuel) h p key =
      let child = internal_lookup cmp (h.nodes p) key in
      let below = find_from fuel (fetch_node h child) child key in
      if (h.nodes p).is_leaf then some (h, p) else below

  unfoldable pub find_leaf_page : ℕ → IxIndexHandle → Bytes → Option (IxIndexHandle × ℤ)
  unfolding find_from
  find_leaf_page fuel h key =
      find_from fuel (fetch_node h h.file_hdr.root_page) h.file_hdr.root_page key

  -- `GetValue` from the leaf on: the rid that is pushed to the result, or `none` for false.
  unfoldable pub leaf_value : IxIndexHandle → ℤ → Bytes → IxIndexHandle × Option Rid
  unfolding unpin
  leaf_value h leaf key = elim (leaf_lookup cmp (h.nodes leaf) key) [
    | some rid ↦ (h, some rid)
    | none ↦ (unpin h leaf false, none)
  ]

  unfoldable pub get_value : ℕ → IxIndexHandle → Bytes → Option (IxIndexHandle × Option Rid)
  unfolding find_leaf_page leaf_value
  get_value fuel h key = elim (find_leaf_page fuel h key) [
    | none ↦ none
    | some (c, leaf) ↦ some (leaf_value c leaf key)
  ]
