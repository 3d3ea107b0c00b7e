-- ===== src/Storage/BufferPool/Install.antt =====
-- A found frame is written out if it is dirty, and then takes the page.
use mathlib.Core.Logic.{ite}
use rubcase_lab.Base.{
  ℕ, ◌≡◌, inl, inr, ◌==◌, if◌then◌else◌, true, false, none, some, length, Option-cases, arith,
}
use rubcase_lab.Replacer.Interface.{Replacer}
use rubcase_lab.Storage.DiskInterface.{DiskManager}
use rubcase_lab.Storage.Page.{PageId, PageId-discrete, Bytes, InFile, page_size}
use rubcase_lab.Storage.BufferPool.{BufferPool, write_back}
use rubcase_lab.Storage.BufferPool.Invariant.{IsValid, view, Vacant}
use rubcase_lab.Storage.BufferPool.Victim.{pending}

module _ (R : Replacer) (D : DiskManager) where
  module _ (b : BufferPool R D) (f : ℕ) (v : Vacant R D b f)
      (ok : (write_back R D b f).1 ≡ true) where
    -- After the write of a dirty frame the disk has its bytes, and nothing else is changed.
    stored-write_back :
        (q : PageId)
        → InFile q.page_no
        → D.stored (write_back R D b f).0.disk q ≡ (
            if (b.pages f).is_dirty
            then ite (PageId-discrete (b.pages f).id q) (b.pages f).content (D.stored b.disk q)
            else D.stored b.disk q)
    unfolding write_back
    stored-write_back q h = ground (
      arith,
      v.owed,
      v.valid.sized f,
      D.stored-write_page b.disk (b.pages f).id q (b.pages f).content,
    )

    pub write_back-Vacant : Vacant R D (write_back R D b f).0 f
    unfolding write_back
    write_back-Vacant = record {
      valid = record {
        replacer_valid = ground (arith, v.valid.replacer_valid);
        sized = λ g. ground (arith, v.valid.sized g);
        holds = λ p g m. ground (arith, v.valid.holds p g, stored-write_back p, v.unmapped p);
        evictable = λ g m. ground (arith, v.valid.evictable g, v.tracked);
        free = λ g m. ground (arith, v.valid.free g, v.not_free);
        free_distinct = ground (arith, v.valid.free_distinct);
      };
      below = ground (arith, v.below);
      unpinned = ground (arith, v.unpinned);
      unmapped = λ p m. ground (arith, v.unmapped p);
      not_free = ground (arith, v.not_free);
      tracked = ground (arith, v.tracked);
      forgotten = ground (arith, v.forgotten);
      owed = λ h. ground (arith, v.owed);
    }

    pub view-write_back :
        (q : PageId) → InFile q.page_no → view R D (write_back R D b f).0 q ≡ pending R D b f q
    unfolding write_back pending view
    view-write_back q h = ground (arith, stored-write_back q h, v.unmapped q, v.forgotten)

  -- How a pool differs from the one before after a page has come into a vacant frame.
  pub record Installed (b c : BufferPool R D) (p : PageId) (f : ℕ) (bytes : Bytes) : Type 0 where
    pub pool_size : c.pool_size ≡ b.pool_size
    pub pages :
        (g : ℕ)
        → c.pages g ≡ (
            if f == g
            then record { id = p; content = bytes; is_dirty = false; pin_count = 1 }
            else b.pages g)
    pub page_table :
        (q : PageId) → c.page_table q ≡ ite (PageId-discrete p q) (some f) (b.page_table q)
    pub free_list : c.free_list ≡ b.free_list
    pub disk : (q : PageId) → D.stored c.disk q ≡ D.stored b.disk q
    pub replacer : c.replacer ≡ R.pin b.replacer f

  module _ (b c : BufferPool R D) (p : PageId) (f : ℕ) (bytes : Bytes) (v : Vacant R D b f)
      (i : Installed b c p f bytes) where
    pub Installed-IsValid :
        InFile p.page_no → b.page_table p ≡ none → length bytes ≡ page_size → IsValid R D c
    Installed-IsValid h absent size =
        let pinned = λ (g : ℕ). R.has-pin b.replacer f g v.valid.replacer_valid in
        record {
          replacer_valid = rw i.replacer (R.pin-IsValid b.replacer f v.valid.replacer_valid);
          sized = λ g. ground (arith, i.pages g, v.valid.sized g);
          holds = λ q g m. ground (
            arith,
            i.pages g,
            i.page_table q,
            i.disk q,
            i.pool_size,
            i.replacer,
            pinned g,
            v.valid.holds q g,
            v.unmapped q,
          );
          evictable = λ g m. ground (
            arith,
            i.pages g,
            i.page_table (b.pages g).id,
            i.replacer,
            pinned g,
            v.valid.evictable g,
          );
          free = λ g m. ground (
            arith,
            i.pages g,
            i.pool_size,
            i.free_list,
            i.replacer,
            pinned g,
            v.not_free,
            v.valid.free g,
          );
          free_distinct = rw i.free_list v.valid.free_distinct;
        }

    pub view-Installed :
        (q : PageId) → view R D c q ≡ ite (PageId-discrete p q) bytes (view R D b q)
    unfolding view
    view-Installed q = elim (Option-cases (b.page_table q)) [
      | inl e ↦ ground (arith, i.page_table q, i.pages f, i.disk q)
      | inr (g, e) ↦ ground (arith, i.page_table q, i.pages f, i.pages g, i.disk q, v.unmapped q)
    ]
