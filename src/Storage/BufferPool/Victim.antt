-- ===== src/Storage/BufferPool/Victim.antt =====
-- `FindVictimPage`: the frame that it finds is out of every list, and no page is lost.
use mathlib.Core.Logic.{ite}
use rubcase_lab.Base.{
  ℕ, ◌<◌, ◌≡◌, ◌≢◌, refl, sym, ap, ◌∙◌, inl, inr, if◌then◌else◌, true, none, some, List, [], ◌∷◌,
  contains, Option-cases, arith,
}
use rubcase_lab.Base.Int.{ℤ}
use rubcase_lab.Replacer.Interface.{Replacer}
use rubcase_lab.Storage.DiskInterface.{DiskManager}
use rubcase_lab.Storage.Page.{PageId, PageId-discrete, Bytes, InFile, invalid_page_id}
use rubcase_lab.Storage.BufferPool.{BufferPool, find_victim_page, erase_id}
use rubcase_lab.Storage.BufferPool.Invariant.{IsValid, view, Vacant}

module _ (R : Replacer) (D : DiskManager) where
  -- The two ways in which a frame is found.
  from_free : BufferPool R D → List ℕ → BufferPool R D
  from_free b rest = record b { free_list = rest }

  from_replacer : BufferPool R D → ℕ → BufferPool R D
  from_replacer b f = record b {
    replacer = (R.victim b.replacer).0;
    page_table = erase_id b.page_table (b.pages f).id;
  }

  not-InFile : (z : ℤ) → z ≡ invalid_page_id → ¬ InFile z
  not-InFile z e h = rw e at h

  module _ (b : BufferPool R D) (v : IsValid R D b) (f : ℕ) where
    -- No table entry leads to a free frame.
    free-unmapped : contains f b.free_list ≡ true → (p : PageId) → b.page_table p ≢ some f
    free-unmapped h p e =
        let w = v.holds p f e in
        let u = v.free f h in
        not-InFile p.page_no (ap (λ (q : PageId). q.page_no) (sym w.labelled) ∙ u.unlabelled)
          w.addressable

    -- Two entries that lead to one frame are one.
    mapped_once : (p q : PageId) → b.page_table p ≡ some f → b.page_table q ≡ some f → p ≡ q
    mapped_once p q e e' = sym (v.holds p f e).labelled ∙ (v.holds q f e').labelled

    from_free-Vacant : (rest : List ℕ) → b.free_list ≡ f ∷ rest → Vacant R D (from_free b rest) f
    unfolding from_free contains
    from_free-Vacant rest e =
        let u = v.free f (rw e (ground arith)) in
        let d = rw e at v.free_distinct in
        record {
          valid = record {
            replacer_valid = v.replacer_valid;
            sized = v.sized;
            holds = λ p g m. ground (arith, v.holds p g m);
            evictable = λ g m. ground (arith, v.evictable g m);
            free = λ g m. ground (arith, v.free g (rw e (ground arith)));
            free_distinct = d.1;
          };
          below = u.below;
          unpinned = u.unpinned;
          unmapped = free-unmapped (rw e (ground arith));
          not_free = d.0;
          tracked = u.tracked;
          forgotten = elim (Option-cases (b.page_table (b.pages f).id)) [
            | inl x ↦ x
            | inr (g, x) ↦ absurd (not-InFile _ u.unlabelled (v.holds _ g x).addressable)
          ];
          owed = λ x. ground arith;
        }

    from_replacer-Vacant :
        b.free_list ≡ [] → (R.victim b.replacer).1 ≡ some f → Vacant R D (from_replacer b f) f
    unfolding from_replacer contains
    from_replacer-Vacant e h =
        let was = v.evictable f (R.victim_some b.replacer f v.replacer_valid h) in
        let here = v.holds (b.pages f).id f was.mapped in
        let left = λ (g : ℕ). R.has-victim b.replacer f g v.replacer_valid h in
        let once = λ (p : PageId) (m : b.page_table p ≡ some f). (v.holds p f m).labelled in
        record {
          valid = record {
            replacer_valid = R.victim-IsValid b.replacer v.replacer_valid;
            sized = v.sized;
            holds = λ p g m. ground (arith, v.holds p g, left g, once p);
            evictable = λ g m. ground (arith, v.evictable g, left g);
            free = λ g m. ground (arith, v.free g m);
            free_distinct = v.free_distinct;
          };
          below = here.below;
          unpinned = was.unpinned;
          unmapped = λ p m. ground (arith, once p);
          not_free = rw e refl;
          tracked = ground (arith, left f);
          forgotten = ground arith;
          owed = λ _. here.addressable;
        }

  -- What a reader sees while a frame still owes its write.
  unfoldable pub pending : BufferPool R D → ℕ → PageId → Bytes
  pending b f q =
      if (b.pages f).is_dirty
      then ite (PageId-discrete (b.pages f).id q) (b.pages f).content (view R D b q)
      else view R D b q

  module _ (b : BufferPool R D) (v : IsValid R D b) where
    -- A frame that is found is out of every list.
    pub find_victim_page-Vacant :
        (f : ℕ) → (find_victim_page R D b).1 ≡ some f → Vacant R D (find_victim_page R D b).0 f
    unfolding find_victim_page from_free from_replacer
    find_victim_page-Vacant f h = go b.free_list refl
      where
        go : (l : List ℕ) → b.free_list ≡ l → Vacant R D (find_victim_page R D b).0 f
        go [] e = elim (Option-cases (R.victim b.replacer).1) [
          | inl x ↦ absurd (ground arith)
          | inr (g, x) ↦
              let same : g ≡ f = ground arith in
              rw (e, find_victim_page, x, same) (from_replacer-Vacant b v f e (x ∙ ap some same))
        ]
        go (g ∷ rest) e =
            let same : g ≡ f = ground arith in
            rw (e, find_victim_page) (from_free-Vacant b v f rest (e ∙ ap (λ k. k ∷ rest) same))

    -- No page is lost, when the write that is owed is counted.
    pub find_victim_page-pending :
        (f : ℕ) (q : PageId)
        → (find_victim_page R D b).1 ≡ some f
        → pending (find_victim_page R D b).0 f q ≡ view R D b q
    unfolding find_victim_page pending view contains
    find_victim_page-pending f q h = ground (
      arith,
      v.free f,
      v.evictable f,
      v.holds (b.pages f).id f,
      R.victim_some b.replacer f v.replacer_valid,
    )

    -- A page that is not in the pool does not come into it.
    pub find_victim_page-absent :
        (p : PageId) → b.page_table p ≡ none → (find_victim_page R D b).0.page_table p ≡ none
    unfolding find_victim_page
    find_victim_page-absent p h = ground arith

    -- Where no frame is found, every page of the pool is pinned, and nothing has changed for a
    -- reader.
    pub find_victim_page_failed :
        (find_victim_page R D b).1 ≡ none
        → IsValid R D (find_victim_page R D b).0
          × ((p : PageId) (f : ℕ) → b.page_table p ≡ some f → 0 < (b.pages f).pin_count)
          × ((q : PageId) → view R D (find_victim_page R D b).0 q ≡ view R D b q)
    unfolding find_victim_page view contains
    find_victim_page_failed h =
        let empty : b.free_list ≡ [] = ground arith in
        let out : (R.victim b.replacer).1 ≡ none = ground arith in
        let before = λ (f : ℕ). R.victim_none b.replacer f v.replacer_valid out in
        let after = λ (f : ℕ). R.has-victim_none b.replacer f v.replacer_valid out in
        (
          rw (empty, find_victim_page, out)
              (record {
                replacer_valid = R.victim-IsValid b.replacer v.replacer_valid;
                sized = v.sized;
                holds = λ p f m. ground (arith, v.holds p f m, before f);
                evictable = λ f m. ground (arith, after f);
                free = λ f m. ground (arith, v.free f);
                free_distinct = v.free_distinct;
              }),
          λ p f m. ground (arith, (v.holds p f m).evictable, before f),
          λ q. ground arith,
        )
