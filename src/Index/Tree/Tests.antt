-- ===== src/Index/Tree/Tests.antt =====
-- Runs on trees of INT keys, and the theorems on the tree at a tree with two leaves.
use native.Mathlib.Decide.{ℕ_discrete}
use rubcase_lab.Base.{
  ℕ, zero, suc, ◌<◌, ◌≤◌, ◌≡◌, ◌≢◌, ◌⊎◌, ap, sym, ◌∙◌, refl, true, Option, none, some, List, [],
  ◌∷◌, arith,
}
use rubcase_lab.Base.Int.{ℤ, pos, negsuc, int32, lt_int, inc32, bits32, ℤ-discrete}
use rubcase_lab.Storage.Page.{Bytes}
use rubcase_lab.Index.Compare.{ix_compare, int_at, less, same, more, sign}
use rubcase_lab.Defs.{Rid}
use rubcase_lab.Index.Node.{leaf_lookup, internal_lookup, upper_bound, bound_loop, get_max_size}
use rubcase_lab.Index.Tree.{IxIndexHandle, fetch_node, find_leaf_page, find_from, get_value}
use rubcase_lab.Index.Tree.Grow.{split, insert_entry, insert_into_parent, split_node_if_full}
use rubcase_lab.Index.Tree.Shrink.{erase_leaf, coalesce, delete_entry}
use rubcase_lab.Index.Tree.Entries.{Iid, get_rid, next, lower_bound_iid, leaf_begin, leaf_end}
use rubcase_lab.Index.Tree.Search.{TreeFinds, Descends}
use rubcase_lab.Index.Tree.Lookup.{find_leaf_page-Descends, get_value-TreeFinds}
use rubcase_lab.Index.Tree.Descent.{descend, answer}
use rubcase_lab.Index.Tree.InsertEntry.{Room, insert_entry_lem}
use rubcase_lab.Index.Tree.DeleteEntry.{delete_entry_lem}
use rubcase_lab.Index.Tree.Parents.{insert_into_parent_routes, insert_into_parent_misroutes}
use rubcase_lab.Index.Tree.Pages.{NotIn}
use rubcase_lab.Index.Tree.Chain.{IsRing, erase_leaf-IsRing}
use rubcase_lab.Index.Tree.SplitLeaf.{split-IsRing}
use rubcase_lab.Index.Tree.Ranges.{lower_bound_iid_lem}
use rubcase_lab.Index.Tree.Scanning.{collect}
use rubcase_lab.Index.Tree.FullScan.{IsRun, collect-rids_of}
use rubcase_lab.Index.Tree.Siblings.{coalesce_internal}
use rubcase_lab.Index.Tree.Sample.{
  cmp, order, key_of, empty_leaf, rid_of, created, two_keys, sample_nodes, sample, two-Sorted,
  sample-IsTree, less_10_20, less_10_50,
}

find_leaf_page-Descends_example :
    (c : IxIndexHandle) × (leaf : ℤ) × (find_leaf_page cmp 1 sample (key_of 20) ≡ some (c, leaf))
    × Descends cmp (fetch_node sample (pos 3)) c 1 (pos 3) leaf (key_of 20)
find_leaf_page-Descends_example =
    find_leaf_page-Descends cmp order 1 1 sample (key_of 20) (omega arith) sample-IsTree

get_value-TreeFinds_example :
    (c : IxIndexHandle) × (result : Option Rid) × (get_value cmp 1 sample (key_of 20)
      ≡ some (c, result))
    × (c.nodes ≡ sample_nodes)
    × TreeFinds cmp sample_nodes 1 (pos 3) (key_of 20) result
get_value-TreeFinds_example =
    get_value-TreeFinds cmp order 1 1 sample (key_of 20) (omega arith) sample-IsTree

fresh_15 : (j : ℕ) → j ≤ 2 → sign (cmp (key_of 15) (two_keys 10 20 j)) ≢ same
unfolding ix_compare int_at int32 lt_int
fresh_15 zero h = λ e. cc
fresh_15 (suc zero) h = λ e. cc
fresh_15 (suc (suc j)) h = λ e. cc

abbrev page_or : Option ℤ → ℤ
page_or none = pos 0
page_or (some p) = p

path_15 : descend cmp (key_of 15) sample_nodes 1 (pos 3) ≡ some (pos 4)
unfolding descend internal_lookup upper_bound bound_loop ix_compare int_at int32 lt_int
path_15 = refl

room_15 : Room cmp order 1 1 sample (key_of 15) (rid_of 9) (omega arith) sample-IsTree
unfolding get_max_size
room_15 leaf path =
    let there : pos 4 ≡ leaf = ap page_or (sym path_15 ∙ path) in
    rw⁻¹ there ((λ (e : 3 ≡ 4). absurd (omega arith)), fresh_15)

insert_entry_lem_example :
    (c : IxIndexHandle) × (insert_entry cmp 1 sample (key_of 15) (rid_of 9) ≡ some (c, true))
    × (answer (get_value cmp 1 c (key_of 15)) ≡ some (some (rid_of 9)))
    × ((other : Bytes)
        → sign (cmp other (key_of 15)) ≢ same
        → answer (get_value cmp 1 c other) ≡ answer (get_value cmp 1 sample other))
insert_entry_lem_example =
    insert_entry_lem cmp order 1 1 sample (key_of 15) (rid_of 9) (omega arith) sample-IsTree room_15

not_key :
    (n : ℕ)
    → sign (cmp (key_of n) (key_of 10)) ≢ same
    → sign (cmp (key_of n) (key_of 50)) ≢ same
    → sign (cmp (key_of n) (key_of 0)) ≢ same
    → (j : ℕ) → j ≤ 2
    → sign (cmp (key_of n) (two_keys 10 50 j)) ≢ same
not_key n a b c zero h = a
not_key n a b c (suc zero) h = b
not_key n a b c (suc (suc j)) h = c

fresh_55 : (j : ℕ) → j ≤ 2 → sign (cmp (key_of 55) (two_keys 10 50 j)) ≢ same
unfolding ix_compare int_at int32 lt_int
fresh_55 = not_key 55 (λ e. cc) (λ e. cc) (λ e. cc)

fresh_5 : (j : ℕ) → j ≤ 2 → sign (cmp (key_of 5) (two_keys 10 50 j)) ≢ same
unfolding ix_compare int_at int32 lt_int
fresh_5 = not_key 5 (λ e. cc) (λ e. cc) (λ e. cc)

more_55_10 : sign (cmp (key_of 55) (key_of 10)) ≡ more
unfolding ix_compare int_at int32 lt_int
more_55_10 = refl

less_5_10 : sign (cmp (key_of 5) (key_of 10)) ≡ less
unfolding ix_compare int_at int32 lt_int
less_5_10 = refl

room_3 : 3 ≢ get_max_size sample.file_hdr
unfolding get_max_size
room_3 e = absurd (omega arith)

has_parent : pos 3 ≢ negsuc 0
has_parent e = cc

insert_into_parent_routes_example :
    (c : IxIndexHandle) × (insert_into_parent cmp
        (split_node_if_full cmp 1)
        sample
        (pos 5)
        (key_of 55)
        (pos 6)
      ≡ some c)
    × ((k : Bytes)
        → (sign (cmp k (key_of 55)) ≡ less
            → internal_lookup cmp (c.nodes (pos 3)) k
              ≡ internal_lookup cmp (sample_nodes (pos 3)) k)
          × (sign (cmp k (key_of 55)) ≢ less
              → ((j : ℕ)
                  → j < 2
                  → sign (cmp (key_of 55) (two_keys 10 50 j)) ≡ less
                  → sign (cmp k (two_keys 10 50 j)) ≡ less)
              → internal_lookup cmp (c.nodes (pos 3)) k ≡ pos 6)
          × ((j : ℕ)
              → j < 2
              → sign (cmp (key_of 55) (two_keys 10 50 j)) ≡ less
              → sign (cmp k (two_keys 10 50 j)) ≢ less
              → internal_lookup cmp (c.nodes (pos 3)) k
                ≡ internal_lookup cmp (sample_nodes (pos 3)) k))
insert_into_parent_routes_example =
    insert_into_parent_routes cmp order 1 sample (pos 5) (pos 6) (key_of 55) 2 has_parent refl
      (two-Sorted 10 50 less_10_50) (omega arith) fresh_55 room_3 more_55_10

insert_into_parent_misroutes_example :
    (c : IxIndexHandle) × (insert_into_parent cmp
        (split_node_if_full cmp 1)
        sample
        (pos 4)
        (key_of 5)
        (pos 6)
      ≡ some c)
    × ((k : Bytes)
        → sign (cmp k (key_of 5)) ≡ less
        → (internal_lookup cmp (sample_nodes (pos 3)) k ≡ pos 4)
          × (internal_lookup cmp (c.nodes (pos 3)) k ≡ pos 6))
    × ((q : ℤ) → q ≢ pos 3 → c.nodes q ≡ sample_nodes q)
insert_into_parent_misroutes_example =
    insert_into_parent_misroutes cmp order 1 sample (pos 4) (pos 6) (key_of 5) 2 has_parent refl
      (two-Sorted 10 50 less_10_50) (omega arith) fresh_5 room_3 less_5_10

sample-IsRing : IsRing sample_nodes (pos 1) (pos 4 ∷ pos 5 ∷ [])
sample-IsRing = record {
  linked = (refl, refl, (refl, refl, (refl, refl)));
  distinct = (((λ e. cc), ((λ e. cc), _)), (((λ e. cc), _), (_, _)));
  real = ((λ e. cc), ((λ e. cc), ((λ e. cc), _)));
}

outside_6 : NotIn (pos 6) (pos 1 ∷ pos 4 ∷ pos 5 ∷ [])
outside_6 = ((λ e. cc), ((λ e. cc), ((λ e. cc), _)))

erase_leaf-IsRing_example :
    (e : IxIndexHandle) × (erase_leaf sample (pos 4) ≡ some e) × IsRing e.nodes (pos 1) (pos 5 ∷ [])
erase_leaf-IsRing_example =
    erase_leaf-IsRing sample (pos 1) (pos 4) [] (pos 5 ∷ []) refl sample-IsRing

-- The sample as the disk manager goes on with page 6, and its nodes are split at two keys.
abbrev full_leaf : IxIndexHandle
full_leaf = record sample {
  file_hdr = record (sample.file_hdr) { btree_order = 1 };
  next_page_no = pos 6;
}

split-IsRing_example :
    (e : IxIndexHandle) × (new : ℤ) × (split full_leaf (pos 4) ≡ (e, new))
    × IsRing e.nodes (pos 1) (pos 4 ∷ new ∷ pos 5 ∷ [])
    × ((k : Bytes)
        → (sign (cmp k ((e.nodes new).keys 0)) ≡ less
            → leaf_lookup cmp (e.nodes (pos 4)) k ≡ leaf_lookup cmp (sample_nodes (pos 4)) k)
          × (sign (cmp k ((e.nodes new).keys 0)) ≢ less
              → leaf_lookup cmp (e.nodes new) k ≡ leaf_lookup cmp (sample_nodes (pos 4)) k))
split-IsRing_example =
    split-IsRing cmp order full_leaf (pos 1) (pos 4) [] (pos 5 ∷ []) 2 sample-IsRing outside_6
      (λ e. cc) refl refl (omega arith) (two-Sorted 10 20 less_10_20)

-- The handle of the sample after the descent to its first leaf.
abbrev at_first : IxIndexHandle
at_first = fetch_node (fetch_node sample (pos 3)) (pos 4)

found_30 : find_leaf_page cmp 1 sample (key_of 30) ≡ some (at_first, pos 4)
unfolding find_leaf_page find_from internal_lookup upper_bound bound_loop ix_compare int_at int32
    lt_int
found_30 = refl

lower_bound_iid_lem_example :
    (d : IxIndexHandle) × (slot : ℕ) × (lower_bound_iid cmp 1 sample (key_of 30)
      ≡ some (d, record { page_no = pos 4; slot_no = slot }))
    × ((i : ℕ) → i < slot → sign (cmp (key_of 30) (two_keys 10 20 i)) ≡ more)
    × (((slot < 2)
          × (sign (cmp (key_of 30) (two_keys 10 20 slot)) ≢ more)
          × ((get_rid d (record { page_no = pos 4; slot_no = slot })).1 ≡ some (rid_of slot)))
        ⊎ ((slot ≡ 2)
            × ((get_rid d (record { page_no = pos 4; slot_no = slot })).1 ≡ none)
            × ((end : Iid)
                → next
                    (record { ih = d; iid = record { page_no = pos 4; slot_no = slot }; end = end })
                  ≡ none)))
unfolding fetch_node
lower_bound_iid_lem_example =
    lower_bound_iid_lem cmp order 1 sample at_first (pos 4) (key_of 30) 2 found_30 refl
      (two-Sorted 10 20 less_10_20)

-- A tree of one leaf.
abbrev one_leaf : ℕ → IxIndexHandle
one_leaf n = record (created 3) {
  nodes = λ p. record (empty_leaf p (pos 1)) {
    num_key = pos n;
    keys = two_keys 10 20;
    rids = λ i. rid_of i;
  };
}

delete_entry_lem_example :
    (c : IxIndexHandle) × (delete_entry cmp 1 (one_leaf 2) (key_of 20) ≡ some (c, true))
    × (answer (get_value cmp 0 c (key_of 20)) ≡ some none)
    × ((other : Bytes)
        → sign (cmp other (key_of 20)) ≢ same
        → answer (get_value cmp 0 c other) ≡ answer (get_value cmp 0 (one_leaf 2) other))
delete_entry_lem_example =
    delete_entry_lem cmp order 0 (one_leaf 2) (key_of 20) refl refl 1 (order.same_self (key_of 20))
      0 refl (two-Sorted 10 20 less_10_20) (omega arith)

-- The sample with the page of its first leaf in the header.
abbrev whole : IxIndexHandle
whole = record sample { file_hdr = record (sample.file_hdr) { first_leaf = pos 4 } }

sample-IsRun : IsRun sample_nodes (pos 4 ∷ []) (pos 5)
sample-IsRun = ((λ e. cc), refl, refl, omega arith, refl, (refl, refl))

collect-rids_of_example :
    collect 4 (record { ih = (leaf_end whole).0; iid = leaf_begin whole; end = (leaf_end whole).1 })
    ≡ some (rid_of 0 ∷ rid_of 1 ∷ rid_of 0 ∷ rid_of 1 ∷ [])
collect-rids_of_example = collect-rids_of whole (pos 4 ∷ []) 4 refl sample-IsRun (omega arith)

-- Pages 7 and 8 are internal nodes of the sample.
coalesce_internal_example : coalesce (λ h p. none) sample (pos 7) (pos 8) (pos 3) 0 ≡ none
coalesce_internal_example =
    coalesce_internal (λ h p. none) sample (pos 3) (pos 7) (pos 8) 0 refl refl

-- Inserts of keys into a new index with nodes that are split at four keys, one after the other, and a lookup.
unfoldable insert_all : IxIndexHandle → List ℕ → Option IxIndexHandle
unfolding insert_entry
insert_all h [] = some h
insert_all h (n ∷ ns) = elim (insert_entry cmp 5 h (key_of n) (rid_of n)) [
  | none ↦ none
  | some (c, done) ↦ insert_all c ns
]

unfoldable look : List ℕ → ℕ → Option (Option Rid)
unfolding insert_all get_value
look ns n = elim (insert_all (created 3) ns) [
  | none ↦ none
  | some h ↦ answer (get_value cmp 5 h (key_of n))
]

rising_kept : look (50 ∷ 60 ∷ 70 ∷ 80 ∷ 90 ∷ []) 60 ≡ some (some (rid_of 60))
unfolding look ix_compare int_at int32 lt_int bits32 inc32 ℤ-discrete ℕ_discrete leaf_lookup
    internal_lookup
rising_kept = refl

-- The split of the first leaf puts the key 50 into the parent, which holds it already, so the parent
-- does not get the new leaf.
lost_50 : look (50 ∷ 60 ∷ 70 ∷ 80 ∷ 40 ∷ 30 ∷ []) 50 ≡ some none
unfolding look ix_compare int_at int32 lt_int bits32 inc32 ℤ-discrete ℕ_discrete leaf_lookup
    internal_lookup
lost_50 = refl
