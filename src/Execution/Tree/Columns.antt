-- ===== src/Execution/Tree/Columns.antt =====
-- The columns of every executor lie one behind the other in its tuples.
use Prim.Native.String.{String}
use native.Mathlib.Nat.{mod-eq_of_lt, add_comm, zero-add}
use rubcase_lab.Base.{
  ℕ, ◌+◌, ◌%◌, ◌^◌, ◌≤◌, ◌<◌, ◌≡◌, ap, inl, inr, List, [], ◌∷◌, ◌++◌, map, arith,
}
use rubcase_lab.Record.Layout.{RmFileHdr}
use rubcase_lab.System.Meta.{
  ColMeta, DbMeta, ok, Result-cases, Ensures, Ensures->>=, find_table-get_table, get_table, each,
}
use rubcase_lab.System.Layout.{IsPacked, IsLaidOut}
use rubcase_lab.Execution.Defs.{TabCol, Condition, get_col}
use rubcase_lab.Execution.Scan.{SeqScan, seq_scan, end_of, to_size, handle_at, orient}
use rubcase_lab.Execution.Tree.{Output, scan_node, shift, join, select_cols, projection}

to_size_small : (n : ℕ) → n < 2 ^ 31 → to_size n ≡ n
to_size_small n h = omega arith

pub IsPacked-le : (a : ℕ) (cols : List ColMeta) (b : ℕ) → IsPacked a cols b → a ≤ b
IsPacked-le a [] b p = omega arith
IsPacked-le a (c ∷ cols) b (_, p) = omega (arith, IsPacked-le (a + c.len) cols b p)

IsPacked-append :
    (a b c : ℕ) (xs ys : List ColMeta) → IsPacked a xs b → IsPacked b ys c → IsPacked a (xs ++ ys) c
IsPacked-append a b c [] ys p q = rw p q
IsPacked-append a b c (x ∷ xs) ys (e, p) q = (e, IsPacked-append (a + x.len) b c xs ys p q)

IsPacked-shift :
    (a b len : ℕ) (cols : List ColMeta)
    → b + len < 2 ^ 32
    → IsPacked a cols b
    → IsPacked (a + len) (map (shift len) cols) (b + len)
unfolding shift
IsPacked-shift a b len [] h p = omega arith
IsPacked-shift a b len (c ∷ cols) h (e, p) =
    let le = IsPacked-le (a + c.len) cols b p in
    let at : (c.offset + len) % 2 ^ 32 ≡ a + len = rw e (mod-eq_of_lt (omega arith)) in
    let next : a + c.len + len ≡ a + len + c.len = omega arith in
    (at, rw (← next) (IsPacked-shift (a + c.len) b len cols h p))

-- The end of a table's columns is the length of its records.
end_of-IsPacked :
    (a b : ℕ) (c : ColMeta) (cols : List ColMeta)
    → b < 2 ^ 31
    → IsPacked a (c ∷ cols) b
    → end_of (c ∷ cols) ≡ ok b
unfolding end_of
end_of-IsPacked a b c [] h (e, p) =
    let sum : (c.offset + c.len) % 2 ^ 32 ≡ b = rw e (omega arith) in
    rw (sum, end_of) (ap ok (to_size_small b h))
end_of-IsPacked a b c (d ∷ cols) h (e, p) = end_of-IsPacked (a + c.len) b d cols h p

end_of-IsPacked_all :
    (n : ℕ) (cols : List ColMeta) → 1 ≤ n → n < 2 ^ 31 → IsPacked 0 cols n → end_of cols ≡ ok n
end_of-IsPacked_all n [] low h p = absurd (omega arith)
end_of-IsPacked_all n (c ∷ cols) low h p = end_of-IsPacked 0 n c cols h p

-- The columns of a node lie one behind the other from 0 to its length, an `int`.
pub record IsLaid (n : Output) : Type 0 where
  pub packed : IsPacked 0 n.cols n.len
  pub small : n.len < 2 ^ 31

join-IsLaid : (l r : Output) → IsLaid l → IsLaid r → l.len + r.len < 2 ^ 31 → IsLaid (join l r)
unfolding join
join-IsLaid l r p q h =
    let sum : (l.len + r.len) % 2 ^ 64 ≡ l.len + r.len = omega arith in
    let right : IsPacked l.len (map (shift l.len) r.cols) (l.len + r.len) =
      rw (zero-add, add_comm r.len l.len) at
        (IsPacked-shift 0 r.len l.len r.cols (omega arith) q.packed) in
    record {
      packed =
          rw (sum, join)
            (IsPacked-append 0 l.len (l.len + r.len) l.cols (map (shift l.len) r.cols) p.packed
              right);
      small = rw (sum, join) h;
    }

-- The bytes of the columns together.
abbrev pub cols_len : List ColMeta → ℕ
cols_len [] = 0
cols_len (c ∷ cols) = c.len + cols_len cols

-- The columns of a projection from `a` on lie one behind the other, if they end before 2^31.
abbrev IsSelected : ℕ → List ColMeta × List ℕ × ℕ → Type 0
IsSelected a (cols, idxs, len) = a + cols_len cols < 2 ^ 31 → IsPacked a cols len × (len < 2 ^ 31)

select_cols-IsSelected :
    (prev_cols : List ColMeta) (a : ℕ) (sel_cols : List TabCol)
    → Ensures (IsSelected a) (select_cols prev_cols a sel_cols)
unfolding select_cols
select_cols-IsSelected prev_cols a [] = λ h. omega arith
select_cols-IsSelected prev_cols a (t ∷ sel) = elim (Result-cases (get_col prev_cols t)) [
  | inl (_, e) ↦ rw (e, select_cols) tt
  | inr ((i, c), e) ↦
      let next = (a + to_size c.len) % 2 ^ 64 in
      elim (Result-cases (select_cols prev_cols next sel)) [
        | inl (_, f) ↦ rw (e, select_cols) (rw f tt)
        | inr ((cols, idxs, len), f) ↦
            rw (e, select_cols)
              (rw f λ h.
                let step : next ≡ a + c.len =
                  rw (to_size_small c.len (omega arith)) (omega arith) in
                let later : IsSelected next (cols, idxs, len) =
                  rw f at (select_cols-IsSelected prev_cols next sel) in
                let (p, q) = later (rw step (omega arith)) in ((omega arith, rw step at p), q))
      ]
]

projection-IsLaid :
    (n m : Output) (sel_cols : List TabCol) (sel_idxs : List ℕ)
    → projection n sel_cols ≡ ok (m, sel_idxs)
    → cols_len m.cols < 2 ^ 31
    → IsLaid m
unfolding projection
projection-IsLaid n m sel_cols sel_idxs made small =
    let goal : Ensures (λ (p : Output × List ℕ). cols_len p.0.cols < 2 ^ 31 → IsLaid p.0)
        (projection n sel_cols) =
      Ensures->>= _ (select_cols n.cols 0 sel_cols) _ λ (cols, idxs, len) e h.
        let selected : IsSelected 0 (cols, idxs, len) =
          rw e at (select_cols-IsSelected n.cols 0 sel_cols) in
        let (p, q) = selected (omega arith) in record { packed = p; small = q } in
    rw made at goal small

abbrev IsLaidScan : SeqScan → Type 0
IsLaidScan s = IsLaid (scan_node s)

seq_scan-IsLaid :
    (db : DbMeta) (fhs : List (String × (ℕ × RmFileHdr))) (tab_name : String)
    (conds : List Condition)
    → IsLaidOut db
    → Ensures IsLaidScan (seq_scan db fhs tab_name conds)
unfolding seq_scan
seq_scan-IsLaid db fhs tab_name conds laid =
    Ensures->>= IsLaidScan (get_table db tab_name) _ λ tab found.
      Ensures->>= IsLaidScan (handle_at fhs tab_name) _ λ _ _.
        Ensures->>= IsLaidScan (end_of tab.cols) _ λ len ends.
          Ensures->>= IsLaidScan (each (orient tab_name) conds) _ λ turned _.
            let (n, low, high, p) =
              laid tab_name tab (find_table-get_table db tab_name tab found) in
            let same : n ≡ len = cc (ends, end_of-IsPacked_all n tab.cols low (omega arith) p) in
            record { packed = rw (← same) p; small = rw (← same) (omega arith) }

-- The executors that the constructors build over the tables of a catalogue, while a tuple of a join or
-- a projection, with all its columns, has fewer than 2^31 bytes.
pub data Built (db : DbMeta) (fhs : List (String × (ℕ × RmFileHdr))) : Output → Type 0 where
  scanned :
      {s : SeqScan} (tab_name : String) (conds : List Condition)
      → seq_scan db fhs tab_name conds ≡ ok s
      → Built db fhs (scan_node s)
  joined :
      {l r : Output}
      → Built db fhs l
      → Built db fhs r
      → l.len + r.len < 2 ^ 31
      → Built db fhs (join l r)
  projected :
      {n m : Output} (sel_cols : List TabCol) (idxs : List ℕ)
      → Built db fhs n
      → projection n sel_cols ≡ ok (m, idxs)
      → cols_len m.cols < 2 ^ 31
      → Built db fhs m

-- In every tree of scans, joins and projections that the constructors build over a catalogue whose
-- tables are laid out, where the columns of each join and of each projection have fewer than 2^31
-- bytes together, the columns of every executor lie one behind the other from 0 to the length of its
-- tuples.
pub Built-IsLaid :
    {db : DbMeta} {fhs : List (String × (ℕ × RmFileHdr))} {n : Output}
    → IsLaidOut db
    → Built db fhs n
    → IsLaid n
Built-IsLaid {db} {fhs} laid (scanned tab_name conds e) =
    rw e at (seq_scan-IsLaid db fhs tab_name conds laid)
Built-IsLaid laid (joined {l} {r} p q h) =
    join-IsLaid l r (Built-IsLaid laid p) (Built-IsLaid laid q) h
Built-IsLaid laid (projected {n} {m} sel_cols idxs p made small) =
    projection-IsLaid n m sel_cols idxs made small
