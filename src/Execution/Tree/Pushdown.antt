-- ===== src/Execution/Tree/Pushdown.antt =====
-- Feeding a record of the left child to the scan on the right tests the conditions of the join.
use Prim.Native.String.{String}
use text.Mathlib.Text.{◌==◌ as str_eq}
use text.Mathlib.TextEquality.{eq_iff}
use native.Mathlib.Nat.{mod-eq_of_lt}
use mathlib.Core.Path.{subst}
use rubcase_lab.Base.{
  ℕ, zero, suc, ◌+◌, ◌%◌, ◌^◌, ◌<◌, ◌≡◌, refl, sym, ap, ◌∙◌, inl, inr, Bool, true, false, some,
  List, [], ◌∷◌, ◌++◌, length, map, arith, Option-cases, Bool-cases,
}
use rubcase_lab.Storage.Page.{Bytes}
use rubcase_lab.Record.Layout.{take, drop}
use rubcase_lab.Index.Compare.{
  ColType, type_int, type_float, type_string, ix_compare, memcmp, int_at, other_bytes,
}
use rubcase_lab.System.Meta.{ColMeta, ok, ◌>>=◌, each}
use rubcase_lab.Execution.Defs.{TabCol, Condition, CompOp, col_key, same_col, value_at}
use rubcase_lab.Execution.Scan.{
  SeqScan, feed_cond, feed, is_local, check_runtime_conds, eval_cond, eval_conds,
}
use rubcase_lab.Execution.Scan.Swap.{test}
use rubcase_lab.Execution.Tree.{Output, scan_node, shift, join, feed_right}
use rubcase_lab.Execution.Tree.Columns.{IsLaid}
use rubcase_lab.Execution.Tree.Lookup.{
  lookup, column_of, side, eval_cond-column_of, Apart, Within, lookup-IsPacked, drop-append,
  take-drop-append, column_of-right, lookup-left,
}
use rubcase_lab.Execution.Tree.Values.{
  IsPadded, AllPadded, raw_value, col_value-type, Distinct, entries, rec2dict-entries,
  find_value-entries,
}

memcmp-take : (n : ℕ) (x y : Bytes) → memcmp n x (take n y) ≡ memcmp n x y
unfolding memcmp
memcmp-take zero x y = refl
memcmp-take (suc n) x [] = refl
memcmp-take (suc n) x (b ∷ y) = rw (memcmp-take n (other_bytes x) y) refl

take-take : (n : ℕ) (y : Bytes) → take n (take n y) ≡ take n y
take-take zero y = refl
take-take (suc n) [] = refl
take-take (suc n) (b ∷ y) = ap (◌∷◌ b) (take-take n y)

int_at-take : (y : Bytes) → int_at (take 4 y) ≡ int_at y
unfolding int_at
int_at-take [] = refl
int_at-take (a ∷ []) = refl
int_at-take (a ∷ b ∷ []) = refl
int_at-take (a ∷ b ∷ c ∷ []) = refl
int_at-take (a ∷ b ∷ c ∷ d ∷ y) = refl

-- A number has four bytes.
abbrev IsWide : ColType → ℕ → Type 0
IsWide type_int n = n ≡ 4
IsWide type_float n = n ≡ 4
IsWide type_string n = Unit

IsPadded-IsWide : (t : ColType) (n : ℕ) (b : Bytes) → IsPadded t n b → IsWide t n
IsPadded-IsWide type_int n b p = p
IsPadded-IsWide type_float n b p = p
IsPadded-IsWide type_string n b p = tt

AllPadded-lookup :
    (cols : List ColMeta) (rec : Bytes) (key : TabCol) (c : ColMeta)
    → AllPadded cols rec
    → lookup cols key ≡ some c
    → IsPadded c.type c.len (drop c.offset rec)
AllPadded-lookup [] rec key c p f = cc
AllPadded-lookup (d ∷ cols) rec key c (p, all) f = elim (Bool-cases (same_col (col_key d) key)) [
  | inl e ↦
      let same : d ≡ c = ground (arith, f) in
      subst (λ x. IsPadded x.type x.len (drop x.offset rec)) same p
  | inr e ↦ AllPadded-lookup cols rec key c all (ground (arith, f))
]

value_at-entries :
    (cols : List ColMeta) (rec : Bytes) (key : TabCol) (c : ColMeta)
    → lookup cols key ≡ some c
    → value_at (entries cols rec) key ≡ ok (raw_value c rec)
unfolding value_at
value_at-entries cols rec key c f = rw (find_value-entries cols rec key, value_at) (rw f refl)

-- The conditions of a join: the left column is one of the table `t` on the right; the right-hand side
-- is a value, a column of `t`, or a column on the left as long as the one that it is compared with.
pub data IsFeedable (t : String) (left right : List ColMeta) (c : Condition) : Type 0 where
  value : c.lhs_col.tab_name ≡ t → c.is_rhs_val ≡ true → IsFeedable t left right c
  same_table :
      c.lhs_col.tab_name ≡ t
      → c.is_rhs_val ≡ false
      → c.rhs_col.tab_name ≡ t
      → IsFeedable t left right c
  other_table :
      {l r : ColMeta}
      → c.lhs_col.tab_name ≡ t
      → c.is_rhs_val ≡ false
      → str_eq c.rhs_col.tab_name t ≡ false
      → lookup right c.lhs_col ≡ some l
      → lookup left c.rhs_col ≡ some r
      → l.len ≡ r.len
      → IsFeedable t left right c

abbrev pub AllFeedable : String → List ColMeta → List ColMeta → List Condition → Type 0
AllFeedable t left right [] = Unit
AllFeedable t left right (c ∷ conds) = IsFeedable t left right c × AllFeedable t left right conds

-- The left child and the scan on its right: their columns are laid out, those of the scan are its
-- table's and those on the left are not, and have names of their own.
pub record IsJoinable (left : Output) (s : SeqScan) : Type 0 where
  pub left_laid : IsLaid left
  pub right_laid : IsLaid (scan_node s)
  pub short : left.len + s.len < 2 ^ 31
  pub left_apart : Apart s.tab_name left.cols
  pub right_within : Within s.tab_name s.cols
  pub distinct : Distinct left.cols

module _ (lt_float : Bytes → Bytes → Bool)
    (reads_four : (x y : Bytes) → lt_float (take 4 x) (take 4 y) ≡ lt_float x y) where
  ix_compare-take :
      (x y : Bytes) (t : ColType) (n : ℕ)
      → IsWide t n
      → ix_compare lt_float x (take n y) t n ≡ ix_compare lt_float x y t n
  unfolding ix_compare
  ix_compare-take x y type_int n w = rw w (rw (int_at-take y) refl)
  ix_compare-take x y type_float n w =
      let right : lt_float x (take 4 y) ≡ lt_float x y =
        sym (reads_four x (take 4 y)) ∙ ap (lt_float (take 4 x)) (take-take 4 y) ∙ reads_four x y in
      let left : lt_float (take 4 y) x ≡ lt_float y x =
        sym (reads_four (take 4 y) x)
        ∙ ap (λ b. lt_float b (take 4 x)) (take-take 4 y)
        ∙ reads_four y x in
      rw w (rw (right, left) refl)
  ix_compare-take x y type_string n w = memcmp-take n x y

  -- Only the bytes of the column count.
  test-take :
      (op : CompOp) (t u : ColType) (n : ℕ) (x y z : Bytes)
      → IsWide u n
      → take n y ≡ take n z
      → test lt_float op t u n x y ≡ test lt_float op t u n x z
  test-take op t u n x y z w e =
      let same : ix_compare lt_float x y u n ≡ ix_compare lt_float x z u n =
        sym (ix_compare-take x y u n w)
        ∙ ap (λ b. ix_compare lt_float x b u n) e
        ∙ ix_compare-take x z u n w in
      rw same refl

  module _ (left : Output) (s : SeqScan) (j : IsJoinable left s) (left_rec right_rec : Bytes)
      (full : length left_rec ≡ left.len) (padded : AllPadded left.cols left_rec) where
    joined_cols : List ColMeta
    joined_cols = left.cols ++ map (shift left.len) s.cols

    -- The bytes of a column on the right, in the joined record.
    drop-shift :
        (key : TabCol) (c : ColMeta)
        → lookup s.cols key ≡ some c
        → drop (shift left.len c).offset (left_rec ++ right_rec) ≡ drop c.offset right_rec
    unfolding shift
    drop-shift key c f =
        let (_, fits) = lookup-IsPacked 0 s.len s.cols key c j.right_laid.packed f in
        let at : (c.offset + left.len) % 2 ^ 32 ≡ c.offset + length left_rec =
          rw full (mod-eq_of_lt (omega (arith, j.short))) in
        rw at (drop-append left_rec right_rec c.offset)

    -- What the condition of the join reads.
    eval_cond-joined :
        (c : Condition)
        → c.lhs_col.tab_name ≡ s.tab_name
        → eval_cond lt_float joined_cols c (left_rec ++ right_rec) ≡ (
            column_of s.cols c.lhs_col >>= λ l.
            side joined_cols c (left_rec ++ right_rec) >>= λ (p : ColType × Bytes).
            test lt_float c.op l.type p.0 l.len (drop l.offset right_rec) p.1)
    unfolding joined_cols shift
    eval_cond-joined c e =
        let right = column_of-right s.tab_name left.len left.cols s.cols c.lhs_col j.left_apart e in
        rw (eval_cond-column_of lt_float joined_cols c (left_rec ++ right_rec)) (
          rw right (elim (Option-cases (lookup s.cols c.lhs_col)) [
            | inl f ↦ rw f refl
            | inr (l, f) ↦ rw f (
                ap
                  (λ b. side joined_cols c (left_rec ++ right_rec) >>= λ (p : ColType × Bytes).
                    test lt_float c.op l.type p.0 l.len b p.1)
                  (drop-shift c.lhs_col l f))
          ]))

    side-value :
        (c : Condition)
        → c.is_rhs_val ≡ true
        → (cols : List ColMeta) (rec : Bytes) → side cols c rec ≡ side s.cols c right_rec
    side-value c e cols rec = rw e refl

    side-same_table :
        (c : Condition)
        → c.is_rhs_val ≡ false
        → c.rhs_col.tab_name ≡ s.tab_name
        → side joined_cols c (left_rec ++ right_rec) ≡ side s.cols c right_rec
    unfolding joined_cols shift
    side-same_table c e h =
        let right = column_of-right s.tab_name left.len left.cols s.cols c.rhs_col j.left_apart h in
        rw e (
          rw right (elim (Option-cases (lookup s.cols c.rhs_col)) [
            | inl f ↦ rw f refl
            | inr (r, f) ↦ rw f (ap (λ (b : Bytes). ok (r.type, b)) (drop-shift c.rhs_col r f))
          ]))

    -- A condition on columns of the right alone.
    eval_cond-right :
        (c : Condition)
        → c.lhs_col.tab_name ≡ s.tab_name
        → side joined_cols c (left_rec ++ right_rec) ≡ side s.cols c right_rec
        → eval_cond lt_float s.cols c right_rec
          ≡ eval_cond lt_float joined_cols c (left_rec ++ right_rec)
    eval_cond-right c e same =
        rw (eval_cond-joined c e) (rw same (eval_cond-column_of lt_float s.cols c right_rec))

    -- The condition with the value that is fed for a column on the left.
    fed_with : Condition → ColMeta → Condition
    fed_with c r = record c { is_rhs_val = true; rhs_val = raw_value r left_rec }

    eval_cond-fed_with :
        (c : Condition) (l r : ColMeta)
        → c.lhs_col.tab_name ≡ s.tab_name
        → c.is_rhs_val ≡ false
        → str_eq c.rhs_col.tab_name s.tab_name ≡ false
        → lookup s.cols c.lhs_col ≡ some l
        → lookup left.cols c.rhs_col ≡ some r
        → l.len ≡ r.len
        → eval_cond lt_float s.cols (fed_with c r) right_rec
          ≡ eval_cond lt_float joined_cols c (left_rec ++ right_rec)
    unfolding fed_with joined_cols
    eval_cond-fed_with c l r here column other f g same_len =
        let there =
          lookup-left s.tab_name left.len left.cols s.cols c.rhs_col j.right_within other in
        let fits = lookup-IsPacked 0 left.len left.cols c.rhs_col r j.left_laid.packed g in
        let wide =
          IsPadded-IsWide r.type r.len (drop r.offset left_rec)
            (AllPadded-lookup left.cols left_rec c.rhs_col r padded g) in
        let bytes = take-drop-append left_rec right_rec r.offset r.len (rw full (fits.1)) in
        rw (eval_cond-joined c here) (
          rw (eval_cond-column_of lt_float s.cols (fed_with c r) right_rec) (
            rw (f, column)
              (rw there (
                rw g (
                  rw (col_value-type r.type r.len (drop r.offset left_rec), same_len)
                    (test-take c.op l.type r.type r.len (drop l.offset right_rec)
                      (take r.len (drop r.offset left_rec)) (drop r.offset (left_rec ++ right_rec))
                      wide (take-take r.len (drop r.offset left_rec) ∙ sym bytes)))))))

    -- A condition is fed, passes the assertions, and tests as on the joined record.
    IsFed : Condition → Condition → Type 0
    IsFed c d =
        (feed_cond s.tab_name (entries left.cols left_rec) c ≡ ok d)
        × (is_local s.tab_name d ≡ true)
        × (eval_cond lt_float s.cols d right_rec
            ≡ eval_cond lt_float joined_cols c (left_rec ++ right_rec))

    feed_cond-IsFed :
        (c : Condition) → IsFeedable s.tab_name left.cols s.cols c → (d : Condition) × IsFed c d
    unfolding IsFed feed_cond is_local value_at fed_with
    feed_cond-IsFed c (value here e) = (
      c,
      (
        rw (e, feed_cond) refl,
        ground (arith, eq_iff c.lhs_col.tab_name s.tab_name),
        eval_cond-right c here (side-value c e joined_cols (left_rec ++ right_rec)),
      ),
    )
    feed_cond-IsFed c (same_table here e there) = (
      c,
      (
        ground (arith, eq_iff c.rhs_col.tab_name s.tab_name),
        ground (arith, eq_iff c.lhs_col.tab_name s.tab_name, eq_iff c.rhs_col.tab_name s.tab_name),
        eval_cond-right c here (side-same_table c e there),
      ),
    )
    feed_cond-IsFed c (other_table {l} {r} here e other f g same_len) = (
      fed_with c r,
      (
        rw (e, feed_cond) (rw (other, value_at-entries left.cols left_rec c.rhs_col r g) refl),
        ground (arith, eq_iff c.lhs_col.tab_name s.tab_name),
        eval_cond-fed_with c l r here e other f g same_len,
      ),
    )

    -- The conditions are fed, and together test as on the joined record.
    AreFed : List Condition → List Condition → Type 0
    AreFed conds fed =
        (each (feed_cond s.tab_name (entries left.cols left_rec)) conds ≡ ok fed)
        × (check_runtime_conds s.tab_name fed ≡ ok tt)
        × (eval_conds lt_float s.cols fed right_rec
            ≡ eval_conds lt_float joined_cols conds (left_rec ++ right_rec))

    each-AreFed :
        (conds : List Condition)
        → AllFeedable s.tab_name left.cols s.cols conds
        → (fed : List Condition) × AreFed conds fed
    unfolding AreFed IsFed each check_runtime_conds eval_conds
    each-AreFed [] h = ([], (refl, refl, refl))
    each-AreFed (c ∷ conds) (h, all) =
        let (d, (one, here, same)) = feed_cond-IsFed c h in
        let (fed, (rest, check, same_rest)) = each-AreFed conds all in
        (
          d ∷ fed,
          (
            rw (one, each) (rw rest refl),
            rw (here, check_runtime_conds) check,
            rw (same, eval_conds) (rw same_rest refl),
          ),
        )

    -- For a left child and a scan on its right whose columns are laid out, with the table of the scan
    -- not among those on the left and no column twice there, for a left record of full length whose
    -- strings are padded with zeros and whose numbers have four bytes, and for conditions each of
    -- which compares a column of the scan with a value, with a column of the scan, or with a column
    -- on the left of the same length: `feed_right` with nothing fed before returns a scan, whose
    -- assertions hold, and its conditions on a right record come to what the conditions of the join
    -- come to on the two records put together, errors included. The comparison of floats is taken to
    -- read four bytes.
    pub feed_right-eval_conds :
        AllFeedable s.tab_name left.cols s.cols s.conds
        → (fed : SeqScan) × (feed_right left [] left_rec s ≡ ok fed)
          × (eval_conds lt_float fed.cols fed.fed_conds right_rec
              ≡ eval_conds lt_float (join left (scan_node s)).cols s.conds (left_rec ++ right_rec))
    unfolding feed_right feed join AreFed joined_cols
    feed_right-eval_conds h =
        let (fed, (done, check, same)) = each-AreFed s.conds h in
        (
          record s { fed_conds = fed },
          rw (rec2dict-entries left.cols left_rec j.distinct padded, feed_right)
              (rw (done, feed) (rw check refl)),
          same,
        )
