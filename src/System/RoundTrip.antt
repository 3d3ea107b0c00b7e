-- ===== src/System/RoundTrip.antt =====
-- The catalogue that is read back is the one that was written.
use Prim.Native.String.{String}
use text.Mathlib.Text.{◌==◌ as str_eq}
use text.Mathlib.TextEquality.{eq_iff}
use mathlib.Core.List.{append_assoc, append-nil}
use rubcase_lab.Base.{
  ℕ, ◌^◌, ◌<◌, ◌≡◌, refl, sym, ap, ◌∙◌, Bool, true, false, none, some, List, [], ◌∷◌, ◌++◌, length,
  arith,
}
use rubcase_lab.Index.Compare.{ColType, type_int, type_float, type_string}
use rubcase_lab.System.Meta.{ColMeta, TabMeta, DbMeta, find_table, set_table}
use rubcase_lab.System.Text.{
  Iostream, type_number, type_numbered, bool_number, bool_numbered, write_col, write_cols,
  write_tab, write_tabs, write_db, next_number, read_col, read_cols, read_tab, read_tabs, read_db,
}

type_numbered-type_number : (t : ColType) → type_numbered (type_number t) ≡ t
unfolding type_numbered type_number
type_numbered-type_number type_int = refl
type_numbered-type_number type_float = refl
type_numbered-type_number type_string = refl

type_number-lt : (t : ColType) → type_number t < 2 ^ 31
unfolding type_number
type_number-lt type_int = omega arith
type_number-lt type_float = omega arith
type_number-lt type_string = omega arith

module _ (S : Iostream) where
  -- A string that is a word: not empty, and without white space.
  abbrev pub IsWord : String → Type 0
  IsWord s = S.words s ≡ s ∷ []

  -- What can be written: names are words, and numbers are those of an `int`.
  pub record IsPrintable (c : ColMeta) : Type 0 where
    pub tab_name_word : IsWord c.tab_name
    pub name_word : IsWord c.name
    pub short : c.len < 2 ^ 31
    pub near : c.offset < 2 ^ 31

  abbrev pub AllPrintable : List ColMeta → Type 0
  AllPrintable [] = Unit
  AllPrintable (c ∷ cols) = IsPrintable c × AllPrintable cols

  next_number-show :
      (n : ℕ) (rest : List String) → n < 2 ^ 31 → next_number S (S.show n ∷ rest) ≡ some (n, rest)
  next_number-show n rest h = rw (S.read-show n h) refl

  bool_number-lt : (b : Bool) → bool_number b < 2 ^ 31
  bool_number-lt true = omega arith
  bool_number-lt false = omega arith

  bool_numbered-bool_number : (b : Bool) → bool_numbered (bool_number b) ≡ some b
  bool_numbered-bool_number true = refl
  bool_numbered-bool_number false = refl

  read_col-write_col :
      (c : ColMeta) (rest : List String)
      → IsPrintable c
      → read_col S (write_col S c ++ rest) ≡ some (c, rest)
  unfolding read_col write_col
  read_col-write_col c rest p =
      rw (p.tab_name_word, p.name_word)
        (rw (S.read-show (type_number c.type) (type_number-lt c.type)) (
          rw (S.read-show c.len p.short) (
            rw (S.read-show c.offset p.near) (
              rw (S.read-show (bool_number c.index) (bool_number-lt c.index))
                (rw (bool_numbered-bool_number c.index, type_numbered-type_number c.type) refl)))))

  read_cols-write_cols :
      (cols : List ColMeta) (rest : List String)
      → AllPrintable cols
      → read_cols S (length cols) (write_cols S cols ++ rest) ≡ some (cols, rest)
  unfolding read_cols write_cols
  read_cols-write_cols [] rest p = refl
  read_cols-write_cols (c ∷ cols) rest (p, all) =
      rw (append_assoc (write_col S c) (write_cols S cols) rest, write_cols)
        (rw (read_col-write_col c (write_cols S cols ++ rest) p, read_cols)
          (rw (read_cols-write_cols cols rest all) refl))

  pub record IsPrintableTab (t : TabMeta) : Type 0 where
    pub name_word : IsWord t.name
    pub few : length t.cols < 2 ^ 31
    pub columns : AllPrintable t.cols

  read_tab-write_tab :
      (t : TabMeta) (rest : List String)
      → IsPrintableTab t
      → read_tab S (write_tab S t ++ rest) ≡ some (t, rest)
  unfolding read_tab write_tab
  read_tab-write_tab t rest p = rw p.name_word (
      rw (S.read-show (length t.cols) p.few) (rw (read_cols-write_cols t.cols rest p.columns) refl))

  -- Every entry stands under the name of its table, and no name stands twice.
  abbrev pub AllEntered : List (String × TabMeta) → Type 0
  AllEntered [] = Unit
  AllEntered ((k, t) ∷ tabs) =
      (k ≡ t.name) × IsPrintableTab t × (find_table tabs k ≡ none) × AllEntered tabs

  -- None of the entries is in the map.
  abbrev Apart : List (String × TabMeta) → List (String × TabMeta) → Type 0
  Apart before [] = Unit
  Apart before ((k, t) ∷ tabs) = (find_table before k ≡ none) × Apart before tabs

  set_table-new :
      (tabs : List (String × TabMeta)) (k : String) (t : TabMeta)
      → find_table tabs k ≡ none
      → set_table tabs k t ≡ tabs ++ (k, t) ∷ []
  unfolding find_table set_table
  set_table-new [] k t h = refl
  set_table-new ((j, u) ∷ tabs) k t h = ground (arith, h, set_table-new tabs k t)

  find_table-snoc :
      (tabs : List (String × TabMeta)) (k j : String) (t : TabMeta)
      → find_table tabs j ≡ none
      → str_eq k j ≡ false
      → find_table (tabs ++ (k, t) ∷ []) j ≡ none
  unfolding find_table
  find_table-snoc [] k j t h e = rw e refl
  find_table-snoc ((i, u) ∷ tabs) k j t h e = ground (arith, h, find_table-snoc tabs k j t)

  Apart-snoc :
      (before : List (String × TabMeta)) (k : String) (t : TabMeta) (tabs : List (String × TabMeta))
      → find_table tabs k ≡ none
      → Apart before tabs
      → Apart (before ++ (k, t) ∷ []) tabs
  unfolding find_table
  Apart-snoc before k t [] alone new = tt
  Apart-snoc before k t ((j, u) ∷ tabs) alone (n, new) =
      let other : str_eq k j ≡ false = ground (arith, alone, eq_iff j k, eq_iff k j) in
      (find_table-snoc before k j t n other, Apart-snoc before k t tabs (ground (arith, alone)) new)

  read_tabs-write_tabs :
      (before tabs : List (String × TabMeta)) (rest : List String)
      → AllEntered tabs
      → Apart before tabs
      → read_tabs S (length tabs) before (write_tabs S tabs ++ rest) ≡ some (before ++ tabs, rest)
  unfolding read_tabs write_tabs
  read_tabs-write_tabs before [] rest p new = rw (append-nil before) refl
  read_tabs-write_tabs before ((k, t) ∷ tabs) rest (named, p, alone, all) (n, new) =
      let later =
        read_tabs-write_tabs (before ++ (k, t) ∷ []) tabs rest all
          (Apart-snoc before k t tabs alone new) in
      let entered : set_table before t.name t ≡ before ++ (k, t) ∷ [] =
        ap (λ j. set_table before j t) (sym named) ∙ set_table-new before k t n in
      rw (append_assoc (write_tab S t) (write_tabs S tabs) rest, write_tabs)
        (rw (read_tab-write_tab t (write_tabs S tabs ++ rest) p, read_tabs)
          (rw entered (rw later (rw (append_assoc before ((k, t) ∷ []) tabs) refl))))

  Apart-nil : (tabs : List (String × TabMeta)) → Apart [] tabs
  unfolding find_table
  Apart-nil [] = tt
  Apart-nil ((k, t) ∷ tabs) = (refl, Apart-nil tabs)

  -- A catalogue whose names are words, whose numbers are those of an `int` that is not negative, and
  -- whose tables stand each once and under their own names, is read back into an empty one as it was
  -- written, whatever follows it in the file.
  pub read_db-write_db :
      (db empty : DbMeta) (rest : List String)
      → IsWord db.name
      → length db.tabs < 2 ^ 31
      → AllEntered db.tabs
      → empty.tabs ≡ []
      → read_db S empty (write_db S db ++ rest) ≡ some (db, rest)
  unfolding read_db write_db
  read_db-write_db db empty rest name few p none_yet =
      rw (name, none_yet)
        (rw (S.read-show (length db.tabs) few)
          (rw (read_tabs-write_tabs [] db.tabs rest p (Apart-nil db.tabs)) refl))
