-- ===== src/System/Text.antt =====
-- How the catalogue is written to a file and read back: the operators << and >> of
-- src/system/sm_meta.h, and those for enumerations of src/defs.h.
use Prim.Native.String.{String}
use rubcase_lab.Base.{
  ℕ, zero, suc, ◌^◌, ◌<◌, ◌≡◌, Bool, true, false, Option, none, some, List, [], ◌∷◌, ◌++◌, length,
}
use rubcase_lab.Index.Compare.{ColType, type_int, type_float, type_string}
use rubcase_lab.System.Meta.{ColMeta, TabMeta, DbMeta, set_table}

-- The streams of the standard library: a text as its words, as white space separates them. The
-- catalogue writes white space behind everything.
pub record Iostream : Type 0 where
  -- The words that a string adds; a number as a word, and the number that a word is read as.
  pub words : String → List String
  pub show : ℕ → String
  pub read : String → Option ℕ
  pub read-show : (n : ℕ) → n < 2 ^ 31 → read (show n) ≡ some n

infixl 5 ◌>>=◌
abbrev pub ◌>>=◌ : {A B : Type 0} → Option A → (A → Option B) → Option B
none >>= f = none
some a >>= f = f a

-- The number of an enumerator, and the enumerator of a number; there are no others.
unfoldable pub type_number : ColType → ℕ
type_number type_int = 0
type_number type_float = 1
type_number type_string = 2

unfoldable pub type_numbered : ℕ → ColType
type_numbered zero = type_int
type_numbered (suc zero) = type_float
type_numbered _ = type_string

abbrev pub bool_number : Bool → ℕ
bool_number false = 0
bool_number true = 1

abbrev pub bool_numbered : ℕ → Option Bool
bool_numbered zero = some false
bool_numbered (suc zero) = some true
bool_numbered _ = none

module _ (S : Iostream) where
  unfoldable pub write_col : ColMeta → List String
  unfolding type_number
  write_col c =
      S.words c.tab_name
      ++ (S.words c.name
          ++ S.show (type_number c.type)
            ∷ S.show c.len
            ∷ S.show c.offset
            ∷ S.show (bool_number c.index)
            ∷ [])

  unfoldable pub write_cols : List ColMeta → List String
  unfolding write_col
  write_cols [] = []
  write_cols (c ∷ cols) = write_col c ++ write_cols cols

  unfoldable pub write_tab : TabMeta → List String
  unfolding write_cols
  write_tab t = S.words t.name ++ S.show (length t.cols) ∷ write_cols t.cols

  unfoldable pub write_tabs : List (String × TabMeta) → List String
  unfolding write_tab
  write_tabs [] = []
  write_tabs ((k, t) ∷ tabs) = write_tab t ++ write_tabs tabs

  unfoldable pub write_db : DbMeta → List String
  unfolding write_tabs
  write_db db = S.words db.name ++ S.show (length db.tabs) ∷ write_tabs db.tabs

  -- The next word, and the next number. `none` is a stream that has failed, which nothing looks at.
  abbrev pub next_word : List String → Option (String × List String)
  next_word [] = none
  next_word (w ∷ ws) = some (w, ws)

  abbrev pub next_number : List String → Option (ℕ × List String)
  next_number [] = none
  next_number (w ∷ ws) = S.read w >>= λ n. some (n, ws)

  unfoldable pub read_col : List String → Option (ColMeta × List String)
  unfolding type_numbered
  read_col ws₀ = do
    (tab_name, ws₁) ← next_word ws₀
    (name, ws₂) ← next_word ws₁
    (type, ws₃) ← next_number ws₂
    (len, ws₄) ← next_number ws₃
    (offset, ws₅) ← next_number ws₄
    (flag, ws₆) ← next_number ws₅
    index ← bool_numbered flag
    some (
      record {
        tab_name = tab_name;
        name = name;
        type = type_numbered type;
        len = len;
        offset = offset;
        index = index;
      },
      ws₆,
    )

  unfoldable pub read_cols : ℕ → List String → Option (List ColMeta × List String)
  unfolding read_col
  read_cols zero ws = some ([], ws)
  read_cols (suc n) ws = do
    (c, ws₁) ← read_col ws
    (cols, ws₂) ← read_cols n ws₁
    some (c ∷ cols, ws₂)

  unfoldable pub read_tab : List String → Option (TabMeta × List String)
  unfolding read_cols
  read_tab ws = do
    (name, ws₁) ← next_word ws
    (n, ws₂) ← next_number ws₁
    (cols, ws₃) ← read_cols n ws₂
    some (record { name = name; cols = cols }, ws₃)

  -- Each table is entered under its own name, into what the map holds.
  unfoldable pub read_tabs :
      ℕ → List (String × TabMeta) → List String → Option (List (String × TabMeta) × List String)
  unfolding read_tab set_table
  read_tabs zero tabs ws = some (tabs, ws)
  read_tabs (suc n) tabs ws = do (t, ws₁) ← read_tab ws; read_tabs n (set_table tabs t.name t) ws₁

  unfoldable pub read_db : DbMeta → List String → Option (DbMeta × List String)
  unfolding read_tabs
  read_db db ws = do
    (name, ws₁) ← next_word ws
    (n, ws₂) ← next_number ws₁
    (tabs, ws₃) ← read_tabs n db.tabs ws₂
    some (record { name = name; tabs = tabs }, ws₃)
