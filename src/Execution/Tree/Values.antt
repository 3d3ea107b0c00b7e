-- ===== src/Execution/Tree/Values.antt =====
-- The dictionary that `rec2dict` makes: a value for every column, with the bytes of the column.
use mathlib.Core.Option
use mathlib.Core.List.{append_assoc, append-nil}
use text.Mathlib.TextEquality.{eq_iff}
use rubcase_lab.Base.{
  ℕ, zero, suc, ◌-◌, ◌≤◌, ◌≡◌, refl, true, false, none, some, List, [], ◌∷◌, ◌++◌, length,
  replicate, arith,
}
use rubcase_lab.Storage.Page.{Bytes}
use rubcase_lab.Record.Layout.{take, drop}
use rubcase_lab.Index.Compare.{ColType, type_int, type_float, type_string}
use rubcase_lab.System.Meta.{ColMeta, ok}
use rubcase_lab.Execution.Defs.{
  TabCol, Value, Dict, col_key, same_col, find_value, is_new, until_nul, set_int, set_float,
  set_str, col_value, init_raw, raw_bytes, add_cols, rec2dict,
}
use rubcase_lab.Execution.Tree.Lookup.{lookup}

-- A string column holds zeros behind its first byte 0, as `init_raw` writes it, and a number has four
-- bytes.
abbrev pub IsPadded : ColType → ℕ → Bytes → Type 0
IsPadded type_int len b = len ≡ 4
IsPadded type_float len b = len ≡ 4
IsPadded type_string len b =
    until_nul (take len b) ++ replicate (len - length (until_nul (take len b))) 0 ≡ take len b

abbrev pub AllPadded : List ColMeta → Bytes → Type 0
AllPadded [] rec = Unit
AllPadded (c ∷ cols) rec = IsPadded c.type c.len (drop c.offset rec) × AllPadded cols rec

length-until_nul : (b : Bytes) → length (until_nul b) ≤ length b
unfolding until_nul
length-until_nul [] = omega arith
length-until_nul (zero ∷ b) = omega arith
length-until_nul (suc x ∷ b) = omega (arith, length-until_nul b)

length-take : (n : ℕ) (b : Bytes) → length (take n b) ≤ n
length-take zero b = omega arith
length-take (suc n) [] = omega arith
length-take (suc n) (x ∷ b) = omega (arith, length-take n b)

-- The value of a column, initialised: its type and its bytes.
abbrev pub raw_value : ColMeta → Bytes → Value
raw_value c rec = record (col_value c.type c.len (drop c.offset rec)) {
  raw = some (take c.len (drop c.offset rec));
}

col_value_null : (t : ColType) (n : ℕ) (b : Bytes) → (col_value t n b).raw ≡ none
unfolding col_value set_int set_float set_str
col_value_null type_int n b = refl
col_value_null type_float n b = refl
col_value_null type_string n b = refl

pub col_value-type : (t : ColType) (n : ℕ) (b : Bytes) → (col_value t n b).type ≡ t
unfolding col_value set_int set_float set_str
col_value-type type_int n b = refl
col_value-type type_float n b = refl
col_value-type type_string n b = refl

raw_bytes-col_value :
    (t : ColType) (n : ℕ) (b : Bytes)
    → IsPadded t n b
    → raw_bytes (col_value t n b) t n ≡ ok (take n b)
unfolding raw_bytes col_value set_int set_float set_str
raw_bytes-col_value type_int n b p = rw p refl
raw_bytes-col_value type_float n b p = rw p refl
raw_bytes-col_value type_string n b p =
    let le = length-until_nul (take n b) in let le' = length-take n b in rw p (ground arith)

-- What is read from a column is written back as it was.
pub init_raw-col_value :
    (c : ColMeta) (rec : Bytes)
    → IsPadded c.type c.len (drop c.offset rec)
    → init_raw (col_value c.type c.len (drop c.offset rec)) c.len ≡ ok (raw_value c rec)
unfolding init_raw
init_raw-col_value c rec p =
    let b = drop c.offset rec in
    rw (col_value_null c.type c.len b, init_raw)
      (rw (col_value-type c.type c.len b) (rw (raw_bytes-col_value c.type c.len b p) refl))

-- No two columns have the same table and name.
abbrev pub Distinct : List ColMeta → Type 0
Distinct [] = Unit
Distinct (c ∷ cols) = (lookup cols (col_key c) ≡ none) × Distinct cols

abbrev pub entries : List ColMeta → Bytes → Dict
entries [] rec = []
entries (c ∷ cols) rec = (col_key c, raw_value c rec) ∷ entries cols rec

abbrev AllNew : Dict → List ColMeta → Type 0
AllNew d [] = Unit
AllNew d (c ∷ cols) = (find_value d (col_key c) ≡ none) × AllNew d cols

same_col_sym : (x y : TabCol) → same_col x y ≡ same_col y x
same_col_sym x y = ground (
  arith,
  eq_iff x.tab_name y.tab_name,
  eq_iff y.tab_name x.tab_name,
  eq_iff x.col_name y.col_name,
  eq_iff y.col_name x.col_name,
)

find_value-snoc :
    (d : Dict) (k : TabCol) (v : Value) (key : TabCol)
    → same_col k key ≡ false
    → find_value d key ≡ none
    → find_value (d ++ (k, v) ∷ []) key ≡ none
unfolding find_value
find_value-snoc [] k v key e h = rw e refl
find_value-snoc ((j, u) ∷ d) k v key e h = ground (arith, find_value-snoc d k v key e)

AllNew-snoc :
    (d : Dict) (k : TabCol) (v : Value) (cols : List ColMeta)
    → lookup cols k ≡ none
    → AllNew d cols
    → AllNew (d ++ (k, v) ∷ []) cols
AllNew-snoc d k v [] h new = tt
AllNew-snoc d k v (c ∷ cols) h (n, new) =
    let other : same_col k (col_key c) ≡ false = ground (arith, same_col_sym k (col_key c)) in
    (find_value-snoc d k v (col_key c) other n, AllNew-snoc d k v cols (ground (arith, h)) new)

AllNew-nil : (cols : List ColMeta) → AllNew [] cols
unfolding find_value
AllNew-nil [] = tt
AllNew-nil (c ∷ cols) = (refl, AllNew-nil cols)

is_new-none : (d : Dict) (k : TabCol) → find_value d k ≡ none → is_new d k ≡ true
unfolding is_new
is_new-none d k h = rw (h, is_new) refl

add_cols-entries :
    (d : Dict) (cols : List ColMeta) (rec : Bytes)
    → Distinct cols
    → AllNew d cols
    → AllPadded cols rec
    → add_cols d cols rec ≡ ok (d ++ entries cols rec)
unfolding add_cols
add_cols-entries d [] rec distinct new p = rw (append-nil d) refl
add_cols-entries d (c ∷ cols) rec (alone, distinct) (n, new) (p, all) =
    let e : Dict = (col_key c, raw_value c rec) ∷ [] in
    let rest =
      add_cols-entries (d ++ e) cols rec distinct
        (AllNew-snoc d (col_key c) (raw_value c rec) cols alone new) all in
    rw (is_new-none d (col_key c) n, add_cols)
      (rw (init_raw-col_value c rec p) (rw rest (rw (append_assoc d e (entries cols rec)) refl)))

-- The dictionary of a record: an entry for every column.
pub rec2dict-entries :
    (cols : List ColMeta) (rec : Bytes)
    → Distinct cols
    → AllPadded cols rec
    → rec2dict cols rec ≡ ok (entries cols rec)
unfolding rec2dict
rec2dict-entries cols rec distinct p = add_cols-entries [] cols rec distinct (AllNew-nil cols) p

pub find_value-entries :
    (cols : List ColMeta) (rec : Bytes) (key : TabCol)
    → find_value (entries cols rec) key ≡ Option.map (λ c. raw_value c rec) (lookup cols key)
unfolding find_value
find_value-entries [] rec key = refl
find_value-entries (c ∷ cols) rec key = ground (arith, find_value-entries cols rec key)

-- What a value of a type holds, and what of it a record keeps.
abbrev pub held : ColType → Value → Bytes
held type_int v = v.scalar
held type_float v = v.scalar
held type_string v = v.str_val

abbrev pub kept : ColType → Value → Bytes
kept type_int v = v.scalar
kept type_float v = v.scalar
kept type_string v = until_nul v.str_val

-- A number fits a column of four bytes, a string one that is no shorter.
abbrev pub Fits : ColType → Value → ℕ → Type 0
Fits type_int v len = (len ≡ 4) × (length v.scalar ≡ 4)
Fits type_float v len = (len ≡ 4) × (length v.scalar ≡ 4)
Fits type_string v len = length v.str_val ≤ len

-- The bytes of the column, and what is read back from them.
abbrev IsStored : ColType → Value → ℕ → Bytes → Bytes → Type 0
IsStored t v len rest b =
    (raw_bytes v t len ≡ ok b)
    × (length b ≡ len)
    × (held t (col_value t len (b ++ rest)) ≡ kept t v)
