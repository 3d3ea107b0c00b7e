-- ===== src/Execution/Defs.antt =====
-- The columns, values and conditions of a query: src/execution/execution_manager.h, and `get_col` and
-- `rec2dict` of src/execution/executor_abstract.h.
use Prim.Native.String.{String}
use text.Mathlib.Text.{◌==◌ as str_eq}
use rubcase_lab.Base.{
  ℕ, zero, suc, ◌+◌, ◌-◌, Bool, true, false, ◌&&◌, ltb, ◌==◌, if◌then◌else◌, Option, none, some,
  List, [], ◌∷◌, ◌++◌, length, replicate,
}
use rubcase_lab.Storage.Page.{Bytes}
use rubcase_lab.Record.Layout.{take, drop}
use rubcase_lab.Index.Compare.{ColType, type_int, type_float, type_string}
use rubcase_lab.System.Meta.{
  ColMeta, Result, ok, err, ◌>>=◌, ◌>>◌, guard, column_not_found_error, string_overflow_error,
  out_of_range,
}

pub record TabCol : Type 0 where
  pub tab_name : String
  pub col_name : String

abbrev pub same_col : TabCol → TabCol → Bool
same_col x y = str_eq x.tab_name y.tab_name && str_eq x.col_name y.col_name

-- `scalar` is the union of an `int` and a `float`, as its four bytes; `raw` the record buffer, `none`
-- for the null pointer.
pub record Value : Type 0 where
  pub type : ColType
  pub scalar : Bytes
  pub str_val : Bytes
  pub raw : Option Bytes

-- A value whose type is about to be set.
abbrev pub new_value : Value
new_value = record { type = type_int; scalar = []; str_val = []; raw = none }

-- A number is handed over as its four bytes.
unfoldable pub set_int : Value → Bytes → Value
set_int v int_val = record v { type = type_int; scalar = int_val }

unfoldable pub set_float : Value → Bytes → Value
set_float v float_val = record v { type = type_float; scalar = float_val }

unfoldable pub set_str : Value → Bytes → Value
set_str v str_val = record v { type = type_string; str_val = str_val }

abbrev pub is_null : Option Bytes → Bool
is_null none = true
is_null (some b) = false

-- The contents of the buffer that `init_raw` makes.
unfoldable pub raw_bytes : Value → ColType → ℕ → Result Bytes
raw_bytes v type_int len = do guard (len == 4); ok v.scalar
raw_bytes v type_float len = do guard (len == 4); ok v.scalar
raw_bytes v type_string len =
    if ltb len (length v.str_val)
    then err string_overflow_error
    else ok (v.str_val ++ replicate (len - length v.str_val) 0)

unfoldable pub init_raw : Value → ℕ → Result Value
unfolding raw_bytes
init_raw v len = do
  guard (is_null v.raw)
  b ← raw_bytes v v.type len
  ok (record v { raw = some b })

pub data CompOp : Type 0 where
  op_eq op_ne op_lt op_gt op_le op_ge : CompOp

pub record Condition : Type 0 where
  pub lhs_col : TabCol
  pub op : CompOp
  pub is_rhs_val : Bool
  pub rhs_col : TabCol
  pub rhs_val : Value

-- `std::find_if`: the first column of that table and name, and its position counted from `i`.
unfoldable pub find_col : ℕ → List ColMeta → TabCol → Option (ℕ × ColMeta)
find_col i [] target = none
find_col i (c ∷ cols) target =
    let rest = find_col (i + 1) cols target in
    if str_eq c.tab_name target.tab_name && str_eq c.name target.col_name then some (i, c) else rest

unfoldable pub get_col : List ColMeta → TabCol → Result (ℕ × ColMeta)
unfolding find_col
get_col rec_cols target = elim (find_col 0 rec_cols target) [
  | none ↦ err (column_not_found_error target.tab_name target.col_name)
  | some p ↦ ok p
]

-- `std::map<TabCol, Value>`: the first entry of a key is the one in the map.
abbrev pub Dict : Type 0
Dict = List (TabCol × Value)

unfoldable pub find_value : Dict → TabCol → Option Value
find_value [] key = none
find_value ((k, v) ∷ dict) key = if same_col k key then some v else find_value dict key

-- `at`
unfoldable pub value_at : Dict → TabCol → Result Value
unfolding find_value
value_at dict key = elim (find_value dict key) [ none ↦ err out_of_range | some v ↦ ok v ]

-- Up to the first byte 0, as `resize(strlen(c_str()))` leaves a string.
unfoldable pub until_nul : Bytes → Bytes
until_nul [] = []
until_nul (zero ∷ b) = []
until_nul (suc x ∷ b) = suc x ∷ until_nul b

-- The value of a column of a record.
unfoldable pub col_value : ColType → ℕ → Bytes → Value
unfolding set_int set_float set_str until_nul
col_value type_int len val_buf = set_int new_value (take 4 val_buf)
col_value type_float len val_buf = set_float new_value (take 4 val_buf)
col_value type_string len val_buf = set_str new_value (until_nul (take len val_buf))

abbrev pub col_key : ColMeta → TabCol
col_key c = record { tab_name = c.tab_name; col_name = c.name }

-- `count(key) == 0`
unfoldable pub is_new : Dict → TabCol → Bool
unfolding find_value
is_new dict key = elim (find_value dict key) [ none ↦ true | some _ ↦ false ]

-- The loop of `rec2dict`, from the entries that it has made.
unfoldable pub add_cols : Dict → List ColMeta → Bytes → Result Dict
unfolding col_value init_raw is_new
add_cols rec_dict [] rec = ok rec_dict
add_cols rec_dict (c ∷ cols) rec = do
  guard (is_new rec_dict (col_key c))
  v ← init_raw (col_value c.type c.len (drop c.offset rec)) c.len
  add_cols (rec_dict ++ (col_key c, v) ∷ []) cols rec

unfoldable pub rec2dict : List ColMeta → Bytes → Result Dict
unfolding add_cols
rec2dict cols rec = add_cols [] cols rec
