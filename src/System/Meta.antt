-- ===== src/System/Meta.antt =====
-- src/system/sm_meta.h and the column definitions of src/system/sm_manager.h; from sm_manager.cpp
-- the columns that `create_table` lays out.
use Prim.Native.String.{String}
use text.Mathlib.Text.{◌==◌ as str_eq}
use rubcase_lab.Base.{
  ℕ, ◌+◌, ◌%◌, ◌^◌, ◌≡◌, refl, ◌⊎◌, inl, inr, Bool, true, false, if◌then◌else◌, Option, none, some,
  List, [], ◌∷◌, arith,
}
use rubcase_lab.Record.Manager.{RmFileError}
use rubcase_lab.Index.Compare.{ColType}

-- `len` and `offset` are the bit patterns of an `int`: a negative one is 2^31 or more.
pub record ColMeta : Type 0 where
  pub tab_name : String
  pub name : String
  pub type : ColType
  pub len : ℕ
  pub offset : ℕ
  pub index : Bool

pub record TabMeta : Type 0 where
  pub name : String
  pub cols : List ColMeta

-- `std::map<std::string, TabMeta>`, as its entries.
pub record DbMeta : Type 0 where
  pub name : String
  pub tabs : List (String × TabMeta)

-- The exceptions of src/errors.h that the catalogue and the query code throw. `out_of_range` is that
-- of `std::map::at`, `aborts` a failed `assert`, `undefined` a use that C++ gives no meaning.
pub data QueryError : Type 0 where
  table_not_found_error table_exists_error : String → QueryError
  -- The table, empty where none is given, and the column.
  column_not_found_error : String → String → QueryError
  ambiguous_column_error : String → QueryError
  file_error : RmFileError → QueryError
  string_overflow_error out_of_range aborts undefined : QueryError

-- A call that returns, or that throws.
pub data Result {ℓ} (A : Type ℓ) : Type ℓ where
  err : QueryError → Result A
  ok : A → Result A

-- `assert`, which goes on only where the test holds.
abbrev pub guard : Bool → Result (Unit {0})
guard false = err aborts
guard true = ok tt

infixl 5 ◌>>=◌
abbrev pub ◌>>=◌ {ℓ κ} : {A : Type ℓ} {B : Type κ} → Result A → (A → Result B) → Result B
err thrown >>= next = err thrown
ok value >>= next = next value

infixl 5 ◌>>◌
abbrev pub ◌>>◌ {ℓ} : {B : Type ℓ} → Result (Unit {0}) → Result B → Result B
asserted >> next = asserted >>= λ _. next

pub Result-cases {ℓ} :
    {A : Type ℓ} (r : Result A) → ((e : QueryError) × (r ≡ err e)) ⊎ ((a : A) × (r ≡ ok a))
Result-cases (err e) = inl (e, refl)
Result-cases (ok a) = inr (a, refl)

-- What holds of a result, if there is one.
abbrev pub Ensures {ℓ} : {A : Type ℓ} → (A → Type 0) → Result A → Type 0
Ensures P (ok a) = P a
Ensures P (err e) = Unit

pub Ensures->>= {ℓ κ} :
    {A : Type ℓ} {B : Type κ} (P : B → Type 0) (call : Result A) (next : A → Result B)
    → ((value : A) → call ≡ ok value → Ensures P (next value))
    → Ensures P (call >>= next)
Ensures->>= P (err thrown) next h = tt
Ensures->>= P (ok value) next h = h value refl

-- A step on each element in turn, up to the first that throws.
unfoldable pub each : {A B : Type 0} → (A → Result B) → List A → Result (List B)
each f [] = ok []
each f (x ∷ xs) = do y ← f x; ys ← each f xs; ok (y ∷ ys)

-- `std::map::find` and `operator[]` on the left of an assignment.
unfoldable pub find_table : List (String × TabMeta) → String → Option TabMeta
find_table [] tab_name = none
find_table ((k, t) ∷ tabs) tab_name = if str_eq k tab_name then some t else find_table tabs tab_name

unfoldable pub set_table : List (String × TabMeta) → String → TabMeta → List (String × TabMeta)
set_table [] tab_name t = (tab_name, t) ∷ []
set_table ((k, u) ∷ tabs) tab_name t =
    if str_eq k tab_name then (k, t) ∷ tabs else (k, u) ∷ set_table tabs tab_name t

-- The method of a table as it stands: its body is still to be written and it finds no column.
unfoldable pub is_col : TabMeta → String → Bool
is_col tab col_name = false

unfoldable pub is_table : DbMeta → String → Bool
unfolding find_table
is_table db tab_name = elim (find_table db.tabs tab_name) [ none ↦ false | some _ ↦ true ]

unfoldable pub get_table : DbMeta → String → Result TabMeta
unfolding find_table
get_table db tab_name = elim (find_table db.tabs tab_name) [
  | none ↦ err (table_not_found_error tab_name)
  | some t ↦ ok t
]

pub record ColDef : Type 0 where
  pub name : String
  pub type : ColType
  pub len : ℕ

-- The loop of `create_table` over the definitions, from an offset: the columns, and the offset that
-- it ends at. `int` sums wrap.
unfoldable pub table_cols : String → ℕ → List ColDef → List ColMeta × ℕ
table_cols tab_name curr_offset [] = ([], curr_offset)
table_cols tab_name curr_offset (d ∷ defs) =
    let (cols, record_size) = table_cols tab_name ((curr_offset + d.len) % 2 ^ 32) defs in
    (
      record {
        tab_name = tab_name;
        name = d.name;
        type = d.type;
        len = d.len;
        offset = curr_offset;
        index = false;
      }
          ∷ cols,
      record_size,
    )

pub find_table-get_table :
    (db : DbMeta) (tab_name : String) (tab : TabMeta)
    → get_table db tab_name ≡ ok tab
    → find_table db.tabs tab_name ≡ some tab
unfolding get_table
find_table-get_table db tab_name tab h = ground arith
