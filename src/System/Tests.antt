-- ===== src/System/Tests.antt =====
-- A catalogue over files in memory, and one that is written as words.
use Prim.Native.String.{String, count, ◌++◌ as str_append}
use text.Mathlib.TextLemmas.{length-append}
use rubcase_lab.Base.{ℕ, zero, suc, ◌≡◌, refl, ap, false, some, List, [], ◌∷◌, ◌++◌, arith}
use rubcase_lab.Storage.Memory.Files.{memory_files, no_files}
use rubcase_lab.Storage.Disk
use rubcase_lab.Index.Compare.{type_int, type_string}
use rubcase_lab.System.Meta.{ColMeta, DbMeta, ColDef, find_table}
use rubcase_lab.System.Tables.{SmManager, create_table}
use rubcase_lab.System.Layout.{Creates, create_table-Creates}
use rubcase_lab.System.Text.{Iostream, write_db, read_db}
use rubcase_lab.System.RoundTrip.{read_db-write_db}

abbrev no_tables : DbMeta
no_tables = record { name = "db"; tabs = [] }

abbrev fresh : SmManager memory_files
fresh = record { db = no_tables; disk = Disk.init memory_files no_files; fhs = [] }

abbrev two_columns : List ColDef
two_columns =
    record { name = "id"; type = type_int; len = 4 }
    ∷ record { name = "name"; type = type_string; len = 8 }
    ∷ []

create_table-Creates_example :
    Creates memory_files fresh "t" two_columns []
      (create_table memory_files fresh "t" two_columns [])
create_table-Creates_example =
    create_table-Creates memory_files fresh "t" two_columns [] (omega arith)

-- A number as so many strokes, and every string a word.
strokes : ℕ → String
strokes zero = ""
strokes (suc n) = str_append "|" (strokes n)

count-strokes : (n : ℕ) → count (strokes n) ≡ n
unfolding strokes
count-strokes zero = refl
count-strokes (suc n) = omega (arith, length-append "|" (strokes n), count-strokes n)

abbrev stroke_stream : Iostream
stroke_stream = record {
  words = λ s. s ∷ [];
  show = strokes;
  read = λ s. some (count s);
  read-show = λ n h. ap some (count-strokes n);
}

abbrev id_column : ColMeta
id_column = record {
  tab_name = "t";
  name = "id";
  type = type_int;
  len = 4;
  offset = 0;
  index = false;
}

abbrev one_table : DbMeta
one_table = record { name = "db"; tabs = ("t", record { name = "t"; cols = id_column ∷ [] }) ∷ [] }

read_db-write_db_example :
    read_db stroke_stream no_tables (write_db stroke_stream one_table ++ "end" ∷ [])
    ≡ some (one_table, "end" ∷ [])
unfolding find_table
read_db-write_db_example =
    read_db-write_db stroke_stream one_table no_tables ("end" ∷ []) refl (omega arith)
      (
        refl,
        record {
          name_word = refl;
          few = omega arith;
          columns = (
            record {
              tab_name_word = refl;
              name_word = refl;
              short = omega arith;
              near = omega arith;
            },
            tt,
          );
        },
        refl,
        tt,
      )
      refl
