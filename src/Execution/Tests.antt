-- ===== src/Execution/Tests.antt =====
-- Queries over the tables "a" and "b", of one column of type INT each.
use Prim.Native.String.{String}
use text.Mathlib.Text.{◌==◌ as str_eq}
use rubcase_lab.Base.{
  ℕ, ◌≤◌, inl, inr, Bool-cases, ◌≡◌, refl, Bool, false, none, List, [], ◌∷◌, ◌++◌, arith,
}
use rubcase_lab.Base.Int.{pos}
use rubcase_lab.Storage.Page.{Bytes}
use rubcase_lab.Record.Layout.{RmFileHdr}
use rubcase_lab.Index.Compare.{type_int, type_string}
use rubcase_lab.System.Meta.{ColMeta, TabMeta, DbMeta, ok, find_table, get_table, each}
use rubcase_lab.System.Layout.{IsLaidOut, IsPacked}
use rubcase_lab.Execution.Defs.{TabCol, Value, Condition, op_eq, new_value, get_col, find_col}
use rubcase_lab.Execution.Manager.{check_column, table_conds}
use rubcase_lab.Execution.Manager.Names.{check_column_lem}
use rubcase_lab.Execution.Manager.Plan.{RowsUsable, table_conds-RowsUsable}
use rubcase_lab.Execution.Manager.Popped.{AllOf, Kept, Popped, table_conds_lem}
use rubcase_lab.Execution.Scan.{
  SeqScan, swapped, seq_scan, handle_at, end_of, orient, eval_cond, eval_conds,
}
use rubcase_lab.Execution.Scan.Swap.{eval_cond-swapped}
use rubcase_lab.Execution.Tree.{Output, scan_node, join, projection, feed_right}
use rubcase_lab.Execution.Tree.Columns.{IsLaid, scanned, joined, projected, Built-IsLaid}
use rubcase_lab.Execution.Tree.Pushdown.{other_table, IsJoinable, feed_right-eval_conds}

abbrev int_column : String → String → ColMeta
int_column tab_name name = record {
  tab_name = tab_name;
  name = name;
  type = type_int;
  len = 4;
  offset = 0;
  index = false;
}

abbrev table_of : String → String → TabMeta
table_of tab_name name = record { name = tab_name; cols = int_column tab_name name ∷ [] }

abbrev db : DbMeta
db = record { name = "db"; tabs = ("a", table_of "a" "x") ∷ ("b", table_of "b" "y") ∷ [] }

abbrev a_x : TabCol
a_x = record { tab_name = "a"; col_name = "x" }

abbrev b_y : TabCol
b_y = record { tab_name = "b"; col_name = "y" }

-- b.y = a.x
abbrev condition : Condition
condition = record {
  lhs_col = b_y;
  op = op_eq;
  is_rhs_val = false;
  rhs_col = a_x;
  rhs_val = new_value;
}

abbrev all_columns : List ColMeta
all_columns = int_column "a" "x" ∷ int_column "b" "y" ∷ []

abbrev no_floats : Bytes → Bytes → Bool
no_floats x y = false

-- The column "y" without its table.
abbrev unnamed : TabCol
unnamed = record { tab_name = ""; col_name = "y" }

check_column_lem_example : check_column db all_columns unnamed ≡ ok b_y
check_column_lem_example = check_column_lem db all_columns unnamed (refl, (refl, tt))

table_conds_lem_example :
    Popped [] ("a" ∷ "b" ∷ []) (condition ∷ []) (table_conds [] ("a" ∷ "b" ∷ []) (condition ∷ [])).0
    × Kept
        (λ c. ¬ AllOf ("a" ∷ "b" ∷ []) c)
        (condition ∷ [])
        (table_conds [] ("a" ∷ "b" ∷ []) (condition ∷ [])).1
table_conds_lem_example = table_conds_lem ("a" ∷ "b" ∷ []) (condition ∷ [])

table_conds-RowsUsable_example :
    RowsUsable [] ("a" ∷ "b" ∷ []) (table_conds [] ("a" ∷ "b" ∷ []) (condition ∷ [])).0
table_conds-RowsUsable_example = table_conds-RowsUsable ("a" ∷ "b" ∷ []) (condition ∷ [])

abbrev eight_bytes : Bytes
eight_bytes = 1 ∷ 0 ∷ 0 ∷ 0 ∷ 2 ∷ 0 ∷ 0 ∷ 0 ∷ []

eval_cond-swapped_example :
    eval_cond no_floats all_columns (swapped condition) eight_bytes
    ≡ eval_cond no_floats all_columns condition eight_bytes
unfolding get_col find_col
eval_cond-swapped_example =
    eval_cond-swapped no_floats (λ x y h. refl) all_columns condition eight_bytes 1 0
      (int_column "b" "y") (int_column "a" "x") refl refl refl refl

abbrev a_hdr : ℕ × RmFileHdr
a_hdr = (
  3,
  record {
    record_size = 4;
    num_pages = pos 1;
    num_records_per_page = 100;
    first_free_page_no = pos 0;
    bitmap_size = 13;
  },
)

abbrev handles : List (String × (ℕ × RmFileHdr))
handles = ("a", a_hdr) ∷ ("b", a_hdr) ∷ []

abbrev scan_a : SeqScan
scan_a = record {
  tab_name = "a";
  conds = [];
  cols = int_column "a" "x" ∷ [];
  len = 4;
  fed_conds = [];
}

abbrev scan_b : SeqScan
scan_b = record {
  tab_name = "b";
  conds = condition ∷ [];
  cols = int_column "b" "y" ∷ [];
  len = 4;
  fed_conds = condition ∷ [];
}

scan_a_built : seq_scan db handles "a" [] ≡ ok scan_a
unfolding seq_scan get_table find_table handle_at end_of each orient
scan_a_built = refl

scan_b_built : seq_scan db handles "b" (condition ∷ []) ≡ ok scan_b
unfolding seq_scan get_table find_table handle_at end_of each orient
scan_b_built = refl

-- A table of one column.
one_column_laid :
    (tab_name name : String) (tab : TabMeta)
    → tab ≡ table_of tab_name name
    → (n : ℕ) × (1 ≤ n) × (n ≤ 512) × IsPacked 0 tab.cols n
one_column_laid tab_name name tab e = (4, omega arith, omega arith, rw e (omega arith))

laid : IsLaidOut db
unfolding find_table
laid tab_name tab e = elim (Bool-cases (str_eq "a" tab_name)) [
  | inl a ↦ one_column_laid "a" "x" tab (ground (arith, e))
  | inr not_a ↦ elim (Bool-cases (str_eq "b" tab_name)) [
    | inl b ↦ one_column_laid "b" "y" tab (ground (arith, e))
    | inr not_b ↦ absurd (ground (arith, e))
  ]
]

-- b.y and a.x of the join.
abbrev both : Output
both = record {
  cols =
      record (int_column "b" "y") { offset = 0 } ∷ record (int_column "a" "x") { offset = 4 } ∷ [];
  len = 8;
}

both_built :
    projection (join (scan_node scan_a) (scan_node scan_b)) (b_y ∷ a_x ∷ []) ≡ ok (both, 1 ∷ 0 ∷ [])
unfolding projection join get_col find_col
both_built = refl

Built-IsLaid_example : IsLaid both
Built-IsLaid_example = Built-IsLaid {db = db} {fhs = handles} laid (
    projected {n = join (scan_node scan_a) (scan_node scan_b)} (b_y ∷ a_x ∷ []) (1 ∷ 0 ∷ [])
      (joined (scanned "a" [] scan_a_built) (scanned "b" (condition ∷ []) scan_b_built)
        (omega arith))
      both_built (omega arith))

-- The string "hi" in a column of four bytes.
abbrev hi : Value
hi = record { type = type_string; scalar = []; str_val = 104 ∷ 105 ∷ []; raw = none }

joinable : IsJoinable (scan_node scan_a) scan_b
joinable = record {
  left_laid = record { packed = omega arith; small = omega arith };
  right_laid = record { packed = omega arith; small = omega arith };
  short = omega arith;
  left_apart = (refl, tt);
  right_within = (refl, tt);
  distinct = (refl, tt);
}

abbrev two : Bytes
two = 2 ∷ 0 ∷ 0 ∷ 0 ∷ []

feed_right-eval_conds_example :
    (fed : SeqScan) × (feed_right (scan_node scan_a) [] two scan_b ≡ ok fed)
    × (eval_conds no_floats fed.cols fed.fed_conds two
        ≡ eval_conds no_floats
            (join (scan_node scan_a) (scan_node scan_b)).cols
            scan_b.conds
            (two ++ two))
feed_right-eval_conds_example =
    feed_right-eval_conds no_floats (λ x y. refl) (scan_node scan_a) scan_b joinable two two refl
      (refl, tt) (other_table refl refl refl refl refl refl, tt)
