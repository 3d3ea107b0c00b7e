-- ===== src/Execution/Tree.antt =====
-- The columns of the executors above the scans: src/execution/executor_projection.h and
-- executor_nestedloop_join.h. Their loops over the records are unfinished there.
pub mod Columns
pub mod Lookup
pub mod Values
pub mod Pushdown
use rubcase_lab.Base.{ℕ, ◌+◌, ◌%◌, ◌^◌, List, [], ◌∷◌, ◌++◌, map}
use rubcase_lab.Storage.Page.{Bytes}
use rubcase_lab.System.Meta.{ColMeta, Result, ok, err, ◌>>=◌}
use rubcase_lab.Execution.Defs.{TabCol, get_col, Dict, rec2dict}
use rubcase_lab.Execution.Scan.{SeqScan, to_size, feed}

-- What `cols` and `tupleLen` of an executor return.
pub record Output : Type 0 where
  pub cols : List ColMeta
  pub len : ℕ

abbrev pub scan_node : SeqScan → Output
scan_node s = record { cols = s.cols; len = s.len }

-- The columns of the right child, behind a tuple of the left one.
unfoldable pub shift : ℕ → ColMeta → ColMeta
shift len c = record c { offset = (c.offset + len) % 2 ^ 32 }

unfoldable pub join : Output → Output → Output
unfolding shift
join left right = record {
  cols = left.cols ++ map (shift left.len) right.cols;
  len = (left.len + right.len) % 2 ^ 64;
}

-- The loop of the constructor of a projection, from an offset: the columns, their positions among the
-- columns below, and the offset that it ends at.
unfoldable pub select_cols : List ColMeta → ℕ → List TabCol → Result (List ColMeta × List ℕ × ℕ)
unfolding get_col
select_cols prev_cols curr_offset [] = ok ([], [], curr_offset)
select_cols prev_cols curr_offset (sel ∷ sel_cols) = do
  (i, c) ← get_col prev_cols sel
  (cols, sel_idxs, len) ← select_cols prev_cols ((curr_offset + to_size c.len) % 2 ^ 64) sel_cols
  ok (record c { offset = curr_offset % 2 ^ 32 } ∷ cols, i ∷ sel_idxs, len)

unfoldable pub projection : Output → List TabCol → Result (Output × List ℕ)
unfolding select_cols
projection prev sel_cols = do
  (cols, sel_idxs, len) ← select_cols prev.cols 0 sel_cols
  ok (record { cols = cols; len = len }, sel_idxs)

-- `feed_right` where the right child is a scan. `insert` of a range keeps the entries that are there.
unfoldable pub feed_right : Output → Dict → Bytes → SeqScan → Result SeqScan
unfolding rec2dict feed
feed_right left prev_feed_dict left_rec right = do
  left_dict ← rec2dict left.cols left_rec
  feed right (prev_feed_dict ++ left_dict)
