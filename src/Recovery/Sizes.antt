-- ===== src/Recovery/Sizes.antt =====
-- The size of a log record is that of its layout.
use mathlib.Core.Path.{subst}
use rubcase_lab.Base.{◌+◌, ◌%◌, ◌^◌, ◌≡◌, refl, some, [], ◌∷◌, ◌++◌, length, arith}
use rubcase_lab.Base.Int.{ℤ, pos}
use rubcase_lab.Defs.{Rid}
use rubcase_lab.Storage.Page.{Bytes}
use rubcase_lab.Record.Layout.{int_bytes}
use rubcase_lab.Recovery.LogRecord.{
  LogRecordType, LogBody, LogRecord, no_body, of_table, of_update, of_insert, of_delete,
  of_new_page, begin, commit, abort, insert, delete, new_txn_record, new_table_record,
  new_update_record, new_tuple_record, new_page_record,
}

-- A sequence with its length before it.
abbrev with_size : Bytes → Bytes
with_size b = int_bytes (pos (length b)) ++ b

abbrev rid_bytes : Rid → Bytes
rid_bytes r = int_bytes r.page_no ++ int_bytes r.slot_no

-- The layout that the comment on the class gives for what follows the header of a record.
abbrev pub layout : LogBody → Bytes → Bytes
layout no_body name = []
layout of_table name = with_size name
layout (of_update rid old new) name =
    rid_bytes rid ++ (with_size old ++ (with_size new ++ with_size name))
layout (of_insert rid tuple) name = rid_bytes rid ++ (with_size tuple ++ with_size name)
layout (of_delete rid tuple) name = rid_bytes rid ++ (with_size tuple ++ with_size name)
layout (of_new_page page_no) name = int_bytes page_no ++ with_size name

-- The size of a record is that of a header and of the layout of what follows.
abbrev pub IsSized : LogRecord → Type 0
IsSized r = r.size ≡ (20 + length (layout r.body r.tab_name)) % 2 ^ 32

-- The records that the constructors make.
pub data Made : LogRecord → Type 0 where
  txn : (t p : ℤ) (k : LogRecordType) {r : LogRecord} → new_txn_record t p k ≡ some r → Made r
  table : (t p : ℤ) (k : LogRecordType) (name : Bytes) → Made (new_table_record t p k name)
  update :
      (t p : ℤ) (k : LogRecordType) (rid : Rid) (old new name : Bytes)
      → Made (new_update_record t p k rid old new name)
  tuple :
      (t p : ℤ) (k : LogRecordType) (rid : Rid) (b name : Bytes) {r : LogRecord}
      → new_tuple_record t p k rid b name ≡ some r
      → Made r
  page :
      (t p : ℤ) (k : LogRecordType) (page_no : ℤ) (name : Bytes)
      → Made (new_page_record t p k page_no name)

length-append : (front back : Bytes) → length (front ++ back) ≡ length front + length back
length-append [] back = omega arith
length-append (byte ∷ front) back = omega (arith, length-append front back)

same_record : (P : LogRecord → Type 0) {r q : LogRecord} → some r ≡ some q → P r → P q
same_record P {r} {q} e h = let same : r ≡ q = cc in subst P same h

txn-IsSized :
    (t p : ℤ) (k : LogRecordType) {r : LogRecord} → new_txn_record t p k ≡ some r → IsSized r
unfolding new_txn_record
txn-IsSized t p begin e = same_record IsSized e refl
txn-IsSized t p commit e = same_record IsSized e refl
txn-IsSized t p abort e = same_record IsSized e refl
txn-IsSized t p _ e = cc

tuple-IsSized :
    (t p : ℤ) (k : LogRecordType) (rid : Rid) (b name : Bytes) {r : LogRecord}
    → new_tuple_record t p k rid b name ≡ some r
    → IsSized r
unfolding new_tuple_record int_bytes
tuple-IsSized t p insert rid b name e =
    same_record IsSized e (omega (arith, length-append b (with_size name)))
tuple-IsSized t p delete rid b name e =
    same_record IsSized e (omega (arith, length-append b (with_size name)))
tuple-IsSized t p _ rid b name e = cc

-- Every record that a constructor makes has the size of its layout, as a 32-bit number.
pub Made-IsSized : {r : LogRecord} → Made r → IsSized r
unfolding int_bytes new_txn_record new_table_record new_update_record new_tuple_record
    new_page_record
Made-IsSized (txn t p k e) = txn-IsSized t p k e
Made-IsSized (table t p k name) = omega arith
Made-IsSized (update t p k rid old new name) =
    let rest = with_size new ++ with_size name in
    omega (arith, length-append old rest, length-append new (with_size name))
Made-IsSized (tuple t p k rid b name e) = tuple-IsSized t p k rid b name e
Made-IsSized (page t p k page_no name) = omega arith
