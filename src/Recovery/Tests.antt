-- ===== src/Recovery/Tests.antt =====
-- A log record of the table "order", in a buffer of 16 bytes.
use rubcase_lab.Base.{◌≡◌, [], ◌∷◌, replicate, set, arith}
use rubcase_lab.Base.Int.{pos}
use rubcase_lab.Storage.Page.{Bytes}
use rubcase_lab.Record.Layout.{drop, store}
use rubcase_lab.Recovery.LogRecord.{
  LogRecord, create_table, new_table_record, serialize_table_name, deserialize_table_name,
}
use rubcase_lab.Recovery.TableNames.{deserialize-serialize, serialize_table_name_overlaps}

abbrev order_name : Bytes
order_name = 111 ∷ 114 ∷ 100 ∷ 101 ∷ 114 ∷ []

abbrev order_record : LogRecord
order_record = new_table_record (pos 1) (pos 0) create_table order_name

abbrev buffer : Bytes
buffer = replicate 16 0

deserialize-serialize_example :
    (deserialize_table_name order_record
      (drop 3 (serialize_table_name order_record buffer 3).0)).tab_name
    ≡ order_record.tab_name
unfolding new_table_record
deserialize-serialize_example =
    deserialize-serialize order_record order_record buffer 3 (omega arith) (omega arith)

serialize_table_name_overlaps_example :
    (deserialize_table_name order_record (
      drop 3 (
        store
          (serialize_table_name order_record buffer 3).0
          (serialize_table_name order_record buffer 3).1
          (7 ∷ [])))).tab_name
    ≡ set order_record.tab_name 4 7
unfolding new_table_record
serialize_table_name_overlaps_example =
    serialize_table_name_overlaps order_record order_record buffer 3 7 (omega arith) (omega arith)
      (omega arith)
