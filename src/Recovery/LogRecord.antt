-- ===== src/Recovery/LogRecord.antt =====
-- src/recovery/log_record.h: the constructors of a log record, and its table name in a buffer.
use rubcase_lab.Base.{ℕ, ◌+◌, ◌%◌, ◌^◌, Option, none, some, [], length}
use rubcase_lab.Base.Int.{ℤ, pos, negsuc}
use rubcase_lab.Defs.{Rid}
use rubcase_lab.Storage.Page.{Bytes}
use rubcase_lab.Record.Layout.{take, drop, store, load_int, int_bytes}

pub data LogRecordType : Type 0 where
  invalid create_table mark_drop_table apply_drop_table create_index mark_drop_index : LogRecordType
  apply_drop_index insert update delete begin commit abort new_page : LogRecordType

-- What a record holds besides its header. A tuple is its bytes.
pub data LogBody : Type 0 where
  no_body : LogBody
  of_table : LogBody
  of_update : Rid → Bytes → Bytes → LogBody
  of_insert of_delete : Rid → Bytes → LogBody
  of_new_page : ℤ → LogBody

-- `size` is the bit pattern of an `int`; `lsn` is given when the record is appended.
pub record LogRecord : Type 0 where
  pub size : ℕ
  pub lsn : ℤ
  pub txn_id : ℤ
  pub prev_lsn : ℤ
  pub log_type : LogRecordType
  pub tab_name : Bytes
  pub body : LogBody

abbrev pub invalid_lsn : ℤ
invalid_lsn = negsuc 0

abbrev pub header_size : ℕ
header_size = 20

abbrev pub sizeof_rid : ℕ
sizeof_rid = 8

abbrev pub sizeof_int : ℕ
sizeof_int = 4

-- A record of a given size.
abbrev sized : ℕ → ℤ → ℤ → LogRecordType → Bytes → LogBody → LogRecord
sized size txn_id prev_lsn log_type tab_name body = record {
  size = size % 2 ^ 32;
  lsn = invalid_lsn;
  txn_id = txn_id;
  prev_lsn = prev_lsn;
  log_type = log_type;
  tab_name = tab_name;
  body = body;
}

-- The constructors. `none` is a failed `assert`. A record of a transaction has no table name, which
-- is left unset.
unfoldable pub new_txn_record : ℤ → ℤ → LogRecordType → Option LogRecord
new_txn_record txn_id prev_lsn begin = some (sized header_size txn_id prev_lsn begin [] no_body)
new_txn_record txn_id prev_lsn commit = some (sized header_size txn_id prev_lsn commit [] no_body)
new_txn_record txn_id prev_lsn abort = some (sized header_size txn_id prev_lsn abort [] no_body)
new_txn_record txn_id prev_lsn _ = none

unfoldable pub new_table_record : ℤ → ℤ → LogRecordType → Bytes → LogRecord
new_table_record txn_id prev_lsn log_type table_name =
    sized (header_size + sizeof_int + length table_name) txn_id prev_lsn log_type table_name
      of_table

unfoldable pub new_update_record : ℤ → ℤ → LogRecordType → Rid → Bytes → Bytes → Bytes → LogRecord
new_update_record txn_id prev_lsn log_type rid old_tuple new_tuple table_name =
    sized (header_size + sizeof_rid + 12 + length old_tuple + length new_tuple + length table_name)
      txn_id prev_lsn log_type table_name (of_update rid old_tuple new_tuple)

unfoldable pub new_tuple_record : ℤ → ℤ → LogRecordType → Rid → Bytes → Bytes → Option LogRecord
new_tuple_record txn_id prev_lsn insert rid tuple table_name = some (
    sized (header_size + sizeof_rid + 8 + length tuple + length table_name) txn_id prev_lsn insert
      table_name (of_insert rid tuple))
new_tuple_record txn_id prev_lsn delete rid tuple table_name = some (
    sized (header_size + sizeof_rid + 8 + length tuple + length table_name) txn_id prev_lsn delete
      table_name (of_delete rid tuple))
new_tuple_record txn_id prev_lsn _ rid tuple table_name = none

unfoldable pub new_page_record : ℤ → ℤ → LogRecordType → ℤ → Bytes → LogRecord
new_page_record txn_id prev_lsn log_type page_no table_name =
    sized (header_size + 8 + length table_name) txn_id prev_lsn log_type table_name
      (of_new_page page_no)

-- The size of the name and the name; the position moves on by the size of the size.
unfoldable pub serialize_table_name : LogRecord → Bytes → ℕ → Bytes × ℕ
unfolding store int_bytes
serialize_table_name r log_buffer at =
    let sized_buffer = store log_buffer at (int_bytes (pos (length r.tab_name))) in
    let at_name = at + sizeof_int in (store sized_buffer at_name r.tab_name, at_name + sizeof_int)

abbrev natural : ℤ → ℕ
natural (pos n) = n
natural (negsuc n) = 0

-- A size that was written is not negative.
unfoldable pub deserialize_table_name : LogRecord → Bytes → LogRecord
unfolding load_int
deserialize_table_name r bytes = record r {
  tab_name = take (natural (load_int bytes 0)) (drop sizeof_int bytes);
}
