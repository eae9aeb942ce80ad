-- ===== src/Event.antt =====
-- The events of the replication stream, as the MySQL sources deserialize them, with what
-- mysql_rpl_listener_2/mysql_rpl_listener_2.cc reads of each.
use mysql_replication_c.Base.{ℕ, Bool, List}
use mysql_replication_c.Text.{Bytes}
use mysql_replication_c.Row.{ColumnType}
use mysql_replication_c.Rows.{RowsEvent, TableDef}

-- Table_map_event::Optional_metadata_fields
pub record OptionalMetadata : Type 0 where
  pub is_valid : Bool
  pub column_name : List Bytes
  pub signedness : List Bool

-- Table_map_log_event: `coltype` has `colcnt` entries, `temp_buf` is the event as it was read.
pub record TableMapEvent : Type 0 where
  pub table_id : ℕ
  pub db_name : Bytes
  pub table_name : Bytes
  pub coltype : List ColumnType
  pub optional_metadata_len : ℕ
  pub optional_metadata : OptionalMetadata
  pub has_table_def : Bool
  pub table_def : TableDef
  pub temp_buf : Bytes

-- A rows event of any of the seven types.
pub record RowsLogEvent : Type 0 where
  pub table_id : ℕ
  pub when : ℕ
  pub rows : RowsEvent

-- What can go wrong with one event of a payload before it is processed: no memory for its buffer,
-- or an exception or an error of its deserialization.
pub data PayloadError : Type 0 where
  no_buffer : PayloadError
  not_deserialized : Bytes → PayloadError

-- `other_event` stands for each type that has no case of its own, or one that does nothing.
mutual
  pub data Event : Type 0 where
    query_event : (when : ℕ) (text : Bytes) → Event
    xid_event : (when : ℕ) → Event
    xa_prepare_event : (when : ℕ) → Event
    gtid_event : (when : ℕ) → Event
    format_description_event : Event
    table_map_event : TableMapEvent → Event
    rotate_event : (new_log_ident : Bytes) → Event
    rows_event : RowsLogEvent → Event
    payload_event : Payload → Event
    other_event : (when : ℕ) → Event

  -- The events in a TRANSACTION_PAYLOAD_EVENT.
  pub data Payload : Type 0 where
    end_of_payload : Payload
    payload_item : Event → Payload → Payload
    payload_fails : PayloadError → Payload → Payload
