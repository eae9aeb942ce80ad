-- ===== src/Row.antt =====
-- The structures of mysql_rpl_listener_row.h and mysql_rpl_listener_2/mysql_rpl_tbl_info.h that a
-- decoded row is made of, and the messages of Rows_log_event_2::set_error_desc.
use mysql_replication_c.Base.{ℕ, Bool, Option}
use mysql_replication_c.Base.Int.{ℤ}
use mysql_replication_c.Text.{Bytes}
use mysql_replication_c.Block.{Block}

-- The column types that the code names; `other` is any further number.
pub data ColumnType : Type 0 where
  tiny short long float double timestamp longlong int24 time datetime year newdate varchar bit :
      ColumnType
  timestamp2 datetime2 time2 json newdecimal enum set blob var_string string geometry : ColumnType
  other : ℕ → ColumnType

-- _repl_display_blobs
pub record DisplayBlobs : Type 0 where
  pub blobs_display : ℕ
  pub geometry_as_hex : ℕ
  pub blob_as_hex : ℕ

-- _repl_log_x_value: `len` is -1 for a column that is not shown.
pub record Value : Type 0 where
  pub val : Option Block
  pub len : ℤ
  pub is_hex : ℕ

-- _col_info
pub record ColInfo : Type 0 where
  pub type : ColumnType
  pub name : Bytes
  pub is_unsigned : Bool

-- What `set_error_desc` is given where `error_code_ptr[ 0 ]` is set.
pub data Message : Type 0 where
  no_memory_for_value : ColumnType → Message
  no_memory_for_partial_json : Message
  unknown_enum_packlen : ℕ → Message
  unknown_blob_packlen : ℕ → Message
  unknown_json_len : ℕ → Message
  unknown_geometry_len : ℕ → Message
  unknown_column_type : ColumnType → ℕ → Message
  invalid_json : Message
  invalid_json_operation : Message
  invalid_json_field_length : Message
  invalid_json_part : Message
  exception : Bytes → Message
  value_options_error : Message
  no_memory_for_row : Message
  no_memory_for_finish : Message
  corrupted_event : ℕ → ℕ → Message
  unknown_type_code : Message
  ndb_info_too_short : Message
  unknown_table : Message
  column_count_mismatch : Message
