-- ===== src/Rows.antt =====
-- Rows_log_event_2 (rows_log_event_2/rows_log_event_2.cc): the rows of one event. Here stands what
-- the methods share: the structure that is filled, and the objects of the MySQL sources that are
-- read. Those objects are parameters: records of what the methods ask them.
pub mod Memory
pub mod Image
pub mod Loop
pub mod Progress
pub mod Growth
pub mod Shape
pub mod Rounds
pub mod Filled
pub mod Clear
pub mod Untouched
pub mod Spared
pub mod Legible
pub mod Texts
pub mod Coming
pub mod Guarded
pub mod Reading
use mysql_replication_c.Base.{ℕ, Bool, List, Option, none}
use mysql_replication_c.Base.Int.{negsuc}
use mysql_replication_c.Text.{Bytes}
use mysql_replication_c.Row.{ColumnType, DisplayBlobs, Value}

-- REPL_LOG_X_INSERT, REPL_LOG_X_UPDATE, REPL_LOG_X_DELETE
pub data ChangeType : Type 0 where
  insert update delete : ChangeType

-- The part of _repl_log_x_rows that the decoding of rows writes. A null pointer is `none`; a
-- pointer into `rows_L2` is its index there. `clock` counts the allocations so far.
pub record Rows : Type 0 where
  pub type_code : ChangeType
  pub col_count : ℕ
  pub rows_count : ℕ
  pub rows : Option (List ℕ)
  pub rows_after : Option (List ℕ)
  pub rows_l2 : Option (List Value)
  pub rows_after_l2 : Option (List Value)
  pub display_blobs : DisplayBlobs
  pub clock : ℕ

-- A cell after `memset` and `len = -1`.
abbrev pub blank : Value
blank = record { val = none; len = negsuc 0; is_hex = 0 }

-- enum_row_image_type
pub data RowImageType : Type 0 where
  write_ai update_bi update_ai delete_bi : RowImageType

abbrev pub is_update_ai : RowImageType → Bool
is_update_ai update_ai = Bool.true
is_update_ai _ = Bool.false

abbrev pub is_update_bi : RowImageType → Bool
is_update_bi update_bi = Bool.true
is_update_bi _ = Bool.false

abbrev pub is_json : ColumnType → Bool
is_json ColumnType.json = Bool.true
is_json _ = Bool.false

-- MY_BITMAP: bitmap_bits_set and bitmap_is_set
pub record Bitmap : Type 0 where
  pub bits_set : ℕ
  pub is_set : ℕ → Bool

-- table_def: `calc_field_size` is given the bytes from the field on, and is `none` where it reads
-- behind them.
pub record TableDef : Type 0 where
  pub size : ℕ
  pub type : ℕ → ColumnType
  pub field_metadata : ℕ → ℕ
  pub calc_field_size : ℕ → Bytes → Option ℕ
  pub json_column_count : ℕ

-- The answers of get_general_type_code and get_type_code that the methods tell apart.
pub data RowsEventType : Type 0 where
  write_rows delete_rows update_rows partial_update_rows unknown_rows : RowsEventType

-- Rows_log_event: `rows_buf` holds the bytes from m_rows_buf to m_rows_end.
pub record RowsEvent : Type 0 where
  pub general_type_code : RowsEventType
  pub type_code : RowsEventType
  pub ndb_length : Option ℕ
  pub cols : Bitmap
  pub cols_ai : Bitmap
  pub rows_buf : Bytes
