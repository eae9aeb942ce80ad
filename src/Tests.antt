-- ===== src/Tests.antt =====
-- Concrete inputs on which the theorems are applied.
mod Decoding
mod Listening
mod Filling
mod Running
mod Reporting
mod Printing
mod Images
use mysql_replication_c.Base.{ℕ, Bool, true, false, List, [], ◌∷◌, none, some}
use mysql_replication_c.Block.{Malloc}
use mysql_replication_c.Rows.{Bitmap, RowsEvent, TableDef, Rows, insert, write_rows}
use mysql_replication_c.Row.{ColInfo, DisplayBlobs, short}

-- A heap that grants every block.
abbrev pub granting : Malloc
granting n = true

abbrev pub granting_always : ℕ → Malloc
granting_always i n = true

abbrev pub granting_heaps : ℕ → ℕ → Malloc
granting_heaps i j n = true

-- A signed column named "a".
abbrev pub short_column : ColInfo
short_column = record { type = short; name = b'a' ∷ []; is_unsigned = false }

abbrev pub raw_display : DisplayBlobs
raw_display = record { blobs_display = 1; geometry_as_hex = 0; blob_as_hex = 0 }

abbrev pub hex_display : DisplayBlobs
hex_display = record { blobs_display = 1; geometry_as_hex = 1; blob_as_hex = 1 }

abbrev pub no_display : DisplayBlobs
no_display = record { blobs_display = 0; geometry_as_hex = 0; blob_as_hex = 0 }

-- A table of one SMALLINT column.
abbrev pub one_short : TableDef
one_short = record {
  size = 1;
  type = λ i. short;
  field_metadata = λ i. 0;
  calc_field_size = λ i p. some 2;
  json_column_count = 0;
}

abbrev pub all_columns : Bitmap
all_columns = record { bits_set = 1; is_set = λ i. true }

-- Two inserted rows: 3, and NULL.
abbrev pub inserted : RowsEvent
inserted = record {
  general_type_code = write_rows;
  type_code = write_rows;
  ndb_length = none;
  cols = all_columns;
  cols_ai = all_columns;
  rows_buf = 0 ∷ 3 ∷ 0 ∷ 1 ∷ [];
}

-- The structure before rows are read.
abbrev pub no_rows : Rows
no_rows = record {
  type_code = insert;
  col_count = 1;
  rows_count = 0;
  rows = none;
  rows_after = none;
  rows_l2 = none;
  rows_after_l2 = none;
  display_blobs = raw_display;
  clock = 0;
}
