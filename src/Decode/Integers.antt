-- ===== src/Decode/Integers.antt =====
-- The integer columns of log_event_get_value_2 (rows_log_event_2/rows_log_event_2.cc).

use mysql_replication_c.Base.{ℕ, ◌≤◌, ◌<◌, ◌≡◌, Bool, true, some, length, take, arith}
use mysql_replication_c.Base.Int.{pos}
use mysql_replication_c.Base.Outcome.{ok}
use mysql_replication_c.Text.{Bytes, int_text}
use mysql_replication_c.Text.Decimal.{read_int, read_int-int_text}
use mysql_replication_c.Text.Width.{int_text-NonNul}
use mysql_replication_c.Block.{Block, Malloc, strlen, c_str}
use mysql_replication_c.Block.Steps.{text_block, strlen_text, c_str_text}
use mysql_replication_c.Row.{
  ColumnType, tiny, short, int24, long, longlong, Value, ColInfo, DisplayBlobs,
}
use mysql_replication_c.Mysql.{Mysql, Laws, AllBytes}
use mysql_replication_c.Decode.{log_event_get_value_2, get_value, real_type}
use mysql_replication_c.Decode.IntegerTypes.{
  column_int, text_value, get_long_lem, get_short_lem, get_int24_lem, get_longlong_lem,
  get_tiny_lem,
}

-- The bytes of an integer column, 0 for the other types, and of the block for its text.
abbrev pub int_width : ColumnType → ℕ
int_width tiny = 1
int_width short = 2
int_width int24 = 3
int_width long = 4
int_width longlong = 8
int_width _ = 0

abbrev pub int_cap : ColumnType → ℕ
int_cap longlong = 32
int_cap _ = 16

module _ (m : Mysql) (laws : Laws m) (malloc : Malloc) where
  pub get_value_text :
      (type : ColumnType) (p : Bytes) (meta : ℕ) (is_partial : Bool) (v : Value) (info : ColInfo)
      (d : DisplayBlobs)
      → 0 < int_width type
      → malloc (int_cap type) ≡ true
      → int_width type ≤ length p
      → AllBytes (take (int_width type) p)
      → log_event_get_value_2 m malloc (some p) type meta is_partial v info d
        ≡ ok (
          int_width type,
          text_value
              (int_cap type)
              (int_text (column_int info.is_unsigned (int_width type) (take (int_width type) p)))
              v,
        )
  unfolding log_event_get_value_2 real_type get_value
  get_value_text tiny p meta is_partial v info d w g h b = get_tiny_lem m laws malloc p v info g h b
  get_value_text short p meta is_partial v info d w g h b =
      get_short_lem m laws malloc p v info g h b
  get_value_text int24 p meta is_partial v info d w g h b =
      get_int24_lem m laws malloc p v info g h b
  get_value_text long p meta is_partial v info d w g h b = get_long_lem m laws malloc p v info g h b
  get_value_text longlong p meta is_partial v info d w g h b =
      get_longlong_lem m laws malloc p v info g h b
  get_value_text _ p meta is_partial v info d w g h b = absurd (omega arith)

  -- Decoding an integer column (TINY, SHORT, INT24, LONG, LONGLONG) whose bytes are in the event and
  -- whose block is granted takes exactly the bytes of the type, fills `val` with a C string of `len`
  -- characters, and that text, read as a decimal number, is the little-endian integer of the column,
  -- unsigned or in two's complement as the column is.
  pub integer_roundtrip :
      (type : ColumnType) (p : Bytes) (meta : ℕ) (is_partial : Bool) (v : Value) (info : ColInfo)
      (d : DisplayBlobs)
      → 0 < int_width type
      → malloc (int_cap type) ≡ true
      → int_width type ≤ length p
      → AllBytes (take (int_width type) p)
      → (b : Block) × (log_event_get_value_2 m malloc (some p) type meta is_partial v info d
          ≡ ok (int_width type, record v { val = some b; len = pos (strlen b.bytes) }))
        × (read_int (c_str b.bytes)
            ≡ column_int info.is_unsigned (int_width type) (take (int_width type) p))
  integer_roundtrip type p meta is_partial v info d w g h b =
      let z = column_int info.is_unsigned (int_width type) (take (int_width type) p) in
      (
        text_block (int_cap type) (int_text z),
        rw (strlen_text (int_text z) (int_text-NonNul z))
            (get_value_text type p meta is_partial v info d w g h b),
        rw (c_str_text (int_text z) (int_text-NonNul z)) (read_int-int_text z),
      )
