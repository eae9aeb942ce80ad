-- ===== src/Decode.antt =====
-- Rows_log_event_2::log_event_get_value_2 (rows_log_event_2/rows_log_event_2.cc): one column value.
pub mod Result
pub mod Numbers
pub mod Times
pub mod Bits
pub mod Strings
pub mod Blobs
pub mod Json
pub mod IntegerTypes
pub mod Integers
pub mod Hex
pub mod BlobText
pub mod PrintChars
pub mod VarcharText
pub mod Sizes
pub mod JsonRounds
pub mod Nulls
pub mod BitDigits
pub mod BitText
pub mod Taking
pub mod FixedWidths
pub mod StoredWidths
pub mod JsonWidths
pub mod Widths
pub mod Ending
pub mod TextSteps
pub mod TextTypes
pub mod Texts
use mysql_replication_c.Base.{
  ℕ, ◌+◌, ◌*◌, ◌/◌, ◌%◌, Bool, Option, none, some, leb, ◌==◌, if◌then◌else◌, bit_and, bit_or,
  bit_xor,
}
use mysql_replication_c.Base.Outcome.{err}
use mysql_replication_c.Text.{Bytes}
use mysql_replication_c.Block.{Malloc}
use mysql_replication_c.Row.{
  ColumnType, tiny, short, long, float, double, timestamp, longlong, int24, time, datetime, year,
  newdate, varchar, bit, timestamp2, datetime2, time2, json, newdecimal, enum, set, blob,
  var_string, string, geometry, other, DisplayBlobs, Value, ColInfo, unknown_column_type,
}
use mysql_replication_c.Mysql.{Mysql}
use Result.{Decoded}
use Numbers.{
  get_long, get_tiny, get_short, get_int24, get_longlong, get_newdecimal, get_float, get_double,
}
use Times.{
  get_timestamp, get_timestamp2, get_datetime, get_datetime2, get_time, get_time2, get_newdate,
  get_year,
}
use Strings.{get_bit, get_enum, get_set, get_varchar, get_string}
use Blobs.{get_blob, get_geometry}
use Json.{get_json}

-- The type and the length that the code starts from: a CHAR column packs its real type, and two
-- bits of its length, in `meta`.
unfoldable pub real_type : Mysql → ColumnType → ℕ → ColumnType × ℕ
real_type m string meta =
    let byte0 = meta / 256 in
    let byte1 = meta % 256 in
    if leb 256 meta
    then if bit_and byte0 0x30 == 0x30
      then (string, byte1)
      else (m.code_type (bit_or byte0 0x30), bit_or byte1 (bit_xor (bit_and byte0 0x30) 0x30 * 16))
    else (string, meta)
real_type m type meta = (type, 0)

module _ (m : Mysql) (malloc : Malloc) where
  -- `switch (type)`
  unfoldable pub get_value :
      ColumnType → ℕ → Option Bytes → ℕ → Bool → Value → ColInfo → DisplayBlobs → Decoded
  get_value long length ptr meta is_partial v info d = get_long m malloc ptr v info
  get_value tiny length ptr meta is_partial v info d = get_tiny m malloc ptr v info
  get_value short length ptr meta is_partial v info d = get_short m malloc ptr v info
  get_value int24 length ptr meta is_partial v info d = get_int24 m malloc ptr v info
  get_value longlong length ptr meta is_partial v info d = get_longlong m malloc ptr v info
  get_value newdecimal length ptr meta is_partial v info d = get_newdecimal m malloc ptr meta v
  get_value float length ptr meta is_partial v info d = get_float m malloc ptr v
  get_value double length ptr meta is_partial v info d = get_double m malloc ptr v
  get_value bit length ptr meta is_partial v info d = get_bit m malloc ptr meta v
  get_value timestamp length ptr meta is_partial v info d = get_timestamp m malloc ptr v
  get_value timestamp2 length ptr meta is_partial v info d = get_timestamp2 m malloc ptr meta v
  get_value datetime length ptr meta is_partial v info d = get_datetime m malloc ptr v
  get_value datetime2 length ptr meta is_partial v info d = get_datetime2 m malloc ptr meta v
  get_value time length ptr meta is_partial v info d = get_time m malloc ptr v
  get_value time2 length ptr meta is_partial v info d = get_time2 m malloc ptr meta v
  get_value newdate length ptr meta is_partial v info d = get_newdate m malloc ptr v
  get_value year length ptr meta is_partial v info d = get_year m malloc ptr v
  get_value enum length ptr meta is_partial v info d = get_enum m malloc ptr meta v
  get_value set length ptr meta is_partial v info d = get_set m malloc ptr meta v
  get_value blob length ptr meta is_partial v info d = get_blob m malloc ptr meta v d
  get_value varchar length ptr meta is_partial v info d = get_varchar m malloc ptr meta v
  get_value var_string length ptr meta is_partial v info d = get_varchar m malloc ptr meta v
  get_value string length ptr meta is_partial v info d = get_string m malloc ptr length v
  get_value json length ptr meta is_partial v info d = get_json m malloc ptr meta is_partial v d
  get_value geometry length ptr meta is_partial v info d = get_geometry m malloc ptr meta v d
  get_value (other n) length ptr meta is_partial v info d = err (unknown_column_type (other n) meta)

  unfoldable pub log_event_get_value_2 :
      Option Bytes → ColumnType → ℕ → Bool → Value → ColInfo → DisplayBlobs → Decoded
  log_event_get_value_2 ptr type meta is_partial v info d =
      let (type', length) = real_type m type meta in
      get_value type' length ptr meta is_partial v info d
