-- ===== src/Mysql.antt =====
-- The functions of the MySQL sources that rows_log_event_2/rows_log_event_2.cc calls. They are not
-- part of the repository: a parameter of the model, with what is documented of them in `Laws`.
pub mod Toy
use mysql_replication_c.Base.{ℕ, suc, ◌+◌, ◌*◌, ◌<◌, ◌≡◌, Bool, List, [], ◌∷◌, Option, length, All}
use mysql_replication_c.Base.Int.{ℤ, signed}
use mysql_replication_c.Text.{Bytes}
use mysql_replication_c.Row.{ColumnType}

-- What json_binary::parse_binary and Json_wrapper::to_string make of a document.
pub data Json : Type 0 where
  json_text : Bytes → Json
  json_error : Json
  json_throws : Bytes → Json

-- enum_json_diff_operation
pub data JsonOperation : Type 0 where
  replace insert remove : JsonOperation

pub record Mysql : Type 0 where
  -- my_byteorder.h
  pub uint2korr : Bytes → ℕ
  pub uint3korr : Bytes → ℕ
  pub uint4korr : Bytes → ℕ
  pub uint8korr : Bytes → ℕ
  pub sint2korr : Bytes → ℤ
  pub sint3korr : Bytes → ℤ
  pub sint4korr : Bytes → ℤ
  pub sint8korr : Bytes → ℤ
  -- field_types.h: the name of a type's number
  pub code_type : ℕ → ColumnType
  -- my_decimal_get_binary_size; binary2my_decimal and decimal2string
  pub decimal_size : ℕ → ℕ → ℕ
  pub decimal_text : Bytes → ℕ → ℕ → Bytes
  -- float4get under %-20g, float8get under %-.20g
  pub float_text : Bytes → Bytes
  pub double_text : Bytes → Bytes
  -- my_timestamp_binary_length and so on; the text that the my_*_to_str functions write
  pub timestamp_length : ℕ → ℕ
  pub timestamp_text : Bytes → ℕ → Bytes
  pub datetime_length : ℕ → ℕ
  pub datetime_text : Bytes → ℕ → Bytes
  pub time_length : ℕ → ℕ
  pub time_text : Bytes → ℕ → Bytes
  pub parse_json : Bytes → Json
  -- enum_json_diff_operation by its number, `none` from JSON_DIFF_OPERATION_COUNT on
  pub json_operation : ℕ → Option JsonOperation
  -- net_field_length_checked on a pointer and the length left: the value and the bytes it takes,
  -- `none` for its error return
  pub net_field_length : Bytes → ℕ → Option (ℕ × ℕ)
  -- Bit_reader::get: the k-th bit behind a pointer, which stands in byte k / 8
  pub read_bit : Bytes → ℕ → Bool
  -- whether the options of a row hold PARTIAL_JSON_UPDATES
  pub has_partial_json_updates : ℕ → Bool
  -- EXTRA_ROW_INFO_HEADER_LENGTH
  pub extra_row_info_header_length : ℕ

-- The number that bytes stand for, the lowest first.
abbrev pub little_endian : Bytes → ℕ
little_endian [] = 0
little_endian (c ∷ p) = c + 256 * little_endian p

abbrev pub AllBytes : Bytes → Type 0
AllBytes = All (λ c. c < 256)

-- my_byteorder.h: the korr macros read little-endian words, the sint ones in two's complement.
pub record Laws (m : Mysql) : Type 0 where
  pub uint2_lem : (p : Bytes) → length p ≡ 2 → m.uint2korr p ≡ little_endian p
  pub uint3_lem : (p : Bytes) → length p ≡ 3 → m.uint3korr p ≡ little_endian p
  pub uint4_lem : (p : Bytes) → length p ≡ 4 → m.uint4korr p ≡ little_endian p
  pub uint8_lem : (p : Bytes) → length p ≡ 8 → m.uint8korr p ≡ little_endian p
  pub sint2_lem : (p : Bytes) → length p ≡ 2 → m.sint2korr p ≡ signed 16 (little_endian p)
  pub sint3_lem : (p : Bytes) → length p ≡ 3 → m.sint3korr p ≡ signed 24 (little_endian p)
  pub sint4_lem : (p : Bytes) → length p ≡ 4 → m.sint4korr p ≡ signed 32 (little_endian p)
  pub sint8_lem : (p : Bytes) → length p ≡ 8 → m.sint8korr p ≡ signed 64 (little_endian p)
