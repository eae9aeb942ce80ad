-- ===== src/Decode/Strings.antt =====
-- The bit, enum, set and string types of Rows_log_event_2::log_event_get_value_2
-- (rows_log_event_2/rows_log_event_2.cc).
use mysql_replication_c.Base.{ℕ, ◌+◌, ◌*◌, ◌/◌, ◌%◌, Option, none, some, ltb, ◌==◌, if◌then◌else◌}
use mysql_replication_c.Base.Int.{i32}
use mysql_replication_c.Base.Outcome.{Outcome, ok, err, ◌>>=◌}
use mysql_replication_c.Text.{Bytes, unsigned_text}
use mysql_replication_c.Block.{Malloc, alloc, load, deref, memset_zero}
use mysql_replication_c.Row.{
  ColumnType, Value, Message, no_memory_for_value, unknown_enum_packlen, bit, enum, set, varchar,
  string,
}
use mysql_replication_c.Mysql.{Mysql}
use mysql_replication_c.Decode.Result.{Decoded, set_text, print_value}
use mysql_replication_c.Decode.Bits.{my_b_write_bit_2, my_b_print_with_length_2}

module _ (m : Mysql) (malloc : Malloc) where
  -- MYSQL_TYPE_BIT
  unfoldable pub get_bit : Option Bytes → ℕ → Value → Decoded
  get_bit none meta v = ok (0, v)
  get_bit (some p) meta v = do
    let nbits = meta / 256 * 8 + meta % 256
    b ← alloc malloc (nbits + 4) (no_memory_for_value bit)
    b' ← my_b_write_bit_2 p nbits b
    ok ((nbits + 7) / 8, set_text v b')

  -- MYSQL_TYPE_ENUM: the check of the pack length stands before the test of `ptr`.
  unfoldable pub get_enum_1 : Option Bytes → Value → Decoded
  get_enum_1 none v = ok (0, v)
  get_enum_1 (some p) v = do
    c ← deref p
    v' ← print_value malloc enum 16 (unsigned_text c) v
    ok (1, v')

  unfoldable pub get_enum_2 : Option Bytes → Value → Decoded
  get_enum_2 none v = ok (0, v)
  get_enum_2 (some p) v = do
    w ← load 2 p
    v' ← print_value malloc enum 16 (unsigned_text (m.uint2korr w)) v
    ok (2, v')

  unfoldable pub get_enum : Option Bytes → ℕ → Value → Decoded
  get_enum ptr meta v =
      if meta % 256 == 1
      then get_enum_1 ptr v
      else if meta % 256 == 2
      then get_enum_2 ptr v
      else err (unknown_enum_packlen (meta % 256))

  -- MYSQL_TYPE_SET
  unfoldable pub get_set : Option Bytes → ℕ → Value → Decoded
  get_set none meta v = ok (0, v)
  get_set (some p) meta v = do
    b ← alloc malloc (meta % 256 * 8 + 4) (no_memory_for_value set)
    b' ← my_b_write_bit_2 p (meta % 256 * 8) b
    ok (meta % 256, set_text v b')

module _ (m : Mysql) where
  -- `real_len`: one byte for a column of less than 256 bytes, else two.
  unfoldable pub read_real_len : Bytes → ℕ → Outcome Message ℕ
  read_real_len p length = if ltb length 256 then deref p else (do w ← load 2 p; ok (m.uint2korr w))

module _ (m : Mysql) (malloc : Malloc) where
  -- The common body of the two string cases.
  unfoldable pub print_string : ColumnType → Bytes → ℕ → Value → Decoded
  print_string type p length v = do
    real_len ← read_real_len m p length
    b ← alloc malloc (real_len + 16) (no_memory_for_value type)
    b' ← memset_zero b (real_len + 16)
    r ← my_b_print_with_length_2 m p length b'
    ok (r.0, record v { val = some r.1; len = i32 real_len })

  -- MYSQL_TYPE_VARCHAR and MYSQL_TYPE_VAR_STRING: the length is `meta`.
  unfoldable pub get_varchar : Option Bytes → ℕ → Value → Decoded
  get_varchar none meta v = ok (0, v)
  get_varchar (some p) meta v = print_string varchar p meta v

  -- MYSQL_TYPE_STRING
  unfoldable pub get_string : Option Bytes → ℕ → Value → Decoded
  get_string none length v = ok (0, v)
  get_string (some p) length v = print_string string p length v
