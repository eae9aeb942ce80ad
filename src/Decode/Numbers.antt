-- ===== src/Decode/Numbers.antt =====
-- The number types of Rows_log_event_2::log_event_get_value_2
-- (rows_log_event_2/rows_log_event_2.cc). A null `ptr` is `none`.
use mysql_replication_c.Base.{ℕ, ◌/◌, ◌%◌, Option, none, some, if◌then◌else◌}
use mysql_replication_c.Base.Int.{signed}
use mysql_replication_c.Base.Outcome.{ok, ◌>>=◌}
use mysql_replication_c.Text.{Bytes, unsigned_text, int_text}
use mysql_replication_c.Block.{Malloc, alloc, load, deref, snprintf}
use mysql_replication_c.Row.{
  Value, ColInfo, no_memory_for_value, tiny, short, int24, long, longlong, newdecimal, float,
  double,
}
use mysql_replication_c.Mysql.{Mysql}
use mysql_replication_c.Decode.Result.{Decoded, set_text, copy_value}

module _ (m : Mysql) (malloc : Malloc) where
  -- MYSQL_TYPE_LONG
  unfoldable pub get_long : Option Bytes → Value → ColInfo → Decoded
  get_long none v info = ok (0, v)
  get_long (some p) v info = do
    b ← alloc malloc 16 (no_memory_for_value long)
    w ← load 4 p
    b' ←
        snprintf b 0 16
          (if info.is_unsigned then unsigned_text (m.uint4korr w) else int_text (m.sint4korr w))
    ok (4, set_text v b')

  -- MYSQL_TYPE_TINY
  unfoldable pub get_tiny : Option Bytes → Value → ColInfo → Decoded
  get_tiny none v info = ok (0, v)
  get_tiny (some p) v info = do
    b ← alloc malloc 16 (no_memory_for_value tiny)
    c ← deref p
    b' ← snprintf b 0 16 (if info.is_unsigned then unsigned_text c else int_text (signed 8 c))
    ok (1, set_text v b')

  -- MYSQL_TYPE_SHORT
  unfoldable pub get_short : Option Bytes → Value → ColInfo → Decoded
  get_short none v info = ok (0, v)
  get_short (some p) v info = do
    b ← alloc malloc 16 (no_memory_for_value short)
    w ← load 2 p
    b' ←
        snprintf b 0 16
          (if info.is_unsigned then unsigned_text (m.uint2korr w) else int_text (m.sint2korr w))
    ok (2, set_text v b')

  -- MYSQL_TYPE_INT24
  unfoldable pub get_int24 : Option Bytes → Value → ColInfo → Decoded
  get_int24 none v info = ok (0, v)
  get_int24 (some p) v info = do
    b ← alloc malloc 16 (no_memory_for_value int24)
    w ← load 3 p
    b' ←
        snprintf b 0 16
          (if info.is_unsigned then unsigned_text (m.uint3korr w) else int_text (m.sint3korr w))
    ok (3, set_text v b')

  -- MYSQL_TYPE_LONGLONG
  unfoldable pub get_longlong : Option Bytes → Value → ColInfo → Decoded
  get_longlong none v info = ok (0, v)
  get_longlong (some p) v info = do
    b ← alloc malloc 32 (no_memory_for_value longlong)
    w ← load 8 p
    b' ←
        snprintf b 0 32
          (if info.is_unsigned then unsigned_text (m.uint8korr w) else int_text (m.sint8korr w))
    ok (8, set_text v b')

  -- MYSQL_TYPE_NEWDECIMAL: `meta >> 8` is the precision, `meta & 0xFF` the decimals.
  unfoldable pub get_newdecimal : Option Bytes → ℕ → Value → Decoded
  get_newdecimal none meta v = ok (0, v)
  get_newdecimal (some p) meta v = do
    let size = m.decimal_size (meta / 256) (meta % 256)
    w ← load size p
    v' ← copy_value malloc newdecimal (m.decimal_text w (meta / 256) (meta % 256)) v
    ok (size, v')

  -- MYSQL_TYPE_FLOAT
  unfoldable pub get_float : Option Bytes → Value → Decoded
  get_float none v = ok (0, v)
  get_float (some p) v = do
    w ← load 4 p
    v' ← copy_value malloc float (m.float_text w) v
    ok (4, v')

  -- MYSQL_TYPE_DOUBLE
  unfoldable pub get_double : Option Bytes → Value → Decoded
  get_double none v = ok (0, v)
  get_double (some p) v = do
    w ← load 8 p
    v' ← copy_value malloc double (m.double_text w) v
    ok (8, v')
