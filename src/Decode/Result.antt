-- ===== src/Decode/Result.antt =====
-- What one call of Rows_log_event_2::log_event_get_value_2 takes and gives
-- (rows_log_event_2/rows_log_event_2.cc).
use mysql_replication_c.Base.{ℕ, ◌+◌, some, length}
use mysql_replication_c.Base.Int.{i32}
use mysql_replication_c.Base.Outcome.{Outcome, ok, ◌>>=◌}
use mysql_replication_c.Text.{Bytes}
use mysql_replication_c.Block.{Block, Malloc, alloc, snprintf, strlen, c_str}
use mysql_replication_c.Row.{ColumnType, Value, Message, no_memory_for_value}

-- The bytes of the event that the value takes, and the value.
abbrev pub Decoded : Type 0
Decoded = Outcome Message (ℕ × Value)

-- `ROW_COL_PTR[ 0 ].val` holds a C string, `len` is its `strlen`.
abbrev pub set_text : Value → Block → Value
set_text v b = record v { val = some b; len = i32 (strlen b.bytes) }

-- `val = malloc( cap )`, the check for NULL, and `snprintf( val, cap, … )` of a text.
unfoldable pub print_value : Malloc → ColumnType → ℕ → Bytes → Value → Outcome Message Value
print_value malloc type cap text v = do
  b ← alloc malloc cap (no_memory_for_value type)
  b' ← snprintf b 0 cap text
  ok (set_text v b')

-- A value that was first written as a C string to a local buffer is copied whole.
unfoldable pub copy_value : Malloc → ColumnType → Bytes → Value → Outcome Message Value
copy_value malloc type buff v = let s = c_str buff in print_value malloc type (length s + 1) s v
