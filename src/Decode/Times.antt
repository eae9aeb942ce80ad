-- ===== src/Decode/Times.antt =====
-- The date and time types of Rows_log_event_2::log_event_get_value_2
-- (rows_log_event_2/rows_log_event_2.cc).
use mysql_replication_c.Base.{ℕ, ◌+◌, ◌/◌, ◌%◌, [], ◌∷◌, ◌++◌, Option, none, some}
use mysql_replication_c.Base.Int.{i32}
use mysql_replication_c.Base.Outcome.{ok, ◌>>=◌}
use mysql_replication_c.Text.{Bytes, unsigned_text, padded_text, padded_int_text}
use mysql_replication_c.Block.{Malloc, load, deref}
use mysql_replication_c.Row.{
  Value, timestamp, timestamp2, datetime, datetime2, time, time2, newdate, year,
}
use mysql_replication_c.Mysql.{Mysql}
use mysql_replication_c.Decode.Result.{Decoded, print_value, copy_value}

-- "%04d-%02d-%02d %02d:%02d:%02d" of a number YYYYMMDDhhmmss, with the casts to int
unfoldable pub datetime_text : ℕ → Bytes
datetime_text n =
    let d = n / 1000000 in
    let t = n % 1000000 in
    padded_int_text 4 (i32 (d / 10000))
    ++ (b'-' ∷ padded_int_text 2 (i32 (d % 10000 / 100)))
    ++ (b'-' ∷ padded_int_text 2 (i32 (d % 100)))
    ++ (b' ' ∷ padded_int_text 2 (i32 (t / 10000)))
    ++ (b':' ∷ padded_int_text 2 (i32 (t % 10000 / 100)))
    ++ (b':' ∷ padded_int_text 2 (i32 (t % 100)))

-- "%02d:%02d:%02d" of a number hhmmss
unfoldable pub time_text : ℕ → Bytes
time_text t =
    padded_int_text 2 (i32 (t / 10000))
    ++ (b':' ∷ padded_int_text 2 (i32 (t % 10000 / 100)))
    ++ (b':' ∷ padded_int_text 2 (i32 (t % 100)))

-- The eleven bytes of `buf`, less the closing NUL: `& 31` is `% 32`, `>> 5 & 15` is `/ 32 % 16`.
unfoldable pub newdate_text : ℕ → Bytes
newdate_text n =
    let y = n / 512 in
    let mon = n / 32 % 16 in
    let d = n % 32 in
    (b'0' + y / 10 / 10 / 10)
    ∷ (b'0' + y / 10 / 10 % 10)
    ∷ (b'0' + y / 10 % 10)
    ∷ (b'0' + y % 10)
    ∷ b'-'
    ∷ (b'0' + mon / 10)
    ∷ (b'0' + mon % 10)
    ∷ b'-'
    ∷ (b'0' + d / 10)
    ∷ (b'0' + d % 10)
    ∷ []

module _ (m : Mysql) (malloc : Malloc) where
  -- MYSQL_TYPE_TIMESTAMP
  unfoldable pub get_timestamp : Option Bytes → Value → Decoded
  get_timestamp none v = ok (0, v)
  get_timestamp (some p) v = do
    w ← load 4 p
    v' ← print_value malloc timestamp 16 (unsigned_text (m.uint4korr w)) v
    ok (4, v')

  -- MYSQL_TYPE_TIMESTAMP2
  unfoldable pub get_timestamp2 : Option Bytes → ℕ → Value → Decoded
  get_timestamp2 none meta v = ok (0, v)
  get_timestamp2 (some p) meta v = do
    w ← load (m.timestamp_length meta) p
    v' ← copy_value malloc timestamp2 (m.timestamp_text w meta) v
    ok (m.timestamp_length meta, v')

  -- MYSQL_TYPE_DATETIME
  unfoldable pub get_datetime : Option Bytes → Value → Decoded
  get_datetime none v = ok (0, v)
  get_datetime (some p) v = do
    w ← load 8 p
    v' ← print_value malloc datetime 32 (datetime_text (m.uint8korr w)) v
    ok (8, v')

  -- MYSQL_TYPE_DATETIME2
  unfoldable pub get_datetime2 : Option Bytes → ℕ → Value → Decoded
  get_datetime2 none meta v = ok (0, v)
  get_datetime2 (some p) meta v = do
    w ← load (m.datetime_length meta) p
    v' ← copy_value malloc datetime2 (m.datetime_text w meta) v
    ok (m.datetime_length meta, v')

  -- MYSQL_TYPE_TIME
  unfoldable pub get_time : Option Bytes → Value → Decoded
  get_time none v = ok (0, v)
  get_time (some p) v = do
    w ← load 3 p
    v' ← print_value malloc time 16 (time_text (m.uint3korr w)) v
    ok (3, v')

  -- MYSQL_TYPE_TIME2
  unfoldable pub get_time2 : Option Bytes → ℕ → Value → Decoded
  get_time2 none meta v = ok (0, v)
  get_time2 (some p) meta v = do
    w ← load (m.time_length meta) p
    v' ← copy_value malloc time2 (m.time_text w meta) v
    ok (m.time_length meta, v')

  -- MYSQL_TYPE_NEWDATE
  unfoldable pub get_newdate : Option Bytes → Value → Decoded
  get_newdate none v = ok (0, v)
  get_newdate (some p) v = do
    w ← load 3 p
    v' ← copy_value malloc newdate (newdate_text (m.uint3korr w)) v
    ok (3, v')

  -- MYSQL_TYPE_YEAR
  unfoldable pub get_year : Option Bytes → Value → Decoded
  get_year none v = ok (0, v)
  get_year (some p) v = do
    c ← deref p
    v' ← print_value malloc year 16 (padded_text 4 (c + 1900)) v
    ok (1, v')
