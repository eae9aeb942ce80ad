-- ===== src/Decode/FixedWidths.antt =====
-- The types of log_event_get_value_2 (rows_log_event_2/rows_log_event_2.cc) whose values take as many
-- bytes as the type and the metadata of the column say.
use mysql_replication_c.Base.{
  ℕ, ◌+◌, ◌*◌, ◌/◌, ◌%◌, ◌≤◌, ◌≡◌, refl, some, ◌==◌, ==_iff, length, arith, Bool-cases, inl, inr,
}
use mysql_replication_c.Text.{Bytes}
use mysql_replication_c.Block.{Malloc}
use mysql_replication_c.Row.{
  Value, ColInfo, timestamp, datetime, time, newdate, year, enum, newdecimal, float, double,
  timestamp2, datetime2, time2,
}
use mysql_replication_c.Mysql.{Mysql}
use mysql_replication_c.Decode.Numbers.{
  get_long, get_tiny, get_short, get_int24, get_longlong, get_newdecimal, get_float, get_double,
}
use mysql_replication_c.Decode.Times.{
  get_timestamp, get_timestamp2, get_datetime, get_datetime2, get_time, get_time2, get_newdate,
  get_year,
}
use mysql_replication_c.Decode.Strings.{get_bit, get_enum_1, get_enum_2, get_enum, get_set}
use mysql_replication_c.Decode.BitText.{my_b_write_bit_lem}
use mysql_replication_c.Decode.Taking.{
  Takes, alloc-Takes, fresh-Takes, print-Takes, copy-Takes, load-Takes, deref-Takes,
}

module _ (m : Mysql) (malloc : Malloc) (p : Bytes) (v : Value) where
  pub long-Takes : (info : ColInfo) → 4 ≤ length p → Takes 4 (get_long m malloc (some p) v info)
  unfolding get_long
  long-Takes info h =
      alloc-Takes malloc 16 4 _ _ (load-Takes 4 4 p _ h (fresh-Takes 16 4 _ v (omega arith)))

  pub tiny-Takes : (info : ColInfo) → 1 ≤ length p → Takes 1 (get_tiny m malloc (some p) v info)
  unfolding get_tiny
  tiny-Takes info h =
      alloc-Takes malloc 16 1 _ _ (deref-Takes 1 p _ h (λ c. fresh-Takes 16 1 _ v (omega arith)))

  pub short-Takes : (info : ColInfo) → 2 ≤ length p → Takes 2 (get_short m malloc (some p) v info)
  unfolding get_short
  short-Takes info h =
      alloc-Takes malloc 16 2 _ _ (load-Takes 2 2 p _ h (fresh-Takes 16 2 _ v (omega arith)))

  pub int24-Takes : (info : ColInfo) → 3 ≤ length p → Takes 3 (get_int24 m malloc (some p) v info)
  unfolding get_int24
  int24-Takes info h =
      alloc-Takes malloc 16 3 _ _ (load-Takes 3 3 p _ h (fresh-Takes 16 3 _ v (omega arith)))

  pub longlong-Takes :
      (info : ColInfo) → 8 ≤ length p → Takes 8 (get_longlong m malloc (some p) v info)
  unfolding get_longlong
  longlong-Takes info h =
      alloc-Takes malloc 32 8 _ _ (load-Takes 8 8 p _ h (fresh-Takes 32 8 _ v (omega arith)))

  pub newdecimal-Takes :
      (meta : ℕ)
      → m.decimal_size (meta / 256) (meta % 256) ≤ length p
      → Takes (m.decimal_size (meta / 256) (meta % 256)) (get_newdecimal m malloc (some p) meta v)
  unfolding get_newdecimal
  newdecimal-Takes meta h = load-Takes _ _ p _ h (copy-Takes malloc newdecimal _ _ v)

  pub float-Takes : 4 ≤ length p → Takes 4 (get_float m malloc (some p) v)
  unfolding get_float
  float-Takes h = load-Takes 4 4 p _ h (copy-Takes malloc float 4 _ v)

  pub double-Takes : 8 ≤ length p → Takes 8 (get_double m malloc (some p) v)
  unfolding get_double
  double-Takes h = load-Takes 8 8 p _ h (copy-Takes malloc double 8 _ v)

  pub timestamp-Takes : 4 ≤ length p → Takes 4 (get_timestamp m malloc (some p) v)
  unfolding get_timestamp
  timestamp-Takes h = load-Takes 4 4 p _ h (print-Takes malloc timestamp 16 4 _ v (omega arith))

  pub timestamp2-Takes :
      (meta : ℕ)
      → m.timestamp_length meta ≤ length p
      → Takes (m.timestamp_length meta) (get_timestamp2 m malloc (some p) meta v)
  unfolding get_timestamp2
  timestamp2-Takes meta h = load-Takes _ _ p _ h (copy-Takes malloc timestamp2 _ _ v)

  pub datetime-Takes : 8 ≤ length p → Takes 8 (get_datetime m malloc (some p) v)
  unfolding get_datetime
  datetime-Takes h = load-Takes 8 8 p _ h (print-Takes malloc datetime 32 8 _ v (omega arith))

  pub datetime2-Takes :
      (meta : ℕ)
      → m.datetime_length meta ≤ length p
      → Takes (m.datetime_length meta) (get_datetime2 m malloc (some p) meta v)
  unfolding get_datetime2
  datetime2-Takes meta h = load-Takes _ _ p _ h (copy-Takes malloc datetime2 _ _ v)

  pub time-Takes : 3 ≤ length p → Takes 3 (get_time m malloc (some p) v)
  unfolding get_time
  time-Takes h = load-Takes 3 3 p _ h (print-Takes malloc time 16 3 _ v (omega arith))

  pub time2-Takes :
      (meta : ℕ)
      → m.time_length meta ≤ length p
      → Takes (m.time_length meta) (get_time2 m malloc (some p) meta v)
  unfolding get_time2
  time2-Takes meta h = load-Takes _ _ p _ h (copy-Takes malloc time2 _ _ v)

  pub newdate-Takes : 3 ≤ length p → Takes 3 (get_newdate m malloc (some p) v)
  unfolding get_newdate
  newdate-Takes h = load-Takes 3 3 p _ h (copy-Takes malloc newdate 3 _ v)

  pub year-Takes : 1 ≤ length p → Takes 1 (get_year m malloc (some p) v)
  unfolding get_year
  year-Takes h = deref-Takes 1 p _ h (λ c. print-Takes malloc year 16 1 _ v (omega arith))

  pub bit-Takes :
      (meta : ℕ)
      → (meta / 256 * 8 + meta % 256 + 7) / 8 ≤ length p
      → Takes ((meta / 256 * 8 + meta % 256 + 7) / 8) (get_bit m malloc (some p) meta v)
  unfolding get_bit
  bit-Takes meta h =
      let nbits = meta / 256 * 8 + meta % 256 in
      alloc-Takes malloc (nbits + 4) _ _ _
        (rw (my_b_write_bit_lem nbits (nbits + 4) p h (omega arith)) refl)

  pub enum-Takes :
      (meta : ℕ) → meta % 256 ≤ length p → Takes (meta % 256) (get_enum m malloc (some p) meta v)
  unfolding get_enum get_enum_1 get_enum_2
  enum-Takes meta h = elim (Bool-cases (meta % 256 == 1)) [
    | inl a ↦
        let e : meta % 256 ≡ 1 = (==_iff (meta % 256) 1).0 a in
        rw e (
          deref-Takes 1 p _ (omega (arith, h, e))
            (λ c. print-Takes malloc enum 16 1 _ v (omega arith)))
    | inr a ↦ elim (Bool-cases (meta % 256 == 2)) [
      | inl b ↦
          let e : meta % 256 ≡ 2 = (==_iff (meta % 256) 2).0 b in
          rw e (
            load-Takes 2 2 p _ (omega (arith, h, e))
              (print-Takes malloc enum 16 2 _ v (omega arith)))
      | inr b ↦ rw (a, b) tt
    ]
  ]

  pub set-Takes :
      (meta : ℕ) → meta % 256 ≤ length p → Takes (meta % 256) (get_set m malloc (some p) meta v)
  unfolding get_set
  set-Takes meta h =
      let n = meta % 256 * 8 in
      alloc-Takes malloc (n + 4) _ _ _
        (rw (my_b_write_bit_lem n (n + 4) p (omega (arith, h)) (omega arith)) refl)
