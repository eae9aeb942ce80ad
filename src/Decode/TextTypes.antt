-- ===== src/Decode/TextTypes.antt =====
-- The values of the number, time, bit and string types that log_event_get_value_2
-- (rows_log_event_2/rows_log_event_2.cc) gives out hold C strings.
use mysql_replication_c.Base.{ℕ, ◌+◌, ◌%◌, [], Option, none, some, ltb, ◌==◌, Bool-cases, inl, inr}
use mysql_replication_c.Base.Outcome.{Holds, Holds-bind, Holds-after}
use mysql_replication_c.Text.{Bytes}
use mysql_replication_c.Block.{Block, Malloc, alloc, snprintf, load, deref, memset_zero}
use mysql_replication_c.Row.{
  ColumnType, tiny, short, long, float, double, timestamp, longlong, int24, time, datetime, year,
  newdate, varchar, timestamp2, datetime2, time2, newdecimal, enum, string, Value, ColInfo,
  no_memory_for_value,
}
use mysql_replication_c.Mysql.{Mysql}
use mysql_replication_c.Decode.Bits.{print_chars, my_b_print_with_length_2, advance}
use mysql_replication_c.Decode.Numbers.{
  get_long, get_tiny, get_short, get_int24, get_longlong, get_newdecimal, get_float, get_double,
}
use mysql_replication_c.Decode.Times.{
  get_timestamp, get_timestamp2, get_datetime, get_datetime2, get_time, get_time2, get_newdate,
  get_year,
}
use mysql_replication_c.Decode.Strings.{
  get_bit, get_enum_1, get_enum_2, get_enum, get_set, read_real_len, print_string, get_varchar,
  get_string,
}
use mysql_replication_c.Decode.Ending.{HasNul, snprintf-HasNul}
use mysql_replication_c.Decode.TextSteps.{
  IsText, Gives, copy-Gives, my_b_write_bit_2-Ends, print-Gives, print_chars-Ends, set_text-Gives,
  skip,
}

module _ (m : Mysql) (malloc : Malloc) (v : Value) (h : IsText v) where
  pub long-Gives : (p : Option Bytes) (info : ColInfo) → Gives (get_long m malloc p v info)
  unfolding get_long
  long-Gives none info = h
  long-Gives (some p) info =
      skip (alloc malloc 16 (no_memory_for_value long)) _
        (λ b. skip (load 4 p) _ (λ w. set_text-Gives 4 v _ (snprintf-HasNul b 0 16 _)))

  pub tiny-Gives : (p : Option Bytes) (info : ColInfo) → Gives (get_tiny m malloc p v info)
  unfolding get_tiny
  tiny-Gives none info = h
  tiny-Gives (some p) info =
      skip (alloc malloc 16 (no_memory_for_value tiny)) _
        (λ b. skip (deref p) _ (λ w. set_text-Gives 1 v _ (snprintf-HasNul b 0 16 _)))

  pub short-Gives : (p : Option Bytes) (info : ColInfo) → Gives (get_short m malloc p v info)
  unfolding get_short
  short-Gives none info = h
  short-Gives (some p) info =
      skip (alloc malloc 16 (no_memory_for_value short)) _
        (λ b. skip (load 2 p) _ (λ w. set_text-Gives 2 v _ (snprintf-HasNul b 0 16 _)))

  pub int24-Gives : (p : Option Bytes) (info : ColInfo) → Gives (get_int24 m malloc p v info)
  unfolding get_int24
  int24-Gives none info = h
  int24-Gives (some p) info =
      skip (alloc malloc 16 (no_memory_for_value int24)) _
        (λ b. skip (load 3 p) _ (λ w. set_text-Gives 3 v _ (snprintf-HasNul b 0 16 _)))

  pub longlong-Gives : (p : Option Bytes) (info : ColInfo) → Gives (get_longlong m malloc p v info)
  unfolding get_longlong
  longlong-Gives none info = h
  longlong-Gives (some p) info =
      skip (alloc malloc 32 (no_memory_for_value longlong)) _
        (λ b. skip (load 8 p) _ (λ w. set_text-Gives 8 v _ (snprintf-HasNul b 0 32 _)))

  pub newdecimal-Gives : (p : Option Bytes) (meta : ℕ) → Gives (get_newdecimal m malloc p meta v)
  unfolding get_newdecimal
  newdecimal-Gives none meta = h
  newdecimal-Gives (some p) meta = skip _ _ (λ w. copy-Gives malloc newdecimal _ _ v)

  pub float-Gives : (p : Option Bytes) → Gives (get_float m malloc p v)
  unfolding get_float
  float-Gives none = h
  float-Gives (some p) = skip _ _ (λ w. copy-Gives malloc float 4 _ v)

  pub double-Gives : (p : Option Bytes) → Gives (get_double m malloc p v)
  unfolding get_double
  double-Gives none = h
  double-Gives (some p) = skip _ _ (λ w. copy-Gives malloc double 8 _ v)

  pub timestamp-Gives : (p : Option Bytes) → Gives (get_timestamp m malloc p v)
  unfolding get_timestamp
  timestamp-Gives none = h
  timestamp-Gives (some p) = skip _ _ (λ w. print-Gives malloc timestamp 16 4 _ v)

  pub timestamp2-Gives : (p : Option Bytes) (meta : ℕ) → Gives (get_timestamp2 m malloc p meta v)
  unfolding get_timestamp2
  timestamp2-Gives none meta = h
  timestamp2-Gives (some p) meta = skip _ _ (λ w. copy-Gives malloc timestamp2 _ _ v)

  pub datetime-Gives : (p : Option Bytes) → Gives (get_datetime m malloc p v)
  unfolding get_datetime
  datetime-Gives none = h
  datetime-Gives (some p) = skip _ _ (λ w. print-Gives malloc datetime 32 8 _ v)

  pub datetime2-Gives : (p : Option Bytes) (meta : ℕ) → Gives (get_datetime2 m malloc p meta v)
  unfolding get_datetime2
  datetime2-Gives none meta = h
  datetime2-Gives (some p) meta = skip _ _ (λ w. copy-Gives malloc datetime2 _ _ v)

  pub time-Gives : (p : Option Bytes) → Gives (get_time m malloc p v)
  unfolding get_time
  time-Gives none = h
  time-Gives (some p) = skip _ _ (λ w. print-Gives malloc time 16 3 _ v)

  pub time2-Gives : (p : Option Bytes) (meta : ℕ) → Gives (get_time2 m malloc p meta v)
  unfolding get_time2
  time2-Gives none meta = h
  time2-Gives (some p) meta = skip _ _ (λ w. copy-Gives malloc time2 _ _ v)

  pub newdate-Gives : (p : Option Bytes) → Gives (get_newdate m malloc p v)
  unfolding get_newdate
  newdate-Gives none = h
  newdate-Gives (some p) = skip _ _ (λ w. copy-Gives malloc newdate 3 _ v)

  pub year-Gives : (p : Option Bytes) → Gives (get_year m malloc p v)
  unfolding get_year
  year-Gives none = h
  year-Gives (some p) = skip _ _ (λ c. print-Gives malloc year 16 1 _ v)

  pub bit-Gives : (p : Option Bytes) (meta : ℕ) → Gives (get_bit m malloc p meta v)
  unfolding get_bit
  bit-Gives none meta = h
  bit-Gives (some p) meta = skip _ _ (λ b. set_text-Gives _ v _ (my_b_write_bit_2-Ends p _ b))

  pub set-Gives : (p : Option Bytes) (meta : ℕ) → Gives (get_set m malloc p meta v)
  unfolding get_set
  set-Gives none meta = h
  set-Gives (some p) meta = skip _ _ (λ b. set_text-Gives _ v _ (my_b_write_bit_2-Ends p _ b))

  pub enum_1-Gives : (p : Option Bytes) → Gives (get_enum_1 m malloc p v)
  unfolding get_enum_1
  enum_1-Gives none = h
  enum_1-Gives (some p) = skip _ _ (λ c. print-Gives malloc enum 16 1 _ v)

  pub enum_2-Gives : (p : Option Bytes) → Gives (get_enum_2 m malloc p v)
  unfolding get_enum_2
  enum_2-Gives none = h
  enum_2-Gives (some p) = skip _ _ (λ c. print-Gives malloc enum 16 2 _ v)

  pub enum-Gives : (p : Option Bytes) (meta : ℕ) → Gives (get_enum m malloc p meta v)
  unfolding get_enum
  enum-Gives p meta = elim (Bool-cases (meta % 256 == 1)) [
    | inl a ↦ rw a (enum_1-Gives p)
    | inr a ↦ elim (Bool-cases (meta % 256 == 2)) [
      | inl b ↦ rw (a, b) (enum_2-Gives p)
      | inr b ↦ rw (a, b) tt
    ]
  ]

  pub print_length-Ends :
      (p : Bytes) (n : ℕ) (b : Block)
      → Holds (λ r. HasNul r.1.bytes) (my_b_print_with_length_2 m p n b)
  unfolding my_b_print_with_length_2
  print_length-Ends p n b =
      Holds-bind (λ b'. HasNul b'.bytes) (λ r. HasNul r.1.bytes) (snprintf b 0 2 []) _
        (snprintf-HasNul b 0 2 [])
        (λ b' k. elim (Bool-cases (ltb n 256)) [
          | inl a ↦ rw a (
              Holds-after (λ r. HasNul r.1.bytes) (deref p) _
                (λ c.
                  Holds-after (λ r. HasNul r.1.bytes) (advance 1 p) _
                    (λ q.
                      Holds-bind (λ b'. HasNul b'.bytes) (λ r. HasNul r.1.bytes)
                        (print_chars c q b') _ (print_chars-Ends c q b' k) (λ b'' l. l))))
          | inr a ↦ rw a (
              Holds-after (λ r. HasNul r.1.bytes) (load 2 p) _
                (λ w.
                  Holds-after (λ r. HasNul r.1.bytes) (advance 2 p) _
                    (λ q.
                      Holds-bind (λ b'. HasNul b'.bytes) (λ r. HasNul r.1.bytes)
                        (print_chars (m.uint2korr w) q b') _
                        (print_chars-Ends (m.uint2korr w) q b' k) (λ b'' l. l))))
        ])

  pub print_string-Gives :
      (type : ColumnType) (p : Bytes) (n : ℕ) → Gives (print_string m malloc type p n v)
  unfolding print_string
  print_string-Gives type p n = skip (read_real_len m p n) _ (λ real_len.
      skip (alloc malloc (real_len + 16) (no_memory_for_value type)) _ (λ b.
        skip (memset_zero b (real_len + 16)) _ (λ b'.
          Holds-bind (λ r. HasNul r.1.bytes) (λ r. IsText r.1) (my_b_print_with_length_2 m p n b') _
            (print_length-Ends p n b') (λ r k. k))))

  pub varchar-Gives : (p : Option Bytes) (meta : ℕ) → Gives (get_varchar m malloc p meta v)
  unfolding get_varchar
  varchar-Gives none meta = h
  varchar-Gives (some p) meta = print_string-Gives varchar p meta

  pub string-Gives : (p : Option Bytes) (n : ℕ) → Gives (get_string m malloc p n v)
  unfolding get_string
  string-Gives none n = h
  string-Gives (some p) n = print_string-Gives string p n
