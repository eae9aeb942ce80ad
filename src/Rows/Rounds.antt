-- ===== src/Rows/Rounds.antt =====
-- The arrays of cells over the rounds of get_rows (rows_log_event_2/rows_log_event_2.cc).

use mysql_replication_c.Base.{
  ℕ, zero, suc, ◌+◌, ◌^◌, ◌<◌, ◌≤◌, ◌≡◌, refl, Bool, false, Option, none, some, ◌==◌, ltb, ltb→lt,
  Bool-cases, inl, inr, if◌then◌else◌, length, arith,
}
use mysql_replication_c.Base.Outcome.{Outcome, ok, err, fault, Holds, Holds-bind}
use mysql_replication_c.Block.{Malloc}
use mysql_replication_c.Row.{Message}
use mysql_replication_c.Mysql.{Mysql}
use mysql_replication_c.Rows.{
  Rows, RowsEvent, RowsEventType, write_rows, delete_rows, update_rows, partial_update_rows,
  unknown_rows, TableDef, update_ai, is_update_ai, is_update_bi,
}
use mysql_replication_c.Rows.Image.{get_one_row_values}
use mysql_replication_c.Rows.Loop.{
  TblInfo, Round, leave, next, first_image, has_second_image, second_image, one_round, rows_loop,
  all_rows,
}
use mysql_replication_c.Rows.Growth.{Full, SameShape, Added}
use mysql_replication_c.Rows.Shape.{Full-SameShape, first_image-Added, second_image-SameShape}

pub first_image-is_first : (t : RowsEventType) → is_update_ai (first_image t) ≡ false
unfolding first_image
first_image-is_first write_rows = refl
first_image-is_first delete_rows = refl
first_image-is_first update_rows = refl
first_image-is_first partial_update_rows = refl
first_image-is_first unknown_rows = refl

-- What a round ends in: full arrays, and no more rows than bytes that were read.
abbrev pub Rounded : Bool → ℕ → Round → Type 0
Rounded both cols (leave y) = Full both cols y
Rounded both cols (next v y) = Full both cols y × (y.rows_count ≤ v)

pub Rounded-if :
    (both : Bool) (cols n value : ℕ) (y : Rows)
    → Full both cols y
    → y.rows_count ≤ value + 1
    → Rounded both cols (if n == 0 then leave y else next (value + n) y)
Rounded-if both cols n value y full h = elim (Bool-cases (n == 0)) [
  | inl a ↦ rw a full
  | inr a ↦ rw a (full, ground arith)
]

-- Whether the event has two images of each row.
abbrev pub both_images : RowsEvent → Bool
both_images ev = is_update_bi (first_image ev.general_type_code)

module _ (m : Mysql) (heap : ℕ → Malloc) (ev : RowsEvent) (td : TableDef) (info : TblInfo)
    (cols : ℕ) where
  second_image-Rounded :
      (value : ℕ) (x : Rows)
      → Full (both_images ev) cols x
      → x.rows_count ≤ value
      → Holds (Rounded (both_images ev) cols) (second_image m heap ev td info value x)
  unfolding second_image
  second_image-Rounded value x full h =
      Holds-bind (λ r. SameShape x r.1) (Rounded (both_images ev) cols)
        (get_one_row_values m heap ev td ev.cols_ai update_ai info.columns value x) _
        (second_image-SameShape m heap ev td ev.cols_ai info.columns value x)
        (λ r same.
          Rounded-if (both_images ev) cols r.0 value r.1
            (Full-SameShape (both_images ev) cols x r.1 same full) (omega (arith, same.0)))

  one_round-Rounded :
      (value : ℕ) (x : Rows)
      → value + 1 < 2 ^ 32
      → Full (both_images ev) cols x
      → x.rows_count ≤ value
      → Holds (Rounded (both_images ev) cols) (one_round m heap ev td info value x)
  unfolding one_round
  one_round-Rounded value x small full h =
      Holds-bind (λ r. Added (both_images ev) cols x r.1) (Rounded (both_images ev) cols)
        (get_one_row_values m heap ev td ev.cols (first_image ev.general_type_code) info.columns
          value x)
        _
        (first_image-Added m heap ev td ev.cols (first_image ev.general_type_code) info.columns cols
          value x (first_image-is_first ev.general_type_code) (omega arith) full)
        (λ r added. elim (Bool-cases (r.0 == 0)) [
          | inl a ↦ rw a added.2
          | inr a ↦ elim (Bool-cases (has_second_image ev.general_type_code)) [
            | inl b ↦
                let counted : r.1.rows_count ≤ value + r.0 = ground (arith, added.0) in
                rw (a, b) (second_image-Rounded (value + r.0) r.1 added.2 counted)
            | inr b ↦ rw (a, b) (added.2, (ground (arith, added.0)))
          ]
        ])

  abbrev Ends : Option (Outcome Message Rows) → Type 0
  Ends none = Unit {0}
  Ends (some r) = Holds (Full (both_images ev) cols) r

  after_round :
      (f : ℕ)
      → ((v : ℕ) (y : Rows)
          → Full (both_images ev) cols y
          → y.rows_count ≤ v
          → Ends (rows_loop m heap ev td info f v y))
      → (o : Outcome Message Round) → Holds (Rounded (both_images ev) cols) o
      → Ends (elim o [
        | ok (leave y) ↦ some (ok y)
        | ok (next v y) ↦ rows_loop m heap ev td info f v y
        | err e ↦ some (err e)
        | fault ↦ some fault
      ])
  after_round f rest (ok (leave y)) h = h
  after_round f rest (ok (next v y)) h = rest v y h.0 h.1
  after_round f rest (err e) h = tt
  after_round f rest fault h = tt

  rows_loop-Full :
      (f value : ℕ) (x : Rows)
      → length ev.rows_buf < 2 ^ 32
      → Full (both_images ev) cols x
      → x.rows_count ≤ value
      → Ends (rows_loop m heap ev td info f value x)
  unfolding rows_loop
  rows_loop-Full zero value x small full h = tt
  rows_loop-Full (suc f) value x small full h = elim (Bool-cases (ltb value (length ev.rows_buf))) [
    | inr a ↦ rw a full
    | inl a ↦
        let below : value < length ev.rows_buf = ltb→lt value (length ev.rows_buf) a in
        rw a (
          after_round f (λ v y g k. rows_loop-Full f v y small g k)
            (one_round m heap ev td info value x)
            (one_round-Rounded value x (omega (arith, below, small)) full h))
  ]

  pub all_rows-Full :
      (x : Rows)
      → length ev.rows_buf < 2 ^ 32
      → Full (both_images ev) cols x
      → x.rows_count ≡ 0
      → Holds (Full (both_images ev) cols) (all_rows m heap ev td info x)
  unfolding all_rows
  all_rows-Full x small full first =
      ended (rows_loop m heap ev td info (length ev.rows_buf + 1) 0 x)
        (rows_loop-Full (length ev.rows_buf + 1) 0 x small full (omega (arith, first)))
    where
      ended :
          (o : Option (Outcome Message Rows))
          → Ends o
          → Holds (Full (both_images ev) cols) (elim o [ none ↦ fault | some r ↦ r ])
      ended none h = tt
      ended (some r) h = h
