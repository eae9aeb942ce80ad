-- ===== src/Rows/Progress.antt =====
-- The rounds of the loop in get_rows, against its fuel (rows_log_event_2/rows_log_event_2.cc).
use mysql_replication_c.Base.{
  ℕ, zero, suc, ◌+◌, ◌-◌, ◌<◌, ◌≤◌, ◌≢◌, none, some, ltb, ltb→lt, ◌==◌, Bool-cases, inl, inr,
  if◌then◌else◌, length, arith,
}
use mysql_replication_c.Base.Outcome.{Outcome, ok, err, fault, ◌>>=◌}
use mysql_replication_c.Block.{Malloc}
use mysql_replication_c.Row.{Message}
use mysql_replication_c.Mysql.{Mysql}
use mysql_replication_c.Rows.{Rows, RowsEvent, TableDef, update_ai}
use mysql_replication_c.Rows.Image.{get_one_row_values}
use mysql_replication_c.Rows.Loop.{
  TblInfo, Round, leave, next, first_image, has_second_image, second_image, one_round, rows_loop,
}

-- A round that goes on does so behind an offset.
abbrev Grows : ℕ → Outcome Message Round → Type 0
Grows value (ok (next v y)) = value < v
Grows value (ok (leave y)) = Unit {0}
Grows value (err e) = Unit {0}
Grows value fault = Unit {0}

Grows-leave :
    (value low : ℕ) (r : ℕ × Rows)
    → low ≤ value
    → Grows low (ok (if r.0 == 0 then leave r.1 else next (value + r.0) r.1))
Grows-leave value low r h = elim (Bool-cases (r.0 == 0)) [
  | inl a ↦ rw a tt
  | inr a ↦ rw a (ground arith)
]

module _ (m : Mysql) (heap : ℕ → Malloc) (ev : RowsEvent) (td : TableDef) (info : TblInfo) where
  second_image-Grows :
      (value low : ℕ) (x : Rows) → low ≤ value → Grows low (second_image m heap ev td info value x)
  unfolding second_image
  second_image-Grows value low x h =
      given (get_one_row_values m heap ev td ev.cols_ai update_ai info.columns value x)
    where
      given :
          (o : Outcome Message (ℕ × Rows))
          → Grows low (o >>= λ r. ok (if r.0 == 0 then leave r.1 else next (value + r.0) r.1))
      given (ok r) = Grows-leave value low r h
      given (err e) = tt
      given fault = tt

  one_round-Grows : (value : ℕ) (x : Rows) → Grows value (one_round m heap ev td info value x)
  unfolding one_round
  one_round-Grows value x = given (
      get_one_row_values m heap ev td ev.cols (first_image ev.general_type_code) info.columns value
        x)
    where
      behind :
          (r : ℕ × Rows)
          → Grows value (
              if r.0 == 0
              then ok (leave r.1)
              else if has_second_image ev.general_type_code
              then second_image m heap ev td info (value + r.0) r.1
              else ok (next (value + r.0) r.1))
      behind r = elim (Bool-cases (r.0 == 0)) [
        | inl a ↦ rw a tt
        | inr a ↦ elim (Bool-cases (has_second_image ev.general_type_code)) [
          | inl b ↦ rw (a, b) (second_image-Grows (value + r.0) value r.1 (omega arith))
          | inr b ↦ rw (a, b) (ground arith)
        ]
      ]

      given :
          (o : Outcome Message (ℕ × Rows))
          → Grows value (
              o >>= λ r.
              if r.0 == 0
              then ok (leave r.1)
              else if has_second_image ev.general_type_code
              then second_image m heap ev td info (value + r.0) r.1
              else ok (next (value + r.0) r.1))
      given (ok r) = behind r
      given (err e) = tt
      given fault = tt

  after_round :
      (f value : ℕ)
      → ((v : ℕ) (y : Rows) → value < v → rows_loop m heap ev td info f v y ≢ none)
      → (o : Outcome Message Round) → Grows value o
      → (elim o [
        | ok (leave y) ↦ some (ok y)
        | ok (next v y) ↦ rows_loop m heap ev td info f v y
        | err e ↦ some (err e)
        | fault ↦ some fault
      ])
        ≢ none
  after_round f value rest (ok (leave y)) g = λ e. cc
  after_round f value rest (ok (next v y)) g = rest v y g
  after_round f value rest (err e) g = λ e. cc
  after_round f value rest fault g = λ e. cc

  -- The loop over the rows of an event ends in a result, success or not, with any fuel above the
  -- number of bytes that are left; so the fuel that all_rows gives is enough.
  pub rows_loop-ends :
      (f value : ℕ) (x : Rows)
      → length ev.rows_buf - value < f
      → rows_loop m heap ev td info f value x ≢ none
  unfolding rows_loop
  rows_loop-ends zero value x h = absurd (omega arith)
  rows_loop-ends (suc f) value x h = elim (Bool-cases (ltb value (length ev.rows_buf))) [
    | inl a ↦ rw a (
        after_round f value
          (λ v y g. rows_loop-ends f v y (
            let low : value < length ev.rows_buf = ltb→lt value (length ev.rows_buf) a in
            omega (arith, g)))
          (one_round m heap ev td info value x) (one_round-Grows value x))
    | inr a ↦ rw a (λ e. cc)
  ]
