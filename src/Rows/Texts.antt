-- ===== src/Rows/Texts.antt =====
-- The cells of get_rows (rows_log_event_2/rows_log_event_2.cc): each is null or holds a C string.
use mysql_replication_c.Base.{
  ℕ, zero, suc, ◌+◌, ◌*◌, Option, none, some, ◌==◌, ltb, Bool-cases, inl, inr, if◌then◌else◌,
  length,
}
use mysql_replication_c.Base.Outcome.{Outcome, ok, err, fault, Holds, Holds-bind, Holds-after}
use mysql_replication_c.Block.{Malloc}
use mysql_replication_c.Row.{Message}
use mysql_replication_c.Mysql.{Mysql}
use mysql_replication_c.Rows.{Rows, RowsEvent, TableDef, update_ai}
use mysql_replication_c.Rows.Memory.{is_update, finish, pointer_size}
use mysql_replication_c.Rows.Image.{get_one_row_values}
use mysql_replication_c.Rows.Loop.{
  TblInfo, TableMap, Round, leave, next, first_image, has_second_image, second_image, one_round,
  rows_loop, all_rows, change_type, check_ndb_info, find_table_def, get_rows,
}
use mysql_replication_c.Rows.Legible.{IsLegible, get_one_row_values-IsLegible}

-- What a round ends in.
abbrev Left : Round → Type 0
Left (leave y) = IsLegible y
Left (next v y) = IsLegible y

Left-if :
    (n value : ℕ) (y : Rows) → IsLegible y → Left (if n == 0 then leave y else next (value + n) y)
Left-if n value y h = elim (Bool-cases (n == 0)) [ inl a ↦ rw a h | inr a ↦ rw a h ]

module _ (m : Mysql) (heap : ℕ → Malloc) (ev : RowsEvent) (td : TableDef) (info : TblInfo) where
  second_image-Left :
      (value : ℕ) (x : Rows) → IsLegible x → Holds Left (second_image m heap ev td info value x)
  unfolding second_image
  second_image-Left value x h =
      Holds-bind (λ r. IsLegible r.1) Left
        (get_one_row_values m heap ev td ev.cols_ai update_ai info.columns value x) _
        (get_one_row_values-IsLegible m heap ev td ev.cols_ai update_ai info.columns value x h)
        (λ r k. Left-if r.0 value r.1 k)

  one_round-Left :
      (value : ℕ) (x : Rows) → IsLegible x → Holds Left (one_round m heap ev td info value x)
  unfolding one_round
  one_round-Left value x h =
      Holds-bind (λ r. IsLegible r.1) Left
        (get_one_row_values m heap ev td ev.cols (first_image ev.general_type_code) info.columns
          value x)
        _
        (get_one_row_values-IsLegible m heap ev td ev.cols (first_image ev.general_type_code)
          info.columns value x h)
        (λ r k. elim (Bool-cases (r.0 == 0)) [
          | inl a ↦ rw a k
          | inr a ↦ elim (Bool-cases (has_second_image ev.general_type_code)) [
            | inl b ↦ rw (a, b) (second_image-Left (value + r.0) r.1 k)
            | inr b ↦ rw (a, b) k
          ]
        ])

  abbrev Ends : Option (Outcome Message Rows) → Type 0
  Ends none = Unit {0}
  Ends (some r) = Holds IsLegible r

  after_round :
      (f : ℕ)
      → ((v : ℕ) (y : Rows) → IsLegible y → Ends (rows_loop m heap ev td info f v y))
      → (o : Outcome Message Round) → Holds Left o
      → Ends (elim o [
        | ok (leave y) ↦ some (ok y)
        | ok (next v y) ↦ rows_loop m heap ev td info f v y
        | err e ↦ some (err e)
        | fault ↦ some fault
      ])
  after_round f rest (ok (leave y)) h = h
  after_round f rest (ok (next v y)) h = rest v y h
  after_round f rest (err e) h = tt
  after_round f rest fault h = tt

  rows_loop-Ends :
      (f value : ℕ) (x : Rows) → IsLegible x → Ends (rows_loop m heap ev td info f value x)
  unfolding rows_loop
  rows_loop-Ends zero value x h = tt
  rows_loop-Ends (suc f) value x h = elim (Bool-cases (ltb value (length ev.rows_buf))) [
    | inr a ↦ rw a h
    | inl a ↦ rw a (
        after_round f (λ v y k. rows_loop-Ends f v y k) (one_round m heap ev td info value x)
          (one_round-Left value x h))
  ]

  all_rows-IsLegible : (x : Rows) → IsLegible x → Holds IsLegible (all_rows m heap ev td info x)
  unfolding all_rows
  all_rows-IsLegible x h =
      ended (rows_loop m heap ev td info (length ev.rows_buf + 1) 0 x)
        (rows_loop-Ends (length ev.rows_buf + 1) 0 x h)
    where
      ended :
          (o : Option (Outcome Message Rows))
          → Ends o
          → Holds IsLegible (elim o [ none ↦ fault | some r ↦ r ])
      ended none h = tt
      ended (some r) h = h

finish-IsLegible : (heap : ℕ → Malloc) (x : Rows) → IsLegible x → Holds IsLegible (finish heap x)
unfolding finish
finish-IsLegible heap x h = elim (Bool-cases (heap x.clock (pointer_size * x.rows_count))) [
  | inr a ↦ rw a tt
  | inl a ↦ elim (Bool-cases (is_update x.type_code)) [
    | inr b ↦ rw (a, b) h
    | inl b ↦ elim (Bool-cases (heap (x.clock + 1) (pointer_size * x.rows_count))) [
      | inr c ↦ rw (a, b, c) tt
      | inl c ↦ rw (a, b, c) h
    ]
  ]
]

pub get_rows-IsLegible :
    (m : Mysql) (heap : ℕ → Malloc) (ev : RowsEvent) (map : Option TableMap) (x : Rows)
    (info : TblInfo)
    → IsLegible x
    → Holds IsLegible (get_rows m heap ev map x info)
unfolding get_rows
get_rows-IsLegible m heap ev map x info h =
    Holds-after IsLegible (change_type ev.general_type_code) _ (λ t.
      Holds-after IsLegible (check_ndb_info m ev.ndb_length) _ (λ checked.
        Holds-after IsLegible (find_table_def map info) _ (λ td.
          Holds-bind IsLegible IsLegible (all_rows m heap ev td info (record x { type_code = t })) _
            (all_rows-IsLegible m heap ev td info (record x { type_code = t }) h)
            (λ y k. finish-IsLegible heap y k))))
