-- ===== src/Rows/Legible.antt =====
-- The cells of one row image (rows_log_event_2/rows_log_event_2.cc): each is null or holds a C string.
use mysql_replication_c.Base.{
  ℕ, zero, suc, ◌+◌, ◌-◌, ◌*◌, ◌^◌, Bool, List, [], ◌∷◌, ◌++◌, Option, none, some, ◌&&◌, ◌==◌,
  Bool-cases, inl, inr, if◌then◌else◌, length, replicate, All, get_elem?, set, drop,
}
use mysql_replication_c.Base.Int.{pos, u32}
use mysql_replication_c.Base.Outcome.{ok, Holds, Holds-bind, Holds-after, or_fault}
use mysql_replication_c.Block.{Malloc}
use mysql_replication_c.Row.{ColInfo, Value}
use mysql_replication_c.Row.{Message}
use mysql_replication_c.Mysql.{Mysql}
use mysql_replication_c.Decode.{log_event_get_value_2}
use mysql_replication_c.Decode.TextSteps.{IsText}
use mysql_replication_c.Decode.Texts.{log_event_get_value_2-Gives}
use mysql_replication_c.Rows.{
  Rows, RowsEvent, TableDef, RowImageType, Bitmap, blank, is_update_ai, is_update_bi, is_json,
}
use mysql_replication_c.Rows.Memory.{cells, grown_size, grow, old_cells, add_row_mem}
use mysql_replication_c.Rows.Image.{
  Scan, image_cells, set_image_cells, reader_bit, read_partial, check_size, present_column,
  one_column, columns, value_options, start_scan, get_one_row_values,
}

-- Every cell of both arrays.
abbrev pub IsLegible : Rows → Type 0
IsLegible x = All IsText (cells x.rows_l2) × All IsText (cells x.rows_after_l2)

get_elem-IsText :
    (vs : List Value) (i : ℕ)
    → All IsText vs
    → Holds {E = Message} IsText (or_fault (get_elem? vs i))
get_elem-IsText [] i h = tt
get_elem-IsText (v ∷ vs) zero h = h.0
get_elem-IsText (v ∷ vs) (suc i) h = get_elem-IsText vs i h.1

set-IsText :
    (vs : List Value) (i : ℕ) (v : Value) → All IsText vs → IsText v → All IsText (set vs i v)
set-IsText [] i v h k = tt
set-IsText (u ∷ vs) zero v h k = (k, h.1)
set-IsText (u ∷ vs) (suc i) v h k = (h.0, set-IsText vs i v h.1 k)

append-IsText : (vs ws : List Value) → All IsText vs → All IsText ws → All IsText (vs ++ ws)
append-IsText [] ws h k = k
append-IsText (v ∷ vs) ws h k = (h.0, append-IsText vs ws h.1 k)

blanks-IsText : (n : ℕ) → All IsText (replicate n blank)
blanks-IsText zero = tt
blanks-IsText (suc n) = (tt, blanks-IsText n)

image_cells-IsText :
    (image : RowImageType) (x : Rows) → IsLegible x → All IsText (image_cells image x)
image_cells-IsText image x h = elim (Bool-cases (is_update_ai image)) [
  | inl a ↦ rw a h.1
  | inr a ↦ rw a h.0
]

set_image_cells-IsLegible :
    (image : RowImageType) (vs : List Value) (x : Rows)
    → All IsText vs
    → IsLegible x
    → IsLegible (set_image_cells image vs x)
set_image_cells-IsLegible image vs x k h = elim (Bool-cases (is_update_ai image)) [
  | inl a ↦ rw a (h.0, k)
  | inr a ↦ rw a (k, h.1)
]

grow-IsText :
    (malloc : Malloc) (x : Rows) (old : Option (List Value))
    → All IsText (cells old)
    → Holds (λ vs. All IsText (cells vs)) (grow malloc x old)
unfolding grow
grow-IsText malloc x old h = elim (Bool-cases (malloc (grown_size x))) [
  | inr a ↦ rw a tt
  | inl a ↦ elim (Bool-cases (u32 (x.rows_count * x.col_count) == length (cells old))) [
    | inr b ↦ rw (a, b) tt
    | inl b ↦
        rw (a, b) (append-IsText (cells old) (replicate x.col_count blank) h (blanks-IsText _))
  ]
]

old_cells-IsText :
    (x : Rows) (old : Option (List Value))
    → All IsText (cells old)
    → All IsText (cells (old_cells x old))
old_cells-IsText x old h = elim (Bool-cases (x.rows_count == 0)) [
  | inl a ↦ rw a tt
  | inr a ↦ rw a h
]

second_array-IsText :
    (malloc : Malloc) (x : Rows) (both : Bool)
    → All IsText (cells x.rows_after_l2)
    → Holds
        (λ vs. All IsText (cells vs))
        (if both then grow malloc x (old_cells x x.rows_after_l2) else ok x.rows_after_l2)
second_array-IsText malloc x both h = elim (Bool-cases both) [
  | inl a ↦ rw a (grow-IsText malloc x _ (old_cells-IsText x _ h))
  | inr a ↦ rw a h
]

add_row_mem-IsLegible :
    (heap : ℕ → Malloc) (x : Rows) (image : RowImageType)
    → IsLegible x
    → Holds IsLegible (add_row_mem heap x image)
unfolding add_row_mem
add_row_mem-IsLegible heap x image h = elim (Bool-cases (is_update_ai image)) [
  | inl a ↦ rw a h
  | inr a ↦ rw a (
      Holds-bind (λ vs. All IsText (cells vs)) IsLegible
        (grow (heap x.clock) x (old_cells x x.rows_l2)) _
        (grow-IsText (heap x.clock) x _ (old_cells-IsText x x.rows_l2 h.0))
        (λ l2 k.
          Holds-bind (λ vs. All IsText (cells vs)) IsLegible
            (if is_update_bi image
              then grow (heap (x.clock + 1)) x (old_cells x x.rows_after_l2)
              else ok x.rows_after_l2)
            _ (second_array-IsText (heap (x.clock + 1)) x (is_update_bi image) h.1)
            (λ after j. (k, j))))
]

module _ (m : Mysql) (heap : ℕ → Malloc) (ev : RowsEvent) (td : TableDef) (bitmap : Bitmap)
    (image : RowImageType) (info : List ColInfo) where
  abbrev Legible : Scan → Type 0
  Legible t = IsLegible t.x

  present_column-Legible :
      (nulls base : ℕ) (is_partial : Bool) (i : ℕ) (s : Scan)
      → Legible s
      → Holds Legible (present_column m heap ev td bitmap image info nulls base is_partial i s)
  unfolding present_column
  present_column-Legible nulls base is_partial i s h =
      Holds-after Legible (reader_bit m heap ev td bitmap image info nulls s.null_count) _
        (λ is_null.
          Holds-after Legible (check_size m heap ev td bitmap image info is_null i s) _ (λ checked.
            Holds-bind IsText Legible (or_fault (get_elem? (image_cells image s.x) (base + i))) _
              (get_elem-IsText (image_cells image s.x) (base + i) (image_cells-IsText image s.x h))
              (λ cell text. Holds-after Legible (or_fault (get_elem? info i)) _ (λ col.
                Holds-bind (λ r. IsText r.1) Legible
                  (log_event_get_value_2 m (heap s.x.clock)
                    (if is_null then none else some (drop s.value ev.rows_buf)) (td.type i)
                    (td.field_metadata i) is_partial (record cell { len = pos 0 }) col
                    s.x.display_blobs)
                  _
                  (log_event_get_value_2-Gives m (heap s.x.clock) (record cell { len = pos 0 }) text
                    (if is_null then none else some (drop s.value ev.rows_buf)) (td.type i)
                    (td.field_metadata i) is_partial col s.x.display_blobs)
                  (λ r k.
                    set_image_cells-IsLegible image (set (image_cells image s.x) (base + i) r.1) s.x
                      (set-IsText (image_cells image s.x) (base + i) r.1
                        (image_cells-IsText image s.x h) k)
                      h)))))

  read_partial-Legible :
      (has_partial : Bool) (start i : ℕ) (s : Scan)
      → Legible s
      → Holds (λ p. Legible p.1) (read_partial m heap ev td bitmap image info has_partial start i s)
  unfolding read_partial
  read_partial-Legible has_partial start i s h =
      elim (Bool-cases (has_partial && (is_update_ai image && is_json (td.type i)))) [
        | inl a ↦ rw a (
            Holds-after (λ p. Legible p.1)
              (reader_bit m heap ev td bitmap image info start s.partial_count) _ (λ b. h))
        | inr a ↦ rw a h
      ]

  one_column-Legible :
      (has_partial : Bool) (partials nulls base i : ℕ) (s : Scan)
      → Legible s
      → Holds Legible
          (one_column m heap ev td bitmap image info has_partial partials nulls base i s)
  unfolding one_column
  one_column-Legible has_partial partials nulls base i s h =
      Holds-bind (λ p. Legible p.1) Legible
        (read_partial m heap ev td bitmap image info has_partial partials i s) _
        (read_partial-Legible has_partial partials i s h)
        (λ p k. elim (Bool-cases (bitmap.is_set i)) [
          | inl a ↦ rw a (present_column-Legible nulls base p.0 i p.1 k)
          | inr a ↦ rw a k
        ])

  columns-Legible :
      (has_partial : Bool) (partials nulls base n i : ℕ) (s : Scan)
      → Legible s
      → Holds Legible (columns m heap ev td bitmap image info has_partial partials nulls base n i s)
  unfolding columns
  columns-Legible has_partial partials nulls base zero i s h = h
  columns-Legible has_partial partials nulls base (suc n) i s h =
      Holds-bind Legible Legible
        (one_column m heap ev td bitmap image info has_partial partials nulls base i s) _
        (one_column-Legible has_partial partials nulls base i s h)
        (λ t k. columns-Legible has_partial partials nulls base n (i + 1) t k)

  pub get_one_row_values-IsLegible :
      (value0 : ℕ) (x : Rows)
      → IsLegible x
      → Holds (λ r. IsLegible r.1) (get_one_row_values m heap ev td bitmap image info value0 x)
  unfolding get_one_row_values
  get_one_row_values-IsLegible value0 x h =
      Holds-after (λ r. IsLegible r.1) (value_options m heap ev td bitmap image info value0) _
        (λ o.
          Holds-bind IsLegible (λ r. IsLegible r.1) (add_row_mem heap x image) _
            (add_row_mem-IsLegible heap x image h)
            (λ y k.
              Holds-bind Legible (λ r. IsLegible r.1)
                (columns m heap ev td bitmap image info o.0 o.1 o.2
                  (u32 (u32 (y.rows_count + 2 ^ 32 - 1) * y.col_count)) td.size 0
                  (start_scan bitmap o.2 y))
                _
                (columns-Legible o.0 o.1 o.2 (u32 (u32 (y.rows_count + 2 ^ 32 - 1) * y.col_count))
                  td.size 0 (start_scan bitmap o.2 y) k)
                (λ t j. j)))
