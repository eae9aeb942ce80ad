-- ===== src/Rows/Shape.antt =====
-- The arrays of cells over one row image (rows_log_event_2/rows_log_event_2.cc).

use mysql_replication_c.Base.{
  ℕ, zero, suc, ◌+◌, ◌-◌, ◌*◌, ◌^◌, ◌<◌, ◌≡◌, refl, ◌∙◌, Bool, false, List, none, some, ◌&&◌,
  Bool-cases, inl, inr, if◌then◌else◌, set, get_elem?, drop, length-set,
}
use mysql_replication_c.Base.Int.{pos, u32}
use mysql_replication_c.Base.Outcome.{Holds, Holds-bind, Holds-weaken, Holds-after, or_fault}
use mysql_replication_c.Block.{Malloc}
use mysql_replication_c.Row.{ColInfo, Value}
use mysql_replication_c.Mysql.{Mysql}
use mysql_replication_c.Decode.{log_event_get_value_2}
use mysql_replication_c.Rows.{
  Rows, RowsEvent, TableDef, RowImageType, Bitmap, is_update_ai, is_update_bi, is_json, update_ai,
}
use mysql_replication_c.Rows.Memory.{cells, add_row_mem}
use mysql_replication_c.Rows.Image.{
  Scan, image_cells, set_image_cells, reader_bit, read_partial, check_size, present_column,
  one_column, columns, value_options, start_scan, get_one_row_values,
}
use mysql_replication_c.Rows.Growth.{Full, SameShape, Added, add_row_mem_lem}

SameShape-trans : (x y z : Rows) → SameShape x y → SameShape y z → SameShape x z
SameShape-trans x y z p q = (q.0 ∙ p.0, q.1 ∙ p.1, q.2 ∙ p.2, q.3 ∙ p.3, q.4 ∙ p.4)

pub Full-SameShape :
    (both : Bool) (cols : ℕ) (x y : Rows) → SameShape x y → Full both cols x → Full both cols y
Full-SameShape both cols x y q h =
    rw (q.0, q.1, q.4) (q.2 ∙ h.0, (λ e. q.3 ∙ h.1 e), h.2, h.3, h.4, (λ e. q.3 ∙ h.5 e))

-- A write to a cell.
set_image_cells-SameShape :
    (image : RowImageType) (i : ℕ) (c : Value) (x : Rows)
    → SameShape x (set_image_cells image (set (image_cells image x) i c) x)
set_image_cells-SameShape image i c x = elim (Bool-cases (is_update_ai image)) [
  | inl a ↦ rw a (refl, refl, refl, length-set (cells x.rows_after_l2) i c, refl)
  | inr a ↦ rw a (refl, refl, length-set (cells x.rows_l2) i c, refl, refl)
]

module _ (m : Mysql) (heap : ℕ → Malloc) (ev : RowsEvent) (td : TableDef) (bitmap : Bitmap)
    (image : RowImageType) (info : List ColInfo) where
  abbrev Stays : Scan → Scan → Type 0
  Stays s t = SameShape s.x t.x

  present_column-Stays :
      (nulls base : ℕ) (is_partial : Bool) (i : ℕ) (s : Scan)
      → Holds (Stays s) (present_column m heap ev td bitmap image info nulls base is_partial i s)
  unfolding present_column
  present_column-Stays nulls base is_partial i s =
      Holds-after (Stays s) (reader_bit m heap ev td bitmap image info nulls s.null_count) _
        (λ is_null.
          Holds-after (Stays s) (check_size m heap ev td bitmap image info is_null i s) _
            (λ checked.
              Holds-after (Stays s) (or_fault (get_elem? (image_cells image s.x) (base + i))) _
                (λ cell. Holds-after (Stays s) (or_fault (get_elem? info i)) _ (λ col.
                  Holds-after (Stays s)
                    (log_event_get_value_2 m (heap s.x.clock)
                      (if is_null then none else some (drop s.value ev.rows_buf)) (td.type i)
                      (td.field_metadata i) is_partial (record cell { len = pos 0 }) col
                      s.x.display_blobs)
                    _ (λ r. set_image_cells-SameShape image (base + i) r.1 s.x)))))

  read_partial-Stays :
      (has_partial : Bool) (start i : ℕ) (s : Scan)
      → Holds (λ p. Stays s p.1) (read_partial m heap ev td bitmap image info has_partial start i s)
  unfolding read_partial
  read_partial-Stays has_partial start i s =
      elim (Bool-cases (has_partial && (is_update_ai image && is_json (td.type i)))) [
        | inl a ↦ rw a (
            Holds-after (λ p. Stays s p.1)
              (reader_bit m heap ev td bitmap image info start s.partial_count) _
              (λ b. (refl, refl, refl, refl, refl)))
        | inr a ↦ rw a (refl, refl, refl, refl, refl)
      ]

  one_column-Stays :
      (has_partial : Bool) (partials nulls base i : ℕ) (s : Scan)
      → Holds
          (Stays s)
          (one_column m heap ev td bitmap image info has_partial partials nulls base i s)
  unfolding one_column
  one_column-Stays has_partial partials nulls base i s =
      Holds-bind (λ p. Stays s p.1) (Stays s)
        (read_partial m heap ev td bitmap image info has_partial partials i s) _
        (read_partial-Stays has_partial partials i s)
        (λ p h. elim (Bool-cases (bitmap.is_set i)) [
          | inl a ↦ rw a (
              Holds-weaken (Stays p.1) (Stays s) _ (present_column-Stays nulls base p.0 i p.1)
                (λ t k. SameShape-trans s.x p.1.x t.x h k))
          | inr a ↦ rw a h
        ])

  columns-Stays :
      (has_partial : Bool) (partials nulls base n i : ℕ) (s : Scan)
      → Holds
          (Stays s)
          (columns m heap ev td bitmap image info has_partial partials nulls base n i s)
  unfolding columns
  columns-Stays has_partial partials nulls base zero i s = (refl, refl, refl, refl, refl)
  columns-Stays has_partial partials nulls base (suc n) i s =
      Holds-bind (Stays s) (Stays s)
        (one_column m heap ev td bitmap image info has_partial partials nulls base i s) _
        (one_column-Stays has_partial partials nulls base i s)
        (λ t h.
          Holds-weaken (Stays t) (Stays s) _
            (columns-Stays has_partial partials nulls base n (i + 1) t)
            (λ u k. SameShape-trans s.x t.x u.x h k))

  -- A first image adds a row.
  pub first_image-Added :
      (cols value0 : ℕ) (x : Rows)
      → is_update_ai image ≡ false
      → x.rows_count + 1 < 2 ^ 32
      → Full (is_update_bi image) cols x
      → Holds
          (λ r. Added (is_update_bi image) cols x r.1)
          (get_one_row_values m heap ev td bitmap image info value0 x)
  unfolding get_one_row_values
  first_image-Added cols value0 x first small full =
      Holds-after (λ r. Added (is_update_bi image) cols x r.1)
        (value_options m heap ev td bitmap image info value0) _
        (λ o.
          Holds-bind (Added (is_update_bi image) cols x)
            (λ r. Added (is_update_bi image) cols x r.1) (add_row_mem heap x image) _
            (add_row_mem_lem heap cols x image first small full)
            (λ y added.
              Holds-bind (λ t. SameShape y t.x) (λ r. Added (is_update_bi image) cols x r.1)
                (columns m heap ev td bitmap image info o.0 o.1 o.2
                  (u32 (u32 (y.rows_count + 2 ^ 32 - 1) * y.col_count)) td.size 0
                  (start_scan bitmap o.2 y))
                _
                (columns-Stays o.0 o.1 o.2 (u32 (u32 (y.rows_count + 2 ^ 32 - 1) * y.col_count))
                  td.size 0 (start_scan bitmap o.2 y))
                (λ t same. (
                  same.0 ∙ added.0,
                  same.1 ∙ added.1,
                  Full-SameShape (is_update_bi image) cols y t.x same added.2,
                ))))

-- A second image fills the row that the first one added.
pub second_image-SameShape :
    (m : Mysql) (heap : ℕ → Malloc) (ev : RowsEvent) (td : TableDef) (bitmap : Bitmap)
    (info : List ColInfo) (value0 : ℕ) (x : Rows)
    → Holds (λ r. SameShape x r.1) (get_one_row_values m heap ev td bitmap update_ai info value0 x)
unfolding get_one_row_values add_row_mem
second_image-SameShape m heap ev td bitmap info value0 x =
    Holds-after (λ r. SameShape x r.1) (value_options m heap ev td bitmap update_ai info value0) _
      (λ o.
        Holds-bind (λ t. SameShape x t.x) (λ r. SameShape x r.1)
          (columns m heap ev td bitmap update_ai info o.0 o.1 o.2
            (u32 (u32 (x.rows_count + 2 ^ 32 - 1) * x.col_count)) td.size 0
            (start_scan bitmap o.2 x))
          _
          (columns-Stays m heap ev td bitmap update_ai info o.0 o.1 o.2
            (u32 (u32 (x.rows_count + 2 ^ 32 - 1) * x.col_count)) td.size 0
            (start_scan bitmap o.2 x))
          (λ t same. same))
