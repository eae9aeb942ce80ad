-- ===== src/Rows/Untouched.antt =====
-- The cells that a row image leaves alone: those of other rows, and those of the columns that are
-- not in it (get_one_row_values in rows_log_event_2/rows_log_event_2.cc).

use mysql_replication_c.Base.{
  ℕ, zero, suc, ◌+◌, ◌<◌, ◌≤◌, ◌≡◌, ◌≢◌, refl, ap, ◌∙◌, Bool, true, List, [], ◌∷◌, none, some, ◌&&◌,
  Bool-cases, inl, inr, if◌then◌else◌, set, get_elem?, drop, arith,
}
use mysql_replication_c.Base.Int.{pos}
use mysql_replication_c.Base.Outcome.{Holds, Holds-bind, Holds-weaken, Holds-after, or_fault}
use mysql_replication_c.Block.{Malloc}
use mysql_replication_c.Row.{ColInfo, Value}
use mysql_replication_c.Mysql.{Mysql}
use mysql_replication_c.Decode.{log_event_get_value_2}
use mysql_replication_c.Rows.{
  Rows, RowsEvent, TableDef, RowImageType, Bitmap, is_update_ai, is_json,
}
use mysql_replication_c.Rows.Image.{
  Scan, image_cells, set_image_cells, reader_bit, read_partial, check_size, present_column,
  one_column, columns,
}

get-set_other :
    (vs : List Value) (i q : ℕ) (v : Value) → q ≢ i → get_elem? (set vs i v) q ≡ get_elem? vs q
get-set_other [] i q v h = refl
get-set_other (u ∷ vs) zero zero v h = absurd (h refl)
get-set_other (u ∷ vs) zero (suc q) v h = refl
get-set_other (u ∷ vs) (suc i) zero v h = refl
get-set_other (u ∷ vs) (suc i) (suc q) v h = get-set_other vs i q v (λ e. h (ap suc e))

pub set_cells_lem :
    (image : RowImageType) (vs : List Value) (x : Rows)
    → image_cells image (set_image_cells image vs x) ≡ vs
set_cells_lem image vs x = elim (Bool-cases (is_update_ai image)) [
  | inl a ↦ rw a refl
  | inr a ↦ rw a refl
]

module _ (m : Mysql) (heap : ℕ → Malloc) (ev : RowsEvent) (td : TableDef) (bitmap : Bitmap)
    (image : RowImageType) (info : List ColInfo) (q : ℕ) where
  -- The cell `q` is as it was.
  abbrev pub Same : Scan → Scan → Type 0
  Same s t = get_elem? (image_cells image t.x) q ≡ get_elem? (image_cells image s.x) q

  present_column-Same :
      (nulls base : ℕ) (is_partial : Bool) (i : ℕ) (s : Scan)
      → q ≢ base + i
      → Holds (Same s) (present_column m heap ev td bitmap image info nulls base is_partial i s)
  unfolding present_column
  present_column-Same nulls base is_partial i s other =
      Holds-after (Same s) (reader_bit m heap ev td bitmap image info nulls s.null_count) _
        (λ is_null.
          Holds-after (Same s) (check_size m heap ev td bitmap image info is_null i s) _ (λ checked.
            Holds-after (Same s) (or_fault (get_elem? (image_cells image s.x) (base + i))) _
              (λ cell. Holds-after (Same s) (or_fault (get_elem? info i)) _ (λ col.
                Holds-after (Same s)
                  (log_event_get_value_2 m (heap s.x.clock)
                    (if is_null then none else some (drop s.value ev.rows_buf)) (td.type i)
                    (td.field_metadata i) is_partial (record cell { len = pos 0 }) col
                    s.x.display_blobs)
                  _
                  (λ r.
                    ap (λ vs. get_elem? vs q)
                      (set_cells_lem image (set (image_cells image s.x) (base + i) r.1) s.x)
                    ∙ get-set_other (image_cells image s.x) (base + i) q r.1 other)))))

  read_partial-Same :
      (has_partial : Bool) (start i : ℕ) (s : Scan)
      → Holds (λ p. Same s p.1) (read_partial m heap ev td bitmap image info has_partial start i s)
  unfolding read_partial
  read_partial-Same has_partial start i s =
      elim (Bool-cases (has_partial && (is_update_ai image && is_json (td.type i)))) [
        | inl a ↦ rw a (
            Holds-after (λ p. Same s p.1)
              (reader_bit m heap ev td bitmap image info start s.partial_count) _ (λ b. refl))
        | inr a ↦ rw a refl
      ]

  -- `q` is not the cell of a column that the image has.
  abbrev pub Spares : ℕ → ℕ → ℕ → Type 0
  Spares base n i = (j : ℕ) → i ≤ j → j < i + n → bitmap.is_set j ≡ true → q ≢ base + j

  one_column-Same :
      (has_partial : Bool) (partials nulls base i : ℕ) (s : Scan)
      → (bitmap.is_set i ≡ true → q ≢ base + i)
      → Holds
          (Same s)
          (one_column m heap ev td bitmap image info has_partial partials nulls base i s)
  unfolding one_column
  one_column-Same has_partial partials nulls base i s other =
      Holds-bind (λ p. Same s p.1) (Same s)
        (read_partial m heap ev td bitmap image info has_partial partials i s) _
        (read_partial-Same has_partial partials i s)
        (λ p h. elim (Bool-cases (bitmap.is_set i)) [
          | inl a ↦ rw a (
              Holds-weaken (Same p.1) (Same s) _
                (present_column-Same nulls base p.0 i p.1 (other a)) (λ t k. k ∙ h))
          | inr a ↦ rw a h
        ])

  pub columns-Same :
      (has_partial : Bool) (partials nulls base n i : ℕ) (s : Scan)
      → Spares base n i
      → Holds
          (Same s)
          (columns m heap ev td bitmap image info has_partial partials nulls base n i s)
  unfolding columns
  columns-Same has_partial partials nulls base zero i s spares = refl
  columns-Same has_partial partials nulls base (suc n) i s spares =
      Holds-bind (Same s) (Same s)
        (one_column m heap ev td bitmap image info has_partial partials nulls base i s) _
        (one_column-Same has_partial partials nulls base i s
          (λ a. spares i (omega arith) (omega arith) a))
        (λ t h.
          Holds-weaken (Same t) (Same s) _
            (columns-Same has_partial partials nulls base n (i + 1) t
              (λ j low high a. spares j (omega (arith, low)) (omega (arith, high)) a))
            (λ u k. k ∙ h))
