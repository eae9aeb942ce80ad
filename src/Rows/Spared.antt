-- ===== src/Rows/Spared.antt =====
-- A first row image in the array of cells (get_one_row_values and repl_log_x_rows_add_row_mem in
-- rows_log_event_2/rows_log_event_2.cc).
use native.Mathlib.Nat.{zero-mul}
use mysql_replication_c.Base.{
  ℕ, ◌+◌, ◌-◌, ◌*◌, ◌^◌, ◌<◌, ◌≡◌, ◌≢◌, refl, sym, ap, ◌∙◌, true, false, List, [], ◌∷◌, ◌++◌,
  Option, ◌==◌, ==_iff, Bool-cases, ◌⊎◌, inl, inr, if◌then◌else◌, if_false, get_elem?, length,
  replicate, arith,
}
use mysql_replication_c.Base.Int.{u32}
use mysql_replication_c.Base.Outcome.{Holds, Holds-bind, Holds-after, ok}
use mysql_replication_c.Block.{Malloc}
use mysql_replication_c.Row.{ColInfo, Value}
use mysql_replication_c.Mysql.{Mysql}
use mysql_replication_c.Rows.{
  Rows, RowsEvent, TableDef, RowImageType, Bitmap, is_update_ai, is_update_bi, blank,
}
use mysql_replication_c.Rows.Memory.{cells, add_row_mem, grow, grown_size, old_cells}
use mysql_replication_c.Rows.Image.{
  image_cells, columns, value_options, start_scan, get_one_row_values,
}
use mysql_replication_c.Rows.Untouched.{Same, columns-Same}

nothing : (vs : List Value) → length vs ≡ 0 → vs ≡ []
nothing [] h = refl
nothing (v ∷ vs) h = absurd (omega (arith, h))

old_cells-same :
    (x : Rows)
    → length (cells x.rows_l2) ≡ x.rows_count * x.col_count
    → cells (old_cells x x.rows_l2) ≡ cells x.rows_l2
old_cells-same x h = elim (Bool-cases (x.rows_count == 0)) [
  | inr a ↦ rw a refl
  | inl a ↦
      let none_yet : x.rows_count ≡ 0 = (==_iff x.rows_count 0).0 a in
      let empty : length (cells x.rows_l2) ≡ 0 =
        h ∙ (ap (λ n. n * x.col_count) none_yet ∙ zero-mul x.col_count) in
      rw a (sym (nothing (cells x.rows_l2) empty))
]

grow-cells :
    (malloc : Malloc) (x : Rows) (old : Option (List Value))
    → Holds (λ vs. cells vs ≡ cells old ++ replicate x.col_count blank) (grow malloc x old)
unfolding grow
grow-cells malloc x old = elim (Bool-cases (malloc (grown_size x))) [
  | inr a ↦ rw a tt
  | inl a ↦ elim (Bool-cases (u32 (x.rows_count * x.col_count) == length (cells old))) [
    | inr b ↦ rw (a, b) tt
    | inl b ↦ rw (a, b) refl
  ]
]

-- The cells with a row of blank ones behind them.
abbrev pub with_blank_row : Rows → List Value
with_blank_row x = cells x.rows_l2 ++ replicate x.col_count blank

abbrev Grown : Rows → Rows → Type 0
Grown x y =
    (cells y.rows_l2 ≡ with_blank_row x)
    × (y.rows_count ≡ u32 (x.rows_count + 1))
    × (y.col_count ≡ x.col_count)

add_row_mem-Grown :
    (heap : ℕ → Malloc) (x : Rows) (image : RowImageType)
    → is_update_ai image ≡ false
    → length (cells x.rows_l2) ≡ x.rows_count * x.col_count
    → Holds (Grown x) (add_row_mem heap x image)
unfolding add_row_mem
add_row_mem-Grown heap x image first full = rw first (
    Holds-bind (λ vs. cells vs ≡ cells (old_cells x x.rows_l2) ++ replicate x.col_count blank)
      (Grown x) (grow (heap x.clock) x (old_cells x x.rows_l2)) _
      (grow-cells (heap x.clock) x (old_cells x x.rows_l2))
      (λ l2 g.
        Holds-after (Grown x)
          (if is_update_bi image
            then grow (heap (x.clock + 1)) x (old_cells x x.rows_after_l2)
            else ok x.rows_after_l2)
          _
          (λ after. (
            g ∙ ap (λ vs. vs ++ replicate x.col_count blank) (old_cells-same x full),
            refl,
            refl,
          ))))

-- The cell `q` is of a row before, or of a column of the new row that the image does not have.
abbrev pub IsSpared : Bitmap → Rows → ℕ → Type 0
IsSpared bitmap x q =
    (q < x.rows_count * x.col_count)
    ⊎ ((i : ℕ) × (q ≡ x.rows_count * x.col_count + i) × (bitmap.is_set i ≡ false))

spared_lem :
    (bitmap : Bitmap) (x : Rows) (q base : ℕ)
    → base ≡ x.rows_count * x.col_count
    → IsSpared bitmap x q
    → (j : ℕ) → bitmap.is_set j ≡ true
    → q ≢ base + j
spared_lem bitmap x q base at (inl h) j set = λ e. absurd (omega (arith, at, h, e))
spared_lem bitmap x q base at (inr (i, p, absent)) j set = λ e.
    let same : i ≡ j = omega (arith, at, p, e) in
    absurd (let no : true ≡ false = sym set ∙ (ap bitmap.is_set (sym same) ∙ absent) in cc)

-- A first row image that is read into an array of cells which is full and has less than 2^32 - 1
-- rows: where that succeeds, each cell of a row before is as it was, and each cell of the new row
-- whose column is not in the image is blank, so that its `len` is -1.
pub first_image-Spared :
    (m : Mysql) (heap : ℕ → Malloc) (ev : RowsEvent) (td : TableDef) (bitmap : Bitmap)
    (image : RowImageType) (info : List ColInfo) (value0 : ℕ) (x : Rows) (q : ℕ)
    → is_update_ai image ≡ false
    → x.rows_count + 1 < 2 ^ 32
    → x.rows_count * x.col_count < 2 ^ 32
    → length (cells x.rows_l2) ≡ x.rows_count * x.col_count
    → IsSpared bitmap x q
    → Holds
        (λ r. get_elem? (cells r.1.rows_l2) q ≡ get_elem? (with_blank_row x) q)
        (get_one_row_values m heap ev td bitmap image info value0 x)
unfolding get_one_row_values
first_image-Spared m heap ev td bitmap image info value0 x q first few small full spared =
    Holds-after result (value_options m heap ev td bitmap image info value0) _ (λ o.
      Holds-bind (Grown x) result (add_row_mem heap x image) _
        (add_row_mem-Grown heap x image first full)
        (λ y grown.
          Holds-bind (Same m heap ev td bitmap image info q (start_scan bitmap o.2 y)) result
            (columns m heap ev td bitmap image info o.0 o.1 o.2 (base y) td.size 0
              (start_scan bitmap o.2 y))
            _
            (columns-Same m heap ev td bitmap image info q o.0 o.1 o.2 (base y) td.size 0
              (start_scan bitmap o.2 y)
              (λ j low high a. spared_lem bitmap x q (base y) (at y grown) spared j a))
            (λ t same.
              ap (λ vs. get_elem? vs q) (sym (front t.x))
              ∙ (same
                  ∙ (ap (λ vs. get_elem? vs q) (front y) ∙ ap (λ vs. get_elem? vs q) grown.0)))))
  where
    result : ℕ × Rows → Type 0
    result r = get_elem? (cells r.1.rows_l2) q ≡ get_elem? (with_blank_row x) q

    front : (z : Rows) → image_cells image z ≡ cells z.rows_l2
    front z = if_false _ _ _ first

    base : Rows → ℕ
    base y = u32 (u32 (y.rows_count + 2 ^ 32 - 1) * y.col_count)

    at : (y : Rows) → Grown x y → base y ≡ x.rows_count * x.col_count
    at y grown =
        let rows : u32 (y.rows_count + 2 ^ 32 - 1) ≡ x.rows_count = omega (arith, grown.1, few) in
        ap u32 (ap (λ n. n * y.col_count) rows ∙ ap (λ c. x.rows_count * c) grown.2)
        ∙ (omega (arith, small))
