-- ===== src/Rows/Filled.antt =====
-- The structure that get_rows hands over (rows_log_event_2/rows_log_event_2.cc).
use native.Mathlib.Nat.{zero-mul, suc-mul, mul-le-mul_right}
use mysql_replication_c.Base.{
  ℕ, zero, suc, ◌+◌, ◌-◌, ◌*◌, ◌^◌, ◌<◌, ◌≤◌, ◌≡◌, refl, ap, ◌∙◌, subst, Bool, true, false, List,
  [], Option, none, some, Bool-cases, inl, inr, length, All, arith,
}
use mysql_replication_c.Base.Outcome.{Holds, Holds-bind, Holds-after}
use mysql_replication_c.Block.{Malloc}
use mysql_replication_c.Mysql.{Mysql}
use mysql_replication_c.Rows.{
  Rows, ChangeType, RowsEvent, RowsEventType, write_rows, delete_rows, update_rows,
  partial_update_rows, unknown_rows, is_update_bi,
}
use mysql_replication_c.Rows.Memory.{cells, row_pointers, is_update, finish, pointer_size}
use mysql_replication_c.Rows.Loop.{
  TblInfo, TableMap, change_type, first_image, check_ndb_info, find_table_def, all_rows, get_rows,
}
use mysql_replication_c.Rows.Growth.{Cells, Full}
use mysql_replication_c.Rows.Rounds.{all_rows-Full, both_images}

-- Each pointer leads to a whole row of the array.
abbrev pub InBounds : ℕ → ℕ → List ℕ → Type 0
InBounds cols cells_count ptrs = All (λ p. p + cols ≤ cells_count) ptrs

row_pointers-InBounds :
    (n i r cols : ℕ)
    → i + n ≡ r
    → (r - 1) * cols < 2 ^ 32
    → InBounds cols (r * cols) (row_pointers n i cols)
unfolding row_pointers
row_pointers-InBounds zero i r cols e h = tt
row_pointers-InBounds (suc n) i r cols e h =
    let last : i * cols ≤ (r - 1) * cols = mul-le-mul_right cols (omega (arith, e)) in
    let whole : suc i * cols ≤ r * cols = mul-le-mul_right cols (omega (arith, e)) in
    (
      omega (arith, last, whole, h, suc-mul i cols),
      row_pointers-InBounds n (i + 1) r cols (omega (arith, e)) h,
    )

abbrev pub pointers : Option (List ℕ) → List ℕ
pointers none = []
pointers (some ps) = ps

-- The structure that is handed over, of `cols` columns: `rows_count * col_count` cells, and
-- `rows_count` pointers that each lead to `col_count` cells; and the same of the second array where
-- there is one.
abbrev pub Filled : Bool → ℕ → Rows → Type 0
Filled both cols y =
    (Cells (y.rows_count * y.col_count) y.rows_l2)
    × (length (pointers y.rows) ≡ y.rows_count)
    × InBounds y.col_count (y.rows_count * y.col_count) (pointers y.rows)
    × (both ≡ true
        → (Cells (y.rows_count * y.col_count) y.rows_after_l2)
          × (length (pointers y.rows_after) ≡ y.rows_count)
          × InBounds y.col_count (y.rows_count * y.col_count) (pointers y.rows_after))
    × (y.col_count ≡ cols)
    × (both ≡ false → length (cells y.rows_after_l2) ≡ 0)
    × (is_update y.type_code ≡ both)

length-row_pointers : (n i cols : ℕ) → length (row_pointers n i cols) ≡ n
unfolding row_pointers
length-row_pointers zero i cols = refl
length-row_pointers (suc n) i cols = ap suc (length-row_pointers n (i + 1) cols)

finish-Filled :
    (heap : ℕ → Malloc) (cols : ℕ) (x : Rows)
    → Full (is_update x.type_code) cols x
    → Holds (Filled (is_update x.type_code) cols) (finish heap x)
unfolding finish
finish-Filled heap cols x full =
    let bounds =
      row_pointers-InBounds x.rows_count 0 x.rows_count x.col_count (omega arith) full.2 in
    let count = length-row_pointers x.rows_count 0 x.col_count in
    elim (Bool-cases (heap x.clock (pointer_size * x.rows_count))) [
      | inr a ↦ rw a tt
      | inl a ↦ elim (Bool-cases (is_update x.type_code)) [
        | inr b ↦
            rw (a, b)
              (
                full.0,
                count,
                bounds,
                (λ e. absurd (let f : false ≡ true = e in cc)),
                full.4,
                (λ e. full.5 (b ∙ e)),
                b,
              )
        | inl b ↦ elim (Bool-cases (heap (x.clock + 1) (pointer_size * x.rows_count))) [
          | inr c ↦ rw (a, b, c) tt
          | inl c ↦
              rw (a, b, c)
                (
                  full.0,
                  count,
                  bounds,
                  (λ e. (full.1 b, count, bounds)),
                  full.4,
                  (λ e. absurd (let f : true ≡ false = e in cc)),
                  b,
                )
        ]
      ]
    ]

change_type_lem :
    (g : RowsEventType) → Holds (λ t. is_update t ≡ is_update_bi (first_image g)) (change_type g)
unfolding change_type first_image
change_type_lem write_rows = refl
change_type_lem delete_rows = refl
change_type_lem update_rows = refl
change_type_lem partial_update_rows = refl
change_type_lem unknown_rows = tt

-- An event of less than 4 GB, read into a structure without rows: where get_rows succeeds, the
-- number of columns is kept, the cells are as many as rows times columns, there is a pointer for each
-- row, each pointer leads to a whole row inside the array, and for an update the same is so of the
-- rows after it, of which there are none for another event.
pub get_rows-Filled :
    (m : Mysql) (heap : ℕ → Malloc) (ev : RowsEvent) (map : Option TableMap) (x : Rows)
    (info : TblInfo)
    → length ev.rows_buf < 2 ^ 32
    → x.rows_count ≡ 0
    → x.rows_l2 ≡ none
    → x.rows_after_l2 ≡ none
    → Holds (Filled (both_images ev) x.col_count) (get_rows m heap ev map x info)
unfolding get_rows
get_rows-Filled m heap ev map x info small none_yet l2 after =
    Holds-bind (λ t. is_update t ≡ both_images ev) result (change_type ev.general_type_code) _
      (change_type_lem ev.general_type_code)
      (λ t known. Holds-after result (check_ndb_info m ev.ndb_length) _ (λ checked.
        Holds-after result (find_table_def map info) _ (λ td.
          Holds-bind (Full (both_images ev) x.col_count) result
            (all_rows m heap ev td info (record x { type_code = t })) _
            (all_rows-Full m heap ev td info x.col_count (record x { type_code = t }) small
              (empty t known) none_yet)
            (λ y full.
              subst (λ b. Full b x.col_count y → Holds (Filled b x.col_count) (finish heap y))
                full.3 (finish-Filled heap x.col_count y) full))))
  where
    result : Rows → Type 0
    result = Filled (both_images ev) x.col_count

    empty :
        (t : ChangeType)
        → is_update t ≡ both_images ev
        → Full (both_images ev) x.col_count (record x { type_code = t })
    empty t known =
        let nothing : 0 * x.col_count ≡ 0 = zero-mul x.col_count in
        rw (none_yet, l2, after, nothing)
          (refl, (λ e. refl), omega (arith, nothing), known, refl, (λ e. refl))
