-- ===== src/Rows/Growth.antt =====
-- A row that is added to the arrays of cells (rows_log_event_2/rows_log_event_2.cc).
use native.Mathlib.Nat.{zero-mul, suc-mul}
use mysql_replication_c.Base.{
  ℕ, ◌+◌, ◌-◌, ◌*◌, ◌^◌, ◌<◌, ◌≡◌, refl, sym, Bool, true, false, List, Option, ◌==◌, ==_iff,
  Bool-cases, inl, inr, if◌then◌else◌, length, replicate, arith, length-append, length-replicate,
}
use mysql_replication_c.Base.Int.{u32}
use mysql_replication_c.Base.Outcome.{ok, Holds, Holds-bind, Holds-weaken}
use mysql_replication_c.Block.{Malloc}
use mysql_replication_c.Row.{Value}
use mysql_replication_c.Rows.{Rows, RowImageType, blank, is_update_ai, is_update_bi}
use mysql_replication_c.Rows.Memory.{is_update, cells, grown_size, grow, old_cells, add_row_mem}

-- `n` cells in an array
abbrev pub Cells : ℕ → Option (List Value) → Type 0
Cells n vs = length (cells vs) ≡ n

-- The invariant of the structure while rows of `cols` columns are read; `both` for an update, which
-- has two arrays. The index of the last row fits 32 bits.
abbrev pub Full : Bool → ℕ → Rows → Type 0
Full both cols x =
    (Cells (x.rows_count * x.col_count) x.rows_l2)
    × (both ≡ true → Cells (x.rows_count * x.col_count) x.rows_after_l2)
    × ((x.rows_count - 1) * x.col_count < 2 ^ 32)
    × (is_update x.type_code ≡ both)
    × (x.col_count ≡ cols)
    × (both ≡ false → length (cells x.rows_after_l2) ≡ 0)

-- The same counts, and arrays of the same lengths.
abbrev pub SameShape : Rows → Rows → Type 0
SameShape x y =
    (y.rows_count ≡ x.rows_count)
    × (y.col_count ≡ x.col_count)
    × (length (cells y.rows_l2) ≡ length (cells x.rows_l2))
    × (length (cells y.rows_after_l2) ≡ length (cells x.rows_after_l2))
    × (y.type_code ≡ x.type_code)

pub old_cells_lem :
    (x : Rows) (old : Option (List Value))
    → Cells (x.rows_count * x.col_count) old
    → Cells (x.rows_count * x.col_count) (old_cells x old)
old_cells_lem x old h = elim (Bool-cases (x.rows_count == 0)) [
  | inl a ↦
      let none_yet : x.rows_count ≡ 0 = (==_iff x.rows_count 0).0 a in
      rw (a, none_yet) (sym (zero-mul x.col_count))
  | inr a ↦ rw a h
]

-- One row more, whose first cell has an index of 32 bits.
pub grow_lem :
    (malloc : Malloc) (x : Rows) (old : Option (List Value))
    → Cells (x.rows_count * x.col_count) old
    → Holds
        (λ vs.
          (Cells ((x.rows_count + 1) * x.col_count) vs) × (x.rows_count * x.col_count < 2 ^ 32))
        (grow malloc x old)
unfolding grow
grow_lem malloc x old h = elim (Bool-cases (malloc (grown_size x))) [
  | inr a ↦ rw a tt
  | inl a ↦ elim (Bool-cases (u32 (x.rows_count * x.col_count) == length (cells old))) [
    | inr b ↦ rw (a, b) tt
    | inl b ↦
        let fits : u32 (x.rows_count * x.col_count) ≡ length (cells old) = (==_iff _ _).0 b in
        rw (a, b)
          (
            omega (
              arith,
              h,
              length-append (cells old) (replicate x.col_count blank),
              length-replicate x.col_count blank,
              suc-mul x.rows_count x.col_count,
            ),
            omega (arith, fits, h),
          )
  ]
]

-- The second array, of an update only.
pub after_lem :
    (malloc : Malloc) (x : Rows) (both : Bool)
    → (both ≡ true → Cells (x.rows_count * x.col_count) x.rows_after_l2)
    → (both ≡ false → length (cells x.rows_after_l2) ≡ 0)
    → Holds
        (λ vs.
          (both ≡ true → Cells ((x.rows_count + 1) * x.col_count) vs)
          × (both ≡ false → length (cells vs) ≡ 0))
        (if both then grow malloc x (old_cells x x.rows_after_l2) else ok x.rows_after_l2)
after_lem malloc x true h none_yet =
    Holds-weaken
      (λ vs. (Cells ((x.rows_count + 1) * x.col_count) vs) × (x.rows_count * x.col_count < 2 ^ 32))
      (λ vs.
        (true ≡ true → Cells ((x.rows_count + 1) * x.col_count) vs)
        × (true ≡ false → length (cells vs) ≡ 0))
      (grow malloc x (old_cells x x.rows_after_l2))
      (grow_lem malloc x (old_cells x x.rows_after_l2) (old_cells_lem x x.rows_after_l2 (h refl)))
      (λ vs g. ((λ e. g.0), (λ e. absurd (let f : true ≡ false = e in cc))))
after_lem malloc x false h none_yet = ((λ e. absurd (let f : false ≡ true = e in cc)), none_yet)

-- A row was added.
abbrev pub Added : Bool → ℕ → Rows → Rows → Type 0
Added both cols x y =
    (y.rows_count ≡ x.rows_count + 1) × (y.col_count ≡ x.col_count) × Full both cols y

pub add_row_mem_lem :
    (heap : ℕ → Malloc) (cols : ℕ) (x : Rows) (image : RowImageType)
    → is_update_ai image ≡ false
    → x.rows_count + 1 < 2 ^ 32
    → Full (is_update_bi image) cols x
    → Holds (Added (is_update_bi image) cols x) (add_row_mem heap x image)
unfolding add_row_mem
add_row_mem_lem heap cols x image first small full = rw first (
    Holds-bind
      (λ vs. (Cells ((x.rows_count + 1) * x.col_count) vs) × (x.rows_count * x.col_count < 2 ^ 32))
      (Added (is_update_bi image) cols x) (grow (heap x.clock) x (old_cells x x.rows_l2)) _
      (grow_lem (heap x.clock) x (old_cells x x.rows_l2) (old_cells_lem x x.rows_l2 full.0))
      (λ l2 g.
        Holds-bind
          (λ vs.
            (is_update_bi image ≡ true → Cells ((x.rows_count + 1) * x.col_count) vs)
            × (is_update_bi image ≡ false → length (cells vs) ≡ 0))
          (Added (is_update_bi image) cols x)
          (if is_update_bi image
            then grow (heap (x.clock + 1)) x (old_cells x x.rows_after_l2)
            else ok x.rows_after_l2)
          _ (after_lem (heap (x.clock + 1)) x (is_update_bi image) full.1 full.5)
          (λ after f.
            let counted : u32 (x.rows_count + 1) ≡ x.rows_count + 1 = omega (arith, small) in
            let last : x.rows_count + 1 - 1 ≡ x.rows_count = omega arith in
            rw counted (refl, refl, (g.0, f.0, rw last g.1, full.3, full.4, f.1)))))
