-- ===== src/Rows/Reading.antt =====
-- One row image (get_one_row_values in rows_log_event_2/rows_log_event_2.cc) against the bounds of the
-- event and of the arrays.
use native.Mathlib.Nat.{suc-mul}
use mysql_replication_c.Base.{
  ℕ, suc, ◌+◌, ◌-◌, ◌*◌, ◌/◌, ◌^◌, ◌<◌, ◌≤◌, ◌≡◌, refl, ap, sym, ◌∙◌, subst, Bool, true, false,
  List, Option, ◌&&◌, ==_iff, Bool-cases, inl, inr, if◌then◌else◌, if_false, length, arith,
}
use mysql_replication_c.Base.Int.{u32}
use mysql_replication_c.Base.Outcome.{ok, Safe, Safe-bind, Safe-known, Safe-weaken, Safe-Holds}
use mysql_replication_c.Block.{Malloc}
use mysql_replication_c.Row.{ColInfo, Value}
use mysql_replication_c.Mysql.{Mysql, Laws}
use mysql_replication_c.Rows.{
  Rows, RowsEvent, TableDef, RowImageType, write_ai, update_bi, update_ai, delete_bi, Bitmap,
  is_update_ai, is_update_bi,
}
use mysql_replication_c.Rows.Memory.{cells, grow, grown_size, old_cells, add_row_mem}
use mysql_replication_c.Rows.Image.{
  is_partial_update, image_cells, columns, value_options, start_scan, get_one_row_values,
}
use mysql_replication_c.Rows.Growth.{Cells, Full, Added, add_row_mem_lem, old_cells_lem}
use mysql_replication_c.Rows.Coming.{HasLengths, Comes-first}
use mysql_replication_c.Rows.Guarded.{Measures, set_count, columns-Safe}

grow-Safe :
    (malloc : Malloc) (x : Rows) (old : Option (List Value))
    → Cells (x.rows_count * x.col_count) old
    → x.rows_count * x.col_count < 2 ^ 32
    → Safe (λ vs. Unit {0}) (grow malloc x old)
unfolding grow
grow-Safe malloc x old full small = elim (Bool-cases (malloc (grown_size x))) [
  | inr a ↦ rw a tt
  | inl a ↦
      let same : u32 (x.rows_count * x.col_count) ≡ length (cells old) =
        omega (arith, full, small) in
      rw (a, (==_iff _ _).1 same) tt
]

-- The arrays as a first image finds them, and as the second image of an update does, which has its
-- row already.
abbrev pub Room : Bool → Bool → ℕ → Rows → Type 0
Room true both cols x = Full true cols x × (0 < x.rows_count) × (x.rows_count < 2 ^ 32)
Room false both cols x =
    Full both cols x × (x.rows_count + 1 < 2 ^ 32) × (x.rows_count * x.col_count < 2 ^ 32)

add_row-Safe :
    (heap : ℕ → Malloc) (cols : ℕ) (x : Rows) (image : RowImageType)
    → is_update_ai image ≡ false
    → Room false (is_update_bi image) cols x
    → Safe (λ y. Unit {0}) (add_row_mem heap x image)
unfolding add_row_mem
add_row-Safe heap cols x image first room = rw first (
    Safe-bind (λ vs. Unit {0}) (λ y. Unit {0}) (grow (heap x.clock) x (old_cells x x.rows_l2)) _
      (grow-Safe (heap x.clock) x (old_cells x x.rows_l2) (old_cells_lem x x.rows_l2 room.0.0)
        room.2)
      (λ l2 u.
        Safe-bind (λ vs. Unit {0}) (λ y. Unit {0})
          (if is_update_bi image
            then grow (heap (x.clock + 1)) x (old_cells x x.rows_after_l2)
            else ok x.rows_after_l2)
          _
          (elim (Bool-cases (is_update_bi image)) [
            | inr b ↦ rw b tt
            | inl b ↦ rw b (
                grow-Safe (heap (x.clock + 1)) x (old_cells x x.rows_after_l2)
                  (old_cells_lem x x.rows_after_l2 (room.0.1 b)) room.2)
          ])
          (λ after u. tt)))

-- The cells of the last row.
abbrev pub last_base : Rows → ℕ
last_base y = u32 (u32 (y.rows_count + 2 ^ 32 - 1) * y.col_count)

abbrev Last : RowImageType → ℕ → Rows → Type 0
Last image cols y = last_base y + cols ≤ length (image_cells image y)

last_lem :
    (both : Bool) (cols : ℕ) (y : Rows)
    → Full both cols y
    → 0 < y.rows_count
    → y.rows_count < 2 ^ 32
    → last_base y + cols ≡ y.rows_count * y.col_count
last_lem both cols y full some_row few =
    let before = y.rows_count - 1 in
    let index : u32 (y.rows_count + 2 ^ 32 - 1) ≡ before = omega (arith, some_row, few) in
    let base : last_base y ≡ before * y.col_count =
      ap (λ n. u32 (n * y.col_count)) index ∙ omega (arith, full.2) in
    let one_more : suc before ≡ y.rows_count = omega (arith, some_row) in
    let product : suc before * y.col_count ≡ y.rows_count * y.col_count =
      ap (λ n. n * y.col_count) one_more in
    omega (arith, base, product, suc-mul before y.col_count, full.4)

first_lem :
    (heap : ℕ → Malloc) (cols : ℕ) (x : Rows) (image : RowImageType)
    → is_update_ai image ≡ false
    → Room false (is_update_bi image) cols x
    → Safe (Last image cols) (add_row_mem heap x image)
first_lem heap cols x image first room =
    Safe-weaken (Added (is_update_bi image) cols x) (Last image cols) (add_row_mem heap x image)
      (Safe-Holds _ (add_row_mem heap x image) (add_row-Safe heap cols x image first room)
        (add_row_mem_lem heap cols x image first room.1 room.0))
      (λ y added.
        let count =
          last_lem (is_update_bi image) cols y added.2 (omega (arith, added.0))
            (omega (arith, added.0, room.1)) in
        let inside : last_base y + cols ≤ length (cells y.rows_l2) =
          omega (arith, count, added.2.0) in
        subst (λ vs. last_base y + cols ≤ length vs)
          (sym (if_false (is_update_ai image) (cells y.rows_after_l2) (cells y.rows_l2) first))
          inside)

add_row_lem :
    (heap : ℕ → Malloc) (cols : ℕ) (x : Rows) (image : RowImageType)
    → Room (is_update_ai image) (is_update_bi image) cols x
    → Safe (Last image cols) (add_row_mem heap x image)
unfolding add_row_mem
add_row_lem heap cols x write_ai room = first_lem heap cols x write_ai refl room
add_row_lem heap cols x update_bi room = first_lem heap cols x update_bi refl room
add_row_lem heap cols x delete_bi room = first_lem heap cols x delete_bi refl room
add_row_lem heap cols x update_ai room =
    omega (arith, last_lem true cols x room.0 room.1 room.2, room.0.1 refl)

-- A row image of an event of less than 2^30 - 8 bytes, other than the second of a partial update, where
-- calc_field_size counts at least the bytes of a column's type, each column has its description, and
-- `bits_set` of the bitmap is the number of the columns in it: where the bits of the null columns are
-- in the event, the arrays have room for the image, and calc_field_size finds a length for each value
-- that the loop comes to and that is not null, nothing is read or written out of bounds, whatever the
-- bytes of the event and whatever the heap grants, and where the call succeeds the image ends inside
-- the event.
pub get_one_row_values-Safe :
    (m : Mysql) (laws : Laws m) (heap : ℕ → Malloc) (ev : RowsEvent) (td : TableDef)
    (bitmap : Bitmap) (image : RowImageType) (info : List ColInfo) (value0 : ℕ) (x : Rows)
    → Measures m td
    → 2 * length ev.rows_buf + 16 < 2 ^ 31
    → (is_partial_update ev.type_code && is_update_ai image) ≡ false
    → td.size ≤ length info
    → bitmap.bits_set ≡ set_count bitmap td.size 0
    → value0 + (bitmap.bits_set + 7) / 8 ≤ length ev.rows_buf
    → Room (is_update_ai image) (is_update_bi image) td.size x
    → ((y : Rows)
        → add_row_mem heap x image ≡ ok y
        → HasLengths m heap ev td bitmap image info value0 value0
            (last_base y)
            (start_scan bitmap value0 y))
    → Safe
        (λ r. value0 + r.0 ≤ length ev.rows_buf)
        (get_one_row_values m heap ev td bitmap image info value0 x)
unfolding get_one_row_values value_options
get_one_row_values-Safe m laws heap ev td bitmap image info value0 x measures small whole known
      counted bits room lengths =
    rw whole (
      Safe-known (Last image td.size) (λ r. value0 + r.0 ≤ length ev.rows_buf)
        (add_row_mem heap x image) _ (add_row_lem heap td.size x image room)
        (λ y added last.
          Safe-bind (λ t. t.value ≤ length ev.rows_buf) (λ r. value0 + r.0 ≤ length ev.rows_buf)
            (columns m heap ev td bitmap image info false value0 value0 (last_base y) td.size 0
              (start_scan bitmap value0 y))
            _
            (columns-Safe m laws heap ev td bitmap image info measures small value0 value0
              (last_base y) (start_scan bitmap value0 y) (lengths y added) td.size 0
              (start_scan bitmap value0 y)
              (Comes-first m heap ev td bitmap image info value0 value0 (last_base y)
                (start_scan bitmap value0 y))
              (omega (arith, known)) (omega (arith, counted, bits), omega (arith, last), bits))
            (λ t inside. omega (arith, inside, bits))))
