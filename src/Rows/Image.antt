-- ===== src/Rows/Image.antt =====
-- Rows_log_event_2::get_one_row_values (rows_log_event_2/rows_log_event_2.cc): one row image.
-- `value` is an offset into `rows_buf`, whose length stands for m_rows_end.
use mysql_replication_c.Base.{
  ℕ, zero, suc, ◌+◌, ◌-◌, ◌*◌, ◌/◌, ◌%◌, ◌^◌, Bool, true, false, List, none, some, ltb, ◌&&◌,
  if◌then◌else◌, length, get_elem?, set, drop,
}
use mysql_replication_c.Base.Int.{pos, u32}
use mysql_replication_c.Base.Outcome.{Outcome, ok, err, ◌>>=◌, or_fault}
use mysql_replication_c.Text.{Bytes}
use mysql_replication_c.Block.{Malloc, load}
use mysql_replication_c.Row.{Value, ColInfo, Message, value_options_error, corrupted_event}
use mysql_replication_c.Mysql.{Mysql}
use mysql_replication_c.Decode.{log_event_get_value_2}
use mysql_replication_c.Rows.{
  Rows, RowImageType, Bitmap, TableDef, RowsEvent, RowsEventType, partial_update_rows, is_update_ai,
  is_json,
}
use mysql_replication_c.Rows.Memory.{add_row_mem, cells}

-- `m_rows_end - value` as a size_t
abbrev pub bytes_left : Bytes → ℕ → ℕ
bytes_left buf value = (length buf + 2 ^ 64 - value) % 2 ^ 64

abbrev pub is_partial_update : RowsEventType → Bool
is_partial_update partial_update_rows = true
is_partial_update _ = false

-- The cells that X_ROW points into.
abbrev pub image_cells : RowImageType → Rows → List Value
image_cells image x = if is_update_ai image then cells x.rows_after_l2 else cells x.rows_l2

abbrev pub set_image_cells : RowImageType → List Value → Rows → Rows
set_image_cells image vs x =
    if is_update_ai image
    then record x { rows_after_l2 = some vs }
    else record x { rows_l2 = some vs }

-- Where the loop over the columns stands: `value`, and how many bits were read of each reader.
pub record Scan : Type 0 where
  pub value : ℕ
  pub null_count : ℕ
  pub partial_count : ℕ
  pub x : Rows

-- The start of the loop over the columns, behind the bits of the null columns at `nulls`.
abbrev pub start_scan : Bitmap → ℕ → Rows → Scan
start_scan bitmap nulls x = record {
  value = nulls + (bitmap.bits_set + 7) / 8;
  null_count = 0;
  partial_count = 0;
  x = x;
}

module _ (m : Mysql) (heap : ℕ → Malloc) (ev : RowsEvent) (td : TableDef) (bitmap : Bitmap)
    (image : RowImageType) (info : List ColInfo) where
  -- The next bit of a Bit_reader at offset `start` of the event.
  unfoldable pub reader_bit : ℕ → ℕ → Outcome Message Bool
  reader_bit start k = do w ← load (k / 8 + 1) (drop start ev.rows_buf); ok (m.read_bit w k)

  -- `is_partial`: the reader is asked for JSON columns only.
  unfoldable pub read_partial : Bool → ℕ → ℕ → Scan → Outcome Message (Bool × Scan)
  read_partial has_partial start i s =
      if has_partial && (is_update_ai image && is_json (td.type i))
      then (do
        b ← reader_bit start s.partial_count
        ok (b, record s { partial_count = s.partial_count + 1 }))
      else ok (false, s)

  -- The check against the end of the event, for a value that is not null. calc_field_size reads the
  -- length of a value before the check.
  unfoldable pub check_size : Bool → ℕ → Scan → Outcome Message (Unit {0})
  check_size is_null i s =
      if is_null
      then ok tt
      else (or_fault (td.calc_field_size i (drop s.value ev.rows_buf)) >>= (λ fsize.
          if ltb (bytes_left ev.rows_buf s.value) fsize
          then err (corrupted_event (u32 fsize) (u32 (bytes_left ev.rows_buf s.value)))
          else ok tt))

  -- The column `i` of a row whose cells start at `base`, when the bitmap has it.
  unfoldable pub present_column : ℕ → ℕ → Bool → ℕ → Scan → Outcome Message Scan
  present_column nulls base is_partial i s = do
    is_null ← reader_bit nulls s.null_count
    checked ← check_size is_null i s
    cell ← or_fault (get_elem? (image_cells image s.x) (base + i))
    col ← or_fault (get_elem? info i)
    r ←
        log_event_get_value_2 m (heap s.x.clock)
          (if is_null then none else some (drop s.value ev.rows_buf)) (td.type i)
          (td.field_metadata i) is_partial (record cell { len = pos 0 }) col s.x.display_blobs
    ok (record s {
      value = if is_null then s.value else s.value + r.0;
      null_count = s.null_count + 1;
      x = record (set_image_cells image (set (image_cells image s.x) (base + i) r.1) s.x) {
        clock = s.x.clock + 1;
      };
    })

  unfoldable pub one_column : Bool → ℕ → ℕ → ℕ → ℕ → Scan → Outcome Message Scan
  one_column has_partial partials nulls base i s = do
    p ← read_partial has_partial partials i s
    if bitmap.is_set i then present_column nulls base p.0 i p.1 else ok p.1

  -- The loop over the columns from `i` on, `n` of them.
  unfoldable pub columns : Bool → ℕ → ℕ → ℕ → ℕ → ℕ → Scan → Outcome Message Scan
  columns has_partial partials nulls base zero i s = ok s
  columns has_partial partials nulls base (suc n) i s = do
    t ← one_column has_partial partials nulls base i s
    columns has_partial partials nulls base n (i + 1) t

  -- The options of a partial update: whether it has partial JSON values, where their bits start,
  -- and `value` behind them.
  unfoldable pub value_options : ℕ → Outcome Message (Bool × ℕ × ℕ)
  value_options value =
      if is_partial_update ev.type_code && is_update_ai image
      then elim (m.net_field_length (drop value ev.rows_buf) (bytes_left ev.rows_buf value)) [
        | none ↦ err value_options_error
        | some (options, size) ↦
            if m.has_partial_json_updates options
            then ok (true, value + size, value + size + (td.json_column_count + 7) / 8)
            else ok (false, value + size, value + size)
      ]
      else ok (false, value, value)

  -- The length of the image, and the rows with its values.
  unfoldable pub get_one_row_values : ℕ → Rows → Outcome Message (ℕ × Rows)
  get_one_row_values value0 x0 = do
    o ← value_options value0
    x ← add_row_mem heap x0 image
    let base = u32 (u32 (x.rows_count + 2 ^ 32 - 1) * x.col_count)
    s ← columns o.0 o.1 o.2 base td.size 0 (record {
      value = o.2 + (bitmap.bits_set + 7) / 8;
      null_count = 0;
      partial_count = 0;
      x = x;
    })
    ok (s.value - value0, s.x)
