-- ===== src/Rows/Loop.antt =====
-- Rows_log_event_2::get_rows (rows_log_event_2/rows_log_event_2.cc): every row of the event.
use mysql_replication_c.Base.{
  ℕ, zero, suc, ◌+◌, Bool, true, false, List, Option, none, some, ltb, ◌==◌, if◌then◌else◌, length,
}
use mysql_replication_c.Base.Outcome.{Outcome, ok, err, fault, ◌>>=◌}
use mysql_replication_c.Block.{Malloc}
use mysql_replication_c.Row.{
  ColInfo, Message, unknown_type_code, ndb_info_too_short, unknown_table, column_count_mismatch,
}
use mysql_replication_c.Mysql.{Mysql}
use mysql_replication_c.Rows.{
  Rows, ChangeType, insert, update, delete, RowImageType, write_ai, update_bi, update_ai, delete_bi,
  TableDef, RowsEvent, RowsEventType, write_rows, delete_rows, update_rows, partial_update_rows,
  unknown_rows,
}
use mysql_replication_c.Rows.Memory.{finish}
use mysql_replication_c.Rows.Image.{get_one_row_values}

-- `switch ( general_type_code )`
unfoldable pub change_type : RowsEventType → Outcome Message ChangeType
change_type write_rows = ok insert
change_type delete_rows = ok delete
change_type update_rows = ok update
change_type partial_update_rows = ok update
change_type unknown_rows = err unknown_type_code

unfoldable pub first_image : RowsEventType → RowImageType
first_image write_rows = write_ai
first_image delete_rows = delete_bi
first_image _ = update_bi

abbrev pub has_second_image : RowsEventType → Bool
has_second_image update_rows = true
has_second_image partial_update_rows = true
has_second_image _ = false

-- `m_extra_row_info`: a length below the header's is refused.
unfoldable pub check_ndb_info : Mysql → Option ℕ → Outcome Message (Unit {0})
check_ndb_info m none = ok tt
check_ndb_info m (some n) =
    if ltb n m.extra_row_info_header_length then err ndb_info_too_short else ok tt

-- _tbl_info
pub record TblInfo : Type 0 where
  pub col_count : ℕ
  pub columns : List ColInfo

-- What get_rows asks of the table map event: `def` is `none` where create_table_def gives NULL.
pub record TableMap : Type 0 where
  pub colcnt : ℕ
  pub def : Option TableDef

-- A round of the loop that leaves it (`goto end`), or that goes on at an offset.
pub data Round : Type 0 where
  leave : Rows → Round
  next : ℕ → Rows → Round

module _ (m : Mysql) (heap : ℕ → Malloc) (ev : RowsEvent) (td : TableDef) (info : TblInfo) where
  unfoldable pub second_image : ℕ → Rows → Outcome Message Round
  second_image value x = do
    r ← get_one_row_values m heap ev td ev.cols_ai update_ai info.columns value x
    ok (if r.0 == 0 then leave r.1 else next (value + r.0) r.1)

  unfoldable pub one_round : ℕ → Rows → Outcome Message Round
  one_round value x = do
    r ←
        get_one_row_values m heap ev td ev.cols (first_image ev.general_type_code) info.columns
          value x
    if r.0 == 0
        then ok (leave r.1)
        else if has_second_image ev.general_type_code
        then second_image (value + r.0) r.1
        else ok (next (value + r.0) r.1)

  -- `for ( value = m_rows_buf; value < m_rows_end; )`. A round that does not leave the loop takes a
  -- byte at least, so fuel above the bytes that are left is enough.
  unfoldable pub rows_loop : ℕ → ℕ → Rows → Option (Outcome Message Rows)
  rows_loop zero value x = none
  rows_loop (suc f) value x =
      if ltb value (length ev.rows_buf)
      then elim (one_round value x) [
        | ok (leave y) ↦ some (ok y)
        | ok (next v y) ↦ rows_loop f v y
        | err e ↦ some (err e)
        | fault ↦ some fault
      ]
      else some (ok x)

  -- The loop from the start of the rows. A write event without values, for which the code jumps
  -- over the loop, has no round either.
  unfoldable pub all_rows : Rows → Outcome Message Rows
  all_rows x = elim (rows_loop (length ev.rows_buf + 1) 0 x) [ none ↦ fault | some r ↦ r ]

-- `!map || !( td = map->create_table_def() )`, and then the check of the cached column count.
unfoldable pub find_table_def : Option TableMap → TblInfo → Outcome Message TableDef
find_table_def none info = err unknown_table
find_table_def (some map) info = elim map.def [
  | none ↦ err unknown_table
  | some td ↦ if info.col_count == map.colcnt then ok td else err column_count_mismatch
]

unfoldable pub get_rows :
    Mysql → (ℕ → Malloc) → RowsEvent → Option TableMap → Rows → TblInfo → Outcome Message Rows
get_rows m heap ev map x info = do
  t ← change_type ev.general_type_code
  checked ← check_ndb_info m ev.ndb_length
  td ← find_table_def map info
  y ← all_rows m heap ev td info (record x { type_code = t })
  finish heap y
