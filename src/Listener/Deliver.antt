-- ===== src/Listener/Deliver.antt =====
-- The rows events in process_event (mysql_rpl_listener_2/mysql_rpl_listener_2.cc).
use mysql_replication_c.Base.{ℕ, none, some, ◌==◌, if◌then◌else◌, length, get_elem?, set}
use mysql_replication_c.Base.Outcome.{Outcome, ok, err, fault, ◌>>=◌}
use mysql_replication_c.Block.{Malloc}
use mysql_replication_c.Mysql.{Mysql}
use mysql_replication_c.Rows.Loop.{TableMap, get_rows}
use mysql_replication_c.Event.{TableMapEvent, RowsLogEvent}
use mysql_replication_c.Listener.{
  Listener, ListeningTable, RowsCall, row_call, start_call, is_inprocess,
}
use mysql_replication_c.Listener.Tables.{find_map, find_table}
use mysql_replication_c.Listener.Step.{Step, Failure, rows_failed, rows_without_map, call_if}
use mysql_replication_c.Listener.Cache.{cache_columns, cached, repl_log_x_rows_init}

-- The first rows of a listened table in a transaction report the start of it.
unfoldable pub open_transaction : ℕ → Listener → Listener
open_transaction when l =
    if l.in_transaction == 1
    then call_if l.on_transaction (start_call when) (record l { in_transaction = 2 })
    else l

-- The table map as get_rows reads it.
abbrev pub as_map : TableMapEvent → TableMap
as_map e = record {
  colcnt = length e.coltype;
  def = if e.has_table_def then some e.table_def else none;
}

abbrev pub set_table : ℕ → ListeningTable → Listener → Listener
set_table q t l = record l { tables = set l.tables q t }

module _ (m : Mysql) (heap : ℕ → Malloc) where
  -- The structure for the user, with the rows of the event.
  unfoldable pub rows_call :
      RowsLogEvent → TableMapEvent → Listener → ListeningTable → Outcome Failure RowsCall
  rows_call ev e l t = do
    c ← repl_log_x_rows_init (heap 1) (heap 2) l ev t e
    elim (get_rows m heap ev.rows (some (as_map e)) c.rows
        (record { col_count = t.col_count; columns = cached t })) [
          | ok x ↦ ok (record c { rows = x })
          | err msg ↦ err (rows_failed msg)
          | fault ↦ fault
        ]

  unfoldable pub deliver_rows : RowsLogEvent → TableMapEvent → ℕ → Listener → ListeningTable → Step
  deliver_rows ev e q l t = elim (rows_call ev e l t) [
    | ok c ↦ ok (call_if l.on_row (row_call c) (set_table q t l))
    | err f ↦ err (set_table q t l, f)
    | fault ↦ fault
  ]

  unfoldable pub table_rows : RowsLogEvent → TableMapEvent → ℕ → Listener → ListeningTable → Step
  table_rows ev e q l t = elim (cache_columns (heap 0) e t) [
    | ok s ↦ deliver_rows ev e q l s
    | err (s, f) ↦ err (set_table q s l, f)
    | fault ↦ fault
  ]

  -- The table of the listener, if it has one, for the table map of the event.
  unfoldable pub listened_rows : RowsLogEvent → TableMapEvent → Listener → Step
  listened_rows ev e l = elim (find_table e.db_name e.table_name l.tables) [
    | none ↦ ok l
    | some q ↦ elim (get_elem? l.tables q) [
      | none ↦ fault
      | some t ↦ table_rows ev e q (open_transaction ev.when l) t
    ]
  ]

  unfoldable pub process_rows : RowsLogEvent → Listener → Step
  process_rows ev l =
      if is_inprocess l.state
      then elim (find_map ev.table_id l.table_map_events) [
        | none ↦ err (l, rows_without_map)
        | some e ↦
            if e.table_id == ev.table_id then listened_rows ev e l else err (l, rows_without_map)
      ]
      else ok l
