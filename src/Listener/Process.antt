-- ===== src/Listener/Process.antt =====
-- process_event (mysql_rpl_listener_2/mysql_rpl_listener_2.cc). The heap that an event finds depends
-- on `turn`, the number of the event.
use mysql_replication_c.Base.{
  ℕ, ◌+◌, Bool, true, false, ◌&&◌, ltb, ◌==◌, if◌then◌else◌, length, take,
}
use mysql_replication_c.Base.Outcome.{ok, err, fault}
use mysql_replication_c.Text.{Bytes}
use mysql_replication_c.Block.{Malloc, c_str}
use mysql_replication_c.Mysql.{Mysql}
use mysql_replication_c.Event.{
  TableMapEvent, Event, query_event, xid_event, xa_prepare_event, gtid_event,
  format_description_event, table_map_event, rotate_event, rows_event, payload_event, other_event,
  Payload, end_of_payload, payload_item, payload_fails,
}
use mysql_replication_c.Listener.{Listener, heartbeat_call, is_inprocess}
use mysql_replication_c.Listener.Lifecycle.{copy_text}
use mysql_replication_c.Listener.Tables.{store_map, str_eq}
use mysql_replication_c.Listener.Step.{Step, payload_failed, call_if, promoted, commit_transaction}
use mysql_replication_c.Listener.Query.{process_query}
use mysql_replication_c.Listener.Deliver.{process_rows}

-- An event of a type that is not in the list at the start of process_event.
unfoldable pub as_heartbeat : ℕ → Listener → Listener
as_heartbeat when l = call_if (is_inprocess l.state && l.on_heartbeat) (heartbeat_call when) l

-- FORMAT_DESCRIPTION_EVENT: one that does not stand at BIN_LOG_HEADER_SIZE is not counted.
unfoldable pub process_format : Listener → Listener
process_format l =
    if l.start_position == 4
    then record l { has_description = true }
    else record l { has_description = true; size = 1 }

unfoldable pub process_table_map : TableMapEvent → Listener → Listener
process_table_map e l = record l { table_map_events = store_map e l.table_map_events }

-- ROTATE_EVENT: another name is a new file.
abbrev pub same_file : Bytes → Listener → Bool
same_file ident l =
    length ident == l.file_name_length && str_eq ident (take l.file_name_length l.m_log_nm)

abbrev pub new_name : Bytes → Bytes
new_name ident =
    copy_text (if ltb 512 (length ident + 1) then 512 else length ident + 1) (c_str ident)

-- `strlen( file_name )` of a null pointer is a fault.
unfoldable pub process_rotate : Bytes → Listener → Step
process_rotate ident l =
    if same_file ident l
    then ok (record l { size = 1 })
    else if l.has_file_name
    then ok (record l {
      m_log_nm = new_name ident;
      file_name_length = length (new_name ident);
      start_position = 0;
      size = 5;
    })
    else fault

-- The next event finds another heap.
abbrev pub next_turn : Listener → Listener
next_turn l = record l { turn = l.turn + 1 }

module _ (m : Mysql) (heap : ℕ → ℕ → Malloc) where
  unfoldable mutual
    pub process_event : Event → Listener → Step
    process_event (query_event when text) l = process_query (heap l.turn 0) when text (next_turn l)
    process_event (xid_event when) l = ok (commit_transaction when (next_turn l))
    process_event (xa_prepare_event when) l = ok (commit_transaction when (next_turn l))
    process_event (gtid_event when) l = ok (promoted (as_heartbeat when (next_turn l)))
    process_event format_description_event l = ok (process_format (next_turn l))
    process_event (table_map_event e) l = ok (process_table_map e (next_turn l))
    process_event (rotate_event ident) l = process_rotate ident (next_turn l)
    process_event (rows_event ev) l = process_rows m (heap l.turn) ev (next_turn l)
    process_event (payload_event p) l =
        if l.has_description then process_payload p (next_turn l) else fault
    process_event (other_event when) l = ok (as_heartbeat when (next_turn l))

    -- The loop over the events of a payload: an error or a stop request ends it.
    pub process_payload : Payload → Listener → Step
    process_payload end_of_payload l = ok l
    process_payload (payload_fails e p) l = err (l, payload_failed e)
    process_payload (payload_item e p) l = elim (process_event e l) [
      | ok k ↦ elim k.need_stop [ true ↦ ok k | false ↦ process_payload p k ]
      | err f ↦ err f
      | fault ↦ fault
    ]
