-- ===== src/Tests/Listening.antt =====
-- A listener, and a stream that it processes.
use mysql_replication_c.Base.{
  ℕ, ◌≡◌, ◌≢◌, refl, true, false, List, [], ◌∷◌, none, some, map, All, ◌⊎◌, arith,
}
use mysql_replication_c.Base.Outcome.{ok}
use mysql_replication_c.Text.{Bytes}
use mysql_replication_c.Mysql.Toy.{toy}
use mysql_replication_c.Row.{short}
use mysql_replication_c.Event.{
  rotate_event, Event, TableMapEvent, RowsLogEvent, query_event, xid_event, table_map_event,
  rows_event, gtid_event,
}
use mysql_replication_c.Listener.{prepared, Listener, inprocess_1}
use mysql_replication_c.Listener.Lifecycle.{
  Options, new_listener, set_position, blank_listener, table_add,
}
use mysql_replication_c.Listener.Query.{begin_text}
use mysql_replication_c.Listener.Tables.{find_map, store_map}
use mysql_replication_c.Listener.MapLaws.{IsMap, find-store}
use mysql_replication_c.Listener.Spec.{table_name, Keeps, Refines}
use mysql_replication_c.Listener.RefineThread.{process_event-Refines, event_loop-Refines}
use mysql_replication_c.Listener.Brackets.{IsBracketed}
use mysql_replication_c.Listener.Safety.{thread-IsBracketed, ListenedCall, thread-Listened}
use mysql_replication_c.Listener.Process.{process_event}
use mysql_replication_c.Listener.Prepare.{
  Server, result, format_name, image_name, metadata_name, gtid_name, row_value, full_value,
  off_value,
}
use mysql_replication_c.Listener.Position.{rotate_position, IsUnmoved, IsAtStart}
use mysql_replication_c.Listener.Thread.{
  Turn, event_loop, replication_thread, opens, fetched, event, on_packet,
}
use mysql_replication_c.Tests.{granting_heaps, one_short, inserted}

-- "d" and "t"
abbrev pub db : Bytes
db = b'd' ∷ []

abbrev pub tbl : Bytes
tbl = b't' ∷ []

abbrev pub options : Options
options = record {
  on_rpl_row = true;
  on_rpl_heartbeat = true;
  on_rpl_transaction = true;
  blobs_display = 1;
  geometry_as_hex = 0;
  blob_as_hex = 0;
  master_file_name = none;
  master_file_pos = 0;
  saved = [];
}

-- A listener of one table, which was started without a position.
abbrev pub listening : Listener
listening = record ((table_add db tbl (new_listener options)).0) { state = inprocess_1 }

abbrev pub table_map : TableMapEvent
table_map = record {
  table_id = 5;
  db_name = db;
  table_name = tbl;
  coltype = short ∷ [];
  optional_metadata_len = 9;
  optional_metadata = record {
    is_valid = true;
    column_name = (b'a' ∷ []) ∷ [];
    signedness = false ∷ [];
  };
  has_table_def = true;
  table_def = one_short;
  temp_buf = [];
}

abbrev pub rows : RowsLogEvent
rows = record { table_id = 5; when = 100; rows = inserted }

abbrev pub packet : Event → Turn
packet e = record { fetch = fetched 30 (event e); stop = false }

abbrev pub last_packet : Event → Turn
last_packet e = record { fetch = fetched 30 (event e); stop = true }

-- A transaction with rows.
abbrev pub stream : List Turn
stream =
    packet (gtid_event 99)
    ∷ packet (query_event 99 begin_text)
    ∷ packet (table_map_event table_map)
    ∷ packet (rows_event rows)
    ∷ last_packet (xid_event 101)
    ∷ []

process_event-Refines_example :
    Refines listening (process_event toy granting_heaps (gtid_event 99) listening)
process_event-Refines_example = process_event-Refines toy granting_heaps (gtid_event 99) listening

event_loop-Refines_example : Refines listening (event_loop toy granting_heaps stream listening)
event_loop-Refines_example = event_loop-Refines toy granting_heaps stream listening

thread-IsBracketed_example :
    Keeps (λ k. IsBracketed k.calls) (replication_thread toy granting_heaps opens stream listening)
unfolding table_add new_listener set_position blank_listener
thread-IsBracketed_example = thread-IsBracketed toy granting_heaps opens stream listening refl refl

thread-Listened_example :
    Keeps
      (λ k. All (ListenedCall (map table_name k.tables)) k.calls)
      (replication_thread toy granting_heaps opens stream listening)
unfolding table_add new_listener set_position blank_listener
thread-Listened_example = thread-Listened toy granting_heaps opens stream listening refl

find-store_example :
    IsMap (store_map table_map [])
    × (find_map 5 (store_map table_map []) ≡ some table_map)
    × ((l : ℕ) → l ≢ 5 → find_map l (store_map table_map []) ≡ find_map l [])
unfolding IsMap
find-store_example = find-store table_map [] tt

abbrev pub server : Server
server = record {
  initialized = true;
  connects = true;
  version = result (some (some (b'8' ∷ [])));
  variables = result (
      (format_name, row_value)
      ∷ (image_name, full_value)
      ∷ (metadata_name, full_value)
      ∷ (gtid_name, off_value)
      ∷ []);
  sets_checksum = true;
  sets_heartbeat_period = true;
  master_status = result (some (some (b'f' ∷ []), some (b'1' ∷ b'5' ∷ [])));
}

abbrev pub added : Listener
added = (table_add db tbl (new_listener options)).0

-- A listener that stands in the file "f".
abbrev pub placed : Listener
placed = record listening {
  m_log_nm = b'f' ∷ [];
  has_file_name = true;
  file_name_length = 1;
  start_position = 15;
}

rotate_position_example :
    (k : Listener) × (on_packet toy granting_heaps (event (rotate_event (b'g' ∷ []))) placed ≡ ok k)
    × ((((b'g' ∷ []) ≡ placed.m_log_nm) × IsUnmoved placed k)
        ⊎ (((b'g' ∷ []) ≢ placed.m_log_nm) × IsAtStart (b'g' ∷ []) k))
rotate_position_example =
    rotate_position toy granting_heaps (b'g' ∷ []) placed ((λ e. absurd (omega (arith, e))), tt)
      refl refl (omega arith)

abbrev pub ready : Listener
ready = record added { state = prepared }
