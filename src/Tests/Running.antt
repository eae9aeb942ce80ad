-- ===== src/Tests/Running.antt =====
-- Whole uses of a listener: sessions, restarts and transactions.
use mysql_replication_c.Base.{
  ◌≡◌, Bool, refl, true, false, List, [], ◌∷◌, ◌++◌, none, some, All, ◌⊎◌, arith,
}
use mysql_replication_c.Base.Int.{pos}
use mysql_replication_c.Base.Outcome.{ok, err, fault, Holds}
use mysql_replication_c.Text.{Bytes, digits, unsigned_text, int_text}
use mysql_replication_c.Block.{c_str, strlen, alloc, put, snprintf, load, deref}
use mysql_replication_c.Mysql.Toy.{toy}
use mysql_replication_c.Row.{short}
use mysql_replication_c.Decode.{real_type, get_value, log_event_get_value_2}
use mysql_replication_c.Decode.Result.{print_value}
use mysql_replication_c.Decode.Numbers.{get_short}
use mysql_replication_c.Rows.Memory.{grow, add_row_mem, row_pointers, finish}
use mysql_replication_c.Rows.Image.{
  reader_bit, read_partial, check_size, present_column, one_column, columns, value_options,
  get_one_row_values,
}
use mysql_replication_c.Rows.Loop.{
  change_type, first_image, check_ndb_info, second_image, one_round, rows_loop, all_rows,
  find_table_def, get_rows,
}
use mysql_replication_c.Event.{
  TableMapEvent, rows_event, xid_event, gtid_event, query_event, table_map_event,
}
use mysql_replication_c.Listener.{
  Listener, RowsCall, ListeningTable, inprocess, ended, start_call, row_call, commit_call,
}
use mysql_replication_c.Listener.Lifecycle.{
  SavedEvent, saved_map, thread_starts, new_listener, set_position, blank_listener, table_add,
  add_table, get_tablemap_events, get_last_sucessful_position, in_process, start_replication,
  start_order,
}
use mysql_replication_c.Listener.Step.{rows_without_map}
use mysql_replication_c.Listener.Cache.{
  cache_columns, columns_block, read_metadata, name_columns, set_types, is_numeric_type,
  repl_log_x_rows_init,
}
use mysql_replication_c.Listener.Deliver.{rows_call}
use mysql_replication_c.Listener.Spec.{Keeps}
use mysql_replication_c.Listener.MapLaws.{IsMap, Above}
use mysql_replication_c.Listener.WellFormed.{IsWellFormed}
use mysql_replication_c.Listener.Order.{Rises}
use mysql_replication_c.Listener.Thread.{event_loop, replication_thread, opens, fetched, event}
use mysql_replication_c.Listener.Ends.{IsOver, thread-IsOver, stop_ends_loop}
use mysql_replication_c.Listener.Session.{
  Request, adds_table, prepares_on, starts_with, opens_with, fetches, waits_for, begin_thread,
  fresh, perform, session,
}
use mysql_replication_c.Listener.Live.{After}
use mysql_replication_c.Listener.Uses.{session-IsWellFormed, session-Rises, start_once}
use mysql_replication_c.Listener.Quiet.{IsBeat, loop_is_quiet}
use mysql_replication_c.Listener.Restart.{saved_options, StandsAs, restart_same}
use mysql_replication_c.Listener.Lost.{maps_are_lost}
use mysql_replication_c.Api.{start}
use mysql_replication_c.Api.Codes.{IsCoded, start-IsCoded}
use mysql_replication_c.Listener.Query.{begin_text, commit_text}
use mysql_replication_c.Listener.Rounds.{packet_of}
use mysql_replication_c.Listener.Transaction.{
  Awaits, transaction_of, transaction_lem, null_heartbeat_fault,
}
use mysql_replication_c.Listener.Tables.{find_table, find_table_from, str_eq}
use mysql_replication_c.Tests.{granting, granting_always, granting_heaps, no_rows}
use mysql_replication_c.Tests.Listening.{
  db, tbl, options, listening, table_map, rows, packet, last_packet, stream, server, ready,
}

-- A use of the listener with rounds of its thread in it.
abbrev requests : List Request
requests =
    adds_table db tbl
    ∷ prepares_on server
    ∷ starts_with thread_starts
    ∷ opens_with opens
    ∷ fetches (fetched 30 (event (gtid_event 99)))
    ∷ fetches (fetched 30 (event (query_event 100 begin_text)))
    ∷ []

-- The thread is stopped in a round with an event of it.
abbrev requests_behind : List Request
requests_behind =
    fetches (fetched 30 (event (query_event 100 begin_text)))
    ∷ waits_for opens stream
    ∷ prepares_on server
    ∷ []

session-IsWellFormed_example :
    After (λ s. IsWellFormed s.listener) (session toy granting_heaps requests (fresh options))
session-IsWellFormed_example =
    session-IsWellFormed toy granting_heaps requests options (omega arith)

session-Rises_example :
    After
      (λ s.
        (After
          (λ t. Rises s.listener t.listener)
          (perform toy granting_heaps (fetches (fetched 30 (event (xid_event 101)))) s))
        × (After
            (λ t. in_process t.listener ≡ 0)
            (perform toy granting_heaps (waits_for opens stream) s)))
      (session toy granting_heaps requests (fresh options))
session-Rises_example =
    session-Rises toy granting_heaps requests (fetches (fetched 30 (event (xid_event 101)))) opens
      stream options

start_once_example :
    After
      (λ s.
        Holds
          (λ k.
            After
              (λ t. start_replication thread_starts t.listener ≡ err (t.listener, start_order))
              (session toy granting_heaps
                (opens_with opens ∷ requests_behind)
                (begin_thread thread_starts s)))
          (start_replication thread_starts s.listener))
      (session toy granting_heaps (adds_table db tbl ∷ prepares_on server ∷ []) (fresh options))
start_once_example =
    start_once toy granting_heaps (adds_table db tbl ∷ prepares_on server ∷ [])
      (opens_with opens ∷ requests_behind) thread_starts thread_starts options

thread-IsOver_example : Keeps IsOver (replication_thread toy granting_heaps opens stream listening)
unfolding table_add add_table new_listener set_position blank_listener
thread-IsOver_example =
    thread-IsOver toy granting_heaps opens stream listening
      ((λ p. absurd (let no : false ≡ true = p in cc)), (λ p. refl))

stop_ends_loop_example :
    event_loop toy granting_heaps
      (packet (gtid_event 99) ∷ last_packet (xid_event 101) ∷ stream)
      listening
    ≡ event_loop toy granting_heaps
        (packet (gtid_event 99) ∷ last_packet (xid_event 101) ∷ [])
        listening
stop_ends_loop_example =
    stop_ends_loop toy granting_heaps (packet (gtid_event 99) ∷ []) stream
      (last_packet (xid_event 101)) listening refl

loop_is_quiet_example :
    Keeps
      (λ k. (k.state ≡ inprocess) ⊎ (All IsBeat k.calls))
      (event_loop toy granting_heaps stream listening)
unfolding table_add add_table new_listener set_position blank_listener
loop_is_quiet_example = loop_is_quiet toy granting_heaps stream listening refl

-- An event of 13 bytes: zeros, and its length.
abbrev buffer : Bytes
buffer = 0 ∷ 0 ∷ 0 ∷ 0 ∷ 0 ∷ 0 ∷ 0 ∷ 0 ∷ 0 ∷ 13 ∷ 0 ∷ 0 ∷ 0 ∷ []

abbrev whole_map : TableMapEvent
whole_map = record table_map { temp_buf = buffer }

abbrev parse : Bytes → SavedEvent
parse b = saved_map whole_map

-- A listener that has ended behind a table map in the file "f".
abbrev finished : Listener
finished = record listening {
  state = ended;
  m_log_nm = b'f' ∷ [];
  has_file_name = true;
  file_name_length = 1;
  start_position = 15;
  table_map_events = (5, whole_map) ∷ [];
}

restart_same_example :
    (buffers : List Bytes) × (get_tablemap_events granting_always finished ≡ ok buffers)
    × StandsAs finished (
        new_listener
          (saved_options parse options (get_last_sucessful_position 512 finished) buffers))
unfolding IsMap Above
restart_same_example =
    restart_same parse granting_always options finished (λ i n. refl)
      (tt, refl, (omega arith), (omega arith), (refl, tt))
      ((((omega arith), (omega arith), refl), refl), tt) refl refl

abbrev pub running : Listener
running = record listening { state = inprocess; table_map_events = (5, table_map) ∷ [] }

maps_are_lost_example :
    (k : Listener) × (replication_thread toy granting_heaps opens
        (packet_of 30 (rows_event rows) ∷ stream)
        running
      ≡ err (k, rows_without_map))
    × (k.calls ≡ running.calls)
maps_are_lost_example =
    maps_are_lost toy granting_heaps rows 30 stream running refl (λ e. absurd (omega (arith, e)))

abbrev pub listened_table : ListeningTable
listened_table = record { db_name = db; tbl_name = tbl; col_count = 0; columns = none }

abbrev pub cached_table : ListeningTable
cached_table = record listened_table {
  col_count = 1;
  columns = some (record { type = short; name = b'a' ∷ []; is_unsigned = false } ∷ []);
}

-- The rows 3 and NULL of the column "a".
abbrev pub shown_rows : RowsCall
shown_rows = record {
  when = 100;
  tbl_id = 5;
  tbl_name = tbl;
  db_name = db;
  col_names = (b'a' ∷ []) ∷ [];
  col_types = short ∷ [];
  rows = record no_rows {
    rows_count = 2;
    rows = some (0 ∷ 1 ∷ []);
    rows_l2 = some (
        record { val = some (record { cap = 16; bytes = b'3' ∷ 0 ∷ [] }); len = pos 1; is_hex = 0 }
        ∷ record { val = none; len = pos 0; is_hex = 0 }
        ∷ []);
    clock = 11;
  };
}

cached_lem : cache_columns granting table_map listened_table ≡ ok cached_table
unfolding cache_columns columns_block read_metadata name_columns set_types is_numeric_type c_str
cached_lem = refl

-- The same listener, with or without a function for heartbeats.
abbrev beating : Bool → Listener
beating b = record running { on_heartbeat = b }

rows_call_lem :
    (b : Bool)
    → rows_call toy granting_always rows table_map (beating b) cached_table ≡ ok shown_rows
unfolding rows_call repl_log_x_rows_init get_rows first_image change_type check_ndb_info
    second_image one_round rows_loop all_rows find_table_def reader_bit read_partial check_size
    present_column one_column columns value_options get_one_row_values grow add_row_mem row_pointers
    finish real_type get_value log_event_get_value_2 print_value get_short alloc put snprintf load
    deref int_text unsigned_text digits strlen table_add new_listener set_position blank_listener
rows_call_lem b = refl

awaiting :
    (b : Bool)
    → Awaits toy granting_heaps rows table_map shown_rows 0 listened_table cached_table (beating b)
unfolding table_add add_table new_listener set_position blank_listener find_table find_table_from
    str_eq IsMap Above
awaiting b = record {
  goes = refl;
  running = refl;
  starts = refl;
  shows = refl;
  maps = tt;
  same = refl;
  granted = refl;
  decoded = (refl, refl, cached_lem, rows_call_lem b);
}

transaction_lem_example :
    (k : Listener) × (event_loop toy granting_heaps
        (transaction_of toy granting_heaps rows table_map shown_rows 0 listened_table cached_table
          30 99 101 stream)
        (beating true)
      ≡ event_loop toy granting_heaps stream k)
    × (k.calls ≡ running.calls ++ (start_call 100 ∷ row_call shown_rows ∷ commit_call 101 ∷ []))
    × (k.in_transaction ≡ 0)
    × (k.state ≡ inprocess)
transaction_lem_example =
    transaction_lem toy granting_heaps rows table_map shown_rows 0 listened_table cached_table 30 99
      101 stream (beating true) (awaiting true) (λ e. absurd (omega (arith, e)))

null_heartbeat_fault_example :
    event_loop toy granting_heaps
      (packet_of 30 (query_event 99 begin_text)
        ∷ packet_of 30 (table_map_event table_map)
        ∷ packet_of 30 (rows_event rows)
        ∷ packet_of 30 (query_event 101 commit_text)
        ∷ stream)
      (beating false)
    ≡ fault
null_heartbeat_fault_example =
    null_heartbeat_fault toy granting_heaps rows table_map shown_rows 0 listened_table cached_table
      30 99 101 stream (beating false) (awaiting false) (λ e. absurd (omega (arith, e))) refl refl

start-IsCoded_example :
    IsCoded toy granting_heaps opens stream ready (start thread_starts (some ready))
start-IsCoded_example = start-IsCoded toy granting_heaps opens stream thread_starts ready
