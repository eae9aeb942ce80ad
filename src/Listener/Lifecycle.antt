-- ===== src/Listener/Lifecycle.antt =====
-- The methods of mysql_rpl_listener_2 around the replication thread
-- (mysql_rpl_listener_2/mysql_rpl_listener_2.cc): the constructor, table_add, in_process,
-- start_replication, stop_replication, the position, the table maps, the destructor.
use mysql_replication_c.Base.{
  ℕ, ◌+◌, ◌-◌, Bool, true, false, List, [], ◌∷◌, ◌++◌, Option, none, some, ltb, if◌then◌else◌,
  length, take, drop,
}
use mysql_replication_c.Base.Outcome.{Outcome, ok, err, ◌>>=◌}
use mysql_replication_c.Text.{Bytes}
use mysql_replication_c.Base.Int.{u32}
use mysql_replication_c.Block.{Malloc, alloc, load}
use mysql_replication_c.Mysql.{little_endian}
use mysql_replication_c.Event.{TableMapEvent}
use mysql_replication_c.Listener.{
  Listener, State, created, prepared, inprocess_1, inprocess, ended, state_code, end_running,
  is_running,
}
use mysql_replication_c.Listener.Tables.{store_map}
use mysql_replication_c.Listener.Cleanup.{tables_clear}

-- `snprintf( dst, n, "%s", text )`
abbrev pub copy_text : ℕ → Bytes → Bytes
copy_text n text = take (n - 1) text

-- An element of the vector of table maps that the user gives back: an event of another type is
-- passed over; no memory, an exception or an error of the deserialization ends the loop.
pub data SavedEvent : Type 0 where
  saved_map : TableMapEvent → SavedEvent
  not_a_map : SavedEvent
  not_readable : SavedEvent

unfoldable pub load_maps : List SavedEvent → List (ℕ × TableMapEvent) → List (ℕ × TableMapEvent)
load_maps [] es = es
load_maps (saved_map e ∷ r) es = load_maps r (store_map e es)
load_maps (not_a_map ∷ r) es = load_maps r es
load_maps (not_readable ∷ r) es = es

-- The arguments of the constructor that the model keeps.
pub record Options : Type 0 where
  pub on_rpl_row : Bool
  pub on_rpl_heartbeat : Bool
  pub on_rpl_transaction : Bool
  pub blobs_display : ℕ
  pub geometry_as_hex : ℕ
  pub blob_as_hex : ℕ
  pub master_file_name : Option Bytes
  pub master_file_pos : ℕ
  pub saved : List SavedEvent

abbrev pub flag : ℕ → ℕ
flag n = if ltb 0 n then 1 else 0

unfoldable pub blank_listener : Options → Listener
blank_listener o = record {
  in_transaction = 0;
  position_was_setted = false;
  connected = false;
  has_file_name = false;
  file_name_length = 0;
  start_position = 0;
  size = 0;
  on_row = o.on_rpl_row;
  on_heartbeat = o.on_rpl_heartbeat;
  on_transaction = o.on_rpl_transaction;
  tables = [];
  state = created;
  m_log_nm = [];
  need_stop = false;
  display_blobs = record {
    blobs_display = flag o.blobs_display;
    geometry_as_hex = flag o.geometry_as_hex;
    blob_as_hex = flag o.blob_as_hex;
  };
  has_description = false;
  table_map_events = [];
  calls = [];
  turn = 0;
}

-- The part for a given file name. (The temporary format description event is gone at the end.)
unfoldable pub set_position : Option Bytes → Options → Listener → Listener
set_position none o l = l
set_position (some f) o l = record l {
  m_log_nm = copy_text 512 f;
  has_file_name = true;
  file_name_length = length (copy_text 512 f);
  start_position = o.master_file_pos;
  table_map_events = load_maps o.saved [];
}

unfoldable pub new_listener : Options → Listener
new_listener o = set_position o.master_file_name o (blank_listener o)

-- in_process_global
unfoldable pub in_process_global : Listener → ℕ
in_process_global l = if is_running l.state then 1 else 0

-- in_process
unfoldable pub in_process : Listener → ℕ
in_process l = if is_running l.state then state_code l.state else state_code created

-- get_last_sucessful_position
unfoldable pub get_last_sucessful_position : ℕ → Listener → Bytes × ℕ
get_last_sucessful_position file_maxlen l =
    if l.has_file_name then (copy_text file_maxlen l.m_log_nm, l.start_position) else ([], 0)

-- table_add: 500 outside CREATED. (`push_back` fails only without memory: taken to succeed.)
unfoldable pub add_table : State → Bytes → Bytes → Listener → Listener × ℕ
add_table created db tbl l = (
  record l {
    tables =
        l.tables
        ++ record {
          db_name = copy_text 321 db;
          tbl_name = copy_text 321 tbl;
          col_count = 0;
          columns = none;
        }
          ∷ [];
  },
  0,
)
add_table _ db tbl l = (l, 500)

unfoldable pub table_add : Bytes → Bytes → Listener → Listener × ℕ
unfolding add_table
table_add db tbl l = add_table l.state db tbl l

-- What start_replication reports.
pub data StartError : Type 0 where
  start_order no_thread_attr no_joinable_attr no_thread : StartError

-- Which of the three pthread calls fails, if one does.
pub data ThreadCalls : Type 0 where
  attr_init_fails attr_set_fails create_fails thread_starts : ThreadCalls

unfoldable pub started : ThreadCalls → Listener → Outcome (Listener × StartError) Listener
started attr_init_fails l = err (record l { state = ended }, no_thread_attr)
started attr_set_fails l = err (record l { state = ended }, no_joinable_attr)
started create_fails l = err (record l { state = ended; need_stop = false }, no_thread)
started thread_starts l = ok (record l {
  need_stop = false;
  state = if l.position_was_setted then inprocess else inprocess_1;
})

unfoldable pub start_from :
    State → ThreadCalls → Listener → Outcome (Listener × StartError) Listener
unfolding started
start_from prepared calls l = started calls l
start_from _ calls l = err (l, start_order)

-- start_replication: the swap PREPARED → POST_PREPARED comes first.
unfoldable pub start_replication : ThreadCalls → Listener → Outcome (Listener × StartError) Listener
unfolding start_from
start_replication calls l = start_from l.state calls l

-- stop_replication. `thread` is what the replication thread makes of the listener once it is told to
-- stop: `none` where it has not ended within the 41 waits of 100 ms. It is cancelled then, the state
-- is swapped, and the result is that of pthread_cancel.
unfoldable pub stop_replication :
    (thread : Listener → Option Listener) (cancel_code : ℕ) → Listener → Listener × ℕ
stop_replication thread cancel_code l =
    let told = record l { need_stop = true } in
    if is_running l.state
    then elim (thread told) [
      | some k ↦ (k, 0)
      | none ↦ (record told { state = end_running l.state }, cancel_code)
    ]
    else (l, 0)

-- The destructor: it stops a running listener, closes the connection, and frees the columns of the
-- tables, the description event and the table maps.
unfoldable pub destroy :
    (thread : Listener → Option Listener) (cancel_code : ℕ) → Listener → Listener
destroy thread cancel_code l = record ((stop_replication thread cancel_code l).0) {
  connected = false;
  tables = (tables_clear ((stop_replication thread cancel_code l).0).tables).1;
  has_description = false;
  table_map_events = [];
}

-- get_tablemap_events: copies of the stored events, once the listener has ended.
pub data TablemapError : Type 0 where
  tablemap_order no_memory_for_map : TablemapError

-- The uint32 at EVENT_LEN_OFFSET, and a copy of as many bytes of the event.
unfoldable pub map_buffer : Malloc → Bytes → Outcome TablemapError Bytes
map_buffer malloc buf = do
  len ← load 4 (drop 9 buf)
  block ← alloc malloc (u32 (little_endian len + 1)) no_memory_for_map
  load (little_endian len) buf

unfoldable pub map_buffers :
    (ℕ → Malloc) → List (ℕ × TableMapEvent) → Outcome TablemapError (List Bytes)
map_buffers heap [] = ok []
map_buffers heap ((k, e) ∷ es) = do
  b ← map_buffer (heap 0) e.temp_buf
  bs ← map_buffers (λ i. heap (i + 1)) es
  ok (b ∷ bs)

unfoldable pub tablemaps_in : State → (ℕ → Malloc) → Listener → Outcome TablemapError (List Bytes)
unfolding map_buffers
tablemaps_in ended heap l = map_buffers heap l.table_map_events
tablemaps_in _ heap l = err tablemap_order

unfoldable pub get_tablemap_events : (ℕ → Malloc) → Listener → Outcome TablemapError (List Bytes)
unfolding tablemaps_in
get_tablemap_events heap l = tablemaps_in l.state heap l
