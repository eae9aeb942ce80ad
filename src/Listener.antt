-- ===== src/Listener.antt =====
-- mysql_rpl_listener_2 (mysql_rpl_listener_2/mysql_rpl_listener_2.h): the state of a listener.
pub mod Tables
pub mod Lifecycle
pub mod Cleanup
pub mod Step
pub mod Query
pub mod Cache
pub mod Deliver
pub mod Process
pub mod Thread
pub mod Prepare
pub mod Spec
pub mod TableLaws
pub mod Refine
pub mod RefineCache
pub mod RefineRows
pub mod RefineThread
pub mod Brackets
pub mod Safety
pub mod MapLaws
pub mod ReadyChecks
pub mod Ready
pub mod Position
pub mod Order
pub mod Frame
pub mod WellFormed
pub mod Ends
pub mod SoundPrepare
pub mod Sound
pub mod Session
pub mod Steady
pub mod Live
pub mod LiveThread
pub mod LiveWellFormed
pub mod LiveSession
pub mod Uses
pub mod Quiet
pub mod Restart
pub mod Rounds
pub mod Transaction
pub mod Lost
pub mod Moves
use mysql_replication_c.Base.{ℕ, Bool, true, false, List, [], ◌∷◌, ◌++◌, Option, none, some}
use mysql_replication_c.Text.{Bytes}
use mysql_replication_c.Row.{ColumnType, ColInfo, DisplayBlobs}
use mysql_replication_c.Rows.{Rows}
use mysql_replication_c.Event.{TableMapEvent}

-- __State
pub data State : Type 0 where
  created post_created prepared post_prepared inprocess_1 inprocess ended : State

-- The numbers of the states.
unfoldable pub state_code : State → ℕ
state_code created = 0
state_code post_created = 10
state_code prepared = 40
state_code post_prepared = 50
state_code inprocess_1 = 80
state_code inprocess = 90
state_code ended = 100

-- _listening_tables: `columns` is null until the first rows event of the table.
pub record ListeningTable : Type 0 where
  pub db_name : Bytes
  pub tbl_name : Bytes
  pub col_count : ℕ
  pub columns : Option (List ColInfo)

-- _repl_log_x_rows as `on_row` gets it
pub record RowsCall : Type 0 where
  pub when : ℕ
  pub tbl_id : ℕ
  pub tbl_name : Bytes
  pub db_name : Bytes
  pub col_names : List Bytes
  pub col_types : List ColumnType
  pub rows : Rows

-- A call of one of the three functions of the user.
pub data Call : Type 0 where
  row_call : RowsCall → Call
  heartbeat_call : (when : ℕ) → Call
  start_call : (when : ℕ) → Call
  commit_call : (when : ℕ) → Call

-- The fields that the methods read or write. `connected` is `my_conn != NULL`; `description` is
-- whether there is a format description event, and in it whether it names CRC32; the three `on_`
-- fields tell whether the user's function is not null; `calls` are the calls made so far; `turn`
-- counts the events, and with it the state of the heap.
pub record Listener : Type 0 where
  pub in_transaction : ℕ
  pub position_was_setted : Bool
  pub connected : Bool
  pub has_file_name : Bool
  pub file_name_length : ℕ
  pub start_position : ℕ
  pub size : ℕ
  pub on_row : Bool
  pub on_heartbeat : Bool
  pub on_transaction : Bool
  pub tables : List ListeningTable
  pub state : State
  pub m_log_nm : Bytes
  pub need_stop : Bool
  pub display_blobs : DisplayBlobs
  pub has_description : Bool
  pub table_map_events : List (ℕ × TableMapEvent)
  pub calls : List Call
  pub turn : ℕ

abbrev pub call : Call → Listener → Listener
call c l = record l { calls = l.calls ++ c ∷ [] }

-- `__sync_bool_compare_and_swap`: the two swaps of a running listener.
unfoldable pub promote : State → State
promote inprocess_1 = inprocess
promote s = s

unfoldable pub end_running : State → State
end_running inprocess_1 = ended
end_running inprocess = ended
end_running s = s

abbrev pub is_inprocess : State → Bool
is_inprocess inprocess = true
is_inprocess _ = false

abbrev pub is_running : State → Bool
is_running inprocess_1 = true
is_running inprocess = true
is_running _ = false
