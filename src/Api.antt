-- ===== src/Api.antt =====
-- The C interface (mysql_rpl_listener.cc): a handle is a pointer to a listener, and each function
-- gives a return code. The exceptions that the functions turn into codes of their own are those of
-- the C++ library, which the model of the methods has none of; a fault has no code.
pub mod Codes
use mysql_replication_c.Base.{ℕ, List, Option, none, some}
use mysql_replication_c.Base.Outcome.{Outcome, ok, err, fault}
use mysql_replication_c.Text.{Bytes}
use mysql_replication_c.Block.{Malloc}
use mysql_replication_c.Listener.{Listener}
use mysql_replication_c.Listener.Lifecycle.{
  Options, new_listener, ThreadCalls, start_replication, stop_replication, in_process, table_add,
  get_last_sucessful_position, get_tablemap_events,
}
use mysql_replication_c.Listener.Cleanup.{destroy_tablemap_events}
use mysql_replication_c.Listener.Prepare.{Server, prepare_replication}

abbrev pub Handle : Type 0
Handle = Option Listener

-- mysql_rpl_listener__init: 100 where the constructor throws.
unfoldable pub init : Option Options → Handle × ℕ
init none = (none, 100)
init (some o) = (some (new_listener o), 0)

-- A result is a return of 0; an error is the code with the listener as it is then.
unfoldable pub prepare : Server → Handle → Outcome (Handle × ℕ) Handle
prepare s none = err (none, 1010)
prepare s (some l) = elim (prepare_replication s l) [
  | ok k ↦ ok (some k)
  | err (k, e) ↦ err (some k, 1020)
  | fault ↦ fault
]

unfoldable pub start : ThreadCalls → Handle → Outcome (Handle × ℕ) Handle
start calls none = err (none, 1010)
start calls (some l) = elim (start_replication calls l) [
  | ok k ↦ ok (some k)
  | err (k, e) ↦ err (some k, 1020)
  | fault ↦ fault
]

unfoldable pub stop : (Listener → Option Listener) → ℕ → Handle → Handle × ℕ
stop thread cancel_code none = (none, 1010)
stop thread cancel_code (some l) = let r = stop_replication thread cancel_code l in (some r.0, r.1)

-- mysql_rpl_listener__destroy: the handle is null then.
unfoldable pub destroy_handle : Handle → Handle × ℕ
destroy_handle none = (none, 1010)
destroy_handle (some l) = (none, 0)

-- REPL_PROC_STATUS_OFF is 0.
unfoldable pub in_process_code : Handle → ℕ
in_process_code none = 0
in_process_code (some l) = in_process l

unfoldable pub add : Bytes → Bytes → Handle → Handle × ℕ
add db tbl none = (none, 1010)
add db tbl (some l) = let r = table_add db tbl l in (some r.0, r.1)

unfoldable pub get_last_sucess_pos : ℕ → Handle → Option (Bytes × ℕ) × ℕ
get_last_sucess_pos file_maxlen none = (none, 1010)
get_last_sucess_pos file_maxlen (some l) = (some (get_last_sucessful_position file_maxlen l), 0)

unfoldable pub get_tablemaps : (ℕ → Malloc) → Handle → Outcome ℕ (List Bytes)
get_tablemaps heap none = err 1010
get_tablemaps heap (some l) = elim (get_tablemap_events heap l) [
  | ok bs ↦ ok bs
  | err e ↦ err 1020
  | fault ↦ fault
]

-- mysql_rpl_listener__free_tablemaps: the buffers that are freed, the pointer, and the code.
unfoldable pub free_tablemaps :
    Option (Option (List Bytes)) → (List Bytes × Option (Option (List Bytes))) × ℕ
free_tablemaps maps = (destroy_tablemap_events maps, 0)
