-- ===== src/Listener/Step.antt =====
-- What the processing of an event comes to, and the calls of the user's functions that its parts
-- share (process_event in mysql_rpl_listener_2/mysql_rpl_listener_2.cc).
use mysql_replication_c.Base.{ℕ, Bool, ◌&&◌, ltb, if◌then◌else◌}
use mysql_replication_c.Base.Outcome.{Outcome}
use mysql_replication_c.Text.{Bytes}
use mysql_replication_c.Row.{Message}
use mysql_replication_c.Event.{PayloadError}
use mysql_replication_c.Listener.{Listener, Call, commit_call, call, promote, is_inprocess}

-- The errors that the thread reports.
pub data Failure : Type 0 where
  out_of_memory no_columns_memory metadata_missing metadata_invalid metadata_names
        metadata_signedness no_rows_memory rows_without_map :
      Failure
  rows_failed : Message → Failure
  payload_failed : PayloadError → Failure
  no_description binlog_not_open fetch_failed end_of_stream no_event_buffer heartbeat_not_readable
        heartbeat_without_description :
      Failure
  event_not_readable : Bytes → Failure

-- An error return keeps the listener as it is then.
abbrev pub Step : Type 0
Step = Outcome (Listener × Failure) Listener

-- A call of a function of the user that is there.
abbrev pub call_if : Bool → Call → Listener → Listener
call_if present c l = if present then call c l else l

-- The swap INPROCESS_1 → INPROCESS
abbrev pub promoted : Listener → Listener
promoted l = record l { state = promote l.state }

-- Whether the end of a transaction is reported.
abbrev pub reports_commit : Listener → Bool
reports_commit l = ltb 1 l.in_transaction && (is_inprocess l.state && l.on_transaction)

-- XID_EVENT, XA_PREPARE_LOG_EVENT, and the part of QUERY_EVENT for "COMMIT".
unfoldable pub commit_transaction : ℕ → Listener → Listener
commit_transaction when l =
    promoted (record (call_if (reports_commit l) (commit_call when) l) { in_transaction = 0 })
