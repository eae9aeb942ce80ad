-- ===== src/Listener/Thread.antt =====
-- process_replication_thread_fnc (mysql_rpl_listener_2/mysql_rpl_listener_2.cc): the loop that
-- fetches events until the stream ends, an error comes up, or the listener is stopped.
use mysql_replication_c.Base.{
  ℕ, ◌+◌, ◌-◌, ◌%◌, ◌^◌, Bool, true, false, ◌||◌, List, [], ◌∷◌, ◌==◌, if◌then◌else◌,
}
use mysql_replication_c.Base.Outcome.{ok, err, fault}
use mysql_replication_c.Text.{Bytes}
use mysql_replication_c.Block.{Malloc}
use mysql_replication_c.Mysql.{Mysql}
use mysql_replication_c.Event.{Event}
use mysql_replication_c.Listener.{
  Listener, State, inprocess, inprocess_1, ended, heartbeat_call, end_running,
}
use mysql_replication_c.Listener.Step.{
  Step, no_description, binlog_not_open, fetch_failed, end_of_stream, no_event_buffer,
  heartbeat_not_readable, heartbeat_without_description, event_not_readable, call_if, promoted,
}
use mysql_replication_c.Listener.Process.{process_event}

-- What a fetched packet is: one there is no memory for, a HEARTBEAT_LOG_EVENT with its time or one
-- that does not parse, an event that is not deserialized, or an event.
pub data Packet : Type 0 where
  no_memory_for_packet bad_heartbeat : Packet
  heartbeat : ℕ → Packet
  unreadable : Bytes → Packet
  event : Event → Packet

-- What mysql_binlog_fetch gives: an error, or a packet with its size, which is 0 at the end.
pub data Fetch : Type 0 where
  fetch_error : Fetch
  fetched : ℕ → Packet → Fetch

-- A round of the loop: what is fetched in it, and whether `need_stop` is set meanwhile by
-- stop_replication.
pub record Turn : Type 0 where
  pub fetch : Fetch
  pub stop : Bool

-- `start_position += size - 1`, in 64 bits
unfoldable pub advance_position : Listener → Listener
advance_position l = record l { start_position = (l.start_position + l.size - 1) % 2 ^ 64 }

-- The HEARTBEAT_LOG_EVENT: it does not move the position.
unfoldable pub on_heartbeat_event : Bool → ℕ → Listener → Step
on_heartbeat_event readable when l =
    if l.has_description
    then if readable
      then ok (call_if l.on_heartbeat (heartbeat_call when) (promoted l))
      else err (l, heartbeat_not_readable)
    else err (l, heartbeat_without_description)

module _ (m : Mysql) (heap : ℕ → ℕ → Malloc) where
  unfoldable pub on_packet : Packet → Listener → Step
  on_packet no_memory_for_packet l = err (l, no_event_buffer)
  on_packet bad_heartbeat l = on_heartbeat_event false 0 l
  on_packet (heartbeat when) l = on_heartbeat_event true when l
  on_packet (unreadable e) l = err (l, event_not_readable e)
  on_packet (event e) l = elim (process_event m heap e l) [
    | ok k ↦ ok (advance_position k)
    | err f ↦ err f
    | fault ↦ fault
  ]

  unfoldable pub one_fetch : Fetch → Listener → Step
  one_fetch fetch_error l = err (l, fetch_failed)
  one_fetch (fetched size p) l =
      if size == 0
      then err (record l { size = 0 }, end_of_stream)
      else on_packet p (record l { size = size })

  -- `while ( 1 )`, over what the server sends; a stream that is at its end fails to fetch.
  unfoldable pub event_loop : List Turn → Listener → Step
  event_loop [] l = err (l, fetch_failed)
  event_loop (t ∷ ts) l =
      elim (one_fetch t.fetch (record l { need_stop = l.need_stop || t.stop })) [
        | ok k ↦ elim k.need_stop [ true ↦ ok k | false ↦ event_loop ts k ]
        | err f ↦ err f
        | fault ↦ fault
      ]

-- The swap of the state that was awaited, which is inprocess_1 without a given position.
unfoldable pub end_awaited : Bool → State → State
end_awaited true inprocess = ended
end_awaited false inprocess_1 = ended
end_awaited _ s = s

-- `mysql_close` and the end before the loop.
unfoldable pub give_up : Listener → Listener
unfolding end_awaited
give_up l = record l { connected = false; state = end_awaited l.position_was_setted l.state }

unfoldable pub close_thread : Listener → Listener
close_thread l = record l { connected = false; state = end_running l.state }

-- Whether the description event is made, and whether the stream opens.
pub data Opening : Type 0 where
  description_fails open_fails opens : Opening

-- The table maps that the listener was made with are cleared here.
abbrev pub opened : Listener → Listener
opened l = record l { has_description = true; table_map_events = [] }

unfoldable pub replication_thread : Mysql → (ℕ → ℕ → Malloc) → Opening → List Turn → Listener → Step
replication_thread m heap description_fails ts l =
    err (give_up (record l { has_description = false }), no_description)
replication_thread m heap open_fails ts l = err (give_up (opened l), binlog_not_open)
replication_thread m heap opens ts l = elim (event_loop m heap ts (opened l)) [
  | ok k ↦ ok (close_thread k)
  | err (k, f) ↦ err (close_thread k, f)
  | fault ↦ fault
]
