-- ===== src/Listener/RefineThread.antt =====
-- process_event and the replication thread (mysql_rpl_listener_2/mysql_rpl_listener_2.cc), against the
-- specification.
use mysql_replication_c.Base.{
  ℕ, ◌==◌, Bool, true, false, List, [], ◌∷◌, Bool-cases, inl, inr, if◌then◌else◌, ◌||◌,
}
use mysql_replication_c.Base.Outcome.{ok, err, fault}
use mysql_replication_c.Block.{Malloc}
use mysql_replication_c.Mysql.{Mysql}
use mysql_replication_c.Event.{
  Event, query_event, xid_event, xa_prepare_event, gtid_event, format_description_event,
  table_map_event, rotate_event, rows_event, payload_event, other_event, Payload, end_of_payload,
  payload_item, payload_fails,
}
use mysql_replication_c.Listener.{Listener}
use mysql_replication_c.Listener.Step.{Step}
use mysql_replication_c.Listener.Process.{
  process_event, process_payload, process_table_map, next_turn,
}
use mysql_replication_c.Listener.Thread.{
  Packet, Fetch, Turn, on_heartbeat_event, on_packet, one_fetch, event_loop, advance_position,
  no_memory_for_packet, bad_heartbeat, heartbeat, unreadable, event, fetch_error, fetched,
}
use mysql_replication_c.Listener.Spec.{promotes, beats, done, more, Visibles-trans, Refines}
use mysql_replication_c.Listener.Refine.{
  Refines-after, commit_transaction_lem, as_heartbeat_lem, process_query_lem, process_format_lem,
  process_rotate_lem,
}
use mysql_replication_c.Listener.RefineRows.{process_rows_lem}

-- The rest of a loop, behind a step that goes on unless it stops.
pub Refines-loop :
    (l : Listener) (r : Step) (rest : Listener → Step)
    → Refines l r
    → ((k : Listener) → Refines k (rest k))
    → Refines l (elim r [
      | ok k ↦ elim k.need_stop [ true ↦ ok k | false ↦ rest k ]
      | err f ↦ err f
      | fault ↦ fault
    ])
Refines-loop l (ok k) rest p q = elim (Bool-cases k.need_stop) [
  | inl e ↦ rw e p
  | inr e ↦ rw e (Refines-after l k (rest k) p (q k))
]
Refines-loop l (err (k, f)) rest p q = p
Refines-loop l fault rest p q = tt

Refines-if : (b : Bool) (l : Listener) (r : Step) → Refines l r → Refines l (if b then r else fault)
Refines-if true l r p = p
Refines-if false l r p = tt

module _ (m : Mysql) (heap : ℕ → ℕ → Malloc) where
  mutual
    unfolding process_event process_payload process_table_map

    event-Refines : (e : Event) (l : Listener) → Refines l (process_event m heap e l)
    event-Refines (query_event when text) l =
        process_query_lem (heap l.turn 0) when text (next_turn l)
    event-Refines (xid_event when) l = commit_transaction_lem when (next_turn l)
    event-Refines (xa_prepare_event when) l = commit_transaction_lem when (next_turn l)
    event-Refines (gtid_event when) l =
        Visibles-trans (as_heartbeat_lem when (next_turn l)) (more promotes done)
    event-Refines format_description_event l = process_format_lem (next_turn l)
    event-Refines (table_map_event e) l = done
    event-Refines (rotate_event ident) l = process_rotate_lem ident (next_turn l)
    event-Refines (rows_event ev) l = process_rows_lem m (heap l.turn) ev (next_turn l)
    event-Refines (payload_event p) l =
        Refines-if l.has_description l (process_payload m heap p (next_turn l))
          (payload-Refines p (next_turn l))
    event-Refines (other_event when) l = as_heartbeat_lem when (next_turn l)

    payload-Refines : (p : Payload) (l : Listener) → Refines l (process_payload m heap p l)
    payload-Refines end_of_payload l = done
    payload-Refines (payload_fails e p) l = done
    payload-Refines (payload_item e p) l =
        Refines-loop l (process_event m heap e l) (process_payload m heap p) (event-Refines e l)
          (payload-Refines p)

  heartbeat-Refines :
      (readable : Bool) (when : ℕ) (l : Listener) → Refines l (on_heartbeat_event readable when l)
  unfolding on_heartbeat_event
  heartbeat-Refines readable when l = elim (Bool-cases l.has_description) [
    | inr a ↦ rw a done
    | inl a ↦ elim (Bool-cases readable) [
      | inr b ↦ rw (a, b) done
      | inl b ↦ elim (Bool-cases l.on_heartbeat) [
        | inl c ↦ rw (a, b, c) (more promotes (more (beats when) done))
        | inr c ↦ rw (a, b, c) (more promotes done)
      ]
    ]
  ]

  packet-Refines : (p : Packet) (l : Listener) → Refines l (on_packet m heap p l)
  unfolding on_packet advance_position
  packet-Refines no_memory_for_packet l = done
  packet-Refines bad_heartbeat l = heartbeat-Refines false 0 l
  packet-Refines (heartbeat when) l = heartbeat-Refines true when l
  packet-Refines (unreadable e) l = done
  packet-Refines (event e) l = advanced (process_event m heap e l) (event-Refines e l)
    where
      advanced :
          (r : Step)
          → Refines l r
          → Refines l (elim r [ ok k ↦ ok (advance_position k) | err f ↦ err f | fault ↦ fault ])
      advanced (ok k) p = p
      advanced (err f) p = p
      advanced fault p = tt

  pub fetch-Refines : (f : Fetch) (l : Listener) → Refines l (one_fetch m heap f l)
  unfolding one_fetch
  fetch-Refines fetch_error l = done
  fetch-Refines (fetched size p) l = elim (Bool-cases (size == 0)) [
    | inl a ↦ rw a done
    | inr a ↦ rw a (packet-Refines p (record l { size = size }))
  ]

  loop-Refines : (ts : List Turn) (l : Listener) → Refines l (event_loop m heap ts l)
  unfolding event_loop
  loop-Refines [] l = done
  loop-Refines (t ∷ ts) l =
      Refines-loop l (one_fetch m heap t.fetch (record l { need_stop = l.need_stop || t.stop }))
        (event_loop m heap ts)
        (fetch-Refines t.fetch (record l { need_stop = l.need_stop || t.stop })) (loop-Refines ts)

-- Each event is processed by visible steps only: whatever it is, a return and an error of
-- process_event leave the calls, the state and the transaction mark where such steps lead.
pub process_event-Refines :
    (m : Mysql) (heap : ℕ → ℕ → Malloc) (e : Event) (l : Listener)
    → Refines l (process_event m heap e l)
process_event-Refines m heap e l = event-Refines m heap e l

-- The loop of the replication thread goes by visible steps only, whatever the server sends and
-- whenever the listener is told to stop.
pub event_loop-Refines :
    (m : Mysql) (heap : ℕ → ℕ → Malloc) (ts : List Turn) (l : Listener)
    → Refines l (event_loop m heap ts l)
event_loop-Refines m heap ts l = loop-Refines m heap ts l
