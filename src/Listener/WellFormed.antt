-- ===== src/Listener/WellFormed.antt =====
-- The fields of a listener that belong together: the table maps as a std::map, the name of the file
-- and its length, the position (mysql_rpl_listener_2/mysql_rpl_listener_2.cc), from packet to packet.
use mysql_replication_c.Base.{
  ℕ, ◌-◌, ◌+◌, ◌<◌, ◌^◌, ◌≡◌, refl, ◌∙◌, ap, subst, sym, Bool, true, false, ltb, ◌==◌, Bool-cases,
  inl, inr, length, length-take, if◌then◌else◌, arith,
}
use mysql_replication_c.Base.Outcome.{ok, err, fault}
use mysql_replication_c.Text.{Bytes}
use mysql_replication_c.Block.{Malloc, c_str}
use mysql_replication_c.Mysql.{Mysql}
use mysql_replication_c.Event.{
  Event, query_event, xid_event, xa_prepare_event, gtid_event, format_description_event,
  table_map_event, rotate_event, rows_event, payload_event, other_event, Payload, end_of_payload,
  payload_item, payload_fails, TableMapEvent,
}
use mysql_replication_c.Listener.{Listener}
use mysql_replication_c.Listener.Lifecycle.{copy_text}
use mysql_replication_c.Listener.Step.{Step, commit_transaction}
use mysql_replication_c.Listener.Query.{process_query}
use mysql_replication_c.Listener.Deliver.{process_rows}
use mysql_replication_c.Listener.Process.{
  process_event, process_payload, process_table_map, process_format, process_rotate, next_turn,
  same_file, as_heartbeat, new_name,
}
use mysql_replication_c.Listener.Thread.{
  Packet, Fetch, on_heartbeat_event, on_packet, one_fetch, advance_position, no_memory_for_packet,
  bad_heartbeat, heartbeat, unreadable, event, fetch_error, fetched,
}
use mysql_replication_c.Listener.Spec.{Keeps}
use mysql_replication_c.Listener.MapLaws.{IsMap, IsKeyed, find-store, store-IsKeyed}
use mysql_replication_c.Listener.Frame.{
  IsFramed, Frames, commit_transaction-IsFramed, as_heartbeat-IsFramed, process_query-Frames,
  process_rows-Frames,
}

-- The keys of the table maps rise and are their ids, the stored length is that of the name, the name fits its array
-- of 512 bytes with a NUL behind it, and the position is one of 64 bits.
abbrev pub IsWellFormed : Listener → Type 0
IsWellFormed l =
    IsMap l.table_map_events
    × (l.file_name_length ≡ length l.m_log_nm)
    × (length l.m_log_nm < 512)
    × (l.start_position < 2 ^ 64)
    × IsKeyed l.table_map_events

-- What is kept from `l` to `k`: the stop request, whether there is a file name, how the listener was
-- positioned, and well-formedness.
abbrev pub Kept : Listener → Listener → Type 0
Kept l k =
    (k.need_stop ≡ l.need_stop)
    × (k.has_file_name ≡ l.has_file_name)
    × (k.position_was_setted ≡ l.position_was_setted)
    × (IsWellFormed l → IsWellFormed k)

pub Kept-refl : (l : Listener) → Kept l l
Kept-refl l = (refl, refl, refl, λ h. h)

Kept-trans : (l k j : Listener) → Kept l k → Kept k j → Kept l j
Kept-trans l k j p q = (q.0 ∙ p.0, q.1 ∙ p.1, q.2 ∙ p.2, λ h. q.3 (p.3 h))

IsFramed-Kept : (l k : Listener) → IsFramed l k → Kept l k
IsFramed-Kept l k h = (
  ap (λ (j : Listener). j.need_stop) h,
  ap (λ (j : Listener). j.has_file_name) h,
  ap (λ (j : Listener). j.position_was_setted) h,
  λ w. subst IsWellFormed (sym h) w,
)

abbrev pub Keeping : Listener → Step → Type 0
Keeping l r = Keeps (Kept l) r

Frames-Keeping : (l : Listener) (r : Step) → Frames l r → Keeping l r
Frames-Keeping l (ok k) h = IsFramed-Kept l k h
Frames-Keeping l (err (k, f)) h = IsFramed-Kept l k h
Frames-Keeping l fault h = tt

pub Keeping-after : (l k : Listener) (r : Step) → Kept l k → Keeping k r → Keeping l r
Keeping-after l k (ok j) p q = Kept-trans l k j p q
Keeping-after l k (err (j, f)) p q = Kept-trans l k j p q
Keeping-after l k fault p q = tt

process_format-Kept : (l : Listener) → Kept l (process_format l)
unfolding process_format
process_format-Kept l = elim (Bool-cases (l.start_position == 4)) [
  | inl a ↦ rw a (Kept-refl l)
  | inr a ↦ rw a (Kept-refl l)
]

process_table_map-Kept : (e : TableMapEvent) (l : Listener) → Kept l (process_table_map e l)
unfolding process_table_map
process_table_map-Kept e l = (
  refl,
  refl,
  refl,
  λ w. (
    (find-store e l.table_map_events w.0).0,
    w.1,
    w.2,
    w.3,
    store-IsKeyed e l.table_map_events w.4,
  ),
)

-- A copy fits its array.
pub copy_text-fits : (n : ℕ) (text : Bytes) → 0 < n → length (copy_text n text) < n
copy_text-fits n text h = omega (arith, length-take (n - 1) text)

new_name-fits : (ident : Bytes) → length (new_name ident) < 512
new_name-fits ident = elim (Bool-cases (ltb 512 (length ident + 1))) [
  | inl a ↦ rw a (copy_text-fits 512 (c_str ident) (omega arith))
  | inr a ↦
      let fits = copy_text-fits (length ident + 1) (c_str ident) (omega arith) in
      rw a (ground (arith, fits, a))
]

process_rotate-Keeping : (ident : Bytes) (l : Listener) → Keeping l (process_rotate ident l)
unfolding process_rotate
process_rotate-Keeping ident l = elim (Bool-cases (same_file ident l)) [
  | inl a ↦ rw a (Kept-refl l)
  | inr a ↦ elim (Bool-cases l.has_file_name) [
    | inl b ↦
        rw (a, b) (refl, refl, refl, λ w. (w.0, refl, new_name-fits ident, (omega arith), w.4))
    | inr b ↦ rw (a, b) tt
  ]
]

-- The rest of a loop, behind a step that goes on unless it stops.
Keeping-loop :
    (l : Listener) (r : Step) (rest : Listener → Step)
    → Keeping l r
    → ((k : Listener) → Keeping k (rest k))
    → Keeping l (elim r [
      | ok k ↦ elim k.need_stop [ true ↦ ok k | false ↦ rest k ]
      | err f ↦ err f
      | fault ↦ fault
    ])
Keeping-loop l (ok k) rest p q = elim (Bool-cases k.need_stop) [
  | inl e ↦ rw e p
  | inr e ↦ rw e (Keeping-after l k (rest k) p (q k))
]
Keeping-loop l (err (k, f)) rest p q = p
Keeping-loop l fault rest p q = tt

Keeping-if : (b : Bool) (l : Listener) (r : Step) → Keeping l r → Keeping l (if b then r else fault)
Keeping-if true l r p = p
Keeping-if false l r p = tt

module _ (m : Mysql) (heap : ℕ → ℕ → Malloc) where
  mutual
    unfolding process_event process_payload

    event-Keeping : (e : Event) (l : Listener) → Keeping l (process_event m heap e l)
    event-Keeping (query_event when text) l =
        Frames-Keeping l (process_query (heap l.turn 0) when text (next_turn l))
          (process_query-Frames (heap l.turn 0) when text (next_turn l))
    event-Keeping (xid_event when) l =
        IsFramed-Kept l (commit_transaction when (next_turn l))
          (commit_transaction-IsFramed when (next_turn l))
    event-Keeping (xa_prepare_event when) l =
        IsFramed-Kept l (commit_transaction when (next_turn l))
          (commit_transaction-IsFramed when (next_turn l))
    event-Keeping (gtid_event when) l =
        IsFramed-Kept l (as_heartbeat when (next_turn l)) (as_heartbeat-IsFramed when (next_turn l))
    event-Keeping format_description_event l = process_format-Kept (next_turn l)
    event-Keeping (table_map_event e) l = process_table_map-Kept e (next_turn l)
    event-Keeping (rotate_event ident) l = process_rotate-Keeping ident (next_turn l)
    event-Keeping (rows_event ev) l =
        Frames-Keeping l (process_rows m (heap l.turn) ev (next_turn l))
          (process_rows-Frames m (heap l.turn) ev (next_turn l))
    event-Keeping (payload_event p) l =
        Keeping-if l.has_description l (process_payload m heap p (next_turn l))
          (payload-Keeping p (next_turn l))
    event-Keeping (other_event when) l =
        IsFramed-Kept l (as_heartbeat when (next_turn l)) (as_heartbeat-IsFramed when (next_turn l))

    payload-Keeping : (p : Payload) (l : Listener) → Keeping l (process_payload m heap p l)
    payload-Keeping end_of_payload l = Kept-refl l
    payload-Keeping (payload_fails e p) l = Kept-refl l
    payload-Keeping (payload_item e p) l =
        Keeping-loop l (process_event m heap e l) (process_payload m heap p) (event-Keeping e l)
          (payload-Keeping p)

  heartbeat-Keeping :
      (readable : Bool) (when : ℕ) (l : Listener) → Keeping l (on_heartbeat_event readable when l)
  unfolding on_heartbeat_event
  heartbeat-Keeping readable when l = elim (Bool-cases l.has_description) [
    | inr a ↦ rw a (Kept-refl l)
    | inl a ↦ elim (Bool-cases readable) [
      | inr b ↦ rw (a, b) (Kept-refl l)
      | inl b ↦ elim (Bool-cases l.on_heartbeat) [
        | inl c ↦ rw (a, b, c) (Kept-refl l)
        | inr c ↦ rw (a, b, c) (Kept-refl l)
      ]
    ]
  ]

  packet-Keeping : (p : Packet) (l : Listener) → Keeping l (on_packet m heap p l)
  unfolding on_packet advance_position
  packet-Keeping no_memory_for_packet l = Kept-refl l
  packet-Keeping bad_heartbeat l = heartbeat-Keeping false 0 l
  packet-Keeping (heartbeat when) l = heartbeat-Keeping true when l
  packet-Keeping (unreadable e) l = Kept-refl l
  packet-Keeping (event e) l = advanced (process_event m heap e l) (event-Keeping e l)
    where
      advanced :
          (r : Step)
          → Keeping l r
          → Keeping l (elim r [ ok k ↦ ok (advance_position k) | err f ↦ err f | fault ↦ fault ])
      advanced (ok k) p = (p.0, p.1, p.2, λ w. let v = p.3 w in (v.0, v.1, v.2, (omega arith), v.4))
      advanced (err f) p = p
      advanced fault p = tt

  pub fetch-Keeping : (f : Fetch) (l : Listener) → Keeping l (one_fetch m heap f l)
  unfolding one_fetch
  fetch-Keeping fetch_error l = Kept-refl l
  fetch-Keeping (fetched size p) l = elim (Bool-cases (size == 0)) [
    | inl a ↦ rw a (Kept-refl l)
    | inr a ↦ rw a (packet-Keeping p (record l { size = size }))
  ]
