-- ===== src/Listener/Moves.antt =====
-- The position over one event, and a commit that is told by a query event (process_event and
-- process_replication_thread_fnc in mysql_rpl_listener_2/mysql_rpl_listener_2.cc).
use mysql_replication_c.Base.{
  ℕ, ◌+◌, ◌-◌, ◌%◌, ◌^◌, ◌≡◌, refl, ap, ◌∙◌, Bool, true, false, if_true, if_false, length,
}
use mysql_replication_c.Base.Outcome.{ok, err, fault}
use mysql_replication_c.Block.{Malloc, c_str}
use mysql_replication_c.Mysql.{Mysql}
use mysql_replication_c.Event.{
  Event, query_event, xid_event, xa_prepare_event, gtid_event, format_description_event,
  table_map_event, rotate_event, rows_event, payload_event, other_event,
}
use mysql_replication_c.Listener.{Listener}
use mysql_replication_c.Listener.Tables.{str_eq}
use mysql_replication_c.Listener.Step.{Step, reports_commit, commit_transaction}
use mysql_replication_c.Listener.Query.{
  commit_text, begins, commits, begin_transaction, heartbeat_unchecked, end_transaction,
  process_query,
}
use mysql_replication_c.Listener.Deliver.{process_rows}
use mysql_replication_c.Listener.Process.{process_event, process_table_map, next_turn, as_heartbeat}
use mysql_replication_c.Listener.Thread.{on_packet, event, advance_position}
use mysql_replication_c.Listener.Spec.{Keeps}
use mysql_replication_c.Listener.Frame.{
  IsFramed, Frames, commit_transaction-IsFramed, as_heartbeat-IsFramed, process_query-Frames,
  process_rows-Frames,
}

-- An event that is one of a file: not a header, a change of the file or a payload.
abbrev pub is_plain : Event → Bool
is_plain format_description_event = false
is_plain (rotate_event ident) = false
is_plain (payload_event p) = false
is_plain _ = true

-- What the position rests on is as in `l`.
abbrev Stands : Listener → Listener → Type 0
Stands l k = (k.start_position ≡ l.start_position) × (k.size ≡ l.size) × (k.m_log_nm ≡ l.m_log_nm)

IsFramed-Stands : (l k : Listener) → IsFramed l k → Stands l k
IsFramed-Stands l k h = (
  ap (λ (j : Listener). j.start_position) h,
  ap (λ (j : Listener). j.size) h,
  ap (λ (j : Listener). j.m_log_nm) h,
)

Frames-Stand : (l : Listener) (r : Step) → Frames l r → Keeps (Stands l) r
Frames-Stand l (ok k) h = IsFramed-Stands l k h
Frames-Stand l (err (k, f)) h = IsFramed-Stands l k h
Frames-Stand l fault h = tt

module _ (m : Mysql) (heap : ℕ → ℕ → Malloc) where
  plain-Stands :
      (e : Event) (l : Listener) → is_plain e ≡ true → Keeps (Stands l) (process_event m heap e l)
  unfolding process_event process_table_map
  plain-Stands (query_event when text) l h =
      Frames-Stand l (process_query (heap l.turn 0) when text (next_turn l))
        (process_query-Frames (heap l.turn 0) when text (next_turn l))
  plain-Stands (xid_event when) l h =
      IsFramed-Stands l (commit_transaction when (next_turn l))
        (commit_transaction-IsFramed when (next_turn l))
  plain-Stands (xa_prepare_event when) l h =
      IsFramed-Stands l (commit_transaction when (next_turn l))
        (commit_transaction-IsFramed when (next_turn l))
  plain-Stands (gtid_event when) l h =
      IsFramed-Stands l (as_heartbeat when (next_turn l)) (as_heartbeat-IsFramed when (next_turn l))
  plain-Stands format_description_event l h = absurd (let no : false ≡ true = h in cc)
  plain-Stands (table_map_event e) l h = (refl, refl, refl)
  plain-Stands (rotate_event ident) l h = absurd (let no : false ≡ true = h in cc)
  plain-Stands (rows_event ev) l h =
      Frames-Stand l (process_rows m (heap l.turn) ev (next_turn l))
        (process_rows-Frames m (heap l.turn) ev (next_turn l))
  plain-Stands (payload_event p) l h = absurd (let no : false ≡ true = h in cc)
  plain-Stands (other_event when) l h =
      IsFramed-Stands l (as_heartbeat when (next_turn l)) (as_heartbeat-IsFramed when (next_turn l))

  -- The listener stands behind the event: a packet has one byte in front of it.
  abbrev pub IsBehind : Listener → Step → Type 0
  IsBehind l (ok k) =
      (k.start_position ≡ (l.start_position + l.size - 1) % 2 ^ 64) × (k.m_log_nm ≡ l.m_log_nm)
  IsBehind l (err (k, f)) = (k.start_position ≡ l.start_position) × (k.m_log_nm ≡ l.m_log_nm)
  IsBehind l fault = Unit {0}

  -- An event of a file, other than its header, a change of the file or a payload: where it is
  -- processed, the position moves by the size of the packet less one, in 64 bits, and where that
  -- fails it stays; the file is the same.
  pub position-IsBehind :
      (e : Event) (l : Listener) → is_plain e ≡ true → IsBehind l (on_packet m heap (event e) l)
  unfolding on_packet advance_position
  position-IsBehind e l h = given (process_event m heap e l) (plain-Stands e l h)
    where
      given :
          (r : Step)
          → Keeps (Stands l) r
          → IsBehind l (elim r as (λ s. Step) [
            | ok k ↦ ok (advance_position k)
            | err f ↦ err f
            | fault ↦ fault
          ])
      given (ok k) p = (rw (p.0, p.1) refl, p.2)
      given (err (k, f)) p = (p.0, p.2)
      given fault p = tt

-- A transaction that was opened with rows and is ended by a query event COMMIT, for a listener with
-- an on_rpl_transaction and without an on_rpl_heartbeat: the null pointer is called.
pub commit_query_fault :
    (malloc : Malloc) (when : ℕ) (l : Listener)
    → malloc (length commit_text + 8) ≡ true
    → reports_commit l ≡ true
    → l.on_heartbeat ≡ false
    → process_query malloc when commit_text l ≡ fault
unfolding process_query begin_transaction end_transaction begins commits heartbeat_unchecked c_str
    str_eq
commit_query_fault malloc when l granted open_now missing =
    if_true _ _ _ granted
    ∙ (if_true _ _ _ open_now
        ∙ if_false _ _ _
            (ap (λ (j : Listener). j.on_heartbeat) (commit_transaction-IsFramed when l) ∙ missing))
