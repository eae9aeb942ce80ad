-- ===== src/Listener/Frame.antt =====
-- What the processing of an event leaves as it is in the listener (process_event in
-- mysql_rpl_listener_2/mysql_rpl_listener_2.cc).
use mysql_replication_c.Base.{
  ℕ, ◌+◌, ◌≡◌, refl, ◌&&◌, ◌∙◌, [], ◌==◌, Bool-cases, Option-cases, inl, inr, length, Option, none,
  some, get_elem?,
}
use mysql_replication_c.Base.Outcome.{Outcome, ok, err, fault}
use mysql_replication_c.Text.{Bytes}
use mysql_replication_c.Block.{Malloc}
use mysql_replication_c.Mysql.{Mysql}
use mysql_replication_c.Event.{TableMapEvent, RowsLogEvent}
use mysql_replication_c.Listener.{
  Listener, ListeningTable, RowsCall, row_call, created, is_inprocess,
}
use mysql_replication_c.Listener.Tables.{find_map, find_table}
use mysql_replication_c.Listener.Step.{Step, Failure, reports_commit, commit_transaction, call_if}
use mysql_replication_c.Listener.Query.{
  begins, commits, begin_transaction, heartbeat_unchecked, end_transaction, process_query,
}
use mysql_replication_c.Listener.Process.{as_heartbeat}
use mysql_replication_c.Listener.Cache.{cache_columns}
use mysql_replication_c.Listener.Deliver.{
  open_transaction, set_table, rows_call, deliver_rows, table_rows, listened_rows, process_rows,
}
use mysql_replication_c.Listener.Spec.{Keeps}

-- The fields other than those of the transaction, the calls and the tables.
abbrev pub frame : Listener → Listener
frame l = record l { state = created; calls = []; in_transaction = 0; tables = []; turn = 0 }

abbrev pub IsFramed : Listener → Listener → Type 0
IsFramed l k = frame k ≡ frame l

abbrev pub Frames : Listener → Step → Type 0
Frames l r = Keeps (IsFramed l) r

Frames-after : (l k : Listener) (r : Step) → IsFramed l k → Frames k r → Frames l r
Frames-after l k (ok j) h p = p ∙ h
Frames-after l k (err (j, f)) h p = p ∙ h
Frames-after l k fault h p = tt

pub commit_transaction-IsFramed : (when : ℕ) (l : Listener) → IsFramed l (commit_transaction when l)
unfolding commit_transaction
commit_transaction-IsFramed when l = elim (Bool-cases (reports_commit l)) [
  | inl e ↦ rw e refl
  | inr e ↦ rw e refl
]

pub as_heartbeat-IsFramed : (when : ℕ) (l : Listener) → IsFramed l (as_heartbeat when l)
unfolding as_heartbeat
as_heartbeat-IsFramed when l = elim (Bool-cases (is_inprocess l.state && l.on_heartbeat)) [
  | inl e ↦ rw e refl
  | inr e ↦ rw e refl
]

begin_transaction-IsFramed : (text : Bytes) (l : Listener) → IsFramed l (begin_transaction text l)
unfolding begin_transaction
begin_transaction-IsFramed text l = elim (Bool-cases (begins text)) [
  | inl e ↦ rw e refl
  | inr e ↦ rw e refl
]

heartbeat_unchecked-Frames : (when : ℕ) (l : Listener) → Frames l (heartbeat_unchecked when l)
unfolding heartbeat_unchecked
heartbeat_unchecked-Frames when l = elim (Bool-cases l.on_heartbeat) [
  | inl e ↦ rw e refl
  | inr e ↦ rw e tt
]

end_transaction-Frames :
    (when : ℕ) (text : Bytes) (l : Listener) → Frames l (end_transaction when text l)
unfolding end_transaction
end_transaction-Frames when text l = elim (Bool-cases (commits text)) [
  | inr e ↦ rw e refl
  | inl e ↦ elim (Bool-cases (reports_commit l)) [
    | inl f ↦
        rw (e, f)
          (Frames-after l (commit_transaction when l)
            (heartbeat_unchecked when (commit_transaction when l))
            (commit_transaction-IsFramed when l)
            (heartbeat_unchecked-Frames when (commit_transaction when l)))
    | inr f ↦ rw (e, f) (commit_transaction-IsFramed when l)
  ]
]

pub process_query-Frames :
    (malloc : Malloc) (when : ℕ) (text : Bytes) (l : Listener)
    → Frames l (process_query malloc when text l)
unfolding process_query
process_query-Frames malloc when text l = elim (Bool-cases (malloc (length text + 8))) [
  | inl e ↦ rw e (
      Frames-after l (begin_transaction text l)
        (end_transaction when text (begin_transaction text l)) (begin_transaction-IsFramed text l)
        (end_transaction-Frames when text (begin_transaction text l)))
  | inr e ↦ rw e refl
]

open_transaction-IsFramed : (when : ℕ) (l : Listener) → IsFramed l (open_transaction when l)
unfolding open_transaction
open_transaction-IsFramed when l = elim (Bool-cases (l.in_transaction == 1)) [
  | inr a ↦ rw a refl
  | inl a ↦ elim (Bool-cases l.on_transaction) [ inl b ↦ rw (a, b) refl | inr b ↦ rw (a, b) refl ]
]

module _ (m : Mysql) (heap : ℕ → Malloc) (ev : RowsLogEvent) (e : TableMapEvent) where
  deliver_rows-Frames :
      (q : ℕ) (l : Listener) (t : ListeningTable) → Frames l (deliver_rows m heap ev e q l t)
  unfolding deliver_rows
  deliver_rows-Frames q l t = given (rows_call m heap ev e l t)
    where
      given :
          (r : Outcome Failure RowsCall)
          → Frames l (elim r [
            | ok c ↦ ok (call_if l.on_row (row_call c) (set_table q t l))
            | err f ↦ err (set_table q t l, f)
            | fault ↦ fault
          ])
      given (ok c) = elim (Bool-cases l.on_row) [ inl a ↦ rw a refl | inr a ↦ rw a refl ]
      given (err f) = refl
      given fault = tt

  table_rows-Frames :
      (q : ℕ) (l : Listener) (t : ListeningTable) → Frames l (table_rows m heap ev e q l t)
  unfolding table_rows
  table_rows-Frames q l t = given (cache_columns (heap 0) e t)
    where
      given :
          (r : Outcome (ListeningTable × Failure) ListeningTable)
          → Frames l (elim r [
            | ok s ↦ deliver_rows m heap ev e q l s
            | err (s, f) ↦ err (set_table q s l, f)
            | fault ↦ fault
          ])
      given (ok s) = deliver_rows-Frames q l s
      given (err (s, f)) = refl
      given fault = tt

  listened_rows-Frames : (l : Listener) → Frames l (listened_rows m heap ev e l)
  unfolding listened_rows
  listened_rows-Frames l = given (find_table e.db_name e.table_name l.tables)
    where
      given_table :
          (q : ℕ) (o : Option ListeningTable)
          → Frames l (elim o [
            | none ↦ fault
            | some t ↦ table_rows m heap ev e q (open_transaction ev.when l) t
          ])
      given_table q none = tt
      given_table q (some t) =
          Frames-after l (open_transaction ev.when l)
            (table_rows m heap ev e q (open_transaction ev.when l) t)
            (open_transaction-IsFramed ev.when l)
            (table_rows-Frames q (open_transaction ev.when l) t)

      given :
          (o : Option ℕ)
          → Frames l (elim o [
            | none ↦ ok l
            | some q ↦ elim (get_elem? l.tables q) [
              | none ↦ fault
              | some t ↦ table_rows m heap ev e q (open_transaction ev.when l) t
            ]
          ])
      given none = refl
      given (some q) = given_table q (get_elem? l.tables q)

pub process_rows-Frames :
    (m : Mysql) (heap : ℕ → Malloc) (ev : RowsLogEvent) (l : Listener)
    → Frames l (process_rows m heap ev l)
unfolding process_rows
process_rows-Frames m heap ev l = elim (Bool-cases (is_inprocess l.state)) [
  | inr a ↦ rw a refl
  | inl a ↦ elim (Option-cases (find_map ev.table_id l.table_map_events)) [
    | inl b ↦ rw (a, b) refl
    | inr (e, b) ↦ elim (Bool-cases (e.table_id == ev.table_id)) [
      | inl c ↦ rw (a, b, c) (listened_rows-Frames m heap ev e l)
      | inr c ↦ rw (a, b, c) refl
    ]
  ]
]
