-- ===== src/Listener/Rounds.antt =====
-- Rounds of the loop of the replication thread with one event (process_event and
-- process_replication_thread_fnc in mysql_rpl_listener_2/mysql_rpl_listener_2.cc).
use mysql_replication_c.Base.{
  if_true, if◌then◌else◌, none, ℕ, ◌+◌, ◌≡◌, ◌≢◌, refl, sym, ◌∙◌, ap, subst, true, false, ◌||◌,
  List, ◌∷◌, some, get_elem?, ◌==◌, ==_iff, ==_false, length,
}
use mysql_replication_c.Base.Outcome.{ok, err, fault}
use mysql_replication_c.Block.{Malloc, c_str}
use mysql_replication_c.Mysql.{Mysql}
use mysql_replication_c.Event.{Event, TableMapEvent, RowsLogEvent}
use mysql_replication_c.Listener.{
  Listener, ListeningTable, RowsCall, row_call, start_call, commit_call, inprocess, is_inprocess,
  call,
}
use mysql_replication_c.Listener.Tables.{find_map, find_table, str_eq}
use mysql_replication_c.Listener.Step.{
  Step, rows_without_map, commit_transaction, promoted, call_if, reports_commit,
}
use mysql_replication_c.Listener.Query.{
  begin_text, begins, commits, begin_transaction, end_transaction, process_query,
}
use mysql_replication_c.Listener.Cache.{cache_columns, repl_log_x_rows_init}
use mysql_replication_c.Listener.Deliver.{
  open_transaction, set_table, rows_call, deliver_rows, table_rows, listened_rows, process_rows,
}
use mysql_replication_c.Listener.Process.{process_event}
use mysql_replication_c.Listener.Thread.{
  Turn, event, fetched, on_packet, one_fetch, event_loop, advance_position,
}

-- A round with an event of some size, without a stop request.
abbrev pub packet_of : ℕ → Event → Turn
packet_of size e = record { fetch = fetched size (event e); stop = false }

-- The listener as an event of this size finds it.
abbrev pub sized : ℕ → Listener → Listener
sized size l = record l { need_stop = false; size = size }

module _ (m : Mysql) (heap : ℕ → ℕ → Malloc) where
  packet_lem :
      (e : Event) (l k : Listener)
      → process_event m heap e l ≡ ok k
      → on_packet m heap (event e) l ≡ ok (advance_position k)
  unfolding on_packet
  packet_lem e l k h =
      subst
        (λ r.
          elim r as (λ s. Step) [ ok j ↦ ok (advance_position j) | err f ↦ err f | fault ↦ fault ]
          ≡ ok (advance_position k))
        (sym h) refl

  fetch_lem :
      (size : ℕ) (e : Event) (l k : Listener)
      → size ≢ 0
      → process_event m heap e (record l { size = size }) ≡ ok k
      → one_fetch m heap (fetched size (event e)) l ≡ ok (advance_position k)
  unfolding one_fetch
  fetch_lem size e l k some_bytes h =
      rw (==_false size 0 some_bytes) (packet_lem e (record l { size = size }) k h)

  pub round_lem :
      (size : ℕ) (e : Event) (rest : List Turn) (l k : Listener)
      → size ≢ 0
      → l.need_stop ≡ false
      → process_event m heap e (sized size l) ≡ ok k
      → k.need_stop ≡ false
      → event_loop m heap (packet_of size e ∷ rest) l ≡ event_loop m heap rest (advance_position k)
  unfolding event_loop advance_position
  round_lem size e rest l k some_bytes going h goes =
      subst
        (λ r.
          (elim r as (λ s. Step) [
            | ok j ↦ elim j.need_stop [ true ↦ ok j | false ↦ event_loop m heap rest j ]
            | err f ↦ err f
            | fault ↦ fault
          ])
          ≡ event_loop m heap rest (advance_position k))
        (sym fetched_here)
        (subst
          (λ b.
            (elim b as (λ s. Step) [
              | true ↦ ok (advance_position k)
              | false ↦ event_loop m heap rest (advance_position k)
            ])
            ≡ event_loop m heap rest (advance_position k))
          (sym goes) refl)
    where
      fetched_here :
          one_fetch m heap (fetched size (event e)) (record l { need_stop = l.need_stop || false })
          ≡ ok (advance_position k)
      fetched_here = rw going (fetch_lem size e (record l { need_stop = false }) k some_bytes h)

  fetch_fault :
      (size : ℕ) (e : Event) (l : Listener)
      → size ≢ 0
      → process_event m heap e (record l { size = size }) ≡ fault
      → one_fetch m heap (fetched size (event e)) l ≡ fault
  unfolding one_fetch on_packet
  fetch_fault size e l some_bytes h = rw (==_false size 0 some_bytes) (
      subst
        (λ r.
          elim r as (λ s. Step) [ ok j ↦ ok (advance_position j) | err f ↦ err f | fault ↦ fault ]
          ≡ fault)
        (sym h) refl)

  -- A round whose event is out of bounds ends the program.
  pub round_fault :
      (size : ℕ) (e : Event) (rest : List Turn) (l : Listener)
      → size ≢ 0
      → l.need_stop ≡ false
      → process_event m heap e (sized size l) ≡ fault
      → event_loop m heap (packet_of size e ∷ rest) l ≡ fault
  unfolding event_loop
  round_fault size e rest l some_bytes going h =
      subst
        (λ r.
          (elim r as (λ s. Step) [
            | ok j ↦ elim j.need_stop [ true ↦ ok j | false ↦ event_loop m heap rest j ]
            | err f ↦ err f
            | fault ↦ fault
          ])
          ≡ fault)
        (sym fetched_here) refl
    where
      fetched_here :
          one_fetch m heap (fetched size (event e)) (record l { need_stop = l.need_stop || false })
          ≡ fault
      fetched_here = rw going (fetch_fault size e (record l { need_stop = false }) some_bytes h)

  pub begin_lem :
      (malloc : Malloc) (when : ℕ) (l : Listener)
      → malloc (length begin_text + 8) ≡ true
      → process_query malloc when begin_text l ≡ ok (record (promoted l) { in_transaction = 1 })
  unfolding process_query begin_transaction end_transaction begins commits c_str str_eq
  begin_lem malloc when l grants = rw grants refl

  module _ (ev : RowsLogEvent) (e : TableMapEvent) (c : RowsCall) (q : ℕ)
      (t s : ListeningTable) where
    -- The listener behind the first rows of a transaction.
    abbrev pub shown : Listener → Listener
    shown l =
        call (row_call c)
          (set_table q s (call (start_call ev.when) (record l { in_transaction = 2 })))

    -- The rows of the event are decoded, into the columns of the table `t`, the element `q` of the
    -- list.
    abbrev pub Decodes : ℕ → Listener → Type 0
    Decodes turn l =
        (find_table e.db_name e.table_name l.tables ≡ some q)
        × (get_elem? l.tables q ≡ some t)
        × (cache_columns (heap turn 0) e t ≡ ok s)
        × (rows_call m (heap turn) ev e l s ≡ ok c)

    delivered :
        (turn : ℕ) (l : Listener)
        → l.on_row ≡ true
        → rows_call m (heap turn) ev e l s ≡ ok c
        → deliver_rows m (heap turn) ev e q l s ≡ ok (call (row_call c) (set_table q s l))
    unfolding deliver_rows
    delivered turn l shows decoded =
        subst
          (λ r.
            (elim r as (λ x. Step) [
              | ok d ↦ ok (call_if l.on_row (row_call d) (set_table q s l))
              | err f ↦ err (set_table q s l, f)
              | fault ↦ fault
            ])
            ≡ ok (call (row_call c) (set_table q s l)))
          (sym decoded) (ap ok (if_true _ _ _ shows))

    of_table :
        (turn : ℕ) (l : Listener)
        → l.on_row ≡ true
        → cache_columns (heap turn 0) e t ≡ ok s
        → rows_call m (heap turn) ev e l s ≡ ok c
        → table_rows m (heap turn) ev e q l t ≡ ok (call (row_call c) (set_table q s l))
    unfolding table_rows
    of_table turn l shows cached decoded =
        subst
          (λ r.
            (elim r as (λ x. Step) [
              | ok s' ↦ deliver_rows m (heap turn) ev e q l s'
              | err (s', f) ↦ err (set_table q s' l, f)
              | fault ↦ fault
            ])
            ≡ ok (call (row_call c) (set_table q s l)))
          (sym cached) (delivered turn l shows decoded)

    opening :
        (l : Listener)
        → l.in_transaction ≡ 1
        → l.on_transaction ≡ true
        → open_transaction ev.when l ≡ call (start_call ev.when) (record l { in_transaction = 2 })
    unfolding open_transaction
    opening l begun starts =
        if_true _ _ _ ((==_iff l.in_transaction 1).1 begun) ∙ if_true _ _ _ starts

    listened :
        (turn : ℕ) (l : Listener)
        → l.in_transaction ≡ 1
        → l.on_transaction ≡ true
        → l.on_row ≡ true
        → Decodes turn l
        → listened_rows m (heap turn) ev e l ≡ ok (shown l)
    unfolding listened_rows rows_call repl_log_x_rows_init
    listened turn l begun starts shows d =
        subst
          (λ o.
            (elim o as (λ x. Step) [
              | none ↦ ok l
              | some p ↦ elim (get_elem? l.tables p) as (λ x. Step) [
                | none ↦ fault
                | some u ↦ table_rows m (heap turn) ev e p (open_transaction ev.when l) u
              ]
            ])
            ≡ ok (shown l))
          (sym d.0)
          (subst
            (λ o.
              (elim o as (λ x. Step) [
                | none ↦ fault
                | some u ↦ table_rows m (heap turn) ev e q (open_transaction ev.when l) u
              ])
              ≡ ok (shown l))
            (sym d.1)
            (ap (λ k. table_rows m (heap turn) ev e q k t) (opening l begun starts)
              ∙ of_table turn (call (start_call ev.when) (record l { in_transaction = 2 })) shows
                  d.2 d.3))

    pub rows_lem :
        (turn : ℕ) (l : Listener)
        → l.state ≡ inprocess
        → l.in_transaction ≡ 1
        → l.on_transaction ≡ true
        → l.on_row ≡ true
        → find_map ev.table_id l.table_map_events ≡ some e
        → e.table_id ≡ ev.table_id
        → Decodes turn l
        → process_rows m (heap turn) ev l ≡ ok (shown l)
    unfolding process_rows
    rows_lem turn l running begun starts shows found same d =
        if_true _ _ _ (ap is_inprocess running)
        ∙ (subst
            (λ o.
              (elim o as (λ x. Step) [
                | none ↦ err (l, rows_without_map)
                | some e' ↦
                    if e'.table_id == ev.table_id
                    then listened_rows m (heap turn) ev e' l
                    else err (l, rows_without_map)
              ])
              ≡ ok (shown l))
            (sym found)
            (if_true _ _ _ ((==_iff e.table_id ev.table_id).1 same)
              ∙ listened turn l begun starts shows d))

  pub commit_lem :
      (when : ℕ) (l : Listener)
      → reports_commit l ≡ true
      → commit_transaction when l
        ≡ promoted (record (call (commit_call when) l) { in_transaction = 0 })
  unfolding commit_transaction
  commit_lem when l h =
      ap (λ k. promoted (record k { in_transaction = 0 }))
        (if_true _ (call (commit_call when) l) l h)
