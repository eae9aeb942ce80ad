-- ===== src/Listener/Transaction.antt =====
-- A transaction with rows of a listened table, from its BEGIN to its end (process_event and
-- process_replication_thread_fnc in mysql_rpl_listener_2/mysql_rpl_listener_2.cc).
use mysql_replication_c.Base.{
  ℕ, ◌+◌, ◌≡◌, ◌≢◌, refl, sym, ◌∙◌, ap, true, false, List, [], ◌∷◌, ◌++◌, append_assoc, length,
}
use mysql_replication_c.Base.Outcome.{ok, fault}
use mysql_replication_c.Block.{Malloc}
use mysql_replication_c.Mysql.{Mysql}
use mysql_replication_c.Event.{
  TableMapEvent, RowsLogEvent, query_event, table_map_event, rows_event, xid_event,
}
use mysql_replication_c.Listener.{
  Listener, ListeningTable, RowsCall, row_call, start_call, commit_call, inprocess, call, promote,
}
use mysql_replication_c.Listener.Tables.{find_map, store_map}
use mysql_replication_c.Listener.MapLaws.{IsMap, find-store}
use mysql_replication_c.Listener.Step.{promoted}
use mysql_replication_c.Listener.Query.{begin_text, commit_text}
use mysql_replication_c.Listener.Moves.{commit_query_fault}
use mysql_replication_c.Listener.Cache.{repl_log_x_rows_init}
use mysql_replication_c.Listener.Deliver.{rows_call}
use mysql_replication_c.Listener.Process.{process_event, process_table_map, next_turn}
use mysql_replication_c.Listener.Thread.{Turn, event_loop, advance_position}
use mysql_replication_c.Listener.Rounds.{
  packet_of, sized, shown, Decodes, round_lem, round_fault, begin_lem, rows_lem, commit_lem,
}

module _ (m : Mysql) (heap : ℕ → ℕ → Malloc) where
  module _ (ev : RowsLogEvent) (e : TableMapEvent) (c : RowsCall) (q : ℕ)
      (t s : ListeningTable) where
    -- A running listener with functions for rows and transactions and without a stop request, with a
    -- std::map of table maps; the event `ev` is of the table that `e` maps, which is the element `q`
    -- of the list, and its rows are decoded as `c`; the query is granted its block.
    pub record Awaits (l : Listener) : Type 0 where
      pub goes : l.need_stop ≡ false
      pub running : l.state ≡ inprocess
      pub starts : l.on_transaction ≡ true
      pub shows : l.on_row ≡ true
      pub maps : IsMap l.table_map_events
      pub same : e.table_id ≡ ev.table_id
      pub granted : heap l.turn 0 (length begin_text + 8) ≡ true
      pub decoded : Decodes m heap ev e c q t s (l.turn + 1 + 1) l

    -- BEGIN, the table map, the rows and the XID event
    abbrev pub transaction_of : ℕ → ℕ → ℕ → List Turn → List Turn
    transaction_of size begun ended rest =
        packet_of size (query_event begun begin_text)
        ∷ packet_of size (table_map_event e)
        ∷ packet_of size (rows_event ev)
        ∷ packet_of size (xid_event ended)
        ∷ rest

    module _ (size begun over : ℕ) (rest : List Turn) (l : Listener) where
      abbrev first : Listener
      first = advance_position (record (promoted (next_turn (sized size l))) { in_transaction = 1 })

      abbrev second : Listener
      second = advance_position (process_table_map e (next_turn (sized size first)))

      abbrev third : Listener
      third = advance_position (shown m heap ev e c q t s (next_turn (sized size second)))

      abbrev fourth : Listener
      fourth = advance_position (
          promoted (record (call (commit_call over) (next_turn (sized size third))) {
            in_transaction = 0;
          }))

      -- BEGIN, the table map and the rows
      opened_lem :
          (tail : List Turn)
          → Awaits l
          → size ≢ 0
          → event_loop m heap
              (packet_of size (query_event begun begin_text)
                ∷ packet_of size (table_map_event e)
                ∷ packet_of size (rows_event ev)
                ∷ tail)
              l
            ≡ event_loop m heap tail third
      unfolding process_event process_table_map advance_position promote rows_call
          repl_log_x_rows_init
      opened_lem tail h some_bytes =
          let on : promote l.state ≡ inprocess = ap promote h.running in
          let found = find-store e l.table_map_events h.maps in
          round_lem m heap size (query_event begun begin_text) _ l _ some_bytes h.goes
            (begin_lem m heap (heap l.turn 0) begun (next_turn (sized size l)) h.granted) refl
          ∙ (round_lem m heap size (table_map_event e) _ first _ some_bytes refl refl refl
              ∙ round_lem m heap size (rows_event ev) _ second _ some_bytes refl
                  (rows_lem m heap ev e c q t s (l.turn + 1 + 1) (next_turn (sized size second)) on
                    refl h.starts h.shows
                    (ap (λ i. find_map i (store_map e l.table_map_events)) (sym h.same) ∙ found.1)
                    h.same h.decoded)
                  refl)

      -- A transaction with rows of a listened table, BEGIN, table map, rows and XID, that is read by
      -- a running listener: the loop goes on behind it with the start, the rows and the commit added
      -- to the calls, in this order and without another, still in process and with no transaction
      -- marked.
      pub transaction_lem :
          Awaits l
          → size ≢ 0
          → (k : Listener) × (event_loop m heap (transaction_of size begun over rest) l
              ≡ event_loop m heap rest k)
            × (k.calls ≡ l.calls ++ (start_call ev.when ∷ row_call c ∷ commit_call over ∷ []))
            × (k.in_transaction ≡ 0)
            × (k.state ≡ inprocess)
      unfolding process_event process_table_map advance_position promote rows_call
          repl_log_x_rows_init
      transaction_lem h some_bytes =
          let on : promote l.state ≡ inprocess = ap promote h.running in
          (
            fourth,
            opened_lem (packet_of size (xid_event over) ∷ rest) h some_bytes
                ∙ round_lem m heap size (xid_event over) rest third _ some_bytes refl
                    (ap ok (
                      commit_lem m heap over (next_turn (sized size third))
                        (rw (on, h.starts) refl)))
                    refl,
            append_assoc (l.calls ++ start_call ev.when ∷ []) (row_call c ∷ [])
                  (commit_call over ∷ [])
                ∙ append_assoc l.calls (start_call ev.when ∷ [])
                    (row_call c ∷ commit_call over ∷ []),
            refl,
            (ap promote (ap promote h.running)),
          )

      -- A transaction with rows of a listened table that is ended by the query COMMIT, in place of an
      -- XID event, read by a running listener with functions for rows and transactions and none for
      -- heartbeats: where the query is granted its block, the loop calls the null pointer.
      pub null_heartbeat_fault :
          Awaits l
          → size ≢ 0
          → l.on_heartbeat ≡ false
          → heap (l.turn + 1 + 1 + 1) 0 (length commit_text + 8) ≡ true
          → event_loop m heap
              (packet_of size (query_event begun begin_text)
                ∷ packet_of size (table_map_event e)
                ∷ packet_of size (rows_event ev)
                ∷ packet_of size (query_event over commit_text)
                ∷ rest)
              l
            ≡ fault
      unfolding process_event process_table_map advance_position promote
      null_heartbeat_fault h some_bytes missing granted =
          let on : promote l.state ≡ inprocess = ap promote h.running in
          opened_lem (packet_of size (query_event over commit_text) ∷ rest) h some_bytes
          ∙ round_fault m heap size (query_event over commit_text) rest third some_bytes refl (
              commit_query_fault (heap (l.turn + 1 + 1 + 1) 0) over (next_turn (sized size third))
                granted (rw (on, h.starts) refl) missing)
