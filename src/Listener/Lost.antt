-- ===== src/Listener/Lost.antt =====
-- The table maps of a restarted listener in process_replication_thread_fnc
-- (mysql_rpl_listener_2/mysql_rpl_listener_2.cc).
use mysql_replication_c.Base.{
  ℕ, ◌≡◌, ◌≢◌, refl, sym, ap, ◌∙◌, subst, true, false, ◌||◌, List, ◌∷◌, if_false, if_true, ==_false,
}
use mysql_replication_c.Base.Outcome.{ok, err, fault}
use mysql_replication_c.Block.{Malloc}
use mysql_replication_c.Mysql.{Mysql}
use mysql_replication_c.Event.{RowsLogEvent, rows_event}
use mysql_replication_c.Listener.{Listener, inprocess, is_inprocess}
use mysql_replication_c.Listener.Step.{Step, rows_without_map}
use mysql_replication_c.Listener.Tables.{find_map}
use mysql_replication_c.Listener.Deliver.{process_rows}
use mysql_replication_c.Listener.Process.{process_event, next_turn}
use mysql_replication_c.Listener.Thread.{
  Turn, event, fetched, on_packet, one_fetch, event_loop, advance_position, opens, opened,
  close_thread, replication_thread,
}
use mysql_replication_c.Listener.Rounds.{packet_of}

module _ (m : Mysql) (heap : ℕ → ℕ → Malloc) (ev : RowsLogEvent) (size : ℕ) (ts : List Turn) where
  abbrev failed : Listener → Listener
  failed l = next_turn (record (opened l) { size = size })

  rows_failed_lem :
      (l : Listener)
      → l.state ≡ inprocess
      → process_event m heap (rows_event ev) (record (opened l) { size = size })
        ≡ err (failed l, rows_without_map)
  unfolding process_event process_rows find_map
  rows_failed_lem l running = if_true _ _ _ (ap is_inprocess running)

  fetch_failed_lem :
      (l : Listener)
      → l.state ≡ inprocess
      → size ≢ 0
      → one_fetch m heap (fetched size (event (rows_event ev))) (opened l)
        ≡ err (failed l, rows_without_map)
  unfolding one_fetch on_packet
  fetch_failed_lem l running some_bytes =
      if_false _ _ _ (==_false size 0 some_bytes)
      ∙ subst
          (λ r.
            elim r as (λ s. Step) [ ok j ↦ ok (advance_position j) | err f ↦ err f | fault ↦ fault ]
            ≡ err (failed l, rows_without_map))
          (sym (rows_failed_lem l running)) refl

  loop_failed_lem :
      (l : Listener)
      → l.state ≡ inprocess
      → size ≢ 0
      → event_loop m heap (packet_of size (rows_event ev) ∷ ts) (opened l)
        ≡ err (failed (record l { need_stop = l.need_stop || false }), rows_without_map)
  unfolding event_loop
  loop_failed_lem l running some_bytes =
      subst
        (λ r.
          (elim r as (λ s. Step) [
            | ok k ↦ elim k.need_stop [ true ↦ ok k | false ↦ event_loop m heap ts k ]
            | err f ↦ err f
            | fault ↦ fault
          ])
          ≡ err (failed (record l { need_stop = l.need_stop || false }), rows_without_map))
        (sym (fetch_failed_lem (record l { need_stop = l.need_stop || false }) running some_bytes))
        refl

  -- The replication thread of a listener that is in process and whose stream begins with rows, after
  -- a restart at a position behind their table map, reports that there is no table map for them, and
  -- no call is made of the user's functions: whatever table maps the listener was made with.
  pub maps_are_lost :
      (l : Listener)
      → l.state ≡ inprocess
      → size ≢ 0
      → (k : Listener) × (replication_thread m heap opens (packet_of size (rows_event ev) ∷ ts) l
          ≡ err (k, rows_without_map))
        × (k.calls ≡ l.calls)
  unfolding replication_thread close_thread
  maps_are_lost l running some_bytes =
      let j = failed (record l { need_stop = l.need_stop || false }) in
      (
        close_thread j,
        subst
            (λ r.
              (elim r as (λ s. Step) [
                | ok k ↦ ok (close_thread k)
                | err (k, f) ↦ err (close_thread k, f)
                | fault ↦ fault
              ])
              ≡ err (close_thread j, rows_without_map))
            (sym (loop_failed_lem l running some_bytes)) refl,
        refl,
      )
