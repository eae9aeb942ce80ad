-- ===== src/Listener/RefineRows.antt =====
-- The rows events in process_event (mysql_rpl_listener_2/mysql_rpl_listener_2.cc), against the
-- specification.
use mysql_replication_c.Base.{
  ℕ, ◌≡◌, ◌≢◌, refl, ap, ◌∙◌, true, Option, none, some, ◌==◌, ==_iff, Bool-cases, Option-cases, inl,
  inr, arith, get_elem?, set, map,
}
use mysql_replication_c.Base.Outcome.{Outcome, ok, err, fault, ◌>>=◌}
use mysql_replication_c.Block.{Malloc}
use mysql_replication_c.Mysql.{Mysql}
use mysql_replication_c.Rows.{Rows}
use mysql_replication_c.Row.{Message}
use mysql_replication_c.Rows.Loop.{get_rows}
use mysql_replication_c.Event.{TableMapEvent, RowsLogEvent}
use mysql_replication_c.Listener.{
  Listener, ListeningTable, inprocess, RowsCall, row_call, is_inprocess,
}
use mysql_replication_c.Listener.Lifecycle.{copy_text}
use mysql_replication_c.Listener.Tables.{find_map, find_table}
use mysql_replication_c.Listener.Step.{Failure, rows_failed, call_if}
use mysql_replication_c.Listener.Cache.{cache_columns, cached, repl_log_x_rows_init}
use mysql_replication_c.Listener.Deliver.{
  open_transaction, as_map, set_table, rows_call, deliver_rows, table_rows, listened_rows,
  process_rows,
}
use mysql_replication_c.Listener.Spec.{
  view, table_name, Listened, opens, shows, Visibles, done, more, Refines,
}
use mysql_replication_c.Listener.TableLaws.{find_table_lem, map-set, Among-get}
use mysql_replication_c.Listener.Refine.{is_inprocess_iff, Refines-after}
use mysql_replication_c.Listener.RefineCache.{
  SameName, cache_columns-SameName, Named, rows_init-Named,
}

open_transaction_lem :
    (when : ℕ) (l : Listener)
    → is_inprocess l.state ≡ true
    → (Visibles (view l) (view (open_transaction when l)))
      × ((open_transaction when l).in_transaction ≢ 1)
      × ((open_transaction when l).state ≡ inprocess)
      × ((open_transaction when l).tables ≡ l.tables)
unfolding open_transaction
open_transaction_lem when l h = elim (Bool-cases (l.in_transaction == 1)) [
  | inr a ↦ rw a (done, (ground arith), is_inprocess_iff l.state h, refl)
  | inl a ↦ elim (Bool-cases l.on_transaction) [
    | inl b ↦
        rw (a, b)
          (
            more (opens when (is_inprocess_iff l.state h) ((==_iff l.in_transaction 1).0 a)) done,
            (ground arith),
            is_inprocess_iff l.state h,
            refl,
          )
    | inr b ↦
        rw (a, b)
          (
            more (opens when (is_inprocess_iff l.state h) ((==_iff l.in_transaction 1).0 a)) done,
            (ground arith),
            is_inprocess_iff l.state h,
            refl,
          )
  ]
]

-- Rows that are shown, from a listener whose transaction is not waiting to be opened.
module _ (m : Mysql) (heap : ℕ → Malloc) (ev : RowsLogEvent) (e : TableMapEvent) where
  rows_call-Named : (l : Listener) (t : ListeningTable) → Named e (rows_call m heap ev e l t)
  unfolding rows_call
  rows_call-Named l t =
      with_rows (repl_log_x_rows_init (heap 1) (heap 2) l ev t e)
        (rows_init-Named (heap 1) (heap 2) l ev t e)
    where
      with_filled :
          (c : RowsCall) (r : Outcome Message Rows)
          → Named e (ok c)
          → Named e (elim r [
            | ok x ↦ ok (record c { rows = x })
            | err g ↦ err (rows_failed g)
            | fault ↦ fault
          ])
      with_filled c (ok x) p = p
      with_filled c (err g) p = tt
      with_filled c fault p = tt

      with_rows :
          (r : Outcome Failure RowsCall)
          → Named e r
          → Named e (
              r >>= λ c.
              elim (get_rows m heap ev.rows
                (some (as_map e))
                c.rows
                (record { col_count = t.col_count; columns = cached t })) [
                  | ok x ↦ ok (record c { rows = x })
                  | err g ↦ err (rows_failed g)
                  | fault ↦ fault
                ])
      with_rows (ok c) p =
          with_filled c
            (get_rows m heap ev.rows (some (as_map e)) c.rows
              (record { col_count = t.col_count; columns = cached t }))
            p
      with_rows (err f) p = tt
      with_rows fault p = tt

  -- What is known of the listener and of the table `t`, the element `q` of its list.
  abbrev Ready : ℕ → ListeningTable → Listener → Type 0
  Ready q t l =
      (l.in_transaction ≢ 1)
      × (l.state ≡ inprocess)
      × (get_elem? l.tables q ≡ some t)
      × (e.db_name ≡ t.db_name)
      × (e.table_name ≡ t.tbl_name)

  kept :
      (q : ℕ) (t s : ListeningTable) (l : Listener)
      → get_elem? l.tables q ≡ some t
      → table_name s ≡ table_name t
      → Visibles (view l) (view (set_table q s l))
  kept q t s l g p =
      let names : map table_name (set l.tables q s) ≡ map table_name l.tables =
        map-set l.tables q t s g p in
      rw names done

  deliver_rows_lem :
      (q : ℕ) (t s : ListeningTable) (l : Listener)
      → Ready q t l
      → table_name s ≡ table_name t
      → Refines l (deliver_rows m heap ev e q l s)
  unfolding deliver_rows
  deliver_rows_lem q t s l ready p = given (rows_call m heap ev e l s) (rows_call-Named l s)
    where
      names : map table_name (set l.tables q s) ≡ map table_name l.tables
      names = map-set l.tables q t s ready.2 p

      listened : (c : RowsCall) → Named e (ok c) → Listened (map table_name l.tables) c
      listened c n = record {
        name = table_name t;
        among = Among-get l.tables q t ready.2;
        db_copied = n.0 ∙ ap (copy_text 320) ready.3;
        tbl_copied = n.1 ∙ ap (copy_text 320) ready.4;
      }

      given :
          (r : Outcome Failure RowsCall)
          → Named e r
          → Refines l (elim r [
            | ok c ↦ ok (call_if l.on_row (row_call c) (set_table q s l))
            | err f ↦ err (set_table q s l, f)
            | fault ↦ fault
          ])
      given (ok c) n = elim (Bool-cases l.on_row) [
        | inl a ↦ rw (a, names) (more (shows c ready.1 ready.0 (listened c n)) done)
        | inr a ↦ rw (a, names) done
      ]
      given (err f) n = rw names done
      given fault n = tt

  table_rows_lem :
      (q : ℕ) (t : ListeningTable) (l : Listener)
      → Ready q t l
      → Refines l (table_rows m heap ev e q l t)
  unfolding table_rows
  table_rows_lem q t l ready =
      given (cache_columns (heap 0) e t) (cache_columns-SameName (heap 0) e t)
    where
      given :
          (r : Outcome (ListeningTable × Failure) ListeningTable)
          → SameName t r
          → Refines l (elim r [
            | ok s ↦ deliver_rows m heap ev e q l s
            | err (s, f) ↦ err (set_table q s l, f)
            | fault ↦ fault
          ])
      given (ok s) p = deliver_rows_lem q t s l ready p
      given (err (s, f)) p = kept q t s l ready.2 p
      given fault p = tt

  listened_rows_lem :
      (l : Listener) → is_inprocess l.state ≡ true → Refines l (listened_rows m heap ev e l)
  unfolding listened_rows
  listened_rows_lem l h = found (find_table e.db_name e.table_name l.tables) refl
    where
      at_table :
          (q : ℕ) (t : Option ListeningTable)
          → find_table e.db_name e.table_name l.tables ≡ some q
          → get_elem? l.tables q ≡ t
          → Refines l (elim t [
            | none ↦ fault
            | some u ↦ table_rows m heap ev e q (open_transaction ev.when l) u
          ])
      at_table q none a b = tt
      at_table q (some t) a b =
          let o = open_transaction_lem ev.when l h in
          let names = find_table_lem e.db_name e.table_name l.tables q a t b in
          let at : get_elem? ((open_transaction ev.when l).tables) q ≡ some t = rw o.3 b in
          Refines-after l (open_transaction ev.when l)
            (table_rows m heap ev e q (open_transaction ev.when l) t) o.0
            (table_rows_lem q t (open_transaction ev.when l) (o.1, o.2, at, names.0, names.1))

      found :
          (r : Option ℕ)
          → find_table e.db_name e.table_name l.tables ≡ r
          → Refines l (elim r [
            | none ↦ ok l
            | some q ↦ elim (get_elem? l.tables q) [
              | none ↦ fault
              | some t ↦ table_rows m heap ev e q (open_transaction ev.when l) t
            ]
          ])
      found none a = done
      found (some q) a = at_table q (get_elem? l.tables q) a refl

pub process_rows_lem :
    (m : Mysql) (heap : ℕ → Malloc) (ev : RowsLogEvent) (l : Listener)
    → Refines l (process_rows m heap ev l)
unfolding process_rows
process_rows_lem m heap ev l = elim (Bool-cases (is_inprocess l.state)) [
  | inr a ↦ rw a done
  | inl a ↦ elim (Option-cases (find_map ev.table_id l.table_map_events)) [
    | inl b ↦ rw (a, b) done
    | inr (e, b) ↦ elim (Bool-cases (e.table_id == ev.table_id)) [
      | inl c ↦ rw (a, b, c) (listened_rows_lem m heap ev e l a)
      | inr c ↦ rw (a, b, c) done
    ]
  ]
]
