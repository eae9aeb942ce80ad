-- ===== src/Listener/LiveWellFormed.antt =====
-- A listener stays well formed in any use of it (mysql_rpl_listener_2/mysql_rpl_listener_2.cc).
use mysql_replication_c.Base.{ℕ, ◌≡◌, true, List, [], ◌∷◌, Option, none, some, Bool-cases, inl, inr}
use mysql_replication_c.Base.Outcome.{Outcome, ok, err, fault}
use mysql_replication_c.Block.{Malloc}
use mysql_replication_c.Mysql.{Mysql}
use mysql_replication_c.Listener.{Listener, is_running}
use mysql_replication_c.Listener.Step.{Step}
use mysql_replication_c.Listener.Lifecycle.{
  ThreadCalls, StartError, start_replication, stop_replication,
}
use mysql_replication_c.Listener.Thread.{
  Turn, Fetch, Opening, description_fails, open_fails, opens, give_up, close_thread, one_fetch,
  event_loop, replication_thread,
}
use mysql_replication_c.Listener.Spec.{Keeps}
use mysql_replication_c.Listener.Order.{either}
use mysql_replication_c.Listener.WellFormed.{IsWellFormed, Keeping, fetch-Keeping}
use mysql_replication_c.Listener.MapLaws.{IsMap}
use mysql_replication_c.Listener.SoundPrepare.{prepare-IsWellFormed}
use mysql_replication_c.Listener.Sound.{
  table_add-IsWellFormed, start-IsWellFormed, thread-IsWellFormed, loop-IsWellFormed,
}
use mysql_replication_c.Listener.Session.{
  Thread, no_thread, begun, looping, Live, Request, adds_table, prepares_on, starts_with,
  opens_with, fetches, waits_for, cancels, begin_thread, open_thread, open_next, end_round,
  closed_by, stopped_by, cancelled, stop_thread, run_thread, perform, session,
}
use mysql_replication_c.Listener.Live.{After}

module _ (m : Mysql) (heap : ℕ → ℕ → Malloc) where
  abbrev WellFormed : Live → Type 0
  WellFormed s = IsWellFormed s.listener

  round-WellFormed :
      (l : Listener) (r : Step) → Keeping l r → IsWellFormed l → After WellFormed (end_round r)
  unfolding end_round close_thread
  round-WellFormed l (ok k) p h = elim (Bool-cases k.need_stop) [
    | inl a ↦ rw a (p.3 h)
    | inr a ↦ rw a (p.3 h)
  ]
  round-WellFormed l (err (k, f)) p h = p.3 h
  round-WellFormed l fault p h = tt

  stopped-WellFormed :
      (l : Listener) (r : Step)
      → is_running l.state ≡ true
      → Keeps IsWellFormed r
      → After WellFormed (stopped_by r l)
  unfolding stopped_by stop_replication
  stopped-WellFormed l (ok k) on h = rw on h
  stopped-WellFormed l (err (k, f)) on h = rw on h
  stopped-WellFormed l fault on h = tt

  closed-WellFormed : (r : Step) → Keeps IsWellFormed r → Keeps IsWellFormed (closed_by r)
  unfolding close_thread
  closed-WellFormed (ok k) h = h
  closed-WellFormed (err (k, f)) h = h
  closed-WellFormed fault h = tt

  stop-WellFormed :
      (t : Thread) (o : Opening) (ts : List Turn) (l : Listener)
      → is_running l.state ≡ true
      → IsWellFormed l
      → After WellFormed (stop_thread m heap t o ts l)
  unfolding stop_thread cancelled stop_replication
  stop-WellFormed no_thread o ts l on h = rw on h
  stop-WellFormed begun o ts l on h =
      stopped-WellFormed l (replication_thread m heap o ts (record l { need_stop = true })) on
        (thread-IsWellFormed m heap o ts (record l { need_stop = true }) h)
  stop-WellFormed looping o ts l on h =
      stopped-WellFormed l (closed_by (event_loop m heap ts (record l { need_stop = true }))) on (
        closed-WellFormed (event_loop m heap ts (record l { need_stop = true }))
          (loop-IsWellFormed m heap ts (record l { need_stop = true }) h))

  run-WellFormed :
      (t : Thread) (f : Fetch) (s : Live)
      → WellFormed s
      → After WellFormed (run_thread m heap t f s)
  unfolding run_thread
  run-WellFormed no_thread f s h = h
  run-WellFormed begun f s h = h
  run-WellFormed looping f s h =
      round-WellFormed s.listener (one_fetch m heap f s.listener)
        (fetch-Keeping m heap f s.listener) h

  open-WellFormed :
      (t : Thread) (o : Opening) (s : Live) → WellFormed s → WellFormed (open_next t o s)
  unfolding open_next open_thread give_up IsMap
  open-WellFormed no_thread o s h = h
  open-WellFormed looping o s h = h
  open-WellFormed begun description_fails s h = h
  open-WellFormed begun open_fails s h = (tt, h.1, h.2, h.3, tt)
  open-WellFormed begun opens s h = (tt, h.1, h.2, h.3, tt)

  begin-WellFormed :
      (calls : ThreadCalls) (s : Live) → WellFormed s → WellFormed (begin_thread calls s)
  unfolding begin_thread
  begin-WellFormed calls s h =
      given (start_replication calls s.listener) (start-IsWellFormed calls s.listener h)
    where
      given :
          (o : Outcome (Listener × StartError) Listener)
          → IsWellFormed (either s.listener o)
          → WellFormed (elim o [
            | ok k ↦ record { listener = k; thread = begun }
            | err (k, e) ↦ record s { listener = k }
            | fault ↦ s
          ])
      given (ok k) p = p
      given (err (k, e)) p = p
      given fault p = h

  perform-WellFormed :
      (r : Request) (s : Live) → WellFormed s → After WellFormed (perform m heap r s)
  unfolding perform cancelled stop_replication
  perform-WellFormed (adds_table db tbl) s h = table_add-IsWellFormed db tbl s.listener h
  perform-WellFormed (prepares_on v) s h = prepare-IsWellFormed v s.listener h
  perform-WellFormed (starts_with calls) s h = begin-WellFormed calls s h
  perform-WellFormed (opens_with o) s h = open-WellFormed s.thread o s h
  perform-WellFormed (fetches f) s h = run-WellFormed s.thread f s h
  perform-WellFormed (waits_for o ts) s h = elim (Bool-cases (is_running s.listener.state)) [
    | inl a ↦ rw a (stop-WellFormed s.thread o ts s.listener a h)
    | inr a ↦ rw a h
  ]
  perform-WellFormed (cancels cancel_code) s h = elim (Bool-cases (is_running s.listener.state)) [
    | inl a ↦ rw a h
    | inr a ↦ rw a h
  ]

  pub session_keeps :
      (rs : List Request) (s : Live) → WellFormed s → After WellFormed (session m heap rs s)
  unfolding session
  session_keeps [] s h = h
  session_keeps (r ∷ rs) s h =
      given (perform m heap r s) (perform-WellFormed r s h) (λ t k. session_keeps rs t k)
    where
      given :
          (o : Option Live)
          → After WellFormed o
          → ((t : Live) → WellFormed t → After WellFormed (session m heap rs t))
          → After WellFormed (elim o [ none ↦ none | some t ↦ session m heap rs t ])
      given none p rest = tt
      given (some t) p rest = rest t p
