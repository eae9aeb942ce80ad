-- ===== src/Listener/LiveSession.antt =====
-- The states of a listener through the calls and steps of a session
-- (mysql_rpl_listener_2/mysql_rpl_listener_2.cc).
use mysql_replication_c.Base.{
  sym, subst, ℕ, ◌≡◌, refl, true, false, List, [], ◌∷◌, Option, none, some, Bool-cases, inl, inr,
  arith,
}
use mysql_replication_c.Base.Outcome.{ok, err, fault}
use mysql_replication_c.Block.{Malloc}
use mysql_replication_c.Mysql.{Mysql}
use mysql_replication_c.Listener.{Listener, is_running, state_code}
use mysql_replication_c.Listener.Step.{Step}
use mysql_replication_c.Listener.Lifecycle.{in_process}
use mysql_replication_c.Listener.Thread.{
  Turn, Fetch, Opening, one_fetch, event_loop, replication_thread,
}
use mysql_replication_c.Listener.RefineThread.{fetch-Refines, event_loop-Refines}
use mysql_replication_c.Listener.Ends.{thread-IsOver}
use mysql_replication_c.Listener.Session.{
  Thread, no_thread, begun, looping, Live, Request, adds_table, prepares_on, starts_with,
  opens_with, fetches, waits_for, cancels, closed_by, stopped_by, cancelled, stop_thread,
  run_thread, perform, session,
}
use mysql_replication_c.Listener.Live.{
  Fits, IsSound, After, Goes, add_lem, prepare_lem, start_lem, next_lem,
}
use mysql_replication_c.Listener.LiveThread.{
  round_lem, stopped_lem, over-ended, closed-ended, cancelled_lem,
}

pub After-weaken :
    (P Q : Live → Type 0) (o : Option Live) → ((t : Live) → P t → Q t) → After P o → After Q o
After-weaken P Q none f h = tt
After-weaken P Q (some t) f h = f t h

module _ (m : Mysql) (heap : ℕ → ℕ → Malloc) where
  stop_lem :
      (t : Thread) (o : Opening) (ts : List Turn) (l : Listener)
      → Fits t l
      → is_running l.state ≡ true
      → After (Goes l) (stop_thread m heap t o ts l)
  unfolding stop_thread
  stop_lem no_thread o ts l h on = cancelled_lem 0 l on
  stop_lem begun o ts l h on =
      let told = record l { need_stop = true } in
      stopped_lem l (replication_thread m heap o ts told) on
        (over-ended (replication_thread m heap o ts told) (thread-IsOver m heap o ts told h))
  stop_lem looping o ts l h on =
      let told = record l { need_stop = true } in
      stopped_lem l (closed_by (event_loop m heap ts told)) on
        (closed-ended told (event_loop m heap ts told) on (event_loop-Refines m heap ts told))

  run_lem :
      (t : Thread) (f : Fetch) (s : Live)
      → t ≡ s.thread
      → IsSound s
      → After (Goes s.listener) (run_thread m heap t f s)
  unfolding run_thread
  run_lem no_thread f s e h = (h, (omega arith))
  run_lem begun f s e h = (h, (omega arith))
  run_lem looping f s e h =
      round_lem s.listener (one_fetch m heap f s.listener)
        (subst (λ t. Fits t s.listener) (sym e) h) (fetch-Refines m heap f s.listener)

  pub perform_lem :
      (r : Request) (s : Live) → IsSound s → After (Goes s.listener) (perform m heap r s)
  unfolding perform
  perform_lem (adds_table db tbl) s h = add_lem db tbl s h
  perform_lem (prepares_on v) s h = prepare_lem v s h
  perform_lem (starts_with calls) s h = start_lem calls s h
  perform_lem (opens_with o) s h = next_lem s.thread o s refl h
  perform_lem (fetches f) s h = run_lem s.thread f s refl h
  perform_lem (waits_for o ts) s h = elim (Bool-cases (is_running s.listener.state)) [
    | inl a ↦ rw a (stop_lem s.thread o ts s.listener h a)
    | inr a ↦ rw a (h, (omega arith))
  ]
  perform_lem (cancels cancel_code) s h = elim (Bool-cases (is_running s.listener.state)) [
    | inl a ↦ rw a (cancelled_lem cancel_code s.listener a)
    | inr a ↦ rw a (h, (omega arith))
  ]

  done_by : (r : Step) (l : Listener) → After (λ t. t.thread ≡ no_thread) (stopped_by r l)
  unfolding stopped_by
  done_by (ok k) l = refl
  done_by (err (k, f)) l = refl
  done_by fault l = tt

  stop_done :
      (t : Thread) (o : Opening) (ts : List Turn) (l : Listener)
      → After (λ u. u.thread ≡ no_thread) (stop_thread m heap t o ts l)
  unfolding stop_thread cancelled
  stop_done no_thread o ts l = refl
  stop_done begun o ts l =
      done_by (replication_thread m heap o ts (record l { need_stop = true })) l
  stop_done looping o ts l =
      done_by (closed_by (event_loop m heap ts (record l { need_stop = true }))) l

  off_idle : (l : Listener) → is_running l.state ≡ false → in_process l ≡ 0
  unfolding in_process state_code
  off_idle l off = rw off refl

  -- A sound listener without a thread is off.
  off_without :
      (l : Listener) (o : Option Live)
      → After (Goes l) o
      → After (λ t. t.thread ≡ no_thread) o
      → After (λ t. in_process t.listener ≡ 0) o
  off_without l none g e = tt
  off_without l (some t) g e = off_idle t.listener (subst (λ u. Fits u t.listener) e g.0)

  -- Behind a stop the status is that of a replication that is off.
  pub off_lem :
      (o : Opening) (ts : List Turn) (s : Live)
      → IsSound s
      → After (λ t. in_process t.listener ≡ 0) (perform m heap (waits_for o ts) s)
  unfolding perform
  off_lem o ts s h = elim (Bool-cases (is_running s.listener.state)) [
    | inl a ↦ rw a (
        off_without s.listener (stop_thread m heap s.thread o ts s.listener)
          (stop_lem s.thread o ts s.listener h a) (stop_done s.thread o ts s.listener))
    | inr a ↦ rw a (off_idle s.listener a)
  ]

  pub session_lem :
      (rs : List Request) (s : Live) → IsSound s → After (Goes s.listener) (session m heap rs s)
  unfolding session
  session_lem [] s h = (h, (omega arith))
  session_lem (r ∷ rs) s h =
      given (perform m heap r s) (perform_lem r s h) (λ t k. session_lem rs t k)
    where
      given :
          (o : Option Live)
          → After (Goes s.listener) o
          → ((t : Live) → IsSound t → After (Goes t.listener) (session m heap rs t))
          → After (Goes s.listener) (elim o [ none ↦ none | some t ↦ session m heap rs t ])
      given none p rest = tt
      given (some t) p rest =
          After-weaken (Goes t.listener) (Goes s.listener) (session m heap rs t)
            (λ u g. (g.0, omega (arith, p.1, g.1))) (rest t p.0)
