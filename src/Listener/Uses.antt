-- ===== src/Listener/Uses.antt =====
-- What holds of a listener in any use of it (mysql_rpl_listener_2/mysql_rpl_listener_2.cc).
use mysql_replication_c.Base.{
  sym, subst, ℕ, ◌≡◌, ◌<◌, ◌^◌, refl, false, List, Option, none, some, arith,
}
use mysql_replication_c.Base.Outcome.{Outcome, ok, err, fault, Holds}
use mysql_replication_c.Text.{Bytes}
use mysql_replication_c.Block.{Malloc}
use mysql_replication_c.Mysql.{Mysql}
use mysql_replication_c.Listener.{Listener, is_running, state_code}
use mysql_replication_c.Listener.Lifecycle.{
  ThreadCalls, StartError, start_order, start_replication, in_process, Options, new_listener,
  blank_listener, set_position,
}
use mysql_replication_c.Listener.Thread.{Turn, Opening}
use mysql_replication_c.Listener.Order.{Rises, refused, start_behind}
use mysql_replication_c.Listener.WellFormed.{IsWellFormed}
use mysql_replication_c.Listener.Sound.{new_listener-IsWellFormed}
use mysql_replication_c.Listener.Session.{
  begun, Live, fresh, Request, waits_for, begin_thread, perform, session,
}
use mysql_replication_c.Listener.LiveWellFormed.{session_keeps}
use mysql_replication_c.Listener.Live.{IsSound, After, Goes, start_lem}
use mysql_replication_c.Listener.LiveSession.{After-weaken, off_lem, perform_lem, session_lem}

module _ (m : Mysql) (heap : ℕ → ℕ → Malloc) where
  fresh-IsSound : (o : Options) → IsSound (fresh o)
  unfolding new_listener blank_listener set_position
  fresh-IsSound o = given o.master_file_name
    where
      given : (f : Option Bytes) → is_running (set_position f o (blank_listener o)).state ≡ false
      given none = refl
      given (some f) = refl

  -- In any use of a new listener that is given a position of 64 bits, calls in any order, with any
  -- answers of the server and any rounds of the thread between them, unless a fault ends the program:
  -- the keys of the table maps rise and are their ids, the stored length of the file name is that of
  -- the name, the name fits its array, and the position is one of 64 bits.
  pub session-IsWellFormed :
      (rs : List Request) (o : Options)
      → o.master_file_pos < 2 ^ 64
      → After (λ s. IsWellFormed s.listener) (session m heap rs (fresh o))
  session-IsWellFormed rs o h = session_keeps m heap rs (fresh o) (new_listener-IsWellFormed o h)

  -- In any use of a new listener, calls in any order, with any answers of the server and any rounds of
  -- the thread between them: another call or round never lets the number of the state fall, and after
  -- a stop that waits for the thread in_process says that the replication is off, unless a fault ends
  -- the program.
  pub session-Rises :
      (rs : List Request) (r : Request) (opening : Opening) (ts : List Turn) (o : Options)
      → After
          (λ s.
            (After (λ t. Rises s.listener t.listener) (perform m heap r s))
            × (After (λ t. in_process t.listener ≡ 0) (perform m heap (waits_for opening ts) s)))
          (session m heap rs (fresh o))
  session-Rises rs r opening ts o =
      After-weaken (Goes (fresh o).listener) _ (session m heap rs (fresh o))
        (λ s g. (
          After-weaken (Goes s.listener) (λ t. Rises s.listener t.listener) (perform m heap r s)
              (λ t k. k.1) (perform_lem m heap r s g.0),
          off_lem m heap opening ts s g.0,
        ))
        (session_lem m heap rs (fresh o) (fresh-IsSound o))

  begin_lem :
      (calls : ThreadCalls) (s : Live) (k : Listener)
      → start_replication calls s.listener ≡ ok k
      → begin_thread calls s ≡ record { listener = k; thread = begun }
  unfolding begin_thread
  begin_lem calls s k e =
      subst
        (λ r.
          (elim r as (λ x. Live) [
            | ok j ↦ record { listener = j; thread = begun }
            | err (j, f) ↦ record s { listener = j }
            | fault ↦ s
          ])
          ≡ record { listener = k; thread = begun })
        (sym e) refl

  -- A listener is started once: after a start that succeeds, in any use of a new listener, and any
  -- calls and rounds of its thread behind it, another start is refused and changes nothing.
  pub start_once :
      (rs more : List Request) (calls again : ThreadCalls) (o : Options)
      → After
          (λ s.
            Holds
              (λ k.
                After
                  (λ t. start_replication again t.listener ≡ err (t.listener, start_order))
                  (session m heap more (begin_thread calls s)))
              (start_replication calls s.listener))
          (session m heap rs (fresh o))
  start_once rs more calls again o =
      After-weaken (Goes (fresh o).listener) _ (session m heap rs (fresh o)) (λ s g. behind s g.0)
        (session_lem m heap rs (fresh o) (fresh-IsSound o))
    where
      later :
          (s : Live)
          → IsSound s
          → 40 < state_code s.listener.state
          → After
              (λ t. start_replication again t.listener ≡ err (t.listener, start_order))
              (session m heap more s)
      later s h high =
          After-weaken (Goes s.listener)
            (λ t. start_replication again t.listener ≡ err (t.listener, start_order))
            (session m heap more s) (λ t g. refused again t.listener (omega (arith, high, g.1)))
            (session_lem m heap more s h)

      of_start :
          (s : Live) (r : Outcome (Listener × StartError) Listener)
          → start_replication calls s.listener ≡ r
          → Holds (λ k. 40 < state_code k.state) r
          → IsSound (begin_thread calls s)
          → Holds
              (λ k.
                After
                  (λ t. start_replication again t.listener ≡ err (t.listener, start_order))
                  (session m heap more (begin_thread calls s)))
              r
      of_start s (ok k) e high sound =
          let now = begin_lem calls s k e in
          subst
            (λ t.
              After (λ u. start_replication again u.listener ≡ err (u.listener, start_order))
                (session m heap more t))
            (sym now)
            (later (record { listener = k; thread = begun }) (subst IsSound now sound) high)
      of_start s (err (k, f)) e high sound = tt
      of_start s fault e high sound = tt

      behind :
          (s : Live)
          → IsSound s
          → Holds
              (λ k.
                After
                  (λ t. start_replication again t.listener ≡ err (t.listener, start_order))
                  (session m heap more (begin_thread calls s)))
              (start_replication calls s.listener)
      behind s h =
          of_start s (start_replication calls s.listener) refl (start_behind calls s.listener)
            (start_lem calls s h).0
