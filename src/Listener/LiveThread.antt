-- ===== src/Listener/LiveThread.antt =====
-- The states of a listener through the rounds and the end of its thread
-- (mysql_rpl_listener_2/mysql_rpl_listener_2.cc).
use mysql_replication_c.Base.{ℕ, ◌≤◌, ◌≡◌, true, inl, inr, Bool-cases, arith}
use mysql_replication_c.Base.Outcome.{ok, err, fault}
use mysql_replication_c.Listener.{
  Listener, State, created, post_created, prepared, post_prepared, inprocess_1, inprocess, ended,
  is_running, state_code, promote, end_running,
}
use mysql_replication_c.Listener.Step.{Step}
use mysql_replication_c.Listener.Lifecycle.{stop_replication}
use mysql_replication_c.Listener.Thread.{close_thread}
use mysql_replication_c.Listener.Spec.{Keeps, view, Visibles, Refines}
use mysql_replication_c.Listener.Safety.{Visibles-keep}
use mysql_replication_c.Listener.Order.{end_running-le, Rises}
use mysql_replication_c.Listener.Ends.{IsOver, Visible-phase, promote-running}
use mysql_replication_c.Listener.Session.{no_thread, end_round, closed_by, stopped_by, cancelled}
use mysql_replication_c.Listener.Live.{Goes, After, over_lem}

promote-Rises : (n : ℕ) (s : State) → n ≤ state_code s → n ≤ state_code (promote s)
unfolding promote state_code
promote-Rises n inprocess_1 h = omega (arith, h)
promote-Rises n inprocess h = h
promote-Rises n created h = h
promote-Rises n post_created h = h
promote-Rises n prepared h = h
promote-Rises n post_prepared h = h
promote-Rises n ended h = h

-- What the events make of a running listener.
seen_lem :
    (l k : Listener)
    → is_running l.state ≡ true
    → Visibles (view l) (view k)
    → (is_running k.state ≡ true) × Rises l k
seen_lem l k h p = (
  Visibles-keep (λ v. is_running v.phase ≡ true)
      (Visible-phase (λ s. is_running s ≡ true) promote-running) (view l) (view k) p h,
  Visibles-keep (λ v. state_code l.state ≤ state_code v.phase)
      (Visible-phase (λ s. state_code l.state ≤ state_code s) (promote-Rises (state_code l.state)))
      (view l) (view k) p (omega arith),
)

closed_lem :
    (l k : Listener)
    → is_running k.state ≡ true
    → Goes l (record { listener = close_thread k; thread = no_thread })
unfolding close_thread
closed_lem l k h = over_lem l (close_thread k) (end_running-le k.state h)

pub round_lem :
    (l : Listener) (r : Step)
    → is_running l.state ≡ true
    → Refines l r
    → After (Goes l) (end_round r)
unfolding end_round close_thread
round_lem l (ok k) h p =
    let after = seen_lem l k h p in
    elim (Bool-cases k.need_stop) [ inl a ↦ rw a (closed_lem l k after.0) | inr a ↦ rw a after ]
round_lem l (err (k, f)) h p = closed_lem l k (seen_lem l k h p).0
round_lem l fault h p = tt

-- The thread of a stop, by whichever return it ends.
pub stopped_lem :
    (l : Listener) (r : Step)
    → is_running l.state ≡ true
    → Keeps (λ k. k.state ≡ ended) r
    → After (Goes l) (stopped_by r l)
unfolding stopped_by stop_replication
stopped_lem l (ok k) on e = rw on (over_lem l k e)
stopped_lem l (err (k, f)) on e = rw on (over_lem l k e)
stopped_lem l fault on e = tt

pub over-ended : (r : Step) → Keeps IsOver r → Keeps (λ k. k.state ≡ ended) r
over-ended (ok k) h = h.0
over-ended (err (k, f)) h = h.0
over-ended fault h = tt

pub closed-ended :
    (l : Listener) (r : Step)
    → is_running l.state ≡ true
    → Refines l r
    → Keeps (λ k. k.state ≡ ended) (closed_by r)
unfolding close_thread
closed-ended l (ok k) h p = end_running-le k.state (seen_lem l k h p).0
closed-ended l (err (k, f)) h p = end_running-le k.state (seen_lem l k h p).0
closed-ended l fault h p = tt

pub cancelled_lem :
    (cancel_code : ℕ) (l : Listener) → is_running l.state ≡ true → Goes l (cancelled cancel_code l)
unfolding cancelled stop_replication
cancelled_lem cancel_code l on = rw on (
    over_lem l (record l { need_stop = true; state = end_running l.state })
      (end_running-le l.state on))
