-- ===== src/Listener/Steady.antt =====
-- The states and the well-formedness of a listener through a whole use of it
-- (mysql_rpl_listener_2/mysql_rpl_listener_2.cc).
use mysql_replication_c.Base.{
  Option-cases, some_inj, sym, ℕ, ◌≡◌, refl, ap, ◌∙◌, true, false, List, Option, none, some, ◌⊎◌,
  inl, inr, Bool-cases,
}
use mysql_replication_c.Base.Outcome.{ok, err, fault}
use mysql_replication_c.Block.{Malloc}
use mysql_replication_c.Mysql.{Mysql}
use mysql_replication_c.Listener.{Listener, State, ended, is_running, state_code}
use mysql_replication_c.Listener.Step.{Step}
use mysql_replication_c.Listener.Lifecycle.{stop_replication, in_process}
use mysql_replication_c.Listener.Thread.{Turn, Opening, replication_thread}
use mysql_replication_c.Listener.Spec.{Keeps}
use mysql_replication_c.Listener.Order.{end_running-le}
use mysql_replication_c.Listener.Ends.{IsAwaited, IsOver, thread-IsOver}
use mysql_replication_c.Listener.Session.{left_by, thread_result}

-- A listener runs only in the state that its thread waits for.
abbrev pub IsSteady : Listener → Type 0
IsSteady l = is_running l.state ≡ true → IsAwaited l

pub not_running : (l : Listener) (s : State) → l.state ≡ s → is_running s ≡ false → IsSteady l
not_running l s h off =
    λ on. absurd (let no : true ≡ false = sym on ∙ (ap is_running h ∙ off) in cc)

-- What a stop makes of a steady listener: it is over, with what the thread leaves or, where that
-- does not end, where it was; one that does not run is left alone.
stop_cases :
    (thread : Listener → Option Listener) (cancel_code : ℕ) (l : Listener)
    → ((is_running l.state ≡ true)
        × ((stop_replication thread cancel_code l).0
            ≡ record l { need_stop = true; state = ended }))
      ⊎ ((k : Listener) × (is_running l.state ≡ true)
          × (thread (record l { need_stop = true }) ≡ some k)
          × ((stop_replication thread cancel_code l).0 ≡ k))
      ⊎ ((is_running l.state ≡ false) × ((stop_replication thread cancel_code l).0 ≡ l))
unfolding stop_replication
stop_cases thread cancel_code l = elim (Bool-cases (is_running l.state)) [
  | inr a ↦ rw a (inr (inr (refl, refl)))
  | inl a ↦ elim (Option-cases (thread (record l { need_stop = true }))) [
    | inl b ↦
        rw (a, b)
          (inl
            (refl, ap (λ s. record l { need_stop = true; state = s }) (end_running-le l.state a)))
    | inr (k, b) ↦ rw (a, b) (inr (inl (k, refl, refl, refl)))
  ]
]

module _ (m : Mysql) (heap : ℕ → ℕ → Malloc) (o : Opening) (ts : List Turn) where
  -- What is kept of the thread is so of the listener that it leaves.
  left_by-Keeps :
      (P : Listener → Type 0) (l k : Listener)
      → Keeps P (replication_thread m heap o ts l)
      → thread_result m heap o ts l ≡ some k
      → P k
  unfolding thread_result
  left_by-Keeps P l k = given (replication_thread m heap o ts l)
    where
      given : (r : Step) → Keeps P r → left_by r ≡ some k → P k
      given (ok j) p h = rw (sym (some_inj h)) p
      given (err (j, f)) p h = rw (sym (some_inj h)) p
      given fault p h = absurd (let no : none ≡ some k = h in cc)

  -- The listener behind a stop that waits for the thread.
  stopped_lem :
      (l : Listener)
      → IsSteady l
      → let k = (stop_replication (thread_result m heap o ts) 0 l).0 in
        (k.state ≡ ended) ⊎ ((is_running l.state ≡ false) × (k ≡ l))
  stopped_lem l h = elim (stop_cases (thread_result m heap o ts) 0 l) [
    | inl (a, e) ↦ inl (ap (λ (k : Listener). k.state) e)
    | inr (inl (k, a, b, e)) ↦
        let over =
          left_by-Keeps IsOver (record l { need_stop = true }) k
            (thread-IsOver m heap o ts (record l { need_stop = true }) (h a)) b in
        inl (ap (λ (k : Listener). k.state) e ∙ over.0)
    | inr (inr (a, e)) ↦ inr (a, e)
  ]

  -- Behind a stop of a steady listener, in_process says that the replication is off: the thread, by
  -- whichever return it ended, or the stop itself has ended it.
  pub stop-Off :
      (l : Listener)
      → IsSteady l
      → in_process ((stop_replication (thread_result m heap o ts) 0 l).0) ≡ 0
  unfolding in_process state_code
  stop-Off l h = elim (stopped_lem l h) [ inl e ↦ rw e refl | inr (a, e) ↦ rw (e, a) refl ]
