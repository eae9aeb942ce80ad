-- ===== src/Api/Codes.antt =====
-- The codes of mysql_rpl_listener__start, mysql_rpl_listener__stop and
-- mysql_rpl_listener__in_process (mysql_rpl_listener.cc).
use mysql_replication_c.Base.{
  ℕ, ◌≡◌, ◌≢◌, refl, true, false, List, some, ◌⊎◌, inl, inr, Bool-cases, if◌then◌else◌,
}
use mysql_replication_c.Base.Outcome.{Outcome, ok, err, fault}
use mysql_replication_c.Block.{Malloc}
use mysql_replication_c.Mysql.{Mysql}
use mysql_replication_c.Listener.{
  Listener, State, created, post_created, prepared, post_prepared, inprocess_1, inprocess, ended,
  state_code,
}
use mysql_replication_c.Listener.Lifecycle.{
  ThreadCalls, attr_init_fails, attr_set_fails, create_fails, thread_starts, StartError, started,
  start_from, start_replication, in_process,
}
use mysql_replication_c.Listener.Thread.{Turn, Opening}
use mysql_replication_c.Listener.Session.{thread_result}
use mysql_replication_c.Listener.Steady.{stop-Off}
use mysql_replication_c.Api.{Handle, start, stop, in_process_code}

module _ (m : Mysql) (heap : ℕ → ℕ → Malloc) (o : Opening) (ts : List Turn) where
  -- A start of the handle to `l`: it succeeds, the status says that the replication runs, and a stop
  -- that waits for the thread makes it off; or it is refused, and the replication is off or, where the
  -- listener is not prepared, as it was.
  abbrev pub IsCoded : Listener → Outcome (Handle × ℕ) Handle → Type 0
  IsCoded l (ok h) =
      (l.state ≡ prepared)
      × ((in_process_code h ≡ 80) ⊎ (in_process_code h ≡ 90))
      × (in_process_code ((stop (thread_result m heap o ts) 0 h).0) ≡ 0)
  IsCoded l (err (h, code)) =
      (code ≡ 1020)
      × (((l.state ≡ prepared) × (in_process_code h ≡ 0)) ⊎ ((l.state ≢ prepared) × (h ≡ some l)))
  IsCoded l fault = false ≡ true

  -- A listener that starts, and whose thread is waited for.
  abbrev begun : Listener → Listener
  begun l = record l {
    need_stop = false;
    state = if l.position_was_setted then inprocess else inprocess_1;
  }

  runs : (l : Listener) → l.state ≡ prepared → IsCoded l (ok (some (begun l)))
  unfolding in_process_code in_process stop state_code
  runs l h =
      let off = stop-Off m heap o ts (begun l) (λ on. ((λ p. rw p refl), (λ p. rw p refl))) in
      elim (Bool-cases l.position_was_setted) [
        | inl a ↦ (h, inr (rw a refl), off)
        | inr a ↦ (h, inl (rw a refl), off)
      ]

  -- mysql_rpl_listener__start of a handle that is not null:
  -- where it returns 0, the listener was prepared, the status is REPL_PROC_STATUS_PHASE_1 or
  -- REPL_PROC_STATUS_PHASE_2, and behind mysql_rpl_listener__stop, which waits for the thread, it is
  -- REPL_PROC_STATUS_OFF;
  -- else it returns 1020, and the status of a listener that was prepared is off, while any other is
  -- left as it was.
  pub start-IsCoded : (calls : ThreadCalls) (l : Listener) → IsCoded l (start calls (some l))
  unfolding start start_replication start_from started in_process_code in_process state_code
  start-IsCoded calls l = given l.state refl
    where
      report : Outcome (Listener × StartError) Listener → Outcome (Handle × ℕ) Handle
      report (ok k) = ok (some k)
      report (err (k, e)) = err (some k, 1020)
      report fault = fault

      with_calls : (c : ThreadCalls) → l.state ≡ prepared → IsCoded l (report (started c l))
      with_calls attr_init_fails h = (refl, inl (h, refl))
      with_calls attr_set_fails h = (refl, inl (h, refl))
      with_calls create_fails h = (refl, inl (h, refl))
      with_calls thread_starts h = runs l h

      given : (s : State) → l.state ≡ s → IsCoded l (report (start_from s calls l))
      given prepared h = with_calls calls h
      given created h = (refl, inr ((λ e. let no : created ≡ prepared = cc in cc), refl))
      given post_created h = (refl, inr ((λ e. let no : post_created ≡ prepared = cc in cc), refl))
      given post_prepared h =
          (refl, inr ((λ e. let no : post_prepared ≡ prepared = cc in cc), refl))
      given inprocess_1 h = (refl, inr ((λ e. let no : inprocess_1 ≡ prepared = cc in cc), refl))
      given inprocess h = (refl, inr ((λ e. let no : inprocess ≡ prepared = cc in cc), refl))
      given ended h = (refl, inr ((λ e. let no : ended ≡ prepared = cc in cc), refl))
