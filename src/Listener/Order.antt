-- ===== src/Listener/Order.antt =====
-- The order of the calls of a listener: table_add, prepare_replication, start_replication and
-- stop_replication (mysql_rpl_listener_2/mysql_rpl_listener_2.cc), in any sequence.
use mysql_replication_c.Base.{◌≤◌, ◌<◌, ◌≡◌, refl, ap, true, false, inl, inr, Bool-cases, arith}
use mysql_replication_c.Base.Outcome.{Outcome, ok, err, fault, Holds}
use mysql_replication_c.Text.{Bytes}
use mysql_replication_c.Listener.{
  Listener, State, created, post_created, prepared, post_prepared, inprocess_1, inprocess, ended,
  state_code, end_running, is_running,
}
use mysql_replication_c.Listener.Lifecycle.{
  table_add, add_table, ThreadCalls, attr_init_fails, attr_set_fails, create_fails, thread_starts,
  start_order, started, start_from, start_replication,
}
use mysql_replication_c.Listener.Prepare.{Server, Prepare, prepare_replication}
use mysql_replication_c.Listener.Ready.{Settled, prepare_replication-Settled}

-- The listener after a call that may report an error.
abbrev pub either : {E : Type 0} → Listener → Outcome (Listener × E) Listener → Listener
either l (ok k) = k
either l (err (k, e)) = k
either l fault = l

-- The number of the state does not fall.
abbrev pub Rises : Listener → Listener → Type 0
Rises l k = state_code l.state ≤ state_code k.state

pub code-le : (s : State) → state_code s ≤ 100
unfolding state_code
code-le created = omega arith
code-le post_created = omega arith
code-le prepared = omega arith
code-le post_prepared = omega arith
code-le inprocess_1 = omega arith
code-le inprocess = omega arith
code-le ended = omega arith

pub ended-Rises : (l k : Listener) → k.state ≡ ended → Rises l k
unfolding state_code
ended-Rises l k h = rw h (code-le l.state)

pub prepare-Rises : (s : Server) (l : Listener) → Rises l (either l (prepare_replication s l))
prepare-Rises s l = given (prepare_replication s l) (prepare_replication-Settled s l)
  where
    given : (o : Prepare Listener) → Settled s l o → Rises l (either l o)
    given (ok k) h =
        let a : state_code l.state ≡ state_code created = ap state_code h.0 in
        let b : state_code k.state ≡ state_code prepared = ap state_code h.2.0 in
        unfold state_code in omega (arith, a, b)
    given (err (k, e)) (inl h) = ended-Rises l k h.1
    given (err (k, e)) (inr h) = rw h.1 (omega arith)
    given fault h = omega arith

pub table_add-Rises : (db tbl : Bytes) (l : Listener) → Rises l ((table_add db tbl l).0)
unfolding table_add
table_add-Rises db tbl l = given l.state
  where
    given : (s : State) → Rises l ((add_table s db tbl l).0)
    given created = omega arith
    given post_created = omega arith
    given prepared = omega arith
    given post_prepared = omega arith
    given inprocess_1 = omega arith
    given inprocess = omega arith
    given ended = omega arith

pub start-Rises :
    (calls : ThreadCalls) (l : Listener) → Rises l (either l (start_replication calls l))
unfolding start_replication start_from started state_code
start-Rises calls l = given l.state refl
  where
    begun : (c : ThreadCalls) → l.state ≡ prepared → Rises l (either l (started c l))
    begun attr_init_fails h = ended-Rises l (record l { state = ended }) refl
    begun attr_set_fails h = ended-Rises l (record l { state = ended }) refl
    begun create_fails h = ended-Rises l (record l { state = ended; need_stop = false }) refl
    begun thread_starts h = elim (Bool-cases l.position_was_setted) [
      | inl a ↦ rw (h, a) (omega arith)
      | inr a ↦ rw (h, a) (omega arith)
    ]

    given : (s : State) → l.state ≡ s → Rises l (either l (start_from s calls l))
    given prepared h = begun calls h
    given created h = omega arith
    given post_created h = omega arith
    given post_prepared h = omega arith
    given inprocess_1 h = omega arith
    given inprocess h = omega arith
    given ended h = omega arith

-- The swaps at the end of a running listener.
pub end_running-le : (s : State) → is_running s ≡ true → end_running s ≡ ended
unfolding end_running
end_running-le inprocess_1 h = refl
end_running-le inprocess h = refl
end_running-le created h = cc
end_running-le post_created h = cc
end_running-le prepared h = cc
end_running-le post_prepared h = cc
end_running-le ended h = cc

-- A start is refused from a state behind PREPARED.
pub refused :
    (calls : ThreadCalls) (l : Listener)
    → 40 < state_code l.state
    → start_replication calls l ≡ err (l, start_order)
unfolding start_replication start_from state_code
refused calls l h = given l.state h
  where
    given : (s : State) → 40 < state_code s → start_from s calls l ≡ err (l, start_order)
    given prepared h = absurd (omega arith)
    given created h = absurd (omega arith)
    given post_created h = refl
    given post_prepared h = refl
    given inprocess_1 h = refl
    given inprocess h = refl
    given ended h = refl

-- A start that succeeds leaves PREPARED.
pub start_behind :
    (calls : ThreadCalls) (l : Listener)
    → Holds (λ k. 40 < state_code k.state) (start_replication calls l)
unfolding start_replication start_from started state_code
start_behind calls l = given l.state
  where
    begun : (c : ThreadCalls) → Holds (λ k. 40 < state_code k.state) (started c l)
    begun attr_init_fails = tt
    begun attr_set_fails = tt
    begun create_fails = tt
    begun thread_starts = elim (Bool-cases l.position_was_setted) [
      | inl a ↦ rw a (omega arith)
      | inr a ↦ rw a (omega arith)
    ]

    given : (s : State) → Holds (λ k. 40 < state_code k.state) (start_from s calls l)
    given prepared = begun calls
    given created = tt
    given post_created = tt
    given post_prepared = tt
    given inprocess_1 = tt
    given inprocess = tt
    given ended = tt
