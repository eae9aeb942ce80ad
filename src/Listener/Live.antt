-- ===== src/Listener/Live.antt =====
-- The states and the well-formedness of a listener through a whole use of it
-- (mysql_rpl_listener_2/mysql_rpl_listener_2.cc).
use mysql_replication_c.Base.{
  sym, subst, ◌≡◌, refl, ap, ◌∙◌, true, false, Option, none, some, inl, inr, Bool-cases, arith,
}
use mysql_replication_c.Base.Outcome.{Outcome, ok, err, fault}
use mysql_replication_c.Text.{Bytes}
use mysql_replication_c.Listener.{
  Listener, State, created, post_created, prepared, post_prepared, inprocess_1, inprocess, ended,
  is_running, state_code,
}
use mysql_replication_c.Listener.Lifecycle.{
  table_add, add_table, ThreadCalls, attr_init_fails, attr_set_fails, create_fails, thread_starts,
  StartError, started, start_from, start_replication,
}
use mysql_replication_c.Listener.Prepare.{Server, Prepare, prepare_replication}
use mysql_replication_c.Listener.Thread.{
  Opening, description_fails, open_fails, opens, opened, give_up,
}
use mysql_replication_c.Listener.Ready.{Settled, prepare_replication-Settled}
use mysql_replication_c.Listener.Order.{either, prepare-Rises, table_add-Rises, Rises, ended-Rises}
use mysql_replication_c.Listener.Ends.{IsAwaited, awaited-running, awaited-end}
use mysql_replication_c.Listener.Session.{
  Thread, no_thread, begun, looping, Live, begin_thread, open_thread, open_next,
}

-- The state of the listener fits where its thread stands.
abbrev pub Fits : Thread → Listener → Type 0
Fits no_thread l = is_running l.state ≡ false
Fits begun l = IsAwaited l
Fits looping l = is_running l.state ≡ true

abbrev pub IsSound : Live → Type 0
IsSound s = Fits s.thread s.listener

-- A predicate on what is left where the program goes on.
abbrev pub After : (Live → Type 0) → Option Live → Type 0
After P none = Unit {0}
After P (some t) = P t

abbrev pub Goes : Listener → Live → Type 0
Goes l t = IsSound t × Rises l t.listener

pub over_lem :
    (l k : Listener) → k.state ≡ ended → Goes l (record { listener = k; thread = no_thread })
over_lem l k e = (rw e refl, ended-Rises l k e)

-- A listener that is not in the state `st` where that runs.
Fits-state :
    (t : Thread) (l k : Listener)
    → k.state ≡ l.state
    → k.position_was_setted ≡ l.position_was_setted
    → Fits t l
    → Fits t k
Fits-state no_thread l k e p h = rw e h
Fits-state looping l k e p h = rw e h
Fits-state begun l k e p h = ((λ q. e ∙ h.0 (sym p ∙ q)), (λ q. e ∙ h.1 (sym p ∙ q)))

-- A state that does not run has no thread.
idle :
    (t : Thread) (l : Listener) (s : State)
    → l.state ≡ s
    → is_running s ≡ false
    → Fits t l
    → t ≡ no_thread
idle no_thread l s e off h = refl
idle looping l s e off h = absurd (let no : true ≡ false = sym h ∙ (ap is_running e ∙ off) in cc)
idle begun l s e off h =
    absurd (let no : true ≡ false = sym (awaited-running l h) ∙ (ap is_running e ∙ off) in cc)

pub add_lem :
    (db tbl : Bytes) (s : Live)
    → IsSound s
    → Goes s.listener (record s { listener = (table_add db tbl s.listener).0 })
unfolding table_add add_table
add_lem db tbl s h = (given s.listener.state, table_add-Rises db tbl s.listener)
  where
    given : (st : State) → Fits s.thread ((add_table st db tbl s.listener).0)
    given created =
        Fits-state s.thread s.listener ((add_table created db tbl s.listener).0) refl refl h
    given post_created = h
    given prepared = h
    given post_prepared = h
    given inprocess_1 = h
    given inprocess = h
    given ended = h

pub prepare_lem :
    (v : Server) (s : Live)
    → IsSound s
    → Goes s.listener (record s { listener = either s.listener (prepare_replication v s.listener) })
prepare_lem v s h = (
  given (prepare_replication v s.listener) (prepare_replication-Settled v s.listener),
  prepare-Rises v s.listener,
)
  where
    without :
        (k : Listener) → s.listener.state ≡ created → is_running k.state ≡ false → Fits s.thread k
    without k fresh_one off =
        subst (λ t. Fits t k) (sym (idle s.thread s.listener created fresh_one refl h)) off

    given : (o : Prepare Listener) → Settled v s.listener o → Fits s.thread (either s.listener o)
    given (ok k) p = without k p.0 (rw p.2.0 refl)
    given (err (k, e)) (inl p) = without k p.0 (rw p.1 refl)
    given (err (k, e)) (inr p) = rw p.1 h
    given fault p = h

pub start_lem :
    (calls : ThreadCalls) (s : Live) → IsSound s → Goes s.listener (begin_thread calls s)
unfolding begin_thread start_replication start_from started state_code
start_lem calls s h = given s.listener.state refl
  where
    made : Outcome (Listener × StartError) Listener → Live
    made o = elim o [
      | ok k ↦ record { listener = k; thread = begun }
      | err (k, e) ↦ record s { listener = k }
      | fault ↦ s
    ]

    failed :
        (k : Listener)
        → s.listener.state ≡ prepared
        → k.state ≡ ended
        → Goes s.listener (record s { listener = k })
    failed k ready e = (
      subst (λ t. Fits t k) (sym (idle s.thread s.listener prepared ready refl h)) (rw e refl),
      ended-Rises s.listener k e,
    )

    with_calls :
        (c : ThreadCalls)
        → s.listener.state ≡ prepared
        → Goes s.listener (made (started c s.listener))
    with_calls attr_init_fails ready = failed (record s.listener { state = ended }) ready refl
    with_calls attr_set_fails ready = failed (record s.listener { state = ended }) ready refl
    with_calls create_fails ready =
        failed (record s.listener { state = ended; need_stop = false }) ready refl
    with_calls thread_starts ready = (
      ((λ p. rw p refl), (λ p. rw p refl)),
      elim (Bool-cases s.listener.position_was_setted) [
        | inl a ↦ rw (ready, a) (omega arith)
        | inr a ↦ rw (ready, a) (omega arith)
      ],
    )

    given :
        (st : State)
        → s.listener.state ≡ st
        → Goes s.listener (made (start_from st calls s.listener))
    given prepared ready = with_calls calls ready
    given created e = (h, (omega arith))
    given post_created e = (h, (omega arith))
    given post_prepared e = (h, (omega arith))
    given inprocess_1 e = (h, (omega arith))
    given inprocess e = (h, (omega arith))
    given ended e = (h, (omega arith))

open_lem : (o : Opening) (l : Listener) → IsAwaited l → Goes l (open_thread o l)
unfolding open_thread give_up
open_lem description_fails l h =
    over_lem l (give_up (record l { has_description = false })) (awaited-end l h)
open_lem open_fails l h = over_lem l (give_up (opened l)) (awaited-end l h)
open_lem opens l h = (awaited-running l h, (omega arith))

pub next_lem :
    (t : Thread) (o : Opening) (s : Live)
    → t ≡ s.thread
    → IsSound s
    → Goes s.listener (open_next t o s)
unfolding open_next
next_lem no_thread o s e h = (h, (omega arith))
next_lem looping o s e h = (h, (omega arith))
next_lem begun o s e h = open_lem o s.listener (subst (λ t. Fits t s.listener) (sym e) h)
