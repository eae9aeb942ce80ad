-- ===== src/Listener/Session.antt =====
-- A whole use of a listener, from its constructor on: calls of the user, and in any order between them
-- the steps of the replication thread that a start creates
-- (mysql_rpl_listener_2/mysql_rpl_listener_2.cc).
use mysql_replication_c.Base.{ℕ, true, false, if◌then◌else◌, List, [], ◌∷◌, Option, none, some}
use mysql_replication_c.Base.Outcome.{ok, err, fault}
use mysql_replication_c.Text.{Bytes}
use mysql_replication_c.Block.{Malloc}
use mysql_replication_c.Mysql.{Mysql}
use mysql_replication_c.Listener.{Listener, is_running}
use mysql_replication_c.Listener.Step.{Step}
use mysql_replication_c.Listener.Lifecycle.{
  Options, new_listener, table_add, ThreadCalls, start_replication, stop_replication,
}
use mysql_replication_c.Listener.Prepare.{Server, prepare_replication}
use mysql_replication_c.Listener.Thread.{
  Turn, Fetch, Opening, description_fails, open_fails, opens, opened, give_up, close_thread,
  one_fetch, event_loop, replication_thread,
}
use mysql_replication_c.Listener.Order.{either}

-- The listener that the thread leaves, by a return or by an error.
abbrev pub left_by : Step → Option Listener
left_by (ok k) = some k
left_by (err (k, f)) = some k
left_by fault = none

unfoldable pub thread_result :
    Mysql → (ℕ → ℕ → Malloc) → Opening → List Turn → Listener → Option Listener
thread_result m heap o ts l = left_by (replication_thread m heap o ts l)

-- Where the replication thread stands: there is none, it is created, or it is in its loop.
pub data Thread : Type 0 where
  no_thread begun looping : Thread

pub record Live : Type 0 where
  pub listener : Listener
  pub thread : Thread

abbrev pub fresh : Options → Live
fresh o = record { listener = new_listener o; thread = no_thread }

-- What happens next: a call of the user, or a step of the thread between two calls, which opens the
-- stream or goes through a round of its loop. `waits_for` is a stop: what the thread does once
-- `need_stop` is set. `cancels` is a stop whose thread does not end in time.
pub data Request : Type 0 where
  adds_table : (db tbl : Bytes) → Request
  prepares_on : Server → Request
  starts_with : ThreadCalls → Request
  opens_with : Opening → Request
  fetches : Fetch → Request
  waits_for : Opening → List Turn → Request
  cancels : (cancel_code : ℕ) → Request

-- A start that succeeds creates the thread.
unfoldable pub begin_thread : ThreadCalls → Live → Live
begin_thread calls s = elim (start_replication calls s.listener) [
  | ok k ↦ record { listener = k; thread = begun }
  | err (k, e) ↦ record s { listener = k }
  | fault ↦ s
]

-- The thread up to its loop.
unfoldable pub open_thread : Opening → Listener → Live
open_thread description_fails l = record {
  listener = give_up (record l { has_description = false });
  thread = no_thread;
}
open_thread open_fails l = record { listener = give_up (opened l); thread = no_thread }
open_thread opens l = record { listener = opened l; thread = looping }

unfoldable pub open_next : Thread → Opening → Live → Live
open_next begun o s = open_thread o s.listener
open_next _ o s = s

-- The end of a round: an error and a stop request end the thread, and a fault the program.
unfoldable pub end_round : Step → Option Live
end_round (ok k) = some (
    if k.need_stop
    then record { listener = close_thread k; thread = no_thread }
    else record { listener = k; thread = looping })
end_round (err (k, f)) = some (record { listener = close_thread k; thread = no_thread })
end_round fault = none

abbrev pub closed_by : Step → Step
closed_by (ok k) = ok (close_thread k)
closed_by (err (k, f)) = err (close_thread k, f)
closed_by fault = fault

-- A stop, with what the thread ends in.
unfoldable pub stopped_by : Step → Listener → Option Live
stopped_by (ok k) l =
    some (record { listener = (stop_replication (λ j. some k) 0 l).0; thread = no_thread })
stopped_by (err (k, f)) l =
    some (record { listener = (stop_replication (λ j. some k) 0 l).0; thread = no_thread })
stopped_by fault l = none

unfoldable pub cancelled : ℕ → Listener → Live
cancelled cancel_code l = record {
  listener = (stop_replication (λ j. none) cancel_code l).0;
  thread = no_thread;
}

module _ (m : Mysql) (heap : ℕ → ℕ → Malloc) where
  -- What is left of the thread once it is told to stop.
  unfoldable pub stop_thread : Thread → Opening → List Turn → Listener → Option Live
  stop_thread no_thread o ts l = some (cancelled 0 l)
  stop_thread begun o ts l =
      stopped_by (replication_thread m heap o ts (record l { need_stop = true })) l
  stop_thread looping o ts l =
      stopped_by (closed_by (event_loop m heap ts (record l { need_stop = true }))) l

  unfoldable pub run_thread : Thread → Fetch → Live → Option Live
  run_thread looping f s = end_round (one_fetch m heap f s.listener)
  run_thread _ f s = some s

  -- `none` is a fault of the thread, which ends the program.
  unfoldable pub perform : Request → Live → Option Live
  perform (adds_table db tbl) s = some (record s { listener = (table_add db tbl s.listener).0 })
  perform (prepares_on v) s =
      some (record s { listener = either s.listener (prepare_replication v s.listener) })
  perform (starts_with calls) s = some (begin_thread calls s)
  perform (opens_with o) s = some (open_next s.thread o s)
  perform (fetches f) s = run_thread s.thread f s
  perform (waits_for o ts) s =
      if is_running s.listener.state then stop_thread s.thread o ts s.listener else some s
  perform (cancels cancel_code) s =
      some (if is_running s.listener.state then cancelled cancel_code s.listener else s)

  unfoldable pub session : List Request → Live → Option Live
  session [] s = some s
  session (r ∷ rs) s = elim (perform r s) [ none ↦ none | some t ↦ session rs t ]
