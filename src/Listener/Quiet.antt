-- ===== src/Listener/Quiet.antt =====
-- What the user is told before the stream is known to be consistent (the states INPROCESS_1 and
-- INPROCESS in mysql_rpl_listener_2/mysql_rpl_listener_2.cc).
use mysql_replication_c.Base.{
  ℕ, ◌≡◌, refl, [], ◌∷◌, List, Bool, true, false, ◌⊎◌, inl, inr, Bool-cases, All, All-append,
}
use mysql_replication_c.Base.Outcome.{ok, err, fault}
use mysql_replication_c.Block.{Malloc}
use mysql_replication_c.Mysql.{Mysql}
use mysql_replication_c.Listener.{Listener, inprocess, Call, heartbeat_call, promote}
use mysql_replication_c.Listener.Step.{Step}
use mysql_replication_c.Listener.Thread.{Turn, event_loop}
use mysql_replication_c.Listener.Spec.{
  View, view, Visible, promotes, beats, begins, opens, shows, commits, leaves, Keeps, Refines,
}
use mysql_replication_c.Listener.RefineThread.{event_loop-Refines}
use mysql_replication_c.Listener.Safety.{Visibles-keep}

abbrev is_beat : Call → Bool
is_beat (heartbeat_call when) = true
is_beat _ = false

abbrev pub IsBeat : Call → Type 0
IsBeat c = is_beat c ≡ true

-- The replication is in process, or there were heartbeats only.
abbrev Quiet : View → Type 0
Quiet v = (v.phase ≡ inprocess) ⊎ (All IsBeat v.calls)

Visible-Quiet : (v w : View) → Visible v w → Quiet v → Quiet w
unfolding promote
Visible-Quiet v w promotes (inl h) = inl (rw h refl)
Visible-Quiet v w promotes (inr h) = inr h
Visible-Quiet v w (beats when) (inl h) = inl h
Visible-Quiet v w (beats when) (inr h) =
    inr (All-append IsBeat v.calls (heartbeat_call when ∷ []) h (refl, tt))
Visible-Quiet v w begins h = h
Visible-Quiet v w (opens when p one) h = elim (Bool-cases v.reports) [
  | inl e ↦ rw e (inl p)
  | inr e ↦ rw e (inl p)
]
Visible-Quiet v w (shows c p n l) h = inl p
Visible-Quiet v w (commits when p n r) h = inl p
Visible-Quiet v w (leaves u) h = h

-- Whatever the server sends: where no call was made before and the loop ends, by a return or by an
-- error, in another state than INPROCESS, the user was told of heartbeats only, never of a start, a
-- commit or rows.
pub loop_is_quiet :
    (m : Mysql) (heap : ℕ → ℕ → Malloc) (ts : List Turn) (l : Listener)
    → l.calls ≡ []
    → Keeps (λ k. (k.state ≡ inprocess) ⊎ (All IsBeat k.calls)) (event_loop m heap ts l)
loop_is_quiet m heap ts l h = given (event_loop m heap ts l) (event_loop-Refines m heap ts l)
  where
    first : Quiet (view l)
    first = inr (rw h tt)

    given : (r : Step) → Refines l r → Keeps (λ k. (k.state ≡ inprocess) ⊎ (All IsBeat k.calls)) r
    given (ok k) p = Visibles-keep Quiet Visible-Quiet (view l) (view k) p first
    given (err (k, f)) p = Visibles-keep Quiet Visible-Quiet (view l) (view k) p first
    given fault p = tt
