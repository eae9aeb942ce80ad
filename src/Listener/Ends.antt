-- ===== src/Listener/Ends.antt =====
-- How the replication thread ends (process_replication_thread_fnc in
-- mysql_rpl_listener_2/mysql_rpl_listener_2.cc), and what a stop request makes of it.
use mysql_replication_c.Base.{
  ℕ, ◌≡◌, refl, ◌∙◌, Bool, true, false, ◌||◌, List, [], ◌∷◌, ◌++◌, Bool-cases, inl, inr,
}
use mysql_replication_c.Base.Outcome.{ok, err, fault}
use mysql_replication_c.Block.{Malloc}
use mysql_replication_c.Mysql.{Mysql}
use mysql_replication_c.Listener.{
  Listener, State, created, post_created, prepared, post_prepared, inprocess_1, inprocess, ended,
  is_running, end_running, promote,
}
use mysql_replication_c.Listener.Step.{Step}
use mysql_replication_c.Listener.Thread.{
  Turn, one_fetch, event_loop, Opening, description_fails, open_fails, opens, opened, end_awaited,
  give_up, close_thread, replication_thread,
}
use mysql_replication_c.Listener.Spec.{
  Keeps, View, view, Visible, promotes, beats, begins, shows, commits, leaves, Visibles, Refines,
}
use mysql_replication_c.Listener.Safety.{Visibles-keep}
use mysql_replication_c.Listener.RefineThread.{event_loop-Refines}
use mysql_replication_c.Listener.Order.{end_running-le}
use mysql_replication_c.Listener.WellFormed.{fetch-Keeping, Keeping}

-- The state that the thread waits for at its start: start_replication sets it.
abbrev pub IsAwaited : Listener → Type 0
IsAwaited l =
    (l.position_was_setted ≡ true → l.state ≡ inprocess)
    × (l.position_was_setted ≡ false → l.state ≡ inprocess_1)

-- A round with two continuations that agree.
same_rest :
    (r : Step) (f g : Listener → Step)
    → ((k : Listener) → f k ≡ g k)
    → (elim r as (λ s. Step) [
      | ok k ↦ elim k.need_stop [ true ↦ ok k | false ↦ f k ]
      | err e ↦ err e
      | fault ↦ fault
    ])
      ≡ (elim r as (λ s. Step) [
        | ok k ↦ elim k.need_stop [ true ↦ ok k | false ↦ g k ]
        | err e ↦ err e
        | fault ↦ fault
      ])
same_rest (ok k) f g h = elim (Bool-cases k.need_stop) [ inl e ↦ rw e refl | inr e ↦ rw e (h k) ]
same_rest (err e) f g h = refl
same_rest fault f g h = refl

module _ (m : Mysql) (heap : ℕ → ℕ → Malloc) where
  -- A round that is told to stop is the last one, whatever is still in the stream.
  stopping :
      (t : Turn) (us : List Turn) (l : Listener)
      → t.stop ≡ true
      → event_loop m heap (t ∷ us) l ≡ event_loop m heap (t ∷ []) l
  unfolding event_loop
  stopping t us l h =
      given (one_fetch m heap t.fetch (told l)) (fetch-Keeping m heap t.fetch (told l))
    where
      told : Listener → Listener
      told l = record l { need_stop = l.need_stop || t.stop }

      is_told : (b : Bool) → (b || t.stop) ≡ true
      is_told true = refl
      is_told false = h

      given :
          (r : Step)
          → Keeping (record l { need_stop = l.need_stop || t.stop }) r
          → (elim r as (λ s. Step) [
            | ok k ↦ elim k.need_stop [ true ↦ ok k | false ↦ event_loop m heap us k ]
            | err f ↦ err f
            | fault ↦ fault
          ])
            ≡ (elim r as (λ s. Step) [
              | ok k ↦ elim k.need_stop [ true ↦ ok k | false ↦ event_loop m heap [] k ]
              | err f ↦ err f
              | fault ↦ fault
            ])
      given (ok k) p = rw (p.0 ∙ is_told l.need_stop) refl
      given (err f) p = refl
      given fault p = refl

  -- A stop request ends the loop: from the round in which `need_stop` is set, nothing more is read
  -- of the stream, so that the loop ends with that round or before.
  pub stop_ends_loop :
      (ts us : List Turn) (t : Turn) (l : Listener)
      → t.stop ≡ true
      → event_loop m heap (ts ++ t ∷ us) l ≡ event_loop m heap (ts ++ t ∷ []) l
  unfolding event_loop
  stop_ends_loop [] us t l h = stopping t us l h
  stop_ends_loop (s ∷ ts) us t l h =
      same_rest (one_fetch m heap s.fetch (record l { need_stop = l.need_stop || s.stop }))
        (event_loop m heap (ts ++ t ∷ us)) (event_loop m heap (ts ++ t ∷ []))
        (λ k. stop_ends_loop ts us t k h)

-- A running listener.
abbrev Running : View → Type 0
Running v = is_running v.phase ≡ true

pub promote-running : (s : State) → is_running s ≡ true → is_running (promote s) ≡ true
unfolding promote
promote-running inprocess_1 h = refl
promote-running inprocess h = h
promote-running created h = h
promote-running post_created h = h
promote-running prepared h = h
promote-running post_prepared h = h
promote-running ended h = h

-- What a promotion keeps of the state, every step does.
pub Visible-phase :
    (P : State → Type 0)
    → ((s : State) → P s → P (promote s))
    → (v w : View) → Visible v w
    → P v.phase
    → P w.phase
Visible-phase P step v w promotes h = step v.phase h
Visible-phase P step v w (beats when) h = h
Visible-phase P step v w begins h = h
Visible-phase P step v w (Visible.opens when p one) h = elim (Bool-cases v.reports) [
  | inl e ↦ rw e h
  | inr e ↦ rw e h
]
Visible-phase P step v w (shows c p n l) h = h
Visible-phase P step v w (commits when p n r) h = h
Visible-phase P step v w (leaves u) h = h

Visible-Running : (v w : View) → Visible v w → Running v → Running w
Visible-Running = Visible-phase (λ s. is_running s ≡ true) promote-running

pub awaited-running : (l : Listener) → IsAwaited l → is_running l.state ≡ true
awaited-running l h = elim (Bool-cases l.position_was_setted) [
  | inl a ↦ rw (h.0 a) refl
  | inr a ↦ rw (h.1 a) refl
]

pub awaited-end : (l : Listener) → IsAwaited l → end_awaited l.position_was_setted l.state ≡ ended
unfolding end_awaited
awaited-end l h = elim (Bool-cases l.position_was_setted) [
  | inl a ↦ rw (a, h.0 a) refl
  | inr a ↦ rw (a, h.1 a) refl
]

abbrev pub IsOver : Listener → Type 0
IsOver k = (k.state ≡ ended) × (k.connected ≡ false)

-- A thread that starts in the state it waits for ends the listener and closes the connection, by
-- whichever return it ends: before the loop, by an error in it, or by a stop request.
pub thread-IsOver :
    (m : Mysql) (heap : ℕ → ℕ → Malloc) (o : Opening) (ts : List Turn) (l : Listener)
    → IsAwaited l
    → Keeps IsOver (replication_thread m heap o ts l)
unfolding replication_thread give_up close_thread
thread-IsOver m heap description_fails ts l h = (awaited-end l h, refl)
thread-IsOver m heap open_fails ts l h = (awaited-end l h, refl)
thread-IsOver m heap opens ts l h =
    closed (event_loop m heap ts (opened l)) (event_loop-Refines m heap ts (opened l))
  where
    over : (k : Listener) → Visibles (view (opened l)) (view k) → end_running k.state ≡ ended
    over k p =
        end_running-le k.state
          (Visibles-keep Running Visible-Running (view (opened l)) (view k) p (awaited-running l h))

    closed :
        (r : Step)
        → Refines (opened l) r
        → Keeps IsOver (elim r [
          | ok k ↦ ok (close_thread k)
          | err (k, f) ↦ err (close_thread k, f)
          | fault ↦ fault
        ])
    closed (ok k) p = (over k p, refl)
    closed (err (k, f)) p = (over k p, refl)
    closed fault p = tt
