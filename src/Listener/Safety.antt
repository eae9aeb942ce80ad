-- ===== src/Listener/Safety.antt =====
-- The calls that the user of a replication sees (on_rpl_row and on_rpl_transaction of
-- mysql_rpl_listener.h).
use mysql_replication_c.Base.{
  ℕ, ◌≡◌, ◌≢◌, Bool, true, false, List, [], ◌∷◌, Option, none, some, map, Bool-cases, inl, inr, All,
  All-append, arith,
}
use mysql_replication_c.Base.Outcome.{ok, err, fault}
use mysql_replication_c.Block.{Malloc}
use mysql_replication_c.Text.{Bytes}
use mysql_replication_c.Mysql.{Mysql}
use mysql_replication_c.Listener.{Listener, Call, row_call, heartbeat_call, start_call, commit_call}
use mysql_replication_c.Listener.Step.{Step}
use mysql_replication_c.Listener.Spec.{
  View, view, table_name, Listened, Visible, promotes, beats, shows, leaves, Visibles, done, more,
  Keeps, Refines,
}
use mysql_replication_c.Listener.Thread.{
  Opening, description_fails, open_fails, opens, opened, Turn, event_loop, close_thread, give_up,
  replication_thread,
}
use mysql_replication_c.Listener.RefineThread.{event_loop-Refines}
use mysql_replication_c.Listener.Brackets.{after_calls, IsBracketed, Open, Visible-Bracketed}

-- An invariant of the steps is one of a replication.
pub Visibles-keep :
    (P : View → Type 0)
    → ((v w : View) → Visible v w → P v → P w)
    → (v w : View) → Visibles v w
    → P v
    → P w
Visibles-keep P step v _ done h = h
Visibles-keep P step v u (more {w = w} s p) h = Visibles-keep P step w u p (step v w s h)

module _ (P : List (Bytes × Bytes) → List Call → ℕ → Bool → Type 0) where
  abbrev Seen : Listener → Type 0
  Seen l = P (map table_name l.tables) l.calls l.in_transaction l.on_transaction

  abbrev SeenView : View → Type 0
  SeenView v = P v.tables v.calls v.transaction v.reports

  thread-Keeps :
      ((v w : View) → Visible v w → SeenView v → SeenView w)
      → (m : Mysql) (heap : ℕ → ℕ → Malloc) (o : Opening) (ts : List Turn) (l : Listener) → Seen l
      → Keeps Seen (replication_thread m heap o ts l)
  unfolding replication_thread give_up close_thread
  thread-Keeps step m heap description_fails ts l h = h
  thread-Keeps step m heap open_fails ts l h = h
  thread-Keeps step m heap opens ts l h =
      closed (event_loop m heap ts (opened l)) (event_loop-Refines m heap ts (opened l))
    where
      closed :
          (r : Step)
          → Refines (opened l) r
          → Keeps Seen (elim r [
            | ok k ↦ ok (close_thread k)
            | err (k, f) ↦ err (close_thread k, f)
            | fault ↦ fault
          ])
      closed (ok k) p = Visibles-keep SeenView step (view (opened l)) (view k) p h
      closed (err (k, f)) p = Visibles-keep SeenView step (view (opened l)) (view k) p h
      closed fault p = tt

Keeps-weaken :
    (P Q : Listener → Type 0) (r : Step) → ((k : Listener) → P k → Q k) → Keeps P r → Keeps Q r
Keeps-weaken P Q (ok k) f h = f k h
Keeps-weaken P Q (err (k, e)) f h = f k h
Keeps-weaken P Q fault f h = tt

Open-some : (b : Bool) (n : ℕ) (o : Option Bool) → Open b n o → o ≢ none
Open-some b n none h = λ e. absurd (let f : false ≡ true = h in cc)
Open-some b n (some o) h = λ e. cc

abbrev Marked : List (Bytes × Bytes) → List Call → ℕ → Bool → Type 0
Marked tables cs n b = Open b n (after_calls false cs)

-- Whatever the server sends, and however the replication ends: where no call was made before and no
-- transaction is marked, each commit that the user is told of closes a start that the user was told
-- of before.
pub thread-IsBracketed :
    (m : Mysql) (heap : ℕ → ℕ → Malloc) (o : Opening) (ts : List Turn) (l : Listener)
    → l.calls ≡ []
    → l.in_transaction ≡ 0
    → Keeps (λ k. IsBracketed k.calls) (replication_thread m heap o ts l)
unfolding after_calls
thread-IsBracketed m heap o ts l calls mark =
    Keeps-weaken (Seen Marked) (λ k. IsBracketed k.calls) (replication_thread m heap o ts l)
      (λ k h. Open-some k.on_transaction k.in_transaction (after_calls false k.calls) h)
      (thread-Keeps Marked (λ v w s h. Visible-Bracketed s h) m heap o ts l first)
  where
    first : Open l.on_transaction l.in_transaction (after_calls false l.calls)
    first = rw (calls, mark) (λ r g. absurd (omega arith))

-- A call that gives rows names a listened table.
abbrev pub ListenedCall : List (Bytes × Bytes) → Call → Type 0
ListenedCall tables (row_call c) = Listened tables c
ListenedCall tables _ = Unit {0}

abbrev AllListened : List (Bytes × Bytes) → List Call → ℕ → Bool → Type 0
AllListened tables cs n b = All (ListenedCall tables) cs

Visible-AllListened :
    (v w : View)
    → Visible v w
    → All (ListenedCall v.tables) v.calls
    → All (ListenedCall w.tables) w.calls
Visible-AllListened v w promotes h = h
Visible-AllListened v w (beats when) h =
    All-append (ListenedCall v.tables) v.calls (heartbeat_call when ∷ []) h (tt, tt)
Visible-AllListened v w Visible.begins h = h
Visible-AllListened v w (Visible.opens when p one) h = elim (Bool-cases v.reports) [
  | inl e ↦ rw e (All-append (ListenedCall v.tables) v.calls (start_call when ∷ []) h (tt, tt))
  | inr e ↦ rw e h
]
Visible-AllListened v w (shows c p n l) h =
    All-append (ListenedCall v.tables) v.calls (row_call c ∷ []) h (l, tt)
Visible-AllListened v w (Visible.commits when p n r) h =
    All-append (ListenedCall v.tables) v.calls (commit_call when ∷ []) h (tt, tt)
Visible-AllListened v w (leaves u) h = h

-- Whatever the server sends: where no call was made before, each call of on_rpl_row has the names
-- of a table of the listener.
pub thread-Listened :
    (m : Mysql) (heap : ℕ → ℕ → Malloc) (o : Opening) (ts : List Turn) (l : Listener)
    → l.calls ≡ []
    → Keeps
        (λ k. All (ListenedCall (map table_name k.tables)) k.calls)
        (replication_thread m heap o ts l)
thread-Listened m heap o ts l calls =
    thread-Keeps AllListened Visible-AllListened m heap o ts l (rw calls tt)
