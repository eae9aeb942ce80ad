-- ===== src/Listener/Brackets.antt =====
-- Starts and commits as brackets in the calls of the user.
use mysql_replication_c.Base.{
  ℕ, ◌<◌, ◌≤◌, ◌≡◌, ◌≢◌, refl, Bool, true, false, List, [], ◌∷◌, ◌++◌, Option, none, some,
  Bool-cases, inl, inr, arith,
}
use mysql_replication_c.Listener.{RowsCall, Call, row_call, heartbeat_call, start_call, commit_call}
use mysql_replication_c.Listener.Spec.{View, Visible, promotes, beats, shows, leaves}

-- Whether a transaction is open after a call; `none` after a commit without one.
unfoldable pub after_call : Bool → Call → Option Bool
after_call was (row_call c) = some was
after_call was (heartbeat_call when) = some was
after_call was (start_call when) = some true
after_call true (commit_call when) = some false
after_call false (commit_call when) = none

unfoldable pub after_calls : Bool → List Call → Option Bool
unfolding after_call
after_calls was [] = some was
after_calls was (c ∷ cs) = elim (after_call was c) [ none ↦ none | some o ↦ after_calls o cs ]

-- Each commit closes a start.
abbrev pub IsBracketed : List Call → Type 0
IsBracketed cs = after_calls false cs ≢ none

abbrev pub then_call : Option Bool → Call → Option Bool
then_call none c = none
then_call (some o) c = after_call o c

pub last_call : (o : Option Bool) → (elim o [ none ↦ none | some p ↦ some p ]) ≡ o
last_call none = refl
last_call (some p) = refl

pub next_call :
    (o : Option Bool) (f g : Bool → Option Bool) (c : Call)
    → ((p : Bool) → f p ≡ then_call (g p) c)
    → (elim o [ none ↦ none | some p ↦ f p ]) ≡ then_call (elim o [ none ↦ none | some p ↦ g p ]) c
next_call none f g c h = refl
next_call (some p) f g c h = h p

pub after_calls-snoc :
    (was : Bool) (cs : List Call) (c : Call)
    → after_calls was (cs ++ c ∷ []) ≡ then_call (after_calls was cs) c
unfolding after_calls
after_calls-snoc was [] c = last_call (after_call was c)
after_calls-snoc was (d ∷ cs) c =
    next_call (after_call was d) (λ p. after_calls p (cs ++ c ∷ [])) (λ p. after_calls p cs) c
      (λ p. after_calls-snoc p cs c)

-- The invariant: a transaction that is marked as reported is open.
abbrev pub Open : Bool → ℕ → Option Bool → Type 0
Open reports n none = false ≡ true
Open reports n (some o) = reports ≡ true → 1 < n → o ≡ true

abbrev pub Bracketed : View → Type 0
Bracketed v = Open v.reports v.transaction (after_calls false v.calls)

pub Open-low : (b : Bool) (n k : ℕ) (o : Option Bool) → k ≤ 1 → Open b n o → Open b k o
Open-low b n k none low h = h
Open-low b n k (some o) low h = λ r g. absurd (omega arith)

pub Open-start :
    (b : Bool) (n : ℕ) (when : ℕ) (o : Option Bool)
    → Open b n o
    → Open b 2 (then_call o (start_call when))
unfolding after_call
Open-start b n when none h = h
Open-start b n when (some o) h = λ r g. refl

pub Open-commit :
    (b : Bool) (n : ℕ) (when : ℕ) (o : Option Bool)
    → Open b n o
    → 1 < n
    → b ≡ true
    → Open b 0 (then_call o (commit_call when))
unfolding after_call
Open-commit b n when none h low r = h
Open-commit b n when (some true) h low r = λ r g. absurd (omega arith)
Open-commit b n when (some false) h low r = h r low

pub Open-unreported : (b : Bool) (n k : ℕ) (o : Option Bool) → b ≡ false → Open b n o → Open b k o
Open-unreported b n k none e h = h
Open-unreported b n k (some o) e h = λ r g. absurd (let f : true ≡ false = cc in cc)

-- A call that neither starts nor ends a transaction.
pub Open-beat :
    (b : Bool) (n : ℕ) (when : ℕ) (o : Option Bool)
    → Open b n o
    → Open b n (then_call o (heartbeat_call when))
unfolding after_call
Open-beat b n when none h = h
Open-beat b n when (some o) h = h

pub Open-row :
    (b : Bool) (n : ℕ) (c : RowsCall) (o : Option Bool)
    → Open b n o
    → Open b n (then_call o (row_call c))
unfolding after_call
Open-row b n c none h = h
Open-row b n c (some o) h = h

pub Visible-Bracketed : {v w : View} → Visible v w → Bracketed v → Bracketed w
Visible-Bracketed promotes h = h
Visible-Bracketed {v = v} (beats when) h =
    rw (after_calls-snoc false v.calls (heartbeat_call when))
      (Open-beat v.reports v.transaction when (after_calls false v.calls) h)
Visible-Bracketed {v = v} Visible.begins h =
    Open-low v.reports v.transaction 1 (after_calls false v.calls) (omega arith) h
Visible-Bracketed {v = v} (Visible.opens when p one) h = elim (Bool-cases v.reports) [
  | inl e ↦
      rw (e, after_calls-snoc false v.calls (start_call when))
        (Open-start true v.transaction when (after_calls false v.calls) (rw e at h))
  | inr e ↦
      rw e (Open-unreported false v.transaction 2 (after_calls false v.calls) refl (rw e at h))
]
Visible-Bracketed {v = v} (shows c p n l) h =
    rw (after_calls-snoc false v.calls (row_call c))
      (Open-row v.reports v.transaction c (after_calls false v.calls) h)
Visible-Bracketed {v = v} (Visible.commits when p n r) h =
    rw (after_calls-snoc false v.calls (commit_call when))
      (Open-commit v.reports v.transaction when (after_calls false v.calls) h n r)
Visible-Bracketed {v = v} (leaves u) h =
    Open-low v.reports v.transaction 0 (after_calls false v.calls) (omega arith) h
