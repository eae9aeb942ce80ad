-- ===== src/Listener/Spec.antt =====
-- What the user may see of a replication (on_rpl_row, on_rpl_heartbeat and on_rpl_transaction of
-- mysql_rpl_listener.h): a step relation on the calls of the user's functions, the state of the
-- listener and the transaction mark.
use mysql_replication_c.Base.{ℕ, ◌<◌, ◌≤◌, ◌≡◌, ◌≢◌, Bool, List, [], ◌∷◌, ◌++◌, if◌then◌else◌, map}
use mysql_replication_c.Base.Outcome.{ok, err, fault}
use mysql_replication_c.Text.{Bytes}
use mysql_replication_c.Listener.{
  Listener, ListeningTable, State, inprocess, RowsCall, Call, row_call, heartbeat_call, start_call,
  commit_call, promote, is_inprocess,
}
use mysql_replication_c.Listener.Lifecycle.{copy_text}
use mysql_replication_c.Listener.Step.{Step}

-- `tables` are the names that are listened to, `reports` whether there is an on_rpl_transaction.
pub record View : Type 0 where
  pub phase : State
  pub transaction : ℕ
  pub calls : List Call
  pub tables : List (Bytes × Bytes)
  pub reports : Bool

abbrev pub table_name : ListeningTable → Bytes × Bytes
table_name t = (t.db_name, t.tbl_name)

abbrev pub view : Listener → View
view l = record {
  phase = l.state;
  transaction = l.in_transaction;
  calls = l.calls;
  tables = map table_name l.tables;
  reports = l.on_transaction;
}

abbrev pub report : Call → View → View
report c v = record v { calls = v.calls ++ c ∷ [] }

abbrev pub report_if : Bool → Call → View → View
report_if b c v = if b then report c v else v

-- A member of a list.
pub data Among {ℓ} {A : Type ℓ} : List A → A → Type ℓ where
  here : {x : A} {xs : List A} → Among (x ∷ xs) x
  there : {x y : A} {xs : List A} → Among xs x → Among (y ∷ xs) x

-- The names in a row call are those of a listened table, as far as they fit.
pub record Listened (tables : List (Bytes × Bytes)) (c : RowsCall) : Type 0 where
  pub name : Bytes × Bytes
  pub among : Among tables name
  pub db_copied : c.db_name ≡ copy_text 320 name.0
  pub tbl_copied : c.tbl_name ≡ copy_text 320 name.1

-- The end of a transaction that is not reported: no rows of it were, or nothing is yet, or there is
-- no function.
pub data Unreported (v : View) : Type 0 where
  not_opened : v.transaction ≤ 1 → Unreported v
  not_inprocess : is_inprocess v.phase ≡ Bool.false → Unreported v
  no_function : v.reports ≡ Bool.false → Unreported v

-- A step: the listener finds the stream to be consistent; there is a heartbeat; a transaction
-- begins; it is opened by the first listened rows; rows are given to the user; a transaction that
-- is open ends; one that is not ends.
pub data Visible : View → View → Type 0 where
  promotes : {v : View} → Visible v (record v { phase = promote v.phase })
  beats : {v : View} (when : ℕ) → Visible v (report (heartbeat_call when) v)
  begins : {v : View} → Visible v (record v { transaction = 1 })
  opens :
      {v : View} (when : ℕ)
      → v.phase ≡ inprocess
      → v.transaction ≡ 1
      → Visible v (report_if v.reports (start_call when) (record v { transaction = 2 }))
  shows :
      {v : View} (c : RowsCall)
      → v.phase ≡ inprocess
      → v.transaction ≢ 1
      → Listened v.tables c
      → Visible v (report (row_call c) v)
  commits :
      {v : View} (when : ℕ)
      → v.phase ≡ inprocess
      → 1 < v.transaction
      → v.reports ≡ Bool.true
      → Visible v (record (report (commit_call when) v) { transaction = 0 })
  leaves : {v : View} → Unreported v → Visible v (record v { transaction = 0 })

-- Any number of steps.
pub data Visibles : View → View → Type 0 where
  done : {v : View} → Visibles v v
  more : {v w u : View} → Visible v w → Visibles w u → Visibles v u

pub Visibles-trans : {v w u : View} → Visibles v w → Visibles w u → Visibles v u
Visibles-trans done q = q
Visibles-trans (more s p) q = more s (Visibles-trans p q)

-- A predicate on the listener that a step of the code ends in, by a return or by an error.
abbrev pub Keeps : (Listener → Type 0) → Step → Type 0
Keeps P (ok l) = P l
Keeps P (err (l, f)) = P l
Keeps P fault = Unit {0}

-- The code goes from `l` by visible steps only.
abbrev pub Refines : Listener → Step → Type 0
Refines l r = Keeps (λ k. Visibles (view l) (view k)) r
