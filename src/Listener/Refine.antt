-- ===== src/Listener/Refine.antt =====
-- The parts of process_event (mysql_rpl_listener_2/mysql_rpl_listener_2.cc) without the rows, against
-- the specification.
use mysql_replication_c.Base.{
  ℕ, ◌+◌, ◌≡◌, refl, true, false, ◌&&◌, ltb, ◌==◌, ltb→lt, Bool-cases, inl, inr, arith, length,
}
use mysql_replication_c.Base.Outcome.{ok, err, fault}
use mysql_replication_c.Text.{Bytes}
use mysql_replication_c.Block.{Malloc}
use mysql_replication_c.Listener.{
  Listener, State, created, post_created, prepared, post_prepared, inprocess_1, inprocess, ended,
  is_inprocess,
}
use mysql_replication_c.Listener.Step.{Step, reports_commit, commit_transaction}
use mysql_replication_c.Listener.Query.{
  begins, commits, begin_transaction, heartbeat_unchecked, end_transaction, process_query,
}
use mysql_replication_c.Listener.Process.{as_heartbeat, process_format, process_rotate, same_file}
use mysql_replication_c.Listener.TableLaws.{&&-split}
use mysql_replication_c.Listener.Spec.{
  view, Unreported, not_opened, not_inprocess, no_function, Visible, promotes, beats, leaves,
  Visibles, done, more, Visibles-trans, Refines,
}

pub is_inprocess_iff : (s : State) → is_inprocess s ≡ true → s ≡ inprocess
is_inprocess_iff inprocess h = refl
is_inprocess_iff created h = cc
is_inprocess_iff post_created h = cc
is_inprocess_iff prepared h = cc
is_inprocess_iff post_prepared h = cc
is_inprocess_iff inprocess_1 h = cc
is_inprocess_iff ended h = cc

unreported : (l : Listener) → reports_commit l ≡ false → Unreported (view l)
unreported l h = elim (Bool-cases (ltb 1 l.in_transaction)) [
  | inr e ↦ not_opened (ground arith)
  | inl e ↦ elim (Bool-cases (is_inprocess l.state)) [
    | inr f ↦ not_inprocess f
    | inl f ↦ no_function (rw (e, f) at h)
  ]
]

-- XID_EVENT, XA_PREPARE_LOG_EVENT and "COMMIT"
pub commit_transaction_lem :
    (when : ℕ) (l : Listener) → Visibles (view l) (view (commit_transaction when l))
unfolding commit_transaction
commit_transaction_lem when l = elim (Bool-cases (reports_commit l)) [
  | inr e ↦ rw e (more (leaves (unreported l e)) (more promotes done))
  | inl e ↦
      let all = &&-split (ltb 1 l.in_transaction) (is_inprocess l.state && l.on_transaction) e in
      let two = &&-split (is_inprocess l.state) l.on_transaction all.1 in
      rw e (
        more
          (Visible.commits when (is_inprocess_iff l.state two.0) (ltb→lt 1 l.in_transaction all.0)
            two.1)
          (more promotes done))
]

pub as_heartbeat_lem : (when : ℕ) (l : Listener) → Visibles (view l) (view (as_heartbeat when l))
unfolding as_heartbeat
as_heartbeat_lem when l = elim (Bool-cases (is_inprocess l.state && l.on_heartbeat)) [
  | inl e ↦ rw e (more (beats when) done)
  | inr e ↦ rw e done
]

begin_transaction_lem :
    (text : Bytes) (l : Listener) → Visibles (view l) (view (begin_transaction text l))
unfolding begin_transaction
begin_transaction_lem text l = elim (Bool-cases (begins text)) [
  | inl e ↦ rw e (more promotes (more Visible.begins done))
  | inr e ↦ rw e done
]

heartbeat_unchecked_lem : (when : ℕ) (l : Listener) → Refines l (heartbeat_unchecked when l)
unfolding heartbeat_unchecked
heartbeat_unchecked_lem when l = elim (Bool-cases l.on_heartbeat) [
  | inl e ↦ rw e (more (beats when) done)
  | inr e ↦ rw e tt
]

-- A step from where visible steps lead.
pub Refines-after :
    (l k : Listener) (r : Step) → Visibles (view l) (view k) → Refines k r → Refines l r
Refines-after l k (ok j) p q = Visibles-trans p q
Refines-after l k (err (j, f)) p q = Visibles-trans p q
Refines-after l k fault p q = tt

end_transaction_lem :
    (when : ℕ) (text : Bytes) (l : Listener) → Refines l (end_transaction when text l)
unfolding end_transaction
end_transaction_lem when text l = elim (Bool-cases (commits text)) [
  | inr e ↦ rw e done
  | inl e ↦ elim (Bool-cases (reports_commit l)) [
    | inl f ↦
        rw (e, f)
          (Refines-after l (commit_transaction when l)
            (heartbeat_unchecked when (commit_transaction when l)) (commit_transaction_lem when l)
            (heartbeat_unchecked_lem when (commit_transaction when l)))
    | inr f ↦ rw (e, f) (commit_transaction_lem when l)
  ]
]

pub process_query_lem :
    (malloc : Malloc) (when : ℕ) (text : Bytes) (l : Listener)
    → Refines l (process_query malloc when text l)
unfolding process_query
process_query_lem malloc when text l = elim (Bool-cases (malloc (length text + 8))) [
  | inl e ↦ rw e (
      Refines-after l (begin_transaction text l)
        (end_transaction when text (begin_transaction text l)) (begin_transaction_lem text l)
        (end_transaction_lem when text (begin_transaction text l)))
  | inr e ↦ rw e done
]

pub process_format_lem : (l : Listener) → Visibles (view l) (view (process_format l))
unfolding process_format
process_format_lem l = elim (Bool-cases (l.start_position == 4)) [
  | inl e ↦ rw e done
  | inr e ↦ rw e done
]

pub process_rotate_lem : (ident : Bytes) (l : Listener) → Refines l (process_rotate ident l)
unfolding process_rotate
process_rotate_lem ident l = elim (Bool-cases (same_file ident l)) [
  | inl e ↦ rw e done
  | inr e ↦ elim (Bool-cases l.has_file_name) [ inl f ↦ rw (e, f) done | inr f ↦ rw (e, f) tt ]
]
