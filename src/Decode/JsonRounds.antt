-- ===== src/Decode/JsonRounds.antt =====
-- The loop over the parts of a partial JSON update in log_event_get_value_2
-- (rows_log_event_2/rows_log_event_2.cc), against its fuel.
use mysql_replication_c.Base.{
  ℕ, zero, suc, ◌+◌, ◌<◌, ◌≤◌, ◌≡◌, ◌≢◌, [], ◌∷◌, ◌++◌, Option, none, some, ◌==◌, Bool-cases, inl,
  inr, length, arith,
}
use mysql_replication_c.Base.Outcome.{
  Outcome, ok, err, fault, ◌>>=◌, Holds, Holds-bind, Holds-weaken, Holds-after,
}
use mysql_replication_c.Text.{Bytes}
use mysql_replication_c.Block.{load, deref}
use mysql_replication_c.Row.{Message, invalid_json_field_length, invalid_json_part}
use mysql_replication_c.Mysql.{Mysql, JsonOperation, replace, insert, remove}
use mysql_replication_c.Decode.Bits.{advance}
use mysql_replication_c.Decode.Json.{
  Diff, size_sub, operation_name, document_text, read_operation, read_length, take_bytes,
  diff_value, diff_round, diff_loop,
}

-- The bytes behind a pointer after `n` of them.
abbrev Behind : ℕ → Bytes → Bytes → Type 0
Behind n p q = length q + n ≡ length p

advance-Behind : (n : ℕ) (p : Bytes) → Holds (Behind n p) (advance n p)
unfolding advance
advance-Behind zero p = omega arith
advance-Behind (suc n) [] = tt
advance-Behind (suc n) (c ∷ p) =
    Holds-weaken (Behind n p) (Behind (suc n) (c ∷ p)) (advance n p) (advance-Behind n p)
      (λ q h. omega (arith, h))

-- No more bytes are left than before.
abbrev Within : Diff → Diff → Type 0
Within s t = length t.p ≤ length s.p

module _ (m : Mysql) where
  read_length-Within : (s : Diff) → Holds (λ r. Within s r.1) (read_length m s)
  unfolding read_length
  read_length-Within s = given (m.net_field_length s.p s.length_x)
    where
      given :
          (o : Option (ℕ × ℕ))
          → Holds
              (λ r. Within s r.1)
              (elim o as (λ x. Outcome Message (ℕ × Diff)) [
                | none ↦ err invalid_json_field_length
                | some (n, size) ↦ advance size s.p >>= λ q.
                    ok (n, record s { p = q; length_x = size_sub s.length_x size })
              ])
      given none = tt
      given (some (n, size)) =
          Holds-bind (Behind size s.p) (λ r. Within s r.1) (advance size s.p) _
            (advance-Behind size s.p) (λ q h. omega (arith, h))

  take_bytes-Within : (n : ℕ) (s : Diff) → Holds (λ r. Within s r.1) (take_bytes m n s)
  unfolding take_bytes
  take_bytes-Within n s =
      Holds-after (λ r. Within s r.1) (load n s.p) _
        (λ w.
          Holds-bind (Behind n s.p) (λ r. Within s r.1) (advance n s.p) _ (advance-Behind n s.p)
            (λ q h. omega (arith, h)))

  shown_value-Within :
      (s : Diff)
      → Holds (Within s) (
          read_length m s >>= λ r. take_bytes m r.0 r.1 >>= λ w.
          document_text (m.parse_json w.0) invalid_json_part >>= λ t.
          ok (record w.1 { buf = w.1.buf ++ t }))
  shown_value-Within s =
      Holds-bind (λ r. Within s r.1) (Within s) (read_length m s) _ (read_length-Within s)
        (λ r h.
          Holds-bind (λ w. Within r.1 w.1) (Within s) (take_bytes m r.0 r.1) _
            (take_bytes-Within r.0 r.1)
            (λ w k.
              Holds-after (Within s) (document_text (m.parse_json w.0) invalid_json_part) _
                (λ t. omega (arith, h, k))))

  diff_value-Within : (o : JsonOperation) (s : Diff) → Holds (Within s) (diff_value m o s)
  unfolding diff_value
  diff_value-Within remove s = omega arith
  diff_value-Within replace s = shown_value-Within s
  diff_value-Within insert s = shown_value-Within s

  -- A round leaves fewer bytes.
  abbrev Shorter : Diff → Diff → Type 0
  Shorter s t = length t.p < length s.p

  diff_round-Shorter : (s : Diff) → Holds (Shorter s) (diff_round m s)
  unfolding diff_round
  diff_round-Shorter s = Holds-after (Shorter s) (deref s.p) _ (λ c.
      Holds-after (Shorter s) (read_operation m (m.json_operation c)) _ (λ o.
        Holds-bind (Behind 1 s.p) (Shorter s) (advance 1 s.p) _ (advance-Behind 1 s.p) (λ q h.
          let start = record s {
            p = q;
            length_x = size_sub s.length_x 1;
            buf = s.buf ++ operation_name o;
          } in
          Holds-bind (λ r. Within start r.1) (Shorter s) (read_length m start) _
            (read_length-Within start)
            (λ r k.
              Holds-bind (λ w. Within r.1 w.1) (Shorter s) (take_bytes m r.0 r.1) _
                (take_bytes-Within r.0 r.1)
                (λ w j.
                  let next = record w.1 { buf = w.1.buf ++ w.0 ++ (b':' ∷ []) } in
                  Holds-bind (Within next) (Shorter s) (diff_value m o next) _
                    (diff_value-Within o next)
                    (λ t i. elim (Bool-cases (t.length_x == 0)) [
                      | inl a ↦ rw a (omega (arith, h, k, j, i))
                      | inr a ↦ rw a (omega (arith, h, k, j, i))
                    ]))))))

  -- The loop over the parts of a JSON diff ends in a result, success or not, with any fuel above the
  -- number of bytes behind its pointer, whatever lengths the diff names; so the fuel that partial_text
  -- gives is enough.
  pub diff_loop-ends : (f : ℕ) (s : Diff) → length s.p < f → diff_loop m f s ≢ none
  unfolding diff_loop
  diff_loop-ends zero s h = absurd (omega arith)
  diff_loop-ends (suc f) s h = elim (Bool-cases (s.length_x == 0)) [
    | inl a ↦ rw a (λ e. cc)
    | inr a ↦ rw a (
        after (diff_round m s) (diff_round-Shorter s)
          (λ t k. diff_loop-ends f t (omega (arith, h, k))))
  ]
    where
      after :
          (o : Outcome Message Diff)
          → Holds (Shorter s) o
          → ((t : Diff) → Shorter s t → diff_loop m f t ≢ none)
          → (elim o as (λ x. Option (Outcome Message Bytes)) [
            | ok t ↦ diff_loop m f t
            | err e ↦ some (err e)
            | fault ↦ some fault
          ])
            ≢ none
      after (ok t) k rest = rest t k
      after (err e) k rest = λ e. cc
      after fault k rest = λ e. cc
