-- ===== src/Listener/SoundPrepare.antt =====
-- Well-formedness through prepare_replication (mysql_rpl_listener_2/mysql_rpl_listener_2.cc).
use mysql_replication_c.Base.{
  refl, true, false, ◌&&◌, List, [], ◌∷◌, Option, none, some, Bool-cases, inl, inr, length, arith,
}
use mysql_replication_c.Base.Outcome.{ok, err, fault, ◌>>=◌}
use mysql_replication_c.Text.{Bytes}
use mysql_replication_c.Listener.{
  Listener, State, created, post_created, prepared, post_prepared, inprocess_1, inprocess, ended,
  ListeningTable,
}
use mysql_replication_c.Listener.Lifecycle.{copy_text}
use mysql_replication_c.Listener.Prepare.{
  Answer, query_fails, no_result, result, Server, Prepare, PrepareError, connect, check_version,
  check_variables, set_variables, ask_position, find_position, prepare_tables, prepare_created,
  prepare_from, prepare_replication, strtoull, check_rows, has_variable, format_name, row_value,
  image_name, full_value, metadata_name, gtid_name, off_value,
}
use mysql_replication_c.Listener.Order.{either}
use mysql_replication_c.Listener.WellFormed.{IsWellFormed, copy_text-fits}

-- A call of the preparation that leaves a well-formed listener, by its result or by its error.
abbrev Sound : {A : Type 0} → (A → Type 0) → Prepare A → Type 0
Sound P (ok a) = P a
Sound P (err (k, e)) = IsWellFormed k
Sound P fault = Unit {0}

Sound-bind :
    {A B : Type 0} (P : A → Type 0) (Q : B → Type 0) (o : Prepare A) (next : A → Prepare B)
    → Sound P o
    → ((a : A) → P a → Sound Q (next a))
    → Sound Q (o >>= next)
Sound-bind P Q (ok a) next h step = step a h
Sound-bind P Q (err (k, e)) next h step = h
Sound-bind P Q fault next h step = tt

abbrev Anything : Unit {0} → Type 0
Anything u = Unit {0}

module _ (s : Server) (l : Listener) (h : IsWellFormed l) where
  connect-Sound : Sound IsWellFormed (connect s l)
  unfolding connect
  connect-Sound = elim (Bool-cases s.initialized) [
    | inr a ↦ rw a h
    | inl a ↦ elim (Bool-cases s.connects) [ inl b ↦ rw (a, b) h | inr b ↦ rw (a, b) h ]
  ]

  check_version-Sound : Sound Anything (check_version s l)
  unfolding check_version
  check_version-Sound = given s.version
    where
      given :
          (v : Answer (Option (Option Bytes)))
          → Sound Anything (elim v [
            | query_fails ↦
                err (record l { connected = false; state = ended }, PrepareError.server_error)
            | no_result ↦
                err (record l { connected = false; state = ended }, PrepareError.server_error)
            | result none ↦
                err (record l { connected = false; state = ended }, PrepareError.no_version)
            | result (some none) ↦
                err (record l { connected = false; state = ended }, PrepareError.no_version)
            | result (some (some [])) ↦
                err (record l { connected = false; state = ended }, PrepareError.no_version)
            | result (some (some (c ∷ v))) ↦ ok tt
          ])
      given query_fails = h
      given no_result = h
      given (result none) = h
      given (result (some none)) = h
      given (result (some (some []))) = h
      given (result (some (some (c ∷ v)))) = tt

  check_rows-Sound : (rows : List (Bytes × Bytes)) → Sound Anything (check_rows rows l)
  unfolding check_rows
  check_rows-Sound rows = elim (Bool-cases (has_variable format_name row_value rows)) [
    | inr a ↦ rw a h
    | inl a ↦ elim (Bool-cases (has_variable image_name full_value rows)) [
      | inr b ↦ rw (a, b) h
      | inl b ↦ elim (Bool-cases (has_variable metadata_name full_value rows)) [
        | inr c ↦ rw (a, b, c) h
        | inl c ↦ elim (Bool-cases (has_variable gtid_name off_value rows)) [
          | inr d ↦ rw (a, b, c, d) h
          | inl d ↦ rw (a, b, c, d) tt
        ]
      ]
    ]
  ]

  check_variables-Sound : Sound Anything (check_variables s l)
  unfolding check_variables
  check_variables-Sound = given s.variables
    where
      given :
          (v : Answer (List (Bytes × Bytes)))
          → Sound Anything (elim v [
            | query_fails ↦
                err (record l { connected = false; state = ended }, PrepareError.server_error)
            | no_result ↦
                err (record l { connected = false; state = ended }, PrepareError.server_error)
            | result rows ↦ check_rows rows l
          ])
      given query_fails = h
      given no_result = h
      given (result rows) = check_rows-Sound rows

  set_variables-Sound : Sound Anything (set_variables s l)
  unfolding set_variables
  set_variables-Sound = elim (Bool-cases (s.sets_checksum && s.sets_heartbeat_period)) [
    | inl a ↦ rw a tt
    | inr a ↦ rw a h
  ]

  ask_position-Sound : Sound IsWellFormed (ask_position s l)
  unfolding ask_position
  ask_position-Sound = given s.master_status
    where
      given :
          (v : Answer (Option (Option Bytes × Option Bytes)))
          → Sound IsWellFormed (elim v [
            | query_fails ↦
                err (record l { connected = false; state = ended }, PrepareError.server_error)
            | no_result ↦ err (record l { state = ended }, PrepareError.server_error)
            | result none ↦
                err (record l { connected = false; state = ended }, PrepareError.server_error)
            | result (some (none, p)) ↦
                err (record l { connected = false; state = ended }, PrepareError.no_position)
            | result (some (some f, none)) ↦
                err (record l { connected = false; state = ended }, PrepareError.no_position)
            | result (some (some f, some p)) ↦ ok (record l {
              m_log_nm = copy_text 512 f;
              has_file_name = true;
              file_name_length = length (copy_text 512 f);
              start_position = strtoull p;
            })
          ])
      given query_fails = h
      given no_result = h
      given (result none) = h
      given (result (some (none, p))) = h
      given (result (some (some f, none))) = h
      given (result (some (some f, some p))) =
          (h.0, refl, copy_text-fits 512 f (omega arith), (omega arith), h.4)

find_position-Sound :
    (s : Server) (l : Listener) → IsWellFormed l → Sound IsWellFormed (find_position s l)
unfolding find_position
find_position-Sound s l h = given l.m_log_nm
  where
    given :
        (name : Bytes)
        → Sound IsWellFormed (elim name [
          | [] ↦ ask_position s (record l { position_was_setted = false })
          | c ∷ rest ↦ ok (record l { position_was_setted = true })
        ])
    given [] = ask_position-Sound s (record l { position_was_setted = false }) h
    given (c ∷ rest) = h

prepare_tables-Sound :
    (s : Server) (l : Listener) → IsWellFormed l → Sound IsWellFormed (prepare_tables s l)
unfolding prepare_tables
prepare_tables-Sound s l h =
    Sound-bind IsWellFormed IsWellFormed (connect s l) _ (connect-Sound s l h) (λ k c.
      Sound-bind Anything IsWellFormed (check_version s k) _ (check_version-Sound s k c) (λ a u.
        Sound-bind Anything IsWellFormed (check_variables s k) _ (check_variables-Sound s k c)
          (λ b v.
            Sound-bind Anything IsWellFormed (set_variables s k) _ (set_variables-Sound s k c)
              (λ d w.
                Sound-bind IsWellFormed IsWellFormed (find_position s k) _
                  (find_position-Sound s k c) (λ r f. f)))))

pub prepare-IsWellFormed :
    (s : Server) (l : Listener) → IsWellFormed l → IsWellFormed (either l (prepare_replication s l))
unfolding prepare_replication prepare_from prepare_created
prepare-IsWellFormed s l h = given l.state
  where
    fresh : Listener
    fresh = record l { state = post_created }

    sound : (o : Prepare Listener) → Sound IsWellFormed o → IsWellFormed (either l o)
    sound (ok k) p = p
    sound (err (k, e)) p = p
    sound fault p = h

    with_tables :
        (ts : List ListeningTable)
        → IsWellFormed (
            either l (elim ts as (λ x. Prepare Listener) [
              | [] ↦ err (record l { state = ended }, PrepareError.no_tables)
              | t ∷ rest ↦ prepare_tables s (record l { state = post_created })
            ]))
    with_tables [] = h
    with_tables (t ∷ rest) =
        sound (prepare_tables s (record l { state = post_created }))
          (prepare_tables-Sound s (record l { state = post_created }) h)

    given : (st : State) → IsWellFormed (either l (prepare_from st s l))
    given created = with_tables l.tables
    given post_created = h
    given prepared = h
    given post_prepared = h
    given inprocess_1 = h
    given inprocess = h
    given ended = h
