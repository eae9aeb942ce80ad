-- ===== src/Listener/ReadyChecks.antt =====
-- The checks of prepare_replication (mysql_rpl_listener_2/mysql_rpl_listener_2.cc) on every answer
-- of the server.
use mysql_replication_c.Base.{
  ◌≡◌, refl, true, false, ◌&&◌, List, [], ◌∷◌, Option, none, some, inl, inr, Bool-cases,
}
use mysql_replication_c.Base.Outcome.{ok, err, fault, ◌>>=◌}
use mysql_replication_c.Text.{Bytes}
use mysql_replication_c.Listener.{Listener, ended}
use mysql_replication_c.Listener.Prepare.{
  Answer, query_fails, no_result, result, Server, PrepareError, Prepare, connect, check_version,
  has_variable, format_name, image_name, metadata_name, gtid_name, row_value, full_value, off_value,
  check_rows, check_variables, set_variables,
}

-- A call that ends the listener where it fails.
abbrev pub Ends : {A : Type 0} → (A → Type 0) → Prepare A → Type 0
Ends P (ok a) = P a
Ends P (err (k, e)) = k.state ≡ ended
Ends P fault = false ≡ true

pub Ends-bind :
    {A B : Type 0} (P : A → Type 0) (Q : B → Type 0) (o : Prepare A) (next : A → Prepare B)
    → Ends P o
    → ((a : A) → P a → Ends Q (next a))
    → Ends Q (o >>= next)
Ends-bind P Q (ok a) next h step = step a h
Ends-bind P Q (err (k, e)) next h step = h
Ends-bind P Q fault next h step = h

-- The variables that the replication rests on.
pub record Checked (s : Server) : Type 0 where
  pub rows : List (Bytes × Bytes)
  pub answered : s.variables ≡ result rows
  pub binlog_format : has_variable format_name row_value rows ≡ true
  pub binlog_row_image : has_variable image_name full_value rows ≡ true
  pub binlog_row_metadata : has_variable metadata_name full_value rows ≡ true
  pub gtid_mode : has_variable gtid_name off_value rows ≡ true

-- The listener has a connection, and the tables and the position it had.
abbrev pub ConnectedFrom : Listener → Listener → Type 0
ConnectedFrom l k =
    (k.connected ≡ true)
    × (k.tables ≡ l.tables)
    × (k.m_log_nm ≡ l.m_log_nm)
    × (k.start_position ≡ l.start_position)

pub connect_lem : (s : Server) (l : Listener) → Ends (ConnectedFrom l) (connect s l)
unfolding connect
connect_lem s l = elim (Bool-cases s.initialized) [
  | inr a ↦ rw a refl
  | inl a ↦ elim (Bool-cases s.connects) [
    | inl b ↦ rw (a, b) (refl, refl, refl, refl)
    | inr b ↦ rw (a, b) refl
  ]
]

pub check_version_lem : (s : Server) (l : Listener) → Ends (λ u. Unit {0}) (check_version s l)
unfolding check_version
check_version_lem s l = given s.version
  where
    given :
        (v : Answer (Option (Option Bytes)))
        → Ends
            (λ u. Unit {0})
            (elim v [
              | query_fails ↦
                  err (record l { connected = false; state = ended }, PrepareError.server_error)
              | no_result ↦
                  err (record l { connected = false; state = ended }, PrepareError.server_error)
              | result none ↦
                  err (record l { connected = false; state = ended }, PrepareError.no_version)
              | result (some none) ↦
                  err (record l { connected = false; state = ended }, PrepareError.no_version)
              | result (some (some [])) ↦
                  err (record l { connected = false; state = ended }, PrepareError.no_version)
              | result (some (some (c ∷ w))) ↦ ok tt
            ])
    given query_fails = refl
    given no_result = refl
    given (result none) = refl
    given (result (some none)) = refl
    given (result (some (some []))) = refl
    given (result (some (some (c ∷ w)))) = tt

pub check_rows_lem :
    (s : Server) (rows : List (Bytes × Bytes)) (l : Listener)
    → s.variables ≡ result rows
    → Ends (λ u. Checked s) (check_rows rows l)
unfolding check_rows
check_rows_lem s rows l h = elim (Bool-cases (has_variable format_name row_value rows)) [
  | inr a ↦ rw a refl
  | inl a ↦ elim (Bool-cases (has_variable image_name full_value rows)) [
    | inr b ↦ rw (a, b) refl
    | inl b ↦ elim (Bool-cases (has_variable metadata_name full_value rows)) [
      | inr c ↦ rw (a, b, c) refl
      | inl c ↦ elim (Bool-cases (has_variable gtid_name off_value rows)) [
        | inr d ↦ rw (a, b, c, d) refl
        | inl d ↦
            rw (a, b, c, d)
              (record {
                rows = rows;
                answered = h;
                binlog_format = a;
                binlog_row_image = b;
                binlog_row_metadata = c;
                gtid_mode = d;
              })
      ]
    ]
  ]
]

pub check_variables_lem : (s : Server) (l : Listener) → Ends (λ u. Checked s) (check_variables s l)
unfolding check_variables
check_variables_lem s l = given s.variables refl
  where
    given :
        (v : Answer (List (Bytes × Bytes)))
        → s.variables ≡ v
        → Ends
            (λ u. Checked s)
            (elim v [
              | query_fails ↦
                  err (record l { connected = false; state = ended }, PrepareError.server_error)
              | no_result ↦
                  err (record l { connected = false; state = ended }, PrepareError.server_error)
              | result rows ↦ check_rows rows l
            ])
    given query_fails h = refl
    given no_result h = refl
    given (result rows) h = check_rows_lem s rows l h

pub set_variables_lem : (s : Server) (l : Listener) → Ends (λ u. Unit {0}) (set_variables s l)
unfolding set_variables
set_variables_lem s l = elim (Bool-cases (s.sets_checksum && s.sets_heartbeat_period)) [
  | inl a ↦ rw a tt
  | inr a ↦ rw a refl
]
