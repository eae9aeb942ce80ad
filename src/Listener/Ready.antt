-- ===== src/Listener/Ready.antt =====
-- prepare_replication (mysql_rpl_listener_2/mysql_rpl_listener_2.cc) on every answer of the server.
use mysql_replication_c.Base.{
  ◌≡◌, ◌≢◌, refl, sym, ◌∙◌, take, true, false, List, [], ◌∷◌, Option, none, some, ◌⊎◌, inl, inr,
  length,
}
use mysql_replication_c.Base.Outcome.{ok, err, fault}
use mysql_replication_c.Text.{Bytes}
use mysql_replication_c.Listener.{
  Listener, ListeningTable, State, created, post_created, prepared, post_prepared, inprocess_1,
  inprocess, ended,
}
use mysql_replication_c.Listener.Lifecycle.{copy_text}
use mysql_replication_c.Listener.Prepare.{
  Answer, query_fails, no_result, result, Server, PrepareError, Prepare, connect, check_version,
  check_variables, set_variables, ask_position, find_position, prepare_tables, prepare_created,
  prepare_from, prepare_replication, strtoull,
}
use mysql_replication_c.Listener.ReadyChecks.{
  Ends, Ends-bind, Checked, ConnectedFrom, connect_lem, check_version_lem, check_variables_lem,
  set_variables_lem,
}

-- A file name that the listener has is kept with its position; a listener without one gets both from
-- the server, the name up to 511 characters.
abbrev pub Placed : Server → Listener → Listener → Type 0
Placed s l k =
    (l.m_log_nm ≢ []
      → (k.position_was_setted ≡ true)
        × (k.m_log_nm ≡ l.m_log_nm)
        × (k.start_position ≡ l.start_position))
    × (l.m_log_nm ≡ []
        → (f : Bytes) × (p : Bytes) × (s.master_status ≡ result (some (some f, some p)))
          × (k.position_was_setted ≡ false)
          × (k.has_file_name ≡ true)
          × (k.m_log_nm ≡ take 511 f)
          × (k.start_position ≡ strtoull p))

ask_position_lem :
    (s : Server) (l j : Listener)
    → j.m_log_nm ≡ []
    → l.position_was_setted ≡ false
    → Ends
        (λ k. (k.connected ≡ l.connected) × (k.tables ≡ l.tables) × Placed s j k)
        (ask_position s l)
unfolding ask_position
ask_position_lem s l j empty h = given s.master_status refl
  where
    given :
        (v : Answer (Option (Option Bytes × Option Bytes)))
        → s.master_status ≡ v
        → Ends
            (λ k. (k.connected ≡ l.connected) × (k.tables ≡ l.tables) × Placed s j k)
            (elim v [
              | query_fails ↦
                  err (record l { connected = false; state = ended }, PrepareError.server_error)
              | no_result ↦ err (record l { state = ended }, PrepareError.server_error)
              | result none ↦
                  err (record l { connected = false; state = ended }, PrepareError.server_error)
              | result (some (none, p)) ↦
                  err (record l { connected = false; state = ended }, PrepareError.no_position)
              | result (some (some f, none)) ↦
                  err (record l { connected = false; state = ended }, PrepareError.no_position)
              | result (some (some f, some p)) ↦ ok (record l {
                m_log_nm = copy_text 512 f;
                has_file_name = true;
                file_name_length = length (copy_text 512 f);
                start_position = strtoull p;
              })
            ])
    given query_fails e = refl
    given no_result e = refl
    given (result none) e = refl
    given (result (some (none, p))) e = refl
    given (result (some (some f, none))) e = refl
    given (result (some (some f, some p))) e =
        (refl, refl, ((λ named. absurd (named empty)), (λ u. (f, p, e, h, refl, refl, refl))))

abbrev Found : Server → Listener → Listener → Type 0
Found s l k = (k.connected ≡ l.connected) × (k.tables ≡ l.tables) × Placed s l k

find_position_lem : (s : Server) (l : Listener) → Ends (Found s l) (find_position s l)
unfolding find_position
find_position_lem s l = given l.m_log_nm refl
  where
    given :
        (name : Bytes)
        → l.m_log_nm ≡ name
        → Ends (Found s l) (elim name [
          | [] ↦ ask_position s (record l { position_was_setted = false })
          | c ∷ rest ↦ ok (record l { position_was_setted = true })
        ])
    given [] e = ask_position_lem s (record l { position_was_setted = false }) l e refl
    given (c ∷ rest) e = (
      refl,
      refl,
      (
        (λ named. (refl, refl, refl)),
        (λ empty. absurd (let no : c ∷ rest ≡ [] = sym e ∙ empty in cc)),
      ),
    )

-- What a listener that is prepared has.
abbrev pub IsPrepared : Server → Listener → Listener → Type 0
IsPrepared s l k =
    (k.state ≡ prepared) × (k.connected ≡ true) × (k.tables ≡ l.tables) × Placed s l k × Checked s

prepare_tables_lem : (s : Server) (l : Listener) → Ends (IsPrepared s l) (prepare_tables s l)
unfolding prepare_tables
prepare_tables_lem s l =
    Ends-bind (ConnectedFrom l) (IsPrepared s l) (connect s l) _ (connect_lem s l) (λ k c.
      Ends-bind (λ u. Unit {0}) (IsPrepared s l) (check_version s k) _ (check_version_lem s k)
        (λ version u.
          Ends-bind (λ w. Checked s) (IsPrepared s l) (check_variables s k) _
            (check_variables_lem s k)
            (λ variables checked.
              Ends-bind (λ w. Unit {0}) (IsPrepared s l) (set_variables s k) _
                (set_variables_lem s k)
                (λ session w.
                  Ends-bind (Found s k) (IsPrepared s l) (find_position s k) _
                    (find_position_lem s k)
                    (λ r f. (
                      refl,
                      f.0 ∙ c.0,
                      f.1 ∙ c.1,
                      (
                        (λ named.
                            let kept = (f.2.0) (λ e. named (sym c.2 ∙ e)) in
                            (kept.0, kept.1 ∙ c.2, kept.2 ∙ c.3)),
                        (λ empty. (f.2.1) (c.2 ∙ empty)),
                      ),
                      checked,
                    ))))))

-- What prepare_replication comes to: a listener that is prepared, or one that has ended, or, where it
-- was not just created, the listener as it was.
abbrev pub Settled : Server → Listener → Prepare Listener → Type 0
Settled s l (ok k) = (l.state ≡ created) × (l.tables ≢ []) × IsPrepared s l k
Settled s l (err (k, e)) =
    ((l.state ≡ created) × (k.state ≡ ended)) ⊎ ((l.state ≢ created) × (k ≡ l))
Settled s l fault = false ≡ true

-- The rest of a preparation, where the listener was created and has tables.
Settled-ended :
    (s : Server) (l : Listener) (o : Prepare Listener)
    → l.state ≡ created
    → l.tables ≢ []
    → Ends (IsPrepared s l) o
    → Settled s l o
Settled-ended s l (ok k) fresh some_tables h = (fresh, some_tables, h)
Settled-ended s l (err (k, e)) fresh some_tables h = inl (fresh, h)
Settled-ended s l fault fresh some_tables h = h

prepare_created_lem :
    (s : Server) (l : Listener)
    → l.state ≡ created
    → Settled s l (prepare_created s (record l { state = post_created }))
unfolding prepare_created
prepare_created_lem s l fresh = given l.tables refl
  where
    given :
        (ts : List ListeningTable)
        → l.tables ≡ ts
        → Settled s l (elim ts [
          | [] ↦ err (record l { state = ended }, PrepareError.no_tables)
          | t ∷ rest ↦ prepare_tables s (record l { state = post_created })
        ])
    given [] h = inl (fresh, refl)
    given (t ∷ rest) h =
        Settled-ended s l (prepare_tables s (record l { state = post_created })) fresh
          (λ e. let no : t ∷ rest ≡ [] = cc in cc)
          (prepare_tables_lem s (record l { state = post_created }))

pub prepare_replication-Settled :
    (s : Server) (l : Listener) → Settled s l (prepare_replication s l)
unfolding prepare_replication prepare_from
prepare_replication-Settled s l = given l.state refl
  where
    given : (st : State) → l.state ≡ st → Settled s l (prepare_from st s l)
    given created h = prepare_created_lem s l h
    given post_created h = inr ((λ e. let no : post_created ≡ created = cc in cc), refl)
    given prepared h = inr ((λ e. let no : prepared ≡ created = cc in cc), refl)
    given post_prepared h = inr ((λ e. let no : post_prepared ≡ created = cc in cc), refl)
    given inprocess_1 h = inr ((λ e. let no : inprocess_1 ≡ created = cc in cc), refl)
    given inprocess h = inr ((λ e. let no : inprocess ≡ created = cc in cc), refl)
    given ended h = inr ((λ e. let no : ended ≡ created = cc in cc), refl)
