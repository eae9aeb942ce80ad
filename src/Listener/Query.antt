-- ===== src/Listener/Query.antt =====
-- QUERY_EVENT in process_event (mysql_rpl_listener_2/mysql_rpl_listener_2.cc): the start and the end
-- of a transaction, told by the text of the query.
use mysql_replication_c.Base.{ℕ, ◌+◌, Bool, ◌||◌, [], ◌∷◌, if◌then◌else◌, length}
use mysql_replication_c.Base.Outcome.{ok, err, fault}
use mysql_replication_c.Text.{Bytes}
use mysql_replication_c.Block.{Malloc, c_str}
use mysql_replication_c.Listener.{Listener, heartbeat_call, call}
use mysql_replication_c.Listener.Tables.{str_eq}
use mysql_replication_c.Listener.Step.{
  Step, out_of_memory, promoted, reports_commit, commit_transaction,
}

-- "BEGIN", "XA START" and "COMMIT"
abbrev pub begin_text : Bytes
begin_text = b'B' ∷ b'E' ∷ b'G' ∷ b'I' ∷ b'N' ∷ []

abbrev pub xa_start_text : Bytes
xa_start_text = b'X' ∷ b'A' ∷ b' ' ∷ b'S' ∷ b'T' ∷ b'A' ∷ b'R' ∷ b'T' ∷ []

abbrev pub commit_text : Bytes
commit_text = b'C' ∷ b'O' ∷ b'M' ∷ b'M' ∷ b'I' ∷ b'T' ∷ []

-- The text is compared as a C string: the copy of the query has zeros behind it.
unfoldable pub begins : Bytes → Bool
begins text = str_eq begin_text (c_str text) || str_eq xa_start_text (c_str text)

unfoldable pub commits : Bytes → Bool
commits text = str_eq commit_text (c_str text)

unfoldable pub begin_transaction : Bytes → Listener → Listener
begin_transaction text l = if begins text then record (promoted l) { in_transaction = 1 } else l

-- A heartbeat call without a look at `on_heartbeat`.
unfoldable pub heartbeat_unchecked : ℕ → Listener → Step
heartbeat_unchecked when l = if l.on_heartbeat then ok (call (heartbeat_call when) l) else fault

-- `convert_to_heartbeat == 0`, which is so after the call for a commit.
unfoldable pub end_transaction : ℕ → Bytes → Listener → Step
end_transaction when text l =
    if commits text
    then if reports_commit l
      then heartbeat_unchecked when (commit_transaction when l)
      else ok (commit_transaction when l)
    else ok l

unfoldable pub process_query : Malloc → ℕ → Bytes → Listener → Step
process_query malloc when text l =
    if malloc (length text + 8)
    then end_transaction when text (begin_transaction text l)
    else err (l, out_of_memory)
