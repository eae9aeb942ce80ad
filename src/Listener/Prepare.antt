-- ===== src/Listener/Prepare.antt =====
-- prepare_replication (mysql_rpl_listener_2/mysql_rpl_listener_2.cc): the checks of the server's
-- variables, and the position that the replication starts from.
use mysql_replication_c.Base.{
  ℕ, ◌-◌, ◌*◌, ◌+◌, ◌^◌, ◌++◌, Bool, true, false, ◌&&◌, ◌||◌, not, List, [], ◌∷◌, Option, none,
  some, leb, min, if◌then◌else◌, length,
}
use mysql_replication_c.Base.Outcome.{Outcome, ok, err, ◌>>=◌}
use mysql_replication_c.Text.{Bytes}
use mysql_replication_c.Listener.{Listener, State, created, post_created, prepared, ended}
use mysql_replication_c.Listener.Lifecycle.{copy_text}
use mysql_replication_c.Listener.Tables.{str_eq}

-- What a query comes to: mysql_query fails, mysql_store_result gives NULL, or there are rows.
pub data Answer (A : Type 0) : Type 0 where
  query_fails : Answer A
  no_result : Answer A
  result : A → Answer A

-- What the server answers. A row that is not there and a field that is NULL are `none`.
pub record Server : Type 0 where
  pub initialized : Bool
  pub connects : Bool
  pub version : Answer (Option (Option Bytes))
  pub variables : Answer (List (Bytes × Bytes))
  pub sets_checksum : Bool
  pub sets_heartbeat_period : Bool
  pub master_status : Answer (Option (Option Bytes × Option Bytes))

pub data PrepareError : Type 0 where
  prepare_order no_tables init_failed connect_failed server_error no_version format_not_row
        image_not_full metadata_not_full gtid_not_off no_position :
      PrepareError

abbrev pub Prepare : Type 0 → Type 0
Prepare A = Outcome (Listener × PrepareError) A

-- The error return after `mysql_close`, and the one without.
abbrev pub close_with : {A : Type 0} → Listener → PrepareError → Prepare A
close_with l e = err (record l { connected = false; state = ended }, e)

abbrev pub end_with : {A : Type 0} → Listener → PrepareError → Prepare A
end_with l e = err (record l { state = ended }, e)

unfoldable pub connect : Server → Listener → Prepare Listener
connect s l =
    if not s.initialized
    then end_with l init_failed
    else if s.connects
    then ok (record l { connected = true })
    else close_with l connect_failed

unfoldable pub check_version : Server → Listener → Prepare (Unit {0})
check_version s l = elim s.version [
  | query_fails ↦ close_with l server_error
  | no_result ↦ close_with l server_error
  | result none ↦ close_with l no_version
  | result (some none) ↦ close_with l no_version
  | result (some (some [])) ↦ close_with l no_version
  | result (some (some (c ∷ v))) ↦ ok tt
]

-- Whether a row of SHOW VARIABLES has the name and the value: the loop sets a flag for each.
unfoldable pub has_variable : Bytes → Bytes → List (Bytes × Bytes) → Bool
has_variable name value [] = false
has_variable name value ((n, v) ∷ rows) =
    (str_eq n name && str_eq v value) || has_variable name value rows

-- "binlog_format", "ROW", "binlog_row_image", "FULL", "binlog_row_metadata", "gtid_mode", "OFF"
abbrev binlog_text : Bytes
binlog_text = b'b' ∷ b'i' ∷ b'n' ∷ b'l' ∷ b'o' ∷ b'g' ∷ b'_' ∷ []

abbrev pub format_name : Bytes
format_name = binlog_text ++ (b'f' ∷ b'o' ∷ b'r' ∷ b'm' ∷ b'a' ∷ b't' ∷ [])

abbrev row_prefix : Bytes
row_prefix = binlog_text ++ (b'r' ∷ b'o' ∷ b'w' ∷ b'_' ∷ [])

abbrev pub image_name : Bytes
image_name = row_prefix ++ (b'i' ∷ b'm' ∷ b'a' ∷ b'g' ∷ b'e' ∷ [])

abbrev pub metadata_name : Bytes
metadata_name = row_prefix ++ (b'm' ∷ b'e' ∷ b't' ∷ b'a' ∷ b'd' ∷ b'a' ∷ b't' ∷ b'a' ∷ [])

abbrev pub gtid_name : Bytes
gtid_name = b'g' ∷ b't' ∷ b'i' ∷ b'd' ∷ b'_' ∷ b'm' ∷ b'o' ∷ b'd' ∷ b'e' ∷ []

abbrev pub row_value : Bytes
row_value = b'R' ∷ b'O' ∷ b'W' ∷ []

abbrev pub full_value : Bytes
full_value = b'F' ∷ b'U' ∷ b'L' ∷ b'L' ∷ []

abbrev pub off_value : Bytes
off_value = b'O' ∷ b'F' ∷ b'F' ∷ []

unfoldable pub check_rows : List (Bytes × Bytes) → Listener → Prepare (Unit {0})
check_rows rows l =
    if not (has_variable format_name row_value rows)
    then close_with l format_not_row
    else if not (has_variable image_name full_value rows)
    then close_with l image_not_full
    else if not (has_variable metadata_name full_value rows)
    then close_with l metadata_not_full
    else if not (has_variable gtid_name off_value rows)
    then close_with l gtid_not_off
    else ok tt

unfoldable pub check_variables : Server → Listener → Prepare (Unit {0})
check_variables s l = elim s.variables [
  | query_fails ↦ close_with l server_error
  | no_result ↦ close_with l server_error
  | result rows ↦ check_rows rows l
]

unfoldable pub set_variables : Server → Listener → Prepare (Unit {0})
set_variables s l =
    if s.sets_checksum && s.sets_heartbeat_period then ok tt else close_with l server_error

-- `strtoull( text, &end, 10 )` of a text without a sign: the digits up to another character, and
-- the greatest number where they are more than 64 bits.
unfoldable pub digits_value : ℕ → Bytes → ℕ
digits_value acc [] = acc
digits_value acc (c ∷ s) =
    let rest = digits_value (acc * 10 + (c - b'0')) s in
    if leb b'0' c && leb c b'9' then rest else acc

abbrev pub strtoull : Bytes → ℕ
strtoull text = min (digits_value 0 text) (2 ^ 64 - 1)

-- The position: the given one, or that of SHOW MASTER STATUS. Where the latter has no result set,
-- the connection is not closed.
unfoldable pub ask_position : Server → Listener → Prepare Listener
ask_position s l = elim s.master_status [
  | query_fails ↦ close_with l server_error
  | no_result ↦ end_with l server_error
  | result none ↦ close_with l server_error
  | result (some (none, p)) ↦ close_with l no_position
  | result (some (some f, none)) ↦ close_with l no_position
  | result (some (some f, some p)) ↦ ok (record l {
    m_log_nm = copy_text 512 f;
    has_file_name = true;
    file_name_length = length (copy_text 512 f);
    start_position = strtoull p;
  })
]

unfoldable pub find_position : Server → Listener → Prepare Listener
find_position s l = elim l.m_log_nm [
  | [] ↦ ask_position s (record l { position_was_setted = false })
  | c ∷ name ↦ ok (record l { position_was_setted = true })
]

unfoldable pub prepare_tables : Server → Listener → Prepare Listener
prepare_tables s l = do
  k ← connect s l
  version ← check_version s k
  variables ← check_variables s k
  session ← set_variables s k
  r ← find_position s k
  ok (record r { state = prepared })

unfoldable pub prepare_created : Server → Listener → Prepare Listener
prepare_created s l = elim l.tables [ [] ↦ end_with l no_tables | t ∷ ts ↦ prepare_tables s l ]

unfoldable pub prepare_from : State → Server → Listener → Prepare Listener
prepare_from created s l = prepare_created s (record l { state = post_created })
prepare_from _ s l = err (l, prepare_order)

unfoldable pub prepare_replication : Server → Listener → Prepare Listener
unfolding prepare_from
prepare_replication s l = prepare_from l.state s l
