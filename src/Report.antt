-- ===== src/Report.antt =====
-- _repl_log_x_error and the functions that fill it: repl_log_x_error_clear, repl_log_x_error_set,
-- extract_filename_from_full_path (mysql_rpl_listener_2/mysql_rpl_listener_2.cc).
pub mod BaseName
use mysql_replication_c.Base.{
  ℕ, zero, suc, Bool, true, false, List, [], ◌∷◌, Option, none, some, ◌==◌, if◌then◌else◌, drop,
  get_elem?,
}
use mysql_replication_c.Base.Int.{ℤ, pos, negsuc, i32}
use mysql_replication_c.Text.{Bytes}
use mysql_replication_c.Block.{c_str, strlen}
use mysql_replication_c.Listener.Lifecycle.{copy_text}

-- _repl_log_x_error: the two arrays hold C strings.
pub record ErrorRecord : Type 0 where
  pub is_error : Bool
  pub is_error_mysql : Bool
  pub code : ℤ
  pub description : Bytes
  pub file : Bytes
  pub line : ℕ

unfoldable pub repl_log_x_error_clear : ErrorRecord
repl_log_x_error_clear = record {
  is_error = false;
  is_error_mysql = false;
  code = pos 0;
  description = [];
  file = [];
  line = 0;
}

-- The loop from index `n - 1` down: `none` is a read behind the text.
unfoldable pub base_name_from : ℕ → Bytes → Option Bytes
base_name_from zero p = some p
base_name_from (suc i) p =
    let rest = base_name_from i p in
    elim (get_elem? p i) [
      | none ↦ none
      | some c ↦ if c == b'/' then some (drop (suc i) p) else rest
    ]

-- `fp_len` is an int.
unfoldable pub extract_filename_from_full_path : Bytes → Option Bytes
extract_filename_from_full_path p = elim (i32 (strlen p)) [
  | pos n ↦ base_name_from n p
  | negsuc n ↦ some p
]

unfoldable pub repl_log_x_error_set : Bool → ℤ → Bytes → Bytes → ℕ → ErrorRecord
repl_log_x_error_set is_error_mysql code desc file line = record {
  is_error = true;
  is_error_mysql = is_error_mysql;
  code = code;
  description = copy_text 1024 (c_str desc);
  file = copy_text 1024 (c_str file);
  line = line;
}

-- The macro repl_log_error_set, of a file whose path is `path`.
unfoldable pub repl_log_error_set : Bytes → ℕ → Bool → ℤ → Bytes → Option ErrorRecord
repl_log_error_set path line is_error_mysql code desc =
    elim (extract_filename_from_full_path path) [
      | none ↦ none
      | some file ↦ some (repl_log_x_error_set is_error_mysql code desc file line)
    ]
