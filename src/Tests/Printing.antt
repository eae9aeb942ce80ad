-- ===== src/Tests/Printing.antt =====
-- The example client on the rows that the library gives it, and its scripts.
use mysql_replication_c.Base.{
  ℕ, ◌≡◌, ◌≢◌, ◌++◌, refl, true, false, [], ◌∷◌, none, some, ◌⊎◌, inl, inr, All-replicate,
  length-replicate, replicate, arith,
}
use mysql_replication_c.Base.Int.{pos}
use mysql_replication_c.Base.Outcome.{ok, fault, Holds}
use mysql_replication_c.Text.{digits, unsigned_text, int_text}
use mysql_replication_c.Block.{alloc, put, snprintf, load, deref, strlen}
use mysql_replication_c.Mysql.Toy.{toy}
use mysql_replication_c.Decode.{real_type, get_value, log_event_get_value_2}
use mysql_replication_c.Decode.Result.{print_value}
use mysql_replication_c.Decode.Numbers.{get_short}
use mysql_replication_c.Rows.{Rows}
use mysql_replication_c.Rows.Memory.{grow, add_row_mem, row_pointers, finish, cells}
use mysql_replication_c.Rows.Image.{
  reader_bit, read_partial, check_size, present_column, one_column, columns, value_options,
  get_one_row_values,
}
use mysql_replication_c.Rows.Loop.{
  change_type, first_image, check_ndb_info, second_image, one_round, rows_loop, all_rows,
  find_table_def, get_rows,
}
use mysql_replication_c.Rows.Clear.{texts, cleared, repl_log_x_rows_clear, get_rows-cleared}
use mysql_replication_c.Listener.Deliver.{rows_call}
use mysql_replication_c.Client.{on_replication_rows}
use mysql_replication_c.Client.Printed.{IsPrinted, call_size, rows_call-IsPrinted}
use mysql_replication_c.Client.Script.{read_queries}
use mysql_replication_c.Client.Queries.{Query, IsInner, script_text, script_sent, long_query_lost}
use mysql_replication_c.Tests.{granting, granting_always, inserted, no_rows}
use mysql_replication_c.Tests.Filling.{info, one_column_map}
use mysql_replication_c.Tests.Listening.{rows, table_map}
use mysql_replication_c.Tests.Running.{running, cached_table}

rows_call-IsPrinted_example :
    Holds
      (λ c. IsPrinted (call_size c) (on_replication_rows c))
      (rows_call toy granting_always rows table_map running cached_table)
rows_call-IsPrinted_example =
    rows_call-IsPrinted toy granting_always rows table_map running cached_table (omega arith) refl

-- The rows 3 and NULL.
abbrev two_rows : Rows
two_rows = record no_rows {
  rows_count = 2;
  rows = some (0 ∷ 1 ∷ []);
  rows_l2 = some (
      record { val = some (record { cap = 16; bytes = b'3' ∷ 0 ∷ [] }); len = pos 1; is_hex = 0 }
      ∷ record { val = none; len = pos 0; is_hex = 0 }
      ∷ []);
  clock = 8;
}

got : get_rows toy granting_always inserted (some one_column_map) no_rows info ≡ ok two_rows
unfolding get_rows first_image change_type check_ndb_info second_image one_round rows_loop all_rows
    find_table_def reader_bit read_partial check_size present_column one_column columns
    value_options get_one_row_values grow add_row_mem row_pointers finish real_type get_value
    log_event_get_value_2 print_value get_short alloc put snprintf load deref strlen int_text
    unsigned_text digits
got = refl

get_rows-cleared_example :
    repl_log_x_rows_clear two_rows
    ≡ ok (texts (cells two_rows.rows_l2) ++ texts (cells two_rows.rows_after_l2), cleared two_rows)
get_rows-cleared_example =
    get_rows-cleared toy granting_always inserted (some one_column_map) no_rows two_rows info
      (omega arith) refl refl refl got (inr refl) (omega arith)

-- "a" with a space in front of it and a line feed behind
abbrev spaced : Query
spaced = record { front = 32 ∷ []; text = b'a' ∷ []; back = 10 ∷ [] }

plain : (c : ℕ) → (c ≡ 32) ⊎ ((c ≡ b'a') ⊎ (c ≡ 10)) → IsInner c
plain c h = ((λ e. absurd (omega (arith, h, e))), (λ e. absurd (omega (arith, h, e))))

script_sent_example :
    read_queries granting (λ q. true) false [] (script_text (spaced ∷ [])) ≡ ok ((b'a' ∷ []) ∷ [])
script_sent_example =
    script_sent granting (λ q. true) (spaced ∷ [])
      (
        (
          (plain 32 (inl refl), (plain b'a' (inr (inl refl)), (plain 10 (inr (inr refl)), tt))),
          (omega arith),
          (inl refl, tt),
          ((λ e. absurd (omega (arith, e))), inr (omega arith)),
          ((λ e. absurd (omega (arith, e))), inr (omega arith)),
          (inr ((omega arith), (omega arith)), tt),
          refl,
        ),
        tt,
      )

long_query_lost_example :
    read_queries granting (λ q. true) false [] (replicate 1022 b'a' ++ b';' ∷ []) ≡ fault
long_query_lost_example =
    long_query_lost granting (λ q. true) false (replicate 1022 b'a') [] b';'
      (All-replicate (λ d. d ≢ b';') 1022 b'a' (λ e. absurd (omega (arith, e))))
      (length-replicate {A = ℕ} 1022 b'a') refl
