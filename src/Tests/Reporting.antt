-- ===== src/Tests/Reporting.antt =====
-- Errors that are reported.
use mysql_replication_c.Base.{◌≡◌, false, some, [], ◌∷◌, arith}
use mysql_replication_c.Base.Int.{pos}
use mysql_replication_c.Text.{Bytes}
use mysql_replication_c.Report.{ErrorRecord, repl_log_error_set}
use mysql_replication_c.Report.BaseName.{IsReported, error_set_lem}

-- "a/b.c" and "no"
abbrev path : Bytes
path = b'a' ∷ b'/' ∷ b'b' ∷ b'.' ∷ b'c' ∷ []

abbrev message : Bytes
message = b'n' ∷ b'o' ∷ []

error_set_lem_example :
    (r : ErrorRecord) × (repl_log_error_set path 7 false (pos 7) message ≡ some r)
    × IsReported path message 7 false (pos 7) r
error_set_lem_example =
    error_set_lem path message 7 false (pos 7)
      (
        (λ e. absurd (omega (arith, e))),
        (
          (λ e. absurd (omega (arith, e))),
          (
            (λ e. absurd (omega (arith, e))),
            ((λ e. absurd (omega (arith, e))), ((λ e. absurd (omega (arith, e))), tt)),
          ),
        ),
      )
      ((λ e. absurd (omega (arith, e))), ((λ e. absurd (omega (arith, e))), tt)) (omega arith)
