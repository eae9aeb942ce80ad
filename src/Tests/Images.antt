-- ===== src/Tests/Images.antt =====
-- A row image without a column, the position behind an event, and a commit that is a query.
use mysql_replication_c.Base.{
  ◌+◌, ◌≤◌, ◌≡◌, refl, false, some, none, some_inj, [], ◌∷◌, get_elem?, inr, arith,
}
use mysql_replication_c.Base.Outcome.{Holds, Safe}
use mysql_replication_c.Mysql.Toy.{toy, toy-Laws}
use mysql_replication_c.Rows.{Bitmap, write_ai}
use mysql_replication_c.Rows.Memory.{cells}
use mysql_replication_c.Rows.Image.{get_one_row_values}
use mysql_replication_c.Decode.{real_type}
use mysql_replication_c.Decode.Widths.{width}
use mysql_replication_c.Rows.Reading.{get_one_row_values-Safe}
use mysql_replication_c.Rows.Spared.{with_blank_row, first_image-Spared}
use mysql_replication_c.Event.{xid_event}
use mysql_replication_c.Listener.Thread.{on_packet, event}
use mysql_replication_c.Listener.Moves.{IsBehind, position-IsBehind}
use mysql_replication_c.Tests.{
  granting_always, granting_heaps, short_column, one_short, all_columns, inserted, no_rows,
}
use mysql_replication_c.Tests.Listening.{placed}

-- The image has none of the columns.
abbrev no_columns : Bitmap
no_columns = record { bits_set = 0; is_set = λ i. false }

get_one_row_values-Safe_example :
    Safe
      (λ r. 0 + r.0 ≤ 4)
      (get_one_row_values toy granting_always inserted one_short all_columns write_ai
        (short_column ∷ [])
        0
        no_rows)
unfolding width real_type
get_one_row_values-Safe_example =
    get_one_row_values-Safe toy toy-Laws granting_always inserted one_short all_columns write_ai
      (short_column ∷ []) 0 no_rows (λ i q n e. omega (arith, some_inj e)) (omega arith) refl
      (omega arith) refl (omega arith)
      (
        ((omega arith), (λ e. omega arith), (omega arith), refl, refl, (λ e. refl)),
        (omega arith),
        (omega arith),
      )
      (λ y added i s come present bit e. absurd (let no : some 2 ≡ none = e in cc))

first_image-Spared_example :
    Holds
      (λ r. get_elem? (cells r.1.rows_l2) 0 ≡ get_elem? (with_blank_row no_rows) 0)
      (get_one_row_values toy granting_always inserted one_short no_columns write_ai
        (short_column ∷ [])
        0
        no_rows)
first_image-Spared_example =
    first_image-Spared toy granting_always inserted one_short no_columns write_ai
      (short_column ∷ []) 0 no_rows 0 refl (omega arith) (omega arith) refl (inr (0, refl, refl))

position-IsBehind_example :
    IsBehind toy granting_heaps placed (on_packet toy granting_heaps (event (xid_event 101)) placed)
position-IsBehind_example = position-IsBehind toy granting_heaps (xid_event 101) placed refl
