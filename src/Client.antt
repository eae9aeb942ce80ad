-- ===== src/Client.antt =====
-- The functions that the example client (example/C/rpl_test_2.c) gives to the listener: they print
-- the transactions and the rows that they are called with.
pub mod Cells
pub mod Printed
pub mod Script
pub mod White
pub mod Queries
use mysql_replication_c.Base.{
  ℕ, zero, suc, ◌+◌, List, [], ◌∷◌, ◌++◌, Option, none, some, if◌then◌else◌, get_elem?, ◌==◌,
}
use mysql_replication_c.Base.Int.{ℤ, pos, negsuc}
use mysql_replication_c.Base.Outcome.{Outcome, ok, fault, ◌>>=◌, or_fault}
use mysql_replication_c.Text.{Bytes}
use mysql_replication_c.Row.{ColumnType, Value}
use mysql_replication_c.Rows.{ChangeType}
use mysql_replication_c.Rows.Memory.{cells, is_update}
use mysql_replication_c.Rows.Filled.{pointers}
use mysql_replication_c.Listener.{Call, row_call, heartbeat_call, start_call, commit_call, RowsCall}

-- A line that is printed, one constructor for each format; `%s` prints a C string.
pub data Line : Type 0 where
  begin_line commit_line values_line new_values_line : Line
  change_line : (type : ChangeType) (db tbl : Bytes) (tbl_id when : ℕ) → Line
  row_begin_line row_end_line : ℕ → Line
  value_line : (name : Bytes) (type : ColumnType) (text : Bytes) → Line
  null_line absent_line : (name : Bytes) (type : ColumnType) → Line

-- What a function of the client prints, or a fault.
abbrev pub Output : Type 0 → Type 0
Output A = Outcome (Unit {0}) A

-- on_replication_transaction
unfoldable pub on_replication_transaction : Call → List Line
on_replication_transaction (start_call when) = begin_line ∷ []
on_replication_transaction (commit_call when) = commit_line ∷ []
on_replication_transaction (row_call c) = []
on_replication_transaction (heartbeat_call when) = []

-- `%s`: the characters before the NUL; a fault where a block ends without one.
unfoldable pub c_string : Bytes → Output Bytes
c_string [] = fault
c_string (c ∷ s) = let rest = c_string s in if c == 0 then ok [] else (do t ← rest; ok (c ∷ t))

unfoldable pub cell_line : Bytes → ColumnType → Value → Output Line
cell_line name type v = elim v.len [
  | negsuc n ↦ ok (absent_line name type)
  | pos n ↦ elim v.val [
    | none ↦ ok (null_line name type)
    | some b ↦ do text ← c_string b.bytes; ok (value_line name type text)
  ]
]

-- `rows[ i ][ j ]`, through a pointer into the array of cells
unfoldable pub cell_at : Option (List ℕ) → Option (List Value) → ℕ → ℕ → Output Value
cell_at rows l2 i j = do
  p ← or_fault (get_elem? (pointers rows) i)
  or_fault (get_elem? (cells l2) (p + j))

module _ (c : RowsCall) (rows : Option (List ℕ)) (l2 : Option (List Value)) (i : ℕ) where
  -- The loop over the columns from index `j` on, `n` rounds.
  unfoldable pub cell_lines : ℕ → ℕ → Output (List Line)
  unfolding cell_at cell_line
  cell_lines zero j = ok []
  cell_lines (suc n) j = do
    v ← cell_at rows l2 i j
    name ← or_fault (get_elem? c.col_names j)
    type ← or_fault (get_elem? c.col_types j)
    line ← cell_line name type v
    rest ← cell_lines n (j + 1)
    ok (line ∷ rest)

module _ (c : RowsCall) where
  -- The new values of row `i`, of an update.
  unfoldable pub after_lines : ℕ → Output (List Line)
  after_lines i =
      if is_update c.rows.type_code
      then (do
        ls ← cell_lines c c.rows.rows_after c.rows.rows_after_l2 i c.rows.col_count 0
        ok (new_values_line ∷ ls))
      else ok []

  unfoldable pub row_lines : ℕ → Output (List Line)
  row_lines i = do
    ls ← cell_lines c c.rows.rows c.rows.rows_l2 i c.rows.col_count 0
    after ← after_lines i
    ok (row_begin_line i ∷ values_line ∷ (ls ++ (after ++ row_end_line i ∷ [])))

  -- The loop over the rows from index `i` on, `n` rounds.
  unfoldable pub rows_lines : ℕ → ℕ → Output (List Line)
  rows_lines zero i = ok []
  rows_lines (suc n) i = do ls ← row_lines i; rest ← rows_lines n (i + 1); ok (ls ++ rest)

  -- on_replication_rows
  unfoldable pub on_replication_rows : Output (List Line)
  on_replication_rows = do
    ls ← rows_lines c.rows.rows_count 0
    ok (change_line c.rows.type_code c.db_name c.tbl_name c.tbl_id c.when ∷ ls)
