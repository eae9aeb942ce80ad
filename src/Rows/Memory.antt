-- ===== src/Rows/Memory.antt =====
-- repl_log_x_rows_add_row_mem and repl_log_x_rows_finish (rows_log_event_2/rows_log_event_2.cc).
use mysql_replication_c.Base.{
  ℕ, zero, suc, ◌+◌, ◌*◌, Bool, List, [], ◌∷◌, ◌++◌, Option, none, some, ◌==◌, if◌then◌else◌,
  length, replicate,
}
use mysql_replication_c.Base.Int.{u32}
use mysql_replication_c.Base.Outcome.{Outcome, ok, err, fault, ◌>>=◌}
use mysql_replication_c.Block.{Malloc}
use mysql_replication_c.Row.{Value, Message, no_memory_for_row, no_memory_for_finish}
use mysql_replication_c.Rows.{
  Rows, ChangeType, update, blank, RowImageType, is_update_ai, is_update_bi,
}

-- sizeof( _repl_log_x_value ) and the size of a pointer
abbrev pub value_size : ℕ
value_size = 16

abbrev pub pointer_size : ℕ
pointer_size = 8

-- The bytes that are asked for with one row more.
abbrev pub grown_size : Rows → ℕ
grown_size x = value_size * u32 (x.rows_count + 1) * x.col_count

-- What a null pointer has in store.
abbrev pub cells : Option (List Value) → List Value
cells none = []
cells (some vs) = vs

-- `malloc` for the first row and `realloc` for a later one, the `memset` and the loop that sets
-- `len` to -1 in the cells from index `rows_count * col_count`, a uint32. A product that wraps
-- would leave the new cells without a value: a fault here.
unfoldable pub grow : Malloc → Rows → Option (List Value) → Outcome Message (Option (List Value))
grow malloc x old =
    if malloc (grown_size x)
    then if u32 (x.rows_count * x.col_count) == length (cells old)
      then ok (some (cells old ++ replicate x.col_count blank))
      else fault
    else err no_memory_for_row

-- A null array is only replaced, with the first row: `malloc` forgets what was there.
abbrev pub old_cells : Rows → Option (List Value) → Option (List Value)
old_cells x old = if x.rows_count == 0 then none else old

module _ (heap : ℕ → Malloc) where
  unfoldable pub add_row_mem : Rows → RowImageType → Outcome Message Rows
  add_row_mem x image = if is_update_ai image then ok x else (do
    l2 ← grow (heap x.clock) x (old_cells x x.rows_l2)
    after ←
        if is_update_bi image
        then grow (heap (x.clock + 1)) x (old_cells x x.rows_after_l2)
        else ok x.rows_after_l2
    ok (record x {
      rows_l2 = l2;
      rows_after_l2 = after;
      rows_count = u32 (x.rows_count + 1);
      clock = x.clock + 2;
    }))

-- `rows[ i ] = &( rows_L2[ i * col_count ] )` for i from `i` on, `n` rounds: a uint32 product.
unfoldable pub row_pointers : ℕ → ℕ → ℕ → List ℕ
row_pointers zero i cols = []
row_pointers (suc n) i cols = u32 (i * cols) ∷ row_pointers n (i + 1) cols

abbrev pub is_update : ChangeType → Bool
is_update update = Bool.true
is_update _ = Bool.false

module _ (heap : ℕ → Malloc) where
  unfoldable pub finish : Rows → Outcome Message Rows
  finish x =
      if heap x.clock (pointer_size * x.rows_count)
      then if is_update x.type_code
        then if heap (x.clock + 1) (pointer_size * x.rows_count)
          then ok (record x {
            rows = some (row_pointers x.rows_count 0 x.col_count);
            rows_after = some (row_pointers x.rows_count 0 x.col_count);
            clock = x.clock + 2;
          })
          else err no_memory_for_finish
        else ok (record x {
          rows = some (row_pointers x.rows_count 0 x.col_count);
          clock = x.clock + 2;
        })
      else err no_memory_for_finish
