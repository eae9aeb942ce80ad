-- ===== src/Listener/Cache.antt =====
-- The columns of a table that is listened to, filled from the table map event before the rows are
-- read (process_event, is_numeric_type and repl_log_x_rows_init in
-- mysql_rpl_listener_2/mysql_rpl_listener_2.cc).
use mysql_replication_c.Base.{
  ℕ, suc, ◌*◌, Bool, true, false, List, [], ◌∷◌, none, some, leb, ◌==◌, not, if◌then◌else◌, length,
  replicate, map,
}
use mysql_replication_c.Base.Outcome.{Outcome, ok, err, fault}
use mysql_replication_c.Text.{Bytes}
use mysql_replication_c.Block.{Malloc, c_str}
use mysql_replication_c.Row.{
  ColumnType, tiny, short, int24, long, longlong, newdecimal, float, double, other, string,
  var_string, varchar, blob, enum, set, ColInfo,
}
use mysql_replication_c.Rows.{insert}
use mysql_replication_c.Event.{TableMapEvent, RowsLogEvent}
use mysql_replication_c.Listener.{Listener, ListeningTable, RowsCall}
use mysql_replication_c.Listener.Lifecycle.{copy_text, flag}
use mysql_replication_c.Listener.Step.{
  Failure, no_columns_memory, metadata_missing, metadata_invalid, metadata_names,
  metadata_signedness, no_rows_memory,
}

unfoldable pub is_numeric_type : ColumnType → Bool
is_numeric_type tiny = true
is_numeric_type short = true
is_numeric_type int24 = true
is_numeric_type long = true
is_numeric_type longlong = true
is_numeric_type newdecimal = true
is_numeric_type float = true
is_numeric_type double = true
is_numeric_type _ = false

-- is_character_type and is_enum_or_set_type, which have no caller
unfoldable pub is_character_type : ColumnType → Bool
is_character_type string = true
is_character_type var_string = true
is_character_type varchar = true
is_character_type blob = true
is_character_type _ = false

unfoldable pub is_enum_or_set_type : ColumnType → Bool
is_enum_or_set_type enum = true
is_enum_or_set_type set = true
is_enum_or_set_type _ = false

-- sizeof( _col_info )
abbrev pub col_info_size : ℕ
col_info_size = 130

-- An entry after `memset`.
abbrev pub blank_column : ColInfo
blank_column = record { type = other 0; name = []; is_unsigned = false }

-- `snprintf( name, 128, "%s", column_name.c_str() )`
abbrev pub column_name : Bytes → Bytes
column_name n = copy_text 128 (c_str n)

-- The loop that sets the names and the signs: the next element of `signedness` belongs to the next
-- numeric column. The result tells whether the signs were enough; the columns from a missing sign
-- on stay blank. The names are as many as the columns, which is checked before.
unfoldable pub name_columns : List ColumnType → List Bytes → List Bool → List ColInfo × Bool
name_columns [] names signs = ([], true)
name_columns (t ∷ ts) [] signs = (replicate (suc (length ts)) blank_column, false)
name_columns (t ∷ ts) (n ∷ names) [] =
    let rest = name_columns ts names [] in
    if is_numeric_type t
    then (replicate (suc (length ts)) blank_column, false)
    else (record blank_column { name = column_name n } ∷ rest.0, rest.1)
name_columns (t ∷ ts) (n ∷ names) (sign ∷ signs) =
    let signed_rest = name_columns ts names signs in
    let rest = name_columns ts names (sign ∷ signs) in
    if is_numeric_type t
    then (
      record blank_column { name = column_name n; is_unsigned = sign } ∷ signed_rest.0,
      signed_rest.1,
    )
    else (record blank_column { name = column_name n } ∷ rest.0, rest.1)

-- The loop that sets the types.
unfoldable pub set_types : List ColumnType → List ColInfo → List ColInfo
set_types [] cs = cs
set_types (t ∷ ts) [] = []
set_types (t ∷ ts) (c ∷ cs) = record c { type = t } ∷ set_types ts cs

-- The block for the columns: a block of at least as many columns is used again.
unfoldable pub columns_block :
    Malloc → ListeningTable → ℕ → Outcome (ListeningTable × Failure) ListeningTable
columns_block malloc t colcnt = elim t.columns [
  | none ↦ if malloc (colcnt * col_info_size) then ok t else err (t, no_columns_memory)
  | some cs ↦
      if leb colcnt t.col_count
      then ok t
      else if malloc (colcnt * col_info_size)
      then ok t
      else err (record t { columns = none }, no_columns_memory)
]

-- The checks of the optional metadata, and the columns.
unfoldable pub read_metadata :
    TableMapEvent → ListeningTable → Outcome (ListeningTable × Failure) ListeningTable
read_metadata e t =
    let cleared = record t {
      col_count = length e.coltype;
      columns = some (replicate (length e.coltype) blank_column);
    } in
    let meta = e.optional_metadata in
    let named = name_columns e.coltype meta.column_name meta.signedness in
    if e.optional_metadata_len == 0
    then err (cleared, metadata_missing)
    else if not meta.is_valid
    then err (cleared, metadata_invalid)
    else if not (length meta.column_name == length e.coltype)
    then err (cleared, metadata_names)
    else if named.1
    then ok (record cleared { columns = some (set_types e.coltype named.0) })
    else err (record cleared { columns = some named.0 }, metadata_signedness)

unfoldable pub cache_columns :
    Malloc → TableMapEvent → ListeningTable → Outcome (ListeningTable × Failure) ListeningTable
cache_columns malloc e t = elim (columns_block malloc t (length e.coltype)) [
  | ok s ↦ read_metadata e s
  | err f ↦ err f
  | fault ↦ fault
]

abbrev pub cached : ListeningTable → List ColInfo
cached t = elim t.columns [ none ↦ [] | some cs ↦ cs ]

-- repl_log_x_rows_init. Where one of the two blocks is granted and the other is not, the granted
-- one is freed here and again by the handler of the exception: a fault.
unfoldable pub repl_log_x_rows_init :
    Malloc
    → Malloc
    → Listener
    → RowsLogEvent
    → ListeningTable
    → TableMapEvent
    → Outcome Failure RowsCall
repl_log_x_rows_init malloc_names malloc_types l ev t e =
    if malloc_names (8 * length e.coltype)
    then if malloc_types (length e.coltype)
      then ok (record {
        when = ev.when;
        tbl_id = ev.table_id;
        tbl_name = copy_text 320 e.table_name;
        db_name = copy_text 320 e.db_name;
        col_names = map (λ c. c.name) (cached t);
        col_types = map (λ c. c.type) (cached t);
        rows = record {
          type_code = insert;
          col_count = length e.coltype;
          rows_count = 0;
          rows = none;
          rows_after = none;
          rows_l2 = none;
          rows_after_l2 = none;
          display_blobs = record {
            blobs_display = flag l.display_blobs.blobs_display;
            geometry_as_hex = flag l.display_blobs.geometry_as_hex;
            blob_as_hex = flag l.display_blobs.blob_as_hex;
          };
          clock = 3;
        };
      })
      else fault
    else if malloc_types (length e.coltype)
    then fault
    else err no_rows_memory
