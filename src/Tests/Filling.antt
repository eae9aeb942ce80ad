-- ===== src/Tests/Filling.antt =====
-- Row images that are read.
use mysql_replication_c.Base.{◌≢◌, refl, false, none, some, [], ◌∷◌, arith}
use mysql_replication_c.Base.Outcome.{Holds}
use mysql_replication_c.Mysql.Toy.{toy}
use mysql_replication_c.Rows.Loop.{TblInfo, TableMap, rows_loop, get_rows, first_image}
use mysql_replication_c.Rows.Progress.{rows_loop-ends}
use mysql_replication_c.Rows.Filled.{Filled, get_rows-Filled}
use mysql_replication_c.Tests.{granting_always, short_column, one_short, inserted, no_rows}

abbrev pub info : TblInfo
info = record { col_count = 1; columns = short_column ∷ [] }

abbrev pub one_column_map : TableMap
one_column_map = record { colcnt = 1; def = some one_short }

rows_loop-ends_example : rows_loop toy granting_always inserted one_short info 5 0 no_rows ≢ none
rows_loop-ends_example =
    rows_loop-ends toy granting_always inserted one_short info 5 0 no_rows (omega arith)

get_rows-Filled_example :
    Holds
      (Filled false 1)
      (get_rows toy granting_always inserted (some one_column_map) no_rows info)
unfolding first_image
get_rows-Filled_example =
    get_rows-Filled toy granting_always inserted (some one_column_map) no_rows info (omega arith)
      refl refl refl
