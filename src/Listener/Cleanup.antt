-- ===== src/Listener/Cleanup.antt =====
-- What is freed with a listener and with saved table maps: tables_clear and destroy_tablemap_events
-- (mysql_rpl_listener_2/mysql_rpl_listener_2.cc).
use mysql_replication_c.Base.{List, [], ◌∷◌, Option, none, some}
use mysql_replication_c.Text.{Bytes}
use mysql_replication_c.Row.{ColInfo}
use mysql_replication_c.Listener.{ListeningTable}

-- The blocks of columns that are freed, and the tables: the pointers to the blocks stay.
unfoldable pub tables_clear : List ListeningTable → List (List ColInfo) × List ListeningTable
tables_clear [] = ([], [])
tables_clear (t ∷ ts) =
    let rest = tables_clear ts in
    elim t.columns [
      | none ↦ (rest.0, record t { col_count = 0 } ∷ rest.1)
      | some cs ↦ (cs ∷ rest.0, record t { col_count = 0 } ∷ rest.1)
    ]

-- TBLMAP_EVNS*: null, a null vector, or a vector of buffers. The result are the buffers that are
-- freed, and the pointer.
unfoldable pub destroy_tablemap_events :
    Option (Option (List Bytes)) → List Bytes × Option (Option (List Bytes))
destroy_tablemap_events none = ([], none)
destroy_tablemap_events (some none) = ([], some none)
destroy_tablemap_events (some (some buffers)) = (buffers, some none)
