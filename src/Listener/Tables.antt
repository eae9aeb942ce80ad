-- ===== src/Listener/Tables.antt =====
-- glob_table_map_events, a std::map from table ids, and the list of the tables that are listened to
-- (mysql_rpl_listener_2/mysql_rpl_listener_2.cc).
use mysql_replication_c.Base.{
  ℕ, Bool, true, false, List, [], ◌∷◌, Option, none, some, ◌==◌, ◌&&◌, ltb, if◌then◌else◌,
}
use mysql_replication_c.Text.{Bytes}
use mysql_replication_c.Event.{TableMapEvent}
use mysql_replication_c.Listener.{ListeningTable}

-- `find`
unfoldable pub find_map : ℕ → List (ℕ × TableMapEvent) → Option TableMapEvent
find_map k [] = none
find_map k ((j, e) ∷ es) = if j == k then some e else find_map k es

-- `find` and `erase`
unfoldable pub erase_map : ℕ → List (ℕ × TableMapEvent) → List (ℕ × TableMapEvent)
erase_map k [] = []
erase_map k ((j, e) ∷ es) = if j == k then es else (j, e) ∷ erase_map k es

-- `insert` of a key that is not there, at its place in the order of the keys.
unfoldable pub insert_map : ℕ → TableMapEvent → List (ℕ × TableMapEvent) → List (ℕ × TableMapEvent)
insert_map k e [] = (k, e) ∷ []
insert_map k e ((j, f) ∷ es) = if ltb k j then (k, e) ∷ (j, f) ∷ es else (j, f) ∷ insert_map k e es

-- A table map event takes the place of an older one with its id.
unfoldable pub store_map : TableMapEvent → List (ℕ × TableMapEvent) → List (ℕ × TableMapEvent)
store_map e es = insert_map e.table_id e (erase_map e.table_id es)

-- `strcmp( a, b ) == 0` of two C strings
unfoldable pub str_eq : Bytes → Bytes → Bool
str_eq [] [] = true
str_eq [] (d ∷ b) = false
str_eq (c ∷ a) [] = false
str_eq (c ∷ a) (d ∷ b) = c == d && str_eq a b

-- The index of the table of a table map event: the loop does not stop at the first one that fits.
unfoldable pub find_table_from : ℕ → Bytes → Bytes → List ListeningTable → Option ℕ → Option ℕ
find_table_from q db tbl [] found = found
find_table_from q db tbl (t ∷ ts) found =
    find_table_from (ℕ.suc q) db tbl ts
      (if str_eq db t.db_name && str_eq tbl t.tbl_name then some q else found)

unfoldable pub find_table : Bytes → Bytes → List ListeningTable → Option ℕ
find_table db tbl ts = find_table_from 0 db tbl ts none
