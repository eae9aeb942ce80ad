-- ===== src/Client/Script.antt =====
-- The SQL scripts of the example client (SQL_thread_loop_fnc and its helpers in
-- example/C/rpl_test_2.c): the files of a directory, and the queries in a file.
use mysql_replication_c.Base.{
  ℕ, ◌+◌, ◌-◌, ◌*◌, Bool, true, false, ◌&&◌, ◌||◌, not, List, [], ◌∷◌, ◌++◌, Option, none, some,
  ltb, leb, ◌==◌, if◌then◌else◌, length, drop,
}
use mysql_replication_c.Base.Outcome.{Outcome, ok, err, fault, ◌>>=◌}
use mysql_replication_c.Text.{Bytes}
use mysql_replication_c.Block.{Malloc, c_str, strlen}
use mysql_replication_c.Rows.Memory.{pointer_size}
use mysql_replication_c.Listener.Tables.{str_eq}

-- What ends the thread early.
pub data ScriptError : Type 0 where
  no_connection no_directory no_memory not_readable : ScriptError
  not_opened query_refused : Bytes → ScriptError

abbrev pub Script : Type 0 → Type 0
Script A = Outcome ScriptError A

-- `isspace` in the C locale
abbrev pub is_space : ℕ → Bool
is_space c = c == 32 || (leb 9 c && leb c 13)

unfoldable pub ltrim : Bytes → Bytes
ltrim [] = []
ltrim (c ∷ s) = let rest = ltrim s in if is_space c then rest else c ∷ s

-- The text without the white space at its end.
unfoldable pub without_end : Bytes → Bytes
without_end [] = []
without_end (c ∷ s) = elim (without_end s) [
  | [] ↦ if is_space c then [] else c ∷ []
  | d ∷ rest ↦ c ∷ d ∷ rest
]

-- `while ( isspace( *--back ) )` has no end of its own: in a text without another character it goes
-- on in front of the block.
unfoldable pub rtrim : Bytes → Script Bytes
rtrim s = elim (without_end s) [ [] ↦ fault | c ∷ t ↦ ok (c ∷ t) ]

unfoldable pub trim : Bytes → Script Bytes
unfolding rtrim
trim s = rtrim (ltrim s)

-- SQL_QUERY_MEM_LEN
abbrev pub query_mem_len : ℕ
query_mem_len = 1024

module _ (malloc : Malloc) (accepts : Bytes → Bool) where
  -- The growth of the block at `used` characters: the result of `realloc` is not stored, so that a
  -- block that is granted leaves a pointer to freed memory, which is read next.
  unfoldable pub grow_query : ℕ → Script (Unit {0})
  grow_query used =
      if used + 1 == query_mem_len
      then if malloc (query_mem_len + 1024) then fault else err no_memory
      else ok tt

  -- mysql_query
  unfoldable pub send_query : Bytes → Script Bytes
  send_query q = if accepts q then ok q else err (query_refused q)

  -- The loop over the characters of a file, with those of the query so far; `fails` is whether a read
  -- fails at the end. The characters are read one by one, and once more at the end of the file. The
  -- result are the queries that were sent.
  unfoldable pub read_queries : Bool → Bytes → Bytes → Script (List Bytes)
  read_queries fails query [] =
      if fails then err not_readable else (do grown ← grow_query (length query + 1); ok [])
  read_queries fails query (c ∷ file) =
      let fresh = read_queries fails [] file in
      let longer = read_queries fails (query ++ c ∷ []) file in
      grow_query (length query + 1) >>= λ grown.
      if c == b';'
      then (do t ← trim (c_str query); q ← send_query t; qs ← fresh; ok (q ∷ qs))
      else longer

  -- A file: `none` where it does not open, and else its characters and whether a read fails.
  unfoldable pub run_file : (Bytes → Option (Bytes × Bool)) → Bytes → Script (List Bytes)
  run_file open_file name = elim (open_file name) [
    | none ↦ err (not_opened name)
    | some (text, fails) ↦
        if malloc query_mem_len then read_queries fails [] text else err no_memory
  ]

  -- The loop over the files: each name with whether SQL_thread_exit is set behind the file.
  unfoldable pub run_files :
      (Bytes → Option (Bytes × Bool)) → List (Bytes × Bool) → Script (List Bytes)
  run_files open_file [] = ok []
  run_files open_file ((name, exits) ∷ names) =
      let rest = run_files open_file names in
      run_file open_file name >>= λ qs. if exits then ok qs else rest >>= λ more. ok (qs ++ more)

-- ".", ".." and ".sql"
abbrev dot : Bytes
dot = b'.' ∷ []

abbrev dot_dot : Bytes
dot_dot = b'.' ∷ b'.' ∷ []

abbrev sql_suffix : Bytes
sql_suffix = b'.' ∷ b's' ∷ b'q' ∷ b'l' ∷ []

-- Whether an entry of the directory is taken.
unfoldable pub is_script : Bytes → Bool
is_script name =
    not (str_eq name dot || str_eq name dot_dot)
    && (ltb 3 (strlen name) && str_eq (drop (strlen name - 4) name) sql_suffix)

-- The array of names has room for 100; a larger one is asked for, and its pointer is not stored.
unfoldable pub collect_names : Malloc → List Bytes → List Bytes → Script (List Bytes)
collect_names malloc [] names = ok names
collect_names malloc (entry ∷ entries) names =
    let passed = collect_names malloc entries names in
    let taken = collect_names malloc entries (names ++ entry ∷ []) in
    if not (is_script entry)
    then passed
    else if length names == 0 && not (malloc (100 * pointer_size))
    then err no_memory
    else if length names == 100
    then (if malloc (200 * pointer_size) then fault else err no_memory)
    else if malloc (strlen entry + 1)
    then taken
    else err no_memory

-- `strcmp( a, b ) <= 0`
unfoldable pub str_le : Bytes → Bytes → Bool
str_le [] b = true
str_le (c ∷ a) [] = false
str_le (c ∷ a) (d ∷ b) = ltb c d || (c == d && str_le a b)

-- qsort with cmpstringp
unfoldable pub insert_name : Bytes → List Bytes → List Bytes
insert_name n [] = n ∷ []
insert_name n (k ∷ names) = if str_le n k then n ∷ k ∷ names else k ∷ insert_name n names

unfoldable pub sort_names : List Bytes → List Bytes
unfolding insert_name
sort_names [] = []
sort_names (n ∷ names) = insert_name n (sort_names names)

-- Each name with whether SQL_thread_exit is set once its file is done.
unfoldable pub with_exits : (Bytes → Bool) → List Bytes → List (Bytes × Bool)
with_exits exits [] = []
with_exits exits (n ∷ names) = (n, exits n) ∷ with_exits exits names

-- SQL_thread_loop_fnc: the entries of the directory are `none` where it does not open.
unfoldable pub sql_thread :
    Malloc
    → (accepts : Bytes → Bool) → (connects : Bool) → (directory : Option (List Bytes))
    → (open_file : Bytes → Option (Bytes × Bool)) → (exits : Bytes → Bool) → Script (List Bytes)
sql_thread malloc accepts connects directory open_file exits =
    if connects
    then elim directory [
      | none ↦ err no_directory
      | some entries ↦ do
        names ← collect_names malloc entries []
        run_files malloc accepts open_file (with_exits exits (sort_names names))
    ]
    else err no_connection
