-- ===== src/Listener/RefineCache.antt =====
-- The names of a table while its columns are filled, and those in the call of the user
-- (mysql_rpl_listener_2/mysql_rpl_listener_2.cc).
use mysql_replication_c.Base.{
  ℕ, ◌*◌, ◌≡◌, refl, ◌∙◌, ◌==◌, leb, Bool-cases, Option-cases, inl, inr, length,
}
use mysql_replication_c.Base.Outcome.{Outcome, ok, err, fault}
use mysql_replication_c.Block.{Malloc}
use mysql_replication_c.Event.{TableMapEvent, RowsLogEvent}
use mysql_replication_c.Listener.{Listener, ListeningTable, RowsCall}
use mysql_replication_c.Listener.Lifecycle.{copy_text}
use mysql_replication_c.Listener.Step.{Failure}
use mysql_replication_c.Listener.Cache.{
  columns_block, read_metadata, name_columns, cache_columns, repl_log_x_rows_init, col_info_size,
}
use mysql_replication_c.Listener.Spec.{table_name}

-- The table after a call on its columns keeps the names.
abbrev pub SameName : ListeningTable → Outcome (ListeningTable × Failure) ListeningTable → Type 0
SameName t (ok s) = table_name s ≡ table_name t
SameName t (err (s, f)) = table_name s ≡ table_name t
SameName t fault = Unit {0}

pub columns_block-SameName :
    (malloc : Malloc) (t : ListeningTable) (n : ℕ) → SameName t (columns_block malloc t n)
unfolding columns_block
columns_block-SameName malloc t n = elim (Option-cases t.columns) [
  | inl e ↦ elim (Bool-cases (malloc (n * col_info_size))) [
    | inl f ↦ rw (e, f) refl
    | inr f ↦ rw (e, f) refl
  ]
  | inr (cs, e) ↦ elim (Bool-cases (leb n t.col_count)) [
    | inl f ↦ rw (e, f) refl
    | inr f ↦ elim (Bool-cases (malloc (n * col_info_size))) [
      | inl g ↦ rw (e, f, g) refl
      | inr g ↦ rw (e, f, g) refl
    ]
  ]
]

pub read_metadata-SameName :
    (e : TableMapEvent) (t : ListeningTable) → SameName t (read_metadata e t)
unfolding read_metadata
read_metadata-SameName e t =
    let meta = e.optional_metadata in
    elim (Bool-cases (e.optional_metadata_len == 0)) [
      | inl a ↦ rw a refl
      | inr a ↦ elim (Bool-cases meta.is_valid) [
        | inr b ↦ rw (a, b) refl
        | inl b ↦ elim (Bool-cases (length meta.column_name == length e.coltype)) [
          | inr c ↦ rw (a, b, c) refl
          | inl c ↦
              elim (Bool-cases ((name_columns e.coltype meta.column_name meta.signedness).1)) [
                | inl d ↦ rw (a, b, c, d) refl
                | inr d ↦ rw (a, b, c, d) refl
              ]
        ]
      ]
    ]

pub cache_columns-SameName :
    (malloc : Malloc) (e : TableMapEvent) (t : ListeningTable)
    → SameName t (cache_columns malloc e t)
unfolding cache_columns
cache_columns-SameName malloc e t =
    with_block (columns_block malloc t (length e.coltype))
      (columns_block-SameName malloc t (length e.coltype))
  where
    with_metadata :
        (s : ListeningTable) (r : Outcome (ListeningTable × Failure) ListeningTable)
        → table_name s ≡ table_name t
        → SameName s r
        → SameName t r
    with_metadata s (ok u) p q = q ∙ p
    with_metadata s (err (u, f)) p q = q ∙ p
    with_metadata s fault p q = tt

    with_block :
        (r : Outcome (ListeningTable × Failure) ListeningTable)
        → SameName t r
        → SameName t (elim r [ ok s ↦ read_metadata e s | err f ↦ err f | fault ↦ fault ])
    with_block (ok s) p = with_metadata s (read_metadata e s) p (read_metadata-SameName e s)
    with_block (err f) p = p
    with_block fault p = tt

-- The call of the user has the names of the table map event.
abbrev pub Named : TableMapEvent → Outcome Failure RowsCall → Type 0
Named e (ok c) = (c.db_name ≡ copy_text 320 e.db_name) × (c.tbl_name ≡ copy_text 320 e.table_name)
Named e (err f) = Unit {0}
Named e fault = Unit {0}

pub rows_init-Named :
    (mn mt : Malloc) (l : Listener) (ev : RowsLogEvent) (t : ListeningTable) (e : TableMapEvent)
    → Named e (repl_log_x_rows_init mn mt l ev t e)
unfolding repl_log_x_rows_init
rows_init-Named mn mt l ev t e = elim (Bool-cases (mn (8 * length e.coltype))) [
  | inl a ↦ elim (Bool-cases (mt (length e.coltype))) [
    | inl b ↦ rw (a, b) (refl, refl)
    | inr b ↦ rw (a, b) tt
  ]
  | inr a ↦ elim (Bool-cases (mt (length e.coltype))) [
    | inl b ↦ rw (a, b) tt
    | inr b ↦ rw (a, b) tt
  ]
]
