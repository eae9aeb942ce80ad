-- ===== src/Client/Printed.antt =====
-- The rows that the library gives to the example client (process_event in
-- mysql_rpl_listener_2/mysql_rpl_listener_2.cc, on_replication_rows in example/C/rpl_test_2.c).
use native.Mathlib.Nat.{zero-mul, suc-mul}
use mysql_replication_c.Base.{
  some_inj, ℕ, zero, suc, ◌+◌, ◌*◌, ◌≤◌, ◌<◌, ◌^◌, ◌≡◌, refl, sym, ap, ◌∙◌, subst, Bool, true, List,
  [], ◌∷◌, ◌++◌, Option, none, some, Bool-cases, inl, inr, All, if◌then◌else◌, length-append, map,
  length, get_elem?, arith,
}
use mysql_replication_c.Base.Outcome.{Outcome, ok, err, fault, Holds, Holds-bind}
use mysql_replication_c.Row.{Value, Message}
use mysql_replication_c.Decode.TextSteps.{IsText}
use mysql_replication_c.Rows.Legible.{IsLegible}
use mysql_replication_c.Rows.Texts.{get_rows-IsLegible}
use mysql_replication_c.Rows.{Rows}
use mysql_replication_c.Rows.Memory.{cells, is_update}
use mysql_replication_c.Rows.Filled.{pointers, InBounds, Filled, get_rows-Filled}
use mysql_replication_c.Rows.Loop.{get_rows}
use mysql_replication_c.Rows.Rounds.{both_images}
use mysql_replication_c.Listener.Step.{Failure, rows_failed}
use mysql_replication_c.Block.{Malloc}
use mysql_replication_c.Mysql.{Mysql}
use mysql_replication_c.Event.{TableMapEvent, RowsLogEvent}
use mysql_replication_c.Listener.{Listener, ListeningTable, RowsCall}
use mysql_replication_c.Listener.Cache.{cached, repl_log_x_rows_init}
use mysql_replication_c.Listener.Deliver.{as_map, rows_call}
use mysql_replication_c.Client.Cells.{cell_line_lem, text_of}
use mysql_replication_c.Client.{
  Line, row_begin_line, values_line, row_end_line, new_values_line, change_line, Output, cell_at,
  cell_lines, after_lines, row_lines, rows_lines, on_replication_rows,
}

-- A print of `n` lines that comes to its end.
abbrev pub IsPrinted : ℕ → Output (List Line) → Type 0
IsPrinted n o = (ls : List Line) × (o ≡ ok ls) × (length ls ≡ n)

-- The lines of one row: its number, the head of the values, a line for each column and the end; for
-- an update another head and another line for each column.
abbrev pub row_size : RowsCall → ℕ
row_size c = 3 + c.rows.col_count + (if is_update c.rows.type_code then 1 + c.rows.col_count else 0)

inside {ℓ} :
    {A : Type ℓ} (xs : List A) (i : ℕ) → i < length xs → (x : A) × (get_elem? xs i ≡ some x)
inside [] i h = absurd (omega (arith, h))
inside (x ∷ xs) zero h = (x, refl)
inside (x ∷ xs) (suc i) h = inside xs i (omega (arith, h))

pointer-bound :
    (cols n : ℕ) (ps : List ℕ) (i p : ℕ)
    → InBounds cols n ps
    → get_elem? ps i ≡ some p
    → p + cols ≤ n
pointer-bound cols n [] i p h e = absurd (let no : none ≡ some p = e in cc)
pointer-bound cols n (q ∷ ps) zero p h e = let same : q ≡ p = some_inj e in omega (arith, h.0, same)
pointer-bound cols n (q ∷ ps) (suc i) p h e = pointer-bound cols n ps i p h.1 e

-- The two arrays that a row is read from: a pointer for each row, each to a whole row of cells, which
-- are null or C strings.
abbrev IsTable : ℕ → ℕ → Option (List ℕ) → Option (List Value) → Type 0
IsTable count cols rows l2 =
    (length (pointers rows) ≡ count)
    × InBounds cols (length (cells l2)) (pointers rows)
    × All IsText (cells l2)

cell_at_lem :
    (count cols : ℕ) (rows : Option (List ℕ)) (l2 : Option (List Value)) (i j : ℕ)
    → IsTable count cols rows l2
    → i < count
    → j < cols
    → (v : Value) × (cell_at rows l2 i j ≡ ok v) × IsText v
unfolding cell_at
cell_at_lem count cols rows l2 i j table row col =
    let p = inside (pointers rows) i (omega (arith, row, table.0)) in
    let bound = pointer-bound cols (length (cells l2)) (pointers rows) i p.0 table.1 p.1 in
    let v = inside (cells l2) (p.0 + j) (omega (arith, bound, col)) in
    (v.0, rw (p.1, v.1) refl, text_of (cells l2) (p.0 + j) v.0 table.2 v.1)

-- The columns have names and types.
abbrev pub IsNamed : RowsCall → Type 0
IsNamed c = (length c.col_names ≡ c.rows.col_count) × (length c.col_types ≡ c.rows.col_count)

module _ (c : RowsCall) (named : IsNamed c) where
  cell_lines_lem :
      (rows : Option (List ℕ)) (l2 : Option (List Value)) (i n j : ℕ)
      → IsTable c.rows.rows_count c.rows.col_count rows l2
      → i < c.rows.rows_count
      → j + n ≤ c.rows.col_count
      → IsPrinted n (cell_lines c rows l2 i n j)
  unfolding cell_lines
  cell_lines_lem rows l2 i zero j table row h = ([], refl, refl)
  cell_lines_lem rows l2 i (suc n) j table row h =
      let v =
        cell_at_lem c.rows.rows_count c.rows.col_count rows l2 i j table row (omega (arith, h)) in
      let name = inside c.col_names j (omega (arith, h, named.0)) in
      let type = inside c.col_types j (omega (arith, h, named.1)) in
      let rest = cell_lines_lem rows l2 i n (j + 1) table row (omega (arith, h)) in
      let line = cell_line_lem name.0 type.0 v.0 v.2 in
      (line.0 ∷ rest.0, rw (v.1, name.1, type.1, line.1, rest.1) refl, ap suc rest.2)

  row_lines_lem :
      (i : ℕ)
      → IsTable c.rows.rows_count c.rows.col_count c.rows.rows c.rows.rows_l2
      → (is_update c.rows.type_code ≡ true
          → IsTable c.rows.rows_count c.rows.col_count c.rows.rows_after c.rows.rows_after_l2)
      → i < c.rows.rows_count
      → IsPrinted (row_size c) (row_lines c i)
  unfolding row_lines after_lines
  row_lines_lem i table after row =
      let ls =
        cell_lines_lem c.rows.rows c.rows.rows_l2 i c.rows.col_count 0 table row (omega arith) in
      elim (Bool-cases (is_update c.rows.type_code)) [
        | inr a ↦ (
          row_begin_line i ∷ values_line ∷ (ls.0 ++ ([] ++ row_end_line i ∷ [])),
          rw (ls.1, a) refl,
          rw (length-append ls.0 ([] ++ row_end_line i ∷ []), a) (omega (arith, ls.2)),
        )
        | inl a ↦
            let bs =
              cell_lines_lem c.rows.rows_after c.rows.rows_after_l2 i c.rows.col_count 0 (after a)
                row (omega arith) in
            (
              row_begin_line i
                  ∷ values_line
                  ∷ (ls.0 ++ ((new_values_line ∷ bs.0) ++ row_end_line i ∷ [])),
              rw (ls.1, a, bs.1) refl,
              rw
                  (
                    length-append ls.0 ((new_values_line ∷ bs.0) ++ row_end_line i ∷ []),
                    length-append bs.0 (row_end_line i ∷ []),
                    a,
                  )
                  (omega (arith, ls.2, bs.2)),
            )
      ]

  rows_lines_lem :
      (n i : ℕ)
      → IsTable c.rows.rows_count c.rows.col_count c.rows.rows c.rows.rows_l2
      → (is_update c.rows.type_code ≡ true
          → IsTable c.rows.rows_count c.rows.col_count c.rows.rows_after c.rows.rows_after_l2)
      → i + n ≤ c.rows.rows_count
      → IsPrinted (n * row_size c) (rows_lines c n i)
  unfolding rows_lines
  rows_lines_lem zero i table after h = ([], refl, sym (zero-mul (row_size c)))
  rows_lines_lem (suc n) i table after h =
      let ls = row_lines_lem i table after (omega (arith, h)) in
      let rest = rows_lines_lem n (i + 1) table after (omega (arith, h)) in
      (
        ls.0 ++ rest.0,
        rw (ls.1, rest.1) refl,
        omega (arith, length-append ls.0 rest.0, ls.2, rest.2, suc-mul n (row_size c)),
      )

length-map {ℓ κ} :
    {A : Type ℓ} {B : Type κ} (f : A → B) (xs : List A) → length (map f xs) ≡ length xs
length-map f [] = refl
length-map f (x ∷ xs) = ap suc (length-map f xs)

-- All lines of a call: its head, and those of its rows.
abbrev pub call_size : RowsCall → ℕ
call_size c = suc (c.rows.rows_count * row_size c)

-- The structure that get_rows fills is printed.
Filled-IsPrinted :
    (both : Bool) (cols : ℕ) (c : RowsCall)
    → Filled both cols c.rows
    → IsLegible c.rows
    → IsNamed c
    → IsPrinted (call_size c) (on_replication_rows c)
unfolding on_replication_rows
Filled-IsPrinted both cols c f legible named =
    let table : IsTable c.rows.rows_count c.rows.col_count c.rows.rows c.rows.rows_l2 = (
      f.1,
      subst (λ n. InBounds c.rows.col_count n (pointers c.rows.rows)) (sym f.0) f.2,
      legible.0,
    ) in
    let lines = rows_lines_lem c named c.rows.rows_count 0 table (after f) (omega arith) in
    (
      change_line c.rows.type_code c.db_name c.tbl_name c.tbl_id c.when ∷ lines.0,
      rw lines.1 refl,
      ap suc lines.2,
    )
  where
    after :
        Filled both cols c.rows
        → is_update c.rows.type_code ≡ true
        → IsTable c.rows.rows_count c.rows.col_count c.rows.rows_after c.rows.rows_after_l2
    after f update =
        let second = f.3 (sym f.6 ∙ update) in
        (
          second.1,
          subst (λ n. InBounds c.rows.col_count n (pointers c.rows.rows_after)) (sym second.0)
              second.2,
          legible.1,
        )

-- The call for the user, with the columns that are cached for the table.
module _ (m : Mysql) (heap : ℕ → Malloc) (ev : RowsLogEvent) (e : TableMapEvent) where
  abbrev IsFresh : ListeningTable → RowsCall → Type 0
  IsFresh t c =
      (c.col_names ≡ map (λ k. k.name) (cached t))
      × (c.col_types ≡ map (λ k. k.type) (cached t))
      × (c.rows.col_count ≡ length e.coltype)
      × (c.rows.rows_count ≡ 0)
      × (c.rows.rows_l2 ≡ none)
      × (c.rows.rows_after_l2 ≡ none)

  init_lem :
      (l : Listener) (t : ListeningTable)
      → Holds (IsFresh t) (repl_log_x_rows_init (heap 1) (heap 2) l ev t e)
  unfolding repl_log_x_rows_init
  init_lem l t = elim (Bool-cases (heap 1 (8 * length e.coltype))) [
    | inl a ↦ elim (Bool-cases (heap 2 (length e.coltype))) [
      | inl b ↦ rw (a, b) (refl, refl, refl, refl, refl, refl)
      | inr b ↦ rw (a, b) tt
    ]
    | inr a ↦ elim (Bool-cases (heap 2 (length e.coltype))) [
      | inl b ↦ rw (a, b) tt
      | inr b ↦ rw (a, b) tt
    ]
  ]

  -- A rows event of less than 4 GB, of a table whose cached columns are as many as those of its
  -- table map: where the library comes to a call of on_rpl_row, the function of the example client
  -- prints it to the end, a line for each cell and the lines around them, and no pointer, cell or
  -- text of it is read out of bounds.
  pub rows_call-IsPrinted :
      (l : Listener) (t : ListeningTable)
      → length ev.rows.rows_buf < 2 ^ 32
      → length (cached t) ≡ length e.coltype
      → Holds (λ c. IsPrinted (call_size c) (on_replication_rows c)) (rows_call m heap ev e l t)
  unfolding rows_call
  rows_call-IsPrinted l t small columns =
      Holds-bind (IsFresh t) (λ c. IsPrinted (call_size c) (on_replication_rows c))
        (repl_log_x_rows_init (heap 1) (heap 2) l ev t e) _ (init_lem l t)
        (λ c fresh.
          with_rows c fresh
            (get_rows m heap ev.rows (some (as_map e)) c.rows
              (record { col_count = t.col_count; columns = cached t }))
            (get_rows-Filled m heap ev.rows (some (as_map e)) c.rows
              (record { col_count = t.col_count; columns = cached t }) small fresh.3 fresh.4
              fresh.5)
            (get_rows-IsLegible m heap ev.rows (some (as_map e)) c.rows
              (record { col_count = t.col_count; columns = cached t })
              (rw (fresh.4, fresh.5) (tt, tt))))
    where
      with_rows :
          (c : RowsCall)
          → IsFresh t c
          → (r : Outcome Message Rows) → Holds (Filled (both_images ev.rows) c.rows.col_count) r
          → Holds IsLegible r
          → Holds
              (λ d. IsPrinted (call_size d) (on_replication_rows d))
              (elim r as (λ x. Outcome Failure RowsCall) [
                | ok x ↦ ok (record c { rows = x })
                | err g ↦ err (rows_failed g)
                | fault ↦ fault
              ])
      with_rows c fresh (ok x) filled legible =
          let count : length (cached t) ≡ x.col_count = columns ∙ (sym fresh.2 ∙ sym filled.4) in
          Filled-IsPrinted (both_images ev.rows) c.rows.col_count (record c { rows = x }) filled
            legible
            (
              ap length fresh.0 ∙ (length-map (λ k. k.name) (cached t) ∙ count),
              ap length fresh.1 ∙ (length-map (λ k. k.type) (cached t) ∙ count),
            )
      with_rows c fresh (err g) filled legible = tt
      with_rows c fresh fault filled legible = tt
