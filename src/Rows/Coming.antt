-- ===== src/Rows/Coming.antt =====
-- Where the loop over the columns of a row image stands when it comes to a column
-- (get_one_row_values in rows_log_event_2/rows_log_event_2.cc).
use mysql_replication_c.Base.{
  ℕ, zero, suc, ◌+◌, ◌≡◌, ◌≢◌, refl, sym, true, false, List, none, drop, arith,
}
use mysql_replication_c.Base.Outcome.{Outcome, ok, err, fault, ◌>>=◌}
use mysql_replication_c.Block.{Malloc}
use mysql_replication_c.Row.{ColInfo, Message}
use mysql_replication_c.Mysql.{Mysql}
use mysql_replication_c.Rows.{RowsEvent, TableDef, RowImageType, Bitmap}
use mysql_replication_c.Rows.Image.{Scan, reader_bit, one_column, columns}

ok_inj : {s t : Scan} → ◌≡◌ {A = Outcome Message Scan} (ok s) (ok t) → s ≡ t
ok_inj e = cc

module _ (m : Mysql) (heap : ℕ → Malloc) (ev : RowsEvent) (td : TableDef) (bitmap : Bitmap)
    (image : RowImageType) (info : List ColInfo) (partials nulls base : ℕ) (s0 : Scan) where
  -- The loop over the columns comes from `s0` to column `i` with the scan `s`.
  abbrev pub Comes : ℕ → Scan → Type 0
  Comes i s = columns m heap ev td bitmap image info false partials nulls base i 0 s0 ≡ ok s

  pub Comes-first : Comes 0 s0
  unfolding columns
  Comes-first = refl

  -- Each value that the loop comes to, of a column of the image and not null, has its length in the
  -- event, if it has one: calc_field_size finds it.
  abbrev pub HasLengths : Type 0
  HasLengths =
      (i : ℕ) (s : Scan)
      → Comes i s
      → bitmap.is_set i ≡ true
      → reader_bit m heap ev td bitmap image info nulls s.null_count ≡ ok false
      → td.calc_field_size i (drop s.value ev.rows_buf) ≢ none

  pub columns-then :
      (n i j : ℕ) (s t u : Scan)
      → columns m heap ev td bitmap image info false partials nulls base n i s ≡ ok t
      → j ≡ i + n
      → one_column m heap ev td bitmap image info false partials nulls base j t ≡ ok u
      → columns m heap ev td bitmap image info false partials nulls base (suc n) i s ≡ ok u
  unfolding columns
  columns-then zero i j s t u e at one =
      let here : j ≡ i = omega (arith, at) in
      let same : t ≡ s = sym (ok_inj e) in rw (rw (here, same) at one) refl
  columns-then (suc n) i j s t u e at one =
      behind (one_column m heap ev td bitmap image info false partials nulls base i s) e
        (λ v k. columns-then n (i + 1) j v t u k (omega (arith, at)) one)
    where
      behind :
          (o : Outcome Message Scan)
          → (o >>= λ v.
              columns m heap ev td bitmap image info false partials nulls base n (i + 1) v)
            ≡ ok t
          → ((v : Scan)
              → columns m heap ev td bitmap image info false partials nulls base n (i + 1) v ≡ ok t
              → columns m heap ev td bitmap image info false partials nulls base (suc n) (i + 1) v
                ≡ ok u)
          → (o >>= λ v.
              columns m heap ev td bitmap image info false partials nulls base (suc n) (i + 1) v)
            ≡ ok u
      behind (ok v) k rest = rest v k
      behind (err g) k rest = absurd (let no : err g ≡ ok t = k in cc)
      behind fault k rest = absurd (let no : fault ≡ ok t = k in cc)
