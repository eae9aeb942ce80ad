-- ===== src/Rows/Guarded.antt =====
-- What one row image reads of the event (get_one_row_values in
-- rows_log_event_2/rows_log_event_2.cc): the check of the size guards each value.
use mysql_replication_c.Base.{
  ℕ, zero, suc, ◌+◌, ◌*◌, ◌/◌, ◌^◌, ◌<◌, ◌≤◌, ◌≡◌, ◌≢◌, refl, ap, Option, sym, ◌∙◌, Bool, true,
  false, List, [], ◌∷◌, none, some, ltb, ltb-false→le, Bool-cases, inl, inr, if◌then◌else◌, set,
  get_elem?, drop, length, length-set, length-drop, arith, subst,
}
use mysql_replication_c.Base.Int.{pos}
use mysql_replication_c.Base.Outcome.{ok, Safe, Safe-bind, Safe-known, Safe-weaken, or_fault}
use mysql_replication_c.Text.{Bytes}
use mysql_replication_c.Block.{Malloc}
use mysql_replication_c.Block.Steps.{load-eq-ok}
use mysql_replication_c.Row.{ColInfo, Value, Message}
use mysql_replication_c.Mysql.{Mysql, Laws}
use mysql_replication_c.Decode.{log_event_get_value_2}
use mysql_replication_c.Decode.Nulls.{log_event_get_value_2-Null}
use mysql_replication_c.Decode.Widths.{column_width, log_event_get_value_2-Takes}
use mysql_replication_c.Rows.{RowsEvent, TableDef, RowImageType, Bitmap}
use mysql_replication_c.Rows.Image.{
  Scan, bytes_left, image_cells, reader_bit, read_partial, check_size, present_column, one_column,
  columns,
}
use mysql_replication_c.Rows.Coming.{Comes, HasLengths, columns-then}
use mysql_replication_c.Rows.Untouched.{set_cells_lem}

or_fault-Safe :
    {A : Type 0} (xs : List A) (i : ℕ)
    → i < length xs
    → Safe {E = Message} (λ a. Unit {0}) (or_fault (get_elem? xs i))
or_fault-Safe [] i h = absurd (omega arith)
or_fault-Safe (x ∷ xs) zero h = tt
or_fault-Safe (x ∷ xs) (suc i) h = or_fault-Safe xs i (omega arith)

-- calc_field_size of table_def counts the bytes of the column's type at least.
abbrev pub Measures : Mysql → TableDef → Type 0
Measures m td =
    (i : ℕ) (q : Bytes) (n : ℕ)
    → td.calc_field_size i q ≡ some n
    → column_width m (td.type i) (td.field_metadata i) q ≤ n

-- The columns of the image from `i` on, `n` of them.
abbrev pub set_count : Bitmap → ℕ → ℕ → ℕ
set_count bitmap zero i = 0
set_count bitmap (suc n) i =
    let rest = set_count bitmap n (i + 1) in if bitmap.is_set i then suc rest else rest

module _ (m : Mysql) (laws : Laws m) (heap : ℕ → Malloc) (ev : RowsEvent) (td : TableDef)
    (bitmap : Bitmap) (image : RowImageType) (info : List ColInfo) (measures : Measures m td)
    (small : 2 * length ev.rows_buf + 16 < 2 ^ 31) where
  -- The value is in the event, and the next bit of the null columns too.
  abbrev pub Reads : ℕ → ℕ → ℕ → ℕ → Scan → Type 0
  Reads nulls base n i s =
      (nulls + (s.null_count + set_count bitmap n i + 7) / 8 ≤ length ev.rows_buf)
      × (base + (i + n) ≤ length (image_cells image s.x))
      × (s.value ≤ length ev.rows_buf)

  bit-Safe :
      (start k : ℕ)
      → start + (k + 8) / 8 ≤ length ev.rows_buf
      → Safe (λ b. Unit {0}) (reader_bit m heap ev td bitmap image info start k)
  unfolding reader_bit
  bit-Safe start k h =
      rw
        (load-eq-ok {E = Message} (k / 8 + 1) (drop start ev.rows_buf)
          (omega (arith, h, length-drop start ev.rows_buf)))
        tt

  -- What the check of the size leaves: a value that is not null is in the event.
  abbrev Checked : Bool → ℕ → Scan → Type 0
  Checked is_null i s =
      is_null ≡ false
      → column_width m (td.type i) (td.field_metadata i) (drop s.value ev.rows_buf)
        ≤ length (drop s.value ev.rows_buf)

  check-Safe :
      (is_null : Bool) (i : ℕ) (s : Scan)
      → s.value ≤ length ev.rows_buf
      → (is_null ≡ false → td.calc_field_size i (drop s.value ev.rows_buf) ≢ none)
      → Safe (λ u. Checked is_null i s) (check_size m heap ev td bitmap image info is_null i s)
  unfolding check_size
  check-Safe true i s h found = λ e. absurd (let no : true ≡ false = e in cc)
  check-Safe false i s h found = with_size (td.calc_field_size i (drop s.value ev.rows_buf)) refl
    where
      with_size :
          (o : Option ℕ)
          → td.calc_field_size i (drop s.value ev.rows_buf) ≡ o
          → Safe (λ u. Checked false i s) (check_size m heap ev td bitmap image info false i s)
      with_size none e = absurd (found refl e)
      with_size (some n) e = rw e (elim (Bool-cases (ltb (bytes_left ev.rows_buf s.value) n)) [
        | inl a ↦ rw a tt
        | inr a ↦ rw a (λ z. omega (
          arith,
          ltb-false→le (bytes_left ev.rows_buf s.value) n a,
          measures i (drop s.value ev.rows_buf) n e,
          length-drop s.value ev.rows_buf,
          h,
          small,
        ))
      ])

  value-Safe :
      (is_null : Bool) (i : ℕ) (s : Scan) (cell : Value) (col : ColInfo)
      → s.value ≤ length ev.rows_buf
      → Checked is_null i s
      → Safe
          (λ r. (if is_null then s.value else s.value + r.0) ≤ length ev.rows_buf)
          (log_event_get_value_2 m
            (heap s.x.clock)
            (if is_null then none else some (drop s.value ev.rows_buf))
            (td.type i)
            (td.field_metadata i)
            false
            cell
            col
            s.x.display_blobs)
  value-Safe true i s cell col h checked =
      Safe-weaken (λ r. (r.0 ≡ 0) × Unit {0}) (λ r. s.value ≤ length ev.rows_buf) _
        (log_event_get_value_2-Null m (heap s.x.clock) (td.type i) (td.field_metadata i) false cell
          col s.x.display_blobs)
        (λ r k. h)
  value-Safe false i s cell col h checked =
      let q = drop s.value ev.rows_buf in
      let long : length q + s.value ≡ length ev.rows_buf =
        omega (arith, length-drop s.value ev.rows_buf, h) in
      let w = column_width m (td.type i) (td.field_metadata i) q in
      Safe-weaken (λ r. r.0 ≡ w) (λ r. s.value + r.0 ≤ length ev.rows_buf) _
        (log_event_get_value_2-Takes m laws (heap s.x.clock) q cell (td.type i)
          (td.field_metadata i) col s.x.display_blobs (checked refl) (omega (arith, long, small)))
        (λ r k. omega (arith, k, checked refl, long))

  present-Safe :
      (nulls base n i : ℕ) (s : Scan)
      → bitmap.is_set i ≡ true
      → i < length info
      → Reads nulls base (suc n) i s
      → (reader_bit m heap ev td bitmap image info nulls s.null_count ≡ ok false
          → td.calc_field_size i (drop s.value ev.rows_buf) ≢ none)
      → Safe
          (Reads nulls base n (i + 1))
          (present_column m heap ev td bitmap image info nulls base false i s)
  unfolding present_column
  present-Safe nulls base n i s present known reads found =
      let counted : set_count bitmap (suc n) i ≡ suc (set_count bitmap n (i + 1)) =
        rw present refl in
      let next = Reads nulls base n (i + 1) in
      Safe-known (λ b. Unit {0}) next (reader_bit m heap ev td bitmap image info nulls s.null_count)
        _ (bit-Safe nulls s.null_count (omega (arith, reads.0, counted)))
        (λ is_null bit u.
          Safe-bind (λ c. Checked is_null i s) next
            (check_size m heap ev td bitmap image info is_null i s) _
            (check-Safe is_null i s reads.2 (λ e. found (bit ∙ ap ok e)))
            (λ c checked.
              Safe-bind (λ v. Unit {0}) next
                (or_fault (get_elem? (image_cells image s.x) (base + i))) _
                (or_fault-Safe (image_cells image s.x) (base + i) (omega (arith, reads.1)))
                (λ cell u.
                  Safe-bind (λ v. Unit {0}) next (or_fault (get_elem? info i)) _
                    (or_fault-Safe info i known)
                    (λ col u.
                      Safe-bind
                        (λ r. (if is_null then s.value else s.value + r.0) ≤ length ev.rows_buf)
                        next
                        (log_event_get_value_2 m (heap s.x.clock)
                          (if is_null then none else some (drop s.value ev.rows_buf)) (td.type i)
                          (td.field_metadata i) false (record cell { len = pos 0 }) col
                          s.x.display_blobs)
                        _ (value-Safe is_null i s (record cell { len = pos 0 }) col reads.2 checked)
                        (λ r k. (
                          omega (arith, reads.0, counted),
                          subst (λ l. base + (i + 1 + n) ≤ l)
                              (sym (
                                ap length (
                                  set_cells_lem image (set (image_cells image s.x) (base + i) r.1)
                                    s.x)
                                ∙ length-set (image_cells image s.x) (base + i) r.1))
                              (omega (arith, reads.1)),
                          k,
                        ))))))

  one_present :
      (partials nulls base i : ℕ) (s t : Scan)
      → bitmap.is_set i ≡ true
      → present_column m heap ev td bitmap image info nulls base false i s ≡ ok t
      → one_column m heap ev td bitmap image info false partials nulls base i s ≡ ok t
  unfolding one_column read_partial
  one_present partials nulls base i s t a e = rw a e

  one_absent :
      (partials nulls base i : ℕ) (s : Scan)
      → bitmap.is_set i ≡ false
      → one_column m heap ev td bitmap image info false partials nulls base i s ≡ ok s
  unfolding one_column read_partial
  one_absent partials nulls base i s a = rw a refl

  module _ (partials nulls base : ℕ) (s0 : Scan)
      (lengths : HasLengths m heap ev td bitmap image info partials nulls base s0) where
    Comes-on :
        (i : ℕ) (s t : Scan)
        → Comes m heap ev td bitmap image info partials nulls base s0 i s
        → one_column m heap ev td bitmap image info false partials nulls base i s ≡ ok t
        → Comes m heap ev td bitmap image info partials nulls base s0 (i + 1) t
    Comes-on i s t come one =
        subst (λ k. Comes m heap ev td bitmap image info partials nulls base s0 k t)
          (let e : suc i ≡ i + 1 = omega arith in e)
          (columns-then m heap ev td bitmap image info partials nulls base s0 i 0 i s0 s t come
            (omega arith) one)

    pub columns-Safe :
        (n i : ℕ) (s : Scan)
        → Comes m heap ev td bitmap image info partials nulls base s0 i s
        → i + n ≤ length info
        → Reads nulls base n i s
        → Safe
            (λ t. t.value ≤ length ev.rows_buf)
            (columns m heap ev td bitmap image info false partials nulls base n i s)
    unfolding columns one_column read_partial
    columns-Safe zero i s come known reads = reads.2
    columns-Safe (suc n) i s come known reads = elim (Bool-cases (bitmap.is_set i)) [
      | inl a ↦ rw a (
          Safe-known (Reads nulls base n (i + 1)) (λ t. t.value ≤ length ev.rows_buf)
            (present_column m heap ev td bitmap image info nulls base false i s) _
            (present-Safe nulls base n i s a (omega arith) reads (lengths i s come a))
            (λ t e r.
              columns-Safe n (i + 1) t
                (Comes-on i s t come (one_present partials nulls base i s t a e)) (omega arith) r))
      | inr a ↦ rw a (
          columns-Safe n (i + 1) s (Comes-on i s s come (one_absent partials nulls base i s a))
            (omega arith) (rw a at reads.0, omega (arith, reads.1), reads.2))
    ]
