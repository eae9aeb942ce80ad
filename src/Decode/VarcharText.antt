-- ===== src/Decode/VarcharText.antt =====
-- What is shown of a VARCHAR column (rows_log_event_2/rows_log_event_2.cc).
use mysql_replication_c.Base.{
  ℕ, ◌+◌, ◌-◌, ◌*◌, ◌^◌, ◌≤◌, ◌<◌, ◌≡◌, ap, [], ◌∷◌, ◌++◌, Bool, true, false, some, if◌then◌else◌,
  ltb, length, take, drop, arith, length-take, length-drop, ◌∙◌, Bool-cases, inl, inr,
}
use mysql_replication_c.Base.Int.{pos, i32-pos}
use mysql_replication_c.Base.Outcome.{ok}
use mysql_replication_c.Text.{Bytes}
use mysql_replication_c.Text.Width.{NonNul}
use mysql_replication_c.Block.{Block, Malloc, deref, strlen, c_str}
use mysql_replication_c.Block.Strlen.{strlen-append, c_str-append}
use mysql_replication_c.Block.Steps.{alloc-eq-ok, load-eq-ok, memset_fresh}
use mysql_replication_c.Row.{varchar, Value, ColInfo, DisplayBlobs, Message}
use mysql_replication_c.Mysql.{Mysql, Laws, little_endian}
use mysql_replication_c.Decode.Bits.{advance, my_b_print_with_length_2}
use mysql_replication_c.Decode.BlobText.{advance-eq-ok}
use mysql_replication_c.Decode.Strings.{read_real_len, print_string, get_varchar}
use mysql_replication_c.Decode.{log_event_get_value_2, get_value, real_type}
use mysql_replication_c.Decode.PrintChars.{
  nonnul, nonnul-NonNul, nonnul_id, zero_block, print_chars_lem, first_nul, zeros_suc,
  length-nonnul-lt,
}

-- The bytes of the length that stands before the characters, the length, and the characters.
abbrev pub prefix_size : ℕ → ℕ
prefix_size meta = if ltb meta 256 then 1 else 2

abbrev pub char_count : ℕ → Bytes → ℕ
char_count meta p = little_endian (take (prefix_size meta) p)

abbrev pub characters : ℕ → Bytes → Bytes
characters meta p = take (char_count meta p) (drop (prefix_size meta) p)

module _ (m : Mysql) (laws : Laws m) (malloc : Malloc) (granted : (n : ℕ) → malloc n ≡ true) where
  get_varchar_short :
      (meta c : ℕ) (q : Bytes) (v : Value)
      → ltb meta 256 ≡ true
      → c ≤ length q
      → c + 16 < 2 ^ 31
      → get_varchar m malloc (some (c ∷ q)) meta v
        ≡ ok (
          c + 1,
          record v {
            val =
                some
                  (zero_block (c + 16) (nonnul (take c q)) (c + 15 - length (nonnul (take c q))));
            len = pos c;
          },
        )
  unfolding get_varchar print_string read_real_len my_b_print_with_length_2 deref advance
  get_varchar_short meta c q v short h small = rw (
    short,
    alloc-eq-ok malloc (c + 16) _ (granted _),
    memset_fresh {E = Message} (c + 16),
    zeros_suc (c + 16) (c + 15) (omega arith),
    first_nul (c + 16) (c + 15) (omega arith),
    print_chars_lem c (c + 16) (c + 15) q [] tt h (omega arith) (omega arith),
    i32-pos c (omega arith),
  )

  get_varchar_long :
      (meta : ℕ) (p : Bytes) (v : Value)
      → ltb meta 256 ≡ false
      → 2 ≤ length p
      → little_endian (take 2 p) ≤ length (drop 2 p)
      → little_endian (take 2 p) + 16 < 2 ^ 31
      → let n = little_endian (take 2 p) in
        let shown = nonnul (take n (drop 2 p)) in
        get_varchar m malloc (some p) meta v
        ≡ ok (
          n + 2,
          record v { val = some (zero_block (n + 16) shown (n + 15 - length shown)); len = pos n },
        )
  unfolding get_varchar print_string read_real_len my_b_print_with_length_2
  get_varchar_long meta p v long two h small =
      let n = little_endian (take 2 p) in
      rw (
        long,
        load-eq-ok 2 p two,
        laws.uint2_lem (take 2 p) (omega (arith, length-take 2 p)),
        alloc-eq-ok malloc (n + 16) _ (granted _),
        memset_fresh {E = Message} (n + 16),
        zeros_suc (n + 16) (n + 15) (omega arith),
        first_nul (n + 16) (n + 15) (omega arith),
        advance-eq-ok 2 p two,
        print_chars_lem n (n + 16) (n + 15) (drop 2 p) [] tt h (omega arith) (omega arith),
        i32-pos n (omega arith),
      )

  pub get_varchar_lem :
      (meta : ℕ) (p : Bytes) (v : Value)
      → prefix_size meta + char_count meta p ≤ length p
      → length p + 16 < 2 ^ 31
      → get_varchar m malloc (some p) meta v
        ≡ ok (
          char_count meta p + prefix_size meta,
          record v {
            val = some (
                zero_block
                  (char_count meta p + 16)
                  (nonnul (characters meta p))
                  (char_count meta p + 15 - length (nonnul (characters meta p))));
            len = pos (char_count meta p);
          },
        )
  get_varchar_lem meta p v whole small = elim (Bool-cases (ltb meta 256)) [
    | inl short ↦ rw short (one_byte meta p v short (rw short at whole) small)
    | inr long ↦ rw long (
        get_varchar_long meta p v long (omega (arith, rw long at whole))
          (omega (arith, rw long at whole, length-drop 2 p)) (omega (arith, rw long at whole)))
  ]
    where
      one_byte :
          (meta : ℕ) (p : Bytes) (v : Value)
          → ltb meta 256 ≡ true
          → 1 + little_endian (take 1 p) ≤ length p
          → length p + 16 < 2 ^ 31
          → let n = little_endian (take 1 p) in
            let shown = nonnul (take n (drop 1 p)) in
            get_varchar m malloc (some p) meta v
            ≡ ok (
              n + 1,
              record v {
                val = some (zero_block (n + 16) shown (n + 15 - length shown));
                len = pos n;
              },
            )
      one_byte meta [] v short whole small = absurd (omega arith)
      one_byte meta (c ∷ q) v short whole small =
          let e : c + 256 * 0 ≡ c = omega arith in
          rw e (get_varchar_short meta c q v short (omega arith) (omega arith))

module _ (m : Mysql) (laws : Laws m) (malloc : Malloc) (granted : (n : ℕ) → malloc n ≡ true)
    (meta : ℕ) (p : Bytes) (is_partial : Bool) (v : Value) (info : ColInfo) (d : DisplayBlobs)
    (whole : prefix_size meta + char_count meta p ≤ length p) (small : length p + 16 < 2 ^ 31) where
  -- A VARCHAR column whose length, of one byte below 256 and of two from there on, and characters are
  -- in the event, with every block granted: the call takes the length and the characters, `len` is
  -- their number, and `val` holds as a C string the characters other than NUL.
  pub varchar_text :
      (b : Block) × (log_event_get_value_2 m malloc (some p) varchar meta is_partial v info d
        ≡ ok (
          char_count meta p + prefix_size meta,
          record v { val = some b; len = pos (char_count meta p) },
        ))
      × (c_str b.bytes ≡ nonnul (characters meta p))
      × (strlen b.bytes ≡ length (nonnul (characters meta p)))
  unfolding log_event_get_value_2 real_type get_value
  varchar_text = (
    zero_block (char_count meta p + 16) (nonnul (characters meta p))
        (char_count meta p + 15 - length (nonnul (characters meta p))),
    get_varchar_lem m laws malloc granted meta p v whole small,
    c_str-append (nonnul (characters meta p)) _ (nonnul-NonNul (characters meta p)),
    strlen-append (nonnul (characters meta p)) _ (nonnul-NonNul (characters meta p)),
  )

  length-characters : length (characters meta p) ≡ char_count meta p
  length-characters = omega (
    arith,
    length-take (char_count meta p) (drop (prefix_size meta) p),
    length-drop (prefix_size meta) p,
  )

  -- A VARCHAR column whose length and characters are in the event, none of them NUL, with every block
  -- granted: the C string in `val` is the characters, `len` of them.
  pub varchar_exact :
      NonNul (characters meta p)
      → (b : Block) × (log_event_get_value_2 m malloc (some p) varchar meta is_partial v info d
          ≡ ok (
            char_count meta p + prefix_size meta,
            record v { val = some b; len = pos (strlen b.bytes) },
          ))
        × (c_str b.bytes ≡ characters meta p)
  varchar_exact h =
      let (b, e, text, long) = varchar_text in
      let n : strlen b.bytes ≡ char_count meta p =
        long ∙ (ap length (nonnul_id (characters meta p) h) ∙ length-characters) in
      (b, rw n e, text ∙ nonnul_id (characters meta p) h)

  -- A VARCHAR column whose length and characters are in the event, one of them NUL, with every block
  -- granted: the C string in `val` is shorter than `len`, so that characters are lost.
  pub varchar_nul_lost :
      (a r : Bytes)
      → characters meta p ≡ a ++ 0 ∷ r
      → (b : Block) × (log_event_get_value_2 m malloc (some p) varchar meta is_partial v info d
          ≡ ok (
            char_count meta p + prefix_size meta,
            record v { val = some b; len = pos (char_count meta p) },
          ))
        × (strlen b.bytes < char_count meta p)
  varchar_nul_lost a r e =
      let (b, f, text, long) = varchar_text in
      (
        b,
        f,
        omega (
          arith,
          long,
          length-characters,
          ap length e,
          ap (λ w. length (nonnul w)) e,
          length-nonnul-lt a r,
        ),
      )
