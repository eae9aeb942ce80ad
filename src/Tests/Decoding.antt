-- ===== src/Tests/Decoding.antt =====
-- Column values that are decoded.
use mysql_replication_c.Base.{◌<◌, ◌≡◌, ◌≢◌, refl, false, [], ◌∷◌, some, none, take, arith}
use mysql_replication_c.Base.Int.{pos, negsuc}
use mysql_replication_c.Base.Outcome.{ok}
use mysql_replication_c.Text.{Bytes}
use mysql_replication_c.Text.Decimal.{read_int}
use mysql_replication_c.Block.{Block, strlen, c_str}
use mysql_replication_c.Row.{bit, short, blob, varchar}
use mysql_replication_c.Rows.{blank}
use mysql_replication_c.Mysql.Toy.{toy, toy-Laws}
use mysql_replication_c.Decode.{real_type, log_event_get_value_2}
use mysql_replication_c.Decode.Integers.{integer_roundtrip}
use mysql_replication_c.Decode.BitDigits.{read_bit_text}
use mysql_replication_c.Decode.BitText.{bit_text_roundtrip}
use mysql_replication_c.Decode.Taking.{Takes}
use mysql_replication_c.Decode.Widths.{width, log_event_get_value_2-Takes}
use mysql_replication_c.Decode.PrintChars.{nonnul}
use mysql_replication_c.Decode.Json.{Diff, diff_loop}
use mysql_replication_c.Decode.JsonRounds.{diff_loop-ends}
use mysql_replication_c.Decode.Sizes.{Agree, display_size-Agree}
use mysql_replication_c.Decode.Nulls.{IsNull, log_event_get_value_2-IsNull}
use mysql_replication_c.Decode.VarcharText.{varchar_text, varchar_exact, varchar_nul_lost}
use mysql_replication_c.Tests.{granting, short_column, raw_display, hex_display, no_display}

-- -2 in a SMALLINT, and a byte of the next column
abbrev minus_two : Bytes
minus_two = 254 ∷ 255 ∷ 7 ∷ []

integer_roundtrip_example :
    (b : Block) × (log_event_get_value_2 toy granting
        (some minus_two)
        short
        0
        false
        blank
        short_column
        raw_display
      ≡ ok (2, record blank { val = some b; len = pos (strlen b.bytes) }))
    × (read_int (c_str b.bytes) ≡ negsuc 1)
integer_roundtrip_example =
    integer_roundtrip toy toy-Laws granting short minus_two 0 false blank short_column raw_display
      (omega arith) refl (omega arith) (omega arith, (omega arith, tt))

-- A BLOB with a length of one byte
abbrev two_bytes : Bytes
two_bytes = 2 ∷ 10 ∷ 255 ∷ 9 ∷ []

-- A VARCHAR of two characters, and a byte of the next column
abbrev two_chars : Bytes
two_chars = 2 ∷ b'a' ∷ b'b' ∷ 7 ∷ []

log_event_get_value_2-Takes_example : Takes 3 (
    log_event_get_value_2 toy granting
      (some two_chars)
      varchar
      255
      false
      blank
      short_column
      raw_display)
unfolding width real_type
log_event_get_value_2-Takes_example =
    log_event_get_value_2-Takes toy toy-Laws granting two_chars blank varchar 255 short_column
      raw_display (omega arith) (omega arith)

-- A VARCHAR(40) of "ab", and one of a byte NUL between them
abbrev two_letters : Bytes
two_letters = 2 ∷ b'a' ∷ b'b' ∷ []

abbrev nul_between : Bytes
nul_between = 3 ∷ b'a' ∷ 0 ∷ b'b' ∷ []

varchar_text_example :
    (b : Block) × (log_event_get_value_2 toy granting
        (some nul_between)
        varchar
        40
        false
        blank
        short_column
        raw_display
      ≡ ok (4, record blank { val = some b; len = pos 3 }))
    × (c_str b.bytes ≡ b'a' ∷ b'b' ∷ [])
    × (strlen b.bytes ≡ 2)
unfolding nonnul
varchar_text_example =
    varchar_text toy toy-Laws granting (λ n. refl) 40 nul_between false blank short_column
      raw_display (omega arith) (omega arith)

varchar_exact_example :
    (b : Block) × (log_event_get_value_2 toy granting
        (some two_letters)
        varchar
        40
        false
        blank
        short_column
        raw_display
      ≡ ok (3, record blank { val = some b; len = pos (strlen b.bytes) }))
    × (c_str b.bytes ≡ b'a' ∷ b'b' ∷ [])
varchar_exact_example =
    varchar_exact toy toy-Laws granting (λ n. refl) 40 two_letters false blank short_column
      raw_display (omega arith) (omega arith) (omega arith, (omega arith, tt))

varchar_nul_lost_example :
    (b : Block) × (log_event_get_value_2 toy granting
        (some nul_between)
        varchar
        40
        false
        blank
        short_column
        raw_display
      ≡ ok (4, record blank { val = some b; len = pos 3 }))
    × (strlen b.bytes < 3)
varchar_nul_lost_example =
    varchar_nul_lost toy toy-Laws granting (λ n. refl) 40 nul_between false blank short_column
      raw_display (omega arith) (omega arith) (b'a' ∷ []) (b'b' ∷ []) refl

display_size-Agree_example :
    Agree
      (log_event_get_value_2 toy granting
        (some two_bytes)
        blob
        1
        false
        blank
        short_column
        hex_display)
      (log_event_get_value_2 toy granting
        (some two_bytes)
        blob
        1
        false
        blank
        short_column
        no_display)
display_size-Agree_example =
    display_size-Agree toy granting (some two_bytes) blob 1 false blank short_column hex_display
      no_display

log_event_get_value_2-IsNull_example :
    IsNull (log_event_get_value_2 toy granting none blob 1 false blank short_column hex_display)
log_event_get_value_2-IsNull_example =
    log_event_get_value_2-IsNull toy granting blob 1 false blank short_column hex_display refl

-- A removal of the path "$": the number of the operation, the length of the path, the path.
abbrev removal : Diff
removal = record { p = 2 ∷ 1 ∷ b'$' ∷ []; length_x = 3; buf = [] }

diff_loop-ends_example : diff_loop toy 4 removal ≢ none
diff_loop-ends_example = diff_loop-ends toy 4 removal (omega arith)

-- A BIT(10) column: two bits of the first byte, and the whole second one
abbrev ten_bits : Bytes
ten_bits = 6 ∷ 129 ∷ 7 ∷ []

bit_text_roundtrip_example :
    (b : Block) × (log_event_get_value_2 toy granting
        (some ten_bits)
        bit
        258
        false
        blank
        short_column
        raw_display
      ≡ ok (2, record blank { val = some b; len = pos 11 }))
    × (strlen b.bytes ≡ 11)
    × (take 1 (c_str b.bytes) ≡ b'b' ∷ [])
    × (read_bit_text (c_str b.bytes) ≡ 641)
bit_text_roundtrip_example =
    bit_text_roundtrip toy granting (λ n. refl) 2 1 258 6 (129 ∷ 7 ∷ []) false blank short_column
      raw_display (omega arith) (omega arith) (omega arith) (omega arith, (omega arith, tt))
      (omega arith) refl
