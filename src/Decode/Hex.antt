-- ===== src/Decode/Hex.antt =====
-- The text of sprint_as_hex (rows_log_event_2/rows_log_event_2.cc), and a reader of it.
use mysql_replication_c.Base.{
  ℕ, zero, suc, ◌+◌, ◌-◌, ◌*◌, ◌/◌, ◌%◌, ◌≤◌, ◌<◌, ◌≡◌, refl, [], ◌∷◌, ◌++◌, ltb, if◌then◌else◌,
  length, take, arith, append-nil, append_assoc, All-append, length-append,
}
use mysql_replication_c.Text.{Bytes, hex_digit, hex_text}
use mysql_replication_c.Text.Width.{NonNul}
use mysql_replication_c.Base.Outcome.{ok}
use mysql_replication_c.Block.Strlen.{snprintf_start}
use mysql_replication_c.Block.Steps.{fresh, text_block, snprintf_append}
use mysql_replication_c.Mysql.{AllBytes}
use mysql_replication_c.Decode.Bits.{write_hex, sprint_as_hex}

-- Two digits for each byte.
unfoldable pub hex_texts : Bytes → Bytes
hex_texts [] = []
hex_texts (c ∷ p) = hex_digit (c / 16) ∷ hex_digit (c % 16) ∷ hex_texts p

unfoldable pub digit_value : ℕ → ℕ
digit_value c = if ltb c b'a' then c - b'0' else c - b'a' + 10

-- The bytes that pairs of hexadecimal digits stand for.
unfoldable pub read_hex : Bytes → Bytes
unfolding digit_value
read_hex [] = []
read_hex (a ∷ []) = []
read_hex (a ∷ b ∷ s) = (16 * digit_value a + digit_value b) ∷ read_hex s

digit_value-hex_digit : (d : ℕ) → d < 16 → digit_value (hex_digit d) ≡ d
unfolding digit_value hex_digit
digit_value-hex_digit d h = ground arith

pub read_hex-hex_texts : (p : Bytes) → AllBytes p → read_hex (hex_texts p) ≡ p
unfolding read_hex hex_texts
read_hex-hex_texts [] h = refl
read_hex-hex_texts (c ∷ p) h =
    rw
      (
        digit_value-hex_digit (c / 16) (omega (arith, h.0)),
        digit_value-hex_digit (c % 16) (omega arith),
        read_hex-hex_texts p h.1,
      )
      (let e : 16 * (c / 16) + c % 16 ≡ c = omega arith in rw e)

hex_digit_pos : (d : ℕ) → 0 < hex_digit d
unfolding hex_digit
hex_digit_pos d = ground arith

pub hex_texts-NonNul : (p : Bytes) → NonNul (hex_texts p)
unfolding hex_texts
hex_texts-NonNul [] = tt
hex_texts-NonNul (c ∷ p) = (hex_digit_pos (c / 16), (hex_digit_pos (c % 16), hex_texts-NonNul p))

pub length-hex_texts : (p : Bytes) → length (hex_texts p) ≡ 2 * length p
unfolding hex_texts
length-hex_texts [] = refl
length-hex_texts (c ∷ p) = omega (arith, length-hex_texts p)

hex_text-NonNul : (c : ℕ) → NonNul (hex_text c)
unfolding hex_text
hex_text-NonNul c = (hex_digit_pos (c / 16), (hex_digit_pos (c % 16), tt))

-- The loop appends the digits of the bytes that it reads.
pub write_hex_lem :
    (n cap : ℕ) (p s : Bytes)
    → NonNul s
    → n ≤ length p
    → length s + 2 * n < cap
    → write_hex n p (text_block cap s) ≡ ok (text_block cap (s ++ hex_texts (take n p)))
unfolding write_hex hex_texts
write_hex_lem zero cap p s h f room = rw append-nil
write_hex_lem (suc n) cap [] s h f room = absurd (omega arith)
write_hex_lem (suc n) cap (c ∷ p) s h f room =
    let step : length (hex_text c) ≡ 2 = unfold hex_text in refl in
    rw
      (
        snprintf_append cap 3 s (hex_text c) h (omega arith) (omega arith),
        write_hex_lem n cap p (s ++ hex_text c) (All-append _ s (hex_text c) h (hex_text-NonNul c))
            (omega arith) (omega (arith, length-append s (hex_text c))),
      )
      (unfold hex_text in simp append_assoc)

-- sprint_as_hex on a fresh block with room for it
pub sprint_as_hex_lem :
    (n cap : ℕ) (p : Bytes)
    → n ≤ length p
    → 2 * n + 2 < cap
    → sprint_as_hex (fresh cap) p n ≡ ok (text_block cap (b'0' ∷ b'x' ∷ hex_texts (take n p)))
unfolding sprint_as_hex
sprint_as_hex_lem n cap p f room = rw (
  snprintf_start cap 3 (b'0' ∷ b'x' ∷ []) (omega arith) (omega arith),
  write_hex_lem n cap p (b'0' ∷ b'x' ∷ []) (omega arith) f (omega arith),
)
