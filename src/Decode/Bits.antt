-- ===== src/Decode/Bits.antt =====
-- my_b_write_bit_2, my_b_print_with_length_2 and sprint_as_hex
-- (rows_log_event_2/rows_log_event_2.cc).
use mysql_replication_c.Base.{
  ℕ, zero, suc, ◌+◌, ◌-◌, ◌*◌, ◌/◌, ◌%◌, ◌^◌, [], ◌∷◌, none, some, ltb, ◌==◌, if◌then◌else◌,
  get_elem?,
}
use mysql_replication_c.Base.Outcome.{Outcome, ok, fault, ◌>>=◌}
use mysql_replication_c.Text.{Bytes, hex_text}
use mysql_replication_c.Block.{Block, load, deref, snprintf, strlen}
use mysql_replication_c.Row.{Message}
use mysql_replication_c.Mysql.{Mysql}

-- ( byte >> ( 7 - k % 8 ) ) & 1 as a digit
unfoldable pub bit_digit : ℕ → ℕ → ℕ
bit_digit c k = if c / 2 ^ (7 - k % 8) % 2 == 0 then b'0' else b'1'

-- The loop over `bitnum`, with `n` rounds left.
unfoldable pub write_bits : ℕ → ℕ → Bytes → Block → Outcome Message Block
write_bits zero bitnum p b = ok b
write_bits (suc n) bitnum p b = elim (get_elem? p (bitnum / 8)) [
  | none ↦ fault
  | some c ↦ do
    b' ← snprintf b (strlen b.bytes) 2 (bit_digit c bitnum ∷ [])
    write_bits n (bitnum + 1) p b'
]

unfoldable pub my_b_write_bit_2 : Bytes → ℕ → Block → Outcome Message Block
my_b_write_bit_2 p nbits b = do
  let nbits8 = (nbits + 7) / 8 * 8
  let skip_bits = nbits8 - nbits
  b' ← snprintf b 0 2 (b'b' ∷ [])
  write_bits (nbits8 - skip_bits) skip_bits p b'

-- The loop that prints `length` characters one by one with "%c" at the end of the string.
unfoldable pub print_chars : ℕ → Bytes → Block → Outcome Message Block
print_chars zero p b = ok b
print_chars (suc n) [] b = fault
print_chars (suc n) (c ∷ p) b = do b' ← snprintf b (strlen b.bytes) 2 (c ∷ []); print_chars n p b'

-- The bytes behind a pointer, from the n-th on; a fault past the end.
unfoldable pub advance : ℕ → Bytes → Outcome Message Bytes
advance zero p = ok p
advance (suc n) [] = fault
advance (suc n) (c ∷ p) = advance n p

unfoldable pub my_b_print_with_length_2 : Mysql → Bytes → ℕ → Block → Outcome Message (ℕ × Block)
my_b_print_with_length_2 m p length b = do
  b' ← snprintf b 0 2 []
  if ltb length 256
      then (do n ← deref p; q ← advance 1 p; b'' ← print_chars n q b'; ok (n + 1, b''))
      else (do
        w ← load 2 p
        let n = m.uint2korr w
        q ← advance 2 p
        b'' ← print_chars n q b'
        ok (n + 2, b''))

-- The loop of sprint_as_hex, with `n` bytes left.
unfoldable pub write_hex : ℕ → Bytes → Block → Outcome Message Block
write_hex zero p b = ok b
write_hex (suc n) [] b = fault
write_hex (suc n) (c ∷ p) b = do b' ← snprintf b (strlen b.bytes) 3 (hex_text c); write_hex n p b'

unfoldable pub sprint_as_hex : Block → Bytes → ℕ → Outcome Message Block
sprint_as_hex b p len = do b' ← snprintf b 0 3 (b'0' ∷ b'x' ∷ []); write_hex len p b'
