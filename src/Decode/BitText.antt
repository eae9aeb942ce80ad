-- ===== src/Decode/BitText.antt =====
-- What is shown of a BIT column (my_b_write_bit_2 in rows_log_event_2/rows_log_event_2.cc).
use mysql_replication_c.Base.{
  ℕ, zero, suc, ◌+◌, ◌-◌, ◌*◌, ◌/◌, ◌%◌, ◌^◌, ◌≤◌, ◌<◌, ◌≡◌, refl, ap, ◌∙◌, subst, [], ◌∷◌, ◌++◌,
  some, some_case, length, get_elem?, append-nil, append_assoc, All-append, length-append, arith,
  take, true, Bool,
}
use mysql_replication_c.Base.Outcome.{ok, fault, ◌>>=◌}
use mysql_replication_c.Text.{Bytes}
use mysql_replication_c.Text.Width.{NonNul}
use mysql_replication_c.Block.{Block, Malloc, c_str, snprintf, strlen}
use mysql_replication_c.Block.Strlen.{snprintf_start}
use mysql_replication_c.Block.Steps.{
  fresh, text_block, alloc-eq-ok, c_str_text, strlen_text, snprintf_append,
}
use mysql_replication_c.Row.{Message}
use mysql_replication_c.Mysql.{Mysql, AllBytes}
use mysql_replication_c.Base.Int.{i32, i32-pos, pos}
use mysql_replication_c.Row.{bit, Value, ColInfo, DisplayBlobs, no_memory_for_value}
use mysql_replication_c.Decode.Strings.{get_bit}
use mysql_replication_c.Decode.Result.{set_text}
use mysql_replication_c.Decode.{log_event_get_value_2, get_value, real_type}
use mysql_replication_c.Decode.Bits.{bit_digit, write_bits, my_b_write_bit_2}
use mysql_replication_c.Decode.BitDigits.{
  bits_from, byte_at, byte_at-eq-some, digit_NonNul, bits_from-NonNul, length-bits_from,
  read_binary, read_bit_text, big_endian, read_last, read_bytes,
}

-- The loop appends its digits.
write_bits_lem :
    (n k size : ℕ) (p s : Bytes)
    → NonNul s
    → k + n ≤ 8 * length p
    → length s + n < size
    → write_bits n k p (text_block size s) ≡ ok (text_block size (s ++ bits_from n k p))
unfolding write_bits bits_from
write_bits_lem zero k size p s h f room = rw append-nil refl
write_bits_lem (suc n) k size p s h f room =
    let digit = bit_digit (byte_at p (k / 8)) k in
    let inside : k / 8 < length p = omega (arith, f) in
    let ih : write_bits n (k + 1) p (text_block size (s ++ digit ∷ []))
        ≡ ok (text_block size (s ++ digit ∷ bits_from n (k + 1) p)) =
      subst
        (λ t. write_bits n (k + 1) p (text_block size (s ++ digit ∷ [])) ≡ ok (text_block size t))
        (append_assoc s (digit ∷ []) (bits_from n (k + 1) p))
        (write_bits_lem n (k + 1) size p (s ++ digit ∷ [])
          (All-append _ s (digit ∷ []) h (digit_NonNul (byte_at p (k / 8)) k, tt))
          (omega (arith, f)) (omega (arith, room, length-append s (digit ∷ [])))) in
    some_case fault
      (λ c. do
        b' ← snprintf (text_block size s) (strlen (text_block size s).bytes) 2 (bit_digit c k ∷ [])
        write_bits n (k + 1) p b')
      (get_elem? p (k / 8)) (byte_at p (k / 8)) (byte_at-eq-some p (k / 8) inside)
    ∙ rw (snprintf_append {E = Message} size 2 s (digit ∷ []) h (omega arith) (omega (arith, room)))
        ih

pub my_b_write_bit_lem :
    (nbits size : ℕ) (p : Bytes)
    → (nbits + 7) / 8 ≤ length p
    → nbits + 2 ≤ size
    → my_b_write_bit_2 p nbits (fresh size)
      ≡ ok (text_block size (b'b' ∷ bits_from nbits ((nbits + 7) / 8 * 8 - nbits) p))
unfolding my_b_write_bit_2
my_b_write_bit_lem nbits size p inside room =
    let skip = (nbits + 7) / 8 * 8 - nbits in
    let rounds : (nbits + 7) / 8 * 8 - skip ≡ nbits = omega arith in
    rw (rounds, snprintf_start {E = Message} size 2 (b'b' ∷ []) (omega arith) (omega (arith, room)))
      (write_bits_lem nbits skip size p (b'b' ∷ []) (omega arith, tt) (omega (arith, inside))
        (omega (arith, room)))

module _ (m : Mysql) (malloc : Malloc) (granted : (n : ℕ) → malloc n ≡ true) where
  bit_value :
      (j n meta c : ℕ) (p : Bytes) (is_partial : Bool) (v : Value) (info : ColInfo)
      (d : DisplayBlobs)
      → 0 < j
      → j ≤ 8
      → n ≤ length p
      → meta / 256 * 8 + meta % 256 ≡ j + 8 * n
      → log_event_get_value_2 m malloc (some (c ∷ p)) bit meta is_partial v info d
        ≡ ok (
          n + 1,
          set_text v (text_block (j + 8 * n + 4) (b'b' ∷ bits_from (j + 8 * n) (8 - j) (c ∷ p))),
        )
  unfolding log_event_get_value_2 real_type get_value get_bit
  bit_value j n meta c p is_partial v info d h f inside e =
      let taken : (j + 8 * n + 7) / 8 ≡ n + 1 = omega (arith, h, f) in
      let unused : (n + 1) * 8 - (j + 8 * n) ≡ 8 - j = omega (arith, h, f) in
      rw
        (
          e,
          alloc-eq-ok malloc (j + 8 * n + 4) (no_memory_for_value bit) (granted _),
          my_b_write_bit_lem (j + 8 * n) (j + 8 * n + 4) (c ∷ p) (omega (arith, h, f, inside))
              (omega arith),
          taken,
          unused,
        )
        refl

  -- A BIT column of j + 8 * n bits, where j is one to eight and `c` and the `n` bytes behind it are in
  -- the event, with every block granted: the call takes n + 1 bytes, `val` is a C string of `len`
  -- characters, the letter `b` and one digit for each bit, and the digits are read back as the number
  -- that the bytes hold, the highest first, less the 8 - j unused bits of `c`.
  pub bit_text_roundtrip :
      (j n meta c : ℕ) (p : Bytes) (is_partial : Bool) (v : Value) (info : ColInfo)
      (d : DisplayBlobs)
      → 0 < j
      → j ≤ 8
      → n ≤ length p
      → AllBytes p
      → meta < 65536
      → meta / 256 * 8 + meta % 256 ≡ j + 8 * n
      → (b : Block) × (log_event_get_value_2 m malloc (some (c ∷ p)) bit meta is_partial v info d
          ≡ ok (n + 1, record v { val = some b; len = pos (j + 8 * n + 1) }))
        × (strlen b.bytes ≡ j + 8 * n + 1)
        × (take 1 (c_str b.bytes) ≡ b'b' ∷ [])
        × (read_bit_text (c_str b.bytes) ≡ big_endian (c % 2 ^ j) (take n p))
  bit_text_roundtrip j n meta c p is_partial v info d h f inside bytes two e =
      let text = b'b' ∷ bits_from (j + 8 * n) (8 - j) (c ∷ p) in
      let nul : NonNul text = (omega arith, bits_from-NonNul (j + 8 * n) (8 - j) (c ∷ p)) in
      let long : strlen (text_block (j + 8 * n + 4) text).bytes ≡ j + 8 * n + 1 =
        strlen_text text nul ∙ omega (arith, length-bits_from (j + 8 * n) (8 - j) (c ∷ p)) in
      let shown = c_str_text text nul in
      (
        text_block (j + 8 * n + 4) text,
        bit_value j n meta c p is_partial v info d h f inside e
            ∙ ap
                (λ l.
                  ok (n + 1, record v { val = some (text_block (j + 8 * n + 4) text); len = l }))
                (ap i32 long ∙ i32-pos (j + 8 * n + 1) (omega (arith, two, e))),
        long,
        ap (take 1) shown,
        ap read_bit_text shown
            ∙ read_last j 0 (8 * n) c p f
            ∙ ap (λ x. read_binary x (bits_from (8 * n) 0 p)) (omega arith)
            ∙ read_bytes n (c % 2 ^ j) p inside bytes,
      )
