-- ===== src/Decode/TextSteps.antt =====
-- What the steps of log_event_get_value_2 (rows_log_event_2/rows_log_event_2.cc) leave in the block of
-- a value: a C string.
use mysql_replication_c.Base.{
  ℕ, zero, suc, ◌+◌, ◌/◌, [], ◌∷◌, Option, none, some, get_elem?, length,
}
use mysql_replication_c.Base.Outcome.{Outcome, ok, fault, Holds, Holds-bind, Holds-after, ◌>>=◌}
use mysql_replication_c.Text.{Bytes}
use mysql_replication_c.Block.{Block, Malloc, alloc, snprintf, strlen, c_str}
use mysql_replication_c.Row.{ColumnType, Value, Message, no_memory_for_value}
use mysql_replication_c.Decode.Result.{Decoded, set_text, print_value, copy_value}
use mysql_replication_c.Decode.Bits.{
  bit_digit, write_bits, my_b_write_bit_2, print_chars, write_hex, sprint_as_hex,
}
use mysql_replication_c.Decode.Ending.{HasNul, snprintf-HasNul}

-- A null value, or a block with a C string.
abbrev pub IsEnding : Option Block → Type 0
IsEnding none = Unit {0}
IsEnding (some b) = HasNul b.bytes

abbrev pub IsText : Value → Type 0
IsText v = IsEnding v.val

abbrev pub Gives : Decoded → Type 0
Gives = Holds (λ r. IsText r.1)

abbrev pub Ends : Outcome Message Block → Type 0
Ends = Holds (λ b. HasNul b.bytes)

pub write_bits-Ends :
    (n bitnum : ℕ) (p : Bytes) (b : Block) → HasNul b.bytes → Ends (write_bits n bitnum p b)
unfolding write_bits
write_bits-Ends zero bitnum p b h = h
write_bits-Ends (suc n) bitnum p b h =
    with_byte (get_elem? p (bitnum / 8)) (λ b' k. write_bits-Ends n (bitnum + 1) p b' k)
  where
    with_byte :
        (c : Option ℕ)
        → ((b' : Block) → HasNul b'.bytes → Ends (write_bits n (bitnum + 1) p b'))
        → Ends (elim c as (λ x. Outcome Message Block) [
          | none ↦ fault
          | some c ↦
              (snprintf b (strlen b.bytes) 2 (bit_digit c bitnum ∷ []) >>= λ b'.
              write_bits n (bitnum + 1) p b')
        ])
    with_byte none rest = tt
    with_byte (some c) rest =
        Holds-bind (λ b'. HasNul b'.bytes) _
          (snprintf b (strlen b.bytes) 2 (bit_digit c bitnum ∷ [])) _ (snprintf-HasNul b _ 2 _) rest

pub my_b_write_bit_2-Ends : (p : Bytes) (nbits : ℕ) (b : Block) → Ends (my_b_write_bit_2 p nbits b)
unfolding my_b_write_bit_2
my_b_write_bit_2-Ends p nbits b =
    Holds-bind (λ b'. HasNul b'.bytes) _ (snprintf b 0 2 (b'b' ∷ [])) _ (snprintf-HasNul b 0 2 _)
      (λ b' h. write_bits-Ends _ _ p b' h)

pub print_chars-Ends : (n : ℕ) (p : Bytes) (b : Block) → HasNul b.bytes → Ends (print_chars n p b)
unfolding print_chars
print_chars-Ends zero p b h = h
print_chars-Ends (suc n) [] b h = tt
print_chars-Ends (suc n) (c ∷ p) b h =
    Holds-bind (λ b'. HasNul b'.bytes) _ (snprintf b (strlen b.bytes) 2 (c ∷ [])) _
      (snprintf-HasNul b _ 2 _) (λ b' k. print_chars-Ends n p b' k)

pub write_hex-Ends : (n : ℕ) (p : Bytes) (b : Block) → HasNul b.bytes → Ends (write_hex n p b)
unfolding write_hex
write_hex-Ends zero p b h = h
write_hex-Ends (suc n) [] b h = tt
write_hex-Ends (suc n) (c ∷ p) b h =
    Holds-bind (λ b'. HasNul b'.bytes) _ (snprintf b (strlen b.bytes) 3 _) _
      (snprintf-HasNul b _ 3 _) (λ b' k. write_hex-Ends n p b' k)

pub sprint_as_hex-Ends : (b : Block) (p : Bytes) (n : ℕ) → Ends (sprint_as_hex b p n)
unfolding sprint_as_hex
sprint_as_hex-Ends b p n =
    Holds-bind (λ b'. HasNul b'.bytes) _ (snprintf b 0 3 _) _ (snprintf-HasNul b 0 3 _)
      (λ b' h. write_hex-Ends n p b' h)

pub print_value-IsText :
    (malloc : Malloc) (type : ColumnType) (n : ℕ) (text : Bytes) (v : Value)
    → Holds IsText (print_value malloc type n text v)
unfolding print_value
print_value-IsText malloc type n text v =
    Holds-after IsText (alloc malloc n (no_memory_for_value type)) _ (λ b.
      Holds-bind (λ b'. HasNul b'.bytes) IsText (snprintf b 0 n text) _ (snprintf-HasNul b 0 n text)
        (λ b' h. h))

pub print-Gives :
    (malloc : Malloc) (type : ColumnType) (n k : ℕ) (text : Bytes) (v : Value)
    → Gives (print_value malloc type n text v >>= λ w. ok (k, w))
print-Gives malloc type n k text v =
    Holds-bind IsText (λ r. IsText r.1) (print_value malloc type n text v) _
      (print_value-IsText malloc type n text v) (λ w h. h)

pub copy-Gives :
    (malloc : Malloc) (type : ColumnType) (k : ℕ) (buff : Bytes) (v : Value)
    → Gives (copy_value malloc type buff v >>= λ w. ok (k, w))
unfolding copy_value
copy-Gives malloc type k buff v = print-Gives malloc type (length (c_str buff) + 1) k (c_str buff) v

pub set_text-Gives :
    (k : ℕ) (v : Value) (o : Outcome Message Block)
    → Ends o
    → Gives (o >>= λ b. ok (k, set_text v b))
set_text-Gives k v o h = Holds-bind (λ b. HasNul b.bytes) (λ r. IsText r.1) o _ h (λ b k. k)

-- What the code does before it writes the text.
pub skip :
    {A : Type 0} (o : Outcome Message A) (next : A → Decoded)
    → ((a : A) → Gives (next a))
    → Gives (o >>= next)
skip o next h = Holds-after (λ r. IsText r.1) o next h
