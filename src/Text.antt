-- ===== src/Text.antt =====
-- The texts that `snprintf` of the C library writes for the formats of
-- rows_log_event_2/rows_log_event_2.cc: %u, %llu, %d, %lld, %02d, %04d and %02x.
pub mod Decimal
pub mod Width
use mysql_replication_c.Base.{
  ℕ, zero, suc, ◌+◌, ◌-◌, ◌*◌, ◌/◌, ◌%◌, List, [], ◌∷◌, ◌++◌, ltb, ◌==◌, if◌then◌else◌, length,
  replicate,
}
use mysql_replication_c.Base.Int.{ℤ, pos, negsuc}

abbrev pub Bytes : Type 0
Bytes = List ℕ

-- The digits of `n` before `out`; each round divides by ten, so fuel `n` is enough.
unfoldable pub digits : ℕ → ℕ → Bytes → Bytes
digits zero n out = out
digits (suc f) n out =
    let rest = digits f (n / 10) ((b'0' + n % 10) ∷ out) in if n == 0 then out else rest

-- %u and %llu
unfoldable pub unsigned_text : ℕ → Bytes
unfolding digits
unsigned_text n = if n == 0 then b'0' ∷ [] else digits n n []

-- %d and %lld
unfoldable pub int_text : ℤ → Bytes
unfolding unsigned_text
int_text (pos n) = unsigned_text n
int_text (negsuc n) = b'-' ∷ unsigned_text (suc n)

-- %0wd of a number that is not negative
unfoldable pub padded_text : ℕ → ℕ → Bytes
unfolding unsigned_text
padded_text w n = let t = unsigned_text n in replicate (w - length t) b'0' ++ t

-- %0wd: a minus sign counts for the width
unfoldable pub padded_int_text : ℕ → ℤ → Bytes
unfolding padded_text
padded_int_text w (pos n) = padded_text w n
padded_int_text w (negsuc n) = b'-' ∷ padded_text (w - 1) (suc n)

-- A digit of %x
unfoldable pub hex_digit : ℕ → ℕ
hex_digit d = if ltb d 10 then b'0' + d else b'a' + d - 10

-- %02x of a byte
unfoldable pub hex_text : ℕ → Bytes
unfolding hex_digit
hex_text c = hex_digit (c / 16) ∷ hex_digit (c % 16) ∷ []
