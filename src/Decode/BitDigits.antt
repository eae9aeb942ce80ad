-- ===== src/Decode/BitDigits.antt =====
-- The digits of a BIT column (my_b_write_bit_2 in rows_log_event_2/rows_log_event_2.cc), and the
-- number that they read back as.
use mysql_replication_c.Base.{
  ℕ, zero, suc, ◌+◌, ◌-◌, ◌*◌, ◌/◌, ◌%◌, ◌^◌, ◌≤◌, ◌<◌, ◌≡◌, refl, ap, ◌∙◌, [], ◌∷◌, none, some,
  length, get_elem?, arith, take,
}
use native.Mathlib.Nat.{pow-succ', add-mul, mul_assoc}
use mysql_replication_c.Text.{Bytes}
use mysql_replication_c.Text.Width.{NonNul}
use mysql_replication_c.Mysql.{AllBytes}
use mysql_replication_c.Decode.Bits.{bit_digit}

-- The byte at `i`, or 0.
abbrev pub byte_at : Bytes → ℕ → ℕ
byte_at p i = elim (get_elem? p i) [ none ↦ 0 | some c ↦ c ]

-- The digits of `n` bits from bit `k` on.
unfoldable pub bits_from : ℕ → ℕ → Bytes → Bytes
bits_from zero k p = []
bits_from (suc n) k p = bit_digit (byte_at p (k / 8)) k ∷ bits_from n (k + 1) p

-- A text of binary digits, read as a number; `b'0'` is 48.
abbrev pub read_binary : ℕ → Bytes → ℕ
read_binary acc [] = acc
read_binary acc (c ∷ s) = read_binary (acc * 2 + (c - b'0')) s

-- The number that bytes stand for, the highest first.
abbrev pub big_endian : ℕ → Bytes → ℕ
big_endian acc [] = acc
big_endian acc (c ∷ p) = big_endian (acc * 256 + c) p

bit_digit_lem : (c k : ℕ) → bit_digit c k ≡ b'0' + c / 2 ^ (7 - k % 8) % 2
unfolding bit_digit
bit_digit_lem c k = ground arith

-- The next byte.
bits_shift : (n k c : ℕ) (p : Bytes) → bits_from n (k + 8) (c ∷ p) ≡ bits_from n k p
unfolding bits_from bit_digit
bits_shift zero k c p = refl
bits_shift (suc n) k c p =
    let at : (k + 8) / 8 ≡ suc (k / 8) = omega arith in
    let rest : (k + 8) % 8 ≡ k % 8 = omega arith in
    let later : k + 8 + 1 ≡ k + 1 + 8 = omega arith in
    rw (at, rest, later, bits_shift n (k + 1) c p) refl

-- The lowest j + 1 bits are the bit j and the lowest j.
mod_step : (j c : ℕ) → j < 8 → c % 2 ^ (suc j) ≡ c / 2 ^ j % 2 * 2 ^ j + c % 2 ^ j
mod_step zero c h = omega arith
mod_step (suc zero) c h = omega arith
mod_step (suc (suc zero)) c h = omega arith
mod_step (suc (suc (suc zero))) c h = omega arith
mod_step (suc (suc (suc (suc zero)))) c h = omega arith
mod_step (suc (suc (suc (suc (suc zero))))) c h = omega arith
mod_step (suc (suc (suc (suc (suc (suc zero)))))) c h = omega arith
mod_step (suc (suc (suc (suc (suc (suc (suc zero))))))) c h = omega arith
mod_step (suc (suc (suc (suc (suc (suc (suc (suc j)))))))) c h = absurd (omega arith)

mul_bit : (a b x : ℕ) → (a * 2 + b) * x ≡ a * (2 * x) + b * x
mul_bit a b x = simp (add-mul, mul_assoc)

-- The last j bits of a byte, and then those of the bytes behind it.
pub read_last :
    (j acc n c : ℕ) (p : Bytes)
    → j ≤ 8
    → read_binary acc (bits_from (j + n) (8 - j) (c ∷ p))
      ≡ read_binary (acc * 2 ^ j + c % 2 ^ j) (bits_from n 0 p)
unfolding bits_from
read_last zero acc n c p h =
    let value : acc * 2 ^ 0 + c % 2 ^ 0 ≡ acc = omega arith in
    let none_left : 0 + n ≡ n = omega arith in rw (value, none_left, bits_shift n 0 c p) refl
read_last (suc j) acc n c p h =
    let count : suc j + n ≡ suc (j + n) = omega arith in
    let first : (8 - suc j) / 8 ≡ 0 = omega arith in
    let later : 8 - suc j + 1 ≡ 8 - j = omega arith in
    let place : 7 - (8 - suc j) % 8 ≡ j = omega (arith, h) in
    let digit : bit_digit c (8 - suc j) ≡ b'0' + c / 2 ^ j % 2 =
      bit_digit_lem c (8 - suc j) ∙ ap (λ i. b'0' + c / 2 ^ i % 2) place in
    let less : b'0' + c / 2 ^ j % 2 - b'0' ≡ c / 2 ^ j % 2 = omega arith in
    let bits : bits_from (suc j + n) (8 - suc j) (c ∷ p)
        ≡ (b'0' + c / 2 ^ j % 2) ∷ bits_from (j + n) (8 - j) (c ∷ p) =
      rw (count, first, later, digit) refl in
    let power : (acc * 2 + c / 2 ^ j % 2) * 2 ^ j ≡ acc * (2 * 2 ^ j) + c / 2 ^ j % 2 * 2 ^ j =
      mul_bit acc (c / 2 ^ j % 2) (2 ^ j) in
    let twice : 2 ^ suc j ≡ 2 * 2 ^ j = pow-succ' 2 j in
    let high : acc * 2 ^ suc j ≡ acc * (2 * 2 ^ j) = ap (λ x. acc * x) twice in
    let value : (acc * 2 + (b'0' + c / 2 ^ j % 2 - b'0')) * 2 ^ j + c % 2 ^ j
        ≡ acc * 2 ^ suc j + c % 2 ^ suc j =
      rw less (omega (arith, power, high, mod_step j c h)) in
    ap (read_binary acc) bits
    ∙ read_last j (acc * 2 + (b'0' + c / 2 ^ j % 2 - b'0')) n c p (omega (arith, h))
    ∙ ap (λ x. read_binary x (bits_from n 0 p)) value

-- Whole bytes.
pub read_bytes :
    (n acc : ℕ) (p : Bytes)
    → n ≤ length p
    → AllBytes p
    → read_binary acc (bits_from (8 * n) 0 p) ≡ big_endian acc (take n p)
unfolding bits_from
read_bytes zero acc p f h = refl
read_bytes (suc n) acc [] f h = absurd (omega arith)
read_bytes (suc n) acc (c ∷ p) f h =
    let count : 8 * suc n ≡ 8 + 8 * n = omega arith in
    let value : acc * 2 ^ 8 + c % 2 ^ 8 ≡ acc * 256 + c = omega (arith, h.0) in
    ap (λ k. read_binary acc (bits_from k 0 (c ∷ p))) count
    ∙ read_last 8 acc (8 * n) c p (omega arith)
    ∙ ap (λ x. read_binary x (bits_from (8 * n) 0 p)) value
    ∙ read_bytes n (acc * 256 + c) p (omega arith) h.1

pub digit_NonNul : (c k : ℕ) → 0 < bit_digit c k
unfolding bit_digit
digit_NonNul c k = ground arith

pub byte_at-eq-some : (p : Bytes) (i : ℕ) → i < length p → get_elem? p i ≡ some (byte_at p i)
byte_at-eq-some [] i h = absurd (omega arith)
byte_at-eq-some (c ∷ p) zero h = refl
byte_at-eq-some (c ∷ p) (suc i) h = byte_at-eq-some p i (omega arith)

-- The number that the text of a BIT column shows: its digits stand behind the letter `b`.
abbrev pub read_bit_text : Bytes → ℕ
read_bit_text [] = 0
read_bit_text (c ∷ s) = read_binary 0 s

pub bits_from-NonNul : (n k : ℕ) (p : Bytes) → NonNul (bits_from n k p)
unfolding bits_from
bits_from-NonNul zero k p = tt
bits_from-NonNul (suc n) k p = (digit_NonNul (byte_at p (k / 8)) k, bits_from-NonNul n (k + 1) p)

pub length-bits_from : (n k : ℕ) (p : Bytes) → length (bits_from n k p) ≡ n
unfolding bits_from
length-bits_from zero k p = refl
length-bits_from (suc n) k p = omega (arith, length-bits_from n (k + 1) p)
