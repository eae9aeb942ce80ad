-- ===== src/Text/Decimal.antt =====
-- The decimal formats, and a reader of their texts.
use mysql_replication_c.Base.{
  ℕ, zero, suc, ◌+◌, ◌-◌, ◌*◌, ◌/◌, ◌%◌, ◌≤◌, ◌≡◌, refl, [], ◌∷◌, ◌==◌, if◌then◌else◌, arith, All,
  Bool-cases, inl, inr,
}
use mysql_replication_c.Base.Int.{ℤ, pos, negsuc}
use mysql_replication_c.Text.{Bytes, digits, unsigned_text, int_text}

-- The number that a row of decimal digits stands for, as `strtoull` of base ten reads it.
unfoldable pub value_from : ℕ → Bytes → ℕ
value_from n [] = n
value_from n (c ∷ s) = value_from (10 * n + (c - b'0')) s

-- An optional minus sign and digits.
unfoldable pub read_int : Bytes → ℤ
unfolding value_from
read_int [] = pos 0
read_int (c ∷ s) = if c == b'-' then negsuc (value_from 0 s - 1) else pos (value_from 0 (c ∷ s))

-- Every digit of the rest is read after the digits of `n`.
value_from-digits :
    (f n : ℕ) (out : Bytes) → n ≤ f → value_from 0 (digits f n out) ≡ value_from n out
unfolding digits value_from
value_from-digits zero n out h = let e : n ≡ 0 = omega arith in rw e
value_from-digits (suc f) n out h = elim (Bool-cases (n == 0)) [
  | inl done ↦ rw done (let e : n ≡ 0 = ground arith in rw e)
  | inr more ↦
      rw (more, value_from-digits f (n / 10) ((b'0' + n % 10) ∷ out) (ground arith))
        (let e : 10 * (n / 10) + (b'0' + n % 10 - b'0') ≡ n = omega arith in rw e)
]

pub value_from-unsigned_text : (n : ℕ) → value_from 0 (unsigned_text n) ≡ n
unfolding unsigned_text
value_from-unsigned_text n = elim (Bool-cases (n == 0)) [
  | inl z ↦ rw z (unfold value_from in ground arith)
  | inr nz ↦ rw (nz, value_from-digits n n [] (omega arith)) (unfold value_from in refl)
]

abbrev pub IsDigit : ℕ → Type 0
IsDigit c = (b'0' ≤ c) × (c ≤ b'9')

digits-IsDigit : (f n : ℕ) (out : Bytes) → All IsDigit out → All IsDigit (digits f n out)
unfolding digits
digits-IsDigit zero n out h = h
digits-IsDigit (suc f) n out h = elim (Bool-cases (n == 0)) [
  | inl done ↦ rw done h
  | inr more ↦
      rw more (digits-IsDigit f (n / 10) ((b'0' + n % 10) ∷ out) ((omega arith, omega arith), h))
]

pub unsigned_text-IsDigit : (n : ℕ) → All IsDigit (unsigned_text n)
unfolding unsigned_text
unsigned_text-IsDigit n = elim (Bool-cases (n == 0)) [
  | inl z ↦ rw z (omega arith)
  | inr nz ↦ rw nz (digits-IsDigit n n [] tt)
]

read_int_digits : (s : Bytes) → All IsDigit s → read_int s ≡ pos (value_from 0 s)
unfolding read_int
read_int_digits [] h = unfold value_from in refl
read_int_digits (c ∷ s) h = elim (Bool-cases (c == b'-')) [
  | inl bad ↦ absurd (ground arith)
  | inr good ↦ rw good
]

-- %d writes an optional sign and the digits of the magnitude.
pub read_int-int_text : (z : ℤ) → read_int (int_text z) ≡ z
unfolding int_text
read_int-int_text (pos n) =
    rw (read_int_digits (unsigned_text n) (unsigned_text-IsDigit n), value_from-unsigned_text n)
read_int-int_text (negsuc n) =
    unfold read_int in
    rw (value_from-unsigned_text (suc n)) (let e : suc n - 1 ≡ n = omega arith in rw e)
