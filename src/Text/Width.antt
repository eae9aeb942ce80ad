-- ===== src/Text/Width.antt =====
-- How long the decimal texts are.
use mysql_replication_c.Base.{
  ℕ, zero, suc, ◌+◌, ◌-◌, ◌/◌, ◌%◌, ◌^◌, ◌<◌, ◌≤◌, ◌≡◌, [], ◌∷◌, ◌==◌, arith, Bool-cases, inl, inr,
  length, length-append, length-replicate, replicate, All, All-append,
}
use native.Mathlib.Nat.{pow-suc}
use mysql_replication_c.Base.Int.{ℤ, pos, negsuc}
use mysql_replication_c.Text.{Bytes, digits, unsigned_text, int_text, padded_text}
use mysql_replication_c.Text.Decimal.{IsDigit, unsigned_text-IsDigit}

tenth-lt : (k n : ℕ) → n < 10 ^ suc k → n / 10 < 10 ^ k
tenth-lt k n h = omega (arith, pow-suc 10 k)

-- A number below 10 ^ k has at most k digits.
length-digits : (k f n : ℕ) (out : Bytes) → n < 10 ^ k → length (digits f n out) ≤ k + length out
unfolding digits
length-digits k zero n out h = omega arith
length-digits zero (suc f) n out h = let e : n ≡ 0 = omega arith in rw e (omega arith)
length-digits (suc k) (suc f) n out h = elim (Bool-cases (n == 0)) [
  | inl done ↦ rw done (omega arith)
  | inr more ↦
      rw more (omega (arith, length-digits k f (n / 10) ((b'0' + n % 10) ∷ out) (tenth-lt k n h)))
]

-- Numbers below 10 ^ k, where k is not 0, are written in one to k characters.
pub length-unsigned_text : (k n : ℕ) → n < 10 ^ suc k → length (unsigned_text n) ≤ suc k
unfolding unsigned_text
length-unsigned_text k n h = elim (Bool-cases (n == 0)) [
  | inl z ↦ rw z (omega arith)
  | inr nz ↦ rw nz (omega (arith, length-digits (suc k) n n [] h))
]

pub length-padded_text : (w k n : ℕ) → n < 10 ^ suc k → w ≤ suc k → length (padded_text w n) ≤ suc k
unfolding padded_text
length-padded_text w k n h q = omega (
  arith,
  length-append (replicate (w - length (unsigned_text n)) b'0') (unsigned_text n),
  length-replicate {A = ℕ} (w - length (unsigned_text n)) b'0',
  length-unsigned_text k n h,
)

-- A field of width w is filled exactly by a number below 10 ^ w.
pub length-padded_text_eq : (k n : ℕ) → n < 10 ^ suc k → length (padded_text (suc k) n) ≡ suc k
unfolding padded_text
length-padded_text_eq k n h = omega (
  arith,
  length-append (replicate (suc k - length (unsigned_text n)) b'0') (unsigned_text n),
  length-replicate {A = ℕ} (suc k - length (unsigned_text n)) b'0',
  length-unsigned_text k n h,
)

-- No character is the NUL byte.
abbrev pub NonNul : Bytes → Type 0
NonNul = All (λ c. 0 < c)

digits_NonNul : (s : Bytes) → All IsDigit s → NonNul s
digits_NonNul [] h = tt
digits_NonNul (c ∷ s) h = (omega (arith, h.0.0), digits_NonNul s h.1)

pub unsigned_text-NonNul : (n : ℕ) → NonNul (unsigned_text n)
unsigned_text-NonNul n = digits_NonNul (unsigned_text n) (unsigned_text-IsDigit n)

pub int_text-NonNul : (z : ℤ) → NonNul (int_text z)
unfolding int_text
int_text-NonNul (pos n) = unsigned_text-NonNul n
int_text-NonNul (negsuc n) = (omega arith, unsigned_text-NonNul (suc n))

replicate-NonNul : (n : ℕ) → NonNul (replicate n b'0')
replicate-NonNul zero = tt
replicate-NonNul (suc n) = (omega arith, replicate-NonNul n)

pub padded_text-NonNul : (w n : ℕ) → NonNul (padded_text w n)
unfolding padded_text
padded_text-NonNul w n =
    All-append _ (replicate (w - length (unsigned_text n)) b'0') (unsigned_text n)
      (replicate-NonNul _) (unsigned_text-NonNul n)
