-- ===== src/Decode/PrintChars.antt =====
-- The loop of my_b_print_with_length_2 (rows_log_event_2/rows_log_event_2.cc).
use mysql_replication_c.Base.{
  ℕ, zero, suc, ◌+◌, ◌-◌, ◌≤◌, ◌<◌, ◌≡◌, refl, [], ◌∷◌, ◌++◌, if◌then◌else◌, ◌==◌, length, take,
  replicate, arith, append_assoc, append-nil, All-append, length-append, Bool-cases, inl, inr,
}
use mysql_replication_c.Base.Outcome.{ok}
use mysql_replication_c.Text.{Bytes}
use mysql_replication_c.Text.Width.{NonNul}
use mysql_replication_c.Block.{Block, snprintf, strlen}
use mysql_replication_c.Block.Strlen.{put_behind, strlen-append}
use mysql_replication_c.Row.{Message}
use mysql_replication_c.Decode.Bits.{print_chars}

-- The characters other than NUL.
unfoldable pub nonnul : Bytes → Bytes
nonnul [] = []
nonnul (c ∷ p) = if c == 0 then nonnul p else c ∷ nonnul p

pub nonnul-NonNul : (p : Bytes) → NonNul (nonnul p)
unfolding nonnul
nonnul-NonNul [] = tt
nonnul-NonNul (c ∷ p) = ground (arith, nonnul-NonNul p)

pub nonnul_id : (p : Bytes) → NonNul p → nonnul p ≡ p
unfolding nonnul
nonnul_id [] h = refl
nonnul_id (c ∷ p) h = ground (arith, nonnul_id p h.1)

pub length-nonnul-le : (p : Bytes) → length (nonnul p) ≤ length p
unfolding nonnul
length-nonnul-le [] = omega arith
length-nonnul-le (c ∷ p) = ground (arith, length-nonnul-le p)

-- A text in a block whose bytes behind it are zero.
abbrev pub zero_block : ℕ → Bytes → ℕ → Block
zero_block size s k = record { cap = size; bytes = s ++ 0 ∷ replicate k 0 }

pub append_char :
    (size k c : ℕ) (s : Bytes)
    → NonNul s
    → length s + 2 ≤ size
    → snprintf {E = Message}
        (zero_block size s (suc k))
        (strlen (zero_block size s (suc k)).bytes)
        2
        (c ∷ [])
      ≡ ok (record { cap = size; bytes = s ++ c ∷ 0 ∷ replicate k 0 })
unfolding snprintf
append_char size k c s h room =
    rw (strlen-append s (replicate (suc k) 0) h)
      (put_behind size s (0 ∷ 0 ∷ replicate k 0) (c ∷ 0 ∷ []) (omega arith))

pub print_chars_lem :
    (n size k : ℕ) (q s : Bytes)
    → NonNul s
    → n ≤ length q
    → n ≤ k
    → length s + k < size
    → print_chars n q (zero_block size s k)
      ≡ ok (zero_block size (s ++ nonnul (take n q)) (k - length (nonnul (take n q))))
unfolding print_chars nonnul
print_chars_lem zero size k q s h f g room = let e : k - 0 ≡ k = omega arith in rw (append-nil, e)
print_chars_lem (suc n) size zero q s h f g room = absurd (omega arith)
print_chars_lem (suc n) size (suc k) [] s h f g room = absurd (omega arith)
print_chars_lem (suc n) size (suc k) (c ∷ q) s h f g room = elim (Bool-cases (c == 0)) [
  | inl nul ↦
      let e : c ≡ 0 = ground arith in
      rw (append_char size k c s h (omega arith), nul, e)
        (print_chars_lem n size (suc k) q s h (omega arith) (omega arith) (omega arith))
  | inr char ↦
      let l : suc k - suc (length (nonnul (take n q))) ≡ k - length (nonnul (take n q)) =
        omega arith in
      let ih =
        print_chars_lem n size k q (s ++ c ∷ []) (All-append _ s (c ∷ []) h (ground arith, tt))
          (omega arith) (omega arith) (omega (arith, length-append s (c ∷ []))) in
      rw (append_char size k c s h (omega arith), char, l)
        (simp append_assoc (simp append_assoc at ih))
]

-- A NUL makes the text shorter.
pub length-nonnul-lt : (a r : Bytes) → length (nonnul (a ++ 0 ∷ r)) < length (a ++ 0 ∷ r)
unfolding nonnul
length-nonnul-lt [] r = omega (arith, length-nonnul-le r)
length-nonnul-lt (c ∷ a) r = ground (arith, length-nonnul-lt a r)

pub first_nul :
    (size k : ℕ)
    → k < size
    → snprintf {E = Message} (zero_block size [] k) 0 2 [] ≡ ok (zero_block size [] k)
unfolding snprintf
first_nul size k h = put_behind size [] (0 ∷ replicate k 0) (0 ∷ []) (omega arith)

pub zeros_suc : (n k : ℕ) → n ≡ suc k → replicate {A = ℕ} n 0 ≡ 0 ∷ replicate k 0
zeros_suc n k e = rw e
