-- ===== src/Block/Steps.antt =====
-- What each operation on blocks gives where it is granted and in bounds.
use mysql_replication_c.Base.{
  ℕ, ◌+◌, ◌≤◌, ◌<◌, ◌≡◌, [], ◌∷◌, ◌++◌, true, length, take, arith, append-nil, append_assoc,
  length-append, take_all, ◌-◌, length-replicate, replicate, drop_all, le→leb,
}
use mysql_replication_c.Base.Outcome.{ok, ◌>>=◌}
use mysql_replication_c.Text.{Bytes}
use mysql_replication_c.Text.Width.{NonNul}
use mysql_replication_c.Block.{
  Block, Malloc, alloc, load, put, snprintf, memset_zero, strlen, c_str,
}
use mysql_replication_c.Block.Strlen.{strlen-append, c_str-append, snprintf_fresh, put_behind}

abbrev pub fresh : ℕ → Block
fresh n = record { cap = n; bytes = [] }

-- A block of `n` bytes that holds a text and its NUL.
abbrev pub text_block : ℕ → Bytes → Block
text_block n s = record { cap = n; bytes = s ++ 0 ∷ [] }

module _ {E : Type 0} where
  pub alloc-eq-ok :
      (malloc : Malloc) (n : ℕ) (e : E) → malloc n ≡ true → alloc malloc n e ≡ ok (fresh n)
  unfolding alloc
  alloc-eq-ok malloc n e h = rw h

  pub load-eq-ok : (n : ℕ) (p : Bytes) → n ≤ length p → load {E = E} n p ≡ ok (take n p)
  unfolding load
  load-eq-ok n p h = ground arith

  pub memset_fresh :
      (n : ℕ) → memset_zero {E = E} (fresh n) n ≡ ok (record { cap = n; bytes = replicate n 0 })
  unfolding memset_zero put
  memset_fresh n = rw (
    le→leb (0 + length {A = ℕ} (replicate n 0)) n (omega (arith, length-replicate {A = ℕ} n 0)),
    drop_all {A = ℕ} (0 + length {A = ℕ} (replicate n 0)) [] (omega arith),
    append-nil,
  )

  -- `malloc( n )` and `snprintf` of a text that fits.
  pub alloc-snprintf :
      (malloc : Malloc) (n : ℕ) (e : E) (text : Bytes)
      → malloc n ≡ true
      → length text < n
      → (alloc malloc n e >>= λ b. snprintf b 0 n text) ≡ ok (text_block n text)
  alloc-snprintf malloc n e text g h = rw (alloc-eq-ok malloc n e g) (snprintf_fresh n text h)

pub strlen_text : (s : Bytes) → NonNul s → strlen (s ++ 0 ∷ []) ≡ length s
strlen_text s h = strlen-append s [] h

pub c_str_text : (s : Bytes) → NonNul s → c_str (s ++ 0 ∷ []) ≡ s
c_str_text s h = c_str-append s [] h

pub c_str-NonNul : (s : Bytes) → NonNul (c_str s)
unfolding c_str
c_str-NonNul [] = tt
c_str-NonNul (c ∷ s) = ground (arith, c_str-NonNul s)

module _ {E : Type 0} where
  -- A text that fits is appended whole at the NUL of the text before it.
  pub snprintf_append :
      (cap n : ℕ) (s text : Bytes)
      → NonNul s
      → length text < n
      → length s + length text < cap
      → snprintf {E = E} (text_block cap s) (strlen (text_block cap s).bytes) n text
        ≡ ok (text_block cap (s ++ text))
  unfolding snprintf
  snprintf_append cap n s text h f room = rw (
    strlen_text s h,
    take_all (n - 1) text (omega arith),
    put_behind cap s (0 ∷ []) (text ++ 0 ∷ []) (omega (arith, length-append text (0 ∷ []))),
    drop_all {A = ℕ} (length (text ++ 0 ∷ [])) (0 ∷ [])
        (omega (arith, length-append text (0 ∷ []))),
    append-nil,
    append_assoc,
  )
