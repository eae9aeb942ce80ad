-- ===== src/Block/Strlen.antt =====
-- How `strlen` and `snprintf` act on a block that holds a text and its NUL.
use mysql_replication_c.Base.{
  All, ◌≢◌, ==_false, ap, refl, ℕ, ◌+◌, ◌-◌, ◌≤◌, ◌<◌, ◌≡◌, refl, [], ◌∷◌, ◌++◌, length, drop,
  length-append, take_all, drop_behind, take-append, drop_all, le→leb, append-nil, arith,
}
use mysql_replication_c.Base.Outcome.{ok}
use mysql_replication_c.Text.{Bytes}
use mysql_replication_c.Text.Width.{NonNul}
use mysql_replication_c.Block.{put, snprintf, strlen, c_str}

-- `strlen` stops at the NUL behind the text.
pub strlen-append : (s rest : Bytes) → NonNul s → strlen (s ++ 0 ∷ rest) ≡ length s
unfolding strlen
strlen-append [] rest h = refl
strlen-append (c ∷ s) rest h = ground (arith, strlen-append s rest h.1)

pub c_str-append : (s rest : Bytes) → NonNul s → c_str (s ++ 0 ∷ rest) ≡ s
unfolding c_str
c_str-append [] rest h = refl
c_str-append (c ∷ s) rest h = ground (arith, c_str-append s rest h.1)

module _ {E : Type 0} where
  -- A write behind the text `s` covers the first bytes of what stands there.
  pub put_behind :
      (cap : ℕ) (s t ws : Bytes)
      → length s + length ws ≤ cap
      → put {E = E} (record { cap = cap; bytes = s ++ t }) (length s) ws
        ≡ ok (record { cap = cap; bytes = s ++ (ws ++ drop (length ws) t) })
  unfolding put
  put_behind cap s t ws h = rw (le→leb _ _ h, take-append s t, drop_behind s t (length ws))

  -- A text that fits is written whole in a fresh block.
  pub snprintf_start :
      (size n : ℕ) (text : Bytes)
      → length text < n
      → length text < size
      → snprintf {E = E} (record { cap = size; bytes = [] }) 0 n text
        ≡ ok (record { cap = size; bytes = text ++ 0 ∷ [] })
  unfolding snprintf put
  snprintf_start size n text h f = rw (
    take_all (n - 1) text (omega arith),
    le→leb (0 + length (text ++ 0 ∷ [])) size (omega (arith, length-append text (0 ∷ []))),
    drop_all {A = ℕ} (0 + length (text ++ 0 ∷ [])) ([]) (omega arith),
    append-nil,
  )

  pub snprintf_fresh :
      (n : ℕ) (text : Bytes)
      → length text < n
      → snprintf {E = E} (record { cap = n; bytes = [] }) 0 n text
        ≡ ok (record { cap = n; bytes = text ++ 0 ∷ [] })
  snprintf_fresh n text h = snprintf_start n n text h h

-- A text without a NUL is its own C string.
pub c_str-no_nul : (s : Bytes) → All (λ c. c ≢ 0) s → c_str s ≡ s
unfolding c_str
c_str-no_nul [] h = refl
c_str-no_nul (c ∷ s) h = rw (==_false c 0 h.0) (ap (◌∷◌ c) (c_str-no_nul s h.1))
