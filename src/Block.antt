-- ===== src/Block.antt =====
-- A block of `malloc`, and what rows_log_event_2/rows_log_event_2.cc does to it with `snprintf`,
-- `memset`, `memcpy` and `strlen` of the C library.
pub mod Strlen
pub mod Steps
use mysql_replication_c.Base.{
  ℕ, suc, ◌+◌, ◌-◌, List, [], ◌∷◌, ◌++◌, Bool, leb, ltb, ◌==◌, if◌then◌else◌, length, take, drop,
  replicate,
}
use mysql_replication_c.Base.Outcome.{Outcome, ok, err, fault}
use mysql_replication_c.Text.{Bytes}

-- `bytes` is the part from the start of the block that holds written bytes.
pub record Block : Type 0 where
  pub cap : ℕ
  pub bytes : Bytes

-- Which sizes `malloc` grants at the moment of the call.
abbrev pub Malloc : Type 0
Malloc = ℕ → Bool

module _ {E : Type 0} where
  -- `malloc( n )`, and the error return of the code where it gives NULL.
  unfoldable pub alloc : Malloc → ℕ → E → Outcome E Block
  alloc malloc n e = if malloc n then ok (record { cap = n; bytes = [] }) else err e

  -- Bytes written from offset `i` on; a fault where they do not fit the block.
  unfoldable pub put : Block → ℕ → Bytes → Outcome E Block
  put b i ws =
      if leb (i + length ws) b.cap
      then ok (record b { bytes = take i b.bytes ++ (ws ++ drop (i + length ws) b.bytes) })
      else fault

  -- `snprintf( &b[ i ], n, … )` for 0 < n: at most n - 1 characters and the closing NUL.
  unfoldable pub snprintf : Block → ℕ → ℕ → Bytes → Outcome E Block
  snprintf b i n text = put b i (take (n - 1) text ++ 0 ∷ [])

  -- `memset( b, 0, n )`
  unfoldable pub memset_zero : Block → ℕ → Outcome E Block
  memset_zero b n = put b 0 (replicate n 0)

  -- The first `n` bytes behind a pointer; a fault where the event ends before.
  unfoldable pub load : ℕ → Bytes → Outcome E Bytes
  load n p = if ltb (length p) n then fault else ok (take n p)

  -- `*p`
  unfoldable pub deref : Bytes → Outcome E ℕ
  deref [] = fault
  deref (c ∷ p) = ok c

-- `strlen`
unfoldable pub strlen : Bytes → ℕ
strlen [] = 0
strlen (c ∷ s) = let rest = strlen s in if c == 0 then 0 else suc rest

-- The C string that a block holds: its bytes before the first NUL.
unfoldable pub c_str : Bytes → Bytes
c_str [] = []
c_str (c ∷ s) = let rest = c_str s in if c == 0 then [] else c ∷ rest
