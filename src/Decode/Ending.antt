-- ===== src/Decode/Ending.antt =====
-- Blocks that hold a C string: what `snprintf` and `memset` leave in them
-- (rows_log_event_2/rows_log_event_2.cc).
use mysql_replication_c.Base.{
  ℕ, zero, suc, ◌+◌, ◌-◌, ◌<◌, ◌≡◌, refl, [], ◌∷◌, ◌++◌, false, true, leb, ltb, ◌⊎◌, inl, inr,
  Bool-cases, length, take, drop, replicate, arith, length-take,
}
use mysql_replication_c.Base.Int.{u32}
use mysql_replication_c.Base.Outcome.{Outcome, Holds, Holds-bind, ◌>>=◌}
use mysql_replication_c.Text.{Bytes}
use mysql_replication_c.Block.{Block, Malloc, alloc, put, snprintf, memset_zero, load}
use mysql_replication_c.Row.{Message}
use mysql_replication_c.Block.Steps.{fresh, memset_fresh}

-- One of the bytes is a NUL.
abbrev pub HasNul : Bytes → Type 0
HasNul [] = false ≡ true
HasNul (c ∷ s) = (c ≡ 0) ⊎ HasNul s

append_behind-HasNul : (s t : Bytes) → HasNul t → HasNul (s ++ t)
append_behind-HasNul [] t h = h
append_behind-HasNul (c ∷ s) t h = inr (append_behind-HasNul s t h)

append_before-HasNul : (s t : Bytes) → HasNul s → HasNul (s ++ t)
append_before-HasNul [] t h = absurd (let no : false ≡ true = h in cc)
append_before-HasNul (c ∷ s) t (inl e) = inl e
append_before-HasNul (c ∷ s) t (inr h) = inr (append_before-HasNul s t h)

drop_zeros-HasNul : (n k : ℕ) → k < n → HasNul (drop k (replicate n 0))
drop_zeros-HasNul zero k h = absurd (omega (arith, h))
drop_zeros-HasNul (suc n) zero h = inl refl
drop_zeros-HasNul (suc n) (suc k) h = drop_zeros-HasNul n k (omega (arith, h))

put-HasNul :
    (b : Block) (i : ℕ) (ws : Bytes)
    → HasNul ws
    → Holds (λ b'. HasNul b'.bytes) (put {E = Message} b i ws)
unfolding put
put-HasNul b i ws h = elim (Bool-cases (leb (i + length ws) b.cap)) [
  | inl a ↦ rw a (
      append_behind-HasNul (take i b.bytes) (ws ++ drop (i + length ws) b.bytes)
        (append_before-HasNul ws (drop (i + length ws) b.bytes) h))
  | inr a ↦ rw a tt
]

pub snprintf-HasNul :
    (b : Block) (i n : ℕ) (text : Bytes)
    → Holds (λ b'. HasNul b'.bytes) (snprintf {E = Message} b i n text)
unfolding snprintf
snprintf-HasNul b i n text =
    put-HasNul b i (take (n - 1) text ++ 0 ∷ [])
      (append_behind-HasNul (take (n - 1) text) (0 ∷ []) (inl refl))

-- Zeros, and bytes before the last of them: the size is a uint32.
put_zeros-HasNul :
    (k : ℕ) (w : Bytes)
    → length w ≡ k
    → Holds
        (λ b'. HasNul b'.bytes)
        (put {E = Message} (record { cap = u32 (k + 16); bytes = replicate (u32 (k + 16)) 0 }) 0 w)
unfolding put
put_zeros-HasNul k w e = elim (Bool-cases (leb (0 + length w) (u32 (k + 16)))) [
  | inr a ↦ rw a tt
  | inl a ↦
      let less : 0 + length w < u32 (k + 16) = ground (arith, a, e) in
      rw a (
        append_behind-HasNul w (drop (0 + length w) (replicate (u32 (k + 16)) 0))
          (drop_zeros-HasNul (u32 (k + 16)) (0 + length w) less))
]

length-load : (n : ℕ) (p : Bytes) → Holds (λ w. length w ≡ n) (load {E = Message} n p)
unfolding load
length-load n p = elim (Bool-cases (ltb (length p) n)) [
  | inl a ↦ rw a tt
  | inr a ↦ rw a (ground (arith, a, length-take n p))
]

alloc-fresh : (malloc : Malloc) (n : ℕ) (e : Message) → Holds (λ b. b ≡ fresh n) (alloc malloc n e)
unfolding alloc
alloc-fresh malloc n e = elim (Bool-cases (malloc n)) [ inl a ↦ rw a refl | inr a ↦ rw a tt ]

-- The block of a raw value: `malloc`, `memset` and `memcpy`.
pub raw-HasNul :
    {A : Type 0} (Q : A → Type 0) (malloc : Malloc) (k : ℕ) (p : Bytes) (e : Message)
    (next : Block → Outcome Message A)
    → ((b : Block) → HasNul b.bytes → Holds Q (next b))
    → Holds Q (do
      b ← alloc malloc (u32 (k + 16)) e
      b' ← memset_zero b (u32 (k + 16))
      w ← load k p
      b'' ← put b' 0 w
      next b'')
raw-HasNul Q malloc k p e next step =
    Holds-bind (λ b. b ≡ fresh (u32 (k + 16))) Q (alloc malloc (u32 (k + 16)) e) _
      (alloc-fresh malloc (u32 (k + 16)) e)
      (λ b same.
        rw (same, memset_fresh {E = Message} (u32 (k + 16)))
          (Holds-bind (λ w. length w ≡ k) Q (load k p)
            (λ w.
              put (record { cap = u32 (k + 16); bytes = replicate (u32 (k + 16)) 0 }) 0 w >>= next)
            (length-load k p)
            (λ w e.
              Holds-bind (λ b'. HasNul b'.bytes) Q (put _ 0 w) next (put_zeros-HasNul k w e) step)))
