-- ===== src/Decode/Taking.antt =====
-- The bytes that log_event_get_value_2 (rows_log_event_2/rows_log_event_2.cc) reads of an event,
-- against the bytes that the server's sources count for a value.
use mysql_replication_c.Base.{
  ℕ, ◌+◌, ◌-◌, ◌≤◌, ◌<◌, ◌≡◌, refl, [], ◌∷◌, true, length, take, arith, length-take, length-append,
  ◌++◌, Bool-cases, inl, inr, le→leb,
}
use mysql_replication_c.Base.Outcome.{Outcome, ok, err, fault, ◌>>=◌, Safe, Safe-bind}
use mysql_replication_c.Text.{Bytes}
use mysql_replication_c.Block.{Block, Malloc, alloc, put, snprintf, load, deref, c_str}
use mysql_replication_c.Block.Steps.{fresh, load-eq-ok}
use mysql_replication_c.Row.{ColumnType, Value, Message, no_memory_for_value}
use mysql_replication_c.Decode.Result.{Decoded, set_text, print_value, copy_value}

-- A call that is never out of bounds and, where it succeeds, takes `n` bytes.
abbrev pub Takes : ℕ → Decoded → Type 0
Takes n = Safe (λ r. r.0 ≡ n)

pub alloc-Safe :
    (malloc : Malloc) (n : ℕ) (e : Message) → Safe (λ b. b ≡ fresh n) (alloc malloc n e)
unfolding alloc
alloc-Safe malloc n e = elim (Bool-cases (malloc n)) [ inl a ↦ rw a refl | inr a ↦ rw a tt ]

-- snprintf with the size of a fresh block stays in it.
fresh-Safe :
    (n : ℕ) (text : Bytes)
    → 0 < n
    → Safe {E = Message} (λ b. Unit {0}) (snprintf (fresh n) 0 n text)
unfolding snprintf put
fresh-Safe n text h =
    rw
      (le→leb (0 + length (take (n - 1) text ++ 0 ∷ [])) n
        (omega (arith, length-append (take (n - 1) text) (0 ∷ []), length-take (n - 1) text)))
      tt

print-Safe :
    (malloc : Malloc) (type : ColumnType) (n : ℕ) (text : Bytes) (v : Value)
    → 0 < n
    → Safe (λ w. Unit {0}) (print_value malloc type n text v)
unfolding print_value
print-Safe malloc type n text v h =
    Safe-bind (λ b. b ≡ fresh n) (λ w. Unit {0}) (alloc malloc n (no_memory_for_value type)) _
      (alloc-Safe malloc n _)
      (λ b e.
        Safe-bind (λ b'. Unit {0}) (λ w. Unit {0}) (snprintf b 0 n text) _
          (rw e (fresh-Safe n text h)) (λ b' u. tt))

copy-Safe :
    (malloc : Malloc) (type : ColumnType) (buff : Bytes) (v : Value)
    → Safe (λ w. Unit {0}) (copy_value malloc type buff v)
unfolding copy_value
copy-Safe malloc type buff v =
    print-Safe malloc type (length (c_str buff) + 1) (c_str buff) v (omega arith)

pub print-Takes :
    (malloc : Malloc) (type : ColumnType) (n k : ℕ) (text : Bytes) (v : Value)
    → 0 < n
    → Takes k (print_value malloc type n text v >>= λ w. ok (k, w))
print-Takes malloc type n k text v h =
    Safe-bind (λ w. Unit {0}) (λ r. r.0 ≡ k) (print_value malloc type n text v) _
      (print-Safe malloc type n text v h) (λ w u. refl)

pub copy-Takes :
    (malloc : Malloc) (type : ColumnType) (k : ℕ) (buff : Bytes) (v : Value)
    → Takes k (copy_value malloc type buff v >>= λ w. ok (k, w))
copy-Takes malloc type k buff v =
    Safe-bind (λ w. Unit {0}) (λ r. r.0 ≡ k) (copy_value malloc type buff v) _
      (copy-Safe malloc type buff v) (λ w u. refl)

pub load-Takes :
    (n k : ℕ) (p : Bytes) (next : Bytes → Decoded)
    → n ≤ length p
    → Takes k (next (take n p))
    → Takes k (load n p >>= next)
load-Takes n k p next h step = rw (load-eq-ok {E = Message} n p h) step

pub deref-Takes :
    (k : ℕ) (p : Bytes) (next : ℕ → Decoded)
    → 1 ≤ length p
    → ((c : ℕ) → Takes k (next c))
    → Takes k (deref p >>= next)
unfolding deref
deref-Takes k [] next h step = absurd (omega arith)
deref-Takes k (c ∷ p) next h step = step c

pub alloc-Takes :
    (malloc : Malloc) (n k : ℕ) (e : Message) (next : Block → Decoded)
    → Takes k (next (fresh n))
    → Takes k (alloc malloc n e >>= next)
unfolding alloc
alloc-Takes malloc n k e next step = elim (Bool-cases (malloc n)) [
  | inl a ↦ rw a step
  | inr a ↦ rw a tt
]

pub fresh-Takes :
    (n k : ℕ) (text : Bytes) (v : Value)
    → 0 < n
    → Takes k (snprintf (fresh n) 0 n text >>= λ b. ok (k, set_text v b))
fresh-Takes n k text v h =
    Safe-bind (λ b. Unit {0}) (λ r. r.0 ≡ k) (snprintf (fresh n) 0 n text) _ (fresh-Safe n text h)
      (λ b u. refl)

-- A refused block is an error of the code, so it is enough that nothing goes wrong with a granted one.
pub granted_enough :
    {A : Type 0} (P : A → Type 0) (malloc : Malloc) (n : ℕ) (e : Message)
    (next : Block → Outcome Message A)
    → Safe P (alloc (λ k. true) n e >>= next)
    → Safe P (alloc malloc n e >>= next)
unfolding alloc
granted_enough P malloc n e next step = elim (Bool-cases (malloc n)) [
  | inl a ↦ rw a step
  | inr a ↦ rw a tt
]

-- The same where the size of the block is read first.
pub granted_behind :
    {A : Type 0} (P : A → Type 0) (malloc : Malloc) (o : Outcome Message ℕ) (size : ℕ → ℕ)
    (e : Message) (next : ℕ → Block → Outcome Message A)
    → Safe P (o >>= λ n. alloc (λ k. true) (size n) e >>= next n)
    → Safe P (o >>= λ n. alloc malloc (size n) e >>= next n)
granted_behind P malloc (ok n) size e next step = granted_enough P malloc (size n) e (next n) step
granted_behind P malloc (err message) size e next step = step
granted_behind P malloc fault size e next step = step
