-- ===== src/Base/Outcome.antt =====
-- The result of a call that may fail: `ok`, the code's own error return with its message, or
-- `fault`, a read or a write out of the bounds of a memory block.
use mathlib.Core.Bool.{true, false}
use mathlib.Core.Path.{◌≡◌, refl}
use mathlib.Core.Option.{Option, none, some}

pub data Outcome {ℓ} (E : Type 0) (A : Type ℓ) : Type ℓ where
  ok : A → Outcome E A
  err : E → Outcome E A
  fault : Outcome E A

module _ {E : Type 0} where
  -- An error and a fault end a chain of calls.
  infixl 5 ◌>>=◌
  abbrev pub ◌>>=◌ {ℓ κ} : {A : Type ℓ} {B : Type κ} → Outcome E A → (A → Outcome E B) → Outcome E B
  fault >>= next = fault
  err message >>= next = err message
  ok value >>= next = next value

module _ {E : Type 0} where
  -- A read through a pointer or an index that may be out of bounds.
  abbrev pub or_fault {ℓ} : {A : Type ℓ} → Option A → Outcome E A
  or_fault none = fault
  or_fault (some value) = ok value

  -- A predicate on the value of a call that succeeds.
  abbrev pub Holds {ℓ κ} : {A : Type ℓ} → (A → Type κ) → Outcome E A → Type κ
  Holds P (ok value) = P value
  Holds P (err message) = Unit {κ}
  Holds P fault = Unit {κ}

  -- A chain of calls ends in what its last one ends in.
  pub Holds-bind {ℓ κ μ ν} :
      {A : Type ℓ} {B : Type κ} (P : A → Type μ) (Q : B → Type ν) (o : Outcome E A)
      (next : A → Outcome E B)
      → Holds P o
      → ((a : A) → P a → Holds Q (next a))
      → Holds Q (o >>= next)
  Holds-bind P Q (ok value) next h step = step value h
  Holds-bind P Q (err message) next h step = tt
  Holds-bind P Q fault next h step = tt

  pub Holds-weaken {ℓ κ μ} :
      {A : Type ℓ} (P : A → Type κ) (Q : A → Type μ) (o : Outcome E A)
      → Holds P o
      → ((a : A) → P a → Q a)
      → Holds Q o
  Holds-weaken P Q (ok value) h step = step value h
  Holds-weaken P Q (err message) h step = tt
  Holds-weaken P Q fault h step = tt

  -- What holds whatever the first call gives.
  pub Holds-after {ℓ κ ν} :
      {A : Type ℓ} {B : Type κ} (Q : B → Type ν) (o : Outcome E A) (next : A → Outcome E B)
      → ((a : A) → Holds Q (next a))
      → Holds Q (o >>= next)
  Holds-after Q (ok value) next step = step value
  Holds-after Q (err message) next step = tt
  Holds-after Q fault next step = tt

  -- A predicate on the value of a call that succeeds, of a call that is never out of bounds.
  abbrev pub Safe : {A : Type 0} → (A → Type 0) → Outcome E A → Type 0
  Safe P (ok value) = P value
  Safe P (err message) = Unit {0}
  Safe P fault = false ≡ true

  pub Safe-bind :
      {A B : Type 0} (P : A → Type 0) (Q : B → Type 0) (o : Outcome E A) (next : A → Outcome E B)
      → Safe P o
      → ((a : A) → P a → Safe Q (next a))
      → Safe Q (o >>= next)
  Safe-bind P Q (ok value) next h step = step value h
  Safe-bind P Q (err message) next h step = tt
  Safe-bind P Q fault next h step = h

  -- The same, with what the first call gave.
  pub Safe-known :
      {A B : Type 0} (P : A → Type 0) (Q : B → Type 0) (o : Outcome E A) (next : A → Outcome E B)
      → Safe P o
      → ((a : A) → o ≡ ok a → P a → Safe Q (next a))
      → Safe Q (o >>= next)
  Safe-known P Q (ok value) next h step = step value refl h
  Safe-known P Q (err message) next h step = tt
  Safe-known P Q fault next h step = h

  pub Safe-weaken :
      {A : Type 0} (P Q : A → Type 0) (o : Outcome E A)
      → Safe P o
      → ((a : A) → P a → Q a)
      → Safe Q o
  Safe-weaken P Q (ok value) h step = step value h
  Safe-weaken P Q (err message) h step = tt
  Safe-weaken P Q fault h step = h

  pub Safe-Holds :
      {A : Type 0} (P : A → Type 0) (o : Outcome E A)
      → Safe (λ a. Unit {0}) o
      → Holds P o
      → Safe P o
  Safe-Holds P (ok value) safe h = h
  Safe-Holds P (err message) safe h = tt
  Safe-Holds P fault safe h = safe
