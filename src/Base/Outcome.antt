-- ===== src/Base/Outcome.antt =====
-- What a JavaScript call gives: a value, or an exception. For an `async` function the two are a
-- fulfilled and a rejected promise.
use Prim.Native.Nat.{ℕ}
use mathlib.Core.Path.{◌≡◌, refl}
use mathlib.Core.Logic.{◌⊎◌, inl, inr}
use mathlib.Core.List.{List}

pub data Exn : Type 0 where
  -- thrown by `Date.prototype.toISOString` on an invalid date
  range_error : Exn
  -- a rejected call of the database or of the bucket
  rejected : Exn
  -- thrown by `encodeURIComponent` on a surrogate alone
  uri_error : Exn
  -- `throw new Error(message)`
  error : List ℕ → Exn

pub data Outcome {ℓ} (A : Type ℓ) : Type ℓ where
  ok : A → Outcome A
  throws : Exn → Outcome A

infixl 5 ◌>>=◌
abbrev pub ◌>>=◌ {ℓ κ} : {A : Type ℓ} {B : Type κ} → Outcome A → (A → Outcome B) → Outcome B
o >>= continue = elim o [ ok value ↦ continue value | throws exception ↦ throws exception ]

pub Outcome-cases {ℓ} :
    {A : Type ℓ} (o : Outcome A) → ((a : A) × (o ≡ ok a)) ⊎ ((e : Exn) × (o ≡ throws e))
Outcome-cases (ok a) = inl (a, refl)
Outcome-cases (throws e) = inr (e, refl)
