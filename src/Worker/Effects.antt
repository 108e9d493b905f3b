-- ===== src/Worker/Effects.antt =====
-- The effects of the Worker's handlers: they read the database, the bucket and the clock, and write
-- nothing. Others write while a handler waits, so each read sees the world of its own moment.
use agregado.Base.{ℕ, ◌+◌, ◌≡◌, refl, arith, Bool, List, Option, if◌then◌else◌}
use agregado.Base.Outcome.{Outcome, ok, throws, rejected}
use agregado.Text.{Str}
use agregado.Worker.Store.{SourceRow, EntryRecord}

-- `BRIDGE_DB`, `BRIDGE_BUCKET` (the body of the object under a key) and `Date.now()` at one moment,
-- and whether a call of the database or the bucket succeeds.
pub record World : Type 0 where
  pub sources : List SourceRow
  pub entries : List EntryRecord
  pub bucket : Str → Option Str
  pub now_ms : ℕ
  pub d1_up : Bool
  pub r2_up : Bool

-- The world at each moment of a request.
abbrev pub Timeline : Type 0
Timeline = ℕ → World

-- An `async` function: what it gives, from a moment on, and the moment at which it is done.
abbrev pub Async : Type 0 → Type 0
Async A = Timeline → ℕ → Outcome A × ℕ

infixl 5 ◌>>=◌
abbrev pub ◌>>=◌ : {A B : Type 0} → Async A → (A → Async B) → Async B
◌>>=◌ action continue w n =
    let (outcome, later) = action w n in
    elim outcome [
      | ok value ↦ continue value w later
      | throws exception ↦ (throws exception, later)
    ]

abbrev pub pure : {A : Type 0} → A → Async A
pure a w n = (ok a, n)

-- A value or an exception that needs no waiting.
abbrev pub lift : {A : Type 0} → Outcome A → Async A
lift o w n = (o, n)

-- `await` of a query.
abbrev pub query : {A : Type 0} → (World → A) → Async A
query read w n = (if (w n).d1_up then ok (read (w n)) else throws rejected, n + 1)

-- `await env.BRIDGE_BUCKET.get(key)`
abbrev pub get_object : Str → Async (Option Str)
get_object key w n = (if (w n).r2_up then ok ((w n).bucket key) else throws rejected, n + 1)

abbrev pub date_now : Async ℕ
date_now w n = (ok (w n).now_ms, n + 1)

-- A result comes through the result of the first part.
pub >>=-eq-ok :
    {A B : Type 0} (m : Async A) (f : A → Async B) (w : Timeline) (n n'' : ℕ) (b : B)
    → (m >>= f) w n ≡ (ok b, n'')
    → (a : A) × (n' : ℕ) × (m w n ≡ (ok a, n')) × (f a w n' ≡ (ok b, n''))
>>=-eq-ok {A} {B} m f w n n'' b h = go (m w n) refl h
  where
    go :
        (r : Outcome A × ℕ)
        → m w n ≡ r
        → ◌≡◌ {A = Outcome B × ℕ}
            (elim r.0 [ ok a ↦ f a w r.1 | throws e ↦ (throws e, r.1) ])
            (ok b, n'')
        → (a : A) × (n' : ℕ) × (m w n ≡ (ok a, n')) × (f a w n' ≡ (ok b, n''))
    go (ok a, n') e k = (a, n', e, k)
    go (throws x, n') e k = cc

-- A query that answered read the world of its moment.
pub query-eq-ok :
    {A : Type 0} (read : World → A) (w : Timeline) (n n' : ℕ) (a : A)
    → query read w n ≡ (ok a, n')
    → (a ≡ read (w n)) × (n' ≡ n + 1)
query-eq-ok read w n n' a h = ground arith
