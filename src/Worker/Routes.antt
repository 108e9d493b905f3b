-- ===== src/Worker/Routes.antt =====
-- The two regular expressions of email-worker/src/index.ts, on the path of a request.
pub mod Laws
use agregado.Base.{Bool, true, false, [], ◌∷◌, Option, none, some, ◌==◌, if◌then◌else◌, ◌≡◌, refl}
use agregado.Base.Options.{◌>>=◌}
use agregado.Text.{Str, codes, str_eq, after_prefix}

-- `[^/]*` with what must match behind it: as many characters as possible first, then fewer.
unfoldable pub greedy : (Str → Bool) → Str → Option Str
greedy then_matches [] = if then_matches [] then some [] else none
greedy then_matches (c ∷ s) =
    let here = if then_matches (c ∷ s) then some [] else none in
    elim (c == b'/') [
      | true ↦ here
      | false ↦ elim (greedy then_matches s) [ some group ↦ some (c ∷ group) | none ↦ here ]
    ]

-- The group `([^/]+)`.
unfoldable pub group : (Str → Bool) → Str → Option Str
group then_matches [] = none
group then_matches (c ∷ s) = elim (c == b'/') [
  | true ↦ none
  | false ↦ greedy then_matches s >>= λ more. some (c ∷ more)
]

-- `pathname.match(/^\/feed\/([^/]+)\.atom$/)`, its group.
unfoldable pub feed_match : Str → Option Str
feed_match pathname =
    after_prefix (codes "/feed/") pathname >>= group (λ rest. str_eq rest (codes ".atom"))

-- `pathname.match(/^\/p\/([^/]+)$/)`, its group.
unfoldable pub permalink_match : Str → Option Str
permalink_match pathname = after_prefix (codes "/p/") pathname >>= group (λ rest. str_eq rest [])

-- For evaluation: what the routes are computed by.
unfoldable pub routes_code : Unit {0}
unfolding greedy group feed_match permalink_match after_prefix str_eq
routes_code = tt

routes_test :
    (feed_match (codes "/feed/tldr.atom") ≡ some (codes "tldr"))
    × (feed_match (codes "/feed/a.atom.atom") ≡ some (codes "a.atom"))
    × (feed_match (codes "/feed/.atom") ≡ none)
    × (feed_match (codes "/feed/a/b.atom") ≡ none)
    × (permalink_match (codes "/p/0f6f") ≡ some (codes "0f6f"))
    × (permalink_match (codes "/p/") ≡ none)
unfolding routes_code
routes_test = (refl, refl, refl, refl, refl, refl)
