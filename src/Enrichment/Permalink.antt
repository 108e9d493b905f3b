-- ===== src/Enrichment/Permalink.antt =====
-- `matchBridgePermalink` of n8n/src/miniflux.js against `permalinkUuid` of n8n/src/identity.js.
use agregado.Base.{
  ℕ, zero, suc, ◌-◌, ◌≤◌, ◌≡◌, ◌≢◌, refl, sym, ap, ◌∙◌, true, [], ◌∷◌, ◌++◌, map, some, ◌==◌,
  length, drop, length-drop, All, All-drop, append_assoc, append-nil, arith,
}
use agregado.Base.Options.{eq_of_some}
use agregado.Text.{Str, codes}
use agregado.Text.Trim.{strip_end}
use agregado.Platform.Crypto.{CaseMap}
use agregado.Platform.Headers.{lower}
use agregado.Platform.Utf8.Laws.{IsAscii}
use agregado.Atom.Feed.{permalink_url}
use agregado.BasicAuth.Hex.{is_hex_digit}
use agregado.Ingest.Identity.{
  Hmac, permalink_uuid, permalink_uuid-chars, uuid_text-cut, cut, slice, length-slice, All-slice,
  is_uuid_char,
}
use agregado.Enrichment.Miniflux.{
  CaseFold, match_bridge_permalink, after_literal, after_uuid, after_hex,
}

after_hex-append :
    (n : ℕ) (s rest : Str)
    → length s ≡ n
    → All (λ c. is_hex_digit c ≡ true) s
    → after_hex n (s ++ rest) ≡ some rest
unfolding after_hex
after_hex-append zero [] rest e h = refl
after_hex-append zero (c ∷ s) rest e h = absurd (omega arith)
after_hex-append (suc n) [] rest e h = absurd (omega arith)
after_hex-append (suc n) (c ∷ s) rest e (hc, h) =
    let again = after_hex-append n s rest (omega arith) h in ground arith

module _ (h : Str) (whole : length h ≡ 32) (hex : All (λ c. is_hex_digit c ≡ true) h) where
  after_slice :
      (from to : ℕ) (rest : Str)
      → from ≤ to
      → to ≤ length h
      → after_hex (to - from) (slice h from to ++ rest) ≡ some rest
  after_slice from to rest le within =
      after_hex-append (to - from) (slice h from to) rest (length-slice h from to le within)
        (All-slice (λ c. is_hex_digit c ≡ true) h from to hex)

  after_last : after_hex 12 (drop 20 h) ≡ some []
  after_last =
      ap (after_hex 12) (sym (append-nil (drop 20 h)))
      ∙ after_hex-append 12 (drop 20 h) [] (omega (arith, length-drop 20 h))
          (All-drop (λ c. is_hex_digit c ≡ true) 20 h hex)

  after_uuid-cut : after_uuid (cut h) ≡ some []
  unfolding after_uuid
  after_uuid-cut =
      rw
        (
          after_slice 0 8 _ (omega arith) (omega arith),
          after_slice 8 12 _ (omega arith) (omega arith),
          after_slice 12 16 _ (omega arith) (omega arith),
          after_slice 16 20 _ (omega arith) (omega arith),
          after_last,
        )
        refl

after_literal-append :
    (fold : CaseFold) (case_map : CaseMap) (p s : Str)
    → after_literal fold case_map p (p ++ s) ≡ some s
unfolding after_literal
after_literal-append fold case_map [] s = refl
after_literal-append fold case_map (c ∷ p) s =
    let again = after_literal-append fold case_map p s in ground arith

lower_uuid : (s : Str) → All (λ c. is_uuid_char c ≡ true) s → IsAscii s × (map lower s ≡ s)
lower_uuid [] h = (tt, refl)
lower_uuid (c ∷ s) (hc, h) =
    let (small, same) = lower_uuid s h in
    let this : lower c ≡ c = ground arith in ((ground arith, small), rw (this, same) refl)

permalink_uuid-after_uuid :
    (hmac : Hmac) (id secret uuid : Str)
    → permalink_uuid hmac id secret ≡ some uuid
    → after_uuid uuid ≡ some []
unfolding permalink_uuid
permalink_uuid-after_uuid hmac id [] uuid made = absurd (ground arith)
permalink_uuid-after_uuid hmac id (c ∷ secret) uuid made =
    let (h, e, whole, hex) =
      uuid_text-cut (hmac.hmac_sha256 (c ∷ secret) id)
        (hmac.hmac_sha256-IsDigest (c ∷ secret) id) in
    rw (← eq_of_some _ uuid made, e) (after_uuid-cut h whole hex)

-- The link of every permalink that the ingest makes, under an origin that is not empty, is recognised
-- as that permalink by the enrichment if its own origin, without the slashes at its end, is the same.
pub match_bridge_permalink-permalink_url :
    (fold : CaseFold) (case_map : CaseMap) (hmac : Hmac) (id secret uuid origin bridge_origin : Str)
    → permalink_uuid hmac id secret ≡ some uuid
    → origin ≢ []
    → strip_end (λ c. c == b'/') bridge_origin ≡ origin
    → match_bridge_permalink fold case_map (permalink_url origin uuid) bridge_origin ≡ some uuid
unfolding match_bridge_permalink permalink_url
match_bridge_permalink-permalink_url fold case_map hmac id secret uuid origin [] made ne same =
    absurd (ne (sym same ∙ unfold strip_end in refl))
match_bridge_permalink-permalink_url fold case_map hmac id secret uuid [] (c ∷ bridge_origin) made
      ne same =
    absurd (ne refl)
match_bridge_permalink-permalink_url fold case_map hmac id secret uuid (d ∷ origin)
      (c ∷ bridge_origin) made ne same =
    let (small, low) = lower_uuid uuid (permalink_uuid-chars hmac id secret uuid made).1 in
    let literal : after_literal fold case_map ((d ∷ origin) ++ codes "/p/")
          ((d ∷ origin) ++ (codes "/p/" ++ uuid))
        ≡ some uuid =
      rw (← append_assoc (d ∷ origin) (codes "/p/") uuid)
        (after_literal-append fold case_map ((d ∷ origin) ++ codes "/p/") uuid) in
    rw (same, literal, permalink_uuid-after_uuid hmac id secret uuid made)
      (ap some (case_map.to_lower_ascii uuid small ∙ low))
