-- ===== src/Digests.antt =====
-- n8n/src/digest.js: the key of a day, the request for a day's digest, and the alert of an empty one.
pub mod Key
pub mod Workflow
use agregado.Base.{
  ℕ, zero, suc, ◌≡◌, refl, true, List, [], ◌∷◌, ◌++◌, Option, none, some, if◌then◌else◌, ltb, leb,
  take, ◌==◌,
}
use agregado.Base.Int.{ℤ}
use agregado.Base.Outcome.{Outcome, ok, throws, error, ◌>>=◌}
use agregado.Text.{Str, codes}
use agregado.Text.Trim.{strip_end}
use agregado.Platform.Date.{to_iso_string}

unfoldable pub digest_date_key : ℤ → Outcome Str
digest_date_key now = do text ← to_iso_string now; ok (take 10 text)

pub record DigestRequest : Type 0 where
  pub date : Str
  pub url : Str

unfoldable pub build_digest_request : ℤ → Option Str → Outcome DigestRequest
build_digest_request now none = throws (error (codes "AGREGADO_BASE_URL is not set"))
build_digest_request now (some []) = throws (error (codes "AGREGADO_BASE_URL is not set"))
build_digest_request now (some (c ∷ base_url)) = do
  date ← digest_date_key now
  ok (record {
    date = date;
    url = strip_end (λ d. d == b'/') (c ∷ base_url) ++ (codes "/api/private/digests/" ++ date);
  })

-- The artifact's fields that the alert reads.
pub record Artifact : Type 0 where
  pub selected_count : ℕ
  pub empty_reason : Str

pub record DigestAlert : Type 0 where
  pub date : Str
  pub message : Str

-- `artifact.EmptyReason || "no reason given"`
abbrev pub reason_of : Str → Str
reason_of [] = codes "no reason given"
reason_of (c ∷ s) = c ∷ s

unfoldable pub empty_digest_alert : Option Artifact → Str → Option DigestAlert
empty_digest_alert none date = none
empty_digest_alert (some artifact) date =
    if ltb 0 artifact.selected_count
    then none
    else some (record { date = date; message = codes "empty: " ++ reason_of artifact.empty_reason })
