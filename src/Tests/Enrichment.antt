-- ===== src/Tests/Enrichment.antt =====
-- Runs of n8n/src/miniflux.js, n8n/src/enrich.js and of the workflow of
-- n8n/scripts/build-article-enrichment.js.
use agregado.Base.{
  ℕ, zero, suc, ◌+◌, ◌≤◌, ◌≡◌, ◌≢◌, ◌↔◌, refl, Bool, true, [], ◌∷◌, ◌++◌, Option, none, some,
  length, replicate, All, arith, ◌==◌,
}
use agregado.Base.Outcome.{ok}
use agregado.Text.{Str, codes}
use agregado.Text.Trim.{strip_end}
use agregado.Atom.Feed.{permalink_url}
use agregado.Ingest.Identity.{permalink_uuid, uuid_text}
use agregado.Enrichment.Miniflux.{
  Entry, Payload, match_bridge_permalink, classify_enrich_failure, has_status_4xx, retryable,
}
use agregado.Enrichment.Permalink.{match_bridge_permalink-permalink_url}
use agregado.Enrichment.Request.{Body, build_enrich_request, build_enrich_request_iff, IsRequestFor}
use agregado.Enrichment.Workflow.{
  Answers, Effects, no_row, run, call_enrich_api, determine_bridge_match, ended,
}
use agregado.Enrichment.Workflow.Calls.{IsBodyOf, run-IsBodyOf}
use agregado.Enrichment.Workflow.Retries.{
  Carries, calls_left, failing, run_of_failing, run_ends_of_Carries,
}
use agregado.Tests.Fixture.{sum_digest, origin}
use agregado.Tests.Parameters.{ascii_case, ascii_fold, keyed_bytes, keyed_text}

abbrev article : Entry
article = record {
  id = 7;
  url = codes "https://a.example/x";
  title = [];
  author = none;
  published_at = none;
  feed_content = some (codes " <p>x</p>");
}

abbrev next_article : Entry
next_article = record article { id = 8 }

build_enrich_request_iff_example :
    ((body : Body) × (build_enrich_request (some article) none ≡ ok body)
      × IsRequestFor article body)
    ↔ ((article.id ≢ 0) × (article.url ≢ []))
build_enrich_request_iff_example = build_enrich_request_iff article none

abbrev uuid : Str
uuid = uuid_text (sum_digest (codes "k1"))

uuid_made : permalink_uuid keyed_text (codes "1") (codes "k") ≡ some uuid
unfolding permalink_uuid
uuid_made = refl

one_origin : strip_end (λ c. c == b'/') (origin ++ codes "/") ≡ origin
unfolding strip_end
one_origin = refl

match_bridge_permalink-permalink_url_example :
    match_bridge_permalink ascii_fold ascii_case (permalink_url origin uuid) (origin ++ codes "/")
    ≡ some uuid
match_bridge_permalink-permalink_url_example =
    match_bridge_permalink-permalink_url ascii_fold ascii_case keyed_text (codes "1") (codes "k")
      uuid origin (origin ++ codes "/") uuid_made (λ e. absurd (ground arith)) one_origin

abbrev body : Body
body = record {
  entry_id = 7;
  canonical_url = codes "https://a.example/x";
  title = codes "(no title)";
  author = none;
  published_at = none;
  bridge_content = none;
  feed_content = none;
}

abbrev quiet : Effects
quiet = record { calls = []; waited = 0; alerts = []; sent = [] }

abbrev unavailable : Str
unavailable = codes "503 Service Unavailable"

-- A failed call whose item keeps its fields.
abbrev kept : Answers
kept = record {
  rows = no_row;
  failure = some (record { message = unavailable; carries = true });
  accepted = true;
  reply = true;
}

All-kept : (n : ℕ) → All Carries (replicate n kept)
All-kept zero = tt
All-kept (suc n) = (refl, All-kept n)

abbrev parsed : Str → Option (Option Payload)
parsed raw_body = some none

run_ends_of_Carries_example :
    let end =
      run keyed_bytes ascii_fold ascii_case
        (codes "k")
        origin
        parsed
        (replicate 20 kept)
        quiet
        (call_enrich_api article body 0) in
    ((success : Bool) × (end.1 ≡ ended success))
    × (length end.0.calls ≤ length quiet.calls + calls_left (call_enrich_api article body 0))
run_ends_of_Carries_example =
    run_ends_of_Carries keyed_bytes ascii_fold ascii_case (codes "k") origin parsed
      (replicate 20 kept) quiet (call_enrich_api article body 0) (All-kept 20) tt (omega arith)

unavailable_is_retryable : classify_enrich_failure unavailable ≡ retryable
unfolding classify_enrich_failure has_status_4xx
unavailable_is_retryable = refl

run_of_failing_example :
    let end =
      run keyed_bytes ascii_fold ascii_case
        (codes "k")
        origin
        parsed
        (failing 3 unavailable)
        quiet
        (call_enrich_api article body 0) in
    (length end.0.calls ≡ 3 + length quiet.calls) × (end.1 ≡ call_enrich_api article body 1)
run_of_failing_example =
    run_of_failing keyed_bytes ascii_fold ascii_case (codes "k") origin parsed 2 0 unavailable quiet
      article body unavailable_is_retryable

run-IsBodyOf_example :
    All
      (IsBodyOf article)
      (run keyed_bytes ascii_fold ascii_case
        (codes "k")
        origin
        parsed
        (replicate 20 kept)
        quiet
        (determine_bridge_match (article ∷ next_article ∷ []))).0.calls
run-IsBodyOf_example =
    run-IsBodyOf keyed_bytes ascii_fold ascii_case (codes "k") origin parsed (replicate 20 kept)
      quiet article (next_article ∷ []) refl
