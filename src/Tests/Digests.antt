-- ===== src/Tests/Digests.antt =====
-- Runs of n8n/src/digest.js and of the workflow of n8n/scripts/build-daily-digest.js.
use agregado.Base.{
  ◌+◌, ◌/◌, ◌≤◌, ◌≡◌, ◌↔◌, refl, Bool, true, false, [], none, some, length, replicate, All, arith,
}
use agregado.Base.Int.{pos}
use agregado.Base.Outcome.{ok}
use agregado.Text.{Str, codes}
use agregado.Text.Trim.{strip_end}
use agregado.Platform.Date.{ms_per_day, date_code}
use agregado.Digests.{DigestRequest, digest_date_key, build_digest_request, empty_digest_alert}
use agregado.Digests.Key.{digest_date_key_iff}
use agregado.Nodes.{follow}
use agregado.Digests.Workflow.Graph.{nodes, connections, name_of, result_of, name_of-advance_digest}
use agregado.Digests.Workflow.{
  Effects, Answers, build_request, send_digest_email, advance, run, ended,
}
use agregado.Digests.Workflow.Retries.{mails_left, run_ends_of_IsAbout}

digest_date_key_iff_example :
    ((key : Str) × (digest_date_key (pos 1700000000000) ≡ ok key)
      × (digest_date_key (pos 1700006399999) ≡ ok key))
    ↔ (1700000000000 / ms_per_day ≡ 1700006399999 / ms_per_day)
digest_date_key_iff_example =
    digest_date_key_iff 1700000000000 1700006399999 (omega arith) (omega arith)

abbrev request : DigestRequest
request = record {
  date = codes "2023-11-14";
  url = codes "http://h/api/private/digests/2023-11-14";
}

request_built : build_digest_request (pos 1700000000000) (some (codes "http://h/")) ≡ ok request
unfolding build_digest_request digest_date_key strip_end date_code
request_built = refl

empty_digest_alert_test :
    (empty_digest_alert (some (record { selected_count = 2; empty_reason = [] })) (codes "d")
      ≡ none)
    × (empty_digest_alert (some (record { selected_count = 0; empty_reason = [] })) (codes "d")
        ≡ some (record { date = codes "d"; message = codes "empty: no reason given" }))
unfolding empty_digest_alert
empty_digest_alert_test = (refl, refl)

-- The digest comes, and the mail server refuses it.
abbrev refused : Answers
refused = record {
  digest = some (record { selected_count = 2; empty_reason = [] });
  accepted = false;
  reply = true;
}

abbrev fresh : Effects
fresh = record { fetched = []; mailed = []; waited = 0; attempt = 0; alerts = []; sent = [] }

run_ends_of_IsAbout_example :
    let end =
      run
        (replicate 26 refused)
        fresh
        (build_request (pos 1700000000000) (some (codes "http://h/"))) in
    ((success : Bool) × (end.1 ≡ ended success))
    × All (λ url. url ≡ request.url) end.0.fetched
    × (length end.0.mailed
        ≤ length fresh.mailed
          + mails_left 0 (build_request (pos 1700000000000) (some (codes "http://h/"))))
run_ends_of_IsAbout_example =
    run_ends_of_IsAbout (replicate 26 refused) fresh
      (build_request (pos 1700000000000) (some (codes "http://h/"))) request tt request_built
      (omega arith)

name_of-advance_digest_example :
    name_of
      (advance refused fresh
        (send_digest_email request (record { selected_count = 2; empty_reason = [] }))).1
    ≡ follow nodes connections
        (name_of (send_digest_email request (record { selected_count = 2; empty_reason = [] })))
        (result_of refused fresh
          (send_digest_email request (record { selected_count = 2; empty_reason = [] })))
name_of-advance_digest_example =
    name_of-advance_digest refused fresh
      (send_digest_email request (record { selected_count = 2; empty_reason = [] }))
