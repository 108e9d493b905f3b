-- ===== src/Digests/Workflow/Retries.antt =====
-- The retries of the workflow of n8n/scripts/build-daily-digest.js.
use agregado.Base.{
  ℕ, suc, ◌+◌, ◌-◌, ◌*◌, ◌≤◌, ◌≡◌, refl, ap, Bool, false, List, [], ◌∷◌, Option, none, some, length,
  All, arith,
}
use agregado.Base.Outcome.{Outcome, ok, throws}
use agregado.Digests.{DigestRequest, build_digest_request, Artifact, empty_digest_alert}
use agregado.Digests.Workflow.{
  Effects, Answers, Node, build_request, get_digest, digest_fetch_failed, send_digest_email,
  check_empty_digest, classify_send_failure, retry_send, wait_before_retry, alert_claim_query,
  claim_alert, first_failure, notify, fail, ended, advance, run, at_send, at_claim,
}

-- The most mails that a run has before it, where `attempt` sends have failed.
abbrev pub mails_left : ℕ → Node → ℕ
mails_left attempt (build_request now base_url) = suc (3 - attempt)
mails_left attempt (get_digest r) = suc (3 - attempt)
mails_left attempt (send_digest_email r d) = suc (3 - attempt)
mails_left attempt (classify_send_failure r) = 3 - attempt
mails_left attempt (retry_send r k) = 4 - attempt
mails_left attempt (wait_before_retry r k) = suc (3 - attempt)
mails_left attempt _ = 0

-- The most nodes.
abbrev pub nodes_left : ℕ → Node → ℕ
nodes_left attempt (build_request now base_url) = 5 * suc (3 - attempt) + 6
nodes_left attempt (get_digest r) = 5 * suc (3 - attempt) + 5
nodes_left attempt (send_digest_email r d) = 5 * suc (3 - attempt) + 4
nodes_left attempt (classify_send_failure r) = 5 * suc (3 - attempt) + 3
nodes_left attempt (retry_send r k) = 5 * (4 - attempt) + 7
nodes_left attempt (wait_before_retry r k) = 5 * suc (3 - attempt) + 6
nodes_left attempt (digest_fetch_failed r) = 6
nodes_left attempt (check_empty_digest r d) = 6
nodes_left attempt (alert_claim_query d) = 5
nodes_left attempt (claim_alert d) = 4
nodes_left attempt (first_failure d c) = 3
nodes_left attempt (notify d) = 2
nodes_left attempt fail = 1
nodes_left attempt (ended s) = 0

-- The run is about the request, and counts the failed sends.
abbrev pub IsAbout : DigestRequest → ℕ → Node → Type 0
IsAbout request attempt (build_request now base_url) =
    build_digest_request now base_url ≡ ok request
IsAbout request attempt (get_digest r) = r ≡ request
IsAbout request attempt (send_digest_email r d) = r ≡ request
IsAbout request attempt (classify_send_failure r) = r ≡ request
IsAbout request attempt (retry_send r k) = (r ≡ request) × (k ≡ attempt)
IsAbout request attempt (wait_before_retry r k) = (r ≡ request) × (k ≡ attempt)
IsAbout request attempt _ = Unit

abbrev Lowers : DigestRequest → Effects → Node → Effects × Node → Type 0
Lowers request w n (w', n') =
    (nodes_left w'.attempt n' ≤ nodes_left w.attempt n - 1)
    × (length w'.mailed + mails_left w'.attempt n' ≤ length w.mailed + mails_left w.attempt n)

step-Lowers :
    (a : Answers) (w : Effects) (n : Node) (request : DigestRequest)
    → IsAbout request w.attempt n
    → Lowers request w n (advance a w n)
unfolding advance at_send at_claim empty_digest_alert
step-Lowers a w n request h = ground arith

abbrev Serves : DigestRequest → Effects × Node → Type 0
Serves request (w, n) = All (λ url. url ≡ request.url) w.fetched × IsAbout request w.attempt n

requested :
    (o : Outcome DigestRequest) (request : DigestRequest) (attempt : ℕ)
    → o ≡ ok request
    → IsAbout request attempt (elim o [ throws e ↦ ended false | ok r ↦ get_digest r ])
requested (throws e) request attempt h = tt
requested (ok r) request attempt h = cc

fetched_next :
    (digest : Option Artifact) (r request : DigestRequest) (attempt : ℕ)
    → r ≡ request
    → IsAbout request attempt (elim digest [
      | none ↦ digest_fetch_failed r
      | some artifact ↦ send_digest_email r artifact
    ])
fetched_next none r request attempt h = tt
fetched_next (some artifact) r request attempt h = h

step-Serves :
    (a : Answers) (w : Effects) (n : Node) (request : DigestRequest)
    → Serves request (w, n)
    → Serves request (advance a w n)
unfolding advance at_send at_claim empty_digest_alert
step-Serves a w (build_request now base_url) request (urls, h) =
    (urls, requested (build_digest_request now base_url) request w.attempt h)
step-Serves a w (get_digest r) request (urls, h) =
    ((ap (λ q. q.url) h, urls), fetched_next a.digest r request w.attempt h)
step-Serves a w (send_digest_email r d) request (urls, h) = ground arith
step-Serves a w (retry_send r k) request (urls, h) = ground arith
step-Serves a w (claim_alert d) request (urls, h) = ground arith
step-Serves a w (first_failure d c) request (urls, h) = ground arith
step-Serves a w (notify d) request (urls, h) = ground arith
step-Serves a w (check_empty_digest r d) request (urls, h) = ground arith
step-Serves a w (classify_send_failure r) request (urls, h) = (urls, (h, refl))
step-Serves a w (wait_before_retry r k) request (urls, h) = (urls, h.0)
step-Serves a w (digest_fetch_failed r) request (urls, h) = (urls, tt)
step-Serves a w (alert_claim_query d) request (urls, h) = (urls, tt)
step-Serves a w fail request (urls, h) = (urls, tt)
step-Serves a w (ended s) request (urls, h) = (urls, tt)

ended_of_none_left :
    (attempt : ℕ) (n : Node) → nodes_left attempt n ≤ 0 → (success : Bool) × (n ≡ ended success)
ended_of_none_left attempt (ended s) h = (s, refl)
ended_of_none_left attempt n h = absurd (omega arith)

-- Take a run that is about a request, counts the failed sends and has fetched no other URL than the
-- request's. It ends after at most as many nodes as are left to it, still has fetched no other URL,
-- and mails no more often than is left to it.
pub run_ends_of_IsAbout :
    (answers : List Answers) (w : Effects) (n : Node) (request : DigestRequest)
    → All (λ url. url ≡ request.url) w.fetched
    → IsAbout request w.attempt n
    → nodes_left w.attempt n ≤ length answers
    → let end = run answers w n in
      ((success : Bool) × (end.1 ≡ ended success))
      × All (λ url. url ≡ request.url) end.0.fetched
      × (length end.0.mailed ≤ length w.mailed + mails_left w.attempt n)
unfolding run
run_ends_of_IsAbout [] w n request urls about enough =
    (ended_of_none_left w.attempt n enough, urls, omega arith)
run_ends_of_IsAbout (a ∷ answers) w n request urls about enough =
    let (lower, fewer) = step-Lowers a w n request about in
    let (urls', about') = step-Serves a w n request (urls, about) in
    let (w', n') = advance a w n in
    let (last, fetched, mailed) =
      run_ends_of_IsAbout answers w' n' request urls' about' (omega arith) in
    (last, fetched, omega arith)
