-- ===== src/Enrichment/Workflow/Retries.antt =====
-- The retries of the workflow of n8n/scripts/build-article-enrichment.js: when they end, and when not.
use agregado.Base.{
  ℕ, zero, suc, ◌+◌, ◌-◌, ◌*◌, ◌≤◌, ◌≡◌, refl, Bool, true, false, List, [], ◌∷◌, Option, none, some,
  length, All, arith,
}
use agregado.Text.{Str}
use agregado.Platform.Crypto.{KeyedHash, CaseMap}
use agregado.Enrichment.Miniflux.{
  Entry, Payload, CaseFold, terminal, retryable, classify_enrich_failure,
}
use agregado.Enrichment.Request.{Body}
use agregado.Enrichment.Workflow.{
  Effects, Answers, Node, verify_signature, parse_entries, determine_bridge_match,
  bridge_content_query, lookup_bridge_content, attach_bridge_content, build_request,
  call_enrich_api, classify_failure, retry_enrich, wait_before_retry, entry_failed,
  alert_claim_query, claim_alert, first_failure, notify, ended, advance, run, at_signature,
  at_match, next_attempt, should_retry, no_row,
}

-- The item behind a failed call still has the fields of the item before it.
abbrev pub Carries : Answers → Type 0
Carries a = elim a.failure [ none ↦ Unit | some failure ↦ failure.carries ≡ true ]

-- The most calls of the API that a run has before it.
abbrev pub calls_left : Node → ℕ
calls_left (call_enrich_api e b attempt) = suc (3 - attempt)
calls_left (classify_failure e b attempt f) = 3 - attempt
calls_left (retry_enrich e b attempt c) = 4 - attempt
calls_left (wait_before_retry e b attempt) = suc (3 - attempt)
calls_left (verify_signature h r) = 4
calls_left (parse_entries p) = 4
calls_left (determine_bridge_match es) = 4
calls_left (bridge_content_query e u) = 4
calls_left (lookup_bridge_content e u) = 4
calls_left (attach_bridge_content e c) = 4
calls_left (build_request e c) = 4
calls_left _ = 0

-- The most nodes.
abbrev pub nodes_left : Node → ℕ
nodes_left (verify_signature h r) = 27
nodes_left (parse_entries p) = 26
nodes_left (determine_bridge_match es) = 25
nodes_left (bridge_content_query e u) = 24
nodes_left (lookup_bridge_content e u) = 23
nodes_left (attach_bridge_content e c) = 22
nodes_left (build_request e c) = 21
nodes_left (call_enrich_api e b attempt) = 4 * suc (3 - attempt) + 4
nodes_left (classify_failure e b attempt f) = 4 * suc (3 - attempt) + 3
nodes_left (retry_enrich e b attempt c) = 4 * (4 - attempt) + 6
nodes_left (wait_before_retry e b attempt) = 4 * suc (3 - attempt) + 5
nodes_left (entry_failed e) = 6
nodes_left (alert_claim_query e) = 5
nodes_left (claim_alert e) = 4
nodes_left (first_failure e c) = 3
nodes_left (notify e) = 2
nodes_left (ended s) = 0
nodes_left _ = 1

-- What is left of the attempts where the number is carried on.
abbrev CarriesOn : Node → Type 0
CarriesOn (classify_failure e b attempt f) = f.carries ≡ true
CarriesOn _ = Unit

-- A failed call whose item is lost.
abbrev pub lost : Str → Answers
lost message = record {
  rows = no_row;
  failure = some (record { message = message; carries = false });
  accepted = true;
  reply = true;
}

-- The answers of `n` failed calls.
abbrev pub failing : ℕ → Str → List Answers
failing zero message = []
failing (suc n) message =
    lost message ∷ lost message ∷ lost message ∷ lost message ∷ failing n message

module _ (hash : KeyedHash) (fold : CaseFold) (case_map : CaseMap) (webhook_secret : Str)
    (bridge_origin : Str) (payload_of : Str → Option (Option Payload)) where
  abbrev step : Answers → Effects → Node → Effects × Node
  step = advance hash fold case_map webhook_secret bridge_origin payload_of

  -- A node lowers what is left.
  abbrev Lowers : Effects → Node → Effects × Node → Type 0
  Lowers w n (w', n') =
      (nodes_left n' ≤ nodes_left n - 1)
      × (length w'.calls + calls_left n' ≤ length w.calls + calls_left n)
      × CarriesOn n'

  step-Lowers :
      (a : Answers) (w : Effects) (n : Node) → Carries a → CarriesOn n → Lowers w n (step a w n)
  unfolding advance at_signature at_match next_attempt should_retry
  step-Lowers a w (attach_bridge_content e none) h k = ground arith
  step-Lowers a w (attach_bridge_content e (some c)) h k = ground arith
  step-Lowers a w (determine_bridge_match []) h k = ground arith
  step-Lowers a w (determine_bridge_match (e ∷ es)) h k = ground arith
  step-Lowers a w (retry_enrich e b attempt terminal) h k = ground arith
  step-Lowers a w (retry_enrich e b attempt retryable) h k = ground arith
  step-Lowers a w n h k = ground arith

  ended_of_none_left : (n : Node) → nodes_left n ≤ 0 → (success : Bool) × (n ≡ ended success)
  ended_of_none_left (ended s) h = (s, refl)
  ended_of_none_left (call_enrich_api e b k) h = absurd (omega arith)
  ended_of_none_left (classify_failure e b k f) h = absurd (omega arith)
  ended_of_none_left (retry_enrich e b k c) h = absurd (omega arith)
  ended_of_none_left (wait_before_retry e b k) h = absurd (omega arith)
  ended_of_none_left n h = absurd (omega arith)

  -- While the item behind every failed call keeps its fields, that of the node at the start included,
  -- a run ends after at most as many nodes as are left to it, and calls the API no more often than is
  -- left to it.
  pub run_ends_of_Carries :
      (answers : List Answers) (w : Effects) (n : Node)
      → All Carries answers
      → CarriesOn n
      → nodes_left n ≤ length answers
      → let end = run hash fold case_map webhook_secret bridge_origin payload_of answers w n in
        ((success : Bool) × (end.1 ≡ ended success))
        × (length end.0.calls ≤ length w.calls + calls_left n)
  unfolding run
  run_ends_of_Carries [] w n h k enough = (ended_of_none_left n enough, omega arith)
  run_ends_of_Carries (a ∷ answers) w n (ha, h) k enough =
      let (lower, fewer, k') = step-Lowers a w n ha k in
      let (last, calls) =
        run_ends_of_Carries answers (step a w n).0 (step a w n).1 h k' (omega arith) in
      (last, omega arith)

  failing_round :
      (rest : List Answers) (attempt : ℕ) (message : Str) (w : Effects) (entry : Entry)
      (body : Body)
      → classify_enrich_failure message ≡ retryable
      → let a = lost message in
        run hash fold case_map webhook_secret bridge_origin payload_of
          (a ∷ a ∷ a ∷ a ∷ rest)
          w
          (call_enrich_api entry body attempt)
        ≡ run hash fold case_map webhook_secret bridge_origin payload_of rest
            (record w { calls = body ∷ w.calls; waited = w.waited + 2 })
            (call_enrich_api entry body 1)
  unfolding run advance next_attempt should_retry
  failing_round rest attempt message w entry body h = rw h refl

  -- Where the item behind a failed call is lost, and the failures are transient ones, the API is
  -- called again without end: for every number, that many failed calls are followed by one more.
  pub run_of_failing :
      (n attempt : ℕ) (message : Str) (w : Effects) (entry : Entry) (body : Body)
      → classify_enrich_failure message ≡ retryable
      → let end =
          run hash fold case_map webhook_secret bridge_origin payload_of
            (failing (suc n) message)
            w
            (call_enrich_api entry body attempt) in
        (length end.0.calls ≡ suc n + length w.calls) × (end.1 ≡ call_enrich_api entry body 1)
  unfolding run
  run_of_failing zero attempt message w entry body h =
      rw (failing_round [] attempt message w entry body h) (omega arith, refl)
  run_of_failing (suc n) attempt message w entry body h =
      let (calls, last) =
        run_of_failing n 1 message (record w { calls = body ∷ w.calls; waited = w.waited + 2 })
          entry body h in
      rw (failing_round (failing (suc n) message) attempt message w entry body h)
        (omega arith, last)
