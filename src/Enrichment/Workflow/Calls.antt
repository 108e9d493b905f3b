-- ===== src/Enrichment/Workflow/Calls.antt =====
-- Which entries of a webhook the workflow of n8n/scripts/build-article-enrichment.js enriches.
use agregado.Base.{
  ℕ, ◌≡◌, refl, true, List, [], ◌∷◌, Option, none, some, All, Bool-cases, inl, inr, arith,
}
use agregado.Base.Outcome.{Outcome, ok, throws}
use agregado.Text.{Str}
use agregado.Platform.Crypto.{KeyedHash, CaseMap}
use agregado.Enrichment.Miniflux.{Entry, Payload, CaseFold, match_bridge_permalink}
use agregado.Enrichment.Request.{Body, build_enrich_request}
use agregado.Enrichment.Workflow.{
  Effects, Failure, Answers, Rows, no_answer, no_row, row, Node, verify_signature, respond_401,
  parse_entries, determine_bridge_match, bridge_content_query, lookup_bridge_content,
  attach_bridge_content, build_request, call_enrich_api, classify_failure, retry_enrich,
  wait_before_retry, entry_failed, alert_claim_query, claim_alert, first_failure, notify, fail,
  ended, advance, run, at_match, should_retry,
}

-- The body is that of a request for the entry.
abbrev pub IsBodyOf : Entry → Body → Type 0
IsBodyOf entry body = (content : Option Str) × (build_enrich_request (some entry) content ≡ ok body)

-- A run at the node works on the entry.
abbrev IsAt : Entry → Node → Type 0
IsAt entry (bridge_content_query e u) = e ≡ entry
IsAt entry (lookup_bridge_content e u) = e ≡ entry
IsAt entry (attach_bridge_content e c) = e ≡ entry
IsAt entry (build_request e c) = e ≡ entry
IsAt entry (call_enrich_api e b k) = IsBodyOf entry b
IsAt entry (classify_failure e b k f) = IsBodyOf entry b
IsAt entry (retry_enrich e b k c) = IsBodyOf entry b
IsAt entry (wait_before_retry e b k) = IsBodyOf entry b
IsAt entry (verify_signature h r) = ⊥
IsAt entry (parse_entries p) = ⊥
IsAt entry (determine_bridge_match []) = ⊥
IsAt entry (determine_bridge_match (e ∷ more)) = e ≡ entry
IsAt entry _ = Unit

module _ (hash : KeyedHash) (fold : CaseFold) (case_map : CaseMap) (webhook_secret : Str)
    (bridge_origin : Str) (payload_of : Str → Option (Option Payload)) where
  abbrev Serves : Entry → Effects × Node → Type 0
  Serves entry (w, n) = All (IsBodyOf entry) w.calls × IsAt entry n

  matched :
      (found : Option Str) (e : Entry) (entry : Entry)
      → e ≡ entry
      → IsAt entry
          (elim found [ none ↦ build_request e none | some uuid ↦ bridge_content_query e uuid ])
  matched none e entry k = k
  matched (some uuid) e entry k = k

  built :
      (o : Outcome Body) (e : Entry) (entry : Entry)
      → ((body : Body) → o ≡ ok body → IsBodyOf entry body)
      → IsAt entry (elim o [ throws x ↦ entry_failed e | ok body ↦ call_enrich_api e body 0 ])
  built (throws x) e entry h = tt
  built (ok body) e entry h = h body refl

  answered :
      (failure : Option Failure) (e : Entry) (b : Body) (attempt : ℕ) (entry : Entry)
      → IsBodyOf entry b
      → IsAt entry (elim failure [ none ↦ ended true | some f ↦ classify_failure e b attempt f ])
  answered none e b attempt entry made = tt
  answered (some f) e b attempt entry made = made

  looked_up :
      (rows : Rows) (e : Entry) (u : Str) (entry : Entry)
      → e ≡ entry
      → IsAt entry (elim rows [
        | no_answer ↦ entry_failed e
        | no_row ↦ attach_bridge_content e none
        | row content ↦ attach_bridge_content e (some content)
      ])
  looked_up no_answer e u entry k = tt
  looked_up no_row e u entry k = k
  looked_up (row content) e u entry k = k

  advance-Serves :
      (a : Answers) (w : Effects) (n : Node) (entry : Entry)
      → Serves entry (w, n)
      → Serves entry (advance hash fold case_map webhook_secret bridge_origin payload_of a w n)
  unfolding advance at_match
  advance-Serves a w (verify_signature h r) entry (calls, k) = absurd k
  advance-Serves a w (parse_entries p) entry (calls, k) = absurd k
  advance-Serves a w (determine_bridge_match []) entry (calls, k) = absurd k
  advance-Serves a w (determine_bridge_match (e ∷ es)) entry (calls, k) =
      (calls, matched (match_bridge_permalink fold case_map e.url bridge_origin) e entry k)
  advance-Serves a w (bridge_content_query e u) entry (calls, k) = (calls, k)
  advance-Serves a w (lookup_bridge_content e u) entry (calls, k) =
      (calls, looked_up a.rows e u entry k)
  advance-Serves a w (attach_bridge_content e none) entry (calls, k) = (calls, tt)
  advance-Serves a w (attach_bridge_content e (some c)) entry (calls, k) = (calls, k)
  advance-Serves a w (build_request e c) entry (calls, k) =
      (calls, built (build_enrich_request (some e) c) e entry λ body made. (c, rw (← k) made))
  advance-Serves a w (call_enrich_api e b k) entry (calls, made) =
      ((made, calls), answered a.failure e b k entry made)
  advance-Serves a w (classify_failure e b k f) entry (calls, made) = (calls, made)
  advance-Serves a w (retry_enrich e b k c) entry (calls, made) =
      (calls, elim (Bool-cases (should_retry k c)) [ inl t ↦ rw t made | inr f ↦ rw f tt ])
  advance-Serves a w (wait_before_retry e b k) entry (calls, made) = (calls, made)
  advance-Serves a w respond_401 entry (calls, k) = (calls, tt)
  advance-Serves a w (entry_failed e) entry (calls, k) = (calls, tt)
  advance-Serves a w (alert_claim_query e) entry (calls, k) = (calls, tt)
  advance-Serves a w (claim_alert e) entry (calls, k) = ground arith
  advance-Serves a w (first_failure e c) entry (calls, k) = ground arith
  advance-Serves a w (notify e) entry (calls, k) = ground arith
  advance-Serves a w fail entry (calls, k) = (calls, tt)
  advance-Serves a w (ended s) entry (calls, k) = (calls, tt)

  run-Serves :
      (answers : List Answers) (w : Effects) (n : Node) (entry : Entry)
      → Serves entry (w, n)
      → Serves entry (run hash fold case_map webhook_secret bridge_origin payload_of answers w n)
  unfolding run
  run-Serves [] w n entry h = h
  run-Serves (a ∷ answers) w n entry h =
      let (w', n') = advance hash fold case_map webhook_secret bridge_origin payload_of a w n in
      run-Serves answers w' n' entry (advance-Serves a w n entry h)

  -- However many entries a webhook brings, a run that has not called the API before them calls it
  -- only with requests for the first of them.
  pub run-IsBodyOf :
      (answers : List Answers) (w : Effects) (entry : Entry) (more : List Entry)
      → w.calls ≡ []
      → All
          (IsBodyOf entry)
          (run hash fold case_map webhook_secret bridge_origin payload_of answers w
            (determine_bridge_match (entry ∷ more))).0.calls
  run-IsBodyOf answers w entry more fresh =
      (run-Serves answers w (determine_bridge_match (entry ∷ more)) entry (rw fresh tt, refl)).0
