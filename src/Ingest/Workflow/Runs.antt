-- ===== src/Ingest/Workflow/Runs.antt =====
-- Every run of the workflow of n8n/scripts/build-workflow.js ends.
use agregado.Base.{
  ℕ, ◌-◌, ◌≤◌, ◌≡◌, refl, List, [], ◌∷◌, Option, none, some, length, Bool-cases, inl, inr, arith,
}
use agregado.Text.{Str}
use agregado.Platform.Crypto.{CaseMap, KeyedHash, NodeText}
use agregado.BasicAuth.{Digest}
use agregado.Worker.Store.{Engine}
use agregado.Ingest.Entry.{Content}
use agregado.Ingest.Identity.{Hmac}
use agregado.Ingest.Svix.{Delivery, verify_svix, IsSigned, verify_svix_iff}
use agregado.Ingest.Workflow.{
  Bridge, Settings, Answers, Ending, unauthorized, Node, verify, signature_ok, fetch_email,
  alias_query, lookup_source, build, skip, capture_assets, sign_request, write_r2, upsert_query,
  write_d1, respond_ok, alert_claim_query, claim_alert, first_failure, notify, ended, advance,
  at_verify, at_build, at_write_r2, at_write_d1, at_claim, now_of, run,
}

-- The most nodes that a run has before it.
abbrev pub nodes_left : Node → ℕ
nodes_left (verify d) = 17
nodes_left (signature_ok p) = 16
nodes_left (fetch_email i key) = 15
nodes_left (alias_query e key) = 14
nodes_left (lookup_source e a key) = 13
nodes_left (build e s key) = 12
nodes_left (skip e key) = 11
nodes_left (capture_assets e key) = 10
nodes_left (sign_request e key) = 9
nodes_left (write_r2 e key) = 8
nodes_left (upsert_query e key) = 7
nodes_left (write_d1 e key) = 6
nodes_left (alert_claim_query k) = 5
nodes_left (claim_alert key) = 4
nodes_left (first_failure key c) = 3
nodes_left (notify key) = 2
nodes_left (ended e) = 0
nodes_left _ = 1

module _ (case_map : CaseMap) (hash : KeyedHash) (node_text : NodeText) (digest : Digest)
    (hmac : Hmac) (content : Content) (engine : Engine) (payload_of : Str → Option Str)
    (settings : Settings) where
  abbrev step : Answers → Bridge → Node → Bridge × Node
  step = advance case_map hash node_text digest hmac content engine payload_of settings

  step_lowers : (a : Answers) (b : Bridge) (n : Node) → nodes_left (step a b n).1 ≤ nodes_left n - 1
  unfolding advance at_verify at_build at_write_r2 at_write_d1 at_claim
  step_lowers a b (verify d) = ground arith
  step_lowers a b (signature_ok none) = ground arith
  step_lowers a b (signature_ok (some p)) = ground arith
  step_lowers a b (build e none key) = ground arith
  step_lowers a b (build e (some s) key) = ground arith
  step_lowers a b (skip none key) = ground arith
  step_lowers a b (skip (some e) key) = ground arith
  step_lowers a b (alert_claim_query none) = ground arith
  step_lowers a b (alert_claim_query (some key)) = ground arith
  step_lowers a b n = ground arith

  ended_of_none_left : (n : Node) → nodes_left n ≤ 0 → (e : Ending) × (n ≡ ended e)
  ended_of_none_left (ended e) h = (e, refl)
  ended_of_none_left (respond_ok e) h = absurd (omega arith)
  ended_of_none_left n h = absurd (omega arith)

  -- From any node a run is at its end after as many nodes as it has left, whatever the outside
  -- answers.
  pub run_ends :
      (answers : List Answers) (b : Bridge) (n : Node)
      → nodes_left n ≤ length answers
      → (e : Ending) × ((run case_map hash node_text digest hmac content engine payload_of settings
            answers b n).1
          ≡ ended e)
  unfolding run
  run_ends [] b n h = ended_of_none_left n h
  run_ends (a ∷ answers) b n h =
      let lower = step_lowers a b n in run_ends answers (step a b n).0 (step a b n).1 (omega arith)

  run_of_ended :
      (answers : List Answers) (b : Bridge) (e : Ending)
      → run case_map hash node_text digest hmac content engine payload_of settings answers b
          (ended e)
        ≡ (b, ended e)
  unfolding run advance
  run_of_ended [] b e = refl
  run_of_ended (a ∷ answers) b e = run_of_ended answers b e

  -- A run of at least three nodes for a delivery of which `IsSigned` does not hold has ended with 401
  -- and has changed nothing.
  pub run_of_unsigned :
      (a b c : Answers) (rest : List Answers) (bridge : Bridge) (delivery : Delivery)
      → ¬ (IsSigned case_map hash node_text settings.svix_secret delivery (now_of bridge))
      → run case_map hash node_text digest hmac content engine payload_of settings
          (a ∷ b ∷ c ∷ rest)
          bridge
          (verify delivery)
        ≡ (bridge, ended unauthorized)
  unfolding run advance at_verify
  run_of_unsigned a b c rest bridge delivery unsigned =
      elim (Bool-cases
        (verify_svix case_map hash node_text settings.svix_secret delivery (now_of bridge))) [
          | inl t ↦ absurd (
              unsigned (
                (verify_svix_iff case_map hash node_text settings.svix_secret delivery
                    (now_of bridge)).0
                  t))
          | inr f ↦ rw f (run_of_ended rest bridge unauthorized)
        ]
