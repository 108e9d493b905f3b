-- ===== src/Ingest/Workflow/Connected.antt =====
-- Every node of a run against the connections that n8n/scripts/build-workflow.js declares.
use agregado.Base.{
  ◌≡◌, refl, if◌then◌else◌, ◌&&◌, [], Option, none, some, ltb, Bool-cases, Option-cases, inl, inr,
}
use agregado.Base.Outcome.{ok, throws, Outcome-cases}
use agregado.Text.{Str, codes, str_eq}
use agregado.Platform.Crypto.{CaseMap, KeyedHash, NodeText}
use agregado.BasicAuth.{Digest}
use agregado.Worker.Store.{Engine}
use agregado.Ingest.Entry.{Content, build_entry, gate_source, alias_from_recipients}
use agregado.Ingest.Identity.{Hmac}
use agregado.Ingest.MessageId.{entry_id}
use agregado.Ingest.Svix.{verify_svix}
use agregado.Ingest.Workflow.{
  at_write_r2, at_write_d1, Bridge, Settings, Answers, Node, verify, signature_ok, respond_401,
  fetch_email, alias_query, lookup_source, build, skip, respond_no_op, capture_assets, sign_request,
  write_r2, upsert_query, write_d1, respond_ok, alert_claim_query, claim_alert, first_failure,
  notify, fail, ended, advance, at_verify, at_build, at_claim, now_of, exact_header,
}
use agregado.Nodes.{
  Result, passes, declines, fails, served, stop_workflow, is_named, outputs_of, only_link,
  first_output, second_output, description_of, go_on, follow,
}
use agregado.Ingest.Workflow.Graph.{nodes, connections, name_of}

module _ (case_map : CaseMap) (hash : KeyedHash) (node_text : NodeText) (digest : Digest)
    (hmac : Hmac) (content : Content) (engine : Engine) (payload_of : Str → Option Str)
    (settings : Settings) where
  -- How each node ends. "Verify Svix" only fails behind a good signature, where the body names no mail
  -- or there is no entry id, and "Build entry" where the source is one to build for and the build
  -- throws. A node that calls a service needs it to be up, to accept the call and to reply.
  unfoldable pub result_of : Answers → Bridge → Node → Result
  result_of a b (verify d) =
      if verify_svix case_map hash node_text settings.svix_secret d (now_of b)
      then (elim (payload_of d.raw_body) [
        | none ↦ fails
        | some email_id ↦ elim (entry_id digest (exact_header (codes "svix-id") d.headers [])) [
          | throws e ↦ fails
          | ok key ↦ passes
        ]
      ])
      else passes
  result_of a b (signature_ok none) = declines
  result_of a b (signature_ok (some (email_id, key))) = passes
  result_of a b respond_401 = passes
  result_of a b (fetch_email email_id key) = elim a.email [ none ↦ fails | some email ↦ passes ]
  result_of a b (alias_query email key) = elim (alias_from_recipients case_map email.to) [
    | none ↦ fails
    | some alias ↦ passes
  ]
  result_of a b (lookup_source email alias key) = served (b.world.d1_up && (a.accepted && a.reply))
  result_of a b (build email none key) = passes
  result_of a b (build email (some source) key) =
      if gate_source (some source)
      then (elim (build_entry digest hmac content email source.id settings.permalink_secret
          (now_of b)) [ throws e ↦ fails | ok entry ↦ passes ])
      else passes
  result_of a b (skip none key) = passes
  result_of a b (skip (some entry) key) = declines
  result_of a b respond_no_op = passes
  result_of a b (capture_assets entry key) = elim a.fetch_asset [
    | none ↦ fails
    | some fetch ↦ passes
  ]
  result_of a b (sign_request entry key) = served settings.r2_keys
  result_of a b (write_r2 entry key) = served ((b.world.r2_up && a.accepted) && a.reply)
  result_of a b (upsert_query entry key) = passes
  result_of a b (write_d1 entry key) = served ((b.world.d1_up && a.accepted) && a.reply)
  result_of a b (respond_ok entry) = passes
  result_of a b (alert_claim_query none) = fails
  result_of a b (alert_claim_query (some key)) = passes
  result_of a b (claim_alert key) = served ((b.world.d1_up && a.accepted) && a.reply)
  result_of a b (first_failure key changes) = if ltb 0 changes then passes else declines
  result_of a b (notify key) = served (a.accepted && a.reply)
  result_of a b fail = fails
  result_of a b (ended e) = passes

  -- From every node a run of the newsletter ingest goes on where the declared nodes and connections
  -- lead with the node's result: along the first output with items or a true condition, along the
  -- second with a false condition of an `if` or with an error of a node that continues. It ends
  -- with an error of another node and where the output has no link, and a run that has ended stays
  -- so. The result is an error where a service that the node calls fails or the node's code throws.
  pub name_of-advance :
      (a : Answers) (b : Bridge) (n : Node)
      → name_of
          (advance case_map hash node_text digest hmac content engine payload_of settings a b n).1
        ≡ follow nodes connections (name_of n) (result_of a b n)
  unfolding advance at_verify at_build at_claim at_write_r2 at_write_d1 nodes connections name_of
      result_of outputs_of only_link first_output second_output description_of go_on follow
      stop_workflow is_named str_eq
  name_of-advance a b (verify d) =
      elim (Bool-cases (verify_svix case_map hash node_text settings.svix_secret d (now_of b))) [
        | inr f ↦ rw f refl
        | inl t ↦ rw t (elim (Option-cases (payload_of d.raw_body)) [
          | inl e ↦ rw e refl
          | inr (p, e) ↦
              rw e
                (elim (Outcome-cases
                  (entry_id digest (exact_header (codes "svix-id") d.headers []))) [
                    | inr (x, thrown) ↦ rw thrown refl
                    | inl (key, made) ↦ rw made refl
                  ])
        ])
      ]
  name_of-advance a b (signature_ok none) = refl
  name_of-advance a b (signature_ok (some (i, key))) = refl
  name_of-advance a b respond_401 = refl
  name_of-advance a b (fetch_email i key) = elim (Option-cases a.email) [
    | inl e ↦ rw e refl
    | inr (m, e) ↦ rw e refl
  ]
  name_of-advance a b (alias_query email key) =
      elim (Option-cases (alias_from_recipients case_map email.to)) [
        | inl e ↦ rw (advance, result_of, e) refl
        | inr (m, e) ↦ rw (advance, result_of, e) refl
      ]
  name_of-advance a b (lookup_source email alias key) =
      elim (Bool-cases (b.world.d1_up && (a.accepted && a.reply))) [
        | inl t ↦ rw t refl
        | inr f ↦ rw f refl
      ]
  name_of-advance a b (build email none key) = refl
  name_of-advance a b (build email (some source) key) =
      elim (Bool-cases (gate_source (some source))) [
        | inr f ↦ rw f refl
        | inl t ↦
            rw t
              (elim (Outcome-cases (
                build_entry digest hmac content email source.id settings.permalink_secret
                  (now_of b))) [
                    | inr (e, thrown) ↦ rw thrown refl
                    | inl (entry, made) ↦ rw made refl
                  ])
      ]
  name_of-advance a b (skip none key) = refl
  name_of-advance a b (skip (some entry) key) = refl
  name_of-advance a b respond_no_op = refl
  name_of-advance a b (capture_assets entry key) = elim (Option-cases a.fetch_asset) [
    | inl e ↦ rw e refl
    | inr (fetch, e) ↦ rw e refl
  ]
  name_of-advance a b (sign_request entry key) = elim (Bool-cases settings.r2_keys) [
    | inl t ↦ rw t refl
    | inr f ↦ rw f refl
  ]
  name_of-advance a b (write_r2 entry key) = elim (Bool-cases (b.world.r2_up && a.accepted)) [
    | inr down ↦ rw down refl
    | inl up ↦ rw up (elim (Bool-cases a.reply) [ inl t ↦ rw t refl | inr f ↦ rw f refl ])
  ]
  name_of-advance a b (upsert_query entry key) = refl
  name_of-advance a b (write_d1 entry key) = elim (Bool-cases (b.world.d1_up && a.accepted)) [
    | inr down ↦ rw down refl
    | inl up ↦ rw up (elim (Bool-cases a.reply) [ inl t ↦ rw t refl | inr f ↦ rw f refl ])
  ]
  name_of-advance a b (respond_ok entry) = refl
  name_of-advance a b (alert_claim_query none) = refl
  name_of-advance a b (alert_claim_query (some key)) = refl
  name_of-advance a b (claim_alert key) = elim (Bool-cases (b.world.d1_up && a.accepted)) [
    | inr f ↦ rw f refl
    | inl t ↦ rw t (elim (Bool-cases a.reply) [ inl r ↦ rw r refl | inr r ↦ rw r refl ])
  ]
  name_of-advance a b (first_failure key c) = elim (Bool-cases (ltb 0 c)) [
    | inl t ↦ rw t refl
    | inr f ↦ rw f refl
  ]
  name_of-advance a b (notify key) = elim (Bool-cases a.accepted) [
    | inr f ↦ rw f refl
    | inl t ↦ rw t (elim (Bool-cases a.reply) [ inl r ↦ rw r refl | inr r ↦ rw r refl ])
  ]
  name_of-advance a b fail = refl
  name_of-advance a b (ended e) = refl
