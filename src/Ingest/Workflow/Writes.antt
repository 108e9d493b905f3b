-- ===== src/Ingest/Workflow/Writes.antt =====
-- The writes of n8n/scripts/build-workflow.js against the steps of Ingest.
use agregado.Base.{
  ℕ, ◌≡◌, ◌≢◌, refl, ◌&&◌, [], Option, none, some, ltb, Bool-cases, Option-cases, inl, inr, arith,
}
use agregado.Base.Outcome.{ok, Outcome-cases}
use agregado.Text.{Str, codes}
use agregado.Text.Laws.{str_eq_iff}
use agregado.Platform.Crypto.{CaseMap, KeyedHash, NodeText}
use agregado.BasicAuth.{Digest}
use agregado.Worker.Effects.{World}
use agregado.Worker.Store.{Engine}
use agregado.Ingest.{Reach, here, next, write_object, write_entry, put_object, upsert_entry}
use agregado.Ingest.Entry.{
  NewEntry, Content, build_entry, required, gate_source, Email, SourceStatus, alias_from_recipients,
}
use agregado.Ingest.Identity.{Hmac, permalink_uuid}
use agregado.Ingest.MessageId.{entry_id}
use agregado.Ingest.Resolves.{HasPermalink}
use agregado.Ingest.Svix.{Delivery, verify_svix}
use agregado.Ingest.Workflow.Invariant.{Derives, HasUuid, NodeInv}
use agregado.Ingest.Workflow.{
  Bridge, Settings, Answers, Node, verify, signature_ok, respond_401, fetch_email, alias_query,
  lookup_source, build, skip, respond_no_op, capture_assets, sign_request, write_r2, upsert_query,
  write_d1, respond_ok, alert_claim_query, claim_alert, first_failure, notify, fail, ended, advance,
  at_verify, at_build, at_write_r2, at_write_d1, at_claim, now_of, exact_header,
}

module _ (case_map : CaseMap) (hash : KeyedHash) (node_text : NodeText) (digest : Digest)
    (hmac : Hmac) (content : Content) (engine : Engine) (payload_of : Str → Option Str)
    (settings : Settings) (uuid_of : Str → Str) where
  build_entry-HasUuid :
      (email : Email) (source_id : Str) (now : ℕ) (entry : NewEntry)
      → Derives hmac settings uuid_of
      → build_entry digest hmac content email source_id settings.permalink_secret now ≡ ok entry
      → HasUuid hmac settings uuid_of entry
  unfolding build_entry required
  build_entry-HasUuid email source_id now entry derives h =
      elim (Outcome-cases (entry_id digest email.message_id)) [
        | inr (e, thrown) ↦ absurd (ground arith)
        | inl (id, made) ↦ elim (Option-cases (permalink_uuid hmac id settings.permalink_secret)) [
          | inl none_made ↦ absurd (ground arith)
          | inr (uuid, e) ↦ ground (arith, derives id uuid e)
        ]
      ]

  -- What one node of a run gives: a step of the writers, or none, and what the run relies on next.
  abbrev Advances : World → Bridge × Node → Type 0
  Advances v (b, n) = Reach uuid_of v b.world × NodeInv hmac settings uuid_of b.world n

  write_r2-Advances :
      (a : Answers) (b : Bridge) (entry : NewEntry) (key : Str)
      → HasUuid hmac settings uuid_of entry
      → Advances b.world (at_write_r2 a b entry key)
  unfolding at_write_r2
  write_r2-Advances a b entry key h = elim (Bool-cases (b.world.r2_up && a.accepted)) [
    | inr down ↦ rw down (here, tt)
    | inl up ↦ rw up (
      next here (write_object b.world entry.record_of.row.id entry.permalink_html),
      elim (Bool-cases a.reply) [ inl t ↦ rw t (h, written) | inr f ↦ rw f tt ],
    )
  ]
    where
      written :
          put_object entry.record_of.row.id entry.permalink_html b.world.bucket
            entry.record_of.row.id
          ≢ none
      written =
          unfold put_object in
          ground (arith, str_eq_iff entry.record_of.row.id entry.record_of.row.id)

  write_d1-Advances :
      (a : Answers) (b : Bridge) (entry : NewEntry) (key : Str)
      → HasUuid hmac settings uuid_of entry
      → b.world.bucket entry.record_of.row.id ≢ none
      → Advances b.world (at_write_d1 a b entry key)
  unfolding at_write_d1
  write_d1-Advances a b entry key h put = elim (Bool-cases (b.world.d1_up && a.accepted)) [
    | inr down ↦ rw down (here, tt)
    | inl up ↦ rw up (
      next here (write_entry b.world entry.record_of h put),
      elim (Bool-cases a.reply) [ inl t ↦ rw t written | inr f ↦ rw f tt ],
    )
  ]
    where
      written :
          HasPermalink uuid_of entry.record_of.row.permalink_uuid
            (upsert_entry entry.record_of b.world.entries)
      written = unfold upsert_entry in inl refl

  at_verify-NodeInv :
      (v : World) (delivery : Delivery) (now : ℕ)
      → NodeInv hmac settings uuid_of v (
          at_verify case_map hash node_text digest hmac content engine payload_of settings delivery
            now)
  unfolding at_verify
  at_verify-NodeInv v delivery now =
      elim (Bool-cases (verify_svix case_map hash node_text settings.svix_secret delivery now)) [
        | inr f ↦ rw f tt
        | inl t ↦ rw t (elim (Option-cases (payload_of delivery.raw_body)) [
          | inl e ↦ rw e tt
          | inr (p, e) ↦
              rw e
                (elim (Outcome-cases
                  (entry_id digest (exact_header (codes "svix-id") delivery.headers []))) [
                    | inr (x, thrown) ↦ rw thrown tt
                    | inl (key, made) ↦ rw made tt
                  ])
        ])
      ]

  at_build-NodeInv :
      (v : World) (email : Email) (source : Option SourceStatus) (key : Str) (now : ℕ)
      → Derives hmac settings uuid_of
      → NodeInv hmac settings uuid_of v (
          at_build case_map hash node_text digest hmac content engine payload_of settings email
            source key now)
  unfolding at_build
  at_build-NodeInv v email none key now derives = tt
  at_build-NodeInv v email (some source) key now derives =
      elim (Bool-cases (gate_source (some source))) [
        | inr f ↦ rw f tt
        | inl t ↦
            rw t
              (elim (Outcome-cases
                (build_entry digest hmac content email source.id settings.permalink_secret now)) [
                  | inr (e, thrown) ↦ rw thrown tt
                  | inl (entry, made) ↦
                      rw made (build_entry-HasUuid email source.id now entry derives made)
                ])
      ]

  -- Every node of a run makes a step of the writers, or none.
  pub advance-Advances :
      (a : Answers) (b : Bridge) (n : Node)
      → Derives hmac settings uuid_of
      → NodeInv hmac settings uuid_of b.world n
      → Advances b.world
          (advance case_map hash node_text digest hmac content engine payload_of settings a b n)
  unfolding advance at_claim
  advance-Advances a b (verify d) derives h = (here, at_verify-NodeInv b.world d (now_of b))
  advance-Advances a b (signature_ok none) derives h = (here, tt)
  advance-Advances a b (signature_ok (some (i, key))) derives h = (here, tt)
  advance-Advances a b respond_401 derives h = (here, tt)
  advance-Advances a b (fetch_email i key) derives h =
      (here, elim (Option-cases a.email) [ inl e ↦ rw e tt | inr (m, e) ↦ rw e tt ])
  advance-Advances a b (alias_query email key) derives h = (
    here,
    elim (Option-cases (alias_from_recipients case_map email.to)) [
      | inl e ↦ rw (e, advance) tt
      | inr (m, e) ↦ rw (e, advance) tt
    ],
  )
  advance-Advances a b (lookup_source email alias key) derives h = (
    here,
    elim (Bool-cases (b.world.d1_up && (a.accepted && a.reply))) [
      | inl t ↦ rw t tt
      | inr f ↦ rw f tt
    ],
  )
  advance-Advances a b (build email source key) derives h =
      (here, at_build-NodeInv b.world email source key (now_of b) derives)
  advance-Advances a b (skip none key) derives h = (here, tt)
  advance-Advances a b (skip (some entry) key) derives h = (here, h)
  advance-Advances a b respond_no_op derives h = (here, tt)
  advance-Advances a b (capture_assets entry key) derives h =
      (here, elim (Option-cases a.fetch_asset) [ inl e ↦ rw e tt | inr (m, e) ↦ rw e h ])
  advance-Advances a b (sign_request entry key) derives h =
      (here, elim (Bool-cases settings.r2_keys) [ inl t ↦ rw t h | inr f ↦ rw f tt ])
  advance-Advances a b (write_r2 entry key) derives h = write_r2-Advances a b entry key h
  advance-Advances a b (upsert_query entry key) derives h = (here, h)
  advance-Advances a b (write_d1 entry key) derives (h, put) = write_d1-Advances a b entry key h put
  advance-Advances a b (respond_ok entry) derives h = (here, h)
  advance-Advances a b (alert_claim_query none) derives h = (here, tt)
  advance-Advances a b (alert_claim_query (some key)) derives h = (here, tt)
  advance-Advances a b (claim_alert key) derives h =
      elim (Bool-cases (b.world.d1_up && a.accepted)) [
        | inr f ↦ rw f (here, tt)
        | inl t ↦ rw t (here, elim (Bool-cases a.reply) [ inl r ↦ rw r tt | inr r ↦ rw r tt ])
      ]
  advance-Advances a b (first_failure key c) derives h =
      (here, elim (Bool-cases (ltb 0 c)) [ inl t ↦ rw t tt | inr f ↦ rw f tt ])
  advance-Advances a b (notify key) derives h = elim (Bool-cases a.accepted) [
    | inr f ↦ rw f (here, tt)
    | inl t ↦ rw t (here, elim (Bool-cases a.reply) [ inl r ↦ rw r tt | inr r ↦ rw r tt ])
  ]
  advance-Advances a b fail derives h = (here, tt)
  advance-Advances a b (ended e) derives h = (here, h)
