-- ===== src/Ingest/Workflow/Stored.antt =====
-- Every node of n8n/scripts/build-workflow.js, and every move of its runs, keeps the properties of
-- what is stored.
use agregado.Base.{
  ℕ, ◌&&◌, [], ◌∷◌, Option, none, some, ltb, All-append, All-split, Bool-cases, Option-cases, inl,
  inr,
}
use agregado.Base.Outcome.{Outcome-cases}
use agregado.Text.{Str, codes}
use agregado.Platform.Crypto.{CaseMap, KeyedHash, NodeText}
use agregado.BasicAuth.{Digest}
use agregado.Worker.Store.{Engine, EntryRecord}
use agregado.Ingest.Entry.{
  Content, build_entry, gate_source, Email, SourceStatus, alias_from_recipients,
}
use agregado.Ingest.Identity.{Hmac}
use agregado.Ingest.MessageId.{entry_id}
use agregado.Ingest.Svix.{Delivery, verify_svix}
use agregado.Ingest.Workflow.{
  Bridge, Settings, Answers, Node, verify, signature_ok, respond_401, fetch_email, alias_query,
  lookup_source, build, skip, respond_no_op, capture_assets, sign_request, write_r2, upsert_query,
  write_d1, respond_ok, alert_claim_query, claim_alert, first_failure, notify, fail, ended, advance,
  at_verify, at_build, at_claim, now_of, exact_header,
}
use agregado.Ingest.Workflow.System.{
  System, Moves, receive, act, register, pass, Reaches, here, next,
}
use agregado.Ingest.Workflow.Contents.{
  WorldHolds, NodeHolds, SystemHolds, Builds, Captures, Holds, write_r2-Holds, write_d1-Holds,
}

module _ (P : EntryRecord → Type 0) (Q R : Str → Type 0) (case_map : CaseMap) (hash : KeyedHash)
    (node_text : NodeText) (digest : Digest) (hmac : Hmac) (content : Content) (engine : Engine)
    (payload_of : Str → Option Str) (settings : Settings)
    (builds : Builds P Q R case_map hash node_text digest hmac content engine payload_of settings)
    (captures : Captures P Q R case_map hash node_text digest hmac content engine payload_of
      settings) where
  abbrev Kept : Bridge × Node → Type 0
  Kept = Holds P Q R case_map hash node_text digest hmac content engine payload_of settings

  verify-Kept :
      (delivery : Delivery) (now : ℕ)
      → NodeHolds P Q R (
          at_verify case_map hash node_text digest hmac content engine payload_of settings delivery
            now)
  unfolding at_verify
  verify-Kept delivery now =
      elim (Bool-cases (verify_svix case_map hash node_text settings.svix_secret delivery now)) [
        | inr f ↦ rw f tt
        | inl t ↦ rw t (elim (Option-cases (payload_of delivery.raw_body)) [
          | inl e ↦ rw e tt
          | inr (p, e) ↦
              rw e
                (elim (Outcome-cases
                  (entry_id digest (exact_header (codes "svix-id") delivery.headers []))) [
                    | inr (x, thrown) ↦ rw thrown tt
                    | inl (key, made) ↦ rw made tt
                  ])
        ])
      ]

  build-Kept :
      (email : Email) (source : Option SourceStatus) (key : Str) (now : ℕ)
      → NodeHolds P Q R (
          at_build case_map hash node_text digest hmac content engine payload_of settings email
            source key now)
  unfolding at_build
  build-Kept email none key now = tt
  build-Kept email (some source) key now = elim (Bool-cases (gate_source (some source))) [
    | inr f ↦ rw f tt
    | inl t ↦
        rw t
          (elim (Outcome-cases
            (build_entry digest hmac content email source.id settings.permalink_secret now)) [
              | inr (e, thrown) ↦ rw thrown tt
              | inl (entry, made) ↦ rw made (builds email source.id now entry made)
            ])
  ]

  advance-Kept :
      (a : Answers) (b : Bridge) (n : Node)
      → WorldHolds P Q R b.world
      → NodeHolds P Q R n
      → Kept (advance case_map hash node_text digest hmac content engine payload_of settings a b n)
  unfolding advance at_claim
  advance-Kept a b (verify d) w h = (w, verify-Kept d (now_of b))
  advance-Kept a b (signature_ok none) w h = (w, tt)
  advance-Kept a b (signature_ok (some (i, key))) w h = (w, tt)
  advance-Kept a b respond_401 w h = (w, tt)
  advance-Kept a b (fetch_email i key) w h =
      (w, elim (Option-cases a.email) [ inl e ↦ rw e tt | inr (m, e) ↦ rw e tt ])
  advance-Kept a b (alias_query email key) w h = (
    w,
    elim (Option-cases (alias_from_recipients case_map email.to)) [
      | inl e ↦ rw (e, advance) tt
      | inr (m, e) ↦ rw (e, advance) tt
    ],
  )
  advance-Kept a b (lookup_source email alias key) w h = (
    w,
    elim (Bool-cases (b.world.d1_up && (a.accepted && a.reply))) [
      | inl t ↦ rw t tt
      | inr f ↦ rw f tt
    ],
  )
  advance-Kept a b (build email source key) w h = (w, build-Kept email source key (now_of b))
  advance-Kept a b (skip none key) w h = (w, tt)
  advance-Kept a b (skip (some entry) key) w h = (w, h)
  advance-Kept a b respond_no_op w h = (w, tt)
  advance-Kept a b (capture_assets entry key) w (hp, hq) = (
    w,
    elim (Option-cases a.fetch_asset) [
      | inl e ↦ rw e tt
      | inr (fetch, e) ↦ rw e (hp, captures fetch entry.permalink_html hq)
    ],
  )
  advance-Kept a b (sign_request entry key) w h =
      (w, elim (Bool-cases settings.r2_keys) [ inl t ↦ rw t h | inr f ↦ rw f tt ])
  advance-Kept a b (write_r2 entry key) w h =
      write_r2-Holds P Q R case_map hash node_text digest hmac content engine payload_of settings a
        b entry key w h
  advance-Kept a b (upsert_query entry key) w h = (w, h)
  advance-Kept a b (write_d1 entry key) w h =
      write_d1-Holds P Q R case_map hash node_text digest hmac content engine payload_of settings a
        b entry key w h
  advance-Kept a b (respond_ok entry) w h = (w, tt)
  advance-Kept a b (alert_claim_query none) w h = (w, tt)
  advance-Kept a b (alert_claim_query (some key)) w h = (w, tt)
  advance-Kept a b (claim_alert key) w h = elim (Bool-cases (b.world.d1_up && a.accepted)) [
    | inr f ↦ rw f (w, tt)
    | inl t ↦ rw t (w, elim (Bool-cases a.reply) [ inl r ↦ rw r tt | inr r ↦ rw r tt ])
  ]
  advance-Kept a b (first_failure key c) w h =
      (w, elim (Bool-cases (ltb 0 c)) [ inl t ↦ rw t tt | inr f ↦ rw f tt ])
  advance-Kept a b (notify key) w h = elim (Bool-cases a.accepted) [
    | inr f ↦ rw f (w, tt)
    | inl t ↦ rw t (w, elim (Bool-cases a.reply) [ inl r ↦ rw r tt | inr r ↦ rw r tt ])
  ]
  advance-Kept a b fail w h = (w, tt)
  advance-Kept a b (ended e) w h = (w, tt)

  Moves-SystemHolds :
      {s t : System}
      → SystemHolds P Q R s
      → Moves case_map hash node_text digest hmac content engine payload_of settings s t
      → SystemHolds P Q R t
  Moves-SystemHolds (w, h) (receive s d) = (w, (tt, h))
  Moves-SystemHolds (w, h) (act s a before after n e) =
      let (first, rest) = All-split (NodeHolds P Q R) before (n ∷ after) (rw e at h) in
      let (w', mine) = advance-Kept a s.bridge n w rest.0 in
      (w', All-append (NodeHolds P Q R) before _ first (mine, rest.1))
  Moves-SystemHolds (w, h) (register s sources) = (w, h)
  Moves-SystemHolds (w, h) (pass s now_ms d1_up r2_up later) = (w, h)

  pub Reaches-SystemHolds :
      {s t : System}
      → SystemHolds P Q R s
      → Reaches case_map hash node_text digest hmac content engine payload_of settings s t
      → SystemHolds P Q R t
  Reaches-SystemHolds h here = h
  Reaches-SystemHolds h (next m last) = Moves-SystemHolds (Reaches-SystemHolds h m) last
