-- ===== src/Ingest/Workflow/Invariant.antt =====
-- What a run of the workflow of n8n/scripts/build-workflow.js relies on at each node, while other runs
-- and the surroundings are at work.
use agregado.Base.{◌≡◌, ◌≢◌, none, some}
use agregado.Text.{Str}
use agregado.Worker.Effects.{World}
use agregado.Ingest.{Reach}
use agregado.Ingest.Entry.{NewEntry}
use agregado.Ingest.Identity.{Hmac, permalink_uuid}
use agregado.Ingest.Resolves.{IsSound, HasPermalink, Reach-keeps, Reach-HasPermalink}
use agregado.Ingest.Workflow.{
  Settings, unauthorized, no_op, stored, failed, Node, verify, signature_ok, respond_401,
  fetch_email, alias_query, lookup_source, build, skip, respond_no_op, capture_assets, sign_request,
  write_r2, upsert_query, write_d1, respond_ok, alert_claim_query, claim_alert, first_failure,
  notify, fail, ended,
}

module _ (hmac : Hmac) (settings : Settings) (uuid_of : Str → Str) where
  -- The permalinks are those of `permalinkUuid` under the workflow's secret.
  abbrev pub Derives : Type 0
  Derives =
      (id uuid : Str)
      → permalink_uuid hmac id settings.permalink_secret ≡ some uuid
      → uuid ≡ uuid_of id

  abbrev pub HasUuid : NewEntry → Type 0
  HasUuid entry = entry.record_of.row.permalink_uuid ≡ uuid_of entry.record_of.row.id

  -- What holds of a run at a node: an entry has its id's permalink; from the write of the object on
  -- the bucket has the object; from the write of the row on the database has the permalink.
  abbrev pub NodeInv : World → Node → Type 0
  NodeInv v (skip (some entry) key) = HasUuid entry
  NodeInv v (capture_assets entry key) = HasUuid entry
  NodeInv v (sign_request entry key) = HasUuid entry
  NodeInv v (write_r2 entry key) = HasUuid entry
  NodeInv v (upsert_query entry key) = HasUuid entry × (v.bucket entry.record_of.row.id ≢ none)
  NodeInv v (write_d1 entry key) = HasUuid entry × (v.bucket entry.record_of.row.id ≢ none)
  NodeInv v (respond_ok entry) = HasPermalink uuid_of entry.record_of.row.permalink_uuid v.entries
  NodeInv v (ended (stored entry)) =
      HasPermalink uuid_of entry.record_of.row.permalink_uuid v.entries
  NodeInv v _ = Unit

  -- What others do keeps what a run relies on.
  pub Reach-NodeInv :
      (v u : World) (n : Node) → IsSound uuid_of v → Reach uuid_of v u → NodeInv v n → NodeInv u n
  Reach-NodeInv v u (upsert_query entry key) sound r (h, put) =
      (h, Reach-keeps uuid_of r entry.record_of.row.id put)
  Reach-NodeInv v u (write_d1 entry key) sound r (h, put) =
      (h, Reach-keeps uuid_of r entry.record_of.row.id put)
  Reach-NodeInv v u (respond_ok entry) sound r h =
      Reach-HasPermalink uuid_of entry.record_of.row.permalink_uuid sound r h
  Reach-NodeInv v u (ended (stored entry)) sound r h =
      Reach-HasPermalink uuid_of entry.record_of.row.permalink_uuid sound r h
  Reach-NodeInv v u (skip (some entry) key) sound r h = h
  Reach-NodeInv v u (capture_assets entry key) sound r h = h
  Reach-NodeInv v u (sign_request entry key) sound r h = h
  Reach-NodeInv v u (write_r2 entry key) sound r h = h
  Reach-NodeInv v u (verify d) sound r h = tt
  Reach-NodeInv v u (signature_ok p) sound r h = tt
  Reach-NodeInv v u respond_401 sound r h = tt
  Reach-NodeInv v u (fetch_email i key) sound r h = tt
  Reach-NodeInv v u (alias_query e key) sound r h = tt
  Reach-NodeInv v u (lookup_source e a key) sound r h = tt
  Reach-NodeInv v u (build e s key) sound r h = tt
  Reach-NodeInv v u (skip none key) sound r h = tt
  Reach-NodeInv v u respond_no_op sound r h = tt
  Reach-NodeInv v u (alert_claim_query k) sound r h = tt
  Reach-NodeInv v u (claim_alert key) sound r h = tt
  Reach-NodeInv v u (first_failure key c) sound r h = tt
  Reach-NodeInv v u (notify key) sound r h = tt
  Reach-NodeInv v u fail sound r h = tt
  Reach-NodeInv v u (ended unauthorized) sound r h = tt
  Reach-NodeInv v u (ended no_op) sound r h = tt
  Reach-NodeInv v u (ended failed) sound r h = tt
