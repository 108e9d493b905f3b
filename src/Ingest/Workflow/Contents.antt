-- ===== src/Ingest/Workflow/Contents.antt =====
-- What the workflow of n8n/scripts/build-workflow.js stores, by what "Build entry" makes of a mail and
-- "Capture assets" of a page: a property of the rows and one of the pages, carried through the nodes.
use agregado.Base.{ℕ, ◌≡◌, ◌&&◌, ◌||◌, List, [], ◌∷◌, Option, some, All, Bool-cases, inl, inr}
use mathlib.Core.Path.{subst}
use agregado.Base.Options.{eq_of_some}
use agregado.Base.Outcome.{ok}
use agregado.Text.{Str, str_eq}
use agregado.Platform.Crypto.{CaseMap, KeyedHash, NodeText}
use agregado.BasicAuth.{Digest}
use agregado.Worker.Effects.{World}
use agregado.Worker.Store.{Engine, EntryRecord}
use agregado.Ingest.{without_conflicts, upsert_entry, put_object}
use agregado.Ingest.Assets.{Asset}
use agregado.Ingest.Entry.{NewEntry, Content, build_entry, Email}
use agregado.Ingest.Identity.{Hmac}
use agregado.Ingest.Workflow.{
  Bridge, Settings, Answers, Node, skip, capture_assets, sign_request, write_r2, upsert_query,
  write_d1, at_write_r2, at_write_d1,
}
use agregado.Ingest.Workflow.System.{System}

-- A property of the rows, of the pages before the capture, and of the pages behind it.
module _ (P : EntryRecord → Type 0) (Q R : Str → Type 0) where
  abbrev pub WorldHolds : World → Type 0
  WorldHolds v = All P v.entries × ((key body : Str) → v.bucket key ≡ some body → R body)

  -- What a run carries.
  abbrev pub NodeHolds : Node → Type 0
  NodeHolds (skip (some entry) key) = P entry.record_of × Q entry.permalink_html
  NodeHolds (capture_assets entry key) = P entry.record_of × Q entry.permalink_html
  NodeHolds (sign_request entry key) = P entry.record_of × R entry.permalink_html
  NodeHolds (write_r2 entry key) = P entry.record_of × R entry.permalink_html
  NodeHolds (upsert_query entry key) = P entry.record_of
  NodeHolds (write_d1 entry key) = P entry.record_of
  NodeHolds n = Unit

  abbrev pub SystemHolds : System → Type 0
  SystemHolds s = WorldHolds s.bridge.world × All NodeHolds s.runs

  without_conflicts-All :
      (r : EntryRecord) (entries : List EntryRecord)
      → All P entries
      → All P (without_conflicts r entries)
  unfolding without_conflicts
  without_conflicts-All r [] h = tt
  without_conflicts-All r (o ∷ os) (ho, h) =
      elim (Bool-cases
        (str_eq o.row.id r.row.id || str_eq o.row.permalink_uuid r.row.permalink_uuid)) [
          | inl t ↦ rw t (without_conflicts-All r os h)
          | inr f ↦ rw f (ho, without_conflicts-All r os h)
        ]

  put_object-Holds :
      (at body : Str) (bucket : Str → Option Str)
      → R body
      → ((key b : Str) → bucket key ≡ some b → R b)
      → (key b : Str) → put_object at body bucket key ≡ some b
      → R b
  unfolding put_object
  put_object-Holds at body bucket new old key b h = elim (Bool-cases (str_eq key at)) [
    | inl t ↦ subst R (eq_of_some body b (rw t at h)) new
    | inr f ↦ old key b (rw f at h)
  ]

  module _ (case_map : CaseMap) (hash : KeyedHash) (node_text : NodeText) (digest : Digest)
      (hmac : Hmac) (content : Content) (engine : Engine) (payload_of : Str → Option Str)
      (settings : Settings) where
    -- What "Build entry" makes has the properties, and the capture keeps them.
    abbrev pub Builds : Type 0
    Builds =
        (email : Email) (source_id : Str) (now : ℕ) (entry : NewEntry)
        → build_entry digest hmac content email source_id settings.permalink_secret now ≡ ok entry
        → P entry.record_of × Q entry.permalink_html

    abbrev pub Captures : Type 0
    Captures =
        (fetch : Str → Option Asset) (html : Str) → Q html → R (content.inline_assets fetch html).0

    abbrev pub Holds : Bridge × Node → Type 0
    Holds (b, n) = WorldHolds b.world × NodeHolds n

    pub write_r2-Holds :
        (a : Answers) (b : Bridge) (entry : NewEntry) (key : Str)
        → WorldHolds b.world
        → P entry.record_of × R entry.permalink_html
        → Holds (at_write_r2 a b entry key)
    unfolding at_write_r2
    write_r2-Holds a b entry key (hw, hb) (hp, hr) =
        elim (Bool-cases (b.world.r2_up && a.accepted)) [
          | inr down ↦ rw down ((hw, hb), tt)
          | inl up ↦ rw up (
            (hw, put_object-Holds entry.record_of.row.id entry.permalink_html b.world.bucket hr hb),
            elim (Bool-cases a.reply) [ inl t ↦ rw t hp | inr f ↦ rw f tt ],
          )
        ]

    pub write_d1-Holds :
        (a : Answers) (b : Bridge) (entry : NewEntry) (key : Str)
        → WorldHolds b.world
        → P entry.record_of
        → Holds (at_write_d1 a b entry key)
    unfolding at_write_d1 upsert_entry
    write_d1-Holds a b entry key (hw, hb) hp = elim (Bool-cases (b.world.d1_up && a.accepted)) [
      | inr down ↦ rw down ((hw, hb), tt)
      | inl up ↦ rw up (
        ((hp, without_conflicts-All entry.record_of b.world.entries hw), hb),
        elim (Bool-cases a.reply) [ inl t ↦ rw t tt | inr f ↦ rw f tt ],
      )
    ]
