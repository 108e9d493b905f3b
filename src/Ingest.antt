-- ===== src/Ingest.antt =====
-- The writers of the bridge's stores: n8n's newsletter ingest (n8n/src and the order of the nodes in
-- n8n/scripts/build-workflow.js), as steps between worlds that a request of the Worker may see.
pub mod Identity
pub mod Svix
pub mod Signing
pub mod Assets
pub mod Sanitize
pub mod Readable
pub mod MessageId
pub mod Extract
pub mod Entry
pub mod Workflow
pub mod Links
pub mod Resolves
pub mod Permalinks
pub mod Published
use agregado.Base.{
  ℕ, ◌≡◌, ◌≢◌, ◌≤◌, Bool, true, false, not, ◌&&◌, ◌||◌, List, [], ◌∷◌, Option, none, some,
  if◌then◌else◌, All,
}
use agregado.Text.{Str, str_eq}
use agregado.Worker.Effects.{World}
use agregado.Worker.Store.{EntryRecord, SourceRow}

-- `INSERT OR REPLACE INTO entries`: a row with the same primary key or the same unique permalink
-- gives way.
unfoldable pub without_conflicts : EntryRecord → List EntryRecord → List EntryRecord
without_conflicts r [] = []
without_conflicts r (o ∷ os) =
    let rest = without_conflicts r os in
    if str_eq o.row.id r.row.id || str_eq o.row.permalink_uuid r.row.permalink_uuid
    then rest
    else o ∷ rest

unfoldable pub upsert_entry : EntryRecord → List EntryRecord → List EntryRecord
upsert_entry r entries = r ∷ without_conflicts r entries

-- A PUT of an object under a key.
unfoldable pub put_object : Str → Str → (Str → Option Str) → Str → Option Str
put_object key body bucket k = if str_eq k key then some body else bucket k

module _ (uuid_of : Str → Str) where
  -- One step of the writers or of the surroundings. The ingest derives the permalink from the
  -- entry's id, and upserts an entry only behind the successful write of the object under that id
  -- ("Write R2", then "Write D1"); nothing deletes an object.
  pub data Step : World → World → Type 0 where
    write_object :
        (v : World) (key body : Str) → Step v (record v { bucket = put_object key body v.bucket })
    write_entry :
        (v : World) (r : EntryRecord)
        → r.row.permalink_uuid ≡ uuid_of r.row.id
        → v.bucket r.row.id ≢ none
        → Step v (record v { entries = upsert_entry r v.entries })
    register : (v : World) (sources : List SourceRow) → Step v (record v { sources = sources })
    pass :
        (v : World) (now_ms : ℕ) (d1_up r2_up : Bool)
        → v.now_ms ≤ now_ms
        → Step v (record v { now_ms = now_ms; d1_up = d1_up; r2_up = r2_up })

  pub data Reach (v : World) : World → Type 0 where
    here : Reach v v
    next : {u x : World} → Reach v u → Step u x → Reach v x
