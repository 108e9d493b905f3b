-- ===== src/Worker/Store.antt =====
-- What the Worker reads: the D1 tables of email-worker/migrations and the three queries of
-- email-worker/src/index.ts, and the R2 bucket. The database engine is outside the repository: it
-- is the parameter `Engine`, with what SQL says of the three queries for laws.
pub mod Sqlite
use mathlib.Core.List.{Mem, Perm}
use agregado.Base.{
  ℕ, ◌≡◌, ◌≢◌, Bool, true, false, ◌&&◌, List, [], ◌∷◌, map, Option, none, some, if◌then◌else◌, All,
}
use agregado.Base.Int.{ℤ, ◌≤ℤ◌, leb_ℤ}
use agregado.Text.{Str, str_eq}

pub record SourceRow : Type 0 where
  pub id : Str
  pub display_name : Str
  pub basic_auth_secret_hash : Str
  pub status : Str

-- The columns that the feed's query selects.
pub record EntryRow : Type 0 where
  pub id : Str
  pub canonical_url : Option Str
  pub permalink_uuid : Str
  pub title : Str
  pub readable_content : Str
  pub published_at : ℤ

-- A row of the table `entries`.
pub record EntryRecord : Type 0 where
  pub source_id : Str
  pub row : EntryRow

-- `source_id = ? AND published_at >= ?`
unfoldable pub is_wanted : Str → ℤ → EntryRecord → Bool
is_wanted source_id cutoff r = str_eq r.source_id source_id && leb_ℤ cutoff r.row.published_at

unfoldable pub select : (EntryRecord → Bool) → List EntryRecord → List EntryRow
select wanted [] = []
select wanted (r ∷ rs) = let rest = select wanted rs in if wanted r then r.row ∷ rest else rest

-- `ORDER BY published_at DESC`
abbrev pub IsNewestFirst : List EntryRow → Type 0
IsNewestFirst [] = Unit
IsNewestFirst (e ∷ es) = All (λ o. o.published_at ≤ℤ e.published_at) es × IsNewestFirst es

pub record Engine : Type 0 where
  -- SELECT * FROM sources WHERE id = ?, the first row
  pub source_by_id : List SourceRow → Str → Option SourceRow
  -- SELECT … FROM entries WHERE source_id = ? AND published_at >= ? ORDER BY published_at DESC
  pub entries_since : List EntryRecord → Str → ℤ → List EntryRow
  -- SELECT id FROM entries WHERE permalink_uuid = ?, the first row
  pub entry_by_permalink : List EntryRecord → Str → Option Str
  pub source_found :
      (sources : List SourceRow) (id : Str) (source : SourceRow)
      → source_by_id sources id ≡ some source
      → Mem source sources × (source.id ≡ id)
  pub source_missing :
      (sources : List SourceRow) (id : Str)
      → source_by_id sources id ≡ none
      → All (λ s. s.id ≢ id) sources
  pub entries_selected :
      (entries : List EntryRecord) (source_id : Str) (cutoff : ℤ)
      → Perm (entries_since entries source_id cutoff) (select (is_wanted source_id cutoff) entries)
  pub entries_ordered :
      (entries : List EntryRecord) (source_id : Str) (cutoff : ℤ)
      → IsNewestFirst (entries_since entries source_id cutoff)
  pub permalink_found :
      (entries : List EntryRecord) (uuid id : Str)
      → entry_by_permalink entries uuid ≡ some id
      → ∥ ((r : EntryRecord) × Mem r entries × (r.row.permalink_uuid ≡ uuid) × (r.row.id ≡ id)) ∥₁
  pub permalink_missing :
      (entries : List EntryRecord) (uuid : Str)
      → entry_by_permalink entries uuid ≡ none
      → All (λ r. r.row.permalink_uuid ≢ uuid) entries
