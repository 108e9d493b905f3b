-- ===== src/Ingest/Resolves.antt =====
-- What the ingest's steps (n8n/scripts/build-workflow.js, n8n/src/sql.js) keep of the stores.
use agregado.Base.{
  ◌≡◌, ◌≢◌, List, [], ◌∷◌, Option, none, arith, All, Bool-cases, inl, inr, ◌⊎◌, ◌||◌,
}
use agregado.Text.{Str, str_eq}
use agregado.Text.Laws.{str_eq_iff}
use agregado.Worker.Effects.{World}
use agregado.Worker.Store.{EntryRecord}
use agregado.Ingest.{
  without_conflicts, upsert_entry, put_object, Step, write_object, write_entry, register, pass,
  Reach, here, next,
}

put_object-keeps :
    (key body : Str) (bucket : Str → Option Str) (k : Str)
    → bucket k ≢ none
    → put_object key body bucket k ≢ none
unfolding put_object
put_object-keeps key body bucket k h = ground arith

module _ (P : EntryRecord → Type 0) where
  All-without_conflicts :
      (r : EntryRecord) (rs : List EntryRecord) → All P rs → All P (without_conflicts r rs)
  unfolding without_conflicts
  All-without_conflicts r [] h = tt
  All-without_conflicts r (o ∷ os) (ho, h) =
      elim (Bool-cases
        (str_eq o.row.id r.row.id || str_eq o.row.permalink_uuid r.row.permalink_uuid)) [
          | inl t ↦ rw t (All-without_conflicts r os h)
          | inr f ↦ rw f (ho, All-without_conflicts r os h)
        ]

module _ (uuid_of : Str → Str) where
  -- Every entry of the database has its object in the bucket, and the permalink of its id.
  abbrev pub IsSoundRow : (Str → Option Str) → EntryRecord → Type 0
  IsSoundRow bucket r = (bucket r.row.id ≢ none) × (r.row.permalink_uuid ≡ uuid_of r.row.id)

  abbrev pub IsSound : World → Type 0
  IsSound v = All (IsSoundRow v.bucket) v.entries

  sound_by :
      (f g : Str → Option Str) (rs : List EntryRecord)
      → ((k : Str) → f k ≢ none → g k ≢ none)
      → All (IsSoundRow f) rs
      → All (IsSoundRow g) rs
  sound_by f g [] keep h = tt
  sound_by f g (r ∷ rs) keep (hr, h) = ((keep r.row.id hr.0, hr.1), sound_by f g rs keep h)

  Step-IsSound : {v u : World} → Step uuid_of v u → IsSound v → IsSound u
  Step-IsSound (write_object v key body) h =
      sound_by v.bucket _ v.entries (put_object-keeps key body v.bucket) h
  Step-IsSound (write_entry v r derived written) h =
      unfold upsert_entry in
      ((written, derived), All-without_conflicts (IsSoundRow v.bucket) r v.entries h)
  Step-IsSound (register v sources) h = h
  Step-IsSound (pass v now_ms d1_up r2_up later) h = h

  -- From a world in which every entry has its object in the bucket and the permalink of its id, the
  -- writers reach only such worlds.
  pub Reach-IsSound : {v u : World} → IsSound v → Reach uuid_of v u → IsSound u
  Reach-IsSound h here = h
  Reach-IsSound h (next r s) = Step-IsSound s (Reach-IsSound h r)

  Step-keeps : {v u : World} → Step uuid_of v u → (k : Str) → v.bucket k ≢ none → u.bucket k ≢ none
  Step-keeps (write_object v key body) k h = put_object-keeps key body v.bucket k h
  Step-keeps (write_entry v r derived written) k h = h
  Step-keeps (register v sources) k h = h
  Step-keeps (pass v now_ms d1_up r2_up later) k h = h

  -- No object goes.
  pub Reach-keeps :
      {v u : World} → Reach uuid_of v u → (k : Str) → v.bucket k ≢ none → u.bucket k ≢ none
  Reach-keeps here k h = h
  Reach-keeps (next r s) k h = Step-keeps s k (Reach-keeps r k h)

  -- Some entry has the permalink.
  abbrev pub HasPermalink : Str → List EntryRecord → Type 0
  HasPermalink uuid [] = ⊥
  HasPermalink uuid (r ∷ rs) = (r.row.permalink_uuid ≡ uuid) ⊎ HasPermalink uuid rs

  HasPermalink-without_conflicts :
      (uuid : Str) (bucket : Str → Option Str) (r : EntryRecord) (rs : List EntryRecord)
      → r.row.permalink_uuid ≡ uuid_of r.row.id
      → All (IsSoundRow bucket) rs
      → HasPermalink uuid rs
      → (r.row.permalink_uuid ≡ uuid) ⊎ HasPermalink uuid (without_conflicts r rs)
  unfolding without_conflicts
  HasPermalink-without_conflicts uuid bucket r [] derived h k = absurd k
  HasPermalink-without_conflicts uuid bucket r (o ∷ os) derived (ho, h) k = ground (
    arith,
    str_eq_iff o.row.id r.row.id,
    str_eq_iff o.row.permalink_uuid r.row.permalink_uuid,
    HasPermalink-without_conflicts uuid bucket r os derived h,
  )

  Step-HasPermalink :
      {v u : World} (uuid : Str)
      → Step uuid_of v u
      → IsSound v
      → HasPermalink uuid v.entries
      → HasPermalink uuid u.entries
  Step-HasPermalink uuid (write_object v key body) h k = k
  Step-HasPermalink uuid (write_entry v r derived written) h k =
      unfold upsert_entry in HasPermalink-without_conflicts uuid v.bucket r v.entries derived h k
  Step-HasPermalink uuid (register v sources) h k = k
  Step-HasPermalink uuid (pass v now_ms d1_up r2_up later) h k = k

  -- No permalink goes.
  pub Reach-HasPermalink :
      {v u : World} (uuid : Str)
      → IsSound v
      → Reach uuid_of v u
      → HasPermalink uuid v.entries
      → HasPermalink uuid u.entries
  Reach-HasPermalink uuid h here k = k
  Reach-HasPermalink uuid h (next r s) k =
      Step-HasPermalink uuid s (Reach-IsSound h r) (Reach-HasPermalink uuid h r k)
