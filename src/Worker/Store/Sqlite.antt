-- ===== src/Worker/Store/Sqlite.antt =====
-- An engine that meets the laws: the queries as a scan of the table, with an insertion sort.
use mathlib.Core.List.{Memᴰ, Perm}
use mathlib.Core.List.Perm
use agregado.Base.{
  ◌≡◌, ◌≢◌, refl, sym, List, [], ◌∷◌, Option, none, some, if◌then◌else◌, All, arith, Bool-cases,
  inl, inr,
}
use agregado.Base.Int.{ℤ, ◌≤ℤ◌, leb_ℤ}
use agregado.Text.{Str, str_eq}
use agregado.Text.Laws.{str_eq_iff, eq_of_str_eq}
use agregado.Worker.Store.{
  SourceRow, EntryRow, EntryRecord, is_wanted, select, IsNewestFirst, Engine,
}

unfoldable pub find_source : List SourceRow → Str → Option SourceRow
find_source [] id = none
find_source (s ∷ ss) id = let rest = find_source ss id in if str_eq s.id id then some s else rest

unfoldable pub find_permalink : List EntryRecord → Str → Option Str
find_permalink [] uuid = none
find_permalink (r ∷ rs) uuid =
    let rest = find_permalink rs uuid in
    if str_eq r.row.permalink_uuid uuid then some r.row.id else rest

unfoldable pub insert : EntryRow → List EntryRow → List EntryRow
insert e [] = e ∷ []
insert e (o ∷ os) =
    let rest = insert e os in if leb_ℤ o.published_at e.published_at then e ∷ o ∷ os else o ∷ rest

unfoldable pub sort : List EntryRow → List EntryRow
sort [] = []
sort (e ∷ es) = insert e (sort es)

insert-perm : (e : EntryRow) (os : List EntryRow) → Perm (insert e os) (e ∷ os)
unfolding insert
insert-perm e [] = Perm.refl (e ∷ [])
insert-perm e (o ∷ os) = elim (Bool-cases (leb_ℤ o.published_at e.published_at)) [
  | inl h ↦ rw h (Perm.refl (e ∷ o ∷ os))
  | inr h ↦ rw h (Perm.trans (Perm.cons o (insert-perm e os)) (Perm.swap e o os))
]

pub sort-perm : (es : List EntryRow) → Perm (sort es) es
unfolding sort
sort-perm [] = Perm.refl []
sort-perm (e ∷ es) = Perm.trans (insert-perm e (sort es)) (Perm.cons e (sort-perm es))

All-insert :
    (k : ℤ) (e : EntryRow) (os : List EntryRow)
    → e.published_at ≤ℤ k
    → All (λ o. o.published_at ≤ℤ k) os
    → All (λ o. o.published_at ≤ℤ k) (insert e os)
unfolding insert
All-insert k e [] he h = (he, tt)
All-insert k e (o ∷ os) he (ho, h) = ground (arith, All-insert k e os he h)

All-older :
    (k l : ℤ) (os : List EntryRow)
    → k ≤ℤ l
    → All (λ o. o.published_at ≤ℤ k) os
    → All (λ o. o.published_at ≤ℤ l) os
All-older k l [] h hs = tt
All-older k l (o ∷ os) h (ho, hs) = (omega arith, All-older k l os h hs)

insert-IsNewestFirst :
    (e : EntryRow) (os : List EntryRow) → IsNewestFirst os → IsNewestFirst (insert e os)
unfolding insert
insert-IsNewestFirst e [] h = (tt, tt)
insert-IsNewestFirst e (o ∷ os) (ho, h) = elim (Bool-cases (leb_ℤ o.published_at e.published_at)) [
  | inl t ↦
      rw t ((ground arith, All-older o.published_at e.published_at os (ground arith) ho), (ho, h))
  | inr t ↦ rw t (All-insert o.published_at e os (ground arith) ho, insert-IsNewestFirst e os h)
]

pub sort-IsNewestFirst : (es : List EntryRow) → IsNewestFirst (sort es)
unfolding sort
sort-IsNewestFirst [] = tt
sort-IsNewestFirst (e ∷ es) = insert-IsNewestFirst e (sort es) (sort-IsNewestFirst es)

pub find_source-found :
    (ss : List SourceRow) (id : Str) (s : SourceRow)
    → find_source ss id ≡ some s
    → Memᴰ s ss × (s.id ≡ id)
unfolding find_source
find_source-found [] id s h = absurd (ground arith)
find_source-found (o ∷ os) id s h = elim (Bool-cases (str_eq o.id id)) [
  | inl t ↦
      let same : o ≡ s = ground arith in
      (Memᴰ.head (sym same), rw (← same) (eq_of_str_eq o.id id t))
  | inr f ↦ let (m, e) = find_source-found os id s (ground arith) in (Memᴰ.tail m, e)
]

pub find_source-missing :
    (ss : List SourceRow) (id : Str) → find_source ss id ≡ none → All (λ s. s.id ≢ id) ss
unfolding find_source
find_source-missing [] id h = tt
find_source-missing (o ∷ os) id h = ground (arith, str_eq_iff o.id id, find_source-missing os id)

pub find_permalink-found :
    (rs : List EntryRecord) (uuid id : Str)
    → find_permalink rs uuid ≡ some id
    → (r : EntryRecord) × Memᴰ r rs × (r.row.permalink_uuid ≡ uuid) × (r.row.id ≡ id)
unfolding find_permalink
find_permalink-found [] uuid id h = absurd (ground arith)
find_permalink-found (o ∷ os) uuid id h = elim (Bool-cases (str_eq o.row.permalink_uuid uuid)) [
  | inl t ↦ (o, Memᴰ.head refl, eq_of_str_eq o.row.permalink_uuid uuid t, ground arith)
  | inr f ↦
      let (r, m, e, i) = find_permalink-found os uuid id (ground arith) in (r, Memᴰ.tail m, e, i)
]

pub find_permalink-missing :
    (rs : List EntryRecord) (uuid : Str)
    → find_permalink rs uuid ≡ none
    → All (λ r. r.row.permalink_uuid ≢ uuid) rs
unfolding find_permalink
find_permalink-missing [] uuid h = tt
find_permalink-missing (o ∷ os) uuid h =
    ground (arith, str_eq_iff o.row.permalink_uuid uuid, find_permalink-missing os uuid)

-- The scanning engine.
abbrev pub sqlite : Engine
sqlite = record {
  source_by_id = find_source;
  entries_since = λ entries source_id cutoff. sort (select (is_wanted source_id cutoff) entries);
  entry_by_permalink = find_permalink;
  source_found = λ ss id s h. let (m, e) = find_source-found ss id s h in (∣ m ∣₁, e);
  source_missing = find_source-missing;
  entries_selected =
      λ entries source_id cutoff. sort-perm (select (is_wanted source_id cutoff) entries);
  entries_ordered =
      λ entries source_id cutoff. sort-IsNewestFirst (select (is_wanted source_id cutoff) entries);
  permalink_found = λ rs uuid id h.
      let (r, m, e, i) = find_permalink-found rs uuid id h in ∣ (r, ∣ m ∣₁, e, i) ∣₁;
  permalink_missing = find_permalink-missing;
}
