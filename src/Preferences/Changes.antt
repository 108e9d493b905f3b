-- ===== src/Preferences/Changes.antt =====
-- `describeChange` of n8n/src/preferences.js: which bullets count as changed.
use agregado.Base.{
  ℕ, ◌≡◌, refl, sym, ◌∙◌, ◌↔◌, true, false, ◌||◌, List, [], ◌∷◌, ◌++◌, All, Bool-cases, inl, inr,
  arith,
}
use agregado.Text.{Str, str_eq}
use agregado.Text.Laws.{str_eq_iff, eq_of_str_eq}
use agregado.Preferences.{
  Sections, has, unique, unique_from, bullets_of, lines_for, keys, changes_in, changes,
  bullets_by_section,
}

pub has-append : (xs ys : List Str) (s : Str) → has (xs ++ ys) s ≡ (has xs s || has ys s)
unfolding has
has-append [] ys s = refl
has-append (x ∷ xs) ys s = ground (arith, has-append xs ys s)

has-unique_from :
    (seen items : List Str) (s : Str) → has (unique_from seen items) s ≡ (has seen s || has items s)
unfolding unique_from has
has-unique_from seen [] s = ground arith
has-unique_from seen (t ∷ ts) s = elim (Bool-cases (has seen t)) [
  | inl old ↦ rw old (has-unique_from seen ts s ∙ absorb old)
  | inr new ↦
      rw new (has-unique_from (seen ++ t ∷ []) ts s ∙ ground (arith, has-append seen (t ∷ []) s))
]
  where
    absorb : has seen t ≡ true → (has seen s || has ts s) ≡ (has seen s || (str_eq t s || has ts s))
    absorb old = ground (arith, str_eq_iff t s)

pub has-unique : (items : List Str) (s : Str) → has (unique items) s ≡ has items s
unfolding unique has
has-unique items s = has-unique_from [] items s

-- Every bullet of the first list is in the second.
abbrev Covers : List Str → List Str → Type 0
Covers others bullets = All (λ b. has others b ≡ true) bullets

Covers-at :
    (others bullets : List Str) (s : Str)
    → Covers others bullets
    → has bullets s ≡ true
    → has others s ≡ true
unfolding has
Covers-at others [] s h k = cc
Covers-at others (b ∷ bs) s (hb, h) k = ground (arith, str_eq_iff b s, Covers-at others bs s h)

Covers-of :
    (others bullets : List Str)
    → ((s : Str) → has bullets s ≡ true → has others s ≡ true)
    → Covers others bullets
unfolding has
Covers-of others [] h = tt
Covers-of others (b ∷ bs) h =
    (h b (ground (arith, str_eq_iff b b)), Covers-of others bs (λ s k. h s (ground arith)))

lines_for_iff :
    (sign : ℕ) (section : Str) (others bullets : List Str)
    → (lines_for sign section others bullets ≡ []) ↔ Covers others bullets
unfolding lines_for
lines_for_iff sign section others [] = ((λ e. tt), λ h. refl)
lines_for_iff sign section others (b ∷ bs) = elim (Bool-cases (has others b)) [
  | inl t ↦ (
    λ e. (t, (lines_for_iff sign section others bs).0 (rw t at e)),
    λ h. rw t ((lines_for_iff sign section others bs).1 h.1),
  )
  | inr f ↦ ((λ e. absurd (ground arith)), λ h. absurd (ground arith))
]

nil_of_append {ℓ} : {A : Type ℓ} (xs ys : List A) → xs ++ ys ≡ [] → (xs ≡ []) × (ys ≡ [])
nil_of_append [] ys e = (refl, e)
nil_of_append (x ∷ xs) ys e = cc

-- The two documents hold the same bullets in a section.
abbrev pub SameIn : Sections → Sections → Str → Type 0
SameIn a b section =
    (bullet : Str) → has (bullets_of section a) bullet ≡ has (bullets_of section b) bullet

Covers-both :
    (xs ys : List Str)
    → Covers (unique xs) (unique ys)
    → Covers (unique ys) (unique xs)
    → (s : Str) → has xs s ≡ has ys s
Covers-both xs ys yx xy s = ground (
  arith,
  has-unique xs s,
  has-unique ys s,
  Covers-at (unique xs) (unique ys) s yx,
  Covers-at (unique ys) (unique xs) s xy,
)

both_cover : (xs ys : List Str) → ((s : Str) → has xs s ≡ has ys s) → Covers (unique xs) (unique ys)
both_cover xs ys same =
    Covers-of (unique xs) (unique ys)
      (λ s h. ground (arith, has-unique xs s, has-unique ys s, same s))

-- One section, with the lines of the others behind it.
section_iff :
    (section : Str) (xs ys rest : List Str)
    → (lines_for b'+' section (unique xs) (unique ys)
          ++ (lines_for b'-' section (unique ys) (unique xs) ++ rest)
        ≡ [])
      ↔ (((s : Str) → has xs s ≡ has ys s) × (rest ≡ []))
section_iff section xs ys rest = (to, from)
  where
    to :
        lines_for b'+' section (unique xs) (unique ys)
            ++ (lines_for b'-' section (unique ys) (unique xs) ++ rest)
          ≡ []
        → ((s : Str) → has xs s ≡ has ys s) × (rest ≡ [])
    to e =
        let (added, others) = nil_of_append (lines_for b'+' section (unique xs) (unique ys)) _ e in
        let (removed, none_left) =
          nil_of_append (lines_for b'-' section (unique ys) (unique xs)) _ others in
        (
          Covers-both xs ys ((lines_for_iff b'+' section (unique xs) (unique ys)).0 added)
              ((lines_for_iff b'-' section (unique ys) (unique xs)).0 removed),
          none_left,
        )

    from :
        ((s : Str) → has xs s ≡ has ys s) × (rest ≡ [])
        → lines_for b'+' section (unique xs) (unique ys)
            ++ (lines_for b'-' section (unique ys) (unique xs) ++ rest)
          ≡ []
    from (same, none_left) =
        rw
          (
            (lines_for_iff b'+' section (unique xs) (unique ys)).1 (both_cover xs ys same),
            (lines_for_iff b'-' section (unique ys) (unique xs)).1
                (both_cover ys xs (λ s. sym (same s))),
          )
          none_left

changes_in_iff :
    (a b : Sections) (sections : List Str)
    → (changes_in a b sections ≡ []) ↔ All (SameIn a b) sections
unfolding changes_in
changes_in_iff a b [] = ((λ e. tt), λ h. refl)
changes_in_iff a b (section ∷ sections) =
    let (to, from) =
      section_iff section (bullets_of section a) (bullets_of section b) (changes_in a b sections) in
    let (to_rest, from_rest) = changes_in_iff a b sections in
    (λ e. let (same, rest) = to e in (same, to_rest rest), λ (same, h). from (same, from_rest h))

bullets_of_missing :
    (title : Str) (sections : Sections)
    → has (keys sections) title ≡ false
    → bullets_of title sections ≡ []
unfolding keys bullets_of has
bullets_of_missing title [] h = refl
bullets_of_missing title ((t, bullets) ∷ sections) h =
    ground (arith, bullets_of_missing title sections)

SameIn-at :
    (a b : Sections) (titles : List Str) (section : Str)
    → All (SameIn a b) titles
    → has titles section ≡ true
    → SameIn a b section
unfolding has
SameIn-at a b [] section h k = cc
SameIn-at a b (t ∷ ts) section (ht, h) k = elim (Bool-cases (str_eq t section)) [
  | inl e ↦ rw (← eq_of_str_eq t section e) ht
  | inr f ↦ SameIn-at a b ts section h (ground arith)
]

All-of {ℓ κ} : {A : Type ℓ} (P : A → Type κ) (xs : List A) → ((x : A) → P x) → All P xs
All-of P [] h = tt
All-of P (x ∷ xs) h = (h x, All-of P xs h)

-- There is no change exactly if every section has the same set of bullets in both documents.
pub changes_iff :
    (before after : Str)
    → (changes before after ≡ [])
      ↔ ((section : Str) → SameIn (bullets_by_section before) (bullets_by_section after) section)
unfolding changes
changes_iff before after =
    let a = bullets_by_section before in
    let b = bullets_by_section after in
    let titles = unique (keys a ++ keys b) in
    let (to, from) = changes_in_iff a b titles in
    (
      λ e section. elim (Bool-cases (has titles section)) [
        | inl t ↦ SameIn-at a b titles section (to e) t
        | inr f ↦
            let apart = has-append (keys a) (keys b) section in
            let all = has-unique (keys a ++ keys b) section in
            let in_a : bullets_of section a ≡ [] = bullets_of_missing section a (ground arith) in
            let in_b : bullets_of section b ≡ [] = bullets_of_missing section b (ground arith) in
            λ bullet. rw (in_a, in_b) refl
      ],
      λ same. from (All-of (SameIn a b) titles same),
    )
