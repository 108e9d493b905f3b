-- ===== src/Worker/Routes/Laws.antt =====
-- Which paths the two routes take, and what they capture.
use agregado.Base.{
  Bool, true, [], ◌∷◌, ◌++◌, none, some, ◌≡◌, ◌≢◌, ◌↔◌, refl, ap, sym, ◌∙◌, Lacks, arith,
  append-nil, Option-cases, inl, inr,
}
use mathlib.Core.List.{append_cancel_right}
use agregado.Base.Options.{◌>>=◌}
use agregado.Text.{Str, codes, str_eq, after_prefix}
use agregado.Text.Laws.{after_prefix-append, eq_of_after_prefix, str_eq_iff}
use agregado.Worker.Routes.{greedy, group, feed_match, permalink_match}

module _ (tail : Str) where
  abbrev is_tail : Str → Bool
  is_tail rest = str_eq rest tail

  greedy_sound :
      (s found : Str) → greedy is_tail s ≡ some found → (s ≡ found ++ tail) × Lacks b'/' found
  unfolding greedy
  greedy_sound [] found h = ground (arith, str_eq_iff [] tail)
  greedy_sound (c ∷ s) found h = elim (Option-cases (greedy is_tail s)) [
    | inl e ↦ ground (arith, str_eq_iff (c ∷ s) tail)
    | inr (more, e) ↦ ground (arith, str_eq_iff (c ∷ s) tail, greedy_sound s more e)
  ]

  greedy_here : (s : Str) → is_tail s ≡ true → greedy is_tail s ≢ none
  unfolding greedy
  greedy_here [] e = ground arith
  greedy_here (c ∷ s) e = ground arith

  greedy-ne-none : (found : Str) → Lacks b'/' found → greedy is_tail (found ++ tail) ≢ none
  unfolding greedy
  greedy-ne-none [] h = greedy_here tail ((str_eq_iff tail tail).1 refl)
  greedy-ne-none (c ∷ found) (ne, h) = ground (arith, greedy-ne-none found h)

  greedy_complete : (found : Str) → Lacks b'/' found → greedy is_tail (found ++ tail) ≡ some found
  greedy_complete found h = elim (Option-cases (greedy is_tail (found ++ tail))) [
    | inl e ↦ absurd (greedy-ne-none found h e)
    | inr (other, e) ↦
        e ∙ ap some (append_cancel_right other found tail (sym (greedy_sound _ other e).0))
  ]

  group_sound :
      (s found : Str)
      → group is_tail s ≡ some found
      → (s ≡ found ++ tail) × (found ≢ []) × Lacks b'/' found
  unfolding group
  group_sound [] found h = absurd (ground arith)
  group_sound (c ∷ s) found h = elim (Option-cases (greedy is_tail s)) [
    | inl e ↦ absurd (ground arith)
    | inr (more, e) ↦
        let (whole, lacks) = greedy_sound s more e in (ground arith, ground arith, ground arith)
  ]

  group_complete :
      (found : Str) → found ≢ [] → Lacks b'/' found → group is_tail (found ++ tail) ≡ some found
  unfolding group
  group_complete [] ne h = absurd (ne refl)
  group_complete (c ∷ found) ne (hc, h) = ground (arith, greedy_complete found h)

-- What one route takes: a literal head, a group that is not empty and has no slash, and a literal
-- tail.
abbrev IsRoute : Str → Str → Str → Str → Type 0
IsRoute head tail pathname found =
    (pathname ≡ head ++ (found ++ tail)) × (found ≢ []) × Lacks b'/' found

IsRoute-iff :
    (head tail pathname found : Str)
    → ((after_prefix head pathname >>= group (is_tail tail)) ≡ some found)
      ↔ IsRoute head tail pathname found
IsRoute-iff head tail pathname found = (to, from)
  where
    to :
        (after_prefix head pathname >>= group (is_tail tail)) ≡ some found
        → IsRoute head tail pathname found
    to h = elim (Option-cases (after_prefix head pathname)) [
      | inl e ↦ absurd (ground arith)
      | inr (rest, e) ↦
          let (whole, ne, lacks) = group_sound tail rest found (ground arith) in
          (eq_of_after_prefix head pathname rest e ∙ ap (λ t. head ++ t) whole, ne, lacks)
    ]

    from :
        IsRoute head tail pathname found
        → (after_prefix head pathname >>= group (is_tail tail)) ≡ some found
    from (e, ne, lacks) = rw (e, after_prefix-append) (group_complete tail found ne lacks)

-- The feed route takes exactly the paths `/feed/<id>.atom`, with an id that is not empty and has no
-- slash, and captures the id.
pub feed_match_iff :
    (pathname source_id : Str)
    → (feed_match pathname ≡ some source_id) ↔ (
        (pathname ≡ codes "/feed/" ++ (source_id ++ codes ".atom"))
        × (source_id ≢ [])
        × Lacks b'/' source_id)
unfolding feed_match
feed_match_iff pathname source_id = IsRoute-iff (codes "/feed/") (codes ".atom") pathname source_id

-- The permalink route takes exactly the paths `/p/<uuid>`, with a uuid that is not empty and has no
-- slash, and captures the uuid.
pub permalink_match_iff :
    (pathname uuid : Str)
    → (permalink_match pathname ≡ some uuid)
      ↔ ((pathname ≡ codes "/p/" ++ uuid) × (uuid ≢ []) × Lacks b'/' uuid)
unfolding permalink_match
permalink_match_iff pathname uuid = rw append-nil at (IsRoute-iff (codes "/p/") [] pathname uuid)
