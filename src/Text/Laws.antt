-- ===== src/Text/Laws.antt =====
-- Laws of the string methods.
use agregado.Base.{
  ℕ, zero, suc, ◌≡◌, refl, sym, ◌↔◌, true, [], ◌∷◌, ◌++◌, none, some, ◌==◌, ==_iff, if◌then◌else◌,
  Option-cases, arith, length, take, drop, Lacks, inl, inr, append_assoc,
}
use agregado.Text.{Str, str_eq, after_prefix, starts_with, index_of, replace_all}

pub str_eq_refl : (s : Str) → str_eq s s ≡ true
unfolding str_eq
str_eq_refl [] = refl
str_eq_refl (c ∷ s) = ground (arith, str_eq_refl s)

pub eq_of_str_eq : (s t : Str) → str_eq s t ≡ true → s ≡ t
unfolding str_eq
eq_of_str_eq [] [] h = refl
eq_of_str_eq [] (_ ∷ _) h = cc
eq_of_str_eq (_ ∷ _) [] h = cc
eq_of_str_eq (c ∷ s) (d ∷ t) h = ground (arith, eq_of_str_eq s t)

pub str_eq_iff : (s t : Str) → (str_eq s t ≡ true) ↔ (s ≡ t)
str_eq_iff s t = (eq_of_str_eq s t, λ e. rw e (str_eq_refl t))

pub after_prefix-append : (p s : Str) → after_prefix p (p ++ s) ≡ some s
unfolding after_prefix
after_prefix-append [] s = refl
after_prefix-append (c ∷ p) s = ground (arith, after_prefix-append p s)

pub eq_of_after_prefix : (p s rest : Str) → after_prefix p s ≡ some rest → s ≡ p ++ rest
unfolding after_prefix
eq_of_after_prefix [] s rest h = ground arith
eq_of_after_prefix (_ ∷ _) [] rest h = cc
eq_of_after_prefix (c ∷ p) (d ∷ s) rest h = ground (arith, eq_of_after_prefix p s rest)

pub starts_with-append : (p s : Str) → starts_with (p ++ s) p ≡ true
unfolding starts_with
starts_with-append [] s = refl
starts_with-append (c ∷ p) s = ground (arith, starts_with-append p s)

pub eq_of_starts_with : (p s : Str) → starts_with s p ≡ true → s ≡ p ++ drop (length p) s
unfolding starts_with
eq_of_starts_with [] s h = refl
eq_of_starts_with (_ ∷ _) [] h = cc
eq_of_starts_with (c ∷ p) (d ∷ s) h = ground (arith, eq_of_starts_with p s)

-- The first separator behind a text that holds none is found at that text's length.
pub index_of-append : (c : ℕ) (s t : Str) → Lacks c s → index_of (s ++ c ∷ t) c ≡ some (length s)
unfolding index_of
index_of-append c [] t h = ground arith
index_of-append c (d ∷ s) t (ne, h) = ground (arith, index_of-append c s t h, ==_iff d c)

pub index_of-eq-some :
    (c : ℕ) (s : Str) (i : ℕ)
    → index_of s c ≡ some i
    → (s ≡ take i s ++ c ∷ drop (suc i) s) × Lacks c (take i s)
unfolding index_of
index_of-eq-some c [] i h = cc
index_of-eq-some c (d ∷ s) zero h = elim (Option-cases (index_of s c)) [
  | inl e ↦ (ground arith, tt)
  | inr (j, e) ↦ (ground arith, tt)
]
index_of-eq-some c (d ∷ s) (suc i) h = ground (arith, index_of-eq-some c s i)

pub index_of-eq-none : (c : ℕ) (s : Str) → index_of s c ≡ none → Lacks c s
unfolding index_of
index_of-eq-none c [] h = tt
index_of-eq-none c (d ∷ s) h = ground (arith, index_of-eq-none c s)

pub replace_all-append :
    (c : ℕ) (t u v : Str) → replace_all c t (u ++ v) ≡ replace_all c t u ++ replace_all c t v
unfolding replace_all
replace_all-append c t [] v = refl
replace_all-append c t (d ∷ u) v =
    rw (replace_all-append c t u v)
      (sym (append_assoc (if d == c then t else d ∷ []) (replace_all c t u) (replace_all c t v)))

-- A text without the unit is left alone.
pub replace_all_of_Lacks : (c : ℕ) (t s : Str) → Lacks c s → replace_all c t s ≡ s
unfolding replace_all
replace_all_of_Lacks c t [] h = refl
replace_all_of_Lacks c t (d ∷ s) (ne, h) = ground (arith, replace_all_of_Lacks c t s h)
