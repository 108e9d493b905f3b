-- ===== src/Base/Lists.antt =====
-- Lists measured by native numbers, under the library's names, and predicates on every element.
use Prim.Native.Nat.{ℕ, zero, suc, ◌+◌, ◌-◌, ◌≤◌}
use mathlib.Core.Path.{◌≡◌, refl, ap, sym, subst}
use mathlib.Core.List.Perm
use mathlib.Core.Logic.{∥∥₁_elim, ∥∥₁_map}
use mathlib.Core.List.{Mem, Memᴰ, Perm, List, [], ◌∷◌, ◌++◌}
use mathlib.Core.Option.{Option, none, some}
use native.Mathlib.Omega.{arith}

module _ {ℓ} {A : Type ℓ} where
  abbrev pub length : List A → ℕ
  length [] = 0
  length (x ∷ xs) = suc (length xs)

  abbrev pub get_elem? : List A → ℕ → Option A
  get_elem? [] i = none
  get_elem? (x ∷ xs) zero = some x
  get_elem? (x ∷ xs) (suc i) = get_elem? xs i

  abbrev pub take : ℕ → List A → List A
  take zero xs = []
  take (suc n) [] = []
  take (suc n) (x ∷ xs) = x ∷ take n xs

  abbrev pub drop : ℕ → List A → List A
  drop zero xs = xs
  drop (suc n) [] = []
  drop (suc n) (x ∷ xs) = drop n xs

  abbrev pub replicate : ℕ → A → List A
  replicate zero a = []
  replicate (suc n) a = a ∷ replicate n a

  pub length-append : (xs ys : List A) → length (xs ++ ys) ≡ length xs + length ys
  length-append [] ys = omega arith
  length-append (x ∷ xs) ys = omega (arith, length-append xs ys)

  pub take_of_length : (xs ys : List A) → take (length xs) (xs ++ ys) ≡ xs
  take_of_length [] ys = refl
  take_of_length (x ∷ xs) ys = ap (λ t. x ∷ t) (take_of_length xs ys)

  pub drop_of_length : (xs ys : List A) → drop (length xs) (xs ++ ys) ≡ ys
  drop_of_length [] ys = refl
  drop_of_length (x ∷ xs) ys = drop_of_length xs ys

  pub length-take : (n : ℕ) (xs : List A) → n ≤ length xs → length (take n xs) ≡ n
  length-take zero xs h = refl
  length-take (suc n) [] h = absurd (omega arith)
  length-take (suc n) (x ∷ xs) h = ap suc (length-take n xs (omega arith))

  pub length-drop : (n : ℕ) (xs : List A) → length (drop n xs) ≡ length xs - n
  length-drop zero xs = omega arith
  length-drop (suc n) [] = omega arith
  length-drop (suc n) (x ∷ xs) = omega (arith, length-drop n xs)

module _ {ℓ κ} {A : Type ℓ} (P : A → Type κ) where
  -- Every element satisfies `P`.
  abbrev pub All : List A → Type κ
  All [] = Unit
  All (x ∷ xs) = P x × All xs

  pub All-append : (xs ys : List A) → All xs → All ys → All (xs ++ ys)
  All-append [] ys _ k = k
  All-append (x ∷ xs) ys (p, h) k = (p, All-append xs ys h k)

  pub All-split : (xs ys : List A) → All (xs ++ ys) → All xs × All ys
  All-split [] ys h = (tt, h)
  All-split (x ∷ xs) ys (p, h) = let (hx, hy) = All-split xs ys h in ((p, hx), hy)

  pub All-take : (n : ℕ) (xs : List A) → All xs → All (take n xs)
  All-take zero xs h = tt
  All-take (suc n) [] h = tt
  All-take (suc n) (x ∷ xs) (p, h) = (p, All-take n xs h)

  pub All-drop : (n : ℕ) (xs : List A) → All xs → All (drop n xs)
  All-drop zero xs h = h
  All-drop (suc n) [] h = tt
  All-drop (suc n) (x ∷ xs) (p, h) = All-drop n xs h

  pub All-Memᴰ : (xs : List A) {x : A} → All xs → Memᴰ x xs → P x
  All-Memᴰ [] h m = elim m [ ]
  All-Memᴰ (y ∷ xs) (p, h) (Memᴰ.head e) = subst P (sym e) p
  All-Memᴰ (y ∷ xs) (p, h) (Memᴰ.tail m) = All-Memᴰ xs h m

  pub Mem-All : (xs : List A) → ((x : A) → Mem x xs → P x) → All xs
  Mem-All [] h = tt
  Mem-All (x ∷ xs) h =
      (h x ∣ Memᴰ.head refl ∣₁, Mem-All xs (λ y m. h y (∥∥₁_map m (λ d. Memᴰ.tail d))))

  module _ (is_prop : (x : A) → IsProp (P x)) where
    pub All-Mem : (xs : List A) {x : A} → All xs → Mem x xs → P x
    All-Mem xs {x} h m = ∥∥₁_elim m (is_prop x) (All-Memᴰ xs h)

    pub All-perm : (xs ys : List A) → Perm xs ys → All ys → All xs
    All-perm xs ys p h = Mem-All xs (λ x m. All-Mem ys h ((Perm.mem_iff p).0 m))

-- No element is the number `c`.
abbrev pub Lacks : ℕ → List ℕ → Type 0
Lacks c = All (λ d. d ≡ c → ⊥)

pub All-map {ℓ κ ι} :
    {A : Type ℓ} (P : A → Type κ) (Q : A → Type ι) (xs : List A)
    → ((x : A) → P x → Q x)
    → All P xs
    → All Q xs
All-map P Q [] k h = tt
All-map P Q (x ∷ xs) k (p, h) = (k x p, All-map P Q xs k h)
