-- ===== src/Text/Print.antt =====
-- `String(n)` for a natural number.
use agregado.Base.{ℕ, zero, suc, ◌+◌, ◌/◌, ◌%◌, ◌≡◌, refl, true, false, [], ◌∷◌, ◌++◌, ltb}
use agregado.Text.{Str, codes}

-- With `n` for a bound on its digits.
unfoldable pub decimal_from : ℕ → ℕ → Str
decimal_from zero n = (b'0' + n) ∷ []
decimal_from (suc fuel) n = elim (ltb n 10) [
  | true ↦ (b'0' + n) ∷ []
  | false ↦ decimal_from fuel (n / 10) ++ (b'0' + n % 10) ∷ []
]

unfoldable pub decimal : ℕ → Str
decimal n = decimal_from n n

decimal_test : (decimal 0 ≡ codes "0") × (decimal 9 ≡ codes "9") × (decimal 1024 ≡ codes "1024")
unfolding decimal decimal_from
decimal_test = (refl, refl, refl)
