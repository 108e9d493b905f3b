-- ===== src/BasicAuth/Compare.antt =====
-- `timingSafeEqual` of email-worker/src/basicAuth.ts and the equality of strings.
use Prim.Native.Nat.{bit_or, bit_xor}
use agregado.Base.{
  ℕ, zero, suc, ◌+◌, ◌%◌, ◌^◌, ◌≡◌, refl, ap, true, [], ◌∷◌, length, get_elem?, arith, sym, ◌∙◌,
  ◌↔◌,
}
use agregado.Base.Bits.{eq_of_bit_xor, bit_xor_self, zero_of_bit_or, zero-bit_or}
use agregado.Text.{Str, IsUtf16}
use agregado.BasicAuth.{to_int32, diff_from, timing_safe_equal}

-- The loop from its `i`-th round on, over what is left of the two texts.
tail_diff : Str → Str → ℕ → ℕ
tail_diff [] t diff = diff
tail_diff (c ∷ s) [] diff = diff
tail_diff (c ∷ s) (d ∷ t) diff = tail_diff s t (bit_or diff (bit_xor (c % 2 ^ 32) (d % 2 ^ 32)))

diff_from-cons :
    (c d : ℕ) (a b : Str) (rounds i diff : ℕ)
    → diff_from (c ∷ a) (d ∷ b) rounds (suc i) diff ≡ diff_from a b rounds i diff
unfolding diff_from
diff_from-cons c d a b zero i diff = refl
diff_from-cons c d a b (suc rounds) i diff =
    let next : suc i + 1 ≡ suc (i + 1) = omega arith in
    let diff' = bit_or diff (bit_xor (to_int32 (get_elem? a i)) (to_int32 (get_elem? b i))) in
    ap (λ k. diff_from (c ∷ a) (d ∷ b) rounds k diff') next
    ∙ diff_from-cons c d a b rounds (i + 1) diff'

diff_from_first :
    (c d : ℕ) (a b : Str) (rounds diff : ℕ)
    → diff_from (c ∷ a) (d ∷ b) (suc rounds) 0 diff
      ≡ diff_from (c ∷ a) (d ∷ b) rounds 1 (bit_or diff (bit_xor (c % 2 ^ 32) (d % 2 ^ 32)))
unfolding diff_from
diff_from_first c d a b rounds diff = refl

diff_from-tail :
    (a b : Str) (diff : ℕ)
    → length a ≡ length b
    → diff_from a b (length a) 0 diff ≡ tail_diff a b diff
unfolding tail_diff
diff_from-tail [] b diff h = unfold diff_from in refl
diff_from-tail (c ∷ a) [] diff h = absurd (omega arith)
diff_from-tail (c ∷ a) (d ∷ b) diff h =
    diff_from_first c d a b (length a) diff
    ∙ diff_from-cons c d a b (length a) 0 _
    ∙ diff_from-tail a b _ (omega arith)

tail_diff-zero :
    (a b : Str) (diff : ℕ)
    → length a ≡ length b
    → IsUtf16 a
    → IsUtf16 b
    → tail_diff a b diff ≡ 0
    → (diff ≡ 0) × (a ≡ b)
unfolding tail_diff
tail_diff-zero [] [] diff h ua ub e = (e, refl)
tail_diff-zero [] (d ∷ b) diff h ua ub e = absurd (omega arith)
tail_diff-zero (c ∷ a) [] diff h ua ub e = absurd (omega arith)
tail_diff-zero (c ∷ a) (d ∷ b) diff h (uc, ua) (ud, ub) e =
    let (zero_here, same) = tail_diff-zero a b _ (omega arith) ua ub e in
    let (before, here) = zero_of_bit_or diff _ zero_here in
    let same_bits : c % 2 ^ 32 ≡ d % 2 ^ 32 = eq_of_bit_xor _ _ here in
    let same_unit : c ≡ d = omega arith in (before, cc)

tail_diff_self : (a : Str) → tail_diff a a 0 ≡ 0
unfolding tail_diff
tail_diff_self [] = refl
tail_diff_self (c ∷ a) = rw (bit_xor_self (c % 2 ^ 32), zero-bit_or) (tail_diff_self a)

timing_safe_equal_self : (s : Str) → timing_safe_equal s s ≡ true
unfolding timing_safe_equal
timing_safe_equal_self s = ground (arith, diff_from-tail s s 0 refl, tail_diff_self s)

eq_of_timing_safe_equal : (a b : Str) → IsUtf16 a → IsUtf16 b → timing_safe_equal a b ≡ true → a ≡ b
unfolding timing_safe_equal
eq_of_timing_safe_equal a b ua ub h =
    let len : length a ≡ length b = ground arith in
    let no_diff : diff_from a b (length a) 0 0 ≡ 0 = ground arith in
    (tail_diff-zero a b 0 len ua ub (sym (diff_from-tail a b 0 len) ∙ no_diff)).1

-- For strings of 16-bit units the answer is `true` exactly for equal strings.
pub timing_safe_equal_iff :
    (a b : Str) → IsUtf16 a → IsUtf16 b → (timing_safe_equal a b ≡ true) ↔ (a ≡ b)
timing_safe_equal_iff a b ua ub =
    (eq_of_timing_safe_equal a b ua ub, λ e. rw (← e) (timing_safe_equal_self a))
