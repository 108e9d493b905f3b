-- ===== src/Ingest/Readable/Collapse.antt =====
-- Runs of white space in readable content: what `.replace(/\s+/g, " ")` and `.trim()` of
-- n8n/src/sanitize.js do to it.
use agregado.Base.{
  ℕ, ◌≡◌, ap, sym, ◌∙◌, ◌⊎◌, inl, inr, arith, Bool, true, false, List, [], ◌∷◌, none, some,
  if◌then◌else◌, Bool-cases,
}
use agregado.Base.Options.{eq_of_some}
use agregado.Text.{Str}
use agregado.Text.Trim.{is_space, strip_start, strip_end}
use agregado.Ingest.Readable.{collapse}
use agregado.Ingest.Readable.Reader.{
  Mode, content, opened, tag, end_tag, literal, quoted, unquoted, State, at, read_char, read,
  read_step, eq_of_read_cons,
}
use agregado.Ingest.Readable.Spaces.{
  Behind, WellMode, content-Skips, read_char-WellMode, read_char-space,
}

passed :
    (q p : State) (c : ℕ)
    → read_char q.mode q.inside c ≡ some p
    → (read_char q.mode q.inside c ≡ none)
      ⊎ (read_char q.mode q.inside c ≡ some (at q.mode q.inside))
    → q ≡ p
passed q p c step (inl stuck) = cc
passed q p c step (inr same) = eq_of_some q p (sym same ∙ step)

-- What is read is read with each run of white space as one space.
pub read-collapse :
    (behind : Bool) (q r : State) (s : Str)
    → WellMode q.mode
    → Behind behind q.mode
    → read q s ≡ some r
    → read q (collapse behind s) ≡ some r
unfolding collapse
read-collapse behind q r [] w b h = h
read-collapse false q r (c ∷ s) w b h =
    let (p, step, k) = eq_of_read_cons q r c s h in
    let wp = read_char-WellMode q.mode q.inside c p w step in
    elim (Bool-cases (is_space c)) [
      | inr f ↦ rw f (read_step q p c (collapse false s) step ∙ read-collapse false p r s wp tt k)
      | inl t ↦
          let (space, skips) = read_char-space q.mode q.inside c p w t step in
          rw t (read_step q p 0x20 (collapse true s) space ∙ read-collapse true p r s wp skips k)
    ]
read-collapse true q r (c ∷ s) w b h =
    let (p, step, k) = eq_of_read_cons q r c s h in
    let wp = read_char-WellMode q.mode q.inside c p w step in
    elim (Bool-cases (is_space c)) [
      | inr f ↦ rw f (read_step q p c (collapse false s) step ∙ read-collapse false p r s wp tt k)
      | inl t ↦
          let same : q ≡ p = passed q p c step (b q.inside c t) in
          rw t (read-collapse true q r s w b (ap (λ x. read x s) same ∙ k))
    ]

-- White space at the start and at the end of the content.
pub read-strip_start :
    (inside : List Str) (r : State) (s : Str)
    → read (at content inside) s ≡ some r
    → read (at content inside) (strip_start is_space s) ≡ some r
unfolding strip_start
read-strip_start inside r [] h = h
read-strip_start inside r (c ∷ s) h = elim (Bool-cases (is_space c)) [
  | inl t ↦
      let (p, step, k) = eq_of_read_cons (at content inside) r c s h in
      let same = passed (at content inside) p c step (content-Skips inside c t) in
      rw (t, strip_start) (read-strip_start inside r s (ap (λ x. read x s) same ∙ k))
  | inr f ↦ rw (f, strip_start) h
]

-- Only in the content is white space passed over to the content.
content-before :
    (m : Mode) (inside : List Str) (p : State) (c : ℕ)
    → is_space c ≡ true
    → p.mode ≡ content
    → read_char m inside c ≡ some p
    → at m inside ≡ p
unfolding read_char
content-before content inside p c h e k = eq_of_some (at content inside) p (ground arith)
content-before opened inside p c h e k = absurd (ground arith)
content-before (tag n) inside p c h e k = absurd (ground arith)
content-before (end_tag n) inside p c h e k = absurd (ground arith)
content-before (literal []) inside p c h e k = absurd (ground arith)
content-before (literal (d ∷ [])) inside p c h e k = absurd (ground arith)
content-before (literal (d ∷ f ∷ s)) inside p c h e k = absurd (ground arith)
content-before quoted inside p c h e k = absurd (ground arith)
content-before unquoted inside p c h e k = absurd (ground arith)

read_nil : (p r : State) → read p [] ≡ some r → p ≡ r
unfolding read
read_nil p r h = eq_of_some p r h

pub read-strip_end :
    (q r : State) (s : Str)
    → r.mode ≡ content
    → read q s ≡ some r
    → read q (strip_end is_space s) ≡ some r
unfolding strip_end
read-strip_end q r [] e h = h
read-strip_end q r (c ∷ s) e h =
    let (p, step, k) = eq_of_read_cons q r c s h in
    go p step (strip_end is_space s) (read-strip_end p r s e k)
  where
    go :
        (p : State)
        → read_char q.mode q.inside c ≡ some p
        → (t : Str) → read p t ≡ some r
        → read q (elim t [ [] ↦ if is_space c then [] else c ∷ [] | d ∷ u ↦ c ∷ d ∷ u ]) ≡ some r
    go p step (d ∷ u) k = read_step q p c (d ∷ u) step ∙ k
    go p step [] k = elim (Bool-cases (is_space c)) [
      | inr f ↦ rw f (read_step q p c [] step ∙ k)
      | inl t ↦
          let before =
            content-before q.mode q.inside p c t (ap (λ x. x.mode) (read_nil p r k) ∙ e) step in
          rw t (ap (λ x. read x []) before ∙ k)
    ]
