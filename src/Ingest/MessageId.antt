-- ===== src/Ingest/MessageId.antt =====
-- `entryId` of n8n/src/identity.js. SHA-256 is a parameter.
use agregado.Base.{ℕ, ◌≡◌, ◌≢◌, refl, ap, true, [], ◌∷◌, ◌++◌, length, All, ◌==◌, arith}
use agregado.Base.Outcome.{Outcome, ok, throws, error}
use agregado.Text.{Str, codes}
use agregado.Text.Trim.{
  trim, unwrap, drop_first, drop_last, is_space, Begins, Ends, strip_of_Ends, snoc-Ends,
}
use agregado.Platform.Utf8.{encode}
use agregado.BasicAuth.{Digest, to_hex}
use agregado.BasicAuth.Hex.{is_hex_digit, to_hex_lem}

abbrev pub not_empty : Str → Str → Outcome Str → Outcome Str
not_empty [] message next = throws (error message)
not_empty (c ∷ s) message next = next

unfoldable pub normal_id : Str → Str
normal_id message_id = trim (unwrap b'<' b'>' (trim message_id))

-- A missing Message-ID is an empty text.
unfoldable pub entry_id : Digest → Str → Outcome Str
entry_id digest message_id =
    not_empty (normal_id message_id) (codes "missing Message-ID")
      (ok (to_hex (digest.sha256 (encode (normal_id message_id)))))

trim_of_Ends : (s : Str) → Begins is_space s → Ends is_space s → trim s ≡ s
unfolding trim
trim_of_Ends = strip_of_Ends is_space

drop_last-append : (o : ℕ) (s : Str) → drop_last o (s ++ o ∷ []) ≡ s
unfolding drop_last
drop_last-append o [] = ground arith
drop_last-append o (c ∷ []) = ground arith
drop_last-append o (c ∷ d ∷ s) = ap (λ t. c ∷ t) (drop_last-append o (d ∷ s))

drop_last_of_Ends : (o : ℕ) (s : Str) → Ends (λ c. c == o) s → drop_last o s ≡ s
unfolding drop_last
drop_last_of_Ends o [] h = refl
drop_last_of_Ends o (c ∷ []) h = ground arith
drop_last_of_Ends o (c ∷ d ∷ s) h = ap (λ t. c ∷ t) (drop_last_of_Ends o (d ∷ s) h)

drop_first_of_Begins : (o : ℕ) (s : Str) → Begins (λ c. c == o) s → drop_first o s ≡ s
unfolding drop_first
drop_first_of_Begins o [] h = refl
drop_first_of_Begins o (c ∷ s) h = ground arith

-- A Message-ID without its angle brackets and the space round it.
abbrev pub IsBare : Str → Type 0
IsBare m =
    (Begins is_space m × Ends is_space m) × (Begins (λ c. c == b'<') m × Ends (λ c. c == b'>') m)

normal_id_of_IsBare : (m : Str) → IsBare m → normal_id m ≡ m
unfolding normal_id unwrap
normal_id_of_IsBare m ((b, e), (open_first, close_last)) = rw (
  trim_of_Ends m b e,
  drop_first_of_Begins b'<' m open_first,
  drop_last_of_Ends b'>' m close_last,
  trim_of_Ends m b e,
)

abbrev wrapped : Str → Str
wrapped m = b'<' ∷ (m ++ b'>' ∷ [])

normal_id-wrapped : (m : Str) → IsBare m → normal_id (wrapped m) ≡ m
unfolding normal_id unwrap drop_first
normal_id-wrapped m ((b, e), marks) =
    let whole : trim (wrapped m) ≡ wrapped m =
      trim_of_Ends (wrapped m) refl (snoc-Ends is_space (b'<' ∷ m) b'>' refl) in
    rw (whole, drop_last-append b'>' m, trim_of_Ends m b e)

-- A Message-ID that is not empty, and has no brackets or space at its ends, names the same entry with
-- angle brackets round it and without them: the id is the SHA-256 of its UTF-8 bytes, in 64
-- lower-case hexadecimal digits.
pub entry_id-wrapped :
    (digest : Digest) (m : Str)
    → IsBare m
    → m ≢ []
    → (id : Str) × (entry_id digest m ≡ ok id)
      × (entry_id digest (wrapped m) ≡ ok id)
      × (id ≡ to_hex (digest.sha256 (encode m)))
      × (length id ≡ 64)
      × All (λ c. is_hex_digit c ≡ true) id
unfolding entry_id
entry_id-wrapped digest [] bare ne = absurd (ne refl)
entry_id-wrapped digest (c ∷ m) bare ne =
    let (len, bytes) = digest.sha256-IsDigest (encode (c ∷ m)) in
    let (twice, hex, back) = to_hex_lem (digest.sha256 (encode (c ∷ m))) bytes in
    (
      to_hex (digest.sha256 (encode (c ∷ m))),
      rw (normal_id_of_IsBare (c ∷ m) bare) refl,
      rw (normal_id-wrapped (c ∷ m) bare) refl,
      refl,
      omega arith,
      hex,
    )
