-- ===== src/Ingest/Svix.antt =====
-- `verifySvix` of n8n/src/svix.js. HMAC-SHA-256, `toLowerCase`, `Number` and the base64 decoder of
-- `Buffer.from` are parameters.
use agregado.Base.{
  ℕ, ◌+◌, ◌*◌, ◌≡◌, ◌≢◌, refl, ◌↔◌, Bool, true, false, not, ◌&&◌, ◌||◌, List, [], ◌∷◌, ◌++◌, none,
  some, if◌then◌else◌, length, ◌==◌, Bool-cases, Option-cases, inl, inr, ◌⊎◌, arith,
}
use agregado.Base.Int.{pos, ◌≤ℤ◌, leb_ℤ, sub_ℕ}
use agregado.Text.{Str, codes, str_eq, after_prefix}
use agregado.Text.Laws.{str_eq_iff}
use agregado.Text.Split.{split}
use agregado.Platform.Crypto.{KeyedHash, CaseMap, NodeText, Finite, finite_of}
use agregado.Platform.Utf8.{encode}

abbrev pub tolerance_seconds : ℕ
tolerance_seconds = 5 * 60

-- A delivery: its headers and the raw body.
pub record Delivery : Type 0 where
  pub headers : List (Str × Str)
  pub raw_body : Str

abbrev pub is_missing : Str → Bool
is_missing [] = true
is_missing (_ ∷ _) = false

module _ (case_map : CaseMap) (hash : KeyedHash) (node : NodeText) where
  -- `h[name]` behind the loop that lowers the names: the last one wins, and a missing value is an
  -- empty text.
  unfoldable pub header_from : Str → List (Str × Str) → Str → Str
  header_from name [] found = found
  header_from name ((key, value) ∷ headers) found =
      header_from name headers (if str_eq (case_map.to_lower key) name then value else found)

  unfoldable pub header : Str → List (Str × Str) → Str
  header name headers = header_from name headers []

  -- `secret.replace(/^whsec_/, "")`, decoded.
  unfoldable pub signing_key : Str → List ℕ
  signing_key secret =
      node.base64_bytes
        (elim (after_prefix (codes "whsec_") secret) [ none ↦ secret | some rest ↦ rest ])

  unfoldable pub signed_content : Str → Str → Str → Str
  signed_content id timestamp raw_body = id ++ (b'.' ∷ (timestamp ++ (b'.' ∷ raw_body)))

  unfoldable pub is_fresh : ℕ → Str → Bool
  is_fresh now timestamp = elim (finite_of (node.number timestamp)) [
    | none ↦ false
    | some ts ↦
        leb_ℤ ts.ceil (pos (now + tolerance_seconds))
        && leb_ℤ (sub_ℕ now tolerance_seconds) ts.floor
  ]

  -- The two parts that `part.split(",")` gives the names.
  unfoldable pub matches_parts : List ℕ → List Str → Bool
  matches_parts expected [] = false
  matches_parts expected (version ∷ []) = false
  matches_parts expected (version ∷ sig ∷ more) =
      if not (str_eq version (codes "v1")) || is_missing sig
      then false
      else (let given = node.base64_bytes sig in
          length given == length expected && str_eq given expected)

  unfoldable pub some_matches : List ℕ → List Str → Bool
  some_matches expected [] = false
  some_matches expected (part ∷ parts) =
      matches_parts expected (split part b',') || some_matches expected parts

  unfoldable pub verify_svix : Str → Delivery → ℕ → Bool
  verify_svix secret delivery now =
      let id = header (codes "svix-id") delivery.headers in
      let timestamp = header (codes "svix-timestamp") delivery.headers in
      let signatures = header (codes "svix-signature") delivery.headers in
      if is_missing id || (is_missing timestamp || (is_missing signatures || is_missing secret))
      then false
      else if not (is_fresh now timestamp)
      then false
      else some_matches
          (hash.hmac (signing_key secret) (encode (signed_content id timestamp delivery.raw_body)))
          (split signatures b' ')

  -- One of the signatures, of version 1 and not empty, decodes to the expected bytes.
  abbrev pub Signs : List ℕ → List Str → Type 0
  Signs expected [] = ⊥
  Signs expected (part ∷ parts) =
      ((sig : Str) × (more : List Str) × (split part b',' ≡ codes "v1" ∷ sig ∷ more)
        × (sig ≢ [])
        × (node.base64_bytes sig ≡ expected))
      ⊎ Signs expected parts

  -- The time stamp is a number at most five minutes from now, before or behind.
  abbrev pub IsFresh : ℕ → Str → Type 0
  IsFresh now timestamp =
      (ts : Finite) × (finite_of (node.number timestamp) ≡ some ts)
      × (ts.ceil ≤ℤ pos (now + tolerance_seconds))
      × (sub_ℕ now tolerance_seconds ≤ℤ ts.floor)

  matches_parts_iff :
      (expected : List ℕ) (parts : List Str)
      → (matches_parts expected parts ≡ true) ↔ (
          (sig : Str) × (more : List Str) × (parts ≡ codes "v1" ∷ sig ∷ more)
          × (sig ≢ [])
          × (node.base64_bytes sig ≡ expected))
  unfolding matches_parts
  matches_parts_iff expected [] = ((λ h. cc), λ (sig, more, e, ne, b). cc)
  matches_parts_iff expected (v ∷ []) = ((λ h. cc), λ (sig, more, e, ne, b). cc)
  matches_parts_iff expected (v ∷ sig ∷ more) = (
    λ h. (
      sig,
      more,
      ground (arith, str_eq_iff v (codes "v1")),
      ground arith,
      ground (arith, str_eq_iff (node.base64_bytes sig) expected),
    ),
    λ (sig', more', e, ne, b). complete sig (ground arith) (ground arith) (ground arith),
  )
    where
      complete :
          (sig : Str)
          → v ≡ codes "v1"
          → sig ≢ []
          → node.base64_bytes sig ≡ expected
          → (if not (str_eq v (codes "v1")) || is_missing sig
              then false
              else (length (node.base64_bytes sig) == length expected
                  && str_eq (node.base64_bytes sig) expected))
            ≡ true
      complete [] ev ne eb = absurd (ne refl)
      complete (c ∷ sig) ev ne eb =
          ground
            (arith, str_eq_iff v (codes "v1"), str_eq_iff (node.base64_bytes (c ∷ sig)) expected)

  some_matches_iff :
      (expected : List ℕ) (parts : List Str)
      → (some_matches expected parts ≡ true) ↔ Signs expected parts
  unfolding some_matches
  some_matches_iff expected [] = ((λ h. cc), λ h. absurd h)
  some_matches_iff expected (part ∷ parts) =
      let (to, from) = matches_parts_iff expected (split part b',') in
      let (to_rest, from_rest) = some_matches_iff expected parts in
      (
        λ h. elim (Bool-cases (matches_parts expected (split part b','))) [
          | inl t ↦ inl (to t)
          | inr f ↦ inr (to_rest (ground arith))
        ],
        λ h. elim h [ inl k ↦ rw (from k) refl | inr k ↦ ground (arith, from_rest k) ],
      )

  is_fresh_iff :
      (now : ℕ) (timestamp : Str) → (is_fresh now timestamp ≡ true) ↔ IsFresh now timestamp
  unfolding is_fresh
  is_fresh_iff now timestamp = elim (Option-cases (finite_of (node.number timestamp))) [
    | inl e ↦ ((λ h. absurd (ground arith)), λ (ts, found, up, down). absurd (ground arith))
    | inr (ts, e) ↦
        (λ h. (ts, e, ground arith, ground arith), λ (ts', found, up, down). ground arith)
  ]

  -- A delivery as Svix describes it: the three headers and the secret are there, the time stamp is
  -- fresh, and a signature is the hash of the id, the time stamp and the raw body.
  pub record IsSigned (secret : Str) (delivery : Delivery) (now : ℕ) : Type 0 where
    pub has_id : header (codes "svix-id") delivery.headers ≢ []
    pub has_secret : secret ≢ []
    pub has_signatures : header (codes "svix-signature") delivery.headers ≢ []
    pub has_timestamp : header (codes "svix-timestamp") delivery.headers ≢ []
    pub fresh : IsFresh now (header (codes "svix-timestamp") delivery.headers)
    pub signed :
        Signs
          (hash.hmac (signing_key secret) (
            encode (
              signed_content
                (header (codes "svix-id") delivery.headers)
                (header (codes "svix-timestamp") delivery.headers)
                delivery.raw_body)))
          (split (header (codes "svix-signature") delivery.headers) b' ')

  present : (s : Str) → s ≢ [] → is_missing s ≡ false
  present [] h = absurd (h refl)
  present (c ∷ s) h = refl

  missing : (s : Str) → is_missing s ≡ false → s ≢ []
  missing [] h = cc
  missing (c ∷ s) h = cc

  -- A delivery is accepted exactly if `IsSigned` holds of it.
  pub verify_svix_iff :
      (secret : Str) (delivery : Delivery) (now : ℕ)
      → (verify_svix secret delivery now ≡ true) ↔ IsSigned secret delivery now
  unfolding verify_svix
  verify_svix_iff secret delivery now =
      let id = header (codes "svix-id") delivery.headers in
      let timestamp = header (codes "svix-timestamp") delivery.headers in
      let signatures = header (codes "svix-signature") delivery.headers in
      let expected =
        hash.hmac (signing_key secret) (encode (signed_content id timestamp delivery.raw_body)) in
      let (to_fresh, from_fresh) = is_fresh_iff now timestamp in
      let (to_signs, from_signs) = some_matches_iff expected (split signatures b' ') in
      (
        λ h. record {
          has_id = missing id (ground arith);
          has_secret = missing secret (ground arith);
          has_signatures = missing signatures (ground arith);
          has_timestamp = missing timestamp (ground arith);
          fresh = to_fresh (ground arith);
          signed = to_signs (ground arith);
        },
        λ s.
            rw
              (
                present id s.has_id,
                present timestamp s.has_timestamp,
                present signatures s.has_signatures,
                present secret s.has_secret,
                from_fresh s.fresh,
                from_signs s.signed,
              )
              refl,
      )
