-- ===== src/BasicAuth/Verify.antt =====
-- `hashSecret` and `verifySecret` of email-worker/src/basicAuth.ts: what is accepted.
use agregado.Base.{ℕ, ◌≡◌, ◌≢◌, ap, ◌↔◌, true, List, [], ◌∷◌, length, All, arith}
use agregado.Text.{Str, IsUtf16}
use agregado.Platform.Utf8.{encode}
use agregado.Platform.Utf8.Laws.{encode_of_IsAscii, encode-encode_iff, IsAscii}
use agregado.BasicAuth.{Digest, hash_secret, verify_secret, to_hex}
use agregado.BasicAuth.Compare.{timing_safe_equal_iff}
use agregado.BasicAuth.Hex.{is_hex_digit, to_hex_lem, to_hex-injective}

hex-IsUtf16 : (s : Str) → All (λ c. is_hex_digit c ≡ true) s → IsUtf16 s
hex-IsUtf16 [] h = tt
hex-IsUtf16 (c ∷ s) (hc, h) = (ground arith, hex-IsUtf16 s h)

module _ (digest : Digest) where
  -- Two texts with one digest.
  abbrev pub Collision : List ℕ → List ℕ → Type 0
  Collision m n = (m ≢ n) × (digest.sha256 m ≡ digest.sha256 n)

  -- The hash of a secret has 64 characters, all of them lower-case hexadecimal digits.
  pub hash_secret_form :
      (secret : Str)
      → (length (hash_secret digest secret) ≡ 64)
        × All (λ c. is_hex_digit c ≡ true) (hash_secret digest secret)
  unfolding hash_secret
  hash_secret_form secret =
      let (len, bytes) = digest.sha256-IsDigest (encode secret) in
      let (twice, hex, back) = to_hex_lem (digest.sha256 (encode secret)) bytes in
      (omega arith, hex)

  pub hash_secret-IsUtf16 : (secret : Str) → IsUtf16 (hash_secret digest secret)
  hash_secret-IsUtf16 secret = hex-IsUtf16 _ (hash_secret_form secret).1

  -- Against a stored text of 16-bit units, a secret is accepted exactly if that text is its hash.
  pub verify_secret_iff :
      (secret hash : Str)
      → IsUtf16 hash
      → (verify_secret digest secret hash ≡ true) ↔ (hash_secret digest secret ≡ hash)
  unfolding verify_secret
  verify_secret_iff secret hash h = timing_safe_equal_iff _ hash (hash_secret-IsUtf16 secret) h

  -- Against the hash of a registered secret, another is accepted exactly if SHA-256 gives one
  -- digest for the UTF-8 bytes of both.
  pub verify_secret-hash_secret :
      (given registered : Str)
      → (verify_secret digest given (hash_secret digest registered) ≡ true)
        ↔ (digest.sha256 (encode given) ≡ digest.sha256 (encode registered))
  verify_secret-hash_secret given registered =
      let (to, from) =
        verify_secret_iff given (hash_secret digest registered) (hash_secret-IsUtf16 registered) in
      (
        λ e.
            unfold hash_secret in
            to_hex-injective _ _ (digest.sha256-IsDigest (encode given)).1
              (digest.sha256-IsDigest (encode registered)).1 (to e),
        λ e. from (unfold hash_secret in ap to_hex e),
      )

  -- An ASCII secret is accepted if it arrives as `atob` gives it from a client that sends UTF-8: its
  -- bytes, one in each code unit.
  pub verify_secret_of_IsAscii :
      (secret : Str)
      → IsAscii secret
      → verify_secret digest (encode secret) (hash_secret digest secret) ≡ true
  verify_secret_of_IsAscii secret a =
      (verify_secret-hash_secret (encode secret) secret).1
        (ap digest.sha256 (ap encode (encode_of_IsAscii secret a)))

  -- A secret of 16-bit units that is not ASCII, arriving as its UTF-8 bytes, one in each code unit,
  -- is accepted only by a collision of SHA-256.
  pub verify_secret_of_not_ascii :
      (secret : Str)
      → IsUtf16 secret
      → ¬ (IsAscii secret)
      → verify_secret digest (encode secret) (hash_secret digest secret) ≡ true
      → Collision (encode (encode secret)) (encode secret)
  verify_secret_of_not_ascii secret h na e = (
    λ same. na ((encode-encode_iff secret h).0 same),
    (verify_secret-hash_secret (encode secret) secret).0 e,
  )
