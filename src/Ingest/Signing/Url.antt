-- ===== src/Ingest/Signing/Url.antt =====
-- What `signS3Put` of n8n/src/sigv4.js gives for the object of an entry, against what a server checks
-- by Signature Version 4 of AWS.
use agregado.Base.{◌≡◌, ◌++◌, take}
use agregado.Text.{Str, codes}
use agregado.Platform.Crypto.{KeyedHash}
use agregado.Platform.Utf8.{encode}
use agregado.BasicAuth.{Digest, to_hex}
use agregado.Ingest.Signing.{Put, SignedPut}

module _ (digest : Digest) (hash : KeyedHash) (put : Put) (signed : SignedPut) (path : Str) where
  -- What a server writes down of a PUT that it has received, with the path, the four headers and the
  -- SHA-256 of the body.
  abbrev pub received_text : Str
  received_text =
      let payload = to_hex (digest.sha256 (encode put.body)) in
      codes "PUT\n"
      ++ (path
          ++ (codes "\n\n"
              ++ ((codes "content-type:"
                    ++ ((signed.content_type ++ codes "\n")
                        ++ (codes "host:"
                            ++ ((put.host ++ codes "\n")
                                ++ (codes "x-amz-content-sha256:"
                                    ++ ((payload ++ codes "\n")
                                        ++ (codes "x-amz-date:"
                                            ++ (signed.date ++ codes "\n"))))))))
                  ++ (codes "\ncontent-type;host;x-amz-content-sha256;x-amz-date\n" ++ payload))))

  abbrev pub scope_text : Str
  scope_text = take 8 signed.date ++ (codes "/" ++ (put.region ++ codes "/s3/aws4_request"))

  -- The signature of that text under the key of the day, the region and the service.
  abbrev pub server_signature : Str
  server_signature =
      let day =
        hash.hmac (encode (codes "AWS4" ++ put.secret_access_key)) (encode (take 8 signed.date)) in
      let key =
        hash.hmac (hash.hmac (hash.hmac day (encode put.region)) (encode (codes "s3")))
          (encode (codes "aws4_request")) in
      let request = to_hex (digest.sha256 (encode received_text)) in
      to_hex (
        hash.hmac key (
          encode (
            codes "AWS4-HMAC-SHA256\n"
            ++ (signed.date ++ (codes "\n" ++ (scope_text ++ (codes "\n" ++ request)))))))

  -- A PUT of the body to a path that a server with the secret accepts.
  abbrev pub IsAuthorized : Type 0
  IsAuthorized =
      (signed.url ≡ codes "https://" ++ (put.host ++ path))
      × (signed.content_type ≡ put.content_type)
      × (signed.content_sha256 ≡ to_hex (digest.sha256 (encode put.body)))
      × (signed.authorization
          ≡ codes "AWS4-HMAC-SHA256 Credential="
            ++ (put.access_key_id
                ++ (codes "/"
                    ++ (scope_text
                        ++ (codes
                              ", SignedHeaders=content-type;host;x-amz-content-sha256;x-amz-date, "
                            ++ (codes "Signature=" ++ server_signature))))))
