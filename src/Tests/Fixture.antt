-- ===== src/Tests/Fixture.antt =====
-- The parameters at concrete functions, and the data of the runs.
use agregado.Base.{ℕ, ◌+◌, ◌%◌, ◌<◌, refl, true, List, [], ◌∷◌, ◌++◌, Option, none, drop, arith}
use agregado.Base.Int.{pos}
use agregado.Text.{Str, codes}
use agregado.Platform.Base64.{btoa}
use agregado.BasicAuth.{Digest, IsDigest, hash_secret}
use agregado.Worker.Effects.{World, Timeline}
use agregado.Worker.Store.{SourceRow, EntryRow, EntryRecord}
use agregado.Worker.Handlers.{Request, Url}
use agregado.Ingest.{put_object}

abbrev total : List ℕ → ℕ
total [] = 0
total (b ∷ bs) = b + total bs

byte_of : (n : ℕ) → n % 256 < 256
byte_of n = omega arith

-- 32 bytes: a sum of the message and zeros.
abbrev pub sum_digest : List ℕ → List ℕ
sum_digest message =
    total message % 256
    ∷ 0
    ∷ 0
    ∷ 0
    ∷ 0
    ∷ 0
    ∷ 0
    ∷ 0
    ∷ 0
    ∷ 0
    ∷ 0
    ∷ 0
    ∷ 0
    ∷ 0
    ∷ 0
    ∷ 0
    ∷ 0
    ∷ 0
    ∷ 0
    ∷ 0
    ∷ 0
    ∷ 0
    ∷ 0
    ∷ 0
    ∷ 0
    ∷ 0
    ∷ 0
    ∷ 0
    ∷ 0
    ∷ 0
    ∷ 0
    ∷ 0
    ∷ []

pub sum_digest-IsDigest : (message : List ℕ) → IsDigest (sum_digest message)
sum_digest-IsDigest message = (refl, ground (arith, byte_of (total message)))

abbrev pub checksum : Digest
checksum = record { sha256 = sum_digest; sha256-IsDigest = sum_digest-IsDigest }

abbrev pub origin : Str
origin = codes "https://bridge.example"

-- The URLs of one origin, with no query.
abbrev pub parse_url : Str → Url
parse_url url = record { origin = origin; pathname = drop 22 url }

abbrev pub entry_row : Str → Str → ℕ → EntryRow
entry_row id uuid at = record {
  id = id;
  canonical_url = none;
  permalink_uuid = uuid;
  title = codes "Cats & Dogs";
  readable_content = codes "<p>\"Hi\"</p>";
  published_at = pos at;
}

abbrev pub tldr : SourceRow
tldr = record {
  id = codes "tldr";
  display_name = codes "TLDR <3";
  basic_auth_secret_hash = hash_secret checksum (codes "s3cret");
  status = codes "active";
}

abbrev pub old_entry : EntryRecord
old_entry = record { source_id = codes "tldr"; row = entry_row (codes "a") (codes "u1") 1690000000 }

abbrev pub new_entry : EntryRecord
new_entry = record { source_id = codes "tldr"; row = entry_row (codes "b") (codes "u2") 1699990000 }

abbrev pub other_entry : EntryRecord
other_entry = record { source_id = codes "x"; row = entry_row (codes "c") (codes "u3") 1699990000 }

abbrev pub bucket : Str → Option Str
bucket = put_object (codes "a") (codes "<p>A</p>") (
    put_object (codes "b") (codes "<p>B</p>")
      (put_object (codes "c") (codes "<p>C</p>") (λ k. none)))

abbrev pub bridge : World
bridge = record {
  sources = tldr ∷ [];
  entries = old_entry ∷ new_entry ∷ other_entry ∷ [];
  bucket = bucket;
  now_ms = 1700000000000;
  d1_up = true;
  r2_up = true;
}

abbrev pub still : Timeline
still n = bridge

abbrev pub authorization : Str → Str → List (Str × Str)
authorization username password =
    (codes "authorization", codes "Basic " ++ btoa (username ++ b':' ∷ password)) ∷ []

abbrev pub feed_request : Str → Request
feed_request password = record {
  url = origin ++ codes "/feed/tldr.atom";
  headers = authorization (codes "tldr") password;
}

abbrev pub permalink_request : Request
permalink_request = record { url = origin ++ codes "/p/u2"; headers = [] }

-- A digest under which all messages collide.
abbrev pub zero_digest : List ℕ → List ℕ
zero_digest message = sum_digest []

pub zero_digest-IsDigest : (message : List ℕ) → IsDigest (zero_digest message)
zero_digest-IsDigest message = sum_digest-IsDigest []

abbrev pub zeros : Digest
zeros = record { sha256 = zero_digest; sha256-IsDigest = zero_digest-IsDigest }
