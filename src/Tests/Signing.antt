-- ===== src/Tests/Signing.antt =====
-- The PUT of an entry's object, as n8n/src/sigv4.js signs it.
use agregado.Text.{codes}
use agregado.Ingest.Signing.{Put}

abbrev put : Put
put = record {
  access_key_id = codes "id";
  secret_access_key = codes "secret";
  region = codes "auto";
  host = codes "a.r2.cloudflarestorage.com";
  bucket = codes "bridge";
  key = codes "00ff";
  body = codes "<p>A</p>";
  content_type = codes "text/html; charset=utf-8";
}
