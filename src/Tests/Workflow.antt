-- ===== src/Tests/Workflow.antt =====
-- Runs of the workflow of n8n/scripts/build-workflow.js.
use agregado.Base.{◌≡◌, ◌↔◌, refl, true, [], ◌∷◌, none, replicate, arith}
use agregado.Base.Outcome.{ok}
use agregado.Text.{Str, codes, str_eq}
use agregado.Worker.Effects.{World, Timeline}
use agregado.Worker.Handlers.{handle_permalink_request, html_response}
use agregado.Worker.Store.Sqlite.{sqlite}
use agregado.Ingest.{Reach, put_object, upsert_entry}
use agregado.Ingest
use agregado.Ingest.Entry.{NewEntry}
use agregado.Ingest.Svix.{Delivery, verify_svix, verify_svix_iff, IsSigned, header, header_from}
use agregado.Ingest.Workflow.{
  Bridge, Answers, Ending, stored, unauthorized, verify, upsert_query, write_d1, respond_ok, ended,
  advance, at_write_d1, now_of, run,
}
use agregado.Nodes.{follow}
use agregado.Ingest.Workflow.Graph.{nodes, connections, name_of}
use agregado.Ingest.Workflow.Connected.{result_of, name_of-advance}
use agregado.Ingest.Workflow.Runs.{run_ends, run_of_unsigned}
use agregado.Ingest.Workflow.Served.{uuid_under, Reaches-Reach_of_run, stored-resolves}
use agregado.Ingest.Workflow.System.{System, SystemInv, Reaches, here, next, act}
use agregado.Tests.Fixture.{checksum, parse_url, bridge, entry_row}
use agregado.Tests.Parameters.{
  ascii_case, keyed_bytes, digits_only, keyed_text, plain_content, payload_of, settings,
}

abbrev answers : Answers
answers = record { email = none; fetch_asset = none; accepted = true; reply = true }

abbrev empty_bridge : Bridge
empty_bridge = record {
  world = record bridge { entries = []; bucket = λ k. none };
  alerts = [];
  sent = [];
}

abbrev delivery : Delivery
delivery = record {
  headers = (codes "Svix-Id", codes "m1") ∷ (codes "svix-timestamp", codes "1700000000") ∷ [];
  raw_body = codes "e1";
}

verify_svix_iff_example :
    (verify_svix ascii_case keyed_bytes digits_only (codes "whsec_k") delivery 1700000000 ≡ true)
    ↔ IsSigned ascii_case keyed_bytes digits_only (codes "whsec_k") delivery 1700000000
verify_svix_iff_example =
    verify_svix_iff ascii_case keyed_bytes digits_only (codes "whsec_k") delivery 1700000000

run_ends_example :
    (e : Ending) × ((run ascii_case keyed_bytes digits_only checksum keyed_text plain_content sqlite
        payload_of settings
        (replicate 17 answers)
        empty_bridge
        (verify delivery)).1
      ≡ ended e)
run_ends_example =
    run_ends ascii_case keyed_bytes digits_only checksum keyed_text plain_content sqlite payload_of
      settings (replicate 17 answers) empty_bridge (verify delivery) (omega arith)

delivery_is_unsigned :
    ¬ (IsSigned ascii_case keyed_bytes digits_only (codes "whsec_k") delivery (now_of empty_bridge))
unfolding header header_from str_eq
delivery_is_unsigned signed = signed.has_signatures refl

run_of_unsigned_example :
    run ascii_case keyed_bytes digits_only checksum keyed_text plain_content sqlite payload_of
      settings
      (answers ∷ answers ∷ answers ∷ replicate 14 answers)
      empty_bridge
      (verify delivery)
    ≡ (empty_bridge, ended unauthorized)
run_of_unsigned_example =
    run_of_unsigned ascii_case keyed_bytes digits_only checksum keyed_text plain_content sqlite
      payload_of settings answers answers answers (replicate 14 answers) empty_bridge delivery
      delivery_is_unsigned

-- A run whose object is written: its row comes next.
abbrev letter : NewEntry
letter = record {
  record_of = record {
    source_id = codes "tldr";
    row = entry_row (codes "1") (uuid_under keyed_text settings (codes "1")) 1699990000;
  };
  permalink_html = codes "<p>A</p>";
}

abbrev put : World
put = record empty_bridge.world {
  bucket = put_object (codes "1") (codes "<p>A</p>") empty_bridge.world.bucket;
}

abbrev begun : System
begun = record {
  bridge = record empty_bridge { world = put };
  runs = upsert_query letter (codes "m") ∷ [];
}

abbrev queried : System
queried = record begun { runs = write_d1 letter (codes "m") ∷ [] }

abbrev written : World
written = record put { entries = upsert_entry letter.record_of [] }

abbrev answered : System
answered = record {
  bridge = record empty_bridge { world = written };
  runs = respond_ok letter ∷ [];
}

abbrev finished : System
finished = record answered { runs = ended (stored letter) ∷ [] }

begun-SystemInv :
    SystemInv ascii_case keyed_bytes digits_only checksum keyed_text plain_content sqlite payload_of
      settings
      (uuid_under keyed_text settings)
      begun
unfolding put_object str_eq
begun-SystemInv = (tt, ((refl, λ e. absurd (ground arith)), tt))

finishing :
    Reaches ascii_case keyed_bytes digits_only checksum keyed_text plain_content sqlite payload_of
      settings begun finished
unfolding advance at_write_d1
finishing =
    next {t = answered}
      (next {t = queried}
        (next {t = begun} here (act begun answers [] [] (upsert_query letter (codes "m")) refl))
        (act queried answers [] [] (write_d1 letter (codes "m")) refl))
      (act answered answers [] [] (respond_ok letter) refl)

Reaches-Reach_of_run_example :
    Reach (uuid_under keyed_text settings) put written
    × SystemInv ascii_case keyed_bytes digits_only checksum keyed_text plain_content sqlite
        payload_of settings
        (uuid_under keyed_text settings)
        finished
Reaches-Reach_of_run_example =
    Reaches-Reach_of_run ascii_case keyed_bytes digits_only checksum keyed_text plain_content sqlite
      payload_of settings begun finished begun-SystemInv finishing

abbrev still_written : Timeline
still_written n = written

stored-resolves_example :
    (body : Str) × ((handle_permalink_request sqlite checksum parse_url
        letter.record_of.row.permalink_uuid still_written 0).0
      ≡ ok (html_response body))
stored-resolves_example =
    stored-resolves ascii_case keyed_bytes digits_only checksum keyed_text plain_content sqlite
      payload_of settings parse_url begun finished [] [] letter still_written 0 begun-SystemInv
      finishing refl Ingest.here Ingest.here refl refl

name_of-advance_example :
    name_of
      (advance ascii_case keyed_bytes digits_only checksum keyed_text plain_content sqlite
        payload_of settings answers empty_bridge
        (write_d1 letter (codes "m"))).1
    ≡ follow nodes connections (name_of (write_d1 letter (codes "m"))) (
        result_of ascii_case keyed_bytes digits_only checksum keyed_text plain_content sqlite
          payload_of settings answers empty_bridge
          (write_d1 letter (codes "m")))
name_of-advance_example =
    name_of-advance ascii_case keyed_bytes digits_only checksum keyed_text plain_content sqlite
      payload_of settings answers empty_bridge (write_d1 letter (codes "m"))
