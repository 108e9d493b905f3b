-- ===== src/Tests/Sync.antt =====
-- A run of the workflow of n8n/scripts/build-preferences-sync.js in which nothing has changed.
use agregado.Base.{ℕ, zero, suc, ◌≡◌, Bool, true, false, [], none, some, replicate, All, arith}
use agregado.Text.{codes}
use agregado.Preferences.Workflow.{Answers, Effects, Regeneration, build, run, ended}
use agregado.Preferences.Workflow.Uploads.{Gives, IsUpload, IsReport, run_uploads}

abbrev answers : Answers
answers = record {
  markdown = some (codes "# P");
  regeneration = some (record { changed = false; profile = codes "# P"; signals = 0 });
  item = none;
  accepted = true;
  reply = true;
}

abbrev idle : Effects
idle = record { stored = []; regenerated = 0; uploaded = []; notes = [] }

-- No change is expected.
abbrev Never : Regeneration → Type 0
Never result = ⊥

Gives-replicate : (n : ℕ) → All (Gives Never) (replicate n answers)
Gives-replicate zero = tt
Gives-replicate (suc n) = ((λ e. absurd (ground arith)), Gives-replicate n)

run_uploads_example :
    let end = run (replicate 10 answers) idle (build (codes "d") (codes "http://h")) in
    ((success : Bool) × (end.1 ≡ ended success))
    × All (IsUpload Never) end.0.uploaded
    × All (IsReport Never) end.0.notes
run_uploads_example =
    run_uploads Never (replicate 10 answers) idle (build (codes "d") (codes "http://h"))
      (Gives-replicate 10) tt tt tt (omega arith)
