-- ===== src/Preferences/Workflow/Uploads.antt =====
-- What a run of the workflow of n8n/scripts/build-preferences-sync.js uploads and reports.
use agregado.Base.{
  ℕ, ◌-◌, ◌≤◌, ◌≡◌, refl, Bool, true, false, List, [], ◌∷◌, Option, none, some, if◌then◌else◌,
  length, All, Bool-cases, inl, inr, arith,
}
use agregado.Base.Outcome.{Outcome, ok, throws}
use agregado.Text.{Str, codes}
use agregado.Preferences.{Requests, build_requests}
use agregado.Preferences.Workflow.{
  Effects, Answers, Regeneration, Note, updated, failure, Node, build, export_doc, store_profile,
  regenerate, describe, write_doc, notify_change, describe_failure, notify_failure, fail, ended,
  at_describe, at_store, at_write, at_notify, advance, run,
}

-- The most nodes that a run has before it.
abbrev pub nodes_left : Node → ℕ
nodes_left (build d b) = 10
nodes_left (export_doc r) = 9
nodes_left (store_profile r m) = 8
nodes_left (regenerate r m) = 7
nodes_left (describe r m x) = 6
nodes_left (write_doc r x c) = 5
nodes_left (notify_change s c) = 1
nodes_left (describe_failure s) = 3
nodes_left (notify_failure m) = 2
nodes_left fail = 1
nodes_left (ended s) = 0

step_lowers :
    (a : Answers) (w : Effects) (n : Node) → nodes_left (advance a w n).1 ≤ nodes_left n - 1
unfolding advance at_describe at_store at_write at_notify
step_lowers a w n = ground arith

ended_of_none_left : (n : Node) → nodes_left n ≤ 0 → (success : Bool) × (n ≡ ended success)
ended_of_none_left (ended s) h = (s, refl)
ended_of_none_left n h = absurd (omega arith)

module _ (P : Regeneration → Type 0) where
  abbrev pub GivesChange : Option Regeneration → Type 0
  GivesChange none = Unit
  GivesChange (some result) = result.changed ≡ true → P result

  -- A regeneration that the outside gives as a change has the property.
  abbrev pub Gives : Answers → Type 0
  Gives a = GivesChange a.regeneration

  abbrev pub IsUpload : Str → Type 0
  IsUpload profile = (result : Regeneration) × P result × (profile ≡ result.profile)

  -- The notification of a change says how many votes and openings led to it.
  abbrev pub IsReport : Note → Type 0
  IsReport (updated signals change) =
      (result : Regeneration) × P result × (signals ≡ result.signals)
  IsReport (failure message) = Unit

  -- What a run relies on at a node.
  abbrev pub NodeInv : Node → Type 0
  NodeInv (describe r m result) = result.changed ≡ true → P result
  NodeInv (write_doc r result c) = P result
  NodeInv (notify_change signals c) =
      (result : Regeneration) × P result × (signals ≡ result.signals)
  NodeInv _ = Unit

  abbrev Keeps : Effects × Node → Type 0
  Keeps (w, n) = All IsUpload w.uploaded × All IsReport w.notes × NodeInv n

  requested :
      (o : Outcome Requests) → NodeInv (elim o [ throws e ↦ ended false | ok r ↦ export_doc r ])
  requested (throws e) = tt
  requested (ok r) = tt

  exported :
      (markdown : Option Str) (r : Requests)
      → NodeInv (elim markdown [
        | none ↦ describe_failure (codes "Export Doc")
        | some m ↦ store_profile r m
      ])
  exported none r = tt
  exported (some m) r = tt

  given :
      (regeneration : Option Regeneration) (r : Requests) (m : Str)
      → GivesChange regeneration
      → NodeInv (elim regeneration [
        | none ↦ describe_failure (codes "Regenerate")
        | some result ↦ describe r m result
      ])
  given none r m h = tt
  given (some result) r m h = h

  branch :
      (test : Bool) (n m : Node)
      → (test ≡ true → NodeInv n)
      → NodeInv m
      → NodeInv (if test then n else m)
  branch true n m hn hm = hn refl
  branch false n m hn hm = hm

  advance-Keeps :
      (a : Answers) (w : Effects) (n : Node) → Gives a → Keeps (w, n) → Keeps (advance a w n)
  unfolding advance at_describe at_store at_write at_notify
  advance-Keeps a w (build d b) gives (uploads, reports, h) =
      (uploads, reports, requested (build_requests d b))
  advance-Keeps a w (export_doc r) gives (uploads, reports, h) =
      (uploads, reports, exported a.markdown r)
  advance-Keeps a w (store_profile r m) gives (uploads, reports, h) = elim (Bool-cases a.accepted) [
    | inr f ↦ rw f (uploads, reports, tt)
    | inl t ↦ rw t (uploads, reports, branch a.reply (regenerate r m) _ (λ e. tt) tt)
  ]
  advance-Keeps a w (regenerate r m) gives (uploads, reports, h) =
      (uploads, reports, given a.regeneration r m gives)
  advance-Keeps a w (describe r m result) gives (uploads, reports, h) =
      (uploads, reports, branch result.changed (write_doc r result _) (ended true) h tt)
  advance-Keeps a w (write_doc r result c) gives (uploads, reports, h) =
      elim (Bool-cases a.accepted) [
        | inr f ↦ rw f (uploads, reports, tt)
        | inl t ↦ rw t (
          ((result, h, refl), uploads),
          reports,
          branch a.reply (notify_change result.signals c) _ (λ e. (result, h, refl)) tt,
        )
      ]
  advance-Keeps a w (notify_change signals c) gives (uploads, reports, h) =
      elim (Bool-cases a.accepted) [
        | inr f ↦ rw f (uploads, reports, tt)
        | inl t ↦ rw t (uploads, (h, reports), branch a.reply (ended true) _ (λ e. tt) tt)
      ]
  advance-Keeps a w (describe_failure s) gives (uploads, reports, h) = (uploads, reports, tt)
  advance-Keeps a w (notify_failure m) gives (uploads, reports, h) = elim (Bool-cases a.accepted) [
    | inr f ↦ rw f (uploads, reports, tt)
    | inl t ↦ rw t (uploads, (tt, reports), branch a.reply fail _ (λ e. tt) tt)
  ]
  advance-Keeps a w fail gives (uploads, reports, h) = (uploads, reports, tt)
  advance-Keeps a w (ended s) gives (uploads, reports, h) = (uploads, reports, tt)

  -- Let the outside give only changes with a property, and let a run have uploaded and reported only
  -- such changes, and stand at a node with such a one. Then it ends within the nodes that are left to
  -- it, and has still uploaded and reported only profiles and counts of such changes.
  pub run_uploads :
      (answers : List Answers) (w : Effects) (n : Node)
      → All Gives answers
      → All IsUpload w.uploaded
      → All IsReport w.notes
      → NodeInv n
      → nodes_left n ≤ length answers
      → let end = run answers w n in
        ((success : Bool) × (end.1 ≡ ended success))
        × All IsUpload end.0.uploaded
        × All IsReport end.0.notes
  unfolding run
  run_uploads [] w n gives uploads reports h enough =
      (ended_of_none_left n enough, uploads, reports)
  run_uploads (a ∷ answers) w n (g, gives) uploads reports h enough =
      let lower = step_lowers a w n in
      let (uploads', reports', h') = advance-Keeps a w n g (uploads, reports, h) in
      let (w', n') = advance a w n in
      run_uploads answers w' n' gives uploads' reports' h' (omega arith)
