-- ===== src/Ingest/Workflow/System.antt =====
-- Any number of runs of the workflow of n8n/scripts/build-workflow.js at a time, as moves of a system,
-- against the writers of Ingest.
use agregado.Base.{ℕ, ◌≤◌, ◌≡◌, Bool, List, [], ◌∷◌, ◌++◌, Option, All, All-append, All-split}
use agregado.Text.{Str}
use agregado.Platform.Crypto.{CaseMap, KeyedHash, NodeText}
use agregado.BasicAuth.{Digest}
use agregado.Worker.Effects.{World}
use agregado.Worker.Store.{Engine, SourceRow}
use agregado.Ingest
use agregado.Ingest.{Step, Reach}
use agregado.Ingest.Entry.{Content}
use agregado.Ingest.Identity.{Hmac}
use agregado.Ingest.Resolves.{IsSound, Reach-IsSound}
use agregado.Ingest.Svix.{Delivery}
use agregado.Ingest.Workflow.{Bridge, Settings, Answers, Node, verify, advance}
use agregado.Ingest.Workflow.Invariant.{Derives, NodeInv, Reach-NodeInv}
use agregado.Ingest.Workflow.Writes.{advance-Advances}

pub record System : Type 0 where
  pub bridge : Bridge
  pub runs : List Node

abbrev pub with_world : System → World → System
with_world s v = record s { bridge = record s.bridge { world = v } }

module _ (case_map : CaseMap) (hash : KeyedHash) (node_text : NodeText) (digest : Digest)
    (hmac : Hmac) (content : Content) (engine : Engine) (payload_of : Str → Option Str)
    (settings : Settings) where
  abbrev pub moved : Answers → Bridge → Node → Bridge × Node
  moved = advance case_map hash node_text digest hmac content engine payload_of settings

  -- A delivery arrives, a run does its next node, a source is registered, or time passes and a
  -- service goes down or comes back.
  pub data Moves : System → System → Type 0 where
    receive : (s : System) (d : Delivery) → Moves s (record s { runs = verify d ∷ s.runs })
    act :
        (s : System) (a : Answers) (before after : List Node) (n : Node)
        → s.runs ≡ before ++ n ∷ after
        → Moves s (record {
          bridge = (moved a s.bridge n).0;
          runs = before ++ (moved a s.bridge n).1 ∷ after;
        })
    register :
        (s : System) (sources : List SourceRow)
        → Moves s (with_world s (record s.bridge.world { sources = sources }))
    pass :
        (s : System) (now_ms : ℕ) (d1_up r2_up : Bool)
        → s.bridge.world.now_ms ≤ now_ms
        → Moves s
            (with_world s (record s.bridge.world { now_ms = now_ms; d1_up = d1_up; r2_up = r2_up }))

  pub data Reaches (s : System) : System → Type 0 where
    here : Reaches s s
    next : {t u : System} → Reaches s t → Moves t u → Reaches s u

  module _ (uuid_of : Str → Str) where
    -- The stores are sound, and every run has what it relies on.
    abbrev pub SystemInv : System → Type 0
    SystemInv s =
        IsSound uuid_of s.bridge.world × All (NodeInv hmac settings uuid_of s.bridge.world) s.runs

    All-NodeInv :
        (v u : World) (runs : List Node)
        → IsSound uuid_of v
        → Reach uuid_of v u
        → All (NodeInv hmac settings uuid_of v) runs
        → All (NodeInv hmac settings uuid_of u) runs
    All-NodeInv v u [] sound r h = tt
    All-NodeInv v u (n ∷ runs) sound r (hn, h) =
        (Reach-NodeInv hmac settings uuid_of v u n sound r hn, All-NodeInv v u runs sound r h)

    Moves-Reach :
        {s t : System}
        → Derives hmac settings uuid_of
        → SystemInv s
        → Moves s t
        → Reach uuid_of s.bridge.world t.bridge.world × SystemInv t
    Moves-Reach derives (sound, h) (receive s d) = (Ingest.here, (sound, (tt, h)))
    Moves-Reach derives (sound, h) (act s a before after n e) =
        let v = s.bridge.world in
        let (first, rest) =
          All-split (NodeInv hmac settings uuid_of v) before (n ∷ after) (rw e at h) in
        let (r, mine) =
          advance-Advances case_map hash node_text digest hmac content engine payload_of settings
            uuid_of a s.bridge n derives rest.0 in
        (
          r,
          (
            Reach-IsSound uuid_of sound r,
            All-append (NodeInv hmac settings uuid_of (moved a s.bridge n).0.world) before _
                (All-NodeInv v _ before sound r first) (mine, All-NodeInv v _ after sound r rest.1),
          ),
        )
    Moves-Reach derives (sound, h) (register s sources) =
        let r = Ingest.next Ingest.here (Step.register s.bridge.world sources) in
        (r, (Reach-IsSound uuid_of sound r, All-NodeInv s.bridge.world _ s.runs sound r h))
    Moves-Reach derives (sound, h) (pass s now_ms d1_up r2_up later) =
        let r = Ingest.next Ingest.here (Step.pass s.bridge.world now_ms d1_up r2_up later) in
        (r, (Reach-IsSound uuid_of sound r, All-NodeInv s.bridge.world _ s.runs sound r h))

    Reach-trans : {u v w : World} → Reach uuid_of u v → Reach uuid_of v w → Reach uuid_of u w
    Reach-trans r Ingest.here = r
    Reach-trans r (Ingest.next q step) = Ingest.next (Reach-trans r q) step

    pub Reaches-Reach :
        {s t : System}
        → Derives hmac settings uuid_of
        → SystemInv s
        → Reaches s t
        → Reach uuid_of s.bridge.world t.bridge.world × SystemInv t
    Reaches-Reach derives h here = (Ingest.here, h)
    Reaches-Reach derives h (next m last) =
        let (r, h') = Reaches-Reach derives h m in
        let (q, h'') = Moves-Reach derives h' last in (Reach-trans r q, h'')
