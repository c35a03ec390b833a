-- ===== src/Tests/SwarmTests.antt =====
-- A board with one plan, and a sprint at its gate.
use syntropy.Prelude.{
  ◌≡◌, ◌⊎◌, refl, true, none, some, [], ◌∷◌, ◌++◌, Text, lit, text_eq, lookup, insert, ok, err,
  if◌then◌else◌,
}
use syntropy.Prelude.{starts_with, last?}
use syntropy.Security.Ledger.Database.{pos}
use syntropy.Swarm.Blackboard.{
  Artifact, BlackboardStore, access_denied, history_of, may_write, next_version, new_artifact,
  publish, get_latest,
}
use syntropy.Swarm.Blackboard.Versions.{CountsFrom, publish_ok}
use syntropy.Swarm.Workflow.{
  implementation, phase_gate_awaiting_approval, completed, SprintWorkflow, new_workflow,
  approve_phase_gate, complete_implementation, finish_review,
}
use syntropy.Swarm.Workflow.Gate.{approves, completes, finishes, after, after-implementation}
use syntropy.Tests.Samples.{toy_crypto}

program : Unit {0}
unfolding text_eq lookup insert starts_with history_of next_version new_artifact publish get_latest
    CountsFrom new_workflow approve_phase_gate complete_implementation finish_review after
program = tt

abbrev plan_uri : Text
plan_uri = lit "blackboard://plan.md"

abbrev plan : Artifact
plan = record {
  uri = plan_uri;
  author_agent = lit "a";
  version = 1;
  content = lit "x";
  sha256 = toy_crypto.hex_encode (toy_crypto.sha256 (lit "x"));
  created_at_unix_ms = pos 5;
}

abbrev board : BlackboardStore
board = (plan_uri, plan ∷ []) ∷ []

publishes : publish toy_crypto plan_uri (lit "a") (lit "x") (pos 5) [] ≡ (ok plan, board)
unfolding program
publishes = refl

refuses_stranger :
    (publish toy_crypto plan_uri (lit "b") (lit "y") (pos 6) board).0
    ≡ err (access_denied (lit "b") plan_uri (lit "a"))
unfolding program
refuses_stranger = refl

publish_ok_example :
    (starts_with (lit "blackboard://") plan_uri ≡ true)
    × ((last? (history_of plan_uri []) ≡ none)
        ⊎ ((latest : Artifact) × (last? (history_of plan_uri []) ≡ some latest)
            × (may_write (lit "a") latest ≡ true)))
    × (get_latest plan_uri (publish toy_crypto plan_uri (lit "a") (lit "x") (pos 5) []).1 ≡ ok plan)
    × ((k : Text)
        → history_of k (publish toy_crypto plan_uri (lit "a") (lit "x") (pos 5) []).1
          ≡ (if text_eq plan_uri k then history_of plan_uri [] ++ plan ∷ [] else history_of k []))
publish_ok_example =
    publish_ok toy_crypto plan_uri (lit "a") (lit "x") (pos 5) [] plan (unfold program in refl)

empty-CountsFrom : (k : Text) → CountsFrom 1 (history_of k [])
unfolding program
empty-CountsFrom k = tt

abbrev waiting : SprintWorkflow
waiting = record {
  sprint_id = lit "s";
  objective = lit "o";
  phase = phase_gate_awaiting_approval;
  approval_token = some (lit "t");
  rejection_feedback = none;
  blackboard = [];
}

after-implementation_example :
    (phase_gate_awaiting_approval ≡ implementation)
    ⊎ ((token : Text) × (approves (lit "t") ≡ approves token)
        × (phase_gate_awaiting_approval ≡ phase_gate_awaiting_approval)
        × (some (lit "t") ≡ some token))
after-implementation_example =
    after-implementation toy_crypto (approves (lit "t")) waiting (unfold program in refl)

-- A new sprint is completed by two calls, and no gate was approved.
gate_skipped :
    (after toy_crypto
      (finishes (pos 2) (lit "r") true)
      (after toy_crypto (completes (pos 1) (lit "b")) (new_workflow (lit "s") (lit "o") []))).phase
    ≡ completed
unfolding program
gate_skipped = refl
