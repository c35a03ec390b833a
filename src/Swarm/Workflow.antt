-- ===== src/Swarm/Workflow.antt =====
-- workflow.rs: `SprintWorkflow`, the phases of a sprint.
pub mod Gate
use syntropy.Prelude.{
  Option-cases, ◌^◌, ℕ, zero, suc, ◌≡◌, ◌≢◌, ◌↔◌, ◌⊎◌, inl, inr, ◌≤◌, ◌<◌, ◌+◌, ◌-◌, ◌*◌, ◌%◌, ◌/◌,
  min, max, refl, sym, ap, ◌∙◌, Bool, true, false, not, ◌&&◌, ◌||◌, Option, none, some, List, [],
  ◌∷◌, ◌++◌, map, Text, lit, text_eq, text_eq_iff, text_eq_refl, Dict, lookup, insert, remove,
  Result, ok, err, ◌>>=◌, ◌>>◌, guard, with_ok, Result-cases, Bool-cases, ok-injective,
  if◌then◌else◌, length, take, drop, get_elem?, ltb, leb, ◌==◌, ==_iff, lookup-insert,
  lookup-remove, lookup-insert_self, dict_laws, arith,
}
use syntropy.Security.Crypto.{Crypto}
use syntropy.Security.Ledger.Database.{I64}
use syntropy.Swarm.Blackboard.{BlackboardError, BlackboardStore, Artifact, publish}

pub data SprintPhase : Type 0 where
  initialization planning phase_gate_awaiting_approval implementation review completed failed :
      SprintPhase

pub data WorkflowError : Type 0 where
  blackboard_error : BlackboardError → WorkflowError
  invalid_transition : SprintPhase → SprintPhase → WorkflowError
  phase_gate_blocked : Text → WorkflowError

-- The state and the board that it shares.
pub record SprintWorkflow : Type 0 where
  pub sprint_id : Text
  pub objective : Text
  pub phase : SprintPhase
  pub approval_token : Option Text
  pub rejection_feedback : Option Text
  pub blackboard : BlackboardStore

unfoldable pub new_workflow : Text → Text → BlackboardStore → SprintWorkflow
new_workflow sprint_id objective blackboard = record {
  sprint_id = sprint_id;
  objective = objective;
  phase = initialization;
  approval_token = none;
  rejection_feedback = none;
  blackboard = blackboard;
}

abbrev pub Outcome : Type 0
Outcome = Result WorkflowError (Unit {0}) × SprintWorkflow

unfoldable pub start_planning : SprintWorkflow → Outcome
start_planning s = elim s.phase [
  | initialization ↦ (ok tt, record s { phase = planning })
  | _ ↦ (err (invalid_transition s.phase planning), s)
]

abbrev pub wrong_token : WorkflowError
wrong_token = phase_gate_blocked (lit "Invalid approval token")

-- `if let Some(ref expected) = st.approval_token { if expected == token { .. } }`
abbrev pub is_expected : Option Text → Text → Bool
is_expected none token = false
is_expected (some expected) token = text_eq expected token

unfoldable pub approve_phase_gate : Text → SprintWorkflow → Outcome
approve_phase_gate token s = elim s.phase [
  | phase_gate_awaiting_approval ↦
      if is_expected s.approval_token token
      then (ok tt, record s { phase = implementation; approval_token = none })
      else (err wrong_token, s)
  | _ ↦ (err (invalid_transition s.phase implementation), s)
]

unfoldable pub reject_and_backtrack : Text → SprintWorkflow → Outcome
reject_and_backtrack feedback s = (
  ok tt,
  record s { rejection_feedback = some feedback; phase = planning; approval_token = none },
)

-- After a `publish(..).await?`: the change of the state, or the error.
abbrev pub after_publish :
    SprintWorkflow → Result BlackboardError Artifact × BlackboardStore → SprintWorkflow → Outcome
after_publish s (err e, board) changed = (err (blackboard_error e), record s { blackboard = board })
after_publish s (ok a, board) changed = (ok tt, record changed { blackboard = board })

module _ (c : Crypto) where
  unfoldable pub submit_plan : I64 → Text → Text → SprintWorkflow → Outcome
  unfolding publish
  submit_plan now uuid plan_content s =
      after_publish s
        (publish c (lit "blackboard://plan.md") (lit "planner-lead") plan_content now s.blackboard)
        (record s { phase = phase_gate_awaiting_approval; approval_token = some uuid })

  unfoldable pub complete_implementation : I64 → Text → SprintWorkflow → Outcome
  unfolding publish
  complete_implementation now build_result s =
      after_publish s
        (publish c (lit "blackboard://build_result.json") (lit "code-implementer") build_result now
          s.blackboard)
        (record s { phase = review })

  unfoldable pub finish_review : I64 → Text → Bool → SprintWorkflow → Outcome
  unfolding publish
  finish_review now qa_report success s =
      after_publish s
        (publish c (lit "blackboard://qa_report.md") (lit "qa-reviewer") qa_report now s.blackboard)
        (record s { phase = if success then completed else failed })
