-- ===== src/Swarm/Workflow/Gate.antt =====
-- workflow.rs: the gate before the implementation.
use syntropy.Prelude.{
  ◌≢◌, sym, ◌∙◌, ap, inl, inr, arith, Bool-cases, text_eq_iff, none, some, if◌then◌else◌, Option,
  Bool, true, Text, ◌≡◌, ◌⊎◌, refl, lit, Result, ok, err,
}
use syntropy.Security.Crypto.{Crypto}
use syntropy.Security.Ledger.Database.{I64}
use syntropy.Swarm.Blackboard.{BlackboardError, Artifact, BlackboardStore, publish}
use syntropy.Swarm.Workflow.{
  phase_gate_awaiting_approval, implementation, review, completed, failed, SprintWorkflow,
  start_planning, is_expected, approve_phase_gate, reject_and_backtrack, after_publish, submit_plan,
  complete_implementation, finish_review,
}

-- The calls on a sprint.
pub data Command : Type 0 where
  starts : Command
  submits : I64 → Text → Text → Command
  approves rejects : Text → Command
  completes : I64 → Text → Command
  finishes : I64 → Text → Bool → Command

after_publish-phase :
    (s changed : SprintWorkflow) (r : Result BlackboardError Artifact × BlackboardStore)
    → ((after_publish s r changed).1.phase ≡ s.phase)
      ⊎ ((after_publish s r changed).1.phase ≡ changed.phase)
after_publish-phase s changed (err e, board) = inl refl
after_publish-phase s changed (ok a, board) = inr refl

approve_from :
    (token : Text) (s : SprintWorkflow)
    → (approve_phase_gate token s).1.phase ≡ implementation
    → (s.phase ≡ implementation) ⊎ (s.phase ≡ phase_gate_awaiting_approval)
unfolding approve_phase_gate
approve_from token s h = ground arith

expected_token : (o : Option Text) (token : Text) → is_expected o token ≡ true → o ≡ some token
expected_token none token h = absurd (ground arith)
expected_token (some e) token h = ap some ((text_eq_iff e token).0 h)

not_implementation : (success : Bool) → (if success then completed else failed) ≢ implementation
not_implementation success h = ground arith

module _ (c : Crypto) where
  unfoldable pub after : Command → SprintWorkflow → SprintWorkflow
  unfolding start_planning submit_plan approve_phase_gate reject_and_backtrack
      complete_implementation finish_review
  after starts s = (start_planning s).1
  after (submits now uuid plan) s = (submit_plan c now uuid plan s).1
  after (approves token) s = (approve_phase_gate token s).1
  after (rejects feedback) s = (reject_and_backtrack feedback s).1
  after (completes now build_result) s = (complete_implementation c now build_result s).1
  after (finishes now report success) s = (finish_review c now report success s).1

  -- A sprint comes into its implementation only from the gate, by an approval with the token that
  -- the last plan was given.
  pub after-implementation :
      (command : Command) (s : SprintWorkflow)
      → (after command s).phase ≡ implementation
      → (s.phase ≡ implementation)
        ⊎ ((token : Text) × (command ≡ approves token)
            × (s.phase ≡ phase_gate_awaiting_approval)
            × (s.approval_token ≡ some token))
  unfolding after
  after-implementation starts s h = ground arith
  after-implementation (submits now uuid plan) s h =
      let changed : SprintWorkflow = record s {
        phase = phase_gate_awaiting_approval;
        approval_token = some uuid;
      } in
      elim (after_publish-phase s changed
        (publish c (lit "blackboard://plan.md") (lit "planner-lead") plan now s.blackboard)) [
          | inl kept ↦ inl (sym kept ∙ h)
          | inr moved ↦ absurd (ground (arith, moved, h))
        ]
  after-implementation (approves token) s h =
      elim (Bool-cases (is_expected s.approval_token token)) [
        | inr f ↦ inl (ground arith)
        | inl t ↦
            let e = expected_token s.approval_token token t in
            elim (approve_from token s h) [ inl a ↦ inl a | inr w ↦ inr (token, refl, w, e) ]
      ]
  after-implementation (rejects feedback) s h = absurd (ground arith)
  after-implementation (completes now build_result) s h =
      let changed : SprintWorkflow = record s { phase = review } in
      elim (after_publish-phase s changed (
        publish c (lit "blackboard://build_result.json") (lit "code-implementer") build_result now
          s.blackboard)) [
            | inl kept ↦ inl (sym kept ∙ h)
            | inr moved ↦ absurd (ground (arith, moved, h))
          ]
  after-implementation (finishes now report success) s h =
      let changed : SprintWorkflow = record s { phase = if success then completed else failed } in
      elim (after_publish-phase s changed
        (publish c (lit "blackboard://qa_report.md") (lit "qa-reviewer") report now s.blackboard)) [
          | inl kept ↦ inl (sym kept ∙ h)
          | inr moved ↦ absurd (not_implementation success (sym moved ∙ h))
        ]
