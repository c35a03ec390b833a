-- ===== src/Swarm/Blueprint.antt =====
-- blueprint.rs: the personas of the standard federation.
use syntropy.Prelude.{List, [], ◌∷◌, Text, lit}

pub data AgentTier : Type 0 where
  tier1_planner tier2_architect tier3_implementer tier4_reviewer : AgentTier

pub record PersonaBlueprint : Type 0 where
  pub id : Text
  pub name : Text
  pub tier : AgentTier
  pub system_directive : Text
  pub input_deliverables : List Text
  pub output_deliverables : List Text

abbrev pub standard_federation : List PersonaBlueprint
standard_federation =
    record {
      id = lit "planner-lead";
      name = lit "Sprint Executive Planner";
      tier = tier1_planner;
      system_directive =
          lit
            "Analyze user objective, break into atomic work packages, identify risks, and publish blackboard://plan.md";
      input_deliverables = [];
      output_deliverables = lit "blackboard://plan.md" ∷ [];
    }
    ∷ record {
      id = lit "architect-lead";
      name = lit "Systems Architect";
      tier = tier2_architect;
      system_directive =
          lit
            "Read blackboard://plan.md, formulate precise file diffs and command specifications, and publish blackboard://spec.json";
      input_deliverables = lit "blackboard://plan.md" ∷ [];
      output_deliverables = lit "blackboard://spec.json" ∷ [];
    }
    ∷ record {
      id = lit "code-implementer";
      name = lit "Code Implementer";
      tier = tier3_implementer;
      system_directive =
          lit
            "Read blackboard://spec.json, apply atomic file patches, and run builds inside an isolated agent worktree";
      input_deliverables = lit "blackboard://spec.json" ∷ [];
      output_deliverables = lit "blackboard://build_result.json" ∷ [];
    }
    ∷ record {
      id = lit "qa-reviewer";
      name = lit "Quality Assurance Reviewer";
      tier = tier4_reviewer;
      system_directive =
          lit
            "Execute test suites via PTY terminal screen, verify linter clean status, and publish blackboard://qa_report.md";
      input_deliverables = lit "blackboard://build_result.json" ∷ [];
      output_deliverables = lit "blackboard://qa_report.md" ∷ [];
    }
    ∷ []
