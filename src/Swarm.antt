-- ===== src/Swarm.antt =====
-- services/swarm-orchestrator: the board of deliverables, the phases of a sprint, the turns of the model.
pub mod Blackboard
pub mod Blueprint
pub mod Workflow
pub mod Gemini
pub mod Turn
