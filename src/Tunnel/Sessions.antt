-- ===== src/Tunnel/Sessions.antt =====
-- gateway/src/session.rs: the registry of the agents' sessions. A sender is the number of its
-- tunnel, and the channels are the log of what was sent on each.
use syntropy.Prelude.{
  ℕ, Bool, none, some, List, [], ◌∷◌, ◌++◌, Text, lit, Dict, lookup, insert, remove, Result, ok,
  err, if◌then◌else◌,
}
use syntropy.Tunnel.Frames.{TunnelServerFrame}

pub record AgentSession : Type 0 where
  pub agent_id : Text
  pub connected_at_unix_ms : ℕ

abbrev pub Sessions : Type 0
Sessions = Dict (AgentSession × ℕ)

-- The receivers that are dropped refuse; a channel that is full makes the sender wait.
pub record Channels : Type 0 where
  pub closed : ℕ → Bool
  pub sent : List (ℕ × TunnelServerFrame)

unfoldable pub send_on : ℕ → TunnelServerFrame → Channels → Result Text (Unit {0}) × Channels
send_on t frame c =
    if c.closed t
    then (err (lit "channel closed"), c)
    else (ok tt, record c { sent = c.sent ++ (t, frame) ∷ [] })

unfoldable pub register : Text → ℕ → ℕ → Sessions → Sessions
unfolding insert
register agent_id t now sessions =
    insert agent_id (record { agent_id = agent_id; connected_at_unix_ms = now }, t) sessions

unfoldable pub unregister : Text → Sessions → Sessions
unfolding remove
unregister agent_id sessions = remove agent_id sessions

unfoldable pub send_to_agent :
    Text → TunnelServerFrame → Sessions → Channels → Result Text (Unit {0}) × Channels
unfolding lookup send_on
send_to_agent agent_id frame sessions c = elim (lookup agent_id sessions) [
  | none ↦ (err (lit "Agent session not found for id: " ++ agent_id), c)
  | some s ↦
      let (r, c') = send_on s.1 frame c in
      elim r [
        | ok u ↦ (ok tt, c')
        | err e ↦ (err (lit "Failed to send frame to agent " ++ (agent_id ++ (lit ": " ++ e))), c')
      ]
]

-- A session that cannot be reached is passed over.
unfoldable pub broadcast : TunnelServerFrame → Sessions → Channels → Channels
unfolding send_on
broadcast frame [] c = c
broadcast frame ((agent_id, s) ∷ sessions) c = broadcast frame sessions (send_on s.1 frame c).1

abbrev pub active_agents : Sessions → List AgentSession
active_agents [] = []
active_agents ((agent_id, s) ∷ sessions) = s.0 ∷ active_agents sessions
