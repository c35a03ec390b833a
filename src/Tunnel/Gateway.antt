-- ===== src/Tunnel/Gateway.antt =====
-- gateway/src/service.rs: `open_tunnel`. The task of each tunnel takes one frame at a time, and the
-- tasks of all tunnels share the registry.
pub mod Registered
use syntropy.Prelude.{
  Option-cases, ◌^◌, ℕ, zero, suc, ◌≡◌, ◌≢◌, ◌↔◌, ◌⊎◌, inl, inr, ◌≤◌, ◌<◌, ◌+◌, ◌-◌, ◌*◌, ◌%◌, ◌/◌,
  min, max, refl, sym, ap, ◌∙◌, Bool, true, false, not, ◌&&◌, ◌||◌, Option, none, some, List, [],
  ◌∷◌, ◌++◌, map, Text, lit, text_eq, text_eq_iff, text_eq_refl, Dict, lookup, insert, remove,
  Result, ok, err, ◌>>=◌, ◌>>◌, guard, with_ok, Result-cases, Bool-cases, ok-injective,
  if◌then◌else◌, length, take, drop, get_elem?, ltb, leb, ◌==◌, ==_iff, lookup-insert,
  lookup-remove, lookup-insert_self, dict_laws, arith, append-nil, append_assoc, length-append,
  text_lines, join, List-cases, if_both, drop-append, take-append,
}
use syntropy.Tunnel.Frames.{
  Heartbeat, UserPrompt, ServerPayload, heartbeat, error_frame, TunnelServerFrame, ClientPayload,
  client_heartbeat, user_prompt, other_client_payload, TunnelClientFrame,
}
use syntropy.Tunnel.Sessions.{Sessions, Channels, send_on, register, unregister}

-- The tunnels that are open, each with its `current_agent_id`, what was sent and forwarded, and
-- the turns that run.
pub record Gateway : Type 0 where
  pub sessions : Sessions
  pub tunnels : ℕ → Option (Option Text)
  pub channels : Channels
  pub forwards : Bool
  pub forwarded : List TunnelClientFrame
  pub has_engine : Bool
  pub turns : List (ℕ × UserPrompt × Text)

-- A new id of a frame, and the times that are read.
pub record Stamp : Type 0 where
  pub uuid : Text
  pub now : ℕ
  pub later : ℕ

abbrev pub put : ℕ → Option (Option Text) → (ℕ → Option (Option Text)) → ℕ → Option (Option Text)
put t v tunnels u = if u == t then v else tunnels u

-- The agent of a tunnel becomes known, and its session is registered.
unfoldable pub claim : ℕ → Text → ℕ → Gateway → Gateway
unfolding register
claim t agent_id now g = record g {
  tunnels = put t (some (some agent_id)) g.tunnels;
  sessions = register agent_id t now g.sessions;
}

-- A tunnel opens, with the `x-agent-id` of its metadata if there is one.
unfoldable pub open_tunnel : ℕ → Option Text → ℕ → Gateway → Gateway
unfolding claim
open_tunnel t metadata_agent_id now g = elim metadata_agent_id [
  | none ↦ record g { tunnels = put t (some none) g.tunnels }
  | some agent_id ↦ claim t agent_id now g
]

-- The first frame with an agent id names the tunnel's agent.
unfoldable pub learn_agent : ℕ → Option Text → Text → ℕ → Gateway → Gateway
unfolding claim text_eq
learn_agent t current agent_id now g = elim current [
  | some a ↦ g
  | none ↦ if not (text_eq agent_id []) then claim t agent_id now g else g
]

abbrev pub ack_of : Stamp → Heartbeat → Text → TunnelServerFrame
ack_of s hb agent_id = record {
  frame_id = s.uuid;
  timestamp_unix_ms = s.now;
  payload = some (
      heartbeat (record {
        sequence = hb.sequence;
        timestamp_unix_ms = s.later;
        agent_id = agent_id;
        is_ack = true;
      }));
}

abbrev pub sent_on : ℕ → TunnelServerFrame → Gateway → Gateway
sent_on t frame g = record g { channels = (send_on t frame g.channels).1 }

-- The answer to a heartbeat that is not an answer itself.
unfoldable pub answer_heartbeat : ℕ → Stamp → TunnelClientFrame → Gateway → Gateway
unfolding send_on
answer_heartbeat t s frame g = elim frame.payload [
  | none ↦ g
  | some p ↦ elim p [
    | client_heartbeat hb ↦ if hb.is_ack then g else sent_on t (ack_of s hb frame.agent_id) g
    | user_prompt u ↦ g
    | other_client_payload b ↦ g
  ]
]

unfoldable pub forward : TunnelClientFrame → Gateway → Gateway
forward frame g = if g.forwards then record g { forwarded = g.forwarded ++ frame ∷ [] } else g

-- A prompt starts a turn of the engine, if there is one.
unfoldable pub start_turn : ℕ → TunnelClientFrame → Gateway → Gateway
start_turn t frame g = elim frame.payload [
  | none ↦ g
  | some p ↦ elim p [
    | client_heartbeat hb ↦ g
    | user_prompt u ↦
        if g.has_engine then record g { turns = g.turns ++ (t, u, frame.agent_id) ∷ [] } else g
    | other_client_payload b ↦ g
  ]
]

-- The body of the loop, on a tunnel that is open.
unfoldable pub on_frame : ℕ → Stamp → TunnelClientFrame → Gateway → Gateway
unfolding learn_agent answer_heartbeat forward start_turn
on_frame t s frame g = elim (g.tunnels t) [
  | none ↦ g
  | some current ↦
      start_turn t frame
        (forward frame (answer_heartbeat t s frame (learn_agent t current frame.agent_id s.now g)))
]

-- The stream has ended.
unfoldable pub end_tunnel : ℕ → Gateway → Gateway
unfolding unregister
end_tunnel t g = elim (g.tunnels t) [
  | none ↦ g
  | some current ↦ elim current [
    | none ↦ record g { tunnels = put t none g.tunnels }
    | some agent_id ↦ record g {
      tunnels = put t none g.tunnels;
      sessions = unregister agent_id g.sessions;
    }
  ]
]

abbrev pub error_of : Stamp → Text → TunnelServerFrame
error_of s e = record {
  frame_id = s.uuid;
  timestamp_unix_ms = s.now;
  payload = some (error_frame (lit "Cloud Turn Error: " ++ e));
}

unfoldable pub send_all : ℕ → List TunnelServerFrame → Gateway → Gateway
unfolding send_on
send_all t [] g = g
send_all t (frame ∷ frames) g = send_all t frames (sent_on t frame g)

-- A turn ends: its frames go to the tunnel of its prompt, or one frame with the error.
unfoldable pub end_turn : ℕ → Stamp → Result Text (List TunnelServerFrame) → Gateway → Gateway
unfolding send_all send_on
end_turn t s (ok frames) g = send_all t frames g
end_turn t s (err e) g = sent_on t (error_of s e) g

-- What happens at the gateway, in the order of its locks.
pub data GatewayEvent : Type 0 where
  opens : ℕ → Option Text → ℕ → GatewayEvent
  receives : ℕ → Stamp → TunnelClientFrame → GatewayEvent
  ends : ℕ → GatewayEvent
  turn_ends : ℕ → Stamp → Result Text (List TunnelServerFrame) → GatewayEvent

-- The number of a tunnel that opens is new.
unfoldable pub gateway_step : GatewayEvent → Gateway → Gateway
unfolding open_tunnel on_frame end_tunnel end_turn
gateway_step (opens t agent now) g = elim (g.tunnels t) [
  | none ↦ open_tunnel t agent now g
  | some c ↦ g
]
gateway_step (receives t s frame) g = on_frame t s frame g
gateway_step (ends t) g = end_tunnel t g
gateway_step (turn_ends t s r) g = end_turn t s r g

unfoldable pub gateway_run : List GatewayEvent → Gateway → Gateway
unfolding gateway_step
gateway_run [] g = g
gateway_run (e ∷ es) g = gateway_run es (gateway_step e g)

abbrev pub new_gateway : Bool → Bool → Gateway
new_gateway forwards has_engine = record {
  sessions = [];
  tunnels = λ t. none;
  channels = record { closed = λ t. false; sent = [] };
  forwards = forwards;
  forwarded = [];
  has_engine = has_engine;
  turns = [];
}
