-- ===== src/Tunnel/Gateway/Registered.antt =====
-- gateway/src/service.rs: which tunnels the registry names.
use syntropy.Prelude.{
  Option-cases, ℕ, ◌≡◌, ◌≢◌, inl, inr, sym, ap, ◌∙◌, Bool, not, Option, none, some, List, [], ◌∷◌,
  ◌++◌, Text, text_eq, text_eq_iff, text_eq_refl, lookup, ok, err, Bool-cases, ==_iff,
  lookup-insert, lookup-remove, arith, if_both,
}
use syntropy.Tunnel.Frames.{
  client_heartbeat, user_prompt, other_client_payload, Heartbeat, UserPrompt, ClientPayload,
  TunnelClientFrame, TunnelServerFrame,
}
use syntropy.Tunnel.Sessions.{
  Channels, send_to_agent, send_on, Sessions, AgentSession, register, unregister,
}
use syntropy.Tunnel.Gateway.{
  opens, receives, ends, turn_ends, gateway_run, new_gateway, learn_agent, sent_on, UserPrompt,
  Heartbeat, Stamp, TunnelClientFrame, TunnelServerFrame, end_turn, ClientPayload, open_tunnel,
  answer_heartbeat, forward, start_turn, on_frame, send_all, gateway_step, GatewayEvent, Gateway,
  put, claim, end_tunnel,
}

-- The registry names only tunnels that are open, each under the agent that the tunnel is of.
abbrev pub IsLive : Sessions → (ℕ → Option (Option Text)) → Type 0
IsLive sessions tunnels =
    (agent_id : Text) (s : AgentSession × ℕ)
    → lookup agent_id sessions ≡ some s
    → tunnels s.1 ≡ some (some agent_id)

put_self :
    (t u : ℕ) (v : Option (Option Text)) (f : ℕ → Option (Option Text)) → u ≡ t → put t v f u ≡ v
put_self t u v f e = ground (arith, e)

put_other :
    (t u : ℕ) (v : Option (Option Text)) (f : ℕ → Option (Option Text)) → u ≢ t → put t v f u ≡ f u
put_other t u v f n = ground (arith, ==_iff u t)

-- A tunnel without an agent registers one.
claim-IsLive :
    (t : ℕ) (agent_id : Text) (now : ℕ) (g : Gateway)
    → ((a : Text) → g.tunnels t ≢ some (some a))
    → IsLive g.sessions g.tunnels
    → IsLive (claim t agent_id now g).sessions (claim t agent_id now g).tunnels
unfolding claim register
claim-IsLive t agent_id now g fresh live a s h =
    let session : AgentSession × ℕ =
      (record { agent_id = agent_id; connected_at_unix_ms = now }, t) in
    let known = lookup-insert agent_id a session g.sessions in
    elim (Bool-cases (text_eq agent_id a)) [
      | inl e ↦
          let same : agent_id ≡ a = (text_eq_iff agent_id a).0 e in
          let it : s ≡ session = ground (arith, known, e) in
          put_self t s.1 (some (some agent_id)) g.tunnels (ap (λ x. x.1) it)
          ∙ ap (λ x. some (some x)) same
      | inr e ↦
          let before : lookup a g.sessions ≡ some s = ground (arith, known, e) in
          put_other t s.1 (some (some agent_id)) g.tunnels
            (λ at. fresh a (ap g.tunnels (sym at) ∙ live a s before))
          ∙ live a s before
    ]

-- A tunnel of an agent ends, and takes the agent's name with it.
drop-IsLive :
    (t : ℕ) (agent_id : Text) (g : Gateway)
    → g.tunnels t ≡ some (some agent_id)
    → IsLive g.sessions g.tunnels
    → IsLive (unregister agent_id g.sessions) (put t none g.tunnels)
unfolding unregister
drop-IsLive t agent_id g mine live a s h =
    let known = lookup-remove agent_id a g.sessions in
    elim (Bool-cases (text_eq agent_id a)) [
      | inl e ↦ absurd (ground (arith, known, e))
      | inr e ↦
          let before : lookup a g.sessions ≡ some s = ground (arith, known, e) in
          put_other t s.1 none g.tunnels (λ at.
            let both : some (some agent_id) ≡ some (some a) =
              sym mine ∙ ap g.tunnels (sym at) ∙ live a s before in
            absurd (ground (arith, both, e, text_eq_iff agent_id a)))
          ∙ live a s before
    ]

-- A tunnel without an agent ends.
quiet-IsLive :
    (t : ℕ) (v : Option (Option Text)) (g : Gateway)
    → ((a : Text) → g.tunnels t ≢ some (some a))
    → IsLive g.sessions g.tunnels
    → IsLive g.sessions (put t v g.tunnels)
quiet-IsLive t v g fresh live a s h =
    put_other t s.1 v g.tunnels (λ at. fresh a (ap g.tunnels (sym at) ∙ live a s h)) ∙ live a s h

abbrev pub IsSound : Gateway → Type 0
IsSound g = IsLive g.sessions g.tunnels

end_tunnel-IsSound : (t : ℕ) (g : Gateway) → IsSound g → IsSound (end_tunnel t g)
unfolding end_tunnel
end_tunnel-IsSound t g live = elim (Option-cases (g.tunnels t)) [
  | inl e ↦ rw (end_tunnel, e) live
  | inr (current, e) ↦ elim (Option-cases current) [
    | inl n ↦ rw (end_tunnel, e, n) (quiet-IsLive t none g (λ a h. ground (arith, e, n, h)) live)
    | inr (agent_id, m) ↦ rw (end_tunnel, e, m) (drop-IsLive t agent_id g (e ∙ ap some m) live)
  ]
]

-- What holds in each case of a frame's payload.
by_payload :
    {A : Type 0} (P : A → Type 0) (payload : Option ClientPayload) {a : A} {b : Heartbeat → A}
    {c : UserPrompt → A} {d : Text → A}
    → P a
    → ((hb : Heartbeat) → P (b hb))
    → ((u : UserPrompt) → P (c u))
    → ((x : Text) → P (d x))
    → P (elim payload [
      | none ↦ a
      | some p ↦ elim p [
        | client_heartbeat hb ↦ b hb
        | user_prompt u ↦ c u
        | other_client_payload x ↦ d x
      ]
    ])
by_payload P none pa pb pc pd = pa
by_payload P (some (client_heartbeat hb)) pa pb pc pd = pb hb
by_payload P (some (user_prompt u)) pa pb pc pd = pc u
by_payload P (some (other_client_payload x)) pa pb pc pd = pd x

learn_agent-IsSound :
    (t : ℕ) (current : Option Text) (agent_id : Text) (now : ℕ) (g : Gateway)
    → g.tunnels t ≡ some current
    → IsSound g
    → IsSound (learn_agent t current agent_id now g)
unfolding learn_agent
learn_agent-IsSound t (some a) agent_id now g e live = live
learn_agent-IsSound t none agent_id now g e live =
    if_both IsSound (not (text_eq agent_id []))
      (λ n. claim-IsLive t agent_id now g (λ a h. ground (arith, e, h)) live) (λ n. live)

open_tunnel-IsSound :
    (t : ℕ) (agent : Option Text) (now : ℕ) (g : Gateway)
    → g.tunnels t ≡ none
    → IsSound g
    → IsSound (open_tunnel t agent now g)
unfolding open_tunnel
open_tunnel-IsSound t none now g e live =
    quiet-IsLive t (some none) g (λ a h. ground (arith, e, h)) live
open_tunnel-IsSound t (some a) now g e live =
    claim-IsLive t a now g (λ b h. ground (arith, e, h)) live

answer_heartbeat-IsSound :
    (t : ℕ) (s : Stamp) (frame : TunnelClientFrame) (g : Gateway)
    → IsSound g
    → IsSound (answer_heartbeat t s frame g)
unfolding answer_heartbeat
answer_heartbeat-IsSound t s frame g live =
    by_payload IsSound frame.payload live (λ hb. if_both IsSound hb.is_ack (λ e. live) (λ e. live))
      (λ u. live) (λ x. live)

forward-IsSound : (frame : TunnelClientFrame) (g : Gateway) → IsSound g → IsSound (forward frame g)
unfolding forward
forward-IsSound frame g live = if_both IsSound g.forwards (λ e. live) (λ e. live)

start_turn-IsSound :
    (t : ℕ) (frame : TunnelClientFrame) (g : Gateway) → IsSound g → IsSound (start_turn t frame g)
unfolding start_turn
start_turn-IsSound t frame g live =
    by_payload IsSound frame.payload live (λ hb. live)
      (λ u. if_both IsSound g.has_engine (λ e. live) (λ e. live)) (λ x. live)

on_frame-IsSound :
    (t : ℕ) (s : Stamp) (frame : TunnelClientFrame) (g : Gateway)
    → IsSound g
    → IsSound (on_frame t s frame g)
unfolding on_frame
on_frame-IsSound t s frame g live = elim (Option-cases (g.tunnels t)) [
  | inl e ↦ rw (on_frame, e) live
  | inr (current, e) ↦
      rw (on_frame, e)
        (let learnt = learn_agent t current frame.agent_id s.now g in
          start_turn-IsSound t frame (forward frame (answer_heartbeat t s frame learnt)) (
            forward-IsSound frame (answer_heartbeat t s frame learnt) (
              answer_heartbeat-IsSound t s frame learnt
                (learn_agent-IsSound t current frame.agent_id s.now g e live))))
]

send_all-IsSound :
    (t : ℕ) (frames : List TunnelServerFrame) (g : Gateway)
    → IsSound g
    → IsSound (send_all t frames g)
unfolding send_all
send_all-IsSound t [] g live = live
send_all-IsSound t (frame ∷ frames) g live = send_all-IsSound t frames (sent_on t frame g) live

gateway_step-IsSound : (e : GatewayEvent) (g : Gateway) → IsSound g → IsSound (gateway_step e g)
unfolding gateway_step open_tunnel end_turn
gateway_step-IsSound (opens t agent now) g live = elim (Option-cases (g.tunnels t)) [
  | inr (c, e) ↦ rw (gateway_step, e) live
  | inl e ↦ rw (gateway_step, e) (open_tunnel-IsSound t agent now g e live)
]
gateway_step-IsSound (receives t s frame) g live = on_frame-IsSound t s frame g live
gateway_step-IsSound (ends t) g live = end_tunnel-IsSound t g live
gateway_step-IsSound (turn_ends t s (ok frames)) g live = send_all-IsSound t frames g live
gateway_step-IsSound (turn_ends t s (err x)) g live = live

gateway_run-IsSound :
    (es : List GatewayEvent) (g : Gateway) → IsSound g → IsSound (gateway_run es g)
unfolding gateway_run
gateway_run-IsSound [] g live = live
gateway_run-IsSound (e ∷ es) g live =
    gateway_run-IsSound es (gateway_step e g) (gateway_step-IsSound e g live)

new_gateway-IsSound : IsLive [] (λ t. none)
unfolding lookup
new_gateway-IsSound a s h = absurd (ground arith)

-- Whatever opens, arrives and ends at a new gateway, a session that is registered belongs to a
-- tunnel that is open and of that agent.
pub gateway_run-IsLive :
    (forwards has_engine : Bool) (es : List GatewayEvent) (agent_id : Text) (s : AgentSession × ℕ)
    → lookup agent_id (gateway_run es (new_gateway forwards has_engine)).sessions ≡ some s
    → (gateway_run es (new_gateway forwards has_engine)).tunnels s.1 ≡ some (some agent_id)
gateway_run-IsLive forwards has_engine es =
    gateway_run-IsSound es (new_gateway forwards has_engine) new_gateway-IsSound

-- When two tunnels of one agent are open, the end of either takes the agent's session away,
-- although the other is still open.
pub end_tunnel_unregisters :
    (t u : ℕ) (agent_id : Text) (g : Gateway)
    → t ≢ u
    → g.tunnels t ≡ some (some agent_id)
    → g.tunnels u ≡ some (some agent_id)
    → (lookup agent_id (end_tunnel t g).sessions ≡ none)
      × ((end_tunnel t g).tunnels u ≡ some (some agent_id))
unfolding end_tunnel unregister
end_tunnel_unregisters t u agent_id g apart one other =
    rw (end_tunnel, one)
      (
        lookup-remove agent_id agent_id g.sessions ∙ ground (arith, text_eq_refl agent_id),
        put_other t u none g.tunnels (λ e. apart (sym e)) ∙ other,
      )

send_to_agent-ok :
    (agent_id : Text) (frame : TunnelServerFrame) (sessions : Sessions) (c c' : Channels)
    → send_to_agent agent_id frame sessions c ≡ (ok tt, c')
    → (s : AgentSession × ℕ) × (lookup agent_id sessions ≡ some s)
      × (c'.sent ≡ c.sent ++ (s.1, frame) ∷ [])
unfolding send_to_agent send_on
send_to_agent-ok agent_id frame sessions c c' h = elim (Option-cases (lookup agent_id sessions)) [
  | inl e ↦ absurd (ground (arith, e))
  | inr (s, e) ↦ elim (Bool-cases (c.closed s.1)) [
    | inl t ↦ absurd (ground (arith, e, t))
    | inr f ↦ (s, e, ground (arith, e, f))
  ]
]

-- Whatever opened, arrived and ended at a new gateway before, a frame that `send_to_agent` sends
-- goes to one tunnel, which is open and of that agent: never to one that has ended, or to another
-- agent.
pub send_to_agent-reaches :
    (forwards has_engine : Bool) (es : List GatewayEvent) (agent_id : Text)
    (frame : TunnelServerFrame) (c' : Channels)
    → let g = gateway_run es (new_gateway forwards has_engine) in
      send_to_agent agent_id frame g.sessions g.channels ≡ (ok tt, c')
      → let g = gateway_run es (new_gateway forwards has_engine) in
        (t : ℕ) × (g.tunnels t ≡ some (some agent_id))
        × (c'.sent ≡ g.channels.sent ++ (t, frame) ∷ [])
send_to_agent-reaches forwards has_engine es agent_id frame c' h =
    let g = gateway_run es (new_gateway forwards has_engine) in
    let (s, found, sent) = send_to_agent-ok agent_id frame g.sessions g.channels c' h in
    (s.1, gateway_run-IsLive forwards has_engine es agent_id s found, sent)
