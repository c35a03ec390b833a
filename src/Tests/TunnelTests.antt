-- ===== src/Tests/TunnelTests.antt =====
-- Two tunnels of the agent `a` and one whose agent is known from its first frame.
use syntropy.Prelude.{
  ℕ, ◌≡◌, ◌≢◌, refl, true, false, none, some, List, [], ◌∷◌, ◌++◌, map, lit, text_eq, lookup,
  insert, remove, ok, arith,
}
use syntropy.Tunnel.Frames.{heartbeat, client_heartbeat, TunnelClientFrame, TunnelServerFrame}
use syntropy.Tunnel.Sessions.{
  send_on, register, unregister, send_to_agent, broadcast, active_agents,
}
use syntropy.Tunnel.Gateway.{
  Gateway, Stamp, claim, open_tunnel, learn_agent, answer_heartbeat, forward, start_turn, on_frame,
  end_tunnel, send_all, end_turn, GatewayEvent, opens, receives, gateway_step, gateway_run,
  new_gateway,
}
use syntropy.Tunnel.Gateway.Registered.{send_to_agent-reaches, end_tunnel_unregisters}

program : Unit {0}
unfolding text_eq lookup insert remove send_on register unregister send_to_agent broadcast claim
    open_tunnel learn_agent answer_heartbeat forward start_turn on_frame end_tunnel send_all
    end_turn gateway_step gateway_run
program = tt

abbrev stamp : Stamp
stamp = record { uuid = lit "u"; now = 5; later = 6 }

abbrev ping : TunnelClientFrame
ping = record {
  frame_id = lit "f";
  timestamp_unix_ms = 4;
  agent_id = lit "b";
  payload = some (
      client_heartbeat
        (record { sequence = 9; timestamp_unix_ms = 4; agent_id = lit "b"; is_ack = false }));
}

abbrev events : List GatewayEvent
events =
    opens 1 (some (lit "a")) 1
    ∷ opens 2 none 2
    ∷ opens 3 (some (lit "a")) 3
    ∷ receives 2 stamp ping
    ∷ []

abbrev gateway : Gateway
gateway = gateway_run events (new_gateway true false)

abbrev note : TunnelServerFrame
note = record { frame_id = lit "n"; timestamp_unix_ms = 7; payload = none }

-- The heartbeat is answered on its tunnel, with its number.
answered :
    gateway.channels.sent
    ≡ (
      2,
      record {
        frame_id = lit "u";
        timestamp_unix_ms = 5;
        payload = some (
            heartbeat
              (record { sequence = 9; timestamp_unix_ms = 6; agent_id = lit "b"; is_ack = true }));
      },
    )
      ∷ []
unfolding program
answered = refl

names : map (λ s. s.agent_id) (active_agents gateway.sessions) ≡ lit "a" ∷ lit "b" ∷ []
unfolding program
names = refl

delivers :
    send_to_agent (lit "a") note gateway.sessions gateway.channels
    ≡ (ok tt, (send_to_agent (lit "a") note gateway.sessions gateway.channels).1)
unfolding program
delivers = refl

newest :
    (broadcast note gateway.sessions gateway.channels).sent
    ≡ gateway.channels.sent ++ (3, note) ∷ (2, note) ∷ []
unfolding program
newest = refl

send_to_agent-reaches_example :
    (t : ℕ) × (gateway.tunnels t ≡ some (some (lit "a")))
    × ((send_to_agent (lit "a") note gateway.sessions gateway.channels).1.sent
        ≡ gateway.channels.sent ++ (t, note) ∷ [])
send_to_agent-reaches_example =
    send_to_agent-reaches true false events (lit "a") note
      (send_to_agent (lit "a") note gateway.sessions gateway.channels).1 delivers

first_open : gateway.tunnels 1 ≡ some (some (lit "a"))
unfolding program
first_open = refl

third_open : gateway.tunnels 3 ≡ some (some (lit "a"))
unfolding program
third_open = refl

apart : ◌≢◌ {A = ℕ} 1 3
apart e = omega arith

end_tunnel_unregisters_example :
    (lookup (lit "a") (end_tunnel 1 gateway).sessions ≡ none)
    × ((end_tunnel 1 gateway).tunnels 3 ≡ some (some (lit "a")))
end_tunnel_unregisters_example =
    end_tunnel_unregisters 1 3 (lit "a") gateway apart first_open third_open
