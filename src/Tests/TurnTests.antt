-- ===== src/Tests/TurnTests.antt =====
-- Turns of the mock model, with values that are texts, and a worker through a broken connection.
use syntropy.Prelude.{
  map, ◌≡◌, ◌≢◌, ◌≤◌, ◌⊎◌, ◌*◌, ◌/◌, refl, true, false, not, ◌&&◌, none, some, List, [], ◌∷◌, ◌++◌,
  Text, lit, text_eq, lookup, insert, remove, Result, ok, err, if◌then◌else◌, length, join, find?,
  strip_prefix?, trim, trim_start_from, trim_end, after_white?,
}
use syntropy.Tunnel.Frames.{UserPrompt, agent_message, TunnelServerFrame, TunnelClientFrame}
use syntropy.Tunnel.Client.{
  TunnelConfig, begin_attempt, refuse, wake, interrupt, establish, leave_stream, send_or_leave,
  on_outbound, on_heartbeat, on_inbound, on_shutdown, WorkerEvent, begins, refused, woken,
  server_ends, established, outbound_ready, sends, worker_step, worker_run, new_worker, stopped,
}
use syntropy.Tunnel.Client.Handle.{works, looks, connect, timeout, ending, connect-leaves_none}
use syntropy.Tunnel.Client.Reconnects.{IsTruthful, worker_run-IsTruthful}
use syntropy.Swarm.Gemini.{
  ModelApi, GeminiTurnResult, generate_turn, dev_mock, new_client, from_env, parse_gemini_response,
  generate_dev_mock_turn,
}
use syntropy.Swarm.Turn.{
  TurnExecutionPlan, Histories, TurnStamps, get_session_history, clear_session, prompt_history,
  record_turn, payload_of, frames_of, plan_of, process_prompt, system_directive,
}
use syntropy.Swarm.Turn.Plan.{
  conversation, AreAsked, known_calls, process_prompt-history, process_prompt-frames,
}

program : Unit {0}
unfolding text_eq lookup insert remove find? strip_prefix? trim trim_start_from trim_end
    after_white? join begin_attempt refuse wake interrupt establish leave_stream send_or_leave
    on_outbound on_heartbeat on_inbound on_shutdown worker_step worker_run generate_turn new_client
    from_env parse_gemini_response generate_dev_mock_turn get_session_history clear_session
    prompt_history record_turn payload_of frames_of plan_of process_prompt
program = tt

abbrev first_value : List (Text × Text) → Text
first_value [] = []
first_value ((k, v) ∷ fields) = v

abbrev api : ModelApi
api = record {
  Value = Text;
  get = λ k v. some v;
  as_str = λ v. some v;
  as_array = λ v. some (v ∷ []);
  as_object = λ v. some v;
  of_text = λ t. t;
  of_array = λ vs. [];
  of_fields = first_value;
  print = λ v. v;
  to_lowercase = λ t. t;
  post = λ url body. err (lit "offline");
}

abbrev stamps : TurnStamps
stamps = record { uuid = λ n. lit "u"; now = λ n. n }

abbrev prompt : UserPrompt
prompt = record { prompt_id = lit "p"; text = lit "list"; session_id = lit "s"; context_files = [] }

abbrev before : Histories
before = (lit "s", record { role = lit "user"; text = lit "hi" } ∷ []) ∷ []

abbrev turn : Result Text TurnExecutionPlan × Histories
turn = process_prompt api dev_mock stamps prompt (lit "a") before

abbrev plan : TurnExecutionPlan
plan = plan_of api stamps prompt (generate_dev_mock_turn api (lit "list"))

plans : turn ≡ (ok plan, turn.1)
unfolding program
plans = refl

two_frames : length plan.server_frames_to_send ≡ 2
unfolding program
two_frames = refl

-- A network that fails leaves the histories.
fails :
    process_prompt api (new_client (lit "key") (lit "m")) stamps prompt (lit "a") before
    ≡ (err (lit "offline"), before)
unfolding program
fails = refl

process_prompt-history_example :
    ((e : Text) × (turn.0 ≡ err e) × (turn.1 ≡ before))
    ⊎ ((p : TurnExecutionPlan) × (turn.0 ≡ ok p)
        × ((result : GeminiTurnResult api) × (generate_turn api dev_mock
                (lit "list")
                (system_directive (lit "a"))
                (prompt_history prompt before)
              ≡ ok result)
            × (get_session_history (lit "s") turn.1 ≡ (
                if text_eq (lit "s") (lit "s") && not (text_eq (lit "s") [])
                then get_session_history (lit "s") before
                  ++ conversation (lit "list") result.content
                else get_session_history (lit "s") before))))
process_prompt-history_example =
    process_prompt-history api dev_mock stamps prompt (lit "a") (lit "s") before turn.1 turn.0 refl

process_prompt-frames_example :
    (result : GeminiTurnResult api) × (generate_turn api dev_mock
        (lit "list")
        (system_directive (lit "a"))
        (prompt_history prompt before)
      ≡ ok result)
    × (plan.agent_message.is_final ≡ true)
    × (plan.agent_message.content ≡ result.content)
    × (plan.agent_message.tool_calls ≡ map (λ tc. tc.name) result.tool_calls)
    × ((calls : List TunnelServerFrame) × (last : TunnelServerFrame) × (plan.server_frames_to_send
          ≡ calls ++ last ∷ [])
        × AreAsked api (known_calls api result.tool_calls) calls
        × (last.payload ≡ some (agent_message plan.agent_message)))
process_prompt-frames_example =
    process_prompt-frames api dev_mock stamps prompt (lit "a") before turn.1 plan plans

abbrev config : TunnelConfig
config = record {
  agent_id = lit "a";
  initial_reconnect_delay = 500;
  max_reconnect_delay = 1000;
  backoff = λ d. d * 3 / 2;
  max_reconnect_attempts = some 3;
  heartbeat_interval = some 10;
}

abbrev message : Text → TunnelClientFrame
message id = record { frame_id = id; timestamp_unix_ms = 1; agent_id = lit "a"; payload = none }

-- The frame that meets the broken stream is sent first on the next one.
abbrev reconnect : List WorkerEvent
reconnect =
    sends (message (lit "x"))
    ∷ begins
    ∷ refused
    ∷ woken
    ∷ begins
    ∷ established false
    ∷ outbound_ready true
    ∷ woken
    ∷ begins
    ∷ established false
    ∷ []

resent : (worker_run config reconnect (new_worker config)).on_stream ≡ message (lit "x") ∷ []
unfolding program
resent = refl

slower :
    (worker_run config
      (begins ∷ refused ∷ woken ∷ begins ∷ refused ∷ woken ∷ [])
      (new_worker config)).current_delay
    ≡ 1000
unfolding program
slower = refl

-- Three attempts that are refused are the last.
gives_up :
    (worker_run config
      (begins ∷ refused ∷ woken ∷ begins ∷ refused ∷ woken ∷ begins ∷ refused ∷ woken ∷ begins ∷ [])
      (new_worker config)).phase
    ≡ stopped
unfolding program
gives_up = refl

-- What the worker has put onto a stream is gone with it.
lost :
    (worker_run config
      (begins
        ∷ established false
        ∷ sends (message (lit "x"))
        ∷ outbound_ready false
        ∷ server_ends
        ∷ woken
        ∷ begins
        ∷ established false
        ∷ [])
      (new_worker config)).on_stream
    ≡ []
unfolding program
lost = refl

worker_run-IsTruthful_example : IsTruthful config (worker_run config reconnect (new_worker config))
worker_run-IsTruthful_example = worker_run-IsTruthful config reconnect

-- A caller who looks while the first connection is open, and one whose time is over.
connects :
    (connect config 5 (works begins ∷ looks ∷ works (established false) ∷ looks ∷ [])).0 ≡ ok tt
unfolding program connect
connects = refl

too_late : (connect config 5 (works begins ∷ looks ∷ works refused ∷ [])).0 ≡ err (timeout 5)
unfolding program connect
too_late = refl

connect-leaves_none_example :
    let (r, t) = connect config 5 (works begins ∷ looks ∷ works refused ∷ []) in
    ((r ≡ ok tt) × (t.worker.connected ≡ true))
    ⊎ ((r ≢ ok tt)
        × ((worker_run config ((woken ∷ []) ++ ending) t.worker).phase ≡ stopped)
        × ((worker_run config ((woken ∷ []) ++ ending) t.worker).attempts ≤ t.worker.attempts))
connect-leaves_none_example =
    connect-leaves_none config 5 (works begins ∷ looks ∷ works refused ∷ []) (woken ∷ [])
