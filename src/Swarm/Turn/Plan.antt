-- ===== src/Swarm/Turn/Plan.antt =====
-- swarm-orchestrator/src/turn.rs: what a turn leaves in the histories and plans for the agent.
use syntropy.Prelude.{
  ℕ, ◌≡◌, ◌⊎◌, inl, inr, ◌+◌, refl, ap, ◌∙◌, not, ◌&&◌, some, List, [], ◌∷◌, ◌++◌, Text, lit,
  text_eq, text_eq_iff, insert, Result, ok, err, Result-cases, Bool-cases, if◌then◌else◌, length,
  lookup-insert, arith, map, true, false,
}
use syntropy.Tunnel.Frames.{
  ServerPayload, exec_command, apply_patch, heartbeat, error_frame, other_payload, agent_message,
  TunnelServerFrame, UserPrompt,
}
use syntropy.Swarm.Gemini.{
  ChatMessage, GeminiConfig, ModelApi, GeminiToolCall, GeminiTurnResult, generate_turn, unwrap_or,
  text_at, and_then,
}
use syntropy.Swarm.Turn.{
  TurnExecutionPlan, Histories, TurnStamps, get_session_history, prompt_history, messages_of,
  record_turn, payload_of, frames_of, frame_of, names_of, message_of, plan_of, process_prompt,
  system_directive, exec_of, patch_of, strings_of,
}

get_session_history-insert :
    (session_id other : Text) (messages : List ChatMessage) (sessions : Histories)
    → get_session_history other (insert session_id messages sessions)
      ≡ (if text_eq session_id other then messages else get_session_history other sessions)
unfolding get_session_history
get_session_history-insert session_id other messages sessions =
    ground (arith, lookup-insert session_id other messages sessions)

get_session_history-record_turn :
    (prompt : UserPrompt) (content other : Text) (sessions : Histories)
    → get_session_history other (record_turn prompt content sessions) ≡ (
        if text_eq prompt.session_id other && not (text_eq other [])
        then get_session_history other sessions ++ messages_of prompt content
        else get_session_history other sessions)
unfolding record_turn
get_session_history-record_turn prompt content other sessions =
    let id = prompt.session_id in
    let added = get_session_history id sessions ++ messages_of prompt content in
    let inserted = get_session_history-insert id other added sessions in
    elim (Bool-cases (text_eq id other)) [
      | inr f ↦ elim (Bool-cases (text_eq id [])) [
        | inl e ↦ ground (arith, e, f)
        | inr n ↦ ground (arith, n, f, inserted)
      ]
      | inl t ↦
          let same : id ≡ other = (text_eq_iff id other).0 t in
          let history : get_session_history id sessions ≡ get_session_history other sessions =
            ap (λ k. get_session_history k sessions) same in
          let empty : text_eq id [] ≡ text_eq other [] = ap (λ k. text_eq k []) same in
          elim (Bool-cases (text_eq id [])) [
            | inl e ↦ ground (arith, e, t, empty)
            | inr n ↦ ground (arith, n, t, empty, inserted, history)
          ]
    ]

-- What a turn with this prompt and this answer adds to a history.
abbrev pub conversation : Text → Text → List ChatMessage
conversation text [] = record { role = lit "user"; text = text } ∷ []
conversation text (b ∷ answer) =
    record { role = lit "user"; text = text }
    ∷ record { role = lit "model"; text = b ∷ answer }
    ∷ []

messages_of-conversation :
    (prompt : UserPrompt) (content : Text)
    → messages_of prompt content ≡ conversation prompt.text content
unfolding text_eq
messages_of-conversation prompt [] = refl
messages_of-conversation prompt (b ∷ content) = refl

module _ (j : ModelApi) where
  -- A turn that succeeds adds the prompt, and the answer of the model unless it is empty, to the end
  -- of the history of the prompt's session, if it has one, and leaves the other histories as they
  -- were; a turn that fails leaves them all.
  pub process_prompt-history :
      (config : GeminiConfig) (s : TurnStamps) (prompt : UserPrompt) (agent_id other : Text)
      (sessions sessions' : Histories) (r : Result Text TurnExecutionPlan)
      → process_prompt j config s prompt agent_id sessions ≡ (r, sessions')
      → ((e : Text) × (r ≡ err e) × (sessions' ≡ sessions))
        ⊎ ((plan : TurnExecutionPlan) × (r ≡ ok plan)
            × ((result : GeminiTurnResult j) × (generate_turn j config prompt.text
                    (system_directive agent_id)
                    (prompt_history prompt sessions)
                  ≡ ok result)
                × (get_session_history other sessions' ≡ (
                    if text_eq prompt.session_id other && not (text_eq other [])
                    then get_session_history other sessions
                      ++ conversation prompt.text result.content
                    else get_session_history other sessions))))
  unfolding process_prompt plan_of
  process_prompt-history config s prompt agent_id other sessions sessions' r h =
      elim (Result-cases (
        generate_turn j config prompt.text (system_directive agent_id)
          (prompt_history prompt sessions))) [
            | inr (e, f) ↦ inl (e, ground (arith, f), ground (arith, f))
            | inl (result, f) ↦
                let after : sessions' ≡ record_turn prompt result.content sessions =
                  ground (arith, f) in
                inr (
                  plan_of j s prompt result,
                  ground (arith, f),
                  (
                    result,
                    f,
                    ap (get_session_history other) after
                        ∙ get_session_history-record_turn prompt result.content other sessions
                        ∙ ap
                            (λ added.
                              if text_eq prompt.session_id other && not (text_eq other [])
                              then get_session_history other sessions ++ added
                              else get_session_history other sessions)
                            (messages_of-conversation prompt result.content),
                  ),
                )
          ]

  -- The calls of the tools that are known.
  abbrev pub known_calls : List (GeminiToolCall j) → List (GeminiToolCall j)
  known_calls [] = []
  known_calls (tc ∷ tcs) =
      let rest = known_calls tcs in
      if text_eq tc.name (lit "exec_command")
      then tc ∷ rest
      else if text_eq tc.name (lit "apply_patch")
      then tc ∷ rest
      else rest

  -- A frame asks for what the call of a tool says, and `dir` or `output.txt` stand for a command or
  -- a path that it lacks.
  abbrev pub IsAsked : GeminiToolCall j → ServerPayload → Type 0
  IsAsked tc (exec_command e) =
      (tc.name ≡ lit "exec_command")
      × (e.command ≡ unwrap_or (lit "dir") (text_at j (lit "command") tc.args))
      × (e.args ≡ strings_of j (unwrap_or [] (and_then (j.get (lit "args") tc.args) j.as_array)))
      × (e.working_dir ≡ [])
  IsAsked tc (apply_patch p) =
      (tc.name ≡ lit "apply_patch")
      × (p.file_path ≡ unwrap_or (lit "output.txt") (text_at j (lit "file_path") tc.args))
      × (p.diff ≡ unwrap_or [] (text_at j (lit "diff") tc.args))
      × (p.dry_run ≡ false)
  IsAsked tc (heartbeat hb) = ⊥
  IsAsked tc (error_frame e) = ⊥
  IsAsked tc (agent_message m) = ⊥
  IsAsked tc (other_payload bytes) = ⊥

  -- One frame for each call, in their order.
  abbrev pub AreAsked : List (GeminiToolCall j) → List TunnelServerFrame → Type 0
  AreAsked [] [] = Unit
  AreAsked [] (f ∷ fs) = ⊥
  AreAsked (tc ∷ tcs) [] = ⊥
  AreAsked (tc ∷ tcs) (f ∷ fs) =
      ((p : ServerPayload) × (f.payload ≡ some p) × IsAsked tc p) × AreAsked tcs fs

  frames_of-AreAsked :
      (s : TurnStamps) (n : ℕ) (tcs : List (GeminiToolCall j))
      → AreAsked (known_calls tcs) (frames_of j s n tcs)
  unfolding frames_of payload_of
  frames_of-AreAsked s n [] = tt
  frames_of-AreAsked s n (tc ∷ tcs) =
      let rest = frames_of-AreAsked s (n + 1) tcs in
      let later = frames_of j s (n + 1) tcs in
      elim (Bool-cases (text_eq tc.name (lit "exec_command"))) [
        | inl t ↦
            let name = (text_eq_iff tc.name (lit "exec_command")).0 t in
            let first : frames_of j s n (tc ∷ tcs)
                ≡ frame_of j s n (exec_of j s n tc.args) ∷ later =
              ground (arith, t) in
            rw (first, t) ((exec_of j s n tc.args, refl, (name, refl, refl, refl)), rest)
        | inr f ↦ elim (Bool-cases (text_eq tc.name (lit "apply_patch"))) [
          | inl t ↦
              let name = (text_eq_iff tc.name (lit "apply_patch")).0 t in
              let first : frames_of j s n (tc ∷ tcs)
                  ≡ frame_of j s n (patch_of j s n tc.args) ∷ later =
                ground (arith, f, t) in
              rw (first, f, t) ((patch_of j s n tc.args, refl, (name, refl, refl, refl)), rest)
          | inr g ↦
              let none_of_both : frames_of j s n (tc ∷ tcs) ≡ later = ground (arith, f, g) in
              rw (none_of_both, f, g) rest
        ]
      ]

  -- A turn that succeeds plans the frames that the calls of known tools ask for, in their order, and
  -- behind them the message, which is final, has the answer of the model and names all calls, known
  -- or not.
  pub process_prompt-frames :
      (config : GeminiConfig) (s : TurnStamps) (prompt : UserPrompt) (agent_id : Text)
      (sessions sessions' : Histories) (plan : TurnExecutionPlan)
      → process_prompt j config s prompt agent_id sessions ≡ (ok plan, sessions')
      → (result : GeminiTurnResult j) × (generate_turn j config prompt.text
            (system_directive agent_id)
            (prompt_history prompt sessions)
          ≡ ok result)
        × (plan.agent_message.is_final ≡ true)
        × (plan.agent_message.content ≡ result.content)
        × (plan.agent_message.tool_calls ≡ map (λ tc. tc.name) result.tool_calls)
        × ((calls : List TunnelServerFrame) × (last : TunnelServerFrame)
            × (plan.server_frames_to_send ≡ calls ++ last ∷ [])
            × AreAsked (known_calls result.tool_calls) calls
            × (last.payload ≡ some (agent_message plan.agent_message)))
  unfolding process_prompt plan_of
  process_prompt-frames config s prompt agent_id sessions sessions' plan h =
      elim (Result-cases (
        generate_turn j config prompt.text (system_directive agent_id)
          (prompt_history prompt sessions))) [
            | inr (e, f) ↦ absurd (ground (arith, f))
            | inl (result, f) ↦
                let made : plan ≡ plan_of j s prompt result = ground (arith, f) in
                let calls = frames_of j s 0 result.tool_calls in
                let final =
                  frame_of j s (length result.tool_calls) (agent_message (message_of j s result)) in
                rw made (
                  result,
                  f,
                  refl,
                  refl,
                  names_of-map result.tool_calls,
                  (calls, final, refl, frames_of-AreAsked s 0 result.tool_calls, refl),
                )
          ]
    where
      names_of-map :
          (tcs : List (GeminiToolCall j))
          → names_of j tcs ≡ map (λ (tc : GeminiToolCall j). tc.name) tcs
      names_of-map [] = refl
      names_of-map (tc ∷ tcs) = ap (◌∷◌ tc.name) (names_of-map tcs)
