-- ===== src/Mcp/Supervisor/Callers.antt =====
-- supervisor.rs: the callers that wait for a response.
use syntropy.Prelude.{
  if_both, Option-cases, ℕ, ◌≡◌, ◌⊎◌, inl, inr, refl, Bool, true, false, not, ◌||◌, Option, none,
  some, List, [], ◌∷◌, ◌++◌, Text, lit, text_eq, text_eq_iff, Dict, lookup, remove, Result, ok,
  Bool-cases, ◌==◌, ==_iff, lookup-insert, lookup-remove, lookup-insert_self, arith,
}
use syntropy.Mcp.Protocol.{
  serialization, process_exited, channel_closed, supervisor_terminated, JsonValue, JsonRpcRequest,
  JsonRpcResponse, McpError,
}
use syntropy.Mcp.Supervisor.{
  enqueue, Supervisor, Settled, Sending, id_of, wait_for, give_up, send_request, on_line, told,
  drain, on_eof, stop, on_spawn, on_exit, dropped,
}

module _ {j : JsonValue} where
  -- The caller is among those that were told something.
  unfoldable pub is_told : ℕ → List (ℕ × Settled j) → Bool
  is_told c [] = false
  is_told c ((d, r) ∷ l) = (d == c) || is_told c l

  is_told-append :
      (c : ℕ) (l m : List (ℕ × Settled j)) → is_told c (l ++ m) ≡ is_told c l || is_told c m
  unfolding is_told
  is_told-append c [] m = refl
  is_told-append c ((d, r) ∷ l) m = ground (arith, is_told-append c l m)

-- Everyone who waits is told when the senders are drained.
is_told-told :
    (j : JsonValue) (c : ℕ) (e : McpError) (m : Dict ℕ) (k : Text)
    → lookup k m ≡ some c
    → is_told {j = j} c (told e m) ≡ true
unfolding is_told told lookup
is_told-told j c e [] k h = absurd (ground arith)
is_told-told j c e ((i, d) ∷ m) k h = ground (arith, ==_iff d c, is_told-told j c e m k)

module _ {j : JsonValue} where
  -- The caller waits under an id, or was told how its request ended.
  unfoldable pub IsTracked : ℕ → Supervisor j → Type 0
  IsTracked c s = ((k : Text) × (lookup k s.pending ≡ some c)) ⊎ (is_told c s.settled ≡ true)

  pub drain_told :
      (c : ℕ) (e : McpError) (s : Supervisor j)
      → IsTracked c s
      → is_told c (drain e s).settled ≡ true
  unfolding IsTracked drain
  drain_told c e s (inl (k, waits)) =
      ground (arith, is_told-append c s.settled (told e s.pending), is_told-told j c e s.pending k)
  drain_told c e s (inr h) = ground (arith, is_told-append c s.settled (told e s.pending))

  -- A caller that may have been told something in the meantime.
  still_told : (c : ℕ) (l m : List (ℕ × Settled j)) → is_told c l ≡ true → is_told c (l ++ m) ≡ true
  still_told c l m h = ground (arith, is_told-append c l m)

  -- The caller waits under another id, or was told how its request ended.
  abbrev pub IsTrackedBeside : Text → ℕ → Supervisor j → Type 0
  IsTrackedBeside key c s =
      ((k : Text) × (text_eq key k ≡ false) × (lookup k s.pending ≡ some c))
      ⊎ (is_told c s.settled ≡ true)

  wait_for-IsTracked :
      (c caller : ℕ) (key : Text) (s : Supervisor j)
      → IsTracked c s
      → IsTrackedBeside key c (wait_for key caller s)
  unfolding IsTracked wait_for is_told
  wait_for-IsTracked c caller key s (inr h) = elim (Option-cases (lookup key s.pending)) [
    | inl e ↦ inr (ground arith)
    | inr (b, e) ↦ inr (ground (arith, still_told c s.settled ((b, dropped) ∷ [])))
  ]
  wait_for-IsTracked c caller key s (inl (k, waits)) = elim (Bool-cases (text_eq key k)) [
    | inr f ↦ inl (k, f, ground (arith, lookup-insert key k caller s.pending))
    | inl t ↦ elim (Option-cases (lookup key s.pending)) [
      | inl e ↦ absurd (ground (arith, text_eq_iff key k))
      | inr (b, e) ↦
          let same : (b == c) ≡ true = ground (arith, text_eq_iff key k, ==_iff b c) in
          inr (ground (arith, is_told-append c s.settled ((b, dropped) ∷ [])))
    ]
  ]

  give_up-IsTracked :
      (c : ℕ) (key : Text) (e : McpError) (s : Supervisor j)
      → IsTrackedBeside key c s
      → IsTracked c (give_up key e s).1
  unfolding IsTracked
  give_up-IsTracked c key e s (inl (k, other_key, waits)) =
      inl (k, ground (arith, lookup-remove key k s.pending))
  give_up-IsTracked c key e s (inr h) = inr h

  beside-IsTracked :
      (c : ℕ) (key : Text) (s : Supervisor j) → IsTrackedBeside key c s → IsTracked c s
  unfolding IsTracked
  beside-IsTracked c key s (inl (k, other_key, waits)) = inl (k, waits)
  beside-IsTracked c key s (inr h) = inr h

  enqueue-IsTracked :
      (c : ℕ) (o : Sending j) (key : Text) (s : Supervisor j) (written : Option Text)
      → IsTrackedBeside key c s
      → IsTracked c (enqueue o key s written).1
  unfolding enqueue IsTracked
  enqueue-IsTracked c o key s none h =
      give_up-IsTracked c key (serialization (lit "serde_json")) s h
  enqueue-IsTracked c o key s (some payload) h =
      if_both (λ (r : Result McpError (Unit {0}) × Supervisor j). IsTracked c r.1) s.stdin_open
        (λ t.
          if_both (λ (r : Result McpError (Unit {0}) × Supervisor j). IsTracked c r.1)
            o.channel_takes {x = (ok tt, record s { sent = s.sent ++ (payload ++ lit "\n") ∷ [] })}
            {y = give_up key channel_closed s} (λ t'. beside-IsTracked c key s h)
            (λ f. give_up-IsTracked c key channel_closed s h))
        (λ f. give_up-IsTracked c key (process_exited (lit "Stdin channel unavailable")) s h)

  send_request-IsTracked :
      (c : ℕ) (o : Sending j) (caller : ℕ) (request : JsonRpcRequest j) (s : Supervisor j)
      → IsTracked c s
      → IsTracked c (send_request o caller request s).1
  unfolding send_request
  send_request-IsTracked c o caller request s h =
      let id = id_of o request in
      let key = j.to_string id in
      if_both (λ (r : Result McpError (Unit {0}) × Supervisor j). IsTracked c r.1)
        s.shutdown_requested (λ t. h)
        (λ f.
          if_both (λ (r : Result McpError (Unit {0}) × Supervisor j). IsTracked c r.1)
            (not s.is_alive) (λ t. h)
            (λ f'.
              enqueue-IsTracked c o key (wait_for key caller s)
                (o.to_json (record request { id = some id }))
                (wait_for-IsTracked c caller key s h)))

  -- The caller that waits under an id is told, and waits no more.
  answered :
      (c : ℕ) (key : Text) (caller : ℕ) (r : Settled j) (s : Supervisor j)
      → lookup key s.pending ≡ some caller
      → IsTracked c s
      → IsTracked c
          (record s { pending = remove key s.pending; settled = s.settled ++ (caller, r) ∷ [] })
  unfolding IsTracked is_told
  answered c key caller r s e (inr h) = inr (still_told c s.settled ((caller, r) ∷ []) h)
  answered c key caller r s e (inl (k, waits)) = elim (Bool-cases (text_eq key k)) [
    | inr f ↦ inl (k, ground (arith, lookup-remove key k s.pending))
    | inl t ↦
        let same : (caller == c) ≡ true = ground (arith, text_eq_iff key k, ==_iff caller c) in
        inr (ground (arith, is_told-append c s.settled ((caller, r) ∷ [])))
  ]

  on_line-IsTracked :
      (c : ℕ) (response : Option (JsonRpcResponse j)) (s : Supervisor j)
      → IsTracked c s
      → IsTracked c (on_line response s)
  unfolding on_line
  on_line-IsTracked c none s h = h
  on_line-IsTracked c (some response) s h = elim (Option-cases response.id) [
    | inl e ↦ rw e h
    | inr (id, e) ↦ elim (Option-cases (lookup (j.to_string id) s.pending)) [
      | inl e' ↦ rw (e, e') h
      | inr (caller, e') ↦ rw (e, e') (answered c (j.to_string id) caller (ok response) s e' h)
    ]
  ]

-- What the loop, the reader, the writer and the callers do.
pub data Event (j : JsonValue) : Type 0 where
  sends : Sending j → ℕ → JsonRpcRequest j → Event j
  line : Option (JsonRpcResponse j) → Event j
  eof stopped spawned exited : Event j

module _ {j : JsonValue} where
  unfoldable pub after : Supervisor j → Event j → Supervisor j
  unfolding send_request on_line on_eof stop on_spawn on_exit
  after s (sends o caller request) = (send_request o caller request s).1
  after s (line response) = on_line response s
  after s eof = on_eof s
  after s stopped = stop s
  after s spawned = on_spawn s
  after s exited = (on_exit s).1

  -- No event loses a caller: whoever waited or was told still waits or was told.
  pub after-IsTracked :
      (c : ℕ) (s : Supervisor j) (e : Event j) → IsTracked c s → IsTracked c (after s e)
  unfolding after IsTracked on_eof stop on_spawn on_exit
  after-IsTracked c s (sends o caller request) h = send_request-IsTracked c o caller request s h
  after-IsTracked c s (line response) h = on_line-IsTracked c response s h
  after-IsTracked c s eof h =
      inr (drain_told c (process_exited (lit "Child process stdout closed")) s h)
  after-IsTracked c s stopped h = inr (
      drain_told c supervisor_terminated
        (record s { shutdown_requested = true; is_alive = false; stdin_open = false }) h)
  after-IsTracked c s spawned h = h
  after-IsTracked c s exited h = elim h [
    | inl (k, waits) ↦ inl (k, ground arith)
    | inr told_before ↦ inr (ground arith)
  ]

  -- A request that is sent makes its caller wait.
  pub send_request_waits :
      (o : Sending j) (caller : ℕ) (request : JsonRpcRequest j) (s : Supervisor j)
      → (send_request o caller request s).0 ≡ ok tt
      → lookup (j.to_string (id_of o request)) (send_request o caller request s).1.pending
        ≡ some caller
  unfolding send_request wait_for enqueue
  send_request_waits o caller request s h =
      ground (arith, lookup-insert_self (j.to_string (id_of o request)) caller s.pending)

  -- After `stop` nobody waits: whoever did was told, and every later request is refused.
  pub stop_tells :
      (c : ℕ) (s : Supervisor j)
      → IsTracked c s
      → (is_told c (stop s).settled ≡ true) × ((stop s).pending ≡ [])
  unfolding stop drain IsTracked
  stop_tells c s h = (
    drain_told c supervisor_terminated
        (record s { shutdown_requested = true; is_alive = false; stdin_open = false }) h,
    refl,
  )

  -- The exit of the child tells nobody: who waits still waits, and the responses are those of before.
  pub on_exit_tells_nobody :
      (s : Supervisor j)
      → ((on_exit s).1.pending ≡ s.pending)
        × ((on_exit s).1.settled ≡ s.settled)
        × ((on_exit s).1.is_alive ≡ false)
  unfolding on_exit
  on_exit_tells_nobody s = (ground arith, ground arith, ground arith)
