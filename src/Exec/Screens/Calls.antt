-- ===== src/Exec/Screens/Calls.antt =====
-- pty_mux.rs: what the calls of the multiplexer make of its table.
use syntropy.Prelude.{
  Option-cases, ℕ, ◌≡◌, ◌≢◌, inl, inr, refl, ◌∙◌, false, none, some, Text, text_eq_iff,
  text_eq_refl, lookup, insert, remove, Result, ok, err, lookup-insert, lookup-remove,
  lookup-insert_self, arith,
}
use syntropy.Exec.Screens.{
  PtyError, screen_already_exists, ScreenSession, close_handles, kill_child, is_running, spawned,
  SpawnOptions,
}
use syntropy.Exec.Screens.Table.{
  Screens, Started, started, no_terminal, not_spawned, no_thread, check_free, start, spawn_screen,
  session_of, terminate, is_active, cleanup_screen,
}

-- The table holds a new screen under the name, and the others as they were.
abbrev pub IsRegistered : Text → ScreenSession → Screens → Screens → Type 0
IsRegistered screen_id s before after =
    (lookup screen_id after ≡ some s)
    × ((other : Text) → other ≢ screen_id → lookup other after ≡ lookup other before)

insert-IsRegistered :
    (screen_id : Text) (s : ScreenSession) (screens : Screens)
    → IsRegistered screen_id s screens (insert screen_id s screens)
insert-IsRegistered screen_id s screens = (
  lookup-insert_self screen_id s screens,
  λ other n. ground (arith, lookup-insert screen_id other s screens, text_eq_iff screen_id other),
)

start-ok :
    (screen_id : Text) (opts : SpawnOptions) (now : ℕ) (outcome : Started) (screens after : Screens)
    → start screen_id opts now outcome screens ≡ (ok tt, after)
    → after ≡ insert screen_id (spawned screen_id opts now) screens
unfolding start
start-ok screen_id opts now started screens after h = ground arith
start-ok screen_id opts now (no_terminal e) screens after h = absurd (ground arith)
start-ok screen_id opts now (not_spawned e) screens after h = absurd (ground arith)
start-ok screen_id opts now (no_thread e) screens after h = absurd (ground arith)

taken :
    (screen_id : Text) (opts : SpawnOptions) (now : ℕ) (outcome : Started) (screens : Screens)
    (s : ScreenSession)
    → lookup screen_id screens ≡ some s
    → spawn_screen screen_id opts now outcome screens
      ≡ (err (screen_already_exists screen_id), screens)
unfolding spawn_screen check_free
taken screen_id opts now outcome screens s h = ground (arith, h)

-- A call of `spawn_screen` that succeeds found the name free, and registers a running screen under
-- it and nothing else; the same name is then refused, and the table stays as it is.
pub spawn_screen_unique :
    (screen_id : Text) (opts again : SpawnOptions) (now later : ℕ) (outcome outcome' : Started)
    (screens after : Screens)
    → spawn_screen screen_id opts now outcome screens ≡ (ok tt, after)
    → (lookup screen_id screens ≡ none)
      × IsRegistered screen_id (spawned screen_id opts now) screens after
      × (spawn_screen screen_id again later outcome' after
          ≡ (err (screen_already_exists screen_id), after))
unfolding spawn_screen check_free
spawn_screen_unique screen_id opts again now later outcome outcome' screens after h =
    elim (Option-cases (lookup screen_id screens)) [
      | inr (s, e) ↦ absurd (ground arith)
      | inl e ↦
          let made = start-ok screen_id opts now outcome screens after (ground (arith, e)) in
          let s = spawned screen_id opts now in
          rw made (
            e,
            insert-IsRegistered screen_id s screens,
            taken screen_id again later outcome' (insert screen_id s screens) s
                (lookup-insert_self screen_id s screens),
          )
    ]

-- Two calls whose checks both come before the first insertion: both succeed, and the first screen
-- is no longer in the table.
pub start_race :
    (screen_id : Text) (opts opts' : SpawnOptions) (now now' : ℕ) (screens : Screens)
    → check_free screen_id screens ≡ ok tt
    → let (r, between) = start screen_id opts now started screens in
      let (r', after) = start screen_id opts' now' started between in
      (r ≡ ok tt)
      × (r' ≡ ok tt)
      × IsRegistered screen_id (spawned screen_id opts' now') screens after
unfolding start
start_race screen_id opts opts' now now' screens h =
    let s = spawned screen_id opts now in
    let s' = spawned screen_id opts' now' in
    let (found, others) = insert-IsRegistered screen_id s' (insert screen_id s screens) in
    (
      refl,
      refl,
      (found, λ other n. others other n ∙ (insert-IsRegistered screen_id s screens).1 other n),
    )

kill_child-ended :
    (s s' : ScreenSession) → kill_child s ≡ some s' → is_running s'.info.status ≡ false
unfolding kill_child
kill_child-ended s s' h = ground arith

-- A call of `terminate` that returns a success leaves the screen in the table, not running, and the
-- other screens as they were.
pub terminate-IsRegistered :
    (screen_id : Text) (screens after : Screens)
    → terminate screen_id screens ≡ (some (ok tt), after)
    → (is_active screen_id after ≡ false)
      × ((other : Text) → other ≢ screen_id → lookup other after ≡ lookup other screens)
unfolding terminate session_of is_active
terminate-IsRegistered screen_id screens after h = elim (Option-cases (lookup screen_id screens)) [
  | inl e ↦ absurd (ground arith)
  | inr (s, e) ↦ elim (Option-cases (kill_child (close_handles s))) [
    | inl w ↦ absurd (ground (arith, e, w))
    | inr (s', k) ↦
        let made : after ≡ insert screen_id s' screens = ground (arith, e, k) in
        let (found, others) = insert-IsRegistered screen_id s' screens in
        rw made (ground (arith, found, kill_child-ended (close_handles s) s' k), others)
  ]
]

terminate_others :
    (screen_id other : Text) (screens : Screens)
    → other ≢ screen_id
    → lookup other (terminate screen_id screens).1 ≡ lookup other screens
unfolding terminate session_of
terminate_others screen_id other screens n = elim (Option-cases (lookup screen_id screens)) [
  | inl e ↦ ground (arith, e)
  | inr (s, e) ↦ elim (Option-cases (kill_child (close_handles s))) [
    | inl w ↦
        ground (arith, e, w, (insert-IsRegistered screen_id (close_handles s) screens).1 other n)
    | inr (s', k) ↦ ground (arith, e, k, (insert-IsRegistered screen_id s' screens).1 other n)
  ]
]

-- A call of `cleanup_screen` that returns leaves no screen of the name, and the others as they were.
pub cleanup_screen-removes :
    (screen_id : Text) (screens after : Screens) (r : Result PtyError (Unit {0}))
    → cleanup_screen screen_id screens ≡ (some r, after)
    → (lookup screen_id after ≡ none)
      × ((other : Text) → other ≢ screen_id → lookup other after ≡ lookup other screens)
unfolding cleanup_screen
cleanup_screen-removes screen_id screens after r h =
    elim (Option-cases (terminate screen_id screens).0) [
      | inl e ↦ absurd (ground (arith, e))
      | inr (u, e) ↦
          let t = (terminate screen_id screens).1 in
          let made : after ≡ remove screen_id t = ground (arith, e) in
          rw made (
            ground (arith, lookup-remove screen_id screen_id t, text_eq_refl screen_id),
            λ other n.
                ground (arith, lookup-remove screen_id other t, text_eq_iff screen_id other)
                ∙ terminate_others screen_id other screens n,
          )
    ]
