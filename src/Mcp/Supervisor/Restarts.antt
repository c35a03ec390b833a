-- ===== src/Mcp/Supervisor/Restarts.antt =====
-- supervisor.rs: how often the loop starts a child.
use syntropy.Prelude.{
  ◌^◌, ℕ, zero, suc, ◌≡◌, ◌⊎◌, inl, inr, ◌≤◌, ◌<◌, ◌+◌, ◌-◌, refl, ap, ◌∙◌, true, false,
  if◌then◌else◌, arith,
}
use syntropy.Mcp.Protocol.{JsonValue}
use syntropy.Mcp.Supervisor.{Supervisor, on_spawn, on_exit}

module _ {j : JsonValue} where
  -- The children that the loop starts while so many of them exit, one after the other.
  unfoldable pub spawns : ℕ → Supervisor j → ℕ
  unfolding on_spawn on_exit
  spawns zero s = 1
  spawns (suc exits) s =
      let (again, s') = on_exit (on_spawn s) in
      let rest = spawns exits s' in if again then suc rest else 1

  -- One exit: the loop ends, or it has counted one restart more, within the limit.
  on_exit_counts :
      (s : Supervisor j)
      → s.config.max_restart_attempts + 1 < 2 ^ 32
      → s.restart_count ≤ s.config.max_restart_attempts
      → ((on_exit (on_spawn s)).0 ≡ false)
        ⊎ (((on_exit (on_spawn s)).0 ≡ true)
            × ((on_exit (on_spawn s)).1.restart_count ≡ s.restart_count + 1)
            × (s.restart_count + 1 ≤ s.config.max_restart_attempts))
  unfolding on_exit on_spawn
  on_exit_counts s fits counted = ground arith

  on_exit-config : (s : Supervisor j) → (on_exit (on_spawn s)).1.config ≡ s.config
  unfolding on_exit on_spawn
  on_exit-config s = ground arith

  -- However often the child exits, the loop starts no more children than the first one and one for
  -- each restart that is left.
  pub spawns_le :
      (exits : ℕ) (s : Supervisor j)
      → s.restart_count ≤ s.config.max_restart_attempts
      → s.config.max_restart_attempts + 1 < 2 ^ 32
      → spawns exits s ≤ 1 + (s.config.max_restart_attempts - s.restart_count)
  unfolding spawns on_exit on_spawn
  spawns_le zero s counted fits = omega arith
  spawns_le (suc exits) s counted fits = elim (on_exit_counts s fits counted) [
    | inl ends ↦ rw ends (omega arith)
    | inr (again, one, within) ↦
        let same = on_exit-config s in
        let max_same = ap (λ c. c.max_restart_attempts) same in
        let rest =
          spawns_le exits (on_exit (on_spawn s)).1 (omega (arith, one, max_same))
            (omega (arith, max_same)) in
        rw again (omega (arith, rest, one, max_same))
  ]

  exit_restarts :
      (s : Supervisor j)
      → s.config.auto_restart ≡ true
      → s.shutdown_requested ≡ false
      → s.restart_count + 1 ≤ s.config.max_restart_attempts
      → s.config.max_restart_attempts + 1 < 2 ^ 32
      → ((on_exit (on_spawn s)).0 ≡ true)
        × ((on_exit (on_spawn s)).1.restart_count ≡ s.restart_count + 1)
        × ((on_exit (on_spawn s)).1.shutdown_requested ≡ false)
  unfolding on_exit on_spawn
  exit_restarts s restarts running left fits = (ground arith, ground arith, ground arith)

  -- With automatic restarts and no shutdown, as many exits as restarts are left make the loop
  -- start exactly that many children more.
  pub spawns_eq :
      (exits : ℕ) (s : Supervisor j)
      → s.config.auto_restart ≡ true
      → s.shutdown_requested ≡ false
      → s.restart_count + exits ≤ s.config.max_restart_attempts
      → s.config.max_restart_attempts + 1 < 2 ^ 32
      → spawns exits s ≡ 1 + exits
  unfolding spawns on_exit on_spawn
  spawns_eq zero s restarts running left fits = refl
  spawns_eq (suc exits) s restarts running left fits =
      let fields : ((on_exit (on_spawn s)).0 ≡ true)
          × ((on_exit (on_spawn s)).1.restart_count ≡ s.restart_count + 1)
          × ((on_exit (on_spawn s)).1.shutdown_requested ≡ false) =
        exit_restarts s restarts running (omega arith) fits in
      let same = on_exit-config s in
      let max_same = ap (λ c. c.max_restart_attempts) same in
      let rest =
        spawns_eq exits (on_exit (on_spawn s)).1 (ap (λ c. c.auto_restart) same ∙ restarts) fields.2
          (omega (arith, fields.1, max_same)) (omega (arith, max_same)) in
      rw fields.0 (omega (arith, rest))
