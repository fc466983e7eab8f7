-- ===== src/HealthChecker/Recovery.antt =====
-- When src/health_checker/health_checker.cpp takes a server for dead, and that the branch of its check
-- that should count a recovery never runs.
use distributed_file_grid.Prelude.{
  ℕ, ◌+◌, ◌≤◌, ◌<◌, ◌≡◌, refl, sym, ◌∙◌, subst, ◌⊎◌, inl, Bool, true, false, [], ◌∷◌, ◌++◌, arith,
  All, All-append, All-mono,
}
use distributed_file_grid.Prelude.Int.{ℤ}
use distributed_file_grid.Prelude.Key.{Bytes, bytes_key, ℤ_key}
use distributed_file_grid.Prelude.Map.{Map, All-insert}
use distributed_file_grid.Metadata.{MetadataMap}
use distributed_file_grid.Zookeeper.{Client, Tree, node_exists}
use distributed_file_grid.HealthChecker.{
  ServerHealth, HealthChecker, Verdict, unchanged, waiting, dead, recovered, check_server,
  count_verdict, check_loop, check_server_health, process_heartbeat, znode,
}

-- A server that is not healthy has been silent for longer than the timeout.
abbrev pub IsJustified : {U : Type 0} → ℕ → ℕ → ServerHealth U → Type 0
IsJustified timeout now h = (h.is_healthy ≡ true) ⊎ (timeout + h.last_heartbeat < now)

abbrev pub started : {U : Type 0} → ℕ → ℕ → Client → HealthChecker U
started limit timeout client = record {
  servers = [];
  max_missed_heartbeats = limit;
  heartbeat_timeout = timeout;
  zk_client = client;
  heartbeats_received = 0;
  servers_marked_unhealthy = 0;
  servers_recovered = 0;
  replications_triggered = 0;
  healthy_server_count = 0;
}

-- The checker after heartbeats and checks, on a clock that does not go back.
pub data Reach {U : Type 0} : HealthChecker U → ℕ → Type 0 where
  begin : (limit timeout now : ℕ) (client : Client) → Reach (started limit timeout client) now
  checked :
      {c : HealthChecker U} {before : ℕ} (store : MetadataMap) (t : Tree) (now : ℕ)
      → Reach c before
      → before ≤ now
      → Reach (check_server_health store t now c).0 now
  heard :
      {c : HealthChecker U} {before : ℕ} (i : ℤ) (ip : Bytes) (usage : U) (now : ℕ)
      → Reach c before
      → before ≤ now
      → Reach (process_heartbeat i ip usage now c) now

abbrev is_recovered : Verdict → Bool
is_recovered unchanged = false
is_recovered waiting = false
is_recovered dead = false
is_recovered recovered = true

module _ {U : Type 0} where
  -- What holds between two steps.
  pub record IsSound (c : HealthChecker U) (now : ℕ) : Type 0 where
    pub justified : All (λ e. IsJustified c.heartbeat_timeout now e.1) c.servers
    pub none_recovered : c.servers_recovered ≡ 0

  check_server-IsJustified :
      (timeout limit before now : ℕ) (exists : Bool) (h : ServerHealth U)
      → IsJustified timeout before h
      → before ≤ now
      → IsJustified timeout now (check_server timeout limit now exists h).0
        × (is_recovered (check_server timeout limit now exists h).1 ≡ false)
  unfolding check_server
  check_server-IsJustified timeout limit before now exists h j le = ground arith

  count_verdict_lem :
      (v : Verdict) (c : HealthChecker U)
      → is_recovered v ≡ false
      → ((count_verdict v c).servers_recovered ≡ c.servers_recovered)
        × ((count_verdict v c).heartbeat_timeout ≡ c.heartbeat_timeout)
  count_verdict_lem unchanged c h = (refl, refl)
  count_verdict_lem waiting c h = (refl, refl)
  count_verdict_lem dead c h = (refl, refl)
  count_verdict_lem recovered c h = cc

  check_loop-IsSound :
      (store : MetadataMap) (t : Tree) (before now : ℕ) (c : HealthChecker U)
      (behind rest : Map ℤ (ServerHealth U))
      → before ≤ now
      → All (λ e. IsJustified c.heartbeat_timeout now e.1) behind
      → All (λ e. IsJustified c.heartbeat_timeout before e.1) rest
      → c.servers_recovered ≡ 0
      → IsSound (check_loop store t now c behind rest).0 now
  unfolding check_loop
  check_loop-IsSound store t before now c behind [] le hb hr z = record {
    justified = hb;
    none_recovered = z;
  }
  check_loop-IsSound store t before now c behind ((i, h) ∷ rest) le hb hr z =
      let exists = node_exists t (znode i) in
      let checked = check_server c.heartbeat_timeout c.max_missed_heartbeats now exists h in
      let one =
        check_server-IsJustified c.heartbeat_timeout c.max_missed_heartbeats before now exists h
          hr.0 le in
      let counted = count_verdict_lem checked.1 c one.1 in
      check_loop-IsSound store t before now (count_verdict checked.1 c)
        (behind ++ ((i, checked.0) ∷ [])) rest le
        (subst (λ k. All (λ e. IsJustified k now e.1) (behind ++ ((i, checked.0) ∷ [])))
          (sym counted.1) (All-append _ behind ((i, checked.0) ∷ []) hb (one.0, tt)))
        (subst (λ k. All (λ e. IsJustified k before e.1) rest) (sym counted.1) hr.1) (counted.0 ∙ z)

  pub check_server_health-IsSound :
      (store : MetadataMap) (t : Tree) (before now : ℕ) (c : HealthChecker U)
      → before ≤ now
      → IsSound c before
      → IsSound (check_server_health store t now c).0 now
  unfolding check_server_health
  check_server_health-IsSound store t before now c le s =
      let loop =
        check_loop-IsSound store t before now c [] c.servers le tt s.justified s.none_recovered in
      record { justified = loop.justified; none_recovered = loop.none_recovered }

  process_heartbeat-IsSound :
      (i : ℤ) (ip : Bytes) (usage : U) (before now : ℕ) (c : HealthChecker U)
      → before ≤ now
      → IsSound c before
      → IsSound (process_heartbeat i ip usage now c) now
  unfolding process_heartbeat
  process_heartbeat-IsSound i ip usage before now c le s = record {
    justified =
        All-insert (λ e. IsJustified c.heartbeat_timeout now e.1) i _ c.servers (inl refl)
          (All-mono _ _ c.servers (λ e j. ground arith) s.justified);
    none_recovered = s.none_recovered;
  }

-- After any heartbeats and checks on a clock that does not go back, a server that is not healthy
-- has been silent for longer than the timeout, and the counter of recoveries is 0.
pub Reach-IsSound : {U : Type 0} {c : HealthChecker U} {now : ℕ} → Reach c now → IsSound c now
Reach-IsSound (begin limit timeout now client) = record { justified = tt; none_recovered = refl }
Reach-IsSound (checked {c} {before} store t now r le) =
    check_server_health-IsSound store t before now c le (Reach-IsSound r)
Reach-IsSound (heard {c} {before} i ip usage now r le) =
    process_heartbeat-IsSound i ip usage before now c le (Reach-IsSound r)
