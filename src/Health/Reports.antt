-- ===== src/Health/Reports.antt =====
-- A run of checks while a server stays silent, and the effect of a heartbeat.
use distributed_file_grid.Prelude.{
  ℕ, suc, ◌+◌, ◌≤◌, ◌<◌, ◌≡◌, ◌∙◌, ap, inl, inr, Bool, true, false, ◌&&◌, not, List, [], ◌∷◌, ◌++◌,
  Option, none, some, arith, ltb, leb, ◌==◌, if◌then◌else◌, Bool-cases, lt→ltb, length, All,
  count_if-append,
}
use distributed_file_grid.Prelude.Int.{ℤ, eqb_ℤ}
use distributed_file_grid.Prelude.Key.{bytes_key, ℤ_key}
use distributed_file_grid.Prelude.Map.{find, find-insert, All-find}
use mathlib.Core.Path.{ap₂}
use distributed_file_grid.Health.{
  heartbeat_entry, record_heartbeat, Call, HealthMonitor, run_checks, check_health, ServerHealth,
  check_entry, seconds_between,
}
use distributed_file_grid.Health.Check.{reports-check_loop, find-check_loop, reports, newly}
use distributed_file_grid.Health.Detection.{check_health-IsValid, IsValid, IsCounted}

module _ {F : Type 0} where
  -- The entry after `n` more missed heartbeats.
  abbrev pub silent : ℕ → ℕ → ServerHealth F → ServerHealth F
  silent limit n h = record h {
    missed_heartbeats = h.missed_heartbeats + n;
    is_healthy = ltb (h.missed_heartbeats + n) limit;
  }

  -- Whether the limit is reached within the next `n` misses.
  abbrev pub crossings : ℕ → ℕ → ServerHealth F → ℕ
  crossings limit n h =
      if ltb h.missed_heartbeats limit && leb limit (h.missed_heartbeats + n) then 1 else 0

  abbrev pub IsStale : ℕ → ServerHealth F → ℕ → Type 0
  IsStale timeout h now = timeout < seconds_between h.last_heartbeat now

  check_entry_stale :
      (timeout limit now : ℕ) (h : ServerHealth F)
      → IsCounted limit h
      → 0 < h.last_heartbeat
      → IsStale timeout h now
      → ((check_entry timeout limit now h).0 ≡ silent limit 1 h)
        × (newly (check_entry timeout limit now) (some h) ≡ crossings limit 1 h)
  unfolding check_entry
  check_entry_stale timeout limit now h c seen stale =
      rw (lt→ltb timeout (seconds_between h.last_heartbeat now) stale) (ground arith)

  pub reports-append :
      (i : ℤ) (xs ys : List (Call F)) → reports i (xs ++ ys) ≡ reports i xs + reports i ys
  reports-append i xs ys = count_if-append (λ c. eqb_ℤ c.0 i) xs ys

  silent-silent :
      (limit n : ℕ) (h : ServerHealth F)
      → silent limit n (silent limit 1 h) ≡ silent limit (suc n) h
  silent-silent limit n h = ground arith

  crossings-split :
      (limit n : ℕ) (h : ServerHealth F)
      → crossings limit 1 h + crossings limit n (silent limit 1 h) ≡ crossings limit (suc n) h
  crossings-split limit n h = ground arith

  check_entry_fresh :
      (timeout limit now : ℕ) (h : ServerHealth F)
      → seconds_between h.last_heartbeat now ≤ timeout
      → check_entry timeout limit now h ≡ (h, false)
  unfolding check_entry
  check_entry_fresh timeout limit now h fresh = ground arith

  abbrev pub unhealthy_before : Option (ServerHealth F) → Bool
  unhealthy_before none = false
  unhealthy_before (some h) = not h.is_healthy && not (h.last_heartbeat == 0)

  -- A server that was unhealthy, with the recovery callback set.
  abbrev pub recovers : ℤ → HealthMonitor F → Bool
  recovers i m = unhealthy_before (find i m.servers) && m.recovered_cb

  check_health_stale :
      (m : HealthMonitor F) (now : ℕ) (i : ℤ) (h : ServerHealth F)
      → IsValid m
      → m.unhealthy_cb ≡ true
      → find i m.servers ≡ some h
      → 0 < h.last_heartbeat
      → IsStale m.heartbeat_timeout h now
      → (find i (check_health m now).0.servers ≡ some (silent m.max_missed_heartbeats 1 h))
        × (reports i (check_health m now).1 ≡ crossings m.max_missed_heartbeats 1 h)
  unfolding check_health
  check_health_stale m now i h v cb e seen stale =
      let check = check_entry m.heartbeat_timeout m.max_missed_heartbeats now in
      let counted : IsCounted m.max_missed_heartbeats h =
        All-find (λ x. IsCounted m.max_missed_heartbeats x.1) i m.servers h v.counted e in
      let one =
        check_entry_stale m.heartbeat_timeout m.max_missed_heartbeats now h counted seen stale in
      (
        find-check_loop check i m.servers ∙ rw e (ap some one.0),
        rw cb (reports-check_loop check i m.servers v.sorted ∙ rw e one.1),
      )

  -- While a server heard before stays silent through every check of a run, each check adds one
  -- missed heartbeat; it is unhealthy from the check at which the count reaches the limit, and the
  -- callback gets it then, once.
  pub run_checks-silent :
      (m : HealthMonitor F) (times : List ℕ) (i : ℤ) (h : ServerHealth F)
      → IsValid m
      → m.unhealthy_cb ≡ true
      → find i m.servers ≡ some h
      → 0 < h.last_heartbeat
      → All (IsStale m.heartbeat_timeout h) times
      → (find i (run_checks m times).0.servers
          ≡ some (silent m.max_missed_heartbeats (length times) h))
        × (reports i (run_checks m times).1 ≡ crossings m.max_missed_heartbeats (length times) h)
  unfolding run_checks check_health
  run_checks-silent m [] i h v cb e seen stale =
      let counted : IsCounted m.max_missed_heartbeats h =
        All-find (λ x. IsCounted m.max_missed_heartbeats x.1) i m.servers h v.counted e in
      (e ∙ ground arith, ground arith)
  run_checks-silent m (now ∷ later) i h v cb e seen stale =
      let one = check_health_stale m now i h v cb e seen stale.0 in
      let limit = m.max_missed_heartbeats in
      let m' = (check_health m now).0 in
      let rest =
        run_checks-silent m' later i (silent limit 1 h) (check_health-IsValid m now v) cb one.0 seen
          stale.1 in
      (
        rest.0 ∙ ap some (silent-silent limit (length later) h),
        reports-append i (check_health m now).1 (run_checks m' later).1
            ∙ ap₂ ◌+◌ one.1 rest.1
            ∙ crossings-split limit (length later) h,
      )

  -- In a valid monitor, a check within the timeout of the last heartbeat of a known server leaves
  -- it as it is and does not report it.
  pub check_health_fresh :
      (m : HealthMonitor F) (now : ℕ) (i : ℤ) (h : ServerHealth F)
      → IsValid m
      → find i m.servers ≡ some h
      → seconds_between h.last_heartbeat now ≤ m.heartbeat_timeout
      → (find i (check_health m now).0.servers ≡ some h) × (reports i (check_health m now).1 ≡ 0)
  unfolding check_health
  check_health_fresh m now i h v e fresh =
      let check = check_entry m.heartbeat_timeout m.max_missed_heartbeats now in
      let one : check h ≡ (h, false) =
        check_entry_fresh m.heartbeat_timeout m.max_missed_heartbeats now h fresh in
      (
        find-check_loop check i m.servers ∙ rw e (ap (λ r. some r.0) one),
        elim (Bool-cases m.unhealthy_cb) [
          | inl cb ↦ rw cb (reports-check_loop check i m.servers v.sorted ∙ rw e (rw one))
          | inr cb ↦ rw cb
        ],
      )

  -- A heartbeat makes its server healthy with no missed heartbeats, leaves the others, and tells
  -- the recovery callback exactly if one is set and the server was known, heard from before, and
  -- unhealthy.
  pub record_heartbeat_lem :
      (z : F) (m : HealthMonitor F) (i : ℤ) (health : ServerHealth F) (now : ℕ)
      → ((j : ℤ)
          → find j (record_heartbeat z m i health now).0.servers
            ≡ (if eqb_ℤ i j then some (heartbeat_entry health now) else find j m.servers))
        × ((record_heartbeat z m i health now).1
            ≡ (if recovers i m then some (i, heartbeat_entry health now) else none))
  unfolding record_heartbeat
  record_heartbeat_lem z m i health now =
      (λ j. find-insert i j (heartbeat_entry health now) m.servers, ground arith)
