-- ===== src/Health.antt =====
-- `HealthMonitor` of src/common/include/dfg/health_monitor.hpp, which the head server embeds. The
-- mutex makes each method one step. Times are the steady clock's ticks of a nanosecond, with 0 for a
-- default-constructed time point. A method returns the calls of the callback that it makes after it
-- has released the lock. Measurements are carried along unread; the console output is left out.
pub mod Check
pub mod Detection
pub mod Reports
pub mod Tests
use distributed_file_grid.Prelude.{
  ℕ, zero, suc, ◌+◌, ◌-◌, ◌*◌, ◌/◌, ◌%◌, ◌^◌, ◌≤◌, ◌<◌, ◌≡◌, refl, sym, ◌∙◌, ap, subst, ◌≢◌, ◌↔◌,
  ◌⊎◌, inl, inr, Bool, true, false, ◌&&◌, ◌||◌, not, List, [], ◌∷◌, ◌++◌, map, Option, none, some,
  arith, ltb, leb, ◌==◌, if◌then◌else◌, Bool-cases, Option-cases, &&-true, lt→ltb, ltb→lt, leb→le,
  ==_iff, Bool_eq_of_iff, length, take, drop, replicate, get_or, keep, count_if, any, find_if, All,
  length-append, length-take, length-drop, length-replicate, take-append-drop, All-append, All-keep,
  All-mono, count_if-append, count_if-le-length, All-keep_test, String,
}
use distributed_file_grid.Prelude.Int.{ℤ, pos, negsuc, ltb_ℤ, eqb_ℤ}
use distributed_file_grid.Prelude.Key.{
  Key, Bytes, bytes_eq, bytes_lt, bytes_eq_iff, bytes_key, ℤ_key, eqb_ℤ_iff,
}
use distributed_file_grid.Prelude.Map.{
  Map, find, insert, erase, member, find_or, keys, values, find-insert, find-erase, same_refl,
  All-insert, All-erase, All-find,
}
use distributed_file_grid.Prelude.Text.{
  str, is_space, is_digit, digits, to_string, int_to_string, skip_ws, scan_digits, read_int,
  int_limit, long_limit, stoi, stoll, find_char, starts_with, find_sub, substr, word_of, after_word,
  read_word,
}

pub record ServerHealth (F : Type 0) : Type 0 where
  pub server_id : ℤ
  pub ip : Bytes
  pub cpu_usage : F
  pub ram_usage : F
  pub disk_usage : F
  pub network_in : Bytes
  pub network_out : Bytes
  pub network_in_bps : ℕ
  pub network_out_bps : ℕ
  pub is_healthy : Bool
  pub last_heartbeat : ℕ
  pub missed_heartbeats : ℕ

abbrev pub default_health : {F : Type 0} → F → ServerHealth F
default_health zero_float = record {
  server_id = pos 0;
  ip = [];
  cpu_usage = zero_float;
  ram_usage = zero_float;
  disk_usage = zero_float;
  network_in = [];
  network_out = [];
  network_in_bps = 0;
  network_out_bps = 0;
  is_healthy = true;
  last_heartbeat = 0;
  missed_heartbeats = 0;
}

-- The two flags say whether a callback is set.
pub record HealthMonitor (F : Type 0) : Type 0 where
  pub servers : Map ℤ (ServerHealth F)
  pub heartbeat_timeout : ℕ
  pub max_missed_heartbeats : ℕ
  pub unhealthy_cb : Bool
  pub recovered_cb : Bool

-- std::chrono::duration_cast<seconds>(now - then)
abbrev pub seconds_between : ℕ → ℕ → ℕ
seconds_between since now = (now - since) / 1_000_000_000

abbrev pub Call : Type 0 → Type 0
Call F = ℤ × ServerHealth F

module _ {F : Type 0} where
  abbrev pub heartbeat_entry : ServerHealth F → ℕ → ServerHealth F
  heartbeat_entry h now = record h {
    is_healthy = true;
    missed_heartbeats = 0;
    last_heartbeat = now;
  }

  abbrev pub was_unhealthy : ServerHealth F → Bool
  was_unhealthy h = not h.is_healthy && not (h.last_heartbeat == 0)

  -- The monitor, and the call of the recovery callback.
  unfoldable pub record_heartbeat :
      F → HealthMonitor F → ℤ → ServerHealth F → ℕ → HealthMonitor F × Option (Call F)
  record_heartbeat zero_float m server_id health now = (
    record m { servers = insert server_id (heartbeat_entry health now) m.servers },
    if was_unhealthy (find_or (default_health zero_float) server_id m.servers) && m.recovered_cb
        then some (server_id, heartbeat_entry health now)
        else none,
  )

  -- One round of the loop of `check_health`: the entry, and whether it has just become unhealthy.
  unfoldable pub check_entry : ℕ → ℕ → ℕ → ServerHealth F → ServerHealth F × Bool
  check_entry timeout max_missed now h =
      if h.last_heartbeat == 0
      then (h, false)
      else if ltb timeout (seconds_between h.last_heartbeat now)
      then (let missed = suc h.missed_heartbeats in
          if h.is_healthy && leb max_missed missed
          then (record h { missed_heartbeats = missed; is_healthy = false }, true)
          else (record h { missed_heartbeats = missed }, false))
      else (h, false)

  -- The loop: the entries, and those that the callback gets, in the order of the ids.
  unfoldable pub check_loop :
      (ServerHealth F → ServerHealth F × Bool)
      → Map ℤ (ServerHealth F)
      → Map ℤ (ServerHealth F) × List (Call F)
  check_loop check [] = ([], [])
  check_loop check ((i, h) ∷ rest) =
      let (h', newly) = check h in
      let (rest', calls) = check_loop check rest in
      ((i, h') ∷ rest', if newly then (i, h') ∷ calls else calls)

  -- The monitor, and the calls of the callback.
  unfoldable pub check_health : HealthMonitor F → ℕ → HealthMonitor F × List (Call F)
  unfolding check_loop
  check_health m now =
      let (servers', calls) =
        check_loop (check_entry m.heartbeat_timeout m.max_missed_heartbeats now) m.servers in
      (record m { servers = servers' }, if m.unhealthy_cb then calls else [])

  unfoldable pub get_all_health : HealthMonitor F → Map ℤ (ServerHealth F)
  get_all_health m = m.servers

  unfoldable pub healthy_count : HealthMonitor F → ℕ
  healthy_count m = count_if (λ h. h.is_healthy) (values m.servers)

  unfoldable pub total_count : HealthMonitor F → ℕ
  total_count m = length m.servers

  abbrev pub registered : F → ℤ → Bytes → ℕ → ServerHealth F
  registered zero_float server_id ip now = record (default_health zero_float) {
    server_id = server_id;
    ip = ip;
    is_healthy = true;
    last_heartbeat = now;
  }

  -- A server that is known already stays as it is.
  unfoldable pub register_server : F → HealthMonitor F → ℤ → Bytes → ℕ → HealthMonitor F
  register_server zero_float m server_id ip now =
      if member server_id m.servers then m else record m {
        servers = insert server_id (registered zero_float server_id ip now) m.servers;
      }

  unfoldable pub deregister_server : HealthMonitor F → ℤ → HealthMonitor F
  deregister_server m server_id = record m { servers = erase server_id m.servers }

  -- `health_check_thread` of src/head_server/head_server.cpp: a check at each of the given times.
  -- All the calls of the callback, in order.
  unfoldable pub run_checks : HealthMonitor F → List ℕ → HealthMonitor F × List (Call F)
  run_checks m [] = (m, [])
  run_checks m (now ∷ later) =
      let (m', calls) = check_health m now in
      let (m'', more) = run_checks m' later in (m'', calls ++ more)
