-- ===== src/HealthChecker/Tests.antt =====
-- The health checker at a concrete run.
use distributed_file_grid.Prelude.{ℕ, ◌≡◌, refl, false, [], arith}
use distributed_file_grid.Prelude.Int.{pos}
use distributed_file_grid.Prelude.Key.{bytes_eq, bytes_key, ℤ_key}
use distributed_file_grid.Prelude.Map.{find, insert}
use distributed_file_grid.Prelude.Text.{str}
use distributed_file_grid.Zookeeper.{Client, initial}
use distributed_file_grid.HealthChecker.{
  HealthChecker, check_server_health, process_heartbeat, get_healthy_servers,
}
use distributed_file_grid.HealthChecker.Recovery.{
  IsSound, begin, checked, heard, started, Reach-IsSound,
}

abbrev offline : Client
offline = record { hosts = str "zk:2181"; connected = false }

abbrev heard_once : HealthChecker ℕ
heard_once = process_heartbeat (pos 1) (str "10.0.0.1") 50 100 (started 1 60 offline)

-- A server that falls silent, and its check at the limit.
abbrev silent : HealthChecker ℕ
silent = (check_server_health [] initial 200 heard_once).0

silent_test : (get_healthy_servers silent ≡ []) × (silent.servers_marked_unhealthy ≡ 1)
unfolding process_heartbeat check_server_health get_healthy_servers insert find bytes_eq
silent_test = (refl, refl)

Reach-IsSound_example : IsSound silent 200
Reach-IsSound_example = Reach-IsSound (
    checked [] initial 200
      (heard (pos 1) (str "10.0.0.1") 50 100 (begin 1 60 0 offline) (omega arith)) (omega arith))
