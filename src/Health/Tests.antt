-- ===== src/Health/Tests.antt =====
-- A monitor with a timeout of 60 seconds and a limit of two, and one server heard at second 1.
use distributed_file_grid.Prelude.{ℕ, ◌*◌, ◌≡◌, refl, true, false, List, [], ◌∷◌, some, arith}
use distributed_file_grid.Prelude.Int.{pos}
use distributed_file_grid.Prelude.Key.{bytes_key, ℤ_key}
use distributed_file_grid.Prelude.Map.{find, insert}
use distributed_file_grid.Prelude.Text.{str}
use distributed_file_grid.Health.{
  ServerHealth, HealthMonitor, run_checks, record_heartbeat, heartbeat_entry, default_health,
}
use distributed_file_grid.Health.Check.{reports}
use distributed_file_grid.Health.Detection.{IsValid, start, heard, Reach-IsValid, new_monitor}
use distributed_file_grid.Health.Reports.{silent, run_checks-silent}

abbrev second : ℕ
second = 1_000_000_000

abbrev beat : ServerHealth ℕ
beat = record (default_health 0) { server_id = pos 4; ip = str "10.0.0.4:8080" }

watched : HealthMonitor ℕ
unfolding record_heartbeat insert find
watched = (record_heartbeat 0 (new_monitor 60 2 true false) (pos 4) beat second).0

watched-IsValid : IsValid watched
unfolding watched
watched-IsValid =
    Reach-IsValid {z = 0} (heard (pos 4) beat second (start 60 2 true false (omega arith)))

abbrev silent_times : List ℕ
silent_times = 70 * second ∷ 80 * second ∷ 90 * second ∷ []

Reach-IsValid_example : IsValid watched
unfolding watched
Reach-IsValid_example =
    Reach-IsValid {z = 0} (heard (pos 4) beat second (start 60 2 true false (omega arith)))

run_checks-silent_example :
    (find (pos 4) (run_checks watched silent_times).0.servers
      ≡ some (silent 2 3 (heartbeat_entry beat second)))
    × (reports (pos 4) (run_checks watched silent_times).1 ≡ 1)
unfolding watched
run_checks-silent_example =
    run_checks-silent watched silent_times (pos 4) (heartbeat_entry beat second) watched-IsValid
      refl refl (omega arith) (omega arith)
