-- ===== src/ZkMonitor/Tests.antt =====
-- The monitor with one head server.
use distributed_file_grid.Prelude.{
  ℕ, ◌+◌, ◌≡◌, refl, Bool, true, false, [], ◌∷◌, ◌++◌, Option, none, some, arith,
}
use distributed_file_grid.Prelude.Int.{ℤ, pos}
use distributed_file_grid.Prelude.Key.{Bytes, bytes_key, ℤ_key}
use distributed_file_grid.Prelude.Map.{find, insert}
use distributed_file_grid.Prelude.Text.{str}
use distributed_file_grid.Zookeeper.{Tree, new_node}
use distributed_file_grid.ZkMonitor.{
  HeadServerInfo, healthy_status, head_servers_path, five_seconds, discover_head_servers,
  check_head_server_health, check_servers,
}
use distributed_file_grid.ZkMonitor.Freshness.{discover-check}

abbrev no_doubles : Bytes → Option ℕ
no_doubles text = none

abbrev unreachable : Bytes → ℤ → Bool
unreachable ip port = false

abbrev one_head : Tree
one_head = record {
  nodes =
      (head_servers_path, record new_node { children = (str "h1", tt) ∷ [] })
      ∷ (
        head_servers_path ++ str "/h1",
        record new_node { content = str "ip=10.0.0.1,port=9669,status=healthy" },
      )
      ∷ [];
  counters = [];
}

abbrev h1 : HeadServerInfo ℕ
h1 = record {
  server_id = str "h1";
  ip_address = str "10.0.0.1";
  port = pos 9669;
  last_heartbeat = pos 0;
  last_health_check = 100;
  is_leader = false;
  status = healthy_status;
  cpu_usage = 0;
  memory_usage = 0;
  active_connections = pos 0;
}

discover_test : find (str "h1") (discover_head_servers no_doubles 0 one_head 100).0 ≡ some h1
unfolding discover_head_servers find insert
discover_test = refl

-- Once the five seconds are over, it counts as unhealthy.
check_test : (check_servers unreachable (100 + five_seconds) [] ((str "h1", h1) ∷ [])).1.1 ≡ 0
unfolding check_servers
check_test = refl

discover-check_example :
    (h1.is_leader ≡ false) × ((check_head_server_health unreachable 200 [] h1).healthy ≡ true)
discover-check_example =
    discover-check no_doubles 0 100 one_head (str "h1") h1 200 unreachable [] discover_test refl
      (omega arith)
