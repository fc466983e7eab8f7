-- ===== src/ControlApi/Tests.antt =====
-- The control API of a head server without servers.
use distributed_file_grid.Prelude.{
  ℕ, ◌≡◌, refl, Bool, true, [], ◌∷◌, ◌++◌, some, arith, if◌then◌else◌,
}
use distributed_file_grid.Prelude.Int.{ℤ, pos, eqb_ℤ}
use distributed_file_grid.Prelude.Key.{Bytes, bytes_eq, bytes_key, ℤ_key}
use distributed_file_grid.Prelude.Map.{find, member}
use distributed_file_grid.Prelude.Text.{str, to_string, find_sub}
use distributed_file_grid.Registry.{count, empty, new_entry}
use distributed_file_grid.Registry.Invariant.{start, Reach-IsConsistent}
use distributed_file_grid.Health.Detection.{new_monitor}
use distributed_file_grid.ControlApi.{
  Control, Registration, same, invalid_id, created, handle_add_server, handle_self_register,
  make_response, read_registration,
}
use distributed_file_grid.ControlApi.Routes.{
  route, cluster_prefix, handle_request, route-delete, route-health,
}
use distributed_file_grid.ControlApi.Servers.{
  IsEnrolled, handle_add_server_lem, handle_self_register_lem,
}

abbrev no_servers : Control ℕ
no_servers = record { registry = empty; health = new_monitor 60 3 true true }

abbrev node : Registration
node = record {
  server_id = pos 1;
  host = str "10.0.0.4";
  port = pos 8080;
  transfer_port = pos 8180;
  public_port = pos 0;
}

abbrev up : Bytes → ℤ → Bool
up host port = true

-- The server says that it is number 1 and is told that it is number 2.
self_register_runs :
    (handle_request 0 to_string up no_servers 7 (
      str
        "POST /api/v1/servers/cluster/register HTTP/1.1\r\n\r\n{\"server_id\":1,\"host\":\"10.0.0.4\",\"port\":8080}")).response
    ≡ make_response 200 (str "{\"id\":2,\"registered\":true}")
unfolding handle_request make_response bytes_eq handle_self_register read_registration
self_register_runs = refl

route-delete_example :
    route 0 to_string up no_servers 7 (str "DELETE") (cluster_prefix ++ str "1") []
    ≡ same no_servers invalid_id
route-delete_example = route-delete 0 to_string up no_servers 7 (str "1") []

route-health_example :
    route 0 to_string up no_servers 7 (str "GET") (cluster_prefix ++ str "1/health") []
    ≡ same no_servers invalid_id
unfolding find_sub
route-health_example = route-health 0 to_string up no_servers 7 25 (str "1/health") [] refl

handle_add_server_lem_example :
    (i : ℤ) × IsEnrolled 0 no_servers (handle_add_server 0 no_servers 7 node).state node 7 i
    × ((handle_add_server 0 no_servers 7 node).response ≡ created i (str "10.0.0.4") (pos 8080))
handle_add_server_lem_example = handle_add_server_lem 0 no_servers 7 node (Reach-IsConsistent start)

-- The server that held number 2 is replaced by the one that says it is number 1.
abbrev held_two : Control ℕ
held_two = record no_servers {
  registry = record {
    servers = (pos 2, new_entry (pos 2) (str "10.0.0.9") (pos 8080) (pos 0) (pos 0) 3) ∷ [];
    next_id = pos 3;
  };
}

handle_self_register_lem_example :
    ((j : ℤ)
      → find j (handle_self_register 0 held_two 7 node).state.registry.servers ≡ (
          if eqb_ℤ (pos 2) j
          then some (new_entry (pos 2) (str "10.0.0.4") (pos 8080) (pos 8180) (pos 0) 7)
          else find j held_two.registry.servers))
    × (member (pos 2) held_two.health.servers ≡ true
        → (handle_self_register 0 held_two 7 node).state.health ≡ held_two.health)
unfolding bytes_eq count
handle_self_register_lem_example =
    handle_self_register_lem 0 held_two 7 0 node refl (omega arith) refl refl (omega arith)
