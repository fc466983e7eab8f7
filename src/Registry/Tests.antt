-- ===== src/Registry/Tests.antt =====
-- Two registered servers, and the registry theorems at them.
use distributed_file_grid.Prelude.{◌≡◌, refl, List, [], ◌∷◌, Option, none, some}
use distributed_file_grid.Prelude.Int.{pos}
use distributed_file_grid.Prelude.Key.{bytes_eq, Bytes, bytes_key, ℤ_key}
use distributed_file_grid.Prelude.Map.{insert}
use distributed_file_grid.Prelude.Text.{stoi, find_char, str}
use distributed_file_grid.Registry.{
  Registry, empty, add_server, set_next_id, get_addresses, load_from_config,
}
use distributed_file_grid.Registry.Invariant.{
  IsConsistent, Reach, start, added, counter_set, Reach-IsConsistent,
}
use distributed_file_grid.Address.{format_address}

one_server : Registry
unfolding add_server
one_server = (add_server empty (str "10.0.0.1") (pos 8080) (pos 8180) (pos 8280) 5).registry

two_servers : Registry
unfolding one_server add_server
two_servers = (add_server one_server (str "10.0.0.2") (pos 8080) (pos 8181) (pos 8281) 6).registry

two_servers-Reach : Reach two_servers
unfolding two_servers
two_servers-Reach =
    added (str "10.0.0.2") (pos 8080) (pos 8181) (pos 8281) 6
      (added (str "10.0.0.1") (pos 8080) (pos 8180) (pos 8280) 5 start)

abbrev ap_addresses : Option Registry → List Bytes
ap_addresses none = []
ap_addresses (some r) = get_addresses r

load_from_config_runs :
    ap_addresses
      (load_from_config empty (str "10.0.0.1:8080" ∷ str "bad" ∷ str "10.0.0.2:9" ∷ []) 3)
    ≡ str "10.0.0.1:8080" ∷ str "10.0.0.2:9" ∷ []
unfolding load_from_config get_addresses find_char stoi add_server insert bytes_eq format_address
load_from_config_runs = refl

load_from_config_throws : load_from_config empty (str "10.0.0.1:http" ∷ []) 3 ≡ none
unfolding load_from_config find_char stoi
load_from_config_throws = refl

-- The counter is set back, so that the next server replaces the second one.
replaced : Registry
unfolding two_servers add_server set_next_id
replaced =
    (add_server (set_next_id two_servers (pos 2)) (str "10.0.0.3") (pos 8080) (pos 8182) (pos 8282)
      7).registry

replaced_runs : get_addresses replaced ≡ str "10.0.0.1:8080" ∷ str "10.0.0.3:8080" ∷ []
unfolding replaced get_addresses bytes_eq insert format_address
replaced_runs = refl

Reach-IsConsistent_example : IsConsistent replaced
unfolding replaced
Reach-IsConsistent_example = Reach-IsConsistent (
    added (str "10.0.0.3") (pos 8080) (pos 8182) (pos 8282) 7
      (counter_set (pos 2) two_servers-Reach))
