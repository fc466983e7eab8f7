-- ===== src/ControlApi/Restart.antt =====
-- The restarts over the control API of src/head_server/control_api.hpp. Whether a connection to a host
-- and port succeeds is the first argument.
use distributed_file_grid.Prelude.{
  Bool, [], ◌∷◌, ◌++◌, map, Option, none, some, if◌then◌else◌, length, keep, find_if,
}
use distributed_file_grid.Prelude.Int.{ℤ, eqb_ℤ}
use distributed_file_grid.Prelude.Key.{Bytes, bytes_key, ℤ_key}
use distributed_file_grid.Prelude.Text.{str, to_string, int_to_string, stoi}
use distributed_file_grid.Registry.{ServerEntry, get_all}
use distributed_file_grid.ControlApi.{
  restart_node, restart_head, Control, Reply, same, no_server, invalid_id, make_response,
}

abbrev reachable : (Bytes → ℤ → Bool) → ServerEntry → Bool
reachable connects e = connects e.host e.port

module _ {F : Type 0} where
  abbrev restart_found : (Bytes → ℤ → Bool) → Control F → ℤ → Option ServerEntry → Reply F
  restart_found connects s i none = same s no_server
  restart_found connects s i (some e) =
      if connects e.host e.port
      then record {
        state = s;
        response =
            make_response 200 (str "{\"restarted_cluster_id\":" ++ (int_to_string i ++ str "}"));
        effects = restart_node e.host e.port ∷ [];
      }
      else same s (make_response 500 (str "{\"error\":\"Could not connect to cluster server\"}"))

  abbrev restart_by : (Bytes → ℤ → Bool) → Control F → Option ℤ → Reply F
  restart_by connects s none = same s invalid_id
  restart_by connects s (some i) =
      restart_found connects s i (find_if (λ e. eqb_ℤ e.id i) (get_all s.registry))

  unfoldable pub handle_restart_cluster_node : (Bytes → ℤ → Bool) → Control F → Bytes → Reply F
  unfolding stoi get_all make_response
  handle_restart_cluster_node connects s id_str = restart_by connects s (stoi id_str)

  unfoldable pub handle_restart_all : (Bytes → ℤ → Bool) → Control F → Reply F
  unfolding get_all make_response
  handle_restart_all connects s =
      let restarted = keep (reachable connects) (get_all s.registry) in
      record {
        state = s;
        response = make_response 200 (
            str "{\"restarted_clusters\":"
            ++ (to_string (length restarted) ++ str ",\"head_server_restarting\":true}"));
        effects = map (λ e. restart_node e.host e.port) restarted ++ (restart_head ∷ []);
      }

  unfoldable pub handle_restart_head : Control F → Reply F
  unfolding make_response
  handle_restart_head s = record {
    state = s;
    response = make_response 200 (str "{\"head_server_restarting\":true}");
    effects = restart_head ∷ [];
  }
