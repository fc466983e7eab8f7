-- ===== src/ControlApi.antt =====
-- The HTTP control API of src/head_server/control_api.hpp, from the bytes of a request to the answer
-- and the new state. A handler runs to its end before the next request is accepted. The calls over
-- the network and the restart of the process are `Effect`s of the reply; `show_float` is the
-- stream's way to print a `float`.
pub mod Json
pub mod Restart
pub mod Routes
pub mod Servers
pub mod Tests
use distributed_file_grid.Prelude.{
  ℕ, zero, suc, ◌+◌, ◌-◌, ◌*◌, ◌/◌, ◌%◌, ◌^◌, ◌≤◌, ◌<◌, ◌≡◌, refl, sym, ◌∙◌, ap, subst, ◌≢◌, ◌↔◌,
  ◌⊎◌, inl, inr, Bool, true, false, ◌&&◌, ◌||◌, not, List, [], ◌∷◌, ◌++◌, map, Option, none, some,
  arith, ltb, leb, ◌==◌, if◌then◌else◌, Bool-cases, Option-cases, &&-true, lt→ltb, ltb→lt, leb→le,
  ==_iff, Bool_eq_of_iff, length, take, drop, replicate, get_or, keep, count_if, any, find_if, All,
  length-append, length-take, length-drop, length-replicate, take-append-drop, All-append, All-keep,
  All-mono, count_if-append, count_if-le-length, All-keep_test, String,
}
use distributed_file_grid.Prelude.Int.{ℤ, pos, negsuc, ltb_ℤ, eqb_ℤ, int_suc}
use distributed_file_grid.Prelude.Key.{
  Key, Bytes, bytes_eq, bytes_lt, bytes_eq_iff, bytes_key, ℤ_key, eqb_ℤ_iff,
}
use distributed_file_grid.Prelude.Map.{
  Map, find, insert, erase, member, find_or, keys, values, find-insert, find-erase, same_refl,
  All-insert, All-erase, All-find,
}
use distributed_file_grid.Prelude.Text.{
  str, is_space, is_digit, digits, to_string, int_to_string, skip_ws, scan_digits, read_int,
  int_limit, long_limit, stoi, stoll, find_char, starts_with, find_sub, substr, word_of, after_word,
  read_word,
}
use mathlib.Core.List.{append-nil}
use distributed_file_grid.Address.{format_address}
use distributed_file_grid.Registry.{
  ServerEntry, Registry, address, add_server, remove_server, get_all, set_next_id, count,
}
use distributed_file_grid.Health.{
  ServerHealth, HealthMonitor, get_all_health, register_server, deregister_server,
}
use distributed_file_grid.Metadata.{is_empty, is_positive}
use distributed_file_grid.ControlApi.Json.{extract_json_string, extract_json_int}

pub data Effect : Type 0 where
  restart_node : Bytes → ℤ → Effect
  restart_head : Effect

pub record Control (F : Type 0) : Type 0 where
  pub registry : Registry
  pub health : HealthMonitor F

pub record Reply (F : Type 0) : Type 0 where
  pub state : Control F
  pub response : Bytes
  pub effects : List Effect

abbrev status_text : ℕ → Bytes
status_text code =
    if code == 200
    then str "OK"
    else if code == 201
    then str "Created"
    else if code == 400
    then str "Bad Request"
    else if code == 404
    then str "Not Found"
    else str "Error"

abbrev crlf : Bytes
crlf = 13 ∷ 10 ∷ []

unfoldable pub make_response : ℕ → Bytes → Bytes
make_response code body =
    str "HTTP/1.1 "
    ++ (to_string code
        ++ (str " "
            ++ (status_text code
                ++ (crlf
                    ++ (str "Content-Type: application/json"
                        ++ (crlf
                            ++ (str "Content-Length: "
                                ++ (to_string (length body)
                                    ++ (crlf
                                        ++ (str "Connection: close"
                                            ++ (crlf ++ (crlf ++ body))))))))))))

abbrev pub not_found : Bytes
not_found = make_response 404 (str "{\"error\":\"Not found\"}")

abbrev pub no_server : Bytes
no_server = make_response 404 (str "{\"error\":\"Server not found\"}")

abbrev pub invalid_id : Bytes
invalid_id = make_response 400 (str "{\"error\":\"Invalid server ID\"}")

abbrev pub missing_field : Bytes
missing_field = make_response 400 (str "{\"error\":\"Missing host or port\"}")

abbrev bool_text : Bool → Bytes
bool_text b = if b then str "true" else str "false"

-- The fields of a registration.
pub record Registration : Type 0 where
  pub server_id : ℤ
  pub host : Bytes
  pub port : ℤ
  pub transfer_port : ℤ
  pub public_port : ℤ

unfoldable pub read_registration : Bytes → Registration
unfolding extract_json_string extract_json_int
read_registration body = record {
  server_id = extract_json_int body (str "server_id");
  host = extract_json_string body (str "host");
  port = extract_json_int body (str "port");
  transfer_port = extract_json_int body (str "transfer_port");
  public_port = extract_json_int body (str "public_port");
}

-- registry_.set_next_id(std::max(server_id + 1, registry_.count() + 1)), for a positive id. At 2^31 - 1
-- the addition is undefined behaviour in C++; here it wraps round, and no theorem is about that id.
unfoldable pub claim_id : Registry → ℤ → Registry
unfolding set_next_id count
claim_id r (pos zero) = r
claim_id r (pos (suc n)) =
    let by_id = int_suc (pos (suc n)) in
    let by_count = pos (count r + 1) in
    set_next_id r (if ltb_ℤ by_id by_count then by_count else by_id)
claim_id r (negsuc n) = r

abbrev pub created : ℤ → Bytes → ℤ → Bytes
created i host port = make_response 201 (
    str "{\"id\":"
    ++ (int_to_string i
        ++ (str ",\"host\":\""
            ++ (host
                ++ (str "\",\"port\":" ++ (int_to_string port ++ str ",\"status\":\"active\"}"))))))

module _ {F : Type 0} where
  abbrev pub same : Control F → Bytes → Reply F
  same s response = record { state = s; response = response; effects = [] }

  -- The server in the registry and in the health monitor, and its id.
  unfoldable pub enroll : F → Control F → Registry → Registration → ℕ → Control F × ℤ
  unfolding add_server register_server format_address
  enroll zero_float s r reg now =
      let added = add_server r reg.host reg.port reg.transfer_port reg.public_port now in
      (
        record {
          registry = added.registry;
          health =
              register_server zero_float s.health added.id (format_address reg.host reg.port) now;
        },
        added.id,
      )

  unfoldable pub handle_add_server : F → Control F → ℕ → Registration → Reply F
  unfolding enroll make_response
  handle_add_server zero_float s now reg =
      if is_empty reg.host || not (is_positive reg.port)
      then same s missing_field
      else let (s', i) = enroll zero_float s s.registry reg now in
        same s' (created i reg.host reg.port)

  unfoldable pub handle_self_register : F → Control F → ℕ → Registration → Reply F
  unfolding enroll make_response claim_id
  handle_self_register zero_float s now reg =
      if is_empty reg.host || not (is_positive reg.port)
      then same s missing_field
      else let (s', i) = enroll zero_float s (claim_id s.registry reg.server_id) reg now in
        same s'
          (make_response 200 (str "{\"id\":" ++ (int_to_string i ++ str ",\"registered\":true}")))

  abbrev removal : Control F → ℤ → Registry → Bool → Reply F
  removal s i r removed =
      if removed
      then same (record { registry = r; health = deregister_server s.health i })
          (make_response 200 (str "{\"removed\":true,\"id\":" ++ (int_to_string i ++ str "}")))
      else same s no_server

  abbrev remove_by : Control F → Option ℤ → Reply F
  remove_by s none = same s invalid_id
  remove_by s (some i) = removal s i (remove_server s.registry i).0 (remove_server s.registry i).1

  unfoldable pub handle_remove_server : Control F → Bytes → Reply F
  unfolding remove_server deregister_server make_response stoi
  handle_remove_server s id_str = remove_by s (stoi id_str)

  module _ (show_float : F → Bytes) where
    abbrev health_text : ℤ → Option (ServerHealth F) → Bytes
    health_text i none =
        make_response 404 (str "{\"error\":\"Server not found\",\"healthy\":false}")
    health_text i (some h) = make_response 200 (
        str "{\"id\":"
        ++ (int_to_string i
            ++ (str ",\"ip\":\""
                ++ (h.ip
                    ++ (str "\""
                        ++ (str ",\"healthy\":"
                            ++ (bool_text h.is_healthy
                                ++ (str ",\"missed_heartbeats\":"
                                    ++ (to_string h.missed_heartbeats
                                        ++ (str ",\"cpu\":"
                                            ++ (show_float h.cpu_usage
                                                ++ (str ",\"ram\":"
                                                    ++ (show_float h.ram_usage
                                                        ++ (str ",\"disk\":"
                                                            ++ (show_float h.disk_usage
                                                            ++ str "}")))))))))))))))

    abbrev health_by : Control F → Option ℤ → Bytes
    health_by s none = invalid_id
    health_by s (some i) = health_text i (find i (get_all_health s.health))

    unfoldable pub handle_server_health : Control F → Bytes → Reply F
    unfolding stoi get_all_health make_response
    handle_server_health s id_str = same s (health_by s (stoi id_str))

    abbrev usage_text : Option (ServerHealth F) → Bytes
    usage_text none = []
    usage_text (some h) =
        str ",\"cpu\":"
        ++ (show_float h.cpu_usage
            ++ (str ",\"ram\":"
                ++ (show_float h.ram_usage
                    ++ (str ",\"disk\":"
                        ++ (show_float h.disk_usage
                            ++ (str ",\"healthy\":" ++ bool_text h.is_healthy))))))

    abbrev server_text : Map ℤ (ServerHealth F) → ServerEntry → Bytes
    server_text health e =
        str "{\"id\":"
        ++ (int_to_string e.id
            ++ (str ",\"host\":\""
                ++ (e.host
                    ++ (str "\""
                        ++ (str ",\"port\":"
                            ++ (int_to_string e.port
                                ++ (str ",\"status\":\""
                                    ++ (e.status
                                        ++ (str "\""
                                            ++ (usage_text (find e.id health) ++ str "}"))))))))))

    unfoldable pub servers_text : Map ℤ (ServerHealth F) → List ServerEntry → Bytes
    servers_text health [] = []
    servers_text health (e ∷ rest) =
        server_text health e ++ elim rest [ [] ↦ [] | x ∷ xs ↦ b',' ∷ servers_text health rest ]

    unfoldable pub handle_list_servers : Control F → Reply F
    unfolding servers_text get_all get_all_health make_response
    handle_list_servers s =
        let servers = get_all s.registry in
        same s (
          make_response 200 (
            str "{\"servers\":["
            ++ (servers_text (get_all_health s.health) servers
                ++ (str "],\"total\":" ++ (to_string (length servers) ++ str "}")))))

  abbrev pub healthy_entry : ℤ × ServerHealth F → Bool
  healthy_entry e = e.1.is_healthy

  abbrev pub unhealthy_entry : ℤ × ServerHealth F → Bool
  unhealthy_entry e = not e.1.is_healthy

  unfoldable pub handle_status : Control F → Reply F
  unfolding get_all get_all_health make_response
  handle_status s =
      let health = get_all_health s.health in
      let unhealthy = count_if unhealthy_entry health in
      same s (
        make_response 200 (
          str "{\"total_servers\":"
          ++ (to_string (length (get_all s.registry))
              ++ (str ",\"healthy\":"
                  ++ (to_string (count_if healthy_entry health)
                      ++ (str ",\"unhealthy\":"
                          ++ (to_string unhealthy
                              ++ (str ",\"status\":\""
                                  ++ ((if unhealthy == 0 then str "OK" else str "DEGRADED")
                                      ++ (str "\"" ++ str "}"))))))))))
