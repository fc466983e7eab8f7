-- ===== src/ZkMonitor.antt =====
-- The head servers as `ZooKeeperHeadServerMonitor` of src/zk_monitor/zk_monitor.cpp sees them: what it
-- reads from their nodes, and its health checks. Times are nanoseconds of the steady clock, and a round
-- of checks takes none; what std::stod reads and whether a connection succeeds within the three attempts
-- are arguments.
pub mod Freshness
pub mod Tests
use distributed_file_grid.Prelude.{
  ℕ, zero, suc, ◌+◌, ◌-◌, ◌*◌, ◌/◌, ◌%◌, ◌^◌, ◌≤◌, ◌<◌, ◌≡◌, refl, sym, ◌∙◌, ap, subst, ◌≢◌, ◌↔◌,
  ◌⊎◌, inl, inr, Bool, true, false, ◌&&◌, ◌||◌, not, List, [], ◌∷◌, ◌++◌, map, Option, none, some,
  arith, ltb, leb, ◌==◌, if◌then◌else◌, Bool-cases, Option-cases, &&-true, lt→ltb, ltb→lt, leb→le,
  ==_iff, Bool_eq_of_iff, length, take, drop, replicate, get_or, keep, count_if, any, find_if, All,
  length-append, length-take, length-drop, length-replicate, length-zero, take-append-drop,
  All-append, All-keep, All-mono, count_if-append, count_if-le-length, All-keep_test, String,
}
use distributed_file_grid.Prelude.Int.{ℤ, pos, negsuc, ltb_ℤ, eqb_ℤ}
use distributed_file_grid.Prelude.Key.{
  Key, Bytes, bytes_eq, bytes_lt, bytes_eq_iff, bytes_key, ℤ_key, eqb_ℤ_iff,
}
use distributed_file_grid.Prelude.Map.{
  Map, find, insert, erase, member, find_or, keys, values, find-insert, find-erase, same_refl,
  All-insert, All-erase, All-find,
}
use distributed_file_grid.Prelude.Text.{
  str, is_space, is_digit, digits, to_string, int_to_string, skip_ws, scan_digits, read_int,
  int_limit, long_limit, stoi, stoll, find_char, starts_with, find_sub, contains, substr, word_of,
  after_word, read_word,
}
use distributed_file_grid.Metadata.{is_empty}
use distributed_file_grid.Zookeeper.{Tree, get_node_data, get_children}

pub record HeadServerInfo (D : Type 0) : Type 0 where
  pub server_id : Bytes
  pub ip_address : Bytes
  pub port : ℤ
  pub last_heartbeat : ℤ
  pub last_health_check : ℕ
  pub is_leader : Bool
  pub status : Bytes
  pub cpu_usage : D
  pub memory_usage : D
  pub active_connections : ℤ

abbrev pub healthy_status : Bytes
healthy_status = str "healthy"

abbrev pub head_servers_path : Bytes
head_servers_path = str "/distributed_file_grid/head_servers"

-- std::getline(iss, token, ','), of which the first token is still being read.
unfoldable pub tokens : Bytes → Bytes → List Bytes
tokens [] [] = []
tokens (c ∷ token) [] = (c ∷ token) ∷ []
tokens token (c ∷ s) = if c == 44 then token ∷ tokens [] s else tokens (token ++ (c ∷ [])) s

-- A key and its value; a token without = has none.
abbrev key_value : Bytes → Option ℕ → Option (Bytes × Bytes)
key_value token none = none
key_value token (some i) = some (take i token, drop (suc i) token)

unfoldable pub split_token : Bytes → Option (Bytes × Bytes)
unfolding find_char
split_token token = key_value token (find_char 61 token)

module _ {D : Type 0} (stod : Bytes → Option D) (zero_double : D) where
  -- A port that is not in the data is never initialized, and 0 here.
  abbrev pub new_info : ℕ → HeadServerInfo D
  new_info now = record {
    server_id = [];
    ip_address = [];
    port = pos 0;
    last_heartbeat = pos 0;
    last_health_check = now;
    is_leader = false;
    status = str "unknown";
    cpu_usage = zero_double;
    memory_usage = zero_double;
    active_connections = pos 0;
  }

  abbrev set_port : HeadServerInfo D → Option ℤ → Option (HeadServerInfo D)
  set_port info none = none
  set_port info (some n) = some (record info { port = n })

  abbrev set_connections : HeadServerInfo D → Option ℤ → Option (HeadServerInfo D)
  set_connections info none = none
  set_connections info (some n) = some (record info { active_connections = n })

  abbrev set_heartbeat : HeadServerInfo D → Option ℤ → Option (HeadServerInfo D)
  set_heartbeat info none = none
  set_heartbeat info (some n) = some (record info { last_heartbeat = n })

  abbrev set_cpu : HeadServerInfo D → Option D → Option (HeadServerInfo D)
  set_cpu info none = none
  set_cpu info (some d) = some (record info { cpu_usage = d })

  abbrev set_memory : HeadServerInfo D → Option D → Option (HeadServerInfo D)
  set_memory info none = none
  set_memory info (some d) = some (record info { memory_usage = d })

  -- One token; `none` is the exception of a number that cannot be read.
  unfoldable pub set_field : HeadServerInfo D → Option (Bytes × Bytes) → Option (HeadServerInfo D)
  unfolding bytes_eq stoi stoll
  set_field info none = some info
  set_field info (some (key, value)) =
      if bytes_eq key (str "ip")
      then some (record info { ip_address = value })
      else if bytes_eq key (str "port")
      then set_port info (stoi value)
      else if bytes_eq key (str "status")
      then some (record info { status = value })
      else if bytes_eq key (str "cpu_usage")
      then set_cpu info (stod value)
      else if bytes_eq key (str "memory_usage")
      then set_memory info (stod value)
      else if bytes_eq key (str "active_connections")
      then set_connections info (stoi value)
      else if bytes_eq key (str "last_update")
      then set_heartbeat info (stoll value)
      else some info

  -- The tokens in their order.
  unfoldable pub set_fields : HeadServerInfo D → List Bytes → Option (HeadServerInfo D)
  unfolding set_field split_token
  set_fields info [] = some info
  set_fields info (token ∷ rest) = elim (set_field info (split_token token)) [
    | none ↦ none
    | some info' ↦ set_fields info' rest
  ]

  unfoldable pub parse_server_data : ℕ → Bytes → Option (HeadServerInfo D)
  unfolding set_fields tokens
  parse_server_data now server_data = set_fields (new_info now) (tokens [] server_data)

  -- The servers found, and whether all data could be read.
  unfoldable pub discover_from :
      Tree → ℕ → Map Bytes (HeadServerInfo D) → List Bytes → Map Bytes (HeadServerInfo D) × Bool
  unfolding get_node_data parse_server_data
  discover_from t now servers [] = (servers, true)
  discover_from t now servers (name ∷ rest) =
      let server_data = get_node_data t (head_servers_path ++ (47 ∷ name)) in
      elim (is_empty server_data) [
        | true ↦ discover_from t now servers rest
        | false ↦ elim (parse_server_data now server_data) [
          | none ↦ (servers, false)
          | some info ↦
              discover_from t now (insert name (record info { server_id = name }) servers) rest
        ]
      ]

  unfoldable pub discover_head_servers : Tree → ℕ → Map Bytes (HeadServerInfo D) × Bool
  unfolding discover_from get_children
  discover_head_servers t now = discover_from t now [] (get_children t head_servers_path)

abbrev pub five_seconds : ℕ
five_seconds = 5000000000

-- The counts of failures live as long as the process.
pub record Checked (D : Type 0) : Type 0 where
  pub info : HeadServerInfo D
  pub failure_counts : Map Bytes ℕ
  pub healthy : Bool

module _ {D : Type 0} (connects : Bytes → ℤ → Bool) where
  abbrev server_key : HeadServerInfo D → Bytes
  server_key info = info.server_id ++ (58 ∷ (info.ip_address ++ (58 ∷ int_to_string info.port)))

  unfoldable pub check_head_server_health : ℕ → Map Bytes ℕ → HeadServerInfo D → Checked D
  unfolding bytes_eq int_to_string
  check_head_server_health now failure_counts info =
      let key = server_key info in
      let failures = suc (find_or 0 key failure_counts) in
      if ltb (now - info.last_health_check) five_seconds && bytes_eq info.status healthy_status
      then record { info = info; failure_counts = failure_counts; healthy = true }
      else if connects info.ip_address info.port
      then record {
        info = record info { last_health_check = now };
        failure_counts = insert key 0 failure_counts;
        healthy = true;
      }
      else record {
        info = if leb 3 failures then record info { status = str "unhealthy" } else info;
        failure_counts = insert key failures failure_counts;
        healthy = false;
      }

  -- The health checks of a round, with the number of healthy servers.
  unfoldable pub check_servers :
      ℕ
      → Map Bytes ℕ
      → Map Bytes (HeadServerInfo D)
      → Map Bytes (HeadServerInfo D) × (Map Bytes ℕ × ℕ)
  unfolding check_head_server_health
  check_servers now failure_counts [] = ([], (failure_counts, 0))
  check_servers now failure_counts ((server_id, info) ∷ rest) =
      let checked = check_head_server_health now failure_counts info in
      let status = if checked.healthy then healthy_status else str "unhealthy" in
      let (others, (counts, healthy_count)) = check_servers now checked.failure_counts rest in
      (
        (server_id, record (checked.info) { status = status }) ∷ others,
        (counts, (if checked.healthy then 1 else 0) + healthy_count),
      )
