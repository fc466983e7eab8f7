-- ===== src/ConfigLoader.antt =====
-- The configuration of src/common/include/dfg/config_loader.hpp: a map of dotted keys, read from a JSON
-- file and overridden by the environment. The environment and the content of a file are arguments.
pub mod Parser
pub mod Stray
pub mod Printing
pub mod Reload
pub mod Tests
use distributed_file_grid.Prelude.{
  ℕ, zero, suc, ◌+◌, ◌-◌, ◌*◌, ◌/◌, ◌%◌, ◌^◌, ◌≤◌, ◌<◌, ◌≡◌, refl, sym, ◌∙◌, ap, subst, ◌≢◌, ◌↔◌,
  ◌⊎◌, inl, inr, Bool, true, false, ◌&&◌, ◌||◌, not, List, [], ◌∷◌, ◌++◌, map, Option, none, some,
  arith, ltb, leb, ◌==◌, if◌then◌else◌, Bool-cases, Option-cases, &&-true, lt→ltb, ltb→lt, leb→le,
  ==_iff, Bool_eq_of_iff, length, take, drop, replicate, get_or, keep, count_if, any, find_if, All,
  length-append, length-take, length-drop, length-replicate, length-zero, take-append-drop,
  All-append, All-keep, All-mono, count_if-append, count_if-le-length, All-keep_test, String,
}
use distributed_file_grid.Prelude.Int.{ℤ, pos, negsuc, ltb_ℤ, eqb_ℤ}
use distributed_file_grid.Prelude.Key.{
  Key, Bytes, bytes_eq, bytes_lt, bytes_eq_iff, bytes_key, ℤ_key, eqb_ℤ_iff,
}
use distributed_file_grid.Prelude.Map.{
  Map, find, insert, erase, member, find_or, keys, find-insert, find-erase, same_refl, All-insert,
  All-erase, All-find,
}
use distributed_file_grid.Prelude.Text.{
  str, is_space, is_digit, digits, to_string, int_to_string, skip_ws, scan_digits, read_int,
  int_limit, long_limit, stoi, stoll, find_char, starts_with, find_sub, contains, substr, word_of,
  after_word, read_word,
}
use distributed_file_grid.ConfigLoader.Parser.{trim, parse_json}
use distributed_file_grid.Metadata.{is_empty}

pub record ConfigLoader : Type 0 where
  pub values : Map Bytes Bytes
  pub filepath : Bytes
  pub loaded : Bool

abbrev upper : ℕ → ℕ
upper c = if leb 97 c && leb c 122 then c - 32 else c

-- "server.port" becomes "SERVER_PORT".
unfoldable pub to_env_name : Bytes → Bytes
to_env_name [] = []
to_env_name (c ∷ key) = (if c == 46 then b'_' else upper c) ∷ to_env_name key

-- The variables whose name is not derived from the key.
unfoldable pub alias_of : Bytes → Option Bytes
unfolding bytes_eq
alias_of key =
    if bytes_eq key (str "zookeeper.hosts")
    then some (str "ZK_HOSTS")
    else if bytes_eq key (str "head_server.control_port")
    then some (str "CONTROL_PORT")
    else if bytes_eq key (str "heartbeat.target_host")
    then some (str "HEALTH_CHECKER_HOST")
    else if bytes_eq key (str "heartbeat.target_port")
    then some (str "HEALTH_CHECKER_PORT")
    else none

-- A variable that is set and not empty.
abbrev non_empty : Option Bytes → Option Bytes
non_empty none = none
non_empty (some []) = none
non_empty (some (c ∷ s)) = some (c ∷ s)

abbrev pub or_else : Option Bytes → Option Bytes → Option Bytes
or_else none b = b
or_else (some a) b = some a

abbrev pub or_default : Bytes → Option Bytes → Bytes
or_default d none = d
or_default d (some v) = v

abbrev aliased : (Bytes → Option Bytes) → Option Bytes → Option Bytes
aliased env none = none
aliased env (some name) = non_empty (env name)

-- What the environment says of a key.
unfoldable pub override : (Bytes → Option Bytes) → Bytes → Option Bytes
unfolding to_env_name alias_of
override env key =
    or_else (non_empty (env (str "DFG_" ++ to_env_name key)))
      (or_else (non_empty (env (to_env_name key))) (aliased env (alias_of key)))

unfoldable pub get_string : (Bytes → Option Bytes) → ConfigLoader → Bytes → Bytes → Bytes
unfolding override
get_string env cfg key default_val =
    or_default default_val (or_else (override env key) (find key cfg.values))

abbrev number_or : ℤ → Option ℤ → ℤ
number_or d none = d
number_or d (some n) = n

unfoldable pub get_int : (Bytes → Option Bytes) → ConfigLoader → Bytes → ℤ → ℤ
unfolding get_string stoi
get_int env cfg key default_val =
    let v = get_string env cfg key [] in
    if is_empty v then default_val else number_or default_val (stoi v)

unfoldable pub get_long : (Bytes → Option Bytes) → ConfigLoader → Bytes → ℤ → ℤ
unfolding get_string stoll
get_long env cfg key default_val =
    let v = get_string env cfg key [] in
    if is_empty v then default_val else number_or default_val (stoll v)

unfoldable pub get_bool : (Bytes → Option Bytes) → ConfigLoader → Bytes → Bool → Bool
unfolding get_string bytes_eq
get_bool env cfg key default_val =
    let v = get_string env cfg key [] in
    if is_empty v
    then default_val
    else bytes_eq v (str "true") || bytes_eq v (str "1") || bytes_eq v (str "yes")

pub record ClusterServerEntry : Type 0 where
  pub id : ℤ
  pub host : Bytes
  pub port : ℤ

pub record HeadServerEntry : Type 0 where
  pub id : Bytes
  pub host : Bytes
  pub port : ℤ
  pub control_port : ℤ

abbrev entry_key : String → ℕ → String → Bytes
entry_key list i field = str list ++ (to_string i ++ str field)

-- The entries from index i on, n at most, up to the first without a host.
unfoldable pub cluster_servers_from :
    (Bytes → Option Bytes) → ConfigLoader → ℕ → ℕ → List ClusterServerEntry
unfolding get_string get_int to_string
cluster_servers_from env cfg zero i = []
cluster_servers_from env cfg (suc n) i =
    let host = get_string env cfg (entry_key "cluster_servers." i ".host") [] in
    elim host [
      | [] ↦ []
      | c ∷ s ↦
          let entry : ClusterServerEntry = record {
            id = get_int env cfg (entry_key "cluster_servers." i ".id") (pos (i + 1));
            host = c ∷ s;
            port = get_int env cfg (entry_key "cluster_servers." i ".port") (pos (8080 + i));
          } in
          entry ∷ cluster_servers_from env cfg n (suc i)
    ]

unfoldable pub get_cluster_servers : (Bytes → Option Bytes) → ConfigLoader → List ClusterServerEntry
unfolding cluster_servers_from
get_cluster_servers env cfg = cluster_servers_from env cfg 100 0

unfoldable pub head_servers_from :
    (Bytes → Option Bytes) → ConfigLoader → ℕ → ℕ → List HeadServerEntry
unfolding get_string get_int to_string
head_servers_from env cfg zero i = []
head_servers_from env cfg (suc n) i =
    let host = get_string env cfg (entry_key "head_servers." i ".host") [] in
    let default_id = str "head_server_" ++ to_string (i + 1) in
    elim host [
      | [] ↦ []
      | c ∷ s ↦
          let entry : HeadServerEntry = record {
            id = get_string env cfg (entry_key "head_servers." i ".id") default_id;
            host = c ∷ s;
            port = get_int env cfg (entry_key "head_servers." i ".port") (pos 9669);
            control_port =
                get_int env cfg (entry_key "head_servers." i ".control_port") (pos (9670 + i));
          } in
          entry ∷ head_servers_from env cfg n (suc i)
    ]

unfoldable pub get_head_servers : (Bytes → Option Bytes) → ConfigLoader → List HeadServerEntry
unfolding head_servers_from
get_head_servers env cfg = head_servers_from env cfg 100 0

abbrev pub starts_object : Bytes → Bool
starts_object [] = false
starts_object (c ∷ s) = c == 123

abbrev pub Loading : Type 0
Loading = Option (ConfigLoader × Bool)

abbrev pub take_values : ConfigLoader → Bytes → Option (Map Bytes Bytes) → Loading
take_values cfg path none = none
take_values cfg path (some []) = some (record cfg { values = [] }, false)
take_values cfg path (some (e ∷ values)) =
    some (record { values = e ∷ values; filepath = path; loaded = true }, true)

-- The parser gets fuel for its rounds, and the result is `none` where that does not suffice.
unfoldable pub load : ℕ → ConfigLoader → Bytes → Option Bytes → Loading
unfolding trim parse_json
load fuel cfg path none = some (cfg, false)
load fuel cfg path (some content) = elim (starts_object (trim content)) [
  | true ↦ take_values cfg path (parse_json fuel content [] [])
  | false ↦ some (cfg, false)
]

-- What was read before is forgotten first.
unfoldable pub reload : ℕ → ConfigLoader → Option Bytes → Loading
unfolding load
reload fuel cfg file =
    if is_empty cfg.filepath
    then some (cfg, false)
    else load fuel (record { values = []; filepath = []; loaded = false }) cfg.filepath file
