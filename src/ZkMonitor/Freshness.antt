-- ===== src/ZkMonitor/Freshness.antt =====
-- What the monitor of src/zk_monitor/zk_monitor.cpp takes over from the nodes without a check of its own.
use distributed_file_grid.Prelude.{
  ℕ, ◌+◌, ◌-◌, ◌<◌, ◌≡◌, refl, Bool, true, false, List, [], ◌∷◌, ◌++◌, Option, none, some, arith,
  ltb, if◌then◌else◌, All,
}
use distributed_file_grid.Prelude.Int.{ℤ}
use distributed_file_grid.Prelude.Key.{Bytes, bytes_eq, bytes_eq_iff, bytes_key, ℤ_key}
use distributed_file_grid.Prelude.Map.{Map, find, insert, All-insert, All-find}
use distributed_file_grid.Prelude.Text.{str, stoi, stoll}
use distributed_file_grid.Zookeeper.{Tree, get_node_data, get_children}
use distributed_file_grid.Metadata.{is_empty}
use distributed_file_grid.ZkMonitor.{
  HeadServerInfo, healthy_status, head_servers_path, five_seconds, set_port, set_connections,
  set_heartbeat, set_cpu, set_memory, split_token, new_info, set_field, set_fields, tokens,
  parse_server_data, discover_from, discover_head_servers, check_head_server_health,
}

-- As the constructor leaves them.
abbrev IsNew : {D : Type 0} → ℕ → HeadServerInfo D → Type 0
IsNew now info = (info.is_leader ≡ false) × (info.last_health_check ≡ now)

abbrev Holds : {D : Type 0} → ℕ → Option (HeadServerInfo D) → Type 0
Holds now none = Unit {0}
Holds now (some info) = IsNew now info

pub record IsKept {D : Type 0} (now : ℕ) (o : Option (HeadServerInfo D)) : Type 0 where
  pub holds : Holds now o

if-IsKept :
    {D : Type 0} {now : ℕ} (b : Bool) (x y : Option (HeadServerInfo D))
    → IsKept now x
    → IsKept now y
    → IsKept now (if b then x else y)
if-IsKept true x y hx hy = hx
if-IsKept false x y hx hy = hy

module _ {D : Type 0} (stod : Bytes → Option D) (zero_double : D) (now : ℕ) where
  set_port-IsKept :
      (i : HeadServerInfo D) (o : Option ℤ)
      → IsNew now i
      → IsKept now (set_port stod zero_double i o)
  set_port-IsKept i none h = record { holds = tt }
  set_port-IsKept i (some n) h = record { holds = h }

  set_connections-IsKept :
      (i : HeadServerInfo D) (o : Option ℤ)
      → IsNew now i
      → IsKept now (set_connections stod zero_double i o)
  set_connections-IsKept i none h = record { holds = tt }
  set_connections-IsKept i (some n) h = record { holds = h }

  set_heartbeat-IsKept :
      (i : HeadServerInfo D) (o : Option ℤ)
      → IsNew now i
      → IsKept now (set_heartbeat stod zero_double i o)
  set_heartbeat-IsKept i none h = record { holds = tt }
  set_heartbeat-IsKept i (some n) h = record { holds = h }

  set_cpu-IsKept :
      (i : HeadServerInfo D) (o : Option D)
      → IsNew now i
      → IsKept now (set_cpu stod zero_double i o)
  set_cpu-IsKept i none h = record { holds = tt }
  set_cpu-IsKept i (some n) h = record { holds = h }

  set_memory-IsKept :
      (i : HeadServerInfo D) (o : Option D)
      → IsNew now i
      → IsKept now (set_memory stod zero_double i o)
  set_memory-IsKept i none h = record { holds = tt }
  set_memory-IsKept i (some n) h = record { holds = h }

  set_field-IsKept :
      (i : HeadServerInfo D) (kv : Option (Bytes × Bytes))
      → IsNew now i
      → IsKept now (set_field stod zero_double i kv)
  unfolding set_field
  set_field-IsKept i none h = record { holds = h }
  set_field-IsKept i (some (key, value)) h =
      if-IsKept (bytes_eq key (str "ip")) (some (record i { ip_address = value })) _
        (record { holds = h })
        (if-IsKept (bytes_eq key (str "port")) _ _ (set_port-IsKept i (stoi value) h) (
          if-IsKept (bytes_eq key (str "status")) (some (record i { status = value })) _
            (record { holds = h })
            (if-IsKept (bytes_eq key (str "cpu_usage")) _ _ (set_cpu-IsKept i (stod value) h) (
              if-IsKept (bytes_eq key (str "memory_usage")) _ _ (set_memory-IsKept i (stod value) h)
                (if-IsKept (bytes_eq key (str "active_connections")) _ _
                  (set_connections-IsKept i (stoi value) h)
                  (if-IsKept (bytes_eq key (str "last_update")) _ (some i)
                    (set_heartbeat-IsKept i (stoll value) h) (record { holds = h })))))))

  then-IsKept :
      (rest : List Bytes) (o : Option (HeadServerInfo D))
      → ((i : HeadServerInfo D) → IsNew now i → IsKept now (set_fields stod zero_double i rest))
      → IsKept now o
      → IsKept now (elim o [ none ↦ none | some i ↦ set_fields stod zero_double i rest ])
  then-IsKept rest none next k = record { holds = tt }
  then-IsKept rest (some i) next k = next i k.holds

  set_fields-IsKept :
      (i : HeadServerInfo D) (ts : List Bytes)
      → IsNew now i
      → IsKept now (set_fields stod zero_double i ts)
  unfolding set_fields
  set_fields-IsKept i [] h = record { holds = h }
  set_fields-IsKept i (token ∷ rest) h =
      then-IsKept rest (set_field stod zero_double i (split_token token))
        (λ i' h'. set_fields-IsKept i' rest h') (set_field-IsKept i (split_token token) h)

  parse_server_data-IsKept : (d : Bytes) → IsKept now (parse_server_data stod zero_double now d)
  unfolding parse_server_data
  parse_server_data-IsKept d =
      set_fields-IsKept (new_info stod zero_double now) (tokens [] d) (refl, refl)

  abbrev AllNew : Map Bytes (HeadServerInfo D) → Type 0
  AllNew servers = All (λ e. IsNew now e.1) servers

  found-AllNew :
      (t : Tree) (servers : Map Bytes (HeadServerInfo D)) (name : Bytes) (rest : List Bytes)
      (b : Bool) (o : Option (HeadServerInfo D))
      → ((found : Map Bytes (HeadServerInfo D))
          → AllNew found
          → AllNew (discover_from stod zero_double t now found rest).0)
      → AllNew servers
      → IsKept now o
      → (let r : Map Bytes (HeadServerInfo D) × Bool = elim b [
        | true ↦ discover_from stod zero_double t now servers rest
        | false ↦ elim o [
          | none ↦ (servers, false)
          | some info ↦
              discover_from stod zero_double t now
                (insert name (record info { server_id = name }) servers)
                rest
        ]
      ] in
          AllNew r.0)
  found-AllNew t servers name rest true o next h k = next servers h
  found-AllNew t servers name rest false none next h k = h
  found-AllNew t servers name rest false (some info) next h k =
      next (insert name (record info { server_id = name }) servers)
        (All-insert (λ e. IsNew now e.1) name (record info { server_id = name }) servers k.holds h)

  discover_from-AllNew :
      (t : Tree) (servers : Map Bytes (HeadServerInfo D)) (names : List Bytes)
      → AllNew servers
      → AllNew (discover_from stod zero_double t now servers names).0
  unfolding discover_from
  discover_from-AllNew t servers [] h = h
  discover_from-AllNew t servers (name ∷ rest) h =
      let d = get_node_data t (head_servers_path ++ (47 ∷ name)) in
      found-AllNew t servers name rest (is_empty d) (parse_server_data stod zero_double now d)
        (λ found f. discover_from-AllNew t found rest f) h (parse_server_data-IsKept d)

  -- A head server that has just been discovered is no leader, and if its node says that it is
  -- healthy it passes every health check within five seconds, whether it can be reached or not.
  pub discover-check :
      (t : Tree) (name : Bytes) (info : HeadServerInfo D) (later : ℕ) (connects : Bytes → ℤ → Bool)
      (failure_counts : Map Bytes ℕ)
      → find name (discover_head_servers stod zero_double t now).0 ≡ some info
      → info.status ≡ healthy_status
      → later < now + five_seconds
      → (info.is_leader ≡ false)
        × ((check_head_server_health connects later failure_counts info).healthy ≡ true)
  unfolding discover_head_servers check_head_server_health
  discover-check t name info later connects failure_counts found healthy soon =
      let fresh : IsNew now info =
        All-find (λ e. IsNew now e.1) name (discover_head_servers stod zero_double t now).0 info
          (discover_from-AllNew t [] (get_children t head_servers_path) tt) found in
      let recent : ltb (later - info.last_health_check) five_seconds ≡ true =
        ground (arith, fresh.1) in
      let said : bytes_eq info.status healthy_status ≡ true =
        (bytes_eq_iff info.status healthy_status).1 healthy in
      (fresh.0, rw (recent, said) refl)
