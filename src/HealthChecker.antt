-- ===== src/HealthChecker.antt =====
-- `HealthChecker` of src/health_checker/health_checker.cpp, the service that hears the heartbeats and asks
-- ZooKeeper before it gives a server up. Times are nanoseconds of the steady clock, and the counters of
-- Prometheus are fields. The metadata store and the tree of ZooKeeper are arguments.
pub mod Recovery
pub mod Tests
use distributed_file_grid.Prelude.{
  ℕ, zero, suc, ◌+◌, ◌-◌, ◌*◌, ◌/◌, ◌%◌, ◌^◌, ◌≤◌, ◌<◌, ◌≡◌, refl, sym, ◌∙◌, ap, subst, ◌≢◌, ◌↔◌,
  ◌⊎◌, inl, inr, Bool, true, false, ◌&&◌, ◌||◌, not, List, [], ◌∷◌, ◌++◌, map, Option, none, some,
  arith, ltb, leb, ◌==◌, if◌then◌else◌, Bool-cases, Option-cases, &&-true, lt→ltb, ltb→lt, leb→le,
  ==_iff, Bool_eq_of_iff, length, take, drop, replicate, get_or, keep, count_if, any, find_if, All,
  length-append, length-take, length-drop, length-replicate, length-zero, take-append-drop,
  All-append, All-keep, All-mono, count_if-append, count_if-le-length, All-keep_test, String,
}
use distributed_file_grid.Prelude.Int.{ℤ, pos, negsuc, ltb_ℤ, eqb_ℤ}
use distributed_file_grid.Prelude.Key.{
  Key, Bytes, bytes_eq, bytes_lt, bytes_eq_iff, bytes_key, ℤ_key, eqb_ℤ_iff,
}
use distributed_file_grid.Prelude.Map.{
  Map, find, insert, erase, member, find_or, keys, values, find-insert, find-erase, same_refl,
  All-insert, All-erase, All-find,
}
use distributed_file_grid.Prelude.Text.{
  str, is_space, is_digit, digits, to_string, int_to_string, skip_ws, scan_digits, read_int,
  int_limit, long_limit, stoi, stoll, find_char, starts_with, find_sub, contains, substr, word_of,
  after_word, read_word,
}
use distributed_file_grid.Metadata.{
  MetadataMap, ChunkRecord, FileRecord, is_empty, query_metadata, list_files_snapshot,
}
use distributed_file_grid.Zookeeper.{Client, Tree, connect, node_exists}

-- `usage` has the fields that are only stored and shown.
pub record ServerHealth (U : Type 0) : Type 0 where
  pub server_id : ℤ
  pub ip : Bytes
  pub last_heartbeat : ℕ
  pub usage : U
  pub is_healthy : Bool
  pub missed_heartbeats : ℕ

-- What one call of trigger_replication finds: the healthy servers, and the number of chunks if there
-- is such a server.
pub record Report : Type 0 where
  pub failed_server_id : ℤ
  pub healthy_targets : List Bytes
  pub chunks_queued : Option ℕ

pub record HealthChecker (U : Type 0) : Type 0 where
  pub servers : Map ℤ (ServerHealth U)
  pub max_missed_heartbeats : ℕ
  pub heartbeat_timeout : ℕ
  pub zk_client : Client
  pub heartbeats_received : ℕ
  pub servers_marked_unhealthy : ℕ
  pub servers_recovered : ℕ
  pub replications_triggered : ℕ
  pub healthy_server_count : ℕ

-- k + z
abbrev plus : ℕ → ℤ → ℤ
plus k (pos n) = pos (k + n)
plus k (negsuc n) = if ltb n k then pos (k - suc n) else negsuc (n - k)

abbrev failed_prefix : ℤ → Bytes
failed_prefix i = str "127.0.0.1:" ++ int_to_string (plus 8079 i)

-- The chunks of the listed files on the failed server.
unfoldable pub queued : MetadataMap → Bytes → List Bytes → ℕ
unfolding query_metadata contains
queued store prefix [] = 0
queued store prefix (filename ∷ rest) =
    count_if (λ c. contains prefix c.server) (query_metadata store filename).chunks
    + queued store prefix rest

abbrev pub znode : ℤ → Bytes
znode i = str "/dfg/cluster_servers/server_" ++ int_to_string i

-- What a check finds about one server.
pub data Verdict : Type 0 where
  unchanged : Verdict
  waiting : Verdict
  dead : Verdict
  recovered : Verdict

module _ {U : Type 0} where
  unfoldable pub trigger_replication : MetadataMap → Map ℤ (ServerHealth U) → ℤ → Report
  unfolding queued int_to_string list_files_snapshot
  trigger_replication store servers failed =
      let healthy = keep (λ e. e.1.is_healthy && not (eqb_ℤ e.0 failed)) servers in
      record {
        failed_server_id = failed;
        healthy_targets = map (λ e. e.1.ip) healthy;
        chunks_queued = elim healthy [
          | [] ↦ none
          | e ∷ es ↦ some (queued store (failed_prefix failed) (list_files_snapshot store))
        ];
      }

  -- One server of a check; `exists` is whether its node exists.
  unfoldable pub check_server : ℕ → ℕ → ℕ → Bool → ServerHealth U → ServerHealth U × Verdict
  check_server timeout limit now exists h =
      let missed = suc h.missed_heartbeats in
      let late = record h { missed_heartbeats = missed } in
      if ltb timeout (now - h.last_heartbeat)
      then (if leb limit missed && h.is_healthy
          then (if exists then (late, waiting) else (record late { is_healthy = false }, dead))
          else (late, unchanged))
      else if not h.is_healthy && ltb 0 h.missed_heartbeats
      then (record h { is_healthy = true; missed_heartbeats = 0 }, recovered)
      else (h, unchanged)

  abbrev pub count_verdict : Verdict → HealthChecker U → HealthChecker U
  count_verdict unchanged c = c
  count_verdict waiting c = record c { zk_client = (connect c.zk_client).0 }
  count_verdict dead c = record c {
    zk_client = (connect c.zk_client).0;
    servers_marked_unhealthy = suc c.servers_marked_unhealthy;
    replications_triggered = suc c.replications_triggered;
  }
  count_verdict recovered c = record c { servers_recovered = suc c.servers_recovered }

  abbrev report_of : MetadataMap → Map ℤ (ServerHealth U) → ℤ → Verdict → List Report
  report_of store servers i dead = trigger_replication store servers i ∷ []
  report_of store servers i unchanged = []
  report_of store servers i waiting = []
  report_of store servers i recovered = []

  -- The loop over the servers: those behind it, and those to come.
  unfoldable pub check_loop :
      MetadataMap
      → Tree
      → ℕ
      → HealthChecker U
      → Map ℤ (ServerHealth U)
      → Map ℤ (ServerHealth U)
      → HealthChecker U × List Report
  unfolding check_server trigger_replication node_exists connect int_to_string
  check_loop store t now c behind [] = (record c { servers = behind }, [])
  check_loop store t now c behind ((i, h) ∷ rest) =
      let (h', verdict) =
        check_server c.heartbeat_timeout c.max_missed_heartbeats now (node_exists t (znode i)) h in
      let behind' = behind ++ ((i, h') ∷ []) in
      let (c', reports) = check_loop store t now (count_verdict verdict c) behind' rest in
      (c', report_of store (behind' ++ rest) i verdict ++ reports)

  unfoldable pub check_server_health :
      MetadataMap → Tree → ℕ → HealthChecker U → HealthChecker U × List Report
  unfolding check_loop
  check_server_health store t now c =
      let (c', reports) = check_loop store t now c [] c.servers in
      (record c' { healthy_server_count = count_if (λ e. e.1.is_healthy) c'.servers }, reports)

  -- A server that is new starts unhealthy, and its heartbeat makes it healthy at once.
  unfoldable pub process_heartbeat : ℤ → Bytes → U → ℕ → HealthChecker U → HealthChecker U
  process_heartbeat server_id ip usage now c = record c {
    servers =
        insert server_id
          (record {
            server_id = server_id;
            ip = ip;
            last_heartbeat = now;
            usage = usage;
            is_healthy = true;
            missed_heartbeats = 0;
          })
          c.servers;
    heartbeats_received = suc c.heartbeats_received;
  }

  unfoldable pub get_server_status : HealthChecker U → List (ServerHealth U)
  get_server_status c = values c.servers

  unfoldable pub get_healthy_servers : HealthChecker U → List ℤ
  get_healthy_servers c = keys (keep (λ e. e.1.is_healthy) c.servers)

  unfoldable pub is_server_healthy : HealthChecker U → ℤ → Bool
  is_server_healthy c i = elim (find i c.servers) [ none ↦ false | some h ↦ h.is_healthy ]
