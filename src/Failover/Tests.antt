-- ===== src/Failover/Tests.antt =====
-- A file with a chunk on a dead server and on a live one, and a third server to take a replica.
use distributed_file_grid.Prelude.{ℕ, ◌≡◌, refl, Bool, true, false, List, [], ◌∷◌, none, some, any}
use distributed_file_grid.Prelude.Int.{ℤ, pos}
use distributed_file_grid.Prelude.Key.{Bytes, bytes_eq, bytes_key, ℤ_key}
use distributed_file_grid.Prelude.Map.{Map, find, insert, erase, member}
use distributed_file_grid.Prelude.Text.{str}
use distributed_file_grid.Health.{ServerHealth, default_health}
use distributed_file_grid.Metadata.{
  replace_in_file, purge_file, atomic_replace_server_chunks, ChunkRecord, FileRecord, MetadataMap,
  delete_server_metadata, cid_counts,
}
use distributed_file_grid.Registry.{new_entry, get_addresses, remove_server}
use distributed_file_grid.Failover.Callback.{
  HeadState, on_server_unhealthy, on_server_unhealthy-Recovered,
}
use distributed_file_grid.Failover.{
  Cluster, Transfer, healthy_servers, is_candidate, file_updates, plan_transfer,
  rereplicate_dead_server_chunks, hosts,
}
use distributed_file_grid.Failover.Plan.{lies_at, plan_transfer_lem}
use distributed_file_grid.Failover.Outcome.{Recovered, rereplicate-Recovered}
use distributed_file_grid.Address.{format_address}

-- A network on which every transfer succeeds.
abbrev all_up : Cluster
all_up = record {
  read_chunk = λ server cid path file. str "data";
  write_chunk = λ server cid file chunk. some (str "/new");
}

abbrev on_dead : ChunkRecord
on_dead = record {
  chunk_id = pos 0;
  server = str "a:1";
  path = str "/d/c";
  checksum = str "ab";
  replica_count = pos 2;
}

abbrev on_live : ChunkRecord
on_live = record on_dead { server = str "b:2" }

abbrev held : FileRecord
held = record { file_hash = str "ff"; replica_count = pos 2; chunks = on_dead ∷ on_live ∷ [] }

abbrev one_file : MetadataMap
one_file = (str "f", held) ∷ []

abbrev three : List Bytes
three = str "a:1" ∷ str "b:2" ∷ str "c:3" ∷ []

abbrev no_health : Map ℤ (ServerHealth ℕ)
no_health = []

abbrev on_third : ChunkRecord
on_third = record on_dead { server = str "c:3"; path = str "/new" }

-- The replica on the dead server is replaced by one on the third server.
recovers :
    rereplicate_dead_server_chunks all_up three no_health one_file (str "a:1")
    ≡ (str "f", record held { chunks = on_live ∷ on_third ∷ [] }) ∷ []
unfolding rereplicate_dead_server_chunks bytes_eq delete_server_metadata find insert
    atomic_replace_server_chunks purge_file replace_in_file cid_counts
recovers = refl

abbrev to_third : Transfer
to_third = record {
  source_server = str "b:2";
  source_path = str "/d/c";
  checksum = str "ab";
  target = str "c:3";
}

plan_transfer_lem_example :
    (any (hosts (str "a:1")) held.chunks ≡ true)
    × (any (lies_at (str "b:2") (str "/d/c")) held.chunks ≡ true)
    × (bytes_eq (str "b:2") (str "a:1") ≡ false)
    × (any (λ h. bytes_eq h (str "c:3")) (str "b:2" ∷ str "c:3" ∷ []) ≡ true)
    × (any (hosts (str "c:3")) held.chunks ≡ false)
unfolding plan_transfer bytes_eq
plan_transfer_lem_example =
    plan_transfer_lem (str "a:1") (str "b:2" ∷ str "c:3" ∷ []) held.chunks to_third refl

rereplicate-Recovered_example :
    Recovered
      (str "a:1")
      (file_updates all_up (str "a:1") (str "b:2" ∷ str "c:3" ∷ []) one_file (str "f"))
      (find (str "f") one_file)
      (find (str "f") (rereplicate_dead_server_chunks all_up three no_health one_file (str "a:1")))
unfolding healthy_servers is_candidate bytes_eq
rereplicate-Recovered_example =
    rereplicate-Recovered all_up three no_health one_file (str "a:1") (str "f") (str "b:2")
      (str "c:3" ∷ []) refl

abbrev failing : HeadState ℕ
failing = record {
  registry = record {
    servers =
        (pos 1, new_entry (pos 1) (str "a") (pos 1) (pos 0) (pos 0) 0)
        ∷ (pos 2, new_entry (pos 2) (str "b") (pos 2) (pos 0) (pos 0) 0)
        ∷ (pos 3, new_entry (pos 3) (str "c") (pos 3) (pos 0) (pos 0) 0)
        ∷ [];
    next_id = pos 4;
  };
  health = [];
  store = one_file;
  recovering = [];
}

abbrev silent_a : ServerHealth ℕ
silent_a = record (default_health 0) { ip = str "a:1"; is_healthy = false }

abbrev agreed : Bool → ℤ → Bytes → Bool
agreed answer server_id ip = answer

on_server_unhealthy-Recovered_example :
    let s' = on_server_unhealthy (agreed true) all_up failing (pos 1) silent_a in
    (find (pos 1) s'.registry.servers ≡ none)
    × Recovered
        (str "a:1")
        (file_updates all_up (str "a:1") (str "b:2" ∷ str "c:3" ∷ []) one_file (str "f"))
        (find (str "f") one_file)
        (find (str "f") s'.store)
    × (member (str "a:1") s'.recovering ≡ false)
unfolding healthy_servers is_candidate get_addresses remove_server find erase bytes_eq
    format_address
on_server_unhealthy-Recovered_example =
    on_server_unhealthy-Recovered (agreed true) all_up failing (pos 1) silent_a (str "f")
      (str "b:2") (str "c:3" ∷ []) refl refl refl
