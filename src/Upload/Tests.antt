-- ===== src/Upload/Tests.antt =====
-- Three servers of which one is unhealthy, and an upload of which one transfer fails.
use mathlib.Core.List.{Perm}
use distributed_file_grid.Prelude.{
  ◌++◌, keep, ℕ, ◌≡◌, refl, Bool, true, false, List, [], ◌∷◌, map, length, count_if, All,
}
use distributed_file_grid.Prelude.Int.{ℤ, pos}
use distributed_file_grid.Prelude.Key.{Bytes, bytes_eq, bytes_key, ℤ_key}
use distributed_file_grid.Prelude.Map.{Map}
use distributed_file_grid.Prelude.Text.{str}
use Prim.Native.Nat.{min}
use distributed_file_grid.Prelude.Floats.{percentages}
use distributed_file_grid.Health.{ServerHealth, default_health}
use distributed_file_grid.Upload.{
  is_usable, disk_usage_of, select_servers_for_chunk, PendingTransfer, collect_transfers,
}
use distributed_file_grid.Upload.Placement.{NotLower, select_servers_lem}
use distributed_file_grid.Upload.Transfers.{has_chunk, collect_transfers_lem}

abbrev fill : Bytes → ℕ → Bool → ServerHealth ℕ
fill ip disk healthy = record (default_health 0) {
  ip = ip;
  disk_usage = disk;
  is_healthy = healthy;
}

abbrev filled_servers : Map ℤ (ServerHealth ℕ)
filled_servers =
    (pos 1, fill (str "a:1") 70 true)
    ∷ (pos 2, fill (str "b:2") 10 false)
    ∷ (pos 3, fill (str "c:3") 20 true)
    ∷ []

abbrev all_addresses : List Bytes
all_addresses = str "a:1" ∷ str "b:2" ∷ str "c:3" ∷ []

selection_runs :
    select_servers_for_chunk percentages all_addresses [] filled_servers 3
    ≡ str "c:3" ∷ str "a:1" ∷ []
unfolding select_servers_for_chunk bytes_eq
selection_runs = refl

select_servers_lem_example :
    let selected = select_servers_for_chunk percentages all_addresses [] filled_servers 1 in
    (rest : List Bytes) × Perm
      (selected ++ rest)
      (keep (is_usable percentages filled_servers) all_addresses)
    × All (λ srv. is_usable percentages filled_servers srv ≡ true) selected
    × (length selected ≡ min 1 (count_if (is_usable percentages filled_servers) all_addresses))
    × All
        (λ a. All (NotLower percentages (disk_usage_of percentages 100 filled_servers) a) rest)
        selected
unfolding is_usable bytes_eq
select_servers_lem_example = select_servers_lem percentages all_addresses [] filled_servers 1 refl

abbrev sent_to : Bytes → Bool → PendingTransfer
sent_to server success = record {
  chunk_id = pos 0;
  server = server;
  checksum = str "ab";
  size = 4;
  success = success;
  file_path = str "/d";
}

abbrev one_fails : List PendingTransfer
one_fails = sent_to (str "a:1") true ∷ sent_to (str "b:2") false ∷ sent_to (str "c:3") true ∷ []

collect_transfers_lem_example :
    let infos = collect_transfers (str "f") one_fails in
    (map (λ c. c.server_ip) infos ≡ str "a:1" ∷ str "c:3" ∷ [])
    × All (λ c. c.replica_count ≡ pos (count_if (has_chunk c.chunk_id) infos)) infos
collect_transfers_lem_example = collect_transfers_lem (str "f") one_fails
