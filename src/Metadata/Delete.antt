-- ===== src/Metadata/Delete.antt =====
-- Forgetting a server.
use distributed_file_grid.Prelude.{
  ℕ, ◌≡◌, refl, inl, inr, true, List, [], ◌∷◌, map, Option, none, some, Bool-cases, keep, All,
  All-keep_test,
}
use distributed_file_grid.Prelude.Int.{ℤ}
use distributed_file_grid.Prelude.Key.{Bytes, bytes_eq, bytes_key, ℤ_key}
use distributed_file_grid.Prelude.Map.{Map, find}
use distributed_file_grid.Metadata.{
  ChunkRecord, FileRecord, cid_counts, with_count, MetadataMap, on_other, purge_file,
  delete_server_metadata,
}
use distributed_file_grid.Metadata.Counts.{
  IsCounted, with_count-IsCounted, location, locations-with_count,
}

-- What a file record is once a server is forgotten: the same hash and file count, the locations of
-- the other servers in their order, none on the server, and counts that agree with the records.
pub record IsPurged (server : Bytes) (old new : FileRecord) : Type 0 where
  pub hash_kept : new.file_hash ≡ old.file_hash
  pub count_kept : new.replica_count ≡ old.replica_count
  pub others_kept : map location new.chunks ≡ map location (keep (on_other server) old.chunks)
  pub none_left : All (λ cr. on_other server cr ≡ true) new.chunks
  pub counted : IsCounted new.chunks

pub All-with_count :
    (server : Bytes) (counts : Map ℤ ℕ) (chunks : List ChunkRecord)
    → All (λ cr. on_other server cr ≡ true) chunks
    → All (λ cr. on_other server cr ≡ true) (map (with_count counts) chunks)
All-with_count server counts [] h = tt
All-with_count server counts (cr ∷ rest) h = (h.0, All-with_count server counts rest h.1)

purge_file-IsPurged :
    (server : Bytes) (rec : FileRecord) → IsPurged server rec (purge_file server rec)
unfolding purge_file
purge_file-IsPurged server rec =
    let left = keep (on_other server) rec.chunks in
    record {
      hash_kept = refl;
      count_kept = refl;
      others_kept = locations-with_count (cid_counts left) left;
      none_left =
          All-with_count server (cid_counts left) left (All-keep_test (on_other server) rec.chunks);
      counted = with_count-IsCounted left;
    }

-- The record of a file after the deletion, against the one before.
abbrev pub Purged : Bytes → Option FileRecord → Option FileRecord → Type 0
Purged server none none = Unit
Purged server (some old) (some new) = IsPurged server old new
Purged server _ _ = ⊥

-- Forgetting a server leaves every file with its hash, its count and its replicas on other servers,
-- with replica counts that agree with the records; no file comes or goes.
pub delete_server_metadata-Purged :
    (store : MetadataMap) (server file : Bytes)
    → Purged server (find file store) (find file (delete_server_metadata store server))
unfolding delete_server_metadata find
delete_server_metadata-Purged [] server file = tt
delete_server_metadata-Purged ((name, rec) ∷ rest) server file =
    elim (Bool-cases (bytes_eq name file)) [
      | inl e ↦ rw e (purge_file-IsPurged server rec)
      | inr e ↦ rw e (delete_server_metadata-Purged rest server file)
    ]
