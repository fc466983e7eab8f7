-- ===== src/Metadata/Replace.antt =====
-- Replacing the chunks of a dead server, and storing the chunks of a file.
use distributed_file_grid.Prelude.{
  ◌≡◌, refl, ◌∙◌, subst, inl, inr, true, false, List, [], ◌∷◌, ◌++◌, map, Option, none, some, arith,
  if◌then◌else◌, Bool-cases, Option-cases, keep, All, All-append, All-keep_test,
}
use distributed_file_grid.Prelude.Int.{ℤ, pos}
use distributed_file_grid.Prelude.Key.{Bytes, bytes_eq, bytes_eq_iff, bytes_key, ℤ_key}
use distributed_file_grid.Prelude.Map.{Map, find, insert, find-insert, find-erase, same_refl}
use distributed_file_grid.Prelude.Map.Sorted.{IsSorted, find-after}
use distributed_file_grid.Metadata.{
  ChunkRecord, FileRecord, cid_counts, with_missing_count, MetadataMap, on_other, replace_in_file,
  replace_found, atomic_replace_server_chunks, replace_file_chunks, query_metadata, is_empty,
  file_count, delete_entry, no_record, is_positive,
}
use distributed_file_grid.Metadata.Counts.{
  IsCounted, with_count-IsCounted, location, locations-with_count, cid_counts-find, replicas,
}
use distributed_file_grid.Metadata.Delete.{All-with_count}

-- The record of a file after the replacement, by its update and its record before.
abbrev pub replaced : Bytes → Option (List ChunkRecord) → Option FileRecord → Option FileRecord
replaced dead none old = old
replaced dead (some new_chunks) none = none
replaced dead (some new_chunks) (some rec) = some (replace_in_file dead new_chunks rec)

find-replace_found :
    (store : MetadataMap) (dead name file : Bytes) (new_chunks : List ChunkRecord)
    → find file (replace_found store dead name new_chunks (find name store)) ≡ (
        if bytes_eq name file
        then replaced dead (some new_chunks) (find file store)
        else find file store)
find-replace_found store dead name file new_chunks = elim (Option-cases (find name store)) [
  | inl e ↦ rw e (ground (arith, bytes_eq_iff name file, e))
  | inr (rec, e) ↦ rw e (
      ground (
        arith,
        bytes_eq_iff name file,
        e,
        find-insert name file (replace_in_file dead new_chunks rec) store,
      ))
]

-- A replacement with sorted updates gives each known file with an update the replaced record; every
-- other file keeps its record, and no file comes or goes.
pub atomic_replace-find :
    (store : MetadataMap) (dead file : Bytes) (updates : Map Bytes (List ChunkRecord))
    → IsSorted updates
    → find file (atomic_replace_server_chunks store dead updates)
      ≡ replaced dead (find file updates) (find file store)
unfolding atomic_replace_server_chunks find
atomic_replace-find store dead file [] s = refl
atomic_replace-find store dead file ((name, new_chunks) ∷ rest) s =
    let step = find-replace_found store dead name file new_chunks in
    let ih =
      atomic_replace-find (replace_found store dead name new_chunks (find name store)) dead file
        rest s.1 in
    elim (Bool-cases (bytes_eq name file)) [
      | inl e ↦
          let missing : find file rest ≡ none =
            subst (λ k. find k rest ≡ none) ((bytes_eq_iff name file).0 e)
              (find-after name rest s.0) in
          rw e (ih ∙ rw missing (step ∙ rw e))
      | inr e ↦ rw e (ih ∙ rw step (rw e))
    ]

-- A replaced record has the surviving locations followed by the new ones, counts that agree with
-- the records, the same hash, and nothing on the dead server if no new chunk is there.
pub replace_in_file_lem :
    (dead : Bytes) (new_chunks : List ChunkRecord) (rec : FileRecord)
    → All (λ cr. on_other dead cr ≡ true) new_chunks
    → let rec' = replace_in_file dead new_chunks rec in
      (map location rec'.chunks ≡ map location (keep (on_other dead) rec.chunks ++ new_chunks))
      × IsCounted rec'.chunks
      × All (λ cr. on_other dead cr ≡ true) rec'.chunks
      × (rec'.file_hash ≡ rec.file_hash)
unfolding replace_in_file
replace_in_file_lem dead new_chunks rec h =
    let kept = keep (on_other dead) rec.chunks in
    let joined = kept ++ new_chunks in
    (
      locations-with_count (cid_counts joined) joined,
      with_count-IsCounted joined,
      All-with_count dead (cid_counts joined) joined (
          All-append (λ cr. on_other dead cr ≡ true) kept new_chunks
            (All-keep_test (on_other dead) rec.chunks) h),
      refl,
    )

-- A count that is missing is filled in by the number of records with the chunk id.
abbrev pub filled : List ChunkRecord → ChunkRecord → ChunkRecord
filled whole cr =
    if is_positive cr.replica_count
    then cr
    else record cr { replica_count = pos (replicas cr.chunk_id whole) }

map-filled :
    (whole chunks : List ChunkRecord)
    → map (with_missing_count (cid_counts whole)) chunks ≡ map (filled whole) chunks
map-filled whole [] = refl
map-filled whole (cr ∷ rest) =
    ground (arith, cid_counts-find cr.chunk_id whole, map-filled whole rest)

-- For a non-empty name, what was stored is what is queried, up to the missing counts; other files
-- are not touched, and an entry that is deleted is gone.
pub query-replace_file_chunks :
    (store : MetadataMap) (file file_hash : Bytes) (chunks : List ChunkRecord) (n : ℤ)
    → is_empty file ≡ false
    → let store' = replace_file_chunks store file file_hash chunks n in
      (query_metadata store' file ≡ record {
        file_hash = file_hash;
        replica_count = file_count n (cid_counts chunks);
        chunks = map (filled chunks) chunks;
      })
      × ((other : Bytes)
          → bytes_eq file other ≡ false
          → query_metadata store' other ≡ query_metadata store other)
      × (query_metadata (delete_entry store' file) file ≡ no_record)
unfolding query_metadata replace_file_chunks delete_entry
query-replace_file_chunks store file file_hash chunks n named =
    let counts = cid_counts chunks in
    let rec : FileRecord = record {
      file_hash = file_hash;
      replica_count = file_count n counts;
      chunks = map (with_missing_count counts) chunks;
    } in
    (
      ground
          (arith, named, find-insert file file rec store, same_refl file, map-filled chunks chunks),
      λ other ne. ground (arith, find-insert file other rec store),
      ground (arith, named, find-erase file file (insert file rec store), same_refl file),
    )
