-- ===== src/Failover/Outcome.antt =====
-- The metadata store after a dead server is handled.
use distributed_file_grid.Prelude.{
  ◌≡◌, refl, sym, ◌∙◌, ap, subst, inl, inr, true, List, [], ◌∷◌, ◌++◌, map, Option, none, some,
  arith, Option-cases, keep, any,
}
use distributed_file_grid.Prelude.Int.{ℤ}
use distributed_file_grid.Prelude.Key.{Bytes, bytes_eq, bytes_key, ℤ_key}
use distributed_file_grid.Prelude.Map.{Map, find, keys}
use distributed_file_grid.Prelude.Map.Sorted.{IsSorted}
use mathlib.Core.List.{append-nil}
use distributed_file_grid.Health.{ServerHealth}
use distributed_file_grid.Metadata.{
  ChunkRecord, FileRecord, MetadataMap, on_other, list_files_snapshot, replace_in_file,
  delete_server_metadata,
}
use distributed_file_grid.Metadata.Counts.{IsCounted, location}
use distributed_file_grid.Metadata.Delete.{Purged, delete_server_metadata-Purged}
use distributed_file_grid.Metadata.Replace.{replaced, atomic_replace-find, replace_in_file_lem}
use distributed_file_grid.Failover.{
  Cluster, healthy_servers, file_updates, all_updates, rereplicate_files, replace_updated,
  rereplicate_dead_server_chunks,
}
use distributed_file_grid.Failover.Replicas.{
  Avoids, IsElsewhere, healthy_servers-Avoids, file_updates-IsElsewhere, update_of,
  find-all_updates, all_updates-IsSorted,
}

-- A file record after the recovery: the hash is kept, the replicas on other servers stay in their
-- order, the new ones follow, none is on the dead server, and the counts agree with the records.
pub record IsRecovered (dead : Bytes) (new_chunks : List ChunkRecord) (old new : FileRecord)
    : Type 0 where
  pub hash_kept : new.file_hash ≡ old.file_hash
  pub replicas_kept :
      map location new.chunks ≡ map location (keep (on_other dead) old.chunks ++ new_chunks)
  pub none_left : IsElsewhere dead new.chunks
  pub counted : IsCounted new.chunks

abbrev pub Recovered : Bytes → List ChunkRecord → Option FileRecord → Option FileRecord → Type 0
Recovered dead new_chunks none none = Unit
Recovered dead new_chunks (some old) (some new) = IsRecovered dead new_chunks old new
Recovered dead new_chunks _ _ = ⊥

keep-all :
    (dead : Bytes) (records : List ChunkRecord)
    → IsElsewhere dead records
    → keep (on_other dead) records ≡ records
keep-all dead [] h = refl
keep-all dead (cr ∷ rest) h = rw (h.0) (ap (◌∷◌ cr) (keep-all dead rest h.1))

replaced-Recovered :
    (dead : Bytes) (us : List ChunkRecord) (old : FileRecord) (final : Option FileRecord)
    → IsElsewhere dead us
    → Purged dead (replaced dead (update_of us) (some old)) final
    → Recovered dead us (some old) final
replaced-Recovered dead [] old none h p = p
replaced-Recovered dead (cr ∷ more) old none h p = p
replaced-Recovered dead [] old (some new) h p = record {
  hash_kept = p.hash_kept;
  replicas_kept =
      p.others_kept ∙ ap (map location) (sym (append-nil (keep (on_other dead) old.chunks)));
  none_left = p.none_left;
  counted = p.counted;
}
replaced-Recovered dead (cr ∷ more) old (some new) h p =
    let r = replace_in_file_lem dead (cr ∷ more) old h in
    record {
      hash_kept = p.hash_kept ∙ r.3;
      replicas_kept =
          p.others_kept
          ∙ (ap (map location) (keep-all dead (replace_in_file dead (cr ∷ more) old).chunks r.2)
              ∙ r.0);
      none_left = p.none_left;
      counted = p.counted;
    }

find-member :
    (file : Bytes) (store : MetadataMap) (rec : FileRecord)
    → find file store ≡ some rec
    → any (λ f. bytes_eq f file) (keys store) ≡ true
unfolding find
find-member file [] rec h = cc
find-member file ((name, r) ∷ rest) rec h = ground (arith, find-member file rest rec)

find-replace_updated :
    (store : MetadataMap) (dead file : Bytes) (updates : Map Bytes (List ChunkRecord))
    → IsSorted updates
    → find file (replace_updated store dead updates)
      ≡ replaced dead (find file updates) (find file store)
unfolding find
find-replace_updated store dead file [] s = refl
find-replace_updated store dead file (u ∷ more) s = atomic_replace-find store dead file (u ∷ more) s

absent-Recovered :
    (dead : Bytes) (us : List ChunkRecord) (update : Option (List ChunkRecord))
    (final : Option FileRecord)
    → Purged dead (replaced dead update none) final
    → Recovered dead us none final
absent-Recovered dead us none none p = tt
absent-Recovered dead us none (some new) p = p
absent-Recovered dead us (some v) none p = tt
absent-Recovered dead us (some v) (some new) p = p

files-Recovered :
    (net : Cluster) (store : MetadataMap) (dead file h : Bytes) (hs : List Bytes)
    → Avoids dead (h ∷ hs)
    → Recovered dead
        (file_updates net dead (h ∷ hs) store file)
        (find file store)
        (find file (rereplicate_files net store dead (list_files_snapshot store) (h ∷ hs)))
unfolding list_files_snapshot delete_server_metadata find
files-Recovered net [] dead file h hs avoids = tt
files-Recovered net (x ∷ rest) dead file h hs avoids =
    let store : MetadataMap = x ∷ rest in
    let updates = all_updates net dead (h ∷ hs) store (keys store) in
    let us = file_updates net dead (h ∷ hs) store file in
    let final = find file (delete_server_metadata (replace_updated store dead updates) dead) in
    let found =
      find-replace_updated store dead file updates
        (all_updates-IsSorted net dead (h ∷ hs) store (keys store)) in
    let purged : Purged dead (replaced dead (find file updates) (find file store)) final =
      subst (λ o. Purged dead o final) found
        (delete_server_metadata-Purged (replace_updated store dead updates) dead file) in
    let Goal : Option FileRecord → Type 0 = λ o. Recovered dead us o final in
    elim (Option-cases (find file store)) [
      | inl e ↦ subst Goal (sym e) (
          absent-Recovered dead us (find file updates) final
            (subst (λ o. Purged dead (replaced dead (find file updates) o) final) e purged))
      | inr (rec, e) ↦
          let updated : find file updates ≡ update_of us =
            find-all_updates net dead (h ∷ hs) store file (keys store)
            ∙ rw (find-member file store rec e) refl in
          subst Goal (sym e) (
            replaced-Recovered dead us rec final
              (file_updates-IsElsewhere net dead (h ∷ hs) avoids store file)
              (subst (λ o. Purged dead (replaced dead o (some rec)) final) updated
                (subst (λ o. Purged dead (replaced dead (find file updates) o) final) e purged)))
    ]

-- Re-replication for a dead server, when some server can take replicas: no file comes or goes; each
-- keeps its hash and its other replicas in order, gets the new ones, keeps none on the dead server,
-- and has replica counts that agree with its records.
pub rereplicate-Recovered :
    {F : Type 0} (net : Cluster) (addresses : List Bytes) (health : Map ℤ (ServerHealth F))
    (store : MetadataMap) (dead file h : Bytes) (hs : List Bytes)
    → healthy_servers health dead addresses ≡ h ∷ hs
    → Recovered dead
        (file_updates net dead (h ∷ hs) store file)
        (find file store)
        (find file (rereplicate_dead_server_chunks net addresses health store dead))
unfolding rereplicate_dead_server_chunks
rereplicate-Recovered net addresses health store dead file h hs e =
    let avoids = subst (Avoids dead) e (healthy_servers-Avoids health dead addresses) in
    rw e (files-Recovered net store dead file h hs avoids)

-- Without a server to take replicas, re-replication leaves a store that has a file as it is.
pub rereplicate-no_candidate :
    {F : Type 0} (net : Cluster) (addresses : List Bytes) (health : Map ℤ (ServerHealth F))
    (store : MetadataMap) (dead file : Bytes) (rec : FileRecord)
    → healthy_servers health dead addresses ≡ []
    → find file store ≡ some rec
    → rereplicate_dead_server_chunks net addresses health store dead ≡ store
unfolding rereplicate_dead_server_chunks list_files_snapshot find
rereplicate-no_candidate net addresses health [] dead file rec e h = cc
rereplicate-no_candidate net addresses health (x ∷ rest) dead file rec e h = rw e refl
