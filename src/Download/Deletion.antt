-- ===== src/Download/Deletion.antt =====
-- What a deletion does to the metadata.
use distributed_file_grid.Prelude.{
  ◌≡◌, refl, inl, inr, ◌⊎◌, ◌≢◌, Bool, true, false, not, List, [], ◌∷◌, map, Option, arith,
  if◌then◌else◌, Bool-cases, All, any,
}
use distributed_file_grid.Prelude.Key.{Bytes, bytes_eq, bytes_eq_iff, bytes_key, ℤ_key}
use distributed_file_grid.Prelude.Map.{find-erase}
use distributed_file_grid.Prelude.Text.{str}
use distributed_file_grid.Metadata.{MetadataMap, no_record, query_metadata, delete_entry}
use distributed_file_grid.Download.{
  ChunkLocation, is_success, delete_chunks, delete_located, handle_client_delete, to_location,
}

delete_entry-query :
    (store : MetadataMap) (filename file : Bytes)
    → query_metadata (delete_entry store filename) file
      ≡ (if bytes_eq filename file then no_record else query_metadata store file)
unfolding query_metadata delete_entry
delete_entry-query store filename file =
    ground (arith, find-erase filename file store, bytes_eq_iff filename file)

module _ (reply : ChunkLocation → Bytes → Option Bytes) (filename : Bytes) where
  -- The server at the location answers that it deleted its chunk.
  abbrev pub confirms : ChunkLocation → Bool
  confirms loc = is_success (reply loc filename)

  delete_chunks-All :
      (locs : List ChunkLocation)
      → delete_chunks reply filename locs ≡ true
      → All (λ loc. confirms loc ≡ true) locs
  unfolding delete_chunks
  delete_chunks-All [] h = tt
  delete_chunks-All (loc ∷ rest) h = elim (Bool-cases (delete_chunks reply filename rest)) [
    | inl e ↦ (rw e at h, delete_chunks-All rest e)
    | inr e ↦ absurd (cc (rw e at h))
  ]

  delete_chunks-any :
      (locs : List ChunkLocation)
      → delete_chunks reply filename locs ≡ false
      → any (λ loc. not (confirms loc)) locs ≡ true
  unfolding delete_chunks
  delete_chunks-any [] h = absurd (cc h)
  delete_chunks-any (loc ∷ rest) h = elim (Bool-cases (confirms loc)) [
    | inl e ↦ rw e (delete_chunks-any rest (ground arith))
    | inr e ↦ rw e refl
  ]

  -- What the client is told, and the store, after a deletion of the chunks at the locations.
  abbrev pub Deletion : MetadataMap → List ChunkLocation → Bytes × MetadataMap → Type 0
  Deletion store locs (sent, store') =
      ((locs ≡ []) × (sent ≡ str "ERROR: File not found\n") × (store' ≡ store))
      ⊎ ((locs ≢ [])
          × All (λ loc. confirms loc ≡ true) locs
          × (sent ≡ str "SUCCESS\n")
          × ((file : Bytes)
              → query_metadata store' file
                ≡ (if bytes_eq filename file then no_record else query_metadata store file)))
      ⊎ ((any (λ loc. not (confirms loc)) locs ≡ true)
          × (sent ≡ str "ERROR: Could not delete chunks\n")
          × (store' ≡ store))

  delete_located-Deletion :
      (store : MetadataMap) (locs : List ChunkLocation)
      → Deletion store locs (delete_located reply store filename locs)
  unfolding delete_located
  delete_located-Deletion store [] = inl (refl, refl, refl)
  delete_located-Deletion store (loc ∷ rest) =
      elim (Bool-cases (delete_chunks reply filename (loc ∷ rest))) [
        | inl e ↦
            let all = delete_chunks-All (loc ∷ rest) e in
            rw e (inr (inl ((λ h. cc h), all, refl, delete_entry-query store filename)))
        | inr e ↦
            let some_denies = delete_chunks-any (loc ∷ rest) e in
            rw e (inr (inr (some_denies, refl, refl)))
      ]

-- A file with chunks, all of which their servers confirm to have deleted, is forgotten, and every
-- other file has the same record as before. A file without chunks, or with a chunk that a server
-- does not confirm, leaves the store as it is. The client is told which of the three it is.
pub handle_client_delete_lem :
    (reply : ChunkLocation → Bytes → Option Bytes) (store : MetadataMap) (filename : Bytes)
    → Deletion reply filename store
        (map to_location (query_metadata store filename).chunks)
        (handle_client_delete reply store filename)
unfolding handle_client_delete
handle_client_delete_lem reply store filename =
    delete_located-Deletion reply filename store
      (map to_location (query_metadata store filename).chunks)
