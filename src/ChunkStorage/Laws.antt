-- ===== src/ChunkStorage/Laws.antt =====
-- What the operations of `ChunkStorage` in src/cluster_server/chunk_service.cpp do to each other.
use distributed_file_grid.Prelude.{
  ℕ, suc, ◌≡◌, refl, ◌∙◌, ap, subst, ◌≢◌, inl, inr, Bool, true, false, [], Option, none, some,
  arith, Bool-cases, Option-cases, length,
}
use distributed_file_grid.Prelude.Key.{Bytes, bytes_eq_iff, bytes_key, ℤ_key}
use distributed_file_grid.Prelude.Map.{
  Map, find, insert, erase, member, find-insert, find-erase, same_refl,
}
use distributed_file_grid.ChunkStorage.{
  ChunkStorage, Io, Stored, finish_store, generate_chunk_path, async_store_chunk,
  async_retrieve_chunk, delete_chunk, list_chunks, restart,
}
use distributed_file_grid.ChunkStorage.Files.{
  WriteResult, write_all, write_all_complete, write_all_enough, read_all_enough, IsEnough,
}
use distributed_file_grid.Metadata.{is_empty}
use mathlib.Core.Option.{some-injective}

-- The registry knows a path for the chunk, and the file there has this content.
pub record IsHeld (s : ChunkStorage) (chunk_id path content : Bytes) : Type 0 where
  pub known : find chunk_id s.chunk_registry ≡ some path
  pub on_disk : find path s.files ≡ some content

-- The file opens, and the calls on it can move n bytes.
abbrev pub IsReady : Io → ℕ → Type 0
IsReady io n = (io.opens ≡ true) × IsEnough io.calls n

pub retrieve-IsHeld :
    (s : ChunkStorage) (io : Io) (chunk_id path content fallback : Bytes)
    → IsHeld s chunk_id path content
    → IsReady io (length content)
    → async_retrieve_chunk s io chunk_id fallback ≡ some (record { storage = s; content = content })
unfolding async_retrieve_chunk
retrieve-IsHeld s io chunk_id path content fallback h r =
    rw (h.known, h.on_disk, r.0, read_all_enough io.calls [] content r.1) refl

abbrev stored : ChunkStorage → Bytes → Bytes → Bytes → ChunkStorage
stored s chunk_id path content = record {
  storage_path = s.storage_path;
  chunk_registry = insert chunk_id path s.chunk_registry;
  next_seq = suc s.next_seq;
  files = insert path content s.files;
}

stored-IsHeld :
    (s : ChunkStorage) (chunk_id path content : Bytes)
    → IsHeld (stored s chunk_id path content) chunk_id path content
stored-IsHeld s chunk_id path content = record {
  known = find-insert chunk_id chunk_id path s.chunk_registry ∙ rw (same_refl chunk_id) refl;
  on_disk = find-insert path path content s.files ∙ rw (same_refl path) refl;
}

pub store-retrieve :
    (s : ChunkStorage) (io io' : Io) (chunk_id content fallback : Bytes)
    → IsReady io (length content)
    → IsReady io' (length content)
    → (r : Stored) × (async_store_chunk s io chunk_id content ≡ some r)
      × (r.result ≡ (true, generate_chunk_path s io chunk_id))
      × (async_retrieve_chunk r.storage io' chunk_id fallback
          ≡ some (record { storage = r.storage; content = content }))
unfolding async_store_chunk
store-retrieve s io io' chunk_id content fallback h h' =
    let path = generate_chunk_path s io chunk_id in
    (
      record { storage = stored s chunk_id path content; result = (true, path) },
      rw (h.0, write_all_enough io.calls [] content h.1) refl,
      refl,
      retrieve-IsHeld (stored s chunk_id path content) io' chunk_id path content fallback
          (stored-IsHeld s chunk_id path content) h',
    )

-- Whether a task that ends reports success.
abbrev reports : Option Stored → Bool
reports none = false
reports (some r) = r.result.0

finish-IsHeld :
    (s : ChunkStorage) (chunk_id path content : Bytes) (w : WriteResult) (r : Stored)
    → (w.success ≡ true → w.content ≡ content)
    → finish_store s chunk_id path (some w) ≡ some r
    → r.result.0 ≡ true
    → IsHeld r.storage chunk_id r.result.1 content
finish-IsHeld s chunk_id path content w r complete h ok = elim (Bool-cases w.success) [
  | inl e ↦
      let h' = rw e at h in
      let whole : w.content ≡ content = complete e in
      subst (λ (t : Stored). IsHeld t.storage chunk_id t.result.1 content) (some-injective _ _ h')
        (record {
          known =
              find-insert chunk_id chunk_id path s.chunk_registry ∙ rw (same_refl chunk_id) refl;
          on_disk = find-insert path path w.content s.files ∙ rw (same_refl path) (ap some whole);
        })
  | inr e ↦ let h' = rw e at h in absurd (cc (ap reports h', ok))
]

-- Whatever the calls that write a chunk answer, a task that ends and reports success has the whole
-- chunk in the file that the registry knows for it.
pub store-IsHeld :
    (s : ChunkStorage) (io : Io) (chunk_id content : Bytes) (r : Stored)
    → async_store_chunk s io chunk_id content ≡ some r
    → r.result.0 ≡ true
    → IsHeld r.storage chunk_id r.result.1 content
unfolding async_store_chunk
store-IsHeld s io chunk_id content r h ok = elim (Bool-cases io.opens) [
  | inl e ↦
      let path = generate_chunk_path s io chunk_id in
      let counted = record s { next_seq = suc s.next_seq } in
      let h' = rw e at h in
      elim (Option-cases (write_all io.calls [] content)) [
        | inl none_left ↦ absurd (cc (rw none_left at h'))
        | inr (w, ends) ↦
            finish-IsHeld counted chunk_id path content w r
              (write_all_complete io.calls [] content w ends) (rw ends at h') ok
      ]
  | inr e ↦ let h' = rw e at h in absurd (cc (ap reports h', ok))
]

abbrev removed : ChunkStorage → Bytes → Bytes → ChunkStorage
removed s chunk_id path = record s {
  chunk_registry = erase chunk_id s.chunk_registry;
  files = erase path s.files;
}

delete-IsHeld :
    (s : ChunkStorage) (io : Io) (chunk_id path content : Bytes)
    → IsHeld s chunk_id path content
    → io.removes ≡ true
    → delete_chunk s io chunk_id ≡ (removed s chunk_id path, true)
unfolding delete_chunk
delete-IsHeld s io chunk_id path content h r = rw (h.known, r) refl

delete-unknown :
    (s : ChunkStorage) (io : Io) (chunk_id : Bytes)
    → find chunk_id s.chunk_registry ≡ none
    → delete_chunk s io chunk_id ≡ (s, false)
unfolding delete_chunk
delete-unknown s io chunk_id h = rw h refl

retrieve-unknown :
    (s : ChunkStorage) (io : Io) (chunk_id : Bytes)
    → find chunk_id s.chunk_registry ≡ none
    → async_retrieve_chunk s io chunk_id [] ≡ some (record { storage = s; content = [] })
unfolding async_retrieve_chunk
retrieve-unknown s io chunk_id h = rw h refl

find-erase-same : (k : Bytes) (m : Map Bytes Bytes) → find k (erase k m) ≡ none
find-erase-same k m = find-erase k k m ∙ rw (same_refl k) refl

member_of : (k v : Bytes) (m : Map Bytes Bytes) → find k m ≡ some v → member k m ≡ true
member_of k v m h = ap (λ (o : Option Bytes). elim o [ none ↦ false | some w ↦ true ]) h

retrieve_fallback :
    (s : ChunkStorage) (io : Io) (chunk_id path content : Bytes)
    → find chunk_id s.chunk_registry ≡ none
    → find path s.files ≡ some content
    → is_empty path ≡ false
    → IsReady io (length content)
    → async_retrieve_chunk s io chunk_id path
      ≡ some (record {
        storage = record s { chunk_registry = insert chunk_id path s.chunk_registry };
        content = content;
      })
unfolding async_retrieve_chunk
retrieve_fallback s io chunk_id path content h d e r =
    rw (h, e, member_of path content s.files d, d, r.0, read_all_enough io.calls [] content r.1)
      refl

-- A deletion of a chunk that is held, if removing the file raises no exception, succeeds and leaves
-- no file there; the chunk is then retrieved empty and cannot be deleted again, and the registry
-- keeps every other chunk.
pub delete-retrieve :
    (s : ChunkStorage) (io io' : Io) (chunk_id path content : Bytes)
    → IsHeld s chunk_id path content
    → io.removes ≡ true
    → let after = delete_chunk s io chunk_id in
      (after.1 ≡ true)
      × (find path after.0.files ≡ none)
      × (async_retrieve_chunk after.0 io' chunk_id []
          ≡ some (record { storage = after.0; content = [] }))
      × (delete_chunk after.0 io chunk_id ≡ (after.0, false))
      × ((other : Bytes)
          → other ≢ chunk_id
          → find other after.0.chunk_registry ≡ find other s.chunk_registry)
delete-retrieve s io io' chunk_id path content h r =
    let after = removed s chunk_id path in
    let gone = find-erase-same chunk_id s.chunk_registry in
    rw (delete-IsHeld s io chunk_id path content h r) (
      refl,
      find-erase-same path s.files,
      retrieve-unknown after io' chunk_id gone,
      delete-unknown after io chunk_id gone,
      λ other ne.
          find-erase chunk_id other s.chunk_registry ∙ ground (arith, bytes_eq_iff chunk_id other),
    )

-- After a restart no chunk is listed, and a chunk on disk is neither deleted nor retrieved under
-- its id; with its path it is retrieved, and then a deletion that raises no exception succeeds.
pub restart-retrieve :
    (s : ChunkStorage) (io : Io) (chunk_id path content : Bytes)
    → IsHeld s chunk_id path content
    → is_empty path ≡ false
    → IsReady io (length content)
    → io.removes ≡ true
    → let t = restart s in
      let again = record t { chunk_registry = insert chunk_id path t.chunk_registry } in
      (list_chunks t ≡ [])
      × (delete_chunk t io chunk_id ≡ (t, false))
      × (async_retrieve_chunk t io chunk_id [] ≡ some (record { storage = t; content = [] }))
      × (async_retrieve_chunk t io chunk_id path
          ≡ some (record { storage = again; content = content }))
      × ((delete_chunk again io chunk_id).1 ≡ true)
unfolding restart list_chunks find
restart-retrieve s io chunk_id path content h e r m =
    let t = restart s in
    let again = record t { chunk_registry = insert chunk_id path t.chunk_registry } in
    let held : IsHeld again chunk_id path content = record {
      known = find-insert chunk_id chunk_id path [] ∙ rw (same_refl chunk_id) refl;
      on_disk = h.on_disk;
    } in
    (
      refl,
      delete-unknown t io chunk_id refl,
      retrieve-unknown t io chunk_id refl,
      retrieve_fallback t io chunk_id path content refl h.on_disk e r,
      ap (λ d. d.1) (delete-IsHeld again io chunk_id path content held m),
    )
