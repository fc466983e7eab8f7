-- ===== src/Failover.antt =====
-- Re-replication after the death of a cluster server: `rereplicate_dead_server_chunks` and
-- `replicate_chunk_to_server` of src/head_server/head_server.cpp, over the on-disk metadata store.
-- The two transfers that go over the network are the functions of a `Cluster`: what a server returns
-- for a chunk, and where a server stores a chunk that is sent to it. The console output is left out.
pub mod Plan
pub mod Outcome
pub mod Callback
pub mod Replicas
pub mod Tests
use distributed_file_grid.Prelude.{
  ℕ, zero, suc, ◌+◌, ◌-◌, ◌*◌, ◌/◌, ◌%◌, ◌^◌, ◌≤◌, ◌<◌, ◌≡◌, refl, sym, ◌∙◌, ap, subst, ◌≢◌, ◌↔◌,
  ◌⊎◌, inl, inr, Bool, true, false, ◌&&◌, ◌||◌, not, List, [], ◌∷◌, ◌++◌, map, Option, none, some,
  arith, ltb, leb, ◌==◌, if◌then◌else◌, Bool-cases, Option-cases, &&-true, lt→ltb, ltb→lt, leb→le,
  ==_iff, Bool_eq_of_iff, length, take, drop, replicate, get_or, keep, count_if, any, find_if, All,
  length-append, length-take, length-drop, length-replicate, take-append-drop, All-append, All-keep,
  All-mono, count_if-append, count_if-le-length, All-keep_test, String,
}
use distributed_file_grid.Prelude.Int.{ℤ, pos, negsuc, ltb_ℤ, eqb_ℤ}
use distributed_file_grid.Prelude.Key.{
  Key, Bytes, bytes_eq, bytes_lt, bytes_eq_iff, bytes_key, ℤ_key, eqb_ℤ_iff,
}
use distributed_file_grid.Prelude.Map.{
  Map, find, insert, erase, member, find_or, keys, values, find-insert, find-erase, same_refl,
  All-insert, All-erase, All-find,
}
use distributed_file_grid.Prelude.Text.{
  str, is_space, is_digit, digits, to_string, int_to_string, skip_ws, scan_digits, read_int,
  int_limit, long_limit, stoi, stoll, find_char, starts_with, find_sub, substr, word_of, after_word,
  read_word,
}
use distributed_file_grid.Address.{parse_address, default_port}
use distributed_file_grid.Health.{ServerHealth}
use distributed_file_grid.Metadata.{
  ChunkRecord, FileRecord, MetadataMap, is_empty, on_other, list_files_snapshot, query_metadata,
  atomic_replace_server_chunks, delete_server_metadata,
}

pub record Cluster : Type 0 where
  -- `read_chunk_from_server`: server, chunk, path, file; no bytes when it fails
  pub read_chunk : Bytes → ℤ → Bytes → Bytes → Bytes
  -- `repair_chunk_on_server`: server, chunk, file, data; the path, or `none` when it fails
  pub write_chunk : Bytes → ℤ → Bytes → Bytes → Option Bytes

-- The path at the target, or `none` when the replication fails.
unfoldable pub replicate_chunk_to_server :
    Cluster → Bytes → ℤ → Bytes → Bytes → Bytes → Option Bytes
replicate_chunk_to_server net source cid target filename source_path =
    let chunk_data = net.read_chunk source cid source_path filename in
    if is_empty chunk_data then none else net.write_chunk target cid filename chunk_data

module _ {F : Type 0} where
  abbrev pub is_down : Bytes → Bytes → ℤ × ServerHealth F → Bool
  is_down srv host (i, h) =
      if bytes_eq h.ip srv || bytes_eq h.ip host then not h.is_healthy else false

  -- Whether a registered server can take replicas: it is not the dead one, and no health record with
  -- its address or its host is unhealthy.
  unfoldable pub is_candidate : Map ℤ (ServerHealth F) → Bytes → Bytes → Bool
  unfolding parse_address
  is_candidate health dead srv =
      if bytes_eq srv dead
      then false
      else not (any (is_down srv (parse_address srv default_port).0) health)

  unfoldable pub healthy_servers : Map ℤ (ServerHealth F) → Bytes → List Bytes → List Bytes
  unfolding is_candidate
  healthy_servers health dead addresses = keep (is_candidate health dead) addresses

-- chunk_map[cr.chunk_id].push_back(cr) for each record
unfoldable pub group_from : Map ℤ (List ChunkRecord) → List ChunkRecord → Map ℤ (List ChunkRecord)
group_from m [] = m
group_from m (cr ∷ rest) =
    group_from (insert cr.chunk_id (find_or [] cr.chunk_id m ++ (cr ∷ [])) m) rest

-- The variables of the loop over the replicas of a chunk.
pub record Scan : Type 0 where
  pub has_dead_replica : Bool
  pub source_server : Bytes
  pub source_path : Bytes
  pub dead_checksum : Bytes

abbrev pub no_scan : Scan
no_scan = record {
  has_dead_replica = false;
  source_server = [];
  source_path = [];
  dead_checksum = [];
}

abbrev pub scan_one : Bytes → Scan → ChunkRecord → Scan
scan_one dead s r =
    if bytes_eq r.server dead
    then record s { has_dead_replica = true; dead_checksum = r.checksum }
    else if is_empty s.source_server
    then record s { source_server = r.server; source_path = r.path }
    else s

unfoldable pub scan_replicas : Bytes → Scan → List ChunkRecord → Scan
scan_replicas dead s [] = s
scan_replicas dead s (r ∷ rest) = scan_replicas dead (scan_one dead s r) rest

abbrev pub hosts : Bytes → ChunkRecord → Bool
hosts server r = bytes_eq r.server server

-- The first healthy server without the chunk.
unfoldable pub pick_target : List Bytes → List ChunkRecord → Option Bytes
pick_target healthy records = find_if (λ cand. not (any (hosts cand) records)) healthy

pub record Transfer : Type 0 where
  pub source_server : Bytes
  pub source_path : Bytes
  pub checksum : Bytes
  pub target : Bytes

abbrev to_target : Scan → Option Bytes → Option Transfer
to_target s none = none
to_target s (some target) =
    if is_empty target
    then none
    else some (record {
      source_server = s.source_server;
      source_path = s.source_path;
      checksum = s.dead_checksum;
      target = target;
    })

-- The transfer for a chunk; `none` where the loop goes on to the next chunk.
unfoldable pub plan_transfer : Bytes → List Bytes → List ChunkRecord → Option Transfer
unfolding scan_replicas pick_target
plan_transfer dead healthy records =
    let s = scan_replicas dead no_scan records in
    if not s.has_dead_replica
    then none
    else if is_empty s.source_server
    then none
    else to_target s (pick_target healthy records)

abbrev pub default_path : Bytes → Bytes → ℤ → Bytes
default_path target filename cid =
    str "/tmp/chunks/" ++ (target ++ (b'_' ∷ (filename ++ (str "_chunk_" ++ int_to_string cid))))

abbrev pub new_replica : Bytes → ℤ → List ChunkRecord → Transfer → Bytes → ChunkRecord
new_replica filename cid records t new_path = record {
  chunk_id = cid;
  server = t.target;
  path = if is_empty new_path then default_path t.target filename cid else new_path;
  checksum = t.checksum;
  replica_count = pos (length records);
}

module _ (net : Cluster) (dead : Bytes) (healthy : List Bytes) where
  abbrev pub perform : Bytes → ℤ → List ChunkRecord → Option Transfer → Option ChunkRecord
  perform filename cid records none = none
  perform filename cid records (some t) =
      elim (replicate_chunk_to_server net t.source_server cid t.target filename t.source_path) [
        | none ↦ none
        | some new_path ↦ some (new_replica filename cid records t new_path)
      ]

  -- One round of the loop over the chunks of a file: the record of the new replica, if there is one.
  unfoldable pub rereplicate_chunk : Bytes → ℤ → List ChunkRecord → Option ChunkRecord
  unfolding plan_transfer replicate_chunk_to_server int_to_string
  rereplicate_chunk filename cid records =
      perform filename cid records (plan_transfer dead healthy records)

  abbrev pub push_replica : Option ChunkRecord → List ChunkRecord → List ChunkRecord
  push_replica none rest = rest
  push_replica (some cr) rest = cr ∷ rest

  unfoldable pub rereplicate_chunks : Bytes → Map ℤ (List ChunkRecord) → List ChunkRecord
  unfolding rereplicate_chunk
  rereplicate_chunks filename [] = []
  rereplicate_chunks filename ((cid, records) ∷ rest) =
      push_replica (rereplicate_chunk filename cid records) (rereplicate_chunks filename rest)

  -- file_chunks_to_update[filename]
  unfoldable pub file_updates : MetadataMap → Bytes → List ChunkRecord
  unfolding rereplicate_chunks group_from query_metadata
  file_updates store filename =
      rereplicate_chunks filename (group_from [] (query_metadata store filename).chunks)

  abbrev pub with_updates :
      Bytes → List ChunkRecord → Map Bytes (List ChunkRecord) → Map Bytes (List ChunkRecord)
  with_updates filename [] m = m
  with_updates filename (cr ∷ more) m = insert filename (cr ∷ more) m

  unfoldable pub all_updates : MetadataMap → List Bytes → Map Bytes (List ChunkRecord)
  unfolding file_updates
  all_updates store [] = []
  all_updates store (filename ∷ rest) =
      with_updates filename (file_updates store filename) (all_updates store rest)

abbrev replace_updated : MetadataMap → Bytes → Map Bytes (List ChunkRecord) → MetadataMap
replace_updated store dead [] = store
replace_updated store dead (u ∷ more) = atomic_replace_server_chunks store dead (u ∷ more)

abbrev rereplicate_files : Cluster → MetadataMap → Bytes → List Bytes → List Bytes → MetadataMap
rereplicate_files net store dead [] healthy = delete_server_metadata store dead
rereplicate_files net store dead (f ∷ fs) [] = store
rereplicate_files net store dead (f ∷ fs) (h ∷ hs) =
    delete_server_metadata
      (replace_updated store dead (all_updates net dead (h ∷ hs) store (f ∷ fs))) dead

-- The metadata store afterwards, from the addresses of the registry and the health records.
unfoldable pub rereplicate_dead_server_chunks :
    {F : Type 0} → Cluster → List Bytes → Map ℤ (ServerHealth F) → MetadataMap → Bytes → MetadataMap
unfolding healthy_servers list_files_snapshot all_updates
rereplicate_dead_server_chunks net addresses health store dead =
    rereplicate_files net store dead (list_files_snapshot store)
      (healthy_servers health dead addresses)
