-- ===== src/Download.antt =====
-- Downloads and deletions of files: `FileReconstructor` and `handle_client_delete` of
-- src/head_server/head_server.cpp. What a cluster server answers over the network is an argument:
-- `ask` for the hash of a replica (`none` where the call fails), `reply` for the text that comes back
-- for a DELETE_CHUNK request (`none` where there is none). `std::sort` leaves the order of equal
-- servers open; the first of them is taken here.
pub mod Votes
pub mod Choice
pub mod Deletion
pub mod Tests
use distributed_file_grid.Prelude.{
  ℕ, zero, suc, ◌+◌, ◌-◌, ◌*◌, ◌/◌, ◌%◌, ◌^◌, ◌≤◌, ◌<◌, ◌≡◌, refl, sym, ◌∙◌, ap, subst, ◌≢◌, ◌↔◌,
  ◌⊎◌, inl, inr, Bool, true, false, ◌&&◌, ◌||◌, not, List, [], ◌∷◌, ◌++◌, map, Option, none, some,
  arith, ltb, leb, ◌==◌, if◌then◌else◌, Bool-cases, Option-cases, &&-true, lt→ltb, ltb→lt, leb→le,
  ==_iff, Bool_eq_of_iff, length, take, drop, replicate, get_or, keep, count_if, any, find_if, All,
  length-append, length-take, length-drop, length-replicate, take-append-drop, All-append, All-keep,
  All-mono, count_if-append, count_if-le-length, All-keep_test, String,
}
use distributed_file_grid.Prelude.Int.{ℤ, pos, negsuc, ltb_ℤ, eqb_ℤ}
use distributed_file_grid.Prelude.Key.{
  Key, Bytes, bytes_eq, bytes_lt, bytes_eq_iff, bytes_key, ℤ_key, eqb_ℤ_iff,
}
use distributed_file_grid.Prelude.Map.{
  Map, find, insert, erase, member, find_or, keys, values, find-insert, find-erase, same_refl,
  All-insert, All-erase, All-find,
}
use distributed_file_grid.Prelude.Text.{
  str, is_space, is_digit, digits, to_string, int_to_string, skip_ws, scan_digits, read_int,
  int_limit, long_limit, stoi, stoll, find_char, starts_with, find_sub, substr, word_of, after_word,
  read_word,
}
use distributed_file_grid.Prelude.Floats.{Floats}
use distributed_file_grid.Registry.{ServerEntry, Registry, address, get_all}
use distributed_file_grid.Metadata.{
  ChunkRecord, FileRecord, MetadataMap, is_empty, query_metadata, delete_entry,
}

pub record ChunkLocation : Type 0 where
  pub chunk_id : ℤ
  pub server_ip : Bytes
  pub file_path : Bytes

-- static_cast<int> of a `long long`
abbrev low_bits : ℤ → ℕ
low_bits (pos n) = n % 2 ^ 32
low_bits (negsuc n) = 2 ^ 32 - 1 - n % 2 ^ 32

abbrev pub to_int : ℤ → ℤ
to_int z = let m = low_bits z in if ltb m (2 ^ 31) then pos m else negsuc (2 ^ 32 - 1 - m)

abbrev pub to_location : ChunkRecord → ChunkLocation
to_location r = record { chunk_id = to_int r.chunk_id; server_ip = r.server; file_path = r.path }

unfoldable pub get_chunk_locations : MetadataMap → Bytes → List ChunkLocation × Bytes
unfolding query_metadata
get_chunk_locations store filename =
    let rec = query_metadata store filename in (map to_location rec.chunks, rec.file_hash)

-- chunk_replicas[location.chunk_id].push_back(location) for each location
unfoldable pub group_locations :
    Map ℤ (List ChunkLocation) → List ChunkLocation → Map ℤ (List ChunkLocation)
group_locations m [] = m
group_locations m (loc ∷ rest) =
    group_locations (insert loc.chunk_id (find_or [] loc.chunk_id m ++ (loc ∷ [])) m) rest

pub record ChunkFetchPlan : Type 0 where
  pub chunk_id : ℤ
  pub best_server : ChunkLocation
  pub majority_hash : Bytes

-- The loop over the counts, which starts with no hash and a count of 0.
unfoldable pub majority : Bytes → ℕ → Map Bytes ℕ → Bytes
majority hash max_count [] = hash
majority hash max_count ((h, n) ∷ rest) =
    let (hash', max') = if ltb max_count n then (h, n) else (hash, max_count) in
    majority hash' max' rest

pub record HashAnswer (F : Type 0) : Type 0 where
  pub hash : Bytes
  pub load_score : F
  pub active_connections : ℤ

pub record ServerInfo (F : Type 0) : Type 0 where
  pub loc : ChunkLocation
  pub load_score : F
  pub active_connections : ℤ

pub record ChunkConsensus (F : Type 0) : Type 0 where
  pub hash_counts : Map Bytes ℕ
  pub hash_to_servers : Map Bytes (List (ServerInfo F))

abbrev pub no_answers : {F : Type 0} → ChunkConsensus F
no_answers = record { hash_counts = []; hash_to_servers = [] }

abbrev pub info : {F : Type 0} → ChunkLocation → HashAnswer F → ServerInfo F
info loc a = record {
  loc = loc;
  load_score = a.load_score;
  active_connections = a.active_connections;
}

abbrev pub add_answer :
    {F : Type 0} → ChunkConsensus F → ChunkLocation → Option (HashAnswer F) → ChunkConsensus F
add_answer c loc none = c
add_answer c loc (some a) = record {
  hash_counts = insert a.hash (suc (find_or 0 a.hash c.hash_counts)) c.hash_counts;
  hash_to_servers =
      insert a.hash (find_or [] a.hash c.hash_to_servers ++ (info loc a ∷ [])) c.hash_to_servers;
}

module _ (fl : Floats) (ask : ChunkLocation → Bytes → Option (HashAnswer fl.Float)) where
  -- The answers of the replicas of a chunk.
  unfoldable pub gather :
      Bytes → ChunkConsensus fl.Float → List ChunkLocation → ChunkConsensus fl.Float
  gather filename c [] = c
  gather filename c (loc ∷ rest) = gather filename (add_answer c loc (ask loc filename)) rest

  -- The order of the servers: fewer connections, then a lower load.
  abbrev pub lighter : ServerInfo fl.Float → ServerInfo fl.Float → Bool
  lighter a b =
      if eqb_ℤ a.active_connections b.active_connections
      then fl.less a.load_score b.load_score
      else ltb_ℤ a.active_connections b.active_connections

  -- The front of the sorted servers.
  unfoldable pub best : ServerInfo fl.Float → List (ServerInfo fl.Float) → ServerInfo fl.Float
  best x [] = x
  best x (y ∷ ys) = best (if lighter y x then y else x) ys

  abbrev plan_from : ℤ → Bytes → List (ServerInfo fl.Float) → Option ChunkFetchPlan
  plan_from cid hash [] = none
  plan_from cid hash (x ∷ xs) =
      some (record { chunk_id = cid; best_server = (best x xs).loc; majority_hash = hash })

  abbrev plan_counted : ℤ → ChunkConsensus fl.Float → Map Bytes ℕ → Option ChunkFetchPlan
  plan_counted cid c [] = none
  plan_counted cid c (e ∷ counts) =
      let hash = majority [] 0 (e ∷ counts) in
      plan_from cid hash (find_or [] hash c.hash_to_servers)

  -- The plan of a chunk; `none` where no hash of it could be verified.
  unfoldable pub plan_chunk : Bytes → ℤ → List ChunkLocation → Option ChunkFetchPlan
  unfolding gather majority best
  plan_chunk filename cid replicas =
      let c = gather filename no_answers replicas in plan_counted cid c c.hash_counts

  abbrev add_plan : ℤ → Option ChunkFetchPlan → List ChunkFetchPlan ⊎ ℤ → List ChunkFetchPlan ⊎ ℤ
  add_plan cid none rest = inr cid
  add_plan cid (some plan) (inl plans) = inl (plan ∷ plans)
  add_plan cid (some plan) (inr failed) = inr failed

  -- The plans, or the first chunk that has none.
  unfoldable pub fetch_plans : Bytes → Map ℤ (List ChunkLocation) → List ChunkFetchPlan ⊎ ℤ
  unfolding plan_chunk
  fetch_plans filename [] = inl []
  fetch_plans filename ((cid, replicas) ∷ rest) =
      add_plan cid (plan_chunk filename cid replicas) (fetch_plans filename rest)

  abbrev public_port_of : Option ServerEntry → ℤ
  public_port_of none = pos 8080
  public_port_of (some e) = e.public_port

  abbrev host_part : Bytes → Bytes
  host_part s = elim (find_char b':' s) [ none ↦ s | some n ↦ take n s ]

  unfoldable pub chunk_loc_line : Registry → ChunkFetchPlan → Bytes
  unfolding get_all
  chunk_loc_line registry plan =
      let server = plan.best_server.server_ip in
      let port = public_port_of (find_if (λ e. bytes_eq (address e) server) (get_all registry)) in
      str "CHUNK_LOC "
      ++ (int_to_string plan.chunk_id
          ++ (str " "
              ++ (host_part server
                  ++ (str " "
                      ++ (int_to_string port ++ (str " " ++ (plan.majority_hash ++ str "\n")))))))

  unfoldable pub loc_lines : Registry → List ChunkFetchPlan → Bytes
  unfolding chunk_loc_line
  loc_lines registry [] = []
  loc_lines registry (plan ∷ rest) = chunk_loc_line registry plan ++ loc_lines registry rest

  abbrev planned_text : Registry → Bytes → List ChunkFetchPlan ⊎ ℤ → Bytes × Bool
  planned_text registry file_hash (inl plans) =
      (loc_lines registry plans ++ (str "FILE_HASH " ++ (file_hash ++ str "\nEOF\n")), true)
  planned_text registry file_hash (inr cid) =
      (str "ERROR: Could not verify hashes for chunk " ++ (int_to_string cid ++ str "\n"), false)

  -- What is sent to the client, and what is returned.
  unfoldable pub stream_locations : Registry → Bytes → List ChunkLocation → Bytes → Bytes × Bool
  unfolding loc_lines fetch_plans group_locations
  stream_locations registry filename [] file_hash =
      if is_empty file_hash
      then (str "ERROR: No chunks found for file\n", false)
      else (str "FILE_HASH " ++ (file_hash ++ str "\nEOF\n"), true)
  stream_locations registry filename (loc ∷ rest) file_hash =
      let chunk_replicas = group_locations [] (loc ∷ rest) in
      let (text, ok) = planned_text registry file_hash (fetch_plans filename chunk_replicas) in
      (
        str "FILE_HASH "
            ++ (file_hash
                ++ (str "\nCHUNKS " ++ (to_string (length chunk_replicas) ++ (str "\n" ++ text)))),
        ok,
      )

  unfoldable pub stream_file_to_client : Registry → MetadataMap → Bytes → Bytes × Bool
  unfolding stream_locations get_chunk_locations
  stream_file_to_client registry store filename =
      let (locations, file_hash) = get_chunk_locations store filename in
      stream_locations registry filename locations file_hash

abbrev pub is_success : Option Bytes → Bool
is_success none = false
is_success (some text) = elim (find_sub (str "SUCCESS") text) [ none ↦ false | some i ↦ true ]

module _ (reply : ChunkLocation → Bytes → Option Bytes) where
  -- Every location is asked, whatever the others answer.
  unfoldable pub delete_chunks : Bytes → List ChunkLocation → Bool
  unfolding find_sub
  delete_chunks filename [] = true
  delete_chunks filename (loc ∷ rest) =
      delete_chunks filename rest && is_success (reply loc filename)

  -- What is sent to the client, and the store afterwards.
  unfoldable pub delete_located : MetadataMap → Bytes → List ChunkLocation → Bytes × MetadataMap
  unfolding delete_chunks delete_entry
  delete_located store filename [] = (str "ERROR: File not found\n", store)
  delete_located store filename (loc ∷ rest) =
      if delete_chunks filename (loc ∷ rest)
      then (str "SUCCESS\n", delete_entry store filename)
      else (str "ERROR: Could not delete chunks\n", store)

  unfoldable pub handle_client_delete : MetadataMap → Bytes → Bytes × MetadataMap
  unfolding delete_located get_chunk_locations
  handle_client_delete store filename =
      delete_located store filename (get_chunk_locations store filename).0
