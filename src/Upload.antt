-- ===== src/Upload.antt =====
-- The placement of chunks and the collection of their transfers, of `FileChunker` in
-- src/head_server/file_upload.cpp. What a transfer over the network gives is the argument `send`. The
-- order that `std::sort` leaves open, that of servers with the same disk usage, is their order before.
pub mod Placement
pub mod Transfers
pub mod Tests
use distributed_file_grid.Prelude.{
  ℕ, zero, suc, ◌+◌, ◌-◌, ◌*◌, ◌/◌, ◌%◌, ◌^◌, ◌≤◌, ◌<◌, ◌≡◌, refl, sym, ◌∙◌, ap, subst, ◌≢◌, ◌↔◌,
  ◌⊎◌, inl, inr, Bool, true, false, ◌&&◌, ◌||◌, not, List, [], ◌∷◌, ◌++◌, map, Option, none, some,
  arith, ltb, leb, ◌==◌, if◌then◌else◌, Bool-cases, Option-cases, &&-true, lt→ltb, ltb→lt, leb→le,
  ==_iff, Bool_eq_of_iff, length, take, drop, replicate, get_or, keep, count_if, any, find_if, All,
  length-append, length-take, length-drop, length-replicate, take-append-drop, All-append, All-keep,
  All-mono, count_if-append, count_if-le-length, All-keep_test, String,
}
use distributed_file_grid.Prelude.Int.{ℤ, pos, negsuc, ltb_ℤ, eqb_ℤ}
use distributed_file_grid.Prelude.Key.{
  Key, Bytes, bytes_eq, bytes_lt, bytes_eq_iff, bytes_key, ℤ_key, eqb_ℤ_iff,
}
use distributed_file_grid.Prelude.Map.{
  Map, find, insert, erase, member, find_or, keys, values, find-insert, find-erase, same_refl,
  All-insert, All-erase, All-find,
}
use distributed_file_grid.Prelude.Text.{
  str, is_space, is_digit, digits, to_string, int_to_string, skip_ws, scan_digits, read_int,
  int_limit, long_limit, stoi, stoll, find_char, starts_with, find_sub, substr, word_of, after_word,
  read_word,
}
use distributed_file_grid.Address.{parse_address, default_port}
use distributed_file_grid.Prelude.Floats.{Floats}
use distributed_file_grid.Health.{ServerHealth}
use distributed_file_grid.Metadata.{is_empty}
use distributed_file_grid.Metadata.Request.{ChunkInfo}
use distributed_file_grid.Failover.{default_path}

abbrev or_configured : List Bytes → List Bytes → List Bytes
or_configured configured [] = configured
or_configured configured (a ∷ more) = a ∷ more

module _ (fl : Floats) where
  -- Whether a health record is about a server, by its host or its address.
  abbrev pub is_about : Bytes → ℤ × ServerHealth fl.Float → Bool
  is_about srv (i, h) = bytes_eq h.ip (parse_address srv default_port).0 || bytes_eq h.ip srv

  abbrev healthy_or_unknown : Option (ℤ × ServerHealth fl.Float) → Bool
  healthy_or_unknown none = true
  healthy_or_unknown (some (i, h)) = h.is_healthy

  -- The first record about the server decides.
  unfoldable pub is_usable : Map ℤ (ServerHealth fl.Float) → Bytes → Bool
  unfolding parse_address
  is_usable health srv = healthy_or_unknown (find_if (is_about srv) health)

  -- The last record about the server gives its disk usage.
  unfoldable pub disk_usage_of : fl.Float → Map ℤ (ServerHealth fl.Float) → Bytes → fl.Float
  unfolding parse_address
  disk_usage_of disk [] srv = disk
  disk_usage_of disk (e ∷ rest) srv =
      disk_usage_of (if is_about srv e then e.1.disk_usage else disk) rest srv

  unfoldable pub insert_by : (Bytes → fl.Float) → Bytes → List Bytes → List Bytes
  insert_by disk a [] = a ∷ []
  insert_by disk a (b ∷ rest) =
      if fl.less (disk b) (disk a) then b ∷ insert_by disk a rest else a ∷ b ∷ rest

  unfoldable pub sort_by : (Bytes → fl.Float) → List Bytes → List Bytes
  unfolding insert_by
  sort_by disk [] = []
  sort_by disk (a ∷ rest) = insert_by disk a (sort_by disk rest)

  -- The healthy servers, or all if there is none.
  unfoldable pub usable_servers : Map ℤ (ServerHealth fl.Float) → List Bytes → List Bytes
  unfolding is_usable
  usable_servers health servers = or_configured servers (keep (is_usable health) servers)

  -- The servers in the order in which they are taken: from the registry, or from the configuration if
  -- it has none.
  unfoldable pub candidate_servers :
      List Bytes → List Bytes → Map ℤ (ServerHealth fl.Float) → List Bytes
  unfolding usable_servers sort_by disk_usage_of
  candidate_servers addresses configured health =
      sort_by (disk_usage_of fl.hundred health)
        (usable_servers health (or_configured configured addresses))

  unfoldable pub select_servers_for_chunk :
      List Bytes → List Bytes → Map ℤ (ServerHealth fl.Float) → ℕ → List Bytes
  unfolding candidate_servers
  select_servers_for_chunk addresses configured health replication_factor =
      take replication_factor (candidate_servers addresses configured health)

-- A transfer and its outcome.
pub record PendingTransfer : Type 0 where
  pub chunk_id : ℤ
  pub server : Bytes
  pub checksum : Bytes
  pub size : ℕ
  pub success : Bool
  pub file_path : Bytes

module _ (send : Bytes → ℤ → Bytes → Bytes → Bool × Bytes) where
  abbrev transfer_to : ℤ → Bytes → Bytes → Bytes → Bytes → PendingTransfer
  transfer_to cid chunk_data filename checksum server = record {
    chunk_id = cid;
    server = server;
    checksum = checksum;
    size = length chunk_data;
    success = (send server cid chunk_data filename).0;
    file_path = (send server cid chunk_data filename).1;
  }

  unfoldable pub submit_chunk_transfers :
      ℤ → Bytes → Bytes → Bytes → List Bytes → List PendingTransfer → List PendingTransfer
  submit_chunk_transfers cid chunk_data filename checksum selected_servers pending =
      pending ++ map (transfer_to cid chunk_data filename checksum) selected_servers

abbrev pub counted_transfer : Map ℤ ℕ → PendingTransfer → Map ℤ ℕ
counted_transfer m p = if p.success then insert p.chunk_id (suc (find_or 0 p.chunk_id m)) m else m

-- success_replicas_count[p.chunk_id]++ for each success
unfoldable pub success_counts : Map ℤ ℕ → List PendingTransfer → Map ℤ ℕ
success_counts m [] = m
success_counts m (p ∷ rest) = success_counts (counted_transfer m p) rest

abbrev pub transfer_info : Bytes → Map ℤ ℕ → PendingTransfer → ChunkInfo
transfer_info filename counts r = record {
  chunk_id = r.chunk_id;
  server_ip = r.server;
  file_path =
      if is_empty r.file_path then default_path r.server filename r.chunk_id else r.file_path;
  size = r.size;
  checksum = r.checksum;
  replica_count = pos (find_or 0 r.chunk_id counts);
}

abbrev pub succeeded : PendingTransfer → Bool
succeeded p = p.success

unfoldable pub collect_transfers : Bytes → List PendingTransfer → List ChunkInfo
unfolding success_counts int_to_string
collect_transfers filename pending =
    map (transfer_info filename (success_counts [] pending)) (keep succeeded pending)
