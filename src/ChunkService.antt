-- ===== src/ChunkService.antt =====
-- The connection handlers of `ClusterServerService` in src/cluster_server/chunk_service.cpp. A handler
-- takes the bytes that its peer sends before it closes and gives the bytes that it sends; the answers of
-- the file system, of the other cluster server and of protobuf's generated code are arguments. Two tasks
-- meet only in the storage, so a handler runs at once.
pub mod Messages
pub mod Listeners
pub mod Frames
pub mod Requests
pub mod Tests
use distributed_file_grid.Prelude.{
  ℕ, zero, suc, ◌+◌, ◌-◌, ◌*◌, ◌/◌, ◌%◌, ◌^◌, ◌≤◌, ◌<◌, ◌≡◌, refl, sym, ◌∙◌, ap, subst, ◌≢◌, ◌↔◌,
  ◌⊎◌, inl, inr, Bool, true, false, ◌&&◌, ◌||◌, not, List, [], ◌∷◌, ◌++◌, map, Option, none, some,
  arith, ltb, leb, ◌==◌, if◌then◌else◌, Bool-cases, Option-cases, &&-true, lt→ltb, ltb→lt, leb→le,
  ==_iff, Bool_eq_of_iff, length, take, drop, replicate, get_or, keep, count_if, any, find_if, All,
  length-append, length-take, length-drop, length-replicate, length-zero, take-append-drop,
  All-append, All-keep, All-mono, count_if-append, count_if-le-length, All-keep_test, String,
}
use distributed_file_grid.Prelude.Int.{ℤ, pos, negsuc, ltb_ℤ, eqb_ℤ}
use distributed_file_grid.Prelude.Key.{
  Key, Bytes, bytes_eq, bytes_lt, bytes_eq_iff, bytes_key, ℤ_key, eqb_ℤ_iff,
}
use distributed_file_grid.Prelude.Map.{
  Map, find, insert, erase, member, find_or, keys, values, find-insert, find-erase, same_refl,
  All-insert, All-erase, All-find,
}
use distributed_file_grid.Prelude.Text.{
  str, is_space, is_digit, digits, to_string, int_to_string, skip_ws, scan_digits, read_int,
  int_limit, long_limit, stoi, stoll, find_char, starts_with, find_sub, substr, word_of, after_word,
  read_word,
}
use distributed_file_grid.ChunkService.Messages.{
  ChunkData, ChunkResponse, FetchRequest, FetchChunkResponse, FetchHashResponse,
  ReplicateChunkRequest, ReplicateChunkResponse, Protobuf, htonl, ntohl, read_exact, response_frame,
  request_frame,
}
use distributed_file_grid.ChunkStorage.{
  ChunkStorage, Io, Stored, Retrieved, async_store_chunk, async_retrieve_chunk, delete_chunk,
  restart,
}
use distributed_file_grid.Metadata.{is_empty}
use distributed_file_grid.Sha256.{sha256}

-- `is_dead` is g_is_dead_process; the process exits a moment after it is set.
pub record Service : Type 0 where
  pub storage : ChunkStorage
  pub is_dead : Bool

pub record Handled : Type 0 where
  pub service : Service
  pub sent : Bytes

abbrev pub closed : Service → Bytes → Option Handled
closed s sent = some (record { service = s; sent = sent })

abbrev ok_response : Bytes
ok_response = str "OK\n"

abbrev die : Service → Option Handled
die s = closed (record s { is_dead = true }) ok_response

abbrev not_found_message : Bytes
not_found_message = str "Chunk not found on this server"

-- A peer is none where it cannot be reached, and else maps the bytes it gets to those it sends back.
module _ {F : Type 0} (pb : Protobuf F) (peer : Bytes → ℤ → Option (Bytes → Bytes)) (load : F)
    (no_load : F) (connections : ℕ) where
  abbrev answer_store : Service → Bytes → Option Stored → Option Handled
  answer_store s chunk_id none = none
  answer_store s chunk_id (some r) =
      closed (record s { storage = r.storage })
        (response_frame (
          pb.serialize_chunk_response (record {
            success = r.result.0;
            chunk_id = chunk_id;
            error_message = if r.result.0 then [] else str "Failed to store chunk on disk";
            file_path = r.result.1;
          })))

  abbrev pub handle_store : Service → Io → Option ChunkData → Option Handled
  handle_store s io none = closed s []
  handle_store s io (some req) =
      answer_store s req.chunk_id (async_store_chunk s.storage io req.chunk_id req.content)

  abbrev answer_fetch : Service → Bytes → Option Retrieved → Option Handled
  answer_fetch s chunk_id none = none
  answer_fetch s chunk_id (some r) =
      let ok = not (is_empty r.content) in
      closed (record s { storage = r.storage })
        (response_frame (
          pb.serialize_fetch_chunk (record {
            success = ok;
            chunk_id = chunk_id;
            content = r.content;
            error_message = if ok then [] else not_found_message;
          })))

  abbrev pub handle_fetch : Service → Io → Option FetchRequest → Option Handled
  handle_fetch s io none = closed s []
  handle_fetch s io (some req) =
      answer_fetch s req.chunk_id (async_retrieve_chunk s.storage io req.chunk_id req.file_path)

  abbrev answer_hash : Service → Bytes → Option Retrieved → Option Handled
  answer_hash s chunk_id none = none
  answer_hash s chunk_id (some r) =
      let ok = not (is_empty r.content) in
      closed (record s { storage = r.storage })
        (response_frame (
          pb.serialize_fetch_hash (record {
            success = ok;
            chunk_id = chunk_id;
            hash = if ok then sha256 r.content else [];
            error_message = if ok then [] else not_found_message;
            load_score = if ok then load else no_load;
            active_connections = if ok then connections else 0;
          })))

  abbrev handle_hash : Service → Io → Option FetchRequest → Option Handled
  handle_hash s io none = closed s []
  handle_hash s io (some req) =
      answer_hash s req.chunk_id (async_retrieve_chunk s.storage io req.chunk_id req.file_path)

  abbrev replicate_failed : Bytes → ReplicateChunkResponse
  replicate_failed message = record { success = false; error_message = message; file_path = [] }

  abbrev read_verdict : Bool × ChunkResponse → ReplicateChunkResponse
  read_verdict (parsed, c_resp) =
      if parsed && c_resp.success
      then record { success = true; error_message = []; file_path = c_resp.file_path }
      else replicate_failed (str "Target server rejected chunk: " ++ c_resp.error_message)

  -- recv_all of the length and of the body
  abbrev read_response : Option (Bytes × Bytes) → ReplicateChunkResponse
  read_response none = replicate_failed []
  read_response (some (size, rest)) = elim (read_exact (ntohl size) rest) [
    | none ↦ replicate_failed []
    | some (body, after) ↦ read_verdict (pb.parse_chunk_response body)
  ]

  abbrev send_copy : ReplicateChunkRequest → Bytes → Option (Bytes → Bytes) → ReplicateChunkResponse
  send_copy req content none = replicate_failed (str "Failed to connect to target cluster server")
  send_copy req content (some talk) =
      let cmsg =
        pb.serialize_chunk_data
          (record { chunk_id = req.chunk_id; filename = req.filename; content = content }) in
      read_response (read_exact 4 (talk (request_frame 1 cmsg)))

  unfoldable pub replicate_chunk : ReplicateChunkRequest → Bytes → ReplicateChunkResponse
  unfolding read_exact htonl
  replicate_chunk req content =
      let port =
        if eqb_ℤ req.target_transfer_port (pos 0) then pos 8180 else req.target_transfer_port in
      if is_empty content
      then replicate_failed (str "Chunk not found locally to replicate")
      else send_copy req content (peer req.target_server_ip port)

  abbrev answer_replicate : Service → ReplicateChunkRequest → Option Retrieved → Option Handled
  answer_replicate s req none = none
  answer_replicate s req (some r) =
      closed (record s { storage = r.storage })
        (response_frame (pb.serialize_replicate (replicate_chunk req r.content)))

  abbrev handle_replicate : Service → Io → Option ReplicateChunkRequest → Option Handled
  handle_replicate s io none = closed s []
  handle_replicate s io (some req) =
      answer_replicate s req (async_retrieve_chunk s.storage io req.chunk_id [])

  -- A message that is complete; one of another type has no answer.
  unfoldable pub dispatch : Service → Io → ℕ → Bytes → Option Handled
  unfolding replicate_chunk async_store_chunk async_retrieve_chunk sha256 htonl
  dispatch s io type buf =
      if type == 1
      then handle_store s io (pb.parse_chunk_data buf)
      else if type == 2
      then handle_fetch s io (pb.parse_fetch_chunk buf)
      else if type == 3
      then handle_hash s io (pb.parse_fetch_hash buf)
      else if type == 4
      then handle_replicate s io (pb.parse_replicate buf)
      else closed s []

  -- The body, after a length.
  abbrev with_body : Service → Io → ℕ → Option (Bytes × Bytes) → Option Handled
  with_body s io type none = closed s []
  with_body s io type (some (buf, rest)) = dispatch s io type buf

  abbrev with_length : Service → Io → ℕ → Option (Bytes × Bytes) → Option Handled
  with_length s io type none = closed s []
  with_length s io type (some (len_bytes, rest)) =
      if type == 99 then die s else with_body s io type (read_exact (ntohl len_bytes) rest)

  abbrev pub with_first : Service → Io → Option (Bytes × Bytes) → Option Handled
  with_first s io none = closed s []
  with_first s io (some (first4, rest)) =
      if bytes_eq first4 (str "DEAD") || bytes_eq first4 (str "KILL")
      then die s
      else with_length s io (ntohl first4) (read_exact 4 rest)

  unfoldable pub handle_connection : Service → Io → Bytes → Option Handled
  unfolding dispatch read_exact bytes_eq
  handle_connection s io stream = with_first s io (read_exact 4 stream)
