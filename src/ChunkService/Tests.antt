-- ===== src/ChunkService/Tests.antt =====
-- The handlers of a cluster server at concrete inputs.
use distributed_file_grid.Prelude.Map.{find}
use distributed_file_grid.Prelude.{
  ◌≢◌, ℕ, ◌≡◌, refl, true, false, [], ◌++◌, Option, none, some, arith,
}
use distributed_file_grid.Prelude.Int.{ℤ}
use distributed_file_grid.Prelude.Key.{Bytes, bytes_key, ℤ_key, bytes_eq, bytes_eq_iff}
use distributed_file_grid.Prelude.Text.{str, to_string, contains}
use distributed_file_grid.ChunkService.{Service, handle_connection}
use distributed_file_grid.ChunkService.Messages.{
  ChunkData, ChunkResponse, FetchChunkResponse, Protobuf, request_frame, response_frame,
}
use distributed_file_grid.ChunkService.Listeners.{handle_emergency, handle_public_connection}
use distributed_file_grid.ChunkService.Frames.{store-fetch}
use distributed_file_grid.ChunkService.Requests.{
  delete_request, chunk_request, emergency-dead, public-get, public-delete,
}
use distributed_file_grid.ChunkStorage.{generate_chunk_path}
use distributed_file_grid.ChunkStorage.Tests.{
  two_pieces, two_pieces-IsReady, no_chunks, one_chunk, hello, hello_path, one_chunk-IsHeld,
}

abbrev hello_chunk : ChunkData
hello_chunk = record { chunk_id = str "f_chunk_0"; filename = str "f"; content = hello }

-- A protocol that knows one chunk.
abbrev toy : Protobuf ℕ
toy = record {
  parse_chunk_data = λ b. some hello_chunk;
  parse_fetch_chunk = λ b. some (record { chunk_id = str "f_chunk_0"; file_path = [] });
  parse_fetch_hash = λ b. none;
  parse_replicate = λ b. none;
  parse_chunk_response =
      λ b. (false, record { success = false; chunk_id = []; error_message = []; file_path = [] });
  serialize_chunk_data = λ m. m.content;
  serialize_chunk_response = λ m. m.file_path;
  serialize_fetch_chunk = λ m. m.content;
  serialize_fetch_hash = λ m. m.hash;
  serialize_replicate = λ m. m.error_message;
}

abbrev nobody : Bytes → ℤ → Option (Bytes → Bytes)
nobody ip port = none

abbrev new_service : Service
new_service = record { storage = no_chunks; is_dead = false }

abbrev holding : Service
holding = record { storage = one_chunk; is_dead = false }

store-fetch_example :
    let path = generate_chunk_path no_chunks two_pieces (str "f_chunk_0") in
    let stored : ChunkResponse = record {
      success = true;
      chunk_id = str "f_chunk_0";
      error_message = [];
      file_path = path;
    } in
    let fetched : FetchChunkResponse = record {
      success = true;
      chunk_id = str "f_chunk_0";
      content = hello;
      error_message = [];
    } in
    (s' : Service) × (handle_connection toy nobody 0 0 1 new_service two_pieces
        (request_frame 1 (str "put"))
      ≡ some (record { service = s'; sent = response_frame (toy.serialize_chunk_response stored) }))
    × (handle_connection toy nobody 0 0 1 s' two_pieces (request_frame 2 (str "get"))
        ≡ some (record { service = s'; sent = response_frame (toy.serialize_fetch_chunk fetched) }))
store-fetch_example =
    store-fetch toy nobody 0 0 1 new_service two_pieces two_pieces hello_chunk [] (str "put")
      (str "get") refl refl (omega arith) (omega arith) refl two_pieces-IsReady two_pieces-IsReady

other_chunk : str "g_chunk_0" ≢ str "f_chunk_0"
unfolding bytes_eq
other_chunk h =
    let equal : bytes_eq (str "g_chunk_0") (str "f_chunk_0") ≡ true = (bytes_eq_iff _ _).1 h in
    cc equal

public-delete_example :
    let after = handle_emergency holding two_pieces (delete_request (str "f_chunk_0")) in
    let read = chunk_request (str "0") (str "f") ++ str "\n" in
    (after.sent ≡ str "SUCCESS\n")
    × (handle_public_connection after.service two_pieces read
        ≡ some (record { service = after.service; sent = str "ERROR: Chunk not found\n" }))
    × (handle_emergency after.service two_pieces (delete_request (str "f_chunk_0"))
        ≡ record { service = after.service; sent = str "ERROR\n" })
    × (find (str "g_chunk_0") after.service.storage.chunk_registry
        ≡ find (str "g_chunk_0") one_chunk.chunk_registry)
unfolding contains
public-delete_example =
    public-delete holding two_pieces two_pieces (str "0") (str "f") hello_path hello
      (str "g_chunk_0") (refl, tt) (refl, tt) (omega arith) refl refl refl one_chunk-IsHeld refl
      other_chunk

emergency-dead_example :
    handle_emergency holding two_pieces (delete_request (str "DEADLINES_chunk_0"))
    ≡ record { service = record holding { is_dead = true }; sent = str "OK\n" }
unfolding contains
emergency-dead_example = emergency-dead holding two_pieces (str "DEADLINES_chunk_0") refl

public-get_example :
    handle_public_connection holding two_pieces (chunk_request (str "0") (str "f") ++ str "\n")
    ≡ some (record {
      service = holding;
      sent = str "CHUNK_SIZE " ++ (to_string 5 ++ (str "\n" ++ hello));
    })
public-get_example =
    public-get holding two_pieces (str "0") (str "f") hello_path hello (refl, tt) (refl, tt)
      (omega arith) one_chunk-IsHeld refl two_pieces-IsReady
