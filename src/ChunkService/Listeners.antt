-- ===== src/ChunkService/Listeners.antt =====
-- The text protocols of src/cluster_server/chunk_service.cpp: what `emergency_listener` does with the
-- bytes of one ::recv, and `handle_public_connection`.
use distributed_file_grid.Prelude.{
  ℕ, zero, suc, Bool, true, ◌||◌, [], ◌∷◌, ◌++◌, Option, none, some, ◌==◌, if◌then◌else◌, length,
  take, drop,
}
use distributed_file_grid.Prelude.Key.{Bytes, bytes_key, ℤ_key}
use distributed_file_grid.Prelude.Text.{str, to_string, starts_with, contains, read_word}
use distributed_file_grid.ChunkService.{Service, Handled, closed}
use distributed_file_grid.ChunkStorage.{
  ChunkStorage, Io, Retrieved, async_retrieve_chunk, delete_chunk, restart,
}
use distributed_file_grid.Metadata.{is_empty}

-- ss >> word, which is empty when the stream fails
abbrev pub word_or_empty : Option (Bytes × Bytes) → Bytes
word_or_empty none = []
word_or_empty (some (w, rest)) = w

abbrev rest_or_empty : Option (Bytes × Bytes) → Bytes
rest_or_empty none = []
rest_or_empty (some (w, rest)) = rest

abbrev answer_delete : Service → ChunkStorage × Bool → Handled
answer_delete s (storage, success) = record {
  service = record s { storage = storage };
  sent = if success then str "SUCCESS\n" else str "ERROR\n";
}

-- A restart replaces the process by a new one.
unfoldable pub handle_emergency : Service → Io → Bytes → Handled
unfolding contains read_word delete_chunk restart
handle_emergency s io msg =
    if contains (str "DEAD") msg || contains (str "KILL") msg
    then record { service = record s { is_dead = true }; sent = str "OK\n" }
    else if contains (str "RESTART") msg
    then record { service = record s { storage = restart s.storage }; sent = str "OK\n" }
    else if contains (str "DELETE_CHUNK ") msg
    then answer_delete s (delete_chunk s.storage io (word_or_empty (read_word (drop 13 msg))))
    else record { service = s; sent = [] }

-- One ::recv into 1023 bytes.
abbrev pub receive_emergency : Service → Io → Bytes → Handled
receive_emergency s io stream =
    if is_empty stream
    then record { service = s; sent = [] }
    else handle_emergency s io (take 1023 stream)

-- The request line, without its end; none where the peer closes before.
unfoldable pub read_request : ℕ → Bytes → Option Bytes
read_request zero stream = some []
read_request (suc n) [] = none
read_request (suc n) (b ∷ stream) =
    let rest = read_request n stream in
    if b == 10 then some [] else elim rest [ none ↦ none | some line ↦ some (b ∷ line) ]

abbrev pub answer_public : Service → Option Retrieved → Option Handled
answer_public s none = none
answer_public s (some r) =
    closed (record s { storage = r.storage })
      (if is_empty r.content
        then str "ERROR: Chunk not found\n"
        else str "CHUNK_SIZE " ++ (to_string (length r.content) ++ (str "\n" ++ r.content)))

abbrev pub unique_chunk_id : Bytes → Bytes → Bytes
unique_chunk_id file_name chunk_id = file_name ++ (str "_chunk_" ++ chunk_id)

abbrev answer_request : Service → Io → Option Bytes → Option Handled
answer_request s io none = closed s []
answer_request s io (some req) =
    let words = read_word (drop 10 req) in
    let chunk_id = word_or_empty words in
    let file_name = word_or_empty (read_word (rest_or_empty words)) in
    if starts_with (str "GET_CHUNK ") req
    then answer_public s (async_retrieve_chunk s.storage io (unique_chunk_id file_name chunk_id) [])
    else closed s []

unfoldable pub handle_public_connection : Service → Io → Bytes → Option Handled
unfolding read_request starts_with read_word async_retrieve_chunk to_string
handle_public_connection s io stream = answer_request s io (read_request 255 stream)
