-- ===== src/ChunkService/Requests.antt =====
-- What the text protocols of src/cluster_server/chunk_service.cpp do with a request in its usual form.
use distributed_file_grid.Prelude.{
  ℕ, zero, suc, ◌≤◌, ◌≡◌, refl, ◌∙◌, ◌≢◌, ap, Bool, subst, true, false, [], ◌∷◌, ◌++◌, some, arith,
  ◌==◌, if◌then◌else◌, length, All, All-append, All-mono,
}
use distributed_file_grid.Prelude.Key.{Bytes, bytes_key, ℤ_key}
use distributed_file_grid.Prelude.Text.{str, to_string, is_space, contains, read_word}
use distributed_file_grid.Prelude.Text.Words.{IsWord, read_word-append, read_word-blank}
use distributed_file_grid.ChunkService.{Service}
use distributed_file_grid.ChunkService.Listeners.{
  handle_emergency, read_request, unique_chunk_id, handle_public_connection, answer_public,
}
use distributed_file_grid.ChunkStorage.{ChunkStorage, Io, async_retrieve_chunk, delete_chunk}
use distributed_file_grid.ChunkStorage.Laws.{IsHeld, IsReady, retrieve-IsHeld, delete-retrieve}
use distributed_file_grid.Prelude.Text.Search.{contains-before, contains-after}
use distributed_file_grid.Prelude.Map.{find}
use mathlib.Core.List.{append-nil}
use distributed_file_grid.Metadata.{is_empty}

-- The request of the head server.
abbrev pub delete_request : Bytes → Bytes
delete_request chunk_id = str "DELETE_CHUNK " ++ (chunk_id ++ str "\n")

abbrev reply_text : Bool → Bytes
reply_text success = if success then str "SUCCESS\n" else str "ERROR\n"

emergency-delete :
    (s : Service) (io : Io) (chunk_id : Bytes)
    → IsWord chunk_id
    → contains (str "DEAD") (delete_request chunk_id) ≡ false
    → contains (str "KILL") (delete_request chunk_id) ≡ false
    → contains (str "RESTART") (delete_request chunk_id) ≡ false
    → let (storage, success) = delete_chunk s.storage io chunk_id in
      handle_emergency s io (delete_request chunk_id)
      ≡ record { service = record s { storage = storage }; sent = reply_text success }
unfolding handle_emergency
emergency-delete s io chunk_id w d k r =
    rw (d, k, r, read_word-append chunk_id (str "\n") w refl) refl

-- A request to delete a chunk with DEAD in its id is taken for the signal to terminate: the server
-- answers OK and dies, and the chunk stays.
pub emergency-dead :
    (s : Service) (io : Io) (chunk_id : Bytes)
    → contains (str "DEAD") chunk_id ≡ true
    → handle_emergency s io (delete_request chunk_id)
      ≡ record { service = record s { is_dead = true }; sent = str "OK\n" }
unfolding handle_emergency
emergency-dead s io chunk_id h =
    let found : contains (str "DEAD") (delete_request chunk_id) ≡ true =
      contains-after (str "DEAD") (str "DELETE_CHUNK ") (chunk_id ++ str "\n")
        (contains-before (str "DEAD") chunk_id (str "\n") h) in
    rw found refl

read_request-line :
    (n : ℕ) (line rest : Bytes)
    → All (λ c. (c == 10) ≡ false) line
    → length line ≤ n
    → read_request n (line ++ (10 ∷ rest)) ≡ some line
unfolding read_request
read_request-line zero [] rest h l = refl
read_request-line zero (c ∷ line) rest h l = absurd (omega arith)
read_request-line (suc n) [] rest h l = refl
read_request-line (suc n) (c ∷ line) rest h l =
    rw (h.0, read_request-line n line rest h.1 (omega arith)) refl

-- The request of a client.
abbrev pub chunk_request : Bytes → Bytes → Bytes
chunk_request chunk_id file_name = str "GET_CHUNK " ++ (chunk_id ++ (32 ∷ file_name))

word-line : (w : Bytes) → IsWord w → All (λ c. (c == 10) ≡ false) w
word-line [] h = tt
word-line (c ∷ w) h = All-mono _ _ (c ∷ w) (λ d e. ground arith) h

read_word-all : (w : Bytes) → IsWord w → read_word w ≡ some (w, [])
read_word-all w h =
    subst (λ v. read_word v ≡ some (w, [])) (append-nil w) (read_word-append w [] h refl)

public_lem :
    (s : Service) (io : Io) (chunk_id path content : Bytes)
    → IsHeld s.storage chunk_id path content
    → is_empty content ≡ false
    → IsReady io (length content)
    → answer_public s (async_retrieve_chunk s.storage io chunk_id [])
      ≡ some (record {
        service = s;
        sent = str "CHUNK_SIZE " ++ (to_string (length content) ++ (str "\n" ++ content));
      })
public_lem s io chunk_id path content held filled ready =
    rw (retrieve-IsHeld s.storage io chunk_id path content [] held ready, filled) refl

-- The request line is cut into its two words.
handle_public_connection-request :
    (s : Service) (io : Io) (chunk_id file_name : Bytes)
    → IsWord chunk_id
    → IsWord file_name
    → length (chunk_request chunk_id file_name) ≤ 255
    → handle_public_connection s io (chunk_request chunk_id file_name ++ str "\n")
      ≡ answer_public s (async_retrieve_chunk s.storage io (unique_chunk_id file_name chunk_id) [])
unfolding handle_public_connection
handle_public_connection-request s io chunk_id file_name wc wf fits =
    let req = chunk_request chunk_id file_name in
    let named : All (λ c. (c == 10) ≡ false) (32 ∷ file_name) = (refl, word-line file_name wf) in
    let words = All-append _ chunk_id (32 ∷ file_name) (word-line chunk_id wc) named in
    let line : All (λ c. (c == 10) ≡ false) req =
      All-append _ (str "GET_CHUNK ") (chunk_id ++ (32 ∷ file_name))
        (refl, (refl, (refl, (refl, (refl, (refl, (refl, (refl, (refl, (refl, tt)))))))))) words in
    rw (read_request-line 255 req [] line fits) (
      rw
        (
          read_word-append chunk_id (32 ∷ file_name) wc refl,
          read_word-blank file_name,
          read_word-all file_name wf,
        )
        refl)

-- A request for a chunk and a file whose names are words, of at most 255 bytes, is answered by the
-- size and the bytes of the chunk stored under the two, if it is not empty, its file opens and the
-- calls move all bytes.
pub public-get :
    (s : Service) (io : Io) (chunk_id file_name path content : Bytes)
    → IsWord chunk_id
    → IsWord file_name
    → length (chunk_request chunk_id file_name) ≤ 255
    → IsHeld s.storage (unique_chunk_id file_name chunk_id) path content
    → is_empty content ≡ false
    → IsReady io (length content)
    → handle_public_connection s io (chunk_request chunk_id file_name ++ str "\n")
      ≡ some (record {
        service = s;
        sent = str "CHUNK_SIZE " ++ (to_string (length content) ++ (str "\n" ++ content));
      })
public-get s io chunk_id file_name path content wc wf fits held filled ready =
    handle_public_connection-request s io chunk_id file_name wc wf fits
    ∙ public_lem s io (unique_chunk_id file_name chunk_id) path content held filled ready

word-spaces : (w : Bytes) → IsWord w → All (λ d. is_space d ≡ false) w
word-spaces [] h = tt
word-spaces (c ∷ w) h = h

unique_chunk_id-IsWord :
    (file_name chunk_id : Bytes)
    → IsWord file_name
    → IsWord chunk_id
    → IsWord (unique_chunk_id file_name chunk_id)
unique_chunk_id-IsWord [] chunk_id wf wc = absurd wf
unique_chunk_id-IsWord (c ∷ w) chunk_id wf wc =
    All-append _ (c ∷ w) (str "_chunk_" ++ chunk_id) wf (
      All-append _ (str "_chunk_") chunk_id
        (refl, (refl, (refl, (refl, (refl, (refl, (refl, tt))))))) (word-spaces chunk_id wc))

-- A chunk that the storage holds, under the name made of a file and a chunk id that are words, with
-- none of DEAD, KILL and RESTART in the request to delete it: if removing the file raises no
-- exception, the request is answered by SUCCESS, and a request for the chunk, of at most 255 bytes,
-- after it by an error, a second deletion too; another chunk stays in the registry as it was.
pub public-delete :
    (s : Service) (io io' : Io) (chunk_id file_name path content other : Bytes)
    → IsWord chunk_id
    → IsWord file_name
    → length (chunk_request chunk_id file_name) ≤ 255
    → contains (str "DEAD") (delete_request (unique_chunk_id file_name chunk_id)) ≡ false
    → contains (str "KILL") (delete_request (unique_chunk_id file_name chunk_id)) ≡ false
    → contains (str "RESTART") (delete_request (unique_chunk_id file_name chunk_id)) ≡ false
    → IsHeld s.storage (unique_chunk_id file_name chunk_id) path content
    → io.removes ≡ true
    → other ≢ unique_chunk_id file_name chunk_id
    → let request = delete_request (unique_chunk_id file_name chunk_id) in
      let after = handle_emergency s io request in
      let read = chunk_request chunk_id file_name ++ str "\n" in
      (after.sent ≡ str "SUCCESS\n")
      × (handle_public_connection after.service io' read
          ≡ some (record { service = after.service; sent = str "ERROR: Chunk not found\n" }))
      × (handle_emergency after.service io request
          ≡ record { service = after.service; sent = str "ERROR\n" })
      × (find other after.service.storage.chunk_registry ≡ find other s.storage.chunk_registry)
public-delete s io io' chunk_id file_name path content other wc wf fits d k r held removes ne =
    let unique = unique_chunk_id file_name chunk_id in
    let word = unique_chunk_id-IsWord file_name chunk_id wf wc in
    let facts = delete-retrieve s.storage io io' unique path content held removes in
    let t = record s { storage = (delete_chunk s.storage io unique).0 } in
    rw (emergency-delete s io unique word d k r) (
      ap reply_text facts.0,
      handle_public_connection-request t io' chunk_id file_name wc wf fits
          ∙ ap (answer_public t) facts.2,
      emergency-delete t io unique word d k r
          ∙ ap
              (λ (p : ChunkStorage × Bool). record {
                service = record t { storage = p.0 };
                sent = reply_text p.1;
              })
              facts.3,
      facts.4 other ne,
    )
