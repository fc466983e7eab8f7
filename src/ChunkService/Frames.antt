-- ===== src/ChunkService/Frames.antt =====
-- The framed messages of src/cluster_server/chunk_service.cpp: what a client stores it can fetch.
use distributed_file_grid.Prelude.{
  ℕ, ◌/◌, ◌%◌, ◌^◌, ◌<◌, ◌≡◌, refl, ◌∙◌, ap, subst, true, false, [], ◌∷◌, ◌++◌, Option, some, arith,
  leb, ◌==◌, length, take, drop, length-append,
}
use distributed_file_grid.Prelude.Int.{ℤ}
use distributed_file_grid.Prelude.Key.{Bytes, bytes_eq, bytes_key, ℤ_key}
use distributed_file_grid.Prelude.Text.{str}
use distributed_file_grid.ChunkService.{
  Service, dispatch, handle_connection, with_first, handle_store, handle_fetch,
}
use distributed_file_grid.ChunkService.Messages.{
  ChunkData, ChunkResponse, FetchChunkResponse, Protobuf, htonl, ntohl, read_exact, response_frame,
  request_frame,
}
use distributed_file_grid.ChunkStorage.{Io, generate_chunk_path}
use distributed_file_grid.ChunkStorage.Laws.{IsReady, store-retrieve}
use distributed_file_grid.Sha256.Words.{word_bytes}
use mathlib.Core.List.{append-nil}
use distributed_file_grid.Metadata.{is_empty}

take-append : (xs ys : Bytes) → take (length xs) (xs ++ ys) ≡ xs
take-append [] ys = refl
take-append (x ∷ xs) ys = ap (◌∷◌ x) (take-append xs ys)

drop-append : (xs ys : Bytes) → drop (length xs) (xs ++ ys) ≡ ys
drop-append [] ys = refl
drop-append (x ∷ xs) ys = drop-append xs ys

read_exact-append : (xs ys : Bytes) → read_exact (length xs) (xs ++ ys) ≡ some (xs, ys)
unfolding read_exact
read_exact-append xs ys =
    let fits : leb (length xs) (length (xs ++ ys)) ≡ true = ground (arith, length-append xs ys) in
    rw (fits, take-append xs ys, drop-append xs ys) refl

read_exact-all : (xs : Bytes) → read_exact (length xs) xs ≡ some (xs, [])
read_exact-all xs =
    subst (λ ys. read_exact (length xs) ys ≡ some (xs, [])) (append-nil xs)
      (read_exact-append xs [])

read_exact-htonl : (n : ℕ) (rest : Bytes) → read_exact 4 (htonl n ++ rest) ≡ some (htonl n, rest)
unfolding htonl word_bytes
read_exact-htonl n rest = read_exact-append (htonl n) rest

ntohl-htonl : (n : ℕ) → n < 2 ^ 32 → ntohl (htonl n) ≡ n
unfolding htonl word_bytes
ntohl-htonl n h = omega arith

-- The first byte of a small number is no letter.
htonl-small : (n c : ℕ) (rest : Bytes) → n < 2 ^ 24 → 0 < c → bytes_eq (htonl n) (c ∷ rest) ≡ false
unfolding htonl word_bytes bytes_eq
htonl-small n c rest h l =
    let differs : (n / 2 ^ 24 % 256 == c) ≡ false = ground arith in rw differs refl

module _ {F : Type 0} (pb : Protobuf F) (peer : Bytes → ℤ → Option (Bytes → Bytes))
    (load no_load : F) (connections : ℕ) where
  first-frame :
      (s : Service) (io : Io) (type : ℕ) (body : Bytes)
      → type < 99
      → length body < 2 ^ 32
      → with_first pb peer load no_load connections s io
          (some (htonl type, htonl (length body) ++ body))
        ≡ dispatch pb peer load no_load connections s io type body
  first-frame s io type body t l =
      let other : (type == 99) ≡ false = ground arith in
      rw
        (
          htonl-small type b'D' (str "EAD") (omega arith) (omega arith),
          htonl-small type b'K' (str "ILL") (omega arith) (omega arith),
          read_exact-htonl (length body) body,
          ntohl-htonl type (omega arith),
          other,
          ntohl-htonl (length body) l,
          read_exact-all body,
        )
        refl

  -- A whole frame reaches the handler of its type.
  pub handle-frame :
      (s : Service) (io : Io) (type : ℕ) (body : Bytes)
      → type < 99
      → length body < 2 ^ 32
      → handle_connection pb peer load no_load connections s io (request_frame type body)
        ≡ dispatch pb peer load no_load connections s io type body
  unfolding handle_connection
  handle-frame s io type body t l =
      ap (with_first pb peer load no_load connections s io)
        (read_exact-htonl type (htonl (length body) ++ body))
      ∙ first-frame s io type body t l

  dispatch-store :
      (s : Service) (io : Io) (buf : Bytes)
      → dispatch pb peer load no_load connections s io 1 buf
        ≡ handle_store pb peer load no_load connections s io (pb.parse_chunk_data buf)
  unfolding dispatch
  dispatch-store s io buf = refl

  dispatch-fetch :
      (s : Service) (io : Io) (buf : Bytes)
      → dispatch pb peer load no_load connections s io 2 buf
        ≡ handle_fetch pb peer load no_load connections s io (pb.parse_fetch_chunk buf)
  unfolding dispatch
  dispatch-fetch s io buf = refl

  -- A framed request that protobuf parses to a chunk, and after it one that it parses to a fetch of
  -- the same id: if no size reaches 2 ^ 32, the chunk is not empty, the files open and the calls
  -- move all bytes in some pieces, the first answer reports success and the path, and the second
  -- one the same bytes.
  pub store-fetch :
      (s : Service) (io io' : Io) (chunk : ChunkData) (fallback store_body fetch_body : Bytes)
      → pb.parse_chunk_data store_body ≡ some chunk
      → pb.parse_fetch_chunk fetch_body
        ≡ some (record { chunk_id = chunk.chunk_id; file_path = fallback })
      → length store_body < 2 ^ 32
      → length fetch_body < 2 ^ 32
      → is_empty chunk.content ≡ false
      → IsReady io (length chunk.content)
      → IsReady io' (length chunk.content)
      → let path = generate_chunk_path s.storage io chunk.chunk_id in
        let stored : ChunkResponse = record {
          success = true;
          chunk_id = chunk.chunk_id;
          error_message = [];
          file_path = path;
        } in
        let fetched : FetchChunkResponse = record {
          success = true;
          chunk_id = chunk.chunk_id;
          content = chunk.content;
          error_message = [];
        } in
        (s' : Service) × (handle_connection pb peer load no_load connections s io
            (request_frame 1 store_body)
          ≡ some
              (record { service = s'; sent = response_frame (pb.serialize_chunk_response stored) }))
        × (handle_connection pb peer load no_load connections s' io' (request_frame 2 fetch_body)
            ≡ some
                (record { service = s'; sent = response_frame (pb.serialize_fetch_chunk fetched) }))
  store-fetch s io io' chunk fallback store_body fetch_body p q l m filled h h' =
      let (r, ends, result, again) =
        store-retrieve s.storage io io' chunk.chunk_id chunk.content fallback h h' in
      let s' = record s { storage = r.storage } in
      (
        s',
        handle-frame s io 1 store_body (omega arith) l
            ∙ dispatch-store s io store_body
            ∙ rw (p, ends, result) refl,
        handle-frame s' io' 2 fetch_body (omega arith) m
            ∙ dispatch-fetch s' io' fetch_body
            ∙ rw (q, again, filled) refl,
      )
