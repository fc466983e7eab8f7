-- ===== src/ChunkService/Messages.antt =====
-- The messages of src/proto/v1/file_transfer.proto that src/cluster_server/chunk_service.cpp exchanges,
-- and their frames. The code that protoc generates is a parameter: `Protobuf` lists what is called.
use distributed_file_grid.Prelude.{
  ℕ, ◌+◌, ◌*◌, ◌^◌, Bool, ◌∷◌, ◌++◌, Option, none, some, leb, if◌then◌else◌, length, take, drop,
}
use distributed_file_grid.Prelude.Int.{ℤ}
use distributed_file_grid.Prelude.Key.{Bytes, bytes_key, ℤ_key}
use distributed_file_grid.Sha256.Words.{word_bytes}

pub record ChunkData : Type 0 where
  pub chunk_id : Bytes
  pub filename : Bytes
  pub content : Bytes

pub record ChunkResponse : Type 0 where
  pub success : Bool
  pub chunk_id : Bytes
  pub error_message : Bytes
  pub file_path : Bytes

-- FetchChunkRequest and FetchHashRequest.
pub record FetchRequest : Type 0 where
  pub chunk_id : Bytes
  pub file_path : Bytes

pub record FetchChunkResponse : Type 0 where
  pub success : Bool
  pub chunk_id : Bytes
  pub content : Bytes
  pub error_message : Bytes

pub record FetchHashResponse (F : Type 0) : Type 0 where
  pub success : Bool
  pub chunk_id : Bytes
  pub hash : Bytes
  pub error_message : Bytes
  pub load_score : F
  pub active_connections : ℕ

pub record ReplicateChunkRequest : Type 0 where
  pub chunk_id : Bytes
  pub target_server_ip : Bytes
  pub target_transfer_port : ℤ
  pub filename : Bytes

pub record ReplicateChunkResponse : Type 0 where
  pub success : Bool
  pub error_message : Bytes
  pub file_path : Bytes

-- ParseFromArray is `none` where it is false. Of a ChunkResponse the code reads the fields even then.
pub record Protobuf (F : Type 0) : Type 0 where
  pub parse_chunk_data : Bytes → Option ChunkData
  pub parse_fetch_chunk : Bytes → Option FetchRequest
  pub parse_fetch_hash : Bytes → Option FetchRequest
  pub parse_replicate : Bytes → Option ReplicateChunkRequest
  pub parse_chunk_response : Bytes → Bool × ChunkResponse
  pub serialize_chunk_data : ChunkData → Bytes
  pub serialize_chunk_response : ChunkResponse → Bytes
  pub serialize_fetch_chunk : FetchChunkResponse → Bytes
  pub serialize_fetch_hash : FetchHashResponse F → Bytes
  pub serialize_replicate : ReplicateChunkResponse → Bytes

-- The bytes of htonl(n) for a size_t n, which is cut to 32 bits.
unfoldable pub htonl : ℕ → Bytes
unfolding word_bytes
htonl n = word_bytes n

abbrev pub ntohl : Bytes → ℕ
ntohl (b0 ∷ b1 ∷ b2 ∷ b3 ∷ _) = b0 * 2 ^ 24 + b1 * 2 ^ 16 + b2 * 2 ^ 8 + b3
ntohl _ = 0

-- The next n bytes of a connection and what follows; `none` where the peer closes before.
unfoldable pub read_exact : ℕ → Bytes → Option (Bytes × Bytes)
read_exact n stream = if leb n (length stream) then some (take n stream, drop n stream) else none

abbrev pub response_frame : Bytes → Bytes
response_frame serialized = htonl (length serialized) ++ serialized

abbrev pub request_frame : ℕ → Bytes → Bytes
request_frame type serialized = htonl type ++ (htonl (length serialized) ++ serialized)
