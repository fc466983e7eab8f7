-- ===== src/Download/Tests.antt =====
-- A chunk on three servers, one of which has other content, and a file without chunks.
use distributed_file_grid.Prelude.{
  map, ℕ, ◌≤◌, ◌≡◌, refl, true, List, [], ◌∷◌, Option, none, some, if◌then◌else◌, length,
}
use distributed_file_grid.Prelude.Int.{pos}
use distributed_file_grid.Prelude.Key.{Bytes, bytes_eq, bytes_lt, bytes_key, ℤ_key}
use distributed_file_grid.Prelude.Map.{find, insert}
use distributed_file_grid.Prelude.Text.{str}
use distributed_file_grid.Prelude.Floats.{percentages}
use distributed_file_grid.Metadata.{MetadataMap, query_metadata, no_record}
use distributed_file_grid.Download.{
  ChunkLocation, to_location, ChunkFetchPlan, HashAnswer, plan_chunk, handle_client_delete,
  stream_file_to_client,
}
use distributed_file_grid.Registry.{empty}
use distributed_file_grid.Download.Votes.{voters}
use distributed_file_grid.Download.Choice.{IsLightest, plan_chunk_lem}
use distributed_file_grid.Download.Deletion.{Deletion, handle_client_delete_lem}

abbrev answer_of : Bytes → Option (HashAnswer ℕ)
answer_of server =
    if bytes_eq server (str "a:1")
    then some (record { hash = str "h1"; load_score = 3; active_connections = pos 5 })
    else if bytes_eq server (str "b:2")
    then some (record { hash = str "h1"; load_score = 9; active_connections = pos 2 })
    else if bytes_eq server (str "c:3")
    then some (record { hash = str "h0"; load_score = 0; active_connections = pos 0 })
    else none

abbrev three_answer : ChunkLocation → Bytes → Option (HashAnswer (percentages.Float))
three_answer loc filename = answer_of loc.server_ip

abbrev at : Bytes → ChunkLocation
at server = record { chunk_id = pos 0; server_ip = server; file_path = str "/d" }

abbrev spread : List ChunkLocation
spread = at (str "c:3") ∷ at (str "a:1") ∷ at (str "b:2") ∷ []

abbrev from_b : ChunkFetchPlan
from_b = record { chunk_id = pos 0; best_server = at (str "b:2"); majority_hash = str "h1" }

plan_chunk_lem_example :
    (pos 0 ≡ pos 0)
    × ((hash : Bytes)
        → length (voters percentages three_answer (str "f") hash spread)
          ≤ length (voters percentages three_answer (str "f") (str "h1") spread))
    × IsLightest percentages three_answer
        (at (str "b:2"))
        (voters percentages three_answer (str "f") (str "h1") spread)
unfolding plan_chunk insert find bytes_eq bytes_lt
plan_chunk_lem_example =
    plan_chunk_lem percentages three_answer (str "f") spread (pos 0) from_b refl

abbrev with_files : MetadataMap
with_files =
    (str "empty", record no_record { file_hash = str "e3" })
    ∷ (
      str "f",
      record no_record {
        chunks =
            record {
              chunk_id = pos 0;
              server = str "a:1";
              path = str "/d";
              checksum = str "ab";
              replica_count = pos 1;
            }
            ∷ [];
      },
    )
    ∷ []

abbrev confirms : ChunkLocation → Bytes → Option Bytes
confirms loc filename = some (str "SUCCESS\n")

-- The empty file can be downloaded, although it cannot be deleted.
empty_file_streams :
    stream_file_to_client percentages three_answer empty with_files (str "empty")
    ≡ (str "FILE_HASH e3\nEOF\n", true)
unfolding stream_file_to_client find bytes_eq
empty_file_streams = refl

-- The first server confirms and the second one does not answer: the file stays.
abbrev one_confirms : ChunkLocation → Bytes → Option Bytes
one_confirms loc filename =
    if bytes_eq loc.server_ip (str "a:1") then confirms loc filename else none

handle_client_delete_lem_example :
    let locs = map to_location (query_metadata with_files (str "f")).chunks in
    Deletion one_confirms
      (str "f")
      with_files
      locs
      (handle_client_delete one_confirms with_files (str "f"))
handle_client_delete_lem_example = handle_client_delete_lem one_confirms with_files (str "f")
