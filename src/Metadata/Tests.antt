-- ===== src/Metadata/Tests.antt =====
-- A store with one file on two servers, and the theorems about the store at it.
use distributed_file_grid.Prelude.{◌≡◌, refl, List, [], ◌∷◌, arith}
use distributed_file_grid.Prelude.Int.{ℤ, pos}
use distributed_file_grid.Prelude.Key.{Bytes, bytes_eq, bytes_key, ℤ_key}
use distributed_file_grid.Prelude.Map.{Map, find, insert}
use distributed_file_grid.Prelude.Text.{str, int_to_string}
use distributed_file_grid.Metadata.{
  ChunkRecord, FileRecord, MetadataMap, query_metadata, cid_counts,
}
use distributed_file_grid.Metadata.Disk.{
  chunk_line, replicas_line, hash_line, file_lines, store_lines, unlines, persist, load,
}
use distributed_file_grid.Metadata.Disk.RoundTrip.{IsStorableStore, load-persist}
use distributed_file_grid.Metadata.Request.{ChunkInfo, metadata_request, create_entry}
use distributed_file_grid.Metadata.Request.RoundTrip.{to_record, query-create_entry}

abbrev replica : ℤ → Bytes → ℤ → ChunkRecord
replica cid server n = record {
  chunk_id = cid;
  server = server;
  path = str "/d/c";
  checksum = str "ab";
  replica_count = n;
}

abbrev on_two : FileRecord
on_two = record {
  file_hash = str "ff";
  replica_count = pos 2;
  chunks =
      replica (pos 0) (str "a:1") (pos 2)
      ∷ replica (pos 0) (str "b:2") (pos 2)
      ∷ replica (pos 1) (str "a:1") (pos 1)
      ∷ [];
}

abbrev small_store : MetadataMap
small_store = (str "f", on_two) ∷ []

abbrev moved : Map Bytes (List ChunkRecord)
moved = (str "f", replica (pos 0) (str "c:3") (pos 2) ∷ []) ∷ []

persist_runs :
    persist small_store
    ≡ str "f HASH=ff\nf REPLICAS=2\nf 0 a:1 /d/c ab 2\nf 0 b:2 /d/c ab 2\nf 1 a:1 /d/c ab 1\n"
unfolding persist unlines store_lines file_lines hash_line replicas_line int_to_string chunk_line
persist_runs = refl

-- A line with a missing checksum, and one with a wrong count.
load_runs :
    load (str "f 0 a:1 /d/c\nf 0 b:2 /d/c ab 9\nbad\n")
    ≡ (
      str "f",
      record {
        file_hash = [];
        replica_count = pos 2;
        chunks =
            record (replica (pos 0) (str "a:1") (pos 2)) { checksum = [] }
            ∷ replica (pos 0) (str "b:2") (pos 2)
            ∷ [];
      },
    )
      ∷ []
unfolding load insert bytes_eq find cid_counts
load_runs = refl

word_facts : IsStorableStore small_store
word_facts = ground arith

load-persist_example : load (persist small_store) ≡ small_store
load-persist_example = load-persist small_store (tt, tt) word_facts

abbrev info : ChunkInfo
info = record {
  chunk_id = pos 0;
  server_ip = str "a:1";
  file_path = str "/d/c";
  size = 4;
  checksum = str "ab";
  replica_count = pos 1;
}

query-create_entry_example :
    query_metadata
      (create_entry small_store (metadata_request (str "g") (info ∷ []) (str "ee") (pos 3)))
      (str "g")
    ≡ record { file_hash = str "ee"; replica_count = pos 3; chunks = to_record info ∷ [] }
query-create_entry_example =
    query-create_entry small_store (str "g") (info ∷ []) (str "ee") (pos 3) (refl, tt)
      (refl, (refl, tt)) (omega arith) refl (ground arith) refl
