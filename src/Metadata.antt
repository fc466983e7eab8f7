-- ===== src/Metadata.antt =====
-- The on-disk metadata store of src/head_server/redis_handler.hpp (the build without WITH_REDIS).
-- Every operation holds the store's mutex, so each is one step on the map from file names to file
-- records. The file on disk is written after each change; `Metadata.Disk` models its text.
pub mod Counts
pub mod Delete
pub mod Replace
pub mod Disk
pub mod Request
pub mod Tests
use distributed_file_grid.Prelude.{
  ℕ, zero, suc, ◌+◌, ◌-◌, ◌*◌, ◌/◌, ◌%◌, ◌^◌, ◌≤◌, ◌<◌, ◌≡◌, refl, sym, ◌∙◌, ap, subst, ◌≢◌, ◌↔◌,
  ◌⊎◌, inl, inr, Bool, true, false, ◌&&◌, ◌||◌, not, List, [], ◌∷◌, ◌++◌, map, Option, none, some,
  arith, ltb, leb, ◌==◌, if◌then◌else◌, Bool-cases, Option-cases, &&-true, lt→ltb, ltb→lt, leb→le,
  ==_iff, Bool_eq_of_iff, length, take, drop, replicate, get_or, keep, count_if, any, find_if, All,
  length-append, length-take, length-drop, length-replicate, take-append-drop, All-append, All-keep,
  All-mono, count_if-append, count_if-le-length, All-keep_test, String,
}
use distributed_file_grid.Prelude.Int.{ℤ, pos, negsuc, ltb_ℤ, eqb_ℤ}
use distributed_file_grid.Prelude.Key.{
  Key, Bytes, bytes_eq, bytes_lt, bytes_eq_iff, bytes_key, ℤ_key, eqb_ℤ_iff,
}
use distributed_file_grid.Prelude.Map.{
  Map, find, insert, erase, member, find_or, keys, values, find-insert, find-erase, same_refl,
  All-insert, All-erase, All-find,
}
use distributed_file_grid.Prelude.Text.{
  str, is_space, is_digit, digits, to_string, int_to_string, skip_ws, scan_digits, read_int,
  int_limit, long_limit, stoi, stoll, find_char, starts_with, find_sub, substr, word_of, after_word,
  read_word,
}

pub record ChunkRecord : Type 0 where
  pub chunk_id : ℤ
  pub server : Bytes
  pub path : Bytes
  pub checksum : Bytes
  pub replica_count : ℤ

pub record FileRecord : Type 0 where
  pub file_hash : Bytes
  pub replica_count : ℤ
  pub chunks : List ChunkRecord

abbrev pub no_record : FileRecord
no_record = record { file_hash = []; replica_count = pos 0; chunks = [] }

abbrev pub MetadataMap : Type 0
MetadataMap = Map Bytes FileRecord

-- cid_counts[cr.chunk_id]++ for each record
unfoldable pub cid_counts_from : Map ℤ ℕ → List ChunkRecord → Map ℤ ℕ
cid_counts_from m [] = m
cid_counts_from m (cr ∷ rest) =
    cid_counts_from (insert cr.chunk_id (suc (find_or 0 cr.chunk_id m)) m) rest

unfoldable pub cid_counts : List ChunkRecord → Map ℤ ℕ
unfolding cid_counts_from
cid_counts = cid_counts_from []

abbrev pub is_positive : ℤ → Bool
is_positive n = ltb_ℤ (pos 0) n

-- cr.replica_count = cid_counts[cr.chunk_id]
abbrev pub with_count : Map ℤ ℕ → ChunkRecord → ChunkRecord
with_count counts cr = record cr { replica_count = pos (find_or 0 cr.chunk_id counts) }

abbrev pub with_missing_count : Map ℤ ℕ → ChunkRecord → ChunkRecord
with_missing_count counts cr = if is_positive cr.replica_count then cr else with_count counts cr

-- cid_counts.begin()->second, where the map is not empty
abbrev pub first_count : ℤ → Map ℤ ℕ → ℤ
first_count d [] = d
first_count d ((cid, n) ∷ rest) = pos n

abbrev pub file_count : ℤ → Map ℤ ℕ → ℤ
file_count n counts = if is_positive n then n else first_count n counts

unfoldable pub replace_file_chunks :
    MetadataMap → Bytes → Bytes → List ChunkRecord → ℤ → MetadataMap
replace_file_chunks store file file_hash chunks replica_count =
    let counts = cid_counts chunks in
    insert file
      (record {
        file_hash = file_hash;
        replica_count = file_count replica_count counts;
        chunks = map (with_missing_count counts) chunks;
      })
      store

unfoldable pub get_chunks : MetadataMap → Bytes → FileRecord
get_chunks store file = find_or no_record file store

unfoldable pub remove_file : MetadataMap → Bytes → MetadataMap
remove_file store file = erase file store

-- The names sorted, which is the order of the map here.
unfoldable pub list_files_snapshot : MetadataMap → List Bytes
list_files_snapshot store = keys store

abbrev pub on_other : Bytes → ChunkRecord → Bool
on_other server cr = not (bytes_eq cr.server server)

-- The chunks of a file once those of the dead server are replaced.
abbrev pub replaced_chunks : Bytes → List ChunkRecord → List ChunkRecord → List ChunkRecord
replaced_chunks dead new_chunks chunks =
    let joined = keep (on_other dead) chunks ++ new_chunks in
    map (with_count (cid_counts joined)) joined

unfoldable pub replace_in_file : Bytes → List ChunkRecord → FileRecord → FileRecord
replace_in_file dead new_chunks rec =
    let joined = keep (on_other dead) rec.chunks ++ new_chunks in
    record rec {
      replica_count = first_count rec.replica_count (cid_counts joined);
      chunks = replaced_chunks dead new_chunks rec.chunks;
    }

abbrev replace_found :
    MetadataMap → Bytes → Bytes → List ChunkRecord → Option FileRecord → MetadataMap
replace_found store dead file new_chunks none = store
replace_found store dead file new_chunks (some rec) =
    insert file (replace_in_file dead new_chunks rec) store

-- The address of the new server, which this backend does not read, is left out.
unfoldable pub atomic_replace_server_chunks :
    MetadataMap → Bytes → Map Bytes (List ChunkRecord) → MetadataMap
atomic_replace_server_chunks store dead [] = store
atomic_replace_server_chunks store dead ((file, new_chunks) ∷ rest) =
    atomic_replace_server_chunks (replace_found store dead file new_chunks (find file store)) dead
      rest

unfoldable pub purge_file : Bytes → FileRecord → FileRecord
purge_file server rec =
    let left = keep (on_other server) rec.chunks in
    record rec { chunks = map (with_count (cid_counts left)) left }

unfoldable pub delete_server_metadata : MetadataMap → Bytes → MetadataMap
delete_server_metadata [] server = []
delete_server_metadata ((file, rec) ∷ rest) server =
    (file, purge_file server rec) ∷ delete_server_metadata rest server

abbrev pub is_empty : Bytes → Bool
is_empty [] = true
is_empty (c ∷ s) = false

unfoldable pub query_metadata : MetadataMap → Bytes → FileRecord
unfolding get_chunks
query_metadata store file_name =
    if is_empty file_name then no_record else get_chunks store file_name

unfoldable pub delete_entry : MetadataMap → Bytes → MetadataMap
unfolding remove_file
delete_entry store file_name = if is_empty file_name then store else remove_file store file_name
