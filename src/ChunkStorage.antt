-- ===== src/ChunkStorage.antt =====
-- `ChunkStorage` of src/cluster_server/chunk_service.cpp: the chunks of a cluster server, as files and a
-- registry in memory that knows the path of each. The file system is a map of paths to contents, the
-- answers of its calls and the clock are an argument, and a task of the I/O pool runs at once.
pub mod Files
pub mod Laws
pub mod Tests
use distributed_file_grid.Prelude.{
  ℕ, zero, suc, ◌+◌, ◌-◌, ◌*◌, ◌/◌, ◌%◌, ◌^◌, ◌≤◌, ◌<◌, ◌≡◌, refl, sym, ◌∙◌, ap, subst, ◌≢◌, ◌↔◌,
  ◌⊎◌, inl, inr, Bool, true, false, ◌&&◌, ◌||◌, not, List, [], ◌∷◌, ◌++◌, map, Option, none, some,
  arith, ltb, leb, ◌==◌, if◌then◌else◌, Bool-cases, Option-cases, &&-true, lt→ltb, ltb→lt, leb→le,
  ==_iff, Bool_eq_of_iff, length, take, drop, replicate, get_or, keep, count_if, any, find_if, All,
  length-append, length-take, length-drop, length-replicate, length-zero, take-append-drop,
  All-append, All-keep, All-mono, count_if-append, count_if-le-length, All-keep_test, String,
}
use distributed_file_grid.Prelude.Int.{ℤ, pos, negsuc, ltb_ℤ, eqb_ℤ}
use distributed_file_grid.Prelude.Key.{
  Key, Bytes, bytes_eq, bytes_lt, bytes_eq_iff, bytes_key, ℤ_key, eqb_ℤ_iff,
}
use distributed_file_grid.Prelude.Map.{
  Map, find, insert, erase, member, find_or, keys, values, find-insert, find-erase, same_refl,
  All-insert, All-erase, All-find,
}
use distributed_file_grid.Prelude.Text.{
  str, is_space, is_digit, digits, to_string, int_to_string, skip_ws, scan_digits, read_int,
  int_limit, long_limit, stoi, stoll, find_char, starts_with, find_sub, substr, word_of, after_word,
  read_word,
}
use distributed_file_grid.ChunkStorage.Files.{CallAnswer, WriteResult, write_all, read_all}
use distributed_file_grid.Metadata.{is_empty}

-- `next_seq` is the counter in generate_chunk_path.
pub record ChunkStorage : Type 0 where
  pub storage_path : Bytes
  pub chunk_registry : Map Bytes Bytes
  pub next_seq : ℕ
  pub files : Map Bytes Bytes

-- The microseconds on the clock, whether the file opens (and seeks), what the calls on it answer, and
-- whether fs::remove raises no exception.
pub record Io : Type 0 where
  pub now : ℕ
  pub opens : Bool
  pub calls : List CallAnswer
  pub removes : Bool

-- The path, and the counter is one up.
unfoldable pub generate_chunk_path : ChunkStorage → Io → Bytes → Bytes
unfolding to_string
generate_chunk_path s io chunk_id =
    s.storage_path
    ++ (str "chunk_"
        ++ (chunk_id
            ++ (str "_"
                ++ (to_string io.now ++ (str "_" ++ (to_string (suc s.next_seq) ++ str ".dat"))))))

-- The pair of the result is (success, path).
pub record Stored : Type 0 where
  pub storage : ChunkStorage
  pub result : Bool × Bytes

abbrev pub finish_store : ChunkStorage → Bytes → Bytes → Option WriteResult → Option Stored
finish_store s chunk_id path none = none
finish_store s chunk_id path (some r) = some (
    if r.success
    then record {
      storage = record s {
        chunk_registry = insert chunk_id path s.chunk_registry;
        files = insert path r.content s.files;
      };
      result = (true, path);
    }
    else record {
      storage = record s { files = insert path r.content s.files };
      result = (false, []);
    })

-- `none` where the task does not end.
unfoldable pub async_store_chunk : ChunkStorage → Io → Bytes → Bytes → Option Stored
unfolding generate_chunk_path write_all
async_store_chunk s io chunk_id content =
    let path = generate_chunk_path s io chunk_id in
    let counted = record s { next_seq = suc s.next_seq } in
    if io.opens
    then finish_store counted chunk_id path (write_all io.calls [] content)
    else some (record { storage = counted; result = (false, []) })

-- The task that reads a file; no file has empty data.
abbrev read_file : Io → Option Bytes → Option Bytes
read_file io none = some []
read_file io (some content) = if io.opens then read_all io.calls [] content else some []

pub record Retrieved : Type 0 where
  pub storage : ChunkStorage
  pub content : Bytes

abbrev give : ChunkStorage → Option Bytes → Option Retrieved
give s none = none
give s (some content) = some (record { storage = s; content = content })

-- The fallback path becomes the chunk's path.
abbrev retrieve_at : ChunkStorage → Io → Bytes → Bytes → Option Bytes → Option Retrieved
retrieve_at s io chunk_id fallback_path (some path) = give s (read_file io (find path s.files))
retrieve_at s io chunk_id fallback_path none =
    if not (is_empty fallback_path) && member fallback_path s.files
    then give (record s { chunk_registry = insert chunk_id fallback_path s.chunk_registry })
        (read_file io (find fallback_path s.files))
    else some (record { storage = s; content = [] })

unfoldable pub async_retrieve_chunk : ChunkStorage → Io → Bytes → Bytes → Option Retrieved
unfolding read_all
async_retrieve_chunk s io chunk_id fallback_path =
    retrieve_at s io chunk_id fallback_path (find chunk_id s.chunk_registry)

abbrev delete_at : ChunkStorage → Io → Bytes → Option Bytes → ChunkStorage × Bool
delete_at s io chunk_id none = (s, false)
delete_at s io chunk_id (some path) =
    let forgotten = record s { chunk_registry = erase chunk_id s.chunk_registry } in
    if io.removes
    then (record forgotten { files = erase path s.files }, true)
    else (forgotten, false)

-- The result is whether the chunk was known and its file is removed, or was gone.
unfoldable pub delete_chunk : ChunkStorage → Io → Bytes → ChunkStorage × Bool
delete_chunk s io chunk_id = delete_at s io chunk_id (find chunk_id s.chunk_registry)

unfoldable pub list_chunks : ChunkStorage → List Bytes
list_chunks s = keys s.chunk_registry

-- A process that starts again has its files and nothing else.
unfoldable pub restart : ChunkStorage → ChunkStorage
restart s = record s { chunk_registry = []; next_seq = 0 }
