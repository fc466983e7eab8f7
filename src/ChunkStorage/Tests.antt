-- ===== src/ChunkStorage/Tests.antt =====
-- The storage at concrete inputs.
use distributed_file_grid.Prelude.{◌≡◌, refl, ◌≢◌, true, false, [], ◌∷◌, Option, none, some, arith}
use distributed_file_grid.Prelude.Key.{Bytes, bytes_eq, bytes_lt, bytes_key, ℤ_key}
use distributed_file_grid.Prelude.Map.{find, insert, erase}
use distributed_file_grid.Prelude.Text.{str, to_string}
use distributed_file_grid.ChunkStorage.{
  ChunkStorage, Io, Stored, async_store_chunk, async_retrieve_chunk, delete_chunk, restart,
  list_chunks,
}
use distributed_file_grid.ChunkStorage.Files.{total, moved, interrupted}
use distributed_file_grid.ChunkStorage.Laws.{
  IsHeld, IsReady, store-IsHeld, delete-retrieve, restart-retrieve,
}

-- The bytes come in two pieces, with an interruption between them.
abbrev pub two_pieces : Io
two_pieces = record {
  now = 7;
  opens = true;
  calls = moved 3 ∷ interrupted ∷ moved 9 ∷ [];
  removes = true;
}

abbrev pub two_pieces-IsReady : IsReady two_pieces 5
unfolding total
two_pieces-IsReady = (refl, ((refl, (refl, (refl, tt))), omega arith))

abbrev pub no_chunks : ChunkStorage
no_chunks = record { storage_path = str "/d/"; chunk_registry = []; next_seq = 0; files = [] }

abbrev pub hello : Bytes
hello = str "hello"

abbrev pub hello_path : Bytes
hello_path = str "/d/chunk_f_chunk_0_7_1.dat"

abbrev pub one_chunk : ChunkStorage
one_chunk = record {
  storage_path = str "/d/";
  chunk_registry = (str "f_chunk_0", hello_path) ∷ [];
  next_seq = 1;
  files = (hello_path, hello) ∷ [];
}

abbrev pub one_chunk-IsHeld : IsHeld one_chunk (str "f_chunk_0") hello_path hello
unfolding find bytes_eq
one_chunk-IsHeld = record { known = refl; on_disk = refl }

store_test :
    async_store_chunk no_chunks two_pieces (str "f_chunk_0") hello
    ≡ some (record { storage = one_chunk; result = (true, hello_path) })
unfolding async_store_chunk insert to_string
store_test = refl

-- The second file of a chunk leaves the first one where no operation finds it.
orphan_test :
    let io : Io = record two_pieces { now = 8 } in
    let again = async_store_chunk one_chunk io (str "f_chunk_0") (str "world") in
    let left : Option Stored → Option Bytes = λ o. elim o [
      | none ↦ none
      | some r ↦ find hello_path (delete_chunk r.storage io (str "f_chunk_0")).0.files
    ] in
    left again ≡ some hello
unfolding async_store_chunk insert to_string delete_chunk find erase bytes_eq bytes_lt
orphan_test = refl

store-IsHeld_example : IsHeld one_chunk (str "f_chunk_0") hello_path hello
store-IsHeld_example =
    store-IsHeld no_chunks two_pieces (str "f_chunk_0") hello
      (record { storage = one_chunk; result = (true, hello_path) }) store_test refl

delete-retrieve_example :
    let after = delete_chunk one_chunk two_pieces (str "f_chunk_0") in
    (after.1 ≡ true)
    × (find hello_path after.0.files ≡ none)
    × (async_retrieve_chunk after.0 two_pieces (str "f_chunk_0") []
        ≡ some (record { storage = after.0; content = [] }))
    × (delete_chunk after.0 two_pieces (str "f_chunk_0") ≡ (after.0, false))
    × ((other : Bytes)
        → other ≢ str "f_chunk_0"
        → find other after.0.chunk_registry ≡ find other one_chunk.chunk_registry)
delete-retrieve_example =
    delete-retrieve one_chunk two_pieces two_pieces (str "f_chunk_0") hello_path hello
      one_chunk-IsHeld refl

restart-retrieve_example :
    let t = restart one_chunk in
    let again = record t {
      chunk_registry = insert (str "f_chunk_0") hello_path t.chunk_registry;
    } in
    (list_chunks t ≡ [])
    × (delete_chunk t two_pieces (str "f_chunk_0") ≡ (t, false))
    × (async_retrieve_chunk t two_pieces (str "f_chunk_0") []
        ≡ some (record { storage = t; content = [] }))
    × (async_retrieve_chunk t two_pieces (str "f_chunk_0") hello_path
        ≡ some (record { storage = again; content = hello }))
    × ((delete_chunk again two_pieces (str "f_chunk_0")).1 ≡ true)
restart-retrieve_example =
    restart-retrieve one_chunk two_pieces (str "f_chunk_0") hello_path hello one_chunk-IsHeld refl
      two_pieces-IsReady refl
