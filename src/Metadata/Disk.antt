-- ===== src/Metadata/Disk.antt =====
-- `persist_locked` and `load_from_disk` of src/head_server/redis_handler.hpp: the text of the store.
-- The file itself is a text here; a file that cannot be opened loads as the empty map.
pub mod Lines
pub mod Text
pub mod RoundTrip
use distributed_file_grid.Prelude.{
  ℕ, zero, suc, ◌+◌, ◌-◌, ◌*◌, ◌/◌, ◌%◌, ◌^◌, ◌≤◌, ◌<◌, ◌≡◌, refl, sym, ◌∙◌, ap, subst, ◌≢◌, ◌↔◌,
  ◌⊎◌, inl, inr, Bool, true, false, ◌&&◌, ◌||◌, not, List, [], ◌∷◌, ◌++◌, map, Option, none, some,
  arith, ltb, leb, ◌==◌, if◌then◌else◌, Bool-cases, Option-cases, &&-true, lt→ltb, ltb→lt, leb→le,
  ==_iff, Bool_eq_of_iff, length, take, drop, replicate, get_or, keep, count_if, any, find_if, All,
  length-append, length-take, length-drop, length-replicate, take-append-drop, All-append, All-keep,
  All-mono, count_if-append, count_if-le-length, All-keep_test, String,
}
use distributed_file_grid.Prelude.Int.{ℤ, pos, negsuc, ltb_ℤ, eqb_ℤ}
use distributed_file_grid.Prelude.Key.{
  Key, Bytes, bytes_eq, bytes_lt, bytes_eq_iff, bytes_key, ℤ_key, eqb_ℤ_iff,
}
use distributed_file_grid.Prelude.Map.{
  Map, find, insert, erase, member, find_or, keys, values, find-insert, find-erase, same_refl,
  All-insert, All-erase, All-find,
}
use distributed_file_grid.Prelude.Text.{
  str, is_space, is_digit, digits, to_string, int_to_string, skip_ws, scan_digits, read_int,
  int_limit, long_limit, stoi, stoll, find_char, starts_with, find_sub, substr, word_of, after_word,
  read_word,
}
use distributed_file_grid.Metadata.{
  ChunkRecord, FileRecord, no_record, MetadataMap, cid_counts, with_count, is_positive, first_count,
  is_empty, file_count,
}

abbrev pub newline : ℕ
newline = 10

abbrev pub blank : ℕ
blank = 32

abbrev pub hash_mark : Bytes
hash_mark = str "HASH="

abbrev pub replicas_mark : Bytes
replicas_mark = str "REPLICAS="

-- The lines of a file, without their ends.
unfoldable pub hash_line : Bytes → Bytes → Bytes
hash_line name file_hash = name ++ (blank ∷ (hash_mark ++ file_hash))

unfoldable pub replicas_line : Bytes → ℤ → Bytes
replicas_line name n = name ++ (blank ∷ (replicas_mark ++ int_to_string n))

unfoldable pub chunk_fields : ChunkRecord → Bytes
chunk_fields cr =
    cr.server
    ++ (blank ∷ (cr.path ++ (blank ∷ (cr.checksum ++ (blank ∷ int_to_string cr.replica_count)))))

unfoldable pub chunk_line : Bytes → ChunkRecord → Bytes
unfolding chunk_fields
chunk_line name cr = name ++ (blank ∷ (int_to_string cr.chunk_id ++ (blank ∷ chunk_fields cr)))

unfoldable pub file_lines : Bytes → FileRecord → List Bytes
file_lines name rec =
    (if is_empty rec.file_hash then [] else hash_line name rec.file_hash ∷ [])
    ++ ((if is_positive rec.replica_count then replicas_line name rec.replica_count ∷ [] else [])
        ++ map (chunk_line name) rec.chunks)

unfoldable pub store_lines : MetadataMap → List Bytes
store_lines [] = []
store_lines ((name, rec) ∷ rest) = file_lines name rec ++ store_lines rest

unfoldable pub unlines : List Bytes → Bytes
unlines [] = []
unlines (line ∷ rest) = line ++ (newline ∷ unlines rest)

unfoldable pub persist : MetadataMap → Bytes
persist store = unlines (store_lines store)

-- What `getline` returns, call after call: the lines, and a last one that has no end.
unfoldable pub getlines : Bytes → Bytes → List Bytes
getlines cur [] = if is_empty cur then [] else cur ∷ []
getlines cur (c ∷ s) =
    let next = cur ∷ getlines [] s in
    let more = getlines (cur ++ (c ∷ [])) s in if c == newline then next else more

abbrev pub update : MetadataMap → Bytes → (FileRecord → FileRecord) → MetadataMap
update store name f = insert name (f (find_or no_record name store)) store

-- iss >> record.checksum, then iss >> record.replica_count, which is 1 if it fails
abbrev read_count : Option (ℤ × Bytes) → ℤ
read_count none = pos 1
read_count (some (n, rest)) = n

abbrev read_tail : ℤ → Bytes → Bytes → Option (Bytes × Bytes) → ChunkRecord
read_tail cid server path none = record {
  chunk_id = cid;
  server = server;
  path = path;
  checksum = [];
  replica_count = pos 1;
}
read_tail cid server path (some (checksum, rest)) = record {
  chunk_id = cid;
  server = server;
  path = path;
  checksum = checksum;
  replica_count = read_count (read_int int_limit rest);
}

infixl 5 ◌>>=◌
abbrev ◌>>=◌ {ℓ κ} : {A : Type ℓ} {B : Type κ} → Option A → (A → Option B) → Option B
none >>= f = none
some a >>= f = f a

-- The record of a line whose second word is `token`; `none` where the line is skipped.
unfoldable pub read_chunk : Bytes → Bytes → Option ChunkRecord
unfolding stoll read_word
read_chunk token rest = do
  cid ← stoll token
  (server, after_server) ← read_word rest
  (path, after_path) ← read_word after_server
  some (read_tail cid server path (read_word after_path))

abbrev add_chunk : MetadataMap → Bytes → Option ChunkRecord → MetadataMap
add_chunk store name none = store
add_chunk store name (some cr) =
    update store name (λ rec. record rec { chunks = rec.chunks ++ (cr ∷ []) })

abbrev set_replicas : MetadataMap → Bytes → Option ℤ → MetadataMap
set_replicas store name none = store
set_replicas store name (some n) = update store name (λ rec. record rec { replica_count = n })

unfoldable pub load_entry : MetadataMap → Bytes → Bytes → Bytes → MetadataMap
unfolding starts_with stoi read_chunk
load_entry store name token rest =
    if starts_with hash_mark token
    then update store name (λ rec. record rec { file_hash = drop 5 token })
    else if starts_with replicas_mark token
    then set_replicas store name (stoi (drop 9 token))
    else add_chunk store name (read_chunk token rest)

abbrev load_token : MetadataMap → Bytes → Option (Bytes × Bytes) → MetadataMap
load_token store name none = store
load_token store name (some (token, rest)) = load_entry store name token rest

abbrev load_words : MetadataMap → Option (Bytes × Bytes) → MetadataMap
load_words store none = store
load_words store (some (name, rest)) = load_token store name (read_word rest)

-- A line without two words, the empty line among them, is skipped.
unfoldable pub load_line : MetadataMap → Bytes → MetadataMap
unfolding load_entry read_word
load_line store line = load_words store (read_word line)

unfoldable pub load_lines : MetadataMap → List Bytes → MetadataMap
unfolding load_line
load_lines store [] = store
load_lines store (line ∷ rest) = load_lines (load_line store line) rest

-- cr.replica_count <= 0 || cr.replica_count != cid_counts[cr.chunk_id]
abbrev with_loaded_count : Map ℤ ℕ → ChunkRecord → ChunkRecord
with_loaded_count counts cr =
    if not (is_positive cr.replica_count)
      || not (eqb_ℤ cr.replica_count (pos (find_or 0 cr.chunk_id counts)))
    then with_count counts cr
    else cr

unfoldable pub make_consistent : FileRecord → FileRecord
make_consistent rec =
    let counts = cid_counts rec.chunks in
    record rec {
      replica_count = file_count rec.replica_count counts;
      chunks = map (with_loaded_count counts) rec.chunks;
    }

unfoldable pub load : Bytes → MetadataMap
unfolding getlines load_lines make_consistent
load text = map (λ e. (e.0, make_consistent e.1)) (load_lines [] (getlines [] text))
