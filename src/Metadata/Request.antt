-- ===== src/Metadata/Request.antt =====
-- `create_entry` of src/head_server/redis_handler.hpp, and the request text that
-- `FileChunker::store_metadata` of src/head_server/file_upload.cpp hands to it.
pub mod RoundTrip
use distributed_file_grid.Prelude.{
  ℕ, zero, suc, ◌+◌, ◌-◌, ◌*◌, ◌/◌, ◌%◌, ◌^◌, ◌≤◌, ◌<◌, ◌≡◌, refl, sym, ◌∙◌, ap, subst, ◌≢◌, ◌↔◌,
  ◌⊎◌, inl, inr, Bool, true, false, ◌&&◌, ◌||◌, not, List, [], ◌∷◌, ◌++◌, map, Option, none, some,
  arith, ltb, leb, ◌==◌, if◌then◌else◌, Bool-cases, Option-cases, &&-true, lt→ltb, ltb→lt, leb→le,
  ==_iff, Bool_eq_of_iff, length, take, drop, replicate, get_or, keep, count_if, any, find_if, All,
  length-append, length-take, length-drop, length-replicate, take-append-drop, All-append, All-keep,
  All-mono, count_if-append, count_if-le-length, All-keep_test, String,
}
use distributed_file_grid.Prelude.Int.{ℤ, pos, negsuc, ltb_ℤ, eqb_ℤ}
use distributed_file_grid.Prelude.Key.{
  Key, Bytes, bytes_eq, bytes_lt, bytes_eq_iff, bytes_key, ℤ_key, eqb_ℤ_iff,
}
use distributed_file_grid.Prelude.Map.{
  Map, find, insert, erase, member, find_or, keys, values, find-insert, find-erase, same_refl,
  All-insert, All-erase, All-find,
}
use distributed_file_grid.Prelude.Text.{
  str, is_space, is_digit, digits, to_string, int_to_string, skip_ws, scan_digits, read_int,
  int_limit, long_limit, stoi, stoll, find_char, starts_with, find_sub, substr, word_of, after_word,
  read_word,
}
use distributed_file_grid.Prelude.Text.{head_is_digit}
use distributed_file_grid.Metadata.{
  ChunkRecord, FileRecord, MetadataMap, cid_counts, with_missing_count, file_count, is_empty,
  replace_file_chunks,
}
use distributed_file_grid.Metadata.Disk.{
  hash_mark, replicas_mark, newline, blank, getlines, unlines,
}

-- A chunk replica that an upload has stored.
pub record ChunkInfo : Type 0 where
  pub chunk_id : ℤ
  pub server_ip : Bytes
  pub file_path : Bytes
  pub size : ℕ
  pub checksum : Bytes
  pub replica_count : ℤ

unfoldable pub info_fields : ChunkInfo → Bytes
info_fields c =
    c.server_ip
    ++ (blank ∷ (c.file_path ++ (blank ∷ (c.checksum ++ (blank ∷ int_to_string c.replica_count)))))

unfoldable pub info_line : ChunkInfo → Bytes
unfolding info_fields
info_line c = int_to_string c.chunk_id ++ (blank ∷ info_fields c)

abbrev pub ttl_mark : Bytes
ttl_mark = str "TTL="

-- The request of `store_metadata`, given the configured replication factor.
unfoldable pub metadata_request : Bytes → List ChunkInfo → Bytes → ℤ → Bytes
metadata_request filename chunks file_hash replication_factor = unlines (
    filename
    ∷ str "TTL=3600"
    ∷ (hash_mark ++ file_hash)
    ∷ (replicas_mark ++ int_to_string replication_factor)
    ∷ map info_line chunks)

-- The first line taken off if it has the mark.
abbrev pub skip_mark : Bytes → List Bytes → List Bytes
skip_mark mark [] = []
skip_mark mark (line ∷ rest) = if starts_with mark line then rest else line ∷ rest

-- What follows the mark on the first line, if the line has it.
abbrev pub marked : Bytes → List Bytes → Option Bytes
marked mark [] = none
marked mark (line ∷ rest) = if starts_with mark line then some (drop (length mark) line) else none

abbrev text_or_empty : Option Bytes → Bytes
text_or_empty none = []
text_or_empty (some s) = s

-- A number that cannot be read leaves the count at 0.
abbrev number_or_zero : Option Bytes → ℤ
number_or_zero none = pos 0
number_or_zero (some s) = elim (stoi s) [ none ↦ pos 0 | some n ↦ n ]

infixl 5 ◌>>=◌
abbrev ◌>>=◌ {ℓ κ} : {A : Type ℓ} {B : Type κ} → Option A → (A → Option B) → Option B
none >>= f = none
some a >>= f = f a

abbrev count_or_zero : Option (ℤ × Bytes) → ℤ
count_or_zero none = pos 0
count_or_zero (some (n, rest)) = n

abbrev entry_tail : ℤ → Bytes → Bytes → Option (Bytes × Bytes) → ChunkRecord
entry_tail cid server path none = record {
  chunk_id = cid;
  server = server;
  path = path;
  checksum = [];
  replica_count = pos 0;
}
entry_tail cid server path (some (checksum, rest)) = record {
  chunk_id = cid;
  server = server;
  path = path;
  checksum = checksum;
  replica_count = count_or_zero (read_int int_limit rest);
}

-- ls >> record.chunk_id >> record.server >> record.path, and what follows them
unfoldable pub read_entry_line : Bytes → Option ChunkRecord
unfolding read_word read_int
read_entry_line line = do
  (cid, after_id) ← read_int long_limit line
  (server, after_server) ← read_word after_id
  (path, after_path) ← read_word after_server
  some (entry_tail cid server path (read_word after_path))

-- Lines that hold no chunk are skipped.
abbrev add_entry : Option ChunkRecord → List ChunkRecord → List ChunkRecord
add_entry none rest = rest
add_entry (some cr) rest = cr ∷ rest

unfoldable pub read_entries : List Bytes → List ChunkRecord
unfolding read_entry_line
read_entries [] = []
read_entries (line ∷ rest) = add_entry (read_entry_line line) (read_entries rest)

-- The entry under a file name, from the lines that follow it.
unfoldable pub create_from_lines : MetadataMap → Bytes → List Bytes → MetadataMap
unfolding starts_with read_entries stoi
create_from_lines store file_name lines =
    let raw_lines = skip_mark ttl_mark (keep (λ l. not (is_empty l)) lines) in
    let after_hash = skip_mark hash_mark raw_lines in
    let chunks = read_entries (skip_mark replicas_mark after_hash) in
    let counts = cid_counts chunks in
    replace_file_chunks store file_name (text_or_empty (marked hash_mark raw_lines))
      (map (with_missing_count counts) chunks)
      (file_count (number_or_zero (marked replicas_mark after_hash)) counts)

abbrev create_from : MetadataMap → List Bytes → MetadataMap
create_from store [] = create_from_lines store [] []
create_from store (file_name ∷ lines) = create_from_lines store file_name lines

unfoldable pub create_entry : MetadataMap → Bytes → MetadataMap
unfolding getlines create_from_lines
create_entry store request = create_from store (getlines [] request)
