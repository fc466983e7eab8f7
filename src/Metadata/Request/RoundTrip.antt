-- ===== src/Metadata/Request/RoundTrip.antt =====
-- What an upload stores is what the store then has.
use distributed_file_grid.Prelude.{
  ℕ, ◌≡◌, refl, ◌∙◌, ap, true, false, not, List, [], ◌∷◌, ◌++◌, map, some, arith, keep, All,
}
use distributed_file_grid.Prelude.Int.{ℤ, pos, negsuc}
use distributed_file_grid.Prelude.Key.{Bytes, bytes_key, ℤ_key}
use distributed_file_grid.Prelude.Map.{Map}
use distributed_file_grid.Prelude.Text.{
  str, to_string, int_to_string, read_int, int_limit, long_limit,
}
use distributed_file_grid.Prelude.Text.Words.{
  IsWord, read_word-append, read_word-blank, read_int-blank,
}
use distributed_file_grid.Prelude.Text.Decimal.{to_string-head, stoi-to_string, read_int-to_string}
use mathlib.Core.List.{append-nil}
use distributed_file_grid.Metadata.{
  ChunkRecord, MetadataMap, cid_counts, with_missing_count, file_count, is_positive, is_empty,
  replace_file_chunks, query_metadata,
}
use distributed_file_grid.Metadata.Replace.{filled, query-replace_file_chunks}
use distributed_file_grid.Metadata.Disk.{hash_mark, replicas_mark, blank}
use distributed_file_grid.Metadata.Disk.Lines.{
  IsLine, getlines-unlines, IsNatural, NoSpace, IsWord-NoSpace,
}
use distributed_file_grid.Metadata.Disk.Text.{
  IsLine-append, NoSpace-IsLine, spaced-IsLine, natural-IsLine,
}
use distributed_file_grid.Metadata.Request.{
  create_from, ChunkInfo, info_fields, info_line, metadata_request, number_or_zero, count_or_zero,
  read_entry_line, read_entries, create_from_lines, create_entry,
}

-- A replica that a line can hold, with a count of its replicas.
pub record IsStorableInfo (c : ChunkInfo) : Type 0 where
  pub id_fits : IsNatural long_limit c.chunk_id
  pub server_word : IsWord c.server_ip
  pub path_word : IsWord c.file_path
  pub checksum_word : IsWord c.checksum
  pub count_fits : IsNatural int_limit c.replica_count
  pub count_positive : is_positive c.replica_count ≡ true

-- The record that the store keeps for a replica.
abbrev pub to_record : ChunkInfo → ChunkRecord
to_record c = record {
  chunk_id = c.chunk_id;
  server = c.server_ip;
  path = c.file_path;
  checksum = c.checksum;
  replica_count = c.replica_count;
}

count-natural :
    (n : ℤ)
    → IsNatural int_limit n
    → count_or_zero (read_int int_limit (blank ∷ int_to_string n)) ≡ n
unfolding int_to_string
count-natural (negsuc n) h = absurd h
count-natural (pos n) h =
    rw read_int-blank
      (rw (← append-nil (to_string n)) (rw (read_int-to_string int_limit n [] h refl)))

read_id :
    (n : ℤ) (rest : Bytes)
    → IsNatural long_limit n
    → read_int long_limit (int_to_string n ++ (blank ∷ rest)) ≡ some (n, blank ∷ rest)
unfolding int_to_string
read_id (negsuc n) rest h = absurd h
read_id (pos n) rest h = read_int-to_string long_limit n (blank ∷ rest) h refl

read_entry_line-info_line :
    (c : ChunkInfo) → IsStorableInfo c → read_entry_line (info_line c) ≡ some (to_record c)
unfolding read_entry_line info_line info_fields
read_entry_line-info_line c s =
    let counted = blank ∷ int_to_string c.replica_count in
    let summed = blank ∷ (c.checksum ++ counted) in
    let placed = blank ∷ (c.file_path ++ summed) in
    rw (read_id c.chunk_id (c.server_ip ++ placed) s.id_fits) (
      rw
        (
          read_word-blank (c.server_ip ++ placed),
          read_word-append c.server_ip placed s.server_word refl,
        )
        (rw
          (
            read_word-blank (c.file_path ++ summed),
            read_word-append c.file_path summed s.path_word refl,
          )
          (rw
            (
              read_word-blank (c.checksum ++ counted),
              read_word-append c.checksum counted s.checksum_word refl,
            )
            (rw (count-natural c.replica_count s.count_fits)))))

read_entries-info_line :
    (chunks : List ChunkInfo)
    → All IsStorableInfo chunks
    → read_entries (map info_line chunks) ≡ map to_record chunks
unfolding read_entries
read_entries-info_line [] h = refl
read_entries-info_line (c ∷ rest) h =
    rw (read_entry_line-info_line c h.0) (ap (◌∷◌ (to_record c)) (read_entries-info_line rest h.1))

info_line-nonempty :
    (c : ChunkInfo) → IsNatural long_limit c.chunk_id → is_empty (info_line c) ≡ false
unfolding info_line
info_line-nonempty c h = by_id c.chunk_id h
  where
    by_id :
        (n : ℤ)
        → IsNatural long_limit n
        → is_empty (int_to_string n ++ (blank ∷ info_fields c)) ≡ false
    by_id (negsuc n) h = absurd h
    by_id (pos n) h = let (d, s, e, _) = to_string-head n in unfold int_to_string in rw e

keep_nonempty :
    (chunks : List ChunkInfo)
    → All IsStorableInfo chunks
    → keep (λ l. not (is_empty l)) (map info_line chunks) ≡ map info_line chunks
keep_nonempty [] h = refl
keep_nonempty (c ∷ rest) h =
    rw (info_line-nonempty c h.0.id_fits) (ap (◌∷◌ (info_line c)) (keep_nonempty rest h.1))

info_line-IsLine : (c : ChunkInfo) → IsStorableInfo c → IsLine (info_line c)
unfolding info_line info_fields
info_line-IsLine c s =
    let counted = int_to_string c.replica_count in
    let summed = c.checksum ++ (blank ∷ counted) in
    let placed = c.file_path ++ (blank ∷ summed) in
    spaced-IsLine (int_to_string c.chunk_id) (c.server_ip ++ (blank ∷ placed))
      (natural-IsLine long_limit c.chunk_id s.id_fits)
      (spaced-IsLine c.server_ip placed (IsWord-NoSpace c.server_ip s.server_word) (
        spaced-IsLine c.file_path summed (IsWord-NoSpace c.file_path s.path_word) (
          spaced-IsLine c.checksum counted (IsWord-NoSpace c.checksum s.checksum_word)
            (NoSpace-IsLine counted (natural-IsLine int_limit c.replica_count s.count_fits)))))

info_lines-IsLine :
    (chunks : List ChunkInfo) → All IsStorableInfo chunks → All IsLine (map info_line chunks)
info_lines-IsLine [] h = tt
info_lines-IsLine (c ∷ rest) h = (info_line-IsLine c h.0, info_lines-IsLine rest h.1)

number_or_zero-natural :
    (n : ℤ) → IsNatural int_limit n → number_or_zero (some (int_to_string n)) ≡ n
unfolding int_to_string
number_or_zero-natural (negsuc n) h = absurd h
number_or_zero-natural (pos n) h = ground (arith, stoi-to_string n h)

counts_present :
    (counts : Map ℤ ℕ) (chunks : List ChunkInfo)
    → All IsStorableInfo chunks
    → map (with_missing_count counts) (map to_record chunks) ≡ map to_record chunks
counts_present counts [] h = refl
counts_present counts (c ∷ rest) h =
    rw h.0.count_positive (ap (◌∷◌ (to_record c)) (counts_present counts rest h.1))

filled_self :
    (whole : List ChunkRecord) (chunks : List ChunkInfo)
    → All IsStorableInfo chunks
    → map (filled whole) (map to_record chunks) ≡ map to_record chunks
filled_self whole [] h = refl
filled_self whole (c ∷ rest) h =
    rw h.0.count_positive (ap (◌∷◌ (to_record c)) (filled_self whole rest h.1))

module _ (store : MetadataMap) (filename : Bytes) (chunks : List ChunkInfo) (h : Bytes) (factor : ℤ)
    (named : IsLine filename) (hash : NoSpace h) (fits : IsNatural int_limit factor)
    (positive : is_positive factor ≡ true) (storable : All IsStorableInfo chunks) where
  abbrev request_lines : List Bytes
  request_lines =
      str "TTL=3600"
      ∷ (hash_mark ++ h)
      ∷ (replicas_mark ++ int_to_string factor)
      ∷ map info_line chunks

  create_from_lines-request :
      create_from_lines store filename request_lines
      ≡ replace_file_chunks store filename h (map to_record chunks) factor
  unfolding create_from_lines
  create_from_lines-request = rw (keep_nonempty chunks storable) (
      rw (read_entries-info_line chunks storable) (
        rw (counts_present (cid_counts (map to_record chunks)) chunks storable) (
          ap (replace_file_chunks store filename h (map to_record chunks)) (
            ap (λ n. file_count n (cid_counts (map to_record chunks)))
              (number_or_zero-natural factor fits)
            ∙ rw positive))))

  request-IsLine : All IsLine (filename ∷ request_lines)
  request-IsLine = (
    named,
    (
      (refl, (refl, (refl, (refl, (refl, (refl, (refl, (refl, tt)))))))),
      (
        IsLine-append hash_mark h (refl, (refl, (refl, (refl, (refl, tt)))))
            (NoSpace-IsLine h hash),
        (
          IsLine-append replicas_mark (int_to_string factor)
              (refl, (refl, (refl, (refl, (refl, (refl, (refl, (refl, (refl, tt)))))))))
              (NoSpace-IsLine (int_to_string factor) (natural-IsLine int_limit factor fits)),
          info_lines-IsLine chunks storable,
        ),
      ),
    ),
  )

  -- The entry that an upload creates is what a query for its name then returns: the hash, the
  -- replication factor and the replicas. The name is not empty and has no line end, the hash has no
  -- blank, the factor is positive and an int, and the replicas have words for their texts and ids
  -- and positive counts in range.
  pub query-create_entry :
      is_empty filename ≡ false
      → query_metadata (create_entry store (metadata_request filename chunks h factor)) filename
        ≡ record { file_hash = h; replica_count = factor; chunks = map to_record chunks }
  unfolding create_entry metadata_request
  query-create_entry present =
      ap (λ lines. query_metadata (create_from store lines) filename)
        (getlines-unlines (filename ∷ request_lines) request-IsLine)
      ∙ ap (λ t. query_metadata t filename) create_from_lines-request
      ∙ (query-replace_file_chunks store filename h (map to_record chunks) factor present).0
      ∙ rw positive (
          ap (λ cs. record { file_hash = h; replica_count = factor; chunks = cs })
            (filled_self (map to_record chunks) chunks storable))
