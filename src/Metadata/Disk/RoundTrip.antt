-- ===== src/Metadata/Disk/RoundTrip.antt =====
-- Writing the store and loading it again.
use distributed_file_grid.Prelude.{
  zero, suc, ◌≡◌, refl, sym, ◌∙◌, ap, subst, ◌⊎◌, inl, inr, true, false, List, [], ◌∷◌, ◌++◌, map,
  none, arith, lt→ltb, All, All-append,
}
use distributed_file_grid.Prelude.Int.{ℤ, pos, negsuc}
use distributed_file_grid.Prelude.Key.{
  Bytes, bytes_eq, bytes_lt, bytes_eq_iff, bytes_key, ℤ_key, bytes_lt_irrefl, bytes_lt_trans,
}
use distributed_file_grid.Prelude.Map.{find, insert, find_or, find-insert, same_refl}
use distributed_file_grid.Prelude.Text.{int_limit}
use distributed_file_grid.Prelude.Text.Words.{IsWord}
use mathlib.Core.List.{append_assoc, append-nil}
use distributed_file_grid.Prelude.Map.Sorted.{IsSorted, IsAfter}
use distributed_file_grid.Metadata.Disk.Text.{file_lines-IsLine}
use distributed_file_grid.Metadata.{
  file_count, cid_counts_from, cid_counts, ChunkRecord, FileRecord, MetadataMap, no_record,
  is_empty, is_positive,
}
use distributed_file_grid.Metadata.Counts.{cid_counts-find, IsCountedIn, IsCounted}
use distributed_file_grid.Metadata.Disk.{
  persist, with_loaded_count, load, make_consistent, store_lines, hash_line, replicas_line,
  chunk_line, file_lines, load_line, load_lines, update,
}
use distributed_file_grid.Metadata.Disk.Lines.{
  getlines-unlines, IsLine, IsNatural, NoSpace, IsStorable, load_line-hash_line,
  load_line-replicas_line, load_line-chunk_line,
}

load_lines-append :
    (store : MetadataMap) (xs ys : List Bytes)
    → load_lines store (xs ++ ys) ≡ load_lines (load_lines store xs) ys
unfolding load_lines
load_lines-append store [] ys = refl
load_lines-append store (x ∷ xs) ys = load_lines-append (load_line store x) xs ys

insert-insert :
    (k : Bytes) (v w : FileRecord) (m : MetadataMap) → insert k v (insert k w m) ≡ insert k v m
unfolding insert
insert-insert k v w [] = rw (same_refl k)
insert-insert k v w ((j, x) ∷ m) =
    ground (arith, insert-insert k v w m, bytes_eq_iff k k, bytes_eq_iff j k)

find_or-insert :
    (store : MetadataMap) (name : Bytes) (rec : FileRecord)
    → find_or no_record name (insert name rec store) ≡ rec
find_or-insert store name rec = ground (arith, find-insert name name rec store, same_refl name)

-- One update after another of one file.
update-update :
    (store : MetadataMap) (name : Bytes) (rec : FileRecord) (f : FileRecord → FileRecord)
    → update (insert name rec store) name f ≡ insert name (f rec) store
update-update store name rec f =
    ap (λ r. insert name (f r) (insert name rec store)) (find_or-insert store name rec)
    ∙ insert-insert name (f rec) rec store

load_chunk_lines :
    (store : MetadataMap) (name : Bytes) (rec : FileRecord) (chunks : List ChunkRecord)
    → IsWord name
    → All IsStorable chunks
    → load_lines (insert name rec store) (map (chunk_line name) chunks)
      ≡ insert name (record rec { chunks = rec.chunks ++ chunks }) store
unfolding load_lines
load_chunk_lines store name rec [] named s =
    ap (λ cs. insert name (record rec { chunks = cs }) store) (sym (append-nil rec.chunks))
load_chunk_lines store name rec (cr ∷ rest) named s =
    ap (λ t. load_lines t (map (chunk_line name) rest))
      (load_line-chunk_line (insert name rec store) name cr named s.0
        ∙ update-update store name rec (λ r. record r { chunks = r.chunks ++ (cr ∷ []) }))
    ∙ load_chunk_lines store name (record rec { chunks = rec.chunks ++ (cr ∷ []) }) rest named s.1
    ∙ ap (λ cs. insert name (record rec { chunks = cs }) store)
        (append_assoc rec.chunks (cr ∷ []) rest)

-- A file record that its lines can hold: words for the texts, numbers in range, counts that agree
-- with the records, and a line to say that the file is there.
pub record IsStorableFile (name : Bytes) (rec : FileRecord) : Type 0 where
  pub named : IsWord name
  pub hash : NoSpace rec.file_hash
  pub fits : IsNatural int_limit rec.replica_count
  pub storable : All IsStorable rec.chunks
  pub counted : IsCounted rec.chunks
  pub shown :
      (is_positive rec.replica_count ≡ true)
      ⊎ ((rec.chunks ≡ []) × (is_empty rec.file_hash ≡ false))

abbrev file_record : Bytes → ℤ → List ChunkRecord → FileRecord
file_record h n cs = record { file_hash = h; replica_count = n; chunks = cs }

update-new :
    (store : MetadataMap) (name : Bytes) (f : FileRecord → FileRecord)
    → find name store ≡ none
    → update store name f ≡ insert name (f no_record) store
update-new store name f new = ground (arith, new)

abbrev IsShown : Bytes → ℤ → List ChunkRecord → Type 0
IsShown h n cs = (is_positive n ≡ true) ⊎ ((cs ≡ []) × (is_empty h ≡ false))

-- The lines of a file add its record to a store that does not have it.
module _ (store : MetadataMap) (name : Bytes) (new : find name store ≡ none)
    (named : IsWord name) where
  load_hashed :
      (h : Bytes)
      → NoSpace h
      → load_line store (hash_line name h) ≡ insert name (file_record h (pos 0) []) store
  load_hashed h w =
      load_line-hash_line store name named h w
      ∙ update-new store name (λ r. record r { file_hash = h }) new

  load_counted :
      (n : ℤ)
      → IsNatural int_limit n
      → load_line store (replicas_line name n) ≡ insert name (file_record [] n []) store
  load_counted n fits =
      load_line-replicas_line store name named n fits
      ∙ update-new store name (λ r. record r { replica_count = n }) new

  load_parts :
      (h : Bytes) (n : ℤ) (cs : List ChunkRecord)
      → NoSpace h
      → IsNatural int_limit n
      → All IsStorable cs
      → IsShown h n cs
      → load_lines store (file_lines name (file_record h n cs))
        ≡ insert name (file_record h n cs) store
  unfolding load_lines file_lines
  load_parts h (negsuc k) cs w fits s shown = absurd fits
  load_parts [] (pos zero) cs w fits s (inl p) = cc
  load_parts [] (pos zero) cs w fits s (inr (e, p)) = cc
  load_parts [] (pos (suc k)) cs w fits s shown = rw (lt→ltb 0 (suc k) (omega arith)) (
      ap (λ t. load_lines t (map (chunk_line name) cs)) (load_counted (pos (suc k)) fits)
      ∙ load_chunk_lines store name (file_record [] (pos (suc k)) []) cs named s)
  load_parts (c ∷ h) (pos zero) cs w fits s (inl p) = cc
  load_parts (c ∷ h) (pos zero) cs w fits s (inr (e, p)) =
      subst
        (λ l.
          load_lines store (file_lines name (file_record (c ∷ h) (pos zero) l))
          ≡ insert name (file_record (c ∷ h) (pos zero) l) store)
        (sym e) (load_hashed (c ∷ h) w)
  load_parts (c ∷ h) (pos (suc k)) cs w fits s shown =
      let hashed = file_record (c ∷ h) (pos 0) [] in
      rw (lt→ltb 0 (suc k) (omega arith)) (
        ap (λ t. load_lines t (replicas_line name (pos (suc k)) ∷ map (chunk_line name) cs))
          (load_hashed (c ∷ h) w)
        ∙ ap (λ t. load_lines t (map (chunk_line name) cs))
            (load_line-replicas_line (insert name hashed store) name named (pos (suc k)) fits
              ∙ update-update store name hashed (λ r. record r { replica_count = pos (suc k) }))
        ∙ load_chunk_lines store name (file_record (c ∷ h) (pos (suc k)) []) cs named s)

All-middle {ℓ κ} :
    {A : Type ℓ} (P : A → Type κ) (xs ys : List A) (y : A) → All P (xs ++ (y ∷ ys)) → P y
All-middle P [] ys y h = h.0
All-middle P (x ∷ xs) ys y h = All-middle P xs ys y h.1

before-not-same :
    (j k : Bytes) → bytes_lt j k ≡ true → (bytes_eq j k ≡ false) × (bytes_lt k j ≡ false)
before-not-same j k b = (
  ground (arith, bytes_eq_iff j k, bytes_lt_irrefl k, b),
  ground (arith, bytes_lt_trans j k j, bytes_lt_irrefl j),
)

-- A file after all the others goes to the end.
insert-last :
    (acc rest : MetadataMap) (name : Bytes) (rec : FileRecord)
    → IsSorted (acc ++ ((name, rec) ∷ rest))
    → (insert name rec acc ≡ acc ++ ((name, rec) ∷ [])) × (find name acc ≡ none)
unfolding insert find
insert-last [] rest name rec s = (refl, refl)
insert-last ((j, w) ∷ acc) rest name rec s =
    let ne = before-not-same j name (All-middle (IsAfter j) acc rest (name, rec) s.0) in
    let ih = insert-last acc rest name rec s.1 in
    (rw ne.0 (rw ne.1 (ap (◌∷◌ (j, w)) ih.0)), rw ne.0 ih.1)

abbrev pub IsStorableStore : MetadataMap → Type 0
IsStorableStore = All (λ e. IsStorableFile e.0 e.1)

load_store_lines :
    (acc store : MetadataMap)
    → IsSorted (acc ++ store)
    → IsStorableStore store
    → load_lines acc (store_lines store) ≡ acc ++ store
unfolding store_lines
load_store_lines acc [] s h = unfold load_lines in sym (append-nil acc)
load_store_lines acc ((name, rec) ∷ rest) s h =
    let last = insert-last acc rest name rec s in
    let f = h.0 in
    let grouped = append_assoc acc ((name, rec) ∷ []) rest in
    load_lines-append acc (file_lines name rec) (store_lines rest)
    ∙ ap (λ t. load_lines t (store_lines rest))
        (load_parts acc name last.1 f.named rec.file_hash rec.replica_count rec.chunks f.hash f.fits
            f.storable f.shown
          ∙ last.0)
    ∙ load_store_lines (acc ++ ((name, rec) ∷ [])) rest (subst IsSorted (sym grouped) s) h.1
    ∙ grouped

with_loaded_count_self :
    (whole : List ChunkRecord) (cr : ChunkRecord)
    → IsCountedIn whole cr
    → with_loaded_count (cid_counts whole) cr ≡ cr
with_loaded_count_self whole cr h = ground (arith, cid_counts-find cr.chunk_id whole)

map-with_loaded_count :
    (whole chunks : List ChunkRecord)
    → All (IsCountedIn whole) chunks
    → map (with_loaded_count (cid_counts whole)) chunks ≡ chunks
map-with_loaded_count whole [] h = refl
map-with_loaded_count whole (cr ∷ rest) h =
    cc (with_loaded_count_self whole cr h.0, map-with_loaded_count whole rest h.1)

file_count_self :
    (n : ℤ) (cs : List ChunkRecord) (h : Bytes) → IsShown h n cs → file_count n (cid_counts cs) ≡ n
unfolding cid_counts cid_counts_from
file_count_self n cs h (inl p) = rw p
file_count_self n cs h (inr (e, p)) = rw e (ground arith)

make_consistent_self :
    (name : Bytes) (rec : FileRecord) → IsStorableFile name rec → make_consistent rec ≡ rec
unfolding make_consistent
make_consistent_self name rec s = cc (
  file_count_self rec.replica_count rec.chunks rec.file_hash s.shown,
  map-with_loaded_count rec.chunks rec.chunks s.counted,
)

make_all_self :
    (store : MetadataMap)
    → IsStorableStore store
    → map (λ e. (e.0, make_consistent e.1)) store ≡ store
make_all_self [] h = refl
make_all_self ((name, rec) ∷ rest) h =
    cc (make_consistent_self name rec h.0, make_all_self rest h.1)

store_lines-IsLine : (store : MetadataMap) → IsStorableStore store → All IsLine (store_lines store)
unfolding store_lines
store_lines-IsLine [] h = tt
store_lines-IsLine ((name, rec) ∷ rest) h =
    let f = h.0 in
    All-append IsLine (file_lines name rec) (store_lines rest)
      (file_lines-IsLine name rec f.named f.hash f.fits f.storable) (store_lines-IsLine rest h.1)

-- A sorted store is the same after it is written to disk and loaded again, if its names, servers,
-- paths and checksums are words without blanks, its hashes have no blank, its numbers are natural
-- and in range, its replica counts agree with the records, and each file has a positive replica
-- count, or no chunks and a hash.
pub load-persist :
    (store : MetadataMap) → IsSorted store → IsStorableStore store → load (persist store) ≡ store
unfolding load persist
load-persist store s h =
    ap (λ lines. map (λ e. (e.0, make_consistent e.1)) (load_lines [] lines))
      (getlines-unlines (store_lines store) (store_lines-IsLine store h))
    ∙ ap (map (λ e. (e.0, make_consistent e.1))) (load_store_lines [] store s h)
    ∙ make_all_self store h
