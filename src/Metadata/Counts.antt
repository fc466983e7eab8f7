-- ===== src/Metadata/Counts.antt =====
-- The counts that the store keeps beside each chunk are numbers of records with one chunk id.
use distributed_file_grid.Prelude.{
  ℕ, suc, ◌+◌, ◌≡◌, refl, sym, ◌∙◌, ap, Bool, List, [], ◌∷◌, map, arith, count_if, All,
}
use distributed_file_grid.Prelude.Int.{ℤ, pos, eqb_ℤ}
use distributed_file_grid.Prelude.Key.{Bytes, bytes_key, ℤ_key, eqb_ℤ_iff}
use distributed_file_grid.Prelude.Map.{Map, find, insert, find_or, find-insert}
use distributed_file_grid.Metadata.{ChunkRecord, cid_counts, cid_counts_from, with_count}

abbrev pub has_id : ℤ → ChunkRecord → Bool
has_id cid cr = eqb_ℤ cr.chunk_id cid

abbrev pub replicas : ℤ → List ChunkRecord → ℕ
replicas cid = count_if (has_id cid)

cid_counts_from-find :
    (cid : ℤ) (m : Map ℤ ℕ) (chunks : List ChunkRecord)
    → find_or 0 cid (cid_counts_from m chunks) ≡ find_or 0 cid m + replicas cid chunks
unfolding cid_counts_from
cid_counts_from-find cid m [] = omega arith
cid_counts_from-find cid m (cr ∷ rest) =
    let v = suc (find_or 0 cr.chunk_id m) in
    ground (
      arith,
      cid_counts_from-find cid (insert cr.chunk_id v m) rest,
      find-insert cr.chunk_id cid v m,
      eqb_ℤ_iff cr.chunk_id cid,
    )

pub cid_counts-find :
    (cid : ℤ) (chunks : List ChunkRecord) → find_or 0 cid (cid_counts chunks) ≡ replicas cid chunks
unfolding cid_counts find
cid_counts-find cid chunks = cid_counts_from-find cid [] chunks ∙ omega arith

-- Each record of the list says how many records of the whole have its chunk id.
abbrev pub IsCountedIn : List ChunkRecord → ChunkRecord → Type 0
IsCountedIn whole cr = cr.replica_count ≡ pos (replicas cr.chunk_id whole)

abbrev pub IsCounted : List ChunkRecord → Type 0
IsCounted chunks = All (IsCountedIn chunks) chunks

replicas-with_count :
    (cid : ℤ) (counts : Map ℤ ℕ) (chunks : List ChunkRecord)
    → replicas cid (map (with_count counts) chunks) ≡ replicas cid chunks
replicas-with_count cid counts [] = refl
replicas-with_count cid counts (cr ∷ rest) = ground (arith, replicas-with_count cid counts rest)

map-with_count-IsCounted :
    (whole chunks : List ChunkRecord)
    → All
        (IsCountedIn (map (with_count (cid_counts whole)) whole))
        (map (with_count (cid_counts whole)) chunks)
map-with_count-IsCounted whole [] = tt
map-with_count-IsCounted whole (cr ∷ rest) = (
  ap pos (
      cid_counts-find cr.chunk_id whole
      ∙ sym (replicas-with_count cr.chunk_id (cid_counts whole) whole)),
  map-with_count-IsCounted whole rest,
)

-- Counting afresh makes a list counted.
pub with_count-IsCounted :
    (chunks : List ChunkRecord) → IsCounted (map (with_count (cid_counts chunks)) chunks)
with_count-IsCounted chunks = map-with_count-IsCounted chunks chunks

with_count_self :
    (whole : List ChunkRecord) (cr : ChunkRecord)
    → IsCountedIn whole cr
    → with_count (cid_counts whole) cr ≡ cr
with_count_self whole cr h = ground (arith, cid_counts-find cr.chunk_id whole)

-- And changes nothing in a counted one.
pub map-with_count_self :
    (whole chunks : List ChunkRecord)
    → All (IsCountedIn whole) chunks
    → map (with_count (cid_counts whole)) chunks ≡ chunks
map-with_count_self whole [] h = refl
map-with_count_self whole (cr ∷ rest) h =
    cc (with_count_self whole cr h.0, map-with_count_self whole rest h.1)

-- Where a chunk lies and what it is, without the count.
pub record Location : Type 0 where
  pub chunk_id : ℤ
  pub server : Bytes
  pub path : Bytes
  pub checksum : Bytes

abbrev pub location : ChunkRecord → Location
location cr = record {
  chunk_id = cr.chunk_id;
  server = cr.server;
  path = cr.path;
  checksum = cr.checksum;
}

pub locations-with_count :
    (counts : Map ℤ ℕ) (chunks : List ChunkRecord)
    → map location (map (with_count counts) chunks) ≡ map location chunks
locations-with_count counts [] = refl
locations-with_count counts (cr ∷ rest) = ap (◌∷◌ (location cr)) (locations-with_count counts rest)
