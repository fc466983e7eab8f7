-- ===== src/Upload/Transfers.antt =====
-- The replicas that a finished upload reports.
use distributed_file_grid.Prelude.{
  ℕ, suc, ◌+◌, ◌≡◌, refl, ◌∙◌, ap, Bool, ◌&&◌, List, [], ◌∷◌, map, arith, keep, count_if, All,
}
use distributed_file_grid.Prelude.Int.{ℤ, pos, eqb_ℤ}
use distributed_file_grid.Prelude.Key.{Bytes, bytes_key, ℤ_key, eqb_ℤ_iff}
use distributed_file_grid.Prelude.Map.{Map, find, find_or, find-insert}
use distributed_file_grid.Metadata.Request.{ChunkInfo}
use distributed_file_grid.Upload.{
  PendingTransfer, counted_transfer, success_counts, transfer_info, succeeded, collect_transfers,
}

-- The number of successful transfers of a chunk.
abbrev pub delivered : ℤ → PendingTransfer → Bool
delivered cid p = p.success && eqb_ℤ p.chunk_id cid

abbrev pub has_chunk : ℤ → ChunkInfo → Bool
has_chunk cid c = eqb_ℤ c.chunk_id cid

success_counts-find :
    (cid : ℤ) (m : Map ℤ ℕ) (pending : List PendingTransfer)
    → find_or 0 cid (success_counts m pending) ≡ find_or 0 cid m + count_if (delivered cid) pending
unfolding success_counts
success_counts-find cid m [] = omega arith
success_counts-find cid m (p ∷ rest) = ground (
  arith,
  success_counts-find cid (counted_transfer m p) rest,
  find-insert p.chunk_id cid (suc (find_or 0 p.chunk_id m)) m,
  eqb_ℤ_iff p.chunk_id cid,
)

count_if-transfer_info :
    (cid : ℤ) (filename : Bytes) (counts : Map ℤ ℕ) (pending : List PendingTransfer)
    → count_if (has_chunk cid) (map (transfer_info filename counts) (keep succeeded pending))
      ≡ count_if (delivered cid) pending
count_if-transfer_info cid filename counts [] = refl
count_if-transfer_info cid filename counts (p ∷ rest) =
    ground (arith, count_if-transfer_info cid filename counts rest)

All-map_info :
    (filename : Bytes) (counts : Map ℤ ℕ) (P : ChunkInfo → Type 0) (pending : List PendingTransfer)
    → ((p : PendingTransfer) → P (transfer_info filename counts p))
    → All P (map (transfer_info filename counts) pending)
All-map_info filename counts P [] h = tt
All-map_info filename counts P (p ∷ rest) h = (h p, All-map_info filename counts P rest h)

servers_same :
    (filename : Bytes) (counts : Map ℤ ℕ) (pending : List PendingTransfer)
    → map (λ c. c.server_ip) (map (transfer_info filename counts) pending)
      ≡ map (λ p. p.server) pending
servers_same filename counts [] = refl
servers_same filename counts (p ∷ rest) = ap (◌∷◌ p.server) (servers_same filename counts rest)

-- The replicas that an upload reports are on the servers of the successful transfers, in their
-- order, and the count of each is the number of those reported for its chunk.
pub collect_transfers_lem :
    (filename : Bytes) (pending : List PendingTransfer)
    → let infos = collect_transfers filename pending in
      (map (λ c. c.server_ip) infos ≡ map (λ p. p.server) (keep succeeded pending))
      × All (λ c. c.replica_count ≡ pos (count_if (has_chunk c.chunk_id) infos)) infos
unfolding collect_transfers find
collect_transfers_lem filename pending =
    let counts = success_counts [] pending in
    (
      servers_same filename counts (keep succeeded pending),
      All-map_info filename counts _ (keep succeeded pending) (λ p. ap pos (
          success_counts-find p.chunk_id [] pending
          ∙ omega (arith, count_if-transfer_info p.chunk_id filename counts pending))),
    )
