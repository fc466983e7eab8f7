-- ===== src/Failover/Plan.antt =====
-- The transfer that is planned for a chunk.
use distributed_file_grid.Prelude.{
  ◌≡◌, refl, ◌∙◌, ◌⊎◌, inl, inr, Bool, true, false, ◌&&◌, ◌||◌, not, List, [], ◌∷◌, some, arith,
  Option-cases, any, find_if,
}
use distributed_file_grid.Prelude.Key.{Bytes, bytes_eq, bytes_eq_iff, bytes_key, ℤ_key}
use distributed_file_grid.Metadata.{ChunkRecord}
use distributed_file_grid.Failover.{
  Scan, no_scan, scan_one, scan_replicas, hosts, pick_target, Transfer, plan_transfer,
}

-- A replica at the given place.
abbrev pub lies_at : Bytes → Bytes → ChunkRecord → Bool
lies_at server path r = bytes_eq r.server server && bytes_eq r.path path

scan-has_dead :
    (dead : Bytes) (s : Scan) (records : List ChunkRecord)
    → (scan_replicas dead s records).has_dead_replica
      ≡ (s.has_dead_replica || any (hosts dead) records)
unfolding scan_replicas
scan-has_dead dead s [] = ground arith
scan-has_dead dead s (r ∷ rest) = scan-has_dead dead (scan_one dead s r) rest ∙ ground arith

abbrev FromList : Bytes → Scan → Scan → List ChunkRecord → Type 0
FromList dead s s' records =
    ((s'.source_server ≡ s.source_server) × (s'.source_path ≡ s.source_path))
    ⊎ ((any (lies_at s'.source_server s'.source_path) records ≡ true)
        × (bytes_eq s'.source_server dead ≡ false))

scan-source :
    (dead : Bytes) (s : Scan) (records : List ChunkRecord)
    → FromList dead s (scan_replicas dead s records) records
unfolding scan_replicas
scan-source dead s [] = inl (refl, refl)
scan-source dead s (r ∷ rest) =
    let s' = scan_replicas dead (scan_one dead s r) rest in
    ground (
      arith,
      scan-source dead (scan_one dead s r) rest,
      bytes_eq_iff r.server s'.source_server,
      bytes_eq_iff r.path s'.source_path,
    )

find_if-some :
    (p : Bytes → Bool) (xs : List Bytes) (x : Bytes)
    → find_if p xs ≡ some x
    → (p x ≡ true) × (any (λ y. bytes_eq y x) xs ≡ true)
find_if-some p [] x h = cc
find_if-some p (y ∷ xs) x h = ground (arith, find_if-some p xs x, bytes_eq_iff y x)

-- A planned transfer copies a chunk that the dead server held, from a replica on another server, to
-- a healthy server that does not hold it yet.
pub plan_transfer_lem :
    (dead : Bytes) (healthy : List Bytes) (records : List ChunkRecord) (t : Transfer)
    → plan_transfer dead healthy records ≡ some t
    → (any (hosts dead) records ≡ true)
      × (any (lies_at t.source_server t.source_path) records ≡ true)
      × (bytes_eq t.source_server dead ≡ false)
      × (any (λ h. bytes_eq h t.target) healthy ≡ true)
      × (any (hosts t.target) records ≡ false)
unfolding plan_transfer
plan_transfer_lem dead healthy records t h =
    let s = scan_replicas dead no_scan records in
    elim (Option-cases (pick_target healthy records)) [
      | inl e ↦ ground (arith, e)
      | inr (target, e) ↦
          let picked =
            find_if-some (λ cand. not (any (hosts cand) records)) healthy target
              (unfold pick_target in e) in
          ground
            (arith, e, picked, scan-has_dead dead no_scan records, scan-source dead no_scan records)
    ]
