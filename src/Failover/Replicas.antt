-- ===== src/Failover/Replicas.antt =====
-- The replicas that a round of re-replication adds, and the updates they are collected in.
use distributed_file_grid.Prelude.{
  ◌≡◌, refl, ap, inl, inr, Bool, true, false, not, List, [], ◌∷◌, Option, none, some, arith,
  if◌then◌else◌, Bool-cases, Option-cases, keep, any, All, All-mono, All-keep_test,
}
use distributed_file_grid.Prelude.Int.{ℤ}
use distributed_file_grid.Prelude.Key.{Bytes, bytes_eq, bytes_eq_iff, bytes_key, ℤ_key}
use distributed_file_grid.Prelude.Map.{Map, find, find-insert}
use distributed_file_grid.Prelude.Map.Sorted.{IsSorted, insert-IsSorted}
use distributed_file_grid.Health.{ServerHealth}
use distributed_file_grid.Metadata.{ChunkRecord, MetadataMap, on_other, query_metadata}
use distributed_file_grid.Failover.{
  Cluster, replicate_chunk_to_server, is_candidate, healthy_servers, group_from, plan_transfer,
  Transfer, new_replica, rereplicate_chunk, push_replica, rereplicate_chunks, file_updates,
  with_updates, all_updates,
}
use distributed_file_grid.Failover.Plan.{plan_transfer_lem}

-- No server of the list is the dead one.
abbrev pub Avoids : Bytes → List Bytes → Type 0
Avoids dead servers = All (λ h. bytes_eq h dead ≡ false) servers

-- Every record is on another server.
abbrev pub IsElsewhere : Bytes → List ChunkRecord → Type 0
IsElsewhere dead records = All (λ cr. on_other dead cr ≡ true) records

is_candidate-other :
    {F : Type 0} (health : Map ℤ (ServerHealth F)) (dead srv : Bytes)
    → is_candidate health dead srv ≡ true
    → bytes_eq srv dead ≡ false
unfolding is_candidate
is_candidate-other health dead srv h = ground arith

pub healthy_servers-Avoids :
    {F : Type 0} (health : Map ℤ (ServerHealth F)) (dead : Bytes) (addresses : List Bytes)
    → Avoids dead (healthy_servers health dead addresses)
unfolding healthy_servers
healthy_servers-Avoids health dead addresses =
    All-mono (λ srv. is_candidate health dead srv ≡ true) (λ srv. bytes_eq srv dead ≡ false)
      (keep (is_candidate health dead) addresses) (is_candidate-other health dead)
      (All-keep_test (is_candidate health dead) addresses)

Avoids-any :
    (dead target : Bytes) (servers : List Bytes)
    → Avoids dead servers
    → any (λ h. bytes_eq h target) servers ≡ true
    → bytes_eq target dead ≡ false
Avoids-any dead target [] a h = cc
Avoids-any dead target (x ∷ xs) a h =
    ground (arith, bytes_eq_iff x target, a.0, Avoids-any dead target xs a.1)

module _ (net : Cluster) (dead : Bytes) (healthy : List Bytes) (avoids : Avoids dead healthy) where
  performed-other :
      (file : Bytes) (cid : ℤ) (records : List ChunkRecord) (t : Transfer) (rest : List ChunkRecord)
      → bytes_eq t.target dead ≡ false
      → IsElsewhere dead rest
      → (written : Option Bytes)
      → IsElsewhere dead (
          push_replica net dead healthy
            (elim written [
              | none ↦ none
              | some new_path ↦ some (new_replica file cid records t new_path)
            ])
            rest)
  performed-other file cid records t rest other h none = h
  performed-other file cid records t rest other h (some path) = (ap not other, h)

  rereplicate_chunk-other :
      (file : Bytes) (cid : ℤ) (records rest : List ChunkRecord)
      → IsElsewhere dead rest
      → IsElsewhere dead
          (push_replica net dead healthy (rereplicate_chunk net dead healthy file cid records) rest)
  unfolding rereplicate_chunk
  rereplicate_chunk-other file cid records rest h =
      elim (Option-cases (plan_transfer dead healthy records)) [
        | inl e ↦ rw e h
        | inr (t, e) ↦
            let plan = plan_transfer_lem dead healthy records t e in
            let other = Avoids-any dead t.target healthy avoids plan.3 in
            rw e (
              performed-other file cid records t rest other h
                (replicate_chunk_to_server net t.source_server cid t.target file t.source_path))
      ]

  rereplicate_chunks-IsElsewhere :
      (file : Bytes) (groups : Map ℤ (List ChunkRecord))
      → IsElsewhere dead (rereplicate_chunks net dead healthy file groups)
  unfolding rereplicate_chunks
  rereplicate_chunks-IsElsewhere file [] = tt
  rereplicate_chunks-IsElsewhere file ((cid, records) ∷ rest) =
      rereplicate_chunk-other file cid records (rereplicate_chunks net dead healthy file rest)
        (rereplicate_chunks-IsElsewhere file rest)

  pub file_updates-IsElsewhere :
      (store : MetadataMap) (file : Bytes)
      → IsElsewhere dead (file_updates net dead healthy store file)
  unfolding file_updates
  file_updates-IsElsewhere store file =
      rereplicate_chunks-IsElsewhere file (group_from [] (query_metadata store file).chunks)

-- The entry of a file among the updates, where it has one.
abbrev pub update_of : List ChunkRecord → Option (List ChunkRecord)
update_of [] = none
update_of (cr ∷ more) = some (cr ∷ more)

abbrev pub or_else :
    Option (List ChunkRecord) → Option (List ChunkRecord) → Option (List ChunkRecord)
or_else none o = o
or_else (some v) o = some v

or_else_lem :
    (us : List ChunkRecord) (c : Bool)
    → or_else (update_of us) (if c then update_of us else none) ≡ update_of us
or_else_lem [] c = ground arith
or_else_lem (cr ∷ more) c = refl

module _ (net : Cluster) (dead : Bytes) (healthy : List Bytes) (store : MetadataMap) where
  find-with_updates :
      (name file : Bytes) (new : List ChunkRecord) (m : Map Bytes (List ChunkRecord))
      → find file (with_updates net dead healthy name new m)
        ≡ (if bytes_eq name file then or_else (update_of new) (find file m) else find file m)
  find-with_updates name file [] m = ground arith
  find-with_updates name file (cr ∷ more) m = find-insert name file (cr ∷ more) m

  pub find-all_updates :
      (file : Bytes) (files : List Bytes)
      → find file (all_updates net dead healthy store files) ≡ (
          if any (λ f. bytes_eq f file) files
          then update_of (file_updates net dead healthy store file)
          else none)
  unfolding all_updates find
  find-all_updates file [] = refl
  find-all_updates file (name ∷ rest) =
      let step =
        find-with_updates name file (file_updates net dead healthy store name)
          (all_updates net dead healthy store rest) in
      let ih = find-all_updates file rest in
      elim (Bool-cases (bytes_eq name file)) [
        | inl e ↦
            let us = file_updates net dead healthy store in
            let same : us name ≡ us file = ap us ((bytes_eq_iff name file).0 e) in
            rw step
              (rw e (rw ih (rw same (or_else_lem (us file) (any (λ f. bytes_eq f file) rest)))))
        | inr e ↦ rw step (rw e ih)
      ]

  with_updates-IsSorted :
      (name : Bytes) (new : List ChunkRecord) (m : Map Bytes (List ChunkRecord))
      → IsSorted m
      → IsSorted (with_updates net dead healthy name new m)
  with_updates-IsSorted name [] m s = s
  with_updates-IsSorted name (cr ∷ more) m s = insert-IsSorted name (cr ∷ more) m s

  pub all_updates-IsSorted :
      (files : List Bytes) → IsSorted (all_updates net dead healthy store files)
  unfolding all_updates
  all_updates-IsSorted [] = tt
  all_updates-IsSorted (name ∷ rest) =
      with_updates-IsSorted name (file_updates net dead healthy store name)
        (all_updates net dead healthy store rest) (all_updates-IsSorted rest)
