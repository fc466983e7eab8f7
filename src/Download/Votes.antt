-- ===== src/Download/Votes.antt =====
-- The answers of the replicas of a chunk, counted by hash.
use distributed_file_grid.Prelude.{
  ℕ, suc, ◌+◌, ◌≤◌, ◌≡◌, refl, sym, ◌∙◌, ap, subst, ◌⊎◌, inl, inr, List, [], ◌∷◌, ◌++◌, Option,
  none, some, arith, ltb, if◌then◌else◌, Bool-cases, length, All, length-append,
}
use distributed_file_grid.Prelude.Key.{Bytes, bytes_eq, bytes_eq_iff, bytes_key, ℤ_key}
use distributed_file_grid.Prelude.Map.{Map, find, find_or, find-insert}
use mathlib.Core.List.{append-nil, append_assoc}
use distributed_file_grid.Prelude.Map.Sorted.{IsSorted, IsAfter, insert-IsSorted, find-after}
use distributed_file_grid.Prelude.Floats.{Floats}
use distributed_file_grid.Download.{
  ChunkLocation, HashAnswer, ServerInfo, ChunkConsensus, no_answers, info, add_answer, gather,
  majority,
}

module _ (fl : Floats) (ask : ChunkLocation → Bytes → Option (HashAnswer fl.Float))
    (filename : Bytes) where
  -- A server is a voter for a hash if it answers with it.
  abbrev pub vote_for :
      Bytes → ChunkLocation → Option (HashAnswer fl.Float) → List (ServerInfo fl.Float)
  vote_for hash loc none = []
  vote_for hash loc (some a) = if bytes_eq a.hash hash then info loc a ∷ [] else []

  -- The voters for a hash among the replicas, in their order.
  abbrev pub voters : Bytes → List ChunkLocation → List (ServerInfo fl.Float)
  voters hash [] = []
  voters hash (loc ∷ rest) = vote_for hash loc (ask loc filename) ++ voters hash rest

  add_answer-servers :
      (hash : Bytes) (c : ChunkConsensus fl.Float) (loc : ChunkLocation)
      (answer : Option (HashAnswer fl.Float))
      → find_or [] hash (add_answer c loc answer).hash_to_servers
        ≡ find_or [] hash c.hash_to_servers ++ vote_for hash loc answer
  add_answer-servers hash c loc none = sym (append-nil (find_or [] hash c.hash_to_servers))
  add_answer-servers hash c loc (some a) =
      let found =
        find-insert a.hash hash (find_or [] a.hash c.hash_to_servers ++ (info loc a ∷ []))
          c.hash_to_servers in
      elim (Bool-cases (bytes_eq a.hash hash)) [
        | inl e ↦
            rw (found, find_or)
              (rw e (
                ap (λ h. find_or [] h c.hash_to_servers ++ (info loc a ∷ []))
                  ((bytes_eq_iff a.hash hash).0 e)))
        | inr e ↦ rw (found, find_or) (rw e (sym (append-nil (find_or [] hash c.hash_to_servers))))
      ]

  add_answer-counts :
      (hash : Bytes) (c : ChunkConsensus fl.Float) (loc : ChunkLocation)
      (answer : Option (HashAnswer fl.Float))
      → find_or 0 hash (add_answer c loc answer).hash_counts
        ≡ find_or 0 hash c.hash_counts + length (vote_for hash loc answer)
  add_answer-counts hash c loc none = omega arith
  add_answer-counts hash c loc (some a) = ground (
    arith,
    find-insert a.hash hash (suc (find_or 0 a.hash c.hash_counts)) c.hash_counts,
    bytes_eq_iff a.hash hash,
  )

  gather-servers :
      (hash : Bytes) (c : ChunkConsensus fl.Float) (replicas : List ChunkLocation)
      → find_or [] hash (gather fl ask filename c replicas).hash_to_servers
        ≡ find_or [] hash c.hash_to_servers ++ voters hash replicas
  unfolding gather
  gather-servers hash c [] = sym (append-nil (find_or [] hash c.hash_to_servers))
  gather-servers hash c (loc ∷ rest) =
      gather-servers hash (add_answer c loc (ask loc filename)) rest
      ∙ ap (λ l. l ++ voters hash rest) (add_answer-servers hash c loc (ask loc filename))
      ∙ append_assoc (find_or [] hash c.hash_to_servers) (vote_for hash loc (ask loc filename))
          (voters hash rest)

  gather-counts :
      (hash : Bytes) (c : ChunkConsensus fl.Float) (replicas : List ChunkLocation)
      → find_or 0 hash (gather fl ask filename c replicas).hash_counts
        ≡ find_or 0 hash c.hash_counts + length (voters hash replicas)
  unfolding gather
  gather-counts hash c [] = omega arith
  gather-counts hash c (loc ∷ rest) = omega (
    arith,
    gather-counts hash (add_answer c loc (ask loc filename)) rest,
    add_answer-counts hash c loc (ask loc filename),
    length-append (vote_for hash loc (ask loc filename)) (voters hash rest),
  )

  -- The consensus of a chunk holds, for each hash, its voters and their number.
  pub consensus-servers :
      (hash : Bytes) (replicas : List ChunkLocation)
      → find_or [] hash (gather fl ask filename no_answers replicas).hash_to_servers
        ≡ voters hash replicas
  unfolding find
  consensus-servers hash replicas = gather-servers hash no_answers replicas

  pub consensus-counts :
      (hash : Bytes) (replicas : List ChunkLocation)
      → find_or 0 hash (gather fl ask filename no_answers replicas).hash_counts
        ≡ length (voters hash replicas)
  unfolding find
  consensus-counts hash replicas = omega (arith, gather-counts hash no_answers replicas)

  add_answer-IsSorted :
      (c : ChunkConsensus fl.Float) (loc : ChunkLocation) (answer : Option (HashAnswer fl.Float))
      → IsSorted c.hash_counts
      → IsSorted (add_answer c loc answer).hash_counts
  add_answer-IsSorted c loc none s = s
  add_answer-IsSorted c loc (some a) s =
      insert-IsSorted a.hash (suc (find_or 0 a.hash c.hash_counts)) c.hash_counts s

  counts-IsSorted_from :
      (c : ChunkConsensus fl.Float) (replicas : List ChunkLocation)
      → IsSorted c.hash_counts
      → IsSorted (gather fl ask filename c replicas).hash_counts
  unfolding gather
  counts-IsSorted_from c [] s = s
  counts-IsSorted_from c (loc ∷ rest) s =
      counts-IsSorted_from (add_answer c loc (ask loc filename)) rest
        (add_answer-IsSorted c loc (ask loc filename) s)

  pub consensus-IsSorted :
      (replicas : List ChunkLocation)
      → IsSorted (gather fl ask filename no_answers replicas).hash_counts
  consensus-IsSorted replicas = counts-IsSorted_from no_answers replicas tt

-- A count that every entry of the map stays below.
abbrev pub AtMost : ℕ → Map Bytes ℕ → Type 0
AtMost n counts = All (λ e. e.1 ≤ n) counts

find-later :
    (h : Bytes) (n m : ℕ) (chosen : Bytes) (rest : Map Bytes ℕ)
    → All (IsAfter h) rest
    → find chosen rest ≡ some m
    → find chosen ((h, n) ∷ rest) ≡ some m
unfolding find
find-later h n m chosen rest after found = elim (Bool-cases (bytes_eq h chosen)) [
  | inl e ↦ cc (find-after h rest after, (bytes_eq_iff h chosen).0 e, found)
  | inr e ↦ rw e found
]

find-here :
    (h : Bytes) (n m : ℕ) (chosen : Bytes) (rest : Map Bytes ℕ)
    → chosen ≡ h
    → m ≡ n
    → find chosen ((h, n) ∷ rest) ≡ some m
unfolding find
find-here h n m chosen rest same eq = rw ((bytes_eq_iff h chosen).1 (sym same)) (ap some (sym eq))

AtMost-mono : (m n : ℕ) (counts : Map Bytes ℕ) → m ≤ n → AtMost m counts → AtMost n counts
AtMost-mono m n [] le h = tt
AtMost-mono m n (x ∷ rest) le h = (omega arith, AtMost-mono m n rest le h.1)

-- A hash whose count no other exceeds: one of the map, or the one that the loop started with.
abbrev Chosen : Bytes → ℕ → Map Bytes ℕ → Bytes → Type 0
Chosen hash max_count counts chosen =
    (m : ℕ) × AtMost m counts
    × (max_count ≤ m)
    × ((find chosen counts ≡ some m) ⊎ ((chosen ≡ hash) × (m ≡ max_count)))

-- The loop ends with such a hash.
majority-Chosen :
    (hash : Bytes) (max_count : ℕ) (counts : Map Bytes ℕ)
    → IsSorted counts
    → Chosen hash max_count counts (majority hash max_count counts)
unfolding majority
majority-Chosen hash max_count [] s = (max_count, tt, omega arith, inr (refl, refl))
majority-Chosen hash max_count ((h, n) ∷ rest) s = elim (Bool-cases (ltb max_count n)) [
  | inl e ↦
      let step : majority hash max_count ((h, n) ∷ rest) ≡ majority h n rest = rw e refl in
      let (m, at_most, le, chosen) = majority-Chosen h n rest s.1 in
      subst (Chosen hash max_count ((h, n) ∷ rest)) (sym step) (
        m,
        (le, at_most),
        ground arith,
        inl (elim chosen [
          | inl found ↦ find-later h n m (majority h n rest) rest s.0 found
          | inr (same, eq) ↦ find-here h n m (majority h n rest) rest same eq
        ]),
      )
  | inr e ↦
      let step : majority hash max_count ((h, n) ∷ rest) ≡ majority hash max_count rest =
        rw e refl in
      let (m, at_most, le, chosen) = majority-Chosen hash max_count rest s.1 in
      subst (Chosen hash max_count ((h, n) ∷ rest)) (sym step) (
        m,
        (ground arith, at_most),
        le,
        elim chosen [
          | inl found ↦ inl (find-later h n m (majority hash max_count rest) rest s.0 found)
          | inr other ↦ inr other
        ],
      )
]

-- In a sorted map, no count exceeds that of the chosen hash.
pub majority-AtMost :
    (counts : Map Bytes ℕ)
    → IsSorted counts
    → AtMost (find_or 0 (majority [] 0 counts) counts) counts
majority-AtMost counts s =
    let (m, at_most, le, chosen) = majority-Chosen [] 0 counts s in
    elim chosen [
      | inl found ↦ rw (found, find_or) at_most
      | inr (same, eq) ↦
          AtMost-mono m (find_or 0 (majority [] 0 counts) counts) counts (omega arith) at_most
    ]
