-- ===== src/Download/Choice.antt =====
-- The hash and the server that a download chooses for a chunk.
use distributed_file_grid.Prelude.{
  ℕ, ◌≤◌, ◌≡◌, refl, sym, ◌∙◌, ap, subst, ◌⊎◌, inl, inr, true, false, List, [], ◌∷◌, Option, none,
  some, arith, Bool-cases, Option-cases, length, All, length-zero,
}
use distributed_file_grid.Prelude.Int.{ℤ, pos, negsuc, ltb_ℤ}
use distributed_file_grid.Prelude.Key.{Bytes, bytes_key, ℤ_key, eqb_ℤ_iff}
use distributed_file_grid.Prelude.Map.{Map, find, find_or, All-find}
use distributed_file_grid.Prelude.Floats.{Floats}
use distributed_file_grid.Download.{
  ChunkLocation, ChunkFetchPlan, HashAnswer, ServerInfo, ChunkConsensus, no_answers, gather,
  majority, lighter, best, plan_from, plan_counted, plan_chunk,
}
use distributed_file_grid.Download.Votes.{
  voters, AtMost, majority-AtMost, consensus-servers, consensus-counts, consensus-IsSorted,
}

abbrev pub Among : {A : Type 0} → A → List A → Type 0
Among x [] = ⊥
Among x (y ∷ ys) = (x ≡ y) ⊎ Among x ys

ltb_ℤ_trans : (a b c : ℤ) → ltb_ℤ a b ≡ true → ltb_ℤ b c ≡ true → ltb_ℤ a c ≡ true
ltb_ℤ_trans (pos a) (pos b) (pos c) p q = ground arith
ltb_ℤ_trans (pos a) (pos b) (negsuc c) p q = cc
ltb_ℤ_trans (pos a) (negsuc b) c p q = cc
ltb_ℤ_trans (negsuc a) (pos b) (pos c) p q = refl
ltb_ℤ_trans (negsuc a) (pos b) (negsuc c) p q = cc
ltb_ℤ_trans (negsuc a) (negsuc b) (pos c) p q = refl
ltb_ℤ_trans (negsuc a) (negsuc b) (negsuc c) p q = ground arith

ltb_ℤ_irrefl : (a : ℤ) → ltb_ℤ a a ≡ false
ltb_ℤ_irrefl (pos a) = ground arith
ltb_ℤ_irrefl (negsuc a) = ground arith

AtMost-find :
    (n : ℕ) (counts : Map Bytes ℕ) (hash : Bytes) → AtMost n counts → find_or 0 hash counts ≤ n
AtMost-find n counts hash h = elim (Option-cases (find hash counts)) [
  | inl e ↦ rw (e, find_or) (omega arith)
  | inr (m, e) ↦ rw (e, find_or) (All-find (λ x. x.1 ≤ n) hash counts m h e)
]

module _ (fl : Floats) (ask : ChunkLocation → Bytes → Option (HashAnswer fl.Float)) where
  lighter_trans :
      (a b c : ServerInfo fl.Float)
      → lighter fl ask a b ≡ true
      → lighter fl ask b c ≡ true
      → lighter fl ask a c ≡ true
  lighter_trans a b c p q = ground (
    arith,
    eqb_ℤ_iff a.active_connections b.active_connections,
    eqb_ℤ_iff b.active_connections c.active_connections,
    eqb_ℤ_iff a.active_connections c.active_connections,
    ltb_ℤ_trans a.active_connections b.active_connections c.active_connections,
    ltb_ℤ_irrefl a.active_connections,
    ltb_ℤ_irrefl b.active_connections,
    ltb_ℤ_irrefl c.active_connections,
    fl.less_trans a.load_score b.load_score c.load_score,
  )

  lighter_irrefl : (a : ServerInfo fl.Float) → lighter fl ask a a ≡ false
  lighter_irrefl a =
      ground
        (arith, eqb_ℤ_iff a.active_connections a.active_connections, fl.less_irrefl a.load_score)

  best-lighter :
      (x y : ServerInfo fl.Float) (ys : List (ServerInfo fl.Float))
      → lighter fl ask y x ≡ true
      → best fl ask x (y ∷ ys) ≡ best fl ask y ys
  unfolding best
  best-lighter x y ys e = rw e refl

  best-other :
      (x y : ServerInfo fl.Float) (ys : List (ServerInfo fl.Float))
      → lighter fl ask y x ≡ false
      → best fl ask x (y ∷ ys) ≡ best fl ask x ys
  unfolding best
  best-other x y ys e = rw e refl

  -- The front of the sorted servers is one of them.
  best-Among :
      (x : ServerInfo fl.Float) (xs : List (ServerInfo fl.Float))
      → Among (best fl ask x xs) (x ∷ xs)
  unfolding best
  best-Among x [] = inl refl
  best-Among x (y ∷ ys) =
      let Goal : ServerInfo fl.Float → Type 0 = λ b. Among b (x ∷ y ∷ ys) in
      elim (Bool-cases (lighter fl ask y x)) [
        | inl e ↦ subst Goal (sym (best-lighter x y ys e)) (inr (best-Among y ys))
        | inr e ↦
            subst Goal (sym (best-other x y ys e))
              (elim (best-Among x ys) [ inl h ↦ inl h | inr h ↦ inr (inr h) ])
      ]

  -- What is not lighter than the first is not lighter than the front.
  best-first :
      (z x : ServerInfo fl.Float) (xs : List (ServerInfo fl.Float))
      → lighter fl ask z x ≡ false
      → lighter fl ask z (best fl ask x xs) ≡ false
  unfolding best
  best-first z x [] h = h
  best-first z x (y ∷ ys) h = elim (Bool-cases (lighter fl ask y x)) [
    | inl e ↦
        rw (e, best)
          (best-first z y ys (elim (Bool-cases (lighter fl ask z y)) [
            | inl zy ↦ cc (lighter_trans z y x zy e, h)
            | inr zy ↦ zy
          ]))
    | inr e ↦ rw (e, best) (best-first z x ys h)
  ]

  -- No server is lighter than the front.
  best-least :
      (x : ServerInfo fl.Float) (xs : List (ServerInfo fl.Float))
      → All (λ z. lighter fl ask z (best fl ask x xs) ≡ false) (x ∷ xs)
  unfolding best
  best-least x [] = (lighter_irrefl x, tt)
  best-least x (y ∷ ys) =
      let Goal : ServerInfo fl.Float → Type 0 =
        λ b. All (λ z. lighter fl ask z b ≡ false) (x ∷ y ∷ ys) in
      elim (Bool-cases (lighter fl ask y x)) [
        | inl e ↦
            let other : lighter fl ask x y ≡ false = elim (Bool-cases (lighter fl ask x y)) [
              | inl xy ↦ cc (lighter_trans x y x xy e, lighter_irrefl x)
              | inr xy ↦ xy
            ] in
            subst Goal (sym (best-lighter x y ys e)) (best-first x y ys other, best-least y ys)
        | inr e ↦
            subst Goal (sym (best-other x y ys e))
              (best-first x x ys (lighter_irrefl x), (best-first y x ys e, (best-least x ys).1))
      ]

  -- The location of a server of the list that no other is lighter than.
  abbrev pub IsLightest : ChunkLocation → List (ServerInfo fl.Float) → Type 0
  IsLightest loc servers =
      (i : ServerInfo fl.Float) × Among i servers
      × (loc ≡ i.loc)
      × All (λ z. lighter fl ask z i ≡ false) servers

  plan_from_lem :
      (cid : ℤ) (hash : Bytes) (servers : List (ServerInfo fl.Float)) (plan : ChunkFetchPlan)
      → plan_from fl ask cid hash servers ≡ some plan
      → (plan.chunk_id ≡ cid) × (plan.majority_hash ≡ hash) × IsLightest plan.best_server servers
  plan_from_lem cid hash [] plan h = cc
  plan_from_lem cid hash (x ∷ xs) plan h =
      let front = best fl ask x xs in
      let made : ChunkFetchPlan = record {
        chunk_id = cid;
        best_server = front.loc;
        majority_hash = hash;
      } in
      let same : made ≡ plan = cc h in
      subst (λ q. (q.chunk_id ≡ cid) × (q.majority_hash ≡ hash) × IsLightest q.best_server (x ∷ xs))
        same (refl, refl, (front, best-Among x xs, refl, best-least x xs))

  plan_counted-plan_from :
      (cid : ℤ) (c : ChunkConsensus fl.Float) (counts : Map Bytes ℕ) (plan : ChunkFetchPlan)
      → plan_counted fl ask cid c counts ≡ some plan
      → let hash = majority [] 0 counts in
        plan_from fl ask cid hash (find_or [] hash c.hash_to_servers) ≡ some plan
  plan_counted-plan_from cid c [] plan h = cc
  plan_counted-plan_from cid c (e ∷ counts) plan h = h

  plan_from-none :
      (cid : ℤ) (hash : Bytes) (servers : List (ServerInfo fl.Float))
      → plan_from fl ask cid hash servers ≡ none
      → servers ≡ []
  plan_from-none cid hash [] h = refl
  plan_from-none cid hash (x ∷ xs) h = cc

  plan_counted-none :
      (cid : ℤ) (c : ChunkConsensus fl.Float) (counts : Map Bytes ℕ)
      → plan_counted fl ask cid c counts ≡ none
      → (counts ≡ []) ⊎ (find_or [] (majority [] 0 counts) c.hash_to_servers ≡ [])
  plan_counted-none cid c [] h = inl refl
  plan_counted-none cid c (e ∷ counts) h = inr (
      plan_from-none cid (majority [] 0 (e ∷ counts))
        (find_or [] (majority [] 0 (e ∷ counts)) c.hash_to_servers) h)

  module _ (filename : Bytes) (replicas : List ChunkLocation) where
    most_voters :
        (hash : Bytes)
        → let counts = (gather fl ask filename no_answers replicas).hash_counts in
          length (voters fl ask filename hash replicas)
          ≤ length (voters fl ask filename (majority [] 0 counts) replicas)
    most_voters hash =
        let c = gather fl ask filename no_answers replicas in
        let chosen = majority [] 0 c.hash_counts in
        omega (
          arith,
          consensus-counts fl ask filename hash replicas,
          consensus-counts fl ask filename chosen replicas,
          AtMost-find (find_or 0 chosen c.hash_counts) c.hash_counts hash
              (majority-AtMost c.hash_counts (consensus-IsSorted fl ask filename replicas)),
        )

    -- A chunk that has a plan in a download: its hash is one that the most replicas answer with,
    -- and its server is a replica that answers with this hash, with no other of them with fewer
    -- connections, or with as many and a lower load.
    pub plan_chunk_lem :
        (cid : ℤ) (plan : ChunkFetchPlan)
        → plan_chunk fl ask filename cid replicas ≡ some plan
        → let of_majority = voters fl ask filename plan.majority_hash replicas in
          (plan.chunk_id ≡ cid)
          × ((hash : Bytes) → length (voters fl ask filename hash replicas) ≤ length of_majority)
          × IsLightest plan.best_server of_majority
    unfolding plan_chunk
    plan_chunk_lem cid plan h =
        let c = gather fl ask filename no_answers replicas in
        let p =
          plan_from_lem cid (majority [] 0 c.hash_counts)
            (find_or [] (majority [] 0 c.hash_counts) c.hash_to_servers) plan
            (plan_counted-plan_from cid c c.hash_counts plan h) in
        let servers =
          subst (λ hash. IsLightest plan.best_server (find_or [] hash c.hash_to_servers)) (sym p.1)
            p.2 in
        (
          p.0,
          λ hash. rw (p.1) (most_voters hash),
          subst (IsLightest plan.best_server)
              (consensus-servers fl ask filename plan.majority_hash replicas) servers,
        )

    -- A chunk has no plan in a download only if no replica answers.
    pub plan_chunk-none :
        (cid : ℤ)
        → plan_chunk fl ask filename cid replicas ≡ none
        → (hash : Bytes) → voters fl ask filename hash replicas ≡ []
    unfolding plan_chunk find
    plan_chunk-none cid h hash =
        let c = gather fl ask filename no_answers replicas in
        let chosen = majority [] 0 c.hash_counts in
        let counted = consensus-counts fl ask filename hash replicas in
        length-zero (voters fl ask filename hash replicas)
          (elim (plan_counted-none cid c c.hash_counts h) [
            | inl no_counts ↦ sym counted ∙ ap (λ m. find_or 0 hash m) no_counts
            | inr no_servers ↦
                let no_voters =
                  ap length
                    (sym (consensus-servers fl ask filename chosen replicas) ∙ no_servers) in
                omega (arith, most_voters hash, no_voters)
          ])
