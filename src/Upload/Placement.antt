-- ===== src/Upload/Placement.antt =====
-- Where the replicas of a chunk are put.
use distributed_file_grid.Prelude.{
  ℕ, zero, suc, ◌++◌, count_if, take-append-drop, ◌≡◌, refl, sym, ◌∙◌, ap, subst, inl, inr, Bool,
  true, false, List, [], ◌∷◌, arith, Bool-cases, length, take, drop, keep, any, All, length-take,
  All-mono, All-keep_test,
}
use distributed_file_grid.Prelude.Int.{ℤ}
use distributed_file_grid.Prelude.Key.{Bytes, bytes_key, ℤ_key}
use distributed_file_grid.Prelude.Map.{Map}
use Prim.Native.Nat.{min}
use mathlib.Core.List.{Perm, perm_middle}
use mathlib.Core.List.Perm
use distributed_file_grid.Prelude.Floats.{Floats}
use distributed_file_grid.Health.{ServerHealth}
use distributed_file_grid.Upload.{
  is_usable, disk_usage_of, insert_by, sort_by, usable_servers, candidate_servers,
  select_servers_for_chunk, or_configured,
}

module _ (fl : Floats) (disk : Bytes → fl.Float) where
  All-insert_by :
      (P : Bytes → Type 0) (a : Bytes) (xs : List Bytes)
      → P a
      → All P xs
      → All P (insert_by fl disk a xs)
  unfolding insert_by
  All-insert_by P a [] p h = (p, tt)
  All-insert_by P a (b ∷ rest) p h = elim (Bool-cases (fl.less (disk b) (disk a))) [
    | inl e ↦ rw e (h.0, All-insert_by P a rest p h.1)
    | inr e ↦ rw e (p, h)
  ]

  pub All-sort_by : (P : Bytes → Type 0) (xs : List Bytes) → All P xs → All P (sort_by fl disk xs)
  unfolding sort_by
  All-sort_by P [] h = tt
  All-sort_by P (a ∷ rest) h = All-insert_by P a (sort_by fl disk rest) h.0 (All-sort_by P rest h.1)

  insert_by-Perm : (a : Bytes) (xs : List Bytes) → Perm (insert_by fl disk a xs) (a ∷ xs)
  unfolding insert_by
  insert_by-Perm a [] = Perm.refl (a ∷ [])
  insert_by-Perm a (b ∷ rest) = elim (Bool-cases (fl.less (disk b) (disk a))) [
    | inl e ↦ rw e (Perm.trans (Perm.cons b (insert_by-Perm a rest)) (perm_middle (b ∷ []) rest))
    | inr e ↦ rw e (Perm.refl (a ∷ b ∷ rest))
  ]

  pub sort_by-Perm : (xs : List Bytes) → Perm (sort_by fl disk xs) xs
  unfolding sort_by
  sort_by-Perm [] = Perm.refl []
  sort_by-Perm (a ∷ rest) =
      Perm.trans (insert_by-Perm a (sort_by fl disk rest)) (Perm.cons a (sort_by-Perm rest))

  length-insert_by :
      (a : Bytes) (xs : List Bytes) → length (insert_by fl disk a xs) ≡ suc (length xs)
  unfolding insert_by
  length-insert_by a [] = refl
  length-insert_by a (b ∷ rest) = ground (arith, length-insert_by a rest)

  pub length-sort_by : (xs : List Bytes) → length (sort_by fl disk xs) ≡ length xs
  unfolding sort_by
  length-sort_by [] = refl
  length-sort_by (a ∷ rest) =
      length-insert_by a (sort_by fl disk rest) ∙ ap suc (length-sort_by rest)

  -- The second server has no lower disk usage than the first.
  abbrev pub NotLower : Bytes → Bytes → Type 0
  NotLower a b = fl.less (disk b) (disk a) ≡ false

  abbrev pub IsOrdered : List Bytes → Type 0
  IsOrdered [] = Unit
  IsOrdered (a ∷ rest) = All (NotLower a) rest × IsOrdered rest

  not_lower_both :
      (a b : Bytes) → fl.less (disk b) (disk a) ≡ true → fl.less (disk a) (disk b) ≡ false
  not_lower_both a b h = elim (Bool-cases (fl.less (disk a) (disk b))) [
    | inl e ↦ cc (fl.less_trans (disk a) (disk b) (disk a) e h, fl.less_irrefl (disk a))
    | inr e ↦ e
  ]

  NotLower-mono :
      (a b : Bytes) (xs : List Bytes) → NotLower a b → All (NotLower b) xs → All (NotLower a) xs
  NotLower-mono a b xs h =
      All-mono (NotLower b) (NotLower a) xs (λ x bx. fl.less_weak (disk x) (disk b) (disk a) bx h)

  insert_by-IsOrdered :
      (a : Bytes) (xs : List Bytes) → IsOrdered xs → IsOrdered (insert_by fl disk a xs)
  unfolding insert_by
  insert_by-IsOrdered a [] s = (tt, tt)
  insert_by-IsOrdered a (b ∷ rest) s = elim (Bool-cases (fl.less (disk b) (disk a))) [
    | inl e ↦ rw e (
      All-insert_by (NotLower b) a rest (not_lower_both a b e) s.0,
      insert_by-IsOrdered a rest s.1,
    )
    | inr e ↦ rw e ((e, NotLower-mono a b rest e s.0), s)
  ]

  pub sort_by-IsOrdered : (xs : List Bytes) → IsOrdered (sort_by fl disk xs)
  unfolding sort_by
  sort_by-IsOrdered [] = tt
  sort_by-IsOrdered (a ∷ rest) =
      insert_by-IsOrdered a (sort_by fl disk rest) (sort_by-IsOrdered rest)

  All-drop : (P : Bytes → Type 0) (n : ℕ) (xs : List Bytes) → All P xs → All P (drop n xs)
  All-drop P zero xs h = h
  All-drop P (suc n) [] h = tt
  All-drop P (suc n) (x ∷ xs) h = All-drop P n xs h.1

  pub ordered-take :
      (n : ℕ) (xs : List Bytes) → IsOrdered xs → All (λ a. All (NotLower a) (drop n xs)) (take n xs)
  ordered-take zero xs s = tt
  ordered-take (suc n) [] s = tt
  ordered-take (suc n) (x ∷ xs) s = (All-drop (NotLower x) n xs s.0, ordered-take n xs s.1)

All-take : (P : Bytes → Type 0) (n : ℕ) (xs : List Bytes) → All P xs → All P (take n xs)
All-take P zero xs h = tt
All-take P (suc n) [] h = tt
All-take P (suc n) (x ∷ xs) h = (h.0, All-take P n xs h.1)

or_configured-keep :
    (p : Bytes → Bool) (other xs : List Bytes)
    → any p xs ≡ true
    → or_configured other (keep p xs) ≡ keep p xs
or_configured-keep p other [] h = cc
or_configured-keep p other (x ∷ xs) h = elim (Bool-cases (p x)) [
  | inl e ↦ rw e refl
  | inr e ↦ rw e (or_configured-keep p other xs (rw e at h))
]

length-keep : (p : Bytes → Bool) (xs : List Bytes) → length (keep p xs) ≡ count_if p xs
length-keep p [] = refl
length-keep p (x ∷ xs) = ground (arith, length-keep p xs)

-- With a server that is healthy or unknown to the health monitor, the servers that are selected for
-- a chunk and a rest make up, in some order, the servers that are so; the number selected is the
-- smaller one of the replication factor and the number of these servers; and none of the rest has a
-- lower disk usage than one that is selected.
pub select_servers_lem :
    (fl : Floats) (addresses configured : List Bytes) (health : Map ℤ (ServerHealth fl.Float))
    (n : ℕ)
    → any (is_usable fl health) (or_configured configured addresses) ≡ true
    → let servers = or_configured configured addresses in
      let selected = select_servers_for_chunk fl addresses configured health n in
      (rest : List Bytes) × Perm (selected ++ rest) (keep (is_usable fl health) servers)
      × All (λ srv. is_usable fl health srv ≡ true) selected
      × (length selected ≡ min n (count_if (is_usable fl health) servers))
      × All (λ a. All (NotLower fl (disk_usage_of fl fl.hundred health) a) rest) selected
unfolding select_servers_for_chunk candidate_servers usable_servers
select_servers_lem fl addresses configured health n h =
    let servers = or_configured configured addresses in
    let usable = keep (is_usable fl health) servers in
    let disk = disk_usage_of fl fl.hundred health in
    let sorted = sort_by fl disk usable in
    let size : length sorted ≡ count_if (is_usable fl health) servers =
      length-sort_by fl disk usable ∙ length-keep (is_usable fl health) servers in
    rw (or_configured-keep (is_usable fl health) servers servers h) (
      drop n sorted,
      subst (λ l. Perm l usable) (sym (take-append-drop n sorted)) (sort_by-Perm fl disk usable),
      All-take (λ srv. is_usable fl health srv ≡ true) n sorted
          (All-sort_by fl disk (λ srv. is_usable fl health srv ≡ true) usable
            (All-keep_test (is_usable fl health) servers)),
      length-take n sorted ∙ ap (min n) size,
      ordered-take fl disk n sorted (sort_by-IsOrdered fl disk usable),
    )
