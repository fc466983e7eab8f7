-- ===== src/Prelude/Map/Sorted.antt =====
-- Entries in the strict order of their keys, which every operation keeps.
use distributed_file_grid.Prelude.{
  ◌≡◌, refl, subst, inl, inr, true, [], ◌∷◌, none, arith, Bool-cases, All,
}
use distributed_file_grid.Prelude.Key.{Key, bytes_key, ℤ_key}
use distributed_file_grid.Prelude.Map.{Map, find, insert, erase, All-insert, All-erase}

module _ {ℓ κ} {K : Type ℓ} {V : Type κ} ⦃o : Key K⦄ where
  abbrev pub IsAfter : K → K × V → Type 0
  IsAfter k y = o.before k y.0 ≡ true

  abbrev pub IsSorted : Map K V → Type 0
  IsSorted [] = Unit
  IsSorted (x ∷ m) = All (IsAfter x.0) m × IsSorted m

  IsAfter-mono :
      (j k : K) (m : Map K V) → o.before j k ≡ true → All (IsAfter k) m → All (IsAfter j) m
  IsAfter-mono j k [] b h = tt
  IsAfter-mono j k (x ∷ m) b h = (o.before_trans j k x.0 b h.0, IsAfter-mono j k m b h.1)

  pub insert-IsSorted : (k : K) (v : V) (m : Map K V) → IsSorted m → IsSorted (insert k v m)
  unfolding insert
  insert-IsSorted k v [] s = (tt, tt)
  insert-IsSorted k v ((j, w) ∷ m) s = elim (Bool-cases (o.same j k)) [
    | inl e ↦ rw e (subst (λ i. All (IsAfter i) m) ((o.same_iff j k).0 e) s.0, s.1)
    | inr e ↦ rw e (elim (Bool-cases (o.before k j)) [
      | inl b ↦ rw b ((b, IsAfter-mono k j m b s.0), s)
      | inr b ↦ rw b (
        All-insert (IsAfter j) k v m
            (o.before_total k j (ground (arith, o.same_iff k j, o.same_iff j k)) b) s.0,
        insert-IsSorted k v m s.1,
      )
    ])
  ]

  pub erase-IsSorted : (k : K) (m : Map K V) → IsSorted m → IsSorted (erase k m)
  unfolding erase
  erase-IsSorted k [] s = tt
  erase-IsSorted k ((j, w) ∷ m) s = elim (Bool-cases (o.same j k)) [
    | inl e ↦ rw e (erase-IsSorted k m s.1)
    | inr e ↦ rw e (All-erase (IsAfter j) k m s.0, erase-IsSorted k m s.1)
  ]

  -- A key occurs once.
  pub find-after : (k : K) (m : Map K V) → All (IsAfter k) m → find k m ≡ none
  unfolding find
  find-after k [] h = refl
  find-after k ((j, w) ∷ m) h = elim (Bool-cases (o.same j k)) [
    | inl e ↦ cc (o.before_irrefl k, (o.same_iff j k).0 e, h.0)
    | inr e ↦ rw e (find-after k m h.1)
  ]
