-- ===== src/Prelude/Map.antt =====
-- `std::map` as a list of entries in the order of the keys. An `unordered_map` is modelled by the
-- same lists: its order of iteration is unspecified, and this is one of the orders allowed.
pub mod Sorted
use distributed_file_grid.Prelude.{
  ◌≡◌, refl, inl, inr, true, false, Bool, List, [], ◌∷◌, Option, none, some, arith, map, subst,
  if◌then◌else◌, All, Bool-cases,
}
use distributed_file_grid.Prelude.Key.{Key}

abbrev pub Map {ℓ κ} : Type ℓ → Type κ → Type (ℓ ⊔ κ)
Map K V = List (K × V)

module _ {ℓ κ} {K : Type ℓ} {V : Type κ} ⦃o : Key K⦄ where
  unfoldable pub find : K → Map K V → Option V
  find k [] = none
  find k ((j, v) ∷ m) = if o.same j k then some v else find k m

  -- m[k] = v
  unfoldable pub insert : K → V → Map K V → Map K V
  insert k v [] = (k, v) ∷ []
  insert k v ((j, w) ∷ m) =
      if o.same j k
      then (k, v) ∷ m
      else if o.before k j
      then (k, v) ∷ (j, w) ∷ m
      else (j, w) ∷ insert k v m

  -- m.erase(k)
  unfoldable pub erase : K → Map K V → Map K V
  erase k [] = []
  erase k ((j, v) ∷ m) = let rest = erase k m in if o.same j k then rest else (j, v) ∷ rest

  -- m.count(k), as a test
  abbrev pub member : K → Map K V → Bool
  member k m = elim (find k m) [ none ↦ false | some v ↦ true ]

  -- m[k], which default-constructs a missing value for reading
  abbrev pub find_or : V → K → Map K V → V
  find_or d k m = elim (find k m) [ none ↦ d | some v ↦ v ]

  abbrev pub keys : Map K V → List K
  keys = map (λ e. e.0)

  abbrev pub values : Map K V → List V
  values = map (λ e. e.1)

  pub find-insert :
      (k j : K) (v : V) (m : Map K V)
      → find j (insert k v m) ≡ (if o.same k j then some v else find j m)
  unfolding find insert
  find-insert k j v [] = refl
  find-insert k j v ((i, w) ∷ m) =
      ground (arith, o.same_iff k j, o.same_iff i k, o.same_iff i j, find-insert k j v m)

  pub find-erase :
      (k j : K) (m : Map K V) → find j (erase k m) ≡ (if o.same k j then none else find j m)
  unfolding find erase
  find-erase k j [] = ground arith
  find-erase k j ((i, w) ∷ m) =
      ground (arith, o.same_iff k j, o.same_iff i k, o.same_iff i j, find-erase k j m)

  pub All-insert {μ} :
      (P : K × V → Type μ) (k : K) (v : V) (m : Map K V) → P (k, v) → All P m → All P (insert k v m)
  unfolding insert
  All-insert P k v [] p h = (p, tt)
  All-insert P k v ((j, w) ∷ m) p h = elim (Bool-cases (o.same j k)) [
    | inl e ↦ rw e (p, h.1)
    | inr e ↦ rw e (elim (Bool-cases (o.before k j)) [
      | inl b ↦ rw b (p, (h.0, h.1))
      | inr b ↦ rw b (h.0, All-insert P k v m p h.1)
    ])
  ]

  pub All-erase {μ} : (P : K × V → Type μ) (k : K) (m : Map K V) → All P m → All P (erase k m)
  unfolding erase
  All-erase P k [] h = tt
  All-erase P k ((j, w) ∷ m) h = elim (Bool-cases (o.same j k)) [
    | inl e ↦ rw e (All-erase P k m h.1)
    | inr e ↦ rw e (h.0, All-erase P k m h.1)
  ]

  pub All-find {μ} :
      (P : K × V → Type μ) (k : K) (m : Map K V) (v : V) → All P m → find k m ≡ some v → P (k, v)
  unfolding find
  All-find P k [] v h e = cc
  All-find P k ((j, w) ∷ m) v h e = elim (Bool-cases (o.same j k)) [
    | inl s ↦
        let here : some w ≡ some v = rw s at e in
        let pair : ◌≡◌ {A = K × V} (j, w) (k, v) = cc ((o.same_iff j k).0 s, here) in
        subst P pair h.0
    | inr s ↦ All-find P k m v h.1 (rw s at e)
  ]

pub same_refl {ℓ} : {K : Type ℓ} ⦃o : Key K⦄ (k : K) → o.same k k ≡ true
same_refl ⦃o⦄ k = (o.same_iff k k).1 refl
