-- ===== src/Health/Check.antt =====
-- The loop of `check_health`, entry by entry.
use distributed_file_grid.Prelude.{
  ℕ, ◌≡◌, refl, subst, inl, inr, Bool, List, [], ◌∷◌, Option, none, some, arith, if◌then◌else◌,
  Bool-cases, count_if, All,
}
use distributed_file_grid.Prelude.Int.{ℤ, eqb_ℤ}
use distributed_file_grid.Prelude.Key.{bytes_key, ℤ_key, eqb_ℤ_iff}
use distributed_file_grid.Prelude.Map.{Map, find}
use distributed_file_grid.Prelude.Map.Sorted.{IsSorted, IsAfter, find-after}
use distributed_file_grid.Health.{ServerHealth, Call, check_loop}

abbrev pub entry_after {ℓ} : {H : Type ℓ} → (H → H × Bool) → Option H → Option H
entry_after check none = none
entry_after check (some h) = some (check h).0

-- How often an id is reported.
abbrev pub reports : {F : Type 0} → ℤ → List (Call F) → ℕ
reports i calls = count_if (λ c. eqb_ℤ c.0 i) calls

module _ {F : Type 0} (check : ServerHealth F → ServerHealth F × Bool) where
  pub find-check_loop :
      (i : ℤ) (m : Map ℤ (ServerHealth F))
      → find i (check_loop check m).0 ≡ entry_after check (find i m)
  unfolding find check_loop
  find-check_loop i [] = refl
  find-check_loop i ((j, h) ∷ m) = ground (arith, find-check_loop i m)

  abbrev pub newly : Option (ServerHealth F) → ℕ
  newly none = 0
  newly (some h) = if (check h).1 then 1 else 0

  -- With each id once in the map, an id is reported once if its entry is, and else never.
  pub reports-check_loop :
      (i : ℤ) (m : Map ℤ (ServerHealth F))
      → IsSorted m
      → reports i (check_loop check m).1 ≡ newly (find i m)
  unfolding find check_loop
  reports-check_loop i [] s = refl
  reports-check_loop i ((j, h) ∷ m) s = elim (Bool-cases (eqb_ℤ j i)) [
    | inl e ↦
        let missing : find i m ≡ none =
          subst (λ k. find k m ≡ none) ((eqb_ℤ_iff j i).0 e) (find-after j m s.0) in
        ground (arith, reports-check_loop i m s.1, missing)
    | inr e ↦ ground (arith, reports-check_loop i m s.1)
  ]

  IsAfter-check_loop :
      (k : ℤ) (m : Map ℤ (ServerHealth F))
      → All (IsAfter k) m
      → All (IsAfter k) (check_loop check m).0
  unfolding check_loop
  IsAfter-check_loop k [] h = tt
  IsAfter-check_loop k ((j, x) ∷ m) h = (h.0, IsAfter-check_loop k m h.1)

  pub check_loop-IsSorted :
      (m : Map ℤ (ServerHealth F)) → IsSorted m → IsSorted (check_loop check m).0
  unfolding check_loop
  check_loop-IsSorted [] s = tt
  check_loop-IsSorted ((j, x) ∷ m) s = (IsAfter-check_loop j m s.0, check_loop-IsSorted m s.1)

  pub All-check_loop :
      (P : ServerHealth F → Type 0)
      → ((h : ServerHealth F) → P h → P (check h).0)
      → (m : Map ℤ (ServerHealth F)) → All (λ e. P e.1) m
      → All (λ e. P e.1) (check_loop check m).0
  unfolding check_loop
  All-check_loop P keeps [] a = tt
  All-check_loop P keeps ((j, x) ∷ m) a = (keeps x a.0, All-check_loop P keeps m a.1)
