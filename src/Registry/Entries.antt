-- ===== src/Registry/Entries.antt =====
-- Maps of servers whose addresses differ.
use distributed_file_grid.Prelude.{
  ◌≡◌, refl, inl, inr, Bool, true, false, List, [], ◌∷◌, none, some, arith, Bool-cases, any,
  find_if, All, subst,
}
use distributed_file_grid.Prelude.Int.{ℤ, eqb_ℤ}
use distributed_file_grid.Prelude.Key.{bytes_eq_iff, bytes_key, ℤ_key, eqb_ℤ_iff}
use distributed_file_grid.Prelude.Map.{Map, find, insert, erase, same_refl}
use distributed_file_grid.Prelude.Map.Sorted.{IsAfter, IsSorted}
use distributed_file_grid.Registry.{ServerEntry, at_address}
use mathlib.Core.Option.{some-injective}

abbrev pub Entries : Type 0
Entries = Map ℤ ServerEntry

abbrev pub matches : ℤ × ServerEntry → ℤ × ServerEntry → Bool
matches x y = at_address x.1.host x.1.port y

-- No two entries have one address.
abbrev pub Distinct : Entries → Type 0
Distinct [] = Unit
Distinct (x ∷ m) = (any (matches x) m ≡ false) × Distinct m

any-insert :
    (p : ℤ × ServerEntry → Bool) (k : ℤ) (e : ServerEntry) (m : Entries)
    → p (k, e) ≡ false
    → any p m ≡ false
    → any p (insert k e m) ≡ false
unfolding insert
any-insert p k e [] new h = rw new refl
any-insert p k e ((j, x) ∷ m) new h = ground (arith, any-insert p k e m)

matches_symm : (x y : ℤ × ServerEntry) → matches x y ≡ false → matches y x ≡ false
matches_symm (i, a) (j, b) h = ground (
  arith,
  bytes_eq_iff a.host b.host,
  bytes_eq_iff b.host a.host,
  eqb_ℤ_iff a.port b.port,
  eqb_ℤ_iff b.port a.port,
)

any-head :
    (y x : ℤ × ServerEntry) (m : Entries)
    → any (matches y) (x ∷ m) ≡ false
    → (matches y x ≡ false) × (any (matches y) m ≡ false)
any-head y x m h = ground arith

-- A new address under any id, the entry of which it replaces.
pub Distinct-insert :
    (k : ℤ) (e : ServerEntry) (m : Entries)
    → any (at_address e.host e.port) m ≡ false
    → Distinct m
    → Distinct (insert k e m)
unfolding insert
Distinct-insert k e [] a d = (refl, tt)
Distinct-insert k e ((j, x) ∷ m) a d =
    let apart = any-head (k, e) (j, x) m a in
    elim (Bool-cases (eqb_ℤ j k)) [
      | inl s ↦ rw s (apart.1, d.1)
      | inr s ↦ rw s (elim (Bool-cases (ℤ_key.before k j)) [
        | inl b ↦ rw b (a, d)
        | inr b ↦ rw b (
          any-insert (matches (j, x)) k e m (matches_symm (k, e) (j, x) apart.0) d.0,
          Distinct-insert k e m apart.1 d.1,
        )
      ])
    ]

any-erase :
    (p : ℤ × ServerEntry → Bool) (i : ℤ) (m : Entries) → any p m ≡ false → any p (erase i m) ≡ false
unfolding erase
any-erase p i [] h = refl
any-erase p i (x ∷ m) h = ground (arith, any-erase p i m)

pub Distinct-erase : (i : ℤ) (m : Entries) → Distinct m → Distinct (erase i m)
unfolding erase
Distinct-erase i [] d = tt
Distinct-erase i ((k, x) ∷ m) d = elim (Bool-cases (eqb_ℤ k i)) [
  | inl e ↦ rw e (Distinct-erase i m d.1)
  | inr e ↦ rw e (any-erase (matches (k, x)) i m d.0, Distinct-erase i m d.1)
]

pub any-find_if-none {ℓ} :
    {A : Type ℓ} (p : A → Bool) (xs : List A) → find_if p xs ≡ none → any p xs ≡ false
any-find_if-none p [] h = refl
any-find_if-none p (x ∷ xs) h = ground (arith, any-find_if-none p xs)

pub find_if-test {ℓ} :
    {A : Type ℓ} (p : A → Bool) (xs : List A) (x : A) → find_if p xs ≡ some x → p x ≡ true
find_if-test p [] x h = absurd (cc h)
find_if-test p (y ∷ xs) x h = elim (Bool-cases (p y)) [
  | inl e ↦ subst (λ v. p v ≡ true) (some-injective _ _ (rw e at h)) e
  | inr e ↦ find_if-test p xs x (rw e at h)
]

All-find_if {ℓ κ} :
    {A : Type ℓ} (P : A → Type κ) (p : A → Bool) (xs : List A) (x : A)
    → All P xs
    → find_if p xs ≡ some x
    → P x
All-find_if P p [] x a h = absurd (cc h)
All-find_if P p (y ∷ xs) x a h = elim (Bool-cases (p y)) [
  | inl e ↦ subst P (some-injective _ _ (rw e at h)) a.0
  | inr e ↦ All-find_if P p xs x a.1 (rw e at h)
]

pub find_if-insert :
    (p : ℤ × ServerEntry → Bool) (k : ℤ) (e : ServerEntry) (m : Entries)
    → find_if p m ≡ none
    → p (k, e) ≡ true
    → find_if p (insert k e m) ≡ some (k, e)
unfolding insert
find_if-insert p k e [] h new = rw new refl
find_if-insert p k e (x ∷ m) h new = ground (arith, find_if-insert p k e m)

-- In a sorted map the entry that a search stops at is the one under its id.
pub find_if-find :
    (p : ℤ × ServerEntry → Bool) (m : Entries) (i : ℤ) (e : ServerEntry)
    → IsSorted m
    → find_if p m ≡ some (i, e)
    → find i m ≡ some e
unfolding find
find_if-find p [] i e s h = absurd (cc h)
find_if-find p ((j, x) ∷ m) i e s h = elim (Bool-cases (p (j, x))) [
  | inl here ↦
      let found : ◌≡◌ {A = ℤ × ServerEntry} (j, x) (i, e) = some-injective _ _ (rw here at h) in
      subst (λ (t : ℤ × ServerEntry). find t.0 ((j, x) ∷ m) ≡ some t.1) found
        (rw (same_refl j) refl)
  | inr e' ↦
      let later : find_if p m ≡ some (i, e) = rw e' at h in
      let after = All-find_if (IsAfter j) p m (i, e) s.0 later in
      elim (Bool-cases (eqb_ℤ j i)) [
        | inl q ↦ cc (ℤ_key.before_irrefl j, (eqb_ℤ_iff j i).0 q, after)
        | inr q ↦ rw q (find_if-find p m i e s.1 later)
      ]
]
