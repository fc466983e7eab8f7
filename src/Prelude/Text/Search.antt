-- ===== src/Prelude/Text/Search.antt =====
-- Finding a text in another one, and in what is put before or behind it.
use distributed_file_grid.Prelude.{
  ℕ, suc, ◌≡◌, refl, sym, ◌∙◌, subst, Bool, true, false, [], ◌∷◌, ◌++◌, Option, none, some, arith,
  if◌then◌else◌,
}
use distributed_file_grid.Prelude.Key.{Bytes, bytes_key, ℤ_key}
use distributed_file_grid.Prelude.Text.{starts_with, find_sub, contains}

starts_with-append : (p xs ys : Bytes) → starts_with p xs ≡ true → starts_with p (xs ++ ys) ≡ true
unfolding starts_with
starts_with-append [] xs ys h = refl
starts_with-append (c ∷ p) [] ys h = cc
starts_with-append (c ∷ p) (x ∷ xs) ys h = ground (arith, starts_with-append p xs ys)

contains_cons :
    (p : Bytes) (x : ℕ) (xs : Bytes)
    → contains p (x ∷ xs) ≡ (if starts_with p (x ∷ xs) then true else contains p xs)
unfolding contains find_sub
contains_cons p x xs = go (starts_with p (x ∷ xs)) (find_sub p xs)
  where
    go :
        (b : Bool) (o : Option ℕ)
        → let shifted : Option ℕ = elim o [ none ↦ none | some i ↦ some (suc i) ] in
          let r : Option ℕ = if b then some 0 else shifted in
          elim r [ none ↦ false | some i ↦ true ]
          ≡ (if b then true else elim o [ none ↦ false | some i ↦ true ])
    go true o = refl
    go false none = refl
    go false (some i) = refl

contains_nil : (p : Bytes) → contains p [] ≡ true → p ≡ []
unfolding contains find_sub starts_with
contains_nil [] h = refl
contains_nil (c ∷ p) h = cc

contains_empty : (xs : Bytes) → contains [] xs ≡ true
unfolding contains find_sub starts_with
contains_empty [] = refl
contains_empty (x ∷ xs) = refl

pub contains-before : (p xs ys : Bytes) → contains p xs ≡ true → contains p (xs ++ ys) ≡ true
contains-before p [] ys h =
    subst (λ q. contains q ys ≡ true) (sym (contains_nil p h)) (contains_empty ys)
contains-before p (x ∷ xs) ys h =
    contains_cons p x (xs ++ ys)
    ∙ ground
        (arith, contains_cons p x xs, starts_with-append p (x ∷ xs) ys, contains-before p xs ys)

pub contains-after : (p xs ys : Bytes) → contains p ys ≡ true → contains p (xs ++ ys) ≡ true
contains-after p [] ys h = h
contains-after p (x ∷ xs) ys h =
    contains_cons p x (xs ++ ys) ∙ rw (contains-after p xs ys h) (ground arith)

pub contains-some : (p s : Bytes) → contains p s ≡ true → (n : ℕ) × (find_sub p s ≡ some n)
unfolding contains
contains-some p s h = go (find_sub p s) h
  where
    go : (o : Option ℕ) → elim o [ none ↦ false | some i ↦ true ] ≡ true → (n : ℕ) × (o ≡ some n)
    go none h = cc
    go (some n) h = (n, refl)
