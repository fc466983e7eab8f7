-- ===== src/Prelude/Key.antt =====
-- The order of the keys of `std::map`, as an interface with its instances for texts and integers.
use distributed_file_grid.Prelude.{
  ℕ, Bool, true, false, ◌≡◌, refl, ◌↔◌, List, [], ◌∷◌, arith, ltb, ◌==◌, if◌then◌else◌,
}
use distributed_file_grid.Prelude.Int.{ℤ, ltb_ℤ, eqb_ℤ}

pub record Key {ℓ} (K : Type ℓ) : Type ℓ where
  pub same : K → K → Bool
  pub before : K → K → Bool
  pub same_iff : (a b : K) → (same a b ≡ true) ↔ (a ≡ b)
  pub before_irrefl : (a : K) → before a a ≡ false
  pub before_trans : (a b c : K) → before a b ≡ true → before b c ≡ true → before a c ≡ true
  pub before_total : (a b : K) → same a b ≡ false → before a b ≡ false → before b a ≡ true

-- Texts are lists of bytes, in lexicographic order.
abbrev pub Bytes : Type 0
Bytes = List ℕ

unfoldable pub bytes_eq : Bytes → Bytes → Bool
bytes_eq [] [] = true
bytes_eq [] (b ∷ bs) = false
bytes_eq (a ∷ as_) [] = false
bytes_eq (a ∷ as_) (b ∷ bs) = if a == b then bytes_eq as_ bs else false

unfoldable pub bytes_lt : Bytes → Bytes → Bool
bytes_lt [] [] = false
bytes_lt [] (b ∷ bs) = true
bytes_lt (a ∷ as_) [] = false
bytes_lt (a ∷ as_) (b ∷ bs) = if ltb a b then true else if a == b then bytes_lt as_ bs else false

pub bytes_eq_iff : (a b : Bytes) → (bytes_eq a b ≡ true) ↔ (a ≡ b)
unfolding bytes_eq
bytes_eq_iff [] [] = (λ _. refl, λ _. refl)
bytes_eq_iff [] (b ∷ bs) = (λ h. cc, λ h. cc)
bytes_eq_iff (a ∷ x) [] = (λ h. cc, λ h. cc)
bytes_eq_iff (a ∷ x) (b ∷ y) = ground (arith, bytes_eq_iff x y)

pub bytes_lt_irrefl : (a : Bytes) → bytes_lt a a ≡ false
unfolding bytes_lt
bytes_lt_irrefl [] = refl
bytes_lt_irrefl (a ∷ x) = ground (arith, bytes_lt_irrefl x)

pub bytes_lt_trans :
    (a b c : Bytes) → bytes_lt a b ≡ true → bytes_lt b c ≡ true → bytes_lt a c ≡ true
unfolding bytes_lt
bytes_lt_trans [] [] c p q = cc
bytes_lt_trans [] (b ∷ y) [] p q = cc
bytes_lt_trans [] (b ∷ y) (c ∷ z) p q = refl
bytes_lt_trans (a ∷ x) [] c p q = cc
bytes_lt_trans (a ∷ x) (b ∷ y) [] p q = cc
bytes_lt_trans (a ∷ x) (b ∷ y) (c ∷ z) p q = ground (arith, bytes_lt_trans x y z)

pub bytes_lt_total :
    (a b : Bytes) → bytes_eq a b ≡ false → bytes_lt a b ≡ false → bytes_lt b a ≡ true
unfolding bytes_eq bytes_lt
bytes_lt_total [] [] p q = cc
bytes_lt_total [] (b ∷ y) p q = cc
bytes_lt_total (a ∷ x) [] p q = refl
bytes_lt_total (a ∷ x) (b ∷ y) p q = ground (arith, bytes_lt_total x y)

instance abbrev pub bytes_key : Key Bytes
bytes_key = record {
  same = bytes_eq;
  before = bytes_lt;
  same_iff = bytes_eq_iff;
  before_irrefl = bytes_lt_irrefl;
  before_trans = bytes_lt_trans;
  before_total = bytes_lt_total;
}

pub eqb_ℤ_iff : (a b : ℤ) → (eqb_ℤ a b ≡ true) ↔ (a ≡ b)
eqb_ℤ_iff a b = ground arith

pub ltb_ℤ_irrefl : (a : ℤ) → ltb_ℤ a a ≡ false
ltb_ℤ_irrefl a = ground arith

pub ltb_ℤ_trans : (a b c : ℤ) → ltb_ℤ a b ≡ true → ltb_ℤ b c ≡ true → ltb_ℤ a c ≡ true
ltb_ℤ_trans a b c p q = ground arith

pub ltb_ℤ_total : (a b : ℤ) → eqb_ℤ a b ≡ false → ltb_ℤ a b ≡ false → ltb_ℤ b a ≡ true
ltb_ℤ_total a b p q = ground arith

instance abbrev pub ℤ_key : Key ℤ
ℤ_key = record {
  same = eqb_ℤ;
  before = ltb_ℤ;
  same_iff = eqb_ℤ_iff;
  before_irrefl = ltb_ℤ_irrefl;
  before_trans = ltb_ℤ_trans;
  before_total = ltb_ℤ_total;
}
