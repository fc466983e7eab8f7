-- ===== src/Prelude/Floats.antt =====
-- The program's `float` values, as far as it computes with them: a default, the starting value of a
-- comparison, and the test `<`. What a float is is left open; it is no NaN,
-- so that `<` orders the values as `std::sort` wants it.
use distributed_file_grid.Prelude.{ℕ, ◌≡◌, Bool, true, false, arith, ltb}
use distributed_file_grid.Prelude.Key.{bytes_key, ℤ_key}

pub record Floats : Type 1 where
  pub Float : Type 0
  pub zero_float : Float
  pub hundred : Float
  pub less : Float → Float → Bool
  pub less_irrefl : (a : Float) → less a a ≡ false
  pub less_trans : (a b c : Float) → less a b ≡ true → less b c ≡ true → less a c ≡ true
  pub less_weak : (a b c : Float) → less a b ≡ false → less b c ≡ false → less a c ≡ false

pub ltb_irrefl : (a : ℕ) → ltb a a ≡ false
ltb_irrefl a = ground arith

pub ltb_trans : (a b c : ℕ) → ltb a b ≡ true → ltb b c ≡ true → ltb a c ≡ true
ltb_trans a b c p q = ground arith

pub ltb_weak : (a b c : ℕ) → ltb a b ≡ false → ltb b c ≡ false → ltb a c ≡ false
ltb_weak a b c p q = ground arith

-- Whole percentages meet what is assumed.
abbrev pub percentages : Floats
percentages = record {
  Float = ℕ;
  zero_float = 0;
  hundred = 100;
  less = ltb;
  less_irrefl = ltb_irrefl;
  less_trans = ltb_trans;
  less_weak = ltb_weak;
}
