-- ===== src/Sha256/Words.antt =====
-- The words of src/common/include/dfg/sha256.hpp: the functions of the standard and `transform`.
use distributed_file_grid.Prelude.{
  ℕ, zero, suc, ◌+◌, ◌-◌, ◌*◌, ◌/◌, ◌%◌, ◌^◌, List, [], ◌∷◌, ◌==◌, if◌then◌else◌, get_or,
}
use distributed_file_grid.Prelude.Key.{Bytes, bytes_key, ℤ_key}
use Prim.Native.Nat.{bit_and, bit_or, bit_xor}

pub record Words8 : Type 0 where
  pub a : ℕ
  pub b : ℕ
  pub c : ℕ
  pub d : ℕ
  pub e : ℕ
  pub f : ℕ
  pub g : ℕ
  pub h : ℕ

abbrev pub initial_words : Words8
initial_words = record {
  a = 0x6a09e667;
  b = 0xbb67ae85;
  c = 0x3c6ef372;
  d = 0xa54ff53a;
  e = 0x510e527f;
  f = 0x9b05688c;
  g = 0x1f83d9ab;
  h = 0x5be0cd19;
}

abbrev round_constants : List ℕ
round_constants =
    0x428a2f98 ∷ 0x71374491 ∷ 0xb5c0fbcf ∷ 0xe9b5dba5 ∷ 0x3956c25b ∷ 0x59f111f1 ∷ 0x923f82a4
    ∷ 0xab1c5ed5 ∷ 0xd807aa98 ∷ 0x12835b01 ∷ 0x243185be ∷ 0x550c7dc3 ∷ 0x72be5d74 ∷ 0x80deb1fe
    ∷ 0x9bdc06a7 ∷ 0xc19bf174 ∷ 0xe49b69c1 ∷ 0xefbe4786 ∷ 0x0fc19dc6 ∷ 0x240ca1cc ∷ 0x2de92c6f
    ∷ 0x4a7484aa ∷ 0x5cb0a9dc ∷ 0x76f988da ∷ 0x983e5152 ∷ 0xa831c66d ∷ 0xb00327c8 ∷ 0xbf597fc7
    ∷ 0xc6e00bf3 ∷ 0xd5a79147 ∷ 0x06ca6351 ∷ 0x14292967 ∷ 0x27b70a85 ∷ 0x2e1b2138 ∷ 0x4d2c6dfc
    ∷ 0x53380d13 ∷ 0x650a7354 ∷ 0x766a0abb ∷ 0x81c2c92e ∷ 0x92722c85 ∷ 0xa2bfe8a1 ∷ 0xa81a664b
    ∷ 0xc24b8b70 ∷ 0xc76c51a3 ∷ 0xd192e819 ∷ 0xd6990624 ∷ 0xf40e3585 ∷ 0x106aa070 ∷ 0x19a4c116
    ∷ 0x1e376c08 ∷ 0x2748774c ∷ 0x34b0bcb5 ∷ 0x391c0cb3 ∷ 0x4ed8aa4a ∷ 0x5b9cca4f ∷ 0x682e6ff3
    ∷ 0x748f82ee ∷ 0x78a5636f ∷ 0x84c87814 ∷ 0x8cc70208 ∷ 0x90befffa ∷ 0xa4506ceb ∷ 0xbef9a3f7
    ∷ 0xc67178f2 ∷ []

abbrev pub wrap : ℕ → ℕ
wrap x = x % 2 ^ 32

abbrev complement : ℕ → ℕ
complement x = 2 ^ 32 - 1 - x

unfoldable pub rotr : ℕ → ℕ → ℕ
rotr x n = if n == 0 then x else bit_or (x / 2 ^ n) (wrap (x * 2 ^ (32 - n)))

unfoldable pub ch : ℕ → ℕ → ℕ → ℕ
ch x y z = bit_xor (bit_and x y) (bit_and (complement x) z)

unfoldable pub maj : ℕ → ℕ → ℕ → ℕ
maj x y z = bit_xor (bit_xor (bit_and x y) (bit_and x z)) (bit_and y z)

unfoldable pub upper_sigma0 : ℕ → ℕ
unfolding rotr
upper_sigma0 x = bit_xor (bit_xor (rotr x 2) (rotr x 13)) (rotr x 22)

unfoldable pub upper_sigma1 : ℕ → ℕ
unfolding rotr
upper_sigma1 x = bit_xor (bit_xor (rotr x 6) (rotr x 11)) (rotr x 25)

unfoldable pub sigma0 : ℕ → ℕ
unfolding rotr
sigma0 x = bit_xor (bit_xor (rotr x 7) (rotr x 18)) (x / 2 ^ 3)

unfoldable pub sigma1 : ℕ → ℕ
unfolding rotr
sigma1 x = bit_xor (bit_xor (rotr x 17) (rotr x 19)) (x / 2 ^ 10)

abbrev word_of_bytes : ℕ → ℕ → ℕ → ℕ → ℕ
word_of_bytes b0 b1 b2 b3 = bit_or (bit_or (bit_or (b0 * 2 ^ 24) (b1 * 2 ^ 16)) (b2 * 2 ^ 8)) b3

-- The words of a block, on top of the words before, the last one first.
unfoldable pub block_words : List ℕ → Bytes → List ℕ
block_words ms (b0 ∷ b1 ∷ b2 ∷ b3 ∷ rest) = block_words (word_of_bytes b0 b1 b2 b3 ∷ ms) rest
block_words ms _ = ms

-- m[i] for the next i, where m[i - n] is the word at n - 1.
abbrev next_word : List ℕ → ℕ
next_word ms =
    wrap (sigma1 (get_or ms 1 0) + get_or ms 6 0 + sigma0 (get_or ms 14 0) + get_or ms 15 0)

unfoldable pub extend : ℕ → List ℕ → List ℕ
unfolding sigma0 sigma1
extend zero ms = ms
extend (suc n) ms = let m = next_word ms in extend n (m ∷ ms)

unfoldable pub round : Words8 → ℕ → ℕ → Words8
unfolding upper_sigma0 upper_sigma1 ch maj
round w k m =
    let t1 = wrap (w.h + upper_sigma1 w.e + ch w.e w.f w.g + k + m) in
    let t2 = wrap (upper_sigma0 w.a + maj w.a w.b w.c) in
    record {
      a = wrap (t1 + t2);
      b = w.a;
      c = w.b;
      d = w.c;
      e = wrap (w.d + t1);
      f = w.e;
      g = w.f;
      h = w.g;
    }

unfoldable pub rounds : Words8 → List ℕ → List ℕ → Words8
unfolding round
rounds w (k ∷ ks) (m ∷ ms) = rounds (round w k m) ks ms
rounds w _ _ = w

unfoldable pub reversed : List ℕ → List ℕ → List ℕ
reversed ys [] = ys
reversed ys (x ∷ xs) = reversed (x ∷ ys) xs

unfoldable pub transform : Words8 → Bytes → Words8
unfolding block_words extend rounds reversed
transform w chunk =
    let w' = rounds w round_constants (reversed [] (extend 48 (block_words [] chunk))) in
    record {
      a = wrap (w.a + w'.a);
      b = wrap (w.b + w'.b);
      c = wrap (w.c + w'.c);
      d = wrap (w.d + w'.d);
      e = wrap (w.e + w'.e);
      f = wrap (w.f + w'.f);
      g = wrap (w.g + w'.g);
      h = wrap (w.h + w'.h);
    }

-- The bytes of a word, the highest first.
unfoldable pub word_bytes : ℕ → Bytes
word_bytes x = x / 2 ^ 24 % 256 ∷ x / 2 ^ 16 % 256 ∷ x / 2 ^ 8 % 256 ∷ x % 256 ∷ []
