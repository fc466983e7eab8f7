-- ===== src/Sha256/Digits.antt =====
-- The text of a hash of src/common/include/dfg/sha256.hpp.
use distributed_file_grid.Prelude.{
  ℕ, ◌*◌, ◌/◌, ◌%◌, ◌<◌, ◌≡◌, refl, ◌∙◌, ap, Bool, true, ◌&&◌, ◌||◌, [], ◌∷◌, ◌++◌, arith, leb,
  length, All, All-append,
}
use distributed_file_grid.Prelude.Key.{Bytes, bytes_key, ℤ_key}
use distributed_file_grid.Sha256.{
  hex_digit, hex, hex_words, last_words, digest, update, fresh, sha256,
}
use distributed_file_grid.Sha256.Words.{Words8, word_bytes}

-- 0 to 9 and a to f
abbrev pub is_hex : ℕ → Bool
is_hex c = (leb 48 c && leb c 57) || (leb 97 c && leb c 102)

hex_digit-hex : (n : ℕ) → n < 16 → is_hex (hex_digit n) ≡ true
hex_digit-hex n h = ground arith

All-hex : (bs : Bytes) → All (λ b. b < 256) bs → All (λ c. is_hex c ≡ true) (hex bs)
unfolding hex
All-hex [] h = tt
All-hex (b ∷ rest) h = (
  hex_digit-hex (b / 16) (omega (arith, h.0)),
  (hex_digit-hex (b % 16) (omega arith), All-hex rest h.1),
)

length-hex : (bs : Bytes) → length (hex bs) ≡ 2 * length bs
unfolding hex
length-hex [] = refl
length-hex (b ∷ rest) = omega (arith, length-hex rest)

All-word_bytes : (x : ℕ) → All (λ b. b < 256) (word_bytes x)
unfolding word_bytes
All-word_bytes x = (omega arith, (omega arith, (omega arith, (omega arith, tt))))

abbrev all_bytes : Words8 → Bytes
all_bytes w =
    word_bytes w.a
    ++ (word_bytes w.b
        ++ (word_bytes w.c
            ++ (word_bytes w.d
                ++ (word_bytes w.e ++ (word_bytes w.f ++ (word_bytes w.g ++ word_bytes w.h))))))

append-bytes :
    (x : ℕ) (ys : Bytes) → All (λ b. b < 256) ys → All (λ b. b < 256) (word_bytes x ++ ys)
append-bytes x ys h = All-append _ (word_bytes x) ys (All-word_bytes x) h

All-all_bytes : (w : Words8) → All (λ b. b < 256) (all_bytes w)
All-all_bytes w = append-bytes w.a _ (
    append-bytes w.b _ (
      append-bytes w.c _ (
        append-bytes w.d _
          (append-bytes w.e _ (append-bytes w.f _ (append-bytes w.g _ (All-word_bytes w.h)))))))

length-all_bytes : (w : Words8) → length (all_bytes w) ≡ 32
unfolding word_bytes
length-all_bytes w = refl

-- A hash is a text of 64 hexadecimal digits.
pub sha256-hex :
    (message : Bytes) → (length (sha256 message) ≡ 64) × All (λ c. is_hex c ≡ true) (sha256 message)
unfolding sha256 digest hex_words
sha256-hex message =
    let w = last_words (update fresh message) in
    (
      length-hex (all_bytes w) ∙ ap (λ n. 2 * n) (length-all_bytes w),
      All-hex (all_bytes w) (All-all_bytes w),
    )
