-- ===== src/Sha256.antt =====
-- The hash of src/common/include/dfg/sha256.hpp. A 32-bit word is a number below 2 ^ 32 and every sum
-- wraps there; the length in bits wraps at 2 ^ 64. Of the array `data_` only the first `datalen_` bytes
-- are ever read, and these are `buffer`.
pub mod Words
pub mod Stream
pub mod Padding
pub mod Digits
pub mod Tests
use distributed_file_grid.Prelude.{
  ℕ, zero, suc, ◌+◌, ◌-◌, ◌*◌, ◌/◌, ◌%◌, ◌^◌, ◌≤◌, ◌<◌, ◌≡◌, refl, sym, ◌∙◌, ap, subst, ◌≢◌, ◌↔◌,
  ◌⊎◌, inl, inr, Bool, true, false, ◌&&◌, ◌||◌, not, List, [], ◌∷◌, ◌++◌, map, Option, none, some,
  arith, ltb, leb, ◌==◌, if◌then◌else◌, Bool-cases, Option-cases, &&-true, lt→ltb, ltb→lt, leb→le,
  ==_iff, Bool_eq_of_iff, length, take, drop, replicate, get_or, keep, count_if, any, find_if, All,
  length-append, length-take, length-drop, length-replicate, take-append-drop, All-append, All-keep,
  All-mono, count_if-append, count_if-le-length, All-keep_test, String,
}
use distributed_file_grid.Prelude.Int.{ℤ, pos, negsuc, ltb_ℤ, eqb_ℤ}
use distributed_file_grid.Prelude.Key.{
  Key, Bytes, bytes_eq, bytes_lt, bytes_eq_iff, bytes_key, ℤ_key, eqb_ℤ_iff,
}
use distributed_file_grid.Prelude.Map.{
  Map, find, insert, erase, member, find_or, keys, values, find-insert, find-erase, same_refl,
  All-insert, All-erase, All-find,
}
use distributed_file_grid.Prelude.Text.{
  str, is_space, is_digit, digits, to_string, int_to_string, skip_ws, scan_digits, read_int,
  int_limit, long_limit, stoi, stoll, find_char, starts_with, find_sub, substr, word_of, after_word,
  read_word,
}
use distributed_file_grid.Sha256.Words.{Words8, initial_words, transform, word_bytes}

pub record Sha : Type 0 where
  pub buffer : Bytes
  pub bitlen : ℕ
  pub words : Words8

-- `reset`
abbrev pub fresh : Sha
fresh = record { buffer = []; bitlen = 0; words = initial_words }

-- transform(chunk); bitlen_ += 512; datalen_ = 0
unfoldable pub block : Sha → Bytes → Sha
block s chunk = record {
  buffer = [];
  bitlen = (s.bitlen + 512) % 2 ^ 64;
  words = transform s.words chunk;
}

-- The loop over complete blocks and the bytes that remain, with nothing in the buffer. Each round
-- takes 64 bytes, so the number of bytes is fuel enough.
unfoldable pub whole_blocks : ℕ → Sha → Bytes → Sha
unfolding block
whole_blocks zero s input = record s { buffer = input }
whole_blocks (suc fuel) s input = elim (leb 64 (length input)) [
  | true ↦ whole_blocks fuel (block s (take 64 input)) (drop 64 input)
  | false ↦ record s { buffer = input }
]

unfoldable pub update : Sha → Bytes → Sha
unfolding whole_blocks
update s [] = s
update s (b ∷ bs) =
    let input = b ∷ bs in
    let to_fill = 64 - length s.buffer in
    if length s.buffer == 0
    then whole_blocks (length input) s input
    else if ltb (length input) to_fill
    then record s { buffer = s.buffer ++ input }
    else whole_blocks (length input) (block s (s.buffer ++ take to_fill input)) (drop to_fill input)

-- The bytes of the length, the highest first.
abbrev pub length_bytes : ℕ → Bytes
length_bytes n =
    n / 2 ^ 56 % 256
    ∷ n / 2 ^ 48 % 256
    ∷ n / 2 ^ 40 % 256
    ∷ n / 2 ^ 32 % 256
    ∷ n / 2 ^ 24 % 256
    ∷ n / 2 ^ 16 % 256
    ∷ n / 2 ^ 8 % 256
    ∷ n % 256
    ∷ []

abbrev pub hex_digit : ℕ → ℕ
hex_digit n = if ltb n 10 then b'0' + n else b'a' + (n - 10)

-- The bytes in two hexadecimal digits each.
unfoldable pub hex : Bytes → Bytes
hex [] = []
hex (b ∷ rest) = hex_digit (b / 16) ∷ hex_digit (b % 16) ∷ hex rest

unfoldable pub hex_words : Words8 → Bytes
unfolding hex word_bytes
hex_words w = hex (
    word_bytes w.a
    ++ (word_bytes w.b
        ++ (word_bytes w.c
            ++ (word_bytes w.d
                ++ (word_bytes w.e ++ (word_bytes w.f ++ (word_bytes w.g ++ word_bytes w.h)))))))

-- The padding and the last blocks.
unfoldable pub last_words : Sha → Words8
last_words s =
    let n = length s.buffer in
    let size = length_bytes ((s.bitlen + n * 8) % 2 ^ 64) in
    if ltb n 56
    then transform s.words (s.buffer ++ (0x80 ∷ (replicate (55 - n) 0 ++ size)))
    else transform (transform s.words (s.buffer ++ (0x80 ∷ replicate (63 - n) 0)))
        (replicate 56 0 ++ size)

unfoldable pub digest : Sha → Bytes
unfolding last_words hex_words
digest s = hex_words (last_words s)

unfoldable pub sha256 : Bytes → Bytes
unfolding update digest
sha256 input = digest (update fresh input)
