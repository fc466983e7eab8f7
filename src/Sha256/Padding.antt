-- ===== src/Sha256/Padding.antt =====
-- The hash of src/common/include/dfg/sha256.hpp against the standard: padding as bytes of the message.
use distributed_file_grid.Prelude.{
  ℕ, zero, suc, ◌+◌, ◌-◌, ◌*◌, ◌%◌, ◌^◌, ◌≤◌, ◌<◌, ◌≡◌, refl, sym, ◌∙◌, ap, subst, inl, inr, [],
  ◌∷◌, ◌++◌, arith, ltb, Bool-cases, ltb→lt, length, replicate, length-append, length-replicate,
}
use distributed_file_grid.Prelude.Key.{Bytes, bytes_key, ℤ_key}
use distributed_file_grid.Sha256.{
  transform, Sha, fresh, block, length_bytes, last_words, digest, hex_words, sha256,
}
use distributed_file_grid.Sha256.Stream.{
  push, feed, IsPartial, feed-IsPartial, feed-append, feed_full, update-feed,
}
use mathlib.Core.List.{append_assoc}

abbrev zeros : ℕ → Bytes
zeros n = replicate n 0

-- A one bit, zeros up to 56 bytes modulo 64, and the length in bits in 8 bytes.
abbrev pub padding : ℕ → Bytes
padding n = 0x80 ∷ (zeros ((119 - n % 64) % 64) ++ length_bytes (n * 8 % 2 ^ 64))

-- What the state knows of the n bytes so far.
abbrev Counts : Sha → ℕ → Type 0
Counts s n =
    (length s.buffer ≡ n % 64) × ((s.bitlen + length s.buffer * 8) % 2 ^ 64 ≡ n * 8 % 2 ^ 64)

push-Counts : (s : Sha) (b n : ℕ) → Counts s n → Counts (push s b) (suc n)
unfolding block
push-Counts s b n h = ground (arith, length-append s.buffer (b ∷ []))

feed-Counts :
    (s : Sha) (input : Bytes) (n m : ℕ)
    → n + length input ≡ m
    → Counts s n
    → Counts (feed s input) m
unfolding feed
feed-Counts s [] n m e h = subst (Counts s) (omega arith) h
feed-Counts s (b ∷ rest) n m e h =
    feed-Counts (push s b) rest (suc n) m (omega arith) (push-Counts s b n h)

zeros-append : (m n : ℕ) → zeros (m + n) ≡ zeros m ++ zeros n
zeros-append zero n = ap zeros (omega arith)
zeros-append (suc m) n =
    let e : suc m + n ≡ suc (m + n) = omega arith in ap zeros e ∙ ap (◌∷◌ 0) (zeros-append m n)

feed_block :
    (s : Sha) (rest : Bytes)
    → length s.buffer + length rest ≡ 64
    → 0 < length rest
    → transform s.words (s.buffer ++ rest) ≡ (feed s rest).words
unfolding block
feed_block s rest h l = ap (λ t. t.words) (sym (feed_full s rest h l))

-- The padding that fits the block at hand.
one_block :
    (s : Sha) (size : Bytes)
    → length s.buffer < 56
    → length size ≡ 8
    → let rest : Bytes = 0x80 ∷ (zeros (55 - length s.buffer) ++ size) in
      transform s.words (s.buffer ++ rest) ≡ (feed s rest).words
one_block s size h e =
    let rest : Bytes = 0x80 ∷ (zeros (55 - length s.buffer) ++ size) in
    let z = zeros (55 - length s.buffer) in
    let size_z : length z ≡ 55 - length s.buffer = length-replicate (55 - length s.buffer) 0 in
    let count : length rest ≡ 64 - length s.buffer = omega (arith, length-append z size) in
    feed_block s rest (omega arith) (omega arith)

-- The padding that needs a block of its own.
two_blocks :
    (s : Sha) (size : Bytes)
    → 56 ≤ length s.buffer
    → length s.buffer < 64
    → length size ≡ 8
    → let start : Bytes = 0x80 ∷ zeros (63 - length s.buffer) in
      transform (transform s.words (s.buffer ++ start)) (zeros 56 ++ size)
      ≡ (feed s (start ++ (zeros 56 ++ size))).words
unfolding block
two_blocks s size h l e =
    let start : Bytes = 0x80 ∷ zeros (63 - length s.buffer) in
    let size_z : length (zeros (63 - length s.buffer)) ≡ 63 - length s.buffer =
      length-replicate (63 - length s.buffer) 0 in
    let filled = block s (s.buffer ++ start) in
    feed_block filled (zeros 56 ++ size) (omega (arith, length-append (zeros 56) size))
      (omega arith)
    ∙ ap (λ t. (feed t (zeros 56 ++ size)).words)
        (sym (feed_full s start (omega arith) (omega arith)))
    ∙ ap (λ t. t.words) (sym (feed-append s start (zeros 56 ++ size)))

-- The last blocks are the padding, byte by byte.
last_words-feed :
    (s : Sha) (n : ℕ) → IsPartial s → Counts s n → last_words s ≡ (feed s (padding n)).words
unfolding last_words
last_words-feed s n p h =
    let size = length_bytes (n * 8 % 2 ^ 64) in
    rw h.1 (elim (Bool-cases (ltb (length s.buffer) 56)) [
      | inl c ↦
          let few : length s.buffer < 56 = ltb→lt _ _ c in
          let e : 55 - length s.buffer ≡ (119 - n % 64) % 64 = omega (arith, h.0) in
          rw c (one_block s size few refl ∙ ap (λ k. (feed s (0x80 ∷ (zeros k ++ size))).words) e)
      | inr c ↦
          let many : 56 ≤ length s.buffer = ground arith in
          let e : (63 - length s.buffer) + 56 ≡ (119 - n % 64) % 64 = omega (arith, h.0) in
          rw c (
            two_blocks s size many p refl
            ∙ ap (λ z. (feed s (0x80 ∷ z)).words)
                (sym (append_assoc (zeros (63 - length s.buffer)) (zeros 56) size)
                  ∙ ap (λ z. z ++ size) (sym (zeros-append (63 - length s.buffer) 56)))
            ∙ ap (λ k. (feed s (0x80 ∷ (zeros k ++ size))).words) e)
    ])

-- The hash of a message is the state after its bytes and the padding of the standard, one bit,
-- zeros and the length in bits, fed in byte by byte.
pub sha256-padding :
    (message : Bytes)
    → sha256 message ≡ hex_words (feed fresh (message ++ padding (length message))).words
unfolding sha256 digest
sha256-padding message =
    let n = length message in
    ap hex_words (
      ap last_words (update-feed fresh message (omega arith))
      ∙ last_words-feed (feed fresh message) n (feed-IsPartial fresh message (omega arith))
          (feed-Counts fresh message 0 n (omega arith) (omega arith, omega arith))
      ∙ ap (λ t. t.words) (sym (feed-append fresh message (padding n))))
