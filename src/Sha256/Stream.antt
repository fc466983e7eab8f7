-- ===== src/Sha256/Stream.antt =====
-- The hash byte by byte, which `update` computes block by block.
use distributed_file_grid.Prelude.{
  ℕ, zero, suc, ◌+◌, ◌-◌, ◌≤◌, ◌<◌, ◌≡◌, refl, sym, ◌∙◌, ap, subst, inl, inr, true, false, [], ◌∷◌,
  ◌++◌, arith, ltb, leb, ◌==◌, if◌then◌else◌, Bool-cases, ltb→lt, leb→le, ==_iff, length, take,
  drop, length-append, length-take, length-drop, length-zero, take-append-drop,
}
use distributed_file_grid.Prelude.Key.{Bytes, bytes_key, ℤ_key}
use mathlib.Core.List.{append_assoc, append-nil}
use distributed_file_grid.Sha256.{Sha, block, whole_blocks, update}

-- A byte goes to the buffer, and a full buffer is transformed.
abbrev pub push : Sha → ℕ → Sha
push s b =
    let filled = s.buffer ++ (b ∷ []) in
    if length filled == 64 then block s filled else record s { buffer = filled }

unfoldable pub feed : Sha → Bytes → Sha
feed s [] = s
feed s (b ∷ rest) = feed (push s b) rest

-- The buffer is not full between two calls.
abbrev pub IsPartial : Sha → Type 0
IsPartial s = length s.buffer < 64

push-IsPartial : (s : Sha) (b : ℕ) → IsPartial s → IsPartial (push s b)
unfolding block
push-IsPartial s b h = ground (arith, length-append s.buffer (b ∷ []))

pub feed-IsPartial : (s : Sha) (input : Bytes) → IsPartial s → IsPartial (feed s input)
unfolding feed
feed-IsPartial s [] h = h
feed-IsPartial s (b ∷ rest) h = feed-IsPartial (push s b) rest (push-IsPartial s b h)

pub feed-append : (s : Sha) (xs ys : Bytes) → feed s (xs ++ ys) ≡ feed (feed s xs) ys
unfolding feed
feed-append s [] ys = refl
feed-append s (x ∷ xs) ys = feed-append (push s x) xs ys

-- Bytes that do not fill the buffer.
pub feed_short :
    (s : Sha) (input : Bytes)
    → length s.buffer + length input < 64
    → feed s input ≡ record s { buffer = s.buffer ++ input }
unfolding feed
feed_short s [] h = ap (λ b. record s { buffer = b }) (sym (append-nil s.buffer))
feed_short s (x ∷ xs) h =
    let open_still : (length (s.buffer ++ (x ∷ [])) == 64) ≡ false =
      ground (arith, length-append s.buffer (x ∷ [])) in
    rw open_still (
      feed_short (record s { buffer = s.buffer ++ (x ∷ []) }) xs
        (ground (arith, length-append s.buffer (x ∷ [])))
      ∙ ap (λ b. record s { buffer = b }) (append_assoc s.buffer (x ∷ []) xs))

feed_from :
    (s : Sha) (x : ℕ) (input : Bytes)
    → length s.buffer + suc (length input) ≡ 64
    → feed s (x ∷ input) ≡ block s (s.buffer ++ (x ∷ input))
unfolding feed block
feed_from s x [] h =
    let closes : (length (s.buffer ++ (x ∷ [])) == 64) ≡ true =
      ground (arith, length-append s.buffer (x ∷ [])) in
    rw closes refl
feed_from s x (y ∷ ys) h =
    let open_still : (length (s.buffer ++ (x ∷ [])) == 64) ≡ false =
      ground (arith, length-append s.buffer (x ∷ [])) in
    rw open_still (
      feed_from (record s { buffer = s.buffer ++ (x ∷ []) }) y ys
        (ground (arith, length-append s.buffer (x ∷ [])))
      ∙ ap (block s) (append_assoc s.buffer (x ∷ []) (y ∷ ys)))

-- Bytes that fill it exactly.
pub feed_full :
    (s : Sha) (input : Bytes)
    → length s.buffer + length input ≡ 64
    → 0 < length input
    → feed s input ≡ block s (s.buffer ++ input)
feed_full s [] h some_left = absurd (omega arith)
feed_full s (x ∷ xs) h some_left = feed_from s x xs h

-- The bytes that complete the buffer, then the others.
feed_split :
    (s : Sha) (k : ℕ) (input : Bytes)
    → length s.buffer + k ≡ 64
    → 0 < k
    → k ≤ length input
    → feed (block s (s.buffer ++ take k input)) (drop k input) ≡ feed s input
feed_split s k input h some_left le =
    let size : length (take k input) ≡ k = omega (arith, length-take k input) in
    ap (λ t. feed t (drop k input)) (sym (feed_full s (take k input) (omega arith) (omega arith)))
    ∙ sym (feed-append s (take k input) (drop k input))
    ∙ ap (feed s) (take-append-drop k input)

-- Bytes that go to an empty buffer.
feed_into_empty :
    (s : Sha) (input : Bytes)
    → s.buffer ≡ []
    → length input < 64
    → record s { buffer = input } ≡ feed s input
feed_into_empty s input e h =
    sym (
      feed_short s input (omega (arith, ap length e))
      ∙ ap (λ b. record s { buffer = b ++ input }) e)

-- Enough fuel is given for all blocks.
whole_blocks-feed :
    (fuel : ℕ) (s : Sha) (input : Bytes)
    → length input ≤ fuel
    → s.buffer ≡ []
    → whole_blocks fuel s input ≡ feed s input
unfolding whole_blocks block
whole_blocks-feed zero s input h e =
    let none_left : input ≡ [] = length-zero input (omega arith) in
    rw none_left (feed_into_empty s [] e (omega arith))
whole_blocks-feed (suc fuel) s input h e = elim (Bool-cases (leb 64 (length input))) [
  | inl c ↦
      let many : 64 ≤ length input = leb→le _ _ c in
      let empty_buffer : length s.buffer ≡ 0 = ap length e in
      let less : length (drop 64 input) ≤ fuel = omega (arith, length-drop 64 input) in
      rw (c, whole_blocks)
        (whole_blocks-feed fuel (block s (take 64 input)) (drop 64 input) less refl
          ∙ ap (λ b. feed (block s (b ++ take 64 input)) (drop 64 input)) (sym e)
          ∙ feed_split s 64 input (omega arith) (omega arith) many)
  | inr c ↦ rw (c, whole_blocks) (feed_into_empty s input e (ground arith))
]

pub update-feed : (s : Sha) (input : Bytes) → IsPartial s → update s input ≡ feed s input
unfolding update feed block
update-feed s [] h = refl
update-feed s (x ∷ xs) h =
    let input : Bytes = x ∷ xs in
    let to_fill = 64 - length s.buffer in
    elim (Bool-cases (length s.buffer == 0)) [
      | inl e ↦ rw e (
          whole_blocks-feed (length input) s input (omega arith)
            (length-zero s.buffer ((==_iff _ _).0 e)))
      | inr e ↦ rw e (elim (Bool-cases (ltb (length input) to_fill)) [
        | inl c ↦
            let few : length input < to_fill = ltb→lt _ _ c in
            rw c (sym (feed_short s input (omega arith)))
        | inr c ↦
            let many : to_fill ≤ length input = ground arith in
            let less : length (drop to_fill input) ≤ length input =
              omega (arith, length-drop to_fill input) in
            rw c (
              whole_blocks-feed (length input) (block s (s.buffer ++ take to_fill input))
                (drop to_fill input) less refl
              ∙ feed_split s to_fill input (omega arith) (omega arith) many)
      ])
    ]

pub update-IsPartial : (s : Sha) (input : Bytes) → IsPartial s → IsPartial (update s input)
update-IsPartial s input h =
    subst IsPartial (sym (update-feed s input h)) (feed-IsPartial s input h)

-- While the buffer has fewer than 64 bytes, hashing two pieces one after the other is hashing them
-- at once, and the buffer has fewer than 64 bytes after the first.
pub update-update :
    (s : Sha) (xs ys : Bytes)
    → IsPartial s
    → (update (update s xs) ys ≡ update s (xs ++ ys)) × IsPartial (update s xs)
update-update s xs ys h = (
  update-feed (update s xs) ys (update-IsPartial s xs h)
      ∙ ap (λ t. feed t ys) (update-feed s xs h)
      ∙ sym (feed-append s xs ys)
      ∙ sym (update-feed s (xs ++ ys) h),
  update-IsPartial s xs h,
)
