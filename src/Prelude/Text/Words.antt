-- ===== src/Prelude/Text/Words.antt =====
-- Words of a line: what stream extraction returns for a line written with separating blanks.
use distributed_file_grid.Prelude.{
  ℕ, ◌≡◌, refl, ap, Bool, true, false, [], ◌∷◌, ◌++◌, some, arith, All,
}
use distributed_file_grid.Prelude.Key.{Bytes, bytes_key, ℤ_key}
use distributed_file_grid.Prelude.Text.{is_space, skip_ws, read_int, word_of, after_word, read_word}

-- A text that `>>` reads back whole.
abbrev pub IsWord : Bytes → Type 0
IsWord [] = ⊥
IsWord (c ∷ s) = All (λ d. is_space d ≡ false) (c ∷ s)

abbrev pub starts_blank : Bytes → Bool
starts_blank [] = true
starts_blank (c ∷ s) = is_space c

word_of-append :
    (w rest : Bytes)
    → All (λ d. is_space d ≡ false) w
    → starts_blank rest ≡ true
    → (word_of (w ++ rest) ≡ w) × (after_word (w ++ rest) ≡ rest)
word_of-append [] [] h b = (refl, refl)
word_of-append [] (c ∷ s) h b = (rw b, rw b)
word_of-append (c ∷ w) rest h b =
    let ih = word_of-append w rest h.1 b in (rw h.0 (ap (◌∷◌ c) ih.0), rw h.0 ih.1)

skip_ws-word : (c : ℕ) (s : Bytes) → is_space c ≡ false → skip_ws (c ∷ s) ≡ c ∷ s
unfolding skip_ws
skip_ws-word c s h = rw h

-- `>>` stops at the first blank.
pub read_word-append :
    (w rest : Bytes) → IsWord w → starts_blank rest ≡ true → read_word (w ++ rest) ≡ some (w, rest)
unfolding read_word
read_word-append [] rest h b = absurd h
read_word-append (c ∷ w) rest h b =
    rw (skip_ws-word c (w ++ rest) h.0)
      (ground (arith, (word_of-append (c ∷ w) rest h b).0, (word_of-append (c ∷ w) rest h b).1))

-- A leading blank is skipped.
pub read_word-blank : (s : Bytes) → read_word (32 ∷ s) ≡ read_word s
unfolding read_word skip_ws
read_word-blank s = refl

pub read_int-blank : (limit : ℕ) (s : Bytes) → read_int limit (32 ∷ s) ≡ read_int limit s
unfolding read_int skip_ws
read_int-blank limit s = refl
