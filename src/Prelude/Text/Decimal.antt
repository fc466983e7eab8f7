-- ===== src/Prelude/Text/Decimal.antt =====
-- Printing a number and scanning it again.
use distributed_file_grid.Prelude.{
  ℕ, zero, suc, ◌+◌, ◌/◌, ◌%◌, ◌<◌, ◌≡◌, refl, sym, ◌∙◌, ap, inl, inr, true, false, [], ◌∷◌, ◌++◌,
  some, arith, ltb, Bool-cases, lt→ltb, All, All-append,
}
use distributed_file_grid.Prelude.Int.{pos}
use distributed_file_grid.Prelude.Key.{Bytes, bytes_key, ℤ_key}
use distributed_file_grid.Prelude.Text.{
  is_space, is_digit, digits, to_string, scan_digits, read_int, int_limit, long_limit, stoi, stoll,
  head_is_digit, fit_pos,
}
use mathlib.Core.List.{append_assoc, append-nil}

scan_digits-digits :
    (f n : ℕ) (rest : Bytes) → n < f → scan_digits 0 (digits f n ++ rest) ≡ scan_digits n rest
unfolding digits scan_digits
scan_digits-digits zero n rest h = elim h [ ]
scan_digits-digits (suc f) n rest h = elim (Bool-cases (ltb n 10)) [
  | inl e ↦ rw e (ground arith)
  | inr e ↦
      rw (e, append_assoc (digits f (n / 10)))
        (scan_digits-digits f (n / 10) ((48 + n % 10) ∷ rest) (ground arith) ∙ ground arith)
]

-- The first digit, which is there.
digits-head : (f n : ℕ) → n < f → (c : ℕ) × (s : Bytes) × (digits f n ≡ c ∷ s) × (is_digit c ≡ true)
unfolding digits
digits-head zero n h = elim h [ ]
digits-head (suc f) n h = elim (Bool-cases (ltb n 10)) [
  | inl e ↦ (48 + n, [], rw e, ground arith)
  | inr e ↦
      let (c, s, eq, d) = digits-head f (n / 10) (ground arith) in
      (c, s ++ (48 + n % 10) ∷ [], rw (e, eq), d)
]

scan_digits-stop :
    (n : ℕ) (rest : Bytes) → head_is_digit rest ≡ false → scan_digits n rest ≡ (n, rest)
unfolding scan_digits
scan_digits-stop n [] h = refl
scan_digits-stop n (c ∷ s) h = rw h

-- What follows a digit is read as a number without a sign.
read_int-digit :
    (limit c : ℕ) (s : Bytes)
    → is_digit c ≡ true
    → read_int limit (c ∷ s) ≡ fit_pos limit (scan_digits 0 (c ∷ s))
unfolding read_int
read_int-digit limit c s d = ground arith

-- A printed number is read back, up to a text that starts with no digit.
pub read_int-to_string :
    (limit n : ℕ) (rest : Bytes)
    → n < limit
    → head_is_digit rest ≡ false
    → read_int limit (to_string n ++ rest) ≡ some (pos n, rest)
unfolding to_string
read_int-to_string limit n rest small stop =
    let (c, s, eq, d) = digits-head (suc n) n (omega arith) in
    let scanned : scan_digits 0 (digits (suc n) n ++ rest) ≡ (n, rest) =
      scan_digits-digits (suc n) n rest (omega arith) ∙ scan_digits-stop n rest stop in
    rw eq (
      read_int-digit limit c (s ++ rest) d
      ∙ ap (fit_pos limit) (ap (λ t. scan_digits 0 (t ++ rest)) (sym eq) ∙ scanned)
      ∙ rw (lt→ltb n limit small))

pub stoi-to_string : (n : ℕ) → n < int_limit → stoi (to_string n) ≡ some (pos n)
unfolding stoi
stoi-to_string n h = rw (← append-nil (to_string n), read_int-to_string int_limit n [] h refl)

digit-not-space : (c : ℕ) → is_digit c ≡ true → is_space c ≡ false
digit-not-space c h = ground arith

digits-not-space : (f n : ℕ) → All (λ c. is_space c ≡ false) (digits f n)
unfolding digits
digits-not-space zero n = tt
digits-not-space (suc f) n = elim (Bool-cases (ltb n 10)) [
  | inl e ↦ rw e (ground arith, tt)
  | inr e ↦ rw e (
      All-append (λ c. is_space c ≡ false) (digits f (n / 10)) ((48 + n % 10) ∷ [])
        (digits-not-space f (n / 10)) (ground arith, tt))
]

-- A printed number is one word, which starts with a digit.
pub to_string-not-space : (n : ℕ) → All (λ c. is_space c ≡ false) (to_string n)
unfolding to_string
to_string-not-space n = digits-not-space (suc n) n

pub to_string-head : (n : ℕ) → (c : ℕ) × (s : Bytes) × (to_string n ≡ c ∷ s) × (is_digit c ≡ true)
unfolding to_string
to_string-head n = digits-head (suc n) n (omega arith)

pub stoll-to_string : (n : ℕ) → n < long_limit → stoll (to_string n) ≡ some (pos n)
unfolding stoll
stoll-to_string n h = rw (← append-nil (to_string n), read_int-to_string long_limit n [] h refl)
