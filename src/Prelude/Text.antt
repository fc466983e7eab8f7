-- ===== src/Prelude/Text.antt =====
-- What the program uses of `std::string`, `std::to_string`, `std::stoi` and stream extraction, over
-- texts as lists of bytes. `read_int` is the scan that `stoi`, `stoll` and `>>` share: white space,
-- a sign, then as many digits as there are.
pub mod Decimal
pub mod Words
pub mod Search
use Prim.Native.Char.{code}
use distributed_file_grid.Prelude.{
  ℕ, zero, suc, ◌+◌, ◌-◌, ◌*◌, ◌/◌, ◌%◌, ◌^◌, ◌≡◌, refl, String, Bool, true, false, ◌&&◌, ◌||◌,
  List, [], ◌∷◌, ◌++◌, Option, none, some, ltb, leb, ◌==◌, if◌then◌else◌, take, drop,
}
use distributed_file_grid.Prelude.Int.{ℤ, pos, negsuc}
use distributed_file_grid.Prelude.Key.{Bytes}

-- The bytes of an ASCII literal.
abbrev pub str : String → Bytes
str String.[] = []
str (String.◌∷◌ c s) = code c ∷ str s

-- `isspace` in the C locale
abbrev pub is_space : ℕ → Bool
is_space c = c == 32 || (leb 9 c && leb c 13)

abbrev pub is_digit : ℕ → Bool
is_digit c = leb 48 c && leb c 57

-- The decimal digits of `n`; `n + 1` rounds are enough.
unfoldable pub digits : ℕ → ℕ → Bytes
digits zero n = []
digits (suc f) n =
    let high = digits f (n / 10) in if ltb n 10 then (48 + n) ∷ [] else high ++ (48 + n % 10) ∷ []

unfoldable pub to_string : ℕ → Bytes
unfolding digits
to_string n = digits (suc n) n

unfoldable pub int_to_string : ℤ → Bytes
unfolding to_string
int_to_string (pos n) = to_string n
int_to_string (negsuc n) = b'-' ∷ to_string (suc n)

unfoldable pub skip_ws : Bytes → Bytes
skip_ws [] = []
skip_ws (c ∷ s) = if is_space c then skip_ws s else c ∷ s

unfoldable pub scan_digits : ℕ → Bytes → ℕ × Bytes
scan_digits acc [] = (acc, [])
scan_digits acc (c ∷ s) =
    let rest = scan_digits (acc * 10 + (c - 48)) s in if is_digit c then rest else (acc, c ∷ s)

abbrev pub head_is_digit : Bytes → Bool
head_is_digit [] = false
head_is_digit (c ∷ s) = is_digit c

-- A magnitude that does not fit is an error.
abbrev fit_pos : ℕ → ℕ × Bytes → Option (ℤ × Bytes)
fit_pos limit (n, rest) = if ltb n limit then some (pos n, rest) else none

abbrev fit_neg : ℕ → ℕ × Bytes → Option (ℤ × Bytes)
fit_neg limit (zero, rest) = some (pos 0, rest)
fit_neg limit (suc n, rest) = if ltb n limit then some (negsuc n, rest) else none

read_unsigned : (ℕ × Bytes → Option (ℤ × Bytes)) → Bytes → Option (ℤ × Bytes)
read_unsigned fit s = if head_is_digit s then fit (scan_digits 0 s) else none

read_signed : ℕ → Bytes → Option (ℤ × Bytes)
read_signed limit [] = none
read_signed limit (c ∷ s) =
    if c == b'-'
    then read_unsigned (fit_neg limit) s
    else if c == b'+'
    then read_unsigned (fit_pos limit) s
    else read_unsigned (fit_pos limit) (c ∷ s)

-- The values of the type lie in [-limit, limit).
unfoldable pub read_int : ℕ → Bytes → Option (ℤ × Bytes)
unfolding skip_ws scan_digits read_unsigned read_signed
read_int limit s = read_signed limit (skip_ws s)

abbrev pub int_limit : ℕ
int_limit = 2 ^ 31

abbrev pub long_limit : ℕ
long_limit = 2 ^ 63

abbrev first {ℓ κ} : {A : Type ℓ} {B : Type κ} → Option (A × B) → Option A
first none = none
first (some (a, b)) = some a

-- `none` stands for the exception.
unfoldable pub stoi : Bytes → Option ℤ
unfolding read_int
stoi s = first (read_int int_limit s)

unfoldable pub stoll : Bytes → Option ℤ
unfolding read_int
stoll s = first (read_int long_limit s)

-- s.find(c)
unfoldable pub find_char : ℕ → Bytes → Option ℕ
find_char c [] = none
find_char c (x ∷ s) =
    if x == c then some 0 else elim (find_char c s) [ none ↦ none | some i ↦ some (suc i) ]

-- s.rfind(p, 0) == 0
unfoldable pub starts_with : Bytes → Bytes → Bool
starts_with [] s = true
starts_with (p ∷ ps) [] = false
starts_with (p ∷ ps) (c ∷ s) = if p == c then starts_with ps s else false

-- s.find(p)
unfoldable pub find_sub : Bytes → Bytes → Option ℕ
unfolding starts_with
find_sub p [] = if starts_with p [] then some 0 else none
find_sub p (c ∷ s) =
    if starts_with p (c ∷ s)
    then some 0
    else elim (find_sub p s) [ none ↦ none | some i ↦ some (suc i) ]

-- s.find(p) != npos
unfoldable pub contains : Bytes → Bytes → Bool
unfolding find_sub
contains p msg = elim (find_sub p msg) [ none ↦ false | some i ↦ true ]

-- s.substr(a, n)
abbrev pub substr : ℕ → ℕ → Bytes → Bytes
substr a n s = take n (drop a s)

abbrev pub word_of : Bytes → Bytes
word_of [] = []
word_of (c ∷ s) = if is_space c then [] else c ∷ word_of s

abbrev pub after_word : Bytes → Bytes
after_word [] = []
after_word (c ∷ s) = if is_space c then c ∷ s else after_word s

abbrev pick : Bytes → Option (Bytes × Bytes)
pick [] = none
pick (c ∷ s) = some (word_of (c ∷ s), after_word (c ∷ s))

-- in >> word: `none` when the stream fails
unfoldable pub read_word : Bytes → Option (Bytes × Bytes)
unfolding skip_ws
read_word s = pick (skip_ws s)

to_string_test : (to_string 64038 ≡ str "64038") × (int_to_string (negsuc 6) ≡ str "-7")
unfolding int_to_string
to_string_test = (refl, refl)

stoi_test :
    (stoi (str " 42x") ≡ some (pos 42))
    × (stoi (str "-7") ≡ some (negsuc 6))
    × (stoi (str "/1") ≡ none)
    × (stoi (str "2147483648") ≡ none)
unfolding stoi
stoi_test = (refl, refl, refl, refl)
