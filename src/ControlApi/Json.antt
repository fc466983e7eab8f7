-- ===== src/ControlApi/Json.antt =====
-- `extract_json_string` and `extract_json_int` of src/head_server/control_api.hpp. A position in the
-- text is modelled by what follows it.
use distributed_file_grid.Prelude.{
  ℕ, ◌≡◌, refl, ◌||◌, [], ◌∷◌, ◌++◌, Option, none, some, ◌==◌, if◌then◌else◌, take, drop,
}
use distributed_file_grid.Prelude.Int.{ℤ, pos}
use distributed_file_grid.Prelude.Key.{Bytes, bytes_key, ℤ_key}
use distributed_file_grid.Prelude.Text.{str, stoi, find_char, find_sub}

-- json.find(search)
unfoldable pub from_sub : Bytes → Bytes → Option Bytes
unfolding find_sub
from_sub search json = elim (find_sub search json) [ none ↦ none | some i ↦ some (drop i json) ]

-- json.find(c, pos)
unfoldable pub from_char : ℕ → Bytes → Option Bytes
from_char c [] = none
from_char c (x ∷ s) = if x == c then some (x ∷ s) else from_char c s

abbrev quoted : Bytes → Bytes
quoted key = b'"' ∷ (key ++ str "\"")

abbrev pub quote : ℕ
quote = b'"'

-- What stands before the closing quote.
abbrev until_quote : Bytes → Option Bytes
until_quote s = elim (find_char quote s) [ none ↦ none | some n ↦ some (take n s) ]

abbrev ◌>>=◌ {ℓ κ} : {A : Type ℓ} {B : Type κ} → Option A → (A → Option B) → Option B
◌>>=◌ none f = none
◌>>=◌ (some x) f = f x

abbrev or_empty : Option Bytes → Bytes
or_empty none = []
or_empty (some s) = s

unfoldable pub extract_json_string : Bytes → Bytes → Bytes
unfolding from_sub from_char find_char
extract_json_string json key = or_empty (do
  found ← from_sub (quoted key) json
  colon ← from_char b':' found
  opening ← from_char quote colon
  until_quote (drop 1 opening))

abbrev skip_blanks : Bytes → Bytes
skip_blanks [] = []
skip_blanks (c ∷ s) = if c == b' ' || c == b'\t' then skip_blanks s else c ∷ s

abbrev or_zero : Option ℤ → ℤ
or_zero none = pos 0
or_zero (some n) = n

unfoldable pub extract_json_int : Bytes → Bytes → ℤ
unfolding from_sub from_char stoi
extract_json_int json key = or_zero (do
  found ← from_sub (quoted key) json
  colon ← from_char b':' found
  stoi (skip_blanks (drop 1 colon)))

json_test :
    (extract_json_string (str "{\"host\":\"10.0.0.4\",\"port\": 8080}") (str "host")
      ≡ str "10.0.0.4")
    × (extract_json_int (str "{\"host\":\"10.0.0.4\",\"port\": 8080}") (str "port") ≡ pos 8080)
    × (extract_json_int (str "{\"host\":\"10.0.0.4\"}") (str "port") ≡ pos 0)
unfolding extract_json_string extract_json_int
json_test = (refl, refl, refl)
