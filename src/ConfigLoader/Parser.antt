-- ===== src/ConfigLoader/Parser.antt =====
-- The parser of src/common/include/dfg/config_loader.hpp. A position in the text is what follows it. The
-- loops of `parse_object` and `parse_array` take fuel, one unit for each round, and are `none` where it
-- does not suffice; a nested container gets what is left.
use distributed_file_grid.Prelude.{
  ℕ, zero, suc, Bool, true, false, ◌||◌, [], ◌∷◌, ◌++◌, Option, none, some, ◌==◌, if◌then◌else◌,
  take, drop,
}
use distributed_file_grid.Prelude.Key.{Bytes, bytes_key, ℤ_key}
use distributed_file_grid.Prelude.Map.{Map, insert, values}
use distributed_file_grid.Prelude.Text.{str, to_string, find_sub}

abbrev pub is_blank : ℕ → Bool
is_blank c = c == 32 || c == 9 || c == 13 || c == 10

unfoldable pub skip_blanks : Bytes → Bytes
skip_blanks [] = []
skip_blanks (c ∷ s) = if is_blank c then skip_blanks s else c ∷ s

-- The text after the last byte that is no blank is cut off.
unfoldable pub drop_blank_end : Bytes → Bytes
drop_blank_end [] = []
drop_blank_end (c ∷ s) = elim (drop_blank_end s) [
  | [] ↦ if is_blank c then [] else c ∷ []
  | d ∷ t ↦ c ∷ d ∷ t
]

unfoldable pub trim : Bytes → Bytes
unfolding skip_blanks drop_blank_end
trim s = drop_blank_end (skip_blanks s)

abbrev pub quote : ℕ
quote = 34

abbrev pub backslash : ℕ
backslash = 92

abbrev prepend : ℕ → Bytes × Bytes → Bytes × Bytes
prepend c (token, rest) = (c ∷ token, rest)

-- After the opening quote, or after a backslash there: the text of the token, and what follows its
-- closing quote. A backslash at the end of the text stands for itself.
unfoldable pub string_body : Bool → Bytes → Bytes × Bytes
string_body false [] = ([], [])
string_body true [] = (backslash ∷ [], [])
string_body true (c ∷ s) = prepend c (string_body false s)
string_body false (c ∷ s) =
    let escaped = string_body true s in
    let plain = string_body false s in
    if c == quote then ([], s) else if c == backslash then escaped else prepend c plain

unfoldable pub parse_string_token : Bytes → Bytes × Bytes
unfolding string_body
parse_string_token [] = ([], [])
parse_string_token (c ∷ s) = if c == quote then string_body false s else ([], c ∷ s)

-- , } ] and the ends of lines
abbrev pub ends_value : ℕ → Bool
ends_value c = c == 44 || c == 125 || c == 93 || c == 10 || c == 13

unfoldable pub value_body : Bytes → Bytes × Bytes
value_body [] = ([], [])
value_body (c ∷ s) = let more = value_body s in if ends_value c then ([], c ∷ s) else prepend c more

unfoldable pub parse_value_token : Bytes → Bytes × Bytes
unfolding value_body trim
parse_value_token s = let (token, rest) = value_body s in (trim token, rest)

-- Without an inline comment.
unfoldable pub strip_comment : Bytes → Bytes
unfolding find_sub trim
strip_comment value = elim (find_sub (str "//") value) [
  | none ↦ value
  | some i ↦ trim (take i value)
]

-- What is being read: an object under its prefix, or an array with its next index.
pub data Container : Type 0 where
  object : Bytes → Container
  array : Bytes → ℕ → Container

abbrev pub full_key : Bytes → Bytes → Bytes
full_key [] key = key
full_key (c ∷ prefix) key = (c ∷ prefix) ++ (46 ∷ key)

abbrev pub elem_key : Bytes → ℕ → Bytes
elem_key prefix index = prefix ++ (46 ∷ to_string index)

-- After the key and the blanks that follow it.
abbrev pub skip_colon : Bytes → Bytes
skip_colon [] = []
skip_colon (c ∷ s) = if c == 58 then s else c ∷ s

-- One round of a loop: the container ends, the loop goes on, or it does so after a nested container.
pub data Round : Type 0 where
  finish : Map Bytes Bytes → Bytes → Round
  continue : Container → Bytes → Map Bytes Bytes → Round
  nest : Container → Bytes → Container → Map Bytes Bytes → Round

-- A value that starts with the byte c, stored under its key; `after` is the container that goes on.
unfoldable pub value_round :
    Bytes → (Bytes → Bytes) → Container → Map Bytes Bytes → ℕ → Bytes → Round
unfolding parse_string_token parse_value_token
value_round key strip after values c s =
    let (token, after_token) = parse_string_token (c ∷ s) in
    let (value, after_value) = parse_value_token (c ∷ s) in
    if c == 123
    then nest (object key) s after values
    else if c == 91
    then nest (array key 0) s after values
    else if c == quote
    then continue after after_token (insert key token values)
    else continue after after_value (insert key (strip value) values)

-- What follows a key and its colon.
abbrev pub keyed_round : Bytes → Bytes → Map Bytes Bytes → Bytes → Round
keyed_round prefix key values [] = finish values []
keyed_round prefix key values (c ∷ s) =
    value_round (full_key prefix key) strip_comment (object prefix) values c s

-- A key, or a byte that is no key and is skipped.
unfoldable pub key_round : Bytes → Map Bytes Bytes → Bytes × Bytes → Round
unfolding value_round skip_blanks strip_comment
key_round prefix values ([], rest) = continue (object prefix) (drop 1 rest) values
key_round prefix values (k ∷ key, rest) =
    keyed_round prefix (k ∷ key) values (skip_blanks (skip_colon (skip_blanks rest)))

-- A round, after the blanks are skipped.
unfoldable pub round : Container → Map Bytes Bytes → Bytes → Round
unfolding key_round value_round parse_string_token to_string
round k values [] = finish values []
round (object prefix) values (c ∷ s) =
    if c == 125
    then finish values s
    else if c == 44
    then continue (object prefix) s values
    else key_round prefix values (parse_string_token (c ∷ s))
round (array prefix index) values (c ∷ s) =
    if c == 93
    then finish values s
    else if c == 44
    then continue (array prefix index) s values
    else value_round (elem_key prefix index) (λ value. value) (array prefix (suc index)) values c s

abbrev pub Result : Type 0
Result = Option (Map Bytes Bytes × Bytes)

abbrev pub then_parse : (Bytes → Map Bytes Bytes → Result) → Result → Result
then_parse next none = none
then_parse next (some (values, rest)) = next rest values

-- What a round leads to, with the parser for the rounds after it.
abbrev pub run : (Container → Bytes → Map Bytes Bytes → Result) → Round → Result
run parse (finish values rest) = some (values, rest)
run parse (continue k rest values) = parse k rest values
run parse (nest inner text after values) = then_parse (parse after) (parse inner text values)

unfoldable pub parse_items : ℕ → Container → Bytes → Map Bytes Bytes → Result
unfolding round skip_blanks
parse_items zero k s values = none
parse_items (suc fuel) k s values = run (parse_items fuel) (round k values (skip_blanks s))

abbrev pub values_of : Result → Option (Map Bytes Bytes)
values_of none = none
values_of (some (values, rest)) = some values

-- Only the outermost container is read.
abbrev parse_outermost : ℕ → Bytes → Map Bytes Bytes → Bytes → Option (Map Bytes Bytes)
parse_outermost fuel prefix values [] = some values
parse_outermost fuel prefix values (c ∷ s) = elim (c == 123) [
  | true ↦ values_of (parse_items fuel (object prefix) s values)
  | false ↦ elim (c == 91) [
    | true ↦ values_of (parse_items fuel (array prefix 0) s values)
    | false ↦ some values
  ]
]

unfoldable pub parse_json : ℕ → Bytes → Bytes → Map Bytes Bytes → Option (Map Bytes Bytes)
unfolding parse_items skip_blanks
parse_json fuel json prefix values = parse_outermost fuel prefix values (skip_blanks json)
