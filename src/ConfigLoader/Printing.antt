-- ===== src/ConfigLoader/Printing.antt =====
-- The parser of src/common/include/dfg/config_loader.hpp reads back what a printer writes.
use distributed_file_grid.Prelude.{
  ℕ, zero, suc, ◌+◌, ◌≤◌, ◌<◌, ◌≡◌, refl, ◌∙◌, ap, subst, inl, inr, Bool, true, false, ◌||◌, [],
  ◌∷◌, some, arith, ◌==◌, if◌then◌else◌, Bool-cases,
}
use distributed_file_grid.Prelude.Key.{Bytes, bytes_key, ℤ_key}
use distributed_file_grid.Prelude.Map.{Map, insert}
use distributed_file_grid.Prelude.Text.{to_string}
use distributed_file_grid.ConfigLoader.Parser.{
  quote, backslash, string_body, parse_string_token, value_round, Container, object, array,
  full_key, elem_key, finish, continue, nest, round, skip_blanks, run, then_parse, parse_items,
  is_blank, strip_comment,
}
use distributed_file_grid.Metadata.{is_empty}

-- The entries of a container: texts, objects and arrays under their keys. An array has no use for the
-- keys.
pub data Entries : Type 0 where
  no_more : Entries
  text : Bytes → Bytes → Entries → Entries
  inner_object : Bytes → Entries → Entries → Entries
  inner_array : Bytes → Entries → Entries → Entries

abbrev pub is_special : ℕ → Bool
is_special c = c == quote || c == backslash

-- A text with its escapes, before what follows.
abbrev pub escape : Bytes → Bytes → Bytes
escape [] rest = rest
escape (c ∷ v) rest = if is_special c then backslash ∷ c ∷ escape v rest else c ∷ escape v rest

abbrev pub quoted : Bytes → Bytes → Bytes
quoted v rest = quote ∷ escape v (quote ∷ rest)

-- A comma, unless it is the end.
abbrev pub separate : Entries → Bytes → Bytes
separate no_more s = s
separate (text k v t) s = 44 ∷ s
separate (inner_object k e t) s = 44 ∷ s
separate (inner_array k e t) s = 44 ∷ s

abbrev label : Bool → Bytes → Bytes → Bytes
label true k s = quoted k (58 ∷ s)
label false k s = s

-- The entries of an object (true) or an array, its closing byte, and what follows.
unfoldable pub print : Bool → Entries → Bytes → Bytes
print b no_more rest = (if b then 125 else 93) ∷ rest
print b (text k v t) rest = label b k (quoted v (separate t (print b t rest)))
print b (inner_object k e t) rest = label b k (123 ∷ print true e (separate t (print b t rest)))
print b (inner_array k e t) rest = label b k (91 ∷ print false e (separate t (print b t rest)))

abbrev pub is_object : Container → Bool
is_object (object prefix) = true
is_object (array prefix index) = false

abbrev dotted_key : Container → Bytes → Bytes
dotted_key (object prefix) k = full_key prefix k
dotted_key (array prefix index) k = elem_key prefix index

abbrev after : Container → Container
after (object prefix) = object prefix
after (array prefix index) = array prefix (suc index)

-- The values under their dotted keys.
unfoldable pub flatten : Container → Entries → Map Bytes Bytes → Map Bytes Bytes
unfolding to_string
flatten c no_more m = m
flatten c (text k v t) m = flatten (after c) t (insert (dotted_key c k) v m)
flatten c (inner_object k e t) m = flatten (after c) t (flatten (object (dotted_key c k)) e m)
flatten c (inner_array k e t) m = flatten (after c) t (flatten (array (dotted_key c k) 0) e m)

-- No key is empty.
abbrev pub IsKeyed : Entries → Type 0
IsKeyed no_more = Unit {0}
IsKeyed (text k v t) = (is_empty k ≡ false) × IsKeyed t
IsKeyed (inner_object k e t) = (is_empty k ≡ false) × (IsKeyed e × IsKeyed t)
IsKeyed (inner_array k e t) = (is_empty k ≡ false) × (IsKeyed e × IsKeyed t)

-- The rounds that the parser needs: one for each entry, comma and end.
unfoldable pub size : Entries → ℕ
size no_more = 1
size (text k v t) = 2 + size t
size (inner_object k e t) = 2 + (size e + size t)
size (inner_array k e t) = 2 + (size e + size t)

string_body-escape : (v rest : Bytes) → string_body false (escape v (quote ∷ rest)) ≡ (v, rest)
unfolding string_body
string_body-escape [] rest = refl
string_body-escape (c ∷ v) rest = elim (Bool-cases (is_special c)) [
  | inl e ↦ rw (e, string_body-escape v rest) refl
  | inr e ↦
      let no_quote : (c == quote) ≡ false = ground arith in
      let no_backslash : (c == backslash) ≡ false = ground arith in
      rw (e, no_quote, no_backslash, string_body-escape v rest) refl
]

parse_string_token-quoted : (v rest : Bytes) → parse_string_token (quoted v rest) ≡ (v, rest)
unfolding parse_string_token
parse_string_token-quoted v rest = string_body-escape v rest

value_round-quoted :
    (key : Bytes) (strip : Bytes → Bytes) (k : Container) (m : Map Bytes Bytes) (v rest : Bytes)
    → value_round key strip k m quote (escape v (quote ∷ rest)) ≡ continue k rest (insert key v m)
unfolding value_round
value_round-quoted key strip k m v rest = rw (parse_string_token-quoted v rest) refl

-- A key of an object and the value that follows it.
key_round-quoted :
    (prefix k : Bytes) (m : Map Bytes Bytes) (c : ℕ) (s : Bytes)
    → is_empty k ≡ false
    → is_blank c ≡ false
    → round (object prefix) m (quoted k (58 ∷ c ∷ s))
      ≡ value_round (full_key prefix k) strip_comment (object prefix) m c s
unfolding round
key_round-quoted prefix [] m c s h b = cc
key_round-quoted prefix (a ∷ k) m c s h b =
    rw (parse_string_token-quoted (a ∷ k) (58 ∷ c ∷ s), b) refl

-- The first bytes of a value.
abbrev opens_value : ℕ → Bool
opens_value c = c == quote || c == 123 || c == 91

strip_of : Container → Bytes → Bytes
strip_of (object prefix) = strip_comment
strip_of (array prefix index) = λ value. value

-- The round for an entry reaches its value.
round-label :
    (k : Container) (key : Bytes) (m : Map Bytes Bytes) (c : ℕ) (s : Bytes)
    → is_empty key ≡ false
    → opens_value c ≡ true
    → round k m (skip_blanks (label (is_object k) key (c ∷ s)))
      ≡ value_round (dotted_key k key) (strip_of k) (after k) m c s
unfolding round strip_of skip_blanks
round-label (object prefix) key m c s h b = key_round-quoted prefix key m c s h (ground arith)
round-label (array prefix index) key m c s h b =
    let not_blank : is_blank c ≡ false = ground arith in
    let no_end : (c == 93) ≡ false = ground arith in
    let no_comma : (c == 44) ≡ false = ground arith in rw (not_blank, no_end, no_comma) refl

round-end :
    (k : Container) (m : Map Bytes Bytes) (rest : Bytes)
    → round k m (skip_blanks (print (is_object k) no_more rest)) ≡ finish m rest
unfolding round skip_blanks print
round-end (object prefix) m rest = refl
round-end (array prefix index) m rest = refl

round-comma :
    (k : Container) (m : Map Bytes Bytes) (s : Bytes)
    → round k m (skip_blanks (44 ∷ s)) ≡ continue k s m
unfolding round skip_blanks
round-comma (object prefix) m s = refl
round-comma (array prefix index) m s = refl

round-text :
    (k : Container) (key v : Bytes) (m : Map Bytes Bytes) (s : Bytes)
    → is_empty key ≡ false
    → round k m (skip_blanks (label (is_object k) key (quoted v s)))
      ≡ continue (after k) s (insert (dotted_key k key) v m)
round-text k key v m s h =
    round-label k key m quote (escape v (quote ∷ s)) h refl
    ∙ value_round-quoted (dotted_key k key) (strip_of k) (after k) m v s

round-object :
    (k : Container) (key : Bytes) (m : Map Bytes Bytes) (s : Bytes)
    → is_empty key ≡ false
    → round k m (skip_blanks (label (is_object k) key (123 ∷ s)))
      ≡ nest (object (dotted_key k key)) s (after k) m
unfolding value_round
round-object k key m s h = round-label k key m 123 s h refl ∙ refl

round-array :
    (k : Container) (key : Bytes) (m : Map Bytes Bytes) (s : Bytes)
    → is_empty key ≡ false
    → round k m (skip_blanks (label (is_object k) key (91 ∷ s)))
      ≡ nest (array (dotted_key k key) 0) s (after k) m
unfolding value_round
round-array k key m s h = round-label k key m 91 s h refl ∙ refl

is_object-after : (k : Container) → is_object (after k) ≡ is_object k
is_object-after (object prefix) = refl
is_object-after (array prefix index) = refl

-- With fuel for its rounds, the parser gives this for the entries of the container.
abbrev Parses : ℕ → Container → Entries → Type 0
Parses fuel k t =
    (rest : Bytes) (m : Map Bytes Bytes)
    → parse_items fuel k (print (is_object k) t rest) m ≡ some (flatten k t m, rest)

separate-Parses :
    (fuel : ℕ) (k : Container) (t : Entries) (rest : Bytes) (m : Map Bytes Bytes)
    → Parses fuel k t
    → Parses (suc fuel) k t
    → parse_items (suc fuel) k (separate t (print (is_object k) t rest)) m
      ≡ some (flatten k t m, rest)
unfolding parse_items
separate-Parses fuel k no_more rest m p q = q rest m
separate-Parses fuel k (text key v t) rest m p q =
    ap (run (parse_items fuel)) (round-comma k m (print (is_object k) (text key v t) rest))
    ∙ p rest m
separate-Parses fuel k (inner_object key e t) rest m p q =
    ap (run (parse_items fuel)) (round-comma k m (print (is_object k) (inner_object key e t) rest))
    ∙ p rest m
separate-Parses fuel k (inner_array key e t) rest m p q =
    ap (run (parse_items fuel)) (round-comma k m (print (is_object k) (inner_array key e t) rest))
    ∙ p rest m

-- A comma costs one round more, and the end has none.
rest-Parses :
    (fuel : ℕ) (k : Container) (t : Entries) (rest : Bytes) (m : Map Bytes Bytes)
    → Parses fuel (after k) t
    → Parses (suc fuel) (after k) t
    → parse_items (suc fuel) (after k) (separate t (print (is_object k) t rest)) m
      ≡ some (flatten (after k) t m, rest)
rest-Parses fuel k t rest m p q =
    subst
      (λ b.
        parse_items (suc fuel) (after k) (separate t (print b t rest)) m
        ≡ some (flatten (after k) t m, rest))
      (is_object-after k) (separate-Parses fuel (after k) t rest m p q)

size-pos : (t : Entries) → 0 < size t
unfolding size
size-pos no_more = omega arith
size-pos (text k v t) = omega arith
size-pos (inner_object k e t) = omega arith
size-pos (inner_array k e t) = omega arith

-- A printed container is read back whole, with the fuel that it needs.
pub parse_items-print :
    (fuel : ℕ) (k : Container) (t : Entries) (rest : Bytes) (m : Map Bytes Bytes)
    → IsKeyed t
    → size t ≤ fuel
    → parse_items fuel k (print (is_object k) t rest) m ≡ some (flatten k t m, rest)
unfolding parse_items print flatten size
parse_items-print zero k t rest m h l = absurd (omega (arith, size-pos t))
parse_items-print (suc fuel) k no_more rest m h l = ap (run (parse_items fuel)) (round-end k m rest)
parse_items-print (suc zero) k (text key v t) rest m h l = absurd (omega arith)
parse_items-print (suc zero) k (inner_object key e t) rest m h l = absurd (omega arith)
parse_items-print (suc zero) k (inner_array key e t) rest m h l = absurd (omega arith)
parse_items-print (suc (suc fuel)) k (text key v t) rest m h l =
    ap (run (parse_items (suc fuel)))
      (round-text k key v m (separate t (print (is_object k) t rest)) h.0)
    ∙ rest-Parses fuel k t rest (insert (dotted_key k key) v m)
        (λ r n. parse_items-print fuel (after k) t r n h.1 (omega arith))
        (λ r n. parse_items-print (suc fuel) (after k) t r n h.1 (omega arith))
parse_items-print (suc (suc fuel)) k (inner_object key e t) rest m h l =
    let others = separate t (print (is_object k) t rest) in
    let inner = object (dotted_key k key) in
    ap (run (parse_items (suc fuel))) (round-object k key m (print true e others) h.0)
    ∙ ap (then_parse (parse_items (suc fuel) (after k)))
        (parse_items-print (suc fuel) inner e others m h.1.0 (omega arith))
    ∙ rest-Parses fuel k t rest (flatten inner e m)
        (λ r n. parse_items-print fuel (after k) t r n h.1.1 (omega arith))
        (λ r n. parse_items-print (suc fuel) (after k) t r n h.1.1 (omega arith))
parse_items-print (suc (suc fuel)) k (inner_array key e t) rest m h l =
    let others = separate t (print (is_object k) t rest) in
    let inner = array (dotted_key k key) 0 in
    ap (run (parse_items (suc fuel))) (round-array k key m (print false e others) h.0)
    ∙ ap (then_parse (parse_items (suc fuel) (after k)))
        (parse_items-print (suc fuel) inner e others m h.1.0 (omega arith))
    ∙ rest-Parses fuel k t rest (flatten inner e m)
        (λ r n. parse_items-print fuel (after k) t r n h.1.1 (omega arith))
        (λ r n. parse_items-print (suc fuel) (after k) t r n h.1.1 (omega arith))
