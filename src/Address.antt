-- ===== src/Address.antt =====
-- `parse_address` of src/common/include/dfg/net_utils.hpp and `ServerEntry::address` of
-- src/common/include/dfg/server_registry.hpp: "host:port" texts.
pub mod Tests
use distributed_file_grid.Prelude.{
  ℕ, zero, suc, ◌+◌, ◌-◌, ◌*◌, ◌/◌, ◌%◌, ◌^◌, ◌≤◌, ◌<◌, ◌≡◌, refl, sym, ◌∙◌, ap, subst, ◌≢◌, ◌↔◌,
  ◌⊎◌, inl, inr, Bool, true, false, ◌&&◌, ◌||◌, not, List, [], ◌∷◌, ◌++◌, map, Option, none, some,
  arith, ltb, leb, ◌==◌, if◌then◌else◌, Bool-cases, Option-cases, &&-true, lt→ltb, ltb→lt, leb→le,
  ==_iff, Bool_eq_of_iff, length, take, drop, replicate, get_or, keep, count_if, any, find_if, All,
  length-append, length-take, length-drop, length-replicate, take-append-drop, All-append, All-keep,
  All-mono, count_if-append, count_if-le-length, All-keep_test, String,
}
use distributed_file_grid.Prelude.Int.{ℤ, pos, negsuc, ltb_ℤ, eqb_ℤ}
use distributed_file_grid.Prelude.Key.{
  Key, Bytes, bytes_eq, bytes_lt, bytes_eq_iff, bytes_key, ℤ_key, eqb_ℤ_iff,
}
use distributed_file_grid.Prelude.Map.{
  Map, find, insert, erase, member, find_or, keys, values, find-insert, find-erase, same_refl,
  All-insert, All-erase, All-find,
}
use distributed_file_grid.Prelude.Text.{
  str, is_space, is_digit, digits, to_string, int_to_string, skip_ws, scan_digits, read_int,
  int_limit, long_limit, stoi, stoll, find_char, starts_with, find_sub, substr, word_of, after_word,
  read_word,
}
use distributed_file_grid.Prelude.Text.Decimal.{stoi-to_string}

abbrev pub colon : ℕ
colon = b':'

-- host + ":" + std::to_string(port)
unfoldable pub format_address : Bytes → ℤ → Bytes
unfolding int_to_string
format_address host port = host ++ (colon ∷ int_to_string port)

abbrev port_or : ℤ → Option ℤ → ℤ
port_or d none = d
port_or d (some p) = p

abbrev split_at : Bytes → ℤ → Option ℕ → Bytes × ℤ
split_at address d none = (address, d)
split_at address d (some i) = (take i address, port_or d (stoi (drop (suc i) address)))

-- The host and the port; the port is the default where there is none, or where it is no number.
unfoldable pub parse_address : Bytes → ℤ → Bytes × ℤ
unfolding find_char stoi
parse_address address default_port = split_at address default_port (find_char colon address)

-- The port that callers give no default for.
abbrev pub default_port : ℤ
default_port = pos 8080

find_char-append :
    (c : ℕ) (s rest : Bytes)
    → All (λ d. (d == c) ≡ false) s
    → find_char c (s ++ (c ∷ rest)) ≡ some (length s)
unfolding find_char
find_char-append c [] rest h = ground arith
find_char-append c (x ∷ s) rest h = rw h.0 (rw (find_char-append c s rest h.1))

take-length-append : (s rest : Bytes) → take (length s) (s ++ rest) ≡ s
take-length-append [] rest = refl
take-length-append (x ∷ s) rest = ap (◌∷◌ x) (take-length-append s rest)

drop-length-append : (s rest : Bytes) (c : ℕ) → drop (suc (length s)) (s ++ (c ∷ rest)) ≡ rest
drop-length-append [] rest c = refl
drop-length-append (x ∷ s) rest c = drop-length-append s rest c

-- An address that the registry prints is parsed back to its host and port, if the host has no colon
-- and the port is a non-negative int.
pub parse_address-format_address :
    (host : Bytes) (port : ℕ) (d : ℤ)
    → All (λ c. (c == colon) ≡ false) host
    → port < int_limit
    → parse_address (format_address host (pos port)) d ≡ (host, pos port)
unfolding parse_address format_address
parse_address-format_address host port d h small =
    rw (find_char-append colon host (to_string port) h) (
      rw (
        take-length-append host (colon ∷ to_string port),
        drop-length-append host (to_string port) colon,
        stoi-to_string port small,
      ))
