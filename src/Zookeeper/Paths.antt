-- ===== src/Zookeeper/Paths.antt =====
-- The paths of src/common/src/zookeeper_client.cpp.
use distributed_file_grid.Prelude.{
  ℕ, zero, suc, ◌-◌, ◌≡◌, refl, Bool, [], ◌∷◌, ◌++◌, Option, none, some, ◌==◌, if◌then◌else◌,
  length, take, drop, replicate,
}
use distributed_file_grid.Prelude.Key.{Bytes, bytes_eq, bytes_key, ℤ_key}
use distributed_file_grid.Prelude.Text.{str, to_string}

abbrev slash : ℕ
slash = b'/'

abbrev strip_one : ℕ → Bytes → Bytes
strip_one c [] = if c == slash then [] else c ∷ []
strip_one c (x ∷ s) = c ∷ x ∷ s

-- The text without its trailing slashes.
unfoldable pub strip : Bytes → Bytes
strip [] = []
strip (c ∷ s) = strip_one c (strip s)

-- The first slash stays, since a path of one byte is not shortened.
unfoldable pub normalize_path : Bytes → Bytes
unfolding strip
normalize_path [] = slash ∷ []
normalize_path (c ∷ s) = slash ∷ (if c == slash then strip s else strip (c ∷ s))

-- path.find_last_of(c)
unfoldable pub find_last : ℕ → Bytes → Option ℕ
find_last c [] = none
find_last c (x ∷ s) = elim (find_last c s) [
  | none ↦ if x == c then some 0 else none
  | some i ↦ some (suc i)
]

abbrev parent_at : Bytes → Option ℕ → Bytes
parent_at path none = path
parent_at path (some zero) = slash ∷ []
parent_at path (some (suc i)) = take (suc i) path

abbrev child_at : Bytes → Option ℕ → Bytes
child_at path none = path
child_at path (some i) = drop (suc i) path

abbrev is_root : Bytes → Bool
is_root path = bytes_eq path (slash ∷ [])

unfoldable pub parent_path : Bytes → Bytes
unfolding find_last
parent_path path = if is_root path then [] else parent_at path (find_last slash path)

unfoldable pub child_name : Bytes → Bytes
unfolding find_last
child_name path = if is_root path then slash ∷ [] else child_at path (find_last slash path)

-- The path, an underscore and the number in ten digits at least.
unfoldable pub sequence_path : Bytes → ℕ → Bytes
sequence_path path seq =
    path ++ (b'_' ∷ (replicate (10 - length (to_string seq)) b'0' ++ to_string seq))

paths_test :
    (normalize_path (str "a/b//") ≡ str "/a/b")
    × (parent_path (str "/a/b") ≡ str "/a")
    × (child_name (str "/a/b") ≡ str "b")
    × (parent_path (str "/a") ≡ str "/")
    × (sequence_path (str "/a/n") 7 ≡ str "/a/n_0000000007")
unfolding normalize_path parent_path child_name sequence_path bytes_eq to_string
paths_test = (refl, refl, refl, refl, refl)
