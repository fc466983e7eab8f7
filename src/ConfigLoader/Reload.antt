-- ===== src/ConfigLoader/Reload.antt =====
-- Loading a printed file, and what a failed reload costs, in src/common/include/dfg/config_loader.hpp.
use distributed_file_grid.Prelude.{
  ℕ, ◌≤◌, ◌≡◌, refl, ◌∙◌, ap, true, false, [], ◌∷◌, Option, none, some,
}
use distributed_file_grid.Prelude.Key.{Bytes, bytes_key, ℤ_key}
use distributed_file_grid.Prelude.Map.{Map, find}
use distributed_file_grid.ConfigLoader.{
  load, ConfigLoader, starts_object, take_values, override, or_default, or_else, get_string, reload,
}
use distributed_file_grid.ConfigLoader.Parser.{
  object, trim, skip_blanks, drop_blank_end, values_of, parse_items, parse_json,
}
use distributed_file_grid.ConfigLoader.Printing.{
  Entries, IsKeyed, size, print, flatten, parse_items-print,
}
use distributed_file_grid.Metadata.{is_empty}

abbrev pub lost : ConfigLoader
lost = record { values = []; filepath = []; loaded = false }

keep : (d : Bytes) (o : Option Bytes) → or_default d (or_else o none) ≡ or_default d o
keep d none = refl
keep d (some v) = refl

-- A reload of a configuration that has a path, when the file cannot be opened, forgets all values
-- and the path: every later reload fails, whatever the file, and a key has the value of the
-- environment or the default.
pub reload-lost :
    (fuel fuel' : ℕ) (cfg : ConfigLoader) (file : Option Bytes) (env : Bytes → Option Bytes)
    (key default_val : Bytes)
    → is_empty cfg.filepath ≡ false
    → (reload fuel cfg none ≡ some (lost, false))
      × (reload fuel' lost file ≡ some (lost, false))
      × (get_string env lost key default_val ≡ or_default default_val (override env key))
unfolding reload get_string find
reload-lost fuel fuel' cfg file env key default_val h =
    (rw h refl, refl, keep default_val (override env key))

starts_object-trim : (s : Bytes) → starts_object (trim (123 ∷ s)) ≡ true
unfolding trim skip_blanks drop_blank_end
starts_object-trim s = go (drop_blank_end s)
  where
    go : (t : Bytes) → starts_object (elim t [ [] ↦ 123 ∷ [] | d ∷ u ↦ 123 ∷ d ∷ u ]) ≡ true
    go [] = refl
    go (d ∷ u) = refl

parse_json-object :
    (fuel : ℕ) (s : Bytes)
    → parse_json fuel (123 ∷ s) [] [] ≡ values_of (parse_items fuel (object []) s [])
unfolding parse_json skip_blanks
parse_json-object fuel s = refl

load-object :
    (fuel : ℕ) (cfg : ConfigLoader) (path s : Bytes)
    → load fuel cfg path (some (123 ∷ s)) ≡ take_values cfg path (parse_json fuel (123 ∷ s) [] [])
unfolding load
load-object fuel cfg path s = rw (starts_object-trim s) refl

-- A file that holds a printed object, with escapes, nested objects and arrays and no empty key, is
-- loaded with the values under their dotted keys, if there is any, and fuel for one round for each
-- entry, comma and end.
pub load-print :
    (fuel : ℕ) (cfg : ConfigLoader) (path : Bytes) (t : Entries) (e : Bytes × Bytes)
    (es : Map Bytes Bytes)
    → IsKeyed t
    → size t ≤ fuel
    → flatten (object []) t [] ≡ e ∷ es
    → load fuel cfg path (some (123 ∷ print true t []))
      ≡ some (record { values = flatten (object []) t []; filepath = path; loaded = true }, true)
load-print fuel cfg path t e es keyed enough found =
    load-object fuel cfg path (print true t [])
    ∙ ap (take_values cfg path) (
        parse_json-object fuel (print true t [])
        ∙ ap values_of (parse_items-print fuel (object []) t [] [] keyed enough))
    ∙ rw found refl
