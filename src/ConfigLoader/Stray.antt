-- ===== src/ConfigLoader/Stray.antt =====
-- A closing brace in an array stops the parser of src/common/include/dfg/config_loader.hpp for good.
use distributed_file_grid.Prelude.{ℕ, zero, suc, ◌≡◌, refl, [], ◌∷◌, none}
use distributed_file_grid.Prelude.Key.{Bytes, bytes_key, ℤ_key}
use distributed_file_grid.Prelude.Map.{Map, insert, values}
use distributed_file_grid.ConfigLoader.Parser.{
  array, continue, round, skip_blanks, value_round, parse_items, elem_key,
}

stray_round :
    (prefix : Bytes) (index : ℕ) (rest : Bytes) (values : Map Bytes Bytes)
    → round (array prefix index) values (skip_blanks (125 ∷ rest))
      ≡ continue (array prefix (suc index)) (125 ∷ rest) (insert (elem_key prefix index) [] values)
unfolding round skip_blanks value_round
stray_round prefix index rest values = refl

-- At a closing brace in an array no fuel is enough: the parser does not return.
pub array-stray :
    (fuel : ℕ) (prefix : Bytes) (index : ℕ) (rest : Bytes) (values : Map Bytes Bytes)
    → parse_items fuel (array prefix index) (125 ∷ rest) values ≡ none
unfolding parse_items
array-stray zero prefix index rest values = refl
array-stray (suc fuel) prefix index rest values =
    array-stray fuel prefix (suc index) rest (insert (elem_key prefix index) [] values)
