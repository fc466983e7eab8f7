-- ===== src/ConfigLoader/Tests.antt =====
-- The configuration at concrete files.
use distributed_file_grid.Prelude.{◌≡◌, refl, true, false, [], ◌∷◌, Option, none, some, arith}
use distributed_file_grid.Prelude.Int.{pos}
use distributed_file_grid.Prelude.Key.{Bytes, bytes_eq, bytes_lt, bytes_key, ℤ_key}
use distributed_file_grid.Prelude.Map.{Map, find, insert}
use distributed_file_grid.Prelude.Text.{str, to_string}
use distributed_file_grid.ConfigLoader.{
  ConfigLoader, override, or_default, get_string, get_cluster_servers, load, reload,
}
use distributed_file_grid.ConfigLoader.Parser.{object, array, parse_items, parse_json}
use distributed_file_grid.ConfigLoader.Printing.{
  size, Entries, no_more, text, inner_object, inner_array, print, flatten,
}
use distributed_file_grid.ConfigLoader.Stray.{array-stray}
use distributed_file_grid.ConfigLoader.Reload.{lost, reload-lost, load-print}

-- { "server": { "port": "9669" }, "cluster_servers": [{ "host": "a" }] }
abbrev sample : Entries
sample = inner_object (str "server") (text (str "port") (str "9669") no_more) (
    inner_array (str "cluster_servers")
      (inner_object (str "0") (text (str "host") (str "a") no_more) no_more) no_more)

abbrev sample_values : Map Bytes Bytes
sample_values = (str "cluster_servers.0.host", str "a") ∷ (str "server.port", str "9669") ∷ []

abbrev unloaded : ConfigLoader
unloaded = record { values = []; filepath = []; loaded = false }

abbrev sample_config : ConfigLoader
sample_config = record { values = sample_values; filepath = str "c.json"; loaded = true }

abbrev no_variables : Bytes → Option Bytes
no_variables name = none

flatten_test : flatten (object []) sample [] ≡ sample_values
unfolding flatten insert to_string bytes_eq bytes_lt
flatten_test = refl

load-print_example :
    load 20 unloaded (str "c.json") (some (123 ∷ print true sample []))
    ≡ some (
      record { values = flatten (object []) sample []; filepath = str "c.json"; loaded = true },
      true,
    )
unfolding size
load-print_example =
    load-print 20 unloaded (str "c.json") sample (str "cluster_servers.0.host", str "a")
      ((str "server.port", str "9669") ∷ [])
      (refl, ((refl, tt), (refl, ((refl, ((refl, tt), tt)), tt)))) (omega arith) flatten_test

array-stray_example : parse_items 1000 (array (str "a") 0) (125 ∷ str "]}") [] ≡ none
array-stray_example = array-stray 1000 (str "a") 0 (str "]}") []

reload-lost_example :
    (reload 9 sample_config none ≡ some (lost, false))
    × (reload 9 lost (some (str "{}")) ≡ some (lost, false))
    × (get_string no_variables lost (str "server.port") (str "1")
        ≡ or_default (str "1") (override no_variables (str "server.port")))
reload-lost_example =
    reload-lost 9 9 sample_config (some (str "{}")) no_variables (str "server.port") (str "1") refl

servers_test :
    get_cluster_servers no_variables sample_config
    ≡ record { id = pos 1; host = str "a"; port = pos 8080 } ∷ []
unfolding get_cluster_servers find
servers_test = refl

comment_test : parse_json 9 (str "{\"a\": 5 // five\n}") [] [] ≡ some ((str "a", str "5") ∷ [])
unfolding parse_json insert
comment_test = refl
