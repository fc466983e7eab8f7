-- ===== src/Address/Tests.antt =====
-- Runs of `parse_address`, and the round trip at a registered server.
use distributed_file_grid.Prelude.{◌≡◌, refl, arith}
use distributed_file_grid.Prelude.Int.{pos}
use distributed_file_grid.Prelude.Key.{bytes_key, ℤ_key}
use distributed_file_grid.Prelude.Text.{str}
use distributed_file_grid.Address.{
  parse_address, format_address, parse_address-format_address, default_port,
}

parse_address_runs :
    (parse_address (str "10.0.0.7:9001") default_port ≡ (str "10.0.0.7", pos 9001))
    × (parse_address (str "node") default_port ≡ (str "node", pos 8080))
    × (parse_address (str "node:http") default_port ≡ (str "node", pos 8080))
unfolding parse_address
parse_address_runs = (refl, refl, refl)

parse_address-format_address_example :
    parse_address (format_address (str "10.0.0.7") (pos 8081)) default_port
    ≡ (str "10.0.0.7", pos 8081)
parse_address-format_address_example =
    parse_address-format_address (str "10.0.0.7") 8081 default_port
      (refl, (refl, (refl, (refl, (refl, (refl, (refl, (refl, tt)))))))) (omega arith)
