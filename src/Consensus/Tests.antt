-- ===== src/Consensus/Tests.antt =====
-- The vote with one other head server.
use distributed_file_grid.Prelude.{
  ℕ, ◌≡◌, refl, inr, Bool, true, false, not, [], ◌∷◌, Option, some, take,
}
use distributed_file_grid.Prelude.Int.{ℤ, pos}
use distributed_file_grid.Prelude.Key.{Bytes, bytes_key, ℤ_key}
use distributed_file_grid.Prelude.Map.{find}
use distributed_file_grid.Prelude.Text.{str, to_string}
use distributed_file_grid.ConfigLoader.{HeadServerEntry}
use distributed_file_grid.ControlApi.{Control}
use distributed_file_grid.ControlApi.Routes.{handle_request}
use distributed_file_grid.Health.Detection.{new_monitor}
use distributed_file_grid.Registry.{empty}
use distributed_file_grid.Zookeeper.{initial}
use distributed_file_grid.Consensus.{
  PeerHead, alive_in_zookeeper, peer_heads, verify_cluster_server_dead_consensus,
}
use distributed_file_grid.Consensus.Peers.{AnswersAsHead, verify-alive}

abbrev other_head : HeadServerEntry
other_head = record {
  id = str "head_server_2";
  host = str "10.0.0.9";
  port = pos 9669;
  control_port = pos 9671;
}

peers_test :
    peer_heads initial (pos 9670) (other_head ∷ [])
    ≡ record { host = str "10.0.0.9"; control_port = pos 9671 } ∷ []
unfolding peer_heads find
peers_test = refl

abbrev no_servers : Control ℕ
no_servers = record { registry = empty; health = new_monitor 60 3 true true }

abbrev down : Bytes → ℤ → Bool
down host port = false

abbrev answer : PeerHead → Bytes → Option Bytes
answer peer req = some (take 1023 (handle_request 0 to_string down no_servers 7 req).response)

answers : AnswersAsHead 0 to_string down answer
answers peer req = inr (no_servers, 7, refl)

verify-alive_example :
    verify_cluster_server_dead_consensus answer initial (other_head ∷ []) 1000 (pos 1) (pos 9670)
    ≡ not (alive_in_zookeeper initial 1000 (pos 1))
verify-alive_example =
    verify-alive 0 to_string down answer initial (other_head ∷ []) 1000 (pos 1) (pos 9670) answers
