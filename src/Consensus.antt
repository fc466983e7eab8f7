-- ===== src/Consensus.antt =====
-- The vote on a silent cluster server in src/head_server/head_server.cpp,
-- `verify_cluster_server_dead_consensus`, which asks ZooKeeper and then the other head servers over their
-- control API. What these answer is an argument.
pub mod Peers
pub mod Tests
use distributed_file_grid.Prelude.{
  ℕ, zero, suc, ◌+◌, ◌-◌, ◌*◌, ◌/◌, ◌%◌, ◌^◌, ◌≤◌, ◌<◌, ◌≡◌, refl, sym, ◌∙◌, ap, subst, ◌≢◌, ◌↔◌,
  ◌⊎◌, inl, inr, Bool, true, false, ◌&&◌, ◌||◌, not, List, [], ◌∷◌, ◌++◌, map, Option, none, some,
  arith, ltb, leb, ◌==◌, if◌then◌else◌, Bool-cases, Option-cases, &&-true, lt→ltb, ltb→lt, leb→le,
  ==_iff, Bool_eq_of_iff, length, take, drop, replicate, get_or, keep, count_if, any, find_if, All,
  length-append, length-take, length-drop, length-replicate, length-zero, take-append-drop,
  All-append, All-keep, All-mono, count_if-append, count_if-le-length, All-keep_test, String,
}
use distributed_file_grid.Prelude.Int.{ℤ, pos, negsuc, ltb_ℤ, eqb_ℤ}
use distributed_file_grid.Prelude.Key.{
  Key, Bytes, bytes_eq, bytes_lt, bytes_eq_iff, bytes_key, ℤ_key, eqb_ℤ_iff,
}
use distributed_file_grid.Prelude.Map.{
  Map, find, insert, erase, member, find_or, keys, values, find-insert, find-erase, same_refl,
  All-insert, All-erase, All-find,
}
use distributed_file_grid.Prelude.Text.{
  str, is_space, is_digit, digits, to_string, int_to_string, skip_ws, scan_digits, read_int,
  int_limit, long_limit, stoi, stoll, find_char, starts_with, find_sub, contains, substr, word_of,
  after_word, read_word,
}
use distributed_file_grid.Address.{parse_address, default_port}
use distributed_file_grid.ConfigLoader.{HeadServerEntry}
use distributed_file_grid.Metadata.{is_empty}
use distributed_file_grid.Registry.{ServerEntry, address}
use distributed_file_grid.Zookeeper.{Tree, node_exists, get_node_data, get_children}

abbrev pub znode : ℤ → Bytes
znode server_id = str "/dfg/cluster_servers/server_" ++ int_to_string server_id

-- now - last < 30
abbrev is_fresh : ℕ → ℤ → Bool
is_fresh now (pos last) = ltb now (last + 30)
is_fresh now (negsuc last) = ltb (now + suc last) 30

-- A time that cannot be read is no sign of life.
abbrev timestamp_fresh : ℕ → Option ℤ → Bool
timestamp_fresh now none = false
timestamp_fresh now (some last) = is_fresh now last

-- The data of a node: a fresh timestamp, or none at all, speaks for the server.
abbrev data_alive : ℕ → Bytes → Option ℕ → Bool
data_alive now zk_data none = true
data_alive now zk_data (some i) = timestamp_fresh now (stoll (drop (i + 11) zk_data))

-- ZooKeeper is always reached: its client connects in any case.
unfoldable pub alive_in_zookeeper : Tree → ℕ → ℤ → Bool
unfolding node_exists get_node_data find_sub stoll int_to_string
alive_in_zookeeper t now server_id =
    let zk_data = get_node_data t (znode server_id) in
    if node_exists t (znode server_id)
    then data_alive now zk_data (find_sub (str "|timestamp:") zk_data)
    else false

pub record PeerHead : Type 0 where
  pub host : Bytes
  pub control_port : ℤ

-- The other head servers that ZooKeeper knows.
unfoldable pub registered_peers : Tree → ℤ → List Bytes → List PeerHead
unfolding get_node_data parse_address
registered_peers t our_control_port [] = []
registered_peers t our_control_port (child ∷ rest) =
    let pdata = get_node_data t (str "/dfg/head_servers/" ++ child) in
    let (phost, pport) = parse_address pdata default_port in
    let others = registered_peers t our_control_port rest in
    if not (is_empty pdata) && (ltb_ℤ (pos 0) pport && not (eqb_ℤ pport our_control_port))
    then record { host = phost; control_port = pport } ∷ others
    else others

abbrev is_peer : HeadServerEntry → PeerHead → Bool
is_peer entry p = bytes_eq p.host entry.host && eqb_ℤ p.control_port entry.control_port

-- Those of the configuration are added behind them.
unfoldable pub configured_peers : ℤ → List PeerHead → List HeadServerEntry → List PeerHead
unfolding bytes_eq
configured_peers our_control_port peers [] = peers
configured_peers our_control_port peers (entry ∷ rest) =
    let added = peers ++ (record { host = entry.host; control_port = entry.control_port } ∷ []) in
    let peers' =
      if eqb_ℤ entry.control_port our_control_port || any (is_peer entry) peers
      then peers
      else added in
    configured_peers our_control_port peers' rest

unfoldable pub peer_heads : Tree → ℤ → List HeadServerEntry → List PeerHead
unfolding registered_peers configured_peers node_exists get_children
peer_heads t our_control_port cfg_heads =
    let known =
      if node_exists t (str "/dfg/head_servers")
      then registered_peers t our_control_port (get_children t (str "/dfg/head_servers"))
      else [] in
    configured_peers our_control_port known cfg_heads

unfoldable pub health_request : ℤ → Bytes → Bytes
unfolding int_to_string
health_request server_id host =
    str "GET /api/v1/servers/cluster/"
    ++ (int_to_string server_id
        ++ (str "/health HTTP/1.1\r\nHost: " ++ (host ++ str "\r\nConnection: close\r\n\r\n")))

abbrev pub says_healthy : Bytes → Bool
says_healthy resp =
    contains (str "\"healthy\":true") resp || contains (str "\"healthy\": true") resp

-- No answer is no veto.
abbrev pub vetoes : Option Bytes → Bool
vetoes none = false
vetoes (some resp) = says_healthy resp

-- What one ::recv of 1023 bytes gets from a peer for a request, none where there is no connection or
-- nothing comes.
module _ (ask : PeerHead → Bytes → Option Bytes) where
  unfoldable pub any_veto : ℤ → List PeerHead → Bool
  unfolding contains health_request
  any_veto server_id [] = false
  any_veto server_id (peer ∷ rest) =
      if vetoes (ask peer (health_request server_id peer.host))
      then true
      else any_veto server_id rest

  unfoldable pub verify_cluster_server_dead_consensus :
      Tree → List HeadServerEntry → ℕ → ℤ → ℤ → Bool
  unfolding alive_in_zookeeper peer_heads any_veto
  verify_cluster_server_dead_consensus t cfg_heads now server_id our_control_port =
      if alive_in_zookeeper t now server_id
      then false
      else not (any_veto server_id (peer_heads t our_control_port cfg_heads))
