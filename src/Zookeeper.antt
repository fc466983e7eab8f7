-- ===== src/Zookeeper.antt =====
-- The in-memory `ZooKeeperClient` of src/common/src/zookeeper_client.cpp: the tree of nodes that all
-- clients of a process share, and the connection state of one client. An operation returns the new
-- tree, the return code and what the watch callback is told.
pub mod Paths
pub mod Nodes
pub mod Tests
use distributed_file_grid.Prelude.{
  ℕ, zero, suc, ◌+◌, ◌-◌, ◌*◌, ◌/◌, ◌%◌, ◌^◌, ◌≤◌, ◌<◌, ◌≡◌, refl, sym, ◌∙◌, ap, subst, ◌≢◌, ◌↔◌,
  ◌⊎◌, inl, inr, Bool, true, false, ◌&&◌, ◌||◌, not, List, [], ◌∷◌, ◌++◌, map, Option, none, some,
  arith, ltb, leb, ◌==◌, if◌then◌else◌, Bool-cases, Option-cases, &&-true, lt→ltb, ltb→lt, leb→le,
  ==_iff, Bool_eq_of_iff, length, take, drop, replicate, get_or, keep, count_if, any, find_if, All,
  length-append, length-take, length-drop, length-replicate, take-append-drop, All-append, All-keep,
  All-mono, count_if-append, count_if-le-length, All-keep_test, String,
}
use distributed_file_grid.Prelude.Int.{ℤ, pos, negsuc, ltb_ℤ, eqb_ℤ}
use distributed_file_grid.Prelude.Key.{
  Key, Bytes, bytes_eq, bytes_lt, bytes_eq_iff, bytes_key, ℤ_key, eqb_ℤ_iff,
}
use distributed_file_grid.Prelude.Map.{
  Map, find, insert, erase, member, find_or, keys, values, find-insert, find-erase, same_refl,
  All-insert, All-erase, All-find,
}
use distributed_file_grid.Prelude.Text.{
  str, is_space, is_digit, digits, to_string, int_to_string, skip_ws, scan_digits, read_int,
  int_limit, long_limit, stoi, stoll, find_char, starts_with, find_sub, substr, word_of, after_word,
  read_word,
}
use distributed_file_grid.Zookeeper.Paths.{normalize_path, parent_path, child_name, sequence_path}
use distributed_file_grid.Metadata.{is_empty}

pub record Node : Type 0 where
  pub content : Bytes
  pub ephemeral : Bool
  pub version : ℕ
  pub children : Map Bytes (Unit {0})

abbrev pub new_node : Node
new_node = record { content = []; ephemeral = false; version = 0; children = [] }

pub record Tree : Type 0 where
  pub nodes : Map Bytes Node
  pub counters : Map Bytes ℕ

abbrev pub initial : Tree
initial = record { nodes = (b'/' ∷ [], new_node) ∷ []; counters = [] }

pub record Client : Type 0 where
  pub hosts : Bytes
  pub connected : Bool

-- What the watch callback is told: a type, a state and a path.
pub record Event : Type 0 where
  pub event_type : ℤ
  pub state : ℤ
  pub path : Bytes

abbrev pub created_event : ℤ
created_event = pos 1

abbrev pub deleted_event : ℤ
deleted_event = pos 2

abbrev pub changed_event : ℤ
changed_event = pos 3

abbrev connecting_state : ℤ
connecting_state = pos 1

abbrev pub connected_state : ℤ
connected_state = pos 3

abbrev expired_session_state : ℤ
expired_session_state = negsuc 111

abbrev pub ok : ℤ
ok = pos 0

abbrev pub node_exists_code : ℤ
node_exists_code = negsuc 109

abbrev pub no_node : ℤ
no_node = negsuc 100

abbrev pub invalid_state : ℤ
invalid_state = negsuc 111

unfoldable pub connect : Client → Client × Option Event
connect c = if c.connected then (c, none) else (
  record c { connected = true },
  some (record { event_type = created_event; state = connected_state; path = c.hosts }),
)

unfoldable pub disconnect : Client → Client × Option Event
disconnect c =
    if c.connected
    then (
      record c { connected = false },
      some (record { event_type = deleted_event; state = expired_session_state; path = c.hosts }),
    )
    else (c, none)

unfoldable pub get_state : Client → ℤ
get_state c = if c.connected then connected_state else connecting_state

pub record Outcome : Type 0 where
  pub tree : Tree
  pub code : ℤ
  pub event : Option Event

abbrev pub refused : Tree → ℤ → Outcome
refused t code = record { tree = t; code = code; event = none }

abbrev told : ℤ → Bytes → Option Event
told event_type path =
    some (record { event_type = event_type; state = connected_state; path = path })

-- nodes[parent].children.insert(child_name(path)), unless there is no parent
abbrev pub with_child : Bytes → Bytes → Map Bytes Node → Map Bytes Node
with_child parent child nodes =
    if is_empty parent
    then nodes
    else (let node = find_or new_node parent nodes in
        insert parent (record node { children = insert child tt node.children }) nodes)

-- nodes[parent].children.erase(child_name(path)), unless there is no parent
abbrev pub without_child : Bytes → Bytes → Map Bytes Node → Map Bytes Node
without_child parent child nodes =
    if is_empty parent
    then nodes
    else (let node = find_or new_node parent nodes in
        insert parent (record node { children = erase child node.children }) nodes)

-- The part of `create_node` after the path is settled.
unfoldable pub create_at : Tree → Bytes → Bytes → Bool → Outcome
unfolding parent_path child_name
create_at t path content ephemeral =
    let parent = parent_path path in
    if member path t.nodes
    then refused t node_exists_code
    else if not (is_empty parent) && not (member parent t.nodes)
    then refused t no_node
    else record {
      tree = record t {
        nodes =
            with_child parent (child_name path)
              (insert path (record new_node { content = content; ephemeral = ephemeral }) t.nodes);
      };
      code = ok;
      event = told created_event path;
    }

-- A sequence number is used up even if the node cannot be created.
unfoldable pub create_node : Client → Tree → Bytes → Bytes → Bool → Bool → Outcome
unfolding create_at normalize_path sequence_path
create_node c t path content ephemeral sequence =
    let normalized = normalize_path path in
    let seq = suc (find_or 0 normalized t.counters) in
    if not c.connected
    then refused t invalid_state
    else if sequence
    then create_at (record t { counters = insert normalized seq t.counters })
        (sequence_path normalized seq) content ephemeral
    else create_at t normalized content ephemeral

abbrev pub delete_found : Tree → Bytes → Option Node → Outcome
delete_found t path none = refused t no_node
delete_found t path (some node) = elim node.children [
  | [] ↦ record {
    tree = record t {
      nodes = erase path (without_child (parent_path path) (child_name path) t.nodes);
    };
    code = ok;
    event = told deleted_event path;
  }
  | e ∷ more ↦ refused t invalid_state
]

unfoldable pub delete_node : Client → Tree → Bytes → Outcome
unfolding normalize_path parent_path child_name
delete_node c t path =
    let normalized = normalize_path path in
    if not c.connected
    then refused t invalid_state
    else delete_found t normalized (find normalized t.nodes)

unfoldable pub node_exists : Tree → Bytes → Bool
unfolding normalize_path
node_exists t path = member (normalize_path path) t.nodes

abbrev content_of : Option Node → Bytes
content_of none = []
content_of (some node) = node.content

unfoldable pub get_node_data : Tree → Bytes → Bytes
unfolding normalize_path
get_node_data t path = content_of (find (normalize_path path) t.nodes)

abbrev set_found : Tree → Bytes → Bytes → Option Node → Outcome
set_found t path content none = refused t no_node
set_found t path content (some node) = record {
  tree = record t {
    nodes = insert path (record node { content = content; version = suc node.version }) t.nodes;
  };
  code = ok;
  event = told changed_event path;
}

unfoldable pub set_node_data : Client → Tree → Bytes → Bytes → Outcome
unfolding normalize_path
set_node_data c t path content =
    let normalized = normalize_path path in
    if not c.connected
    then refused t invalid_state
    else set_found t normalized content (find normalized t.nodes)

abbrev children_of : Option Node → List Bytes
children_of none = []
children_of (some node) = keys node.children

unfoldable pub get_children : Tree → Bytes → List Bytes
unfolding normalize_path
get_children t path = children_of (find (normalize_path path) t.nodes)
