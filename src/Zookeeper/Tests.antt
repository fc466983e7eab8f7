-- ===== src/Zookeeper/Tests.antt =====
-- A connected client on a new tree.
use distributed_file_grid.Prelude.{◌≡◌, refl, true, false, [], ◌∷◌, some}
use distributed_file_grid.Prelude.Key.{bytes_eq, bytes_lt, bytes_key, ℤ_key}
use distributed_file_grid.Prelude.Map.{find, insert, erase}
use distributed_file_grid.Prelude.Text.{str}
use distributed_file_grid.Zookeeper.Paths.{normalize_path, parent_path}
use distributed_file_grid.Zookeeper.{
  new_node, Tree, initial, Client, no_node, create_node, delete_node, get_children,
}
use distributed_file_grid.Zookeeper.Nodes.{CreatedAt, create_node_lem, Deleted, delete_node_lem}

abbrev client : Client
client = record { hosts = str "zk:2181"; connected = true }

abbrev with_a : Tree
with_a = record initial {
  nodes =
      (str "/", record new_node { children = (str "a", tt) ∷ [] })
      ∷ (str "/a", record new_node { content = str "x" })
      ∷ [];
}

create_runs : (create_node client initial (str "a/") (str "x") false false).tree ≡ with_a
unfolding create_node find bytes_eq insert bytes_lt
create_runs = refl

-- `//a` and `/a` share the child `a` of the root, so that the root seems empty once one is gone.
double_slash_runs :
    let t = (create_node client with_a (str "//a") [] false false).tree in
    get_children (delete_node client t (str "/a")).tree (str "/") ≡ []
unfolding create_node delete_node get_children find bytes_eq insert bytes_lt erase
double_slash_runs = refl

-- The root can be deleted, and then no node can be created below it.
root_runs :
    (create_node client (delete_node client initial (str "/")).tree (str "/a") [] false false).code
    ≡ no_node
unfolding create_node delete_node find bytes_eq erase
root_runs = refl

create_node_lem_example :
    CreatedAt with_a
      (str "/a/b")
      (str "/a")
      (create_node client with_a (str "/a/b") (str "y") true false)
unfolding normalize_path parent_path find bytes_eq
create_node_lem_example = create_node_lem client with_a (str "/a/b") (str "y") true refl

delete_node_lem_example :
    Deleted with_a
      (str "/a")
      (delete_node client with_a (str "/a"))
      (some (record new_node { content = str "x" }))
unfolding normalize_path find bytes_eq
delete_node_lem_example = delete_node_lem client with_a (str "/a") refl
