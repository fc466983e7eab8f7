-- ===== src/Zookeeper/Nodes.antt =====
-- What the operations on nodes do to the tree.
use distributed_file_grid.Prelude.{
  suc, ◌≡◌, refl, ◌∙◌, inl, inr, Bool, true, false, ◌&&◌, ◌||◌, not, [], ◌∷◌, Option, none, some,
  arith, if◌then◌else◌, Bool-cases, Option-cases,
}
use distributed_file_grid.Prelude.Key.{Bytes, bytes_eq, bytes_eq_iff, bytes_key, ℤ_key}
use distributed_file_grid.Prelude.Map.{
  Map, find, insert, erase, member, find_or, find-insert, find-erase, same_refl,
}
use distributed_file_grid.Metadata.{is_empty}
use distributed_file_grid.Zookeeper.Paths.{normalize_path, parent_path, child_name}
use distributed_file_grid.Zookeeper.{
  Node, new_node, Tree, Client, Outcome, ok, no_node, node_exists_code, invalid_state, with_child,
  without_child, create_at, create_node, delete_node, delete_found, node_exists, get_node_data,
  set_node_data,
}

member-insert :
    (k q : Bytes) (v : Node) (nodes : Map Bytes Node)
    → member q (insert k v nodes) ≡ (bytes_eq k q || member q nodes)
member-insert k q v nodes = elim (Bool-cases (bytes_eq k q)) [
  | inl e ↦ rw (find-insert k q v nodes, member) (rw e refl)
  | inr e ↦ rw (find-insert k q v nodes, member) (rw e refl)
]

member-found :
    (k q : Bytes) (nodes : Map Bytes Node)
    → member k nodes ≡ true
    → (bytes_eq k q || member q nodes) ≡ member q nodes
member-found k q nodes h = ground (arith, bytes_eq_iff k q)

member-with_child :
    (parent child path : Bytes) (nodes : Map Bytes Node)
    → (is_empty parent || member parent nodes) ≡ true
    → member path (with_child parent child nodes) ≡ member path nodes
member-with_child parent child path nodes h = elim (Bool-cases (is_empty parent)) [
  | inl e ↦ rw e refl
  | inr e ↦
      let node = find_or new_node parent nodes in
      rw e (
        member-insert parent path (record node { children = insert child tt node.children }) nodes
        ∙ member-found parent path nodes (rw e at h))
]

-- What `create_at` does, by the path and its parent.
abbrev pub CreatedAt : Tree → Bytes → Bytes → Outcome → Type 0
CreatedAt t path parent result =
    if member path t.nodes
    then (result.code ≡ node_exists_code) × (result.tree ≡ t)
    else if is_empty parent || member parent t.nodes
    then (result.code ≡ ok)
      × ((q : Bytes) → member q result.tree.nodes ≡ (bytes_eq path q || member q t.nodes))
    else (result.code ≡ no_node) × (result.tree ≡ t)

create_at-CreatedAt :
    (t : Tree) (path content : Bytes) (ephemeral : Bool)
    → CreatedAt t path (parent_path path) (create_at t path content ephemeral)
unfolding create_at
create_at-CreatedAt t path content ephemeral =
    let parent = parent_path path in
    elim (Bool-cases (member path t.nodes)) [
      | inl e ↦ rw e (refl, refl)
      | inr e ↦ rw e (elim (Bool-cases (is_empty parent || member parent t.nodes)) [
        | inl p ↦
            let passes : (not (is_empty parent) && not (member parent t.nodes)) ≡ false =
              ground arith in
            let node = record new_node { content = content; ephemeral = ephemeral } in
            let known : (is_empty parent || member parent (insert path node t.nodes)) ≡ true =
              ground (arith, member-insert path parent node t.nodes) in
            rw (p, passes)
              (
                refl,
                λ q.
                    member-with_child parent (child_name path) q (insert path node t.nodes) known
                    ∙ member-insert path q node t.nodes,
              )
        | inr p ↦
            let stops : (not (is_empty parent) && not (member parent t.nodes)) ≡ true =
              ground arith in
            rw (p, stops) (refl, refl)
      ])
    ]

-- A connected client creates a node without a sequence number exactly if the path is free and its
-- parent is there or it is the root. Then the path is there and no other node comes or goes;
-- otherwise the tree is the same and the code says why.
pub create_node_lem :
    (c : Client) (t : Tree) (path content : Bytes) (ephemeral : Bool)
    → c.connected ≡ true
    → let result = create_node c t path content ephemeral false in
      CreatedAt t (normalize_path path) (parent_path (normalize_path path)) result
unfolding create_node
create_node_lem c t path content ephemeral h =
    rw h (create_at-CreatedAt t (normalize_path path) content ephemeral)

-- What a deletion does, by the node that is found.
abbrev pub DeletedNode : Tree → Bytes → Outcome → Map Bytes (Unit {0}) → Type 0
DeletedNode t path result [] = (result.code ≡ ok) × (member path result.tree.nodes ≡ false)
DeletedNode t path result (e ∷ more) = (result.code ≡ invalid_state) × (result.tree ≡ t)

abbrev pub Deleted : Tree → Bytes → Outcome → Option Node → Type 0
Deleted t path result none = (result.code ≡ no_node) × (result.tree ≡ t)
Deleted t path result (some node) = DeletedNode t path result node.children

member-erase : (k : Bytes) (nodes : Map Bytes Node) → member k (erase k nodes) ≡ false
member-erase k nodes = rw (find-erase k k nodes, member) (rw (same_refl k) refl)

delete_found-some :
    (t : Tree) (path : Bytes) (node : Node) (children : Map Bytes (Unit {0}))
    → node.children ≡ children
    → Deleted t path (delete_found t path (some node)) (some node)
delete_found-some t path node [] e =
    rw e (refl, member-erase path (without_child (parent_path path) (child_name path) t.nodes))
delete_found-some t path node (x ∷ more) e = rw e (refl, refl)

delete_found-Deleted :
    (t : Tree) (path : Bytes) (found : Option Node)
    → Deleted t path (delete_found t path found) found
delete_found-Deleted t path none = (refl, refl)
delete_found-Deleted t path (some node) = delete_found-some t path node node.children refl

-- A connected client deletes a node exactly if it is there and has no children. Then the path is
-- gone; otherwise the tree is the same and the code says why.
pub delete_node_lem :
    (c : Client) (t : Tree) (path : Bytes)
    → c.connected ≡ true
    → let result = delete_node c t path in
      Deleted t (normalize_path path) result (find (normalize_path path) t.nodes)
unfolding delete_node
delete_node_lem c t path h =
    rw h (delete_found-Deleted t (normalize_path path) (find (normalize_path path) t.nodes))

missing-member : (k : Bytes) (nodes : Map Bytes Node) → find k nodes ≡ none → member k nodes ≡ false
missing-member k nodes e = rw (e, member) refl

-- Setting the data of a node that is there succeeds for a connected client: the data is then read
-- back, and the nodes that are there stay the same.
pub set_node_data_lem :
    (c : Client) (t : Tree) (path content : Bytes)
    → c.connected ≡ true
    → node_exists t path ≡ true
    → let result = set_node_data c t path content in
      (result.code ≡ ok)
      × (get_node_data result.tree path ≡ content)
      × ((q : Bytes) → node_exists result.tree q ≡ node_exists t q)
unfolding set_node_data node_exists get_node_data
set_node_data_lem c t path content h there =
    let p = normalize_path path in
    elim (Option-cases (find p t.nodes)) [
      | inl e ↦ cc (missing-member p t.nodes e, there)
      | inr (node, e) ↦
          let node' = record node { content = content; version = suc node.version } in
          rw (h, e)
            (
              refl,
              rw (find-insert p p node' t.nodes) (rw (same_refl p) refl),
              λ q.
                  member-insert p (normalize_path q) node' t.nodes
                  ∙ member-found p (normalize_path q) t.nodes there,
            )
    ]
