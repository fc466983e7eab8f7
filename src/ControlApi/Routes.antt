-- ===== src/ControlApi/Routes.antt =====
-- `handle_request` of src/head_server/control_api.hpp: the first line of a request, its body, and the
-- handler that is called. What `recv` returns, at most 4095 bytes, is an argument.
use distributed_file_grid.Prelude.{
  ℕ, zero, suc, ◌-◌, ◌≡◌, refl, Bool, true, false, ◌&&◌, [], ◌∷◌, ◌++◌, Option, none, some,
  if◌then◌else◌, take, drop,
}
use distributed_file_grid.Prelude.Int.{ℤ}
use distributed_file_grid.Prelude.Key.{Bytes, bytes_eq, bytes_key, ℤ_key}
use distributed_file_grid.Prelude.Text.{str, stoi, starts_with, find_sub, read_word}
use distributed_file_grid.ControlApi.Json.{from_sub}
use distributed_file_grid.ControlApi.{
  Control, Reply, same, not_found, invalid_id, read_registration, handle_add_server,
  handle_self_register, handle_remove_server, handle_server_health, handle_list_servers,
  handle_status,
}
use distributed_file_grid.ControlApi.Restart.{
  handle_restart_all, handle_restart_head, handle_restart_cluster_node,
}

abbrev pub cluster_path : Bytes
cluster_path = str "/api/v1/servers/cluster"

abbrev pub cluster_prefix : Bytes
cluster_prefix = str "/api/v1/servers/cluster/"

abbrev health_mark : Bytes
health_mark = str "/health"

abbrev restart_mark : Bytes
restart_mark = str "/restart"

abbrev is_found : Option ℕ → Bool
is_found none = false
is_found (some i) = true

-- path.substr(start, end - start), where `end` is the first position of a text found
abbrev health_id : Bytes → Option ℕ → Bytes
health_id path none = drop 23 path
health_id path (some end) = take (end - 23) (drop 23 path)

-- path.substr(24, path.find("/restart", 24) - 24)
abbrev restart_id : Bytes → Option ℕ → Bytes
restart_id rest none = rest
restart_id rest (some n) = take n rest

abbrev pub second_word : Bytes → Option (Bytes × Bytes) → Bytes × Bytes
second_word method none = (method, [])
second_word method (some (path, rest)) = (method, path)

abbrev pub first_words : Option (Bytes × Bytes) → Bytes × Bytes
first_words none = ([], [])
first_words (some (method, rest)) = second_word method (read_word rest)

abbrev pub body_of : Option Bytes → Bytes
body_of none = []
body_of (some s) = drop 4 s

module _ {F : Type 0} (zero_float : F) (show_float : F → Bytes) (connects : Bytes → ℤ → Bool) where
  unfoldable pub route : Control F → ℕ → Bytes → Bytes → Bytes → Reply F
  unfolding starts_with find_sub
  route s now method path body =
      let get = bytes_eq method (str "GET") in
      let post = bytes_eq method (str "POST") in
      let under = starts_with cluster_prefix path in
      if get && bytes_eq path cluster_path
      then handle_list_servers show_float s
      else if (get && under) && is_found (find_sub health_mark path)
      then handle_server_health show_float s (health_id path (find_sub health_mark path))
      else if post && bytes_eq path cluster_path
      then handle_add_server zero_float s now (read_registration body)
      else if bytes_eq method (str "DELETE") && under
      then handle_remove_server s (drop 23 path)
      else if get && bytes_eq path (str "/api/v1/status")
      then handle_status s
      else if post && bytes_eq path (str "/api/v1/system/restart_all")
      then handle_restart_all connects s
      else if post && bytes_eq path (str "/api/v1/system/restart_head")
      then handle_restart_head s
      else if (post && under) && is_found (find_sub restart_mark path)
      then (let rest = drop 24 path in
          handle_restart_cluster_node connects s (restart_id rest (find_sub restart_mark rest)))
      else if post && bytes_eq path (str "/api/v1/servers/cluster/register")
      then handle_self_register zero_float s now (read_registration body)
      else same s not_found

  unfoldable pub handle_request : Control F → ℕ → Bytes → Reply F
  unfolding route read_word from_sub
  handle_request s now request =
      let (method, path) = first_words (read_word request) in
      route s now method path (body_of (from_sub (13 ∷ 10 ∷ 13 ∷ 10 ∷ []) request))

  -- A request to remove a server under its id is always answered by 400, whatever the id, and
  -- changes nothing.
  pub route-delete :
      (s : Control F) (now : ℕ) (id_str body : Bytes)
      → route s now (str "DELETE") (cluster_prefix ++ id_str) body ≡ same s invalid_id
  unfolding route starts_with handle_remove_server stoi bytes_eq
  route-delete s now id_str body = refl

  slash-health :
      (s : Control F) (n : ℕ) (rest : Bytes)
      → handle_server_health show_float s (take n (b'/' ∷ rest)) ≡ same s invalid_id
  unfolding handle_server_health stoi
  slash-health s zero rest = refl
  slash-health s (suc n) rest = refl

  -- A request for the health of a server under its id, with /health anywhere in the path, is always
  -- answered by 400, whatever the id.
  pub route-health :
      (s : Control F) (now n : ℕ) (rest body : Bytes)
      → find_sub (str "/health") (cluster_prefix ++ rest) ≡ some n
      → route s now (str "GET") (cluster_prefix ++ rest) body ≡ same s invalid_id
  unfolding route starts_with bytes_eq
  route-health s now n rest body h = rw h (slash-health s (n - 23) rest)
