-- ===== src/Consensus/Peers.antt =====
-- What the other head servers contribute to the vote of src/head_server/head_server.cpp, when they answer
-- as src/head_server/control_api.hpp does.
use distributed_file_grid.Prelude.{
  ℕ, suc, ◌≡◌, refl, sym, ◌∙◌, ap, ◌⊎◌, inl, inr, Bool, true, false, not, List, [], ◌∷◌, ◌++◌,
  Option, none, some, arith, if◌then◌else◌, take, any, All, All-append,
}
use distributed_file_grid.Prelude.Int.{ℤ, pos, negsuc}
use distributed_file_grid.Prelude.Key.{Bytes, bytes_key, ℤ_key}
use distributed_file_grid.Prelude.Text.{
  str, is_space, to_string, int_to_string, find_sub, contains, read_word,
}
use distributed_file_grid.Prelude.Text.Decimal.{to_string-not-space}
use distributed_file_grid.Prelude.Text.Words.{IsWord, read_word-append, read_word-blank}
use distributed_file_grid.Prelude.Text.Search.{contains-after, contains-some}
use distributed_file_grid.ControlApi.{make_response, Control, Reply, invalid_id}
use distributed_file_grid.ControlApi.Routes.{
  cluster_prefix, route, handle_request, first_words, second_word, body_of, route-health,
}
use distributed_file_grid.ControlApi.Json.{from_sub}
use mathlib.Core.List.{append_assoc}
use distributed_file_grid.Consensus.{
  peer_heads, alive_in_zookeeper, HeadServerEntry, Tree, vetoes,
  verify_cluster_server_dead_consensus, any_veto, PeerHead, health_request, says_healthy,
}

int_to_string-not-space : (z : ℤ) → All (λ c. is_space c ≡ false) (int_to_string z)
unfolding int_to_string
int_to_string-not-space (pos n) = to_string-not-space n
int_to_string-not-space (negsuc n) = (refl, to_string-not-space (suc n))

abbrev tail_of : ℤ → Bytes
tail_of server_id = int_to_string server_id ++ str "/health"

any_none : (p : ℕ → Bool) (s : Bytes) → any p s ≡ false → All (λ c. p c ≡ false) s
any_none p [] h = tt
any_none p (c ∷ s) h = ground (arith, any_none p s)

path_of : ℤ → Bytes
path_of server_id = cluster_prefix ++ tail_of server_id

health-health : contains (str "/health") (str "/health") ≡ true
unfolding contains
health-health = refl

found :
    (server_id : ℤ)
    → (n : ℕ) × (find_sub (str "/health") (cluster_prefix ++ tail_of server_id) ≡ some n)
found server_id = contains-some (str "/health") (cluster_prefix ++ tail_of server_id) (
    contains-after (str "/health") cluster_prefix (tail_of server_id)
      (contains-after (str "/health") (int_to_string server_id) (str "/health") health-health))

path-IsWord : (server_id : ℤ) → IsWord (cluster_prefix ++ tail_of server_id)
path-IsWord server_id =
    All-append _ cluster_prefix (tail_of server_id) (any_none is_space cluster_prefix refl) (
      All-append _ (int_to_string server_id) (str "/health") (int_to_string-not-space server_id)
        (any_none is_space (str "/health") refl))

-- The request from the blank after the path on.
abbrev after_path : Bytes → Bytes
after_path host = str " HTTP/1.1\r\nHost: " ++ (host ++ str "\r\nConnection: close\r\n\r\n")

health_request-path :
    (server_id : ℤ) (host : Bytes)
    → health_request server_id host
      ≡ str "GET " ++ ((cluster_prefix ++ tail_of server_id) ++ after_path host)
unfolding health_request
health_request-path server_id host =
    ap (λ x. str "GET /api/v1/servers/cluster/" ++ x)
      (sym (append_assoc (int_to_string server_id) (str "/health") (after_path host)))

first_words-path :
    (server_id : ℤ) (host : Bytes)
    → first_words
        (read_word (str "GET " ++ ((cluster_prefix ++ tail_of server_id) ++ after_path host)))
      ≡ (str "GET", cluster_prefix ++ tail_of server_id)
first_words-path server_id host =
    let path = cluster_prefix ++ tail_of server_id in
    let rest = path ++ after_path host in
    ap first_words (read_word-append (str "GET") (32 ∷ rest) (refl, (refl, (refl, tt))) refl)
    ∙ ap (second_word (str "GET")) (
        read_word-blank rest ∙ read_word-append path (after_path host) (path-IsWord server_id) refl)

negated : (b : Bool) → (if b then false else true) ≡ not b
negated true = refl
negated false = refl

module _ {F : Type 0} (zero_float : F) (show_float : F → Bytes) (connects : Bytes → ℤ → Bool) where
  handle_request-words :
      (s : Control F) (now : ℕ) (req : Bytes)
      → handle_request zero_float show_float connects s now req ≡ (
          let w = first_words (read_word req) in
          route zero_float show_float connects s now w.0 w.1
            (body_of (from_sub (13 ∷ 10 ∷ 13 ∷ 10 ∷ []) req)))
  unfolding handle_request
  handle_request-words s now req = refl

  health_request-answer :
      (s : Control F) (now : ℕ) (server_id : ℤ) (host : Bytes)
      → (handle_request zero_float show_float connects s now
          (health_request server_id host)).response
        ≡ invalid_id
  health_request-answer s now server_id host =
      let (n, at) = found server_id in
      let path = cluster_prefix ++ tail_of server_id in
      let req = str "GET " ++ (path ++ after_path host) in
      let body = body_of (from_sub (13 ∷ 10 ∷ 13 ∷ 10 ∷ []) req) in
      ap (λ r. (handle_request zero_float show_float connects s now r).response)
        (health_request-path server_id host)
      ∙ ap (λ (t : Reply F). t.response)
          (handle_request-words s now req
            ∙ ap (λ (w : Bytes × Bytes). route zero_float show_float connects s now w.0 w.1 body)
                (first_words-path server_id host)
            ∙ route-health zero_float show_float connects s now n (tail_of server_id) body at)

  no_veto : says_healthy (take 1023 invalid_id) ≡ false
  unfolding contains make_response to_string
  no_veto = refl

  -- Each peer is out of reach, or its control API answers, from some state at some time.
  abbrev pub AnswersAsHead : (PeerHead → Bytes → Option Bytes) → Type 0
  AnswersAsHead ask =
      (peer : PeerHead) (req : Bytes)
      → (ask peer req ≡ none)
        ⊎ ((s : Control F) × (now : ℕ) × (ask peer req
              ≡ some
                  (take 1023 (handle_request zero_float show_float connects s now req).response)))

  vetoes-answer :
      (ask : PeerHead → Bytes → Option Bytes) (server_id : ℤ) (peer : PeerHead)
      → AnswersAsHead ask
      → vetoes (ask peer (health_request server_id peer.host)) ≡ false
  vetoes-answer ask server_id peer answers =
      elim (answers peer (health_request server_id peer.host)) [
        | inl silent ↦ ap vetoes silent
        | inr (s, now, e) ↦
            ap vetoes e
            ∙ ap (λ r. says_healthy (take 1023 r)) (health_request-answer s now server_id peer.host)
            ∙ no_veto
      ]

  any_veto-answers :
      (ask : PeerHead → Bytes → Option Bytes) (server_id : ℤ) (peers : List PeerHead)
      → AnswersAsHead ask
      → any_veto ask server_id peers ≡ false
  unfolding any_veto
  any_veto-answers ask server_id [] answers = refl
  any_veto-answers ask server_id (peer ∷ rest) answers =
      rw (vetoes-answer ask server_id peer answers) (any_veto-answers ask server_id rest answers)

  -- When every other head server is out of reach or answers as the control API does, from any
  -- state, the vote declares a server dead exactly if ZooKeeper has no sign of life of it: no peer
  -- can veto.
  pub verify-alive :
      (ask : PeerHead → Bytes → Option Bytes) (t : Tree) (cfg_heads : List HeadServerEntry)
      (now : ℕ) (server_id our_control_port : ℤ)
      → AnswersAsHead ask
      → verify_cluster_server_dead_consensus ask t cfg_heads now server_id our_control_port
        ≡ not (alive_in_zookeeper t now server_id)
  unfolding verify_cluster_server_dead_consensus
  verify-alive ask t cfg_heads now server_id our_control_port answers =
      rw (any_veto-answers ask server_id (peer_heads t our_control_port cfg_heads) answers)
        (negated (alive_in_zookeeper t now server_id))
