-- ===== src/Failover/Callback.antt =====
-- `on_server_unhealthy_callback` of src/head_server/head_server.cpp. Whether the head servers agree
-- that the server is dead is an argument, and one callback runs at a time. The DEAD signal that is
-- sent to the server is left out, since nothing is read back from it.
use distributed_file_grid.Prelude.{
  ◌≡◌, refl, ◌∙◌, Bool, true, false, List, ◌∷◌, none, if◌then◌else◌,
}
use distributed_file_grid.Prelude.Int.{ℤ}
use distributed_file_grid.Prelude.Key.{Bytes, bytes_key, ℤ_key, eqb_ℤ_iff}
use distributed_file_grid.Prelude.Map.{Map, find, insert, erase, member, find-erase, same_refl}
use distributed_file_grid.Health.{ServerHealth}
use distributed_file_grid.Registry.{Registry, remove_server, get_addresses}
use distributed_file_grid.Registry.Lookup.{remove_server_lem}
use distributed_file_grid.Metadata.{MetadataMap}
use distributed_file_grid.Failover.{
  Cluster, healthy_servers, file_updates, rereplicate_dead_server_chunks,
}
use distributed_file_grid.Failover.Outcome.{Recovered, rereplicate-Recovered}

pub record HeadState (F : Type 0) : Type 0 where
  pub registry : Registry
  pub health : Map ℤ (ServerHealth F)
  pub store : MetadataMap
  pub recovering : Map Bytes (Unit {0})

module _ {F : Type 0} (consensus : ℤ → Bytes → Bool) (net : Cluster) where
  abbrev recover : HeadState F → ℤ → Bytes → HeadState F
  recover s server_id dead =
      let registry' = (remove_server s.registry server_id).0 in
      record s {
        registry = registry';
        store = rereplicate_dead_server_chunks net (get_addresses registry') s.health s.store dead;
      }

  abbrev unmark : Bytes → HeadState F → HeadState F
  unmark dead s = record s { recovering = erase dead s.recovering }

  unfoldable pub on_server_unhealthy : HeadState F → ℤ → ServerHealth F → HeadState F
  unfolding remove_server get_addresses rereplicate_dead_server_chunks
  on_server_unhealthy s server_id h =
      let marked = record s { recovering = insert h.ip tt s.recovering } in
      if member h.ip s.recovering
      then s
      else if consensus server_id h.ip
      then unmark h.ip (recover marked server_id h.ip)
      else unmark h.ip marked

  -- When the head servers agree that a server is dead, no recovery of it is running and some other
  -- server can take replicas, the callback removes its id from the registry, leaves every file with
  -- its other replicas and the new ones and none on the dead server, and lets a later recovery run.
  pub on_server_unhealthy-Recovered :
      (s : HeadState F) (server_id : ℤ) (h : ServerHealth F) (file target : Bytes)
      (others : List Bytes)
      → member h.ip s.recovering ≡ false
      → consensus server_id h.ip ≡ true
      → healthy_servers s.health h.ip (get_addresses (remove_server s.registry server_id).0)
        ≡ target ∷ others
      → let s' = on_server_unhealthy s server_id h in
        (find server_id s'.registry.servers ≡ none)
        × Recovered h.ip
            (file_updates net h.ip (target ∷ others) s.store file)
            (find file s.store)
            (find file s'.store)
        × (member h.ip s'.recovering ≡ false)
  unfolding on_server_unhealthy
  on_server_unhealthy-Recovered s server_id h file target others fresh dead candidates =
      let addresses = get_addresses (remove_server s.registry server_id).0 in
      rw (fresh, dead)
        (
          (remove_server_lem s.registry server_id).1 server_id
              ∙ rw ((eqb_ℤ_iff server_id server_id).1 refl) refl,
          rereplicate-Recovered net addresses s.health s.store h.ip file target others candidates,
          rw (find-erase h.ip h.ip (insert h.ip tt s.recovering), member)
              (rw (same_refl h.ip) refl),
        )
