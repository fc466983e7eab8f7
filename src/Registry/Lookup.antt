-- ===== src/Registry/Lookup.antt =====
-- What a client finds after a registration or a removal.
use distributed_file_grid.Prelude.{
  ℕ, ◌≡◌, refl, inl, inr, true, none, some, arith, if◌then◌else◌, Option-cases, find_if,
}
use distributed_file_grid.Prelude.Int.{ℤ, int_suc, eqb_ℤ}
use distributed_file_grid.Prelude.Key.{Bytes, bytes_eq_iff, bytes_key, ℤ_key, eqb_ℤ_iff}
use distributed_file_grid.Prelude.Map.{find, member, find-insert, find-erase}
use distributed_file_grid.Registry.{
  ServerEntry, Registry, add_server, add_new, remove_server, new_entry, at_address,
}
use distributed_file_grid.Registry.Entries.{find_if-insert}

at_address_self : (k : ℤ) (e : ServerEntry) → at_address e.host e.port (k, e) ≡ true
at_address_self k e = ground (arith, bytes_eq_iff e.host e.host, eqb_ℤ_iff e.port e.port)

module _ (r : Registry) (host : Bytes) (port tp pp : ℤ) (now : ℕ) where
  -- An address that is already there: its id comes back and nothing changes.
  pub add_server_known :
      {i : ℤ} {e : ServerEntry}
      → find_if (at_address host port) r.servers ≡ some (i, e)
      → add_server r host port tp pp now ≡ record { registry = r; id = i; change = none }
  unfolding add_server
  add_server_known h = rw h

  -- A new address gets the next id, the callback is told, and every other id keeps its entry.
  pub add_server_new :
      find_if (at_address host port) r.servers ≡ none
      → let added = add_server r host port tp pp now in
        let entry = new_entry r.next_id host port tp pp now in
        (added.id ≡ r.next_id)
        × (added.registry.next_id ≡ int_suc r.next_id)
        × (added.change ≡ some (record { entry = entry; added = true }))
        × ((j : ℤ)
            → find j added.registry.servers
              ≡ (if eqb_ℤ r.next_id j then some entry else find j r.servers))
  unfolding add_server add_new
  add_server_new h = rw h (refl, refl, refl, λ j. find-insert r.next_id j _ r.servers)

  -- Registering an address twice: the second call returns the id of the first and changes nothing.
  pub add_server_twice :
      (tp' pp' : ℤ) (later : ℕ)
      → let once = add_server r host port tp pp now in
        add_server once.registry host port tp' pp' later
        ≡ record { registry = once.registry; id = once.id; change = none }
  unfolding add_server add_new
  add_server_twice tp' pp' later = elim (Option-cases (find_if (at_address host port) r.servers)) [
    | inl e ↦
        let entry = new_entry r.next_id host port tp pp now in
        rw e (
          rw (
            find_if-insert (at_address host port) r.next_id entry r.servers e
              (at_address_self r.next_id entry)))
    | inr (x, e) ↦ rw (e, e)
  ]

-- A removal reports whether the id was there, takes its entry away and leaves every other.
pub remove_server_lem :
    (r : Registry) (i : ℤ)
    → ((remove_server r i).1 ≡ member i r.servers)
      × ((j : ℤ)
          → find j (remove_server r i).0.servers ≡ (if eqb_ℤ i j then none else find j r.servers))
unfolding remove_server
remove_server_lem r i = elim (Option-cases (find i r.servers)) [
  | inl e ↦ rw e (ground arith, λ j. ground (arith, eqb_ℤ_iff i j))
  | inr (x, e) ↦ rw e (ground arith, λ j. find-erase i j r.servers)
]
