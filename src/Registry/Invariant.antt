-- ===== src/Registry/Invariant.antt =====
-- What every sequence of registrations and removals keeps.
use distributed_file_grid.Prelude.{
  ℕ, ◌≡◌, refl, ap, inl, inr, true, false, [], ◌∷◌, map, Option-cases, keep, any, find_if, All,
}
use distributed_file_grid.Prelude.Int.{ℤ}
use distributed_file_grid.Prelude.Key.{Bytes, bytes_eq, bytes_key, ℤ_key}
use distributed_file_grid.Prelude.Map.{find, values, same_refl, All-erase, All-insert}
use distributed_file_grid.Prelude.Text.{str}
use distributed_file_grid.Registry.{
  ServerEntry, Registry, empty, add_server, add_new, remove_server, set_next_id, get_addresses,
  get_all, address, new_entry, at_address,
}
use distributed_file_grid.Registry.Entries.{
  Entries, Distinct, Distinct-insert, Distinct-erase, any-find_if-none,
}
use distributed_file_grid.Prelude.Map.Sorted.{IsSorted, insert-IsSorted, erase-IsSorted}

abbrev pub IsActive : ℤ × ServerEntry → Type 0
IsActive (k, e) = bytes_eq e.status (str "active") ≡ true

abbrev pub IsOwn : ℤ × ServerEntry → Type 0
IsOwn (k, e) = e.id ≡ k

-- Entries are in the strict order of their ids and hold them; no two have one address; all are
-- active.
pub record IsConsistent (r : Registry) : Type 0 where
  pub ordered : IsSorted r.servers
  pub own : All IsOwn r.servers
  pub distinct : Distinct r.servers
  pub active : All IsActive r.servers

empty-IsConsistent : IsConsistent empty
empty-IsConsistent = record { ordered = tt; own = tt; distinct = tt; active = tt }

add_new-IsConsistent :
    (r : Registry) (host : Bytes) (port tp pp : ℤ) (now : ℕ)
    → any (at_address host port) r.servers ≡ false
    → IsConsistent r
    → IsConsistent (add_new r (new_entry r.next_id host port tp pp now)).registry
unfolding add_new
add_new-IsConsistent r host port tp pp now free c =
    let e = new_entry r.next_id host port tp pp now in
    record {
      ordered = insert-IsSorted r.next_id e r.servers c.ordered;
      own = All-insert IsOwn r.next_id e r.servers refl c.own;
      distinct = Distinct-insert r.next_id e r.servers free c.distinct;
      active = All-insert IsActive r.next_id e r.servers (same_refl (str "active")) c.active;
    }

pub add_server-IsConsistent :
    (r : Registry) (host : Bytes) (port tp pp : ℤ) (now : ℕ)
    → IsConsistent r
    → IsConsistent (add_server r host port tp pp now).registry
unfolding add_server
add_server-IsConsistent r host port tp pp now c =
    elim (Option-cases (find_if (at_address host port) r.servers)) [
      | inl e ↦ rw e (add_new-IsConsistent r host port tp pp now (any-find_if-none _ r.servers e) c)
      | inr (x, e) ↦ rw e c
    ]

pub remove_server-IsConsistent :
    (r : Registry) (i : ℤ) → IsConsistent r → IsConsistent (remove_server r i).0
unfolding remove_server
remove_server-IsConsistent r i c = elim (Option-cases (find i r.servers)) [
  | inl e ↦ rw e c
  | inr (x, e) ↦ rw e (record {
    ordered = erase-IsSorted i r.servers c.ordered;
    own = All-erase IsOwn i r.servers c.own;
    distinct = Distinct-erase i r.servers c.distinct;
    active = All-erase IsActive i r.servers c.active;
  })
]

set_next_id-IsConsistent : (r : Registry) (i : ℤ) → IsConsistent r → IsConsistent (set_next_id r i)
unfolding set_next_id
set_next_id-IsConsistent r i c = record {
  ordered = c.ordered;
  own = c.own;
  distinct = c.distinct;
  active = c.active;
}

-- The registries that the methods lead to.
pub data Reach : Registry → Type 0 where
  start : Reach empty
  added :
      {r : Registry} (host : Bytes) (port tp pp : ℤ) (now : ℕ)
      → Reach r
      → Reach (add_server r host port tp pp now).registry
  removed : {r : Registry} (i : ℤ) → Reach r → Reach (remove_server r i).0
  counter_set : {r : Registry} (i : ℤ) → Reach r → Reach (set_next_id r i)

-- After any sequence of registrations, removals and settings of the id counter to any value, the
-- entries are in the strict order of their ids and hold them, no two have one address, and every
-- entry is active.
pub Reach-IsConsistent : {r : Registry} → Reach r → IsConsistent r
Reach-IsConsistent start = empty-IsConsistent
Reach-IsConsistent (added {r} host port tp pp now h) =
    add_server-IsConsistent r host port tp pp now (Reach-IsConsistent h)
Reach-IsConsistent (removed {r} i h) = remove_server-IsConsistent r i (Reach-IsConsistent h)
Reach-IsConsistent (counter_set {r} i h) = set_next_id-IsConsistent r i (Reach-IsConsistent h)

keep_active :
    (m : Entries)
    → All IsActive m
    → keep (λ e. bytes_eq e.status (str "active")) (values m) ≡ values m
keep_active [] h = refl
keep_active ((k, e) ∷ m) h = rw h.0 (ap (◌∷◌ e) (keep_active m h.1))

-- In a consistent registry the addresses listed are those of all the entries.
pub get_addresses-get_all :
    (r : Registry) → IsConsistent r → get_addresses r ≡ map address (get_all r)
unfolding get_addresses get_all
get_addresses-get_all r c = ap (map address) (keep_active r.servers c.active)
