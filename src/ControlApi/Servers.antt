-- ===== src/ControlApi/Servers.antt =====
-- Registrations over the control API.
use distributed_file_grid.Prelude.{
  ℕ, suc, ◌+◌, ◌^◌, ◌≤◌, ◌<◌, ◌≡◌, refl, sym, ◌∙◌, ap, inl, inr, true, false, ◌||◌, ◌&&◌, not, none,
  some, arith, ltb, ◌==◌, if◌then◌else◌, Bool-cases, Option-cases, find_if,
}
use distributed_file_grid.Prelude.Int.{int_suc, ltb_ℤ, ℤ, pos, eqb_ℤ}
use distributed_file_grid.Prelude.Key.{Bytes, bytes_eq_iff, bytes_key, ℤ_key, eqb_ℤ_iff}
use distributed_file_grid.Prelude.Map.{find, member, find-insert, same_refl}
use distributed_file_grid.Address.{format_address}
use distributed_file_grid.Registry.{
  ServerEntry, Registry, at_address, new_entry, add_server, add_new, set_next_id, count,
}
use distributed_file_grid.Registry.Lookup.{add_server_new}
use distributed_file_grid.Registry.Entries.{find_if-test, find_if-find}
use distributed_file_grid.Registry.Invariant.{IsConsistent}
use distributed_file_grid.Prelude.Map.Sorted.{IsSorted}
use distributed_file_grid.Health.{HealthMonitor, registered, register_server}
use distributed_file_grid.Metadata.{is_empty, is_positive}
use distributed_file_grid.ControlApi.{
  Control, Registration, same, missing_field, claim_id, created, enroll, handle_add_server,
  handle_self_register,
}

-- Under the id the registry has an entry with the address, the other entries are as before, and the
-- health monitor has a record, a new one with the printed address where it had none.
pub record IsEnrolled {F : Type 0} (z : F) (s s' : Control F) (reg : Registration) (now : ℕ) (i : ℤ)
    : Type 0 where
  pub entry : ServerEntry
  pub listed :
      (j : ℤ)
      → find j s'.registry.servers ≡ (if eqb_ℤ i j then some entry else find j s.registry.servers)
  pub at_host : entry.host ≡ reg.host
  pub at_port : entry.port ≡ reg.port
  pub monitored : member i s'.health.servers ≡ true
  pub watched :
      (j : ℤ)
      → find j s'.health.servers ≡ (
          if not (member i s.health.servers) && eqb_ℤ i j
          then some (registered z i (format_address reg.host reg.port) now)
          else find j s.health.servers)

at_address-new :
    (i : ℤ) (host : Bytes) (port tp pp : ℤ) (now : ℕ)
    → at_address host port (i, new_entry i host port tp pp now) ≡ true
at_address-new i host port tp pp now =
    ground (arith, (bytes_eq_iff host host).1 refl, (eqb_ℤ_iff port port).1 refl)

at_address-same :
    (host : Bytes) (port i : ℤ) (e : ServerEntry)
    → at_address host port (i, e) ≡ true
    → (e.host ≡ host) × (e.port ≡ port)
at_address-same host port i e h = ground (arith, bytes_eq_iff e.host host, eqb_ℤ_iff e.port port)

-- Under the id there is an entry with the address, and the others are as before.
abbrev Listed : Registry → Registry → ℤ → Bytes → ℤ → Type 0
Listed r r' i host port =
    (e : ServerEntry) × ((j : ℤ)
      → find j r'.servers ≡ (if eqb_ℤ i j then some e else find j r.servers))
    × (e.host ≡ host)
    × (e.port ≡ port)

find-same :
    (i : ℤ) (e : ServerEntry) (r : Registry)
    → find i r.servers ≡ some e
    → (j : ℤ) → find j r.servers ≡ (if eqb_ℤ i j then some e else find j r.servers)
find-same i e r h j = elim (Bool-cases (eqb_ℤ i j)) [
  | inl q ↦ rw q (ap (λ k. find k r.servers) (sym ((eqb_ℤ_iff i j).0 q)) ∙ h)
  | inr q ↦ rw q refl
]

add_server-Listed :
    (r : Registry) (host : Bytes) (port tp pp : ℤ) (now : ℕ)
    → IsSorted r.servers
    → let added = add_server r host port tp pp now in Listed r added.registry added.id host port
unfolding add_server add_new
add_server-Listed r host port tp pp now sorted =
    elim (Option-cases (find_if (at_address host port) r.servers)) [
      | inl e ↦
          let entry = new_entry r.next_id host port tp pp now in
          rw e (entry, (λ j. find-insert r.next_id j entry r.servers), refl, refl)
      | inr ((i, old), e) ↦
          let same = at_address-same host port i old (find_if-test _ r.servers (i, old) e) in
          rw e (old, find-same i old r (find_if-find _ r.servers i old sorted e), same.0, same.1)
    ]

module _ {F : Type 0} (z : F) (m : HealthMonitor F) (i : ℤ) (ip : Bytes) (now : ℕ) where
  register_server-find :
      (j : ℤ)
      → find j (register_server z m i ip now).servers ≡ (
          if not (member i m.servers) && eqb_ℤ i j
          then some (registered z i ip now)
          else find j m.servers)
  unfolding register_server
  register_server-find j = elim (Bool-cases (member i m.servers)) [
    | inl e ↦ rw e refl
    | inr e ↦ rw e (find-insert i j (registered z i ip now) m.servers)
  ]

  register_server-member : member i (register_server z m i ip now).servers ≡ true
  unfolding register_server
  register_server-member = elim (Bool-cases (member i m.servers)) [
    | inl e ↦ rw e e
    | inr e ↦
        rw (e, member)
          (rw (find-insert i i (registered z i ip now) m.servers) (rw (same_refl i) refl))
  ]

enroll-IsEnrolled :
    {F : Type 0} (z : F) (s : Control F) (reg : Registration) (now : ℕ)
    → IsConsistent s.registry
    → let (s', i) = enroll z s s.registry reg now in IsEnrolled z s s' reg now i
unfolding enroll
enroll-IsEnrolled z s reg now c =
    let r = s.registry in
    let added = add_server r reg.host reg.port reg.transfer_port reg.public_port now in
    let listed =
      add_server-Listed r reg.host reg.port reg.transfer_port reg.public_port now c.ordered in
    let ip = format_address reg.host reg.port in
    record {
      entry = listed.0;
      listed = listed.1;
      at_host = listed.2;
      at_port = listed.3;
      monitored = register_server-member z s.health added.id ip now;
      watched = register_server-find z s.health added.id ip now;
    }

-- In a consistent registry a registration without a host or a positive port is answered by 400 and
-- changes nothing. Otherwise the answer is 201 with an id under which the registry then has the
-- address and the health monitor a record, a new one with the printed address where it had none;
-- nothing under other ids changes.
pub handle_add_server_lem :
    {F : Type 0} (z : F) (s : Control F) (now : ℕ) (reg : Registration)
    → IsConsistent s.registry
    → let reply = handle_add_server z s now reg in
      if is_empty reg.host || not (is_positive reg.port)
      then reply ≡ same s missing_field
      else (i : ℤ) × IsEnrolled z s reply.state reg now i
        × (reply.response ≡ created i reg.host reg.port)
unfolding handle_add_server
handle_add_server_lem z s now reg c =
    elim (Bool-cases (is_empty reg.host || not (is_positive reg.port))) [
      | inl e ↦ rw e refl
      | inr e ↦ rw e ((enroll z s s.registry reg now).1, enroll-IsEnrolled z s reg now c, refl)
    ]

claim_id-next :
    (r : Registry) (n : ℕ)
    → n + 2 < 2 ^ 31
    → count r ≤ n + 1
    → claim_id r (pos (suc n)) ≡ set_next_id r (pos (n + 2))
unfolding claim_id
claim_id-next r n small few =
    let no_wrap : (suc n == 2147483647) ≡ false = ground arith in
    let by_id : ltb (n + 2) (count r + 1) ≡ false = ground arith in
    let by_count = pos (count r + 1) in
    let step : int_suc (pos (suc n)) ≡ pos (n + 2) = rw no_wrap (ap pos (omega arith)) in
    ap (λ i. set_next_id r (if ltb_ℤ i by_count then by_count else i)) step ∙ rw by_id refl

-- A server that registers itself from a new address with the positive id n + 1, where n + 2 is an
-- int, with at most n + 1 servers registered, gets the id n + 2: a server that had this id loses
-- its entry to it, the other entries stay, and a health record under the id stays as it is.
pub handle_self_register_lem :
    {F : Type 0} (z : F) (s : Control F) (now n : ℕ) (reg : Registration)
    → reg.server_id ≡ pos (suc n)
    → n + 2 < 2 ^ 31
    → is_empty reg.host || not (is_positive reg.port) ≡ false
    → find_if (at_address reg.host reg.port) s.registry.servers ≡ none
    → count s.registry ≤ n + 1
    → let reply = handle_self_register z s now reg in
      let entry = new_entry (pos (n + 2)) reg.host reg.port reg.transfer_port reg.public_port now in
      ((j : ℤ)
        → find j reply.state.registry.servers
          ≡ (if eqb_ℤ (pos (n + 2)) j then some entry else find j s.registry.servers))
      × (member (pos (n + 2)) s.health.servers ≡ true → reply.state.health ≡ s.health)
unfolding handle_self_register enroll set_next_id register_server
handle_self_register_lem z s now n reg given small valid fresh few =
    let r = set_next_id s.registry (pos (n + 2)) in
    let claimed : claim_id s.registry reg.server_id ≡ r =
      ap (claim_id s.registry) given ∙ claim_id-next s.registry n small few in
    let new = add_server_new r reg.host reg.port reg.transfer_port reg.public_port now fresh in
    rw valid (rw claimed (new.3, λ known. rw new.0 (rw known refl)))
