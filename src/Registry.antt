-- ===== src/Registry.antt =====
-- `ServerRegistry` of src/common/include/dfg/server_registry.hpp. The mutex makes each method one
-- step; the time of registration is an argument. `next_id_` is an atomic int, whose increment wraps
-- round at 2^31 - 1. The console output is left out.
pub mod Entries
pub mod Invariant
pub mod Lookup
pub mod Tests
use distributed_file_grid.Prelude.{
  ℕ, zero, suc, ◌+◌, ◌-◌, ◌*◌, ◌/◌, ◌%◌, ◌^◌, ◌≤◌, ◌<◌, ◌≡◌, refl, sym, ◌∙◌, ap, subst, ◌≢◌, ◌↔◌,
  ◌⊎◌, inl, inr, Bool, true, false, ◌&&◌, ◌||◌, not, List, [], ◌∷◌, ◌++◌, map, Option, none, some,
  arith, ltb, leb, ◌==◌, if◌then◌else◌, Bool-cases, Option-cases, &&-true, lt→ltb, ltb→lt, leb→le,
  ==_iff, Bool_eq_of_iff, length, take, drop, replicate, get_or, keep, count_if, any, find_if, All,
  length-append, length-take, length-drop, length-replicate, take-append-drop, All-append, All-keep,
  All-mono, count_if-append, count_if-le-length, All-keep_test, String,
}
use distributed_file_grid.Prelude.Int.{ℤ, pos, negsuc, ltb_ℤ, eqb_ℤ, int_suc}
use distributed_file_grid.Prelude.Key.{
  Key, Bytes, bytes_eq, bytes_lt, bytes_eq_iff, bytes_key, ℤ_key, eqb_ℤ_iff,
}
use distributed_file_grid.Prelude.Map.{
  Map, find, insert, erase, member, find_or, keys, values, find-insert, find-erase, same_refl,
  All-insert, All-erase, All-find,
}
use distributed_file_grid.Prelude.Text.{
  str, is_space, is_digit, digits, to_string, int_to_string, skip_ws, scan_digits, read_int,
  int_limit, long_limit, stoi, stoll, find_char, starts_with, find_sub, substr, word_of, after_word,
  read_word,
}
use distributed_file_grid.Address.{format_address, colon}

pub record ServerEntry : Type 0 where
  pub id : ℤ
  pub host : Bytes
  pub port : ℤ
  pub transfer_port : ℤ
  pub public_port : ℤ
  pub status : Bytes
  pub registered_at : ℕ

abbrev pub address : ServerEntry → Bytes
address e = format_address e.host e.port

-- What the change callback is told: the entry, and whether it was added.
pub record Change : Type 0 where
  pub entry : ServerEntry
  pub added : Bool

pub record Registry : Type 0 where
  pub servers : Map ℤ ServerEntry
  pub next_id : ℤ

abbrev pub empty : Registry
empty = record { servers = []; next_id = pos 1 }

-- The test of the duplicate search.
abbrev pub at_address : Bytes → ℤ → ℤ × ServerEntry → Bool
at_address host port (i, e) = if bytes_eq e.host host then eqb_ℤ e.port port else false

abbrev pub new_entry : ℤ → Bytes → ℤ → ℤ → ℤ → ℕ → ServerEntry
new_entry i host port transfer_port public_port now = record {
  id = i;
  host = host;
  port = port;
  transfer_port = transfer_port;
  public_port = public_port;
  status = str "active";
  registered_at = now;
}

-- The new registry, the id that is returned, and the change that the callback is told.
pub record Added : Type 0 where
  pub registry : Registry
  pub id : ℤ
  pub change : Option Change

unfoldable pub add_new : Registry → ServerEntry → Added
add_new r e = record {
  registry = record { servers = insert e.id e r.servers; next_id = int_suc r.next_id };
  id = e.id;
  change = some (record { entry = e; added = true });
}

abbrev existing_or : Registry → ServerEntry → Option (ℤ × ServerEntry) → Added
existing_or r e none = add_new r e
existing_or r e (some (i, old)) = record { registry = r; id = i; change = none }

unfoldable pub add_server : Registry → Bytes → ℤ → ℤ → ℤ → ℕ → Added
unfolding add_new
add_server r host port transfer_port public_port now =
    existing_or r (new_entry r.next_id host port transfer_port public_port now)
      (find_if (at_address host port) r.servers)

abbrev remove_found : Registry → ℤ → Option ServerEntry → Registry × Bool × Option Change
remove_found r i none = (r, false, none)
remove_found r i (some e) =
    (record r { servers = erase i r.servers }, true, some (record { entry = e; added = false }))

-- The new registry, whether the server was there, and the change that the callback is told.
unfoldable pub remove_server : Registry → ℤ → Registry × Bool × Option Change
remove_server r i = remove_found r i (find i r.servers)

unfoldable pub get_addresses : Registry → List Bytes
get_addresses r = map address (keep (λ e. bytes_eq e.status (str "active")) (values r.servers))

unfoldable pub get_all : Registry → List ServerEntry
get_all r = values r.servers

unfoldable pub set_next_id : Registry → ℤ → Registry
set_next_id r n = record r { next_id = n }

unfoldable pub count : Registry → ℕ
count r = length r.servers

-- The address as `load_from_config` cuts it. A port that is no number throws, which ends the loading.
abbrev load_one : Registry → Bytes → Option ℕ → ℕ → Option Registry
load_one r addr none now = some r
load_one r addr (some p) now = elim (stoi (drop (suc p) addr)) [
  | none ↦ none
  | some port ↦ some (add_server r (take p addr) port (negsuc 0) (negsuc 0) now).registry
]

-- `none` stands for the exception.
unfoldable pub load_from_config : Registry → List Bytes → ℕ → Option Registry
load_from_config r [] now = some r
load_from_config r (addr ∷ rest) now = elim (load_one r addr (find_char colon addr) now) [
  | none ↦ none
  | some r' ↦ load_from_config r' rest now
]

-- The port of a transfer to the server with the given address: the loop that the head server runs
-- before each transfer, which stops at the first entry with the address.
abbrev port_of : Option ServerEntry → ℤ
port_of none = pos 8180
port_of (some e) = if ltb_ℤ (pos 0) e.transfer_port then e.transfer_port else pos 8180

unfoldable pub transfer_port_for : Registry → Bytes → ℤ
unfolding get_all
transfer_port_for r server = port_of (find_if (λ e. bytes_eq (address e) server) (get_all r))
