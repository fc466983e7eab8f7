-- ===== src/Health/Detection.antt =====
-- When a silent server is reported: the count of missed heartbeats decides, exactly.
use distributed_file_grid.Prelude.{
  ℕ, ◌<◌, ◌≡◌, sym, inl, inr, Bool, [], arith, ltb, Bool-cases, lt→ltb, All,
}
use distributed_file_grid.Prelude.Int.{ℤ}
use distributed_file_grid.Prelude.Key.{Bytes, bytes_key, ℤ_key}
use distributed_file_grid.Prelude.Map.{member, All-insert, All-erase}
use distributed_file_grid.Prelude.Map.Sorted.{IsSorted, insert-IsSorted, erase-IsSorted}
use distributed_file_grid.Health.{
  ServerHealth, HealthMonitor, check_entry, check_health, record_heartbeat, register_server,
  registered, deregister_server, heartbeat_entry,
}
use distributed_file_grid.Health.Check.{check_loop-IsSorted, All-check_loop}

-- A server counts as healthy while it has missed fewer heartbeats than the limit.
abbrev pub IsCounted : {F : Type 0} → ℕ → ServerHealth F → Type 0
IsCounted limit h = h.is_healthy ≡ ltb h.missed_heartbeats limit

pub record IsValid {F : Type 0} (m : HealthMonitor F) : Type 0 where
  pub sorted : IsSorted m.servers
  pub limit_pos : 0 < m.max_missed_heartbeats
  pub counted : All (λ e. IsCounted m.max_missed_heartbeats e.1) m.servers

module _ {F : Type 0} where
  check_entry-IsCounted :
      (timeout limit now : ℕ) (h : ServerHealth F)
      → IsCounted limit h
      → IsCounted limit (check_entry timeout limit now h).0
  unfolding check_entry
  check_entry-IsCounted timeout limit now h c = ground arith

  pub check_health-IsValid :
      (m : HealthMonitor F) (now : ℕ) → IsValid m → IsValid (check_health m now).0
  unfolding check_health
  check_health-IsValid m now v =
      let check = check_entry m.heartbeat_timeout m.max_missed_heartbeats now in
      record {
        sorted = check_loop-IsSorted check m.servers v.sorted;
        limit_pos = v.limit_pos;
        counted =
            All-check_loop check (IsCounted m.max_missed_heartbeats)
              (check_entry-IsCounted m.heartbeat_timeout m.max_missed_heartbeats now) m.servers
              v.counted;
      }

  record_heartbeat-IsValid :
      (z : F) (m : HealthMonitor F) (i : ℤ) (h : ServerHealth F) (now : ℕ)
      → IsValid m
      → IsValid (record_heartbeat z m i h now).0
  unfolding record_heartbeat
  record_heartbeat-IsValid z m i h now v = record {
    sorted = insert-IsSorted i (heartbeat_entry h now) m.servers v.sorted;
    limit_pos = v.limit_pos;
    counted =
        All-insert (λ e. IsCounted m.max_missed_heartbeats e.1) i (heartbeat_entry h now) m.servers
          (sym (lt→ltb 0 m.max_missed_heartbeats v.limit_pos)) v.counted;
  }

  register_server-IsValid :
      (z : F) (m : HealthMonitor F) (i : ℤ) (ip : Bytes) (now : ℕ)
      → IsValid m
      → IsValid (register_server z m i ip now)
  unfolding register_server
  register_server-IsValid z m i ip now v = elim (Bool-cases (member i m.servers)) [
    | inl e ↦ rw e v
    | inr e ↦ rw e (record {
      sorted = insert-IsSorted i (registered z i ip now) m.servers v.sorted;
      limit_pos = v.limit_pos;
      counted =
          All-insert (λ x. IsCounted m.max_missed_heartbeats x.1) i (registered z i ip now)
            m.servers (sym (lt→ltb 0 m.max_missed_heartbeats v.limit_pos)) v.counted;
    })
  ]

  deregister_server-IsValid :
      (m : HealthMonitor F) (i : ℤ) → IsValid m → IsValid (deregister_server m i)
  unfolding deregister_server
  deregister_server-IsValid m i v = record {
    sorted = erase-IsSorted i m.servers v.sorted;
    limit_pos = v.limit_pos;
    counted = All-erase (λ x. IsCounted m.max_missed_heartbeats x.1) i m.servers v.counted;
  }

  abbrev pub new_monitor : ℕ → ℕ → Bool → Bool → HealthMonitor F
  new_monitor timeout limit on_unhealthy on_recovered = record {
    servers = [];
    heartbeat_timeout = timeout;
    max_missed_heartbeats = limit;
    unhealthy_cb = on_unhealthy;
    recovered_cb = on_recovered;
  }

-- The monitors that any interleaving of the methods leads to.
pub data Reach {F : Type 0} (z : F) : HealthMonitor F → Type 0 where
  start : (timeout limit : ℕ) (u r : Bool) → 0 < limit → Reach z (new_monitor timeout limit u r)
  heard :
      {m : HealthMonitor F} (i : ℤ) (h : ServerHealth F) (now : ℕ)
      → Reach z m
      → Reach z (record_heartbeat z m i h now).0
  checked : {m : HealthMonitor F} (now : ℕ) → Reach z m → Reach z (check_health m now).0
  joined :
      {m : HealthMonitor F} (i : ℤ) (ip : Bytes) (now : ℕ)
      → Reach z m
      → Reach z (register_server z m i ip now)
  left : {m : HealthMonitor F} (i : ℤ) → Reach z m → Reach z (deregister_server m i)

-- After any calls on a new monitor with a positive limit, every server is healthy exactly while its
-- missed heartbeats are below the limit, and the map is sorted with each id once.
pub Reach-IsValid : {F : Type 0} {z : F} {m : HealthMonitor F} → Reach z m → IsValid m
Reach-IsValid (start timeout limit u r h) = record { sorted = tt; limit_pos = h; counted = tt }
Reach-IsValid {z = z} (heard {m} i h now r) = record_heartbeat-IsValid z m i h now (Reach-IsValid r)
Reach-IsValid (checked {m} now r) = check_health-IsValid m now (Reach-IsValid r)
Reach-IsValid {z = z} (joined {m} i ip now r) =
    register_server-IsValid z m i ip now (Reach-IsValid r)
Reach-IsValid (left {m} i r) = deregister_server-IsValid m i (Reach-IsValid r)
