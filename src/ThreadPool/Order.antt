-- ===== src/ThreadPool/Order.antt =====
-- The order in which the pool of src/common/include/dfg/thread_pool.hpp runs its jobs.
use distributed_file_grid.Prelude.{
  ℕ, zero, suc, ◌+◌, ◌≡◌, refl, sym, ◌∙◌, ap, subst, ◌⊎◌, inl, inr, true, List, [], ◌∷◌, ◌++◌, some,
  arith, Bool-cases, Option-cases, length, length-append,
}
use distributed_file_grid.Prelude.Key.{bytes_key, ℤ_key}
use mathlib.Core.List.{append_assoc, Perm, perm_middle, perm_append_singleton}
use mathlib.Core.List.Perm
use mathlib.Core.Option.{some-injective}
use distributed_file_grid.ThreadPool.{
  ThreadPool, new_pool, submit, take_from, take_job, leave_from, leave, pick, finish_job, stop,
}

-- A step of a worker, of which there are several.
pub data Work : ThreadPool → ThreadPool → Type 0 where
  takes : {p q : ThreadPool} → take_job p ≡ some q → Work p q
  ends : {p q : ThreadPool} (k : ℕ) → finish_job k p ≡ some q → Work p q
  leaves : {p q : ThreadPool} → leave p ≡ some q → Work p q

-- What the workers and the callers of a pool can reach together.
pub data Reach (num_threads : ℕ) : ThreadPool → Type 0 where
  begin : Reach num_threads (new_pool num_threads)
  submits :
      {p q : ThreadPool} (job : ℕ)
      → Reach num_threads p
      → submit job p ≡ some q
      → Reach num_threads q
  works : {p q : ThreadPool} → Reach num_threads p → Work p q → Reach num_threads q
  stops : {p : ThreadPool} → Reach num_threads p → Reach num_threads (stop p)

pub record IsOrderly (num_threads : ℕ) (p : ThreadPool) : Type 0 where
  pub order : p.started ++ p.jobs ≡ p.accepted
  pub workers : p.idle + length p.busy + p.exited ≡ num_threads
  pub conserved : Perm p.started (p.finished ++ p.busy)
  pub running : length p.finished + length p.busy ≡ length p.started
  pub last : (p.exited ≡ 0) ⊎ ((p.stopped ≡ true) × (p.jobs ≡ []))

submit-IsOrderly :
    (n job : ℕ) (p q : ThreadPool) → IsOrderly n p → submit job p ≡ some q → IsOrderly n q
unfolding submit
submit-IsOrderly n job p q o h = elim (Bool-cases p.stopped) [
  | inl e ↦ absurd (cc (rw e at h))
  | inr e ↦
      subst (λ (t : ThreadPool). IsOrderly n t) (some-injective _ _ (rw e at h))
        (record {
          order =
              sym (append_assoc p.started p.jobs (job ∷ [])) ∙ ap (λ js. js ++ (job ∷ [])) o.order;
          workers = o.workers;
          conserved = o.conserved;
          running = o.running;
          last = elim o.last [ inl z ↦ inl z | inr s ↦ absurd (cc (s.0, e)) ];
        })
]

take-Perm :
    (job : ℕ) (started finished busy : List ℕ)
    → Perm started (finished ++ busy)
    → Perm (started ++ (job ∷ [])) (finished ++ (job ∷ busy))
take-Perm job started finished busy h =
    Perm.trans (perm_append_singleton job started)
      (Perm.trans (Perm.cons job h) (Perm.symm (perm_middle finished busy)))

take-IsOrderly :
    (n : ℕ) (p q : ThreadPool) (idle : ℕ) (jobs : List ℕ)
    → IsOrderly n p
    → p.idle ≡ idle
    → p.jobs ≡ jobs
    → take_from p idle jobs ≡ some q
    → IsOrderly n q
take-IsOrderly n p q zero jobs o i j h = absurd (cc h)
take-IsOrderly n p q (suc k) [] o i j h = absurd (cc h)
take-IsOrderly n p q (suc k) (job ∷ rest) o i j h =
    subst (λ (t : ThreadPool). IsOrderly n t) (some-injective _ _ h)
      (record {
        order =
            append_assoc p.started (job ∷ []) rest ∙ ap (λ js. p.started ++ js) (sym j) ∙ o.order;
        workers = omega (arith, o.workers);
        conserved = take-Perm job p.started p.finished p.busy o.conserved;
        running = omega (arith, o.running, length-append p.started (job ∷ []));
        last = elim o.last [ inl z ↦ inl z | inr s ↦ absurd (cc (s.1, j)) ];
      })

leave-IsOrderly :
    (n : ℕ) (p q : ThreadPool) (idle : ℕ) (jobs : List ℕ)
    → IsOrderly n p
    → p.idle ≡ idle
    → p.jobs ≡ jobs
    → leave_from p idle jobs ≡ some q
    → IsOrderly n q
leave-IsOrderly n p q zero jobs o i j h = absurd (cc h)
leave-IsOrderly n p q (suc k) (job ∷ rest) o i j h = absurd (cc h)
leave-IsOrderly n p q (suc k) [] o i j h = elim (Bool-cases p.stopped) [
  | inl e ↦
      subst (λ (t : ThreadPool). IsOrderly n t) (some-injective _ _ (rw e at h))
        (record {
          order = o.order;
          workers = omega (arith, o.workers);
          conserved = o.conserved;
          running = o.running;
          last = inr (refl, j);
        })
  | inr e ↦ absurd (cc (rw e at h))
]

pub length-pick :
    (k : ℕ) (busy : List ℕ) (job : ℕ) (others : List ℕ)
    → pick k busy ≡ some (job, others)
    → length busy ≡ suc (length others)
unfolding pick
length-pick k [] job others h = absurd (cc h)
length-pick zero (j ∷ rest) job others h =
    ap (λ (t : ℕ × List ℕ). suc (length t.1)) (some-injective _ _ h)
length-pick (suc k) (j ∷ rest) job others h = elim (Option-cases (pick k rest)) [
  | inl e ↦ absurd (cc (rw e at h))
  | inr ((found, left), e) ↦
      ap suc (length-pick k rest found left e)
      ∙ ap (λ (t : ℕ × List ℕ). suc (length t.1)) (some-injective _ _ (rw e at h))
]

pick-Perm :
    (k : ℕ) (busy : List ℕ) (job : ℕ) (others : List ℕ)
    → pick k busy ≡ some (job, others)
    → Perm busy (job ∷ others)
unfolding pick
pick-Perm k [] job others h = absurd (cc h)
pick-Perm zero (j ∷ rest) job others h =
    subst (λ (t : ℕ × List ℕ). Perm (j ∷ rest) (t.0 ∷ t.1)) (some-injective _ _ h)
      (Perm.refl (j ∷ rest))
pick-Perm (suc k) (j ∷ rest) job others h = elim (Option-cases (pick k rest)) [
  | inl e ↦ absurd (cc (rw e at h))
  | inr ((found, left), e) ↦
      subst (λ (t : ℕ × List ℕ). Perm (j ∷ rest) (t.0 ∷ t.1)) (some-injective _ _ (rw e at h))
        (Perm.trans (Perm.cons j (pick-Perm k rest found left e)) (perm_middle (j ∷ []) left))
]

finish-Perm :
    (job : ℕ) (started finished busy others : List ℕ)
    → Perm started (finished ++ busy)
    → Perm busy (job ∷ others)
    → Perm started ((finished ++ (job ∷ [])) ++ others)
finish-Perm job started finished busy others h picked =
    subst (Perm started) (sym (append_assoc finished (job ∷ []) others))
      (Perm.trans h (Perm.append_left finished picked))

finish-IsOrderly :
    (n k : ℕ) (p q : ThreadPool) → IsOrderly n p → finish_job k p ≡ some q → IsOrderly n q
unfolding finish_job
finish-IsOrderly n k p q o h = elim (Option-cases (pick k p.busy)) [
  | inl e ↦ absurd (cc (rw e at h))
  | inr ((job, others), e) ↦
      let one_less = length-pick k p.busy job others e in
      subst (λ (t : ThreadPool). IsOrderly n t) (some-injective _ _ (rw e at h))
        (record {
          order = o.order;
          workers = omega (arith, o.workers);
          conserved =
              finish-Perm job p.started p.finished p.busy others o.conserved
                (pick-Perm k p.busy job others e);
          running = omega (arith, o.running, length-append p.finished (job ∷ []));
          last = o.last;
        })
]

pub Work-IsOrderly : {n : ℕ} {p q : ThreadPool} → IsOrderly n p → Work p q → IsOrderly n q
unfolding take_job leave
Work-IsOrderly {n} {p} {q} o (takes h) = take-IsOrderly n p q p.idle p.jobs o refl refl h
Work-IsOrderly {n} {p} {q} o (ends k h) = finish-IsOrderly n k p q o h
Work-IsOrderly {n} {p} {q} o (leaves h) = leave-IsOrderly n p q p.idle p.jobs o refl refl h

stop-IsOrderly : (n : ℕ) (p : ThreadPool) → IsOrderly n p → IsOrderly n (stop p)
unfolding stop
stop-IsOrderly n p o = record {
  order = o.order;
  workers = o.workers;
  conserved = o.conserved;
  running = o.running;
  last = elim o.last [ inl z ↦ inl z | inr s ↦ inr (refl, s.1) ];
}

-- After any interleaving of submissions, worker steps and a stop, the jobs started and those queued
-- are the accepted jobs in their order, no worker is lost, the jobs started are those finished and
-- those running, each as often, and a worker has returned only if the pool is stopped and its queue
-- empty.
pub Reach-IsOrderly : {n : ℕ} {p : ThreadPool} → Reach n p → IsOrderly n p
Reach-IsOrderly begin = record {
  order = refl;
  workers = omega arith;
  conserved = Perm.refl [];
  running = refl;
  last = inl refl;
}
Reach-IsOrderly {n} {p = q} (submits {p} job r h) = submit-IsOrderly n job p q (Reach-IsOrderly r) h
Reach-IsOrderly (works r w) = Work-IsOrderly (Reach-IsOrderly r) w
Reach-IsOrderly {n} (stops {p} r) = stop-IsOrderly n p (Reach-IsOrderly r)
