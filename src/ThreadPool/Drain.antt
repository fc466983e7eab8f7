-- ===== src/ThreadPool/Drain.antt =====
-- The workers of the pool of src/common/include/dfg/thread_pool.hpp come to an end, and the destructor
-- waits for all jobs.
use distributed_file_grid.Prelude.{
  ℕ, zero, suc, ◌+◌, ◌*◌, ◌<◌, ◌≡◌, refl, sym, ◌∙◌, ap, subst, inl, inr, true, List, [], ◌∷◌, ◌++◌,
  some, arith, Bool-cases, Option-cases, length,
}
use distributed_file_grid.Prelude.Key.{bytes_key, ℤ_key}
use mathlib.Core.List.{append-nil, Perm}
use mathlib.Core.Option.{some-injective}
use distributed_file_grid.ThreadPool.{
  ThreadPool, take_from, take_job, leave_from, leave, pick, finish_picked, finish_job,
}
use distributed_file_grid.ThreadPool.Order.{
  Work, takes, ends, leaves, Reach, Reach-IsOrderly, length-pick,
}

-- A bound on the steps that the workers can still make.
unfoldable pub left : ThreadPool → ℕ
left p = 3 * length p.jobs + (2 * length p.busy + p.idle)

take-left :
    (p q : ThreadPool) (idle : ℕ) (jobs : List ℕ)
    → p.idle ≡ idle
    → p.jobs ≡ jobs
    → take_from p idle jobs ≡ some q
    → left q < left p
unfolding left
take-left p q zero jobs i j h = absurd (cc h)
take-left p q (suc k) [] i j h = absurd (cc h)
take-left p q (suc k) (job ∷ rest) i j h =
    let size : length p.jobs ≡ suc (length rest) = ap length j in
    subst (λ (t : ThreadPool). left t < left p) (some-injective _ _ h) (omega arith)

leave-left :
    (p q : ThreadPool) (idle : ℕ) (jobs : List ℕ)
    → p.idle ≡ idle
    → leave_from p idle jobs ≡ some q
    → left q < left p
unfolding left
leave-left p q zero jobs i h = absurd (cc h)
leave-left p q (suc k) (job ∷ rest) i h = absurd (cc h)
leave-left p q (suc k) [] i h = elim (Bool-cases p.stopped) [
  | inl e ↦
      subst (λ (t : ThreadPool). left t < left p) (some-injective _ _ (rw e at h)) (omega arith)
  | inr e ↦ absurd (cc (rw e at h))
]

finish-left : (k : ℕ) (p q : ThreadPool) → finish_job k p ≡ some q → left q < left p
unfolding left finish_job
finish-left k p q h = elim (Option-cases (pick k p.busy)) [
  | inl e ↦ absurd (cc (rw e at h))
  | inr ((job, others), e) ↦
      let one_less = length-pick k p.busy job others e in
      subst (λ (t : ThreadPool). left t < left p) (some-injective _ _ (rw e at h)) (omega arith)
]

-- Every step of a worker makes a number smaller, so that without new jobs the workers come to an
-- end.
pub Work-left : {p q : ThreadPool} → Work p q → left q < left p
unfolding take_job leave
Work-left {p} {q} (takes h) = take-left p q p.idle p.jobs refl refl h
Work-left {p} {q} (ends k h) = finish-left k p q h
Work-left {p} {q} (leaves h) = leave-left p q p.idle p.jobs refl h

-- No worker can make a step.
abbrev pub IsStuck : ThreadPool → Type 0
IsStuck p = (q : ThreadPool) → ¬ Work p q

stuck-busy : (p : ThreadPool) (busy : List ℕ) → IsStuck p → p.busy ≡ busy → busy ≡ []
unfolding finish_job pick
stuck-busy p [] stuck e = refl
stuck-busy p (job ∷ rest) stuck e =
    absurd (stuck _ (ends 0 (ap (λ b. finish_picked p (pick 0 b)) e)))

stuck-idle :
    (p : ThreadPool) (idle : ℕ) (jobs : List ℕ)
    → IsStuck p
    → p.stopped ≡ true
    → p.idle ≡ idle
    → p.jobs ≡ jobs
    → idle ≡ 0
unfolding take_job leave
stuck-idle p zero jobs stuck s i j = refl
stuck-idle p (suc k) [] stuck s i j =
    let after = record p { idle = k; exited = suc p.exited } in
    let leaving : leave_from p (suc k) [] ≡ some after = rw s refl in
    absurd (
      stuck after
        (leaves (ap (λ t. leave_from p t p.jobs) i ∙ ap (leave_from p (suc k)) j ∙ leaving)))
stuck-idle p (suc k) (job ∷ rest) stuck s i j =
    absurd (stuck _ (takes (ap (λ t. take_from p t p.jobs) i ∙ ap (take_from p (suc k)) j)))

-- In a stopped pool with a worker, in which no worker can make a step, every accepted job was
-- started, in the order of acceptance, the finished jobs are the accepted ones, each as often, and
-- all workers have returned.
pub stuck-drained :
    {n : ℕ} {p : ThreadPool}
    → Reach n p
    → 0 < n
    → p.stopped ≡ true
    → IsStuck p
    → (p.started ≡ p.accepted)
      × Perm p.accepted p.finished
      × (length p.finished ≡ length p.accepted)
      × (p.exited ≡ n)
stuck-drained {n} {p} r some_worker stopped stuck =
    let o = Reach-IsOrderly r in
    let no_idle = stuck-idle p p.idle p.jobs stuck stopped refl refl in
    let idle_all : p.busy ≡ [] = stuck-busy p p.busy stuck refl in
    let no_busy : length p.busy ≡ 0 = ap length idle_all in
    let all_out : p.exited ≡ n = omega (arith, o.workers) in
    let no_jobs : p.jobs ≡ [] = elim o.last [ inl z ↦ absurd (omega arith) | inr s ↦ s.1 ] in
    let in_order : p.started ≡ p.accepted =
      sym (append-nil p.started) ∙ ap (λ js. p.started ++ js) (sym no_jobs) ∙ o.order in
    let all_finished : p.finished ++ p.busy ≡ p.finished =
      ap (λ js. p.finished ++ js) idle_all ∙ append-nil p.finished in
    let done : Perm p.accepted p.finished =
      subst (λ js. Perm js p.finished) in_order (subst (Perm p.started) all_finished o.conserved) in
    (in_order, done, omega (arith, o.running, ap length in_order), all_out)
