-- ===== src/ThreadPool/Tests.antt =====
-- A pool with one worker and two jobs.
use mathlib.Core.List.{Perm}
use distributed_file_grid.Prelude.{◌<◌, ◌≡◌, refl, true, [], ◌∷◌, arith, length}
use distributed_file_grid.Prelude.Key.{bytes_key, ℤ_key}
use distributed_file_grid.ThreadPool.{
  ThreadPool, new_pool, submit, take_job, leave, pick, finish_job, stop,
}
use distributed_file_grid.ThreadPool.Order.{
  Work, takes, ends, leaves, Reach, begin, submits, works, stops, IsOrderly, Reach-IsOrderly,
}
use distributed_file_grid.ThreadPool.Drain.{left, Work-left, IsStuck, stuck-drained}

abbrev queued : ThreadPool
queued = record (new_pool 1) { jobs = 7 ∷ []; accepted = 7 ∷ [] }

abbrev running : ThreadPool
running = record queued { jobs = []; idle = 0; busy = 7 ∷ []; started = 7 ∷ [] }

abbrev waiting : ThreadPool
waiting = record running { busy = []; idle = 1; finished = 7 ∷ [] }

abbrev gone : ThreadPool
gone = record waiting { stopped = true; idle = 0; exited = 1 }

queued-Reach : Reach 1 queued
unfolding submit
queued-Reach = submits 7 begin refl

running-Work : Work queued running
unfolding take_job
running-Work = takes refl

gone-Reach : Reach 1 gone
unfolding take_job finish_job leave stop pick
gone-Reach = works (stops (works (works queued-Reach running-Work) (ends 0 refl))) (leaves refl)

gone-IsStuck : IsStuck gone
unfolding take_job finish_job leave pick
gone-IsStuck q (takes h) = cc h
gone-IsStuck q (ends k h) = cc h
gone-IsStuck q (leaves h) = cc h

Reach-IsOrderly_example : IsOrderly 1 gone
Reach-IsOrderly_example = Reach-IsOrderly gone-Reach

Work-left_example : left running < left queued
Work-left_example = Work-left running-Work

stuck-drained_example :
    (gone.started ≡ gone.accepted)
    × Perm gone.accepted gone.finished
    × (length gone.finished ≡ length gone.accepted)
    × (gone.exited ≡ 1)
stuck-drained_example = stuck-drained gone-Reach (omega arith) refl gone-IsStuck
