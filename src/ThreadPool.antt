-- ===== src/ThreadPool.antt =====
-- `ThreadPool` of src/common/include/dfg/thread_pool.hpp. What a thread does while it holds the mutex is
-- one transition, and so is the end of a job; a transition that is not possible is `none`. A job is a
-- number.
pub mod Order
pub mod Drain
pub mod Tests
use distributed_file_grid.Prelude.{
  ℕ, zero, suc, ◌+◌, ◌-◌, ◌*◌, ◌/◌, ◌%◌, ◌^◌, ◌≤◌, ◌<◌, ◌≡◌, refl, sym, ◌∙◌, ap, subst, ◌≢◌, ◌↔◌,
  ◌⊎◌, inl, inr, Bool, true, false, ◌&&◌, ◌||◌, not, List, [], ◌∷◌, ◌++◌, map, Option, none, some,
  arith, ltb, leb, ◌==◌, if◌then◌else◌, Bool-cases, Option-cases, &&-true, lt→ltb, ltb→lt, leb→le,
  ==_iff, Bool_eq_of_iff, length, take, drop, replicate, get_or, keep, count_if, any, find_if, All,
  length-append, length-take, length-drop, length-replicate, length-zero, take-append-drop,
  All-append, All-keep, All-mono, count_if-append, count_if-le-length, All-keep_test, String,
}
use distributed_file_grid.Prelude.Int.{ℤ, pos, negsuc, ltb_ℤ, eqb_ℤ}
use distributed_file_grid.Prelude.Key.{
  Key, Bytes, bytes_eq, bytes_lt, bytes_eq_iff, bytes_key, ℤ_key, eqb_ℤ_iff,
}
use distributed_file_grid.Prelude.Map.{
  Map, find, insert, erase, member, find_or, keys, values, find-insert, find-erase, same_refl,
  All-insert, All-erase, All-find,
}
use distributed_file_grid.Prelude.Text.{
  str, is_space, is_digit, digits, to_string, int_to_string, skip_ws, scan_digits, read_int,
  int_limit, long_limit, stoi, stoll, find_char, starts_with, find_sub, contains, substr, word_of,
  after_word, read_word,
}

-- `jobs` is the queue and `stopped` the flag. Of the workers `idle` are between two jobs, `exited` have
-- returned, and the others run the jobs of `busy`. The last three record the jobs that were accepted,
-- started and finished, in this order.
pub record ThreadPool : Type 0 where
  pub jobs : List ℕ
  pub stopped : Bool
  pub idle : ℕ
  pub busy : List ℕ
  pub exited : ℕ
  pub accepted : List ℕ
  pub started : List ℕ
  pub finished : List ℕ

abbrev pub new_pool : ℕ → ThreadPool
new_pool num_threads = record {
  jobs = [];
  stopped = false;
  idle = num_threads;
  busy = [];
  exited = 0;
  accepted = [];
  started = [];
  finished = [];
}

-- `none` is the exception.
unfoldable pub submit : ℕ → ThreadPool → Option ThreadPool
submit job p =
    if p.stopped
    then none
    else some (record p { jobs = p.jobs ++ (job ∷ []); accepted = p.accepted ++ (job ∷ []) })

abbrev take_from : ThreadPool → ℕ → List ℕ → Option ThreadPool
take_from p (suc n) (job ∷ rest) =
    some
      (record p { jobs = rest; idle = n; busy = job ∷ p.busy; started = p.started ++ (job ∷ []) })
take_from p zero jobs = none
take_from p (suc n) [] = none

-- A worker takes the job at the front.
unfoldable pub take_job : ThreadPool → Option ThreadPool
take_job p = take_from p p.idle p.jobs

abbrev leave_from : ThreadPool → ℕ → List ℕ → Option ThreadPool
leave_from p (suc n) [] =
    if p.stopped then some (record p { idle = n; exited = suc p.exited }) else none
leave_from p zero jobs = none
leave_from p (suc n) (job ∷ rest) = none

-- A worker returns: the pool is stopped and the queue is empty.
unfoldable pub leave : ThreadPool → Option ThreadPool
leave p = leave_from p p.idle p.jobs

abbrev pub put_back : ℕ → Option (ℕ × List ℕ) → Option (ℕ × List ℕ)
put_back job none = none
put_back job (some (found, others)) = some (found, job ∷ others)

-- The job at position k, and the others.
unfoldable pub pick : ℕ → List ℕ → Option (ℕ × List ℕ)
pick k [] = none
pick zero (job ∷ rest) = some (job, rest)
pick (suc k) (job ∷ rest) = put_back job (pick k rest)

abbrev finish_picked : ThreadPool → Option (ℕ × List ℕ) → Option ThreadPool
finish_picked p none = none
finish_picked p (some (job, others)) =
    some (record p { idle = suc p.idle; busy = others; finished = p.finished ++ (job ∷ []) })

-- One of the running jobs ends.
unfoldable pub finish_job : ℕ → ThreadPool → Option ThreadPool
unfolding pick
finish_job k p = finish_picked p (pick k p.busy)

-- The destructor, up to the joins.
unfoldable pub stop : ThreadPool → ThreadPool
stop p = record p { stopped = true }
