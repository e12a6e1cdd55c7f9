-- ===== src/Jobs/Workers/Measure.antt =====
-- How many steps the workers of server/app/services/job_service.py can still take.
use aether_v.Jobs.Workers.{
  Item, job, child, Worker, idle, runs_job, runs_child, waits_for, Pool, started, Work, takes,
  queues, ends_child, ends_job, ends_wait,
}
use aether_v.Prelude.{ℕ, suc, ◌+◌, ◌*◌, ◌≤◌, ◌<◌, ◌≡◌, List, [], ◌∷◌, ◌++◌, arith}

abbrev pub item_steps : Item → ℕ
item_steps (job n) = 2 + 4 * n
item_steps (child c) = 2

abbrev pub worker_steps : Worker → ℕ
worker_steps idle = 0
worker_steps (runs_job n) = 1 + 4 * n
worker_steps (runs_child c) = 1
worker_steps (waits_for c n) = 2 + 4 * n

abbrev pub queue_steps : List Item → ℕ
queue_steps [] = 0
queue_steps (i ∷ q) = item_steps i + queue_steps q

abbrev pub all_steps : List Worker → ℕ
all_steps [] = 0
all_steps (w ∷ ws) = worker_steps w + all_steps ws

-- The number of steps that are left, at most.
abbrev pub steps_left : Pool → ℕ
steps_left s = all_steps s.workers + queue_steps s.queue

queue_steps-append : (p q : List Item) → queue_steps (p ++ q) ≡ queue_steps p + queue_steps q
queue_steps-append [] q = omega arith
queue_steps-append (i ∷ p) q = omega (arith, queue_steps-append p q)

all_steps-append : (p q : List Worker) → all_steps (p ++ q) ≡ all_steps p + all_steps q
all_steps-append [] q = omega arith
all_steps-append (w ∷ p) q = omega (arith, all_steps-append p q)

-- The workers with one of them changed.
all_steps_at :
    (xs ys : List Worker) (w : Worker)
    → all_steps (xs ++ w ∷ ys) ≡ all_steps xs + (worker_steps w + all_steps ys)
all_steps_at xs ys w = all_steps-append xs (w ∷ ys)

worker_steps-started : (i : Item) → worker_steps (started i) < item_steps i
worker_steps-started (job n) = omega arith
worker_steps-started (child c) = omega arith

pub steps_left-Work : {s t : Pool} → Work s t → steps_left t < steps_left s
steps_left-Work {s = s} (takes xs ys item rest e q) =
    rw (e, q)
      (omega (
        arith,
        all_steps_at xs ys idle,
        all_steps_at xs ys (started item),
        worker_steps-started item,
      ))
steps_left-Work {s = s} (queues xs ys n e) = rw e (
    omega (
      arith,
      all_steps_at xs ys (runs_job (suc n)),
      all_steps_at xs ys (waits_for s.next_id n),
      queue_steps-append s.queue (child s.next_id ∷ []),
    ))
steps_left-Work {s = s} (ends_child xs ys c e) =
    rw e (omega (arith, all_steps_at xs ys idle, all_steps_at xs ys (runs_child c)))
steps_left-Work {s = s} (ends_job xs ys n e) =
    rw e (omega (arith, all_steps_at xs ys idle, all_steps_at xs ys (runs_job n)))
steps_left-Work {s = s} (ends_wait xs ys c n e o) =
    rw e (omega (arith, all_steps_at xs ys (runs_job n), all_steps_at xs ys (waits_for c n)))

-- A run of the workers, with its length.
pub data Run (s : Pool) : ℕ → Pool → Type 0 where
  none_yet : Run s 0 s
  one_more : {n : ℕ} {t u : Pool} → Run s n t → Work t u → Run s (suc n) u

-- While no job comes in, the workers can take only so many steps, in any order: a run of n steps
-- uses up n of the bound, which is two for a job in the queue, and four for each child job of
-- a deployment.
pub Run-bounded : {s : Pool} {n : ℕ} {t : Pool} → Run s n t → n + steps_left t ≤ steps_left s
Run-bounded none_yet = omega arith
Run-bounded (one_more r w) = omega (arith, Run-bounded r, steps_left-Work w)
