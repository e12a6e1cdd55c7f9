-- ===== src/Examples/WorkerRuns.antt =====
-- Runs of the workers of server/app/services/job_service.py: a deployment that ends, and six that
-- hold all workers.
use aether_v.Jobs.Workers.{
  Item, job, child, Worker, idle, waits_for, Pool, Work, takes, queues, take_job, queue_child,
  Reach, begin, submits, works, submit, start_pool, idle_workers,
}
use aether_v.Jobs.Workers.Drain.{drains, Drains}
use aether_v.Jobs.Workers.Measure.{Run, none_yet, one_more, Run-bounded, steps_left}
use aether_v.Jobs.Workers.Progress.{held-Work}
use aether_v.Prelude.{
  arith, ℕ, suc, ◌+◌, ◌≤◌, ◌≡◌, refl, true, false, List, [], ◌∷◌, ◌++◌, suc, zero,
}

-- One deployment with one child job.
abbrev first : Pool
first = submit 1 start_pool

abbrev taken : Pool
taken = take_job [] (idle_workers 5) (job 1) [] first

abbrev waiting : Pool
waiting = queue_child [] (idle_workers 5) 0 taken

first-Reach : Reach first
first-Reach = submits 1 begin

waiting-Run : Run first 2 waiting
waiting-Run =
    one_more (one_more none_yet (takes [] (idle_workers 5) (job 1) [] refl refl))
      (queues [] (idle_workers 5) 0 refl)

drains_example : Drains waiting
drains_example = drains first-Reach (omega arith) waiting-Run

Run-bounded_example : 2 + steps_left waiting ≤ steps_left first
Run-bounded_example = Run-bounded waiting-Run

-- A worker takes a deployment, which queues its first child job.
abbrev serve : List Worker → List Worker → List Item → Pool → Pool
serve xs ys rest s = queue_child xs ys 0 (take_job xs ys (job 1) rest s)

serve-Reach :
    {s : Pool} (r : Reach s) (xs ys : List Worker) (rest : List Item)
    → s.workers ≡ xs ++ idle ∷ ys
    → s.queue ≡ job 1 ∷ rest
    → Reach (serve xs ys rest s)
serve-Reach r xs ys rest e q = works (works r (takes xs ys (job 1) rest e q)) (queues xs ys 0 refl)

-- Workers that wait for the child jobs of the numbers from one on.
abbrev waiters : ℕ → ℕ → List Worker
waiters zero id = []
waiters (suc n) id = waits_for id 0 ∷ waiters n (suc id)

abbrev jobs : ℕ → List Item → List Item
jobs zero q = q
jobs (suc n) q = job 1 ∷ jobs n q

abbrev children : ℕ → ℕ → List Item
children zero id = []
children (suc n) id = child id ∷ children n (suc id)

-- After `n` of six deployments have a worker.
abbrev served : ℕ → ℕ → Pool
served n left = record {
  workers = waiters n 0 ++ idle_workers left;
  queue = jobs left (children n 0);
  next_id = n;
  over = λ c. false;
}

submitted-Reach : Reach (served 0 6)
submitted-Reach = submits 1 (submits 1 (submits 1 (submits 1 (submits 1 (submits 1 begin)))))

held-Reach : Reach (served 6 0)
held-Reach =
    serve-Reach
      (serve-Reach
        (serve-Reach
          (serve-Reach
            (serve-Reach (serve-Reach submitted-Reach [] (idle_workers 5) (jobs 5 []) refl refl)
              (waiters 1 0) (idle_workers 4) (jobs 4 (children 1 0)) refl refl)
            (waiters 2 0) (idle_workers 3) (jobs 3 (children 2 0)) refl refl)
          (waiters 3 0) (idle_workers 2) (jobs 2 (children 3 0)) refl refl)
        (waiters 4 0) (idle_workers 1) (jobs 1 (children 4 0)) refl refl)
      (waiters 5 0) [] (children 5 0) refl refl

-- Six deployments at once hold all six workers for ever: none can take a step any more, and the
-- child jobs stay in the queue.
six_deployments_stop : Reach (served 6 0) × ((t : Pool) → Work (served 6 0) t → true ≡ false)
six_deployments_stop =
    (held-Reach, λ t w. held-Work (refl, (refl, (refl, (refl, (refl, (refl, tt)))))) w)
