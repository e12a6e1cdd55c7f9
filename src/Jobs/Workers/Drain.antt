-- ===== src/Jobs/Workers/Drain.antt =====
-- That the workers of server/app/services/job_service.py finish what they have, where they are more
-- than the deployments.
use aether_v.Jobs.Workers.{
  Item, job, child, Worker, idle, runs_job, runs_child, waits_for, Pool, started, Work, takes,
  queues, ends_child, ends_job, ends_wait, Reach, works,
}
use aether_v.Jobs.Workers.Measure.{Run, none_yet, one_more, steps_left, steps_left-Work}
use aether_v.Jobs.Workers.Progress.{progress, IsQuiet, is_waiting}
use aether_v.Prelude.{
  ℕ, zero, suc, ◌+◌, ◌≤◌, ◌<◌, ◌≡◌, refl, true, not, inl, inr, List, [], ◌∷◌, ◌++◌, any, length,
  length-append, arith,
}

-- Whether a job is a deployment that still has a child job to wait for.
abbrev pub deploys : Item → ℕ
deploys (job zero) = 0
deploys (job (suc n)) = 1
deploys (child c) = 0

abbrev pub holds : Worker → ℕ
holds idle = 0
holds (runs_job zero) = 0
holds (runs_job (suc n)) = 1
holds (runs_child c) = 0
holds (waits_for c n) = 1

abbrev pub total {ℓ} : {A : Type ℓ} → (A → ℕ) → List A → ℕ
total f [] = 0
total f (x ∷ xs) = f x + total f xs

-- The deployments that are at a worker or in the queue.
abbrev pub deployments : Pool → ℕ
deployments s = total holds s.workers + total deploys s.queue

total-append {ℓ} :
    {A : Type ℓ} (f : A → ℕ) (xs ys : List A) → total f (xs ++ ys) ≡ total f xs + total f ys
total-append f [] ys = omega arith
total-append f (x ∷ xs) ys = omega (arith, total-append f xs ys)

-- The workers with one of them named.
total_at :
    (xs ys : List Worker) (w : Worker)
    → total holds (xs ++ w ∷ ys) ≡ total holds xs + (holds w + total holds ys)
total_at xs ys w = total-append holds xs (w ∷ ys)

length_at : (xs ys : List Worker) (w v : Worker) → length (xs ++ w ∷ ys) ≡ length (xs ++ v ∷ ys)
length_at xs ys w v = rw (length-append xs (w ∷ ys), length-append xs (v ∷ ys)) refl

holds-started : (i : Item) → holds (started i) ≡ deploys i
holds-started (job zero) = refl
holds-started (job (suc n)) = refl
holds-started (child c) = refl

holds-runs_job : (n : ℕ) → holds (runs_job n) ≤ 1
holds-runs_job zero = omega arith
holds-runs_job (suc n) = omega arith

-- A step makes no more deployments, and keeps the number of workers.
deployments-Work : {s t : Pool} → Work s t → deployments t ≤ deployments s
deployments-Work {s = s} (takes xs ys item rest e q) =
    rw (e, q)
      (omega (arith, total_at xs ys idle, total_at xs ys (started item), holds-started item))
deployments-Work {s = s} (queues xs ys n e) = rw e (
    omega (
      arith,
      total_at xs ys (runs_job (suc n)),
      total_at xs ys (waits_for s.next_id n),
      total-append deploys s.queue (child s.next_id ∷ []),
    ))
deployments-Work {s = s} (ends_child xs ys c e) =
    rw e (omega (arith, total_at xs ys idle, total_at xs ys (runs_child c)))
deployments-Work {s = s} (ends_job xs ys n e) =
    rw e (omega (arith, total_at xs ys idle, total_at xs ys (runs_job n)))
deployments-Work {s = s} (ends_wait xs ys c n e o) =
    rw e
      (omega (arith, total_at xs ys (runs_job n), total_at xs ys (waits_for c n), holds-runs_job n))

length-Work : {s t : Pool} → Work s t → length t.workers ≡ length s.workers
length-Work (takes xs ys item rest e q) = rw e (length_at xs ys (started item) idle)
length-Work {s = s} (queues xs ys n e) =
    rw e (length_at xs ys (waits_for s.next_id n) (runs_job (suc n)))
length-Work (ends_child xs ys c e) = rw e (length_at xs ys idle (runs_child c))
length-Work (ends_job xs ys n e) = rw e (length_at xs ys idle (runs_job n))
length-Work (ends_wait xs ys c n e o) = rw e (length_at xs ys (runs_job n) (waits_for c n))

free_worker :
    (ws : List Worker) → total holds ws < length ws → any (λ w. not (is_waiting w)) ws ≡ true
free_worker [] h = absurd (omega arith)
free_worker (idle ∷ ws) h = refl
free_worker (runs_job n ∷ ws) h = refl
free_worker (runs_child c ∷ ws) h = refl
free_worker (waits_for c n ∷ ws) h = free_worker ws (omega arith)

Run-first : {s t : Pool} {n : ℕ} {u : Pool} → Work s t → Run t n u → Run s (suc n) u
Run-first w none_yet = one_more none_yet w
Run-first w (one_more r v) = one_more (Run-first w r) v

-- A run to a state in which nothing is left to do.
abbrev pub Drains : Pool → Type 0
Drains s = (n : ℕ) × (t : Pool) × Run s n t × IsQuiet t

-- A run after a first step.
Drains-first : {s t : Pool} → Work s t → Drains t → Drains s
Drains-first w (n, u, run, quiet) = (suc n, u, Run-first w run, quiet)

drain :
    (fuel : ℕ) (s : Pool)
    → Reach s
    → steps_left s < fuel
    → deployments s < length s.workers
    → Drains s
drain zero s r enough few = absurd (omega arith)
drain (suc fuel) s r enough few = elim (progress r (free_worker s.workers (omega arith))) [
  | inl quiet ↦ (0, s, none_yet, quiet)
  | inr (t, w) ↦ Drains-first w (
      drain fuel t (works r w) (omega (arith, steps_left-Work w))
        (omega (arith, deployments-Work w, length-Work w)))
]

Run-Reach : {s : Pool} {n : ℕ} {t : Pool} → Reach s → Run s n t → Reach t
Run-Reach r none_yet = r
Run-Reach r (one_more run w) = works (Run-Reach r run) w

deployments-Run :
    {s : Pool} {n : ℕ} {t : Pool}
    → Run s n t
    → deployments s < length s.workers
    → deployments t < length t.workers
deployments-Run none_yet few = few
deployments-Run (one_more run w) few =
    omega (arith, deployments-Run run few, deployments-Work w, length-Work w)

-- From a state that the workers reach in which fewer deployments are at a worker or in the queue
-- than there are workers: whatever run the workers have had since, without a new job, they can run
-- on to a state in which all are idle and the queue is empty.
pub drains :
    {s : Pool} {n : ℕ} {t : Pool}
    → Reach s
    → deployments s < length s.workers
    → Run s n t
    → Drains t
drains {t = t} r few run =
    drain (suc (steps_left t)) t (Run-Reach r run) (omega arith) (deployments-Run run few)
