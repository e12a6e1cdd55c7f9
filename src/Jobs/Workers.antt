-- ===== src/Jobs/Workers.antt =====
-- The worker tasks of server/app/services/job_service.py, which take jobs from one queue. A managed
-- deployment keeps its worker while it waits for each of its child jobs, and those go through the
-- same queue. Of a job there is the number of child jobs that it queues if it does not fail before;
-- a child job has a number of its own in place of its id, and queues none.
pub mod Measure
pub mod Backing
pub mod Progress
pub mod Drain
use aether_v.Prelude.{
  ℕ, zero, suc, ◌+◌, ◌≡◌, Bool, true, false, ◌||◌, List, [], ◌∷◌, ◌++◌, nat_eq, if◌then◌else◌, any,
}

-- An entry of the queue.
pub data Item : Type 0 where
  job : (children : ℕ) → Item
  child : (id : ℕ) → Item

-- Where a worker stands: in `queue.get()`, in `_process_job`, or in the wait for a child job, with
-- the number of child jobs that come after it.
pub data Worker : Type 0 where
  idle : Worker
  runs_job : (children : ℕ) → Worker
  runs_child : (id : ℕ) → Worker
  waits_for : (id children : ℕ) → Worker

pub record Pool : Type 0 where
  pub workers : List Worker
  pub queue : List Item
  pub next_id : ℕ
  pub over : ℕ → Bool  -- the child jobs that are completed or failed

abbrev pub started : Item → Worker
started (job n) = runs_job n
started (child c) = runs_child c

abbrev pub set_over : ℕ → (ℕ → Bool) → ℕ → Bool
set_over c over d = if nat_eq c d then true else over d

-- A worker takes the first job of the queue.
abbrev pub take_job : List Worker → List Worker → Item → List Item → Pool → Pool
take_job xs ys item rest s = record s { workers = xs ++ started item ∷ ys; queue = rest }

-- `_queue_child_job`, and the worker waits
abbrev pub queue_child : List Worker → List Worker → ℕ → Pool → Pool
queue_child xs ys n s = record s {
  workers = xs ++ waits_for s.next_id n ∷ ys;
  queue = s.queue ++ child s.next_id ∷ [];
  next_id = suc s.next_id;
}

abbrev pub end_child : List Worker → List Worker → ℕ → Pool → Pool
end_child xs ys c s = record s { workers = xs ++ idle ∷ ys; over = set_over c s.over }

-- A job ends, by itself or by an error.
abbrev pub end_job : List Worker → List Worker → Pool → Pool
end_job xs ys s = record s { workers = xs ++ idle ∷ ys }

-- `_wait_for_child_job_completion` returns
abbrev pub end_wait : List Worker → List Worker → ℕ → Pool → Pool
end_wait xs ys n s = record s { workers = xs ++ runs_job n ∷ ys }

-- What the workers may do next, in any order.
pub data Work (s : Pool) : Pool → Type 0 where
  takes :
      (xs ys : List Worker) (item : Item) (rest : List Item)
      → s.workers ≡ xs ++ idle ∷ ys
      → s.queue ≡ item ∷ rest
      → Work s (take_job xs ys item rest s)
  queues :
      (xs ys : List Worker) (n : ℕ)
      → s.workers ≡ xs ++ runs_job (suc n) ∷ ys
      → Work s (queue_child xs ys n s)
  ends_child :
      (xs ys : List Worker) (c : ℕ)
      → s.workers ≡ xs ++ runs_child c ∷ ys
      → Work s (end_child xs ys c s)
  ends_job :
      (xs ys : List Worker) (n : ℕ) → s.workers ≡ xs ++ runs_job n ∷ ys → Work s (end_job xs ys s)
  ends_wait :
      (xs ys : List Worker) (c n : ℕ)
      → s.workers ≡ xs ++ waits_for c n ∷ ys
      → s.over c ≡ true
      → Work s (end_wait xs ys n s)

abbrev pub idle_workers : ℕ → List Worker
idle_workers zero = []
idle_workers (suc n) = idle ∷ idle_workers n

-- The workers that `start` makes, and those that the pool has at the beginning.
abbrev pub concurrency : ℕ
concurrency = 6

abbrev pub start_pool : Pool
start_pool = record {
  workers = idle_workers concurrency;
  queue = [];
  next_id = 0;
  over = λ c. false;
}

-- Jobs come in at any time.
abbrev pub submit : ℕ → Pool → Pool
submit n s = record s { queue = s.queue ++ job n ∷ [] }

pub data Reach : Pool → Type 0 where
  begin : Reach start_pool
  submits : {s : Pool} (n : ℕ) → Reach s → Reach (submit n s)
  works : {s t : Pool} → Reach s → Work s t → Reach t
