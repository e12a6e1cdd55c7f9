-- ===== src/Jobs/Service/Metrics.antt =====
-- What the counts of jobs in server/app/services/job_service.py come to.
use aether_v.Jobs.Service.Children.{
  StatusCounts, add_status, count_statuses, get_metrics, with_status, get_running_jobs_count,
}
use aether_v.Jobs.Service.{
  Job, JobStatus, pending, running, completed, failed, same_status, JobService,
}
use aether_v.Prelude.Dict.{values}
use aether_v.Prelude.{ℕ, ◌+◌, ◌≡◌, refl, List, [], ◌∷◌, if◌then◌else◌, eq_string, length, arith}

Counted : List Job → StatusCounts → StatusCounts → Type 0
Counted js before after =
    (after.pending_jobs ≡ before.pending_jobs + with_status pending js)
    × (after.running_jobs ≡ before.running_jobs + with_status running js)
    × (after.completed_jobs ≡ before.completed_jobs + with_status completed js)
    × (after.failed_jobs ≡ before.failed_jobs + with_status failed js)

one : JobStatus → JobStatus → ℕ
one st other = if same_status st other then 1 else 0

added :
    (st : JobStatus) (c : StatusCounts)
    → ((add_status st c).pending_jobs ≡ c.pending_jobs + one st pending)
      × ((add_status st c).running_jobs ≡ c.running_jobs + one st running)
      × ((add_status st c).completed_jobs ≡ c.completed_jobs + one st completed)
      × ((add_status st c).failed_jobs ≡ c.failed_jobs + one st failed)
unfolding one
added pending c = (refl, omega arith, omega arith, omega arith)
added running c = (omega arith, refl, omega arith, omega arith)
added completed c = (omega arith, omega arith, refl, omega arith)
added failed c = (omega arith, omega arith, omega arith, refl)

with_status-cons :
    (st : JobStatus) (j : Job) (js : List Job)
    → with_status st (j ∷ js) ≡ one j.status st + with_status st js
unfolding one
with_status-cons st j js = ground arith

counted : (js : List Job) (c : StatusCounts) → Counted js c (count_statuses js c)
unfolding Counted
counted [] c = (omega arith, omega arith, omega arith, omega arith)
counted (j ∷ js) c =
    let (p, r, d, f) = counted js (add_status j.status c) in
    let (p', r', d', f') = added j.status c in
    (
      omega (arith, p, p', with_status-cons pending j js),
      omega (arith, r, r', with_status-cons running j js),
      omega (arith, d, d', with_status-cons completed j js),
      omega (arith, f, f', with_status-cons failed j js),
    )

one_status :
    (st : JobStatus) → one st pending + one st running + one st completed + one st failed ≡ 1
unfolding one
one_status pending = refl
one_status running = refl
one_status completed = refl
one_status failed = refl

all_counted :
    (js : List Job)
    → with_status pending js
        + with_status running js
        + with_status completed js
        + with_status failed js
      ≡ length js
all_counted [] = refl
all_counted (j ∷ js) = omega (
  arith,
  all_counted js,
  one_status j.status,
  with_status-cons pending j js,
  with_status-cons running j js,
  with_status-cons completed j js,
  with_status-cons failed j js,
)

-- The metrics count each job once: under its status, so that the four counts come to the number of
-- jobs; and the running jobs are those that `get_running_jobs_count` counts.
pub metrics_lem :
    (s : JobService)
    → let m = get_metrics s in
      (m.counts.pending_jobs ≡ with_status pending (values s.jobs))
      × (m.counts.running_jobs ≡ get_running_jobs_count s)
      × (m.counts.completed_jobs ≡ with_status completed (values s.jobs))
      × (m.counts.failed_jobs ≡ with_status failed (values s.jobs))
      × (m.counts.pending_jobs + m.counts.running_jobs + m.counts.completed_jobs
            + m.counts.failed_jobs
          ≡ m.total_tracked_jobs)
unfolding get_metrics get_running_jobs_count Counted
metrics_lem s =
    let (p, r, d, f) =
      counted (values s.jobs)
        (record { pending_jobs = 0; running_jobs = 0; completed_jobs = 0; failed_jobs = 0 }) in
    (
      omega (arith, p),
      omega (arith, r),
      omega (arith, d),
      omega (arith, f),
      omega (arith, p, r, d, f, all_counted (values s.jobs)),
    )
