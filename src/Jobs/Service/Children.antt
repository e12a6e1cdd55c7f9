-- ===== src/Jobs/Service/Children.antt =====
-- The child jobs of a deployment, and the counts of jobs, in server/app/services/job_service.py.
use aether_v.Jobs.LineBuffer.{Text}
use aether_v.Jobs.Service.Texts.{codes}
use aether_v.Jobs.Service.{
  Job, Child, JobStatus, pending, running, completed, failed, same_status, JobService, no_changes,
  update_job, extract_vm_name, prepare_job_response,
}
use aether_v.Prelude.Dict
use aether_v.Prelude.Dict.{Dict, values}
use aether_v.Prelude.{
  ℕ, ◌+◌, ◌-◌, String, Bool, true, false, ◌&&◌, ◌||◌, not, Option, none, some, List, [], ◌∷◌, ◌++◌,
  ◌==◌, if◌then◌else◌, eq_string, length, leb, nat_eq, filter,
}

abbrev is_upper : ℕ → Bool
is_upper c = leb 65 c && leb c 90

abbrev is_lower : ℕ → Bool
is_lower c = leb 97 c && leb c 122

-- s.replace("_", " ").title(), where the letters are those of job types
abbrev pub title : Bool → Text → Text
title after_letter [] = []
title after_letter (c ∷ s) =
    let rest = title (is_upper c || is_lower c) s in
    if nat_eq c 95
    then 32 ∷ rest
    else if is_lower c && not after_letter
    then (c - 32) ∷ rest
    else if is_upper c && after_letter
    then (c + 32) ∷ rest
    else c ∷ rest

unfoldable pub job_type_label : Job → Text
job_type_label j =
    if j.job_type == "delete_vm"
    then codes "Delete VM"
    else if j.job_type == "create_vm"
    then codes "Create VM"
    else if j.job_type == "create_disk"
    then codes "Create Disk"
    else if j.job_type == "create_nic"
    then codes "Create Network Adapter"
    else if j.job_type == "managed_deployment"
    then codes "Deploy VM"
    else if j.job_type == "update_vm"
    then codes "Update VM"
    else if j.job_type == "update_disk"
    then codes "Update Disk"
    else if j.job_type == "update_nic"
    then codes "Update Network Adapter"
    else if j.job_type == "delete_disk"
    then codes "Delete Disk"
    else if j.job_type == "delete_nic"
    then codes "Delete Network Adapter"
    else if j.job_type == "initialize_vm"
    then codes "Initialize VM"
    else title false (codes j.job_type)

unfoldable pub build_child_job_summary : Job → Child
unfolding job_type_label extract_vm_name
build_child_job_summary j = record {
  job_id = j.job_id;
  job_type = j.job_type;
  job_type_label = job_type_label j;
  status = j.status;
  created_at = j.created_at;
  started_at = j.started_at;
  completed_at = j.completed_at;
  target_host = j.target_host;
  error = j.error;
  vm_name = extract_vm_name j;
}

-- The loop of `_merge_child_job_list`: what is merged, and whether a child was replaced.
abbrev pub merge_loop : List Child → Child → List Child × Bool
merge_loop [] new_child = ([], false)
merge_loop (child ∷ children) new_child =
    let (merged, replaced) = merge_loop children new_child in
    if child.job_id == new_child.job_id
    then (new_child ∷ merged, true)
    else (child ∷ merged, replaced)

unfoldable pub merge_child_job_list : List Child → Child → List Child
merge_child_job_list existing_children new_child =
    let (merged, replaced) = merge_loop existing_children new_child in
    if replaced then merged else merged ++ new_child ∷ []

abbrev pub summarize : Option Job → Option Job → String → JobService → JobService
summarize (some parent_job) (some child_job) parent_job_id s =
    update_job parent_job_id
      (record no_changes {
        child_jobs =
            some (merge_child_job_list parent_job.child_jobs (build_child_job_summary child_job));
      })
      s
summarize _ _ parent_job_id s = s

unfoldable pub update_child_job_summary : String → String → JobService → JobService
unfolding update_job merge_child_job_list build_child_job_summary
update_child_job_summary parent_job_id child_job_id s =
    summarize (Dict.get s.jobs parent_job_id) (Dict.get s.jobs child_job_id) parent_job_id s

-- What a round of `_wait_for_child_job_completion` comes to.
pub data Poll : Type 0 where
  not_found : Poll
  waits : (last_status : JobStatus) → JobService → Poll
  returns : Job → JobService → Poll

abbrev pub is_last : Option JobStatus → JobStatus → Bool
is_last none st = false
is_last (some last) st = same_status st last

abbrev pub is_final : JobStatus → Bool
is_final completed = true
is_final failed = true
is_final other = false

abbrev pub poll_found : Option Job → Option JobStatus → String → String → JobService → Poll
poll_found none last_status parent_job_id child_job_id s = not_found
poll_found (some child_job) last_status parent_job_id child_job_id s =
    let synced =
      if is_last last_status child_job.status
      then s
      else update_child_job_summary parent_job_id child_job_id s in
    if is_final child_job.status
    then returns (prepare_job_response child_job)
        (update_child_job_summary parent_job_id child_job_id synced)
    else waits child_job.status synced

unfoldable pub poll_child_job : Option JobStatus → String → String → JobService → Poll
unfolding update_child_job_summary prepare_job_response
poll_child_job last_status parent_job_id child_job_id s =
    poll_found (Dict.get s.jobs child_job_id) last_status parent_job_id child_job_id s

-- `status_counts` of `get_metrics`
pub record StatusCounts : Type 0 where
  pub pending_jobs : ℕ
  pub running_jobs : ℕ
  pub completed_jobs : ℕ
  pub failed_jobs : ℕ

abbrev pub add_status : JobStatus → StatusCounts → StatusCounts
add_status pending c = record c { pending_jobs = c.pending_jobs + 1 }
add_status running c = record c { running_jobs = c.running_jobs + 1 }
add_status completed c = record c { completed_jobs = c.completed_jobs + 1 }
add_status failed c = record c { failed_jobs = c.failed_jobs + 1 }

abbrev pub count_statuses : List Job → StatusCounts → StatusCounts
count_statuses [] c = c
count_statuses (j ∷ js) c = count_statuses js (add_status j.status c)

-- `get_metrics`, without the number of workers
pub record Metrics : Type 0 where
  pub started : Bool
  pub queue_depth : ℕ
  pub counts : StatusCounts
  pub total_tracked_jobs : ℕ

unfoldable pub get_metrics : JobService → Metrics
get_metrics s = record {
  started = s.started;
  queue_depth = length s.queue;
  counts =
      count_statuses (values s.jobs)
        (record { pending_jobs = 0; running_jobs = 0; completed_jobs = 0; failed_jobs = 0 });
  total_tracked_jobs = length (values s.jobs);
}

abbrev pub with_status : JobStatus → List Job → ℕ
with_status st js = length (filter (λ j. same_status j.status st) js)

unfoldable pub get_running_jobs_count : JobService → ℕ
get_running_jobs_count s = with_status running (values s.jobs)
