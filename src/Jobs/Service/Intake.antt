-- ===== src/Jobs/Service/Intake.antt =====
-- How server/app/services/job_service.py takes jobs in and shows them. The parameters of a job have
-- the shape that the submit functions give them.
use aether_v.Jobs.LineBuffer.{Text}
use aether_v.Jobs.Service.Texts.{codes, strip}
use aether_v.Jobs.Service.{
  Job, pending, JobService, store_job, sync_job_notification, broadcast_job_status,
  prepare_job_response,
}
use aether_v.Jobs.Service.Agent.{or_text}
use aether_v.Prelude.Dict
use aether_v.Prelude.Dict.{Dict, values}
use aether_v.Prelude.Json.{Fields, text, obj, end, field}
use aether_v.Prelude.{
  ℕ, String, not, Option, none, some, ◌⊎◌, inl, inr, List, [], ◌∷◌, ◌++◌, ◌==◌, if◌then◌else◌,
  eq_string, map, is_empty,
}

abbrev pub new_job : String → String → ℕ → Text → Fields → Job
new_job job_id job_type now target_host parameters = record {
  job_id = job_id;
  job_type = job_type;
  status = pending;
  created_at = now;
  started_at = none;
  completed_at = none;
  target_host = some target_host;
  parameters = parameters;
  output = [];
  error = none;
  child_jobs = [];
}

-- What all submit functions do with the job that they make.
unfoldable pub enqueue : Job → JobService → JobService × Job
unfolding broadcast_job_status prepare_job_response
enqueue j s =
    let told = broadcast_job_status j (sync_job_notification j (store_job j s)) in
    (record told { queue = told.queue ++ j.job_id ∷ [] }, prepare_job_response j)

-- The message of the exception, or the service and the job that is returned.
abbrev pub Submitted : Type 0
Submitted = Text ⊎ (JobService × Job)

abbrev pub parent_field : Option String → Fields
parent_field none = end
parent_field (some parent) = if parent == "" then end else field "parent_job_id" (text parent) end

unfoldable pub submit_resource_job :
    String → ℕ → String → String → Fields → Text → Option String → JobService → Submitted
unfolding enqueue
submit_resource_job job_id now job_type schema_id payload target_host parent_job_id s =
    if not s.started
    then inl (codes "Job service is not running")
    else if is_empty target_host
    then inl (codes job_type ++ codes " job requires a target host")
    else inr (
        enqueue
          (new_job job_id job_type now target_host (
            field "definition" (obj payload)
              (field "schema_id" (text schema_id) (parent_field parent_job_id))))
          s)

-- `parameters` is the request's dump.
unfoldable pub submit_delete_job : String → ℕ → Text → Fields → JobService → Submitted
unfolding enqueue
submit_delete_job job_id now hyperv_host parameters s =
    if not s.started
    then inl (codes "Job service is not running")
    else inr (enqueue (new_job job_id "delete_vm" now hyperv_host parameters) s)

unfoldable pub submit_noop_test_job :
    String → ℕ → Text → Fields → Option String → JobService → Submitted
unfolding enqueue
submit_noop_test_job job_id now target_host resource_spec correlation_id s =
    if not s.started
    then inl (codes "Job service is not running")
    else if is_empty target_host
    then inl (codes "Noop-test job requires a target host")
    else inr (
        enqueue
          (new_job job_id "noop_test" now target_host (
            field "resource_spec" (obj resource_spec)
              (field "correlation_id" (text (or_text correlation_id job_id)) end)))
          s)

unfoldable pub submit_managed_deployment_job : String → ℕ → Text → Fields → JobService → Submitted
unfolding enqueue strip
submit_managed_deployment_job job_id now requested_host request s =
    let target_host = strip requested_host in
    if not s.started
    then inl (codes "Job service is not running")
    else if is_empty target_host
    then inl (codes "Managed deployment job requires a target host")
    else inr (
        enqueue
          (new_job job_id "managed_deployment" now target_host (field "request" (obj request) end))
          s)

unfoldable pub get_job : String → JobService → Option Job
unfolding prepare_job_response
get_job job_id s = elim (Dict.get s.jobs job_id) [
  | none ↦ none
  | some j ↦ some (prepare_job_response j)
]

unfoldable pub get_all_jobs : JobService → List Job
unfolding prepare_job_response
get_all_jobs s = map prepare_job_response (values s.jobs)
