-- ===== src/Jobs/Service/Deployment/ChildJobs.antt =====
-- `_queue_child_job` and `_wait_for_child_job_completion` of server/app/services/job_service.py.
use aether_v.Jobs.Service.Deployment.{
  Surroundings, Session, Result, ok, raised, unfinished, Action, ◌>>=◌, ◌>>◌, pure, require, Turn,
  child_queued, child_returned, is_completed, error_of,
}
use aether_v.Jobs.LineBuffer.{Text}
use aether_v.Jobs.Service.Texts.{codes}
use aether_v.Jobs.Service.{Job, JobStatus, JobService, append_job_output}
use aether_v.Jobs.Service.Children.{
  Poll, not_found, waits, returns, poll_child_job, update_child_job_summary,
}
use aether_v.Jobs.Service.Intake.{submit_resource_job, Submitted}
use aether_v.Prelude.Json.{Fields, int, text, obj, end, field}
use aether_v.Prelude.{String, false, Option, none, some, inl, inr, List, [], ◌∷◌, ◌++◌, eq_string}

module _ (env : Surroundings) (parent : Job) where
  abbrev pub say : Text → Action (Unit {0})
  say message s =
      ok tt (record s { service = append_job_output parent.job_id (message ∷ []) s.service })

  -- `_queue_child_job`
  abbrev pub take_submitted : Submitted → Action Job
  take_submitted (inl e) s = raised e s
  take_submitted (inr (service, child)) s = ok child (record {
    service = update_child_job_summary parent.job_id child.job_id service;
    log = s.log ++ child_queued service child ∷ [];
  })

  abbrev pub definition_of : String → Fields → Fields
  definition_of schema_id fields =
      field "schema" (obj (field "id" (text schema_id) (field "version" (int false 1) end)))
        (field "fields" (obj fields) end)

  abbrev pub parent_host : Option Text → Text
  parent_host none = []
  parent_host (some host) = host

  unfoldable pub queue_child_job : String → String → Fields → Turn → Action Job
  unfolding submit_resource_job update_child_job_summary
  queue_child_job job_type schema_id fields turn s =
      take_submitted
        (submit_resource_job turn.new_id turn.now job_type schema_id
          (definition_of schema_id fields) (parent_host parent.target_host) (some parent.job_id)
          s.service)
        s

  -- `_wait_for_child_job_completion`, a round for each poll
  abbrev pub take_poll : String → Session → Poll → Option (Result Job)
  take_poll child_job_id s not_found =
      some (raised (codes "Child job " ++ codes child_job_id ++ codes " not found") s)
  take_poll child_job_id s (waits st service) = none
  take_poll child_job_id s (returns j service) =
      some (ok j (record { service = service; log = s.log ++ child_returned child_job_id j ∷ [] }))

  abbrev pub service_after : Poll → JobService → JobService
  service_after (waits st service) s = service
  service_after other s = s

  abbrev pub status_after : Poll → Option JobStatus → Option JobStatus
  status_after (waits st service) last = some st
  status_after other last = last

  abbrev pub or_result : Option (Result Job) → Result Job → Result Job
  or_result none r = r
  or_result (some found) r = found

  unfoldable pub wait_for_child_job_completion :
      List (JobService → JobService) → Option JobStatus → String → Action Job
  wait_for_child_job_completion [] last child_job_id s = unfinished s
  wait_for_child_job_completion (round ∷ rounds) last child_job_id s =
      let now = round s.service in
      let poll = poll_child_job last parent.job_id child_job_id now in
      or_result (take_poll child_job_id (record s { service = now }) poll) (
        wait_for_child_job_completion rounds (status_after poll last) child_job_id
          (record s { service = service_after poll now }))

  -- A child job from its submission to its end, with the message of its failure.
  unfoldable pub run_child : String → String → Fields → Turn → Text → Action Job
  unfolding queue_child_job wait_for_child_job_completion
  run_child job_type schema_id fields turn failure = do
    child ← queue_child_job job_type schema_id fields turn
    result ← wait_for_child_job_completion turn.rounds none child.job_id
    require (is_completed result.status) (failure ++ error_of result.error)
    pure result
