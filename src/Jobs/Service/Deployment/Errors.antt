-- ===== src/Jobs/Service/Deployment/Errors.antt =====
-- How a stage of a deployment ends, in server/app/services/job_service.py.
use aether_v.Jobs.LineBuffer.{Text}
use aether_v.Jobs.Service.Texts.{codes}
use aether_v.Jobs.Service.{
  Job, JobStatus, pending, running, completed, failed, JobService, prepare_job_response,
}
use aether_v.Jobs.Service.Children.{
  Poll, not_found, waits, returns, poll_child_job, is_final, is_last, update_child_job_summary,
}
use aether_v.Jobs.Service.Intake.{submit_resource_job, Submitted}
use aether_v.Jobs.Service.Deployment.{
  Surroundings, Session, Result, ok, raised, unfinished, and_then, require, Turn, is_completed,
  error_of, pure,
}
use aether_v.Jobs.Service.Deployment.ChildJobs.{
  queue_child_job, take_submitted, definition_of, parent_host, wait_for_child_job_completion,
  take_poll, or_result, service_after, status_after, run_child,
}
use aether_v.Prelude.Dict
use aether_v.Prelude.Json.{Fields}
use aether_v.Prelude.{
  String, ◌≡◌, refl, ap, true, false, Option, none, some, ◌⊎◌, inl, inr, List, [], ◌∷◌, ◌++◌,
  Bool-cases, Option-cases, eq_string,
}

-- The job is what clients see of the child in a store, and the service has that store, in which the
-- deployment's summary of the child has been brought up to date, once or twice.
abbrev pub IsChild : String → String → Job → JobService → Type 0
IsChild parent child j service =
    (now : JobService) × (stored : Job) × (Dict.get now.jobs child ≡ some stored)
    × (j ≡ prepare_job_response stored)
    × ((service ≡ update_child_job_summary parent child now)
        ⊎ (service
            ≡ update_child_job_summary parent child (update_child_job_summary parent child now)))

-- A poll that returns a job returns the child, which is over.
abbrev PollEnds : String → String → Poll → Type 0
PollEnds parent child (returns j s) = (is_final j.status ≡ true) × IsChild parent child j s
PollEnds parent child other = Unit

poll-Ends :
    (last : Option JobStatus) (parent child : String) (s : JobService)
    → PollEnds parent child (poll_child_job last parent child s)
unfolding poll_child_job prepare_job_response update_child_job_summary
poll-Ends last parent child s = elim (Option-cases (Dict.get s.jobs child)) [
  | inl gone ↦ rw gone tt
  | inr (j, at) ↦ elim (Bool-cases (is_final j.status)) [
    | inl over ↦ elim (Bool-cases (is_last last j.status)) [
      | inl told ↦ rw (at, over, told) (over, (s, j, at, refl, inl refl))
      | inr news ↦ rw (at, over, news) (over, (s, j, at, refl, inr refl))
    ]
    | inr going ↦ rw (at, going) tt
  ]
]

abbrev not_found_message : String → Text
not_found_message child = codes "Child job " ++ codes child ++ codes " not found"

-- How the wait for a child job ends.
abbrev WaitEnds : String → String → Result Job → Type 0
WaitEnds parent child (ok j t) = (is_final j.status ≡ true) × IsChild parent child j t.service
WaitEnds parent child (raised e t) = e ≡ not_found_message child
WaitEnds parent child (unfinished t) = Unit

-- The job is the child that was submitted.
abbrev pub Returned : String → Submitted → Job → JobService → Type 0
Returned parent asked j service =
    (child : Job) × (s : JobService) × (asked ≡ inr (s, child))
    × IsChild parent child.job_id j service

-- How a child job ends: it is completed; or its submission is refused; or it is not found; or it
-- has failed, and the error is the stage's message with its own.
abbrev pub Ends : String → Text → Submitted → Result Job → Type 0
Ends parent failure asked (ok j t) = (j.status ≡ completed) × Returned parent asked j t.service
Ends parent failure asked (raised e t) =
    (asked ≡ inl e)
    ⊎ (((child : Job) × (s : JobService) × (asked ≡ inr (s, child))
          × (e ≡ codes "Child job " ++ codes child.job_id ++ codes " not found"))
        ⊎ ((j : Job) × (j.status ≡ failed)
            × Returned parent asked j t.service
            × (e ≡ failure ++ error_of j.error)))
Ends parent failure asked (unfinished t) = Unit

final-cases : (st : JobStatus) → is_final st ≡ true → (st ≡ completed) ⊎ (st ≡ failed)
final-cases pending e = cc
final-cases running e = cc
final-cases completed e = inl refl
final-cases failed e = inr refl

module _ (env : Surroundings) (parent : Job) where
  poll-WaitEnds :
      (child : String) (s : Session) (poll : Poll) (r : Result Job)
      → PollEnds parent.job_id child poll
      → WaitEnds parent.job_id child r
      → WaitEnds parent.job_id child (or_result env parent (take_poll env parent child s poll) r)
  poll-WaitEnds child s not_found r p h = refl
  poll-WaitEnds child s (waits st service) r p h = h
  poll-WaitEnds child s (returns j service) r p h = p

  wait-WaitEnds :
      (rounds : List (JobService → JobService)) (last : Option JobStatus) (child : String)
      (s : Session)
      → WaitEnds parent.job_id child (wait_for_child_job_completion env parent rounds last child s)
  unfolding wait_for_child_job_completion
  wait-WaitEnds [] last child s = tt
  wait-WaitEnds (round ∷ rounds) last child s =
      let now = round s.service in
      let poll = poll_child_job last parent.job_id child now in
      poll-WaitEnds child (record s { service = now }) poll
        (wait_for_child_job_completion env parent rounds (status_after env parent poll last) child
          (record s { service = service_after env parent poll now }))
        (poll-Ends last parent.job_id child now)
        (wait-WaitEnds rounds (status_after env parent poll last) child
          (record s { service = service_after env parent poll now }))

  checked-Ends :
      (failure : Text) (asked : Submitted) (j : Job) (t : Session)
      → Returned parent.job_id asked j t.service
      → (j.status ≡ completed) ⊎ (j.status ≡ failed)
      → Ends parent.job_id failure asked (
          and_then
            (require (is_completed j.status) (failure ++ error_of j.error) t)
            (λ done. pure j))
  checked-Ends failure asked j t from (inl done) =
      let e : is_completed j.status ≡ true = ap is_completed done in rw e (done, from)
  checked-Ends failure asked j t from (inr bad) =
      let e : is_completed j.status ≡ false = ap is_completed bad in
      rw e (inr (inr (j, bad, from, refl)))

  waited-Ends :
      (failure : Text) (child : Job) (service : JobService) (r : Result Job)
      → WaitEnds parent.job_id child.job_id r
      → Ends parent.job_id failure (inr (service, child)) (
          and_then r (λ j. λ t.
            and_then
              (require (is_completed j.status) (failure ++ error_of j.error) t)
              (λ done. pure j)))
  waited-Ends failure child service (ok j t) h =
      checked-Ends failure (inr (service, child)) j t (child, service, refl, h.1)
        (final-cases j.status h.0)
  waited-Ends failure child service (raised e t) h = inr (inl (child, service, refl, h))
  waited-Ends failure child service (unfinished t) h = tt

  submitted-Ends :
      (failure : Text) (schema_id : String) (fields : Fields) (turn : Turn) (asked : Submitted)
      (s : Session)
      → Ends parent.job_id failure asked (
          and_then (take_submitted env parent asked s) (λ child. λ t.
            and_then
              (wait_for_child_job_completion env parent turn.rounds none child.job_id t)
              (λ j. λ u.
                and_then
                  (require (is_completed j.status) (failure ++ error_of j.error) u)
                  (λ done. pure j))))
  submitted-Ends failure schema_id fields turn (inl e) s = inl refl
  submitted-Ends failure schema_id fields turn (inr (service, child)) s =
      waited-Ends failure child service _ (wait-WaitEnds turn.rounds none child.job_id _)

  -- Whatever the other tasks do meanwhile, a stage of a deployment ends without an error only if its
  -- child job was accepted and is completed, and gives what clients see of that job. If it ends with
  -- an error, that is the one of the refused submission, or that the child job is not found, or the
  -- stage's message with the error of that child job, which has failed. In both cases the job is
  -- as it stands in the store whose summaries the stage then leaves up to date.
  pub run_child-Ends :
      (job_type schema_id : String) (fields : Fields) (turn : Turn) (failure : Text) (s : Session)
      → Ends parent.job_id failure
          (submit_resource_job turn.new_id turn.now job_type schema_id
            (definition_of env parent schema_id fields)
            (parent_host env parent parent.target_host)
            (some parent.job_id)
            s.service)
          (run_child env parent job_type schema_id fields turn failure s)
  unfolding run_child queue_child_job
  run_child-Ends job_type schema_id fields turn failure s =
      submitted-Ends failure schema_id fields turn
        (submit_resource_job turn.new_id turn.now job_type schema_id
          (definition_of env parent schema_id fields) (parent_host env parent parent.target_host)
          (some parent.job_id) s.service)
        s
