-- ===== src/Jobs/Service/Deployment/Logged.antt =====
-- What a stage of a deployment does with its child job, in server/app/services/job_service.py.
use aether_v.Jobs.Service.Deployment.Ran.{Began, Ran}
use aether_v.Jobs.LineBuffer.{Text}
use aether_v.Jobs.Service.{Job, JobStatus, JobService}
use aether_v.Jobs.Service.Children.{Poll, not_found, waits, returns, poll_child_job}
use aether_v.Jobs.Service.Intake.{submit_resource_job, Submitted}
use aether_v.Jobs.Service.Deployment.{
  Surroundings, Session, Result, ok, raised, unfinished, and_then, require, Turn, is_completed,
  error_of, pure, Happening, child_queued, child_returned,
}
use aether_v.Jobs.Service.Deployment.ChildJobs.{
  queue_child_job, take_submitted, definition_of, parent_host, wait_for_child_job_completion,
  take_poll, or_result, service_after, status_after, run_child,
}
use aether_v.Prelude.Json.{Fields}
use aether_v.Prelude.{
  String, ◌≡◌, refl, Bool, true, false, Option, none, some, inl, inr, List, [], ◌∷◌, ◌++◌, All,
  append_assoc, append-nil, sym, ap, ◌∙◌,
}

-- How far a stage that stopped came with its child job.
pub data Logged (job_type : String) (P : Happening → Type 0) (old new : List Happening)
    : Type 0 where
  nothing : new ≡ old → Logged job_type P old new
  only_queued :
      (service : JobService) (child : Job)
      → new ≡ old ++ child_queued service child ∷ []
      → child.job_type ≡ job_type
      → P (child_queued service child)
      → Logged job_type P old new
  both :
      (service : JobService) (child j : Job)
      → new ≡ old ++ child_queued service child ∷ child_returned child.job_id j ∷ []
      → child.job_type ≡ job_type
      → P (child_queued service child)
      → Logged job_type P old new

-- What a stage does with its child job.
abbrev pub Logs : String → (Happening → Type 0) → List Happening → Result Job → Type 0
Logs job_type P old (ok j t) =
    (service : JobService) × (child : Job) × (t.log
      ≡ old ++ child_queued service child ∷ child_returned child.job_id j ∷ [])
    × (child.job_type ≡ job_type)
    × P (child_queued service child)
Logs job_type P old (raised e t) = Logged job_type P old t.log
Logs job_type P old (unfinished t) = Logged job_type P old t.log

-- What holds of each beginning holds of what is logged.
pub Logged-Began :
    (job_type : String) (P : Happening → Type 0) (Q : List Happening → Type 0)
    (old new : List Happening)
    → Q []
    → ((h : Happening) → P h → Q (h ∷ []))
    → ((service : JobService) (child j : Job)
        → P (child_queued service child)
        → Q (child_queued service child ∷ child_returned child.job_id j ∷ []))
    → Logged job_type P old new
    → Began (some job_type ∷ none ∷ []) Q old new
Logged-Began job_type P Q old new q0 q1 q2 (nothing e) = record {
  more = [];
  left = some job_type ∷ none ∷ [];
  grown = e ∙ sym (append-nil old);
  ordered = refl;
  each = q0;
}
Logged-Began job_type P Q old new q0 q1 q2 (only_queued service child e same p) = record {
  more = child_queued service child ∷ [];
  left = none ∷ [];
  grown = e;
  ordered = ap (λ n. some n ∷ none ∷ []) same;
  each = q1 (child_queued service child) p;
}
Logged-Began job_type P Q old new q0 q1 q2 (both service child j e same p) = record {
  more = child_queued service child ∷ child_returned child.job_id j ∷ [];
  left = [];
  grown = e;
  ordered = ap (λ n. some n ∷ none ∷ []) same;
  each = q2 service child j p;
}

-- What a wait logs.
abbrev WaitLogs : String → List Happening → Result Job → Type 0
WaitLogs id old (ok j t) = t.log ≡ old ++ child_returned id j ∷ []
WaitLogs id old (raised e t) = t.log ≡ old
WaitLogs id old (unfinished t) = t.log ≡ old

-- The submission gave a child of this type, with a property.
abbrev pub Gives : String → (Happening → Type 0) → Submitted → Type 0
Gives job_type P (inl e) = Unit
Gives job_type P (inr (service, child)) =
    (child.job_type ≡ job_type) × P (child_queued service child)

module _ (env : Surroundings) (parent : Job) where
  poll-WaitLogs :
      (child : String) (s : Session) (poll : Poll) (r : Result Job)
      → WaitLogs child s.log r
      → WaitLogs child s.log (or_result env parent (take_poll env parent child s poll) r)
  poll-WaitLogs child s not_found r h = refl
  poll-WaitLogs child s (waits st service) r h = h
  poll-WaitLogs child s (returns j service) r h = refl

  wait-WaitLogs :
      (rounds : List (JobService → JobService)) (last : Option JobStatus) (child : String)
      (s : Session)
      → WaitLogs child s.log (wait_for_child_job_completion env parent rounds last child s)
  unfolding wait_for_child_job_completion
  wait-WaitLogs [] last child s = refl
  wait-WaitLogs (round ∷ rounds) last child s =
      let now = round s.service in
      let poll = poll_child_job last parent.job_id child now in
      poll-WaitLogs child (record s { service = now }) poll
        (wait_for_child_job_completion env parent rounds (status_after env parent poll last) child
          (record s { service = service_after env parent poll now }))
        (wait-WaitLogs rounds (status_after env parent poll last) child
          (record s { service = service_after env parent poll now }))

  module _ (job_type : String) (P : Happening → Type 0) (failure : Text) (old : List Happening)
      (service : JobService) (child : Job) (same : child.job_type ≡ job_type)
      (p : P (child_queued service child)) where
    checked-Logs :
        (b : Bool) (e : Text) (j : Job) (t : Session)
        → t.log ≡ old ++ child_queued service child ∷ child_returned child.job_id j ∷ []
        → Logs job_type P old (and_then (require b e t) (λ done. pure j))
    checked-Logs true e j t h = (service, child, h, same, p)
    checked-Logs false e j t h = both service child j h same p

    waited-Logs :
        (r : Result Job)
        → WaitLogs child.job_id (old ++ child_queued service child ∷ []) r
        → Logs job_type P old (
            and_then r (λ j. λ t.
              and_then
                (require (is_completed j.status) (failure ++ error_of j.error) t)
                (λ done. pure j)))
    waited-Logs (ok j t) h =
        checked-Logs (is_completed j.status) (failure ++ error_of j.error) j t (
          h
          ∙ append_assoc old (child_queued service child ∷ []) (child_returned child.job_id j ∷ []))
    waited-Logs (raised e t) h = only_queued service child h same p
    waited-Logs (unfinished t) h = only_queued service child h same p

  submitted-Logs :
      (job_type : String) (P : Happening → Type 0) (failure : Text) (turn : Turn)
      (asked : Submitted) (s : Session)
      → Gives job_type P asked
      → Logs job_type P s.log (
          and_then (take_submitted env parent asked s) (λ child. λ t.
            and_then
              (wait_for_child_job_completion env parent turn.rounds none child.job_id t)
              (λ j. λ u.
                and_then
                  (require (is_completed j.status) (failure ++ error_of j.error) u)
                  (λ done. pure j))))
  submitted-Logs job_type P failure turn (inl e) s g = nothing refl
  submitted-Logs job_type P failure turn (inr (service, child)) s (same, p) =
      waited-Logs job_type P failure s.log service child same p _
        (wait-WaitLogs turn.rounds none child.job_id _)

  pub run_child-Logs :
      (P : Happening → Type 0) (job_type schema_id : String) (fields : Fields) (turn : Turn)
      (failure : Text) (s : Session)
      → Gives job_type P (
          submit_resource_job turn.new_id turn.now job_type schema_id
            (definition_of env parent schema_id fields)
            (parent_host env parent parent.target_host)
            (some parent.job_id)
            s.service)
      → Logs job_type P s.log (run_child env parent job_type schema_id fields turn failure s)
  unfolding run_child queue_child_job
  run_child-Logs P job_type schema_id fields turn failure s g =
      submitted-Logs job_type P failure turn
        (submit_resource_job turn.new_id turn.now job_type schema_id
          (definition_of env parent schema_id fields) (parent_host env parent parent.target_host)
          (some parent.job_id) s.service)
        s g

pub Logs-Ran :
    (job_type : String) (P : Happening → Type 0)
    → ((id : String) (j : Job) → P (child_returned id j))
    → (old : List Happening) (r : Result Job) → Logs job_type P old r
    → Ran (some job_type ∷ none ∷ []) (All P) old r
Logs-Ran job_type P free old (ok j t) (service, child, g, same, p) = (
  child_queued service child ∷ child_returned child.job_id j ∷ [],
  g,
  ap (λ n. some n ∷ none ∷ []) same,
  (p, (free child.job_id j, tt)),
)
Logs-Ran job_type P free old (raised e t) h =
    Logged-Began job_type P (All P) old t.log tt (λ h p. (p, tt))
      (λ service child j p. (p, (free child.job_id j, tt))) h
Logs-Ran job_type P free old (unfinished t) h =
    Logged-Began job_type P (All P) old t.log tt (λ h p. (p, tt))
      (λ service child j p. (p, (free child.job_id j, tt))) h
