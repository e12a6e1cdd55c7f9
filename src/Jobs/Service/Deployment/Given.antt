-- ===== src/Jobs/Service/Deployment/Given.antt =====
-- What a child job of a deployment is given, in server/app/services/job_service.py.
use aether_v.Jobs.LineBuffer.{Text}
use aether_v.Jobs.Service.{Job, JobService, fields_of, prepare_job_response}
use aether_v.Jobs.Service.Intake.{submit_resource_job, Submitted, get_job}
use aether_v.Jobs.Service.Submitting.{Answers, resource_job, submit_resource_lem}
use aether_v.Jobs.Service.Deployment.{Surroundings, Happening, child_queued, child_returned, Turn}
use aether_v.Jobs.Service.Deployment.ChildJobs.{definition_of, parent_host}
use aether_v.Jobs.Service.Deployment.Logged.{Gives}
use aether_v.Prelude.Dict
use aether_v.Prelude.Json
use aether_v.Prelude.Json.{Fields, text}
use aether_v.Prelude.{
  String, ◌≡◌, refl, ap, ◌∙◌, true, false, Option, none, some, inl, inr, eq_string,
}

-- The fields in the definition of a stored job, as its worker reads them.
abbrev pub sent_fields : Job → Fields
sent_fields j =
    fields_of (Json.get_field (fields_of (Json.get_field j.parameters "definition")) "fields")

-- A child job that is queued is stored with this id of a VM among its fields.
abbrev pub IsGiven : Option String → Happening → Type 0
IsGiven vm_id (child_returned id j) = Unit
IsGiven none (child_queued service child) = true ≡ false
IsGiven (some vm_id) (child_queued service child) =
    (j : Job) × (Dict.get service.jobs child.job_id ≡ some j)
    × (Json.get_field (sent_fields j) "vm_id" ≡ some (text vm_id))

abbrev or_job : Job → Option Job → Job
or_job j none = j
or_job j (some k) = k

same_child :
    (j child : Job) (service : JobService)
    → Dict.get service.jobs j.job_id ≡ some j
    → some child ≡ get_job j.job_id service
    → child ≡ prepare_job_response j
unfolding get_job
same_child j child service stored seen = ap (or_job child) seen ∙ rw (stored, or_job) refl

answered-Gives :
    (P : Happening → Type 0) (asked : Submitted) (s : JobService) (host : Text) (j : Job)
    → Answers asked s host j
    → ((service : JobService) (child : Job)
        → Dict.get service.jobs child.job_id ≡ some j
        → P (child_queued service child))
    → Gives j.job_type P asked
unfolding prepare_job_response
answered-Gives P (inl message) s host j h k = tt
answered-Gives P (inr (service, child)) s host j h k =
    let taken = h.2 in
    let same = same_child j child service taken.stored taken.seen in
    (
      ap (λ (c : Job). c.job_type) same,
      k service child (ap (λ (c : Job). Dict.get service.jobs c.job_id) same ∙ taken.stored),
    )

module _ (env : Surroundings) (parent : Job) (turn : Turn) (job_type schema_id : String)
    (fields : Fields) (s : JobService) where
  abbrev pub Asks : (Happening → Type 0) → Type 0
  Asks P = Gives job_type P (
      submit_resource_job turn.new_id turn.now job_type schema_id
        (definition_of env parent schema_id fields) (parent_host env parent parent.target_host)
        (some parent.job_id) s)

  abbrev asked_job : Job
  asked_job =
      resource_job turn.new_id turn.now job_type schema_id
        (definition_of env parent schema_id fields) (parent_host env parent parent.target_host)
        (some parent.job_id)

  pub any-Gives : Asks (λ h. Unit {0})
  any-Gives =
      answered-Gives (λ h. Unit {0}) _ s (parent_host env parent parent.target_host) asked_job
        (submit_resource_lem turn.new_id turn.now job_type schema_id
          (definition_of env parent schema_id fields) (parent_host env parent parent.target_host)
          (some parent.job_id) s)
        (λ service child e. tt)

  pub id-Gives :
      (vm_id : String)
      → Json.get_field fields "vm_id" ≡ some (text vm_id)
      → Asks (IsGiven (some vm_id))
  unfolding Json.get_field
  id-Gives vm_id given =
      answered-Gives (IsGiven (some vm_id)) _ s (parent_host env parent parent.target_host)
        asked_job
        (submit_resource_lem turn.new_id turn.now job_type schema_id
          (definition_of env parent schema_id fields) (parent_host env parent parent.target_host)
          (some parent.job_id) s)
        (λ service child e. (asked_job, e, given))
