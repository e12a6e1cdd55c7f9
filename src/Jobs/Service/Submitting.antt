-- ===== src/Jobs/Service/Submitting.antt =====
-- What the submit functions of server/app/services/job_service.py do with a job.
use aether_v.Jobs.LineBuffer.{Text}
use aether_v.Jobs.Redaction.{CleanFields, redaction_hides}
use aether_v.Jobs.Service.{
  Job, JobService, store_job, has_parent, sync_job_notification, broadcast_job_status,
  prepare_job_response,
}
use aether_v.Jobs.Service.Frames.{
  Beside, Beside-trans, store-Beside, calls-Beside, sync-CallsOnly, status-CallsOnly, calls_trans,
}
use aether_v.Jobs.Service.Intake.{
  new_job, enqueue, Submitted, parent_field, submit_resource_job, get_job,
}
use aether_v.Jobs.Service.Steps.{get-store_job}
use aether_v.Jobs.Service.Texts.{codes}
use aether_v.Prelude.Dict
use aether_v.Prelude.Json.{Fields, obj, text, field}
use aether_v.Prelude.{
  ℕ, String, ◌≡◌, refl, ap, ◌∙◌, Bool, true, false, not, Option, some, ◌⊎◌, inl, inr, [], ◌∷◌, ◌++◌,
  if◌then◌else◌, eq_string, Bool-cases, is_empty,
}

-- The job was taken in: it is stored and waits as the last of the queue, what is returned is what the
-- clients see of it, and nothing else was touched.
pub record TakenIn (j : Job) (s : JobService) (r : JobService × Job) : Type 0 where
  pub stored : Dict.get r.0.jobs j.job_id ≡ some j
  pub queued : r.0.queue ≡ s.queue ++ j.job_id ∷ []
  pub seen : some r.1 ≡ get_job j.job_id r.0
  pub clean : CleanFields r.1.parameters
  pub beside : Beside j.job_id s r.0

same_queue :
    (j : Job) (s : JobService)
    → (broadcast_job_status j (sync_job_notification j (store_job j s))).queue ≡ s.queue
unfolding broadcast_job_status
same_queue j s = elim (Bool-cases (has_parent j.parameters)) [
  | inl child ↦ rw child refl
  | inr own ↦ rw own refl
]

enqueue-TakenIn : (j : Job) (s : JobService) → TakenIn j s (enqueue j s)
unfolding enqueue prepare_job_response get_job
enqueue-TakenIn j s =
    let stored = store_job j s in
    let synced = sync_job_notification j stored in
    let told = broadcast_job_status j synced in
    let c = calls_trans stored synced told (sync-CallsOnly j stored) (status-CallsOnly j synced) in
    let there = ap (λ d. Dict.get d j.job_id) c.same_jobs ∙ get-store_job j.job_id j s refl in
    let b =
      Beside-trans j.job_id s stored told (store-Beside j.job_id j s refl)
        (calls-Beside j.job_id stored told c) in
    record {
      stored = there;
      queued = ap (λ q. q ++ j.job_id ∷ []) (same_queue j s);
      seen = rw (there, get_job) refl;
      clean = (redaction_hides j.parameters).0;
      beside = record { others = b.others; slots = b.slots; discreet = b.discreet };
    }

-- The job of a resource that is submitted.
abbrev pub resource_job : String → ℕ → String → String → Fields → Text → Option String → Job
resource_job job_id now job_type schema_id payload target_host parent_job_id =
    new_job job_id job_type now target_host (
      field "definition" (obj payload)
        (field "schema_id" (text schema_id) (parent_field parent_job_id)))

abbrev pub Answers : Submitted → JobService → Text → Job → Type 0
Answers (inl message) s target_host j = (s.started ≡ false) ⊎ (target_host ≡ [])
Answers (inr r) s target_host j =
    (s.started ≡ true) × (is_empty target_host ≡ false) × TakenIn j s r

running-Answers :
    (t : Bool) (m : Text) (r : JobService × Job) (s : JobService) (host : Text) (j : Job)
    → s.started ≡ t
    → is_empty host ≡ false
    → TakenIn j s r
    → Answers (if not t then inl m else inr r) s host j
running-Answers true m r s host j e given taken = (e, given, taken)
running-Answers false m r s host j e given taken = inl e

-- A resource job is refused just if the service is not running or no host is given, and otherwise is
-- taken in as pending: stored under its id, put at the end of the queue, and answered by the view of
-- it that `get_job` gives too, which shows no sensitive parameter; nothing else is touched, and
-- no status that shows a sensitive parameter is added to what the clients are sent.
pub submit_resource_lem :
    (job_id : String) (now : ℕ) (job_type schema_id : String) (payload : Fields)
    (target_host : Text) (parent_job_id : Option String) (s : JobService)
    → Answers
        (submit_resource_job job_id now job_type schema_id payload target_host parent_job_id s)
        s
        target_host
        (resource_job job_id now job_type schema_id payload target_host parent_job_id)
unfolding submit_resource_job
submit_resource_lem job_id now job_type schema_id payload [] parent_job_id s =
    elim (Bool-cases s.started) [ inl e ↦ rw e (inr refl) | inr e ↦ rw e (inl refl) ]
submit_resource_lem job_id now job_type schema_id payload (c ∷ host) parent_job_id s =
    let j = resource_job job_id now job_type schema_id payload (c ∷ host) parent_job_id in
    running-Answers s.started (codes "Job service is not running") (enqueue j s) s (c ∷ host) j refl
      refl (enqueue-TakenIn j s)
