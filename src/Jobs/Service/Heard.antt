-- ===== src/Jobs/Service/Heard.antt =====
-- What server/app/services/job_service.py has told the notification service of a job at last.
use aether_v.Jobs.LineBuffer.{Text}
use aether_v.Jobs.Redaction.{redact, redact_fields, redact_sensitive_parameters, is_sensitive}
use aether_v.Jobs.Service.{
  Job, JobStatus, JobEvent, status, pending, running, completed, failed, Call, broadcast, notify,
  mark_vm_deleting, finalize_vm_deletion, call, JobService, Changes, changed, has_parent,
  sync_job_notification, tell_of_deletion, tell_inventory, extract_vm_name, host_of,
  broadcast_job_event, broadcast_job_status, prepare_job_response, status_changed, after_job_update,
  update_job, store_job,
}
use aether_v.Jobs.Service.Steps.{Has}
use aether_v.Prelude.Json
use aether_v.Prelude.Json.{
  Json, Items, Fields, null, bool, int, float, text, arr, obj, nil, cons, end, field, truthy,
}
use Prim.Native.String.{◌++◌ as str_append}
use aether_v.Prelude.{
  String, ◌≡◌, refl, ap, ◌∙◌, Bool, true, false, ◌&&◌, not, Option, none, some, List, [], ◌∷◌, ◌++◌,
  ◌==◌, if◌then◌else◌, eq_string, arith, inl, inr, Bool-cases, Option-cases, is_empty, eq_iff,
  eq_self,
}

abbrev pub noticed : String → Option Job → Call → Option Job
noticed k heard (notify j) = if j.job_id == k then some j else heard
noticed k heard other = heard

abbrev pub last_notice : String → Option Job → List Call → Option Job
last_notice k heard [] = heard
last_notice k heard (c ∷ cs) = last_notice k (noticed k heard c) cs

-- The job as the notification service was last told of it.
abbrev pub heard_of : String → JobService → Option Job
heard_of k s = last_notice k none s.calls

last_notice-append :
    (k : String) (heard : Option Job) (cs ds : List Call)
    → last_notice k heard (cs ++ ds) ≡ last_notice k (last_notice k heard cs) ds
last_notice-append k heard [] ds = refl
last_notice-append k heard (c ∷ cs) ds = last_notice-append k (noticed k heard c) cs ds

pub heard_of-call :
    (k : String) (c : Call) (s : JobService) → heard_of k (call c s) ≡ noticed k (heard_of k s) c
heard_of-call k c s = last_notice-append k none s.calls (c ∷ [])

heard_of-event :
    (k job_id : String) (event : JobEvent) (s : JobService)
    → heard_of k (broadcast_job_event job_id event s) ≡ heard_of k s
heard_of-event k job_id event s =
    let first = broadcast (str_append "jobs:" job_id) job_id event in
    heard_of-call k (broadcast "jobs" job_id event) (call first s) ∙ heard_of-call k first s

heard_of-status :
    (k : String) (j : Job) (s : JobService) → heard_of k (broadcast_job_status j s) ≡ heard_of k s
unfolding broadcast_job_status
heard_of-status k j s = heard_of-event k j.job_id (status (prepare_job_response j)) s

heard_of-inventory :
    (k : String) (st : JobStatus) (job_id vm_name : String) (host : Text) (s : JobService)
    → heard_of k (tell_inventory st job_id vm_name host s) ≡ heard_of k s
heard_of-inventory k pending job_id vm_name host s = refl
heard_of-inventory k running job_id vm_name host s =
    heard_of-call k (mark_vm_deleting job_id vm_name host) s
heard_of-inventory k completed job_id vm_name host s =
    heard_of-call k (finalize_vm_deletion job_id vm_name host true) s
heard_of-inventory k failed job_id vm_name host s =
    heard_of-call k (finalize_vm_deletion job_id vm_name host false) s

heard_of-deletion :
    (k : String) (j : Job) (s : JobService) → heard_of k (tell_of_deletion j s) ≡ heard_of k s
heard_of-deletion k j s = elim (Option-cases (extract_vm_name j)) [
  | inl e ↦ rw (e, tell_of_deletion) refl
  | inr (vm_name, e) ↦
      rw (e, tell_of_deletion)
        (elim (Bool-cases (is_empty (host_of j))) [
          | inl lost ↦ rw lost refl
          | inr known ↦ rw known (heard_of-inventory k j.status j.job_id vm_name (host_of j) s)
        ])
]

-- What is heard of the jobs, if the notification service is told of one.
abbrev pub heard_then : Bool → Job → String → Option Job → Option Job
heard_then told j k before = if told && (j.job_id == k) then some j else before

heard_of-sync :
    (k : String) (j : Job) (s : JobService)
    → heard_of k (sync_job_notification j s)
      ≡ heard_then (not (has_parent j.parameters)) j k (heard_of k s)
heard_of-sync k j s = elim (Bool-cases (has_parent j.parameters)) [
  | inl child ↦ rw child refl
  | inr own ↦ rw own (heard_of-call k (notify j) s)
]

if_heard :
    (k : String) (b : Bool) (x y : JobService) (o : Option Job)
    → heard_of k x ≡ o
    → heard_of k y ≡ o
    → heard_of k (if b then x else y) ≡ o
if_heard k true x y o e f = e
if_heard k false x y o e f = f

heard_of-after :
    (k : String) (j : Job) (previous : JobStatus) (c : Changes) (s : JobService)
    → heard_of k (after_job_update j previous c s)
      ≡ heard_then (status_changed previous c j && not (has_parent j.parameters)) j k (heard_of k s)
unfolding after_job_update
heard_of-after k j previous c s =
    let synced = sync_job_notification j s in
    let told = if j.job_type == "delete_vm" then tell_of_deletion j synced else synced in
    heard_of-status k j (if status_changed previous c j then told else s)
    ∙ elim (Bool-cases (status_changed previous c j)) [
      | inl e ↦ rw e (
          if_heard k (j.job_type == "delete_vm") _ _ _
            (heard_of-deletion k j synced ∙ heard_of-sync k j s) (heard_of-sync k j s))
      | inr e ↦ rw e refl
    ]

-- `_update_job` tells of a job that has another status, and is no child job.
pub heard_of-update_job :
    (k id : String) (j : Job) (c : Changes) (s : JobService)
    → Has id j s
    → let seen = prepare_job_response (changed c j) in
      heard_of k (update_job id c s)
      ≡ heard_then
          (status_changed j.status c seen && not (has_parent seen.parameters))
          seen
          k
          (heard_of k s)
unfolding update_job
heard_of-update_job k id j c s h =
    rw h.0
      (heard_of-after k (prepare_job_response (changed c j)) j.status c (store_job (changed c j) s))

truthy-redact : (v : Json) → truthy (redact v) ≡ truthy v
truthy-redact null = refl
truthy-redact (bool b) = refl
truthy-redact (int m n) = refl
truthy-redact (float b) = refl
truthy-redact (text s) = refl
truthy-redact (arr nil) = refl
truthy-redact (arr (cons v items)) = refl
truthy-redact (obj end) = refl
truthy-redact (obj (field k v fields)) = refl

-- The view of a job names its parent as the job does.
pub has_parent-redact_fields :
    (fields : Fields) → has_parent (redact_fields fields) ≡ has_parent fields
unfolding has_parent Json.get_field
has_parent-redact_fields end = refl
has_parent-redact_fields (field k v fields) = elim (Bool-cases (k == "parent_job_id")) [
  | inl here ↦
      let e : k ≡ "parent_job_id" = ground (arith, eq_iff k "parent_job_id", here) in
      let plain : is_sensitive k ≡ false = ap is_sensitive e in rw (here, plain) (truthy-redact v)
  | inr other ↦ rw other (has_parent-redact_fields fields)
]

-- The notification service is told of a job whose status changes.
pub heard_of-changed :
    (id : String) (j : Job) (c : Changes) (s : JobService)
    → Has id j s
    → status_changed j.status c (changed c j) ≡ true
    → has_parent (changed c j).parameters ≡ false
    → heard_of id (update_job id c s) ≡ some (prepare_job_response (changed c j))
unfolding prepare_job_response redact_sensitive_parameters
heard_of-changed id j c s h new own =
    let told : (j.job_id == id) ≡ true = rw h.1 (eq_self id) in
    heard_of-update_job id id j c s h
    ∙ rw (new, has_parent-redact_fields (changed c j).parameters, own, told) refl
