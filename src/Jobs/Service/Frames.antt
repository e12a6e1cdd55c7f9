-- ===== src/Jobs/Service/Frames.antt =====
-- What the steps of a job leave alone in server/app/services/job_service.py: the other jobs, the host
-- slots, the secrets, and the job's own state.
use aether_v.Jobs.LineBuffer.{Text}
use aether_v.Jobs.Redaction.{CleanFields, redaction_hides}
use aether_v.Jobs.Service.{
  Job, JobStatus, JobEvent, status, pending, running, completed, failed, Call, broadcast, notify,
  mark_vm_deleting, finalize_vm_deletion, acquire_slot, release_slot, JobService, Changes, call,
  broadcast_job_event, broadcast_job_status, prepare_job_response, sync_job_notification,
  tell_of_deletion, tell_inventory, extract_vm_name, host_of, status_changed, after_job_update,
  store_job, has_parent,
}
use aether_v.Prelude.Dict
use aether_v.Prelude.Dict.{Dict, get-put}
use Prim.Native.String.{◌++◌ as str_append}
use aether_v.Prelude.{
  String, ◌≡◌, refl, ap, ◌∙◌, Bool, true, false, List, [], ◌∷◌, ◌++◌, ◌==◌, if◌then◌else◌,
  eq_string, arith, inl, inr, Bool-cases, Option-cases, is_empty, All, All-append, filter,
}

-- A call that shows no sensitive parameter to the clients.
abbrev pub IsDiscreet : Call → Type 0
IsDiscreet (broadcast topic job_id (status j)) = CleanFields j.parameters
IsDiscreet other = Unit

abbrev pub is_slot_call : Call → Bool
is_slot_call (acquire_slot host job_id) = true
is_slot_call (release_slot host job_id) = true
is_slot_call other = false

abbrev pub slot_calls : JobService → List Call
slot_calls s = filter is_slot_call s.calls

abbrev pub Extends {ℓ} : {A : Type ℓ} → List A → List A → Type ℓ
Extends {A = A} old new = (more : List A) × (new ≡ old ++ more)

-- Calls are made, and they are none of a slot's, and show no secret.
pub record CallsOnly (s t : JobService) : Type 0 where
  pub same_jobs : t.jobs ≡ s.jobs
  pub slots : slot_calls t ≡ slot_calls s
  pub discreet : All IsDiscreet s.calls → All IsDiscreet t.calls

pub calls_refl : (s : JobService) → CallsOnly s s
calls_refl s = record { same_jobs = refl; slots = refl; discreet = λ h. h }

pub calls_trans : (s t u : JobService) → CallsOnly s t → CallsOnly t u → CallsOnly s u
calls_trans s t u f g = record {
  same_jobs = g.same_jobs ∙ f.same_jobs;
  slots = g.slots ∙ f.slots;
  discreet = λ h. g.discreet (f.discreet h);
}

filter-snoc :
    (cs : List Call) (c : Call)
    → is_slot_call c ≡ false
    → filter is_slot_call (cs ++ c ∷ []) ≡ filter is_slot_call cs
filter-snoc [] c e = rw e
filter-snoc (x ∷ cs) c e = ground (arith, filter-snoc cs c e)

pub call-CallsOnly :
    (c : Call) (s : JobService) → is_slot_call c ≡ false → IsDiscreet c → CallsOnly s (call c s)
call-CallsOnly c s e d = record {
  same_jobs = refl;
  slots = filter-snoc s.calls c e;
  discreet = λ h. All-append IsDiscreet s.calls (c ∷ []) h (d, tt);
}

pub event-CallsOnly :
    (job_id : String) (event : JobEvent) (s : JobService)
    → IsDiscreet (broadcast "jobs" job_id event)
    → IsDiscreet (broadcast (str_append "jobs:" job_id) job_id event)
    → CallsOnly s (broadcast_job_event job_id event s)
event-CallsOnly job_id event s d d' =
    let first = call (broadcast (str_append "jobs:" job_id) job_id event) s in
    calls_trans s first (call (broadcast "jobs" job_id event) first)
      (call-CallsOnly (broadcast (str_append "jobs:" job_id) job_id event) s refl d')
      (call-CallsOnly (broadcast "jobs" job_id event) first refl d)

pub status-CallsOnly : (j : Job) (s : JobService) → CallsOnly s (broadcast_job_status j s)
unfolding broadcast_job_status prepare_job_response
status-CallsOnly j s =
    let clean = (redaction_hides j.parameters).0 in
    event-CallsOnly j.job_id (status (prepare_job_response j)) s clean clean

pub sync-CallsOnly : (j : Job) (s : JobService) → CallsOnly s (sync_job_notification j s)
sync-CallsOnly j s = elim (Bool-cases (has_parent j.parameters)) [
  | inl child ↦ rw child (calls_refl s)
  | inr own ↦ rw own (call-CallsOnly (notify j) s refl tt)
]

inventory-CallsOnly :
    (st : JobStatus) (job_id vm_name : String) (host : Text) (s : JobService)
    → CallsOnly s (tell_inventory st job_id vm_name host s)
inventory-CallsOnly pending job_id vm_name host s = calls_refl s
inventory-CallsOnly running job_id vm_name host s =
    call-CallsOnly (mark_vm_deleting job_id vm_name host) s refl tt
inventory-CallsOnly completed job_id vm_name host s =
    call-CallsOnly (finalize_vm_deletion job_id vm_name host true) s refl tt
inventory-CallsOnly failed job_id vm_name host s =
    call-CallsOnly (finalize_vm_deletion job_id vm_name host false) s refl tt

deletion-CallsOnly : (j : Job) (s : JobService) → CallsOnly s (tell_of_deletion j s)
deletion-CallsOnly j s = elim (Option-cases (extract_vm_name j)) [
  | inl e ↦ rw (e, tell_of_deletion) (calls_refl s)
  | inr (vm_name, e) ↦
      rw (e, tell_of_deletion)
        (elim (Bool-cases (is_empty (host_of j))) [
          | inl lost ↦ rw lost (calls_refl s)
          | inr known ↦ rw known (inventory-CallsOnly j.status j.job_id vm_name (host_of j) s)
        ])
]

told : Job → JobService → JobService
told j s =
    let synced = sync_job_notification j s in
    if j.job_type == "delete_vm" then tell_of_deletion j synced else synced

told-CallsOnly : (j : Job) (s : JobService) → CallsOnly s (told j s)
unfolding told
told-CallsOnly j s =
    let synced = sync_job_notification j s in
    let first = sync-CallsOnly j s in
    elim (Bool-cases (j.job_type == "delete_vm")) [
      | inl e ↦
          rw e
            (calls_trans s synced (tell_of_deletion j synced) first (deletion-CallsOnly j synced))
      | inr e ↦ rw e first
    ]

pub after-CallsOnly :
    (j : Job) (previous : JobStatus) (c : Changes) (s : JobService)
    → CallsOnly s (after_job_update j previous c s)
unfolding after_job_update told
after-CallsOnly j previous c s = elim (Bool-cases (status_changed previous c j)) [
  | inl e ↦ rw e (
      calls_trans s (told j s) (broadcast_job_status j (told j s)) (told-CallsOnly j s)
        (status-CallsOnly j (told j s)))
  | inr e ↦ rw e (status-CallsOnly j s)
]

-- Nothing but one job is touched.
pub record Beside (id : String) (s t : JobService) : Type 0 where
  pub others : (k : String) → (id == k) ≡ false → Dict.get t.jobs k ≡ Dict.get s.jobs k
  pub slots : slot_calls t ≡ slot_calls s
  pub discreet : All IsDiscreet s.calls → All IsDiscreet t.calls

pub Beside-trans :
    (id : String) (s t u : JobService) → Beside id s t → Beside id t u → Beside id s u
Beside-trans id s t u f g = record {
  others = λ k e. g.others k e ∙ f.others k e;
  slots = g.slots ∙ f.slots;
  discreet = λ h. g.discreet (f.discreet h);
}

pub calls-Beside : (id : String) (s t : JobService) → CallsOnly s t → Beside id s t
calls-Beside id s t f = record {
  others = λ k e. ap (λ d. Dict.get d k) f.same_jobs;
  slots = f.slots;
  discreet = f.discreet;
}

pub store-Beside :
    (id : String) (j : Job) (s : JobService) → j.job_id ≡ id → Beside id s (store_job j s)
store-Beside id j s e = record {
  others = λ k f. get-put s.jobs j.job_id j k ∙ rw (e, f) refl;
  slots = refl;
  discreet = λ h. h;
}
