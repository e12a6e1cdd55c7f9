-- ===== src/Jobs/Service.antt =====
-- The job store of server/app/services/job_service.py: jobs, the queue, and what the service tells
-- its clients and the inventory. `notification_id` is no field of the model's job: the notification
-- service is called, as `notify`, and the id that it gives the job is not kept.
pub mod Texts
pub mod Agent
pub mod Intake
pub mod Process
pub mod Frames
pub mod Steps
pub mod Commands
pub mod Outcomes
pub mod Lifecycle
pub mod Capture
pub mod Submitting
pub mod Children
pub mod Notices
pub mod Noticed
pub mod Heard
pub mod Notified
pub mod Families
pub mod Metrics
pub mod Deployment
use aether_v.Jobs.LineBuffer.{Text, replace_crlf, replace_cr}
use aether_v.Jobs.Redaction.{redact_sensitive_parameters}
use aether_v.Prelude.Dict
use aether_v.Prelude.Dict.{Dict, values}
use aether_v.Prelude.Json
use aether_v.Prelude.Json.{Json, Fields, field, end, obj, text, truthy}
use aether_v.Prelude.{
  ℕ, String, Bool, true, false, ◌&&◌, ◌||◌, not, Option, none, some, List, [], ◌∷◌, ◌++◌, ◌==◌,
  if◌then◌else◌, eq_string, map, length, filter, is_empty,
}
use Prim.Native.String.{◌++◌ as str_append}
use aether_v.Jobs.Service.Texts.{output_lines, strip}

pub data JobStatus : Type 0 where
  pending : JobStatus
  running : JobStatus
  completed : JobStatus
  failed : JobStatus

abbrev pub same_status : JobStatus → JobStatus → Bool
same_status pending pending = true
same_status running running = true
same_status completed completed = true
same_status failed failed = true
same_status a b = false

-- An entry of `child_jobs`, as `_build_child_job_summary` makes it.
pub record Child : Type 0 where
  pub job_id : String
  pub job_type : String
  pub job_type_label : Text
  pub status : JobStatus
  pub created_at : ℕ
  pub started_at : Option ℕ
  pub completed_at : Option ℕ
  pub target_host : Option Text
  pub error : Option Text
  pub vm_name : Option String

pub record Job : Type 0 where
  pub job_id : String
  pub job_type : String
  pub status : JobStatus
  pub created_at : ℕ
  pub started_at : Option ℕ
  pub completed_at : Option ℕ
  pub target_host : Option Text
  pub parameters : Fields
  pub output : List Text
  pub error : Option Text
  pub child_jobs : List Child

pub data JobEvent : Type 0 where
  status : Job → JobEvent
  output : List Text → JobEvent

-- A call of another component, with what it is given.
pub data Call : Type 0 where
  broadcast : (topic : String) (job_id : String) → JobEvent → Call
  notify : Job → Call
  mark_vm_deleting : (job_id : String) (vm_name : String) (host : Text) → Call
  finalize_vm_deletion : (job_id : String) (vm_name : String) (host : Text) (success : Bool) → Call
  invoke_agent :
      (host : Text) (operation : String) (resource_spec : Fields) (job_id : String) → Call
  acquire_slot : (host : Text) (job_id : String) → Call
  release_slot : (host : Text) (job_id : String) → Call

pub record JobService : Type 0 where
  pub jobs : Dict String Job
  pub started : Bool
  pub queue : List String
  pub calls : List Call

unfoldable pub prepare_job_response : Job → Job
unfolding redact_sensitive_parameters
prepare_job_response j = record j { parameters = redact_sensitive_parameters (some j.parameters) }

abbrev pub call : Call → JobService → JobService
call c s = record s { calls = s.calls ++ c ∷ [] }

abbrev pub broadcast_job_event : String → JobEvent → JobService → JobService
broadcast_job_event job_id event s =
    call (broadcast "jobs" job_id event)
      (call (broadcast (str_append "jobs:" job_id) job_id event) s)

unfoldable pub broadcast_job_status : Job → JobService → JobService
unfolding prepare_job_response
broadcast_job_status j s =
    let prepared = prepare_job_response j in broadcast_job_event prepared.job_id (status prepared) s

-- A child job has a `parent_job_id`.
abbrev pub names_parent : Option Json → Bool
names_parent none = false
names_parent (some v) = truthy v

unfoldable pub has_parent : Fields → Bool
has_parent parameters = names_parent (Json.get_field parameters "parent_job_id")

-- _sync_job_notification, as far as it decides to call the notification service
abbrev pub sync_job_notification : Job → JobService → JobService
sync_job_notification j s = if has_parent j.parameters then s else call (notify j) s

-- d.get(k, {}).get(l), where what stands there is a dict, and its result a text
abbrev pub text_of : Option Json → Option String
text_of (some (text t)) = if t == "" then none else some t
text_of other = none

abbrev pub fields_of : Option Json → Fields
fields_of (some (obj fields)) = fields
fields_of other = end

-- `value or fallback`
abbrev pub or_else : Option String → Option String → Option String
or_else none fallback = fallback
or_else (some t) fallback = some t

abbrev vm_resource_name : Option String → Fields → Option String
vm_resource_name none metadata = none
vm_resource_name (some type) metadata =
    if type == "VM" then text_of (Json.get_field metadata "resource_name") else none

unfoldable pub extract_vm_name : Job → Option String
extract_vm_name j =
    let metadata = fields_of (Json.get_field j.parameters "_metadata") in
    or_else (text_of (Json.get_field metadata "vm_name"))
      (vm_resource_name (text_of (Json.get_field metadata "resource_type")) metadata)

abbrev pub host_of : Job → Text
host_of j = elim j.target_host [ none ↦ [] | some host ↦ strip host ]

-- What the inventory is told of a VM that a job deletes.
abbrev tell_inventory : JobStatus → String → String → Text → JobService → JobService
tell_inventory pending job_id vm_name host s = s
tell_inventory running job_id vm_name host s = call (mark_vm_deleting job_id vm_name host) s
tell_inventory completed job_id vm_name host s =
    call (finalize_vm_deletion job_id vm_name host true) s
tell_inventory failed job_id vm_name host s =
    call (finalize_vm_deletion job_id vm_name host false) s

abbrev pub tell_of_deletion : Job → JobService → JobService
tell_of_deletion j s =
    let target_host = host_of j in
    elim (extract_vm_name j) [
      | none ↦ s
      | some vm_name ↦
          if is_empty target_host then s else tell_inventory j.status j.job_id vm_name target_host s
    ]

-- The changes of a job; None for what a call does not name.
pub record Changes : Type 0 where
  pub status : Option JobStatus
  pub started_at : Option ℕ
  pub completed_at : Option ℕ
  pub error : Option Text
  pub child_jobs : Option (List Child)
  pub parameters : Option Fields

abbrev pub no_changes : Changes
no_changes = record {
  status = none;
  started_at = none;
  completed_at = none;
  error = none;
  child_jobs = none;
  parameters = none;
}

abbrev pub given {ℓ} : {A : Type ℓ} → Option A → A → A
given none old = old
given (some new) old = new

abbrev pub given_some {ℓ} : {A : Type ℓ} → Option A → Option A → Option A
given_some none old = old
given_some (some new) old = some new

abbrev pub changed : Changes → Job → Job
changed c j = record j {
  status = given c.status j.status;
  started_at = given_some c.started_at j.started_at;
  completed_at = given_some c.completed_at j.completed_at;
  error = given_some c.error j.error;
  child_jobs = given c.child_jobs j.child_jobs;
  parameters = given c.parameters j.parameters;
}

abbrev pub status_changed : JobStatus → Changes → Job → Bool
status_changed previous c j = elim c.status [
  | none ↦ false
  | some new ↦ not (same_status j.status previous)
]

unfoldable pub after_job_update : Job → JobStatus → Changes → JobService → JobService
unfolding broadcast_job_status extract_vm_name
after_job_update j previous c s =
    let synced = sync_job_notification j s in
    let told = if j.job_type == "delete_vm" then tell_of_deletion j synced else synced in
    broadcast_job_status j (if status_changed previous c j then told else s)

abbrev pub store_job : Job → JobService → JobService
store_job j s = record s { jobs = Dict.put s.jobs j.job_id j }

-- `_update_job`, once the job is found in the store.
abbrev pub update_found : Option Job → Changes → JobService → JobService
update_found none c s = s
update_found (some j) c s =
    let new = changed c j in
    after_job_update (prepare_job_response new) j.status c (store_job new s)

unfoldable pub update_job : String → Changes → JobService → JobService
unfolding after_job_update
update_job job_id c s = update_found (Dict.get s.jobs job_id) c s

abbrev pub extend_output : Option Job → List Text → JobService → JobService
extend_output none lines s = s
extend_output (some j) lines s = store_job (record j { output = j.output ++ lines }) s

unfoldable pub append_job_output : String → List Text → JobService → JobService
unfolding output_lines
append_job_output job_id messages s =
    let lines = output_lines messages in
    if is_empty lines
    then s
    else broadcast_job_event job_id (output lines) (extend_output (Dict.get s.jobs job_id) lines s)
