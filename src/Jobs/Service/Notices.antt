-- ===== src/Jobs/Service/Notices.antt =====
-- The notifications that server/app/services/job_service.py makes of its jobs, and how the
-- notification service takes them. The texts are lists of code points here; `written` makes
-- the strings of the notification service of them.
use aether_v.Jobs.LineBuffer.{Text}
use aether_v.Jobs.Service.{
  Job, JobStatus, pending, running, completed, failed, Call, notify, text_of, fields_of,
}
use aether_v.Jobs.Service.Children.{title}
use aether_v.Jobs.Service.Texts.{codes, is_prefix}
use aether_v.Notifications.{NotificationLevel, info, success, error, NotificationService}
use aether_v.Notifications.Keyed.{Content, upsert_job_notification}
use aether_v.Prelude.Json
use aether_v.Prelude.Json.{Json, Fields, text, null}
use aether_v.Prelude.Dict.{Dict}
use aether_v.Prelude.{
  ℕ, suc, String, false, ◌||◌, Option, none, some, List, [], ◌∷◌, ◌++◌, ◌==◌, if◌then◌else◌,
  eq_string, take,
}

-- What `_enrich_job_metadata` has kept.
abbrev pub metadata_of : Job → Fields
metadata_of j = fields_of (Json.get_field j.parameters "_metadata")

abbrev type_or_resource : Option Json → String
type_or_resource (some (text t)) = t
type_or_resource other = "Resource"

abbrev pub resource_type : Job → String
resource_type j = type_or_resource (Json.get_field (metadata_of j) "resource_type")

abbrev pub action : Job → Text
action j =
    let job_type = codes j.job_type in
    if is_prefix (codes "create_") job_type || (j.job_type == "managed_deployment")
    then codes "Create"
    else if is_prefix (codes "update_") job_type
    then codes "Update"
    else if is_prefix (codes "delete_") job_type
    then codes "Delete"
    else if j.job_type == "initialize_vm"
    then codes "Initialize"
    else title false job_type

-- The name of the resource, or the beginning of the job's id.
abbrev pub resource_label : Job → Text
resource_label j = elim (text_of (Json.get_field (metadata_of j) "resource_name")) [
  | none ↦ take 8 (codes j.job_id)
  | some name ↦ codes name
]

abbrev host_phrase : Option Text → Text
host_phrase none = codes "unknown host"
host_phrase (some []) = codes "unknown host"
host_phrase (some (c ∷ host)) = codes "host " ++ c ∷ host

abbrev vm_phrase : Option String → Text
vm_phrase none = codes "unknown VM"
vm_phrase (some vm_name) = codes "VM '" ++ codes vm_name ++ codes "'"

abbrev pub location_phrase : Job → Text
location_phrase j =
    if resource_type j == "VM"
    then host_phrase j.target_host
    else vm_phrase (text_of (Json.get_field (metadata_of j) "vm_name"))

abbrev error_detail : Option Text → Text
error_detail none = []
error_detail (some []) = []
error_detail (some (c ∷ message)) = codes " Error: " ++ c ∷ message

-- What the title and the message say of the status.
abbrev title_end : JobStatus → Text
title_end pending = codes " queued"
title_end running = codes " running"
title_end completed = codes " completed"
title_end failed = codes " failed"

abbrev message_end : Job → Text
message_end j = elim j.status [
  | pending ↦ codes "queued for " ++ location_phrase j ++ codes "."
  | running ↦ codes "running on " ++ location_phrase j ++ codes "."
  | completed ↦ codes "completed successfully on " ++ location_phrase j ++ codes "."
  | failed ↦ codes "failed on " ++ location_phrase j ++ codes "." ++ error_detail j.error
]

abbrev pub level_of : JobStatus → NotificationLevel
level_of pending = info
level_of running = info
level_of completed = success
level_of failed = error

abbrev pub status_text : JobStatus → String
status_text pending = "pending"
status_text running = "running"
status_text completed = "completed"
status_text failed = "failed"

module _ (written : Text → String) where
  abbrev pub notice_title : Job → String
  notice_title j = written (action j ++ codes " " ++ codes (resource_type j) ++ title_end j.status)

  abbrev pub notice_message : Job → String
  notice_message j = written (
      action j
      ++ codes " "
      ++ codes (resource_type j)
      ++ codes " '"
      ++ resource_label j
      ++ codes "' "
      ++ message_end j)

  abbrev host_or_null : Option Text → Json
  host_or_null none = null
  host_or_null (some host) = text (written host)

  abbrev notification_metadata : Job → Dict String Json
  notification_metadata j =
      ("job_id", text j.job_id)
      ∷ ("status", text (status_text j.status))
      ∷ ("job_type", text j.job_type)
      ∷ ("vm_name", vm_or_null (Json.get_field (metadata_of j) "vm_name"))
      ∷ ("target_host", host_or_null j.target_host)
      ∷ []
    where
      vm_or_null : Option Json → Json
      vm_or_null none = null
      vm_or_null (some v) = v

  unfoldable pub notice : Job → Content
  notice j = record {
    title = notice_title j;
    message = notice_message j;
    level = level_of j.status;
    metadata = notification_metadata j;
  }

  -- The notification service gets the calls of the job service in their order; the ids and the times
  -- are those that it would take for each call.
  unfoldable pub deliver_calls :
      (ids : ℕ → String)
      → (times : ℕ → ℕ) → ℕ
      → List Call
      → NotificationService
      → NotificationService
  unfolding notice upsert_job_notification
  deliver_calls ids times i [] n = n
  deliver_calls ids times i (notify j ∷ cs) n =
      deliver_calls ids times (suc i) cs
        (upsert_job_notification (ids i) (times i) j.job_id (status_text j.status) (notice j) n).0
  deliver_calls ids times i (c ∷ cs) n = deliver_calls ids times (suc i) cs n
