-- ===== src/Notifications/Keyed.antt =====
-- The notifications of server/app/services/notification_service.py that are addressed by a key: a
-- job's id, the key of a system notification, the agent deployment.
use Prim.Native.String.{◌++◌ as str_append}
use aether_v.Prelude.Dict
use aether_v.Prelude.Dict.{Dict}
use aether_v.Prelude.Json.{Json, text, bool}
use aether_v.Prelude.{
  ℕ, String, Bool, true, false, ◌&&◌, not, Option, none, some, [], ◌∷◌, ◌==◌, if◌then◌else◌,
  eq_string,
}
use aether_v.Notifications.{
  NotificationLevel, NotificationCategory, system, job, is_system, is_job, Notification, deleted,
  NotificationService, agent_notification_key, is_entity, find, merge, schedule_broadcast, Draft,
  create_notification, Changes, update_notification,
}

-- The first key that is mapped to the id, as the loop of `delete_notification` finds it.
abbrev pub key_of : Dict String String → String → Option String
key_of [] id = none
key_of ((k, mapped) ∷ d) id = if mapped == id then some k else key_of d id

abbrev pub drop_mapping : Option String → Dict String String → Dict String String
drop_mapping none d = d
drop_mapping (some k) d = Dict.remove d k

unfoldable pub delete_notification : String → NotificationService → NotificationService × Bool
unfolding schedule_broadcast
delete_notification id s =
    if Dict.has s.notifications id
    then (
      schedule_broadcast id deleted none (record s {
        notifications = Dict.remove s.notifications id;
        system_notification_ids =
            drop_mapping (key_of s.system_notification_ids id) s.system_notification_ids;
      }),
      true,
    )
    else (s, false)

-- What an upsert is given besides its key.
pub record Content : Type 0 where
  pub title : String
  pub message : String
  pub level : NotificationLevel
  pub metadata : Dict String Json

abbrev pub refreshed : Notification → Content → Changes
refreshed n c = record {
  title = c.title;
  message = c.message;
  level = c.level;
  metadata = merge n.metadata c.metadata;
}

abbrev pub new_draft : NotificationCategory → String → Content → Draft
new_draft category entity c = record {
  title = c.title;
  message = c.message;
  level = c.level;
  category = category;
  related_entity = some entity;
  metadata = c.metadata;
}

-- Updates what was found, or creates.
abbrev pub upsert_found :
    Option Notification
    → String
    → ℕ
    → NotificationCategory
    → String
    → Content
    → NotificationService
    → NotificationService × Option Notification
upsert_found (some n) new_id now category entity c s = update_notification n.id (refreshed n c) s
upsert_found none new_id now category entity c s =
    create_notification new_id now (new_draft category entity c) s

abbrev pub is_job_of : String → Notification → Bool
is_job_of job_id n = is_job n.category && is_entity n.related_entity job_id

-- The metadata of a job's notification begins with the job's id and its status.
abbrev pub with_job : String → String → Content → Content
with_job job_id status c = record c {
  metadata = merge (("job_id", text job_id) ∷ ("status", text status) ∷ []) c.metadata;
}

unfoldable pub upsert_job_notification :
    String
    → ℕ
    → String
    → String
    → Content
    → NotificationService
    → NotificationService × Option Notification
unfolding create_notification update_notification
upsert_job_notification new_id now job_id status c s =
    upsert_found (find (is_job_of job_id) s.notifications) new_id now job job_id
      (with_job job_id status c) s

abbrev pub is_agent : Notification → Bool
is_agent n = is_system n.category && is_entity n.related_entity agent_notification_key

abbrev agent_title : String → String
agent_title status =
    if status == "running"
    then "Provisioning agents deploying"
    else if status == "successful"
    then "Provisioning agents ready"
    else if status == "failed"
    then "Provisioning agents encountered errors"
    else if status == "skipped"
    then "Provisioning agents up-to-date"
    else "Provisioning agents update"

abbrev agent_content : String → Bool → Content → Content
agent_content status available c = record c {
  title = agent_title status;
  metadata =
      merge (("status", text status) ∷ ("provisioning_available", bool available) ∷ []) c.metadata;
}

unfoldable pub upsert_agent_deployment_notification :
    String
    → ℕ
    → String
    → Bool
    → Content
    → NotificationService
    → NotificationService × Option Notification
unfolding create_notification update_notification
upsert_agent_deployment_notification new_id now status available c s =
    if not s.initialized
    then (s, none)
    else upsert_found (find is_agent s.notifications) new_id now system agent_notification_key
        (agent_content status available c) s

-- The notification that the key is mapped to, if the id is not empty and the notification is there.
abbrev pub mapped : Option String → NotificationService → Option Notification
mapped none s = none
mapped (some id) s = if id == "" then none else Dict.get s.notifications id

abbrev pub remember :
    String → NotificationService × Option Notification → NotificationService × Option Notification
remember key (s, none) = (s, none)
remember key (s, some n) =
    (record s { system_notification_ids = Dict.put s.system_notification_ids key n.id }, some n)

abbrev pub upsert_mapped :
    Option Notification
    → Option String
    → String
    → ℕ
    → String
    → Content
    → NotificationService
    → NotificationService × Option Notification
upsert_mapped (some n) (some id) new_id now key c s = update_notification id (refreshed n c) s
upsert_mapped _ _ new_id now key c s =
    remember key (create_notification new_id now (new_draft system (str_append "system:" key) c) s)

unfoldable pub upsert_system_notification :
    String → ℕ → String → Content → NotificationService → NotificationService × Option Notification
unfolding create_notification update_notification
upsert_system_notification new_id now key c s =
    if not s.initialized
    then (s, none)
    else let id = Dict.get s.system_notification_ids key in
      upsert_mapped (mapped id s) id new_id now key c s

abbrev pub clear_mapped : Option String → String → NotificationService → NotificationService × Bool
clear_mapped none key s = (s, false)
clear_mapped (some id) key s =
    let popped = record s { system_notification_ids = Dict.remove s.system_notification_ids key } in
    if id == ""
    then (popped, false)
    else let (t, done) = delete_notification id popped in
      if done
      then (t, true)
      else (record t { system_notification_ids = Dict.put t.system_notification_ids key id }, false)

unfoldable pub clear_system_notification : String → NotificationService → NotificationService × Bool
unfolding delete_notification
clear_system_notification key s = clear_mapped (Dict.get s.system_notification_ids key) key s
