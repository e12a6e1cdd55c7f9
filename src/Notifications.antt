-- ===== src/Notifications.antt =====
-- The notification service (server/app/services/notification_service.py), with the models that it
-- keeps (server/app/core/models.py). A method returns the new service and its result. An id of
-- `uuid.uuid4()` and the time of `datetime.now` are arguments. The tasks that
-- `_schedule_broadcast` creates are a list, in the order of their creation.
pub mod Keyed
pub mod Reading
pub mod Ordering
pub mod Valid
pub mod Single
pub mod Others
pub mod Marking
pub mod Deleting
pub mod Calls
pub mod Clearing
pub mod Startup
pub mod Kept
pub mod Published
use aether_v.Prelude.Dict
use aether_v.Prelude.Dict.{Dict, values}
use aether_v.Prelude.Json.{Json}
use aether_v.Prelude.{
  ℕ, ◌-◌, String, Bool, true, false, ◌&&◌, not, Option, none, some, List, [], ◌∷◌, ◌++◌, ◌==◌,
  if◌then◌else◌, eq_string, filter, length, is_some, ltb, leb, map,
}

pub data NotificationLevel : Type 0 where
  info warning error success : NotificationLevel

pub data NotificationCategory : Type 0 where
  system host vm job authentication : NotificationCategory

abbrev pub is_system : NotificationCategory → Bool
is_system system = true
is_system _ = false

abbrev pub is_host : NotificationCategory → Bool
is_host host = true
is_host _ = false

abbrev pub is_job : NotificationCategory → Bool
is_job job = true
is_job _ = false

pub record Notification : Type 0 where
  pub id : String
  pub title : String
  pub message : String
  pub level : NotificationLevel
  pub category : NotificationCategory
  pub created_at : ℕ
  pub read : Bool
  pub related_entity : Option String
  pub metadata : Dict String Json

pub data Action : Type 0 where
  created updated deleted : Action

-- A task that is to broadcast a notification, with the count of unread ones if it carries it.
pub record Broadcast : Type 0 where
  pub notification_id : String
  pub action : Action
  pub unread_count : Option ℕ

pub record NotificationService : Type 0 where
  pub notifications : Dict String Notification
  pub initialized : Bool
  pub has_websocket_manager : Bool
  pub startup_config_notified : Bool
  pub system_notification_ids : Dict String String
  pub scheduled : List Broadcast

abbrev pub agent_notification_key : String
agent_notification_key = "agent-deployment"

-- entity == key, where the entity may be None
abbrev pub is_entity : Option String → String → Bool
is_entity none key = false
is_entity (some entity) key = entity == key

-- next((n for n in values if p(n)), None)
abbrev pub find : (Notification → Bool) → Dict String Notification → Option Notification
find p [] = none
find p ((k, n) ∷ d) = if p n then some n else find p d

-- {**old, **new}
abbrev pub merge : Dict String Json → Dict String Json → Dict String Json
merge old [] = old
merge old ((k, v) ∷ new) = merge (Dict.put old k v) new

-- _schedule_broadcast
unfoldable pub schedule_broadcast :
    String → Action → Option ℕ → NotificationService → NotificationService
schedule_broadcast id action extra s =
    if s.has_websocket_manager
    then record s {
      scheduled =
          s.scheduled
          ++ record { notification_id = id; action = action; unread_count = extra } ∷ [];
    }
    else s

-- What a call of `create_notification` is given.
pub record Draft : Type 0 where
  pub title : String
  pub message : String
  pub level : NotificationLevel
  pub category : NotificationCategory
  pub related_entity : Option String
  pub metadata : Dict String Json

abbrev pub drafted : String → ℕ → Draft → Notification
drafted new_id now d = record {
  id = new_id;
  title = d.title;
  message = d.message;
  level = d.level;
  category = d.category;
  created_at = now;
  read = false;
  related_entity = d.related_entity;
  metadata = d.metadata;
}

unfoldable pub create_notification :
    String → ℕ → Draft → NotificationService → NotificationService × Option Notification
unfolding schedule_broadcast
create_notification new_id now d s =
    if not s.initialized
    then (s, none)
    else let n = drafted new_id now d in
      let t = record s { notifications = Dict.put s.notifications new_id n } in
      (schedule_broadcast new_id created none t, some n)

-- The changes that the service's own callers make by `update_notification`.
pub record Changes : Type 0 where
  pub title : String
  pub message : String
  pub level : NotificationLevel
  pub metadata : Dict String Json

-- `read` is not among the changes, so that it is reset.
abbrev pub changed : Notification → Changes → Notification
changed n c = record n {
  title = c.title;
  message = c.message;
  level = c.level;
  metadata = c.metadata;
  read = false;
}

abbrev pub update_found :
    Option Notification
    → String
    → Changes
    → NotificationService
    → NotificationService × Option Notification
update_found none id c s = (s, none)
update_found (some n) id c s = (
  schedule_broadcast id updated none
      (record s { notifications = Dict.put s.notifications id (changed n c) }),
  some (changed n c),
)

unfoldable pub update_notification :
    String → Changes → NotificationService → NotificationService × Option Notification
unfolding schedule_broadcast
update_notification id c s = update_found (Dict.get s.notifications id) id c s
