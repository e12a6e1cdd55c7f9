-- ===== src/Notifications/Startup.antt =====
-- The start and stop of server/app/services/notification_service.py, and what it reports of the
-- configuration checks. The text of the report is written from its lines by an argument, and the
-- notifications of the dummy data are another.
use aether_v.ConfigChecks.{Issue, ConfigValidationResult, has_errors}
use aether_v.Notifications.{
  Notification, NotificationService, Draft, create_notification, NotificationLevel, warning, error,
  system,
}
use aether_v.Prelude.Dict
use aether_v.Prelude.Dict.{Dict}
use aether_v.Prelude.{
  eq_string, ℕ, String, Bool, true, false, ◌&&◌, not, Option, none, some, List, [], ◌∷◌, ◌++◌,
  if◌then◌else◌, is_empty, map,
}

-- A line of the report; an issue stands for its message and hint.
pub data Line : Type 0 where
  errors_detected : Line
  warnings_detected : Line
  item : Issue → Line

abbrev pub has_warnings : ConfigValidationResult → Bool
has_warnings r = not (is_empty r.warnings)

abbrev pub section_of : Line → List Issue → List Line
section_of heading [] = []
section_of heading (i ∷ is) = heading ∷ map item (i ∷ is)

abbrev pub report_lines : ConfigValidationResult → List Line
report_lines r = section_of errors_detected r.errors ++ section_of warnings_detected r.warnings

abbrev pub report_title : ConfigValidationResult → String
report_title r =
    if has_errors r then "Configuration errors on startup" else "Configuration warnings on startup"

abbrev pub report_level : ConfigValidationResult → NotificationLevel
report_level r = if has_errors r then error else warning

abbrev pub report : (List Line → String) → ConfigValidationResult → Draft
report write r = record {
  title = report_title r;
  message = write (report_lines r);
  level = report_level r;
  category = system;
  related_entity = none;
  metadata = [];
}

-- if notification: self._startup_config_notified = True
abbrev pub note_published :
    NotificationService × Option Notification → NotificationService × Option Notification
note_published (s, none) = (s, none)
note_published (s, some n) = (record s { startup_config_notified = true }, some n)

unfoldable pub publish_startup_configuration_result :
    (List Line → String)
    → String
    → ℕ
    → ConfigValidationResult
    → NotificationService
    → NotificationService × Option Notification
unfolding create_notification
publish_startup_configuration_result write new_id now r s =
    if not s.initialized
    then (s, none)
    else if s.startup_config_notified
    then (s, none)
    else if not (has_errors r) && not (has_warnings r)
    then (s, none)
    else note_published (create_notification new_id now (report write r) s)

abbrev pub set_websocket_manager : NotificationService → NotificationService
set_websocket_manager s = record s { has_websocket_manager = true }

-- for notification in dummy_notifications: self.notifications[notification.id] = notification
abbrev pub initialize_dummy_data :
    List Notification → Dict String Notification → Dict String Notification
initialize_dummy_data [] d = d
initialize_dummy_data (n ∷ ns) d = initialize_dummy_data ns (Dict.put d n.id n)

-- The dummy notifications are given where `settings.dummy_data` is set.
abbrev pub start_table :
    Option (List Notification) → Dict String Notification → Dict String Notification
start_table none d = []
start_table (some dummy_notifications) d = initialize_dummy_data dummy_notifications d

abbrev pub start : Option (List Notification) → NotificationService → NotificationService
start dummy s = record s { notifications = start_table dummy s.notifications; initialized = true }

abbrev pub stop : NotificationService → NotificationService
stop s = record s { initialized = false }
