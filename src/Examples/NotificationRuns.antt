-- ===== src/Examples/NotificationRuns.antt =====
-- The service of server/app/services/notification_service.py on a few calls.
use aether_v.Prelude.Dict
use aether_v.Prelude.Dict.{Dict, values}
use mathlib.Core.List.{Perm}
use aether_v.Prelude.{
  map, ◌≤◌, not, ◌&&◌, ◌||◌, is_some, ◌+◌, String, ◌≡◌, refl, true, false, none, some, List, [],
  ◌∷◌, ◌++◌, eq_string, eq_iff, arith, length, ltb, filter,
}
use aether_v.Notifications.{
  NotificationService, Notification, info, create_notification, update_notification,
}
use aether_v.Notifications.Keyed.{
  Content, upsert_job_notification, upsert_system_notification, clear_system_notification,
  delete_notification, mapped,
}
use aether_v.Notifications.Reading.{
  is_unread, get_unread_count, get_notification_count, mark_all_read, clear_host_notifications,
  cleanup_old_notifications, is_host_of, get_all_notifications, get_unread_notifications,
}
use aether_v.Notifications.Valid.{IsTable}
use aether_v.Notifications.Marking.{marked, told, mark_all_read_lem}
use aether_v.Notifications.Deleting.{without, deletions_exact}
use aether_v.ConfigChecks.{ConfigValidationResult, no_session_secret, has_errors}
use aether_v.Notifications.Startup.{Line, has_warnings, publish_startup_configuration_result}
use aether_v.Notifications.Published.{reported, reports, publish-calls}
use aether_v.Notifications.Calls.{
  starts, stops, connect, publish, upsert_job, Call, calls, calls-IsTable,
}
use aether_v.Notifications.Clearing.{without_old, clear-upsert_system}
use aether_v.Notifications.Ordering.{IsNewestFirst, listings_sorted}

abbrev pub empty_service : NotificationService
empty_service = record {
  notifications = [];
  initialized = true;
  has_websocket_manager = true;
  startup_config_notified = false;
  system_notification_ids = [];
  scheduled = [];
}

abbrev content : Content
content = record { title = "t"; message = "m"; level = info; metadata = [] }

abbrev two_jobs : List Call
two_jobs =
    upsert_job "n1" 5 "j1" "pending" content
    ∷ upsert_job "n2" 6 "j2" "pending" content
    ∷ upsert_job "n3" 7 "j1" "running" content
    ∷ []

abbrev service : NotificationService
service = calls two_jobs empty_service

program : Unit {0}
unfolding calls reports reported publish_startup_configuration_result create_notification
    update_notification upsert_job_notification upsert_system_notification clear_system_notification
    delete_notification get_unread_count mark_all_read Dict.get Dict.put Dict.remove
program = tt

-- The second upsert of a job updates its notification.
two_jobs_count : length service.notifications ≡ 2
unfolding program
two_jobs_count = refl

service-IsTable : IsTable service.notifications
service-IsTable = calls-IsTable two_jobs empty_service tt

mark_all_read_example :
    let (t, n) = mark_all_read service in
    (get_unread_count t ≡ 0)
    × (n ≡ get_unread_count service)
    × (get_notification_count t ≡ get_notification_count service)
    × ((id : String) → Dict.get t.notifications id ≡ marked (Dict.get service.notifications id))
    × (service.has_websocket_manager ≡ true
        → t.scheduled
          ≡ service.scheduled
            ++ told 0 (map (λ n. n.id) (filter is_unread (values service.notifications))))
mark_all_read_example = mark_all_read_lem service

deletions_exact_example :
    let (t, n) = clear_host_notifications "hv1" service in
    let (u, m) = cleanup_old_notifications 20 14 service in
    (t.notifications ≡ without (is_host_of "hv1") service.notifications)
    × (n + length t.notifications ≡ length service.notifications)
    × (u.notifications ≡ without (λ n. ltb (n.created_at + 14) 20) service.notifications)
    × (m + length u.notifications ≡ length service.notifications)
deletions_exact_example = deletions_exact service "hv1" 20 14 service-IsTable

clear-upsert_system_example :
    let (t, r) = upsert_system_notification "n9" 9 "update" content service in
    let (u, done) = clear_system_notification "update" t in
    (done ≡ true)
    × (Dict.get u.system_notification_ids "update" ≡ none)
    × ((n : Notification) × (r ≡ some n) × (Dict.get t.notifications n.id ≡ some n))
    × ((id : String)
        → Dict.get u.notifications id
          ≡ without_old
              (mapped (Dict.get service.system_notification_ids "update") service)
              id
              (Dict.get service.notifications id))
unfolding program
clear-upsert_system_example =
    clear-upsert_system "n9" 9 "update" content service refl service-IsTable
      (ground (arith, eq_iff "n9" "")) refl

listings_sorted_example :
    IsNewestFirst (get_all_notifications none service)
    × Perm (get_all_notifications none service) (values service.notifications)
    × IsNewestFirst (get_unread_notifications none service)
    × Perm (get_unread_notifications none service) (filter is_unread (values service.notifications))
listings_sorted_example = listings_sorted service

-- One issue that the checks find.
abbrev result : ConfigValidationResult
result = record { errors = no_session_secret ∷ []; warnings = [] }

abbrev write : List Line → String
write lines = "report"

-- A start, a report, and a restart with a report once more.
abbrev restart : List Call
restart =
    starts none
    ∷ connect
    ∷ publish write "n9" 9 result
    ∷ stops
    ∷ starts none
    ∷ publish write "n10" 10 result
    ∷ []

reports-restart : reports restart service ≡ 1
unfolding program
reports-restart = refl

publish-calls_example :
    (is_some (publish_startup_configuration_result write "n9" 9 result service).1 ≡ (
      service.initialized
      && not service.startup_config_notified
      && (has_errors result || has_warnings result)))
    × (reports restart service ≤ 1)
    × IsTable (calls restart service).notifications
publish-calls_example = publish-calls write "n9" 9 result restart service service-IsTable
