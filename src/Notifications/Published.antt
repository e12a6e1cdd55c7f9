-- ===== src/Notifications/Published.antt =====
-- How often server/app/services/notification_service.py reports what the configuration checks found.
use aether_v.ConfigChecks.{ConfigValidationResult, has_errors}
use aether_v.Prelude.Dict
use aether_v.Prelude.Dict.{Dict}
use aether_v.Prelude.{
  ℕ, String, ◌≡◌, ◌≤◌, ◌+◌, refl, Bool, true, false, Option, none, some, List, [], ◌∷◌, eq_string,
  arith, if◌then◌else◌, not, ◌&&◌, ◌||◌, is_some,
}
use aether_v.Notifications.{Notification, NotificationService, create_notification}
use aether_v.Notifications.Keyed.{
  upsert_job_notification, upsert_agent_deployment_notification, upsert_system_notification,
  clear_system_notification,
}
use aether_v.Notifications.Reading.{
  mark_all_read, mark_each, cleanup_old_notifications, clear_host_notifications, get_unread_count,
}
use aether_v.Notifications.Startup.{
  Line, has_warnings, report, note_published, publish_startup_configuration_result,
}
use aether_v.Notifications.Valid.{IsTable}
use aether_v.Notifications.Calls.{
  Call, create, update, upsert_job, upsert_system, upsert_agent, clear_system, delete, mark_read,
  mark_all, cleanup, clear_host, publish, connect, starts, stops, call, calls, calls-IsTable,
}
use aether_v.Notifications.Kept.{
  Keeps, if-Keeps, create-Keeps, update-Keeps, upsert_found-Keeps, upsert_mapped-Keeps,
  delete-Keeps, clear_mapped-Keeps, broadcast_each-Keeps, mark_read-Keeps,
}

abbrev made : Option Notification → ℕ
made none = 0
made (some n) = 1

-- One for a call of `publish_startup_configuration_result` that returns a notification.
unfoldable pub reported : Call → NotificationService → ℕ
reported (publish write new_id now r) s =
    made (publish_startup_configuration_result write new_id now r s).1
reported _ s = 0

unfoldable pub reports : List Call → NotificationService → ℕ
reports [] s = 0
reports (c ∷ cs) s = reported c s + reports cs (call c s)

-- One if the findings are reported.
abbrev noted : NotificationService → ℕ
noted s = if s.startup_config_notified then 1 else 0

still-noted : {f g : Bool × Bool} → g ≡ f → (if g.0 then 1 else 0) ≡ 0 + (if f.0 then 1 else 0)
still-noted {f = f} k = rw k (omega arith)

abbrev IsNoted : NotificationService → NotificationService × Option Notification → Type 0
IsNoted s r = noted r.0 ≡ made r.1 + noted s

refused-IsNoted : (s : NotificationService) → IsNoted s (s, none)
refused-IsNoted s = omega arith

if-IsNoted :
    (s : NotificationService) (b : Bool) (x : NotificationService × Option Notification)
    → (b ≡ false → IsNoted s x)
    → IsNoted s (if b then (s, none) else x)
if-IsNoted s true x h = refused-IsNoted s
if-IsNoted s false x h = h refl

note_published-IsNoted :
    (s : NotificationService) (r : NotificationService × Option Notification)
    → Keeps s r.0
    → s.startup_config_notified ≡ false
    → IsNoted s (note_published r)
note_published-IsNoted s (t, none) k free = still-noted k
note_published-IsNoted s (t, some n) k free = rw free refl

publish-IsNoted :
    (write : List Line → String) (new_id : String) (now : ℕ) (r : ConfigValidationResult)
    (s : NotificationService)
    → IsNoted s (publish_startup_configuration_result write new_id now r s)
unfolding publish_startup_configuration_result
publish-IsNoted write new_id now r s = if-IsNoted s (not s.initialized) _ (λ running.
    if-IsNoted s s.startup_config_notified _ (λ free.
      if-IsNoted s (not (has_errors r) && not (has_warnings r)) _
        (λ found. note_published-IsNoted s _ (create-Keeps new_id now (report write r) s) free)))

noted-call : (c : Call) (s : NotificationService) → noted (call c s) ≡ reported c s + noted s
unfolding call reported upsert_job_notification upsert_system_notification
    upsert_agent_deployment_notification clear_system_notification mark_all_read
    cleanup_old_notifications clear_host_notifications
noted-call (create new_id now d) s = still-noted (create-Keeps new_id now d s)
noted-call (update id c) s = still-noted (update-Keeps id c s)
noted-call (upsert_job new_id now job_id status c) s =
    still-noted (upsert_found-Keeps _ new_id now _ job_id _ s)
noted-call (upsert_system new_id now key c) s =
    still-noted
      (if-Keeps s (not s.initialized) _ _ refl (upsert_mapped-Keeps _ _ new_id now key c s))
noted-call (upsert_agent new_id now status available c) s =
    still-noted (if-Keeps s (not s.initialized) _ _ refl (upsert_found-Keeps _ new_id now _ _ _ s))
noted-call (clear_system key) s =
    still-noted (clear_mapped-Keeps (Dict.get s.system_notification_ids key) key s)
noted-call (delete id) s = still-noted (delete-Keeps id s)
noted-call (mark_read id) s = still-noted (mark_read-Keeps id s)
noted-call mark_all s =
    let (d, ids) = mark_each s.notifications in
    let t = record s { notifications = d } in
    still-noted (broadcast_each-Keeps ids (get_unread_count t) t)
noted-call (cleanup now max_age) s = omega arith
noted-call (clear_host hostname) s = omega arith
noted-call (publish write new_id now r) s = publish-IsNoted write new_id now r s
noted-call connect s = omega arith
noted-call (starts dummy) s = omega arith
noted-call stops s = omega arith

noted-le : (s : NotificationService) → noted s ≤ 1
noted-le s = ground arith

noted-calls :
    (cs : List Call) (s : NotificationService) → noted (calls cs s) ≡ reports cs s + noted s
unfolding calls reports
noted-calls [] s = omega arith
noted-calls (c ∷ cs) s = omega (arith, noted-calls cs (call c s), noted-call c s)

if-is_some :
    {A B : Type 0} (a : A) (b : Bool) (x : A × Option B)
    → is_some (if b then (a, none) else x).1 ≡ (not b && is_some x.1)
if-is_some a true x = refl
if-is_some a false x = refl

note_published-is_some :
    (r : NotificationService × Option Notification) → is_some (note_published r).1 ≡ is_some r.1
note_published-is_some (s, none) = refl
note_published-is_some (s, some n) = refl

publish-is_some :
    (write : List Line → String) (new_id : String) (now : ℕ) (r : ConfigValidationResult)
    (s : NotificationService)
    → is_some (publish_startup_configuration_result write new_id now r s).1
      ≡ (s.initialized && not s.startup_config_notified && (has_errors r || has_warnings r))
unfolding publish_startup_configuration_result create_notification
publish-is_some write new_id now r s =
    let d = report write r in
    let made_one = create_notification new_id now d s in
    ground (
      arith,
      if-is_some s (not s.initialized) _,
      if-is_some s s.startup_config_notified _,
      if-is_some s (not (has_errors r) && not (has_warnings r)) (note_published made_one),
      note_published-is_some made_one,
    )

-- A running service that has not reported the findings yet makes a notification of them just if there
-- are some, and while it has, is stopped or there are none it makes none. In any sequence of calls,
-- restarts of the service included, at most one reports them, and every notification stays under its
-- own id, and no id stands twice, whatever ids the calls are given.
pub publish-calls :
    (write : List Line → String) (new_id : String) (now : ℕ) (r : ConfigValidationResult)
    (cs : List Call) (s : NotificationService)
    → IsTable s.notifications
    → (is_some (publish_startup_configuration_result write new_id now r s).1
        ≡ (s.initialized && not s.startup_config_notified && (has_errors r || has_warnings r)))
      × (reports cs s ≤ 1)
      × IsTable (calls cs s).notifications
publish-calls write new_id now r cs s h = (
  publish-is_some write new_id now r s,
  omega (arith, noted-calls cs s, noted-le (calls cs s)),
  calls-IsTable cs s h,
)
