-- ===== src/Notifications/Calls.antt =====
-- Every sequence of calls of server/app/services/notification_service.py.
use aether_v.Prelude.Dict
use aether_v.Prelude.Dict.{Dict}
use aether_v.Prelude.{
  ℕ, String, ◌≡◌, refl, Bool, true, false, Option, none, some, List, [], ◌∷◌, eq_string, arith, inl,
  inr, Option-cases, Bool-cases, if◌then◌else◌, subst, ◌==◌, not, ◌∙◌, ltb, ◌+◌, ◌&&◌,
}
use aether_v.Notifications.{
  Notification, NotificationService, Action, Draft, Changes, changed, drafted, update_found,
  create_notification, update_notification, schedule_broadcast, updated, NotificationCategory,
}
use aether_v.Notifications.Keyed.{
  Content, delete_notification, upsert_job_notification, upsert_agent_deployment_notification,
  upsert_system_notification, clear_system_notification, upsert_found, upsert_mapped, remember,
  clear_mapped,
}
use aether_v.Notifications.Reading.{
  mark_notification_read, mark_all_read, mark_each, broadcast_each, cleanup_old_notifications,
  clear_host_notifications, delete_each, ids_where, mark_found, is_host_of, get_unread_count,
}
use aether_v.ConfigChecks.{ConfigValidationResult, has_errors}
use aether_v.Notifications.Startup.{
  has_warnings, Line, note_published, publish_startup_configuration_result, set_websocket_manager,
  initialize_dummy_data, start_table, start, stop,
}
use aether_v.Notifications.Valid.{IsTable, put-IsTable, remove-IsTable, get-IsTable}

-- A call of a method, with the id and the time that it would get.
pub data Call : Type 0 where
  create : (new_id : String) (now : ℕ) → Draft → Call
  update : (id : String) → Changes → Call
  upsert_job : (new_id : String) (now : ℕ) (job_id status : String) → Content → Call
  upsert_system : (new_id : String) (now : ℕ) (key : String) → Content → Call
  upsert_agent : (new_id : String) (now : ℕ) (status : String) (available : Bool) → Content → Call
  clear_system : (key : String) → Call
  delete : (id : String) → Call
  mark_read : (id : String) → Call
  mark_all : Call
  cleanup : (now max_age : ℕ) → Call
  clear_host : (hostname : String) → Call
  publish : (write : List Line → String) (new_id : String) (now : ℕ) → ConfigValidationResult → Call
  connect : Call
  starts : (dummy : Option (List Notification)) → Call
  stops : Call

unfoldable pub call : Call → NotificationService → NotificationService
call (create new_id now d) s = (create_notification new_id now d s).0
call (update id c) s = (update_notification id c s).0
call (upsert_job new_id now job_id status c) s =
    (upsert_job_notification new_id now job_id status c s).0
call (upsert_system new_id now key c) s = (upsert_system_notification new_id now key c s).0
call (upsert_agent new_id now status available c) s =
    (upsert_agent_deployment_notification new_id now status available c s).0
call (clear_system key) s = (clear_system_notification key s).0
call (delete id) s = (delete_notification id s).0
call (mark_read id) s = (mark_notification_read id s).0
call mark_all s = (mark_all_read s).0
call (cleanup now max_age) s = (cleanup_old_notifications now max_age s).0
call (clear_host hostname) s = (clear_host_notifications hostname s).0
call (publish write new_id now r) s = (publish_startup_configuration_result write new_id now r s).0
call connect s = set_websocket_manager s
call (starts dummy) s = start dummy s
call stops s = stop s

unfoldable pub calls : List Call → NotificationService → NotificationService
unfolding call
calls [] s = s
calls (c ∷ cs) s = calls cs (call c s)

abbrev HasTable : NotificationService → Type 0
HasTable s = IsTable s.notifications

if-HasTable :
    {A : Type 0} (b : Bool) (x y : NotificationService × A)
    → HasTable x.0
    → HasTable y.0
    → HasTable (if b then x else y).0
if-HasTable true x y h k = h
if-HasTable false x y h k = k

schedule_broadcast-HasTable :
    (id : String) (a : Action) (x : Option ℕ) (s : NotificationService)
    → HasTable s
    → HasTable (schedule_broadcast id a x s)
unfolding schedule_broadcast
schedule_broadcast-HasTable id a x s h = elim (Bool-cases s.has_websocket_manager) [
  | inl ws ↦ rw ws h
  | inr no_ws ↦ rw no_ws h
]

create-HasTable :
    (new_id : String) (now : ℕ) (d : Draft) (s : NotificationService)
    → HasTable s
    → HasTable (create_notification new_id now d s).0
unfolding create_notification
create-HasTable new_id now d s h = elim (Bool-cases s.initialized) [
  | inl running ↦ rw running (
      schedule_broadcast-HasTable new_id _ none _
        (put-IsTable s.notifications (drafted new_id now d) h))
  | inr idle ↦ rw idle h
]

-- A notification written over one in the table, under the id where that one stands.
rewrite-IsTable :
    (d : Dict String Notification) (id : String) (n m : Notification)
    → IsTable d
    → Dict.get d id ≡ some n
    → m.id ≡ n.id
    → IsTable (Dict.put d id m)
rewrite-IsTable d id n m h at same =
    subst (λ (k : String). IsTable (Dict.put d k m)) (same ∙ get-IsTable d id n h at)
      (put-IsTable d m h)

update-HasTable :
    (id : String) (c : Changes) (s : NotificationService)
    → HasTable s
    → HasTable (update_notification id c s).0
unfolding update_notification
update-HasTable id c s h = elim (Option-cases (Dict.get s.notifications id)) [
  | inl absent ↦ rw (absent, update_found) h
  | inr (n, at) ↦
      rw (at, update_found)
        (schedule_broadcast-HasTable id _ none _
          (rewrite-IsTable s.notifications id n (changed n c) h at refl))
]

upsert_found-HasTable :
    (o : Option Notification) (new_id : String) (now : ℕ) (g : NotificationCategory)
    (entity : String) (c : Content) (s : NotificationService)
    → HasTable s
    → HasTable (upsert_found o new_id now g entity c s).0
upsert_found-HasTable none new_id now g entity c s h = create-HasTable new_id now _ s h
upsert_found-HasTable (some n) new_id now g entity c s h = update-HasTable n.id _ s h

remember-HasTable :
    (key : String) (r : NotificationService × Option Notification)
    → HasTable r.0
    → HasTable (remember key r).0
remember-HasTable key (s, none) h = h
remember-HasTable key (s, some n) h = h

upsert_mapped-HasTable :
    (o : Option Notification) (id : Option String) (new_id : String) (now : ℕ) (key : String)
    (c : Content) (s : NotificationService)
    → HasTable s
    → HasTable (upsert_mapped o id new_id now key c s).0
upsert_mapped-HasTable (some n) (some id) new_id now key c s h = update-HasTable id _ s h
upsert_mapped-HasTable (some n) none new_id now key c s h =
    remember-HasTable key _ (create-HasTable new_id now _ s h)
upsert_mapped-HasTable none id new_id now key c s h =
    remember-HasTable key _ (create-HasTable new_id now _ s h)

delete-HasTable :
    (id : String) (s : NotificationService) → HasTable s → HasTable (delete_notification id s).0
unfolding delete_notification
delete-HasTable id s h = elim (Bool-cases (Dict.has s.notifications id)) [
  | inl there ↦
      rw there (schedule_broadcast-HasTable id _ none _ (remove-IsTable s.notifications id h))
  | inr absent ↦ rw absent h
]

clear_mapped-HasTable :
    (o : Option String) (key : String) (s : NotificationService)
    → HasTable s
    → HasTable (clear_mapped o key s).0
clear_mapped-HasTable none key s h = h
clear_mapped-HasTable (some id) key s h =
    let popped = record s { system_notification_ids = Dict.remove s.system_notification_ids key } in
    let (t, done) = delete_notification id popped in
    let kept : HasTable t = delete-HasTable id popped h in
    if-HasTable (id == "") _ _ h (if-HasTable done _ _ kept kept)

mark_each-get :
    (d : Dict String Notification) (k : String)
    → Dict.get d k ≡ none
    → Dict.get (mark_each d).0 k ≡ none
unfolding Dict.get
mark_each-get [] k e = refl
mark_each-get ((j, n) ∷ d) k e = ground (arith, mark_each-get d k)

mark_each-IsTable : (d : Dict String Notification) → IsTable d → IsTable (mark_each d).0
mark_each-IsTable [] h = tt
mark_each-IsTable ((k, n) ∷ d) h = elim (Bool-cases n.read) [
  | inl read ↦ rw read (h.0, mark_each-get d k h.1, mark_each-IsTable d h.2)
  | inr unread ↦ rw unread (h.0, mark_each-get d k h.1, mark_each-IsTable d h.2)
]

delete_each-IsTable :
    (ids : List String) (d : Dict String Notification) → IsTable d → IsTable (delete_each ids d)
delete_each-IsTable [] d h = h
delete_each-IsTable (id ∷ ids) d h =
    delete_each-IsTable ids (Dict.remove d id) (remove-IsTable d id h)

broadcast_each-HasTable :
    (ids : List String) (unread : ℕ) (s : NotificationService)
    → HasTable s
    → HasTable (broadcast_each ids unread s)
broadcast_each-HasTable [] unread s h = h
broadcast_each-HasTable (id ∷ ids) unread s h =
    broadcast_each-HasTable ids unread _ (schedule_broadcast-HasTable id updated (some unread) s h)

mark_read-HasTable :
    (id : String) (s : NotificationService) → HasTable s → HasTable (mark_notification_read id s).0
unfolding mark_notification_read
mark_read-HasTable id s h = elim (Option-cases (Dict.get s.notifications id)) [
  | inl absent ↦ rw (absent, mark_found) h
  | inr (n, at) ↦
      rw (at, mark_found)
        (schedule_broadcast-HasTable id _ none _
          (rewrite-IsTable s.notifications id n (record n { read = true }) h at refl))
]

note_published-HasTable :
    (r : NotificationService × Option Notification) → HasTable r.0 → HasTable (note_published r).0
note_published-HasTable (s, none) h = h
note_published-HasTable (s, some n) h = h

initialize_dummy_data-IsTable :
    (ns : List Notification) (d : Dict String Notification)
    → IsTable d
    → IsTable (initialize_dummy_data ns d)
initialize_dummy_data-IsTable [] d h = h
initialize_dummy_data-IsTable (n ∷ ns) d h =
    initialize_dummy_data-IsTable ns (Dict.put d n.id n) (put-IsTable d n h)

start_table-IsTable :
    (dummy : Option (List Notification)) (d : Dict String Notification)
    → IsTable d
    → IsTable (start_table dummy d)
start_table-IsTable none d h = tt
start_table-IsTable (some ns) d h = initialize_dummy_data-IsTable ns d h

call-HasTable : (c : Call) (s : NotificationService) → HasTable s → HasTable (call c s)
unfolding call upsert_job_notification upsert_system_notification
    upsert_agent_deployment_notification clear_system_notification mark_all_read
    cleanup_old_notifications clear_host_notifications publish_startup_configuration_result
call-HasTable (create new_id now d) s h = create-HasTable new_id now d s h
call-HasTable (update id c) s h = update-HasTable id c s h
call-HasTable (upsert_job new_id now job_id status c) s h =
    upsert_found-HasTable _ new_id now _ job_id _ s h
call-HasTable (upsert_system new_id now key c) s h =
    if-HasTable (not s.initialized) _ _ h (upsert_mapped-HasTable _ _ new_id now key c s h)
call-HasTable (upsert_agent new_id now status available c) s h =
    if-HasTable (not s.initialized) _ _ h (upsert_found-HasTable _ new_id now _ _ _ s h)
call-HasTable (clear_system key) s h =
    clear_mapped-HasTable (Dict.get s.system_notification_ids key) key s h
call-HasTable (delete id) s h = delete-HasTable id s h
call-HasTable (mark_read id) s h = mark_read-HasTable id s h
call-HasTable mark_all s h =
    let (d, ids) = mark_each s.notifications in
    let t = record s { notifications = d } in
    broadcast_each-HasTable ids (get_unread_count t) t (mark_each-IsTable s.notifications h)
call-HasTable (cleanup now max_age) s h =
    delete_each-IsTable (ids_where (λ n. ltb (n.created_at + max_age) now) s.notifications)
      s.notifications h
call-HasTable (clear_host hostname) s h =
    delete_each-IsTable (ids_where (is_host_of hostname) s.notifications) s.notifications h
call-HasTable (publish write new_id now r) s h = if-HasTable (not s.initialized) _ _ h (
    if-HasTable s.startup_config_notified _ _ h (
      if-HasTable (not (has_errors r) && not (has_warnings r)) _ _ h
        (note_published-HasTable _ (create-HasTable new_id now _ s h))))
call-HasTable connect s h = h
call-HasTable (starts dummy) s h = start_table-IsTable dummy s.notifications h
call-HasTable stops s h = h

-- Whatever methods are called, and whatever ids they are given, every notification stays under its
-- own id, and no id stands twice.
pub calls-IsTable :
    (cs : List Call) (s : NotificationService)
    → IsTable s.notifications
    → IsTable (calls cs s).notifications
unfolding calls
calls-IsTable [] s h = h
calls-IsTable (c ∷ cs) s h = calls-IsTable cs (call c s) (call-HasTable c s h)
