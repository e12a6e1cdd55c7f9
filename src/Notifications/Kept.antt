-- ===== src/Notifications/Kept.antt =====
-- The operations of server/app/services/notification_service.py that leave it as it was whether the
-- findings of the configuration checks are reported and whether the service runs.
use aether_v.Prelude.Dict
use aether_v.Prelude.Dict.{Dict}
use aether_v.Prelude.{
  ℕ, String, ◌≡◌, refl, Bool, true, false, Option, none, some, List, [], ◌∷◌, eq_string, inl, inr,
  Option-cases, Bool-cases, if◌then◌else◌, ◌==◌, not, ◌∙◌,
}
use aether_v.Notifications.{
  Notification, NotificationService, Action, Draft, Changes, update_found, create_notification,
  update_notification, schedule_broadcast, updated, NotificationCategory,
}
use aether_v.Notifications.Keyed.{
  Content, delete_notification, upsert_found, upsert_mapped, remember, clear_mapped,
}
use aether_v.Notifications.Reading.{mark_notification_read, broadcast_each, mark_found}

-- Whether the findings are reported, and whether the service runs.
abbrev pub flags : NotificationService → Bool × Bool
flags s = (s.startup_config_notified, s.initialized)

-- A call that leaves both as they were.
abbrev pub Keeps : NotificationService → NotificationService → Type 0
Keeps s t = flags t ≡ flags s

pub if-Keeps :
    {A : Type 0} (s : NotificationService) (b : Bool) (x y : NotificationService × A)
    → Keeps s x.0
    → Keeps s y.0
    → Keeps s (if b then x else y).0
if-Keeps s true x y h k = h
if-Keeps s false x y h k = k

pub schedule_broadcast-Keeps :
    (id : String) (a : Action) (x : Option ℕ) (s : NotificationService)
    → Keeps s (schedule_broadcast id a x s)
unfolding schedule_broadcast
schedule_broadcast-Keeps id a x s = elim (Bool-cases s.has_websocket_manager) [
  | inl ws ↦ rw ws refl
  | inr no_ws ↦ rw no_ws refl
]

pub create-Keeps :
    (new_id : String) (now : ℕ) (d : Draft) (s : NotificationService)
    → Keeps s (create_notification new_id now d s).0
unfolding create_notification
create-Keeps new_id now d s =
    if-Keeps s (not s.initialized) _ _ refl (schedule_broadcast-Keeps new_id _ none _)

pub update-Keeps :
    (id : String) (c : Changes) (s : NotificationService) → Keeps s (update_notification id c s).0
unfolding update_notification
update-Keeps id c s = elim (Option-cases (Dict.get s.notifications id)) [
  | inl absent ↦ rw (absent, update_found) refl
  | inr (n, at) ↦ rw (at, update_found) (schedule_broadcast-Keeps id _ none _)
]

pub upsert_found-Keeps :
    (o : Option Notification) (new_id : String) (now : ℕ) (g : NotificationCategory)
    (entity : String) (c : Content) (s : NotificationService)
    → Keeps s (upsert_found o new_id now g entity c s).0
upsert_found-Keeps none new_id now g entity c s = create-Keeps new_id now _ s
upsert_found-Keeps (some n) new_id now g entity c s = update-Keeps n.id _ s

pub remember-Keeps :
    (s : NotificationService) (key : String) (r : NotificationService × Option Notification)
    → Keeps s r.0
    → Keeps s (remember key r).0
remember-Keeps s key (t, none) h = h
remember-Keeps s key (t, some n) h = h

pub upsert_mapped-Keeps :
    (o : Option Notification) (id : Option String) (new_id : String) (now : ℕ) (key : String)
    (c : Content) (s : NotificationService)
    → Keeps s (upsert_mapped o id new_id now key c s).0
upsert_mapped-Keeps (some n) (some id) new_id now key c s = update-Keeps id _ s
upsert_mapped-Keeps (some n) none new_id now key c s =
    remember-Keeps s key _ (create-Keeps new_id now _ s)
upsert_mapped-Keeps none id new_id now key c s =
    remember-Keeps s key _ (create-Keeps new_id now _ s)

pub delete-Keeps : (id : String) (s : NotificationService) → Keeps s (delete_notification id s).0
unfolding delete_notification
delete-Keeps id s =
    if-Keeps s (Dict.has s.notifications id) _ _ (schedule_broadcast-Keeps id _ none _) refl

pub clear_mapped-Keeps :
    (o : Option String) (key : String) (s : NotificationService) → Keeps s (clear_mapped o key s).0
clear_mapped-Keeps none key s = refl
clear_mapped-Keeps (some id) key s =
    let popped = record s { system_notification_ids = Dict.remove s.system_notification_ids key } in
    let (t, done) = delete_notification id popped in
    let kept : Keeps s t = delete-Keeps id popped in
    if-Keeps s (id == "") _ _ refl (if-Keeps s done _ _ kept kept)

pub broadcast_each-Keeps :
    (ids : List String) (unread : ℕ) (s : NotificationService)
    → Keeps s (broadcast_each ids unread s)
broadcast_each-Keeps [] unread s = refl
broadcast_each-Keeps (id ∷ ids) unread s =
    broadcast_each-Keeps ids unread _ ∙ schedule_broadcast-Keeps id updated (some unread) s

pub mark_read-Keeps :
    (id : String) (s : NotificationService) → Keeps s (mark_notification_read id s).0
unfolding mark_notification_read
mark_read-Keeps id s = elim (Option-cases (Dict.get s.notifications id)) [
  | inl absent ↦ rw (absent, mark_found) refl
  | inr (n, at) ↦ rw (at, mark_found) (schedule_broadcast-Keeps id _ none _)
]
