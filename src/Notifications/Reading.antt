-- ===== src/Notifications/Reading.antt =====
-- The notifications of server/app/services/notification_service.py as they are listed, counted,
-- read and cleaned up.
use aether_v.Prelude.Dict
use aether_v.Prelude.Dict.{Dict, values}
use aether_v.Prelude.{
  take, ℕ, zero, suc, String, Bool, true, false, ◌&&◌, not, Option, none, some, List, [], ◌∷◌,
  nat_eq, if◌then◌else◌, eq_string, filter, length, ltb, ◌||◌, ◌+◌,
}
use aether_v.Notifications.{
  is_host, Notification, updated, NotificationService, is_entity, schedule_broadcast,
}

abbrev pub is_unread : Notification → Bool
is_unread n = not n.read

unfoldable pub get_notification_count : NotificationService → ℕ
get_notification_count s = length s.notifications

unfoldable pub get_unread_count : NotificationService → ℕ
get_unread_count s = length (filter is_unread (values s.notifications))

-- Behind the notifications that are not older, as `sorted` keeps the order of equal keys also
-- where it sorts in reverse.
abbrev pub insert_newest : Notification → List Notification → List Notification
insert_newest n [] = n ∷ []
insert_newest n (m ∷ ms) =
    if ltb n.created_at m.created_at || nat_eq n.created_at m.created_at
    then m ∷ insert_newest n ms
    else n ∷ m ∷ ms

abbrev pub sort_onto : List Notification → List Notification → List Notification
sort_onto sorted [] = sorted
sort_onto sorted (n ∷ ns) = sort_onto (insert_newest n sorted) ns

-- sorted(ns, key=lambda n: n.created_at, reverse=True)
abbrev pub newest_first : List Notification → List Notification
newest_first ns = sort_onto [] ns

-- `if limit: ns = ns[:limit]`, for a limit that is not negative
abbrev pub limited : Option ℕ → List Notification → List Notification
limited none ns = ns
limited (some zero) ns = ns
limited (some (suc n)) ns = take (suc n) ns

unfoldable pub get_all_notifications : Option ℕ → NotificationService → List Notification
get_all_notifications limit s = limited limit (newest_first (values s.notifications))

unfoldable pub get_unread_notifications : Option ℕ → NotificationService → List Notification
get_unread_notifications limit s =
    limited limit (newest_first (filter is_unread (values s.notifications)))

abbrev pub mark_found :
    Option Notification → String → NotificationService → NotificationService × Bool
mark_found none id s = (s, false)
mark_found (some n) id s = (
  schedule_broadcast id updated none
      (record s { notifications = Dict.put s.notifications id (record n { read = true }) }),
  true,
)

unfoldable pub mark_notification_read : String → NotificationService → NotificationService × Bool
unfolding schedule_broadcast
mark_notification_read id s = mark_found (Dict.get s.notifications id) id s

-- The first loop of `mark_all_read`: the notifications, and the ids of those that were unread.
abbrev pub mark_each : Dict String Notification → Dict String Notification × List String
mark_each [] = ([], [])
mark_each ((k, n) ∷ d) =
    let (d', ids) = mark_each d in
    if n.read then ((k, n) ∷ d', ids) else ((k, record n { read = true }) ∷ d', n.id ∷ ids)

abbrev pub broadcast_each : List String → ℕ → NotificationService → NotificationService
broadcast_each [] unread s = s
broadcast_each (id ∷ ids) unread s =
    broadcast_each ids unread (schedule_broadcast id updated (some unread) s)

unfoldable pub mark_all_read : NotificationService → NotificationService × ℕ
unfolding schedule_broadcast get_unread_count
mark_all_read s =
    let (marked, ids) = mark_each s.notifications in
    let t = record s { notifications = marked } in
    (broadcast_each ids (get_unread_count t) t, length ids)

-- The ids of the notifications to delete, as the first loop collects them.
abbrev pub ids_where : (Notification → Bool) → Dict String Notification → List String
ids_where p [] = []
ids_where p ((k, n) ∷ d) = let rest = ids_where p d in if p n then k ∷ rest else rest

-- for id in to_delete: del self.notifications[id]
abbrev pub delete_each : List String → Dict String Notification → Dict String Notification
delete_each [] d = d
delete_each (id ∷ ids) d = delete_each ids (Dict.remove d id)

-- Deletes the notifications with the property, and counts them.
abbrev pub delete_where : (Notification → Bool) → NotificationService → NotificationService × ℕ
delete_where p s =
    let to_delete = ids_where p s.notifications in
    (record s { notifications = delete_each to_delete s.notifications }, length to_delete)

-- `max_age` and the times are in one unit.
unfoldable pub cleanup_old_notifications : ℕ → ℕ → NotificationService → NotificationService × ℕ
cleanup_old_notifications now max_age s = delete_where (λ n. ltb (n.created_at + max_age) now) s

abbrev pub is_host_of : String → Notification → Bool
is_host_of hostname n = is_host n.category && is_entity n.related_entity hostname

unfoldable pub clear_host_notifications : String → NotificationService → NotificationService × ℕ
clear_host_notifications hostname s = delete_where (is_host_of hostname) s
