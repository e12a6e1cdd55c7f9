-- ===== src/Notifications/Marking.antt =====
-- `mark_all_read` of server/app/services/notification_service.py.
use aether_v.Prelude.Dict
use aether_v.Prelude.Dict.{Dict, values}
use aether_v.Prelude.{
  ℕ, String, ◌≡◌, refl, true, Option, none, some, List, [], ◌∷◌, ◌++◌, arith, ◌∙◌, length, filter,
  map, eq_string, sym, append-nil, append_assoc,
}
use aether_v.Notifications.{
  Notification, NotificationService, updated, schedule_broadcast, Broadcast,
}
use aether_v.Notifications.Reading.{
  is_unread, get_unread_count, get_notification_count, mark_each, mark_all_read, broadcast_each,
}

abbrev pub marked : Option Notification → Option Notification
marked none = none
marked (some n) = some (record n { read = true })

unread-mark_each :
    (d : Dict String Notification) → length (filter is_unread (values (mark_each d).0)) ≡ 0
unread-mark_each [] = refl
unread-mark_each ((k, n) ∷ d) = ground (arith, unread-mark_each d)

unread_ids :
    (d : Dict String Notification) → (mark_each d).1 ≡ map (λ n. n.id) (filter is_unread (values d))
unread_ids [] = refl
unread_ids ((k, n) ∷ d) = ground (arith, unread_ids d)

ids-mark_each :
    (d : Dict String Notification) → length (mark_each d).1 ≡ length (filter is_unread (values d))
ids-mark_each [] = refl
ids-mark_each ((k, n) ∷ d) = ground (arith, ids-mark_each d)

length-mark_each : (d : Dict String Notification) → length (mark_each d).0 ≡ length d
length-mark_each [] = refl
length-mark_each ((k, n) ∷ d) = ground (arith, length-mark_each d)

get-mark_each :
    (d : Dict String Notification) (id : String)
    → Dict.get (mark_each d).0 id ≡ marked (Dict.get d id)
unfolding Dict.get
get-mark_each [] id = refl
get-mark_each ((k, n) ∷ d) id = ground (arith, get-mark_each d id)

notifications-broadcast_each :
    (ids : List String) (unread : ℕ) (s : NotificationService)
    → (broadcast_each ids unread s).notifications ≡ s.notifications
notifications-broadcast_each [] unread s = refl
notifications-broadcast_each (id ∷ ids) unread s =
    notifications-broadcast_each ids unread (schedule_broadcast id updated (some unread) s)
    ∙ (unfold schedule_broadcast in ground arith)

abbrev pub told : ℕ → List String → List Broadcast
told unread [] = []
told unread (id ∷ ids) =
    record { notification_id = id; action = updated; unread_count = some unread } ∷ told unread ids

scheduled-broadcast_each :
    (ids : List String) (unread : ℕ) (s : NotificationService)
    → s.has_websocket_manager ≡ true
    → (broadcast_each ids unread s).scheduled ≡ s.scheduled ++ told unread ids
scheduled-broadcast_each [] unread s ws = sym (append-nil s.scheduled)
scheduled-broadcast_each (id ∷ ids) unread s ws =
    scheduled-broadcast_each ids unread (schedule_broadcast id updated (some unread) s)
      (unfold schedule_broadcast in ground arith)
    ∙ (unfold schedule_broadcast in rw ws (append_assoc s.scheduled _ _))

-- `mark_all_read` marks every notification as read and changes nothing else of any; it returns how
-- many were unread; and where clients are connected it schedules a broadcast for each of these, in
-- their order and under its own id, that tells the clients that none is unread.
pub mark_all_read_lem :
    (s : NotificationService)
    → let (t, n) = mark_all_read s in
      (get_unread_count t ≡ 0)
      × (n ≡ get_unread_count s)
      × (get_notification_count t ≡ get_notification_count s)
      × ((id : String) → Dict.get t.notifications id ≡ marked (Dict.get s.notifications id))
      × (s.has_websocket_manager ≡ true
          → t.scheduled
            ≡ s.scheduled ++ told 0 (map (λ n. n.id) (filter is_unread (values s.notifications))))
unfolding mark_all_read get_notification_count
mark_all_read_lem s =
    let d = s.notifications in
    let (d', ids) = mark_each d in
    let t = record s { notifications = d' } in
    let kept = notifications-broadcast_each ids (get_unread_count t) t in
    (
      rw (kept, unread-mark_each d),
      ids-mark_each d,
      rw (kept, length-mark_each d),
      λ id. rw (kept, get-mark_each d id),
      λ ws.
          scheduled-broadcast_each ids (get_unread_count t) t ws
          ∙ rw (unread-mark_each d, unread_ids d) refl,
    )
