-- ===== src/Notifications/Deleting.antt =====
-- The deletions by a property of server/app/services/notification_service.py.
use aether_v.Prelude.Dict
use aether_v.Prelude.Dict.{Dict}
use aether_v.Prelude.{
  ℕ, ◌+◌, String, ◌≡◌, refl, Bool, false, none, List, [], ◌∷◌, ◌==◌, if◌then◌else◌, arith, ◌∙◌,
  length, eq_string, eq_iff, ap, All, inl, inr, Bool-cases, ltb,
}
use aether_v.Notifications.{Notification, NotificationService}
use aether_v.Notifications.Reading.{
  ids_where, delete_each, delete_where, is_host_of, clear_host_notifications,
  cleanup_old_notifications,
}
use aether_v.Notifications.Valid.{IsTable}

-- The table without the notifications that have the property.
abbrev pub without : (Notification → Bool) → Dict String Notification → Dict String Notification
without p [] = []
without p ((k, n) ∷ d) = let rest = without p d in if p n then rest else (k, n) ∷ rest

remove_absent :
    (d : Dict String Notification) (k : String) → Dict.get d k ≡ none → Dict.remove d k ≡ d
unfolding Dict.get Dict.remove
remove_absent [] k e = refl
remove_absent ((j, n) ∷ d) k e = ground (arith, remove_absent d k)

remove_other :
    (k : String) (n : Notification) (d : Dict String Notification) (id : String)
    → (k == id) ≡ false
    → Dict.remove ((k, n) ∷ d) id ≡ (k, n) ∷ Dict.remove d id
unfolding Dict.remove
remove_other k n d id other = ground arith

remove_head :
    (k : String) (n : Notification) (d : Dict String Notification)
    → Dict.get d k ≡ none
    → Dict.remove ((k, n) ∷ d) k ≡ d
unfolding Dict.remove
remove_head k n d e = ground (arith, eq_iff k k, remove_absent d k)

ids_where-absent :
    (p : Notification → Bool) (d : Dict String Notification) (k : String)
    → Dict.get d k ≡ none
    → All (λ id. (k == id) ≡ false) (ids_where p d)
unfolding Dict.get
ids_where-absent p [] k e = tt
ids_where-absent p ((j, n) ∷ d) k e = elim (Bool-cases (p n)) [
  | inl hit ↦ rw hit (ground (arith, eq_iff j k, eq_iff k j), ids_where-absent p d k (ground arith))
  | inr miss ↦ rw miss (ids_where-absent p d k (ground arith))
]

delete_each-cons :
    (ids : List String) (k : String) (n : Notification) (d : Dict String Notification)
    → All (λ id. (k == id) ≡ false) ids
    → delete_each ids ((k, n) ∷ d) ≡ (k, n) ∷ delete_each ids d
delete_each-cons [] k n d h = refl
delete_each-cons (id ∷ ids) k n d h =
    ap (delete_each ids) (remove_other k n d id h.0)
    ∙ delete_each-cons ids k n (Dict.remove d id) h.1

delete_each_lem :
    (p : Notification → Bool) (d : Dict String Notification)
    → IsTable d
    → delete_each (ids_where p d) d ≡ without p d
delete_each_lem p [] h = refl
delete_each_lem p ((k, n) ∷ d) h = elim (Bool-cases (p n)) [
  | inl hit ↦
      rw hit (ap (delete_each (ids_where p d)) (remove_head k n d h.1) ∙ delete_each_lem p d h.2)
  | inr miss ↦ rw miss (
      delete_each-cons (ids_where p d) k n d (ids_where-absent p d k h.1)
      ∙ ap (λ (r : Dict String Notification). (k, n) ∷ r) (delete_each_lem p d h.2))
]

length-ids_where :
    (p : Notification → Bool) (d : Dict String Notification)
    → length (ids_where p d) + length (without p d) ≡ length d
length-ids_where p [] = refl
length-ids_where p ((k, n) ∷ d) = ground (arith, length-ids_where p d)

delete_where_lem :
    (p : Notification → Bool) (s : NotificationService)
    → IsTable s.notifications
    → let (t, n) = delete_where p s in
      (t.notifications ≡ without p s.notifications)
      × (n + length t.notifications ≡ length s.notifications)
delete_where_lem p s table =
    let exact = delete_each_lem p s.notifications table in
    (exact, rw exact (length-ids_where p s.notifications))

-- On a table of notifications under their own ids, `clear_host_notifications` and
-- `cleanup_old_notifications` leave just the notifications that are not of the host, or not older
-- than `max_age`, in their order, and return how many they deleted.
pub deletions_exact :
    (s : NotificationService) (hostname : String) (now max_age : ℕ)
    → IsTable s.notifications
    → let (t, n) = clear_host_notifications hostname s in
      let (u, m) = cleanup_old_notifications now max_age s in
      (t.notifications ≡ without (is_host_of hostname) s.notifications)
      × (n + length t.notifications ≡ length s.notifications)
      × (u.notifications ≡ without (λ n. ltb (n.created_at + max_age) now) s.notifications)
      × (m + length u.notifications ≡ length s.notifications)
unfolding clear_host_notifications cleanup_old_notifications
deletions_exact s hostname now max_age table =
    let (a, b) = delete_where_lem (is_host_of hostname) s table in
    let (c, d) = delete_where_lem (λ n. ltb (n.created_at + max_age) now) s table in (a, b, c, d)
