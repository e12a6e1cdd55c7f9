-- ===== src/Notifications/Ordering.antt =====
-- The listing of server/app/services/notification_service.py is sorted and complete.
use mathlib.Core.List.Perm
use mathlib.Core.List.{Perm, perm_middle}
use aether_v.Prelude.Dict.{values}
use aether_v.Prelude.{
  ℕ, ◌≤◌, Bool, ◌||◌, none, List, [], ◌∷◌, ◌++◌, ltb, nat_eq, All, arith, inl, inr, Bool-cases,
  filter, append-nil,
}
use aether_v.Notifications.{Notification, NotificationService}
use aether_v.Notifications.Reading.{
  is_unread, insert_newest, sort_onto, get_all_notifications, get_unread_notifications,
}

-- Each notification is at least as new as those behind it.
abbrev pub IsNewestFirst : List Notification → Type 0
IsNewestFirst [] = Unit
IsNewestFirst (n ∷ ns) = All (λ m. m.created_at ≤ n.created_at) ns × IsNewestFirst ns

abbrev keeps_ahead : Notification → Notification → Bool
keeps_ahead n m = ltb n.created_at m.created_at || nat_eq n.created_at m.created_at

All-insert_newest :
    (t : ℕ) (n : Notification) (ms : List Notification)
    → n.created_at ≤ t
    → All (λ m. m.created_at ≤ t) ms
    → All (λ m. m.created_at ≤ t) (insert_newest n ms)
All-insert_newest t n [] h hs = (h, tt)
All-insert_newest t n (m ∷ ms) h hs = elim (Bool-cases (keeps_ahead n m)) [
  | inl later ↦ rw later (hs.0, All-insert_newest t n ms h hs.1)
  | inr now ↦ rw now (h, hs)
]

All-weaken :
    (s t : ℕ) (ms : List Notification)
    → s ≤ t
    → All (λ m. m.created_at ≤ s) ms
    → All (λ m. m.created_at ≤ t) ms
All-weaken s t [] h hs = tt
All-weaken s t (m ∷ ms) h hs = (omega arith, All-weaken s t ms h hs.1)

insert_newest-IsNewestFirst :
    (n : Notification) (ms : List Notification)
    → IsNewestFirst ms
    → IsNewestFirst (insert_newest n ms)
insert_newest-IsNewestFirst n [] h = (tt, tt)
insert_newest-IsNewestFirst n (m ∷ ms) h = elim (Bool-cases (keeps_ahead n m)) [
  | inl later ↦
      rw later (
        All-insert_newest m.created_at n ms (ground arith) h.0,
        insert_newest-IsNewestFirst n ms h.1,
      )
  | inr now ↦ rw now (
      let older : m.created_at ≤ n.created_at = ground arith in
      ((older, All-weaken m.created_at n.created_at ms older h.0), h))
]

sort_onto-IsNewestFirst :
    (sorted ns : List Notification) → IsNewestFirst sorted → IsNewestFirst (sort_onto sorted ns)
sort_onto-IsNewestFirst sorted [] h = h
sort_onto-IsNewestFirst sorted (n ∷ ns) h =
    sort_onto-IsNewestFirst (insert_newest n sorted) ns (insert_newest-IsNewestFirst n sorted h)

insert_newest-perm :
    (n : Notification) (ms : List Notification) → Perm (insert_newest n ms) (n ∷ ms)
insert_newest-perm n [] = Perm.refl _
insert_newest-perm n (m ∷ ms) = elim (Bool-cases (keeps_ahead n m)) [
  | inl later ↦ rw later (Perm.trans (Perm.cons m (insert_newest-perm n ms)) (Perm.swap n m ms))
  | inr now ↦ rw now (Perm.refl _)
]

sort_onto-perm : (sorted ns : List Notification) → Perm (sort_onto sorted ns) (sorted ++ ns)
sort_onto-perm sorted [] = rw append-nil (Perm.refl sorted)
sort_onto-perm sorted (n ∷ ns) = Perm.trans (sort_onto-perm (insert_newest n sorted) ns) (
    Perm.trans (Perm.append_right ns (insert_newest-perm n sorted))
      (Perm.symm (perm_middle sorted ns)))

-- With no limit, the listings hold every notification, and every unread one, just once each, and
-- no notification stands in them behind an older one.
pub listings_sorted :
    (s : NotificationService)
    → IsNewestFirst (get_all_notifications none s)
      × Perm (get_all_notifications none s) (values s.notifications)
      × IsNewestFirst (get_unread_notifications none s)
      × Perm (get_unread_notifications none s) (filter is_unread (values s.notifications))
unfolding get_all_notifications get_unread_notifications
listings_sorted s = (
  sort_onto-IsNewestFirst [] (values s.notifications) tt,
  sort_onto-perm [] (values s.notifications),
  sort_onto-IsNewestFirst [] (filter is_unread (values s.notifications)) tt,
  sort_onto-perm [] (filter is_unread (values s.notifications)),
)
