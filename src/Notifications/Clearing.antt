-- ===== src/Notifications/Clearing.antt =====
-- System notifications of server/app/services/notification_service.py: an upsert under a key, and
-- then the clearing of it.
use Prim.Native.String.{◌++◌ as str_append}
use aether_v.Prelude.Dict
use aether_v.Prelude.Dict.{Dict, get-put, get-remove}
use aether_v.Prelude.{
  ℕ, String, ◌≡◌, ◌≢◌, refl, Bool, true, false, Option, none, some, eq_string, arith, if◌then◌else◌,
  subst, ◌==◌, not, eq_iff, ◌∙◌, sym, inl, inr, Bool-cases,
}
use aether_v.Notifications.{
  Notification, NotificationService, create_notification, update_notification, drafted, system,
  changed, update_found,
}
use aether_v.Notifications.Keyed.{
  Content, upsert_system_notification, clear_system_notification, key_of, drop_mapping,
  clear_mapped, upsert_mapped, mapped, remember, new_draft, refreshed,
}
use aether_v.Notifications.Valid.{IsTable, get-IsTable}

-- The key is mapped to a notification that is there.
pub record IsMapped (key : String) (s : NotificationService) (n : Notification) : Type 0 where
  pub mapping : Dict.get s.system_notification_ids key ≡ some n.id
  pub named : n.id ≢ ""
  pub present : Dict.get s.notifications n.id ≡ some n

get-drop_mapping :
    (o : Option String) (d : Dict String String) (k : String)
    → Dict.get d k ≡ none
    → Dict.get (drop_mapping o d) k ≡ none
get-drop_mapping none d k e = e
get-drop_mapping (some j) d k e = ground (arith, get-remove d j k)

cleared :
    (key : String) (s : NotificationService) (n : Notification)
    → IsMapped key s n
    → let (u, done) = clear_system_notification key s in
      (done ≡ true)
      × (Dict.get u.system_notification_ids key ≡ none)
      × ((id : String)
          → Dict.get u.notifications id
            ≡ (if n.id == id then none else Dict.get s.notifications id))
unfolding clear_system_notification
cleared key s n m =
    rw (m.mapping, clear_mapped)
      (
        ground (
          arith,
          m.present,
          m.named,
          eq_iff n.id "",
          get-remove s.system_notification_ids key key,
          eq_iff key key,
          get-drop_mapping (key_of (Dict.remove s.system_notification_ids key) n.id)
              (Dict.remove s.system_notification_ids key) key,
        ),
        ground (
          arith,
          m.present,
          m.named,
          eq_iff n.id "",
          get-remove s.system_notification_ids key key,
          eq_iff key key,
          get-drop_mapping (key_of (Dict.remove s.system_notification_ids key) n.id)
              (Dict.remove s.system_notification_ids key) key,
        ),
        λ id.
            ground (arith, m.present, m.named, eq_iff n.id "", get-remove s.notifications n.id id),
      )

mapped-eq-some :
    (o : Option String) (s : NotificationService) (m : Notification)
    → mapped o s ≡ some m
    → IsTable s.notifications
    → (o ≡ some m.id) × (m.id ≢ "") × (Dict.get s.notifications m.id ≡ some m)
mapped-eq-some none s m e h = cc
mapped-eq-some (some id) s m e h = ground (arith, eq_iff id "", get-IsTable s.notifications id m h)

-- The entry under an id, once the notification is gone that the key was mapped to.
abbrev pub without_old : Option Notification → String → Option Notification → Option Notification
without_old none id entry = entry
without_old (some m) id entry = if m.id == id then none else entry

-- The id of the notification that an upsert leaves under the key.
abbrev IsNamed : String → Option Notification → String → Type 0
IsNamed new_id none id = id ≡ new_id
IsNamed new_id (some m) id = id ≡ m.id

without_old-entry :
    (new_id : String) (o : Option Notification) (named id : String)
    (before between entry : Option Notification)
    → IsNamed new_id o named
    → (new_id ≡ id → before ≡ none)
    → ((named == id) ≡ false → between ≡ before)
    → entry ≡ (if named == id then none else between)
    → entry ≡ without_old o id before
without_old-entry new_id none named id before between entry at fresh kept e =
    elim (Bool-cases (named == id)) [
      | inl same ↦ ground (arith, e, same) ∙ sym (fresh (ground (arith, at, same, eq_iff named id)))
      | inr other ↦ ground (arith, e, other) ∙ kept other
    ]
without_old-entry new_id (some m) named id before between entry at fresh kept e =
    elim (Bool-cases (named == id)) [
      | inl same ↦ ground (arith, e, same, at, eq_iff named id, eq_iff m.id id)
      | inr other ↦ e ∙ ground (arith, other, at, eq_iff named id, eq_iff m.id id, kept other)
    ]

module _ (new_id : String) (now : ℕ) (key : String) (c : Content) (s : NotificationService)
    (running : s.initialized ≡ true) (table : IsTable s.notifications) (not_empty : new_id ≢ "")
    (fresh : Dict.get s.notifications new_id ≡ none) where
  abbrev made : Notification
  made = drafted new_id now (new_draft system (str_append "system:" key) c)

  -- The upsert leaves one notification under the key, and all others as they were.
  abbrev Done : Option Notification → NotificationService × Option Notification → Type 0
  Done o (t, r) =
      (n : Notification) × (r ≡ some n)
      × IsMapped key t n
      × IsNamed new_id o n.id
      × ((id : String)
          → (n.id == id) ≡ false
          → Dict.get t.notifications id ≡ Dict.get s.notifications id)

  create-Done : Done none (
      remember key
        (create_notification new_id now (new_draft system (str_append "system:" key) c) s))
  unfolding create_notification
  create-Done = rw running (
    made,
    refl,
    record {
      mapping = ground (arith, get-put s.system_notification_ids key new_id key, eq_iff key key);
      named = not_empty;
      present = ground (arith, get-put s.notifications new_id made new_id, eq_iff new_id new_id);
    },
    refl,
    λ id. λ other. ground (arith, get-put s.notifications new_id made id, other),
  )

  update-Done :
      (m : Notification)
      → Dict.get s.system_notification_ids key ≡ some m.id
      → m.id ≢ ""
      → Dict.get s.notifications m.id ≡ some m
      → Done (some m) (update_notification m.id (refreshed m c) s)
  unfolding update_notification
  update-Done m mapping named present =
      let n = changed m (refreshed m c) in
      rw (present, update_found)
        (
          n,
          refl,
          record {
            mapping = ground arith;
            named = named;
            present = ground (arith, get-put s.notifications m.id n m.id, eq_iff m.id m.id);
          },
          refl,
          λ id. λ other. ground (arith, get-put s.notifications m.id n id, other),
        )

  mapped-Done :
      (o : Option Notification) (id : Option String)
      → mapped id s ≡ o
      → Dict.get s.system_notification_ids key ≡ id
      → Done o (upsert_mapped o id new_id now key c s)
  mapped-Done none id e f = create-Done
  mapped-Done (some m) none e f = cc
  mapped-Done (some m) (some id) e f =
      let (same, named, present) = mapped-eq-some (some id) s m e table in
      let is_id : m.id ≡ id = ground arith in
      subst (λ (i : String). Done (some m) (update_notification i (refreshed m c) s)) is_id
        (update-Done m (f ∙ same) named present)

  upsert_system-Done :
      Done
        (mapped (Dict.get s.system_notification_ids key) s)
        (upsert_system_notification new_id now key c s)
  unfolding upsert_system_notification
  upsert_system-Done =
      let id = Dict.get s.system_notification_ids key in
      if_done s.initialized running (mapped id s) (mapped-Done (mapped id s) id refl refl)
    where
      if_done :
          (b : Bool)
          → b ≡ true
          → (o : Option Notification) → {r : NotificationService × Option Notification} → Done o r
          → Done o (if not b then (s, none) else r)
      if_done true e o d = d
      if_done false e o d = cc

  -- On a service that runs, with an id that is not empty and new to the table for a notification
  -- that must be created: `upsert_system_notification` leaves the notification that it returns in the
  -- table, and `clear_system_notification` under the same key then returns True and maps the key to
  -- nothing. If the key had no notification before both calls, the table holds just what it held
  -- before them; if it had one, that one is gone, and the table holds just the others.
  pub clear-upsert_system :
      let (t, r) = upsert_system_notification new_id now key c s in
      let (u, done) = clear_system_notification key t in
      (done ≡ true)
      × (Dict.get u.system_notification_ids key ≡ none)
      × ((n : Notification) × (r ≡ some n) × (Dict.get t.notifications n.id ≡ some n))
      × ((id : String)
          → Dict.get u.notifications id
            ≡ without_old
                (mapped (Dict.get s.system_notification_ids key) s)
                id
                (Dict.get s.notifications id))
  clear-upsert_system =
      let (n, returned, is_mapped, at, kept) = upsert_system-Done in
      let (done, unmapped, gone) = cleared key _ n is_mapped in
      (
        done,
        unmapped,
        (n, returned, is_mapped.present),
        λ id.
            without_old-entry new_id (mapped (Dict.get s.system_notification_ids key) s) n.id id
              (Dict.get s.notifications id) _ _ at
              (λ e. subst (λ (i : String). Dict.get s.notifications i ≡ none) e fresh) (kept id)
              (gone id),
      )
