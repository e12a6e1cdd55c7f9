-- ===== src/Notifications/Single.antt =====
-- A job has one notification (server/app/services/notification_service.py).
use aether_v.Prelude.Dict
use aether_v.Prelude.Dict.{Dict}
use aether_v.Prelude.{
  ℕ, String, ◌≡◌, ◌≢◌, refl, Bool, true, false, ◌&&◌, Option, none, some, [], ◌∷◌, ◌==◌,
  if◌then◌else◌, arith, inl, inr, Option-cases, eq_string, eq_iff, eq_nat, eq_self, subst, sym,
}
use aether_v.Notifications.{
  Notification, NotificationService, Changes, changed, Draft, drafted, create_notification,
  update_notification, find, job,
}
use aether_v.Notifications.Keyed.{
  Content, is_job_of, upsert_job_notification, refreshed, new_draft, with_job, upsert_found,
}
use aether_v.Notifications.Valid.{
  IsTable, count, put-IsTable, count-put_new, count-put_old, find-eq-some, find-eq-none,
  find-put_new, find-put_old,
}

found-counted :
    (p : Notification → Bool) (d : Dict String Notification) (m : Notification)
    → find p d ≡ some m
    → count p d ≢ 0
found-counted p [] m e z = cc
found-counted p ((k, n) ∷ d) m e z = ground (arith, found-counted p d m)

-- What an upsert for a job leaves behind.
pub record IsShown (job_id : String) (c : Content) (before after : Dict String Notification)
    (r : Option Notification) : Type 0 where
  pub shown : Notification
  pub returned : r ≡ some shown
  pub found : find (is_job_of job_id) after ≡ some shown
  pub unread : shown.read ≡ false
  pub titled : shown.title ≡ c.title
  pub told : shown.message ≡ c.message
  pub levelled : shown.level ≡ c.level
  pub still_table : IsTable after
  pub counted :
      (other : String)
      → count (is_job_of other) after ≡ (
          if job_id == other && count (is_job_of job_id) before == 0
          then 1
          else count (is_job_of other) before)

-- What the service does, as the table of notifications and the caller see it.
abbrev pub seen :
    NotificationService × Option Notification → Dict String Notification × Option Notification
seen (s, r) = (s.notifications, r)

pub table-create_notification :
    (new_id : String) (now : ℕ) (d : Draft) (s : NotificationService)
    → s.initialized ≡ true
    → seen (create_notification new_id now d s)
      ≡ (Dict.put s.notifications new_id (drafted new_id now d), some (drafted new_id now d))
unfolding create_notification
table-create_notification new_id now d s running = ground arith

pub table-update_notification :
    (id : String) (c : Changes) (s : NotificationService) (n : Notification)
    → Dict.get s.notifications id ≡ some n
    → seen (update_notification id c s)
      ≡ (Dict.put s.notifications id (changed n c), some (changed n c))
unfolding update_notification
table-update_notification id c s n at = ground arith

module _ (new_id job_id status : String) (now : ℕ) (c : Content) (s : NotificationService)
    (running : s.initialized ≡ true) (table : IsTable s.notifications)
    (fresh : Dict.get s.notifications new_id ≡ none) where
  abbrev content : Content
  content = with_job job_id status c

  abbrev made : Notification
  made = drafted new_id now (new_draft job job_id content)

  created-IsShown :
      find (is_job_of job_id) s.notifications ≡ none
      → IsShown job_id c s.notifications (Dict.put s.notifications new_id made) (some made)
  created-IsShown absent = (record {
    shown = made;
    returned = refl;
    found =
        find-put_new (is_job_of job_id) s.notifications new_id made fresh absent (eq_self job_id);
    unread = refl;
    titled = refl;
    told = refl;
    levelled = refl;
    still_table = put-IsTable s.notifications made table;
    counted = λ other. ground (
      arith,
      count-put_new (is_job_of other) s.notifications new_id made fresh,
      find-eq-none (is_job_of job_id) s.notifications absent,
      eq_iff job_id other,
    );
  })

  updated-IsShown :
      (m : Notification)
      → find (is_job_of job_id) s.notifications ≡ some m
      → let n = changed m (refreshed m content) in
        IsShown job_id c s.notifications (Dict.put s.notifications m.id n) (some n)
  updated-IsShown m present =
      let (is_of, at) = find-eq-some (is_job_of job_id) s.notifications m present table in
      let n = changed m (refreshed m content) in
      (record {
        shown = n;
        returned = refl;
        found = find-put_old (is_job_of job_id) s.notifications m n present table is_of;
        unread = refl;
        titled = refl;
        told = refl;
        levelled = refl;
        still_table = put-IsTable s.notifications n table;
        counted = λ other. ground (
          arith,
          count-put_old (is_job_of other) s.notifications m.id n m at,
          found-counted (is_job_of job_id) s.notifications m present,
          eq_iff job_id other,
        );
      })

  abbrev Shows : Dict String Notification × Option Notification → Type 0
  Shows (after, r) = IsShown job_id c s.notifications after r

  -- Whether or not the job had a notification, `upsert_job_notification` returns the one that the job
  -- then has, unread and with the new title, message and level, and no job gets a second one.
  pub upsert_job-IsShown :
      let (t, r) = upsert_job_notification new_id now job_id status c s in
      IsShown job_id c s.notifications t.notifications r
  unfolding upsert_job_notification
  upsert_job-IsShown = elim (Option-cases (find (is_job_of job_id) s.notifications)) [
    | inl absent ↦
        rw (absent, upsert_found)
          (subst Shows
            (sym (table-create_notification new_id now (new_draft job job_id content) s running))
            (created-IsShown absent))
    | inr (m, present) ↦
        let (is_of, at) = find-eq-some (is_job_of job_id) s.notifications m present table in
        rw (present, upsert_found)
          (subst Shows (sym (table-update_notification m.id (refreshed m content) s m at))
            (updated-IsShown m present))
  ]
