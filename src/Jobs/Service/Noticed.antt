-- ===== src/Jobs/Service/Noticed.antt =====
-- What the users are told of the jobs of server/app/services/job_service.py: its calls, delivered to
-- server/app/services/notification_service.py.
use aether_v.Jobs.LineBuffer.{Text}
use aether_v.Jobs.Service.{Job, Call, notify}
use aether_v.Jobs.Service.Heard.{last_notice}
use aether_v.Jobs.Service.Notices.{
  notice, notice_title, notice_message, level_of, status_text, deliver_calls,
}
use aether_v.Notifications.{Notification, NotificationService, find}
use aether_v.Notifications.Keyed.{is_job_of, upsert_job_notification}
use aether_v.Notifications.Others.{Upserted, upsert_job-Upserted, Upserted-find, Upserted-absent}
use aether_v.Notifications.Single.{IsShown, upsert_job-IsShown}
use aether_v.Notifications.Valid.{IsTable, count}
use aether_v.Prelude.Dict
use aether_v.Prelude.Dict.{Dict}
use aether_v.Prelude.{
  ℕ, suc, ◌≤◌, ◌<◌, String, ◌≡◌, refl, ◌∙◌, sym, subst, true, false, Option, none, some, List, [],
  ◌∷◌, ◌==◌, if◌then◌else◌, eq_string, eq_iff, eq_self, arith, inl, inr, Bool-cases,
}

-- A running service that has not used the ids from one on.
pub record IsReady (ids : ℕ → String) (i : ℕ) (n : NotificationService) : Type 0 where
  pub runs : n.initialized ≡ true
  pub table : IsTable n.notifications
  pub unused : (m : ℕ) → i ≤ m → Dict.get n.notifications (ids m) ≡ none

-- A job has no notification, or just the one that tells how the job was last heard of.
abbrev pub Tells : (Text → String) → String → Option Job → Dict String Notification → Type 0
Tells written k none d = count (is_job_of k) d ≡ 0
Tells written k (some j) d =
    (count (is_job_of k) d ≡ 1)
    × (n : Notification) × (find (is_job_of k) d ≡ some n)
    × (n.read ≡ false)
    × (n.title ≡ notice_title written j)
    × (n.message ≡ notice_message written j)
    × (n.level ≡ level_of j.status)

-- No id is made twice.
abbrev pub Unlike : (ℕ → String) → Type 0
Unlike ids = (a b : ℕ) → a < b → (ids a == ids b) ≡ false

-- The strings of the texts, and the ids and times of the notifications.
module _ (written : Text → String) (ids : ℕ → String) (times : ℕ → ℕ) (unlike : Unlike ids) where
  module _ (i : ℕ) (j : Job) (s : NotificationService) (h : IsReady ids i s) where
    abbrev after : NotificationService
    after =
        (upsert_job_notification (ids i) (times i) j.job_id (status_text j.status)
          (notice written j) s).0

    upserted : Upserted j.job_id (ids i) s after
    upserted =
        upsert_job-Upserted (ids i) j.job_id (status_text j.status) (times i) (notice written j) s
          h.runs h.table

    shown :
        let r =
          upsert_job_notification
            (ids i)
            (times i)
            j.job_id
            (status_text j.status)
            (notice written j)
            s in
        IsShown j.job_id (notice written j) s.notifications r.0.notifications r.1
    shown =
        upsert_job-IsShown (ids i) j.job_id (status_text j.status) (times i) (notice written j) s
          h.runs h.table (h.unused i (omega arith))

    after-IsReady : IsReady ids (suc i) after
    after-IsReady = record {
      runs = upserted.still ∙ h.runs;
      table = shown.still_table;
      unused = λ m le.
          Upserted-absent j.job_id (ids i) s after upserted (h.unused i (omega arith)) (ids m)
            (unlike i m (omega arith)) (h.unused m (omega arith));
    }

    counted_once :
        (before : Option Job)
        → Tells written j.job_id before s.notifications
        → count (is_job_of j.job_id) after.notifications ≡ 1
    counted_once none t = shown.counted j.job_id ∙ rw (eq_self j.job_id, t) refl
    counted_once (some l) t = shown.counted j.job_id ∙ rw (eq_self j.job_id, t.0) refl

    own-Tells :
        (before : Option Job)
        → Tells written j.job_id before s.notifications
        → Tells written j.job_id (some j) after.notifications
    unfolding notice
    own-Tells before t = (
      counted_once before t,
      shown.shown,
      shown.found,
      shown.unread,
      shown.titled,
      shown.told,
      shown.levelled,
    )

    other-Tells :
        (k : String) (before : Option Job)
        → (j.job_id == k) ≡ false
        → Tells written k before s.notifications
        → Tells written k before after.notifications
    other-Tells k before e t =
        let same_count : count (is_job_of k) after.notifications
            ≡ count (is_job_of k) s.notifications =
          shown.counted k ∙ rw e refl in
        let same_found =
          Upserted-find j.job_id (ids i) s after upserted (h.unused i (omega arith)) k e in
        kept before t same_count same_found
      where
        kept :
            (o : Option Job)
            → Tells written k o s.notifications
            → count (is_job_of k) after.notifications ≡ count (is_job_of k) s.notifications
            → find (is_job_of k) after.notifications ≡ find (is_job_of k) s.notifications
            → Tells written k o after.notifications
        kept none u c f = c ∙ u
        kept (some l) u c f = (c ∙ u.0, u.1, f ∙ u.2, u.3, u.4, u.5, u.6)

    after-Tells :
        (k : String) (before : Option Job)
        → Tells written k before s.notifications
        → Tells written k (if j.job_id == k then some j else before) after.notifications
    after-Tells k before t = elim (Bool-cases (j.job_id == k)) [
      | inl same ↦
          let e : j.job_id ≡ k = ground (arith, eq_iff j.job_id k, same) in
          rw same (
            subst (λ i. Tells written i (some j) after.notifications) e
              (own-Tells before (subst (λ i. Tells written i before s.notifications) (sym e) t)))
      | inr differs ↦ rw differs (other-Tells k before differs t)
    ]

  later-IsReady : (i : ℕ) (s : NotificationService) → IsReady ids i s → IsReady ids (suc i) s
  later-IsReady i s h = record {
    runs = h.runs;
    table = h.table;
    unused = λ m le. h.unused m (omega arith);
  }

  -- Whatever calls the job service has made, once they are delivered in their order each job has just
  -- the notification that tells how it was last heard of.
  pub deliver_calls-Tells :
      (cs : List Call) (i : ℕ) (s : NotificationService) (k : String) (before : Option Job)
      → IsReady ids i s
      → Tells written k before s.notifications
      → Tells written k
          (last_notice k before cs)
          (deliver_calls written ids times i cs s).notifications
  unfolding deliver_calls
  deliver_calls-Tells [] i s k before h t = t
  deliver_calls-Tells (notify j ∷ cs) i s k before h t =
      deliver_calls-Tells cs (suc i) (after i j s h) k (if j.job_id == k then some j else before)
        (after-IsReady i j s h) (after-Tells i j s h k before t)
  deliver_calls-Tells (c ∷ cs) i s k before h t =
      deliver_calls-Tells cs (suc i) s k before (later-IsReady i s h) t
