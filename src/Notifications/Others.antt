-- ===== src/Notifications/Others.antt =====
-- What an upsert for a job leaves as it was in server/app/services/notification_service.py: the
-- notifications of other jobs, and the ids that are not taken.
use aether_v.Prelude.Dict
use aether_v.Prelude.Dict.{Dict, get-put}
use aether_v.Prelude.{
  ℕ, String, ◌≡◌, refl, Bool, true, false, Option, none, some, [], ◌∷◌, ◌==◌, ◌⊎◌, inl, inr, arith,
  Option-cases, Bool-cases, eq_string, eq_iff, eq_self, subst, sym, ap, ◌∙◌,
}
use aether_v.Notifications.{
  Notification, NotificationService, drafted, changed, find, job, is_entity,
}
use aether_v.Notifications.Keyed.{
  Content, is_job_of, upsert_job_notification, refreshed, new_draft, with_job, upsert_found,
}
use aether_v.Notifications.Kept.{create-Keeps, update-Keeps}
use aether_v.Notifications.Single.{table-create_notification, table-update_notification}
use aether_v.Notifications.Valid.{IsTable, find-eq-some}

-- The table has one notification more or another one at a place of the job's.
pub record Upserted (job_id new_id : String) (s t : NotificationService) : Type 0 where
  pub key : String
  pub made : Notification
  pub table : t.notifications ≡ Dict.put s.notifications key made
  pub still : t.initialized ≡ s.initialized
  pub of_job : is_job_of job_id made ≡ true
  pub place :
      (key ≡ new_id)
      ⊎ ((m : Notification) × (Dict.get s.notifications key ≡ some m) × (is_job_of job_id m ≡ true))

pub upsert_job-Upserted :
    (new_id job_id status : String) (now : ℕ) (c : Content) (s : NotificationService)
    → s.initialized ≡ true
    → IsTable s.notifications
    → Upserted job_id new_id s (upsert_job_notification new_id now job_id status c s).0
unfolding upsert_job_notification
upsert_job-Upserted new_id job_id status now c s running table =
    elim (Option-cases (find (is_job_of job_id) s.notifications)) [
      | inl absent ↦
          rw (absent, upsert_found)
            (let d = new_draft job job_id (with_job job_id status c) in
              record {
                key = new_id;
                made = drafted new_id now d;
                table = ap (λ r. r.0) (table-create_notification new_id now d s running);
                still = ap (λ f. f.1) (create-Keeps new_id now d s);
                of_job = eq_self job_id;
                place = inl refl;
              })
      | inr (m, present) ↦
          let (is_of, at) = find-eq-some (is_job_of job_id) s.notifications m present table in
          let r = refreshed m (with_job job_id status c) in
          rw (present, upsert_found)
            (record {
              key = m.id;
              made = changed m r;
              table = ap (λ r. r.0) (table-update_notification m.id r s m at);
              still = ap (λ f. f.1) (update-Keeps m.id r s);
              of_job = is_of;
              place = inr (m, at, is_of);
            })
    ]

other_entity :
    (o : Option String) (a b : String)
    → is_entity o a ≡ true
    → (a == b) ≡ false
    → is_entity o b ≡ false
other_entity none a b h e = refl
other_entity (some x) a b h e = ground (arith, eq_iff x a, eq_iff x b, eq_iff a b)

other_job :
    (a b : String) (n : Notification)
    → is_job_of a n ≡ true
    → (a == b) ≡ false
    → is_job_of b n ≡ false
other_job a b n h e = ground (arith, other_entity n.related_entity a b)

find-put_other :
    (p : Notification → Bool) (d : Dict String Notification) (k : String) (n : Notification)
    → p n ≡ false
    → ((m : Notification) → Dict.get d k ≡ some m → p m ≡ false)
    → find p (Dict.put d k n) ≡ find p d
unfolding Dict.put Dict.get
find-put_other p [] k n e f = ground arith
find-put_other p ((j, m) ∷ d) k n e f = elim (Bool-cases (j == k)) [
  | inl same ↦ let old : p m ≡ false = f m (rw same refl) in rw same (ground (arith, old))
  | inr differs ↦
      rw differs (ground (arith, find-put_other p d k n e (λ l at. f l (rw differs at))))
]

-- A key that is there and one that is not are two.
keys_differ :
    (d : Dict String Notification) (j k : String) (n : Notification)
    → Dict.get d j ≡ some n
    → Dict.get d k ≡ none
    → (j == k) ≡ false
keys_differ d j k n there absent = elim (Bool-cases (j == k)) [
  | inl same ↦
      let one : j ≡ k = ground (arith, eq_iff j k, same) in
      let both : some n ≡ none = sym (subst (λ i. Dict.get d i ≡ some n) one there) ∙ absent in
      absurd cc
  | inr differs ↦ differs
]

module _ (job_id new_id : String) (s t : NotificationService) (u : Upserted job_id new_id s t)
    (fresh : Dict.get s.notifications new_id ≡ none) where
  pub Upserted-find :
      (other : String)
      → (job_id == other) ≡ false
      → find (is_job_of other) t.notifications ≡ find (is_job_of other) s.notifications
  Upserted-find other e =
      ap (find (is_job_of other)) u.table
      ∙ find-put_other (is_job_of other) s.notifications u.key u.made
          (other_job job_id other u.made u.of_job e)
          (λ m at. elim u.place [
            | inl new ↦
                absurd
                  (ground (arith, fresh, subst (λ k. Dict.get s.notifications k ≡ some m) new at))
            | inr (l, there, is_of) ↦ other_job job_id other m (ground (arith, there, at, is_of)) e
          ])

  pub Upserted-absent :
      (k : String)
      → (new_id == k) ≡ false
      → Dict.get s.notifications k ≡ none
      → Dict.get t.notifications k ≡ none
  Upserted-absent k e absent =
      ap (λ d. Dict.get d k) u.table ∙ get-put s.notifications u.key u.made k ∙ elim u.place [
        | inl new ↦ rw (new, e) absent
        | inr (l, there, is_of) ↦ rw (keys_differ s.notifications u.key k l there absent) absent
      ]
