-- ===== src/Jobs/Service/Families.antt =====
-- What a deployment knows of its child jobs in server/app/services/job_service.py.
use aether_v.Jobs.Service.Children.{
  build_child_job_summary, merge_loop, merge_child_job_list, update_child_job_summary,
}
use aether_v.Jobs.Service.Steps.{update_job_lem}
use aether_v.Jobs.Service.{Job, Child, JobService, no_changes, changed}
use aether_v.Prelude.Dict
use aether_v.Prelude.Dict.{values}
use aether_v.Prelude.{
  String, ◌≡◌, refl, ◌∙◌, Bool, true, false, Option, none, some, List, [], ◌∷◌, ◌++◌, ◌==◌,
  if◌then◌else◌, eq_string, eq_iff, arith, Bool-cases, inl, inr,
}

-- The first entry with the id.
abbrev pub child_of : List Child → String → Option Child
child_of [] id = none
child_of (c ∷ cs) id = if c.job_id == id then some c else child_of cs id

-- No child stands twice.
abbrev pub AreDistinct : List Child → Type 0
AreDistinct [] = Unit
AreDistinct (c ∷ cs) = (child_of cs c.job_id ≡ none) × AreDistinct cs

abbrev pub has_child : List Child → String → Bool
has_child [] id = false
has_child (c ∷ cs) id = if c.job_id == id then true else has_child cs id

replaced_lem : (cs : List Child) (new : Child) → (merge_loop cs new).1 ≡ has_child cs new.job_id
replaced_lem [] new = refl
replaced_lem (c ∷ cs) new = ground (arith, replaced_lem cs new)

child_of-merge_loop :
    (cs : List Child) (new : Child) (id : String)
    → child_of (merge_loop cs new).0 id
      ≡ (if new.job_id == id then (if has_child cs id then some new else none) else child_of cs id)
child_of-merge_loop [] new id = ground arith
child_of-merge_loop (c ∷ cs) new id = elim (Bool-cases (c.job_id == new.job_id)) [
  | inl e ↦ rw e (
      ground (
        arith,
        child_of-merge_loop cs new id,
        eq_iff c.job_id new.job_id,
        eq_iff new.job_id id,
        eq_iff c.job_id id,
        e,
      ))
  | inr e ↦ rw e (
      ground (
        arith,
        child_of-merge_loop cs new id,
        eq_iff c.job_id new.job_id,
        eq_iff new.job_id id,
        eq_iff c.job_id id,
        e,
      ))
]

absent-has_child : (cs : List Child) (id : String) → has_child cs id ≡ false → child_of cs id ≡ none
absent-has_child [] id e = refl
absent-has_child (c ∷ cs) id e = ground (arith, e, absent-has_child cs id)

absent-child_of : (cs : List Child) (id : String) → child_of cs id ≡ none → has_child cs id ≡ false
absent-child_of [] id e = refl
absent-child_of (c ∷ cs) id e = ground (arith, e, absent-child_of cs id)

child_of-snoc :
    (cs : List Child) (new : Child) (id : String)
    → child_of (cs ++ new ∷ []) id
      ≡ (if has_child cs id then child_of cs id else if new.job_id == id then some new else none)
child_of-snoc [] new id = refl
child_of-snoc (c ∷ cs) new id = ground (arith, child_of-snoc cs new id)

has_child-merge_loop :
    (cs : List Child) (new : Child) (id : String)
    → has_child (merge_loop cs new).0 id ≡ has_child cs id
has_child-merge_loop [] new id = refl
has_child-merge_loop (c ∷ cs) new id = elim (Bool-cases (c.job_id == new.job_id)) [
  | inl e ↦ rw e (
      ground (
        arith,
        has_child-merge_loop cs new id,
        eq_iff c.job_id new.job_id,
        eq_iff new.job_id id,
        eq_iff c.job_id id,
        e,
      ))
  | inr e ↦ rw e (ground (arith, has_child-merge_loop cs new id))
]

child_of-merge :
    (cs : List Child) (new : Child) (id : String)
    → child_of (merge_child_job_list cs new) id
      ≡ (if new.job_id == id then some new else child_of cs id)
unfolding merge_child_job_list
child_of-merge cs new id = elim (Bool-cases (has_child cs new.job_id)) [
  | inl e ↦
      rw (replaced_lem cs new, e)
        (ground (arith, child_of-merge_loop cs new id, eq_iff new.job_id id, e))
  | inr e ↦
      rw (replaced_lem cs new, e)
        (ground (
          arith,
          child_of-snoc (merge_loop cs new).0 new id,
          has_child-merge_loop cs new id,
          child_of-merge_loop cs new id,
          absent-has_child cs id,
          eq_iff new.job_id id,
          e,
        ))
]

merge_loop-AreDistinct :
    (cs : List Child) (new : Child) → AreDistinct cs → AreDistinct (merge_loop cs new).0
merge_loop-AreDistinct [] new h = tt
merge_loop-AreDistinct (c ∷ cs) new h = elim (Bool-cases (c.job_id == new.job_id)) [
  | inl e ↦ rw e (
    absent-has_child (merge_loop cs new).0 new.job_id (
        ground (
          arith,
          has_child-merge_loop cs new new.job_id,
          absent-child_of cs c.job_id h.0,
          eq_iff c.job_id new.job_id,
          e,
        )),
    merge_loop-AreDistinct cs new h.1,
  )
  | inr e ↦ rw e (
    absent-has_child (merge_loop cs new).0 c.job_id
        (ground (arith, has_child-merge_loop cs new c.job_id, absent-child_of cs c.job_id h.0)),
    merge_loop-AreDistinct cs new h.1,
  )
]

snoc-AreDistinct :
    (cs : List Child) (new : Child)
    → has_child cs new.job_id ≡ false
    → AreDistinct cs
    → AreDistinct (cs ++ new ∷ [])
snoc-AreDistinct [] new e h = (refl, tt)
snoc-AreDistinct (c ∷ cs) new e h = (
  ground (
    arith,
    child_of-snoc cs new c.job_id,
    absent-child_of cs c.job_id h.0,
    eq_iff c.job_id new.job_id,
    eq_iff new.job_id c.job_id,
    e,
  ),
  snoc-AreDistinct cs new (ground (arith, e)) h.1,
)

merge-AreDistinct :
    (cs : List Child) (new : Child) → AreDistinct cs → AreDistinct (merge_child_job_list cs new)
unfolding merge_child_job_list
merge-AreDistinct cs new h = elim (Bool-cases (has_child cs new.job_id)) [
  | inl e ↦ rw (replaced_lem cs new, e) (merge_loop-AreDistinct cs new h)
  | inr e ↦
      rw (replaced_lem cs new, e)
        (snoc-AreDistinct (merge_loop cs new).0 new (has_child-merge_loop cs new new.job_id ∙ e)
          (merge_loop-AreDistinct cs new h))
]

-- When a child's summary is brought up to date and both jobs are there, the deployment has for the
-- child just the summary of its present state, the summaries of its other children stay, none stands
-- twice if none did, and nothing else of the deployment, and no other job, is changed.
pub update_child_lem :
    (s : JobService) (parent child : Job)
    → Dict.get s.jobs parent.job_id ≡ some parent
    → Dict.get s.jobs child.job_id ≡ some child
    → let t = update_child_job_summary parent.job_id child.job_id s in
      (now : Job) × (Dict.get t.jobs parent.job_id ≡ some now)
      × (now ≡ record parent { child_jobs = now.child_jobs })
      × ((id : String)
          → child_of now.child_jobs id ≡ (
              if child.job_id == id
              then some (build_child_job_summary child)
              else child_of parent.child_jobs id))
      × (AreDistinct parent.child_jobs → AreDistinct now.child_jobs)
      × ((k : String) → (parent.job_id == k) ≡ false → Dict.get t.jobs k ≡ Dict.get s.jobs k)
unfolding update_child_job_summary build_child_job_summary
update_child_lem s parent child here there =
    let new = build_child_job_summary child in
    let c = record no_changes { child_jobs = some (merge_child_job_list parent.child_jobs new) } in
    let (stored, beside) = update_job_lem parent.job_id parent c s (here, refl) in
    rw (here, there)
      (
        changed c parent,
        stored,
        refl,
        λ id. child_of-merge parent.child_jobs new id,
        λ h. merge-AreDistinct parent.child_jobs new h,
        beside.others,
      )
