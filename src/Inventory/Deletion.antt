-- ===== src/Inventory/Deletion.antt =====
-- A deletion from `mark_vm_deleting` to `finalize_vm_deletion` in
-- server/app/services/inventory_service.py.
use aether_v.Prelude.Dict
use aether_v.Prelude.Dict.{Dict, get-put, get-put_self, get-remove}
use aether_v.Jobs.LineBuffer.{Text}
use aether_v.Prelude.{
  ◌≡◌, refl, Bool, false, ◌&&◌, Option, none, some, [], ◌∷◌, ◌==◌, if◌then◌else◌, eq_text, arith,
  inl, inr, Bool-cases, same_text_iff, eq_self, ap,
}
use aether_v.Inventory.{Vm, Fleet, Inventory, vm_key, or_empty, deleting}
use aether_v.Inventory.Machines.{find_vm, remove_vm}
use aether_v.Inventory.JobVms.{
  is_unnamed, mark_found, mark_vm_deleting, finalize_vm_deletion, restore, or_none, drop_transient,
  placeholder_vm,
}
use aether_v.Inventory.Valid.{IsFleet}
use aether_v.Inventory.Runs.{Reach, Reach-Sound}
use aether_v.Inventory.Sound.{mark_found-IsFleet}
use aether_v.Inventory.Tables.{find-set_vm, find-remove_vm, find-set_state_other}

module _ {f : Fleet} (h : IsFleet f) (key name host : Text) where
  -- Marking a machine leaves the others alone.
  find-mark_found :
      (o : Option Vm) (k : Text)
      → (key == k) ≡ false
      → find_vm (mark_found key name host o f) k ≡ find_vm f k
  find-mark_found none k there =
      rw (find-set_vm h key (placeholder_vm name host deleting) k, there) refl
  find-mark_found (some vm) k there = find-set_state_other h key deleting k there

-- A restored machine is the one that was copied.
find-restore :
    {f : Fleet} (h : IsFleet f) (key : Text) (o : Option Vm) (k : Text)
    → find_vm (restore key o f) k ≡ (if key == k then o else find_vm f k)
find-restore {f = f} h key none k = find-remove_vm key f k
find-restore h key (some vm) k = find-set_vm h key vm k

module _ (s : Inventory) (job name host : Text) where
  abbrev marked : Inventory
  marked = mark_vm_deleting job name host s

  module _ (named : is_unnamed job name host ≡ false) where
    held-mark :
        Dict.get s.job_vm_placeholders job ≡ none
        → Dict.get marked.job_vm_placeholders job ≡ some (vm_key host name ∷ [])
    unfolding mark_vm_deleting
    held-mark idle =
        rw (named, idle)
          (ground
            (arith, eq_self job, get-put s.job_vm_placeholders job (vm_key host name ∷ []) job))

    original-mark :
        or_none (Dict.get (or_empty (Dict.get marked.job_vm_originals job)) (vm_key host name))
        ≡ find_vm s.fleet (vm_key host name)
    unfolding mark_vm_deleting
    original-mark =
        let key = vm_key host name in
        let table = or_empty (Dict.get s.job_vm_originals job) in
        rw
          (
            named,
            get-put_self s.job_vm_originals job (Dict.put table key (find_vm s.fleet key)),
            get-put_self table key (find_vm s.fleet key),
          )
          refl

    fleet-mark :
        marked.fleet
        ≡ mark_found (vm_key host name) name host (find_vm s.fleet (vm_key host name)) s.fleet
    unfolding mark_vm_deleting
    fleet-mark = rw named refl

    finalize_fleet :
        (success : Bool)
        → Dict.get s.job_vm_placeholders job ≡ none
        → (finalize_vm_deletion job name host success marked).fleet ≡ (
            if success
            then remove_vm (vm_key host name) marked.fleet
            else restore (vm_key host name) (find_vm s.fleet (vm_key host name)) marked.fleet)
    unfolding finalize_vm_deletion drop_transient
    finalize_fleet success idle =
        rw (named, held-mark idle, original-mark, eq_self (vm_key host name)) refl

-- The tables after the machine is restored or removed, from the state in which it was marked.
find-ended :
    {f : Fleet} (h : IsFleet f) (key name host : Text) (success : Bool) (k : Text)
    → let o = find_vm f key in
      let g = mark_found key name host o f in
      find_vm (if success then remove_vm key g else restore key o g) k
      ≡ (if key == k && success then none else find_vm f k)
find-ended {f = f} h key name host success k =
    let o = find_vm f key in
    let g = mark_found key name host o f in
    let hg = mark_found-IsFleet key name host o h in
    elim (Bool-cases (key == k)) [
      | inl here ↦
          let same : key ≡ k = (same_text_iff key k).0 here in
          elim (Bool-cases success) [
            | inl done ↦ rw (done, find-remove_vm key g k, here) refl
            | inr undone ↦ rw (undone, find-restore hg key o k, here) (ap (find_vm f) same)
          ]
      | inr there ↦
          let kept = find-mark_found h key name host o k there in
          elim (Bool-cases success) [
            | inl done ↦ rw (done, find-remove_vm key g k, there) kept
            | inr undone ↦ rw (undone, find-restore hg key o k, there) kept
          ]
    ]

-- A job that has no other placeholder marks a machine as deleting, and then the deletion ends: with
-- success the machine is gone, after a failure it is as it was before the mark (or absent again),
-- and every other machine is as it was.
pub finalize-mark :
    {s : Inventory}
    → Reach s
    → (job name host : Text) (success : Bool) (k : Text) → is_unnamed job name host ≡ false
    → Dict.get s.job_vm_placeholders job ≡ none
    → find_vm
        (finalize_vm_deletion job name host success (mark_vm_deleting job name host s)).fleet
        k
      ≡ (if vm_key host name == k && success then none else find_vm s.fleet k)
finalize-mark {s = s} r job name host success k named idle =
    rw (finalize_fleet s job name host named success idle, fleet-mark s job name host named)
      (find-ended (Reach-Sound r).fleet_valid (vm_key host name) name host success k)
