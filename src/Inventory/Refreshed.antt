-- ===== src/Inventory/Refreshed.antt =====
-- A refresh of one host in server/app/services/inventory_service.py, from its answer to the machines.
use aether_v.Prelude.Dict
use aether_v.Prelude.Dict.{Dict, get-put, get-put_self}
use aether_v.Jobs.LineBuffer.{Text}
use aether_v.Prelude.{
  ℕ, ◌≡◌, refl, Bool, true, false, not, ◌&&◌, Option, none, some, List, [], if◌then◌else◌, eq_text,
  inl, inr, Bool-cases, ltb, sym, subst,
}
use aether_v.Inventory.{Vm, Host, Fleet, Inventory, contains}
use aether_v.Inventory.Machines.{find_vm}
use aether_v.Inventory.Readiness.{
  mark_host_preparing, clear_preparing_host, clear_slow_host, record_host_refresh_duration,
}
use aether_v.Inventory.Snapshots.{
  Snapshot, set_host, place_vms, drop_unexpected, tell_connection, time_refresh, clear_if_told,
  apply_vms, apply_host_snapshot_locked, apply_host_snapshot, is_stale, was_connected,
  was_disconnected, has_error, set_refresh_time,
}
use aether_v.Inventory.Refresh.{
  Collected, collected, failed, Answer, refresh_host, outcome_snapshot, with_duration,
  preparing_snapshot,
}
use aether_v.Inventory.Valid.{IsFleet}
use aether_v.Inventory.Sound.{if-holds}
use aether_v.Inventory.Runs.{Reach, Reach-Sound}
use aether_v.Inventory.Contents.{refreshed_vm, find-placed, find-dropped}

-- Two states with the same machines and placeholders.
record SameVms (s t : Inventory) : Type 0 where
  same_fleet : t.fleet ≡ s.fleet
  same_placeholders : t.job_vm_placeholders ≡ s.job_vm_placeholders

abbrev unchanged : (s : Inventory) → SameVms s s
unchanged s = record { same_fleet = refl; same_placeholders = refl }

clear_if_told-SameVms : (p : Snapshot) (s : Inventory) → SameVms s (clear_if_told p s)
unfolding clear_preparing_host
clear_if_told-SameVms p s =
    if-holds (SameVms s) p.clear_preparing
      (if-holds (SameVms s) (contains s.preparing_hosts p.hostname)
        (record { same_fleet = refl; same_placeholders = refl })
        (record { same_fleet = refl; same_placeholders = refl }))
      (unchanged s)

set_host-SameVms :
    (hostname : Text) (o : Option Host) {s t : Inventory}
    → SameVms s t
    → SameVms s (set_host hostname o t)
set_host-SameVms hostname none e = e
set_host-SameVms hostname (some h) e = record {
  same_fleet = e.same_fleet;
  same_placeholders = e.same_placeholders;
}

abbrev HasFleet : Fleet → Inventory → Type 0
HasFleet f t = t.fleet ≡ f

tell_connection-fleet :
    (dummy : Bool) (p : Snapshot) (o : Option Host) (s : Inventory)
    → (tell_connection dummy p o s).fleet ≡ s.fleet
tell_connection-fleet dummy p o s =
    if-holds (HasFleet s.fleet) (p.refreshed && not dummy)
      (if-holds (HasFleet s.fleet) (was_disconnected o) refl refl)
      (if-holds (HasFleet s.fleet) (has_error p.error && not dummy)
        (if-holds (HasFleet s.fleet) (was_connected o) refl refl) refl)

time_refresh-fleet :
    (r : Bool) (hostname : Text) (d i : Option ℕ) (s : Inventory)
    → (time_refresh r hostname d i s).fleet ≡ s.fleet
unfolding record_host_refresh_duration clear_slow_host
time_refresh-fleet false hostname d i s = refl
time_refresh-fleet true hostname none i s = refl
time_refresh-fleet true hostname (some d) none s = refl
time_refresh-fleet true hostname (some d) (some i) s =
    if-holds (HasFleet s.fleet) (ltb i d) refl
      (if-holds (HasFleet s.fleet) (contains s.slow_hosts hostname) refl refl)

-- The state in which a snapshot's machines are placed.
abbrev received : Snapshot → Inventory → Inventory
received p s = set_host p.hostname p.host (clear_if_told p s)

received-SameVms : (p : Snapshot) (s : Inventory) → SameVms s (received p s)
received-SameVms p s = set_host-SameVms p.hostname p.host (clear_if_told-SameVms p s)

fleet-apply_host_snapshot_locked :
    (dummy : Bool) (p : Snapshot) (o : Option Host) (s : Inventory)
    → p.mark_preparing ≡ false
    → (apply_host_snapshot_locked dummy p o s).fleet ≡ (apply_vms p (received p s)).fleet
unfolding apply_host_snapshot_locked
fleet-apply_host_snapshot_locked dummy p o s ready =
    let applied = apply_vms p (received p s) in
    let u : Inventory = record applied {
      host_last_refresh =
          set_refresh_time p.hostname p.host_last_refresh p.clear_host_last_refresh
            applied.host_last_refresh;
    } in
    rw
      (
        ready,
        time_refresh-fleet p.record_duration p.hostname p.duration p.expected_interval
            (tell_connection dummy p o u),
      )
      (tell_connection-fleet dummy p o u)

refreshed_vm-SameVms :
    (hostname : Text) {s t : Inventory} (e : SameVms s t) (vms : List Vm) (k : Text)
    → refreshed_vm hostname t vms k ≡ refreshed_vm hostname s vms k
refreshed_vm-SameVms hostname e vms k = rw (e.same_fleet, e.same_placeholders) refl

abbrev pub vms_of : Collected → List Vm
vms_of (collected cluster cores details vms) = vms
vms_of (failed error) = []

-- The machines after `apply_vms`, for each outcome.
find-apply_vms :
    (hostname : Text) (interval : Option ℕ) (sequence duration now : ℕ) (previous : Option Host)
    (c : Collected) (t : Inventory) (k : Text)
    → IsFleet t.fleet
    → find_vm
        (apply_vms
          (with_duration interval duration (outcome_snapshot hostname sequence now previous c))
          t).fleet
        k
      ≡ refreshed_vm hostname t (vms_of c) k
unfolding apply_vms
find-apply_vms hostname none sequence duration now previous (collected cl co de vms) t k h =
    find-placed hostname t vms k h
find-apply_vms hostname (some i) sequence duration now previous (collected cl co de vms) t k h =
    find-placed hostname t vms k h
find-apply_vms hostname none sequence duration now previous (failed error) t k h =
    unfold place_vms drop_unexpected in find-dropped hostname t k
find-apply_vms hostname (some i) sequence duration now previous (failed error) t k h =
    unfold place_vms drop_unexpected in find-dropped hostname t k

-- The hostname and the flag of a snapshot of `refresh_host` that is not one of a preparing host.
outcome-hostname :
    (hostname : Text) (interval : Option ℕ) (sequence duration now : ℕ) (previous : Option Host)
    (c : Collected)
    → let p = with_duration interval duration (outcome_snapshot hostname sequence now previous c) in
      (p.hostname ≡ hostname) × (p.mark_preparing ≡ false) × (p.sequence ≡ sequence)
outcome-hostname hostname none sequence duration now previous (collected cl co de vms) =
    (refl, refl, refl)
outcome-hostname hostname (some i) sequence duration now previous (collected cl co de vms) =
    (refl, refl, refl)
outcome-hostname hostname none sequence duration now previous (failed error) = (refl, refl, refl)
outcome-hostname hostname (some i) sequence duration now previous (failed error) =
    (refl, refl, refl)

module _ {s : Inventory} (r : Reach s) (hostname : Text) (sequence : ℕ) (k : Text) where
  -- A snapshot that is not stale, with the hostname that it has.
  fresh-fleet :
      (dummy : Bool) (p : Snapshot)
      → is_stale p.sequence (Dict.get s.last_applied p.hostname) ≡ false
      → (apply_host_snapshot dummy p s).fleet
        ≡ (apply_host_snapshot_locked dummy p (Dict.get s.hosts p.hostname) s).fleet
  unfolding apply_host_snapshot
  fresh-fleet dummy p fresh = rw fresh refl

  find-outcome :
      (interval : Option ℕ) (duration now : ℕ) (previous : Option Host) (c : Collected)
      → is_stale sequence (Dict.get s.last_applied hostname) ≡ false
      → find_vm
          (apply_host_snapshot false
            (with_duration interval duration (outcome_snapshot hostname sequence now previous c))
            s).fleet
          k
        ≡ refreshed_vm hostname s (vms_of c) k
  find-outcome interval duration now previous c fresh =
      let p = with_duration interval duration (outcome_snapshot hostname sequence now previous c) in
      let (named, ready, numbered) =
        outcome-hostname hostname interval sequence duration now previous c in
      let same = received-SameVms p s in
      let h : IsFleet (received p s).fleet =
        subst IsFleet (sym same.same_fleet) (Reach-Sound r).fleet_valid in
      rw
        (
          fresh-fleet false p (rw (named, numbered) fresh),
          fleet-apply_host_snapshot_locked false p (Dict.get s.hosts p.hostname) s ready,
          find-apply_vms hostname interval sequence duration now previous c (received p s) k h,
        )
        (refreshed_vm-SameVms hostname same (vms_of c) k)

  -- A host is asked, and its snapshot, which is not stale, is applied in any state that the service
  -- reaches. If the host is preparing, every machine stays. If not, the machines of other hosts stay,
  -- and those under the host's keys are the ones of its answer (none after a failure), the last of
  -- each name, and else the placeholders of running jobs.
  pub find-refresh_host :
      (interval : Option ℕ) (previous : Option Host) (a : Answer)
      → is_stale sequence (Dict.get s.last_applied hostname) ≡ false
      → find_vm
          (apply_host_snapshot false (refresh_host hostname interval sequence previous a) s).fleet
          k
        ≡ (if a.preparing
            then find_vm s.fleet k
            else refreshed_vm hostname s (vms_of a.collected) k)
  unfolding refresh_host
  find-refresh_host interval previous a fresh = elim (Bool-cases a.preparing) [
    | inl preparing ↦
        rw (preparing, fresh-fleet false (preparing_snapshot hostname sequence) fresh)
          (unfold apply_host_snapshot_locked mark_host_preparing in refl)
    | inr ready ↦ rw ready (find-outcome interval a.duration a.now previous a.collected fresh)
  ]
