-- ===== src/Inventory/Sound.antt =====
-- Each operation of server/app/services/inventory_service.py keeps the tables of machines valid and
-- the notifications in step with the sets of hosts.
use aether_v.Prelude.Dict
use aether_v.Prelude.Dict.{Dict}
use aether_v.Jobs.LineBuffer.{Text}
use aether_v.Prelude.{
  ℕ, Bool, true, false, ◌&&◌, not, Option, none, some, List, [], ◌∷◌, ◌==◌, if◌then◌else◌, eq_text,
  inl, inr, Bool-cases, filter, ltb, nat_eq, ◌*◌,
}
use aether_v.Inventory.{Vm, Fleet, Inventory, vm_key, contains, is_of_host, deleting, or_empty}
use aether_v.Inventory.Machines.{remove_each, clear_host_vms, vm_keys, find_vm}
use aether_v.Inventory.Readiness.{
  mark_host_preparing, clear_preparing_host, clear_slow_host, clear_overrun, handle_refresh_overrun,
}
use aether_v.Inventory.JobVms.{
  is_unnamed, is_transient, drop_transient, mark_found, restore, track_job_vm, clear_job_vm,
  mark_vm_deleting, finalize_vm_deletion, or_none, get_vm_by_id,
}
use aether_v.Inventory.Refresh.{clear_inventory}
use aether_v.Inventory.Clusters.{rebuild_clusters}
use aether_v.Inventory.Valid.{
  IsFleet, no_vms-IsFleet, set_vm-IsFleet, remove_vm-IsFleet, set_state-IsFleet,
}
use aether_v.Inventory.Lookup.{find_by_id-IsFleet}
use aether_v.Inventory.Told.{
  Told, preparing_shown-IsTold, preparing_cleared-IsTold, slow_cleared-IsTold, overrun_shown-IsTold,
  overrun_cleared-IsTold,
}

pub record Sound (s : Inventory) : Type 0 where
  pub fleet_valid : IsFleet s.fleet
  pub told : Told s

pub if-holds {ℓ κ} :
    {A : Type ℓ} (P : A → Type κ) (b : Bool) {x y : A} → P x → P y → P (if b then x else y)
if-holds P true p q = p
if-holds P false p q = q

pub remove_each-IsFleet : (ks : List Text) {f : Fleet} → IsFleet f → IsFleet (remove_each ks f)
unfolding remove_each
remove_each-IsFleet [] h = h
remove_each-IsFleet (k ∷ ks) h = remove_each-IsFleet ks (remove_vm-IsFleet h k)

pub clear_host_vms-IsFleet :
    (hostname : Text) (kept : List Text) {f : Fleet}
    → IsFleet f
    → IsFleet (clear_host_vms hostname kept f)
unfolding clear_host_vms
clear_host_vms-IsFleet hostname kept {f = f} h =
    remove_each-IsFleet
      (filter (λ key. is_of_host hostname key && not (contains kept key)) (vm_keys f)) h

drop_transient-IsFleet : (ks : List Text) {f : Fleet} → IsFleet f → IsFleet (drop_transient ks f)
unfolding drop_transient
drop_transient-IsFleet [] h = h
drop_transient-IsFleet (k ∷ ks) {f = f} h =
    drop_transient-IsFleet ks
      (if-holds IsFleet (is_transient (find_vm f k)) (remove_vm-IsFleet h k) h)

pub mark_found-IsFleet :
    (key name host : Text) (o : Option Vm) {f : Fleet}
    → IsFleet f
    → IsFleet (mark_found key name host o f)
mark_found-IsFleet key name host none h = set_vm-IsFleet h key _
mark_found-IsFleet key name host (some vm) h = set_state-IsFleet h key deleting

restore-IsFleet : (key : Text) (o : Option Vm) {f : Fleet} → IsFleet f → IsFleet (restore key o f)
restore-IsFleet key none h = remove_vm-IsFleet h key
restore-IsFleet key (some vm) h = set_vm-IsFleet h key vm

module _ {s : Inventory} (h : Sound s) where
  pub track_job_vm-Sound : (job name host : Text) → Sound (track_job_vm job name host s)
  unfolding track_job_vm
  track_job_vm-Sound job name host =
      if-holds Sound (is_unnamed job name host) h
        (record { fleet_valid = set_vm-IsFleet h.fleet_valid _ _; told = h.told })

  pub clear_job_vm-Sound : (job : Text) → Sound (clear_job_vm job s)
  unfolding clear_job_vm
  clear_job_vm-Sound job = record {
    fleet_valid =
        drop_transient-IsFleet (or_empty (Dict.get s.job_vm_placeholders job)) h.fleet_valid;
    told = h.told;
  }

  pub mark_vm_deleting-Sound : (job name host : Text) → Sound (mark_vm_deleting job name host s)
  unfolding mark_vm_deleting
  mark_vm_deleting-Sound job name host =
      if-holds Sound (is_unnamed job name host) h
        (record { fleet_valid = mark_found-IsFleet _ _ _ _ h.fleet_valid; told = h.told })

  pub finalize_vm_deletion-Sound :
      (job name host : Text) (success : Bool) → Sound (finalize_vm_deletion job name host success s)
  unfolding finalize_vm_deletion
  finalize_vm_deletion-Sound job name host success =
      let key = vm_key host name in
      let held = or_empty (Dict.get s.job_vm_placeholders job) in
      let original = or_none (Dict.get (or_empty (Dict.get s.job_vm_originals job)) key) in
      let finished =
        if-holds IsFleet success (remove_vm-IsFleet h.fleet_valid key)
          (restore-IsFleet key original h.fleet_valid) in
      let dropped = drop_transient-IsFleet (filter (λ k. not (k == key)) held) finished in
      elim (Bool-cases (is_unnamed job name host)) [
        | inl blank ↦ rw blank h
        | inr named ↦ rw named (record { fleet_valid = dropped; told = h.told })
      ]

  pub get_vm_by_id-Sound : (id : Text) → Sound (get_vm_by_id id s).0
  unfolding get_vm_by_id
  get_vm_by_id-Sound id = record {
    fleet_valid = find_by_id-IsFleet h.fleet_valid id;
    told = h.told;
  }

  pub rebuild_clusters-Sound : (configured : List Text) → Sound (rebuild_clusters configured s)
  unfolding rebuild_clusters
  rebuild_clusters-Sound configured = record { fleet_valid = h.fleet_valid; told = h.told }

  pub clear_inventory-Sound : (now : ℕ) → Sound (clear_inventory now s)
  unfolding clear_inventory
  clear_inventory-Sound now = record {
    fleet_valid = no_vms-IsFleet s.fleet.objects s.fleet.next_object;
    told = h.told;
  }

  pub mark_host_preparing-Sound : (k : Text) → Sound (mark_host_preparing k s)
  unfolding mark_host_preparing
  mark_host_preparing-Sound k = record {
    fleet_valid = h.fleet_valid;
    told = preparing_shown-IsTold h.told k;
  }

  pub clear_preparing_host-Sound : (k : Text) → Sound (clear_preparing_host k s)
  unfolding clear_preparing_host
  clear_preparing_host-Sound k =
      if-holds Sound (contains s.preparing_hosts k)
        (record { fleet_valid = h.fleet_valid; told = preparing_cleared-IsTold h.told k })
        (record { fleet_valid = h.fleet_valid; told = h.told })

  pub clear_slow_host-Sound : (k : Text) → Sound (clear_slow_host k s)
  unfolding clear_slow_host
  clear_slow_host-Sound k =
      if-holds Sound (contains s.slow_hosts k)
        (record { fleet_valid = h.fleet_valid; told = slow_cleared-IsTold h.told k }) h

  pub clear_overrun-Sound : Sound (clear_overrun s)
  unfolding clear_overrun
  clear_overrun-Sound =
      if-holds Sound s.overrun_active
        (record { fleet_valid = h.fleet_valid; told = overrun_cleared-IsTold h.told }) h

  pub handle_refresh_overrun-Sound :
      (interval hosts : ℕ) → Sound (handle_refresh_overrun interval hosts s)
  unfolding handle_refresh_overrun
  handle_refresh_overrun-Sound interval hosts =
      if-holds Sound (nat_eq hosts 0) clear_overrun-Sound (
        if-holds Sound (nat_eq s.samples 0) clear_overrun-Sound (
          if-holds Sound (ltb (interval * s.samples) s.total_duration)
            (record { fleet_valid = h.fleet_valid; told = overrun_shown-IsTold h.told })
            clear_overrun-Sound))
