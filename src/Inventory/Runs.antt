-- ===== src/Inventory/Runs.antt =====
-- Every sequence of the operations of server/app/services/inventory_service.py, from the state that
-- it starts in. The service awaits only between these steps.
use aether_v.Prelude.Dict
use aether_v.Prelude.Dict.{Dict}
use aether_v.Jobs.LineBuffer.{Text}
use aether_v.Prelude.{
  ℕ, suc, ◌+◌, refl, Bool, true, false, ◌&&◌, not, Option, none, some, List, [], ◌∷◌, if◌then◌else◌,
  eq_text, filter, is_empty, ltb, is_some,
}
use aether_v.Inventory.{Vm, Host, Fleet, Inventory, empty_inventory, vm_key, is_of_host}
use aether_v.Inventory.Machines.{find_vm, vm_keys, active_placeholder_keys}
use aether_v.Inventory.Readiness.{
  clear_preparing_host, clear_slow_host, record_host_refresh_duration,
}
use aether_v.Inventory.Snapshots.{
  Snapshot, set_host, drop_host_vms, place_vms, drop_unexpected, tell_connection, time_refresh,
  clear_if_told, apply_vms, apply_host_snapshot_locked, apply_host_snapshot, is_stale,
  was_connected, was_disconnected, has_error, unexpected, set_refresh_time,
}
use aether_v.Inventory.JobVms.{
  track_job_vm, clear_job_vm, mark_vm_deleting, finalize_vm_deletion, get_vm_by_id,
}
use aether_v.Inventory.Prune.{prune_host, prune_each, prune_unconfigured_hosts, stale_hosts}
use aether_v.Inventory.Refresh.{
  clear_inventory, finalise_cycle_refresh, tell_status, toggle, toggled, refresh_dummy_data,
}
use aether_v.Inventory.Clusters.{rebuild_clusters}
use aether_v.Inventory.Valid.{IsFleet, no_vms-IsFleet, set_vm-IsFleet, set_state-IsFleet}
use aether_v.Inventory.Told.{
  status_empty-IsTold, status_current-IsTold, slow_shown-IsTold, reconnected-IsTold,
  unreachable-IsTold,
}
use aether_v.Inventory.Sound.{
  Sound, if-holds, remove_each-IsFleet, clear_host_vms-IsFleet, track_job_vm-Sound,
  clear_job_vm-Sound, mark_vm_deleting-Sound, finalize_vm_deletion-Sound, get_vm_by_id-Sound,
  rebuild_clusters-Sound, clear_inventory-Sound, mark_host_preparing-Sound,
  clear_preparing_host-Sound, clear_slow_host-Sound, handle_refresh_overrun-Sound,
}

place_vms-Sound :
    (hostname : Text) (vms : List Vm) {s : Inventory} → Sound s → Sound (place_vms hostname vms s)
unfolding place_vms
place_vms-Sound hostname [] h = h
place_vms-Sound hostname (vm ∷ vms) h = place_vms-Sound hostname vms (record {
  fleet_valid = set_vm-IsFleet h.fleet_valid (vm_key hostname vm.name) vm;
  told = h.told;
})

module _ {s : Inventory} (h : Sound s) where
  drop_unexpected-Sound :
      (hostname : Text) (o : Option (List Text)) → Sound (drop_unexpected hostname o s)
  unfolding drop_unexpected
  drop_unexpected-Sound hostname none = h
  drop_unexpected-Sound hostname (some ks) =
      let active = active_placeholder_keys s.job_vm_placeholders in
      record {
        fleet_valid =
            remove_each-IsFleet (filter (unexpected hostname ks active) (vm_keys s.fleet))
              h.fleet_valid;
        told = h.told;
      }

  drop_host_vms-Sound : (p : Snapshot) → Sound (drop_host_vms p s)
  drop_host_vms-Sound p =
      let kept =
        if p.preserve_placeholders then active_placeholder_keys s.job_vm_placeholders else [] in
      if-holds Sound p.clear_host_vms
        (record {
          fleet_valid = clear_host_vms-IsFleet p.hostname kept h.fleet_valid;
          told = h.told;
        })
        h

  set_host-Sound : (hostname : Text) (o : Option Host) → Sound (set_host hostname o s)
  set_host-Sound hostname none = h
  set_host-Sound hostname (some host) = record { fleet_valid = h.fleet_valid; told = h.told }

  clear_if_told-Sound : (p : Snapshot) → Sound (clear_if_told p s)
  clear_if_told-Sound p =
      if-holds Sound p.clear_preparing (clear_preparing_host-Sound h p.hostname) h

  record_host_refresh_duration-Sound :
      (hostname : Text) (duration interval : ℕ)
      → Sound (record_host_refresh_duration hostname duration interval s)
  unfolding record_host_refresh_duration
  record_host_refresh_duration-Sound hostname duration interval =
      let t : Inventory = record s {
        total_duration = s.total_duration + duration;
        samples = suc s.samples;
      } in
      let k : Sound t = record { fleet_valid = h.fleet_valid; told = h.told } in
      if-holds Sound (ltb interval duration)
        (record { fleet_valid = h.fleet_valid; told = slow_shown-IsTold h.told hostname })
        (clear_slow_host-Sound k hostname)

  time_refresh-Sound :
      (r : Bool) (hostname : Text) (d i : Option ℕ) → Sound (time_refresh r hostname d i s)
  time_refresh-Sound false hostname d i = h
  time_refresh-Sound true hostname none i = h
  time_refresh-Sound true hostname (some d) none = h
  time_refresh-Sound true hostname (some d) (some i) =
      record_host_refresh_duration-Sound hostname d i

  tell_connection-Sound :
      (dummy : Bool) (p : Snapshot) (o : Option Host) → Sound (tell_connection dummy p o s)
  tell_connection-Sound dummy p o =
      if-holds Sound (p.refreshed && not dummy)
        (if-holds Sound (was_disconnected o)
          (record { fleet_valid = h.fleet_valid; told = reconnected-IsTold h.told p.hostname }) h)
        (if-holds Sound (has_error p.error && not dummy)
          (if-holds Sound (was_connected o)
            (record { fleet_valid = h.fleet_valid; told = unreachable-IsTold h.told p.hostname }) h)
          h)

apply_vms-Sound : (p : Snapshot) {s : Inventory} → Sound s → Sound (apply_vms p s)
unfolding apply_vms
apply_vms-Sound p h =
    drop_unexpected-Sound (place_vms-Sound p.hostname p.vms (drop_host_vms-Sound h p)) p.hostname
      p.expected_vm_keys

apply_host_snapshot_locked-Sound :
    (dummy : Bool) (p : Snapshot) (o : Option Host) {s : Inventory}
    → Sound s
    → Sound (apply_host_snapshot_locked dummy p o s)
unfolding apply_host_snapshot_locked
apply_host_snapshot_locked-Sound dummy p o {s = s} h =
    let t = apply_vms-Sound p (set_host-Sound (clear_if_told-Sound h p) p.hostname p.host) in
    let applied = apply_vms p (set_host p.hostname p.host (clear_if_told p s)) in
    let u : Inventory = record applied {
      host_last_refresh =
          set_refresh_time p.hostname p.host_last_refresh p.clear_host_last_refresh
            applied.host_last_refresh;
    } in
    let v : Sound u = record { fleet_valid = t.fleet_valid; told = t.told } in
    if-holds Sound p.mark_preparing (mark_host_preparing-Sound h p.hostname) (
      time_refresh-Sound (tell_connection-Sound v dummy p o) p.record_duration p.hostname p.duration
        p.expected_interval)

pub apply_host_snapshot-Sound :
    (dummy : Bool) (p : Snapshot) {s : Inventory} → Sound s → Sound (apply_host_snapshot dummy p s)
unfolding apply_host_snapshot
apply_host_snapshot-Sound dummy p {s = s} h =
    let t = apply_host_snapshot_locked-Sound dummy p (Dict.get s.hosts p.hostname) h in
    if-holds Sound (is_stale p.sequence (Dict.get s.last_applied p.hostname)) h
      (record { fleet_valid = t.fleet_valid; told = t.told })

prune_host-Sound : (hostname : Text) {s : Inventory} → Sound s → Sound (prune_host hostname s)
unfolding prune_host
prune_host-Sound hostname {s = s} h =
    let t = clear_slow_host-Sound (clear_preparing_host-Sound h hostname) hostname in
    let u = clear_slow_host hostname (clear_preparing_host hostname s) in
    record {
      fleet_valid =
          remove_each-IsFleet (filter (is_of_host hostname) (vm_keys u.fleet)) t.fleet_valid;
      told = t.told;
    }

prune_each-Sound : (names : List Text) {s : Inventory} → Sound s → Sound (prune_each names s)
unfolding prune_each
prune_each-Sound [] h = h
prune_each-Sound (hostname ∷ names) h = prune_each-Sound names (prune_host-Sound hostname h)

tell_status-Sound :
    (empty : Bool) (now : ℕ) {s : Inventory} → Sound s → Sound (tell_status empty now s)
tell_status-Sound true now h = record {
  fleet_valid = h.fleet_valid;
  told = status_empty-IsTold h.told;
}
tell_status-Sound false now {s = s} h =
    if-holds Sound (is_some s.last_refresh)
      (record { fleet_valid = h.fleet_valid; told = status_current-IsTold h.told }) h

toggle-IsFleet : (key : Text) (o : Option Vm) {f : Fleet} → IsFleet f → IsFleet (toggle key o f)
toggle-IsFleet key none h = h
toggle-IsFleet key (some vm) h = set_state-IsFleet h key (toggled vm.state)

refresh_dummy_data-Sound :
    (chosen : Option Text) (now : ℕ) {s : Inventory}
    → Sound s
    → Sound (refresh_dummy_data chosen now s)
unfolding refresh_dummy_data
refresh_dummy_data-Sound none now h = record { fleet_valid = h.fleet_valid; told = h.told }
refresh_dummy_data-Sound (some key) now {s = s} h = record {
  fleet_valid = toggle-IsFleet key (find_vm s.fleet key) h.fleet_valid;
  told = h.told;
}

-- What the service may do next. A snapshot was drawn at any time before.
pub data Step (s : Inventory) : Inventory → Type 0 where
  track : (job name host : Text) → Step s (track_job_vm job name host s)
  forget : (job : Text) → Step s (clear_job_vm job s)
  mark : (job name host : Text) → Step s (mark_vm_deleting job name host s)
  finalize :
      (job name host : Text) (success : Bool)
      → Step s (finalize_vm_deletion job name host success s)
  look_up : (id : Text) → Step s (get_vm_by_id id s).0
  draw : Step s (record s { next_sequence = suc s.next_sequence })
  apply : (dummy_data : Bool) (p : Snapshot) → Step s (apply_host_snapshot dummy_data p s)
  prune : (configured : List Text) → Step s (prune_unconfigured_hosts configured s)
  rebuild :
      (configured : List Text) (now : ℕ)
      → Step s (record (rebuild_clusters configured s) { last_refresh = some now })
  clear_all : (now : ℕ) → Step s (clear_inventory now s)
  demonstrate : (chosen : Option Text) (now : ℕ) → Step s (refresh_dummy_data chosen now s)
  end_cycle :
      (configured : List Text) (hosts interval now : ℕ)
      → Step s (finalise_cycle_refresh configured hosts interval now s)

pub data Reach : Inventory → Type 0 where
  initially : Reach empty_inventory
  after : {s t : Inventory} → Reach s → Step s t → Reach t

Step-Sound : {s t : Inventory} → Sound s → Step s t → Sound t
unfolding prune_unconfigured_hosts finalise_cycle_refresh
Step-Sound h (track job name host) = track_job_vm-Sound h job name host
Step-Sound h (forget job) = clear_job_vm-Sound h job
Step-Sound h (mark job name host) = mark_vm_deleting-Sound h job name host
Step-Sound h (finalize job name host success) = finalize_vm_deletion-Sound h job name host success
Step-Sound h (look_up id) = get_vm_by_id-Sound h id
Step-Sound h draw = record { fleet_valid = h.fleet_valid; told = h.told }
Step-Sound h (apply dummy p) = apply_host_snapshot-Sound dummy p h
Step-Sound {s = s} h (prune configured) = prune_each-Sound (stale_hosts configured s) h
Step-Sound h (rebuild configured now) =
    let t = rebuild_clusters-Sound h configured in
    record { fleet_valid = t.fleet_valid; told = t.told }
Step-Sound h (clear_all now) = clear_inventory-Sound h now
Step-Sound h (demonstrate chosen now) = refresh_dummy_data-Sound chosen now h
Step-Sound h (end_cycle configured hosts interval now) =
    handle_refresh_overrun-Sound (tell_status-Sound (is_empty configured) now h) interval hosts

pub Reach-Sound : {s : Inventory} → Reach s → Sound s
Reach-Sound initially = record {
  fleet_valid = no_vms-IsFleet [] 0;
  told = record { preparing_told = λ k. refl; slow_told = λ k. refl; overrun_told = refl };
}
Reach-Sound (after r st) = Step-Sound (Reach-Sound r) st
