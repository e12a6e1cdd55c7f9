-- ===== src/Inventory/Snapshots.antt =====
-- The refresh of the inventory in server/app/services/inventory_service.py: the snapshots of a host
-- and how they are applied. What a host answers, the times and the readiness are arguments.
use aether_v.Prelude.Dict
use aether_v.Prelude.Dict.{Dict}
use aether_v.Jobs.LineBuffer.{Text}
use aether_v.Prelude.{
  ℕ, Bool, true, false, ◌&&◌, not, Option, none, some, List, [], ◌∷◌, if◌then◌else◌, eq_text, ltb,
  is_empty, filter,
}
use aether_v.Inventory.{Vm, Host, Inventory, reconnected, unreachable, vm_key, contains, is_of_host}
use aether_v.Inventory.Machines.{
  set_vm, remove_each, active_placeholder_keys, detach_placeholder_key, clear_host_vms, vm_keys,
}
use aether_v.Inventory.Readiness.{
  mark_host_preparing, clear_preparing_host, record_host_refresh_duration, notify,
}

-- `HostRefreshSnapshot`
pub record Snapshot : Type 0 where
  pub hostname : Text
  pub refreshed : Bool
  pub skipped : Bool
  pub sequence : ℕ
  pub host : Option Host
  pub vms : List Vm
  pub expected_vm_keys : Option (List Text)
  pub mark_preparing : Bool
  pub clear_preparing : Bool
  pub error : Option Text
  pub host_last_refresh : Option ℕ
  pub clear_host_last_refresh : Bool
  pub clear_host_vms : Bool
  pub preserve_placeholders : Bool
  pub record_duration : Bool
  pub duration : Option ℕ
  pub expected_interval : Option ℕ

abbrev pub set_host : Text → Option Host → Inventory → Inventory
set_host hostname none s = s
set_host hostname (some h) s = record s { hosts = Dict.put s.hosts hostname h }

-- `if snapshot.clear_host_vms: self._clear_host_vms(...)`
abbrev pub drop_host_vms : Snapshot → Inventory → Inventory
drop_host_vms p s =
    let kept =
      if p.preserve_placeholders then active_placeholder_keys s.job_vm_placeholders else [] in
    if p.clear_host_vms then record s { fleet = clear_host_vms p.hostname kept s.fleet } else s

-- `for vm in snapshot.vms:`
unfoldable pub place_vms : Text → List Vm → Inventory → Inventory
place_vms hostname [] s = s
place_vms hostname (vm ∷ vms) s =
    let key = vm_key hostname vm.name in
    place_vms hostname vms (record s {
      job_vm_placeholders = detach_placeholder_key key s.job_vm_placeholders;
      fleet = set_vm key vm s.fleet;
    })

abbrev pub unexpected : Text → List Text → List Text → Text → Bool
unexpected hostname expected active key =
    is_of_host hostname key && not (contains expected key) && not (contains active key)

-- `if snapshot.expected_vm_keys is not None:`
unfoldable pub drop_unexpected : Text → Option (List Text) → Inventory → Inventory
drop_unexpected hostname none s = s
drop_unexpected hostname (some expected) s =
    let active = active_placeholder_keys s.job_vm_placeholders in
    record s {
      fleet = remove_each (filter (unexpected hostname expected active) (vm_keys s.fleet)) s.fleet;
    }

abbrev pub set_refresh_time : Text → Option ℕ → Bool → Dict Text ℕ → Dict Text ℕ
set_refresh_time hostname none clear d = if clear then Dict.remove d hostname else d
set_refresh_time hostname (some now) clear d =
    if clear then Dict.remove (Dict.put d hostname now) hostname else Dict.put d hostname now

abbrev pub was_connected : Option Host → Bool
was_connected none = false
was_connected (some h) = h.connected

abbrev pub was_disconnected : Option Host → Bool
was_disconnected none = false
was_disconnected (some h) = not h.connected

-- `snapshot.error`, a string that is true
abbrev pub has_error : Option Text → Bool
has_error none = false
has_error (some e) = not (is_empty e)

-- The notifications of a change of the connection.
abbrev pub tell_connection : Bool → Snapshot → Option Host → Inventory → Inventory
tell_connection dummy_data p previous s =
    if p.refreshed && not dummy_data
    then if was_disconnected previous then notify (reconnected p.hostname) s else s
    else if has_error p.error && not dummy_data
    then if was_connected previous then notify (unreachable p.hostname) s else s
    else s

abbrev pub time_refresh : Bool → Text → Option ℕ → Option ℕ → Inventory → Inventory
time_refresh true hostname (some duration) (some interval) s =
    record_host_refresh_duration hostname duration interval s
time_refresh r hostname d i s = s

abbrev pub clear_if_told : Snapshot → Inventory → Inventory
clear_if_told p s = if p.clear_preparing then clear_preparing_host p.hostname s else s

-- What a snapshot does to the machines and the placeholders.
unfoldable pub apply_vms : Snapshot → Inventory → Inventory
unfolding drop_unexpected place_vms
apply_vms p s =
    drop_unexpected p.hostname p.expected_vm_keys (place_vms p.hostname p.vms (drop_host_vms p s))

-- `_apply_host_snapshot_locked`
unfoldable pub apply_host_snapshot_locked : Bool → Snapshot → Option Host → Inventory → Inventory
unfolding apply_vms
apply_host_snapshot_locked dummy_data p previous s =
    let t = apply_vms p (set_host p.hostname p.host (clear_if_told p s)) in
    let u = record t {
      host_last_refresh =
          set_refresh_time p.hostname p.host_last_refresh p.clear_host_last_refresh
            t.host_last_refresh;
    } in
    let timed =
      time_refresh p.record_duration p.hostname p.duration p.expected_interval
        (tell_connection dummy_data p previous u) in
    if p.mark_preparing then mark_host_preparing p.hostname s else timed

-- `snapshot.sequence < last_sequence`, where a host without one has -1
abbrev pub is_stale : ℕ → Option ℕ → Bool
is_stale sequence none = false
is_stale sequence (some last) = ltb sequence last

-- `_apply_host_snapshot`
unfoldable pub apply_host_snapshot : Bool → Snapshot → Inventory → Inventory
unfolding apply_host_snapshot_locked
apply_host_snapshot dummy_data p s =
    let t = apply_host_snapshot_locked dummy_data p (Dict.get s.hosts p.hostname) s in
    if is_stale p.sequence (Dict.get s.last_applied p.hostname)
    then s
    else record t { last_applied = Dict.put t.last_applied p.hostname p.sequence }
