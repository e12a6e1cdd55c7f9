-- ===== src/Inventory/Refresh.antt =====
-- `_refresh_host` and `refresh_inventory` of
-- server/app/services/inventory_service.py. The answers of the hosts come with their names; what
-- happens while a host is asked is in Inventory/Runs.antt.
use aether_v.Prelude.Dict
use aether_v.Prelude.Dict.{Dict, keys}
use aether_v.Prelude.Json.{Fields, end}
use aether_v.Jobs.LineBuffer.{Text}
use aether_v.Prelude.{
  ℕ, suc, Bool, true, false, ◌&&◌, not, Option, none, some, List, [], ◌∷◌, ◌++◌, map, if◌then◌else◌,
  eq_text, is_empty, filter, is_some,
}
use aether_v.Inventory.{
  Vm, VmState, running, off, Host, Fleet, Inventory, status_empty, status_current, vm_key,
}
use aether_v.Inventory.Machines.{find_vm, set_state}
use aether_v.Inventory.Clusters.{rebuild_clusters}
use aether_v.Inventory.Readiness.{cluster_of, last_seen_of, handle_refresh_overrun}
use aether_v.Inventory.Prune.{prune_unconfigured_hosts}
use aether_v.Inventory.Snapshots.{Snapshot, apply_host_snapshot}

-- What `_collect_with_recovery` and `_parse_inventory_snapshot` give, or the text of their error.
pub data Collected : Type 0 where
  collected : (cluster : Option Text) (cores : ℕ) (details : Fields) (vms : List Vm) → Collected
  failed : Text → Collected

pub record Answer : Type 0 where
  pub preparing : Bool
  pub now : ℕ
  pub duration : ℕ
  pub collected : Collected

abbrev pub cores_of : Option Host → ℕ
cores_of none = 0
cores_of (some h) = h.total_cpu_cores

abbrev pub details_of : Option Host → Fields
details_of none = end
details_of (some h) = h.details

abbrev pub preparing_snapshot : Text → ℕ → Snapshot
preparing_snapshot hostname sequence = record {
  hostname = hostname;
  refreshed = false;
  skipped = true;
  sequence = sequence;
  host = none;
  vms = [];
  expected_vm_keys = none;
  mark_preparing = true;
  clear_preparing = false;
  error = none;
  host_last_refresh = none;
  clear_host_last_refresh = false;
  clear_host_vms = false;
  preserve_placeholders = true;
  record_duration = false;
  duration = none;
  expected_interval = none;
}

-- The snapshot of a host that answers, and of one that fails.
abbrev pub outcome_snapshot : Text → ℕ → ℕ → Option Host → Collected → Snapshot
outcome_snapshot hostname sequence now previous (collected cluster cores details vms) =
    let host : Host = record {
      hostname = hostname;
      cluster = cluster;
      connected = true;
      last_seen = some now;
      error = none;
      total_cpu_cores = cores;
      details = details;
    } in
    record (preparing_snapshot hostname sequence) {
      refreshed = true;
      skipped = false;
      mark_preparing = false;
      host = some host;
      vms = vms;
      expected_vm_keys = some (map (λ vm. vm_key hostname vm.name) vms);
      clear_preparing = true;
      host_last_refresh = some now;
    }
outcome_snapshot hostname sequence now previous (failed error) =
    let host : Host = record {
      hostname = hostname;
      cluster = cluster_of previous;
      connected = false;
      last_seen = last_seen_of previous;
      error = some error;
      total_cpu_cores = cores_of previous;
      details = details_of previous;
    } in
    record (preparing_snapshot hostname sequence) {
      skipped = false;
      mark_preparing = false;
      host = some host;
      error = some error;
      clear_preparing = true;
      clear_host_last_refresh = true;
      clear_host_vms = true;
    }

abbrev pub with_duration : Option ℕ → ℕ → Snapshot → Snapshot
with_duration none duration p = p
with_duration (some interval) duration p = record p {
  record_duration = true;
  duration = some duration;
  expected_interval = some interval;
}

-- `_refresh_host`, once the sequence number is drawn; the interval is that of a background refresh.
unfoldable pub refresh_host : Text → Option ℕ → ℕ → Option Host → Answer → Snapshot
refresh_host hostname interval sequence previous a =
    if a.preparing
    then preparing_snapshot hostname sequence
    else with_duration interval a.duration
        (outcome_snapshot hostname sequence a.now previous a.collected)

-- The state that `refresh_inventory` leaves where no host is configured.
unfoldable pub clear_inventory : ℕ → Inventory → Inventory
clear_inventory now s = record s {
  clusters = [];
  hosts = [];
  fleet = record s.fleet { vms = []; vms_by_id = [] };
  host_last_refresh = [];
  last_applied = [];
  last_refresh = some now;
}

-- The loop of `refresh_inventory`, where no other task runs meanwhile, with `refreshed_hosts` and
-- `skipped_hosts`.
unfoldable pub refresh_each :
    Bool → Option ℕ → List (Text × Answer) → Inventory → Inventory × List Text × List Text
refresh_each dummy_data interval [] s = (s, [], [])
refresh_each dummy_data interval ((hostname, a) ∷ targets) s =
    let drawn = record s { next_sequence = suc s.next_sequence } in
    let p = refresh_host hostname interval s.next_sequence (Dict.get s.hosts hostname) a in
    let (t, refreshed, skipped) =
      refresh_each dummy_data interval targets (apply_host_snapshot dummy_data p drawn) in
    (
      t,
      if p.refreshed then hostname ∷ refreshed else refreshed,
      if p.skipped then hostname ∷ skipped else skipped,
    )

-- The end of `refresh_inventory`: pruning, and the clusters if a host was refreshed.
unfoldable pub finish_refresh : List Text → Bool → ℕ → List Text → Inventory → Inventory
unfolding prune_unconfigured_hosts
finish_refresh configured rebuild now refreshed s =
    let t = prune_unconfigured_hosts configured s in
    if rebuild && not (is_empty refreshed)
    then record (rebuild_clusters configured t) { last_refresh = some now }
    else t

-- What `_refresh_dummy_data` makes of a state.
abbrev pub toggled : VmState → VmState
toggled running = off
toggled off = running
toggled state = state

abbrev pub toggle : Text → Option Vm → Fleet → Fleet
toggle key none f = f
toggle key (some vm) f = set_state key (toggled vm.state) f

-- `_refresh_dummy_data`, with the key of the machine that it changes, if it changes one
unfoldable pub refresh_dummy_data : Option Text → ℕ → Inventory → Inventory
refresh_dummy_data none now s = record s { last_refresh = some now }
refresh_dummy_data (some key) now s = record s {
  fleet = toggle key (find_vm s.fleet key) s.fleet;
  last_refresh = some now;
}

-- `refresh_inventory` on the hosts that are asked: the dummy mode and the key that it would change,
-- the configured hosts, the targets, whether clusters are rebuilt, the interval and the time
unfoldable pub refresh_inventory :
    (dummy_data : Bool) (chosen : Option Text) (configured : List Text)
    (targets : List (Text × Answer)) (rebuild : Bool)
    → Option ℕ
    → ℕ
    → Inventory
    → Inventory × List Text × List Text
unfolding refresh_each finish_refresh clear_inventory refresh_dummy_data
refresh_inventory true chosen configured targets rebuild interval now s =
    (refresh_dummy_data chosen now s, [], [])
refresh_inventory false chosen [] targets rebuild interval now s = (clear_inventory now s, [], [])
refresh_inventory false chosen (h ∷ hs) targets rebuild interval now s =
    let named = filter (λ p. not (is_empty p.0)) targets in
    let (t, refreshed, skipped) = refresh_each false interval named s in
    if is_empty named
    then (s, [], [])
    else (finish_refresh (h ∷ hs) rebuild now refreshed t, refreshed, skipped)

-- The status notification of a cycle.
abbrev pub tell_status : Bool → ℕ → Inventory → Inventory
tell_status true now s = record s {
  last_refresh = some now;
  notices = s.notices ++ status_empty ∷ [];
}
tell_status false now s =
    if is_some s.last_refresh then record s { notices = s.notices ++ status_current ∷ [] } else s

-- `_finalise_cycle_refresh`
unfoldable pub finalise_cycle_refresh : List Text → ℕ → ℕ → ℕ → Inventory → Inventory
finalise_cycle_refresh configured host_count interval now s =
    handle_refresh_overrun interval host_count (tell_status (is_empty configured) now s)
