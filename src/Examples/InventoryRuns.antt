-- ===== src/Examples/InventoryRuns.antt =====
-- Runs of server/app/services/inventory_service.py: two hosts, their machines, and a deletion.
use aether_v.Prelude.Dict
use aether_v.Prelude.Dict.{Dict, values}
use aether_v.Prelude.Json.{end}
use aether_v.Jobs.LineBuffer.{Text}
use aether_v.Jobs.Service.Texts.{codes, lower}
use aether_v.Prelude.{
  ℕ, ◌≡◌, refl, Bool, true, false, Option, none, some, List, [], ◌∷◌, eq_text, arith, All, map,
  if◌then◌else◌, ◌&&◌, any, not, ◌==◌, is_some, is_empty,
}
use aether_v.Inventory.{
  no_details, Cluster, Vm, running, off, Host, Inventory, empty_inventory, vm_key, contains,
  is_of_host, starts_with,
}
use aether_v.Inventory.Machines.{
  set_state, find_vm, active_placeholder_keys, set_vm, detach_placeholder_key, remove_each,
  remove_vm,
}
use aether_v.Inventory.Readiness.{clear_preparing_host}
use aether_v.Inventory.Snapshots.{
  Snapshot, apply_host_snapshot, apply_host_snapshot_locked, apply_vms, place_vms, drop_unexpected,
}
use aether_v.Inventory.JobVms.{
  get_vm_by_id, mark_vm_deleting, finalize_vm_deletion, track_job_vm, drop_transient,
}
use aether_v.Inventory.Clusters.{rebuild_clusters, tally_hosts, tally_host, make_clusters}
use aether_v.Inventory.Prune.{prune_unconfigured_hosts, stale_hosts}
use aether_v.Inventory.Refresh.{collected, Answer, refresh_host}
use aether_v.Inventory.Lookup.{Finds}
use aether_v.Inventory.Told.{replay, preparing_after, slow_after, overrun_after}
use aether_v.Inventory.Runs.{Reach, initially, after, apply, track, prune}
use aether_v.Inventory.Reachable.{get_vm_by_id_lem, shown_lem}
use aether_v.Inventory.Deletion.{finalize-mark}
use aether_v.Inventory.Contents.{refreshed_vm}
use aether_v.Inventory.Refreshed.{find-refresh_host}
use aether_v.Inventory.Ordering.{GoesOn, at_once, later, apply-late}
use aether_v.Inventory.Pruning.{prune_unconfigured_hosts_lem}
use aether_v.Inventory.Counting.{rebuild_clusters-IsCounted, IsCounted}

abbrev host_a : Text
host_a = codes "a"

abbrev host_b : Text
host_b = codes "b"

abbrev web : Vm
web = record {
  id = some (codes "ID-1");
  name = codes "web";
  host = host_a;
  state = running;
  cpu_cores = 2;
  details = no_details;
}

abbrev mail : Vm
mail = record web { id = some (codes "ID-2"); name = codes "mail"; host = host_b; state = off }

abbrev answer_of : List Vm → Answer
answer_of vms = record {
  preparing = false;
  now = 7;
  duration = 3;
  collected = collected none 8 end vms;
}

abbrev one_host : Inventory
one_host =
    apply_host_snapshot false (refresh_host host_a none 0 none (answer_of (web ∷ [])))
      empty_inventory

abbrev two_hosts : Inventory
two_hosts =
    apply_host_snapshot false (refresh_host host_b none 1 none (answer_of (mail ∷ []))) one_host

two_hosts-Reach : Reach two_hosts
two_hosts-Reach = after (after initially (apply false _)) (apply false _)

get_vm_by_id_lem_example :
    Finds (lower (codes "Id-1")) two_hosts (get_vm_by_id (codes "Id-1") two_hosts).1
get_vm_by_id_lem_example = get_vm_by_id_lem two_hosts-Reach (codes "Id-1") refl

abbrev preparing_a : Inventory
preparing_a =
    apply_host_snapshot false
      (refresh_host host_a none 2 none (record (answer_of []) { preparing = true })) two_hosts

shown_lem_example :
    (contains preparing_a.preparing_hosts host_a
      ≡ replay (preparing_after host_a) preparing_a.notices false)
    × (contains preparing_a.slow_hosts host_a
        ≡ replay (slow_after host_a) preparing_a.notices false)
    × (preparing_a.overrun_active ≡ replay overrun_after preparing_a.notices false)
shown_lem_example = shown_lem (after two_hosts-Reach (apply false _)) host_a

finalize-mark_example :
    find_vm
      (finalize_vm_deletion
        (codes "job")
        (codes "web")
        host_a
        false
        (mark_vm_deleting (codes "job") (codes "web") host_a two_hosts)).fleet
      (vm_key host_a (codes "web"))
    ≡ (if vm_key host_a (codes "web") == vm_key host_a (codes "web") && false
        then none
        else find_vm two_hosts.fleet (vm_key host_a (codes "web")))
unfolding apply_host_snapshot apply_host_snapshot_locked apply_vms place_vms drop_unexpected
    refresh_host clear_preparing_host Dict.get Dict.put detach_placeholder_key
finalize-mark_example =
    finalize-mark two_hosts-Reach (codes "job") (codes "web") host_a false
      (vm_key host_a (codes "web")) refl refl

abbrev tracked : Inventory
tracked = track_job_vm (codes "job") (codes "new") host_a two_hosts

find-refresh_host_example :
    find_vm
      (apply_host_snapshot false
        (refresh_host host_a none 3 none (answer_of (web ∷ [])))
        tracked).fleet
      (vm_key host_a (codes "new"))
    ≡ refreshed_vm host_a tracked (web ∷ []) (vm_key host_a (codes "new"))
unfolding apply_host_snapshot apply_host_snapshot_locked apply_vms place_vms drop_unexpected
    refresh_host clear_preparing_host Dict.get Dict.put detach_placeholder_key track_job_vm
find-refresh_host_example =
    find-refresh_host (after two_hosts-Reach (track (codes "job") (codes "new") host_a)) host_a 3
      (vm_key host_a (codes "new")) none none (answer_of (web ∷ [])) refl

abbrev newer : Snapshot
newer = refresh_host host_a none 3 none (answer_of [])

abbrev older : Snapshot
older = refresh_host host_a none 0 none (answer_of (web ∷ []))

abbrev newer_applied : Inventory
newer_applied = apply_host_snapshot false newer two_hosts

abbrev other_applied : Inventory
other_applied =
    apply_host_snapshot false (refresh_host host_b none 4 none (answer_of [])) newer_applied

-- Another host is refreshed, and the inventory pruned to the host, before the late snapshot.
abbrev meanwhile : Inventory
meanwhile = prune_unconfigured_hosts (host_a ∷ []) other_applied

newer-GoesOn : GoesOn host_a newer_applied meanwhile
unfolding apply_host_snapshot apply_host_snapshot_locked apply_vms place_vms drop_unexpected
    refresh_host clear_preparing_host Dict.get Dict.put detach_placeholder_key
newer-GoesOn =
    later (later at_once (apply false (refresh_host host_b none 4 none (answer_of []))) tt)
      (prune (host_a ∷ [])) refl

apply-late_example : apply_host_snapshot false older meanwhile ≡ meanwhile
unfolding refresh_host
apply-late_example = apply-late false false newer older two_hosts refl (omega arith) newer-GoesOn

prune_unconfigured_hosts_lem_example :
    (Dict.get (prune_unconfigured_hosts (host_b ∷ []) two_hosts).hosts host_a ≡ (
      if contains (host_b ∷ []) host_a && not (is_empty host_a)
      then Dict.get two_hosts.hosts host_a
      else none))
    × (contains (stale_hosts (host_b ∷ []) two_hosts) host_a ≡ (
        is_some (Dict.get two_hosts.hosts host_a)
        && not (contains (host_b ∷ []) host_a && not (is_empty host_a))))
    × (find_vm
          (prune_unconfigured_hosts (host_b ∷ []) two_hosts).fleet
          (vm_key host_a (codes "web"))
        ≡ (if any
              (λ hostname. is_of_host hostname (vm_key host_a (codes "web")))
              (stale_hosts (host_b ∷ []) two_hosts)
            then none
            else find_vm two_hosts.fleet (vm_key host_a (codes "web"))))
    × (contains
          (active_placeholder_keys
            (prune_unconfigured_hosts (host_b ∷ []) two_hosts).job_vm_placeholders)
          (vm_key host_a (codes "web"))
        ≡ (contains
              (active_placeholder_keys two_hosts.job_vm_placeholders)
              (vm_key host_a (codes "web"))
            && not (
                any
                  (λ hostname. is_of_host hostname (vm_key host_a (codes "web")))
                  (stale_hosts (host_b ∷ []) two_hosts))))
prune_unconfigured_hosts_lem_example =
    prune_unconfigured_hosts_lem (host_b ∷ []) two_hosts host_a (vm_key host_a (codes "web"))

abbrev host_of : Text → Host
host_of hostname = record {
  hostname = hostname;
  cluster = none;
  connected = true;
  last_seen = none;
  error = none;
  total_cpu_cores = 8;
  details = end;
}

abbrev with_hosts : Inventory
with_hosts = record empty_inventory {
  hosts = (host_a, host_of host_a) ∷ (host_b, host_of host_b) ∷ [];
}

rebuild_clusters-IsCounted_example :
    All
      (λ c.
        IsCounted with_hosts.hosts (host_a ∷ host_b ∷ []) c.name c.connected_hosts c.total_hosts)
      (values (rebuild_clusters (host_a ∷ host_b ∷ []) with_hosts).clusters)
rebuild_clusters-IsCounted_example =
    rebuild_clusters-IsCounted (host_a ∷ host_b ∷ []) with_hosts (refl, (refl, tt))
      (refl, (refl, tt))

abbrev counts_of : Cluster → ℕ × ℕ
counts_of c = (c.connected_hosts, c.total_hosts)

-- A host that is configured twice is counted twice among the connected ones.
counted_twice :
    map counts_of (values (rebuild_clusters (host_a ∷ host_a ∷ []) with_hosts).clusters)
    ≡ (2, 1) ∷ []
unfolding rebuild_clusters tally_hosts tally_host make_clusters Dict.get Dict.put
counted_twice = refl

abbrev ended : Bool → Option Vm
ended success =
    find_vm
      (finalize_vm_deletion (codes "job") (codes "web") host_a success
        (mark_vm_deleting (codes "job") (codes "web") host_a two_hosts)).fleet
      (vm_key host_a (codes "web"))

-- A machine that is deleted is gone, and a failed deletion brings it back.
deleted_and_restored : (ended true ≡ none) × (ended false ≡ some web)
unfolding apply_host_snapshot apply_host_snapshot_locked apply_vms place_vms drop_unexpected
    refresh_host clear_preparing_host Dict.get Dict.put Dict.remove detach_placeholder_key
    finalize_vm_deletion mark_vm_deleting find_vm set_vm remove_vm set_state vm_key drop_transient
    remove_each active_placeholder_keys starts_with
deleted_and_restored = (refl, refl)
