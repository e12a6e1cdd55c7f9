-- ===== src/Inventory/Prune.antt =====
-- `_prune_unconfigured_hosts` of server/app/services/inventory_service.py.
use aether_v.Prelude.Dict
use aether_v.Prelude.Dict.{Dict, keys}
use aether_v.Jobs.LineBuffer.{Text}
use aether_v.Prelude.{not, Option, List, [], ◌∷◌, if◌then◌else◌, eq_text, is_empty, filter}
use aether_v.Inventory.{Vm, Inventory, contains, is_of_host}
use aether_v.Inventory.Machines.{vm_keys, remove_each, detach_placeholder_key}
use aether_v.Inventory.Readiness.{clear_preparing_host, clear_slow_host}

-- `filtered_keys` of each job; a job without any leaves the table.
unfoldable pub drop_host_placeholders : Text → Dict Text (List Text) → Dict Text (List Text)
drop_host_placeholders hostname [] = []
drop_host_placeholders hostname ((job, held) ∷ d) =
    let rest = drop_host_placeholders hostname d in
    let left = filter (λ key. not (is_of_host hostname key)) held in
    if is_empty left then rest else (job, left) ∷ rest

unfoldable pub drop_host_originals :
    Text → Dict Text (Dict Text (Option Vm)) → Dict Text (Dict Text (Option Vm))
drop_host_originals hostname [] = []
drop_host_originals hostname ((job, originals) ∷ d) =
    let rest = drop_host_originals hostname d in
    let left = filter (λ p. not (is_of_host hostname p.0)) originals in
    if is_empty left then rest else (job, left) ∷ rest

abbrev pub detach_each : List Text → Dict Text (List Text) → Dict Text (List Text)
detach_each [] d = d
detach_each (key ∷ ks) d = detach_each ks (detach_placeholder_key key d)

-- The body of the loop of `_prune_unconfigured_hosts`.
unfoldable pub prune_host : Text → Inventory → Inventory
prune_host hostname s =
    let t = clear_slow_host hostname (clear_preparing_host hostname s) in
    let host_vm_keys = filter (is_of_host hostname) (vm_keys t.fleet) in
    record t {
      fleet = remove_each host_vm_keys t.fleet;
      job_vm_placeholders =
          drop_host_placeholders hostname (detach_each host_vm_keys t.job_vm_placeholders);
      job_vm_originals = drop_host_originals hostname t.job_vm_originals;
      hosts = Dict.remove t.hosts hostname;
      host_last_refresh = Dict.remove t.host_last_refresh hostname;
      last_applied = Dict.remove t.last_applied hostname;
    }

unfoldable pub prune_each : List Text → Inventory → Inventory
prune_each [] s = s
prune_each (hostname ∷ names) s = prune_each names (prune_host hostname s)

-- {host for host in configured_hosts if host}
abbrev pub configured_set : List Text → List Text
configured_set configured = filter (λ host. not (is_empty host)) configured

abbrev pub stale_hosts : List Text → Inventory → List Text
stale_hosts configured s =
    filter (λ hostname. not (contains (configured_set configured) hostname)) (keys s.hosts)

-- `_prune_unconfigured_hosts`
unfoldable pub prune_unconfigured_hosts : List Text → Inventory → Inventory
prune_unconfigured_hosts configured s = prune_each (stale_hosts configured s) s
