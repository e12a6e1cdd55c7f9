-- ===== src/Inventory/Pruning.antt =====
-- `_prune_unconfigured_hosts` of server/app/services/inventory_service.py: what it removes and keeps.
use aether_v.Prelude.Dict
use aether_v.Prelude.Dict.{Dict, get-put, get-put_self, get-remove, keys}
use aether_v.Jobs.LineBuffer.{Text}
use aether_v.Prelude.{
  ◌≡◌, refl, false, not, ◌&&◌, Option, none, some, List, [], ◌∷◌, ◌==◌, if◌then◌else◌, eq_text,
  arith, inl, inr, Bool-cases, Option-cases, filter, any, is_some, ap, flatten, map, is_empty,
}
use aether_v.Inventory.{Host, Inventory, contains, is_of_host}
use aether_v.Inventory.Machines.{find_vm, vm_keys, active_placeholder_keys, detach_placeholder_key}
use aether_v.Inventory.Readiness.{
  clear_preparing_host, clear_slow_host, forget_error, is_preparing_error,
}
use aether_v.Inventory.Prune.{
  prune_host, prune_each, prune_unconfigured_hosts, stale_hosts, configured_set, detach_each,
  drop_host_placeholders,
}
use aether_v.Inventory.Sound.{if-holds}
use aether_v.Inventory.Contents.{
  find-filter, contains-filter, contains-keys, contains-empty, active-detach,
}
use aether_v.Inventory.Told.{contains-append}

-- The state in which a host's machines are removed.
abbrev settled : Text → Inventory → Inventory
settled hostname s = clear_slow_host hostname (clear_preparing_host hostname s)

abbrev SameFleet : Inventory → Inventory → Type 0
SameFleet s t = t.fleet ≡ s.fleet

settled-SameFleet : (hostname : Text) (s : Inventory) → SameFleet s (settled hostname s)
unfolding clear_slow_host clear_preparing_host
settled-SameFleet hostname s =
    let t = clear_preparing_host hostname s in
    let cleared = if-holds (SameFleet s) (contains s.preparing_hosts hostname) refl refl in
    if-holds (SameFleet s) (contains t.slow_hosts hostname) cleared cleared

abbrev SamePlaceholders : Inventory → Inventory → Type 0
SamePlaceholders s t = t.job_vm_placeholders ≡ s.job_vm_placeholders

-- The entry of another host.
abbrev SameEntry : Text → Inventory → Inventory → Type 0
SameEntry k s t = Dict.get t.hosts k ≡ Dict.get s.hosts k

get-forget_error :
    (hostname : Text) (o : Option Host) (d : Dict Text Host) (k : Text)
    → (hostname == k) ≡ false
    → Dict.get (forget_error hostname o d) k ≡ Dict.get d k
get-forget_error hostname none d k other = refl
get-forget_error hostname (some h) d k other = elim (Bool-cases (is_preparing_error h.error)) [
  | inl is ↦ rw (is, get-put d hostname (record h { error = none }) k, other) refl
  | inr not_preparing ↦ rw not_preparing refl
]

settled-SameEntry :
    (hostname : Text) (s : Inventory) (k : Text)
    → (hostname == k) ≡ false
    → SameEntry k s (settled hostname s)
unfolding clear_slow_host clear_preparing_host
settled-SameEntry hostname s k other =
    let t = clear_preparing_host hostname s in
    let forgotten = get-forget_error hostname (Dict.get s.hosts hostname) s.hosts k other in
    let cleared =
      if-holds (SameEntry k s) (contains s.preparing_hosts hostname) forgotten forgotten in
    if-holds (SameEntry k s) (contains t.slow_hosts hostname) cleared cleared

get-prune_host :
    (hostname : Text) (s : Inventory) (k : Text)
    → Dict.get (prune_host hostname s).hosts k
      ≡ (if hostname == k then none else Dict.get s.hosts k)
unfolding prune_host
get-prune_host hostname s k = elim (Bool-cases (hostname == k)) [
  | inl here ↦ rw (get-remove (settled hostname s).hosts hostname k, here) refl
  | inr there ↦
      rw (get-remove (settled hostname s).hosts hostname k, there)
        (settled-SameEntry hostname s k there)
]

find-prune_host :
    (hostname : Text) (s : Inventory) (k : Text)
    → find_vm (prune_host hostname s).fleet k
      ≡ (if is_of_host hostname k then none else find_vm s.fleet k)
unfolding prune_host
find-prune_host hostname s k =
    rw (find-filter (is_of_host hostname) (settled hostname s).fleet k)
      (ap (λ f. if is_of_host hostname k then none else find_vm f k) (settled-SameFleet hostname s))

get-prune_each :
    (names : List Text) (s : Inventory) (k : Text)
    → Dict.get (prune_each names s).hosts k
      ≡ (if contains names k then none else Dict.get s.hosts k)
unfolding prune_each
get-prune_each [] s k = refl
get-prune_each (hostname ∷ names) s k =
    rw (get-prune_each names (prune_host hostname s) k, get-prune_host hostname s k) (ground arith)

find-prune_each :
    (names : List Text) (s : Inventory) (k : Text)
    → find_vm (prune_each names s).fleet k
      ≡ (if any (λ hostname. is_of_host hostname k) names then none else find_vm s.fleet k)
unfolding prune_each
find-prune_each [] s k = refl
find-prune_each (hostname ∷ names) s k =
    rw (find-prune_each names (prune_host hostname s) k, find-prune_host hostname s k)
      (ground arith)

active-drop_host_placeholders :
    (hostname : Text) (d : Dict Text (List Text)) (k : Text)
    → contains (active_placeholder_keys (drop_host_placeholders hostname d)) k
      ≡ (contains (active_placeholder_keys d) k && not (is_of_host hostname k))
unfolding drop_host_placeholders active_placeholder_keys
active-drop_host_placeholders hostname [] k = refl
active-drop_host_placeholders hostname ((job, held) ∷ d) k =
    let left = filter (λ key. not (is_of_host hostname key)) held in
    let others = flatten (map (λ p. p.1) d) in
    let kept = flatten (map (λ p. p.1) (drop_host_placeholders hostname d)) in
    let filtered = contains-filter (λ key. not (is_of_host hostname key)) held k in
    elim (Bool-cases (is_empty left)) [
      | inl emptied ↦
          rw (emptied, contains-append held others k)
            (ground (
              arith,
              active-drop_host_placeholders hostname d k,
              filtered,
              contains-empty left k emptied,
            ))
      | inr some_left ↦
          rw (some_left, contains-append held others k, contains-append left kept k)
            (ground (arith, active-drop_host_placeholders hostname d k, filtered))
    ]

active-detach_each :
    (ks : List Text) (d : Dict Text (List Text)) (k : Text)
    → contains (active_placeholder_keys (detach_each ks d)) k
      ≡ (contains (active_placeholder_keys d) k && not (contains ks k))
active-detach_each [] d k = ground arith
active-detach_each (j ∷ ks) d k =
    rw (active-detach_each ks (detach_placeholder_key j d) k, active-detach j d k) (ground arith)

settled-placeholders :
    (hostname : Text) (s : Inventory)
    → (settled hostname s).job_vm_placeholders ≡ s.job_vm_placeholders
unfolding clear_slow_host clear_preparing_host
settled-placeholders hostname s =
    let t = clear_preparing_host hostname s in
    let cleared = if-holds (SamePlaceholders s) (contains s.preparing_hosts hostname) refl refl in
    if-holds (SamePlaceholders s) (contains t.slow_hosts hostname) cleared cleared

active-prune_host :
    (hostname : Text) (s : Inventory) (k : Text)
    → contains (active_placeholder_keys (prune_host hostname s).job_vm_placeholders) k
      ≡ (contains (active_placeholder_keys s.job_vm_placeholders) k && not (is_of_host hostname k))
unfolding prune_host
active-prune_host hostname s k =
    let t = settled hostname s in
    let ks = filter (is_of_host hostname) (vm_keys t.fleet) in
    rw
      (
        active-drop_host_placeholders hostname (detach_each ks t.job_vm_placeholders) k,
        active-detach_each ks t.job_vm_placeholders k,
        contains-filter (is_of_host hostname) (vm_keys t.fleet) k,
        settled-placeholders hostname s,
      )
      (ground arith)

active-prune_each :
    (names : List Text) (s : Inventory) (k : Text)
    → contains (active_placeholder_keys (prune_each names s).job_vm_placeholders) k ≡ (
        contains (active_placeholder_keys s.job_vm_placeholders) k
        && not (any (λ hostname. is_of_host hostname k) names))
unfolding prune_each
active-prune_each [] s k = ground arith
active-prune_each (hostname ∷ names) s k =
    rw (active-prune_each names (prune_host hostname s) k, active-prune_host hostname s k)
      (ground arith)

contains-stale_hosts :
    (configured : List Text) (s : Inventory) (k : Text)
    → contains (stale_hosts configured s) k
      ≡ (is_some (Dict.get s.hosts k) && not (contains configured k && not (is_empty k)))
contains-stale_hosts configured s k =
    rw
      (
        contains-filter (λ hostname. not (contains (configured_set configured) hostname))
            (keys s.hosts) k,
        contains-filter (λ host. not (is_empty host)) configured k,
        contains-keys s.hosts k,
      )
      refl

-- Pruning drops the hosts of the table that are not configured, or whose name is empty; it keeps the
-- entry of every other host, and removes just the machines and the placeholders under the keys of
-- the hosts that it drops.
pub prune_unconfigured_hosts_lem :
    (configured : List Text) (s : Inventory) (k key : Text)
    → (Dict.get (prune_unconfigured_hosts configured s).hosts k
        ≡ (if contains configured k && not (is_empty k) then Dict.get s.hosts k else none))
      × (contains (stale_hosts configured s) k
          ≡ (is_some (Dict.get s.hosts k) && not (contains configured k && not (is_empty k))))
      × (find_vm (prune_unconfigured_hosts configured s).fleet key ≡ (
          if any (λ hostname. is_of_host hostname key) (stale_hosts configured s)
          then none
          else find_vm s.fleet key))
      × (contains
            (active_placeholder_keys (prune_unconfigured_hosts configured s).job_vm_placeholders)
            key
          ≡ (contains (active_placeholder_keys s.job_vm_placeholders) key
              && not (any (λ hostname. is_of_host hostname key) (stale_hosts configured s))))
unfolding prune_unconfigured_hosts
prune_unconfigured_hosts_lem configured s k key = (
  rw (get-prune_each (stale_hosts configured s) s k, contains-stale_hosts configured s k)
      (elim (Option-cases (Dict.get s.hosts k)) [
        | inl gone ↦ rw gone (ground arith)
        | inr (h, e) ↦ rw e (ground arith)
      ]),
  contains-stale_hosts configured s k,
  find-prune_each (stale_hosts configured s) s key,
  active-prune_each (stale_hosts configured s) s key,
)
