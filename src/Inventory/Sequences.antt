-- ===== src/Inventory/Sequences.antt =====
-- The sequence numbers that the steps of server/app/services/inventory_service.py leave.
use aether_v.Prelude.Dict
use aether_v.Prelude.Dict.{Dict, get-put, get-remove}
use aether_v.Jobs.LineBuffer.{Text}
use aether_v.Prelude.{
  ℕ, suc, ◌+◌, ◌*◌, ◌≡◌, refl, ◌∙◌, subst, Bool, true, false, not, ◌&&◌, Option, none, some, List,
  [], ◌∷◌, ◌==◌, eq_text, same_text_iff, arith, inl, inr, Bool-cases, ltb, nat_eq, is_some,
  is_empty,
}
use aether_v.Inventory.{Host, Inventory, Vm, contains}
use aether_v.Inventory.Sound.{if-holds}
use aether_v.Inventory.Readiness.{
  mark_host_preparing, clear_preparing_host, clear_slow_host, record_host_refresh_duration,
  clear_overrun, handle_refresh_overrun,
}
use aether_v.Inventory.Snapshots.{
  Snapshot, set_host, drop_host_vms, place_vms, drop_unexpected, was_connected, was_disconnected,
  has_error, tell_connection, time_refresh, clear_if_told, apply_vms, apply_host_snapshot_locked,
  apply_host_snapshot, is_stale,
}
use aether_v.Inventory.JobVms.{
  track_job_vm, clear_job_vm, mark_vm_deleting, finalize_vm_deletion, get_vm_by_id, is_unnamed,
}
use aether_v.Inventory.Prune.{prune_host, prune_each, prune_unconfigured_hosts, stale_hosts}
use aether_v.Inventory.Clusters.{rebuild_clusters}
use aether_v.Inventory.Refresh.{refresh_dummy_data, tell_status, finalise_cycle_refresh}
use aether_v.Inventory.Runs.{
  Step, track, forget, mark, finalize, look_up, draw, apply, prune, rebuild, clear_all, demonstrate,
  end_cycle,
}

abbrev Same : Inventory → Inventory → Type 0
Same s t = t.last_applied ≡ s.last_applied

mark_host_preparing-Same :
    (hostname : Text) (s : Inventory) → Same s (mark_host_preparing hostname s)
unfolding mark_host_preparing
mark_host_preparing-Same hostname s = refl

clear_preparing_host-Same :
    (hostname : Text) (s : Inventory) → Same s (clear_preparing_host hostname s)
unfolding clear_preparing_host
clear_preparing_host-Same hostname s =
    if-holds (Same s) (contains s.preparing_hosts hostname) refl refl

clear_slow_host-Same : (hostname : Text) (s : Inventory) → Same s (clear_slow_host hostname s)
unfolding clear_slow_host
clear_slow_host-Same hostname s = if-holds (Same s) (contains s.slow_hosts hostname) refl refl

set_host-Same : (hostname : Text) (o : Option Host) (s : Inventory) → Same s (set_host hostname o s)
set_host-Same hostname none s = refl
set_host-Same hostname (some h) s = refl

place_vms-Same :
    (hostname : Text) (vms : List Vm) (s : Inventory) → Same s (place_vms hostname vms s)
unfolding place_vms
place_vms-Same hostname [] s = refl
place_vms-Same hostname (vm ∷ vms) s = place_vms-Same hostname vms _

drop_unexpected-Same :
    (hostname : Text) (o : Option (List Text)) (s : Inventory)
    → Same s (drop_unexpected hostname o s)
unfolding drop_unexpected
drop_unexpected-Same hostname none s = refl
drop_unexpected-Same hostname (some expected) s = refl

time_refresh-Same :
    (r : Bool) (hostname : Text) (d i : Option ℕ) (s : Inventory)
    → Same s (time_refresh r hostname d i s)
unfolding record_host_refresh_duration
time_refresh-Same false hostname d i s = refl
time_refresh-Same true hostname none i s = refl
time_refresh-Same true hostname (some d) none s = refl
time_refresh-Same true hostname (some d) (some i) s =
    let t : Inventory = record s {
      total_duration = s.total_duration + d;
      samples = suc s.samples;
    } in
    if-holds (Same s) (ltb i d) refl (clear_slow_host-Same hostname t)

tell_connection-Same :
    (dummy : Bool) (p : Snapshot) (o : Option Host) (s : Inventory)
    → Same s (tell_connection dummy p o s)
tell_connection-Same dummy p o s =
    if-holds (Same s) (p.refreshed && not dummy) (if-holds (Same s) (was_disconnected o) refl refl)
      (if-holds (Same s) (has_error p.error && not dummy)
        (if-holds (Same s) (was_connected o) refl refl) refl)

apply_vms-Same : (p : Snapshot) (s : Inventory) → Same s (apply_vms p s)
unfolding apply_vms
apply_vms-Same p s =
    drop_unexpected-Same p.hostname p.expected_vm_keys
      (place_vms p.hostname p.vms (drop_host_vms p s))
    ∙ place_vms-Same p.hostname p.vms (drop_host_vms p s)
    ∙ if-holds (Same s) p.clear_host_vms refl refl

apply_host_snapshot_locked-Same :
    (dummy : Bool) (p : Snapshot) (o : Option Host) (s : Inventory)
    → Same s (apply_host_snapshot_locked dummy p o s)
unfolding apply_host_snapshot_locked
apply_host_snapshot_locked-Same dummy p o s =
    if-holds (Same s) p.mark_preparing (mark_host_preparing-Same p.hostname s) (
      time_refresh-Same p.record_duration p.hostname p.duration p.expected_interval _
      ∙ tell_connection-Same dummy p o _
      ∙ apply_vms-Same p (set_host p.hostname p.host (clear_if_told p s))
      ∙ set_host-Same p.hostname p.host (clear_if_told p s)
      ∙ if-holds (Same s) p.clear_preparing (clear_preparing_host-Same p.hostname s) refl)

tell_status-Same : (empty : Bool) (now : ℕ) (s : Inventory) → Same s (tell_status empty now s)
tell_status-Same true now s = refl
tell_status-Same false now s = if-holds (Same s) (is_some s.last_refresh) refl refl

clear_overrun-Same : (s : Inventory) → Same s (clear_overrun s)
unfolding clear_overrun
clear_overrun-Same s = if-holds (Same s) s.overrun_active refl refl

handle_refresh_overrun-Same :
    (interval hosts : ℕ) (s : Inventory) → Same s (handle_refresh_overrun interval hosts s)
unfolding handle_refresh_overrun
handle_refresh_overrun-Same interval hosts s =
    let cleared = clear_overrun-Same s in
    if-holds (Same s) (nat_eq hosts 0) cleared (
      if-holds (Same s) (nat_eq s.samples 0) cleared
        (if-holds (Same s) (ltb (interval * s.samples) s.total_duration) refl cleared))

refresh_dummy_data-Same :
    (chosen : Option Text) (now : ℕ) (s : Inventory) → Same s (refresh_dummy_data chosen now s)
unfolding refresh_dummy_data
refresh_dummy_data-Same none now s = refl
refresh_dummy_data-Same (some key) now s = refl

prune_host-sequence :
    (hostname : Text) (s : Inventory) (k : Text)
    → (hostname == k) ≡ false
    → Dict.get (prune_host hostname s).last_applied k ≡ Dict.get s.last_applied k
unfolding prune_host
prune_host-sequence hostname s k other =
    let t = clear_preparing_host hostname s in
    rw
      (
        get-remove (clear_slow_host hostname t).last_applied hostname k,
        other,
        clear_slow_host-Same hostname t,
        clear_preparing_host-Same hostname s,
      )
      refl

prune_each-sequence :
    (names : List Text) (s : Inventory) (k : Text)
    → contains names k ≡ false
    → Dict.get (prune_each names s).last_applied k ≡ Dict.get s.last_applied k
unfolding prune_each
prune_each-sequence [] s k spared = refl
prune_each-sequence (hostname ∷ names) s k spared =
    prune_each-sequence names (prune_host hostname s) k (ground (arith, spared))
    ∙ prune_host-sequence hostname s k (ground (arith, spared))

-- A snapshot of the host with this sequence number is stale.
abbrev pub IsLate : ℕ → Text → Inventory → Type 0
IsLate n host s = is_stale n (Dict.get s.last_applied host) ≡ true

Same-IsLate : (n : ℕ) (host : Text) (s t : Inventory) → Same s t → IsLate n host s → IsLate n host t
Same-IsLate n host s t same late = rw same late

stale_below :
    (n m : ℕ) (o : Option ℕ)
    → is_stale m o ≡ false
    → is_stale n o ≡ true
    → is_stale n (some m) ≡ true
stale_below n m none fresh late = cc
stale_below n m (some last) fresh late = ground (arith, fresh, late)

apply-IsLate :
    (n : ℕ) (host : Text) (d : Bool) (p : Snapshot) (s : Inventory)
    → IsLate n host s
    → IsLate n host (apply_host_snapshot d p s)
unfolding apply_host_snapshot
apply-IsLate n host d p s late =
    let t = apply_host_snapshot_locked d p (Dict.get s.hosts p.hostname) s in
    elim (Bool-cases (is_stale p.sequence (Dict.get s.last_applied p.hostname))) [
      | inl stale ↦ rw stale late
      | inr fresh ↦
          rw
            (
              fresh,
              get-put t.last_applied p.hostname p.sequence host,
              apply_host_snapshot_locked-Same d p (Dict.get s.hosts p.hostname) s,
            )
            (elim (Bool-cases (p.hostname == host)) [
              | inl here ↦ rw here (risen here fresh)
              | inr there ↦ rw there late
            ])
    ]
  where
    risen :
        (p.hostname == host) ≡ true
        → is_stale p.sequence (Dict.get s.last_applied p.hostname) ≡ false
        → is_stale n (some p.sequence) ≡ true
    risen here fresh =
        let name : p.hostname ≡ host = ground (arith, here, same_text_iff p.hostname host) in
        stale_below n p.sequence (Dict.get s.last_applied host)
          (subst (λ (h : Text). is_stale p.sequence (Dict.get s.last_applied h) ≡ false) name fresh)
          late

-- The step forgets no sequence number of the host: it is not a clearing of the inventory, nor a
-- pruning of the host.
abbrev pub Spares : Text → {s t : Inventory} → Step s t → Type 0
Spares host {s = s} (prune configured) = contains (stale_hosts configured s) host ≡ false
Spares host (clear_all now) = true ≡ false
Spares host other = Unit

pub step-IsLate :
    (n : ℕ) (host : Text) {s t : Inventory}
    → IsLate n host s
    → (st : Step s t) → Spares host st
    → IsLate n host t
unfolding track_job_vm clear_job_vm mark_vm_deleting finalize_vm_deletion get_vm_by_id
    prune_unconfigured_hosts rebuild_clusters finalise_cycle_refresh
step-IsLate n host {s = s} late (track job name h) spared =
    if-holds (IsLate n host) (is_unnamed job name h) late late
step-IsLate n host late (forget job) spared = late
step-IsLate n host {s = s} late (mark job name h) spared =
    if-holds (IsLate n host) (is_unnamed job name h) late late
step-IsLate n host {s = s} late (finalize job name h success) spared =
    if-holds (IsLate n host) (is_unnamed job name h) late late
step-IsLate n host late (look_up id) spared = late
step-IsLate n host late draw spared = late
step-IsLate n host {s = s} late (apply d p) spared = apply-IsLate n host d p s late
step-IsLate n host {s = s} late (prune configured) spared =
    rw (prune_each-sequence (stale_hosts configured s) s host spared) late
step-IsLate n host late (rebuild configured now) spared = late
step-IsLate n host late (clear_all now) spared = cc
step-IsLate n host {s = s} late (demonstrate chosen now) spared =
    Same-IsLate n host s (refresh_dummy_data chosen now s) (refresh_dummy_data-Same chosen now s)
      late
step-IsLate n host {s = s} late (end_cycle configured hosts interval now) spared =
    let told = tell_status (is_empty configured) now s in
    Same-IsLate n host s (handle_refresh_overrun interval hosts told)
      (handle_refresh_overrun-Same interval hosts told
        ∙ tell_status-Same (is_empty configured) now s)
      late
