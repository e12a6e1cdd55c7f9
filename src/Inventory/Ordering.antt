-- ===== src/Inventory/Ordering.antt =====
-- The sequence numbers of snapshots in server/app/services/inventory_service.py.
use aether_v.Prelude.Dict
use aether_v.Prelude.Dict.{Dict, get-put, get-put_self}
use aether_v.Prelude.{
  ℕ, ◌≡◌, ◌<◌, refl, Bool, true, eq_text, arith, inl, inr, Bool-cases, Option-cases, ltb,
}
use aether_v.Jobs.LineBuffer.{Text}
use aether_v.Inventory.{Inventory}
use aether_v.Inventory.Runs.{Step}
use aether_v.Inventory.Sequences.{IsLate, Spares, step-IsLate}
use aether_v.Inventory.Snapshots.{
  Snapshot, apply_host_snapshot, apply_host_snapshot_locked, is_stale,
}

-- The last sequence number of a snapshot's host is then at least its own.
late_is_stale :
    (d : Bool) (p : Snapshot) (s : Inventory) (n : ℕ)
    → n < p.sequence
    → is_stale n (Dict.get (apply_host_snapshot d p s).last_applied p.hostname) ≡ true
unfolding apply_host_snapshot
late_is_stale d p s n lt = elim (Option-cases (Dict.get s.last_applied p.hostname)) [
  | inl first ↦
      let t = apply_host_snapshot_locked d p (Dict.get s.hosts p.hostname) s in
      rw (first, get-put_self t.last_applied p.hostname p.sequence) (ground arith)
  | inr (last, at) ↦ elim (Bool-cases (ltb p.sequence last)) [
    | inl stale ↦ rw (at, stale, at) (ground (arith, stale))
    | inr fresh ↦
        let t = apply_host_snapshot_locked d p (Dict.get s.hosts p.hostname) s in
        rw (at, fresh, get-put_self t.last_applied p.hostname p.sequence) (ground arith)
  ]
]

discard_stale :
    (d : Bool) (p : Snapshot) (s : Inventory)
    → is_stale p.sequence (Dict.get s.last_applied p.hostname) ≡ true
    → apply_host_snapshot d p s ≡ s
unfolding apply_host_snapshot
discard_stale d p s stale = rw stale refl

-- The service goes on, by steps that forget no sequence number of the host.
pub data GoesOn (host : Text) (s : Inventory) : Inventory → Type 0 where
  at_once : GoesOn host s s
  later : {t u : Inventory} → GoesOn host s t → (st : Step t u) → Spares host st → GoesOn host s u

GoesOn-IsLate :
    (n : ℕ) (host : Text) {s t : Inventory} → IsLate n host s → GoesOn host s t → IsLate n host t
GoesOn-IsLate n host late at_once = late
GoesOn-IsLate n host late (later before st spared) =
    step-IsLate n host (GoesOn-IsLate n host late before) st spared

-- Once a snapshot of a host has been applied, or discarded as stale, one of that host that was drawn
-- before it changes nothing, in whatever state the service has come to since, as long as the
-- inventory was not cleared and the host was not pruned in between: both forget its sequence number.
pub apply-late :
    (d e : Bool) (p q : Snapshot) (s : Inventory) {t : Inventory}
    → q.hostname ≡ p.hostname
    → q.sequence < p.sequence
    → GoesOn p.hostname (apply_host_snapshot d p s) t
    → apply_host_snapshot e q t ≡ t
apply-late d e p q s {t = t} named lt since =
    discard_stale e q t
      (rw named (GoesOn-IsLate q.sequence p.hostname (late_is_stale d p s q.sequence lt) since))
