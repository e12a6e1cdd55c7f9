-- ===== src/Inventory/Reachable.antt =====
-- What holds in every state that the inventory of server/app/services/inventory_service.py reaches.
use aether_v.Jobs.LineBuffer.{Text}
use aether_v.Jobs.Service.Texts.{lower}
use aether_v.Prelude.{◌≡◌, false, is_empty}
use aether_v.Inventory.{Inventory, contains}
use aether_v.Inventory.JobVms.{get_vm_by_id}
use aether_v.Inventory.Lookup.{Finds, get_vm_by_id-Finds}
use aether_v.Inventory.Told.{replay, preparing_after, slow_after, overrun_after}
use aether_v.Inventory.Runs.{Reach, Reach-Sound}

-- In every state that the service reaches, a lookup by an id that is not empty returns a machine of
-- the table whose id is that one, both in lower case, and returns nothing only if no machine of
-- the table has it.
pub get_vm_by_id_lem :
    {s : Inventory} (r : Reach s) (id : Text)
    → is_empty id ≡ false
    → Finds (lower id) s (get_vm_by_id id s).1
get_vm_by_id_lem {s = s} r id named = get_vm_by_id-Finds s (Reach-Sound r).fleet_valid id named

-- In every state that the service reaches before it is stopped: of its own calls to the notification
-- service for the preparing notification of a host, the last one showed it if the host is in the
-- set of such hosts, and else the last one cleared it or there was none; so for the slow-host
-- notification of a host with its set, and for the capacity notification with its flag. What others
-- do to the notifications meanwhile is not followed.
pub shown_lem :
    {s : Inventory} (r : Reach s) (h : Text)
    → (contains s.preparing_hosts h ≡ replay (preparing_after h) s.notices false)
      × (contains s.slow_hosts h ≡ replay (slow_after h) s.notices false)
      × (s.overrun_active ≡ replay overrun_after s.notices false)
shown_lem r h = let t = (Reach-Sound r).told in (t.preparing_told h, t.slow_told h, t.overrun_told)
