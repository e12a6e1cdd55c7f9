-- ===== src/Inventory/Readiness.antt =====
-- The hosts' readiness and timing in server/app/services/inventory_service.py, and the notifications
-- that show them.
use aether_v.Prelude.Dict
use aether_v.Prelude.Dict.{Dict}
use aether_v.Prelude.Json.{end}
use aether_v.Jobs.LineBuffer.{Text}
use aether_v.Jobs.Service.Texts.{codes}
use aether_v.Prelude.{
  ℕ, suc, ◌+◌, ◌*◌, Bool, true, false, Option, none, some, [], ◌∷◌, ◌++◌, if◌then◌else◌, eq_text,
  ltb, nat_eq, same_text,
}
use aether_v.Inventory.{
  Host, Inventory, Notice, preparing_shown, preparing_cleared, slow_shown, slow_cleared,
  overrun_shown, overrun_cleared, contains, add, discard,
}

abbrev pub preparing_host_message : Text
preparing_host_message = codes "Preparing host, will retry later"

abbrev pub notify : Notice → Inventory → Inventory
notify n s = record s { notices = s.notices ++ n ∷ [] }

abbrev pub cluster_of : Option Host → Option Text
cluster_of none = none
cluster_of (some h) = h.cluster

abbrev pub last_seen_of : Option Host → Option ℕ
last_seen_of none = none
last_seen_of (some h) = h.last_seen

-- `_mark_host_preparing`
unfoldable pub mark_host_preparing : Text → Inventory → Inventory
mark_host_preparing hostname s =
    let previous = Dict.get s.hosts hostname in
    let host : Host = record {
      hostname = hostname;
      cluster = cluster_of previous;
      connected = false;
      last_seen = last_seen_of previous;
      error = some preparing_host_message;
      total_cpu_cores = 0;
      details = end;
    } in
    record s {
      hosts = Dict.put s.hosts hostname host;
      host_last_refresh = Dict.remove s.host_last_refresh hostname;
      notices = s.notices ++ preparing_shown hostname ∷ [];
      preparing_hosts = add s.preparing_hosts hostname;
    }

abbrev pub is_preparing_error : Option Text → Bool
is_preparing_error none = false
is_preparing_error (some e) = same_text e preparing_host_message

-- `if host and host.error == PREPARING_HOST_MESSAGE: host.error = None`
abbrev pub forget_error : Text → Option Host → Dict Text Host → Dict Text Host
forget_error hostname none d = d
forget_error hostname (some h) d =
    if is_preparing_error h.error then Dict.put d hostname (record h { error = none }) else d

-- `_clear_preparing_host`
unfoldable pub clear_preparing_host : Text → Inventory → Inventory
clear_preparing_host hostname s =
    let hosts' = forget_error hostname (Dict.get s.hosts hostname) s.hosts in
    if contains s.preparing_hosts hostname
    then record s {
      hosts = hosts';
      notices = s.notices ++ preparing_cleared hostname ∷ [];
      preparing_hosts = discard s.preparing_hosts hostname;
    }
    else record s { hosts = hosts' }

-- The slow-host notification of a host, cleared if it is shown.
unfoldable pub clear_slow_host : Text → Inventory → Inventory
clear_slow_host hostname s =
    if contains s.slow_hosts hostname
    then record s {
      notices = s.notices ++ slow_cleared hostname ∷ [];
      slow_hosts = discard s.slow_hosts hostname;
    }
    else s

-- `_record_host_refresh_duration`; the average is `total_duration / samples`.
unfoldable pub record_host_refresh_duration : Text → ℕ → ℕ → Inventory → Inventory
unfolding clear_slow_host
record_host_refresh_duration hostname duration interval s =
    let t = record s { total_duration = s.total_duration + duration; samples = suc s.samples } in
    if ltb interval duration
    then record t {
      notices = s.notices ++ slow_shown hostname ∷ [];
      slow_hosts = add s.slow_hosts hostname;
    }
    else clear_slow_host hostname t

-- The branches of `_handle_refresh_overrun` that clear the notification.
unfoldable pub clear_overrun : Inventory → Inventory
clear_overrun s =
    if s.overrun_active
    then record s { notices = s.notices ++ overrun_cleared ∷ []; overrun_active = false }
    else s

-- `_handle_refresh_overrun`
unfoldable pub handle_refresh_overrun : ℕ → ℕ → Inventory → Inventory
unfolding clear_overrun
handle_refresh_overrun interval host_count s =
    if nat_eq host_count 0
    then clear_overrun s
    else if nat_eq s.samples 0
    then clear_overrun s
    else if ltb (interval * s.samples) s.total_duration
    then record s { notices = s.notices ++ overrun_shown ∷ []; overrun_active = true }
    else clear_overrun s
