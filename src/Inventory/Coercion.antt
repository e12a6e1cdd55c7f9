-- ===== src/Inventory/Coercion.antt =====
-- The values of a host's answer, as server/app/services/inventory_service.py reads them. What `str`,
-- `int` and `float` make of JSON values that are not strings, and of strings, is an argument.
use aether_v.Prelude.Json
use aether_v.Prelude.Json.{
  Json, Items, Fields, null, bool, int, float, text, arr, obj, nil, cons, truthy,
}
use aether_v.Jobs.LineBuffer.{Text}
use aether_v.Jobs.Service.Texts.{codes, strip, lower, has_part, is_prefix}
use aether_v.Jobs.Service.Deployment.{OsFamily, windows, linux}
use aether_v.Prelude.{
  ℕ, String, Bool, true, false, ◌||◌, Option, none, some, List, [], ◌∷◌, ◌++◌, ◌==◌, if◌then◌else◌,
  eq_string, eq_text, is_empty, any,
}
use aether_v.Inventory.{or_else, VmDisk, VmNetworkAdapter, contains}

-- `str(value)`, `int(value)` and `float(value)`; the latter two give none where they raise.
pub record Builtins : Type 0 where
  pub str_of : Json → Text
  pub int_of : Json → Option ℕ
  pub float_of : Json → Option ℕ

-- d.get(key)
abbrev pub at : Fields → String → Json
at fields key = elim (Json.get_field fields key) [ none ↦ null | some v ↦ v ]

-- `value is None or value == ""`
abbrev pub is_blank : Json → Bool
is_blank null = true
is_blank (text s) = s == ""
is_blank other = false

abbrev pub string_of : Builtins → Json → Text
string_of b (text s) = codes s
string_of b other = b.str_of other

abbrev pub or_nothing : Text → Option Text
or_nothing t = if is_empty t then none else some t

module _ (b : Builtins) where
  unfoldable pub coerce_float : Json → Option ℕ → Option ℕ
  coerce_float v default = if is_blank v then default else or_else (b.float_of v) default

  unfoldable pub coerce_int : Json → Option ℕ → Option ℕ
  coerce_int v default = if is_blank v then default else or_else (b.int_of v) default

  unfoldable pub coerce_str : Json → Option Text
  unfolding strip
  coerce_str null = none
  coerce_str v = or_nothing (strip (string_of b v))

  abbrev pub word_of_bool : Text → Option Bool
  word_of_bool t =
      if any (λ w. codes w == t) ("true" ∷ "1" ∷ "yes" ∷ "y" ∷ [])
      then some true
      else if any (λ w. codes w == t) ("false" ∷ "0" ∷ "no" ∷ "n" ∷ [])
      then some false
      else none

  unfoldable pub coerce_bool : Json → Option Bool
  unfolding strip
  coerce_bool (bool v) = some v
  coerce_bool null = none
  coerce_bool v = word_of_bool (lower (strip (string_of b v)))

  unfoldable pub infer_os_family : Option Text → Option OsFamily
  infer_os_family none = none
  infer_os_family (some name) =
      if is_empty name
      then none
      else if has_part (codes "windows") (lower name)
      then some windows
      else if any (λ w. has_part (codes w) (lower name))
          ("linux" ∷ "ubuntu" ∷ "debian" ∷ "centos" ∷ "rhel" ∷ [])
      then some linux
      else none

  -- `not ip or ip.lower().startswith("fe80:")`
  abbrev pub is_ignored : Text → Bool
  is_ignored ip = is_empty ip || is_prefix (codes "fe80:") (lower ip)

  abbrev pub keep_ip : Text → List Text → List Text
  keep_ip ip ips = if is_ignored ip then ips else if contains ips ip then ips else ips ++ ip ∷ []

  -- The loop of `_normalise_ip_list`, with what it has kept.
  unfoldable pub normalise_ips : Items → List Text → List Text
  unfolding strip
  normalise_ips nil ips = ips
  normalise_ips (cons (text s) items) ips = normalise_ips items (keep_ip (strip (codes s)) ips)
  normalise_ips (cons other items) ips = normalise_ips items ips

  unfoldable pub normalise_ip_list : Json → List Text
  unfolding normalise_ips
  normalise_ip_list (arr items) = normalise_ips items []
  normalise_ip_list other = []

  abbrev pub collect_each : List Text → List Text → List Text
  collect_each [] ips = ips
  collect_each (ip ∷ more) ips = collect_each more (if contains ips ip then ips else ips ++ ip ∷ [])

  -- The loop of `_collect_ips_from_networks`, with what it has collected.
  unfoldable pub collect_ips_from_networks : List VmNetworkAdapter → List Text → List Text
  collect_ips_from_networks [] ips = ips
  collect_ips_from_networks (a ∷ adapters) ips =
      collect_ips_from_networks adapters (collect_each a.ip_addresses ips)

  abbrev pub adapter_of : Fields → VmNetworkAdapter
  adapter_of d = record {
    id = coerce_str (at d "Id");
    name = at d "Name";
    adapter_name = at d "AdapterName";
    network = at d "Network";
    virtual_switch = at d "VirtualSwitch";
    vlan = coerce_str (at d "Vlan");
    network_name = coerce_str (at d "NetworkName");
    ip_addresses = normalise_ip_list (at d "IPAddresses");
    mac_address = coerce_str (at d "MacAddress");
  }

  abbrev pub adapters_of : Items → List VmNetworkAdapter
  adapters_of nil = []
  adapters_of (cons (obj d) items) = adapter_of d ∷ adapters_of items
  adapters_of (cons other items) = adapters_of items

  unfoldable pub deserialize_networks : Json → List VmNetworkAdapter
  unfolding coerce_str normalise_ip_list
  deserialize_networks (arr items) = adapters_of items
  deserialize_networks other = []

  abbrev pub disk_of : Fields → VmDisk
  disk_of d = record {
    id = coerce_str (at d "Id");
    name = at d "Name";
    path = at d "Path";
    location = at d "Location";
    type = at d "DiskType";
    size_gb = coerce_float (at d "CapacityGB") none;
    file_size_gb = coerce_float (at d "FileSizeGB") none;
  }

  abbrev pub disks_of : Items → List VmDisk
  disks_of nil = []
  disks_of (cons (obj d) items) = disk_of d ∷ disks_of items
  disks_of (cons other items) = disks_of items

  unfoldable pub deserialize_disks : Json → List VmDisk
  unfolding coerce_str coerce_float
  deserialize_disks (arr items) = disks_of items
  deserialize_disks other = []
