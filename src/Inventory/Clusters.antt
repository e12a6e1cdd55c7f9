-- ===== src/Inventory/Clusters.antt =====
-- `_rebuild_clusters` of server/app/services/inventory_service.py.
use aether_v.Prelude.Dict
use aether_v.Prelude.Dict.{Dict}
use aether_v.Jobs.LineBuffer.{Text}
use aether_v.Jobs.Service.Texts.{codes}
use aether_v.Prelude.{
  ℕ, ◌+◌, Bool, true, false, Option, none, some, List, [], ◌∷◌, if◌then◌else◌, eq_text, is_empty,
  length, ltb, nat_eq, ◌||◌, ◌&&◌,
}
use aether_v.Inventory.{Host, Cluster, Inventory, add, or_empty}

-- `host.cluster or "Default"`
abbrev pub cluster_name : Option Text → Text
cluster_name none = codes "Default"
cluster_name (some name) = if is_empty name then codes "Default" else name

abbrev pub count_of : Option ℕ → ℕ
count_of none = 0
count_of (some n) = n

-- `cluster_hosts` and `cluster_connected_counts`
abbrev pub Tally : Type 0
Tally = Dict Text (List Text) × Dict Text ℕ

-- One round of the first loop, for a host that is found.
unfoldable pub tally_host : Option Host → Tally → Tally
tally_host none t = t
tally_host (some host) t =
    let name = cluster_name host.cluster in
    let hosts = Dict.put t.0 name (add (or_empty (Dict.get t.0 name)) host.hostname) in
    let counts =
      if host.connected then Dict.put t.1 name (count_of (Dict.get t.1 name) + 1) else t.1 in
    (hosts, counts)

unfoldable pub tally_hosts : Dict Text Host → List Text → Tally → Tally
tally_hosts hosts [] t = t
tally_hosts hosts (hostname ∷ names) t =
    tally_hosts hosts names (tally_host (Dict.get hosts hostname) t)

-- The order of texts.
abbrev pub precedes : Text → Text → Bool
precedes [] t = true
precedes (c ∷ s) [] = false
precedes (c ∷ s) (d ∷ t) = ltb c d || (nat_eq c d && precedes s t)

abbrev pub insert_sorted : Text → List Text → List Text
insert_sorted x [] = x ∷ []
insert_sorted x (y ∷ ys) =
    let rest = insert_sorted x ys in if precedes x y then x ∷ y ∷ ys else y ∷ rest

-- sorted(hostnames)
abbrev pub sorted : List Text → List Text
sorted [] = []
sorted (x ∷ xs) = insert_sorted x (sorted xs)

-- The second loop.
unfoldable pub make_clusters : Dict Text (List Text) → Dict Text ℕ → Dict Text Cluster
make_clusters [] counts = []
make_clusters ((name, hostnames) ∷ d) counts =
    let hosts = sorted hostnames in
    let cluster : Cluster = record {
      name = name;
      hosts = hosts;
      connected_hosts = count_of (Dict.get counts name);
      total_hosts = length hosts;
    } in
    (name, cluster) ∷ make_clusters d counts

unfoldable pub rebuild_clusters : List Text → Inventory → Inventory
unfolding tally_hosts make_clusters
rebuild_clusters configured s =
    let t = tally_hosts s.hosts configured ([], []) in record s { clusters = make_clusters t.0 t.1 }
