-- ===== src/Inventory/Counting.antt =====
-- The counts of `_rebuild_clusters` of server/app/services/inventory_service.py.
use aether_v.Prelude.Dict
use aether_v.Prelude.Dict.{Dict, get-put, get-put_self, put-IsDict, get-nil, values}
use aether_v.Jobs.LineBuffer.{Text}
use aether_v.Prelude.{
  ℕ, suc, ◌+◌, ◌≤◌, ◌≡◌, refl, Bool, true, false, ◌&&◌, Option, none, some, List, [], ◌∷◌, ◌==◌,
  if◌then◌else◌, eq_text, arith, inl, inr, Bool-cases, filter, All, length, length-append, sym, ap,
  ◌∙◌, same_text_iff, subst, eq_self,
}
use aether_v.Inventory.{Host, Inventory, contains, add, or_empty}
use aether_v.Inventory.Clusters.{
  cluster_name, count_of, Tally, tally_host, tally_hosts, insert_sorted, sorted, make_clusters,
  rebuild_clusters,
}
use aether_v.Inventory.Told.{contains-add}

-- No hostname stands twice.
abbrev pub IsDistinct : List Text → Type 0
IsDistinct [] = Unit
IsDistinct (x ∷ xs) = (contains xs x ≡ false) × IsDistinct xs

-- Each host stands under its own name.
abbrev pub IsNamed : Dict Text Host → Type 0
IsNamed d = All (λ p. p.1.hostname ≡ p.0) d

get-IsNamed :
    (d : Dict Text Host) (k : Text) (h : Host) → IsNamed d → Dict.get d k ≡ some h → h.hostname ≡ k
unfolding Dict.get
get-IsNamed [] k h n e = cc
get-IsNamed ((j, g) ∷ d) k h n e = ground (arith, get-IsNamed d k h n.1, same_text_iff j k)

-- Whether a host is connected and in a cluster.
abbrev pub connected_in : Text → Option Host → Bool
connected_in name none = false
connected_in name (some h) = h.connected && cluster_name h.cluster == name

abbrev pub connected_among : Dict Text Host → Text → List Text → ℕ
connected_among hosts name names = length (filter (λ k. connected_in name (Dict.get hosts k)) names)

count-tally_host :
    (o : Option Host) (t : Tally) (name : Text)
    → count_of (Dict.get (tally_host o t).1 name)
      ≡ count_of (Dict.get t.1 name) + (if connected_in name o then 1 else 0)
unfolding tally_host
count-tally_host none t name = omega arith
count-tally_host (some h) t name =
    let own = cluster_name h.cluster in
    elim (Bool-cases h.connected) [
      | inl up ↦ elim (Bool-cases (own == name)) [
        | inl here ↦
            rw (up, get-put t.1 own (count_of (Dict.get t.1 own) + 1) name, here)
              (ap (λ k. count_of (Dict.get t.1 k) + 1) ((same_text_iff own name).0 here))
        | inr there ↦
            rw (up, get-put t.1 own (count_of (Dict.get t.1 own) + 1) name, there) (omega arith)
      ]
      | inr down ↦ rw down (omega arith)
    ]

count-tally_hosts :
    (hosts : Dict Text Host) (names : List Text) (t : Tally) (name : Text)
    → count_of (Dict.get (tally_hosts hosts names t).1 name)
      ≡ count_of (Dict.get t.1 name) + connected_among hosts name names
unfolding tally_hosts
count-tally_hosts hosts [] t name = omega arith
count-tally_hosts hosts (k ∷ names) t name =
    rw
      (
        count-tally_hosts hosts names (tally_host (Dict.get hosts k) t) name,
        count-tally_host (Dict.get hosts k) t name,
      )
      (ground arith)

-- The sets of hosts that are counted, before some names that are still to come.
record IsTally (t : Tally) (names : List Text) : Type 0 where
  unique : Dict.IsDict t.0
  bounded : (name : Text) → count_of (Dict.get t.1 name) ≤ length (or_empty (Dict.get t.0 name))
  fresh :
      (name x : Text) → contains (or_empty (Dict.get t.0 name)) x ≡ true → contains names x ≡ false

length-add_new :
    (xs : List Text) (x : Text) → contains xs x ≡ false → length (add xs x) ≡ suc (length xs)
length-add_new xs x e = rw (e, length-append xs (x ∷ [])) (omega arith)

length-add : (xs : List Text) (x : Text) → length xs ≤ length (add xs x)
length-add xs x = elim (Bool-cases (contains xs x)) [
  | inl there ↦ rw there (omega arith)
  | inr new ↦ rw (new, length-append xs (x ∷ [])) (omega arith)
]

module _ {t : Tally} (k : Text) (names : List Text) where
  tally_host-IsTally :
      (o : Option Host)
      → ((h : Host) → o ≡ some h → h.hostname ≡ k)
      → contains names k ≡ false
      → IsTally t (k ∷ names)
      → IsTally (tally_host o t) names
  unfolding tally_host
  tally_host-IsTally none named distinct i = record {
    unique = i.unique;
    bounded = i.bounded;
    fresh = λ name x e. ground (arith, i.fresh name x e);
  }
  tally_host-IsTally (some h) named distinct i =
      let own = cluster_name h.cluster in
      let held = or_empty (Dict.get t.0 own) in
      let unseen : contains held h.hostname ≡ false =
        rw (named h refl) (ground (arith, i.fresh own k, eq_self k)) in
      let put_at = get-put t.0 own (add held h.hostname) in
      record {
        unique = put-IsDict t.0 own (add held h.hostname) i.unique;
        bounded = λ name.
            rw (count-tally_host (some h) t name, put_at name)
              (ground (
                arith,
                i.bounded name,
                length-add_new held h.hostname unseen,
                same_text_iff own name,
              ));
        fresh = λ name x e. elim (Bool-cases (own == name)) [
          | inl here ↦
              let joined = rw (put_at name, here) at e in
              let told = rw (contains-add held h.hostname x) at joined in
              elim (Bool-cases (h.hostname == x)) [
                | inl new ↦
                    subst (λ z. contains names z ≡ false)
                      (sym (named h refl) ∙ (same_text_iff h.hostname x).0 new) distinct
                | inr old ↦ ground (arith, i.fresh own x, told, old)
              ]
          | inr there ↦
              let kept = rw (put_at name, there) at e in ground (arith, i.fresh name x kept)
        ];
      }

tally_hosts-IsTally :
    (hosts : Dict Text Host) (names : List Text) {t : Tally}
    → IsNamed hosts
    → IsDistinct names
    → IsTally t names
    → IsTally (tally_hosts hosts names t) []
unfolding tally_hosts
tally_hosts-IsTally hosts [] n d i = i
tally_hosts-IsTally hosts (k ∷ names) n d i =
    tally_hosts-IsTally hosts names n d.1
      (tally_host-IsTally k names (Dict.get hosts k) (λ h e. get-IsNamed hosts k h n e) d.0 i)

length-insert_sorted : (x : Text) (ys : List Text) → length (insert_sorted x ys) ≡ suc (length ys)
length-insert_sorted x [] = refl
length-insert_sorted x (y ∷ ys) = ground (arith, length-insert_sorted x ys)

length-sorted : (xs : List Text) → length (sorted xs) ≡ length xs
length-sorted [] = refl
length-sorted (x ∷ xs) = rw (length-insert_sorted x (sorted xs)) (omega (arith, length-sorted xs))

-- The clusters, entry by entry.
make_clusters-All :
    (P : Text → ℕ → ℕ → Type 0) (d : Dict Text (List Text)) (counts : Dict Text ℕ)
    → Dict.IsDict d
    → ((name : Text) (xs : List Text)
        → Dict.get d name ≡ some xs
        → P name (count_of (Dict.get counts name)) (length xs))
    → All (λ c. P c.name c.connected_hosts c.total_hosts) (values (make_clusters d counts))
unfolding make_clusters
make_clusters-All P [] counts u p = tt
make_clusters-All P ((name, xs) ∷ d) counts u p = (
  rw (length-sorted xs) (p name xs (unfold Dict.get in rw (eq_self name) refl)),
  make_clusters-All P d counts u.1 (λ other ys e. p other ys (later other ys e)),
)
  where
    later :
        (other : Text) (ys : List Text)
        → Dict.get d other ≡ some ys
        → Dict.get ((name, xs) ∷ d) other ≡ some ys
    later other ys e = unfold Dict.get in ground (arith, u.0, same_text_iff name other, e)

empty-IsTally : (names : List Text) → IsTally ([], []) names
unfolding Dict.get
empty-IsTally names = record {
  unique = tt;
  bounded = λ name. omega arith;
  fresh = λ name x e. ground arith;
}

counted_below :
    (n : Option ℕ) (o : Option (List Text)) (xs : List Text)
    → o ≡ some xs
    → count_of n ≤ length (or_empty o)
    → count_of n ≤ length xs
counted_below n none xs e h = cc
counted_below n (some ys) xs e h = ground arith

-- A cluster's counts, against the table of hosts and the configured names.
abbrev pub IsCounted : Dict Text Host → List Text → Text → ℕ → ℕ → Type 0
IsCounted hosts configured name connected total =
    (connected ≡ connected_among hosts name configured) × (connected ≤ total)

-- Where the configured names are distinct and each host stands under its own name, each cluster
-- counts the configured hosts that are connected and in it, which are no more than its hosts.
pub rebuild_clusters-IsCounted :
    (configured : List Text) (s : Inventory)
    → IsDistinct configured
    → IsNamed s.hosts
    → All
        (λ c. IsCounted s.hosts configured c.name c.connected_hosts c.total_hosts)
        (values (rebuild_clusters configured s).clusters)
unfolding rebuild_clusters
rebuild_clusters-IsCounted configured s d n =
    let t = tally_hosts s.hosts configured ([], []) in
    let j = tally_hosts-IsTally s.hosts configured n d (empty-IsTally configured) in
    make_clusters-All (IsCounted s.hosts configured) t.0 t.1 j.unique (λ name xs e. (
      rw (count-tally_hosts s.hosts configured ([], []) name, get-nil {V = ℕ} name) (omega arith),
      counted_below (Dict.get t.1 name) (Dict.get t.0 name) xs e (j.bounded name),
    ))
