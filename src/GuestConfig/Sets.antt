-- ===== src/GuestConfig/Sets.antt =====
-- What the generator of server/app/core/guest_config_generator.py makes of a specification that the
-- validator of server/app/core/pydantic_models.py let pass.
use aether_v.Prelude.Dict
use aether_v.Prelude.Json.{Json, text}
use aether_v.Prelude.{
  String, ◌≡◌, refl, true, false, Option, none, some, [], ◌∷◌, ◌++◌, if◌then◌else◌, eq_string,
  filter, arith, inl, inr, Bool-cases,
}
use aether_v.GuestConfig.{
  GuestConfigSpec, Config, of_text, of_int, is_provided, has_content, all_or_none, domain_fields,
  ansible_fields, static_ip_required, validate_parameter_sets, generate_guest_config,
}

abbrev pub provided_only : Config → Config
provided_only fields = filter (λ p. is_provided p.1) fields

-- The fields of the three sets under their names, and the two that go with a static address.
abbrev pub domain_named : GuestConfigSpec → Config
domain_named g =
    ("guest_domain_join_target", of_text g.guest_domain_join_target)
    ∷ ("guest_domain_join_uid", of_text g.guest_domain_join_uid)
    ∷ ("guest_domain_join_pw", of_text g.guest_domain_join_pw)
    ∷ ("guest_domain_join_ou", of_text g.guest_domain_join_ou)
    ∷ []

abbrev pub ansible_named : GuestConfigSpec → Config
ansible_named g =
    ("cnf_ansible_ssh_user", of_text g.cnf_ansible_ssh_user)
    ∷ ("cnf_ansible_ssh_key", of_text g.cnf_ansible_ssh_key)
    ∷ []

abbrev pub static_named : GuestConfigSpec → Config
static_named g =
    ("guest_v4_ip_addr", of_text g.guest_v4_ip_addr)
    ∷ ("guest_v4_cidr_prefix", of_int g.guest_v4_cidr_prefix)
    ∷ ("guest_v4_default_gw", of_text g.guest_v4_default_gw)
    ∷ ("guest_v4_dns1", of_text g.guest_v4_dns1)
    ∷ []

abbrev pub extra_named : GuestConfigSpec → Config
extra_named g =
    ("guest_v4_dns2", of_text g.guest_v4_dns2)
    ∷ ("guest_net_dns_suffix", of_text g.guest_net_dns_suffix)
    ∷ []

content_lem : (o : Option String) → has_content o ≡ is_provided (of_text o)
content_lem none = refl
content_lem (some s) = refl

some_of :
    (u v w x : Json)
    → is_provided u ≡ true
    → all_or_none (u ∷ v ∷ w ∷ x ∷ []) ≡ true
    → (is_provided v ≡ true) × (is_provided w ≡ true) × (is_provided x ≡ true)
some_of u v w x e h = let k = rw e at h in ground (arith, k)

none_of :
    (u v w x : Json)
    → is_provided u ≡ false
    → all_or_none (u ∷ v ∷ w ∷ x ∷ []) ≡ true
    → (is_provided v ≡ false) × (is_provided w ≡ false) × (is_provided x ≡ false)
none_of u v w x e h = let k = rw e at h in ground (arith, k)

four_lem :
    (u v w x : Json)
    → all_or_none (u ∷ v ∷ w ∷ x ∷ []) ≡ true
    → (is_provided v ≡ is_provided u)
      × (is_provided w ≡ is_provided u)
      × (is_provided x ≡ is_provided u)
four_lem u v w x h = elim (Bool-cases (is_provided u)) [
  | inl e ↦ rw e (some_of u v w x e h)
  | inr e ↦ rw e (none_of u v w x e h)
]

two_lem : (u v : Json) → all_or_none (u ∷ v ∷ []) ≡ true → is_provided v ≡ is_provided u
two_lem u v h = ground arith

valid_lem :
    (g : GuestConfigSpec)
    → validate_parameter_sets g ≡ none
    → (all_or_none (domain_fields g) ≡ true)
      × (all_or_none (ansible_fields g) ≡ true)
      × (all_or_none (static_ip_required g) ≡ true)
unfolding validate_parameter_sets
valid_lem g h = ground arith

-- A specification that the validator lets pass gives the guest just what it provides, in order:
-- the local administrator's two fields, of each of the three sets the fields that are provided,
-- and the second name server and the search suffix if they are provided and the static address is.
-- So nothing that is absent or empty is sent, and a set goes as a whole or not at all.
pub generated_exact :
    (g : GuestConfigSpec)
    → validate_parameter_sets g ≡ none
    → generate_guest_config (some g)
      ≡ ("guest_la_uid", text g.guest_la_uid)
          ∷ ("guest_la_pw", text g.guest_la_pw)
          ∷ provided_only (domain_named g)
        ++ provided_only (ansible_named g)
        ++ provided_only (static_named g)
        ++ (if is_provided (of_text g.guest_v4_ip_addr) then provided_only (extra_named g) else [])
unfolding generate_guest_config Dict.put
generated_exact g valid =
    let (dom, ans, static) = valid_lem g valid in
    let (d1, d2, d3) =
      four_lem (of_text g.guest_domain_join_target) (of_text g.guest_domain_join_uid)
        (of_text g.guest_domain_join_pw) (of_text g.guest_domain_join_ou) dom in
    let a1 = two_lem (of_text g.cnf_ansible_ssh_user) (of_text g.cnf_ansible_ssh_key) ans in
    let (s1, s2, s3) =
      four_lem (of_text g.guest_v4_ip_addr) (of_int g.guest_v4_cidr_prefix)
        (of_text g.guest_v4_default_gw) (of_text g.guest_v4_dns1) static in
    rw
      (
        content_lem g.guest_domain_join_target,
        content_lem g.cnf_ansible_ssh_user,
        content_lem g.guest_v4_ip_addr,
        content_lem g.guest_v4_dns2,
        content_lem g.guest_net_dns_suffix,
        d1,
        d2,
        d3,
        a1,
        s1,
        s2,
        s3,
      )
      (elim (Bool-cases (is_provided (of_text g.guest_domain_join_target))) [
        | inl d ↦ rw d (elim (Bool-cases (is_provided (of_text g.cnf_ansible_ssh_user))) [
          | inl a ↦ rw a (elim (Bool-cases (is_provided (of_text g.guest_v4_ip_addr))) [
            | inl x ↦ rw x (ground arith)
            | inr x ↦ rw x
          ])
          | inr a ↦ rw a (elim (Bool-cases (is_provided (of_text g.guest_v4_ip_addr))) [
            | inl x ↦ rw x (ground arith)
            | inr x ↦ rw x
          ])
        ])
        | inr d ↦ rw d (elim (Bool-cases (is_provided (of_text g.cnf_ansible_ssh_user))) [
          | inl a ↦ rw a (elim (Bool-cases (is_provided (of_text g.guest_v4_ip_addr))) [
            | inl x ↦ rw x (ground arith)
            | inr x ↦ rw x
          ])
          | inr a ↦ rw a (elim (Bool-cases (is_provided (of_text g.guest_v4_ip_addr))) [
            | inl x ↦ rw x (ground arith)
            | inr x ↦ rw x
          ])
        ])
      ])
