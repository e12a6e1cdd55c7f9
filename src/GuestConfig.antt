-- ===== src/GuestConfig.antt =====
-- The guest configuration: `GuestConfigSpec` of server/app/core/pydantic_models.py and
-- server/app/core/guest_config_generator.py. What the generator takes of the other specifications
-- serves its log only.
pub mod Sets
use aether_v.Prelude.Dict
use aether_v.Prelude.Dict.{Dict}
use aether_v.Prelude.Json.{Json, null, int, text}
use aether_v.Prelude.{
  ℕ, String, Bool, true, false, ◌&&◌, ◌||◌, not, Option, none, some, List, [], ◌∷◌, ◌==◌,
  if◌then◌else◌, eq_string, length, filter, is_empty, nat_eq,
}

-- An `int` is whether it is negative, and its size.
pub record GuestConfigSpec : Type 0 where
  pub guest_la_uid : String
  pub guest_la_pw : String
  pub guest_domain_join_target : Option String
  pub guest_domain_join_uid : Option String
  pub guest_domain_join_pw : Option String
  pub guest_domain_join_ou : Option String
  pub cnf_ansible_ssh_user : Option String
  pub cnf_ansible_ssh_key : Option String
  pub guest_v4_ip_addr : Option String
  pub guest_v4_cidr_prefix : Option (Bool × ℕ)
  pub guest_v4_default_gw : Option String
  pub guest_v4_dns1 : Option String
  pub guest_v4_dns2 : Option String
  pub guest_net_dns_suffix : Option String

-- The value in the dictionary.
abbrev pub of_text : Option String → Json
of_text none = null
of_text (some s) = text s

abbrev pub of_int : Option (Bool × ℕ) → Json
of_int none = null
of_int (some (minus, n)) = int minus n

-- f is not None and f != ""
abbrev pub is_provided : Json → Bool
is_provided null = false
is_provided (text s) = not (s == "")
is_provided other = true

-- All of the fields are provided, or none is.
abbrev pub all_or_none : List Json → Bool
all_or_none fields =
    let provided = filter is_provided fields in
    is_empty provided || nat_eq (length provided) (length fields)

abbrev pub domain_fields : GuestConfigSpec → List Json
domain_fields g =
    of_text g.guest_domain_join_target
    ∷ of_text g.guest_domain_join_uid
    ∷ of_text g.guest_domain_join_pw
    ∷ of_text g.guest_domain_join_ou
    ∷ []

abbrev pub ansible_fields : GuestConfigSpec → List Json
ansible_fields g = of_text g.cnf_ansible_ssh_user ∷ of_text g.cnf_ansible_ssh_key ∷ []

abbrev pub static_ip_required : GuestConfigSpec → List Json
static_ip_required g =
    of_text g.guest_v4_ip_addr
    ∷ of_int g.guest_v4_cidr_prefix
    ∷ of_text g.guest_v4_default_gw
    ∷ of_text g.guest_v4_dns1
    ∷ []

pub data Invalid : Type 0 where
  domain_join : Invalid
  ansible : Invalid
  static_ip : Invalid

-- The error that the validator raises, if it does.
unfoldable pub validate_parameter_sets : GuestConfigSpec → Option Invalid
validate_parameter_sets g =
    if not (all_or_none (domain_fields g))
    then some domain_join
    else if not (all_or_none (ansible_fields g))
    then some ansible
    else if not (all_or_none (static_ip_required g))
    then some static_ip
    else none

-- `if text:`
abbrev pub has_content : Option String → Bool
has_content none = false
has_content (some s) = not (s == "")

abbrev pub Config : Type 0
Config = Dict String Json

abbrev pub put_if : Option String → String → Config → Config
put_if value key config = if has_content value then Dict.put config key (of_text value) else config

abbrev pub add_domain_join : GuestConfigSpec → Config → Config
add_domain_join g config =
    if has_content g.guest_domain_join_target
    then Dict.put
        (Dict.put
          (Dict.put
            (Dict.put config "guest_domain_join_target" (of_text g.guest_domain_join_target))
            "guest_domain_join_uid" (of_text g.guest_domain_join_uid))
          "guest_domain_join_pw" (of_text g.guest_domain_join_pw))
        "guest_domain_join_ou" (of_text g.guest_domain_join_ou)
    else config

abbrev pub add_ansible : GuestConfigSpec → Config → Config
add_ansible g config =
    if has_content g.cnf_ansible_ssh_user
    then Dict.put (Dict.put config "cnf_ansible_ssh_user" (of_text g.cnf_ansible_ssh_user))
        "cnf_ansible_ssh_key" (of_text g.cnf_ansible_ssh_key)
    else config

abbrev pub add_static_ip : GuestConfigSpec → Config → Config
add_static_ip g config =
    if has_content g.guest_v4_ip_addr
    then put_if g.guest_net_dns_suffix "guest_net_dns_suffix" (
        put_if g.guest_v4_dns2 "guest_v4_dns2" (
          Dict.put
            (Dict.put
              (Dict.put (Dict.put config "guest_v4_ip_addr" (of_text g.guest_v4_ip_addr))
                "guest_v4_cidr_prefix" (of_int g.guest_v4_cidr_prefix))
              "guest_v4_default_gw" (of_text g.guest_v4_default_gw))
            "guest_v4_dns1" (of_text g.guest_v4_dns1)))
    else config

-- The configuration of a guest whose specification the validator let pass, or of none.
unfoldable pub generate_guest_config : Option GuestConfigSpec → Config
generate_guest_config none = []
generate_guest_config (some g) = add_static_ip g (
    add_ansible g (
      add_domain_join g (
        Dict.put (Dict.put [] "guest_la_uid" (text g.guest_la_uid)) "guest_la_pw"
          (text g.guest_la_pw))))
