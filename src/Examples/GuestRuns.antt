-- ===== src/Examples/GuestRuns.antt =====
-- The generator of server/app/core/guest_config_generator.py on one specification.
use aether_v.GuestConfig.{
  GuestConfigSpec, validate_parameter_sets, generate_guest_config, static_ip, of_text, is_provided,
}
use aether_v.GuestConfig.Sets.{
  provided_only, domain_named, ansible_named, static_named, extra_named, generated_exact,
}
use aether_v.Prelude.Json.{text}
use aether_v.Prelude.{◌≡◌, refl, false, some, none, [], ◌∷◌, ◌++◌, if◌then◌else◌}

abbrev with_address : GuestConfigSpec
with_address = record {
  guest_la_uid = "admin";
  guest_la_pw = "pw";
  guest_domain_join_target = none;
  guest_domain_join_uid = some "";
  guest_domain_join_pw = none;
  guest_domain_join_ou = none;
  cnf_ansible_ssh_user = some "ansible";
  cnf_ansible_ssh_key = some "key";
  guest_v4_ip_addr = some "10.0.0.2";
  guest_v4_cidr_prefix = some (false, 24);
  guest_v4_default_gw = some "10.0.0.1";
  guest_v4_dns1 = some "10.0.0.1";
  guest_v4_dns2 = none;
  guest_net_dns_suffix = some "example.org";
}

program : Unit {0}
unfolding validate_parameter_sets
program = tt

with_address_valid : validate_parameter_sets with_address ≡ none
unfolding program
with_address_valid = refl

generated_exact_example :
    generate_guest_config (some with_address)
    ≡ ("guest_la_uid", text with_address.guest_la_uid)
        ∷ ("guest_la_pw", text with_address.guest_la_pw)
        ∷ provided_only (domain_named with_address)
      ++ provided_only (ansible_named with_address)
      ++ provided_only (static_named with_address)
      ++ (if is_provided (of_text with_address.guest_v4_ip_addr)
          then provided_only (extra_named with_address)
          else [])
generated_exact_example = generated_exact with_address with_address_valid

-- A gateway alone is refused.
incomplete :
    validate_parameter_sets (record with_address { guest_v4_ip_addr = none }) ≡ some static_ip
unfolding program
incomplete = refl
