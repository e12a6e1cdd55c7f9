-- ===== src/Examples/ConfigRuns.antt =====
-- The checks of server/app/core/config_validation.py on one configuration.
use aether_v.ConfigChecks.Principal.{is_principal}
use aether_v.ConfigChecks.{
  Settings, Environment, has_errors, error_if, bad_principal, check_principal, run_config_checks,
  check_all,
}
use aether_v.ConfigChecks.Verdict.{
  auth_is_complete, no_legacy, kerberos_is_valid, checks_verdict, realm_warning_lem,
}
use aether_v.Jobs.Service.Texts.{codes, strip}
use aether_v.Prelude.{◌≡◌, refl, true, false, not, ◌&&◌, some, none, [], ◌∷◌}

abbrev settings : Settings
settings = record {
  provided_fields = "auth_enabled" ∷ [];
  environment_name = codes "test";
  allow_dev_auth = false;
  auth_enabled = true;
  oidc_issuer_url = some "https://issuer";
  oidc_client_id = some "client";
  oidc_redirect_uri = some "";
  oidc_force_https = true;
  cookie_secure = true;
  cookie_samesite = some (codes " Lax");
  session_secret_key = none;
  agent_download_base_url = none;
  hyperv_hosts = "host1" ∷ [];
  winrm_kerberos_principal = some (codes "HTTP/server@EXAMPLE.COM");
  winrm_keytab_b64 = some "AAAA";
  keytab_decodes = true;
}

abbrev environment : Environment
environment = record { winrm_username = none; winrm_password = some ""; winrm_transport = none }

program : Unit {0}
unfolding run_config_checks check_all is_principal strip
program = tt

-- The redirect URI is empty.
has_error : has_errors (run_config_checks true settings environment none).0 ≡ true
unfolding program
has_error = refl

well_formed : is_principal (codes "HTTP/server@EXAMPLE.COM") ≡ true
unfolding program
well_formed = refl

lower_realm : is_principal (codes "user@example.com") ≡ false
unfolding program
lower_realm = refl

checks_verdict_example :
    let (r, kept) = run_config_checks true settings environment none in
    (has_errors r
      ≡ not (auth_is_complete settings && no_legacy environment && kerberos_is_valid settings))
    × (run_config_checks false settings environment none ≡ (r, kept))
    × (run_config_checks false settings environment kept ≡ (r, kept))
checks_verdict_example = checks_verdict settings settings environment environment none

realm_warning_example :
    check_principal (codes "user@EXAMPLE.COM") (record { errors = []; warnings = [] })
    ≡ error_if
        (not (is_principal (codes "user@EXAMPLE.COM")))
        (bad_principal (codes "user@EXAMPLE.COM"))
        (record { errors = []; warnings = [] })
realm_warning_example =
    realm_warning_lem (codes "user@EXAMPLE.COM") (record { errors = []; warnings = [] })
