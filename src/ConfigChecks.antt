-- ===== src/ConfigChecks.antt =====
-- The start-up checks of server/app/core/config_validation.py. An issue stands for its message and its
-- hint. The settings are those that the checks read; `agent_download_base_url` and `hyperv_hosts` are
-- what the settings' methods return, and `keytab_decodes` is whether `get_keytab_bytes` returns bytes.
pub mod Principal
pub mod Verdict
use aether_v.ConfigChecks.Principal.{is_principal, last_part, upper}
use aether_v.Jobs.LineBuffer.{Text}
use aether_v.Jobs.Service.Texts.{codes, strip, lower}
use aether_v.Prelude.{
  ℕ, String, Bool, true, false, ◌&&◌, ◌||◌, not, Option, none, some, List, [], ◌∷◌, ◌++◌, ◌==◌,
  if◌then◌else◌, eq_string, any, is_empty, nat_eq, same_text,
}

pub record Settings : Type 0 where
  pub provided_fields : List String
  pub environment_name : Text
  pub allow_dev_auth : Bool
  pub auth_enabled : Bool
  pub oidc_issuer_url : Option String
  pub oidc_client_id : Option String
  pub oidc_redirect_uri : Option String
  pub oidc_force_https : Bool
  pub cookie_secure : Bool
  pub cookie_samesite : Option Text
  pub session_secret_key : Option String
  pub agent_download_base_url : Option String
  pub hyperv_hosts : List String
  pub winrm_kerberos_principal : Option Text
  pub winrm_keytab_b64 : Option String
  pub keytab_decodes : Bool

-- The variables of the environment that the checks read.
pub record Environment : Type 0 where
  pub winrm_username : Option String
  pub winrm_password : Option String
  pub winrm_transport : Option String

pub data Issue : Type 0 where
  no_environment_name : Issue
  auth_mode_not_given : Issue
  dev_auth_allowed : Issue
  issuer_required : Issue
  client_id_required : Issue
  redirect_required : Issue
  https_not_forced : Issue
  cookie_not_secure : Issue
  auth_disabled_without_dev_auth : Issue
  no_session_secret : Issue
  same_site_unsupported : Issue
  same_site_none_not_secure : Issue
  no_agent_url : Issue
  no_hosts : Issue
  legacy_winrm : (fields : List String) → Issue
  no_keytab : Issue
  no_principal : Issue
  no_kerberos : Issue
  bad_principal : (principal : Text) → Issue
  realm_not_upper : (realm : Text) → Issue
  bad_keytab : Issue

pub record ConfigValidationResult : Type 0 where
  pub errors : List Issue
  pub warnings : List Issue

abbrev pub has_errors : ConfigValidationResult → Bool
has_errors r = not (is_empty r.errors)

abbrev pub warn_if : Bool → Issue → ConfigValidationResult → ConfigValidationResult
warn_if b issue r = if b then record r { warnings = r.warnings ++ issue ∷ [] } else r

abbrev pub error_if : Bool → Issue → ConfigValidationResult → ConfigValidationResult
error_if b issue r = if b then record r { errors = r.errors ++ issue ∷ [] } else r

abbrev pub is_set : Option String → Bool
is_set none = false
is_set (some s) = not (s == "")

abbrev pub is_given : Option Text → Bool
is_given none = false
is_given (some t) = not (is_empty t)

abbrev field_was_provided : Settings → String → Bool
field_was_provided s name = any (λ f. f == name) s.provided_fields

abbrev pub check_names : Settings → ConfigValidationResult → ConfigValidationResult
check_names s r = warn_if s.allow_dev_auth dev_auth_allowed (
    warn_if (not (field_was_provided s "auth_enabled")) auth_mode_not_given (
      warn_if (not (field_was_provided s "environment_name") || is_empty (strip s.environment_name))
        no_environment_name r))

abbrev pub check_auth : Settings → ConfigValidationResult → ConfigValidationResult
check_auth s r =
    if s.auth_enabled
    then warn_if (not s.cookie_secure) cookie_not_secure (
        warn_if (not s.oidc_force_https) https_not_forced (
          error_if (not (is_set s.oidc_redirect_uri)) redirect_required (
            error_if (not (is_set s.oidc_client_id)) client_id_required
              (error_if (not (is_set s.oidc_issuer_url)) issuer_required r))))
    else error_if (not s.allow_dev_auth) auth_disabled_without_dev_auth r

abbrev same_site_of : Option Text → Text
same_site_of none = []
same_site_of (some t) = lower (strip t)

abbrev pub check_cookies : Settings → ConfigValidationResult → ConfigValidationResult
check_cookies s r =
    let value = same_site_of s.cookie_samesite in
    warn_if (same_text value (codes "none") && not s.cookie_secure) same_site_none_not_secure (
      warn_if
        (not (is_empty value)
          && not (
              same_text value (codes "lax")
              || same_text value (codes "strict")
              || same_text value (codes "none")))
        same_site_unsupported (warn_if (not (is_set s.session_secret_key)) no_session_secret r))

abbrev pub check_hosts : Settings → ConfigValidationResult → ConfigValidationResult
check_hosts s r =
    warn_if (is_empty s.hyperv_hosts) no_hosts
      (warn_if (not (is_set s.agent_download_base_url)) no_agent_url r)

abbrev named_if : Option String → String → List String
named_if variable name = if is_set variable then name ∷ [] else []

abbrev pub legacy_fields : Environment → List String
legacy_fields e =
    named_if e.winrm_username "WINRM_USERNAME"
    ++ named_if e.winrm_password "WINRM_PASSWORD"
    ++ named_if e.winrm_transport "WINRM_TRANSPORT"

abbrev pub check_legacy : Environment → ConfigValidationResult → ConfigValidationResult
check_legacy e r =
    let fields = legacy_fields e in error_if (not (is_empty fields)) (legacy_winrm fields) r

abbrev pub principal_of : Option Text → Text
principal_of none = []
principal_of (some t) = t

abbrev pub check_principal : Text → ConfigValidationResult → ConfigValidationResult
check_principal principal r =
    let realm = last_part principal in
    if not (is_principal principal)
    then error_if true (bad_principal principal) r
    else warn_if (not (same_text realm (upper realm))) (realm_not_upper realm) r

abbrev pub check_kerberos : Settings → ConfigValidationResult → ConfigValidationResult
check_kerberos s r =
    let principal = is_given s.winrm_kerberos_principal in
    let keytab = is_set s.winrm_keytab_b64 in
    if principal && not keytab
    then warn_if true no_keytab r
    else if keytab && not principal
    then warn_if true no_principal r
    else if not principal && not keytab
    then warn_if true no_kerberos r
    else error_if (not s.keytab_decodes) bad_keytab
        (check_principal (principal_of s.winrm_kerberos_principal) r)

-- The checks, where no result is cached.
unfoldable pub check_all : Settings → Environment → ConfigValidationResult
unfolding strip is_principal
check_all s e = check_kerberos s (
    check_legacy e (
      check_hosts s
        (check_cookies s (check_auth s (check_names s (record { errors = []; warnings = [] }))))))

-- run_config_checks: the result, and what is cached then
unfoldable pub run_config_checks :
    Bool
    → Settings
    → Environment
    → Option ConfigValidationResult
    → ConfigValidationResult × Option ConfigValidationResult
unfolding check_all
run_config_checks true s e cached = let r = check_all s e in (r, some r)
run_config_checks false s e none = let r = check_all s e in (r, some r)
run_config_checks false s e (some r) = (r, some r)
