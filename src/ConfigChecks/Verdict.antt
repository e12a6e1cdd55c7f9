-- ===== src/ConfigChecks/Verdict.antt =====
-- When the checks of server/app/core/config_validation.py find an error.
use aether_v.ConfigChecks.Principal.{is_principal, last_part, upper, primary-upper}
use aether_v.ConfigChecks.{
  Settings, Environment, Issue, ConfigValidationResult, has_errors, warn_if, error_if, is_set,
  is_given, same_text, check_names, check_auth, check_cookies, check_hosts, legacy_fields,
  check_legacy, principal_of, check_principal, check_kerberos, check_all, run_config_checks,
  bad_principal,
}
use aether_v.Jobs.LineBuffer.{Text}
use aether_v.Prelude.{
  ◌≡◌, refl, ap, ◌∙◌, Bool, true, false, ◌&&◌, ◌||◌, not, Option, none, List, [], ◌∷◌, ◌++◌,
  if◌then◌else◌, eq_string, is_empty, arith, Bool-cases, inl, inr,
}

-- The settings of authentication are complete.
abbrev pub auth_is_complete : Settings → Bool
auth_is_complete s =
    if s.auth_enabled
    then is_set s.oidc_issuer_url && is_set s.oidc_client_id && is_set s.oidc_redirect_uri
    else s.allow_dev_auth

abbrev pub no_legacy : Environment → Bool
no_legacy e = not (is_set e.winrm_username || is_set e.winrm_password || is_set e.winrm_transport)

-- Kerberos credentials that are given in full are well formed.
abbrev pub kerberos_is_valid : Settings → Bool
kerberos_is_valid s =
    if is_given s.winrm_kerberos_principal && is_set s.winrm_keytab_b64
    then is_principal (principal_of s.winrm_kerberos_principal) && s.keytab_decodes
    else true

-- There is no error yet.
abbrev fine : ConfigValidationResult → Bool
fine r = is_empty r.errors

snoc-fine : (issues : List Issue) (i : Issue) → is_empty (issues ++ i ∷ []) ≡ false
snoc-fine [] i = refl
snoc-fine (j ∷ issues) i = refl

error_if-fine :
    (b : Bool) (i : Issue) (r : ConfigValidationResult) → fine (error_if b i r) ≡ (fine r && not b)
error_if-fine true i r = snoc-fine r.errors i ∙ ground arith
error_if-fine false i r = ground arith

warn_if-fine : (b : Bool) (i : Issue) (r : ConfigValidationResult) → fine (warn_if b i r) ≡ fine r
warn_if-fine true i r = refl
warn_if-fine false i r = refl

names-fine : (s : Settings) (r : ConfigValidationResult) → fine (check_names s r) ≡ fine r
names-fine s r = simp (warn_if-fine)

hosts-fine : (s : Settings) (r : ConfigValidationResult) → fine (check_hosts s r) ≡ fine r
hosts-fine s r = simp (warn_if-fine)

cookies-fine : (s : Settings) (r : ConfigValidationResult) → fine (check_cookies s r) ≡ fine r
cookies-fine s r = simp (warn_if-fine)

auth-fine :
    (s : Settings) (r : ConfigValidationResult)
    → fine (check_auth s r) ≡ (fine r && auth_is_complete s)
auth-fine s r = elim (Bool-cases s.auth_enabled) [
  | inl e ↦
      rw (e, warn_if-fine, warn_if-fine, error_if-fine, error_if-fine, error_if-fine) (ground arith)
  | inr e ↦ rw (e, error_if-fine) (ground arith)
]

legacy-fine :
    (e : Environment) (r : ConfigValidationResult)
    → fine (check_legacy e r) ≡ (fine r && no_legacy e)
legacy-fine e r = error_if-fine (not (is_empty (legacy_fields e))) _ r ∙ ground arith

same_text_refl : (t : Text) → same_text t t ≡ true
same_text_refl [] = refl
same_text_refl (c ∷ t) = ground (arith, same_text_refl t)

-- The realm of a principal that has the pattern is in upper case.
realm_lem :
    (principal : Text)
    → is_principal principal ≡ true
    → same_text (last_part principal) (upper (last_part principal)) ≡ true
unfolding is_principal
realm_lem principal e = rw (primary-upper false principal e) (same_text_refl (last_part principal))

-- The warning that a realm is not in upper case is never given: a principal with such a realm does not
-- match the pattern, and is an error.
pub realm_warning_lem :
    (principal : Text) (r : ConfigValidationResult)
    → check_principal principal r
      ≡ error_if (not (is_principal principal)) (bad_principal principal) r
realm_warning_lem principal r = elim (Bool-cases (is_principal principal)) [
  | inl e ↦ rw (e, realm_lem principal e) refl
  | inr e ↦ rw e refl
]

kerberos-fine :
    (s : Settings) (r : ConfigValidationResult)
    → fine (check_kerberos s r) ≡ (fine r && kerberos_is_valid s)
kerberos-fine s r = elim (Bool-cases (is_given s.winrm_kerberos_principal)) [
  | inl p ↦ rw p (elim (Bool-cases (is_set s.winrm_keytab_b64)) [
    | inl k ↦ rw (k, error_if-fine, realm_warning_lem, error_if-fine) (ground arith)
    | inr k ↦ rw k (ground arith)
  ])
  | inr p ↦ rw p (elim (Bool-cases (is_set s.winrm_keytab_b64)) [
    | inl k ↦ rw k (ground arith)
    | inr k ↦ rw k (ground arith)
  ])
]

regroup : (a b c : Bool) → (a && b) && c ≡ (a && b && c)
regroup true b c = refl
regroup false b c = refl

all-fine :
    (s : Settings) (e : Environment)
    → fine (check_all s e) ≡ (auth_is_complete s && no_legacy e && kerberos_is_valid s)
unfolding check_all
all-fine s e =
    let r0 : ConfigValidationResult = record { errors = []; warnings = [] } in
    let r1 = check_names s r0 in
    let r2 = check_auth s r1 in
    let r3 = check_cookies s r2 in
    let r4 = check_hosts s r3 in
    let r5 = check_legacy e r4 in
    kerberos-fine s r5
    ∙ ap (λ b. b && kerberos_is_valid s)
        (legacy-fine e r4
          ∙ ap (λ b. b && no_legacy e)
              (hosts-fine s r3
                ∙ cookies-fine s r2
                ∙ auth-fine s r1
                ∙ ap (λ b. b && auth_is_complete s) (names-fine s r0)))
    ∙ regroup (auth_is_complete s) (no_legacy e) (kerberos_is_valid s)

-- Checks that are forced, or the first ones, find an error just if authentication is on without its
-- three OIDC settings or off without the development mode, a legacy WinRM variable is set, or Kerberos
-- credentials that are given in full have a principal that does not match the pattern or a keytab that
-- does not decode. Later checks that are not forced return the same result, whatever has changed.
pub checks_verdict :
    (s later : Settings) (e other : Environment) (cached : Option ConfigValidationResult)
    → let (r, kept) = run_config_checks true s e cached in
      (has_errors r ≡ not (auth_is_complete s && no_legacy e && kerberos_is_valid s))
      × (run_config_checks false s e none ≡ (r, kept))
      × (run_config_checks false later other kept ≡ (r, kept))
unfolding run_config_checks
checks_verdict s later e other cached = (ap not (all-fine s e), refl, refl)
