-- ===== src/Jobs/Service/Deployment/GuestFields.antt =====
-- The fields that a deployment sends to a guest, in server/app/services/job_service.py.
use aether_v.GuestConfig.{
  GuestConfigSpec, generate_guest_config, Config, add_static_ip, add_ansible, add_domain_join,
  has_content, put_if, of_text,
}
use aether_v.Jobs.Service.{Job}
use aether_v.Jobs.Service.Deployment.{OsFamily, family_name, Request, Surroundings, with_config}
use aether_v.Jobs.Service.Deployment.Stages.{init_fields}
use aether_v.Prelude.Dict
use aether_v.Prelude.Dict.{Dict}
use aether_v.Prelude.Json
use aether_v.Prelude.Json.{Json, Fields, text, field, end, set_field, get_field-set_field}
use aether_v.Prelude.{
  String, ◌≡◌, refl, Bool, true, false, Option, some, inl, inr, [], ◌∷◌, ◌==◌, if◌then◌else◌,
  eq_string, is_empty, All, ◌∙◌, Bool-cases,
}

-- Keys that do not overwrite the id.
abbrev pub AvoidsId : String × Json → Type 0
AvoidsId p = (p.0 == "vm_id") ≡ false

put-AvoidsId :
    (d : Config) (k : String) (v : Json)
    → (k == "vm_id") ≡ false
    → All AvoidsId d
    → All AvoidsId (Dict.put d k v)
unfolding Dict.put
put-AvoidsId [] k v e h = (e, tt)
put-AvoidsId ((j, w) ∷ d) k v e h = elim (Bool-cases (j == k)) [
  | inl here ↦ rw here h
  | inr there ↦ rw there (h.0, put-AvoidsId d k v e h.1)
]

put-filled : (d : Config) (k : String) (v : Json) → is_empty (Dict.put d k v) ≡ false
unfolding Dict.put
put-filled [] k v = refl
put-filled ((j, w) ∷ d) k v = elim (Bool-cases (j == k)) [
  | inl here ↦ rw here refl
  | inr there ↦ rw there refl
]

-- A configuration that is not empty and leaves the id alone.
abbrev pub IsSendable : Config → Type 0
IsSendable config = (is_empty config ≡ false) × All AvoidsId config

if-IsSendable :
    (b : Bool) (c d : Config) → IsSendable c → IsSendable d → IsSendable (if b then c else d)
if-IsSendable true c d p q = p
if-IsSendable false c d p q = q

put-IsSendable :
    (d : Config) (k : String) (v : Json)
    → (k == "vm_id") ≡ false
    → IsSendable d
    → IsSendable (Dict.put d k v)
put-IsSendable d k v e h = (put-filled d k v, put-AvoidsId d k v e h.1)

put_if-IsSendable :
    (o : Option String) (k : String) (c : Config)
    → (k == "vm_id") ≡ false
    → IsSendable c
    → IsSendable (put_if o k c)
put_if-IsSendable o k c e h =
    if-IsSendable (has_content o) (Dict.put c k (of_text o)) c (put-IsSendable c k (of_text o) e h)
      h

domain-IsSendable :
    (g : GuestConfigSpec) (c : Config) → IsSendable c → IsSendable (add_domain_join g c)
domain-IsSendable g c h =
    if-IsSendable (has_content g.guest_domain_join_target) _ c
      (put-IsSendable _ _ _ refl
        (put-IsSendable _ _ _ refl (put-IsSendable _ _ _ refl (put-IsSendable c _ _ refl h))))
      h

ansible-IsSendable :
    (g : GuestConfigSpec) (c : Config) → IsSendable c → IsSendable (add_ansible g c)
ansible-IsSendable g c h =
    if-IsSendable (has_content g.cnf_ansible_ssh_user) _ c
      (put-IsSendable _ _ _ refl (put-IsSendable c _ _ refl h)) h

static-IsSendable :
    (g : GuestConfigSpec) (c : Config) → IsSendable c → IsSendable (add_static_ip g c)
static-IsSendable g c h =
    if-IsSendable (has_content g.guest_v4_ip_addr) _ c
      (put_if-IsSendable g.guest_net_dns_suffix _ _ refl (
        put_if-IsSendable g.guest_v4_dns2 _ _ refl (
          put-IsSendable _ _ _ refl
            (put-IsSendable _ _ _ refl (put-IsSendable _ _ _ refl (put-IsSendable c _ _ refl h))))))
      h

pub generated-IsSendable : (g : GuestConfigSpec) → IsSendable (generate_guest_config (some g))
unfolding generate_guest_config
generated-IsSendable g =
    let c0 = Dict.put [] "guest_la_uid" (text g.guest_la_uid) in
    let c1 = Dict.put c0 "guest_la_pw" (text g.guest_la_pw) in
    let p1 = put-IsSendable c0 "guest_la_pw" (text g.guest_la_pw) refl (
      put-filled [] "guest_la_uid" (text g.guest_la_uid),
      put-AvoidsId [] "guest_la_uid" (text g.guest_la_uid) refl tt,
    ) in
    static-IsSendable g (add_ansible g (add_domain_join g c1))
      (ansible-IsSendable g (add_domain_join g c1) (domain-IsSendable g c1 p1))

-- The id is read back from the fields that go to a guest.
get-with_config :
    (config : Config) (fields : Fields)
    → All AvoidsId config
    → Json.get_field (with_config config fields) "vm_id" ≡ Json.get_field fields "vm_id"
get-with_config [] fields h = refl
get-with_config ((k, v) ∷ config) fields h =
    get-with_config config (set_field fields k v) h.1 ∙ get-field-set_field_other
  where
    get-field-set_field_other :
        Json.get_field (set_field fields k v) "vm_id" ≡ Json.get_field fields "vm_id"
    get-field-set_field_other = rw (get_field-set_field fields k v "vm_id", h.0) refl

pub get-set_id :
    (fields : Fields) (vm_id : String)
    → Json.get_field (set_field fields "vm_id" (text vm_id)) "vm_id" ≡ some (text vm_id)
get-set_id fields vm_id = get_field-set_field fields "vm_id" (text vm_id) "vm_id"

pub get-init_fields :
    (r : Request) (family : OsFamily) (vm_id : String) (config : Config) (env : Surroundings)
    (parent : Job)
    → All AvoidsId config
    → Json.get_field (init_fields env parent r family vm_id config) "vm_id" ≡ some (text vm_id)
get-init_fields r family vm_id config env parent h =
    let base = field "vm_id" (text vm_id) (field "vm_name" (text r.vm_name) end) in
    get_field-set_field (with_config config base) "os_family" (text (family_name family)) "vm_id"
    ∙ get-with_config config base h
    ∙ (unfold Json.get_field in refl)
