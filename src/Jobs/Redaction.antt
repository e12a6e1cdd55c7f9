-- ===== src/Jobs/Redaction.antt =====
-- `_redact_sensitive_parameters` of server/app/services/job_service.py: the parameters of a job as
-- the clients may see them. The copy is made of fresh values, as `copy.deepcopy` makes it.
use aether_v.Prelude.Json.{
  Json, Items, Fields, null, bool, int, float, text, arr, obj, nil, cons, end, field,
}
use aether_v.Prelude.{
  String, ◌≡◌, refl, ap, ◌⊎◌, Bool, true, false, ◌&&◌, ◌||◌, Option, none, some, ◌==◌,
  if◌then◌else◌, eq_string, arith, inl, inr, Bool-cases,
}

-- key in sensitive_fields
abbrev pub is_sensitive : String → Bool
is_sensitive key =
    key == "guest_la_pw" || key == "guest_domain_join_pw" || key == "cnf_ansible_ssh_key"

-- item is not None
abbrev pub is_present : Json → Bool
is_present null = false
is_present other = true

abbrev pub replacement : Json
replacement = text "••••••"

abbrev mutual
  pub redact : Json → Json
  redact (obj fields) = obj (redact_fields fields)
  redact (arr items) = arr (redact_items items)
  redact other = other

  redact_items : Items → Items
  redact_items nil = nil
  redact_items (cons element rest) = cons (redact element) (redact_items rest)

  pub redact_fields : Fields → Fields
  redact_fields end = end
  redact_fields (field key item rest) =
      field key (if is_sensitive key && is_present item then replacement else redact item)
        (redact_fields rest)

-- `parameters` is None or a dict.
unfoldable pub redact_sensitive_parameters : Option Fields → Fields
redact_sensitive_parameters none = end
redact_sensitive_parameters (some parameters) = redact_fields parameters

-- At no depth does a sensitive field hold anything but the replacement or None.
abbrev mutual
  pub IsClean : Json → Type 0
  IsClean (obj fields) = CleanFields fields
  IsClean (arr items) = CleanItems items
  IsClean other = Unit

  CleanItems : Items → Type 0
  CleanItems nil = Unit
  CleanItems (cons element rest) = IsClean element × CleanItems rest

  pub CleanFields : Fields → Type 0
  CleanFields end = Unit
  CleanFields (field key item rest) =
      (if is_sensitive key then (item ≡ null) ⊎ (item ≡ replacement) else IsClean item)
      × CleanFields rest

mutual
  redact-IsClean : (v : Json) → IsClean (redact v)
  redact-IsClean (obj fields) = redact_fields-Clean fields
  redact-IsClean (arr items) = redact_items-Clean items
  redact-IsClean null = tt
  redact-IsClean (bool b) = tt
  redact-IsClean (int m n) = tt
  redact-IsClean (float n) = tt
  redact-IsClean (text s) = tt

  redact_items-Clean : (items : Items) → CleanItems (redact_items items)
  redact_items-Clean nil = tt
  redact_items-Clean (cons element rest) = (redact-IsClean element, redact_items-Clean rest)

  redact_fields-Clean : (fields : Fields) → CleanFields (redact_fields fields)
  redact_fields-Clean end = tt
  redact_fields-Clean (field key item rest) = (
    elim (Bool-cases (is_sensitive key)) [
      | inl secret ↦ rw secret (secret_lem item)
      | inr plain ↦ rw plain (redact-IsClean item)
    ],
    redact_fields-Clean rest,
  )

  secret_lem :
      (item : Json)
      → ((if is_present item then replacement else redact item) ≡ null)
        ⊎ ((if is_present item then replacement else redact item) ≡ replacement)
  secret_lem null = inl refl
  secret_lem (obj fields) = inr refl
  secret_lem (arr items) = inr refl
  secret_lem (bool b) = inr refl
  secret_lem (int m n) = inr refl
  secret_lem (float n) = inr refl
  secret_lem (text s) = inr refl

-- Two values that differ in nothing but what sensitive fields hold.
mutual
  pub data Alike : Json → Json → Type 0 where
    same : (v : Json) → Alike v v
    arrays : (xs ys : Items) → AlikeItems xs ys → Alike (arr xs) (arr ys)
    objects : (fs gs : Fields) → AlikeFields fs gs → Alike (obj fs) (obj gs)

  pub data AlikeItems : Items → Items → Type 0 where
    no_items : AlikeItems nil nil
    elements :
        (v w : Json) (xs ys : Items)
        → Alike v w
        → AlikeItems xs ys
        → AlikeItems (cons v xs) (cons w ys)

  pub data AlikeFields : Fields → Fields → Type 0 where
    no_fields : AlikeFields end end
    secret :
        (key : String) (v w : Json) (fs gs : Fields)
        → is_sensitive key ≡ true
        → is_present v ≡ true
        → is_present w ≡ true
        → AlikeFields fs gs
        → AlikeFields (field key v fs) (field key w gs)
    plain :
        (key : String) (v w : Json) (fs gs : Fields)
        → Alike v w
        → AlikeFields fs gs
        → AlikeFields (field key v fs) (field key w gs)

present-same : (v w : Json) → Alike v w → is_present v ≡ is_present w
present-same v w (same u) = refl
present-same v w (arrays xs ys a) = refl
present-same v w (objects fs gs a) = refl

mutual
  redact-same : (v w : Json) → Alike v w → redact v ≡ redact w
  redact-same v w (same u) = refl
  redact-same v w (arrays xs ys a) = ap arr (redact_items-same xs ys a)
  redact-same v w (objects fs gs a) = ap obj (redact_fields-same fs gs a)

  redact_items-same : (xs ys : Items) → AlikeItems xs ys → redact_items xs ≡ redact_items ys
  redact_items-same xs ys no_items = refl
  redact_items-same xs ys (elements v w vs ws a b) =
      rw (redact-same v w a, redact_items-same vs ws b) refl

  redact_fields-same : (fs gs : Fields) → AlikeFields fs gs → redact_fields fs ≡ redact_fields gs
  redact_fields-same fs gs no_fields = refl
  redact_fields-same fs gs (secret k v w vs ws s p q b) =
      rw (s, p, q, redact_fields-same vs ws b) refl
  redact_fields-same fs gs (plain k v w vs ws a b) =
      rw (redact-same v w a, redact_fields-same vs ws b, present-same v w a) refl

mutual
  redact-Alike : (v : Json) → Alike v (redact v)
  redact-Alike (obj fields) = objects fields (redact_fields fields) (redact_fields-Alike fields)
  redact-Alike (arr items) = arrays items (redact_items items) (redact_items-Alike items)
  redact-Alike null = same null
  redact-Alike (bool b) = same (bool b)
  redact-Alike (int m n) = same (int m n)
  redact-Alike (float n) = same (float n)
  redact-Alike (text s) = same (text s)

  redact_items-Alike : (items : Items) → AlikeItems items (redact_items items)
  redact_items-Alike nil = no_items
  redact_items-Alike (cons v rest) =
      elements v (redact v) rest (redact_items rest) (redact-Alike v) (redact_items-Alike rest)

  redact_fields-Alike : (fields : Fields) → AlikeFields fields (redact_fields fields)
  redact_fields-Alike end = no_fields
  redact_fields-Alike (field key item rest) =
      elim (Bool-cases (is_sensitive key && is_present item)) [
        | inl hidden ↦ rw hidden (
            secret key item replacement rest (redact_fields rest) (ground (arith, hidden))
              (ground (arith, hidden)) refl (redact_fields-Alike rest))
        | inr shown ↦ rw shown (
            plain key item (redact item) rest (redact_fields rest) (redact-Alike item)
              (redact_fields-Alike rest))
      ]

-- The view of a job's parameters holds, at any depth, no value of a sensitive field but the
-- replacement and None, and differs from the parameters in nothing but what sensitive fields hold.
pub redaction_hides :
    (parameters : Fields)
    → let view = redact_sensitive_parameters (some parameters) in
      CleanFields view × AlikeFields parameters view
unfolding redact_sensitive_parameters
redaction_hides parameters = (redact_fields-Clean parameters, redact_fields-Alike parameters)

-- The view tells nothing of the secrets: parameters that differ in nothing but what sensitive fields
-- hold, at any depth, have the same view.
pub redaction_tells_nothing :
    (parameters others : Fields)
    → AlikeFields parameters others
    → redact_sensitive_parameters (some parameters) ≡ redact_sensitive_parameters (some others)
unfolding redact_sensitive_parameters
redaction_tells_nothing parameters others a = redact_fields-same parameters others a
