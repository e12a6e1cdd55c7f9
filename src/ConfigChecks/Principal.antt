-- ===== src/ConfigChecks/Principal.antt =====
-- The pattern of Kerberos principals in server/app/core/config_validation.py, `primary[/instance]@REALM`.
-- `$` also stands before a line feed that ends the text.
use aether_v.Jobs.LineBuffer.{Text}
use aether_v.Prelude.{
  ℕ, ◌-◌, map, ◌≡◌, refl, Bool, true, false, ◌&&◌, ◌||◌, [], ◌∷◌, if◌then◌else◌, leb, nat_eq,
  is_empty, arith,
}

-- [A-Z0-9._-]
abbrev pub is_realm_char : ℕ → Bool
is_realm_char c =
    (leb 65 c && leb c 90) || (leb 48 c && leb c 57) || nat_eq c 46 || nat_eq c 95 || nat_eq c 45

-- [a-zA-Z0-9._-]
abbrev pub is_name_char : ℕ → Bool
is_name_char c = is_realm_char c || (leb 97 c && leb c 122)

-- The rest of a realm; `seen` is whether it has a character yet.
abbrev pub match_realm : Bool → Text → Bool
match_realm seen [] = seen
match_realm seen (c ∷ s) =
    let rest = match_realm true s in
    if is_realm_char c then rest else nat_eq c 10 && is_empty s && seen

abbrev pub match_instance : Bool → Text → Bool
match_instance seen [] = false
match_instance seen (c ∷ s) =
    let rest = match_instance true s in
    if is_name_char c then rest else nat_eq c 64 && seen && match_realm false s

abbrev pub match_primary : Bool → Text → Bool
match_primary seen [] = false
match_primary seen (c ∷ s) =
    let rest = match_primary true s in
    if is_name_char c
    then rest
    else if nat_eq c 64
    then seen && match_realm false s
    else nat_eq c 47 && seen && match_instance false s

-- re.match(principal_pattern, principal)
unfoldable pub is_principal : Text → Bool
is_principal t = match_primary false t

abbrev pub is_at : ℕ → Bool
is_at c = nat_eq c 64

abbrev pub has_at : Text → Bool
has_at [] = false
has_at (c ∷ s) = is_at c || has_at s

-- principal.split('@')[-1]
abbrev pub last_part : Text → Text
last_part [] = []
last_part (c ∷ s) = let rest = last_part s in if is_at c || has_at s then rest else c ∷ s

-- s.upper(), where the letters are those of the pattern
abbrev pub upper : Text → Text
upper s = map (λ c. if leb 97 c && leb c 122 then c - 32 else c) s

realm-at : (seen : Bool) (s : Text) → match_realm seen s ≡ true → has_at s ≡ false
realm-at seen [] e = refl
realm-at seen (c ∷ []) e = ground (arith, e)
realm-at seen (c ∷ d ∷ s) e = ground (arith, e, realm-at true (d ∷ s))

realm-upper : (seen : Bool) (s : Text) → match_realm seen s ≡ true → upper s ≡ s
realm-upper seen [] e = refl
realm-upper seen (c ∷ []) e = ground (arith, e)
realm-upper seen (c ∷ d ∷ s) e = ground (arith, e, realm-upper true (d ∷ s))

no_at-last_part : (s : Text) → has_at s ≡ false → last_part s ≡ s
no_at-last_part [] e = refl
no_at-last_part (c ∷ s) e = ground (arith, e)

instance-at : (seen : Bool) (s : Text) → match_instance seen s ≡ true → has_at s ≡ true
instance-at seen [] e = ground (arith, e)
instance-at seen (c ∷ s) e = ground (arith, e, instance-at true s)

instance-upper :
    (seen : Bool) (s : Text) → match_instance seen s ≡ true → upper (last_part s) ≡ last_part s
instance-upper seen [] e = refl
instance-upper seen (c ∷ s) e = ground (
  arith,
  e,
  instance-upper true s,
  instance-at true s,
  realm-at false s,
  realm-upper false s,
  no_at-last_part s,
)

primary-at : (seen : Bool) (s : Text) → match_primary seen s ≡ true → has_at s ≡ true
primary-at seen [] e = ground (arith, e)
primary-at seen (c ∷ s) e = ground (arith, e, primary-at true s, instance-at false s)

pub primary-upper :
    (seen : Bool) (s : Text) → match_primary seen s ≡ true → upper (last_part s) ≡ last_part s
primary-upper seen [] e = refl
primary-upper seen (c ∷ s) e = ground (
  arith,
  e,
  primary-upper true s,
  primary-at true s,
  instance-upper false s,
  instance-at false s,
  realm-at false s,
  realm-upper false s,
  no_at-last_part s,
)
