-- ===== src/Prelude/Dict.antt =====
-- Python's `dict`, in insertion order: a write to a key that is there keeps its place, and a new
-- key goes to the end.
use mathlib.Core.Path.{◌≡◌, refl}
use mathlib.Core.Bool.{Bool}
use mathlib.Core.Logic.{inl, inr}
use mathlib.Core.Option.{Option, none, some}
use mathlib.Core.List.{List, [], ◌∷◌, map}
use native.Mathlib.Omega.{arith}
use aether_v.Prelude.Tests.{if◌then◌else◌, is_some, Bool-cases}
use aether_v.Prelude.Equality.{Comparable, ◌==◌, eq_self}

abbrev pub Dict {ℓ κ} : Type ℓ → Type κ → Type (ℓ ⊔ κ)
Dict K V = List (K × V)

abbrev pub keys {ℓ κ} : {K : Type ℓ} {V : Type κ} → Dict K V → List K
keys d = map (λ p. p.0) d

abbrev pub values {ℓ κ} : {K : Type ℓ} {V : Type κ} → Dict K V → List V
values d = map (λ p. p.1) d

module _ {ℓ κ} {K : Type ℓ} {V : Type κ} ⦃c : Comparable K⦄ where
  -- d.get(k)
  unfoldable pub get : Dict K V → K → Option V
  get [] k = none
  get ((j, v) ∷ d) k = if j == k then some v else get d k

  -- d[k] = v
  unfoldable pub put : Dict K V → K → V → Dict K V
  put [] k v = (k, v) ∷ []
  put ((j, w) ∷ d) k v = if j == k then (j, v) ∷ d else (j, w) ∷ put d k v

  -- d.pop(k, None), del d[k]
  unfoldable pub remove : Dict K V → K → Dict K V
  remove [] k = []
  remove ((j, w) ∷ d) k = let rest = remove d k in if j == k then rest else (j, w) ∷ rest

  -- k in d
  abbrev pub has : Dict K V → K → Bool
  has d k = is_some (get d k)

  pub get-put :
      (d : Dict K V) (k : K) (v : V) (j : K)
      → get (put d k v) j ≡ (if k == j then some v else get d j)
  unfolding get put
  get-put [] k v j = refl
  get-put ((i, w) ∷ d) k v j =
      ground (arith, c.same_iff k j, c.same_iff i k, c.same_iff i j, get-put d k v j)

  pub get-put_self : (d : Dict K V) (k : K) (v : V) → get (put d k v) k ≡ some v
  get-put_self d k v = rw (get-put d k v k, eq_self k) refl

  pub get-remove :
      (d : Dict K V) (k j : K) → get (remove d k) j ≡ (if k == j then none else get d j)
  unfolding get remove
  get-remove [] k j = ground arith
  get-remove ((i, w) ∷ d) k j =
      ground (arith, c.same_iff k j, c.same_iff i k, c.same_iff i j, get-remove d k j)

  -- No key stands twice.
  abbrev pub IsDict : Dict K V → Type (ℓ ⊔ κ)
  IsDict [] = Unit
  IsDict ((j, v) ∷ d) = (get d j ≡ none) × IsDict d

  pub put-IsDict : (d : Dict K V) (k : K) (v : V) → IsDict d → IsDict (put d k v)
  unfolding put
  put-IsDict [] k v h = unfold get in (refl, tt)
  put-IsDict ((j, w) ∷ d) k v h = elim (Bool-cases (j == k)) [
    | inl here ↦ rw here h
    | inr there ↦
        rw there
          (ground (arith, get-put d k v j, c.same_iff k j, c.same_iff j k), put-IsDict d k v h.1)
  ]

  pub remove-IsDict : (d : Dict K V) (k : K) → IsDict d → IsDict (remove d k)
  unfolding remove
  remove-IsDict [] k h = tt
  remove-IsDict ((j, w) ∷ d) k h = elim (Bool-cases (j == k)) [
    | inl here ↦ rw here (remove-IsDict d k h.1)
    | inr there ↦ rw there (ground (arith, get-remove d k j), remove-IsDict d k h.1)
  ]

pub get-nil {ℓ κ} : {K : Type ℓ} {V : Type κ} ⦃c : Comparable K⦄ (k : K) → get {V = V} [] k ≡ none
unfolding get
get-nil k = refl

pub ruleset dict_laws = (get-nil, get-put, get-remove)
