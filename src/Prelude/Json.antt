-- ===== src/Prelude/Json.antt =====
-- The values of JSON and of Python's `Dict[str, Any]`. An object keeps the order of its fields.
use Prim.Native.Nat.{ℕ}
use Prim.Native.String.{String}
use mathlib.Core.Path.{◌≡◌, refl}
use native.Mathlib.Omega.{arith}
use mathlib.Core.Bool.{Bool, true, false, not, ◌||◌}
use mathlib.Core.Option.{Option, none, some}
use aether_v.Prelude.Tests.{nat_eq, if◌then◌else◌}
use aether_v.Prelude.Equality.{◌==◌, eq_string}

mutual
  pub data Json : Type 0 where
    null : Json
    bool : Bool → Json
    int : Bool → ℕ → Json  -- whether it is negative, and its size
    float : ℕ → Json  -- by its 64 bits
    text : String → Json
    arr : Items → Json
    obj : Fields → Json

  pub data Items : Type 0 where
    nil : Items
    cons : Json → Items → Items

  pub data Fields : Type 0 where
    end : Fields
    field : String → Json → Fields → Fields

-- `bool(value)`; a float is false if it is 0.0 or -0.0
abbrev pub truthy : Json → Bool
truthy null = false
truthy (bool b) = b
truthy (int minus n) = not (nat_eq n 0)
truthy (float bits) = not (nat_eq bits 0 || nat_eq bits 0x8000000000000000)
truthy (text s) = not (s == "")
truthy (arr nil) = false
truthy (arr (cons x xs)) = true
truthy (obj end) = false
truthy (obj (field k v fs)) = true

-- d.get(k), on an object
unfoldable pub get_field : Fields → String → Option Json
get_field end k = none
get_field (field j v fs) k = if j == k then some v else get_field fs k

-- d[k] = v, on an object
unfoldable pub set_field : Fields → String → Json → Fields
set_field end k v = field k v end
set_field (field j w fs) k v = if j == k then field j v fs else field j w (set_field fs k v)

pub get_field-set_field :
    (fs : Fields) (k : String) (v : Json) (j : String)
    → get_field (set_field fs k v) j ≡ (if k == j then some v else get_field fs j)
unfolding get_field set_field
get_field-set_field end k v j = refl
get_field-set_field (field i w fs) k v j = ground (
  arith,
  eq_string.same_iff k j,
  eq_string.same_iff i k,
  eq_string.same_iff i j,
  get_field-set_field fs k v j,
)
