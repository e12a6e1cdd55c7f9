-- ===== src/Notifications/Valid.antt =====
-- What holds of the tables of server/app/services/notification_service.py between two calls.
use aether_v.Prelude.Dict
use aether_v.Prelude.Dict.{Dict, values}
use aether_v.Prelude.{
  ℕ, ◌+◌, String, ◌≡◌, refl, Bool, true, none, some, [], ◌∷◌, ◌==◌, if◌then◌else◌, arith, inl, inr,
  Bool-cases, eq_string, eq_iff,
}
use aether_v.Notifications.{Notification, find}

-- Every notification stands under its own id, and no id stands twice.
abbrev pub IsTable : Dict String Notification → Type 0
IsTable [] = Unit
IsTable ((k, n) ∷ d) = (n.id ≡ k) × (Dict.get d k ≡ none) × IsTable d

-- How many of the notifications have the property.
abbrev pub count : (Notification → Bool) → Dict String Notification → ℕ
count p [] = 0
count p ((k, n) ∷ d) = if p n then 1 + count p d else count p d

pub put-IsTable :
    (d : Dict String Notification) (n : Notification) → IsTable d → IsTable (Dict.put d n.id n)
unfolding Dict.put
put-IsTable [] n h = unfold Dict.get in (refl, refl, tt)
put-IsTable ((k, m) ∷ d) n h = elim (Bool-cases (k == n.id)) [
  | inl same ↦ rw same (ground (arith, eq_iff k n.id), h.1, h.2)
  | inr other ↦ rw other (
    h.0,
    ground (arith, Dict.get-put d n.id n k, eq_iff n.id k, eq_iff k n.id),
    put-IsTable d n h.2,
  )
]

pub remove-IsTable :
    (d : Dict String Notification) (id : String) → IsTable d → IsTable (Dict.remove d id)
unfolding Dict.remove
remove-IsTable [] id h = tt
remove-IsTable ((k, m) ∷ d) id h = elim (Bool-cases (k == id)) [
  | inl same ↦ rw same (remove-IsTable d id h.2)
  | inr other ↦ rw other (h.0, ground (arith, Dict.get-remove d id k), remove-IsTable d id h.2)
]

pub get-IsTable :
    (d : Dict String Notification) (id : String) (n : Notification)
    → IsTable d
    → Dict.get d id ≡ some n
    → n.id ≡ id
unfolding Dict.get
get-IsTable [] id n h e = cc
get-IsTable ((k, m) ∷ d) id n h e = ground (arith, eq_iff k id, get-IsTable d id n h.2)

-- A table counts a new notification once more, and an update by what it changes.
pub count-put_new :
    (p : Notification → Bool) (d : Dict String Notification) (k : String) (n : Notification)
    → Dict.get d k ≡ none
    → count p (Dict.put d k n) ≡ count p d + count p ((k, n) ∷ [])
unfolding Dict.put Dict.get
count-put_new p [] k n e = ground arith
count-put_new p ((j, m) ∷ d) k n e = ground (arith, count-put_new p d k n)

pub count-put_old :
    (p : Notification → Bool) (d : Dict String Notification) (k : String) (n m : Notification)
    → Dict.get d k ≡ some m
    → count p (Dict.put d k n) + count p ((k, m) ∷ []) ≡ count p d + count p ((k, n) ∷ [])
unfolding Dict.put Dict.get
count-put_old p [] k n m e = cc
count-put_old p ((j, l) ∷ d) k n m e = ground (arith, count-put_old p d k n m)

pub find-eq-some :
    (p : Notification → Bool) (d : Dict String Notification) (n : Notification)
    → find p d ≡ some n
    → IsTable d
    → (p n ≡ true) × (Dict.get d n.id ≡ some n)
unfolding Dict.get
find-eq-some p [] n e h = cc
find-eq-some p ((k, m) ∷ d) n e h =
    ground (arith, find-eq-some p d n, eq_iff k n.id, eq_iff n.id k, eq_iff m.id k)

pub find-eq-none :
    (p : Notification → Bool) (d : Dict String Notification) → find p d ≡ none → count p d ≡ 0
find-eq-none p [] e = refl
find-eq-none p ((k, m) ∷ d) e = ground (arith, find-eq-none p d)

pub find-put_new :
    (p : Notification → Bool) (d : Dict String Notification) (k : String) (n : Notification)
    → Dict.get d k ≡ none
    → find p d ≡ none
    → p n ≡ true
    → find p (Dict.put d k n) ≡ some n
unfolding Dict.put Dict.get
find-put_new p [] k n e f h = ground arith
find-put_new p ((j, m) ∷ d) k n e f h = ground (arith, find-put_new p d k n)

pub find-put_old :
    (p : Notification → Bool) (d : Dict String Notification) (m n : Notification)
    → find p d ≡ some m
    → IsTable d
    → p n ≡ true
    → find p (Dict.put d m.id n) ≡ some n
unfolding Dict.put
find-put_old p [] m n f h e = cc
find-put_old p ((k, l) ∷ d) m n f h e =
    ground (arith, find-put_old p d m n, find-eq-some p d m, eq_iff k m.id)
