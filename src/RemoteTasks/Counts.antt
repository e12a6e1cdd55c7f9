-- ===== src/RemoteTasks/Counts.antt =====
-- How many tasks of server/app/services/remote_task_service.py are where, and of which kind.
use aether_v.Prelude.{
  ℕ, zero, suc, ◌+◌, ◌≤◌, String, ◌≡◌, Bool, true, false, ◌&&◌, Option, none, some, ◌>>=◌, List, [],
  ◌∷◌, ◌++◌, ◌==◌, eq_string, length, All, subst, arith, Option-cases, inl, inr,
}
use aether_v.RemoteTasks.{Category, io, short, RemoteTask, take_at}

abbrev pub is_io : Category → Bool
is_io io = true
is_io short = false

abbrev pub bit : Bool → ℕ
bit true = 1
bit false = 0

abbrev pub count : (RemoteTask → Bool) → List RemoteTask → ℕ
count p [] = 0
count p (t ∷ ts) = bit (p t) + count p ts

-- An IO task of the host.
abbrev pub is_io_of : String → RemoteTask → Bool
is_io_of h t = is_io t.category && t.host_key == h

abbrev pub is_io_task : RemoteTask → Bool
is_io_task t = is_io t.category

pub count-snoc :
    (p : RemoteTask → Bool) (ts : List RemoteTask) (t : RemoteTask)
    → count p (ts ++ t ∷ []) ≡ count p ts + bit (p t)
count-snoc p [] t = omega arith
count-snoc p (x ∷ ts) t = omega (arith, count-snoc p ts t)

pub count-bounded : (p : RemoteTask → Bool) (ts : List RemoteTask) → count p ts ≤ length ts
count-bounded p [] = ground arith
count-bounded p (t ∷ ts) = ground (arith, count-bounded p ts)

pub take_at-count :
    (p : RemoteTask → Bool) (n : ℕ) (ts rest : List RemoteTask) (t : RemoteTask)
    → take_at n ts ≡ some (t, rest)
    → count p ts ≡ bit (p t) + count p rest
take_at-count p n [] rest t e = ground (arith, e)
take_at-count p zero (x ∷ ts) rest t e = ground (arith, e)
take_at-count p (suc n) (x ∷ ts) rest t e = elim (Option-cases (take_at n ts)) [
  | inl absent ↦ let k = rw absent at e in ground (arith, k)
  | inr ((y, others), found) ↦
      let k = rw found at e in ground (arith, k, take_at-count p n ts others y found)
]

pub take_at-length :
    (n : ℕ) (ts rest : List RemoteTask) (t : RemoteTask)
    → take_at n ts ≡ some (t, rest)
    → length ts ≡ suc (length rest)
take_at-length n [] rest t e = ground (arith, e)
take_at-length zero (x ∷ ts) rest t e = ground (arith, e)
take_at-length (suc n) (x ∷ ts) rest t e = elim (Option-cases (take_at n ts)) [
  | inl absent ↦ let k = rw absent at e in ground (arith, k)
  | inr ((y, others), found) ↦
      let k = rw found at e in ground (arith, k, take_at-length n ts others y found)
]

-- What is taken, and what is left, have the predicate.
TakenAll : (RemoteTask → Type 0) → Option (RemoteTask × List RemoteTask) → Type 0
TakenAll P none = Unit
TakenAll P (some (t, rest)) = P t × All P rest

taken-All :
    (P : RemoteTask → Type 0) (n : ℕ) (ts : List RemoteTask) → All P ts → TakenAll P (take_at n ts)
unfolding TakenAll
taken-All P n [] h = tt
taken-All P zero (x ∷ ts) h = h
taken-All P (suc n) (x ∷ ts) h = later (take_at n ts) (taken-All P n ts h.1)
  where
    later :
        (o : Option (RemoteTask × List RemoteTask))
        → TakenAll P o
        → TakenAll P (o >>= λ r. some (r.0, x ∷ r.1))
    later none k = tt
    later (some (y, others)) k = (k.0, (h.0, k.1))

pub take_at-All :
    (P : RemoteTask → Type 0) (n : ℕ) (ts rest : List RemoteTask) (t : RemoteTask)
    → take_at n ts ≡ some (t, rest)
    → All P ts
    → P t × All P rest
unfolding TakenAll
take_at-All P n ts rest t e h = subst (TakenAll P) e (taken-All P n ts h)
