-- ===== src/Jobs/Workers/Progress.antt =====
-- Whether the workers of server/app/services/job_service.py can go on.
use aether_v.Jobs.Workers.{
  Item, Worker, idle, runs_job, runs_child, waits_for, Pool, Work, takes, queues, ends_child,
  ends_job, ends_wait, take_job, end_child, end_job, end_wait, Reach,
}
use aether_v.Jobs.Workers.Backing.{known, is_running, IsBacked, IsPool, Reach-IsPool}
use aether_v.Prelude.{
  ℕ, suc, ◌≡◌, refl, Bool, true, false, not, ◌⊎◌, inl, inr, List, [], ◌∷◌, ◌++◌, All, any, arith,
  ap, sym, subst, Bool-cases,
}

abbrev pub is_busy : Worker → Bool
is_busy (runs_job n) = true
is_busy (runs_child c) = true
is_busy other = false

abbrev pub is_waiting : Worker → Bool
is_waiting (waits_for c n) = true
is_waiting other = false

abbrev is_idle : Worker → Bool
is_idle idle = true
is_idle other = false

-- An entry with a property, and where it stands.
abbrev Found {ℓ} : {A : Type ℓ} → (A → Bool) → List A → Type ℓ
Found {A = A} p zs = (xs : List A) × (ys : List A) × (x : A) × (zs ≡ xs ++ x ∷ ys) × (p x ≡ true)

any-Found {ℓ} : {A : Type ℓ} (p : A → Bool) (zs : List A) → any p zs ≡ true → Found p zs
any-Found p [] e = absurd cc
any-Found p (z ∷ zs) e = elim (Bool-cases (p z)) [
  | inl here ↦ ([], zs, z, refl, here)
  | inr there ↦
      let later = rw there at e in
      let (xs, ys, x, at, h) = any-Found p zs later in (z ∷ xs, ys, x, ap (λ r. z ∷ r) at, h)
]

idle_or_busy :
    (ws : List Worker)
    → any (λ w. not (is_waiting w)) ws ≡ true
    → any is_busy ws ≡ false
    → any is_idle ws ≡ true
idle_or_busy [] e f = cc
idle_or_busy (idle ∷ ws) e f = refl
idle_or_busy (runs_job n ∷ ws) e f = cc
idle_or_busy (runs_child c ∷ ws) e f = cc
idle_or_busy (waits_for c n ∷ ws) e f = idle_or_busy ws e f

running-busy : (c : ℕ) (ws : List Worker) → any is_busy ws ≡ false → any (is_running c) ws ≡ false
running-busy c [] e = refl
running-busy c (idle ∷ ws) e = running-busy c ws e
running-busy c (runs_job n ∷ ws) e = cc
running-busy c (runs_child d ∷ ws) e = cc
running-busy c (waits_for d n ∷ ws) e = running-busy c ws e

All-at {ℓ κ} : {A : Type ℓ} (P : A → Type κ) (xs ys : List A) (x : A) → All P (xs ++ x ∷ ys) → P x
All-at P [] ys x h = h.0
All-at P (z ∷ xs) ys x h = All-at P xs ys x h.1

-- Nothing is left to do.
abbrev pub IsQuiet : Pool → Type 0
IsQuiet s = (any is_busy s.workers ≡ false) × (any is_waiting s.workers ≡ false) × (s.queue ≡ [])

module _ (s : Pool) where
  abbrev CanWork : Type 0
  CanWork = (t : Pool) × Work s t

  busy-CanWork :
      (xs ys : List Worker) (w : Worker) → s.workers ≡ xs ++ w ∷ ys → is_busy w ≡ true → CanWork
  busy-CanWork xs ys idle e b = absurd cc
  busy-CanWork xs ys (runs_job n) e b = (end_job xs ys s, ends_job xs ys n e)
  busy-CanWork xs ys (runs_child c) e b = (end_child xs ys c s, ends_child xs ys c e)
  busy-CanWork xs ys (waits_for c n) e b = absurd cc

  idle-CanWork :
      (xs ys : List Worker) (w : Worker) (item : Item) (rest : List Item)
      → s.workers ≡ xs ++ w ∷ ys
      → is_idle w ≡ true
      → s.queue ≡ item ∷ rest
      → CanWork
  idle-CanWork xs ys idle item rest e b q = (take_job xs ys item rest s, takes xs ys item rest e q)
  idle-CanWork xs ys (runs_job n) item rest e b q = absurd cc
  idle-CanWork xs ys (runs_child c) item rest e b q = absurd cc
  idle-CanWork xs ys (waits_for c n) item rest e b q = absurd cc

  waiting-CanWork :
      (xs ys : List Worker) (w : Worker)
      → IsPool s
      → s.workers ≡ xs ++ w ∷ ys
      → is_waiting w ≡ true
      → any is_busy s.workers ≡ false
      → s.queue ≡ []
      → CanWork
  waiting-CanWork xs ys idle h e b f q = absurd cc
  waiting-CanWork xs ys (runs_job n) h e b f q = absurd cc
  waiting-CanWork xs ys (runs_child c) h e b f q = absurd cc
  waiting-CanWork xs ys (waits_for c n) h e b f q =
      let backed : known s.over s.queue s.workers c ≡ true =
        All-at (IsBacked s.over s.queue s.workers) xs ys (waits_for c n)
          (subst (All (IsBacked s.over s.queue s.workers)) e h) in
      let k = rw (q, running-busy c s.workers f) at backed in
      (end_wait xs ys n s, ends_wait xs ys c n e (ground (arith, k)))

  queue-cases : (q : List Item) → (q ≡ []) ⊎ ((i : Item) × (rest : List Item) × (q ≡ i ∷ rest))
  queue-cases [] = inl refl
  queue-cases (i ∷ rest) = inr (i, rest, refl)

  idle-progress :
      IsPool s → any is_busy s.workers ≡ false → any is_idle s.workers ≡ true → IsQuiet s ⊎ CanWork
  idle-progress h f i = elim (queue-cases s.queue) [
    | inr (item, rest, q) ↦
        let (xs, ys, w, e, b) = any-Found is_idle s.workers i in
        inr (idle-CanWork xs ys w item rest e b q)
    | inl q ↦ elim (Bool-cases (any is_waiting s.workers)) [
      | inr none_waits ↦ inl (f, none_waits, q)
      | inl waiting ↦
          let (xs, ys, w, e, b) = any-Found is_waiting s.workers waiting in
          inr (waiting-CanWork xs ys w h e b f q)
    ]
  ]

-- In every state that the workers reach in which one of them at least does not wait for a child job,
-- there is a step that a worker can take, or all are idle and the queue is empty.
pub progress :
    {s : Pool}
    → Reach s
    → any (λ w. not (is_waiting w)) s.workers ≡ true
    → IsQuiet s ⊎ ((t : Pool) × Work s t)
progress {s = s} r free = elim (Bool-cases (any is_busy s.workers)) [
  | inl busy ↦
      let (xs, ys, w, e, b) = any-Found is_busy s.workers busy in inr (busy-CanWork s xs ys w e b)
  | inr still ↦ idle-progress s (Reach-IsPool r) still (idle_or_busy s.workers free still)
]

-- Whether a worker waits for a child job that is not over.
abbrev pub is_held : (ℕ → Bool) → Worker → Bool
is_held over (waits_for c n) = not (over c)
is_held over other = false

held_at :
    (over : ℕ → Bool) (xs ys : List Worker) (w : Worker)
    → All (λ v. is_held over v ≡ true) (xs ++ w ∷ ys)
    → is_held over w ≡ true
held_at over xs ys w h = All-at (λ v. is_held over v ≡ true) xs ys w h

-- Where every worker waits for a child job that is not over, no worker can take a step.
pub held-Work :
    {s t : Pool} → All (λ w. is_held s.over w ≡ true) s.workers → Work s t → true ≡ false
held-Work {s = s} h (takes xs ys item rest e q) =
    sym (held_at s.over xs ys idle (subst (All (λ v. is_held s.over v ≡ true)) e h))
held-Work {s = s} h (queues xs ys n e) =
    sym (held_at s.over xs ys (runs_job (suc n)) (subst (All (λ v. is_held s.over v ≡ true)) e h))
held-Work {s = s} h (ends_child xs ys c e) =
    sym (held_at s.over xs ys (runs_child c) (subst (All (λ v. is_held s.over v ≡ true)) e h))
held-Work {s = s} h (ends_job xs ys n e) =
    sym (held_at s.over xs ys (runs_job n) (subst (All (λ v. is_held s.over v ≡ true)) e h))
held-Work {s = s} h (ends_wait xs ys c n e o) =
    let k = held_at s.over xs ys (waits_for c n) (subst (All (λ v. is_held s.over v ≡ true)) e h) in
    ground (arith, k)
