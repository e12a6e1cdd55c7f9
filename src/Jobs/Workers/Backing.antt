-- ===== src/Jobs/Workers/Backing.antt =====
-- That the child job of a waiting worker of server/app/services/job_service.py is never lost.
use aether_v.Jobs.Workers.{
  Item, job, child, Worker, idle, runs_job, runs_child, waits_for, Pool, started, set_over, Work,
  takes, queues, ends_child, ends_job, ends_wait, Reach, begin, submits, works, submit,
}
use aether_v.Prelude.{
  ℕ, suc, ◌≡◌, refl, Bool, true, false, ◌||◌, List, [], ◌∷◌, ◌++◌, All, any, nat_eq, nat_eq_iff,
  arith, ap, sym, subst,
}

abbrev pub is_child_of : ℕ → Item → Bool
is_child_of c (job n) = false
is_child_of c (child d) = nat_eq d c

abbrev pub is_running : ℕ → Worker → Bool
is_running c (runs_child d) = nat_eq d c
is_running c other = false

-- A child job is over, in the queue, or at a worker.
abbrev pub known : (ℕ → Bool) → List Item → List Worker → ℕ → Bool
known over q ws c = over c || (any (is_child_of c) q || any (is_running c) ws)

-- The child job that a worker waits for, if it waits, is one of those.
abbrev pub IsBacked : (ℕ → Bool) → List Item → List Worker → Worker → Type 0
IsBacked over q ws (waits_for c n) = known over q ws c ≡ true
IsBacked over q ws other = Unit

abbrev pub IsPool : Pool → Type 0
IsPool s = All (IsBacked s.over s.queue s.workers) s.workers

any-append {ℓ} :
    {A : Type ℓ} (p : A → Bool) (xs ys : List A) → any p (xs ++ ys) ≡ (any p xs || any p ys)
any-append p [] ys = refl
any-append p (x ∷ xs) ys = ground (arith, any-append p xs ys)

All-map {ℓ κ} :
    {A : Type ℓ} (P Q : A → Type κ) (xs : List A) → ((x : A) → P x → Q x) → All P xs → All Q xs
All-map P Q [] f h = tt
All-map P Q (x ∷ xs) f h = (f x h.0, All-map P Q xs f h.1)

-- One entry of a list that has a property is another.
All-replace {ℓ κ} :
    {A : Type ℓ} (P : A → Type κ) (xs ys : List A) (x y : A)
    → P y
    → All P (xs ++ x ∷ ys)
    → All P (xs ++ y ∷ ys)
All-replace P [] ys x y p h = (p, h.1)
All-replace P (z ∷ xs) ys x y p h = (h.0, All-replace P xs ys x y p h.1)

module _ (over over' : ℕ → Bool) (q q' : List Item) (ws ws' : List Worker) where
  -- What is known stays known.
  abbrev Keeps : Type 0
  Keeps = (c : ℕ) → known over q ws c ≡ true → known over' q' ws' c ≡ true

  kept-IsBacked : Keeps → (w : Worker) → IsBacked over q ws w → IsBacked over' q' ws' w
  kept-IsBacked k idle h = tt
  kept-IsBacked k (runs_job n) h = tt
  kept-IsBacked k (runs_child c) h = tt
  kept-IsBacked k (waits_for c n) h = k c h

  -- The workers after one of them has changed.
  changed-IsBacked :
      (xs ys : List Worker) (w w' : Worker)
      → Keeps
      → ws ≡ xs ++ w ∷ ys
      → ws' ≡ xs ++ w' ∷ ys
      → IsBacked over' q' ws' w'
      → All (IsBacked over q ws) ws
      → All (IsBacked over' q' ws') ws'
  changed-IsBacked xs ys w w' k e e' p h = subst (All (IsBacked over' q' ws')) (sym e') (
      All-replace (IsBacked over' q' ws') xs ys w w' p (
        subst (All (IsBacked over' q' ws')) e
          (All-map (IsBacked over q ws) (IsBacked over' q' ws') ws (kept-IsBacked k) h)))

known_at :
    (over : ℕ → Bool) (q : List Item) (xs ys : List Worker) (w : Worker) (c : ℕ)
    → known over q (xs ++ w ∷ ys) c ≡ (
        over c
        || (any (is_child_of c) q
            || (any (is_running c) xs || (is_running c w || any (is_running c) ys))))
known_at over q xs ys w c =
    ap (λ b. over c || (any (is_child_of c) q || b)) (any-append (is_running c) xs (w ∷ ys))

is_running-started : (i : Item) (c : ℕ) → is_running c (started i) ≡ is_child_of c i
is_running-started (job n) c = refl
is_running-started (child d) c = refl

started-IsBacked :
    (over : ℕ → Bool) (q : List Item) (ws : List Worker) (i : Item) → IsBacked over q ws (started i)
started-IsBacked over q ws (job n) = tt
started-IsBacked over q ws (child d) = tt

Work-IsPool : {s t : Pool} → Work s t → IsPool s → IsPool t
Work-IsPool {s = s} (takes xs ys item rest e q) h =
    changed-IsBacked s.over s.over s.queue rest s.workers (xs ++ started item ∷ ys) xs ys idle
      (started item)
      (λ c k.
        let old = rw (e, q, known_at s.over (item ∷ rest) xs ys idle c) at k in
        rw (known_at s.over rest xs ys (started item) c, is_running-started item c)
          (ground (arith, old)))
      e refl (started-IsBacked s.over rest (xs ++ started item ∷ ys) item) h
Work-IsPool {s = s} (queues xs ys n e) h =
    let q' = s.queue ++ child s.next_id ∷ [] in
    changed-IsBacked s.over s.over s.queue q' s.workers (xs ++ waits_for s.next_id n ∷ ys) xs ys
      (runs_job (suc n)) (waits_for s.next_id n)
      (λ c k.
        let old = rw (e, known_at s.over s.queue xs ys (runs_job (suc n)) c) at k in
        rw
          (
            known_at s.over q' xs ys (waits_for s.next_id n) c,
            any-append (is_child_of c) s.queue (child s.next_id ∷ []),
          )
          (ground (arith, old)))
      e refl
      (rw
        (
          known_at s.over q' xs ys (waits_for s.next_id n) s.next_id,
          any-append (is_child_of s.next_id) s.queue (child s.next_id ∷ []),
        )
        (ground (arith, nat_eq_iff s.next_id s.next_id)))
      h
Work-IsPool {s = s} (ends_child xs ys d e) h =
    changed-IsBacked s.over (set_over d s.over) s.queue s.queue s.workers (xs ++ idle ∷ ys) xs ys
      (runs_child d) idle
      (λ c k.
        let old = rw (e, known_at s.over s.queue xs ys (runs_child d) c) at k in
        rw (known_at (set_over d s.over) s.queue xs ys idle c) (ground (arith, old)))
      e refl tt h
Work-IsPool {s = s} (ends_job xs ys n e) h =
    changed-IsBacked s.over s.over s.queue s.queue s.workers (xs ++ idle ∷ ys) xs ys (runs_job n)
      idle
      (λ c k.
        let old = rw (e, known_at s.over s.queue xs ys (runs_job n) c) at k in
        rw (known_at s.over s.queue xs ys idle c) (ground (arith, old)))
      e refl tt h
Work-IsPool {s = s} (ends_wait xs ys d n e o) h =
    changed-IsBacked s.over s.over s.queue s.queue s.workers (xs ++ runs_job n ∷ ys) xs ys
      (waits_for d n) (runs_job n)
      (λ c k.
        let old = rw (e, known_at s.over s.queue xs ys (waits_for d n) c) at k in
        rw (known_at s.over s.queue xs ys (runs_job n) c) (ground (arith, old)))
      e refl tt h

submit-IsPool : (n : ℕ) (s : Pool) → IsPool s → IsPool (submit n s)
submit-IsPool n s h =
    All-map (IsBacked s.over s.queue s.workers) (IsBacked s.over (s.queue ++ job n ∷ []) s.workers)
      s.workers
      (kept-IsBacked s.over s.over s.queue (s.queue ++ job n ∷ []) s.workers s.workers
        (λ c k. rw (any-append (is_child_of c) s.queue (job n ∷ [])) (ground (arith, k))))
      h

pub Reach-IsPool : {s : Pool} → Reach s → IsPool s
Reach-IsPool begin = (tt, (tt, (tt, (tt, (tt, (tt, tt))))))
Reach-IsPool (submits {s = s} n r) = submit-IsPool n s (Reach-IsPool r)
Reach-IsPool (works r w) = Work-IsPool w (Reach-IsPool r)
