-- ===== src/Jobs/Service/Deployment/Ran.antt =====
-- Which child jobs a stage of a deployment queues, in server/app/services/job_service.py.
use aether_v.Jobs.LineBuffer.{Text}
use aether_v.Jobs.Service.Deployment.{
  Session, Result, ok, raised, unfinished, Action, and_then, require, Happening, child_queued,
  child_returned,
}
use aether_v.Prelude.{
  String, ◌≡◌, refl, Bool, true, false, Option, none, some, List, [], ◌∷◌, ◌++◌, map, All,
  All-append, append_assoc, append-nil, sym, ap, ◌∙◌,
}

-- A child job that is queued, by its type, or one that a wait returns.
abbrev pub label : Happening → Option String
label (child_queued service child) = some child.job_type
label (child_returned id j) = none

abbrev pub labels : List Happening → List (Option String)
labels hs = map label hs

-- What is new is a beginning of what is due, and has a property.
pub record Began (due : List (Option String)) (Q : List Happening → Type 0)
    (old new : List Happening) : Type 0 where
  pub more : List Happening
  pub left : List (Option String)
  pub grown : new ≡ old ++ more
  pub ordered : labels more ++ left ≡ due
  pub each : Q more

-- A stage that ends has done all that is due; another has made a beginning.
abbrev pub Ran {ℓ} :
    {A : Type ℓ}
    → List (Option String)
    → (List Happening → Type 0)
    → List Happening
    → Result A
    → Type 0
Ran due Q old (ok a t) =
    (more : List Happening) × (t.log ≡ old ++ more) × (labels more ≡ due) × Q more
Ran due Q old (raised e t) = Began due Q old t.log
Ran due Q old (unfinished t) = Began due Q old t.log

labels-append : (xs ys : List Happening) → labels (xs ++ ys) ≡ labels xs ++ labels ys
labels-append [] ys = refl
labels-append (x ∷ xs) ys = ap (λ r. label x ∷ r) (labels-append xs ys)

module _ (P : Happening → Type 0) where
  -- What had begun before is part of what has begun.
  Began-after :
      (old mid new : List Happening) (xs ys : List (Option String)) (more : List Happening)
      → mid ≡ old ++ more
      → labels more ≡ xs
      → All P more
      → Began ys (All P) mid new
      → Began (xs ++ ys) (All P) old new
  Began-after old mid new xs ys more g o e b = record {
    more = more ++ b.more;
    left = b.left;
    grown = b.grown ∙ ap (λ m. m ++ b.more) g ∙ append_assoc old more b.more;
    ordered =
        ap (λ m. m ++ b.left) (labels-append more b.more)
        ∙ append_assoc (labels more) (labels b.more) b.left
        ∙ ap (λ m. labels more ++ m) b.ordered
        ∙ ap (λ m. m ++ ys) o;
    each = All-append P more b.more e b.each;
  }

  pub Began-longer :
      (old new : List Happening) (xs ys : List (Option String))
      → Began xs (All P) old new
      → Began (xs ++ ys) (All P) old new
  Began-longer old new xs ys b = record {
    more = b.more;
    left = b.left ++ ys;
    grown = b.grown;
    ordered = sym (append_assoc (labels b.more) b.left ys) ∙ ap (λ m. m ++ ys) b.ordered;
    each = b.each;
  }

  pub Ran-after {ℓ} :
      {A : Type ℓ} (old mid : List Happening) (xs ys : List (Option String)) (more : List Happening)
      → mid ≡ old ++ more
      → labels more ≡ xs
      → All P more
      → (r : Result A) → Ran ys (All P) mid r
      → Ran (xs ++ ys) (All P) old r
  Ran-after old mid xs ys more g o e (ok a t) (m, h, p, q) = (
    more ++ m,
    h ∙ ap (λ w. w ++ m) g ∙ append_assoc old more m,
    labels-append more m ∙ ap (λ w. labels more ++ w) p ∙ ap (λ w. w ++ ys) o,
    All-append P more m e q,
  )
  Ran-after old mid xs ys more g o e (raised msg t) b = Began-after old mid t.log xs ys more g o e b
  Ran-after old mid xs ys more g o e (unfinished t) b = Began-after old mid t.log xs ys more g o e b

  pub Ran-and_then {ℓ κ} :
      {A : Type ℓ} {B : Type κ} (old : List Happening) (xs ys : List (Option String)) (r : Result A)
      (f : A → Action B)
      → Ran xs (All P) old r
      → ((a : A) (t : Session) → Ran ys (All P) t.log (f a t))
      → Ran (xs ++ ys) (All P) old (and_then r f)
  Ran-and_then old xs ys (ok a t) f (more, g, o, e) k =
      Ran-after old t.log xs ys more g o e (f a t) (k a t)
  Ran-and_then old xs ys (raised msg t) f b k = Began-longer old t.log xs ys b
  Ran-and_then old xs ys (unfinished t) f b k = Began-longer old t.log xs ys b

  pub ok-Ran {ℓ} : {A : Type ℓ} (a : A) (t : Session) → Ran [] (All P) t.log (ok a t)
  ok-Ran a t = ([], sym (append-nil t.log), refl, tt)

  pub stopped : (due : List (Option String)) (old : List Happening) → Began due (All P) old old
  stopped due old = record {
    more = [];
    left = due;
    grown = sym (append-nil old);
    ordered = refl;
    each = tt;
  }

  pub require-Ran : (b : Bool) (e : Text) (s : Session) → Ran [] (All P) s.log (require b e s)
  require-Ran true e s = ok-Ran {0} tt s
  require-Ran false e s = stopped [] s.log
