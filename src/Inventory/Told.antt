-- ===== src/Inventory/Told.antt =====
-- The notifications that server/app/services/inventory_service.py has shown and not cleared, against
-- the hosts that it remembers as preparing or slow.
use aether_v.Jobs.LineBuffer.{Text}
use aether_v.Prelude.{
  ◌≡◌, refl, Bool, true, false, ◌||◌, List, [], ◌∷◌, ◌++◌, ◌==◌, if◌then◌else◌, eq_text, arith, inl,
  inr, Bool-cases, same_text_iff,
}
use aether_v.Inventory.{
  Inventory, Notice, preparing_shown, preparing_cleared, slow_shown, slow_cleared, reconnected,
  unreachable, overrun_shown, overrun_cleared, status_empty, status_current, contains, add, discard,
}

pub contains-append :
    (xs ys : List Text) (x : Text) → contains (xs ++ ys) x ≡ (contains xs x || contains ys x)
contains-append [] ys x = refl
contains-append (y ∷ xs) ys x = ground (arith, contains-append xs ys x)

pub contains-add :
    (xs : List Text) (x y : Text) → contains (add xs x) y ≡ (if x == y then true else contains xs y)
contains-add xs x y = elim (Bool-cases (contains xs x)) [
  | inl there ↦ rw there (ground (arith, there, same_text_iff x y))
  | inr new ↦ rw (new, contains-append xs (x ∷ []) y) (ground (arith, same_text_iff x y))
]

pub contains-discard :
    (xs : List Text) (x y : Text)
    → contains (discard xs x) y ≡ (if x == y then false else contains xs y)
contains-discard [] x y = ground arith
contains-discard (z ∷ xs) x y =
    ground (arith, contains-discard xs x y, same_text_iff x y, same_text_iff z x, same_text_iff z y)

-- Whether a notification is shown after a call.
abbrev pub preparing_after : Text → Notice → Bool → Bool
preparing_after h (preparing_shown k) b = if k == h then true else b
preparing_after h (preparing_cleared k) b = if k == h then false else b
preparing_after h n b = b

abbrev pub slow_after : Text → Notice → Bool → Bool
slow_after h (slow_shown k) b = if k == h then true else b
slow_after h (slow_cleared k) b = if k == h then false else b
slow_after h n b = b

abbrev pub overrun_after : Notice → Bool → Bool
overrun_after overrun_shown b = true
overrun_after overrun_cleared b = false
overrun_after n b = b

abbrev pub replay : (Notice → Bool → Bool) → List Notice → Bool → Bool
replay f [] b = b
replay f (n ∷ ns) b = replay f ns (f n b)

pub replay-append :
    (f : Notice → Bool → Bool) (ns ms : List Notice) (b : Bool)
    → replay f (ns ++ ms) b ≡ replay f ms (replay f ns b)
replay-append f [] ms b = refl
replay-append f (n ∷ ns) ms b = replay-append f ns ms (f n b)

-- A notification is shown just while its host is in the set, and the capacity notification just
-- while its flag is set.
pub record IsTold (preparing slow : List Text) (overrun : Bool) (ns : List Notice) : Type 0 where
  pub preparing_told : (h : Text) → contains preparing h ≡ replay (preparing_after h) ns false
  pub slow_told : (h : Text) → contains slow h ≡ replay (slow_after h) ns false
  pub overrun_told : overrun ≡ replay overrun_after ns false

abbrev pub Told : Inventory → Type 0
Told s = IsTold s.preparing_hosts s.slow_hosts s.overrun_active s.notices

module _ {p w : List Text} {o : Bool} {ns : List Notice} (t : IsTold p w o ns) where
  -- A call, with what it makes of the sets.
  IsTold-append :
      (n : Notice) (p' w' : List Text) (o' : Bool)
      → ((h : Text) → contains p' h ≡ preparing_after h n (contains p h))
      → ((h : Text) → contains w' h ≡ slow_after h n (contains w h))
      → o' ≡ overrun_after n o
      → IsTold p' w' o' (ns ++ n ∷ [])
  IsTold-append n p' w' o' e f g = record {
    preparing_told =
        λ h. rw (replay-append (preparing_after h) ns (n ∷ []) false, e h, t.preparing_told h) refl;
    slow_told = λ h. rw (replay-append (slow_after h) ns (n ∷ []) false, f h, t.slow_told h) refl;
    overrun_told = rw (replay-append overrun_after ns (n ∷ []) false, g, t.overrun_told) refl;
  }

  pub preparing_shown-IsTold : (k : Text) → IsTold (add p k) w o (ns ++ preparing_shown k ∷ [])
  preparing_shown-IsTold k =
      IsTold-append (preparing_shown k) (add p k) w o (contains-add p k) (λ h. refl) refl

  pub preparing_cleared-IsTold :
      (k : Text) → IsTold (discard p k) w o (ns ++ preparing_cleared k ∷ [])
  preparing_cleared-IsTold k =
      IsTold-append (preparing_cleared k) (discard p k) w o (contains-discard p k) (λ h. refl) refl

  pub slow_shown-IsTold : (k : Text) → IsTold p (add w k) o (ns ++ slow_shown k ∷ [])
  slow_shown-IsTold k =
      IsTold-append (slow_shown k) p (add w k) o (λ h. refl) (contains-add w k) refl

  pub slow_cleared-IsTold : (k : Text) → IsTold p (discard w k) o (ns ++ slow_cleared k ∷ [])
  slow_cleared-IsTold k =
      IsTold-append (slow_cleared k) p (discard w k) o (λ h. refl) (contains-discard w k) refl

  pub reconnected-IsTold : (k : Text) → IsTold p w o (ns ++ reconnected k ∷ [])
  reconnected-IsTold k = IsTold-append (reconnected k) p w o (λ h. refl) (λ h. refl) refl

  pub unreachable-IsTold : (k : Text) → IsTold p w o (ns ++ unreachable k ∷ [])
  unreachable-IsTold k = IsTold-append (unreachable k) p w o (λ h. refl) (λ h. refl) refl

  pub status_empty-IsTold : IsTold p w o (ns ++ status_empty ∷ [])
  status_empty-IsTold = IsTold-append status_empty p w o (λ h. refl) (λ h. refl) refl

  pub status_current-IsTold : IsTold p w o (ns ++ status_current ∷ [])
  status_current-IsTold = IsTold-append status_current p w o (λ h. refl) (λ h. refl) refl

  pub overrun_shown-IsTold : IsTold p w true (ns ++ overrun_shown ∷ [])
  overrun_shown-IsTold = IsTold-append overrun_shown p w true (λ h. refl) (λ h. refl) refl

  pub overrun_cleared-IsTold : IsTold p w false (ns ++ overrun_cleared ∷ [])
  overrun_cleared-IsTold = IsTold-append overrun_cleared p w false (λ h. refl) (λ h. refl) refl
