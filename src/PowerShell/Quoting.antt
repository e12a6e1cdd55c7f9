-- ===== src/PowerShell/Quoting.antt =====
-- PowerShell reads a literal of the services as the value that was put in. Which characters PowerShell
-- takes for a single quote is an argument: it documents that a verbatim string ends at such a character
-- that is not doubled, and that a doubled one stands for itself.
use aether_v.Jobs.LineBuffer.{Text}
use aether_v.PowerShell.{quote, double_quotes, ps_literal, ps_single_quote}
use aether_v.Prelude.{
  ℕ, ◌≡◌, refl, sym, ap, Bool, true, false, Option, none, some, [], ◌∷◌, ◌++◌, if◌then◌else◌,
  nat_eq, nat_eq_iff, append_assoc, Bool-cases, inl, inr, All,
}

module _ (is_quote : ℕ → Bool) where
  abbrev begins : ℕ → Option (Text × Text) → Option (Text × Text)
  begins c none = none
  begins c (some (value, rest)) = some (c ∷ value, rest)

  -- The value of the string that goes on here, and what follows it; `after_quote` is whether a quote
  -- was just read.
  abbrev pub read_string : (after_quote : Bool) → Text → Option (Text × Text)
  read_string false [] = none
  read_string true [] = some ([], [])
  read_string false (c ∷ s) =
      let more = begins c (read_string false s) in
      let closing = read_string true s in if is_quote c then closing else more
  read_string true (c ∷ s) =
      let more = begins c (read_string false s) in if is_quote c then more else some ([], c ∷ s)

  -- A verbatim string of PowerShell.
  abbrev pub read_literal : Text → Option (Text × Text)
  read_literal [] = none
  read_literal (c ∷ s) = if is_quote c then read_string false s else none

  abbrev pub starts_with_quote : Text → Bool
  starts_with_quote [] = false
  starts_with_quote (c ∷ s) = is_quote c

  -- The only single quote in the value is the apostrophe.
  abbrev pub IsPlain : Text → Type 0
  IsPlain value = All (λ c. is_quote c ≡ nat_eq c quote) value

  closes : (rest : Text) → starts_with_quote rest ≡ false → read_string true rest ≡ some ([], rest)
  closes [] e = refl
  closes (c ∷ rest) e = rw e refl

  reads :
      (value rest : Text)
      → is_quote quote ≡ true
      → IsPlain value
      → starts_with_quote rest ≡ false
      → read_string false (double_quotes value ++ quote ∷ rest) ≡ some (value, rest)
  reads [] rest q h e = rw q (closes rest e)
  reads (c ∷ value) rest q h e = elim (Bool-cases (nat_eq c quote)) [
    | inl same ↦
        rw (same, q)
          (rw (reads value rest q h.1 e)
            (ap (λ d. some (d ∷ value, rest)) (sym ((nat_eq_iff c quote).0 same))))
    | inr other ↦ rw (other, h.0, other) (rw (reads value rest q h.1 e) refl)
  ]

  -- PowerShell reads the literal of a value, wherever it stands before something that is no quote, as
  -- the value, and goes on after it, if the apostrophe is a quote for it and the value has none of the
  -- other characters that it takes for one: no part of the value is read as code. The literal of no
  -- value is the empty text.
  pub literal_reads :
      (value rest : Text)
      → is_quote quote ≡ true
      → IsPlain value
      → starts_with_quote rest ≡ false
      → (read_literal (ps_single_quote (some value) ++ rest) ≡ some (value, rest))
        × (ps_single_quote (some value) ≡ ps_literal value)
        × (read_literal (ps_single_quote none ++ rest) ≡ some ([], rest))
  unfolding ps_single_quote ps_literal
  literal_reads value rest q h e = (
    rw (append_assoc (double_quotes value) (quote ∷ []) rest, q) (reads value rest q h e),
    refl,
    rw q (closes rest e),
  )
