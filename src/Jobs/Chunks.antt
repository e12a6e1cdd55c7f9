-- ===== src/Jobs/Chunks.antt =====
-- `_SimpleLineBuffer` against a reading of the whole stream character by character.
use aether_v.Prelude.{
  ◌&&◌, flatten, zero, suc, ◌≤◌, All, ◌<◌, ℕ, zero, suc, ◌≤◌, ◌≡◌, refl, sym, ◌∙◌, ap, Bool, false,
  ◌&&◌, ◌||◌, List, [], ◌∷◌, ◌++◌, none, some, nat_eq, if◌then◌else◌, length, flatten, arith,
  append_assoc, append-nil, Bool-cases, inl, inr, All-append,
}
use aether_v.Jobs.LineBuffer.{
  normalize, push, finalize, feed, bom, cr, lf, has_text, remove_bom, replace_crlf, replace_cr,
  normalize, split_once, extract, push, finalize, feed, absorb,
}

-- The reading of a stream: a byte order mark is skipped, a carriage return and a line feed each end
-- a line, and a line with nothing but white space is dropped.
abbrev keep_line : List ℕ → List (List ℕ)
keep_line line = if has_text line then line ∷ [] else []

abbrev is_break : ℕ → Bool
is_break c = nat_eq c cr || nat_eq c lf

abbrev next : List ℕ → ℕ → List ℕ
next line c = if nat_eq c bom then line else if is_break c then [] else line ++ c ∷ []

abbrev emitted : List ℕ → ℕ → List (List ℕ)
emitted line c = if is_break c then keep_line line else []

-- The lines that end inside the text.
read : List ℕ → List ℕ → List (List ℕ)
read line [] = []
read line (c ∷ s) = emitted line c ++ read (next line c) s

-- The line that the text leaves open.
open_line : List ℕ → List ℕ → List ℕ
open_line line [] = line
open_line line (c ∷ s) = open_line (next line c) s

unfoldable pub stream_lines : List ℕ → List (List ℕ)
unfolding read open_line has_text
stream_lines s = read [] s ++ keep_line (open_line [] s)

read-append : (line s t : List ℕ) → read line (s ++ t) ≡ read line s ++ read (open_line line s) t
unfolding read open_line
read-append line [] t = refl
read-append line (c ∷ s) t =
    ap (λ (r : List (List ℕ)). emitted line c ++ r) (read-append (next line c) s t)
    ∙ sym (append_assoc (emitted line c) _ _)

open_line-append : (line s t : List ℕ) → open_line line (s ++ t) ≡ open_line (open_line line s) t
unfolding open_line
open_line-append line [] t = refl
open_line-append line (c ∷ s) t = open_line-append (next line c) s t

read-remove_bom : (line s : List ℕ) → read line (remove_bom s) ≡ read line s
unfolding read
read-remove_bom line [] = refl
read-remove_bom line (c ∷ s) =
    ground (arith, read-remove_bom line s, read-remove_bom (next line c) s)

open_line-remove_bom : (line s : List ℕ) → open_line line (remove_bom s) ≡ open_line line s
unfolding open_line
open_line-remove_bom line [] = refl
open_line-remove_bom line (c ∷ s) =
    ground (arith, open_line-remove_bom line s, open_line-remove_bom (next line c) s)

read-replace_cr : (line s : List ℕ) → read line (replace_cr s) ≡ read line s
unfolding read
read-replace_cr line [] = refl
read-replace_cr line (c ∷ s) = ground (arith, read-replace_cr [] s, read-replace_cr (next line c) s)

open_line-replace_cr : (line s : List ℕ) → open_line line (replace_cr s) ≡ open_line line s
unfolding open_line
open_line-replace_cr line [] = refl
open_line-replace_cr line (c ∷ s) =
    ground (arith, open_line-replace_cr [] s, open_line-replace_cr (next line c) s)

-- The line feed of a pair ends an empty line, which is dropped.
read-replace_crlf : (line s : List ℕ) → read line (replace_crlf s) ≡ read line s
unfolding read has_text
read-replace_crlf line [] = refl
read-replace_crlf line (c ∷ []) = refl
read-replace_crlf line (c ∷ d ∷ r) = ground (
  arith,
  read-replace_crlf [] r,
  read-replace_crlf (next line c) (d ∷ r),
  append-nil (keep_line line),
)

open_line-replace_crlf : (line s : List ℕ) → open_line line (replace_crlf s) ≡ open_line line s
unfolding open_line
open_line-replace_crlf line [] = refl
open_line-replace_crlf line (c ∷ []) = refl
open_line-replace_crlf line (c ∷ d ∷ r) =
    ground (arith, open_line-replace_crlf [] r, open_line-replace_crlf (next line c) (d ∷ r))

-- Text with no byte order mark and no carriage return.
abbrev IsClean : ℕ → Type 0
IsClean c = (nat_eq c bom ≡ false) × (nat_eq c cr ≡ false)

-- What `split_once` does to a clean text, seen by the reading.
data Split (s : List ℕ) : Type 0 where
  whole :
      split_once s ≡ none
      → ((line : List ℕ) → read line s ≡ [])
      → ((line : List ℕ) → open_line line s ≡ line ++ s)
      → Split s
  parts :
      (l r : List ℕ)
      → split_once s ≡ some (l, r)
      → ((line : List ℕ) → read line s ≡ keep_line (line ++ l) ++ read [] r)
      → ((line : List ℕ) → open_line line s ≡ open_line [] r)
      → length r < length s
      → All IsClean r
      → Split s

Split-cons : (c : ℕ) (s : List ℕ) → IsClean c → nat_eq c lf ≡ false → Split s → Split (c ∷ s)
unfolding read open_line has_text
Split-cons c s clean other (whole e p q) =
    whole (ground arith) (λ line. ground (arith, p (line ++ c ∷ [])))
      λ line. ground (arith, q (line ++ c ∷ []), append_assoc line (c ∷ []) s)
Split-cons c s clean other (parts l r e p q shorter h) =
    parts (c ∷ l) r (ground arith)
      (λ line. ground (arith, p (line ++ c ∷ []), append_assoc line (c ∷ []) l))
      (λ line. ground (arith, q (line ++ c ∷ []))) (omega arith) h

split : (s : List ℕ) → All IsClean s → Split s
unfolding read open_line has_text
split [] h = whole refl (λ line. refl) (λ line. sym (append-nil line))
split (c ∷ s) h = elim (Bool-cases (nat_eq c lf)) [
  | inl ends ↦
      parts [] s (ground arith) (λ line. ground (arith, append-nil line)) (λ line. ground arith)
        (omega arith) h.1
  | inr other ↦ Split-cons c s h.0 other (split s h.1)
]

-- With fuel for its length, the loop reads a clean text as the reading does.
extract_lem :
    (fuel : ℕ) (s : List ℕ) (lines : List (List ℕ))
    → length s ≤ fuel
    → All IsClean s
    → extract fuel s lines ≡ (lines ++ read [] s, open_line [] s)
unfolding extract
extract_lem zero [] lines enough h = unfold read open_line in rw append-nil
extract_lem zero (c ∷ s) lines enough h = absurd (omega arith)
extract_lem (suc fuel) s lines enough h = elim (split s h) [
  | whole e p q ↦ rw (e, extract) (ground (arith, p [], q [], append-nil lines))
  | parts l r e p q shorter clean ↦
      rw (e, extract)
        (ground (
          arith,
          p [],
          q [],
          extract_lem fuel r (if has_text l then lines ++ l ∷ [] else lines) (omega arith) clean,
          append_assoc lines (l ∷ []) (read [] r),
        ))
]

-- What the buffer holds between two chunks: part of one line.
abbrev IsPlain : ℕ → Type 0
IsPlain c = IsClean c × (nat_eq c lf ≡ false)

read-plain : (line s : List ℕ) → All IsPlain s → read line s ≡ []
unfolding read
read-plain line [] h = refl
read-plain line (c ∷ s) h = ground (arith, read-plain (line ++ c ∷ []) s h.1)

open_line-plain : (line s : List ℕ) → All IsPlain s → open_line line s ≡ line ++ s
unfolding open_line
open_line-plain line [] h = sym (append-nil line)
open_line-plain line (c ∷ s) h =
    ground (arith, open_line-plain (line ++ c ∷ []) s h.1, append_assoc line (c ∷ []) s)

next-IsPlain : (line : List ℕ) (c : ℕ) → All IsPlain line → All IsPlain (next line c)
next-IsPlain line c h = elim (Bool-cases (nat_eq c bom)) [
  | inl mark ↦ rw mark h
  | inr text ↦ rw text (elim (Bool-cases (nat_eq c cr)) [
    | inl ends ↦ rw ends tt
    | inr still ↦ rw still (elim (Bool-cases (nat_eq c lf)) [
      | inl ends ↦ rw ends tt
      | inr goes ↦ rw goes (All-append IsPlain line (c ∷ []) h (((text, still), goes), tt))
    ])
  ])
]

open_line-IsPlain : (line s : List ℕ) → All IsPlain line → All IsPlain (open_line line s)
unfolding open_line
open_line-IsPlain line [] h = h
open_line-IsPlain line (c ∷ s) h = open_line-IsPlain (next line c) s (next-IsPlain line c h)

IsPlain→IsClean : (s : List ℕ) → All IsPlain s → All IsClean s
IsPlain→IsClean [] h = tt
IsPlain→IsClean (c ∷ s) h = (h.0.0, IsPlain→IsClean s h.1)

abbrev NoMark : ℕ → Type 0
NoMark c = nat_eq c bom ≡ false

remove_bom-NoMark : (s : List ℕ) → All NoMark (remove_bom s)
remove_bom-NoMark [] = tt
remove_bom-NoMark (c ∷ s) = elim (Bool-cases (nat_eq c bom)) [
  | inl mark ↦ rw mark (remove_bom-NoMark s)
  | inr text ↦ rw text (text, remove_bom-NoMark s)
]

replace_crlf-NoMark : (s : List ℕ) → All NoMark s → All NoMark (replace_crlf s)
replace_crlf-NoMark [] h = tt
replace_crlf-NoMark (c ∷ []) h = h
replace_crlf-NoMark (c ∷ d ∷ r) h = elim (Bool-cases (nat_eq c cr && nat_eq d lf)) [
  | inl pair ↦ rw pair (refl, replace_crlf-NoMark r h.1.1)
  | inr other ↦ rw other (h.0, replace_crlf-NoMark (d ∷ r) h.1)
]

replace_cr-IsClean : (s : List ℕ) → All NoMark s → All IsClean (replace_cr s)
replace_cr-IsClean [] h = tt
replace_cr-IsClean (c ∷ s) h = elim (Bool-cases (nat_eq c cr)) [
  | inl ends ↦ rw ends ((refl, refl), replace_cr-IsClean s h.1)
  | inr other ↦ rw other ((h.0, other), replace_cr-IsClean s h.1)
]

normalize-IsClean : (s : List ℕ) → All IsClean (normalize s)
unfolding normalize
normalize-IsClean s = replace_cr-IsClean _ (replace_crlf-NoMark _ (remove_bom-NoMark s))

read-normalize : (line s : List ℕ) → read line (normalize s) ≡ read line s
unfolding normalize
read-normalize line s = read-replace_cr line _ ∙ read-replace_crlf line _ ∙ read-remove_bom line s

open_line-normalize : (line s : List ℕ) → open_line line (normalize s) ≡ open_line line s
unfolding normalize
open_line-normalize line s =
    open_line-replace_cr line _ ∙ open_line-replace_crlf line _ ∙ open_line-remove_bom line s

absorb_lem :
    (buffer t : List ℕ)
    → All IsPlain buffer
    → All IsClean t
    → absorb buffer t ≡ (open_line buffer t, read buffer t)
unfolding absorb
absorb_lem buffer [] h clean = unfold read open_line in refl
absorb_lem buffer (c ∷ t) h clean =
    let text = buffer ++ c ∷ t in
    let whole : All IsClean text =
      All-append IsClean buffer (c ∷ t) (IsPlain→IsClean buffer h) clean in
    rw (extract_lem (length text) text [] (omega arith) whole) (
      rw (read-append [] buffer (c ∷ t), open_line-append [] buffer (c ∷ t))
        (rw (read-plain [] buffer h, open_line-plain [] buffer h)))

-- A push reads its chunk on from the line that the buffer holds.
push_lem :
    (buffer chunk : List ℕ)
    → All IsPlain buffer
    → push buffer chunk ≡ (open_line buffer chunk, read buffer chunk)
unfolding push
push_lem buffer [] h = unfold read open_line in refl
push_lem buffer (c ∷ s) h =
    rw (absorb_lem buffer (normalize (c ∷ s)) h (normalize-IsClean (c ∷ s)))
      (rw (read-normalize, open_line-normalize))

feed_lem :
    (buffer : List ℕ) (chunks : List (List ℕ))
    → All IsPlain buffer
    → feed buffer chunks
      ≡ read buffer (flatten chunks) ++ keep_line (open_line buffer (flatten chunks))
feed_lem buffer [] h = unfold finalize read open_line in ground arith
feed_lem buffer (chunk ∷ chunks) h = rw (push_lem buffer chunk h) (
    rw (feed_lem (open_line buffer chunk) chunks (open_line-IsPlain buffer chunk h))
      (rw (read-append, open_line-append) (sym (append_assoc (read buffer chunk) _ _))))

-- However a stream is cut into chunks, also inside a CR LF pair, the lines that `push` and
-- `finalize` return are, in order, the lines of the whole stream with text in them: those that a
-- carriage return or a line feed ends and what follows the last of these, less byte order marks.
pub feed-stream_lines : (chunks : List (List ℕ)) → feed [] chunks ≡ stream_lines (flatten chunks)
unfolding stream_lines
feed-stream_lines chunks = feed_lem [] chunks tt
