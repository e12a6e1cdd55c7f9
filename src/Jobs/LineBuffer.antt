-- ===== src/Jobs/LineBuffer.antt =====
-- `_SimpleLineBuffer` of server/app/services/job_service.py. A text is the list of its code points.
use aether_v.Prelude.{
  ℕ, zero, suc, Bool, not, ◌&&◌, ◌||◌, List, [], ◌∷◌, ◌++◌, map, Option, none, some, leb, nat_eq,
  if◌then◌else◌, filter, any, length, is_empty,
}

abbrev pub Text : Type 0
Text = List ℕ

abbrev pub bom : ℕ
bom = 0xfeff

abbrev pub cr : ℕ
cr = 13

abbrev pub lf : ℕ
lf = 10

-- The characters that `str.strip` removes.
unfoldable pub is_space : ℕ → Bool
is_space c =
    (leb 9 c && leb c 13)
    || (leb 28 c && leb c 32)
    || nat_eq c 0x85
    || nat_eq c 0xa0
    || nat_eq c 0x1680
    || (leb 0x2000 c && leb c 0x200a)
    || nat_eq c 0x2028
    || nat_eq c 0x2029
    || nat_eq c 0x202f
    || nat_eq c 0x205f
    || nat_eq c 0x3000

-- `bool(line.strip())`
unfoldable pub has_text : List ℕ → Bool
unfolding is_space
has_text line = any (λ c. not (is_space c)) line

-- chunk.replace("\ufeff", "")
abbrev pub remove_bom : List ℕ → List ℕ
remove_bom = filter (λ c. not (nat_eq c bom))

-- .replace("\r\n", "\n")
abbrev pub replace_crlf : List ℕ → List ℕ
replace_crlf [] = []
replace_crlf (c ∷ []) = c ∷ []
replace_crlf (c ∷ d ∷ r) =
    let joined = lf ∷ replace_crlf r in
    let kept = c ∷ replace_crlf (d ∷ r) in if nat_eq c cr && nat_eq d lf then joined else kept

-- .replace("\r", "\n")
abbrev pub replace_cr : List ℕ → List ℕ
replace_cr = map (λ c. if nat_eq c cr then lf else c)

unfoldable pub normalize : List ℕ → List ℕ
normalize chunk = replace_cr (replace_crlf (remove_bom chunk))

-- `buffer.split("\n", 1)` where "\n" is in the buffer
abbrev pub split_once : List ℕ → Option (List ℕ × List ℕ)
split_once [] = none
split_once (c ∷ s) =
    let later : Option (List ℕ × List ℕ) = elim (split_once s) [
      | none ↦ none
      | some (line, rest) ↦ some (c ∷ line, rest)
    ] in
    if nat_eq c lf then some ([], s) else later

-- The `while` loop of `push`: the lines extracted, and the buffer that is left. Each round takes a
-- character off the buffer, so its length is enough fuel.
unfoldable pub extract : ℕ → List ℕ → List (List ℕ) → List (List ℕ) × List ℕ
unfolding has_text
extract zero buffer lines = (lines, buffer)
extract (suc fuel) buffer lines = elim (split_once buffer) [
  | none ↦ (lines, buffer)
  | some (line, rest) ↦ extract fuel rest (if has_text line then lines ++ line ∷ [] else lines)
]

-- The rest of `push`, once the chunk is normalized.
unfoldable pub absorb : List ℕ → List ℕ → List ℕ × List (List ℕ)
absorb buffer normalized =
    if is_empty normalized
    then (buffer, [])
    else let text = buffer ++ normalized in
      let (lines, rest) = extract (length text) text [] in (rest, lines)

-- push: the new buffer and the lines returned
unfoldable pub push : List ℕ → List ℕ → List ℕ × List (List ℕ)
push buffer chunk = if is_empty chunk then (buffer, []) else absorb buffer (normalize chunk)

-- finalize: the new buffer and the lines returned
unfoldable pub finalize : List ℕ → List ℕ × List (List ℕ)
unfolding has_text
finalize buffer = if has_text buffer then ([], buffer ∷ []) else (buffer, [])

-- A stream: the chunks are pushed in turn, then the buffer is finalized.
abbrev pub feed : List ℕ → List (List ℕ) → List (List ℕ)
feed buffer [] = (finalize buffer).1
feed buffer (chunk ∷ chunks) =
    let (buffer', lines) = push buffer chunk in lines ++ feed buffer' chunks
