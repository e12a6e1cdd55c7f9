-- ===== src/Jobs/Service/Texts.antt =====
-- What server/app/services/job_service.py uses of `str`, on lists of code points.
use Prim.Native.Char.{code}
use aether_v.Jobs.LineBuffer.{Text, lf, is_space, replace_crlf, replace_cr}
use aether_v.Prelude.{
  ℕ, ◌+◌, String, Bool, true, false, ◌||◌, ◌&&◌, not, List, [], ◌∷◌, map, leb, nat_eq,
  if◌then◌else◌, filter, is_empty, flatten,
}

abbrev pub codes : String → Text
codes String.[] = []
codes (String.◌∷◌ c s) = code c ∷ codes s

abbrev strip_left : Text → Text
strip_left [] = []
strip_left (c ∷ s) = let rest = strip_left s in if is_space c then rest else c ∷ s

abbrev strip_right : Text → Text
strip_right [] = []
strip_right (c ∷ s) =
    let rest = strip_right s in if is_empty rest && is_space c then [] else c ∷ rest

unfoldable pub strip : Text → Text
unfolding is_space
strip s = strip_right (strip_left s)

abbrev strip_left_string : String → String
strip_left_string String.[] = String.[]
strip_left_string (String.◌∷◌ c s) =
    let rest = strip_left_string s in if is_space (code c) then rest else String.◌∷◌ c s

abbrev strip_right_string : String → String
strip_right_string String.[] = String.[]
strip_right_string (String.◌∷◌ c s) =
    let rest = strip_right_string s in
    if is_space (code c) && is_empty (codes rest) then String.[] else String.◌∷◌ c rest

-- s.strip(), as a string
unfoldable pub strip_string : String → String
unfolding is_space
strip_string s = strip_right_string (strip_left_string s)

-- part in s
abbrev pub is_prefix : Text → Text → Bool
is_prefix [] s = true
is_prefix (c ∷ part) [] = false
is_prefix (c ∷ part) (d ∷ s) = nat_eq c d && is_prefix part s

abbrev pub has_part : Text → Text → Bool
has_part part [] = is_empty part
has_part part (c ∷ s) = is_prefix part (c ∷ s) || has_part part s

-- s.lower(), where the letters are those of host names
abbrev pub lower : Text → Text
lower s = map (λ c. if leb 65 c && leb c 90 then c + 32 else c) s

-- s.startswith('{')
abbrev pub starts_with_brace : Text → Bool
starts_with_brace [] = false
starts_with_brace (c ∷ s) = nat_eq c 123

abbrev onto_first : ℕ → List Text → List Text
onto_first c [] = (c ∷ []) ∷ []
onto_first c (line ∷ lines) = (c ∷ line) ∷ lines

-- s.split("\n")
abbrev pub split_lines : Text → List Text
split_lines [] = [] ∷ []
split_lines (c ∷ s) =
    let rest = split_lines s in if nat_eq c lf then [] ∷ rest else onto_first c rest

-- The lines that `_append_job_output` takes from its messages.
unfoldable pub output_lines : List Text → List Text
output_lines messages = flatten (
    map (λ m. filter (λ line. not (is_empty line)) (split_lines (replace_cr (replace_crlf m))))
      messages)
