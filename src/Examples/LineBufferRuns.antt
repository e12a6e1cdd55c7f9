-- ===== src/Examples/LineBufferRuns.antt =====
-- Streams through the line buffer of server/app/services/job_service.py.
use aether_v.Prelude.{ℕ, ◌≡◌, refl, List, [], ◌∷◌, flatten}
use aether_v.Jobs.LineBuffer.{absorb, normalize, extract, push, finalize, feed}
use aether_v.Jobs.Chunks.{stream_lines, feed-stream_lines}

-- "a\r", then "\n \nb": the pair is cut between the chunks.
abbrev cut_pair : List (List ℕ)
cut_pair = (b'a' ∷ 13 ∷ []) ∷ (10 ∷ 32 ∷ 10 ∷ b'b' ∷ []) ∷ []

feed-cut_pair : feed [] cut_pair ≡ (b'a' ∷ []) ∷ (b'b' ∷ []) ∷ []
unfolding push finalize absorb normalize extract
feed-cut_pair = refl

feed-stream_lines_example : feed [] cut_pair ≡ stream_lines (flatten cut_pair)
feed-stream_lines_example = feed-stream_lines cut_pair
