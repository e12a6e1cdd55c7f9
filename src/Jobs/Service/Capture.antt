-- ===== src/Jobs/Service/Capture.antt =====
-- Which lines of a command's output `capture_json_output` of server/app/services/job_service.py keeps.
use aether_v.Jobs.Chunks.{stream_lines, feed-stream_lines}
use aether_v.Jobs.LineBuffer.{Text, push, finalize, feed, has_text}
use aether_v.Jobs.Service.{JobService}
use aether_v.Jobs.Service.Agent.{
  Stream, stdout, stderr, eq_stream, Session, capture, deliver, buffer_of, handle_stream_chunk,
  finalize_each, finalize_job_streams, handle_chunks, stream_command,
}
use aether_v.Jobs.Service.Texts.{strip, starts_with_brace}
use aether_v.Prelude.Dict
use aether_v.Prelude.Dict.{Dict, IsDict, get-nil, get-put, put-IsDict}
use aether_v.Prelude.{
  String, ◌≡◌, refl, sym, ap, ◌∙◌, Bool, true, false, List, [], ◌∷◌, ◌++◌, ◌==◌, if◌then◌else◌,
  subst, append_assoc, append-nil, inl, inr, Bool-cases, is_empty, filter, map, flatten,
}

-- What the command writes to one of its streams, in chunks.
abbrev pub chunks_of : Stream → List (Stream × Text) → List Text
chunks_of stream [] = []
chunks_of stream ((other, payload) ∷ chunks) =
    let rest = chunks_of stream chunks in if other == stream then payload ∷ rest else rest

capture-append :
    (xs ys : List Text) → capture stdout (xs ++ ys) ≡ capture stdout xs ++ capture stdout ys
capture-append [] ys = refl
capture-append (x ∷ xs) ys = elim (Bool-cases (starts_with_brace (strip x))) [
  | inl e ↦ rw (e, capture-append xs ys) refl
  | inr e ↦ rw (e, capture-append xs ys) refl
]

-- The JSON lines after lines were delivered.
captured :
    (id : String) (stream : Stream) (lines : List Text) (n : Session)
    → (deliver id stream lines n).result_json_lines ≡ n.result_json_lines ++ capture stream lines
captured id stdout [] n = sym (append-nil n.result_json_lines)
captured id stderr [] n = sym (append-nil n.result_json_lines)
captured id stream (line ∷ lines) n = refl

deliver-buffers :
    (id : String) (stream : Stream) (lines : List Text) (n : Session)
    → (deliver id stream lines n).buffers ≡ n.buffers
deliver-buffers id stream [] n = refl
deliver-buffers id stream (line ∷ lines) n = refl

finalize-nil : (finalize []).1 ≡ []
unfolding finalize has_text
finalize-nil = refl

-- What the buffer of a stream holds.
abbrev held : Stream → Dict Stream Text → Text
held stream d = buffer_of (Dict.get d stream)

finalize_lem :
    (id : String) (d : Dict Stream Text) (n : Session)
    → IsDict d
    → (finalize_each id d n).result_json_lines
      ≡ n.result_json_lines ++ capture stdout (finalize (held stdout d)).1
unfolding Dict.get
finalize_lem id [] n h = rw finalize-nil (sym (append-nil n.result_json_lines))
finalize_lem id ((stdout, buffer) ∷ d) n h =
    finalize_lem id d (deliver id stdout (finalize buffer).1 n) h.1
    ∙ rw (h.0, finalize-nil) (append-nil _ ∙ captured id stdout (finalize buffer).1 n)
finalize_lem id ((stderr, buffer) ∷ d) n h =
    finalize_lem id d (deliver id stderr (finalize buffer).1 n) h.1
    ∙ ap (λ xs. xs ++ capture stdout (finalize (held stdout d)).1)
        (captured id stderr (finalize buffer).1 n ∙ append-nil n.result_json_lines)

-- A session whose buffers and JSON lines are given.
Reads : Session → Text → List Text → Type 0
Reads m buffer lines =
    (m.result_json_lines ≡ lines) × (held stdout m.buffers ≡ buffer) × IsDict m.buffers

delivered-Reads :
    (id : String) (stream : Stream) (lines : List Text) (n : Session) (buffer : Text)
    (before : List Text)
    → Reads n buffer before
    → Reads (deliver id stream lines n) buffer (before ++ capture stream lines)
unfolding Reads
delivered-Reads id stream lines n buffer before (e, f, g) = (
  captured id stream lines n ∙ ap (λ xs. xs ++ capture stream lines) e,
  ap (held stdout) (deliver-buffers id stream lines n) ∙ f,
  subst IsDict (sym (deliver-buffers id stream lines n)) g,
)

put-Reads :
    (stream : Stream) (buffer : Text) (n : Session)
    → IsDict n.buffers
    → Reads
        (record n { buffers = Dict.put n.buffers stream buffer })
        (if stream == stdout then buffer else held stdout n.buffers)
        n.result_json_lines
unfolding Reads
put-Reads stdout buffer n h = (
  refl,
  ap buffer_of (get-put n.buffers stdout buffer stdout),
  put-IsDict n.buffers stdout buffer h,
)
put-Reads stderr buffer n h = (
  refl,
  ap buffer_of (get-put n.buffers stderr buffer stdout),
  put-IsDict n.buffers stderr buffer h,
)

same-Reads : (n : Session) → IsDict n.buffers → Reads n (held stdout n.buffers) n.result_json_lines
unfolding Reads
same-Reads n h = (refl, refl, h)

branch-Reads :
    (id : String) (t : Bool) (stream : Stream) (buffer : Text) (lines : List Text) (n : Session)
    → IsDict n.buffers
    → (t ≡ true
        → ((if stream == stdout then buffer else held stdout n.buffers) ≡ held stdout n.buffers)
          × (lines ≡ []))
    → Reads
        (if t
          then n
          else deliver id stream lines (record n { buffers = Dict.put n.buffers stream buffer }))
        (if stream == stdout then buffer else held stdout n.buffers)
        (n.result_json_lines ++ capture stream lines)
branch-Reads id true stream buffer lines n h empty =
    let (e, f) = empty refl in rw (e, f) (nothing stream)
  where
    nothing :
        (stream : Stream)
        → Reads n (held stdout n.buffers) (n.result_json_lines ++ capture stream [])
    nothing stdout = rw append-nil (same-Reads n h)
    nothing stderr = rw append-nil (same-Reads n h)
branch-Reads id false stream buffer lines n h empty =
    delivered-Reads id stream lines (record n { buffers = Dict.put n.buffers stream buffer })
      (if stream == stdout then buffer else held stdout n.buffers) n.result_json_lines
      (put-Reads stream buffer n h)

push-empty : (buffer payload : Text) → is_empty payload ≡ true → push buffer payload ≡ (buffer, [])
unfolding push
push-empty buffer payload e = rw e refl

chunk-stdout :
    (id : String) (payload : Text) (n : Session)
    → IsDict n.buffers
    → Reads
        (handle_stream_chunk id stdout payload n)
        (push (held stdout n.buffers) payload).0
        (n.result_json_lines ++ capture stdout (push (held stdout n.buffers) payload).1)
unfolding handle_stream_chunk
chunk-stdout id payload n h =
    let (buffer, lines) = push (held stdout n.buffers) payload in
    branch-Reads id (is_empty payload) stdout buffer lines n h (λ e. (
      ap (λ p. p.0) (push-empty (held stdout n.buffers) payload e),
      ap (λ p. p.1) (push-empty (held stdout n.buffers) payload e),
    ))

chunk-stderr :
    (id : String) (payload : Text) (n : Session)
    → IsDict n.buffers
    → Reads
        (handle_stream_chunk id stderr payload n)
        (held stdout n.buffers)
        (n.result_json_lines ++ [])
unfolding handle_stream_chunk
chunk-stderr id payload n h =
    let (buffer, lines) = push (held stderr n.buffers) payload in
    branch-Reads id (is_empty payload) stderr buffer lines n h
      (λ e. (refl, ap (λ p. p.1) (push-empty (held stderr n.buffers) payload e)))

-- The JSON lines of the rest of a command.
rest_lem :
    (id : String) (chunks : List (Stream × Text)) (n : Session)
    → IsDict n.buffers
    → (finalize_job_streams id (handle_chunks id chunks n)).result_json_lines
      ≡ n.result_json_lines
        ++ capture stdout (feed (held stdout n.buffers) (chunks_of stdout chunks))
unfolding finalize_job_streams Reads
rest_lem id [] n h = finalize_lem id n.buffers (record n { buffers = [] }) h
rest_lem id ((stdout, payload) ∷ chunks) n h =
    let (buffer, lines) = push (held stdout n.buffers) payload in
    let (e, f, g) = chunk-stdout id payload n h in
    rest_lem id chunks (handle_stream_chunk id stdout payload n) g
    ∙ rw (e, f)
        (append_assoc n.result_json_lines (capture stdout lines)
            (capture stdout (feed buffer (chunks_of stdout chunks)))
          ∙ ap (λ xs. n.result_json_lines ++ xs)
              (sym (capture-append lines (feed buffer (chunks_of stdout chunks)))))
rest_lem id ((stderr, payload) ∷ chunks) n h =
    let (e, f, g) = chunk-stderr id payload n h in
    rest_lem id chunks (handle_stream_chunk id stderr payload n) g ∙ rw (e, f, append-nil) refl

-- However the host cuts a command's output into chunks, and however those of its two streams are
-- interleaved, the JSON lines that are kept are the lines of the standard output that begin with a
-- brace after white space, stripped and in order.
pub result_lines_lem :
    (job_id : String) (chunks : List (Stream × Text)) (s : JobService)
    → (stream_command job_id chunks s).result_json_lines
      ≡ filter starts_with_brace (map strip (stream_lines (flatten (chunks_of stdout chunks))))
result_lines_lem job_id chunks s =
    rest_lem job_id chunks (record { buffers = []; result_json_lines = []; service = s }) tt
    ∙ ap (capture stdout)
        (held_nothing (chunks_of stdout chunks) ∙ feed-stream_lines (chunks_of stdout chunks))
  where
    held_nothing : (cs : List Text) → feed (held stdout []) cs ≡ feed [] cs
    held_nothing cs = ap (λ o. feed (buffer_of o) cs) (get-nil stdout)
