-- ===== src/Host/Run/Stderr/Drained.antt =====
-- crates/agentmesh-host/src/run.rs: what the stderr task keeps of the stream.
use agentmesh_private.Common.{
  ℕ, zero, suc, ◌+◌, ◌-◌, ◌≤◌, ◌<◌, Text, Bool, true, false, Option, none, some, List, [], ◌∷◌,
  ◌++◌, append_assoc, append-nil, length, length-append, take, take-append_short, take-append_long,
  take-all, length-take_long, ltb, ◌≡◌, refl, sym, ap, ◌∙◌, inl, inr, Bool-cases, ltb→lt, arith,
  if◌then◌else◌,
}
use agentmesh_private.Host.Sidecar.{StderrCapture}
use agentmesh_private.Host.Run.Stderr.{
  Drain, drained_nothing, drain_chunk, drain, captured, stderr_capture,
}

-- The bytes of the stream up to its end or an error.
abbrev pub observed : List (Option Text) → Text
observed [] = []
observed (none ∷ reads) = []
observed (some [] ∷ reads) = []
observed (some (b ∷ s) ∷ reads) = (b ∷ s) ++ observed reads

-- The variables of the task, as functions of the stream so far.
abbrev drain_of : ℕ → Text → Drain
drain_of limit stream = record {
  retained = take limit stream;
  total = length stream;
  truncated = ltb limit (length stream);
  hashed = stream;
}

drain-ext :
    (r r' : Text) (n n' : ℕ) (c c' : Bool) (h : Text)
    → r ≡ r'
    → n ≡ n'
    → c ≡ c'
    → (◌≡◌ {A = Drain}
        (record { retained = r; total = n; truncated = c; hashed = h })
        (record { retained = r'; total = n'; truncated = c'; hashed = h }))
drain-ext r r' n n' c c' h same_r same_n same_c = rw (same_r, same_n, same_c) refl

truncated-room :
    (limit n k : ℕ)
    → n < limit
    → (if ltb (limit - n) k then true else ltb limit n) ≡ ltb limit (n + k)
truncated-room limit n k room = ground arith

-- A chunk that is not empty takes the variables from one stream to the longer one.
drain_chunk-drain_of :
    (limit : ℕ) (stream : Text) (b : ℕ) (s : Text)
    → drain_chunk limit (drain_of limit stream) (b ∷ s) ≡ drain_of limit (stream ++ b ∷ s)
unfolding drain_chunk
drain_chunk-drain_of limit stream b s = elim (Bool-cases (ltb (length stream) limit)) [
  | inl room ↦
      let small = ltb→lt (length stream) limit room in
      rw (take-all limit stream (omega (arith, small)), room)
        (drain-ext _ _ _ _ _ _ _
          (sym (take-append_short limit stream (b ∷ s) (omega (arith, small))))
          (sym (length-append stream (b ∷ s)))
          (truncated-room limit (length stream) (suc (length s)) small
            ∙ ap (ltb limit) (sym (length-append stream (b ∷ s)))))
  | inr full ↦
      let large : limit ≤ length stream = ground arith in
      let exact = length-take_long limit stream large in
      let over : ltb limit limit ≡ false = ground arith in
      let cut : true ≡ ltb limit (length stream + suc (length s)) = ground arith in
      rw (exact, over)
        (drain-ext _ _ _ _ _ _ _ (sym (take-append_long limit stream (b ∷ s) large))
          (sym (length-append stream (b ∷ s)))
          (cut ∙ ap (ltb limit) (sym (length-append stream (b ∷ s)))))
]

start : (limit : ℕ) → drained_nothing ≡ drain_of limit []
start zero = refl
start (suc limit) = drain-ext _ _ _ _ _ _ _ refl refl (ground arith)

drain-drain_of :
    (limit : ℕ) (stream : Text) (reads : List (Option Text))
    → drain limit (drain_of limit stream) reads ≡ drain_of limit (stream ++ observed reads)
unfolding drain
drain-drain_of limit stream [] = rw (append-nil) refl
drain-drain_of limit stream (none ∷ reads) = rw (append-nil) refl
drain-drain_of limit stream (some [] ∷ reads) = rw (append-nil) refl
drain-drain_of limit stream (some (b ∷ s) ∷ reads) =
    ap (λ d. drain limit d reads) (drain_chunk-drain_of limit stream b s)
    ∙ drain-drain_of limit (stream ++ b ∷ s) reads
    ∙ ap (drain_of limit) (append_assoc stream (b ∷ s) (observed reads))

-- Whatever pieces the stream comes in, the capture has the stream's length and its hash, it is marked as
-- truncated exactly if the stream is longer than the limit, and the raw text, if it is asked for, is that
-- of the stream's first bytes up to the limit.
pub stderr_capture-observed :
    (sha256_hex lossy : Text → Text) (limit : ℕ) (capture_raw : Bool) (reads : List (Option Text))
    → (◌≡◌ {A = StderrCapture} (stderr_capture sha256_hex lossy limit capture_raw reads) (record {
      byte_count = length (observed reads);
      sha256 = sha256_hex (observed reads);
      truncated = ltb limit (length (observed reads));
      raw_utf8_lossy = if capture_raw then some (lossy (take limit (observed reads))) else none;
      sensitive_content = capture_raw;
    }))
unfolding stderr_capture
stderr_capture-observed sha256_hex lossy limit capture_raw reads =
    ap (captured sha256_hex lossy capture_raw)
      (ap (λ d. drain limit d reads) (start limit) ∙ drain-drain_of limit [] reads)
