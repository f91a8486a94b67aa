-- ===== src/Host/Run/Frames/Chunked.antt =====
-- crates/agentmesh-host/src/run.rs: `read_one_frame` on a stream that comes in pieces.
use agentmesh_private.Common.{
  ℕ, Text, true, none, some, List, [], ◌∷◌, ◌++◌, append-nil, length, ◌≡◌, ◌≢◌, refl, ap, ◌∙◌,
}
use agentmesh_private.Common.Results.{Result, ok, err}
use agentmesh_private.Host.Framing.{
  FrameLimits, DecodedFrame, FrameDecoder, Reply, new, push, encode,
}
use agentmesh_private.Host.Framing.Chunks.{push-append}
use agentmesh_private.Host.Framing.Prefix.{push-later}
use agentmesh_private.Host.Framing.RoundTrip.{HasRoom, push-encode}
use agentmesh_private.Host.Run.Frames.{
  Observed, got, ReadFrameError, after_push, read_from, read_one_frame,
}

-- A chunk of at least one byte: its first one and the others.
abbrev pub Chunk : Type 0
Chunk = ℕ × Text

abbrev pub chunk_bytes : Chunk → Text
chunk_bytes (b, s) = b ∷ s

abbrev pub joined : List Chunk → Text
joined [] = []
joined (c ∷ cs) = chunk_bytes c ++ joined cs

abbrev pub reads : List Chunk → List Observed → List Observed
reads [] after = after
reads (c ∷ cs) after = got (chunk_bytes c) ∷ reads cs after

-- The loop on pieces of a stream ends as on the stream in one piece.
read_from-joined :
    (d : FrameDecoder) (c : Chunk) (cs : List Chunk) (after : List Observed)
    → read_from d (reads (c ∷ cs) after)
      ≡ (let (reply, d') = push d (joined (c ∷ cs)) in after_push reply (read_from d' after))
unfolding read_from
read_from-joined d (b, s) [] after = rw (append-nil) refl
read_from-joined d (b, s) (c ∷ cs) after =
    by_reply (push d (b ∷ s)).0 (push d (b ∷ s)).1 refl (λ d'. read_from-joined d' c cs after)
  where
    rest : Text
    rest = joined (c ∷ cs)

    ends : Reply × FrameDecoder → Result ReadFrameError DecodedFrame
    ends (reply, d') = after_push reply (read_from d' after)

    settled :
        (r : Reply)
        → (push d (b ∷ s)).0 ≡ r
        → r ≢ ok none
        → after_push r (ends (push d ((b ∷ s) ++ rest))) ≡ ends (push d ((b ∷ s) ++ rest))
    settled (ok none) now there = absurd (there refl)
    settled (ok (some f)) now there = rw (push-later d (b ∷ s) rest (rw (now) there), now) refl
    settled (err e) now there = rw (push-later d (b ∷ s) rest (rw (now) there), now) refl

    by_reply :
        (r : Reply) (d' : FrameDecoder)
        → push d (b ∷ s) ≡ (r, d')
        → ((d'' : FrameDecoder) → read_from d'' (reads (c ∷ cs) after) ≡ ends (push d'' rest))
        → after_push r (read_from d' (reads (c ∷ cs) after)) ≡ ends (push d ((b ∷ s) ++ rest))
    by_reply (ok none) d' now later = later d' ∙ ap ends (push-append d d' (b ∷ s) rest now)
    by_reply (ok (some f)) d' now later = settled (ok (some f)) (ap (λ p. p.0) now) cc
    by_reply (err e) d' now later = settled (err e) (ap (λ p. p.0) now) cc

-- Whatever pieces of at least one byte the plugin's output comes in, if a frame of the encoder is what
-- it starts with, and the limits have room for its body, `read_one_frame` returns the body, and no
-- other header. What the loop would observe after the pieces does not matter.
pub read_one_frame-encode :
    (limits : FrameLimits) (body rest : Text) (c : Chunk) (cs : List Chunk) (after : List Observed)
    → HasRoom limits (length body)
    → joined (c ∷ cs) ≡ encode body ++ rest
    → read_one_frame true limits (reads (c ∷ cs) after)
      ≡ ok (record { body = body; unknown_headers = [] })
unfolding read_one_frame
read_one_frame-encode limits body rest c cs after room same =
    read_from-joined (new limits) c cs after ∙ rw (same, push-encode limits body rest room) refl
