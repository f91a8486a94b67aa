-- ===== src/Host/Framing/Chunks.antt =====
-- crates/agentmesh-host/src/framing.rs: how the input is cut into chunks does not matter.
use agentmesh_private.Common.{
  ℕ, Text, none, [], ◌∷◌, ◌++◌, ◌≡◌, refl, ap, subst, Bool-cases, inl, inr, arith, length, ltb,
  append_assoc,
}
use agentmesh_private.Common.Results.{ok, err}
use agentmesh_private.Common.Map.{Map}
use agentmesh_private.Host.Framing.Headers.{FrameDecodeError}
use agentmesh_private.Host.Framing.{
  FrameLimits, DecodeState, headers, in_body, FrameDecoder, Reply, Advance, fault, more, blank_line,
  advance, read_body, read_headers, decode_from, try_decode, push,
}

abbrev fed : FrameDecoder → Text → FrameDecoder
fed d y = record d { buf = d.buf ++ y }

abbrev waiting : FrameLimits → Text → DecodeState → Reply × FrameDecoder
waiting limits buf s = (ok none, record { limits = limits; buf = buf; state = s })

-- A decoder that waits goes on with more bytes as one that had them from the start.
try_decode-waiting :
    (limits : FrameLimits) (buf y : Text) (s : DecodeState) (d : FrameDecoder)
    → waiting limits buf s ≡ (ok none, d)
    → try_decode (fed d y) ≡ decode_from limits (buf ++ y) s
unfolding try_decode
try_decode-waiting limits buf y s d e =
    subst (λ (d : FrameDecoder). try_decode (fed d y) ≡ decode_from limits (buf ++ y) s)
      (ap (λ p. p.1) e) refl

read_body-append :
    (limits : FrameLimits) (len : ℕ) (unknown : Map Text) (buf y : Text) (d : FrameDecoder)
    → read_body limits len unknown buf ≡ (ok none, d)
    → try_decode (fed d y) ≡ read_body limits len unknown (buf ++ y)
unfolding read_body
read_body-append limits len unknown buf y d h = elim (Bool-cases (ltb (length buf) len)) [
  | inl short ↦
      unfold decode_from read_body in
      try_decode-waiting limits buf y (in_body len unknown) d (rw short at h)
  | inr full ↦ absurd (ground arith)
]

refused :
    {e : FrameDecodeError} {a b : FrameDecoder}
    → ◌≡◌ {A = Reply × FrameDecoder} (err e, a) (ok none, b)
    → ⊥
refused h = cc

read_headers-append :
    (limits : FrameLimits) (block : Text) (line_start lines : ℕ) (buf y : Text) (d : FrameDecoder)
    → read_headers limits block line_start lines buf ≡ (ok none, d)
    → try_decode (fed d y) ≡ read_headers limits block line_start lines (buf ++ y)
unfolding read_headers decode_from
read_headers-append limits block ls n [] y d h =
    try_decode-waiting limits [] y (headers block ls n) d h
read_headers-append limits block ls n (byte ∷ buf) y d h =
    go (advance limits block ls n byte) refl (λ b l m. read_headers-append limits b l m buf y d)
  where
    go :
        (a : Advance)
        → advance limits block ls n byte ≡ a
        → ((b : Text) (l m : ℕ)
            → read_headers limits b l m buf ≡ (ok none, d)
            → try_decode (fed d y) ≡ read_headers limits b l m (buf ++ y))
        → try_decode (fed d y) ≡ read_headers limits block ls n (byte ∷ buf ++ y)
    go (fault e s) p ih = absurd (refused (rw (p, read_headers) at h))
    go (more b l m) p ih = rw (p, read_headers) (ih b l m (rw (p, read_headers) at h))
    go (blank_line len unknown) p ih =
        rw (p, read_headers)
          (read_body-append limits len unknown buf y d (rw (p, read_headers) at h))

decode_from-append :
    (limits : FrameLimits) (buf y : Text) (s : DecodeState) (d : FrameDecoder)
    → decode_from limits buf s ≡ (ok none, d)
    → try_decode (fed d y) ≡ decode_from limits (buf ++ y) s
unfolding decode_from
decode_from-append limits buf y (headers block ls n) d h =
    read_headers-append limits block ls n buf y d h
decode_from-append limits buf y (in_body len unknown) d h =
    read_body-append limits len unknown buf y d h

try_decode-append :
    (c d : FrameDecoder) (y : Text)
    → try_decode c ≡ (ok none, d)
    → try_decode (fed d y) ≡ try_decode (fed c y)
unfolding try_decode
try_decode-append c d y h = decode_from-append c.limits c.buf y c.state d h

-- If the first chunk does not complete a frame, pushing the second one behind it has the reply and
-- leaves the decoder of pushing both as one chunk.
pub push-append :
    (d d' : FrameDecoder) (x y : Text) → push d x ≡ (ok none, d') → push d' y ≡ push d (x ++ y)
unfolding push
push-append d d' x y h =
    subst (λ b. try_decode (fed d' y) ≡ try_decode (record d { buf = b })) (append_assoc d.buf x y)
      (try_decode-append (fed d x) d' y h)
