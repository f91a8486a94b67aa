-- ===== src/Host/Framing/Prefix.antt =====
-- crates/agentmesh-host/src/framing.rs: a reply that is there does not depend on later bytes.
use agentmesh_private.Common.{
  ℕ, ◌≤◌, Text, false, none, [], ◌∷◌, ◌++◌, ◌≡◌, ◌≢◌, refl, sym, ap, ◌∙◌, Bool-cases, inl, inr,
  arith, length, length-append, take-append_long, ltb, append_assoc,
}
use agentmesh_private.Common.Results.{ok}
use agentmesh_private.Common.Map.{Map}
use agentmesh_private.Host.Framing.{
  FrameLimits, DecodeState, headers, in_body, FrameDecoder, Advance, fault, more, blank_line,
  advance, read_body, read_headers, decode_from, try_decode, push,
}

read_body-later :
    (limits : FrameLimits) (len : ℕ) (unknown : Map Text) (buf y : Text)
    → (read_body limits len unknown buf).0 ≢ ok none
    → (read_body limits len unknown (buf ++ y)).0 ≡ (read_body limits len unknown buf).0
unfolding read_body
read_body-later limits len unknown buf y there = elim (Bool-cases (ltb (length buf) len)) [
  | inl short ↦ absurd (there (rw (short) refl))
  | inr full ↦
      let large : len ≤ length buf = ground arith in
      let more_too : ltb (length (buf ++ y)) len ≡ false = ground (arith, length-append buf y) in
      rw (full, more_too, take-append_long len buf y large) refl
]

read_headers-later :
    (limits : FrameLimits) (block : Text) (line_start lines : ℕ) (buf y : Text)
    → (read_headers limits block line_start lines buf).0 ≢ ok none
    → (read_headers limits block line_start lines (buf ++ y)).0
      ≡ (read_headers limits block line_start lines buf).0
unfolding read_headers
read_headers-later limits block ls n [] y there = absurd (there refl)
read_headers-later limits block ls n (byte ∷ buf) y there =
    by_advance (advance limits block ls n byte) refl
      (λ b l m. read_headers-later limits b l m buf y)
  where
    by_advance :
        (a : Advance)
        → advance limits block ls n byte ≡ a
        → ((b : Text) (l m : ℕ)
            → (read_headers limits b l m buf).0 ≢ ok none
            → (read_headers limits b l m (buf ++ y)).0 ≡ (read_headers limits b l m buf).0)
        → (read_headers limits block ls n (byte ∷ buf ++ y)).0
          ≡ (read_headers limits block ls n (byte ∷ buf)).0
    by_advance (fault e s) p ih = rw (p, read_headers) refl
    by_advance (more b l m) p ih = rw (p, read_headers) (ih b l m (rw (p, read_headers) at there))
    by_advance (blank_line len unknown) p ih =
        rw (p, read_headers)
          (read_body-later limits len unknown buf y (rw (p, read_headers) at there))

decode_from-later :
    (limits : FrameLimits) (buf y : Text) (s : DecodeState)
    → (decode_from limits buf s).0 ≢ ok none
    → (decode_from limits (buf ++ y) s).0 ≡ (decode_from limits buf s).0
unfolding decode_from
decode_from-later limits buf y (headers block ls n) there =
    read_headers-later limits block ls n buf y there
decode_from-later limits buf y (in_body len unknown) there =
    read_body-later limits len unknown buf y there

-- If pushing a chunk gives a frame or an error, pushing it with more bytes behind it gives the same.
pub push-later :
    (d : FrameDecoder) (x y : Text) → (push d x).0 ≢ ok none → (push d (x ++ y)).0 ≡ (push d x).0
unfolding push try_decode
push-later d x y there =
    ap (λ b. (decode_from d.limits b d.state).0) (sym (append_assoc d.buf x y))
    ∙ decode_from-later d.limits (d.buf ++ x) y d.state there
