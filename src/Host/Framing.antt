-- ===== src/Host/Framing.antt =====
-- crates/agentmesh-host/src/framing.rs: the incremental frame decoder and the encoder. A method on
-- `&mut self` returns the decoder that it leaves.
pub mod Headers
pub mod Chunks
pub mod Bounds
pub mod RoundTrip
pub mod Prefix
mod Examples
use agentmesh_private.Common.{
  ℕ, suc, ◌+◌, ◌-◌, Text, bytes, Bool, true, false, not, ◌&&◌, ◌||◌, Option, none, some, List, [],
  ◌∷◌, ◌++◌, length, take, drop, ltb, ◌==◌, is_empty, if◌then◌else◌,
}
use agentmesh_private.Common.Results.{Result, ok, err}
use agentmesh_private.Common.Map.{Map}
use agentmesh_private.Common.Decimal.{show}
use agentmesh_private.Proto.Limits.{Limits}
use Headers.{
  FrameDecodeError, invalid_framing, unexpected_eof, block_too_long, line_too_long, too_many_lines,
  parse_headers,
}

pub record FrameLimits : Type 0 where
  pub frame_max_bytes : ℕ
  pub header_block_max_bytes : ℕ
  pub header_line_max_bytes : ℕ
  pub header_max_lines : ℕ
  pub content_length_digits_max : ℕ

-- `From<&Limits>`.
abbrev pub frame_limits : Limits → FrameLimits
frame_limits limits = record {
  frame_max_bytes = limits.frame_max_bytes;
  header_block_max_bytes = limits.header_block_max_bytes;
  header_line_max_bytes = limits.header_line_max_bytes;
  header_max_lines = limits.header_max_lines;
  content_length_digits_max = limits.content_length_digits_max;
}

pub record DecodedFrame : Type 0 where
  pub body : Text
  pub unknown_headers : Map Text

-- `headers block line_start lines`, `in_body length unknown_headers`.
pub data DecodeState : Type 0 where
  headers : Text → ℕ → ℕ → DecodeState
  in_body : ℕ → Map Text → DecodeState

pub record FrameDecoder : Type 0 where
  pub limits : FrameLimits
  pub buf : Text
  pub state : DecodeState

abbrev pub Reply : Type 0
Reply = Result FrameDecodeError (Option DecodedFrame)

unfoldable pub new : FrameLimits → FrameDecoder
new limits = record { limits = limits; buf = []; state = headers [] 0 0 }

-- Whether the last two bytes are "\r\n".
unfoldable pub ends_crlf : Text → Bool
ends_crlf [] = false
ends_crlf (a ∷ []) = false
ends_crlf (a ∷ b ∷ []) = a == b'\r' && b == b'\n'
ends_crlf (a ∷ b ∷ c ∷ s) = ends_crlf (b ∷ c ∷ s)

-- What one byte in the headers leads to.
pub data Advance : Type 0 where
  fault : FrameDecodeError → DecodeState → Advance
  more : Text → ℕ → ℕ → Advance
  blank_line : ℕ → Map Text → Advance

-- The blank line: the block up to the line is parsed.
unfoldable pub headers_end : FrameLimits → Text → ℕ → ℕ → Advance
headers_end limits block line_start lines =
    elim (parse_headers limits.content_length_digits_max limits.frame_max_bytes
      limits.header_max_lines (take line_start block)) [
        | ok (length, unknown) ↦ blank_line length unknown
        | err e ↦ fault e (headers block line_start lines)
      ]

-- The arm of `DecodeState::Headers`, after the byte is pushed onto the block.
unfoldable pub line_step : FrameLimits → Text → ℕ → ℕ → Advance
line_step limits block line_start lines =
    if ltb limits.header_block_max_bytes (length block)
    then fault (invalid_framing block_too_long) (headers block line_start lines)
    else if ltb limits.header_line_max_bytes (length block - line_start)
    then fault (invalid_framing line_too_long) (headers block line_start lines)
    else if ends_crlf block
    then (if is_empty (drop line_start (take (length block - 2) block))
        then headers_end limits block line_start lines
        else if ltb limits.header_max_lines (lines + 1)
        then fault (invalid_framing too_many_lines) (headers block line_start (lines + 1))
        else more block (length block) (lines + 1))
    else more block line_start lines

unfoldable pub advance : FrameLimits → Text → ℕ → ℕ → ℕ → Advance
advance limits block line_start lines byte = line_step limits (block ++ byte ∷ []) line_start lines

-- The arm of `DecodeState::Body`.
unfoldable pub read_body : FrameLimits → ℕ → Map Text → Text → Reply × FrameDecoder
read_body limits len unknown buf =
    if ltb (length buf) len
    then (ok none, record { limits = limits; buf = buf; state = in_body len unknown })
    else (
      ok (some (record { body = take len buf; unknown_headers = unknown })),
      record { limits = limits; buf = drop len buf; state = headers [] 0 0 },
    )

-- The loop of `try_decode` from the headers; it recurs on the buffered bytes.
unfoldable pub read_headers : FrameLimits → Text → ℕ → ℕ → Text → Reply × FrameDecoder
read_headers limits block line_start lines [] =
    (ok none, record { limits = limits; buf = []; state = headers block line_start lines })
read_headers limits block line_start lines (byte ∷ buf) =
    elim (advance limits block line_start lines byte) [
      | fault e s ↦ (err e, record { limits = limits; buf = buf; state = s })
      | more block' line_start' lines' ↦ read_headers limits block' line_start' lines' buf
      | blank_line len unknown ↦ read_body limits len unknown buf
    ]

unfoldable pub decode_from : FrameLimits → Text → DecodeState → Reply × FrameDecoder
decode_from limits buf (headers block line_start lines) =
    read_headers limits block line_start lines buf
decode_from limits buf (in_body len unknown) = read_body limits len unknown buf

unfoldable pub try_decode : FrameDecoder → Reply × FrameDecoder
try_decode d = decode_from d.limits d.buf d.state

unfoldable pub push : FrameDecoder → Text → Reply × FrameDecoder
push d bytes = try_decode (record d { buf = d.buf ++ bytes })

-- `finish` on an empty buffer.
pub at_end : DecodeState → Reply
at_end (headers [] line_start lines) = ok none
at_end _ = err unexpected_eof

-- `map_or_else` of `finish` on what is still decoded.
pub whole_frame : Reply → Reply
whole_frame (ok none) = err unexpected_eof
whole_frame r = r

unfoldable pub finish : FrameDecoder → Reply × FrameDecoder
finish d =
    if is_empty d.buf
    then (at_end d.state, d)
    else (let (r, d') = try_decode d in (whole_frame r, d'))

pub is_pending : DecodeState → Bool
is_pending (in_body len unknown) = true
is_pending (headers block line_start lines) = not (is_empty block)

unfoldable pub has_pending : FrameDecoder → Bool
has_pending d = not (is_empty d.buf) || is_pending d.state

abbrev pub buffered_len : FrameDecoder → ℕ
buffered_len d = length d.buf

-- `FrameEncoder::encode`.
unfoldable pub encode : Text → Text
encode body = (bytes "Content-Length: " ++ show (length body) ++ bytes "\r\n\r\n") ++ body
