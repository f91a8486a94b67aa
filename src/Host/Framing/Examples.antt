-- ===== src/Host/Framing/Examples.antt =====
-- Runs of the frame decoder on small inputs, and instances of its theorems.
use agentmesh_private.Common.{
  ◌+◌, ◌≤◌, bytes, true, none, some, [], ◌∷◌, ◌++◌, ◌≡◌, refl, arith, length, str_eq,
}
use agentmesh_private.Common.Results.{ok, err}
use agentmesh_private.Common.Map.{insert}
use agentmesh_private.Common.Decimal.{show, parse_unsigned}
use agentmesh_private.Proto.Limits.{default_limits}
use agentmesh_private.Common.Utf8.{from_utf8}
use agentmesh_private.Host.Framing.Headers.{
  split_crlf, split_once, trim, header_lines, header_line, header_field, length_value,
  is_valid_header_name, is_valid_header_value, eq_ignore_ascii_case, parse_headers, invalid_framing,
  duplicate_length,
}
use agentmesh_private.Host.Framing.{
  FrameLimits, frame_limits, FrameDecoder, headers, new, push, try_decode, decode_from,
  read_headers, read_body, advance, line_step, headers_end, ends_crlf, encode,
}
use agentmesh_private.Host.Framing.Chunks.{push-append}
use agentmesh_private.Host.Framing.Bounds.{
  IsBoundedReply, Reaches, unread, one_more, advance-in_range, push-IsBounded, new-IsBounded,
}
use agentmesh_private.Host.Framing.RoundTrip.{fresh, push-encode}

abbrev limits : FrameLimits
limits = frame_limits default_limits

decodes_unknown_header :
    (push (new limits) (bytes "Content-Length: 2\r\nX-Trace: abc\r\n\r\n{}")).0
    ≡ ok
        (some (record { body = bytes "{}"; unknown_headers = (bytes "X-Trace", bytes "abc") ∷ [] }))
unfolding push new try_decode decode_from read_headers read_body advance line_step headers_end
    ends_crlf parse_headers from_utf8 split_crlf split_once trim header_lines header_line
    header_field length_value is_valid_header_name is_valid_header_value eq_ignore_ascii_case insert
    str_eq parse_unsigned
decodes_unknown_header = refl

rejects_duplicate :
    (push (new limits) (bytes "Content-Length: 2\r\nContent-Length: 2\r\n\r\n{}")).0
    ≡ err (invalid_framing duplicate_length)
unfolding push new try_decode decode_from read_headers read_body advance line_step headers_end
    ends_crlf parse_headers from_utf8 split_crlf split_once trim header_lines header_line
    header_field length_value is_valid_header_name is_valid_header_value eq_ignore_ascii_case insert
    str_eq parse_unsigned
rejects_duplicate = refl

abbrev half_read : FrameDecoder
half_read = record { limits = limits; buf = []; state = headers (bytes "Content") 0 0 }

push_half : push (new limits) (bytes "Content") ≡ (ok none, half_read)
unfolding push new try_decode decode_from read_headers advance line_step ends_crlf
push_half = refl

push-append_example :
    push half_read (bytes "-Length: 0\r\n\r\n")
    ≡ push (new limits) (bytes "Content-Length: 0\r\n\r\n")
push-append_example =
    push-append (new limits) half_read (bytes "Content") (bytes "-Length: 0\r\n\r\n") push_half

push-encode_example :
    push (new limits) (encode (bytes "{}") ++ bytes "Con")
    ≡ (ok (some (record { body = bytes "{}"; unknown_headers = [] })), fresh limits (bytes "Con"))
unfolding show
push-encode_example = push-encode limits (bytes "{}") (bytes "Con") (record {
  frame = omega arith;
  digits = omega arith;
  word = omega arith;
  block = omega arith;
  line = omega arith;
  lines = omega arith;
})

push-IsBounded_example : IsBoundedReply (push (new limits) (bytes "Content-Length: 7\r\n\r\n{"))
push-IsBounded_example =
    push-IsBounded (new limits) (bytes "Content-Length: 7\r\n\r\n{") (new-IsBounded limits)

-- Two line ends: the second one is the blank line.
two_lines : Reaches limits (bytes "a\r\n\r") 3 1
unfolding advance line_step ends_crlf
two_lines =
    one_more b'\r' (one_more b'\n' (one_more b'\r' (one_more b'a' unread refl) refl) refl) refl

advance-in_range_example :
    (3 ≤ length (bytes "a\r\n\r"))
    × (ends_crlf (bytes "a\r\n\r\n") ≡ true → 3 + 2 ≤ length (bytes "a\r\n\r\n"))
advance-in_range_example = advance-in_range limits (bytes "a\r\n\r") 3 1 b'\n' two_lines
