-- ===== src/Host/Framing/Headers.antt =====
-- crates/agentmesh-host/src/framing.rs: `parse_headers` and its helpers. A header text is a list
-- of code points; a name or a value that is accepted is ASCII, so these are its bytes too.
pub mod Length
pub mod Plain
use agentmesh_private.Common.{
  ℕ, suc, ◌+◌, ◌-◌, ◌*◌, Text, bytes, Bool, true, false, not, ◌&&◌, ◌||◌, Option, none, some, List,
  [], ◌∷◌, ◌++◌, length, all, ltb, leb, ◌==◌, is_empty, str_eq, map, is_some, if◌then◌else◌,
}
use agentmesh_private.Common.Results.{Result, ok, err, ◌>>=◌}
use agentmesh_private.Common.Utf8.{from_utf8}
use agentmesh_private.Common.Map.{Map, insert}
use agentmesh_private.Common.Decimal.{is_digit, parse_unsigned, u64_max}

-- `FrameDecodeError`; the message is replaced by the reason that it states.
pub data Malformed : Type 0 where
  block_too_long line_too_long too_many_lines not_utf8 no_colon bad_name bad_value : Malformed
  duplicate_length length_not_decimal no_length : Malformed

pub data Oversize : Type 0 where
  too_many_digits integer_overflow above_frame_max : Oversize

pub data FrameDecodeError : Type 0 where
  invalid_framing : Malformed → FrameDecodeError
  frame_too_large : Oversize → FrameDecodeError
  unexpected_eof : FrameDecodeError

-- The code points with the property White_Space.
is_whitespace : ℕ → Bool
is_whitespace c =
    (leb 9 c && leb c 13)
    || c == 0x20
    || c == 0x85
    || c == 0xa0
    || c == 0x1680
    || (leb 0x2000 c && leb c 0x200a)
    || c == 0x2028
    || c == 0x2029
    || c == 0x202f
    || c == 0x205f
    || c == 0x3000

trim_start : Text → Text
unfolding is_whitespace
trim_start [] = []
trim_start (c ∷ s) = let rest = trim_start s in if is_whitespace c then rest else c ∷ s

trim_end : Text → Text
unfolding is_whitespace
trim_end [] = []
trim_end (c ∷ s) =
    let rest = trim_end s in if is_empty rest && is_whitespace c then [] else c ∷ rest

unfoldable pub trim : Text → Text
unfolding trim_start trim_end
trim s = trim_end (trim_start s)

-- `text.split("\r\n")`; the first argument is the piece so far.
unfoldable pub split_crlf : Text → Text → List Text
split_crlf cur [] = cur ∷ []
split_crlf cur (a ∷ []) = (cur ++ a ∷ []) ∷ []
split_crlf cur (a ∷ b ∷ s) =
    let next_piece = split_crlf [] s in
    let same_piece = split_crlf (cur ++ a ∷ []) (b ∷ s) in
    if a == b'\r' && b == b'\n' then cur ∷ next_piece else same_piece

-- `line.split_once(':')`.
unfoldable pub split_once : ℕ → Text → Option (Text × Text)
split_once sep [] = none
split_once sep (c ∷ s) =
    let rest = split_once sep s in
    if c == sep then some ([], s) else elim rest [ none ↦ none | some (l, r) ↦ some (c ∷ l, r) ]

abbrev pub lower : ℕ → ℕ
lower c = if leb b'A' c && leb c b'Z' then c + 32 else c

unfoldable pub eq_ignore_ascii_case : Text → Text → Bool
eq_ignore_ascii_case s t = str_eq (map lower s) (map lower t)

unfoldable pub is_valid_header_name : Text → Bool
is_valid_header_name name =
    not (is_empty name)
    && all
        (λ b.
          is_digit b
          || (leb b'a' b && leb b b'z')
          || (leb b'A' b && leb b b'Z')
          || b == b'-'
          || b == b'_')
        name

unfoldable pub is_valid_header_value : Text → Bool
is_valid_header_value value = all (λ b. leb 0x20 b && leb b 0x7e) value

-- The variables of the loop over the lines.
pub record Seen : Type 0 where
  pub content_length : Option ℕ
  pub unknown : Map Text
  pub line_count : ℕ

-- The branch of the Content-Length header.
unfoldable pub length_value : (digits_max frame_max : ℕ) → Text → Result FrameDecodeError ℕ
length_value digits_max frame_max value =
    if is_empty value || not (all is_digit value)
    then err (invalid_framing length_not_decimal)
    else if ltb digits_max (length value)
    then err (frame_too_large too_many_digits)
    else elim (parse_unsigned u64_max value) [
      | none ↦ err (frame_too_large integer_overflow)
      | some parsed ↦
          if ltb frame_max parsed then err (frame_too_large above_frame_max) else ok parsed
    ]

-- A name and a value of one line.
unfoldable pub header_field :
    (digits_max frame_max : ℕ) → Seen → Text → Text → Result FrameDecodeError Seen
header_field digits_max frame_max s name value =
    if is_empty name || not (is_valid_header_name name)
    then err (invalid_framing bad_name)
    else if not (is_valid_header_value value)
    then err (invalid_framing bad_value)
    else if eq_ignore_ascii_case name (bytes "Content-Length")
    then (if is_some s.content_length then err (invalid_framing duplicate_length) else do
      parsed ← length_value digits_max frame_max value
      ok (record s { content_length = some parsed }))
    else ok (record s { unknown = insert name value s.unknown })

unfoldable pub header_line :
    (digits_max frame_max max_lines : ℕ) → Seen → Text → Result FrameDecodeError Seen
header_line digits_max frame_max max_lines s [] = ok s
header_line digits_max frame_max max_lines s (c ∷ raw_line) =
    let t = record s { line_count = s.line_count + 1 } in
    if ltb max_lines t.line_count
    then err (invalid_framing too_many_lines)
    else elim (split_once b':' (c ∷ raw_line)) [
      | none ↦ err (invalid_framing no_colon)
      | some (name, value) ↦ header_field digits_max frame_max t (trim name) (trim value)
    ]

unfoldable pub header_lines :
    (digits_max frame_max max_lines : ℕ) → Seen → List Text → Result FrameDecodeError Seen
header_lines digits_max frame_max max_lines s [] = ok s
header_lines digits_max frame_max max_lines s (l ∷ ls) = do
  t ← header_line digits_max frame_max max_lines s l
  header_lines digits_max frame_max max_lines t ls

abbrev pub nothing_seen : Seen
nothing_seen = record { content_length = none; unknown = []; line_count = 0 }

abbrev pub declared : Seen → Result FrameDecodeError (ℕ × Map Text)
declared s = elim s.content_length [
  | none ↦ err (invalid_framing no_length)
  | some n ↦ ok (n, s.unknown)
]

unfoldable pub parse_headers :
    (digits_max frame_max max_lines : ℕ) → Text → Result FrameDecodeError (ℕ × Map Text)
parse_headers digits_max frame_max max_lines header_bytes = elim (from_utf8 header_bytes) [
  | none ↦ err (invalid_framing not_utf8)
  | some text ↦ do
    s ← header_lines digits_max frame_max max_lines nothing_seen (split_crlf [] text)
    declared s
]
