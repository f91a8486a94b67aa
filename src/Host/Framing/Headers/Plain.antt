-- ===== src/Host/Framing/Headers/Plain.antt =====
-- crates/agentmesh-host/src/framing.rs: `parse_headers` on the header block that the encoder
-- writes, one Content-Length line.
use agentmesh_private.Common.{
  str_eq, ℕ, ◌≤◌, ◌<◌, Text, bytes, true, ◌&&◌, some, [], ◌∷◌, ◌++◌, ◌≡◌, ◌≢◌, refl, ap, ◌∙◌, arith,
  All, All-append, length, all, leb, append-nil, append_assoc,
}
use agentmesh_private.Common.Results.{ok}
use agentmesh_private.Common.Decimal.{
  is_digit, show, u64_max, parse_unsigned-show, All-digits-show, length-show_pos,
}
use agentmesh_private.Common.Utf8.{settled, utf8_byte, utf8_from, from_utf8}
use agentmesh_private.Host.Framing.Headers.{
  Seen, trim_start, trim_end, trim, split_crlf, split_once, eq_ignore_ascii_case,
  is_valid_header_name, is_valid_header_value, length_value, header_field, header_line,
  header_lines, nothing_seen, declared, parse_headers,
}

abbrev IsAscii : Text → Type 0
IsAscii = All (λ b. b < 128)

utf8_from-IsAscii : (s : Text) → IsAscii s → utf8_from settled s ≡ some s
unfolding utf8_from utf8_byte
utf8_from-IsAscii [] h = refl
utf8_from-IsAscii (b ∷ s) (h, hs) = ground (arith, utf8_from-IsAscii s hs)

abbrev IsDigits : Text → Type 0
IsDigits = All (λ b. is_digit b ≡ true)

IsDigits-all : (s : Text) → IsDigits s → all is_digit s ≡ true
IsDigits-all [] h = refl
IsDigits-all (b ∷ s) (h, hs) = rw (h, IsDigits-all s hs)

trim_start-IsDigits : (s : Text) → IsDigits s → trim_start s ≡ s
unfolding trim_start
trim_start-IsDigits [] h = refl
trim_start-IsDigits (b ∷ s) (h, hs) = ground arith

trim_end-IsDigits : (s : Text) → IsDigits s → trim_end s ≡ s
unfolding trim_end
trim_end-IsDigits [] h = refl
trim_end-IsDigits (b ∷ s) (h, hs) = rw (trim_end-IsDigits s hs) (ground arith)

split_crlf-no_return :
    (cur s : Text)
    → All (λ b. b ≢ b'\r') s
    → split_crlf cur (s ++ b'\r' ∷ b'\n' ∷ []) ≡ (cur ++ s) ∷ [] ∷ []
unfolding split_crlf
split_crlf-no_return cur [] h = rw append-nil
split_crlf-no_return cur (a ∷ []) h = ground arith
split_crlf-no_return cur (a ∷ b ∷ s) (h, hs) =
    ground
      (arith, split_crlf-no_return (cur ++ a ∷ []) (b ∷ s) hs, append_assoc cur (a ∷ []) (b ∷ s))

-- A digit is a visible ASCII character, and no carriage return.
digit_plain :
    (b : ℕ) → is_digit b ≡ true → (b < 128) × (b ≢ b'\r') × ((leb 0x20 b && leb b 0x7e) ≡ true)
digit_plain b h = ground arith

IsDigits-IsAscii : (s : Text) → IsDigits s → IsAscii s
IsDigits-IsAscii [] h = tt
IsDigits-IsAscii (b ∷ s) (h, hs) = ((digit_plain b h).0, IsDigits-IsAscii s hs)

IsDigits-no_return : (s : Text) → IsDigits s → All (λ b. b ≢ b'\r') s
IsDigits-no_return [] h = tt
IsDigits-no_return (b ∷ s) (h, hs) = ((digit_plain b h).1, IsDigits-no_return s hs)

IsDigits-value : (s : Text) → IsDigits s → is_valid_header_value s ≡ true
unfolding is_valid_header_value
IsDigits-value [] h = refl
IsDigits-value (b ∷ s) (h, hs) = rw ((digit_plain b h).2, IsDigits-value s hs)

abbrev pub content_length_line : ℕ → Text
content_length_line n = bytes "Content-Length: " ++ show n

-- A block that splits into one line and the empty piece behind its end.
parse_headers-one_line :
    (digits_max frame_max max_lines : ℕ) (block text line : Text) (s : Seen)
    → from_utf8 block ≡ some text
    → split_crlf [] text ≡ line ∷ [] ∷ []
    → header_line digits_max frame_max max_lines nothing_seen line ≡ ok s
    → parse_headers digits_max frame_max max_lines block ≡ declared s
unfolding parse_headers header_lines
parse_headers-one_line digits_max frame_max max_lines block text line s p q r =
    rw (p, parse_headers) (rw (q, r) (unfold header_line in refl))

module _ (digits_max frame_max n : ℕ) (fits_digits : length (show n) ≤ digits_max)
    (fits_frame : n ≤ frame_max) (fits_word : n ≤ u64_max) where
  length_value-show : length_value digits_max frame_max (show n) ≡ ok n
  unfolding length_value
  length_value-show = ground (
    arith,
    IsDigits-all (show n) (All-digits-show n),
    length-show_pos n,
    parse_unsigned-show u64_max n,
  )

  trim-space : trim (b' ' ∷ show n) ≡ show n
  unfolding trim trim_start
  trim-space =
      ap trim_end (trim_start-IsDigits (show n) (All-digits-show n))
      ∙ trim_end-IsDigits (show n) (All-digits-show n)

  header_line-content_length :
      (max_lines : ℕ)
      → 1 ≤ max_lines
      → header_line digits_max frame_max max_lines nothing_seen (content_length_line n)
        ≡ ok (record { content_length = some n; unknown = []; line_count = 1 })
  unfolding header_line header_field split_once is_valid_header_name eq_ignore_ascii_case str_eq
  header_line-content_length max_lines h =
      rw (trim-space, IsDigits-value (show n) (All-digits-show n), length_value-show)
        (unfold trim in ground arith)

  line_text :
      from_utf8 (content_length_line n ++ bytes "\r\n")
      ≡ some (content_length_line n ++ bytes "\r\n")
  unfolding from_utf8
  line_text = utf8_from-IsAscii (content_length_line n ++ bytes "\r\n") (
      All-append _ (content_length_line n) (bytes "\r\n")
        (All-append _ (bytes "Content-Length: ") (show n) (omega arith)
          (IsDigits-IsAscii (show n) (All-digits-show n)))
        (omega arith))

  line_pieces :
      split_crlf [] (content_length_line n ++ bytes "\r\n") ≡ content_length_line n ∷ [] ∷ []
  line_pieces = split_crlf-no_return [] (content_length_line n) (
      All-append _ (bytes "Content-Length: ") (show n) (omega arith)
        (IsDigits-no_return (show n) (All-digits-show n)))

  -- The block of one Content-Length line declares that length and no other header.
  pub parse_headers-content_length :
      (max_lines : ℕ)
      → 1 ≤ max_lines
      → parse_headers digits_max frame_max max_lines (content_length_line n ++ bytes "\r\n")
        ≡ ok (n, [])
  parse_headers-content_length max_lines h =
      parse_headers-one_line digits_max frame_max max_lines _ _ _ _ line_text line_pieces
        (header_line-content_length max_lines h)
