-- ===== src/Host/Framing/RoundTrip.antt =====
-- crates/agentmesh-host/src/framing.rs: decoding what `FrameEncoder::encode` writes.
use agentmesh_private.Common.{
  ℕ, ◌+◌, ◌-◌, ◌≤◌, Text, bytes, true, false, ◌&&◌, some, [], ◌∷◌, ◌++◌, ◌≡◌, ◌≢◌, refl, ap, ◌∙◌,
  arith, All, All-append, length, length-append, take, drop, take-append, drop-append, ltb,
  is_empty, ◌==◌, append-nil, append_assoc,
}
use agentmesh_private.Common.Results.{ok, err}
use agentmesh_private.Common.Map.{Map}
use agentmesh_private.Common.Decimal.{is_digit, show, u64_max, All-digits-show}
use agentmesh_private.Host.Framing.Headers.{parse_headers}
use agentmesh_private.Host.Framing.Headers.Plain.{content_length_line, parse_headers-content_length}
use agentmesh_private.Host.Framing.{
  FrameLimits, headers, FrameDecoder, fault, more, blank_line, headers_end, line_step, advance,
  read_body, read_headers, decode_from, try_decode, push, new, ends_crlf, encode,
}

ends_crlf-snoc :
    (s : Text) (a b : ℕ) → ends_crlf ((s ++ a ∷ []) ++ b ∷ []) ≡ (a == b'\r' && b == b'\n')
unfolding ends_crlf
ends_crlf-snoc [] a b = refl
ends_crlf-snoc (c ∷ []) a b = refl
ends_crlf-snoc (c ∷ d ∷ []) a b = refl
ends_crlf-snoc (c ∷ d ∷ e ∷ s) a b = ends_crlf-snoc (d ∷ e ∷ s) a b

-- A block whose last byte is no line feed does not end a line.
ends_crlf-no_feed : (s : Text) (b : ℕ) → b ≢ b'\n' → ends_crlf (s ++ b ∷ []) ≡ false
unfolding ends_crlf
ends_crlf-no_feed [] b h = refl
ends_crlf-no_feed (c ∷ []) b h = ground arith
ends_crlf-no_feed (c ∷ d ∷ []) b h = ground arith
ends_crlf-no_feed (c ∷ d ∷ e ∷ s) b h = ends_crlf-no_feed (d ∷ e ∷ s) b h

module _ (limits : FrameLimits) (line_start lines : ℕ) where
  advance-no_feed :
      (block : Text) (b : ℕ)
      → b ≢ b'\n'
      → length block + 1 ≤ limits.header_block_max_bytes
      → length block + 1 ≤ limits.header_line_max_bytes + line_start
      → advance limits block line_start lines b ≡ more (block ++ b ∷ []) line_start lines
  unfolding advance line_step
  advance-no_feed block b h fits short =
      ground (arith, ends_crlf-no_feed block b, length-append block (b ∷ []))

  -- Bytes that are no line feeds go to the block.
  read_headers-no_feed :
      (block s buf : Text)
      → All (λ b. b ≢ b'\n') s
      → length block + length s ≤ limits.header_block_max_bytes
      → length block + length s ≤ limits.header_line_max_bytes + line_start
      → read_headers limits block line_start lines (s ++ buf)
        ≡ read_headers limits (block ++ s) line_start lines buf
  unfolding read_headers
  read_headers-no_feed block [] buf h fits short = rw append-nil
  read_headers-no_feed block (b ∷ s) buf (h, hs) fits short =
      rw (advance-no_feed block b h (omega arith) (omega arith), read_headers)
        (read_headers-no_feed (block ++ b ∷ []) s buf hs
            (omega (arith, length-append block (b ∷ [])))
            (omega (arith, length-append block (b ∷ [])))
          ∙ rw append_assoc)

abbrev line_text : Text → ℕ → Text
line_text block line_start = drop line_start (take (length block - 2) block)

module _ (limits : FrameLimits) (block : Text) (line_start lines : ℕ)
    (fits : length block ≤ limits.header_block_max_bytes)
    (short : length block ≤ limits.header_line_max_bytes + line_start)
    (ended : ends_crlf block ≡ true) where
  line_step-line_end :
      is_empty (line_text block line_start) ≡ false
      → lines + 1 ≤ limits.header_max_lines
      → line_step limits block line_start lines ≡ more block (length block) (lines + 1)
  unfolding line_step
  line_step-line_end full few = ground arith

  line_step-blank :
      is_empty (line_text block line_start) ≡ true
      → line_step limits block line_start lines ≡ headers_end limits block line_start lines
  unfolding line_step
  line_step-blank blank = ground arith

-- The slice between the line start and the line end that follows the text `s`.
line_text-crlf : (s : Text) (i : ℕ) → line_text ((s ++ b'\r' ∷ []) ++ b'\n' ∷ []) i ≡ drop i s
line_text-crlf s i = ap (drop i) (
    cut (length ((s ++ b'\r' ∷ []) ++ b'\n' ∷ []) - 2)
      (omega (arith, length-append (s ++ b'\r' ∷ []) (b'\n' ∷ []), length-append s (b'\r' ∷ []))))
  where
    cut : (n : ℕ) → n ≡ length s → take n ((s ++ b'\r' ∷ []) ++ b'\n' ∷ []) ≡ s
    cut n e = rw (e, append_assoc) (take-append s (b'\r' ∷ b'\n' ∷ []))

drop_all : (s : Text) → drop (length s) s ≡ []
drop_all [] = refl
drop_all (a ∷ s) = drop_all s

length-crlf : (s : Text) → length ((s ++ b'\r' ∷ []) ++ b'\n' ∷ []) ≡ length s + 2
length-crlf s =
    omega (arith, length-append (s ++ b'\r' ∷ []) (b'\n' ∷ []), length-append s (b'\r' ∷ []))

module _ (limits : FrameLimits) where
  -- The end of the first line, which is not blank.
  advance-line_end :
      (c : ℕ) (l : Text)
      → length l + 3 ≤ limits.header_block_max_bytes
      → length l + 3 ≤ limits.header_line_max_bytes
      → 1 ≤ limits.header_max_lines
      → advance limits ((c ∷ l) ++ b'\r' ∷ []) 0 0 b'\n'
        ≡ more
            (((c ∷ l) ++ b'\r' ∷ []) ++ b'\n' ∷ [])
            (length (((c ∷ l) ++ b'\r' ∷ []) ++ b'\n' ∷ []))
            1
  unfolding advance
  advance-line_end c l fits short few =
      line_step-line_end limits (((c ∷ l) ++ b'\r' ∷ []) ++ b'\n' ∷ []) 0 0
        (omega (arith, length-crlf (c ∷ l))) (omega (arith, length-crlf (c ∷ l)))
        (ends_crlf-snoc (c ∷ l) b'\r' b'\n') (ap is_empty (line_text-crlf (c ∷ l) 0)) few

  -- The blank line behind a block of whole lines.
  advance-blank :
      (s : Text) (lines : ℕ)
      → length s + 2 ≤ limits.header_block_max_bytes
      → 2 ≤ limits.header_line_max_bytes
      → advance limits (s ++ b'\r' ∷ []) (length s) lines b'\n'
        ≡ headers_end limits ((s ++ b'\r' ∷ []) ++ b'\n' ∷ []) (length s) lines
  unfolding advance
  advance-blank s lines fits short =
      line_step-blank limits ((s ++ b'\r' ∷ []) ++ b'\n' ∷ []) (length s) lines
        (omega (arith, length-crlf s)) (omega (arith, length-crlf s)) (ends_crlf-snoc s b'\r' b'\n')
        (ap is_empty (line_text-crlf s (length s) ∙ drop_all s))

-- The limits leave room for the header block of a body of `n` bytes.
pub record HasRoom (limits : FrameLimits) (n : ℕ) : Type 0 where
  pub frame : n ≤ limits.frame_max_bytes
  pub digits : length (show n) ≤ limits.content_length_digits_max
  pub word : n ≤ u64_max
  pub block : length (show n) + 20 ≤ limits.header_block_max_bytes
  pub line : length (show n) + 18 ≤ limits.header_line_max_bytes
  pub lines : 1 ≤ limits.header_max_lines

read_body-append :
    (limits : FrameLimits) (body rest : Text)
    → read_body limits (length body) [] (body ++ rest) ≡ (
      ok (some (record { body = body; unknown_headers = [] })),
      record { limits = limits; buf = rest; state = headers [] 0 0 },
    )
unfolding read_body
read_body-append limits body rest = rw (full, take-append body rest, drop-append body rest) refl
  where
    full : ltb (length (body ++ rest)) (length body) ≡ false
    full = ground (arith, length-append body rest)

module _ (limits : FrameLimits) (block : Text) (line_start lines byte : ℕ) (buf : Text) where
  read_headers-more :
      {block' : Text} {line_start' lines' : ℕ}
      → advance limits block line_start lines byte ≡ more block' line_start' lines'
      → read_headers limits block line_start lines (byte ∷ buf)
        ≡ read_headers limits block' line_start' lines' buf
  unfolding read_headers
  read_headers-more p = rw (p, read_headers) refl

  read_headers-blank :
      {n : ℕ} {unknown : Map Text}
      → advance limits block line_start lines byte ≡ blank_line n unknown
      → read_headers limits block line_start lines (byte ∷ buf) ≡ read_body limits n unknown buf
  unfolding read_headers
  read_headers-blank p = rw (p, read_headers) refl

take-snoc : (s : Text) (a b : ℕ) → take (length s) ((s ++ a ∷ []) ++ b ∷ []) ≡ s
take-snoc s a b =
    ap (take (length s)) (append_assoc s (a ∷ []) (b ∷ [])) ∙ take-append s (a ∷ b ∷ [])

abbrev crlf : Text
crlf = b'\r' ∷ b'\n' ∷ []

-- One header line and a blank line, from fresh headers.
module _ (limits : FrameLimits) (c : ℕ) (l : Text) (n : ℕ) (plain : All (λ b. b ≢ b'\n') (c ∷ l))
    (fits : length l + 5 ≤ limits.header_block_max_bytes)
    (short : length l + 3 ≤ limits.header_line_max_bytes) (few : 1 ≤ limits.header_max_lines)
    (parsed : parse_headers limits.content_length_digits_max limits.frame_max_bytes
        limits.header_max_lines
        ((c ∷ l) ++ crlf)
      ≡ ok (n, [])) where
  abbrev one_line : Text
  one_line = ((c ∷ l) ++ b'\r' ∷ []) ++ b'\n' ∷ []

  headers_end-one_line :
      headers_end limits ((one_line ++ b'\r' ∷ []) ++ b'\n' ∷ []) (length one_line) 1
      ≡ blank_line n []
  unfolding headers_end
  headers_end-one_line = go (take (length one_line) ((one_line ++ b'\r' ∷ []) ++ b'\n' ∷ [])) taken
    where
      taken : take (length one_line) ((one_line ++ b'\r' ∷ []) ++ b'\n' ∷ []) ≡ (c ∷ l) ++ crlf
      taken = take-snoc one_line b'\r' b'\n' ∙ append_assoc (c ∷ l) (b'\r' ∷ []) (b'\n' ∷ [])

      go :
          (t : Text)
          → t ≡ (c ∷ l) ++ crlf
          → (elim (parse_headers limits.content_length_digits_max limits.frame_max_bytes
              limits.header_max_lines t) [
                | ok (len, unknown) ↦ blank_line len unknown
                | err e ↦
                    fault e (headers ((one_line ++ b'\r' ∷ []) ++ b'\n' ∷ []) (length one_line) 1)
              ])
            ≡ blank_line n []
      go t e = rw (e, parsed) refl

  read_headers-one_line :
      (buf : Text)
      → read_headers limits [] 0 0 (((c ∷ l) ++ b'\r' ∷ []) ++ b'\n' ∷ b'\r' ∷ b'\n' ∷ buf)
        ≡ read_body limits n [] buf
  read_headers-one_line buf =
      read_headers-no_feed limits 0 0 [] ((c ∷ l) ++ b'\r' ∷ []) (b'\n' ∷ b'\r' ∷ b'\n' ∷ buf)
        (All-append _ (c ∷ l) (b'\r' ∷ []) plain (omega arith))
        (omega (arith, length-append l (b'\r' ∷ []))) (omega (arith, length-append l (b'\r' ∷ [])))
      ∙ read_headers-more limits ((c ∷ l) ++ b'\r' ∷ []) 0 0 b'\n' (b'\r' ∷ b'\n' ∷ buf)
          (advance-line_end limits c l (omega arith) short few)
      ∙ read_headers-more limits one_line (length one_line) 1 b'\r' (b'\n' ∷ buf) (
          advance-no_feed limits (length one_line) 1 one_line b'\r' (omega arith)
            (omega (arith, length-crlf (c ∷ l))) (omega arith))
      ∙ read_headers-blank limits (one_line ++ b'\r' ∷ []) (length one_line) 1 b'\n' buf (
          advance-blank limits one_line 1 (omega (arith, length-crlf (c ∷ l))) (omega arith)
          ∙ headers_end-one_line)

digits_no_feed : (s : Text) → All (λ b. is_digit b ≡ true) s → All (λ b. b ≢ b'\n') s
digits_no_feed [] h = tt
digits_no_feed (b ∷ s) (h, hs) = (ground arith, digits_no_feed s hs)

line-no_feed : (n : ℕ) → All (λ b. b ≢ b'\n') (content_length_line n)
line-no_feed n =
    All-append _ (bytes "Content-Length: ") (show n) (omega arith)
      (digits_no_feed (show n) (All-digits-show n))

abbrev pub fresh : FrameLimits → Text → FrameDecoder
fresh limits buf = record { limits = limits; buf = buf; state = headers [] 0 0 }

-- The encoded body, its first byte and the end of its header line set apart.
line_tail : Text → Text
line_tail body = bytes "ontent-Length: " ++ show (length body)

encode-split :
    (body rest : Text)
    → encode body ++ rest
      ≡ ((b'C' ∷ line_tail body) ++ b'\r' ∷ []) ++ b'\n' ∷ b'\r' ∷ b'\n' ∷ (body ++ rest)
unfolding encode line_tail
encode-split body rest = simp append_assoc

-- A decoder at the start of a frame, with room for it in its limits, decodes what the encoder wrote
-- into the body and no other header, and is then at the start of a frame with the bytes behind it.
pub push-encode :
    (limits : FrameLimits) (body rest : Text)
    → HasRoom limits (length body)
    → push (new limits) (encode body ++ rest)
      ≡ (ok (some (record { body = body; unknown_headers = [] })), fresh limits rest)
unfolding push try_decode decode_from new
push-encode limits body rest room =
    ap (read_headers limits [] 0 0) (encode-split body rest)
    ∙ unfold line_tail in
      (read_headers-one_line limits b'C' (line_tail body) (length body) (line-no_feed (length body))
        (omega (arith, room.block)) (omega (arith, room.line)) room.lines
        (parse_headers-content_length limits.content_length_digits_max limits.frame_max_bytes
          (length body) room.digits room.frame room.word limits.header_max_lines room.lines)
        (body ++ rest))
      ∙ read_body-append limits body rest
