-- ===== src/Host/Framing/Bounds.antt =====
-- crates/agentmesh-host/src/framing.rs: what a decoder holds is bounded by its limits, and the
-- slices that it takes are in range.
use agentmesh_private.Common.{
  ℕ, zero, suc, ◌+◌, ◌-◌, ◌≤◌, ◌<◌, Text, true, Bool-cases, none, some, [], ◌∷◌, ◌++◌, ◌≡◌, ◌⊎◌,
  inl, inr, refl, arith, length, length-append, get_elem?, ltb, drop, take, is_empty, ap, sym,
  subst, ◌∙◌,
}
use native.Mathlib.Nat.{zero-add, suc-add, add-zero}
use agentmesh_private.Common.Results.{Result, ok, err}
use agentmesh_private.Common.Map.{Map}
use agentmesh_private.Host.Framing.Headers.Length.{parse_headers-le}
use agentmesh_private.Host.Framing.Headers.{FrameDecodeError, parse_headers}
use agentmesh_private.Host.Framing.{
  FrameLimits, DecodeState, headers, in_body, FrameDecoder, Reply, Advance, fault, more, blank_line,
  headers_end, line_step, advance, read_body, read_headers, decode_from, try_decode, push, new,
  ends_crlf,
}

-- `line_start` is 0 or stands behind a line feed of the block.
pub record IsLineStart (block : Text) (line_start : ℕ) : Type 0 where
  pub inside : line_start ≤ length block
  pub behind_feed : (line_start ≡ 0) ⊎ (get_elem? block (line_start - 1) ≡ some b'\n')

abbrev pub IsBoundedState : FrameLimits → DecodeState → Type 0
IsBoundedState limits (headers block line_start lines) =
    (length block ≤ limits.header_block_max_bytes)
    × (lines ≤ limits.header_max_lines)
    × IsLineStart block line_start
IsBoundedState limits (in_body len unknown) = len ≤ limits.frame_max_bytes

abbrev pub IsBounded : FrameDecoder → Type 0
IsBounded d = IsBoundedState d.limits d.state

get_elem?-append : (s t : Text) (i : ℕ) → i < length s → get_elem? (s ++ t) i ≡ get_elem? s i
get_elem?-append [] t i h = elim h [ ]
get_elem?-append (a ∷ s) t zero h = refl
get_elem?-append (a ∷ s) t (suc i) h = get_elem?-append s t i (omega arith)

get_elem?_behind : (s t : Text) (i : ℕ) → get_elem? (s ++ t) (length s + i) ≡ get_elem? t i
get_elem?_behind [] t i = rw zero-add
get_elem?_behind (a ∷ s) t i = rw suc-add (get_elem?_behind s t i)

-- What `ends_crlf` tests.
ends_crlf→eq : (s : Text) → ends_crlf s ≡ true → (t : Text) × (s ≡ t ++ b'\r' ∷ b'\n' ∷ [])
unfolding ends_crlf
ends_crlf→eq [] h = absurd (ground arith)
ends_crlf→eq (a ∷ []) h = absurd (ground arith)
ends_crlf→eq (a ∷ b ∷ []) h = ([], ground arith)
ends_crlf→eq (a ∷ b ∷ c ∷ s) h =
    let ih = ends_crlf→eq (b ∷ c ∷ s) h in (a ∷ ih.0, ap (λ l. a ∷ l) ih.1)

module _ (block t : Text) (byte : ℕ) (eq : block ++ byte ∷ [] ≡ t ++ b'\r' ∷ b'\n' ∷ []) where
  line_end_sizes : length block ≡ length t + 1
  line_end_sizes =
      omega
        (arith, ap length eq, length-append block (byte ∷ []), length-append t (b'\r' ∷ b'\n' ∷ []))

  line_end_return : get_elem? block (length t) ≡ some b'\r'
  line_end_return =
      sym (get_elem?-append block (byte ∷ []) (length t) (omega (arith, line_end_sizes)))
      ∙ ap (λ l. get_elem? l (length t)) eq
      ∙ ap (get_elem? (t ++ b'\r' ∷ b'\n' ∷ [])) (sym (add-zero (length t)))
      ∙ get_elem?_behind t (b'\r' ∷ b'\n' ∷ []) 0

  before_line_end : (ls : ℕ) → IsLineStart block ls → ls + 1 ≤ length block
  before_line_end ls h = ground (arith, line_end_sizes, line_end_return)

  feed_at_end : IsLineStart (block ++ byte ∷ []) (length (block ++ byte ∷ []))
  feed_at_end = record {
    inside = omega arith;
    behind_feed = inr (feed _ (omega (arith, length-append block (byte ∷ []), line_end_sizes)));
  }
    where
      feed : (i : ℕ) → i ≡ length t + 1 → get_elem? (block ++ byte ∷ []) i ≡ some b'\n'
      feed i e = rw (e, eq) (get_elem?_behind t (b'\r' ∷ b'\n' ∷ []) 1)

line_start-le-line_end :
    (block : Text) (line_start byte : ℕ)
    → IsLineStart block line_start
    → ends_crlf (block ++ byte ∷ []) ≡ true
    → line_start + 2 ≤ length (block ++ byte ∷ [])
line_start-le-line_end block ls byte h e =
    let (t, eq) = ends_crlf→eq (block ++ byte ∷ []) e in
    omega (arith, length-append block (byte ∷ []), before_line_end block t byte eq ls h)

-- What a step leaves is bounded, unless it is a fault.
abbrev IsBoundedAdvance : FrameLimits → Advance → Type 0
IsBoundedAdvance limits (fault e s) = Unit
IsBoundedAdvance limits (more block line_start lines) =
    IsBoundedState limits (headers block line_start lines)
IsBoundedAdvance limits (blank_line len unknown) = len ≤ limits.frame_max_bytes

headers_end-IsBounded :
    (limits : FrameLimits) (block : Text) (line_start lines : ℕ)
    → IsBoundedAdvance limits (headers_end limits block line_start lines)
unfolding headers_end
headers_end-IsBounded limits block ls n =
    go
      (parse_headers limits.content_length_digits_max limits.frame_max_bytes limits.header_max_lines
        (take ls block))
      refl
  where
    go :
        (r : Result FrameDecodeError (ℕ × Map Text))
        → parse_headers limits.content_length_digits_max limits.frame_max_bytes
            limits.header_max_lines
            (take ls block)
          ≡ r
        → IsBoundedAdvance limits (headers_end limits block ls n)
    go (ok (len, unknown)) p = rw (p, headers_end) (parse_headers-le _ _ _ _ len unknown p)
    go (err e) p = rw (p, headers_end) tt

IsLineStart-append : (block t : Text) (ls : ℕ) → IsLineStart block ls → IsLineStart (block ++ t) ls
IsLineStart-append block t zero h = record { inside = omega arith; behind_feed = inl refl }
IsLineStart-append block t (suc ls) h = record {
  inside = omega (arith, length-append block t, h.inside);
  behind_feed =
      inr (get_elem?-append block t (suc ls - 1) (omega (arith, h.inside)) ∙ ground arith);
}

line_step-IsBounded :
    (limits : FrameLimits) (block : Text) (ls n : ℕ)
    → n ≤ limits.header_max_lines
    → IsLineStart block ls
    → (ends_crlf block ≡ true → IsLineStart block (length block))
    → IsBoundedAdvance limits (line_step limits block ls n)
unfolding line_step
line_step-IsBounded limits block ls n counted starts feed =
    elim (Bool-cases (ltb limits.header_block_max_bytes (length block))) [
      | inl big ↦ rw big tt
      | inr fits ↦
          rw fits (elim (Bool-cases (ltb limits.header_line_max_bytes (length block - ls))) [
            | inl long ↦ rw long tt
            | inr short ↦ rw short (elim (Bool-cases (ends_crlf block)) [
              | inr inside ↦ rw inside (ground arith, counted, starts)
              | inl at_end ↦
                  rw at_end
                    (elim (Bool-cases (is_empty (drop ls (take (length block - 2) block)))) [
                      | inl blank ↦ rw blank (headers_end-IsBounded limits block ls n)
                      | inr line ↦
                          rw line (elim (Bool-cases (ltb limits.header_max_lines (n + 1))) [
                            | inl many ↦ rw many tt
                            | inr few ↦ rw few (ground arith, ground arith, feed at_end)
                          ])
                    ])
            ])
          ])
    ]

advance-IsBounded :
    (limits : FrameLimits) (block : Text) (line_start lines byte : ℕ)
    → IsBoundedState limits (headers block line_start lines)
    → IsBoundedAdvance limits (advance limits block line_start lines byte)
unfolding advance
advance-IsBounded limits block ls n byte (sized, counted, starts) =
    line_step-IsBounded limits (block ++ byte ∷ []) ls n counted
      (IsLineStart-append block (byte ∷ []) ls starts)
      (λ e. let (t, eq) = ends_crlf→eq (block ++ byte ∷ []) e in feed_at_end block t byte eq)

-- The block, the line start and the number of lines that bytes of headers lead to, from those of a new
-- decoder.
pub data Reaches (limits : FrameLimits) : Text → ℕ → ℕ → Type 0 where
  unread : Reaches limits [] 0 0
  one_more :
      {block block' : Text} {line_start line_start' lines lines' : ℕ} (b : ℕ)
      → Reaches limits block line_start lines
      → advance limits block line_start lines b ≡ more block' line_start' lines'
      → Reaches limits block' line_start' lines'

Reaches-IsBounded :
    (limits : FrameLimits) (block : Text) (line_start lines : ℕ)
    → Reaches limits block line_start lines
    → IsBoundedState limits (headers block line_start lines)
Reaches-IsBounded limits block ls n unread =
    (omega arith, omega arith, record { inside = omega arith; behind_feed = inl refl })
Reaches-IsBounded limits block ls n
      (one_more {block = block₀} {line_start = ls₀} {lines = n₀} b before h) =
    subst (IsBoundedAdvance limits) h
      (advance-IsBounded limits block₀ ls₀ n₀ b (Reaches-IsBounded limits block₀ ls₀ n₀ before))

-- Whatever bytes of headers a decoder has read, its line start is in the block, so that the block before
-- it can be taken; and if the next byte ends a line, the line start is not behind the line end, two bytes
-- before the end of the block: both slices of the decoder are in range.
pub advance-in_range :
    (limits : FrameLimits) (block : Text) (line_start lines b : ℕ)
    → Reaches limits block line_start lines
    → (line_start ≤ length block)
      × (ends_crlf (block ++ b ∷ []) ≡ true → line_start + 2 ≤ length (block ++ b ∷ []))
advance-in_range limits block ls n b reached =
    let (_, _, starts) = Reaches-IsBounded limits block ls n reached in
    (starts.inside, line_start-le-line_end block ls b starts)

-- A reply that is no error carries no body above the limit, and leaves a bounded decoder.
abbrev pub IsBoundedReply : Reply × FrameDecoder → Type 0
IsBoundedReply (err e, d) = Unit
IsBoundedReply (ok none, d) = IsBounded d
IsBoundedReply (ok (some frame), d) = (length frame.body ≤ d.limits.frame_max_bytes) × IsBounded d

length-take_le : (n : ℕ) (s : Text) → length (take n s) ≤ n
length-take_le zero s = omega arith
length-take_le (suc n) [] = omega arith
length-take_le (suc n) (a ∷ s) = omega (arith, length-take_le n s)

read_body-IsBounded :
    (limits : FrameLimits) (len : ℕ) (unknown : Map Text) (buf : Text)
    → len ≤ limits.frame_max_bytes
    → IsBoundedReply (read_body limits len unknown buf)
unfolding read_body
read_body-IsBounded limits len unknown buf h = elim (Bool-cases (ltb (length buf) len)) [
  | inl short ↦ rw short h
  | inr full ↦ rw full (
    omega (arith, length-take_le len buf),
    (omega arith, omega arith, record { inside = omega arith; behind_feed = inl refl }),
  )
]

read_headers-IsBounded :
    (limits : FrameLimits) (block : Text) (line_start lines : ℕ) (buf : Text)
    → IsBoundedState limits (headers block line_start lines)
    → IsBoundedReply (read_headers limits block line_start lines buf)
unfolding read_headers
read_headers-IsBounded limits block ls n [] h = h
read_headers-IsBounded limits block ls n (byte ∷ buf) h =
    go (advance limits block ls n byte) refl (advance-IsBounded limits block ls n byte h)
      (λ b l m. read_headers-IsBounded limits b l m buf)
  where
    go :
        (a : Advance)
        → advance limits block ls n byte ≡ a
        → IsBoundedAdvance limits a
        → ((b : Text) (l m : ℕ)
            → IsBoundedState limits (headers b l m)
            → IsBoundedReply (read_headers limits b l m buf))
        → IsBoundedReply (read_headers limits block ls n (byte ∷ buf))
    go (fault e s) p k ih = rw (p, read_headers) tt
    go (more b l m) p k ih = rw (p, read_headers) (ih b l m k)
    go (blank_line len unknown) p k ih =
        rw (p, read_headers) (read_body-IsBounded limits len unknown buf k)

-- Pushing any bytes onto a bounded decoder, unless it reports an error, leaves a decoder whose
-- header block, line count and awaited body length are within the limits, and a frame that it
-- returns has a body within the limit.
pub push-IsBounded : (d : FrameDecoder) (x : Text) → IsBounded d → IsBoundedReply (push d x)
unfolding push try_decode
push-IsBounded d x h = go d.state h
  where
    go :
        (s : DecodeState)
        → IsBoundedState d.limits s
        → IsBoundedReply (decode_from d.limits (d.buf ++ x) s)
    go (headers block ls n) k =
        unfold decode_from in read_headers-IsBounded d.limits block ls n (d.buf ++ x) k
    go (in_body len unknown) k =
        unfold decode_from in read_body-IsBounded d.limits len unknown (d.buf ++ x) k

pub new-IsBounded : (limits : FrameLimits) → IsBounded (new limits)
unfolding new
new-IsBounded limits =
    (omega arith, omega arith, record { inside = omega arith; behind_feed = inl refl })
