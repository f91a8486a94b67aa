-- ===== src/Host/Framing/Headers/Length.antt =====
-- crates/agentmesh-host/src/framing.rs: the body length that `parse_headers` accepts.
use agentmesh_private.Common.{
  ℕ, ◌≤◌, Text, some, List, [], ◌∷◌, ◌≡◌, arith, inl, inr, ◌+◌, Option-cases,
}
use agentmesh_private.Common.Results.{ok, >>=-eq-ok}
use agentmesh_private.Common.Map.{Map}
use agentmesh_private.Common.Utf8.{from_utf8}
use agentmesh_private.Host.Framing.Headers.{
  Seen, length_value, header_field, header_line, header_lines, split_once, split_crlf, trim,
  nothing_seen, declared, parse_headers,
}

-- The length that was seen, if any, is at most `frame_max`.
abbrev IsWithin : ℕ → Seen → Type 0
IsWithin frame_max s = (n : ℕ) → s.content_length ≡ some n → n ≤ frame_max

module _ (digits_max frame_max : ℕ) where
  length_value-le :
      (value : Text) (n : ℕ) → length_value digits_max frame_max value ≡ ok n → n ≤ frame_max
  unfolding length_value
  length_value-le value n h = ground arith

  header_field-IsWithin :
      (s t : Seen) (name value : Text)
      → IsWithin frame_max s
      → header_field digits_max frame_max s name value ≡ ok t
      → IsWithin frame_max t
  unfolding header_field
  header_field-IsWithin s t name value w h n e = ground (arith, w n, length_value-le value n)

  header_line-IsWithin :
      (max_lines : ℕ) (s t : Seen) (l : Text)
      → IsWithin frame_max s
      → header_line digits_max frame_max max_lines s l ≡ ok t
      → IsWithin frame_max t
  unfolding header_line
  header_line-IsWithin max_lines s t [] w h n e = ground (arith, w n)
  header_line-IsWithin max_lines s t (c ∷ l) w h n e =
      elim (Option-cases (split_once b':' (c ∷ l))) [
        | inl missing ↦ absurd (ground arith)
        | inr ((name, value), found) ↦
            header_field-IsWithin (record s { line_count = s.line_count + 1 }) t (trim name)
              (trim value) w (ground arith) n e
      ]

  header_lines-IsWithin :
      (max_lines : ℕ) (s t : Seen) (ls : List Text)
      → IsWithin frame_max s
      → header_lines digits_max frame_max max_lines s ls ≡ ok t
      → IsWithin frame_max t
  unfolding header_lines
  header_lines-IsWithin max_lines s t [] w h = λ n e. ground (arith, w n)
  header_lines-IsWithin max_lines s t (l ∷ ls) w h =
      let (u, head, rest) = >>=-eq-ok (header_line digits_max frame_max max_lines s l) _ h in
      header_lines-IsWithin max_lines u t ls (header_line-IsWithin max_lines s u l w head) rest

  -- A header block that is accepted declares a body within the frame limit.
  pub parse_headers-le :
      (max_lines : ℕ) (block : Text) (len : ℕ) (unknown : Map Text)
      → parse_headers digits_max frame_max max_lines block ≡ ok (len, unknown)
      → len ≤ frame_max
  unfolding parse_headers
  parse_headers-le max_lines block len unknown h = elim (Option-cases (from_utf8 block)) [
    | inl bad ↦ absurd (ground arith)
    | inr (text, good) ↦
        let (s, seen, last) =
          >>=-eq-ok (header_lines digits_max frame_max max_lines nothing_seen (split_crlf [] text))
            declared (rw (good, parse_headers) at h) in
        header_lines-IsWithin max_lines nothing_seen s (split_crlf [] text)
          (λ n e. absurd (ground arith)) seen len (ground arith)
  ]
