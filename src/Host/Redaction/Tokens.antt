-- ===== src/Host/Redaction/Tokens.antt =====
-- crates/agentmesh-host/src/redaction.rs: the tokens of a pointer against RFC 6901.
use agentmesh_private.Common.{
  ℕ, Text, bytes, true, false, List, [], ◌∷◌, ◌++◌, map, str_eq, is_empty, ◌==◌, if◌then◌else◌, ◌≡◌,
  ◌⊎◌, inl, inr, refl, sym, ap, ◌∙◌, arith, append-nil,
}
use agentmesh_private.Common.Results.{ok}
use agentmesh_private.Host.Redaction.{
  validate_pointer, replace_escape, decode_token, escapes_ok, trim_slashes, split_slash, tokens_of,
}

-- The spelling of a token in a pointer: "~0" for "~", "~1" for "/".
unfoldable pub escape_token : Text → Text
escape_token [] = []
escape_token (c ∷ s) =
    let rest = escape_token s in
    if c == b'~' then b'~' ∷ b'0' ∷ rest else if c == b'/' then b'~' ∷ b'1' ∷ rest else c ∷ rest

-- The token with its "~" spelled "~0".
escape_tilde : Text → Text
escape_tilde [] = []
escape_tilde (c ∷ s) =
    let rest = escape_tilde s in if c == b'~' then b'~' ∷ b'0' ∷ rest else c ∷ rest

first_pass : (t : Text) → replace_escape b'1' b'/' false (escape_token t) ≡ escape_tilde t
unfolding escape_token escape_tilde replace_escape
first_pass [] = refl
first_pass (c ∷ s) = ground (arith, first_pass s)

second_pass : (t : Text) → replace_escape b'0' b'~' false (escape_tilde t) ≡ t
unfolding escape_tilde replace_escape
second_pass [] = refl
second_pass (c ∷ s) = ground (arith, second_pass s)

decode_token-escape_token : (t : Text) → decode_token (escape_token t) ≡ t
unfolding decode_token
decode_token-escape_token t = ap (replace_escape b'0' b'~' false) (first_pass t) ∙ second_pass t

escape_token-cut :
    (t rest : Text)
    → split_slash (escape_token t ++ b'/' ∷ rest) ≡ escape_token t ∷ split_slash rest
unfolding escape_token split_slash
escape_token-cut [] rest = refl
escape_token-cut (c ∷ s) rest = ground (arith, escape_token-cut s rest)

escape_token-whole : (t : Text) → split_slash (escape_token t) ≡ escape_token t ∷ []
unfolding escape_token split_slash
escape_token-whole [] = refl
escape_token-whole (c ∷ s) = ground (arith, escape_token-whole s)

-- The pointer that RFC 6901 writes for tokens: a "/" before each.
unfoldable pub joined : List Text → Text
joined [] = []
joined (t ∷ []) = escape_token t
joined (t ∷ u ∷ ts) = escape_token t ++ b'/' ∷ joined (u ∷ ts)

unfoldable pub pointer_of : List Text → Text
pointer_of ts = b'/' ∷ joined ts

split_slash-joined :
    (t : Text) (ts : List Text) → split_slash (joined (t ∷ ts)) ≡ map escape_token (t ∷ ts)
unfolding joined
split_slash-joined t [] = escape_token-whole t
split_slash-joined t (u ∷ ts) =
    escape_token-cut t (joined (u ∷ ts)) ∙ ap (λ l. escape_token t ∷ l) (split_slash-joined u ts)

decoded : (ts : List Text) → map decode_token (map escape_token ts) ≡ ts
decoded [] = refl
decoded (t ∷ ts) = rw (decode_token-escape_token t, decoded ts) refl

escapes_ok-escape_token :
    (t rest : Text) → escapes_ok false (escape_token t ++ rest) ≡ escapes_ok false rest
unfolding escapes_ok escape_token
escapes_ok-escape_token [] rest = refl
escapes_ok-escape_token (c ∷ s) rest = ground (arith, escapes_ok-escape_token s rest)

escapes_ok-joined : (ts : List Text) → escapes_ok false (joined ts) ≡ true
unfolding joined escapes_ok
escapes_ok-joined [] = refl
escapes_ok-joined (t ∷ []) =
    ap (escapes_ok false) (sym (append-nil (escape_token t))) ∙ escapes_ok-escape_token t []
escapes_ok-joined (t ∷ u ∷ ts) =
    escapes_ok-escape_token t (b'/' ∷ joined (u ∷ ts)) ∙ escapes_ok-joined (u ∷ ts)

-- A token that is not empty does not begin with a slash in its spelling.
trim_slashes-escape_token :
    (c : ℕ) (s rest : Text)
    → trim_slashes (escape_token (c ∷ s) ++ rest) ≡ escape_token (c ∷ s) ++ rest
unfolding trim_slashes escape_token
trim_slashes-escape_token c s rest = ground arith

root_apart :
    (c : ℕ) (s rest : Text) → str_eq (b'/' ∷ escape_token (c ∷ s) ++ rest) (bytes "/") ≡ false
unfolding str_eq escape_token
root_apart c s rest = ground arith

slash : (j : Text) → trim_slashes (b'/' ∷ j) ≡ trim_slashes j
unfolding trim_slashes
slash j = refl

checked : (j : Text) → escapes_ok false j ≡ true → validate_pointer (b'/' ∷ j) ≡ ok tt
unfolding validate_pointer escapes_ok
checked j h = rw h refl

joined-tail :
    (t : Text) (ts : List Text) → (rest : Text) × (joined (t ∷ ts) ≡ escape_token t ++ rest)
unfolding joined
joined-tail t [] = ([], sym (append-nil (escape_token t)))
joined-tail t (u ∷ ts) = (b'/' ∷ joined (u ∷ ts), refl)

root_tokens : tokens_of (bytes "/") ≡ [] ∷ []
unfolding tokens_of str_eq
root_tokens = refl

tokens_of-joined :
    (c : ℕ) (s : Text) (ts : List Text) → tokens_of (b'/' ∷ joined ((c ∷ s) ∷ ts)) ≡ (c ∷ s) ∷ ts
unfolding tokens_of
tokens_of-joined c s ts =
    let (rest, e) = joined-tail (c ∷ s) ts in
    let root = ap (λ j. str_eq (b'/' ∷ j) (bytes "/")) e ∙ root_apart c s rest in
    rw root (
      ap (λ j. map decode_token (split_slash j)) (trimmed rest e)
      ∙ ap (map decode_token) (split_slash-joined (c ∷ s) ts)
      ∙ decoded ((c ∷ s) ∷ ts))
  where
    trimmed :
        (rest : Text)
        → joined ((c ∷ s) ∷ ts) ≡ escape_token (c ∷ s) ++ rest
        → trim_slashes (b'/' ∷ joined ((c ∷ s) ∷ ts)) ≡ joined ((c ∷ s) ∷ ts)
    trimmed rest e =
        slash (joined ((c ∷ s) ∷ ts))
        ∙ ap trim_slashes e
        ∙ trim_slashes-escape_token c s rest
        ∙ sym e

-- Every list of tokens whose first is not empty, or that is one token, is what a pointer written as
-- RFC 6901 says leads to: the check of pointers accepts it, and its tokens are those of the list.
pub tokens_of-pointer_of :
    (t : Text) (ts : List Text)
    → (is_empty t ≡ false) ⊎ (ts ≡ [])
    → (tokens_of (pointer_of (t ∷ ts)) ≡ t ∷ ts) × (validate_pointer (pointer_of (t ∷ ts)) ≡ ok tt)
unfolding pointer_of joined escape_token
tokens_of-pointer_of t ts first = (tokens t ts first, accepted)
  where
    accepted : validate_pointer (b'/' ∷ joined (t ∷ ts)) ≡ ok tt
    accepted = checked (joined (t ∷ ts)) (escapes_ok-joined (t ∷ ts))

    tokens :
        (t : Text) (ts : List Text)
        → (is_empty t ≡ false) ⊎ (ts ≡ [])
        → tokens_of (b'/' ∷ joined (t ∷ ts)) ≡ t ∷ ts
    tokens [] [] e = root_tokens
    tokens [] (u ∷ ts) (inl e) = absurd cc
    tokens [] (u ∷ ts) (inr e) = absurd cc
    tokens (c ∷ s) ts e = tokens_of-joined c s ts
