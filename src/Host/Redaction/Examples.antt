-- ===== src/Host/Redaction/Examples.antt =====
-- Runs of the redaction, and an instance of its theorem.
use agentmesh_private.Host.Redaction.Tokens.{pointer_of, joined, escape_token, tokens_of-pointer_of}
use agentmesh_private.Common.{Text, List, map, inl, bytes, ◌≡◌, refl, All, [], ◌∷◌, str_eq}
use agentmesh_private.Common.Results.{ok}
use agentmesh_private.Common.Json.{
  Value, string, array, no_elements, element, object, no_members, member,
}
use agentmesh_private.Host.Redaction.{
  redacted, get_member, set_member, child, set_child, redact_at, redact_pointer, apply_from, apply,
  tokens_of, split_slash, trim_slashes, decode_token, replace_escape, validate_pointer, escapes_ok,
}
use agentmesh_private.Host.Redaction.Pointed.{IsHidden, apply-hides}

abbrev login : Value
login =
    object (
      member (bytes "a/b") (object (member (bytes "pw") (string (bytes "x")) no_members))
        no_members)

-- A member under an escaped key, an element of an array, a path below the latter, and an absent one.
abbrev paths : List (List Text)
paths =
    (bytes "a/b" ∷ bytes "pw" ∷ [])
    ∷ (bytes "keys" ∷ bytes "1" ∷ [])
    ∷ (bytes "keys" ∷ bytes "1" ∷ bytes "id" ∷ [])
    ∷ (bytes "none" ∷ [])
    ∷ []

abbrev keys : Value
keys = object (
    member (bytes "a/b") (object (member (bytes "pw") (string (bytes "x")) no_members)) (
      member (bytes "keys")
        (array (
          element (string (bytes "public")) (
            element (object (member (bytes "id") (string (bytes "secret")) no_members))
              no_elements)))
        no_members))

apply-hides_example : All (λ ts. IsHidden ts keys (apply (map pointer_of paths) keys).0) paths
apply-hides_example = apply-hides paths keys (inl refl, (inl refl, (inl refl, (inl refl, tt))))

redacts_login : apply (bytes "/a~1b/pw" ∷ bytes "/none" ∷ []) login ≡ (
  object (member (bytes "a/b") (object (member (bytes "pw") redacted no_members)) no_members),
  1,
)
unfolding apply apply_from redact_pointer redact_at tokens_of split_slash trim_slashes decode_token
    replace_escape str_eq child set_child get_member set_member
redacts_login = refl

tokens_of-pointer_of_example :
    (tokens_of (bytes "/a~1b/m~0n") ≡ bytes "a/b" ∷ bytes "m~n" ∷ [])
    × (validate_pointer (bytes "/a~1b/m~0n") ≡ ok tt)
unfolding pointer_of joined escape_token
tokens_of-pointer_of_example = tokens_of-pointer_of (bytes "a/b") (bytes "m~n" ∷ []) (inl refl)

-- The empty member name: "//a" passes the check of pointers, and leads to the member "a" of the whole
-- value instead of the member "a" under the empty name.
empty_name_skipped :
    (validate_pointer (bytes "//a") ≡ ok tt) × (tokens_of (bytes "//a") ≡ bytes "a" ∷ [])
unfolding validate_pointer escapes_ok tokens_of split_slash trim_slashes decode_token replace_escape
    str_eq
empty_name_skipped = (refl, refl)
