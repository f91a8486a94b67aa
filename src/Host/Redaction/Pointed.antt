-- ===== src/Host/Redaction/Pointed.antt =====
-- crates/agentmesh-host/src/redaction.rs: what a policy leaves under the pointers of RFC 6901.
use agentmesh_private.Common.{
  ℕ, Text, Bool-cases, Option-cases, Option, none, some, List, [], ◌∷◌, ◌++◌, map, is_empty, false,
  All, ◌≡◌, ◌⊎◌, inl, inr, refl, sym, subst, ap, ◌∙◌, append-nil, append_assoc,
}
use agentmesh_private.Common.Json.{Value}
use agentmesh_private.Host.Redaction.{
  redacted, child, set_child, redact_at, written, redact_pointer, apply_from, apply, tokens_of,
}
use agentmesh_private.Host.Redaction.Tokens.{pointer_of, tokens_of-pointer_of}
use agentmesh_private.Host.Redaction.Hides.{
  some_inj, none-some, lookup, IsBlank, child-set_child, redact_at-target, tokens_of-cons,
  redact_pointer-keeps, redact_pointer-hides, apply_from-keeps,
}
use agentmesh_private.Host.Redaction.Paths.{IsUnder, lookup-IsUnder, IsUnder-lookup}

-- The tokens lead to nothing but "<redacted>" afterwards, and if they led to a value before, then they or
-- the first ones of them lead to "<redacted>".
abbrev pub IsHidden : List Text → Value → Value → Type 0
IsHidden ts before after =
    ((w : Value) → IsUnder ts after w → w ≡ redacted)
    × ((w : Value)
        → IsUnder ts before w
        → (us : List Text) × (rest : List Text) × (ts ≡ us ++ rest) × IsUnder us after redacted)

-- A path has a token, and the first one is not empty unless it is the only one.
abbrev pub IsPath : List Text → Type 0
IsPath [] = ⊥
IsPath (t ∷ ts) = (is_empty t ≡ false) ⊎ (ts ≡ [])

abbrev IsThere : List Text → Value → Type 0
IsThere ts v = (w : Value) × (lookup ts v ≡ some w)

-- The tokens, or the first ones of them, lead to "<redacted>".
abbrev IsCovered : List Text → Value → Type 0
IsCovered ts v =
    (us : List Text) × (rest : List Text) × (ts ≡ us ++ rest) × (lookup us v ≡ some redacted)

abbrev Stays : List Text → Value → Type 0
Stays ts v = IsThere ts v ⊎ IsCovered ts v

redacted-IsCovered : (ts : List Text) → IsCovered ts redacted
unfolding lookup
redacted-IsCovered ts = ([], ts, refl, refl)

-- One write under a token.
set_child-Stays :
    (ts : List Text) (t : Text) (w x v : Value)
    → child t v ≡ some x
    → ((us : List Text) → IsThere us x → Stays us w)
    → IsThere ts v
    → Stays ts (set_child t w v)
unfolding lookup
set_child-Stays [] t w x v h under there = inl (_, refl)
set_child-Stays (u ∷ us) t w x v h under (y, there) = elim (child-set_child t u w x v h) [
  | inl same ↦ inl (y, rw same there)
  | inr (new, old) ↦ elim (under us (y, rw old at there)) [
    | inl (z, still) ↦ inl (z, rw new still)
    | inr (ps, rest, cut, gone) ↦ inr (u ∷ ps, rest, ap (λ l. u ∷ l) cut, rw new gone)
  ]
]

redact_at-Stays :
    (us : List Text) (v v' : Value)
    → redact_at us v ≡ some v'
    → (ts : List Text) → IsThere ts v
    → Stays ts v'
unfolding redact_at
redact_at-Stays [] v v' h ts there = absurd (none-some h)
redact_at-Stays (t ∷ []) v v' h ts there = elim (Option-cases (child t v)) [
  | inl nothing ↦ absurd (none-some (rw nothing at h))
  | inr (x, found) ↦
      subst (Stays ts) (some_inj (rw found at h))
        (set_child-Stays ts t redacted x v found (λ us _. inr (redacted-IsCovered us)) there)
]
redact_at-Stays (t ∷ u ∷ us) v v' h ts there = elim (Option-cases (child t v)) [
  | inl nothing ↦ absurd (none-some (rw nothing at h))
  | inr (x, found) ↦ elim (Option-cases (redact_at (u ∷ us) x)) [
    | inl failed ↦ absurd (none-some (rw (found, failed) at h))
    | inr (x', done) ↦
        subst (Stays ts) (some_inj (rw (found, done) at h))
          (set_child-Stays ts t x' x v found (redact_at-Stays (u ∷ us) x x' done) there)
  ]
]

redact_pointer-there :
    (p : Text) (ts : List Text) (v : Value) → IsThere ts v → Stays ts (redact_pointer v p).0
unfolding redact_pointer
redact_pointer-there p ts v there = elim (Bool-cases (is_empty p)) [
  | inl whole ↦ rw whole (inr (redacted-IsCovered ts))
  | inr part ↦ rw part (result (redact_at (tokens_of p) v) refl)
]
  where
    result : (o : Option Value) → redact_at (tokens_of p) v ≡ o → Stays ts (written v o).0
    result none h = inl there
    result (some v') h = redact_at-Stays (tokens_of p) v v' h ts there

-- What is covered stays so.
redact_pointer-IsCovered :
    (p : Text) (ts : List Text) (v : Value) → IsCovered ts v → IsCovered ts (redact_pointer v p).0
redact_pointer-IsCovered p ts v (us, rest, cut, gone) =
    elim (redact_pointer-there p us v (redacted, gone)) [
      | inl (w, there) ↦ (
        us,
        rest,
        cut,
        elim (redact_pointer-keeps p us v (inr gone)) [
          | inl nothing ↦ absurd (none-some (sym nothing ∙ there))
          | inr still ↦ still
        ],
      )
      | inr (ps, more, cut', gone') ↦
          (ps, more ++ rest, cut ∙ ap (λ l. l ++ rest) cut' ∙ append_assoc ps more rest, gone')
    ]

redact_pointer-Stays :
    (p : Text) (ts : List Text) (v : Value) → Stays ts v → Stays ts (redact_pointer v p).0
redact_pointer-Stays p ts v (inl there) = redact_pointer-there p ts v there
redact_pointer-Stays p ts v (inr covered) = inr (redact_pointer-IsCovered p ts v covered)

-- What a pointer's own redaction does.
redact_pointer-covers :
    (p : Text) (v : Value) → Stays (tokens_of p) v → IsCovered (tokens_of p) (redact_pointer v p).0
unfolding redact_pointer
redact_pointer-covers p v (inr covered) = redact_pointer-IsCovered p (tokens_of p) v covered
redact_pointer-covers p v (inl (w, there)) = elim (Bool-cases (is_empty p)) [
  | inl whole ↦ rw whole (redacted-IsCovered (tokens_of p))
  | inr part ↦ let (t, ts, e) = tokens_of-cons p in target t ts e part
]
  where
    target :
        (t : Text) (ts : List Text)
        → tokens_of p ≡ t ∷ ts
        → is_empty p ≡ false
        → IsCovered (tokens_of p) (redact_pointer v p).0
    target t ts e part = elim (redact_at-target t ts v) [
      | inl (failed, gone) ↦ absurd (none-some (sym gone ∙ (rw e at there)))
      | inr (v', done, found) ↦ rw (part, e, done) (t ∷ ts, [], sym (append-nil (t ∷ ts)), found)
    ]

apply_from-IsCovered :
    (ps : List Text) (ts : List Text) (v : Value) (n : ℕ)
    → IsCovered ts v
    → IsCovered ts (apply_from ps v n).0
unfolding apply_from
apply_from-IsCovered [] ts v n covered = covered
apply_from-IsCovered (p ∷ ps) ts v n covered =
    apply_from-IsCovered ps ts (redact_pointer v p).0 _ (redact_pointer-IsCovered p ts v covered)

hidden :
    (ts : List Text) (before after : Value)
    → IsBlank ts after
    → (IsThere ts before → IsCovered ts after)
    → IsHidden ts before after
hidden ts before after blank covers = (
  λ w under. elim blank [
    | inl nothing ↦ absurd (none-some (sym nothing ∙ lookup-IsUnder ts after w under))
    | inr gone ↦ some_inj (sym (lookup-IsUnder ts after w under) ∙ gone)
  ],
  λ w under.
      (let (us, rest, cut, gone) = covers (w, lookup-IsUnder ts before w under) in
        (us, rest, cut, IsUnder-lookup us after redacted gone)),
)

path_tokens : (ts : List Text) → IsPath ts → tokens_of (pointer_of ts) ≡ ts
path_tokens [] path = elim path [ ]
path_tokens (t ∷ ts) path = (tokens_of-pointer_of t ts path).0

apply_from-hides :
    (paths : List (List Text)) (before v : Value) (n : ℕ)
    → All IsPath paths
    → ((ts : List Text) → IsThere ts before → Stays ts v)
    → All (λ ts. IsHidden ts before (apply_from (map pointer_of paths) v n).0) paths
unfolding apply_from
apply_from-hides [] before v n valid stays = tt
apply_from-hides (ts ∷ paths) before v n (path, valid) stays =
    let p = pointer_of ts in
    let v' = (redact_pointer v p).0 in
    (
      hidden ts before _
          (apply_from-keeps (map pointer_of paths) ts v' _
            (subst (λ us. IsBlank us v') (path_tokens ts path) (redact_pointer-hides p v)))
          (λ there. apply_from-IsCovered (map pointer_of paths) ts v' _ (
            subst (λ us. IsCovered us v') (path_tokens ts path)
              (redact_pointer-covers p v
                (subst (λ us. Stays us v) (sym (path_tokens ts path)) (stays ts there))))),
      apply_from-hides paths before v' _ valid
          (λ us there. redact_pointer-Stays p us v (stays us there)),
    )

-- If a policy has the pointers that RFC 6901 writes for paths whose first token is not empty, or that are
-- one token, then, after it is applied, each of the paths leads to nothing but "<redacted>", and where a
-- path led to a value before, it or its beginning leads to "<redacted>"; also where the paths overlap.
pub apply-hides :
    (paths : List (List Text)) (v : Value)
    → All IsPath paths
    → All (λ ts. IsHidden ts v (apply (map pointer_of paths) v).0) paths
unfolding apply
apply-hides paths v valid = apply_from-hides paths v v 0 valid λ ts there. inl there
