-- ===== src/Host/Redaction/Hides.antt =====
-- crates/agentmesh-host/src/redaction.rs: what a policy leaves where the code's own steps lead.
use agentmesh_private.Common.{
  ℕ, zero, suc, Text, bytes, Bool-cases, Option-cases, Option, none, some, ◌>>=◌, List, [], ◌∷◌,
  map, is_empty, str_eq, ◌==◌, ◌≡◌, ◌⊎◌, inl, inr, refl, sym, subst, ap, ◌∙◌,
}
use agentmesh_private.Common.Json.{
  Value, null, boolean, number, string, array, object, Elements, no_elements, element, Members,
  no_members, member,
}
use agentmesh_private.Host.Redaction.{
  redacted, get_member, set_member, get_element, set_element, array_index, element_at,
  with_element_at, child, set_child, redact_at, written, redact_pointer, apply_from, tokens_of,
  split_slash, trim_slashes, decode_token,
}

pub some_inj {ℓ} : {A : Type ℓ} {x y : A} → some x ≡ some y → x ≡ y
some_inj h = cc

pub none-some {ℓ} : {A : Type ℓ} {x : A} → none ≡ some x → ⊥
none-some h = cc

-- The value that the code's own steps by a list of tokens lead to.
unfoldable pub lookup : List Text → Value → Option Value
lookup [] v = some v
lookup (t ∷ ts) v = child t v >>= lookup ts

-- There is nothing under the tokens, or the text "<redacted>".
abbrev pub IsBlank : List Text → Value → Type 0
IsBlank ts v = (lookup ts v ≡ none) ⊎ (lookup ts v ≡ some redacted)

-- A write of a member that is there: another key reads what it read, or it is the same key.
Members-rw :
    (key u : Text) (w x : Value) (ms : Members)
    → get_member key ms ≡ some x
    → (get_member u (set_member key w ms) ≡ get_member u ms)
      ⊎ ((get_member u (set_member key w ms) ≡ some w) × (get_member u ms ≡ some x))
unfolding get_member set_member
Members-rw key u w x no_members h = absurd cc
Members-rw key u w x (member k v ms) h = elim (Bool-cases (str_eq k key)) [
  | inl hit ↦ rw hit (elim (Bool-cases (str_eq k u)) [
    | inl same ↦ rw same (inr (refl, rw hit at h))
    | inr other ↦ rw other (inl refl)
  ])
  | inr miss ↦ rw miss (elim (Bool-cases (str_eq k u)) [
    | inl same ↦ rw same (inl refl)
    | inr other ↦ rw other (Members-rw key u w x ms (rw miss at h))
  ])
]

Elements-rw :
    (i j : ℕ) (w x : Value) (vs : Elements)
    → get_element i vs ≡ some x
    → (get_element j (set_element i w vs) ≡ get_element j vs)
      ⊎ ((get_element j (set_element i w vs) ≡ some w) × (get_element j vs ≡ some x))
unfolding get_element set_element
Elements-rw i j w x no_elements h = absurd cc
Elements-rw zero zero w x (element v vs) h = inr (refl, h)
Elements-rw zero (suc j) w x (element v vs) h = inl refl
Elements-rw (suc i) zero w x (element v vs) h = inl refl
Elements-rw (suc i) (suc j) w x (element v vs) h = Elements-rw i j w x vs h

-- The same for the value under a token.
pub child-set_child :
    (t u : Text) (w x v : Value)
    → child t v ≡ some x
    → (child u (set_child t w v) ≡ child u v)
      ⊎ ((child u (set_child t w v) ≡ some w) × (child u v ≡ some x))
unfolding child set_child
child-set_child t u w x null h = absurd cc
child-set_child t u w x (boolean b) h = absurd cc
child-set_child t u w x (number n) h = absurd cc
child-set_child t u w x (string s) h = absurd cc
child-set_child t u w x (object ms) h = Members-rw t u w x ms h
child-set_child t u w x (array vs) h = elements (array_index t) (array_index u) h
  where
    elements :
        (i j : Option ℕ)
        → element_at i vs ≡ some x
        → (element_at j (with_element_at i w vs) ≡ element_at j vs)
          ⊎ ((element_at j (with_element_at i w vs) ≡ some w) × (element_at j vs ≡ some x))
    elements none j h = absurd cc
    elements (some i) none h = inl refl
    elements (some i) (some j) h = Elements-rw i j w x vs h

-- A value with a child is not the text "<redacted>".
child-redacted : (t : Text) (x : Value) → child t redacted ≡ some x → ⊥
unfolding child
child-redacted t x h = cc

pub lookup-redacted : (ts : List Text) → IsBlank ts redacted
unfolding lookup child
lookup-redacted [] = inr refl
lookup-redacted (t ∷ ts) = inl refl

-- One write under a token keeps what is hidden, if what it writes does.
set_child-IsBlank :
    (ts : List Text) (t : Text) (w x v : Value)
    → child t v ≡ some x
    → ((us : List Text) → IsBlank us x → IsBlank us w)
    → IsBlank ts v
    → IsBlank ts (set_child t w v)
unfolding lookup
set_child-IsBlank [] t w x v h under (inl e) = absurd cc
set_child-IsBlank [] t w x v h under (inr e) =
    absurd (child-redacted t x (sym (ap (child t) (some_inj e)) ∙ h))
set_child-IsBlank (u ∷ us) t w x v h under hidden = elim (child-set_child t u w x v h) [
  | inl same ↦ rw same hidden
  | inr (new, old) ↦ rw new (under us (rw old at hidden))
]

-- A redaction keeps what is hidden, under its own tokens and all others.
redact_at-IsBlank :
    (us : List Text) (v v' : Value)
    → redact_at us v ≡ some v'
    → (ts : List Text) → IsBlank ts v
    → IsBlank ts v'
unfolding redact_at
redact_at-IsBlank [] v v' h ts hidden = absurd cc
redact_at-IsBlank (t ∷ []) v v' h ts hidden = elim (Option-cases (child t v)) [
  | inl none_there ↦ absurd (none-some (rw none_there at h))
  | inr (x, there) ↦
      subst (IsBlank ts) (some_inj (rw there at h))
        (set_child-IsBlank ts t redacted x v there (λ us _. lookup-redacted us) hidden)
]
redact_at-IsBlank (t ∷ u ∷ us) v v' h ts hidden = elim (Option-cases (child t v)) [
  | inl none_there ↦ absurd (none-some (rw none_there at h))
  | inr (x, there) ↦ elim (Option-cases (redact_at (u ∷ us) x)) [
    | inl failed ↦ absurd (none-some (rw (there, failed) at h))
    | inr (x', done) ↦
        subst (IsBlank ts) (some_inj (rw (there, done) at h))
          (set_child-IsBlank ts t x' x v there (redact_at-IsBlank (u ∷ us) x x' done) hidden)
  ]
]

-- What a redaction leaves under its own tokens, and what is there if it fails.
child-set_child_own :
    (t : Text) (w x v : Value) → child t v ≡ some x → child t (set_child t w v) ≡ some w
unfolding child set_child get_member set_member get_element set_element
child-set_child_own t w x null h = absurd cc
child-set_child_own t w x (boolean b) h = absurd cc
child-set_child_own t w x (number n) h = absurd cc
child-set_child_own t w x (string s) h = absurd cc
child-set_child_own t w x (object ms) h = members ms h
  where
    members : (ms : Members) → get_member t ms ≡ some x → get_member t (set_member t w ms) ≡ some w
    members no_members h = absurd cc
    members (member k v ms) h = elim (Bool-cases (str_eq k t)) [
      | inl hit ↦ rw (hit, hit) refl
      | inr miss ↦ rw (miss, miss) (members ms (rw miss at h))
    ]
child-set_child_own t w x (array vs) h = elements (array_index t) h
  where
    at_index :
        (i : ℕ) (vs : Elements)
        → get_element i vs ≡ some x
        → get_element i (set_element i w vs) ≡ some w
    at_index i no_elements h = absurd cc
    at_index zero (element v vs) h = refl
    at_index (suc i) (element v vs) h = at_index i vs h

    elements :
        (i : Option ℕ) → element_at i vs ≡ some x → element_at i (with_element_at i w vs) ≡ some w
    elements none h = absurd cc
    elements (some i) h = at_index i vs h

pub redact_at-target :
    (t : Text) (ts : List Text) (v : Value)
    → ((redact_at (t ∷ ts) v ≡ none) × (lookup (t ∷ ts) v ≡ none))
      ⊎ ((v' : Value) × (redact_at (t ∷ ts) v ≡ some v') × (lookup (t ∷ ts) v' ≡ some redacted))
unfolding redact_at lookup
redact_at-target t [] v = elim (Option-cases (child t v)) [
  | inl nothing ↦ inl (rw nothing refl, rw nothing refl)
  | inr (x, there) ↦
      inr
        (set_child t redacted v, rw there refl, rw (child-set_child_own t redacted x v there) refl)
]
redact_at-target t (u ∷ us) v = elim (Option-cases (child t v)) [
  | inl nothing ↦ inl (rw nothing refl, rw nothing refl)
  | inr (x, there) ↦ elim (redact_at-target u us x) [
    | inl (failed, gone) ↦ inl (rw (there, failed) refl, rw there gone)
    | inr (x', done, found) ↦
        inr (set_child t x' v, rw (there, done) refl, rw (child-set_child_own t x' x v there) found)
  ]
]

-- A pointer has a token.
split_slash-cons : (s : Text) → (t : Text) × (ts : List Text) × (split_slash s ≡ t ∷ ts)
unfolding split_slash
split_slash-cons [] = ([], [], refl)
split_slash-cons (c ∷ s) = elim (Bool-cases (c == b'/')) [
  | inl slash ↦ rw slash ([], split_slash s, refl)
  | inr other ↦ let (t, ts, e) = split_slash-cons s in rw (other, e) (c ∷ t, ts, refl)
]

pub tokens_of-cons : (p : Text) → (t : Text) × (ts : List Text) × (tokens_of p ≡ t ∷ ts)
unfolding tokens_of
tokens_of-cons p = elim (Bool-cases (str_eq p (bytes "/"))) [
  | inl root ↦ rw root ([], [], refl)
  | inr other ↦
      let (t, ts, e) = split_slash-cons (trim_slashes p) in
      rw (other, e) (decode_token t, map decode_token ts, refl)
]

pub redact_pointer-keeps :
    (p : Text) (ts : List Text) (v : Value) → IsBlank ts v → IsBlank ts (redact_pointer v p).0
unfolding redact_pointer
redact_pointer-keeps p ts v hidden = elim (Bool-cases (is_empty p)) [
  | inl whole ↦ rw whole (lookup-redacted ts)
  | inr part ↦ rw part (result (redact_at (tokens_of p) v) refl)
]
  where
    result : (o : Option Value) → redact_at (tokens_of p) v ≡ o → IsBlank ts (written v o).0
    result none h = hidden
    result (some v') h = redact_at-IsBlank (tokens_of p) v v' h ts hidden

pub redact_pointer-hides : (p : Text) (v : Value) → IsBlank (tokens_of p) (redact_pointer v p).0
unfolding redact_pointer
redact_pointer-hides p v = elim (Bool-cases (is_empty p)) [
  | inl whole ↦ rw whole (lookup-redacted (tokens_of p))
  | inr part ↦
      let (t, ts, e) = tokens_of-cons p in
      rw (part, e)
        (elim (redact_at-target t ts v) [
          | inl (failed, gone) ↦ rw failed (inl gone)
          | inr (v', done, found) ↦ rw done (inr found)
        ])
]

pub apply_from-keeps :
    (ps : List Text) (ts : List Text) (v : Value) (n : ℕ)
    → IsBlank ts v
    → IsBlank ts (apply_from ps v n).0
unfolding apply_from
apply_from-keeps [] ts v n hidden = hidden
apply_from-keeps (p ∷ ps) ts v n hidden =
    apply_from-keeps ps ts (redact_pointer v p).0 _ (redact_pointer-keeps p ts v hidden)
