-- ===== src/Proto/JsonStrict/Fuel.antt =====
-- crates/agentmesh-proto/src/json_strict.rs: what the parser leaves of its input, and its fuel.
use agentmesh_private.Common.{
  ℕ, zero, suc, ◌+◌, ◌*◌, ◌≤◌, ◌<◌, Text, bytes, Bool, true, false, ◌&&◌, ◌||◌, Bool-cases, is_some,
  Option, none, some, List, [], ◌∷◌, any, length, is_empty, str_eq, leb, ◌==◌, ◌≡◌, ◌≢◌, inl, inr,
  refl, ap, arith,
}
use agentmesh_private.Common.Results.{Result, ok, err, ◌>>=◌}
use agentmesh_private.Common.Utf8.{from_utf8}
use agentmesh_private.Common.Json.{
  Value, null, boolean, string, array, object, Elements, no_elements, Members, no_members,
}
use agentmesh_private.Proto.Limits.{Limits}
use agentmesh_private.Proto.JsonStrict.{
  ProtoError, Fault, reported, out_of_fuel, literal, read_text, Serde, skip_ws, strip_prefix,
  parse_literal, onto, scan_string, unquoted, parse_string, is_number_byte, number_span, numeral,
  parse_number, expected, expect_char, insert_member, separator, bracketed, value_of, value_at,
  parse_key, parse_value, parse_items, parse_members, check_bounds, accept, fuel_for, parse_text,
  parse_value_strict,
}

-- The fuel did not run out, and what is left is shorter than the bound.
abbrev Consumes : {A : Type 0} → ℕ → Result Fault (A × Text) → Type 0
Consumes n (ok (a, rest)) = length rest < n
Consumes n (err (reported e)) = Unit
Consumes n (err out_of_fuel) = ⊥

module _ {A : Type 0} where
  Consumes-mono : (m n : ℕ) (r : Result Fault (A × Text)) → m ≤ n → Consumes m r → Consumes n r
  Consumes-mono m n (ok (a, rest)) le h = omega arith
  Consumes-mono m n (err (reported e)) le h = tt
  Consumes-mono m n (err out_of_fuel) le h = h

  Consumes-bind :
      {B : Type 0} (n : ℕ) (r : Result Fault (A × Text)) (f : A × Text → Result Fault (B × Text))
      → Consumes n r
      → ((a : A) (rest : Text) → length rest < n → Consumes n (f (a, rest)))
      → Consumes n (r >>= f)
  Consumes-bind n (ok (a, rest)) f h k = k a rest h
  Consumes-bind n (err (reported e)) f h k = tt
  Consumes-bind n (err out_of_fuel) f h k = h

  Consumes-value_of :
      (n : ℕ) (make : A → Value) (r : Result Fault (A × Text))
      → Consumes n r
      → Consumes n (value_of make r)
  Consumes-value_of n make r h = Consumes-bind n r _ h (λ a rest k. k)

  Consumes-separator :
      (n close : ℕ) (more done : Text → Result Fault (A × Text)) (s : Text)
      → ((t : Text) → length t < length s → Consumes n (more t))
      → ((t : Text) → length t < length s → Consumes n (done t))
      → Consumes n (separator close more done s)
  unfolding separator
  Consumes-separator n close more done [] km kd = tt
  Consumes-separator n close more done (c ∷ s) km kd = elim (Bool-cases (c == b',')) [
    | inl comma ↦ rw comma (km s (omega arith))
    | inr other ↦ rw other (elim (Bool-cases (c == close)) [
      | inl last ↦ rw last (kd s (omega arith))
      | inr bad ↦ rw bad tt
    ])
  ]

  Consumes-bracketed :
      (n close : ℕ) (empty : A) (items : Text → Result Fault (A × Text)) (s : Text)
      → length s < n
      → Consumes n (items s)
      → Consumes n (bracketed close empty items s)
  unfolding bracketed
  Consumes-bracketed n close empty items [] le h = h
  Consumes-bracketed n close empty items (c ∷ s) le h = elim (Bool-cases (c == close)) [
    | inl last ↦ rw last (omega arith)
    | inr more ↦ rw more h
  ]

ok_inj : {A : Type 0} {x y : A} → ◌≡◌ {A = Result Fault A} (ok x) (ok y) → x ≡ y
ok_inj h = cc

err-ok : {A : Type 0} {e : Fault} {y : A} → ◌≡◌ {A = Result Fault A} (err e) (ok y) → ⊥
err-ok h = cc

expect_char-fuel : (c : ℕ) (s : Text) → expect_char c s ≡ err out_of_fuel → ⊥
unfolding expect_char
expect_char-fuel c s h = go (skip_ws s) h
  where
    go : (t : Text) → expected c t ≡ err out_of_fuel → ⊥
    go [] e = cc
    go (d ∷ t) e = elim (Bool-cases (d == c)) [
      | inl same ↦ no_fault (rw same at e)
      | inr other ↦ other_fault (rw other at e)
    ]
      where
        no_fault : {t : Text} → ◌≡◌ {A = Result Fault Text} (ok t) (err out_of_fuel) → ⊥
        no_fault e = cc

        other_fault :
            {x : ProtoError} → ◌≡◌ {A = Result Fault Text} (err (reported x)) (err out_of_fuel) → ⊥
        other_fault e = cc

skip_ws-le : (s : Text) → length (skip_ws s) ≤ length s
unfolding skip_ws
skip_ws-le [] = omega arith
skip_ws-le (c ∷ s) = ground (arith, skip_ws-le s)

strip_prefix-length :
    (p s rest : Text) → strip_prefix p s ≡ some rest → length p + length rest ≡ length s
unfolding strip_prefix
strip_prefix-length [] s rest h = ground arith
strip_prefix-length (a ∷ p) [] rest h = absurd cc
strip_prefix-length (a ∷ p) (b ∷ s) rest h = ground (arith, strip_prefix-length p s rest)

parse_literal-Consumes :
    (c : ℕ) (lit : Text) (v : Value) (s : Text) → Consumes (length s) (parse_literal (c ∷ lit) v s)
unfolding parse_literal
parse_literal-Consumes c lit v s = go (strip_prefix (c ∷ lit) s) refl
  where
    go : (o : Option Text) → strip_prefix (c ∷ lit) s ≡ o → Consumes (length s) (literal v o)
    go none e = tt
    go (some rest) e = omega (arith, strip_prefix-length (c ∷ lit) s rest e)

abbrev Shorter : ℕ → Option (Text × Text) → Type 0
Shorter n none = Unit
Shorter n (some (body, rest)) = length rest < n

Shorter-onto : (c m n : ℕ) (o : Option (Text × Text)) → m ≤ n → Shorter m o → Shorter n (onto c o)
Shorter-onto c m n none le h = tt
Shorter-onto c m n (some (body, rest)) le h = omega arith

scan_string-Shorter : (escaped : Bool) (s : Text) → Shorter (length s) (scan_string escaped s)
unfolding scan_string
scan_string-Shorter true [] = tt
scan_string-Shorter false [] = tt
scan_string-Shorter true (c ∷ s) =
    Shorter-onto c (length s) (length (c ∷ s)) (scan_string false s) (omega arith)
      (scan_string-Shorter false s)
scan_string-Shorter false (c ∷ s) = elim (Bool-cases (c == b'"')) [
  | inl end ↦ rw end (omega arith)
  | inr more ↦ rw more (
      Shorter-onto c (length s) (length (c ∷ s)) (scan_string (c == b'\\') s) (omega arith)
        (scan_string-Shorter (c == b'\\') s))
]

parse_string-Consumes : (serde : Serde) (s : Text) → Consumes (length s) (parse_string serde s)
unfolding parse_string
parse_string-Consumes serde [] = tt
parse_string-Consumes serde (c ∷ s) = elim (Bool-cases (c == b'"')) [
  | inl quote ↦ rw quote (text (scan_string false s) (scan_string-Shorter false s))
  | inr bad ↦ rw bad tt
]
  where
    read :
        (o : Option Text) (rest : Text)
        → length rest < length s
        → Consumes (suc (length s)) (read_text o rest)
    read none rest le = tt
    read (some t) rest le = omega arith

    text :
        (o : Option (Text × Text))
        → Shorter (length s) o
        → Consumes (suc (length s)) (unquoted serde o)
    text none h = tt
    text (some (body, rest)) h = read (serde.read_string (b'"' ∷ body)) rest h

number_span-le : (s : Text) → length (number_span s).1 ≤ length s
unfolding number_span
number_span-le [] = omega arith
number_span-le (c ∷ s) = ground (arith, number_span-le s)

numeral-Consumes :
    (n : ℕ) (o : Option Text) (rest : Text) → length rest < n → Consumes n (numeral o rest)
numeral-Consumes n none rest h = tt
numeral-Consumes n (some t) rest h = h

parse_number-Consumes :
    (serde : Serde) (c : ℕ) (s : Text)
    → is_number_byte c ≡ true
    → Consumes (length (c ∷ s)) (parse_number serde (c ∷ s))
unfolding parse_number number_span
parse_number-Consumes serde c s h = rw h (
    numeral-Consumes (suc (length s)) (serde.read_number (c ∷ (number_span s).0)) (number_span s).1
      (omega (arith, number_span-le s)))

expect_char-shorter : (c : ℕ) (s rest : Text) → expect_char c s ≡ ok rest → length rest < length s
unfolding expect_char
expect_char-shorter c s rest h = go (skip_ws s) (skip_ws-le s) h
  where
    go : (t : Text) → length t ≤ length s → expected c t ≡ ok rest → length rest < length s
    go [] le e = absurd cc
    go (d ∷ t) le e = elim (Bool-cases (d == c)) [
      | inl same ↦ let tail : t ≡ rest = ok_inj (rw same at e) in omega (arith, ap length tail)
      | inr other ↦ absurd (err-ok (rw other at e))
    ]

parse_key-Consumes :
    (serde : Serde) (seen : List Text) (s : Text) → Consumes (length s) (parse_key serde seen s)
unfolding parse_key
parse_key-Consumes serde seen s =
    Consumes-bind (length s) (parse_string serde (skip_ws s)) _
      (Consumes-mono _ _ (parse_string serde (skip_ws s)) (skip_ws-le s)
        (parse_string-Consumes serde (skip_ws s)))
      (λ key rest le. elim (Bool-cases (any (str_eq key) seen)) [
        | inl old ↦ rw old tt
        | inr new ↦ rw new (colon key rest le (expect_char b':' rest) refl)
      ])
  where
    colon :
        (key rest : Text)
        → length rest < length s
        → (r : Result Fault Text) → expect_char b':' rest ≡ r
        → Consumes (length s) (r >>= λ behind. ok (key, behind))
    colon key rest le (ok behind) e = omega (arith, expect_char-shorter b':' rest behind e)
    colon key rest le (err (reported x)) e = tt
    colon key rest le (err out_of_fuel) e = absurd (expect_char-fuel b':' rest e)

value_at-Consumes :
    (serde : Serde) (items : Text → Result Fault (Elements × Text))
    (members : Text → Result Fault (Members × Text)) (s : Text)
    → ((t : Text) → length t < length s → Consumes (suc (length t)) (items t))
    → ((t : Text) → length t < length s → Consumes (suc (length t)) (members t))
    → Consumes (length s) (value_at serde items members s)
unfolding value_at
value_at-Consumes serde items members [] ki km = tt
value_at-Consumes serde items members (c ∷ s) ki km = elim (Bool-cases (c == b'n')) [
  | inl is_n ↦ rw is_n (parse_literal-Consumes b'n' (bytes "ull") null (c ∷ s))
  | inr no_n ↦ rw no_n (elim (Bool-cases (c == b't')) [
    | inl is_t ↦ rw is_t (parse_literal-Consumes b't' (bytes "rue") (boolean true) (c ∷ s))
    | inr no_t ↦ rw no_t (elim (Bool-cases (c == b'f')) [
      | inl is_f ↦ rw is_f (parse_literal-Consumes b'f' (bytes "alse") (boolean false) (c ∷ s))
      | inr no_f ↦ rw no_f (elim (Bool-cases (c == b'"')) [
        | inl is_q ↦ rw is_q (
            Consumes-value_of _ string (parse_string serde (c ∷ s))
              (parse_string-Consumes serde (c ∷ s)))
        | inr no_q ↦ rw no_q (elim (Bool-cases (c == b'[')) [
          | inl is_a ↦ rw is_a (
              Consumes-value_of _ array (bracketed b']' no_elements items (skip_ws s))
                (inside b']' no_elements items ki))
          | inr no_a ↦ rw no_a (elim (Bool-cases (c == b'{')) [
            | inl is_o ↦ rw is_o (
                Consumes-value_of _ object (bracketed b'}' no_members members (skip_ws s))
                  (inside b'}' no_members members km))
            | inr no_o ↦ rw no_o (elim (Bool-cases (c == b'-' || (leb b'0' c && leb c b'9'))) [
              | inl digit ↦ rw digit (parse_number-Consumes serde c s (ground arith))
              | inr bad ↦ rw bad tt
            ])
          ])
        ])
      ])
    ])
  ])
]
  where
    inside :
        {A : Type 0} (close : ℕ) (empty : A) (each : Text → Result Fault (A × Text))
        → ((t : Text) → length t < length (c ∷ s) → Consumes (suc (length t)) (each t))
        → Consumes (length (c ∷ s)) (bracketed close empty each (skip_ws s))
    inside close empty each k =
        Consumes-bracketed _ _ empty each (skip_ws s) (omega (arith, skip_ws-le s)) (
          Consumes-mono _ _ (each (skip_ws s)) (omega (arith, skip_ws-le s))
            (k (skip_ws s) (omega (arith, skip_ws-le s))))

mutual
  unfolding parse_value parse_items parse_members

  parse_value-Consumes :
      (serde : Serde) (f : ℕ) (s : Text)
      → 2 * length s + 1 ≤ f
      → Consumes (length s) (parse_value serde f s)
  parse_value-Consumes serde zero s le = absurd (omega arith)
  parse_value-Consumes serde (suc f) s le = Consumes-mono _ _ _ (skip_ws-le s) (
      value_at-Consumes serde (parse_items serde f) (parse_members serde f [] no_members)
        (skip_ws s)
        (λ t less.
          Consumes-mono _ _ (parse_items serde f t) (omega arith)
            (parse_items-Consumes serde f t (omega (arith, skip_ws-le s))))
        (λ t less.
          Consumes-mono _ _ (parse_members serde f [] no_members t) (omega arith)
            (parse_members-Consumes serde f [] no_members t (omega (arith, skip_ws-le s)))))

  parse_items-Consumes :
      (serde : Serde) (f : ℕ) (s : Text)
      → 2 * length s + 2 ≤ f
      → Consumes (length s) (parse_items serde f s)
  parse_items-Consumes serde zero s le = absurd (omega arith)
  parse_items-Consumes serde (suc f) s le =
      Consumes-bind (length s) (parse_value serde f s) _
        (parse_value-Consumes serde f s (omega arith))
        (λ v rest less.
          Consumes-separator (length s) b']' _ _ (skip_ws rest)
            (λ t shorter.
              Consumes-bind (length s) (parse_items serde f t) _
                (Consumes-mono _ _ (parse_items serde f t) (omega (arith, skip_ws-le rest))
                  (parse_items-Consumes serde f t (omega (arith, skip_ws-le rest))))
                (λ vs end k. k))
            (λ t shorter. omega (arith, skip_ws-le rest)))

  parse_members-Consumes :
      (serde : Serde) (f : ℕ) (seen : List Text) (map : Members) (s : Text)
      → 2 * length s + 2 ≤ f
      → Consumes (length s) (parse_members serde f seen map s)
  parse_members-Consumes serde zero seen map s le = absurd (omega arith)
  parse_members-Consumes serde (suc f) seen map s le =
      Consumes-bind (length s) (parse_key serde seen s) _ (parse_key-Consumes serde seen s)
        (λ key behind less.
          Consumes-bind (length s) (parse_value serde f behind) _
            (Consumes-mono _ _ (parse_value serde f behind) (omega arith)
              (parse_value-Consumes serde f behind (omega arith)))
            (λ v rest less'.
              Consumes-separator (length s) b'}' _ _ (skip_ws rest)
                (λ t shorter.
                  Consumes-mono _ _ (parse_members serde f (key ∷ seen) (insert_member key v map) t)
                    (omega (arith, skip_ws-le rest))
                    (parse_members-Consumes serde f (key ∷ seen) (insert_member key v map) t
                      (omega (arith, skip_ws-le rest))))
                (λ t shorter. omega (arith, skip_ws-le rest))))

-- The strict parser always ends: twice the length of the input and one more is fuel enough for it to
-- return a value or an error of the source.
pub parse_value_strict-ends :
    (serde : Serde) (limits : Limits) (input : Text)
    → parse_value_strict serde limits input ≢ err out_of_fuel
unfolding parse_value_strict parse_text accept
parse_value_strict-ends serde limits input h = elim (Bool-cases (is_some (from_utf8 input))) [
  | inl good ↦
      text (parse_value serde (fuel_for input) input)
        (parse_value-Consumes serde (fuel_for input) input (omega arith)) (rw good at h)
  | inr bad ↦ reported_apart (rw bad at h)
]
  where
    reported_apart :
        {x : ProtoError} → ◌≡◌ {A = Result Fault Value} (err (reported x)) (err out_of_fuel) → ⊥
    reported_apart e = cc

    ok_apart : {v : Value} → ◌≡◌ {A = Result Fault Value} (ok v) (err out_of_fuel) → ⊥
    ok_apart e = cc

    checked :
        (v : Value) (r : Result ProtoError ℕ)
        → ◌≡◌ {A = Result Fault Value}
            (elim r [ ok _ ↦ ok v | err e ↦ err (reported e) ])
            (err out_of_fuel)
        → ⊥
    checked v (ok n) e = ok_apart e
    checked v (err x) e = reported_apart e

    text :
        (r : Result Fault (Value × Text))
        → Consumes (length input) r
        → (r >>= λ (value, rest). accept limits value rest) ≡ err out_of_fuel
        → ⊥
    text (ok (v, rest)) c e = elim (Bool-cases (is_empty (skip_ws rest))) [
      | inl done ↦ checked v (check_bounds limits v 0 0) (rw done at e)
      | inr more ↦ reported_apart (rw more at e)
    ]
    text (err (reported x)) c e = reported_apart e
    text (err out_of_fuel) c e = c
