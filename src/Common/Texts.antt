-- ===== src/Common/Texts.antt =====
-- A Rust `str` as its UTF-8 bytes: equality, the order of `str` (byte by byte), character counts.
use Prim.Native.Nat.{ℕ, ◌+◌, ◌≤◌}
use Prim.Native.Char.{code}
use Prim.Native.String.{String}
use mathlib.Core.Path.{◌≡◌, refl, subst}
use mathlib.Core.Logic.{◌↔◌, ◌⊎◌, inl, inr}
use mathlib.Core.Bool.{Bool, true, false, ◌&&◌, ◌||◌, not}
use mathlib.Core.List.{List, [], ◌∷◌}
use native.Mathlib.Omega.{arith}
use agentmesh_private.Common.Tests.{ltb, leb, ◌==◌, if◌then◌else◌}
use agentmesh_private.Common.Lists.{length}

abbrev pub Text : Type 0
Text = List ℕ

-- The bytes of an ASCII literal.
abbrev pub bytes : String → Text
bytes String.[] = []
bytes (String.◌∷◌ c s) = code c ∷ bytes s

unfoldable pub str_eq : Text → Text → Bool
str_eq [] [] = true
str_eq [] (b ∷ t) = false
str_eq (a ∷ s) [] = false
str_eq (a ∷ s) (b ∷ t) = a == b && str_eq s t

-- `a <= b` on `str`: the order of the bytes, a prefix first.
unfoldable pub str_le : Text → Text → Bool
str_le [] t = true
str_le (a ∷ s) [] = false
str_le (a ∷ s) (b ∷ t) = ltb a b || (a == b && str_le s t)

-- `a < b`.
abbrev pub str_lt : Text → Text → Bool
str_lt s t = not (str_le t s)

abbrev pub is_empty : Text → Bool
is_empty [] = true
is_empty (_ ∷ _) = false

-- A byte 10xxxxxx goes on with the character before it.
abbrev pub is_continuation : ℕ → Bool
is_continuation b = leb 128 b && ltb b 192

-- `s.chars().count()`.
unfoldable pub char_count : Text → ℕ
char_count [] = 0
char_count (b ∷ s) = (if is_continuation b then 0 else 1) + char_count s

pub str_eq→eq : (s t : Text) → str_eq s t ≡ true → s ≡ t
unfolding str_eq
str_eq→eq [] [] h = refl
str_eq→eq [] (b ∷ t) h = ground arith
str_eq→eq (a ∷ s) [] h = ground arith
str_eq→eq (a ∷ s) (b ∷ t) h = ground (arith, str_eq→eq s t)

pub str_eq_refl : (s : Text) → str_eq s s ≡ true
unfolding str_eq
str_eq_refl [] = refl
str_eq_refl (a ∷ s) = ground (arith, str_eq_refl s)

pub str_eq_iff : (s t : Text) → (str_eq s t ≡ true) ↔ (s ≡ t)
str_eq_iff s t = (str_eq→eq s t, λ e. subst (λ (u : Text). str_eq s u ≡ true) e (str_eq_refl s))

pub str_le_refl : (s : Text) → str_le s s ≡ true
unfolding str_le
str_le_refl [] = refl
str_le_refl (a ∷ s) = ground (arith, str_le_refl s)

pub str_le_trans : (s t u : Text) → str_le s t ≡ true → str_le t u ≡ true → str_le s u ≡ true
unfolding str_le
str_le_trans [] t u h k = refl
str_le_trans (a ∷ s) [] u h k = ground arith
str_le_trans (a ∷ s) (b ∷ t) [] h k = ground arith
str_le_trans (a ∷ s) (b ∷ t) (c ∷ u) h k = ground (arith, str_le_trans s t u)

pub str_le_total : (s t : Text) → (str_le s t ≡ true) ⊎ (str_le t s ≡ true)
unfolding str_le
str_le_total [] t = inl refl
str_le_total (a ∷ s) [] = inr refl
str_le_total (a ∷ s) (b ∷ t) = ground (arith, str_le_total s t)

pub str_le_antisym : (s t : Text) → str_le s t ≡ true → str_le t s ≡ true → s ≡ t
unfolding str_le
str_le_antisym [] [] h k = refl
str_le_antisym [] (b ∷ t) h k = ground arith
str_le_antisym (a ∷ s) [] h k = ground arith
str_le_antisym (a ∷ s) (b ∷ t) h k = ground (arith, str_le_antisym s t)

pub char_count-le-length : (s : Text) → char_count s ≤ length s
unfolding char_count
char_count-le-length [] = omega arith
char_count-le-length (b ∷ s) = ground (arith, char_count-le-length s)
