-- ===== src/Common/Decimal.antt =====
-- Decimal numerals: `to_string` of an unsigned integer, and `str::parse` into integer types.
use Prim.Native.Nat.{ℕ, zero, suc, ◌+◌, ◌-◌, ◌*◌, ◌/◌, ◌%◌, ◌<◌, ◌^◌}
use mathlib.Core.Path.{◌≡◌, refl, ◌∙◌}
use mathlib.Core.Logic.{dite}
use mathlib.Core.Bool.{Bool, true, ◌&&◌}
use mathlib.Core.Option.{Option, none, some}
use mathlib.Core.List.{[], ◌∷◌}
use mathlib.Core.WellFounded.{Acc, WellFounded}
use native.Mathlib.Decide.{dec_lt}
use native.Mathlib.Omega.{arith}
use agentmesh_private.Common.Tests.{leb, ◌==◌, if◌then◌else◌, ◌>>=◌}
use agentmesh_private.Common.Lists.{length, All}
use agentmesh_private.Common.Texts.{Text, is_empty}
use agentmesh_private.Common.Int.{ℤ, pos, sub_ℕ}

abbrev pub is_digit : ℕ → Bool
is_digit b = leb b'0' b && leb b b'9'

-- The value of a run of digits behind `n`; `none` at any other byte.
unfoldable pub digits_value : ℕ → Text → Option ℕ
digits_value n [] = some n
digits_value n (b ∷ s) =
    let rest = digits_value (n * 10 + (b - b'0')) s in if is_digit b then rest else none

-- `parse` into an unsigned type with the largest value `top`: one `+` may stand in front.
unfoldable pub parse_unsigned : ℕ → Text → Option ℕ
unfolding digits_value
parse_unsigned top [] = none
parse_unsigned top (b ∷ []) =
    if is_digit b then (if leb (b - b'0') top then some (b - b'0') else none) else none
parse_unsigned top (b ∷ c ∷ s) = do
  n ← digits_value 0 (if b == b'+' then c ∷ s else b ∷ c ∷ s)
  if leb n top then some n else none

abbrev pub u64_max : ℕ
u64_max = 2 ^ 64 - 1

abbrev pub u32_max : ℕ
u32_max = 2 ^ 32 - 1

Acc-below : (k n : ℕ) → n < k → Acc ◌<◌ n
Acc-below zero n h = elim h [ ]
Acc-below (suc k) n h = Acc.intro n (λ m hm. Acc-below k m (omega arith))

lt_wf : WellFounded ◌<◌
unfolding Acc-below
lt_wf = record { apply = λ n. Acc-below (suc n) n (omega arith) }

-- The digits of `n` in front of `out`.
show_onto : (n : ℕ) → Acc ◌<◌ n → Text → Text
show_onto n (Acc.intro _ smaller) out =
    dite (dec_lt 9 n)
      (λ h. show_onto (n / 10) (smaller (n / 10) (omega arith)) ((b'0' + n % 10) ∷ out))
      (λ _. (b'0' + n) ∷ out)

-- `to_string`.
unfoldable pub show : ℕ → Text
unfolding show_onto lt_wf dec_lt
show n = show_onto n (lt_wf.apply n) []

-- Reading back what `show_onto` wrote goes on behind it.
digits_value-show_onto :
    (n : ℕ) (w : Acc ◌<◌ n) (out : Text) → digits_value 0 (show_onto n w out) ≡ digits_value n out
unfolding digits_value show_onto
digits_value-show_onto n (Acc.intro _ smaller) out = grind (
  arith,
  λ (p : n / 10 < n). digits_value-show_onto (n / 10) (smaller (n / 10) p) ((b'0' + n % 10) ∷ out),
)

All-digits-show_onto :
    (n : ℕ) (w : Acc ◌<◌ n) (out : Text)
    → All (λ b. is_digit b ≡ true) out
    → All (λ b. is_digit b ≡ true) (show_onto n w out)
unfolding show_onto
All-digits-show_onto n (Acc.intro _ smaller) out h =
    elim (dec_lt 9 n)
      as (λ d.
        All (λ b. is_digit b ≡ true)
          (dite d (λ g. show_onto (n / 10) (smaller (n / 10) (omega arith)) ((b'0' + n % 10) ∷ out))
            (λ _. (b'0' + n) ∷ out))) [
              | yes g ↦
                  All-digits-show_onto (n / 10) (smaller (n / 10) _) ((b'0' + n % 10) ∷ out)
                    (ground arith, h)
              | no g ↦ (ground arith, h)
            ]

-- A numeral is not empty and does not begin with a sign, so it parses as its digits do.
pub All-digits-show : (n : ℕ) → All (λ b. is_digit b ≡ true) (show n)
unfolding show
All-digits-show n = All-digits-show_onto n (lt_wf.apply n) [] tt

pub digits_value-show : (n : ℕ) → digits_value 0 (show n) ≡ some n
unfolding show
digits_value-show n = digits_value-show_onto n (lt_wf.apply n) [] ∙ (unfold digits_value in refl)

parse_unsigned_of_digits :
    (top n : ℕ) (s : Text)
    → 0 < length s
    → All (λ b. is_digit b ≡ true) s
    → digits_value 0 s ≡ some n
    → parse_unsigned top s ≡ (if leb n top then some n else none)
unfolding parse_unsigned digits_value
parse_unsigned_of_digits top n [] l h e = absurd (omega arith)
parse_unsigned_of_digits top n (b ∷ []) l h e = ground arith
parse_unsigned_of_digits top n (b ∷ c ∷ s) l h e = ground arith

show_onto-length : (n : ℕ) (w : Acc ◌<◌ n) (out : Text) → length out < length (show_onto n w out)
unfolding show_onto
show_onto-length n (Acc.intro _ smaller) out = grind (
  arith,
  λ (p : n / 10 < n). show_onto-length (n / 10) (smaller (n / 10) p) ((b'0' + n % 10) ∷ out),
)

pub length-show_pos : (n : ℕ) → 0 < length (show n)
unfolding show
length-show_pos n = show_onto-length n (lt_wf.apply n) []

-- What `to_string` writes parses back, if it fits the type.
pub parse_unsigned-show :
    (top n : ℕ) → parse_unsigned top (show n) ≡ (if leb n top then some n else none)
parse_unsigned-show top n =
    parse_unsigned_of_digits top n (show n) (length-show_pos n) (All-digits-show n)
      (digits_value-show n)

-- `parse` into `i64`: one sign may stand in front of the digits.
unfoldable pub parse_i64 : Text → Option ℤ
unfolding parse_unsigned digits_value
parse_i64 [] = none
parse_i64 (b ∷ s) =
    if b == b'-'
    then (if is_empty s
        then none
        else do n ← digits_value 0 s; if leb n (2 ^ 63) then some (sub_ℕ 0 n) else none)
    else do n ← parse_unsigned (2 ^ 63 - 1) (b ∷ s); some (pos n)
