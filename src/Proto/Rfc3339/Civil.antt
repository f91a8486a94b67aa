-- ===== src/Proto/Rfc3339/Civil.antt =====
-- crates/agentmesh-proto/src/rfc3339.rs: the day count against the Gregorian calendar.
use agentmesh_private.Common.{
  ℕ, zero, suc, ◌+◌, ◌-◌, ◌*◌, ◌/◌, ◌%◌, ◌≤◌, ◌<◌, Bool, true, false, ◌&&◌, ◌||◌, not, ◌≡◌, refl,
  arith, ◌==◌, leb, ltb, if◌then◌else◌, ap, sym, ◌∙◌, Bool-cases, inl, inr, leb→le,
}
use native.Mathlib.Numerals.{add-one}
use agentmesh_private.Common.Int.{ℤ, pos, negsuc, ◌+ℤ◌, ◌-ℤ◌, ◌*ℤ◌, ◌/ℤ◌, ◌%ℤ◌, sub_ℕ, leb_ℤ}
use agentmesh_private.Proto.Rfc3339.{days_from_march, days_from_civil}

-- The calendar, as an independent description.
pub record Date : Type 0 where
  pub year : ℕ
  pub month : ℕ
  pub day : ℕ

unfoldable pub is_leap : ℕ → Bool
is_leap y = y % 4 == 0 && (not (y % 100 == 0) || y % 400 == 0)

unfoldable pub month_length : ℕ → ℕ → ℕ
unfolding is_leap
month_length y m =
    if m == 2
    then (if is_leap y then 29 else 28)
    else if m == 4 || m == 6 || m == 9 || m == 11
    then 30
    else 31

unfoldable pub next_day : Date → Date
unfolding month_length
next_day d =
    if ltb d.day (month_length d.year d.month)
    then record d { day = d.day + 1 }
    else if ltb d.month 12
    then record d { month = d.month + 1; day = 1 }
    else record { year = d.year + 1; month = 1; day = 1 }

pub record IsDate (d : Date) : Type 0 where
  pub month_from : 1 ≤ d.month
  pub month_to : d.month ≤ 12
  pub day_from : 1 ≤ d.day
  pub day_to : d.day ≤ month_length d.year d.month

abbrev pub day_number : Date → ℤ
day_number d = days_from_civil (pos d.year) (pos d.month) (pos d.day)

-- For a year from 0 on the day count is this number less 719469.
abbrev march_count : ℕ → ℕ → ℕ → ℕ
march_count s m d = s * 365 + s / 4 - s / 100 + s / 400 + (m * 153 + 2) / 5 + d

pos-add : (a b : ℕ) → pos a +ℤ pos b ≡ pos (a + b)
unfolding ◌+ℤ◌
pos-add a b = ground arith

pos-mul : (a k : ℕ) → pos a *ℤ k ≡ pos (a * k)
unfolding ◌*ℤ◌
pos-mul a k = ground arith

pos-div : (a k : ℕ) → pos a /ℤ k ≡ pos (a / k)
unfolding ◌/ℤ◌
pos-div a k = ground arith

pos-mod : (a k : ℕ) → pos a %ℤ k ≡ pos (a % k)
unfolding ◌%ℤ◌
pos-mod a k = ground arith

pos-sub : (a b : ℕ) → b ≤ a → pos a -ℤ pos b ≡ pos (a - b)
unfolding ◌-ℤ◌
pos-sub a b h = ground arith

pos-sub_ℕ : (a b : ℕ) → pos a -ℤ pos b ≡ sub_ℕ a b
unfolding ◌-ℤ◌
pos-sub_ℕ a b = ground arith

sub_ℕ_eq : (a b c d : ℕ) → a + d ≡ c + b → sub_ℕ a b ≡ sub_ℕ c d
sub_ℕ_eq a b c d h = ground arith

zero-leb : (s : ℕ) → leb 0 (s + 0) ≡ true
zero-leb s = ground arith

-- The day of an era is what it is of the count since year 0.
era_count :
    (s : ℕ)
    → s / 400 * 146097
        + ((s - s / 400 * 400) * 365 + (s - s / 400 * 400) / 4 - (s - s / 400 * 400) / 100)
      ≡ s * 365 + s / 4 - s / 100 + s / 400
era_count s = omega arith

days_from_march-pos :
    (s m d : ℕ) → 1 ≤ d → days_from_march (pos s) (pos m) (pos d) ≡ sub_ℕ (march_count s m d) 719469
unfolding days_from_march
days_from_march-pos s m d h =
    simp
      (
        zero-leb s,
        pos-div,
        pos-mul,
        pos-sub s (s / 400 * 400) (omega arith),
        pos-add,
        pos-sub ((m * 153 + 2) / 5 + d) 1 (omega arith),
        pos-sub ((s - s / 400 * 400) * 365 + (s - s / 400 * 400) / 4) ((s - s / 400 * 400) / 100)
            (omega arith),
      )
      (pos-sub_ℕ _ 719468 ∙ sub_ℕ_eq _ 719468 _ 719469 (omega arith))

-- January and February of year 0 belong to the March year -1.
days_from_march-minus_one :
    (m d : ℕ)
    → m ≤ 11
    → 1 ≤ d
    → days_from_march (negsuc 0) (pos m) (pos d) ≡ sub_ℕ ((m * 153 + 2) / 5 + d) 719835
unfolding days_from_march ◌+ℤ◌ ◌-ℤ◌ ◌*ℤ◌ ◌/ℤ◌
days_from_march-minus_one m d k h = ground arith

-- The day count of a date with the zero moved to the first of March of the year -1.
calendar_count : ℕ → ℕ → ℕ → ℕ
calendar_count zero m d =
    if leb m 2 then ((m + 9) * 153 + 2) / 5 + d else march_count 0 (m - 3) d + 366
calendar_count (suc y) m d =
    if leb m 2 then march_count y (m + 9) d + 366 else march_count (suc y) (m - 3) d + 366

march_month :
    (m : ℕ) → 1 ≤ m → m ≤ 12 → (pos m +ℤ pos 9) %ℤ 12 ≡ pos (if leb m 2 then m + 9 else m - 3)
march_month m h k = simp (pos-add, pos-mod) (ap pos (ground arith))

pos-pred : (y : ℕ) → pos (suc y) -ℤ pos 1 ≡ pos y
unfolding ◌-ℤ◌
pos-pred y = ground arith

sub_ℕ_later :
    (s m d : ℕ) → sub_ℕ (march_count s m d) 719469 ≡ sub_ℕ (march_count s m d + 366) 719835
sub_ℕ_later s m d =
    sub_ℕ_eq (march_count s m d) 719469 (march_count s m d + 366) 719835 (omega arith)

leb_ℤ-two : (m : ℕ) → leb_ℤ (pos m) (pos 2) ≡ leb m 2
leb_ℤ-two m = ground arith

minus_one : pos 0 -ℤ pos 1 ≡ negsuc 0
unfolding ◌-ℤ◌
minus_one = refl

-- Which March year and month a date falls into, by the test on its month.
early_date :
    (y m d : ℕ)
    → m ≤ 2
    → 1 ≤ d
    → days_from_march (pos y -ℤ pos 1) (pos (m + 9)) (pos d) ≡ sub_ℕ (calendar_count y m d) 719835
unfolding calendar_count
early_date zero m d h l =
    rw minus_one (days_from_march-minus_one (m + 9) d (omega arith) l ∙ ground arith)
early_date (suc y) m d h l =
    rw (pos-pred y) (days_from_march-pos y (m + 9) d l ∙ sub_ℕ_later y (m + 9) d ∙ ground arith)

late_date :
    (y m d : ℕ)
    → 2 < m
    → 1 ≤ d
    → days_from_march (pos y) (pos (m - 3)) (pos d) ≡ sub_ℕ (calendar_count y m d) 719835
unfolding calendar_count
late_date zero m d h l =
    days_from_march-pos zero (m - 3) d l ∙ sub_ℕ_later zero (m - 3) d ∙ ground arith
late_date (suc y) m d h l =
    days_from_march-pos (suc y) (m - 3) d l ∙ sub_ℕ_later (suc y) (m - 3) d ∙ ground arith

days_from_civil-count :
    (y m d : ℕ)
    → 1 ≤ m
    → m ≤ 12
    → 1 ≤ d
    → days_from_civil (pos y) (pos m) (pos d) ≡ sub_ℕ (calendar_count y m d) 719835
unfolding days_from_civil
days_from_civil-count y m d h k l =
    rw (march_month m h k, leb_ℤ-two m)
      (elim (Bool-cases (leb m 2)) [
        | inl early ↦ rw early (early_date y m d (leb→le m 2 early) l)
        | inr late ↦ rw late (late_date y m d (ground arith) l)
      ])

not_below : (a b : ℕ) → ltb a b ≡ false → b ≤ a
not_below a b h = ground arith

same_month : (y m d : ℕ) → calendar_count y m (d + 1) ≡ calendar_count y m d + 1
unfolding calendar_count
same_month zero m d = ground arith
same_month (suc y) m d = ground arith

-- A leap year has one more multiple of 4, 100 or 400 behind it.
leap_step :
    (y : ℕ)
    → suc y / 4 + y / 100 + suc y / 400 + (if is_leap (suc y) then 0 else 1)
      ≡ y / 4 + suc y / 100 + y / 400 + 1
unfolding is_leap
leap_step y = ground arith

-- The first of a month follows the last of the month before it.
month_end :
    (y m : ℕ)
    → 1 ≤ m
    → m < 12
    → calendar_count y (m + 1) 1 ≡ calendar_count y m (month_length y m) + 1
unfolding calendar_count month_length
month_end y zero h l = absurd (omega arith)
month_end y (suc (suc (suc (suc (suc (suc (suc (suc (suc (suc (suc (suc m)))))))))))) h l =
    absurd (omega arith)
month_end zero m h l = refl
month_end (suc y) m h l = ground (arith, leap_step y)

december_length : (y m : ℕ) → m ≡ 12 → month_length y m ≡ 31
unfolding month_length
december_length y m e = rw e refl

year_end : (y : ℕ) → calendar_count (y + 1) 1 1 ≡ calendar_count y 12 31 + 1
unfolding calendar_count
year_end zero = refl
year_end (suc y) = rw add-one (omega arith)

same_date :
    (y : ℕ) {m n d e : ℕ} → m ≡ n → d ≡ e → calendar_count y m d + 1 ≡ calendar_count y n e + 1
same_date y p q = cc

-- One day later, the count is one more: over the end of a month, of a February in a common and in a
-- leap year, and of a year.
calendar_count-next_day :
    (d : Date)
    → IsDate d
    → let e = next_day d in
      calendar_count e.year e.month e.day ≡ calendar_count d.year d.month d.day + 1
unfolding next_day
calendar_count-next_day d h = elim (Bool-cases (ltb d.day (month_length d.year d.month))) [
  | inl inside ↦ rw inside (same_month d.year d.month d.day)
  | inr last ↦ rw last (elim (Bool-cases (ltb d.month 12)) [
    | inl month ↦ rw month (
        month_end d.year d.month h.month_from (ground arith)
        ∙ ap (λ n. calendar_count d.year d.month n + 1)
            (omega (arith, h.day_to, not_below d.day (month_length d.year d.month) last)))
    | inr december ↦ rw december (
        year_end d.year
        ∙ same_date d.year (omega (arith, h.month_to, not_below d.month 12 december)) (
            omega (
              arith,
              h.day_to,
              not_below d.day (month_length d.year d.month) last,
              december_length d.year d.month
                  (omega (arith, h.month_to, not_below d.month 12 december)),
            )))
  ])
]

sub_ℕ_suc : (a b : ℕ) → sub_ℕ (a + 1) b ≡ sub_ℕ a b +ℤ pos 1
unfolding ◌+ℤ◌
sub_ℕ_suc a b = ground arith

month_in_range :
    (d : Date)
    → IsDate d
    → (1 ≤ (next_day d).month) × ((next_day d).month ≤ 12) × (1 ≤ (next_day d).day)
unfolding next_day
month_in_range d h = ground arith

-- The day number of the next date of the Gregorian calendar, from year 0 on, is one more, and that
-- of the first of January 1970 is 0.
pub day_number-next_day :
    (d : Date)
    → IsDate d
    → (day_number (next_day d) ≡ day_number d +ℤ pos 1)
      × (day_number (record { year = 1970; month = 1; day = 1 }) ≡ pos 0)
day_number-next_day d h =
    let (from, to, first) = month_in_range d h in
    (
      days_from_civil-count (next_day d).year (next_day d).month (next_day d).day from to first
          ∙ ap (λ c. sub_ℕ c 719835) (calendar_count-next_day d h)
          ∙ sub_ℕ_suc (calendar_count d.year d.month d.day) 719835
          ∙ ap (λ z. z +ℤ pos 1)
              (sym (days_from_civil-count d.year d.month d.day h.month_from h.month_to h.day_from)),
      unfold days_from_civil days_from_march ◌+ℤ◌ ◌-ℤ◌ ◌*ℤ◌ ◌/ℤ◌ ◌%ℤ◌ in refl,
    )
