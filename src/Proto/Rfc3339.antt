-- ===== src/Proto/Rfc3339.antt =====
-- crates/agentmesh-proto/src/rfc3339.rs: timestamps as seconds since the epoch.
pub mod Civil
mod Examples
use agentmesh_private.Common.{
  ℕ, ◌+◌, ◌-◌, Text, Bool, true, false, not, ◌&&◌, ◌||◌, Option, none, some, ◌>>=◌, length, take,
  drop, get_elem?, is_continuation, leb, ltb, ◌==◌, if◌then◌else◌,
}
use agentmesh_private.Common.Int.{ℤ, pos, negsuc, ◌+ℤ◌, ◌-ℤ◌, ◌*ℤ◌, ◌/ℤ◌, ◌%ℤ◌, leb_ℤ}
use agentmesh_private.Common.Decimal.{parse_i64}

-- Whether the byte at an index is `b`.
abbrev pub byte_is : Text → ℕ → ℕ → Bool
byte_is s i b = elim (get_elem? s i) [ none ↦ false | some c ↦ c == b ]

-- `str::is_char_boundary`.
abbrev pub is_char_boundary : Text → ℕ → Bool
is_char_boundary s i = elim (get_elem? s i) [
  | none ↦ i == length s
  | some c ↦ i == 0 || not (is_continuation c)
]

-- `s.get(from..to)`.
unfoldable pub get_range : Text → ℕ → ℕ → Option Text
get_range s from to =
    if leb from to && leb to (length s) && is_char_boundary s from && is_char_boundary s to
    then some (take (to - from) (drop from s))
    else none

unfoldable pub num : Text → ℕ → ℕ → Option ℤ
unfolding get_range
num ts from to = do digits ← get_range ts from to; parse_i64 digits

-- Days from a year that begins in March, its month and its day.
days_from_march : ℤ → ℤ → ℤ → ℤ
days_from_march shifted_year month_of_year day =
    let era =
      (if leb_ℤ (pos 0) shifted_year then shifted_year else shifted_year -ℤ pos 399) /ℤ 400 in
    let year_of_era = shifted_year -ℤ era *ℤ 400 in
    let day_of_year = (month_of_year *ℤ 153 +ℤ pos 2) /ℤ 5 +ℤ day -ℤ pos 1 in
    let day_of_era = year_of_era *ℤ 365 +ℤ year_of_era /ℤ 4 -ℤ year_of_era /ℤ 100 +ℤ day_of_year in
    era *ℤ 146097 +ℤ day_of_era -ℤ pos 719468

unfoldable pub days_from_civil : ℤ → ℤ → ℤ → ℤ
unfolding days_from_march
days_from_civil year month day =
    days_from_march (if leb_ℤ month (pos 2) then year -ℤ pos 1 else year) ((month +ℤ pos 9) %ℤ 12)
      day

-- The sign and the offset behind it, in seconds.
signed_offset : Text → ℕ → Option ℤ
unfolding num
signed_offset ts sign = do
  offset_hours ← num ts 20 22
  offset_minutes ← num ts 23 25
  if byte_is ts 22 b':'
      then (let magnitude = offset_hours *ℤ 3600 +ℤ offset_minutes *ℤ 60 in
          some (if sign == b'+' then magnitude else pos 0 -ℤ magnitude))
      else none

-- The `match` on the first character behind the seconds.
offset_seconds : Text → Option ℤ
unfolding signed_offset
offset_seconds ts = do
  zone ← get_range ts 19 (length ts)
  sign ← get_elem? zone 0
  if sign == b'Z' || sign == b'z'
      then some (pos 0)
      else if sign == b'+' || sign == b'-'
      then signed_offset ts sign
      else none

abbrev has_separators : Text → Bool
has_separators ts =
    leb 20 (length ts)
    && byte_is ts 4 b'-'
    && byte_is ts 7 b'-'
    && (byte_is ts 10 b'T' || byte_is ts 10 b't')
    && byte_is ts 13 b':'
    && byte_is ts 16 b':'

-- The date and the time of day, without the offset.
local_seconds : Text → Option ℤ
unfolding num days_from_civil
local_seconds ts = do
  year ← num ts 0 4
  month ← num ts 5 7
  day ← num ts 8 10
  hour ← num ts 11 13
  minute ← num ts 14 16
  second ← num ts 17 19
  if leb_ℤ (pos 1) month && leb_ℤ month (pos 12) && leb_ℤ (pos 1) day && leb_ℤ day (pos 31)
      then some (days_from_civil year month day *ℤ 86400 +ℤ hour *ℤ 3600 +ℤ minute *ℤ 60 +ℤ second)
      else none

unfoldable pub parse_rfc3339_epoch : Text → Option ℤ
unfolding local_seconds offset_seconds
parse_rfc3339_epoch ts =
    if has_separators ts
    then (do local ← local_seconds ts; offset ← offset_seconds ts; some (local -ℤ offset))
    else none
