-- ===== src/Proto/Rfc3339/Examples.antt =====
-- Runs of the timestamp parser, and instances of its theorems.
use agentmesh_private.Common.{bytes, none, some, ◌≡◌, refl, arith}
use agentmesh_private.Common.Int.{pos, ◌+ℤ◌, ◌-ℤ◌, ◌*ℤ◌, ◌/ℤ◌, ◌%ℤ◌}
use agentmesh_private.Common.Decimal.{parse_i64}
use agentmesh_private.Proto.Rfc3339.{parse_rfc3339_epoch}
use agentmesh_private.Proto.Rfc3339.Civil.{
  Date, next_day, month_length, day_number, day_number-next_day,
}

offset_normalizes :
    (parse_rfc3339_epoch (bytes "2026-08-21T00:00:00+09:00") ≡ some (pos 1787238000))
    × (parse_rfc3339_epoch (bytes "2026-08-20T15:00:00Z") ≡ some (pos 1787238000))
    × (parse_rfc3339_epoch (bytes "2026-13-01T00:00:00Z") ≡ none)
    × (parse_rfc3339_epoch (bytes "2026-08-22T10:00:00") ≡ none)
unfolding parse_rfc3339_epoch parse_i64 ◌+ℤ◌ ◌-ℤ◌ ◌*ℤ◌ ◌/ℤ◌ ◌%ℤ◌
offset_normalizes = (refl, refl, refl, refl)

abbrev leap_day_eve : Date
leap_day_eve = record { year = 2028; month = 2; day = 28 }

day_number-next_day_example :
    (day_number (next_day leap_day_eve) ≡ day_number leap_day_eve +ℤ pos 1)
    × (day_number (record { year = 1970; month = 1; day = 1 }) ≡ pos 0)
unfolding month_length
day_number-next_day_example = day_number-next_day leap_day_eve (record {
  month_from = omega arith;
  month_to = omega arith;
  day_from = omega arith;
  day_to = omega arith;
})
