-- ===== src/Clock/Tests.antt =====
-- The clock of Kernel/lib.c at a time.
use so_bare_bones.Common.{ℕ, ◌≡◌, ◌==◌, refl, arith, inl, if◌then◌else◌}
use so_bare_bones.Clock.{read_seconds, read_minutes, read_hours}
use so_bare_bones.Clock.Time.{Shows, read-Shows}

-- Five past three in the afternoon and 59 seconds, decimal and with 12 hours.
abbrev afternoon : ℕ → ℕ
afternoon r = if r == 0 then 0x59 else if r == 2 then 0x05 else if r == 4 then 0x83 else 0

afternoon-Shows : Shows afternoon 15 5 59
afternoon-Shows = record {
  hour_in = omega arith;
  minute_in = omega arith;
  second_in = omega arith;
  seconds_at = refl;
  minutes_at = refl;
  hours_at = refl;
}

-- `readHours` says 6.
read-Shows_example :
    (read_seconds afternoon 0 ≡ (1, 59))
    × (read_minutes afternoon 0 ≡ (1, 5))
    × (read_hours afternoon 0 ≡ (1, 6))
read-Shows_example = read-Shows afternoon 0 15 5 59 (inl refl) afternoon-Shows
