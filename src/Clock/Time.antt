-- ===== src/Clock/Time.antt =====
-- The time that Kernel/lib.c reads, against the formats of the real-time clock.
use so_bare_bones.Common.{
  ℕ, ◌+◌, ◌-◌, ◌*◌, ◌/◌, ◌%◌, ◌<◌, ◌≡◌, ◌⊎◌, true, ◌||◌, refl, arith, ltb, ◌==◌, if◌then◌else◌,
  ==_iff, holds_under, holds_under_sound, ap,
}
use so_bare_bones.Clock.{
  read_seconds, read_minutes, read_hours, decode, decode_hours, initialized, initialize_reg_b_data,
}

-- The formats of the clock's registers: register B has bit 1 set for 24 hours, and bit 2 for binary
-- numbers; `mode` is these two bits.
abbrev pub encode : (mode : ℕ) → ℕ → ℕ
encode mode n = if mode / 2 % 2 == 1 then n else n / 10 * 16 + n % 10

-- With 12 hours, bit 7 says that it is after noon, and midnight and noon are 12.
abbrev pub encode_hours : (mode hour : ℕ) → ℕ
encode_hours mode hour =
    if mode % 2 == 1
    then encode mode hour
    else let shown = if hour % 12 == 0 then 12 else hour % 12 in
      encode mode shown + (if ltb hour 12 then 0 else 128)

-- A clock that stands at a time.
pub record Shows (read_cmos : ℕ → ℕ) (hour minute second : ℕ) : Type 0 where
  pub hour_in : hour < 24
  pub minute_in : minute < 60
  pub second_in : second < 60
  pub seconds_at : read_cmos 0x00 ≡ encode (read_cmos 0x0B / 2 % 4) second
  pub minutes_at : read_cmos 0x02 ≡ encode (read_cmos 0x0B / 2 % 4) minute
  pub hours_at : read_cmos 0x04 ≡ encode_hours (read_cmos 0x0B / 2 % 4) hour

-- What `readHours` returns at an hour: with 12 hours, after noon, twice the hours since noon.
abbrev pub hour_read : (mode hour : ℕ) → ℕ
hour_read mode hour = if mode % 2 == 1 || ltb hour 12 then hour else (hour - 12) * 2

decode-encode : holds_under (λ m. holds_under (λ n. decode (m + 1) (encode m n) == n) 60) 4 ≡ true
unfolding holds_under
decode-encode = refl

decode_hours-encode_hours :
    holds_under
      (λ m. holds_under (λ h. decode_hours (m + 1) (encode_hours m h) == hour_read m h) 24)
      4
    ≡ true
unfolding holds_under
decode_hours-encode_hours = refl

number_back : (m n : ℕ) → m < 4 → n < 60 → decode (m + 1) (encode m n) ≡ n
number_back m n hm hn = (==_iff _ _).0 (
    holds_under_sound (λ k. decode (m + 1) (encode m k) == k) 60 hn
      (holds_under_sound (λ l. holds_under (λ k. decode (l + 1) (encode l k) == k) 60) 4 hm
        decode-encode))

hour_back : (m h : ℕ) → m < 4 → h < 24 → decode_hours (m + 1) (encode_hours m h) ≡ hour_read m h
hour_back m h hm hh = (==_iff _ _).0 (
    holds_under_sound (λ k. decode_hours (m + 1) (encode_hours m k) == hour_read m k) 24 hh
      (holds_under_sound
        (λ l. holds_under (λ k. decode_hours (l + 1) (encode_hours l k) == hour_read l k) 24) 4 hm
        decode_hours-encode_hours))

-- `regBData` is not set yet, or it was set from this clock.
abbrev pub Cached : (ℕ → ℕ) → ℕ → Type 0
Cached read_cmos reg = (reg ≡ 0) ⊎ (reg ≡ initialize_reg_b_data read_cmos)

initialized-Cached :
    (read_cmos : ℕ → ℕ) (reg : ℕ)
    → Cached read_cmos reg
    → initialized read_cmos reg ≡ initialize_reg_b_data read_cmos
initialized-Cached read_cmos reg c = ground arith

-- In every format of the clock, `readSeconds` and `readMinutes` return the second and the minute.
-- `readHours` returns the hour with 24 hours and before noon; with 12 hours and from noon on, it
-- returns twice the hours since noon. Each leaves `regBData` set from the
-- clock, given that it was not set yet or was set from this clock.
pub read-Shows :
    (read_cmos : ℕ → ℕ) (reg hour minute second : ℕ)
    → Cached read_cmos reg
    → Shows read_cmos hour minute second
    → (read_seconds read_cmos reg ≡ (initialize_reg_b_data read_cmos, second))
      × (read_minutes read_cmos reg ≡ (initialize_reg_b_data read_cmos, minute))
      × (read_hours read_cmos reg
          ≡ (initialize_reg_b_data read_cmos, hour_read (read_cmos 0x0B / 2 % 4) hour))
unfolding read_seconds read_minutes read_hours
read-Shows read_cmos reg hour minute second c s =
    let m = read_cmos 0x0B / 2 % 4 in
    let mode : m < 4 = omega arith in
    (
      rw (initialized-Cached read_cmos reg c, s.seconds_at)
          (ap (λ v. (m + 1, v)) (number_back m second mode s.second_in)),
      rw (initialized-Cached read_cmos reg c, s.minutes_at)
          (ap (λ v. (m + 1, v)) (number_back m minute mode s.minute_in)),
      rw (initialized-Cached read_cmos reg c, s.hours_at)
          (ap (λ v. (m + 1, v)) (hour_back m hour mode s.hour_in)),
    )
