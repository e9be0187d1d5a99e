-- ===== src/Clock.antt =====
-- The clock, in Kernel/lib.c: `readSeconds`, `readMinutes` and `readHours`, over the registers of
-- the real-time clock. `readCMOS` is assembly and a parameter: the register's byte by its number.
--
-- Each function returns the new value of the static `regBData` beside its result.
pub mod Time
mod Tests
use so_bare_bones.Common.{
  ℕ, ◌+◌, ◌-◌, ◌*◌, ◌/◌, ◌%◌, Bool, ◌&&◌, not, ltb, leb, ◌==◌, if◌then◌else◌,
}

-- `initializeregBData`: bits 1 and 2 of register B, plus 1.
abbrev pub initialize_reg_b_data : (ℕ → ℕ) → ℕ
initialize_reg_b_data read_cmos = read_cmos 0x0B / 2 % 4 + 1

-- The test at the start of each function.
abbrev pub initialized : (ℕ → ℕ) → ℕ → ℕ
initialized read_cmos reg_b_data =
    if reg_b_data == 0 then initialize_reg_b_data read_cmos else reg_b_data

-- `((x & 0xF0) >> 1) + ((x & 0xF0) >> 3) + (x & 0xf)` of a byte.
abbrev pub bcd_to_bin : ℕ → ℕ
bcd_to_bin x = (x / 16 * 16 / 2 + x / 16 * 16 / 8 + x % 16) % 256

-- `!((regBData - 1) & 0x02)` and `!((regBData - 1) & 0x01)`
abbrev pub is_bcd : ℕ → Bool
is_bcd reg_b_data = (reg_b_data - 1) / 2 % 2 == 0

abbrev pub is_12_hour : ℕ → Bool
is_12_hour reg_b_data = (reg_b_data - 1) % 2 == 0

-- What `readSeconds` and `readMinutes` make of the register's byte.
abbrev pub decode : (reg_b_data : ℕ) → ℕ → ℕ
decode reg_b_data x = if is_bcd reg_b_data then bcd_to_bin x else x

unfoldable pub read_seconds : (ℕ → ℕ) → ℕ → ℕ × ℕ
read_seconds read_cmos reg_b_data =
    let reg = initialized read_cmos reg_b_data in (reg, decode reg (read_cmos 0x00))

unfoldable pub read_minutes : (ℕ → ℕ) → ℕ → ℕ × ℕ
read_minutes read_cmos reg_b_data =
    let reg = initialized read_cmos reg_b_data in (reg, decode reg (read_cmos 0x02))

-- What `readHours` makes of the register's byte.
abbrev pub decode_hours : (reg_b_data : ℕ) → ℕ → ℕ
decode_hours reg_b_data x =
    if is_12_hour reg_b_data
    then (let pm = x / 128 % 2 in
        let hours = decode reg_b_data (x % 128) in
        if not (pm == 0) && not (hours == 12) then hours * 2 % 256 else hours % 12)
    else decode reg_b_data x

unfoldable pub read_hours : (ℕ → ℕ) → ℕ → ℕ × ℕ
read_hours read_cmos reg_b_data =
    let reg = initialized read_cmos reg_b_data in (reg, decode_hours reg (read_cmos 0x04))
