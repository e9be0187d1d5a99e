-- ===== src/Number.antt =====
-- Numbers as text: `uintToBase` of Kernel/naiveConsole.c, which Kernel/drivers/video_driver.c has
-- a second time as `valueToBase`.
--
-- Memory is a function from addresses to bytes. The loops run on fuel, and `none` means that the
-- fuel ran out.
pub mod Digits
pub mod Reverse
pub mod Room
mod Tests
use mathlib.Core.Option
use so_bare_bones.Common.{
  ℕ, zero, suc, ◌+◌, ◌-◌, ◌/◌, ◌%◌, ◌^◌, Option, none, some, ltb, ◌==◌, if◌then◌else◌,
}

abbrev pub Text : Type 0
Text = ℕ → ℕ

-- `*p = c`
abbrev pub store : Text → ℕ → ℕ → Text
store text p c q = if p == q then c else text q

-- `(remainder < 10) ? remainder + '0' : remainder + 'A' - 10`, as a `char`
unfoldable pub digit_char : ℕ → ℕ
digit_char remainder = if ltb remainder 10 then remainder + b'0' else (remainder + b'A' - 10) % 256

-- The do-while loop: the digits from `p` on, the lowest first, and the pointer behind them.
pub convert_loop : ℕ → (value base : ℕ) → Text → (p : ℕ) → Option (Text × ℕ)
convert_loop zero value base text p = none
convert_loop (suc f) value base text p =
    let text' = store text p (digit_char (value % base)) in
    let rest = convert_loop f (value / base) base text' (p + 1) in
    if value / base == 0 then some (text', p + 1) else rest

-- The loop that turns the text around in place.
pub reverse_loop : ℕ → Text → (p1 p2 : ℕ) → Option Text
reverse_loop zero text p1 p2 = none
reverse_loop (suc f) text p1 p2 =
    let rest = reverse_loop f (store (store text p1 (text p2)) p2 (text p1)) (p1 + 1) (p2 - 1) in
    if ltb p1 p2 then rest else some text

abbrev pub max_digits : ℕ
max_digits = 64

-- `uintToBase`, with `base` as a `uint32_t`: the memory behind it, and the number of digits that it returns.
unfoldable pub uint_to_base : (value : ℕ) → Text → (buffer base : ℕ) → Option (Text × ℕ)
uint_to_base value text buffer base =
    Option.bind (convert_loop max_digits value (base % 2 ^ 32) text buffer) λ r.
      Option.map (λ text'. (text', r.1 - buffer))
        (reverse_loop max_digits (store r.0 r.1 0) buffer (r.1 - 1))
