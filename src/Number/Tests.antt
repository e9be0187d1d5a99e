-- ===== src/Number/Tests.antt =====
-- Runs of `uintToBase` (Kernel/naiveConsole.c), and the theorems at them.
use mathlib.Core.Option
use so_bare_bones.Common.{
  ℕ, ◌≤◌, ◌<◌, ◌^◌, ◌≡◌, ◌↔◌, refl, arith, Option, some, none, List, [], ◌∷◌,
}
use so_bare_bones.Number.{Text, uint_to_base, convert_loop, reverse_loop, digit_char}
use so_bare_bones.Number.Reverse.{Printed, uint_to_base-Printed}
use so_bare_bones.Number.Room.{uint_to_base-fits}

abbrev blank : Text
blank p = 7

-- Four bytes at the buffer, and the number of digits.
abbrev shown : Option (Text × ℕ) → List ℕ
shown none = []
shown (some r) = r.0 100 ∷ r.0 101 ∷ r.0 102 ∷ r.0 103 ∷ r.1 ∷ []

hexadecimal : shown (uint_to_base 0xA7 blank 100 16) ≡ b'A' ∷ b'7' ∷ 0 ∷ 7 ∷ 2 ∷ []
unfolding uint_to_base convert_loop reverse_loop digit_char Option.bind
hexadecimal = refl

zero_shown : shown (uint_to_base 0 blank 100 10) ≡ b'0' ∷ 0 ∷ 7 ∷ 7 ∷ 1 ∷ []
unfolding uint_to_base convert_loop reverse_loop digit_char Option.bind
zero_shown = refl

uint_to_base-Printed_example : Printed 4096 blank 100 10
uint_to_base-Printed_example =
    uint_to_base-Printed 4096 blank 100 10 (omega arith) (omega arith) (omega arith)

abbrev printed : Printed 4000000000 blank 100 10
printed = uint_to_base-Printed 4000000000 blank 100 10 (omega arith) (omega arith) (omega arith)

uint_to_base-fits_example : (printed.digits ≤ 9) ↔ (4000000000 < 10 ^ 9)
uint_to_base-fits_example =
    uint_to_base-fits 4000000000 blank 100 10 9 (omega arith) (omega arith) (omega arith)
      (omega arith) printed.after printed.digits printed.runs
