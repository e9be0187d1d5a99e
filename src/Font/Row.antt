-- ===== src/Font/Row.antt =====
-- The names of the rows in Kernel/include/font.h: a picture of eight pixels, with its byte.
use so_bare_bones.Common.{ℕ, ◌+◌, ◌*◌, ◌≤◌, Bool, true, false, arith}

abbrev pub bit : Bool → ℕ
bit true = 1
bit false = 0

pub bit-le : (p : Bool) → bit p ≤ 1
bit-le true = omega arith
bit-le false = omega arith

-- The byte of a name, for instance 0x14 of `___X_X__`; `true` is an `X`, from the left to the right.
unfoldable pub row_byte : (a b c d e f g h : Bool) → ℕ
row_byte a b c d e f g h =
    bit a * 0x80
    + bit b * 0x40
    + bit c * 0x20
    + bit d * 0x10
    + bit e * 0x08
    + bit f * 0x04
    + bit g * 0x02
    + bit h * 0x01
