-- ===== src/Strings.antt =====
-- The string functions of user space, Userland/SampleCodeModule/Lib.c.
--
-- A string is a pointer into a memory of bytes. The loops run on fuel, and `none` means that it ran
-- out.
pub mod Compare
pub mod Holds
pub mod Numbers
mod Tests
use so_bare_bones.Common.{
  ℕ, zero, suc, ◌+◌, ◌-◌, ◌*◌, ◌%◌, ◌^◌, ◌&&◌, not, Option, none, some, ltb, leb, ◌==◌,
  if◌then◌else◌, add64, sub64, ℤ, pos, ◌-ℤ◌, leb_ℤ,
}
use so_bare_bones.Number.{Text, store}

unfoldable pub strlen_loop : ℕ → Text → (str i : ℕ) → Option ℕ
strlen_loop zero text str i = none
strlen_loop (suc f) text str i =
    let rest = strlen_loop f text str (i + 1) in if not (text (str + i) == 0) then rest else some i

abbrev pub strlen : ℕ → Text → (str : ℕ) → Option ℕ
strlen fuel text str = strlen_loop fuel text str 0

-- The loop of `strcmp`, with the test behind it.
unfoldable pub strcmp_loop : ℕ → Text → (str1 str2 i : ℕ) → Option ℕ
strcmp_loop zero text str1 str2 i = none
strcmp_loop (suc f) text str1 str2 i =
    let rest = strcmp_loop f text str1 str2 (i + 1) in
    let differ = not (text (str1 + i) == text (str2 + i)) in
    if not (text (str1 + i) == 0) && not (text (str2 + i) == 0)
    then (if differ then some 0 else rest)
    else (if differ then some 0 else some 1)

abbrev pub strcmp : ℕ → Text → (str1 str2 : ℕ) → Option ℕ
strcmp fuel text str1 str2 = strcmp_loop fuel text str1 str2 0

-- The loop of `strncpy` at `i` and `j`, with the terminator behind it.
unfoldable pub strncpy_loop : ℕ → Text → (source dest size i j : ℕ) → Option Text
strncpy_loop zero text source dest size i j = none
strncpy_loop (suc f) text source dest size i j =
    let rest =
      strncpy_loop f (store text (dest + j) (text (source + i))) source dest size (i + 1) (j + 1) in
    if ltb i size && not (text (source + i) == 0) then rest else some (store text (dest + j) 0)

abbrev pub strncpy : ℕ → Text → (source dest index size : ℕ) → Option Text
strncpy fuel text source dest index size = strncpy_loop fuel text source dest size index 0

-- A byte as `char`, which is signed, widened to 64 bits.
abbrev pub sign_extend : ℕ → ℕ
sign_extend c = if ltb c 128 then c else 2 ^ 64 - 256 + c

-- What `strToNumHex` adds for a character.
abbrev pub digit_value : ℕ → ℕ
digit_value c =
    if leb b'0' c && leb c b'9'
    then sub64 (sign_extend c) b'0'
    else if leb b'A' c && leb c b'F'
    then sub64 (sign_extend c) b'A'
    else sub64 (sign_extend c) b'a'

-- The loop of `strToNumHex`. `errorFlag` is only set behind it, and `len` only read to set it.
unfoldable pub hex_loop : ℕ → Text → (str number : ℕ) → Option ℕ
hex_loop zero text str number = none
hex_loop (suc f) text str number =
    let rest = hex_loop f text (str + 1) (add64 (number * 16 % 2 ^ 64) (digit_value (text str))) in
    if not (text str == 0) && not (text str == b' ') then rest else some number

abbrev pub str_to_num_hex : ℕ → Text → (str : ℕ) → Option ℕ
str_to_num_hex fuel text str = hex_loop fuel text str 0

unfoldable pub abs : ℤ → ℤ
abs i = if leb_ℤ (pos 0) i then i else pos 0 -ℤ i
