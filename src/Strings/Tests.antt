-- ===== src/Strings/Tests.antt =====
-- The string functions of Userland/SampleCodeModule/Lib.c at strings in memory.
use so_bare_bones.Common.{
  ℕ, ◌+◌, ◌-◌, ◌%◌, ◌^◌, ◌<◌, ◌≡◌, ◌↔◌, ◌⊎◌, refl, arith, some, List, [], ◌∷◌, get_or, ltb, leb,
  ◌&&◌, if◌then◌else◌, ◌==◌,
}
use so_bare_bones.Number.{Text}
use so_bare_bones.Strings.{strlen, strcmp, strncpy, str_to_num_hex, hex_loop}
use so_bare_bones.Strings.Holds.{Holds, strlen_lem, strncpy_lem}
use so_bare_bones.Strings.Compare.{strcmp_lem}
use so_bare_bones.Strings.Numbers.{in_base_16, counted, str_to_num_hex_lem}

-- `help` at 10, `1f` at 20, and zeros.
abbrev memory : Text
memory p =
    if leb 10 p && ltb p 14
    then get_or (b'h' ∷ b'e' ∷ b'l' ∷ b'p' ∷ []) (p - 10) 0
    else if p == 20
    then b'1'
    else if p == 21
    then b'f'
    else 0

abbrev help : List ℕ
help = b'h' ∷ b'e' ∷ b'l' ∷ b'p' ∷ []

help-Holds : Holds memory 10 help
help-Holds = omega arith

-- 0x1f is read as 0x15.
letters_lost : str_to_num_hex 10 memory 20 ≡ some 0x15
unfolding hex_loop
letters_lost = refl

strlen_example : strlen 10 memory 10 ≡ some 4
strlen_example = strlen_lem 10 memory 10 help (omega arith) help-Holds

strncpy_example :
    (after : Text) × (strncpy 10 memory 10 30 0 2 ≡ some after)
    × Holds after 30 (b'h' ∷ b'e' ∷ [])
    × ((q : ℕ) → (q < 30) ⊎ (30 + 2 < q) → after q ≡ memory q)
strncpy_example = strncpy_lem 10 memory 10 30 0 2 help (omega arith) (omega arith) help-Holds

strcmp_example :
    (r : ℕ) × (strcmp 10 memory 10 20 ≡ some r)
    × ((r ≡ 1) ↔ (help ≡ b'1' ∷ b'f' ∷ []))
    × ((r ≡ 0) ↔ ¬ (help ≡ b'1' ∷ b'f' ∷ []))
strcmp_example =
    strcmp_lem 10 memory 10 20 help (b'1' ∷ b'f' ∷ []) (omega arith) help-Holds (omega arith)

str_to_num_hex_example :
    str_to_num_hex 10 memory 20 ≡ some (in_base_16 counted 0 (b'1' ∷ b'f' ∷ []) % 2 ^ 64)
str_to_num_hex_example =
    str_to_num_hex_lem 10 memory 20 (b'1' ∷ b'f' ∷ []) (omega arith) (omega arith) (omega arith)
