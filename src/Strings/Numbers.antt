-- ===== src/Strings/Numbers.antt =====
-- `strToNumHex` of Userland/SampleCodeModule/Lib.c.
use so_bare_bones.Common.{
  ℕ, zero, suc, ◌+◌, ◌-◌, ◌*◌, ◌%◌, ◌^◌, ◌≤◌, ◌<◌, ◌≡◌, ◌⊎◌, some, List, [], ◌∷◌, length, arith, ap,
  ◌∙◌, leb, ◌==◌, if◌then◌else◌, not, ◌&&◌, true, All, add64,
}
use so_bare_bones.Number.{Text}
use so_bare_bones.Strings.{hex_loop, str_to_num_hex, digit_value}

-- The characters are at `p`, and behind them a terminator or a space.
abbrev pub Written : Text → (p : ℕ) → List ℕ → Type 0
Written text p [] = (text p ≡ 0) ⊎ (text p ≡ b' ')
Written text p (c ∷ l) = (text p ≡ c) × Written text (p + 1) l

abbrev pub IsDigit : ℕ → Type 0
IsDigit c = (b'0' ≤ c) × (c ≤ b'9')

abbrev pub IsHex : ℕ → Type 0
IsHex c = IsDigit c ⊎ ((b'A' ≤ c) × (c ≤ b'F')) ⊎ ((b'a' ≤ c) × (c ≤ b'f'))

-- The value of a hexadecimal digit.
abbrev pub hex_value : ℕ → ℕ
hex_value c = if leb c b'9' then c - b'0' else if leb c b'F' then c - b'A' + 10 else c - b'a' + 10

-- What `strToNumHex` counts it for: a letter counts ten less.
abbrev pub counted : ℕ → ℕ
counted c = if leb c b'9' then hex_value c else hex_value c - 10

-- Positional notation in base 16.
abbrev pub in_base_16 : (value : ℕ → ℕ) → (number : ℕ) → List ℕ → ℕ
in_base_16 value number [] = number
in_base_16 value number (c ∷ l) = in_base_16 value (number * 16 + value c) l

digit_value-counted : (c : ℕ) → IsHex c → digit_value c ≡ counted c
digit_value-counted c h = ground arith

counted_small : (c : ℕ) → IsHex c → counted c < 16
counted_small c h = ground arith

in_base_16-mod :
    (l : List ℕ) (a b : ℕ)
    → a % 2 ^ 64 ≡ b % 2 ^ 64
    → in_base_16 counted a l % 2 ^ 64 ≡ in_base_16 counted b l % 2 ^ 64
in_base_16-mod [] a b h = h
in_base_16-mod (c ∷ l) a b h =
    in_base_16-mod l (a * 16 + counted c) (b * 16 + counted c) (omega arith)

hex_loop-Written :
    (f : ℕ) (text : Text) (str number : ℕ) (l : List ℕ)
    → length l < f
    → number < 2 ^ 64
    → All IsHex l
    → Written text str l
    → hex_loop f text str number ≡ some (in_base_16 counted number l % 2 ^ 64)
unfolding hex_loop
hex_loop-Written zero text str number l h small hex t = absurd (omega arith)
hex_loop-Written (suc f) text str number [] h small hex t =
    let same : number ≡ number % 2 ^ 64 = omega arith in ground (arith, same)
hex_loop-Written (suc f) text str number (c ∷ l) h small hex t =
    let on : (not (text str == 0) && not (text str == b' ')) ≡ true = not_end c hex.0 t.0 in
    let next = add64 (number * 16 % 2 ^ 64) (digit_value c) in
    rw (on, t.0)
      (hex_loop-Written f text (str + 1) next l (omega arith) (omega arith) hex.1 t.1
        ∙ ap some (
            in_base_16-mod l next (number * 16 + counted c)
              (omega (arith, digit_value-counted c hex.0, counted_small c hex.0))))
  where
    not_end :
        (c : ℕ) → IsHex c → text str ≡ c → (not (text str == 0) && not (text str == b' ')) ≡ true
    not_end c h e = ground arith

-- `strToNumHex` of hexadecimal digits returns, modulo 2 to the 64, the number that they write if each
-- letter counts ten less than its value: `A` and `a` for 0, up to `F` and `f` for 5.
pub str_to_num_hex_lem :
    (f : ℕ) (text : Text) (str : ℕ) (l : List ℕ)
    → length l < f
    → All IsHex l
    → Written text str l
    → str_to_num_hex f text str ≡ some (in_base_16 counted 0 l % 2 ^ 64)
str_to_num_hex_lem f text str l h hex t = hex_loop-Written f text str 0 l h (omega arith) hex t
