-- ===== src/Number/Room.antt =====
-- The room that `uintToBase` of Kernel/naiveConsole.c needs: `buffer` there has 64 bytes, and the
-- one of Kernel/drivers/video_driver.c has 10.
use native.Mathlib.Nat.{pow-le-pow_right}
use so_bare_bones.Common.{
  ℕ, ◌-◌, ◌^◌, ◌≤◌, ◌<◌, ◌≡◌, ◌⊎◌, ◌↔◌, inl, inr, some, arith, subst, lt-or-le,
}
use so_bare_bones.Number.{Text, uint_to_base}
use so_bare_bones.Number.Reverse.{Printed, uint_to_base-Printed}

pub Printed-fits :
    {value : ℕ} {text : Text} {buffer base : ℕ} (n : ℕ) (r : Printed value text buffer base)
    → 2 ≤ base
    → 0 < n
    → (r.digits ≤ n) ↔ (value < base ^ n)
Printed-fits {value} {text} {buffer} {base} n r radix pos = (
  λ le.
      let wider : base ^ r.digits ≤ base ^ n = pow-le-pow_right (omega arith) le in
      omega (arith, wider, r.below),
  λ small. elim (lt-or-le n r.digits) [
    | inr le ↦ le
    | inl more ↦ absurd (too_many small more r.top)
  ],
)
  where
    too_many :
        value < base ^ n → n < r.digits → (r.digits ≡ 1) ⊎ (base ^ (r.digits - 1) ≤ value) → ⊥
    too_many small more (inl one) = omega arith
    too_many small more (inr le) =
        let wider : base ^ n ≤ base ^ (r.digits - 1) =
          pow-le-pow_right (omega arith) (omega arith) in
        omega (arith, wider)

-- The digits and the terminator that `uintToBase` writes fit in `n + 1` bytes exactly if the number
-- is below `base ^ n`, for a number of 64 bits, a base from 2 on that is a `uint32_t`, and `n` not 0.
pub uint_to_base-fits :
    (value : ℕ) (text : Text) (buffer base n : ℕ)
    → 2 ≤ base
    → base < 2 ^ 32
    → value < 2 ^ 64
    → 0 < n
    → (after : Text) (digits : ℕ) → uint_to_base value text buffer base ≡ some (after, digits)
    → (digits ≤ n) ↔ (value < base ^ n)
uint_to_base-fits value text buffer base n radix word small pos after digits runs =
    let r = uint_to_base-Printed value text buffer base radix word small in
    let same : r.digits ≡ digits = digits_same r.runs in
    subst (λ d. (d ≤ n) ↔ (value < base ^ n)) same (Printed-fits n r radix pos)
  where
    digits_same :
        {t : Text} {d : ℕ} → uint_to_base value text buffer base ≡ some (t, d) → d ≡ digits
    digits_same e = cc
