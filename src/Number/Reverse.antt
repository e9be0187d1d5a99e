-- ===== src/Number/Reverse.antt =====
-- `uintToBase` of Kernel/naiveConsole.c: turning the digits around in place, and the whole.
use mathlib.Core.Option
use native.Mathlib.Nat.{pow-le-pow_left, pow-le-pow_right}
use so_bare_bones.Common.{
  ℕ, zero, suc, ◌+◌, ◌-◌, ◌/◌, ◌%◌, ◌^◌, ◌≤◌, ◌<◌, ◌≡◌, ◌≢◌, ◌⊎◌, inl, inr, some, ltb, arith, refl,
  ap, ◌∙◌, true, false, lt-or-le,
}
use so_bare_bones.Number.{Text, store, digit_char, reverse_loop, uint_to_base}
use so_bare_bones.Number.Digits.{convert_loop-Converted, store_ne, store_self}

-- The text between `p1` and `p2` stands the other way round, and the rest is as it was.
record Reversed (f : ℕ) (text : Text) (p1 p2 : ℕ) : Type 0 where
  after : Text
  runs : reverse_loop f text p1 p2 ≡ some after
  turned : (q : ℕ) → p1 ≤ q → q ≤ p2 → after q ≡ text (p1 + p2 - q)
  same : (q : ℕ) → (q < p1) ⊎ (p2 < q) → after q ≡ text q

swapped : (text : Text) (p1 p2 : ℕ) → Text
swapped text p1 p2 = store (store text p1 (text p2)) p2 (text p1)

module _ (text : Text) (p1 p2 : ℕ) (lt : p1 < p2) where
  swapped_left : swapped text p1 p2 p1 ≡ text p2
  unfolding swapped
  swapped_left =
      store_ne (store text p1 (text p2)) p2 (text p1) p1 (omega arith)
      ∙ store_self text p1 (text p2)

  swapped_right : swapped text p1 p2 p2 ≡ text p1
  unfolding swapped
  swapped_right = store_self (store text p1 (text p2)) p2 (text p1)

  swapped_ne : (q : ℕ) → q ≢ p1 → q ≢ p2 → swapped text p1 p2 q ≡ text q
  unfolding swapped
  swapped_ne q n m =
      store_ne (store text p1 (text p2)) p2 (text p1) q m ∙ store_ne text p1 (text p2) q n

  Reversed-step :
      (f : ℕ) → Reversed f (swapped text p1 p2) (p1 + 1) (p2 - 1) → Reversed (suc f) text p1 p2
  unfolding reverse_loop swapped
  Reversed-step f r = record {
    after = r.after;
    runs = let go_on : ltb p1 p2 ≡ true = ground arith in rw go_on r.runs;
    turned = λ q a b. elim (lt-or-le p1 q) [
      | inr first ↦
          r.same q (omega arith)
          ∙ ap (swapped text p1 p2) (omega arith)
          ∙ swapped_left
          ∙ ap text (omega arith)
      | inl past ↦ elim (lt-or-le q p2) [
        | inr last ↦
            r.same q (omega arith)
            ∙ ap (swapped text p1 p2) (omega arith)
            ∙ swapped_right
            ∙ ap text (omega arith)
        | inl inner ↦
            r.turned q (omega arith) (omega arith)
            ∙ swapped_ne _ (omega arith) (omega arith)
            ∙ ap text (omega arith)
      ]
    ];
    same = λ q out. r.same q (omega arith) ∙ swapped_ne q (omega arith) (omega arith);
  }

Reversed-stop :
    (f : ℕ) (text : Text) (p1 p2 : ℕ) → p2 ≤ p1 → p1 ≤ p2 + 1 → Reversed (suc f) text p1 p2
unfolding reverse_loop
Reversed-stop f text p1 p2 stop near = record {
  after = text;
  runs = let done : ltb p1 p2 ≡ false = ground arith in rw done refl;
  turned = λ q a b. ap text (omega arith);
  same = λ q out. refl;
}

reverse_loop-Reversed :
    (f : ℕ) (text : Text) (p1 p2 : ℕ) → p1 ≤ p2 + 1 → p2 < p1 + suc f → Reversed (suc f) text p1 p2
reverse_loop-Reversed zero text p1 p2 near fuel = Reversed-stop 0 text p1 p2 (omega arith) near
reverse_loop-Reversed (suc f) text p1 p2 near fuel = elim (lt-or-le p1 p2) [
  | inr stop ↦ Reversed-stop (suc f) text p1 p2 stop near
  | inl lt ↦
      Reversed-step text p1 p2 lt (suc f)
        (reverse_loop-Reversed f (swapped text p1 p2) (p1 + 1) (p2 - 1) (omega arith) (omega arith))
]

-- What `uintToBase` leaves: so many digits, the highest first and none that is not needed, a
-- terminator, and nothing else changed.
pub record Printed (value : ℕ) (text : Text) (buffer base : ℕ) : Type 0 where
  pub digits : ℕ
  pub after : Text
  pub runs : uint_to_base value text buffer base ≡ some (after, digits)
  pub some_digit : 0 < digits
  pub below : value < base ^ digits
  pub top : (digits ≡ 1) ⊎ (base ^ (digits - 1) ≤ value)
  pub digit :
      (i : ℕ)
      → i < digits
      → after (buffer + i) ≡ digit_char (value / base ^ (digits - 1 - i) % base)
  pub terminator : after (buffer + digits) ≡ 0
  pub same : (q : ℕ) → (q < buffer) ⊎ (buffer + digits < q) → after q ≡ text q

-- A number of 64 bits has 64 digits at most.
pub few_digits : (value base more : ℕ) → 2 ≤ base → value < 2 ^ 64 → base ^ more ≤ value → more < 64
few_digits value base more radix small le = elim (lt-or-le more 64) [
  | inl lt ↦ lt
  | inr ge ↦
      let wide : 2 ^ 64 ≤ 2 ^ more = pow-le-pow_right (omega arith) ge in
      let power : 2 ^ more ≤ base ^ more = pow-le-pow_left radix more in
      absurd (omega (arith, wide, power))
]

-- In any base from 2 on that is a `uint32_t`, `uintToBase` of a number of 64 bits returns the number of its digits, and
-- leaves them at the buffer, the highest first and with no leading zero, each as the character that
-- the code takes for it, cut to a byte; a terminator behind them; and the rest of memory as it was.
pub uint_to_base-Printed :
    (value : ℕ) (text : Text) (buffer base : ℕ)
    → 2 ≤ base
    → base < 2 ^ 32
    → value < 2 ^ 64
    → Printed value text buffer base
unfolding uint_to_base Option.bind
uint_to_base-Printed value text buffer base radix word small =
    let uint : base % 2 ^ 32 ≡ base = omega arith in
    let c = convert_loop-Converted 63 value base text buffer radix small in
    let few : c.more < 64 = more_few c.top in
    let p = buffer + (c.more + 1) in
    let ended = store c.after p 0 in
    let r = reverse_loop-Reversed 63 ended buffer (p - 1) (omega arith) (omega arith) in
    record {
      digits = c.more + 1;
      after = r.after;
      runs = rw (uint, c.runs, r.runs) (ap (λ n. some (r.after, n)) (omega arith));
      some_digit = omega arith;
      below = c.below;
      top = leading c.top;
      digit = λ i h.
          r.turned (buffer + i) (omega arith) (omega arith)
          ∙ store_ne c.after p 0 _ (omega arith)
          ∙ ap c.after (omega arith)
          ∙ c.digit (c.more - i) (omega arith)
          ∙ ap (λ e. digit_char (value / base ^ e % base)) (omega arith);
      terminator = r.same p (omega arith) ∙ store_self c.after p 0;
      same = λ q out.
          r.same q (omega arith) ∙ store_ne c.after p 0 q (omega arith) ∙ c.same q (omega arith);
    }
  where
    more_few : {more : ℕ} → (more ≡ 0) ⊎ (base ^ more ≤ value) → more < 64
    more_few (inl z) = omega arith
    more_few (inr le) = few_digits value base _ radix small le

    leading :
        {more : ℕ}
        → (more ≡ 0) ⊎ (base ^ more ≤ value)
        → (more + 1 ≡ 1) ⊎ (base ^ (more + 1 - 1) ≤ value)
    leading (inl z) = inl (omega arith)
    leading {more} (inr le) = let same : more + 1 - 1 ≡ more = omega arith in inr (rw same le)
