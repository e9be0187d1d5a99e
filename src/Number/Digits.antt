-- ===== src/Number/Digits.antt =====
-- The loop of `uintToBase`, Kernel/naiveConsole.c, that finds the digits.
use native.Mathlib.Nat.{
  div-div-eq-div-mul, div-one, div-eq_of_lt, div-lt_iff_lt-mul, le-div_iff_mul-le,
}
use native.Mathlib.Nat.{pow-zero, pow-suc, mul-le-mul_left, pow-succ'}
use so_bare_bones.Common.{
  ℕ, zero, suc, ◌+◌, ◌*◌, ◌/◌, ◌%◌, ◌^◌, ◌≤◌, ◌<◌, ◌≡◌, ◌≢◌, ◌⊎◌, inl, inr, some, ◌==◌, arith, refl,
  ap, sym, ◌∙◌, true, false, lt-or-le,
}
use so_bare_bones.Number.{Text, store, digit_char, convert_loop}

-- What the loop has done when it stops: `more` digits behind the first one.
pub record Converted (f value base : ℕ) (text : Text) (p : ℕ) : Type 0 where
  pub more : ℕ
  pub after : Text
  pub runs : convert_loop f value base text p ≡ some (after, p + (more + 1))
  pub below : value < base ^ (more + 1)
  pub top : (more ≡ 0) ⊎ (base ^ more ≤ value)
  pub digit : (j : ℕ) → j ≤ more → after (p + j) ≡ digit_char (value / base ^ j % base)
  pub same : (q : ℕ) → (q < p) ⊎ (p + more < q) → after q ≡ text q

pow_one : (b : ℕ) → b ^ 1 ≡ b
pow_one b = pow-suc b 0 ∙ ap (λ k. k * b) (pow-zero b) ∙ omega arith

pow_more : (b m : ℕ) → b ^ (m + 1) ≡ b ^ m * b
pow_more b m = ap (λ k. b ^ k) (omega arith) ∙ pow-suc b m

pub store_self : (text : Text) (p c : ℕ) → store text p c p ≡ c
store_self text p c = ground arith

pub store_ne : (text : Text) (p c q : ℕ) → q ≢ p → store text p c q ≡ text q
store_ne text p c q ne = ground arith

module _ (f value base : ℕ) (text : Text) (p : ℕ) (radix : 2 ≤ base) where
  first_digit :
      (j : ℕ)
      → j ≡ 0
      → store text p (digit_char (value % base)) (p + j) ≡ digit_char (value / base ^ j % base)
  first_digit j z =
      ap (store text p (digit_char (value % base))) (omega arith)
      ∙ store_self text p (digit_char (value % base))
      ∙ ap (λ v. digit_char (v % base)) (sym (div-one value))
      ∙ ap (λ d. digit_char (value / d % base)) (sym (ap (λ k. base ^ k) z ∙ pow-zero base))

  Converted-last : value < base → (value / base == 0) ≡ true → Converted (suc f) value base text p
  unfolding convert_loop
  Converted-last small last = record {
    more = 0;
    after = store text p (digit_char (value % base));
    runs = rw last refl;
    below = rw (pow_one base) small;
    top = inl refl;
    digit = λ j h. first_digit j (omega arith);
    same = λ q out. store_ne text p (digit_char (value % base)) q (omega arith);
  }

  Converted-more :
      base ≤ value
      → (value / base == 0) ≡ false
      → Converted f (value / base) base (store text p (digit_char (value % base))) (p + 1)
      → Converted (suc f) value base text p
  unfolding convert_loop
  Converted-more large next r = record {
    more = r.more + 1;
    after = r.after;
    runs = rw next (r.runs ∙ ap (λ n. some (r.after, n)) (omega arith));
    below = rw (pow_more base (r.more + 1)) ((div-lt_iff_lt-mul (omega arith)).0 r.below);
    top = inr (high r.top);
    digit = digits;
    same = λ q out.
        r.same q (omega arith) ∙ store_ne text p (digit_char (value % base)) q (omega arith);
  }
    where
      high : (r.more ≡ 0) ⊎ (base ^ r.more ≤ value / base) → base ^ (r.more + 1) ≤ value
      high (inl z) = rw (z, pow_one base) large
      high (inr le) = rw (pow_more base r.more) ((le-div_iff_mul-le (omega arith)).0 le)

      digits : (j : ℕ) → j ≤ r.more + 1 → r.after (p + j) ≡ digit_char (value / base ^ j % base)
      digits zero h = r.same (p + 0) (omega arith) ∙ first_digit 0 refl
      digits (suc j) h =
          ap r.after (omega arith)
          ∙ r.digit j (omega arith)
          ∙ ap (λ v. digit_char (v % base))
              (div-div-eq-div-mul value base (base ^ j)
                ∙ ap (λ d. value / d) (sym (pow-succ' base j)))

-- As many rounds as the value has bits are enough.
pub convert_loop-Converted :
    (f value base : ℕ) (text : Text) (p : ℕ)
    → 2 ≤ base
    → value < 2 ^ suc f
    → Converted (suc f) value base text p
convert_loop-Converted zero value base text p radix h =
    let small : value < base = omega arith in
    Converted-last 0 value base text p radix small (rw (div-eq_of_lt small) refl)
convert_loop-Converted (suc f) value base text p radix h = elim (lt-or-le value base) [
  | inl small ↦ Converted-last (suc f) value base text p radix small (rw (div-eq_of_lt small) refl)
  | inr large ↦
      let quotient : 1 ≤ value / base =
        (le-div_iff_mul-le {k = base} {x = 1} {y = value} (omega arith)).1 (omega arith) in
      let enough : 2 ^ suc f * 2 ≤ 2 ^ suc f * base = mul-le-mul_left (2 ^ suc f) radix in
      Converted-more (suc f) value base text p radix large (ground arith) (
        convert_loop-Converted f (value / base) base _ (p + 1) radix
          ((div-lt_iff_lt-mul (omega arith)).1 (omega (arith, enough, pow-suc 2 (suc f)))))
]
