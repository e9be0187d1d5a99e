-- ===== src/Video/Numbers.antt =====
-- Drawing numbers, Kernel/drivers/video_driver.c: `draw_number`, with `draw_decimal` and `draw_hex`.
use mathlib.Core.Option
use so_bare_bones.Common.{
  ℕ, zero, suc, ◌+◌, ◌-◌, ◌/◌, ◌%◌, ◌^◌, ◌≤◌, ◌<◌, ◌≡◌, ◌⊎◌, inl, inr, some, true, ltb, List,
  length, get_or, All, refl, arith, ap, sym, ◌∙◌, subst,
}
use so_bare_bones.Number.{Text, digit_char}
use so_bare_bones.Number.Reverse.{Printed, uint_to_base-Printed, few_digits}
use so_bare_bones.Number.Room.{Printed-fits}
use so_bare_bones.Video.{Screen, read_text, draw_string, draw_number}
use so_bare_bones.Video.Cursor.{At, At-vram}
use so_bare_bones.Video.Outside.{IsOutside, draw_string-Written}
use so_bare_bones.Video.Typing.{Printable, col_after, row_after}

pub length-read_text : (t : Text) (p n : ℕ) → length (read_text t p n) ≡ n
unfolding read_text
length-read_text t p zero = refl
length-read_text t p (suc n) = omega (arith, length-read_text t (p + 1) n)

pub get_or-read_text : (t : Text) (p n i : ℕ) → i < n → get_or (read_text t p n) i 0 ≡ t (p + i)
unfolding read_text
get_or-read_text t p zero i h = absurd (omega arith)
get_or-read_text t p (suc n) zero h = ap t (omega arith)
get_or-read_text t p (suc n) (suc i) h =
    get_or-read_text t (p + 1) n i (omega arith) ∙ ap t (omega arith)

read_text-All :
    (P : ℕ → Type 0) (t : Text) (p n : ℕ)
    → ((i : ℕ) → i < n → P (t (p + i)))
    → All P (read_text t p n)
unfolding read_text
read_text-All P t p zero h = tt
read_text-All P t p (suc n) h =
    let here : p + 0 ≡ p = omega arith in
    (
      subst (λ q. P (t q)) here (h 0 (omega arith)),
      read_text-All P t (p + 1) n (λ i lt.
          let next : p + suc i ≡ p + 1 + i = omega arith in
          subst (λ q. P (t q)) next (h (suc i) (omega arith))),
    )

digit_char-Printable : (r : ℕ) → r < 16 → Printable (digit_char r)
unfolding digit_char
digit_char-Printable r h = ground arith

pub few_digits_of :
    (value : ℕ) (text : Text) (buffer base : ℕ)
    → 2 ≤ base
    → value < 2 ^ 64
    → (p : Printed value text buffer base) → p.digits ≤ 64
few_digits_of value text buffer base radix word p = elim p.top [
  | inl one ↦ omega arith
  | inr le ↦ omega (arith, few_digits value base (p.digits - 1) radix word le)
]

-- What `draw_number` does: it draws the text of the digits, the highest first, as `draw_string` does,
-- with memory `held` that differs in the digits' bytes of the buffer and in their terminator only, and
-- leaves memory as it was, but for these bytes and the framebuffer.
pub record NumberWritten (s : Screen) (value base left cols col row : ℕ) : Type 0 where
  pub text : List ℕ
  pub held : Text
  pub after : Screen
  pub drawn : draw_number s value base ≡ draw_string (record s { vram = held }) text
  pub runs : draw_number s value base ≡ some after
  pub some_digit : 0 < length text
  pub few : length text ≤ 9
  pub below : value < base ^ length text
  pub top : (length text ≡ 1) ⊎ (base ^ (length text - 1) ≤ value)
  pub digit :
      (i : ℕ)
      → i < length text
      → get_or text i 0 ≡ digit_char (value / base ^ (length text - 1 - i) % base)
  pub at : At after left cols (col_after cols text col) (row_after cols text col row)
  pub mode : after.mode ≡ s.mode
  pub buffer : after.buffer ≡ s.buffer
  pub same :
      (q : ℕ)
      → IsOutside s.mode q
      → (q < s.buffer) ⊎ (s.buffer + length text < q)
      → after.vram q ≡ s.vram q
  pub unheld : (q : ℕ) → (q < s.buffer) ⊎ (s.buffer + length text < q) → held q ≡ s.vram q

-- With the cursor in a cell of a text area on the screen, `draw_number` in a base from 2 to 16, of a
-- number of at most nine digits, is `draw_string` of its digits, the highest first and none that is
-- not needed; it returns, and writes only the framebuffer and, of the buffer, a byte for each digit
-- and a terminator.
pub draw_number-Written :
    (s : Screen) (value base left cols col row : ℕ)
    → 2 ≤ base
    → base ≤ 16
    → value < 2 ^ 64
    → value < base ^ 9
    → At s left cols col row
    → NumberWritten s value base left cols col row
unfolding draw_number Option.bind
draw_number-Written s value base left cols col row radix small word short a =
    let p = uint_to_base-Printed value s.vram s.buffer base radix (omega arith) word in
    let text = read_text p.after s.buffer p.digits in
    let len : length text ≡ p.digits = length-read_text p.after s.buffer p.digits in
    let few : p.digits ≤ 9 = (Printed-fits 9 p radix (omega arith)).1 short in
    let room : ltb p.digits 10 ≡ true = ground (arith, few) in
    let printable = read_text-All Printable p.after s.buffer p.digits (λ i lt.
      subst Printable (sym (p.digit i lt))
        (digit_char-Printable (value / base ^ (p.digits - 1 - i) % base) (grind arith))) in
    let w =
      draw_string-Written text (record s { vram = p.after }) left cols col row printable
        (At-vram s p.after a) in
    record {
      text = text;
      held = p.after;
      after = w.after;
      drawn = rw (p.runs, room);
      runs = rw (p.runs, room) w.runs;
      some_digit = rw len p.some_digit;
      few = rw len few;
      below = rw len p.below;
      top = rw len p.top;
      digit = λ i lt.
          let lt' : i < p.digits = rw len at lt in
          rw len (get_or-read_text p.after s.buffer p.digits i lt' ∙ p.digit i lt');
      at = w.at;
      mode = w.kept.mode;
      buffer = w.kept.buffer;
      same = λ q out beside. w.kept.same q out ∙ p.same q (omega (arith, len));
      unheld = λ q beside. p.same q (omega (arith, len));
    }
