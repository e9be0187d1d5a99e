-- ===== src/Keyboard/Decode.antt =====
-- Which character a pressed key adds, Kernel/drivers/keyboard_driver.c.
use so_bare_bones.Common.{
  ℕ, ◌+◌, ◌-◌, ◌<◌, ◌≡◌, Bool, true, false, not, ◌&&◌, ◌||◌, Option, none, some, [], ◌∷◌, arith,
  refl, ltb, leb, ◌==◌, if◌then◌else◌, holds_under, holds_under_sound, ◌%◌, get_or-set_self,
}
use so_bare_bones.Keyboard.{
  Keyboard, keyboard_handler, press_char, press_special, add_char, add_to_buffer, plain_char,
  shift_char, overflow_message, end_of_pressing_keys,
}
use so_bare_bones.Keyboard.Ring.{IsValid, waiting}

-- Exactly one of the two.
abbrev differ : Bool → Bool → Bool
differ true b = not b
differ false b = b

-- The character that a key with the small letter `c` is to give.
abbrev pub letter : (shift caps : Bool) → ℕ → ℕ
letter shift caps c = if differ shift caps then c - 32 else c

abbrev pub is_letter : ℕ → Bool
is_letter c = leb b'a' c && leb c b'z'

abbrev letter_row : Option ℕ → Option ℕ → Bool
letter_row none other = true
letter_row (some c) none = false
letter_row (some c) (some d) = if is_letter c then d == c - 32 else true

-- In `asciiMap` the shifted character of a letter's key is its capital.
letters_table : holds_under (λ code. letter_row (plain_char code) (shift_char code)) 128 ≡ true
unfolding holds_under plain_char shift_char
letters_table = refl

letter_shift :
    (code c : ℕ)
    → code < 128
    → plain_char code ≡ some c
    → is_letter c ≡ true
    → shift_char code ≡ some (c - 32)
letter_shift code c h e l =
    go (plain_char code) (shift_char code)
      (holds_under_sound (λ i. letter_row (plain_char i) (shift_char i)) 128 h letters_table) e
  where
    go : (o p : Option ℕ) → letter_row o p ≡ true → o ≡ some c → p ≡ some (c - 32)
    go none p r q = absurd (cc)
    go (some b) none r q = absurd (cc)
    go (some b) (some d) r q = ground arith

abbrev special : ℕ → Bool
special code = code == 0x1D || code == 0x3A || code == 0x2A || code == 0x36

abbrev special_row : ℕ → Option ℕ → Bool
special_row code none = true
special_row code (some c) = if is_letter c then not (special code) else true

specials_table : holds_under (λ code. special_row code (plain_char code)) 128 ≡ true
unfolding holds_under plain_char
specials_table = refl

-- A letter's key is none of those that change the driver's flags.
press_special-letter :
    (k : Keyboard) (code c : ℕ)
    → code < 128
    → plain_char code ≡ some c
    → is_letter c ≡ true
    → press_special k code ≡ k
unfolding press_special
press_special-letter k code c h e l =
    go (plain_char code)
      (holds_under_sound (λ i. special_row i (plain_char i)) 128 h specials_table) e
  where
    go : (o : Option ℕ) → special_row code o ≡ true → o ≡ some c → press_special k code ≡ k
    go none r q = absurd (cc)
    go (some b) r q = ground arith

press_char-letter :
    (k : Keyboard) (code c : ℕ)
    → code < 128
    → plain_char code ≡ some c
    → is_letter c ≡ true
    → k.ctrl_lckd ≡ false
    → press_char k code
      ≡ some (add_to_buffer k (letter (k.lshift_lckd || k.rshift_lckd) k.caps_lckd c), [])
unfolding press_char add_char
press_char-letter k code c h e l ctrl = ground (arith, letter_shift code c h e l)

-- Pressing a letter's key, with ctrl not held and room in the ring, adds one character and has no
-- other effect: the capital exactly if one of shift and caps lock is on and the other is not.
pub keyboard_handler-letter :
    (k : Keyboard) (code c : ℕ)
    → code < 128
    → plain_char code ≡ some c
    → is_letter c ≡ true
    → k.ctrl_lckd ≡ false
    → k.size < 100
    → keyboard_handler k code
      ≡ some (add_to_buffer k (letter (k.lshift_lckd || k.rshift_lckd) k.caps_lckd c), [])
unfolding keyboard_handler
keyboard_handler-letter k code c h e l ctrl room =
    let pressed : ltb code end_of_pressing_keys ≡ true = ground arith in
    let quiet : leb 100 k.size ≡ false = ground arith in
    rw (pressed, quiet, press_special-letter k code c h e l, press_char-letter k code c h e l ctrl)

-- A full ring does not stop the driver: on a letter's key, with ctrl not held, it asks for the overflow
-- message, still writes the character over the oldest one that waits, and counts 101 characters.
pub keyboard_handler-overflow :
    (k : Keyboard) (code c : ℕ)
    → code < 128
    → plain_char code ≡ some c
    → is_letter c ≡ true
    → k.ctrl_lckd ≡ false
    → IsValid k
    → k.size ≡ 100
    → (k' : Keyboard) × (keyboard_handler k code ≡ some (k', overflow_message ∷ []))
      × (k'.size ≡ 101)
      × (waiting k' 0 ≡ letter (k.lshift_lckd || k.rshift_lckd) k.caps_lckd c)
unfolding keyboard_handler add_to_buffer
keyboard_handler-overflow k code c h e l ctrl v full =
    let pressed : ltb code end_of_pressing_keys ≡ true = ground arith in
    let loud : leb 100 k.size ≡ true = ground arith in
    let d = letter (k.lshift_lckd || k.rshift_lckd) k.caps_lckd c in
    let at : k.end_position ≡ (k.start_position + 0) % 100 = omega (arith, v.end_at, v.start_in) in
    (
      add_to_buffer k d,
      rw (
        pressed,
        loud,
        press_special-letter k code c h e l,
        press_char-letter k code c h e l ctrl,
      ),
      omega arith,
      rw at (get_or-set_self k.buffer ((k.start_position + 0) % 100) d 0 (omega (arith, v.room))),
    )
