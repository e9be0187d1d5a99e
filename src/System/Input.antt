-- ===== src/System/Input.antt =====
-- From the key to the program: the keyboard's interrupt (Kernel/interrupts/idt.c), and system call 0
-- (Kernel/interrupts/int80.c), which the shell reads by.
use mathlib.Core.Option
use so_bare_bones.Common.{ℕ, ◌%◌, ◌<◌, ◌≡◌, Bool, true, false, ◌||◌, some, refl, arith, ap, ◌∙◌}
use so_bare_bones.Keyboard.{add_to_buffer, get_last_input, plain_char}
use so_bare_bones.Keyboard.Ring.{IsValid, waiting, add_to_buffer_lem, get_last_input_lem}
use so_bare_bones.Keyboard.Decode.{letter, is_letter, keyboard_handler-letter}
use so_bare_bones.Strings.{sign_extend}
use so_bare_bones.System.{
  System, irq_dispatcher, interrupt_routine2, run_effects, int80_dispatcher, sys_read,
}

letter_small : (shift caps : Bool) (c : ℕ) → is_letter c ≡ true → letter shift caps c < 128
letter_small shift caps c l = ground arith

irq_dispatcher-letter :
    (s : System) (code c : ℕ)
    → code < 128
    → plain_char code ≡ some c
    → is_letter c ≡ true
    → s.keyboard.ctrl_lckd ≡ false
    → s.keyboard.size < 100
    → irq_dispatcher s 1 code
      ≡ some (
        record s {
          keyboard =
              add_to_buffer s.keyboard
                (letter (s.keyboard.lshift_lckd || s.keyboard.rshift_lckd) s.keyboard.caps_lckd c);
        },
        false,
      )
unfolding irq_dispatcher interrupt_routine2 run_effects Option.bind
irq_dispatcher-letter s code c small e l ctrl room =
    let byte : code % 256 ≡ code = omega arith in
    rw (byte, keyboard_handler-letter s.keyboard code c small e l ctrl room)

sys_read-lem : (fuel : ℕ) (s : System) → int80_dispatcher fuel s 0 0 0 0 ≡ sys_read s
unfolding int80_dispatcher
sys_read-lem fuel s = refl

-- A letter's key pressed with room in the ring and ctrl not held, and then system call 0, which
-- takes the latest character: the call returns the letter, in the case that shift and caps lock
-- give, and every character that waited before waits again.
pub int80_dispatcher-irq_dispatcher :
    (fuel : ℕ) (s : System) (code c : ℕ)
    → code < 128
    → plain_char code ≡ some c
    → is_letter c ≡ true
    → s.keyboard.ctrl_lckd ≡ false
    → IsValid s.keyboard
    → s.keyboard.size < 100
    → (s' : System) × (s'' : System) × (irq_dispatcher s 1 code ≡ some (s', false))
      × (int80_dispatcher fuel s' 0 0 0 0
          ≡ some (
            s'',
            letter (s.keyboard.lshift_lckd || s.keyboard.rshift_lckd) s.keyboard.caps_lckd c,
          ))
      × IsValid s''.keyboard
      × (s''.keyboard.size ≡ s.keyboard.size)
      × ((j : ℕ) → j < s.keyboard.size → waiting s''.keyboard j ≡ waiting s.keyboard j)
unfolding sys_read
int80_dispatcher-irq_dispatcher fuel s code c small e l ctrl v room =
    let k = s.keyboard in
    let d = letter (k.lshift_lckd || k.rshift_lckd) k.caps_lckd c in
    let k' = add_to_buffer k d in
    let s' = record s { keyboard = k' } in
    let added = add_to_buffer_lem k d v room in
    let taken = get_last_input_lem k' added.0 (omega (arith, added.1)) in
    let low : d < 128 = letter_small (k.lshift_lckd || k.rshift_lckd) k.caps_lckd c l in
    let is_last : (get_last_input k').1 ≡ d =
      taken.1 ∙ ap (waiting k') (omega (arith, added.1)) ∙ added.2 in
    let plain : sign_extend (get_last_input k').1 ≡ d = ground arith in
    (
      s',
      record s { keyboard = (get_last_input k').0 },
      irq_dispatcher-letter s code c small e l ctrl room,
      sys_read-lem fuel s'
          ∙ ap (λ r. some (record s { keyboard = (get_last_input k').0 }, r)) plain,
      taken.0,
      omega (arith, taken.2, added.1),
      λ j h. taken.3 j ∙ added.3 j h,
    )
