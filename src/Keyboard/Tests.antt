-- ===== src/Keyboard/Tests.antt =====
-- The theorems on the keyboard driver at concrete states.
use so_bare_bones.Common.{◌≡◌, true, false, none, some, List, [], ◌∷◌, refl, arith, replicate}
use so_bare_bones.Keyboard.{
  Keyboard, Effect, keyboard_handler, overflow_message, add_to_buffer, plain_char, shift_char,
}
use so_bare_bones.Keyboard.Ring.{IsValid, waiting}
use so_bare_bones.Keyboard.Line.{
  Line, Event, key, take_oldest, take_latest, append, hold, release, type_key, take_first,
  take_last, line_step, keyboard_step, run,
}
use so_bare_bones.Keyboard.Table.{table}
use so_bare_bones.Keyboard.Refines.{line_of}
use so_bare_bones.Keyboard.Reads.{Follows, run-keyboard_step}
use so_bare_bones.Keyboard.Decode.{keyboard_handler-letter, keyboard_handler-overflow}

-- Two characters wait, at the end of the ring and at its beginning.
abbrev wrapped : Keyboard
wrapped = record {
  buffer = b'b' ∷ replicate 98 0 (b'a' ∷ []);
  start_position = 99;
  end_position = 1;
  size = 2;
  lshift_lckd = true;
  rshift_lckd = false;
  caps_lckd = false;
  ctrl_lckd = false;
}

wrapped-IsValid : IsValid wrapped
wrapped-IsValid = record {
  room = refl;
  start_in = omega arith;
  end_at = refl;
  size_in = omega arith;
}

abbrev full : Keyboard
full = record wrapped { end_position = 99; size = 100 }

full-IsValid : IsValid full
full-IsValid = record { room = refl; start_in = omega arith; end_at = refl; size_in = omega arith }

q_key : plain_char 0x10 ≡ some b'q'
unfolding plain_char
q_key = refl

-- The left shift key is held for a first letter and let go for a second; then the latest character is
-- taken, and the oldest.
abbrev typing : List Event
typing = key 0x10 ∷ key 0xAA ∷ key 0x10 ∷ take_latest ∷ take_oldest ∷ []

abbrev typed_line : Line
typed_line = record (line_of wrapped) { left_shift = false; chars = b'b' ∷ b'Q' ∷ [] }

typing_runs : run line_step (line_of wrapped) typing ≡ some (typed_line, b'q' ∷ b'a' ∷ [])
unfolding run line_step type_key hold line_of shift_char append table release plain_char take_first
    take_last
typing_runs = refl

run-keyboard_step_example :
    Follows (run keyboard_step wrapped typing) (typed_line, b'q' ∷ b'a' ∷ [])
run-keyboard_step_example =
    run-keyboard_step wrapped (line_of wrapped) typing (typed_line, b'q' ∷ b'a' ∷ [])
      record { valid = wrapped-IsValid; line = refl } typing_runs

-- The key of the letter q, with the left shift key held.
keyboard_handler-letter_example :
    keyboard_handler wrapped 0x10 ≡ some (add_to_buffer wrapped b'Q', [])
keyboard_handler-letter_example =
    keyboard_handler-letter wrapped 0x10 b'q' (omega arith) q_key refl refl (omega arith)

keyboard_handler-overflow_example :
    (k' : Keyboard) × (keyboard_handler full 0x10 ≡ some (k', overflow_message ∷ []))
    × (k'.size ≡ 101)
    × (waiting k' 0 ≡ b'Q')
keyboard_handler-overflow_example =
    keyboard_handler-overflow full 0x10 b'q' (omega arith) q_key refl refl full-IsValid refl

-- F1 has a scan code behind the end of `asciiMap`.
f1_outside : keyboard_handler (record wrapped { lshift_lckd = false }) 0x3B ≡ none
unfolding keyboard_handler so_bare_bones.Keyboard.press_special so_bare_bones.Keyboard.press_char
    plain_char
f1_outside = refl
