-- ===== src/Keyboard.antt =====
-- The keyboard driver, Kernel/drivers/keyboard_driver.c: scan codes become characters in a ring of
-- 100 bytes, from which the system calls read. A flag of the code is a Boolean; `size` and the
-- positions are never negative. `none` is a read of `asciiMap` behind its end.
pub mod Decode
pub mod Line
pub mod Reads
pub mod Refines
pub mod Ring
mod Tests
pub mod Table
use mathlib.Core.Option
use so_bare_bones.Common.{
  ℕ, zero, suc, ◌+◌, ◌-◌, ◌%◌, Bool, true, false, not, ◌&&◌, ◌||◌, Option, none, some, List, [],
  ◌∷◌, ◌++◌, ltb, leb, ◌==◌, if◌then◌else◌, get_elem?, get_or, set,
}

abbrev pub buffer_size : ℕ
buffer_size = 100

abbrev pub end_of_pressing_keys : ℕ
end_of_pressing_keys = 0x80

pub record Keyboard : Type 0 where
  pub buffer : List ℕ
  pub start_position : ℕ
  pub end_position : ℕ
  pub size : ℕ
  pub lshift_lckd : Bool
  pub rshift_lckd : Bool
  pub caps_lckd : Bool
  pub ctrl_lckd : Bool

-- What the handler asks of other drivers: the message of an overflow, and the snapshot of registers.
pub data Effect : Type 0 where
  overflow_message save_regs : Effect

abbrev pub to_lower_case : ℕ → ℕ
to_lower_case c = if leb b'A' c && leb c b'Z' then c + b'a' - b'A' else c

abbrev pub to_upper_case : ℕ → ℕ
to_upper_case c = if leb b'a' c && leb c b'z' then c - b'a' + b'A' else c

-- `asciiMap`: for each scan code the character, and the one with shift.
unfoldable pub ascii_map : List (ℕ × ℕ)
ascii_map =
    (0, 0)
    ∷ (27, 0)
    ∷ (49, 33)
    ∷ (50, 64)
    ∷ (51, 35)
    ∷ (52, 36)
    ∷ (53, 37)
    ∷ (54, 126)
    ∷ (55, 38)
    ∷ (56, 42)
    ∷ (57, 40)
    ∷ (48, 41)
    ∷ (45, 95)
    ∷ (61, 43)
    ∷ (8, 0)
    ∷ (9, 0)
    ∷ (113, 81)
    ∷ (119, 87)
    ∷ (101, 69)
    ∷ (114, 82)
    ∷ (116, 84)
    ∷ (121, 89)
    ∷ (117, 85)
    ∷ (105, 73)
    ∷ (111, 79)
    ∷ (112, 80)
    ∷ (91, 123)
    ∷ (93, 125)
    ∷ (10, 0)
    ∷ (0, 0)
    ∷ (97, 65)
    ∷ (115, 83)
    ∷ (100, 68)
    ∷ (102, 70)
    ∷ (103, 71)
    ∷ (104, 72)
    ∷ (106, 74)
    ∷ (107, 75)
    ∷ (108, 76)
    ∷ (59, 58)
    ∷ (39, 34)
    ∷ (96, 126)
    ∷ (0, 0)
    ∷ (92, 124)
    ∷ (122, 90)
    ∷ (120, 88)
    ∷ (99, 67)
    ∷ (118, 86)
    ∷ (98, 66)
    ∷ (110, 78)
    ∷ (109, 77)
    ∷ (44, 60)
    ∷ (46, 62)
    ∷ (47, 63)
    ∷ (0, 0)
    ∷ (0, 0)
    ∷ (0, 0)
    ∷ (32, 0)
    ∷ (0, 0)
    ∷ []

unfoldable pub plain_char : ℕ → Option ℕ
unfolding ascii_map
plain_char code = Option.map (λ p. p.0) (get_elem? ascii_map code)

unfoldable pub shift_char : ℕ → Option ℕ
unfolding ascii_map
shift_char code = Option.map (λ p. p.1) (get_elem? ascii_map code)

unfoldable pub add_to_buffer : Keyboard → ℕ → Keyboard
add_to_buffer k c = record k {
  buffer = set k.buffer k.end_position c;
  end_position = (k.end_position + 1) % buffer_size;
  size = k.size + 1;
}

-- `if (charToAdd != 0) addToBuffer(...)`
unfoldable pub add_char : Keyboard → (c shown : ℕ) → Keyboard
add_char k c shown = if c == 0 then k else add_to_buffer k shown

-- The first `switch`: keys that change the state of the driver when pressed.
unfoldable pub press_special : Keyboard → ℕ → Keyboard
press_special k code =
    if code == 0x1D
    then record k { ctrl_lckd = true }
    else if code == 0x3A
    then record k { caps_lckd = not k.caps_lckd }
    else if code == 0x2A
    then record k { lshift_lckd = true }
    else if code == 0x36
    then record k { rshift_lckd = true }
    else k

-- The character of the key, by the state of the special keys.
unfoldable pub press_char : Keyboard → ℕ → Option (Keyboard × List Effect)
press_char k code =
    if k.lshift_lckd || k.rshift_lckd
    then Option.map (λ c. (add_char k c (if k.caps_lckd then to_lower_case c else c), []))
        (shift_char code)
    else if k.caps_lckd
    then Option.map (λ c. (add_char k c (to_upper_case c), [])) (plain_char code)
    else if k.ctrl_lckd
    then some (k, save_regs ∷ [])
    else Option.map (λ c. (add_char k c c, [])) (plain_char code)

-- The last `switch`: a key is let go.
unfoldable pub release_special : Keyboard → ℕ → Keyboard
release_special k code =
    if code == 0x9D
    then record k { ctrl_lckd = false }
    else if code == 0xAA
    then record k { lshift_lckd = false }
    else if code == 0xB6
    then record k { rshift_lckd = false }
    else k

-- The message of an overflow is only a message: the key is handled all the same.
unfoldable pub keyboard_handler : Keyboard → ℕ → Option (Keyboard × List Effect)
keyboard_handler k code =
    let message = if leb 100 k.size then overflow_message ∷ [] else [] in
    if ltb code end_of_pressing_keys
    then Option.map (λ r. (r.0, message ++ r.1)) (press_char (press_special k code) code)
    else some (release_special k code, message)

unfoldable pub get_char : Keyboard → Keyboard × ℕ
get_char k = if k.size == 0 then (k, 0) else (
  record k { start_position = (k.start_position + 1) % buffer_size; size = k.size - 1 },
  get_or k.buffer k.start_position 0,
)

unfoldable pub get_last_input : Keyboard → Keyboard × ℕ
get_last_input k =
    if k.size == 0
    then (k, 0)
    else if k.end_position == 0
    then (
      record k { end_position = buffer_size - 1; size = k.size - 1 },
      get_or k.buffer (buffer_size - 1) 0,
    )
    else (
      record k { end_position = k.end_position - 1; size = k.size - 1 },
      get_or k.buffer (k.end_position - 1) 0,
    )
