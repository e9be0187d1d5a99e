-- ===== src/Keyboard/Line.antt =====
-- The specification of the keyboard driver, Kernel/drivers/keyboard_driver.c: a line of the characters
-- that wait, at most 100 of them, which keys extend and reads shorten at either end.
use mathlib.Core.Option
use so_bare_bones.Common.{
  ℕ, Bool, true, false, not, ◌||◌, Option, none, some, ◌>>=◌, List, [], ◌∷◌, ◌++◌, length, ltb,
  ◌==◌, if◌then◌else◌,
}
use so_bare_bones.Keyboard.{
  Keyboard, to_lower_case, to_upper_case, plain_char, shift_char, keyboard_handler, get_char,
  get_last_input,
}

-- The keys that are held, the lock, and the characters that wait, the oldest first.
pub record Line : Type 0 where
  pub left_shift : Bool
  pub right_shift : Bool
  pub caps_lock : Bool
  pub ctrl : Bool
  pub chars : List ℕ

-- A scan code arrives, or a character is taken: the oldest, or the latest.
pub data Event : Type 0 where
  key : ℕ → Event
  take_oldest take_latest : Event

-- A key without a character changes nothing, and a full line takes none.
unfoldable pub append : Line → (c shown : ℕ) → Option Line
append l c shown =
    if c == 0
    then some l
    else if ltb (length l.chars) 100
    then some (record l { chars = l.chars ++ shown ∷ [] })
    else none

unfoldable pub hold : Line → ℕ → Line
hold l code =
    if code == 0x1D
    then record l { ctrl = true }
    else if code == 0x3A
    then record l { caps_lock = not l.caps_lock }
    else if code == 0x2A
    then record l { left_shift = true }
    else if code == 0x36
    then record l { right_shift = true }
    else l

unfoldable pub release : Line → ℕ → Line
release l code =
    if code == 0x9D
    then record l { ctrl = false }
    else if code == 0xAA
    then record l { left_shift = false }
    else if code == 0xB6
    then record l { right_shift = false }
    else l

unfoldable pub type_key : Line → ℕ → Option Line
type_key l code =
    if l.left_shift || l.right_shift
    then (shift_char code >>= λ c. append l c (if l.caps_lock then to_lower_case c else c))
    else if l.caps_lock
    then (plain_char code >>= λ c. append l c (to_upper_case c))
    else if l.ctrl
    then some l
    else (plain_char code >>= λ c. append l c c)

unfoldable pub take_first : List ℕ → List ℕ × ℕ
take_first [] = ([], 0)
take_first (c ∷ chars) = (chars, c)

unfoldable pub take_last : List ℕ → List ℕ × ℕ
take_last [] = ([], 0)
take_last (c ∷ []) = ([], c)
take_last (c ∷ d ∷ chars) = let r = take_last (d ∷ chars) in (c ∷ r.0, r.1)

-- An event, with the characters that it gives to a reader.
unfoldable pub line_step : Line → Event → Option (Line × List ℕ)
line_step l (key code) =
    Option.map (λ l'. (l', []))
      (if ltb code 0x80 then type_key (hold l code) code else some (release l code))
line_step l take_oldest = let r = take_first l.chars in some (record l { chars = r.0 }, r.1 ∷ [])
line_step l take_latest = let r = take_last l.chars in some (record l { chars = r.0 }, r.1 ∷ [])

unfoldable pub keyboard_step : Keyboard → Event → Option (Keyboard × List ℕ)
keyboard_step k (key code) = Option.map (λ r. (r.0, [])) (keyboard_handler k code)
keyboard_step k take_oldest = let r = get_char k in some (r.0, r.1 ∷ [])
keyboard_step k take_latest = let r = get_last_input k in some (r.0, r.1 ∷ [])

-- The events one after the other, and all that the readers get.
unfoldable pub run {ℓ} :
    {S : Type ℓ} → (S → Event → Option (S × List ℕ)) → S → List Event → Option (S × List ℕ)
run step s [] = some (s, [])
run step s (e ∷ events) = do
  now ← step s e
  later ← run step now.0 events
  some (later.0, now.1 ++ later.1)
