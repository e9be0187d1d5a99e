-- ===== src/System/Exception.antt =====
-- The handlers of exceptions, Kernel/interrupts/Interrupt_routines.c.
--
-- `names` are the pointers of `regs`, `stackframe` the numbers of the frame, `to_print` the address of
-- the local array. `keys` is what `get_key` reads of the keyboard, one after the other. `none` in the
-- drawing is a read outside the font's table: `uintToBase` has fuel enough for every 64-bit number.
pub mod Register
use mathlib.Core.Option
use so_bare_bones.Common.{
  ℕ, zero, suc, ◌+◌, Option, none, some, ◌>>=◌, List, [], ◌∷◌, ◌==◌, if◌then◌else◌,
}
use so_bare_bones.Number.{uint_to_base}
use so_bare_bones.Video.{Screen, draw_string, read_text, new_line, clean_all}
use so_bare_bones.System.{Timer, return_to_snapshot}

-- The literals: those of the two exceptions and of any other, and the last line.
pub record Messages : Type 0 where
  pub division : ℕ
  pub operation : ℕ
  pub other : ℕ
  pub press : ℕ

-- The strings of `regs`.
abbrev pub register_names : List (List ℕ)
register_names =
    (b'R' ∷ b'1' ∷ b'5' ∷ b':' ∷ b' ' ∷ b'0' ∷ b'x' ∷ [])
    ∷ (b'R' ∷ b'1' ∷ b'4' ∷ b':' ∷ b' ' ∷ b'0' ∷ b'x' ∷ [])
    ∷ (b'R' ∷ b'1' ∷ b'3' ∷ b':' ∷ b' ' ∷ [])
    ∷ (b'R' ∷ b'1' ∷ b'2' ∷ b':' ∷ b' ' ∷ b'0' ∷ b'x' ∷ [])
    ∷ (b'R' ∷ b'1' ∷ b'1' ∷ b':' ∷ b' ' ∷ b'0' ∷ b'x' ∷ [])
    ∷ (b'R' ∷ b'1' ∷ b'0' ∷ b':' ∷ b' ' ∷ b'0' ∷ b'x' ∷ [])
    ∷ (b'R' ∷ b'9' ∷ b':' ∷ b' ' ∷ b'0' ∷ b'x' ∷ [])
    ∷ (b'R' ∷ b'8' ∷ b':' ∷ b' ' ∷ b'0' ∷ b'x' ∷ [])
    ∷ (b'R' ∷ b'S' ∷ b'I' ∷ b':' ∷ b' ' ∷ b'0' ∷ b'x' ∷ [])
    ∷ (b'R' ∷ b'D' ∷ b'I' ∷ b':' ∷ b' ' ∷ b'0' ∷ b'x' ∷ [])
    ∷ (b'R' ∷ b'B' ∷ b'P' ∷ b':' ∷ b' ' ∷ b'0' ∷ b'x' ∷ [])
    ∷ (b'R' ∷ b'D' ∷ b'X' ∷ b':' ∷ b' ' ∷ b'0' ∷ b'x' ∷ [])
    ∷ (b'R' ∷ b'C' ∷ b'X' ∷ b':' ∷ b' ' ∷ b'0' ∷ b'x' ∷ [])
    ∷ (b'R' ∷ b'B' ∷ b'X' ∷ b':' ∷ b' ' ∷ b'0' ∷ b'x' ∷ [])
    ∷ (b'R' ∷ b'A' ∷ b'X' ∷ b':' ∷ b' ' ∷ b'0' ∷ b'x' ∷ [])
    ∷ (b'I' ∷ b'P' ∷ b':' ∷ b' ' ∷ b'0' ∷ b'x' ∷ [])
    ∷ (b'R' ∷ b'S' ∷ b'P' ∷ b':' ∷ b' ' ∷ b'0' ∷ b'x' ∷ [])
    ∷ []

abbrev pub reg_size : ℕ
reg_size = 17

-- The loop of `printRegister`, with so many rounds left, at `i`.
unfoldable pub register_loop : ℕ → Screen → (names pri : ℕ → ℕ) → (to_print i : ℕ) → Option Screen
register_loop zero s names pri to_print i = some s
register_loop (suc n) s names pri to_print i = do
  s₁ ← draw_string s (read_text s.vram (names i) 7)
  r ← uint_to_base (pri i) s₁.vram to_print 16
  s₂ ← draw_string (record s₁ { vram = r.0 }) (read_text r.0 to_print 5)
  register_loop n (new_line s₂) names pri to_print (i + 1)

-- The loop that waits for the left shift key: the keys behind it.
unfoldable pub wait_loop : List ℕ → Option (List ℕ)
wait_loop [] = none
wait_loop (key ∷ keys) = if key == 0x2A then some keys else wait_loop keys

-- `printRegister` up to its wait.
unfoldable pub print_register :
    Screen → (names pri : ℕ → ℕ) → (to_print : ℕ) → Messages → Option Screen
print_register s names pri to_print m = do
  s₁ ← register_loop reg_size s names pri to_print 0
  draw_string s₁ (read_text s₁.vram m.press 24)

unfoldable pub exception_text : Screen → (exc : ℕ) → Messages → List ℕ
exception_text s exc m =
    if exc == 0
    then read_text s.vram m.division 29
    else if exc == 6
    then read_text s.vram m.operation 30
    else read_text s.vram m.other 7

-- What becomes of `printException`: it returns with the screen and the frame to return to; a drawing
-- reads the font outside its table, and what the code does then the model does not say; or no key in
-- the list ends the wait.
pub data Handled : Type 0 where
  handled : Screen → (ℕ → ℕ) → Handled
  reads_outside_font : Handled
  waits : Handled

-- Behind the drawing of `printRegister`, of which `none` is a read outside the font: the wait.
abbrev pub after_drawing : Option Screen → Timer → (stackframe : ℕ → ℕ) → (keys : List ℕ) → Handled
after_drawing none t stackframe keys = reads_outside_font
after_drawing (some s) t stackframe keys = elim (wait_loop keys) [
  | none ↦ waits
  | some rest ↦ handled (clean_all s) (return_to_snapshot t stackframe)
]

unfoldable pub print_exception :
    Screen
    → Timer
    → (exc : ℕ) → (names stackframe : ℕ → ℕ) → (to_print : ℕ) → Messages
    → (keys : List ℕ) → Handled
print_exception s t exc names stackframe to_print m keys =
    after_drawing
      (draw_string s (exception_text s exc m) >>= λ s₁.
        print_register (new_line s₁) names stackframe to_print m)
      t stackframe keys
