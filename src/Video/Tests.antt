-- ===== src/Video/Tests.antt =====
-- The video driver of Kernel/drivers/video_driver.c at a screen of zeros.
use so_bare_bones.Common.{
  ℕ, ◌+◌, ◌*◌, ◌<◌, ◌≤◌, ◌⊎◌, ◌≡◌, inr, refl, arith, ltb, if◌then◌else◌, some, none, [], ◌∷◌, pos,
  leb_ℤ, true,
}
use so_bare_bones.Number.{Text}
use so_bare_bones.Video.{Screen, Mode, clean_all, draw_char, delete_char, delete_line, scroll}
use so_bare_bones.Video.Pixels.{IsMode, pixel, within}
use so_bare_bones.Video.Clean.{clean_all_lem}
use so_bare_bones.Video.Cursor.{At, Typed, draw_char-Typed, cell}
use so_bare_bones.Video.Erase.{Erased, back_col, delete_char-Erased}
use so_bare_bones.Video.Forever.{InColumn, delete_line_lem}
use so_bare_bones.Video.Numbers.{NumberWritten, draw_number-Written}
use so_bare_bones.Video.Outside.{Written, draw_string-Written}
use so_bare_bones.Video.Scroll.{scroll-pixels}
use so_bare_bones.Video.Typing.{delete_char-draw_char}

abbrev mode : Mode
mode = record { framebuffer = 0xFD000000; width = 1024 }

abbrev empty : Text
empty p = 0

-- The cursor in the last cell of the last line.
abbrev screen : Screen
screen = record {
  mode = mode;
  vram = empty;
  buffer = 0x108000;
  cursor_x = pos 1024;
  cursor_y = pos 752;
  margin_left = pos 0;
  margin_right = pos 1024;
  aux_x = pos 0;
  aux_y = pos 0;
}

mode-IsMode : IsMode mode
mode-IsMode = record { wide = refl; low = omega arith }

screen-At : At screen 0 128 128 47
screen-At = record {
  mode_ok = mode-IsMode;
  left_at = refl;
  right_at = refl;
  x_at = refl;
  y_at = refl;
  wide = omega arith;
  fits = omega arith;
  col_in = omega arith;
  row_in = omega arith;
}

-- The first byte behind the frame.
clean_all_lem_example :
    (mode.framebuffer ≤ 0xFD240000
      → 0xFD240000 < mode.framebuffer + 1024 * 768 * 3 + 3075
      → (clean_all screen).vram 0xFD240000 ≡ 0)
    × ((0xFD240000 < mode.framebuffer) ⊎ (mode.framebuffer + 1024 * 768 * 3 + 3075 ≤ 0xFD240000)
        → (clean_all screen).vram 0xFD240000 ≡ 0)
clean_all_lem_example = clean_all_lem screen 0xFD240000 (record { wide = refl; low = omega arith })

draw_char-Typed_example : Typed screen b'A' 0 128 128 47
draw_char-Typed_example =
    draw_char-Typed screen b'A' 0 128 128 47 screen-At (omega arith) (omega arith)

delete_char-Erased_example : Erased screen 0 128 128 47
delete_char-Erased_example = delete_char-Erased screen 0 128 128 47 screen-At (inr (omega arith))

scroll-pixels_example : pixel mode (scroll screen 1).vram 5 752 0 ≡ (
    if within 0 (8 * 128) 5
    then (if ltb 752 752 then pixel mode empty 5 (752 + 16) 0 else 0)
    else pixel mode empty 5 752 0)
scroll-pixels_example =
    scroll-pixels screen 0 128 128 47 5 752 0 screen-At (omega arith) (omega arith) (omega arith)

draw_string-Written_example : Written screen (b'h' ∷ b'i' ∷ []) 0 128 128 47
draw_string-Written_example =
    draw_string-Written (b'h' ∷ b'i' ∷ []) screen 0 128 128 47
      ((omega arith, omega arith), ((omega arith, omega arith), tt)) screen-At

draw_number-Written_example : NumberWritten screen 0xBEEF 16 0 128 128 47
draw_number-Written_example =
    draw_number-Written screen 0xBEEF 16 0 128 128 47 (omega arith) (omega arith) (omega arith)
      (omega arith) screen-At

delete_char-draw_char_example :
    (s' : Screen) × (s'' : Screen) × (draw_char screen b'x' ≡ some s')
    × (delete_char s' ≡ some s'')
    × At s'' 0 128 0 47
    × ((x y k : ℕ)
        → x < 1024
        → y < 768
        → k < 3
        → cell 0 0 47 x y ≡ true
        → pixel s'.mode s''.vram x y k ≡ 0)
delete_char-draw_char_example =
    delete_char-draw_char screen b'x' 0 128 128 47 screen-At (omega arith)

screen-InColumn : InColumn screen 0 128 128
screen-InColumn = record {
  left_at = refl;
  right_at = refl;
  x_at = refl;
  wide = omega arith;
  col_in = omega arith;
}

delete_line_example :
    ((fuel : ℕ) → delete_line fuel screen ≡ none)
    × ((s' : Screen) × (delete_char screen ≡ some s')
        × (leb_ℤ s'.margin_left s'.cursor_x ≡ true)
        × InColumn s' 0 128 (back_col 128 128))
delete_line_example = delete_line_lem screen 0 128 128 screen-InColumn
