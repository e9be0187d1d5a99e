-- ===== src/Video.antt =====
-- The video driver, Kernel/drivers/video_driver.c: a framebuffer in memory, and a text cursor.
--
-- Memory is the function `vram` from addresses to bytes. Coordinates that the code passes on as
-- `unsigned` are numbers, and 32 bits of the address are kept where it is formed. A font size is a
-- number. `none` is a read of the font outside its table, or a number that does not fit into `buffer`.
-- The driver's other static variables are the fields of `Screen`, apart from memory: a write past the
-- frame is taken to meet none of them.
pub mod Clean
pub mod Cursor
pub mod Pixels
pub mod Erase
pub mod Fails
pub mod Forever
pub mod Glyph
pub mod Numbers
pub mod Outside
pub mod Rows
pub mod Scroll
mod Tests
pub mod Typing
use mathlib.Core.Option
use so_bare_bones.Common.{
  ℕ, zero, suc, ◌+◌, ◌-◌, ◌*◌, ◌/◌, ◌%◌, ◌^◌, Bool, Option, none, some, List, [], ◌∷◌, ltb, leb,
  ◌==◌, if◌then◌else◌, not, ℤ, pos, negsuc, ◌+ℤ◌, ◌-ℤ◌, ltb_ℤ, leb_ℤ, eqb_ℤ, u32, rounds,
}
use so_bare_bones.Font.{char_bitmap, char_height}
use so_bare_bones.Number.{Text, store, uint_to_base}

-- What the code reads of `vbe_mode_info_structure`, which the boot loader fills in.
pub record Mode : Type 0 where
  pub framebuffer : ℕ
  pub width : ℕ

-- The static variables, and memory; `buffer` is the address of the ten bytes for numbers.
pub record Screen : Type 0 where
  pub mode : Mode
  pub vram : Text
  pub buffer : ℕ
  pub cursor_x : ℤ
  pub cursor_y : ℤ
  pub margin_left : ℤ
  pub margin_right : ℤ
  pub aux_x : ℤ
  pub aux_y : ℤ

abbrev pub font_color : ℕ
font_color = 0xFFFFFF

abbrev pub font_size : ℕ
font_size = 1

abbrev pub background_color : ℕ
background_color = 0x000000

abbrev pub screen_width : ℕ
screen_width = 1024

abbrev pub screen_height : ℕ
screen_height = 768

abbrev pub char_width : ℕ
char_width = 8

unfoldable pub get_pixel : Mode → (x y : ℕ) → ℕ
get_pixel m x y = (m.framebuffer + (y * m.width + x) * 3) % 2 ^ 32

-- `b`, `g` and `r` of `draw_pixel`.
abbrev pub blue : ℕ → ℕ
blue color = color % 256

abbrev pub green : ℕ → ℕ
green color = color / 256 % 256

abbrev pub red : ℕ → ℕ
red color = color / 65536 % 256

unfoldable pub draw_pixel : Mode → Text → (x y color : ℕ) → Text
draw_pixel m vram x y color =
    let curpos = get_pixel m x y in
    store (store (store vram curpos (red color)) (curpos + 1) (green color)) (curpos + 2)
      (blue color)

-- The inner loop of `draw_rectangle`, with so many rounds left.
unfoldable pub column_loop : ℕ → Mode → Text → (x y color : ℕ) → Text
column_loop zero m vram x y color = vram
column_loop (suc n) m vram x y color = column_loop n m (draw_pixel m vram x y color) x (y + 1) color

unfoldable pub rectangle_loop : ℕ → Mode → Text → (x y h color : ℕ) → Text
rectangle_loop zero m vram x y h color = vram
rectangle_loop (suc n) m vram x y h color =
    rectangle_loop n m (column_loop h m vram x y color) (x + 1) y h color

unfoldable pub draw_rectangle : Mode → Text → (x y b h color : ℕ) → Text
draw_rectangle m vram x y b h color = rectangle_loop b m vram x y h color

abbrev pub draw_square : Mode → Text → (x y l color : ℕ) → Text
draw_square m vram x y l color = draw_rectangle m vram x y l l color

-- `(1 << (CHAR_WIDTH - j - 1)) & toDraw[i]`
unfoldable pub bit_is_present : (row j : ℕ) → Bool
bit_is_present row j = not (row / 2 ^ (char_width - j - 1) % 2 == 0)

-- The inner loop of `draw_char_personalized`: one row of a glyph, at `j`.
unfoldable pub row_loop : ℕ → Mode → Text → (row j x y size color background : ℕ) → Text
row_loop zero m vram row j x y size color background = vram
row_loop (suc n) m vram row j x y size color background =
    let vram' = draw_square m vram x y size (if bit_is_present row j then color else background) in
    row_loop n m vram' row (j + 1) (x + size) y size color background

-- The outer loop, at row `i`.
unfoldable pub glyph_loop :
    ℕ → Mode → Text → (character i x y size color background : ℕ) → Option Text
glyph_loop zero m vram character i x y size color background = some vram
glyph_loop (suc n) m vram character i x y size color background =
    Option.bind (char_bitmap character i) λ row.
      glyph_loop n m (row_loop char_width m vram row 0 x y size color background) character (i + 1)
        x (y + size) size color background

unfoldable pub draw_glyph : Screen → (x y : ℤ) (character size color background : ℕ) → Option Screen
draw_glyph s x y character size color background =
    Option.map (λ v. record s { vram = v })
      (glyph_loop char_height s.mode s.vram character 0 (u32 x) (u32 y) size color background)

unfoldable pub draw_char_personalized :
    Screen → (x y : ℤ) (character size color background : ℕ) → Option Screen
draw_char_personalized s x y character size color background =
    let below = y +ℤ pos (char_height * size) in
    if ltb_ℤ s.margin_right (x +ℤ pos (char_width * size))
    then (if leb_ℤ (pos screen_height) below
        then some s
        else draw_glyph s s.margin_left below character size color background)
    else draw_glyph s x y character size color background

-- The loop of `draw_string_personalized`.
unfoldable pub personalized_loop :
    Screen → (x y : ℤ) (text : List ℕ) (size color background : ℕ) → Option Screen
personalized_loop s x y [] size color background = some s
personalized_loop s x y (c ∷ text) size color background =
    Option.bind (draw_char_personalized s x y c size color background)
      λ s'. personalized_loop s' (x +ℤ pos (char_width * size)) y text size color background

-- `text` is the first `count` characters of `buffer`, and `count` their number.
unfoldable pub draw_string_personalized :
    Screen → (x y : ℤ) (text : List ℕ) (count size color background : ℕ) → Option Screen
draw_string_personalized s x y text count size color background =
    let below = y +ℤ pos (char_height * size) in
    if ltb_ℤ s.margin_right (x +ℤ pos (char_width * size * count))
    then (if leb_ℤ (pos screen_height) below
        then some s
        else personalized_loop s s.margin_left below text size color background)
    else personalized_loop s x y text size color background

-- One round of `scroll`: a pixel is copied up, and its place is cleared.
unfoldable pub move_pixel : Mode → Text → (x from to : ℕ) → Text
move_pixel m vram x from to =
    let current = get_pixel m x to in
    let replace = get_pixel m x from in
    let v₀ = store vram current (vram replace) in
    let v₁ = store v₀ (current + 1) (v₀ (replace + 1)) in
    let v₂ = store v₁ (current + 2) (v₁ (replace + 2)) in
    store (store (store v₂ replace 0) (replace + 1) 0) (replace + 2) 0

-- The inner loop of `scroll`, over `x`.
unfoldable pub move_row : ℕ → Mode → Text → (x from to : ℕ) → Text
move_row zero m vram x from to = vram
move_row (suc n) m vram x from to = move_row n m (move_pixel m vram x from to) (x + 1) from to

-- The outer loop, over `y`.
unfoldable pub scroll_loop : ℕ → Mode → Text → (x n size y : ℕ) → Text
scroll_loop zero m vram x n size y = vram
scroll_loop (suc r) m vram x n size y =
    scroll_loop r m (move_row n m vram x (y + char_height * size) y) x n size (y + 1)

unfoldable pub scroll : Screen → (size : ℕ) → Screen
scroll s size = record s {
  vram =
      scroll_loop (screen_height - char_height * size) s.mode s.vram (u32 s.margin_left)
        (rounds (s.margin_right -ℤ s.margin_left)) size 0;
  cursor_y = s.cursor_y -ℤ pos (char_height * font_size);
  cursor_x = s.margin_left;
}

-- `newLine`, which `draw_char` has in its first branch too.
unfoldable pub new_line : Screen → Screen
new_line s =
    let s' = record s {
      cursor_x = s.margin_left;
      cursor_y = s.cursor_y +ℤ pos (char_height * font_size);
    } in
    if leb_ℤ (pos screen_height) s'.cursor_y then scroll s' font_size else s'

unfoldable pub advance : Screen → Screen
advance s = record s { cursor_x = s.cursor_x +ℤ pos (char_width * font_size) }

unfoldable pub draw_char : Screen → ℕ → Option Screen
draw_char s character =
    let s' =
      if ltb_ℤ s.margin_right (s.cursor_x +ℤ pos (char_width * font_size)) then new_line s else s in
    Option.map advance (
      draw_char_personalized s' s'.cursor_x s'.cursor_y character font_size font_color
        background_color)

unfoldable pub draw_string : Screen → List ℕ → Option Screen
draw_string s [] = some s
draw_string s (c ∷ text) = Option.bind (draw_char s c) λ s'. draw_string s' text

-- `count` characters from a pointer on.
unfoldable pub read_text : Text → (p count : ℕ) → List ℕ
read_text vram p zero = []
read_text vram p (suc count) = vram p ∷ read_text vram (p + 1) count

-- `valueToBase` is `uintToBase` of the console, word for word.
-- `valueToBase`, the code of `uintToBase` once more.
abbrev pub value_to_base : (value : ℕ) → Text → (buffer base : ℕ) → Option (Text × ℕ)
value_to_base = uint_to_base

-- A number of ten digits or more goes past the ten bytes of `buffer`, over what lies behind them.
unfoldable pub draw_number : Screen → (value base : ℕ) → Option Screen
draw_number s value base = Option.bind (value_to_base value s.vram s.buffer base) λ r.
    if ltb r.1 10 then draw_string (record s { vram = r.0 }) (read_text r.0 s.buffer r.1) else none

unfoldable pub draw_decimal : Screen → ℕ → Option Screen
draw_decimal s value = draw_number s value 10

unfoldable pub draw_hex : Screen → ℕ → Option Screen
draw_hex s value = draw_number s value 16

unfoldable pub step_back : Screen → Screen
step_back s = record s { cursor_x = s.cursor_x -ℤ pos (char_width * font_size) }

unfoldable pub delete_char : Screen → Option Screen
delete_char s =
    let s' =
      if eqb_ℤ s.cursor_x s.margin_left
      then record s {
        cursor_x = s.margin_right;
        cursor_y = s.cursor_y -ℤ pos (char_height * font_size);
      }
      else s in
    Option.map step_back (draw_char (step_back s') b' ')

-- The loop of `delete_line`, on fuel; `none` also where the fuel runs out.
unfoldable pub delete_line : ℕ → Screen → Option Screen
delete_line zero s = none
delete_line (suc f) s =
    let rest = Option.bind (delete_char s) (delete_line f) in
    if leb_ℤ s.margin_left s.cursor_x then rest else some s

unfoldable pub clean : Screen → Screen
clean s = record s {
  vram =
      draw_rectangle s.mode s.vram (u32 s.margin_left) 0
        (rounds (s.margin_right -ℤ s.margin_left +ℤ pos 1)) (screen_height + 1) background_color;
  cursor_x = s.margin_left;
  cursor_y = pos 0;
}

unfoldable pub clean_all : Screen → Screen
clean_all s = record s {
  vram = draw_rectangle s.mode s.vram 0 0 (screen_width + 1) (screen_height + 1) background_color;
  cursor_x = pos 0;
  cursor_y = pos 0;
}

unfoldable pub set_cursor : Screen → (x y : ℤ) → Screen
set_cursor s x y = record s { aux_x = s.cursor_x; aux_y = s.cursor_y; cursor_x = x; cursor_y = y }

unfoldable pub set_margins : Screen → (left right : ℤ) → Screen
set_margins s left right = record s { margin_left = left; margin_right = right }

unfoldable pub return_last_cursor : Screen → Screen
return_last_cursor s = record s { cursor_x = s.aux_x; cursor_y = s.aux_y }

-- The two numbers that `getCoords` writes.
unfoldable pub get_coords : Screen → ℤ × ℤ
get_coords s = (s.cursor_x, s.cursor_y)
