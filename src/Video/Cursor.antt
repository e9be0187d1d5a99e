-- ===== src/Video/Cursor.antt =====
-- The text cursor of Kernel/drivers/video_driver.c, in columns and rows of characters.
use so_bare_bones.Common.{
  ℕ, ◌+◌, ◌-◌, ◌*◌, ◌%◌, ◌^◌, ◌≤◌, ◌<◌, ◌≡◌, inl, inr, Bool, true, false, refl, arith, ap, ◌∙◌, ltb,
  ◌&&◌, if◌then◌else◌, lt-or-le, some, subst, pos, ◌+ℤ◌, ltb_ℤ,
}
use so_bare_bones.Number.{Text}
use so_bare_bones.Video.{
  font_color, background_color, Screen, new_line, scroll, advance, step_back, draw_char, draw_glyph,
  draw_char_personalized,
}
use so_bare_bones.Video.Pixels.{IsMode, pixel, channel, within}
use so_bare_bones.Video.Glyph.{Drawn, glyph_loop-Drawn, ink, glyph_row}

-- The cursor stands at a column and a row of the text area, which is `cols` characters wide and
-- begins at pixel `left`; the area lies on the screen, in whole characters.
pub record At (s : Screen) (left cols col row : ℕ) : Type 0 where
  pub mode_ok : IsMode s.mode
  pub left_at : s.margin_left ≡ pos left
  pub right_at : s.margin_right ≡ pos (left + 8 * cols)
  pub x_at : s.cursor_x ≡ pos (left + 8 * col)
  pub y_at : s.cursor_y ≡ pos (16 * row)
  pub wide : 0 < cols
  pub fits : left + 8 * cols ≤ 1024
  pub col_in : col ≤ cols
  pub row_in : row < 48

-- The row behind one: the last row stays, since the text moves up.
abbrev pub next_row : ℕ → ℕ
next_row row = if ltb (row + 1) 48 then row + 1 else row

pub new_line-At :
    {s : Screen} {left cols col row : ℕ}
    → At s left cols col row
    → At (new_line s) left cols 0 (next_row row)
unfolding new_line scroll
new_line-At a = ground (arith, a)

pub advance-At :
    {s : Screen} {left cols col row : ℕ}
    → At s left cols col row
    → col < cols
    → At (advance s) left cols (col + 1) row
unfolding advance
advance-At a h = ground (arith, a)

pub step_back-At :
    {s : Screen} {left cols col row : ℕ}
    → At s left cols (col + 1) row
    → At (step_back s) left cols col row
unfolding step_back
step_back-At a = ground (arith, a)

pub At-vram :
    (s : Screen) (v : Text) {left cols col row : ℕ}
    → At s left cols col row
    → At (record s { vram = v }) left cols col row
At-vram s v a = ground (arith, a)

-- The pixels of the cell in which the cursor stands.
abbrev pub cell : (left col row x y : ℕ) → Bool
cell left col row x y = within (left + 8 * col) 8 x && within (16 * row) 16 y

-- The colour that a pixel of the cell gets.
abbrev pub cell_color : (left col row character x y : ℕ) → ℕ
cell_color left col row character x y =
    ink (glyph_row character (y - 16 * row)) (x - (left + 8 * col)) font_color background_color

-- What `draw_char` does: the cell has the character, no other pixel changes, and the cursor moves on.
pub record CharDrawn (s : Screen) (character left cols col row : ℕ) : Type 0 where
  pub after : Screen
  pub runs : draw_char s character ≡ some after
  pub at : At after left cols (col + 1) row
  pub pixels :
      (x y k : ℕ)
      → x < 1024
      → y < 768
      → k < 3
      → pixel s.mode after.vram x y k ≡ (
          if cell left col row x y
          then channel (cell_color left col row character x y) k
          else pixel s.mode s.vram x y k)

module _ (s : Screen) (character left cols col row : ℕ) (a : At s left cols col row)
    (lo : 32 ≤ character) (hi : character ≤ 126) (room : col < cols) where
  drawn : Drawn 16 s.mode s.vram character 0 (left + 8 * col) (16 * row) font_color background_color
  drawn =
      glyph_loop-Drawn s.mode a.mode_ok character (left + 8 * col) font_color background_color lo hi
        (omega (arith, a.fits)) 16 s.vram 0 (16 * row) (omega arith) (omega (arith, a.row_in))

  draw_glyph-drawn :
      draw_glyph s s.cursor_x s.cursor_y character 1 font_color background_color
      ≡ some (record s { vram = drawn.after })
  unfolding draw_glyph
  draw_glyph-drawn =
      let x_small : (left + 8 * col) % 2 ^ 32 ≡ left + 8 * col = omega (arith, a.fits) in
      let y_small : 16 * row % 2 ^ 32 ≡ 16 * row = omega (arith, a.row_in) in
      rw (a.x_at, a.y_at, x_small, y_small, drawn.runs)

  draw_char-room : draw_char s character ≡ some (advance (record s { vram = drawn.after }))
  unfolding draw_char draw_char_personalized
  draw_char-room =
      let fits_in : ltb_ℤ s.margin_right (s.cursor_x +ℤ pos 8) ≡ false =
        ground (arith, a.x_at, a.right_at) in
      rw (fits_in, fits_in, draw_glyph-drawn)

  pub CharDrawn-room : CharDrawn s character left cols col row
  unfolding advance drawn
  CharDrawn-room = record {
    after = advance (record s { vram = drawn.after });
    runs = draw_char-room;
    at = advance-At (At-vram s drawn.after a) room;
    pixels = λ x y k hx hy hk.
        drawn.pixels x y k hx hy hk
        ∙ ap
            (λ i.
              if cell left col row x y
              then channel
                  (ink (glyph_row character i) (x - (left + 8 * col)) font_color background_color) k
              else pixel s.mode s.vram x y k)
            (omega arith);
  }

-- At the right margin `draw_char` first does what `newLine` does.
pub draw_char-new_line :
    (s : Screen) (character left cols row : ℕ)
    → At s left cols cols row
    → draw_char s character ≡ draw_char (new_line s) character
unfolding draw_char
draw_char-new_line s character left cols row a =
    let b = new_line-At a in
    let full : ltb_ℤ s.margin_right (s.cursor_x +ℤ pos 8) ≡ true =
      ground (arith, a.x_at, a.right_at) in
    let fits_in : ltb_ℤ (new_line s).margin_right ((new_line s).cursor_x +ℤ pos 8) ≡ false =
      ground (arith, b.x_at, b.right_at, a.wide) in
    rw (full, fits_in)

-- The screen that `draw_char` writes the character on, and the cell that it takes.
abbrev pub on_line : Screen → (cols col : ℕ) → Screen
on_line s cols col = if ltb col cols then s else new_line s

abbrev pub line_col : (cols col : ℕ) → ℕ
line_col cols col = if ltb col cols then col else 0

abbrev pub line_row : (cols col row : ℕ) → ℕ
line_row cols col row = if ltb col cols then row else next_row row

abbrev pub Typed : Screen → (character left cols col row : ℕ) → Type 0
Typed s character left cols col row =
    CharDrawn (on_line s cols col) character left cols (line_col cols col) (line_row cols col row)
    × (draw_char s character ≡ draw_char (on_line s cols col) character)

-- `draw_char` of a character of the font puts its pixels in the cell at the cursor, changes no other
-- pixel, and moves the cursor one cell on; where the line is full, it goes to the next line first,
-- as `newLine` does. The cursor stays within the text area.
pub draw_char-Typed :
    (s : Screen) (character left cols col row : ℕ)
    → At s left cols col row
    → 32 ≤ character
    → character ≤ 126
    → Typed s character left cols col row
draw_char-Typed s character left cols col row a lo hi = elim (lt-or-le col cols) [
  | inl room ↦
      let short : ltb col cols ≡ true = ground arith in
      rw short (CharDrawn-room s character left cols col row a lo hi room, refl)
  | inr ge ↦
      let long : ltb col cols ≡ false = ground arith in
      let full : col ≡ cols = omega (arith, a.col_in) in
      let a' : At s left cols cols row = subst (λ c. At s left cols c row) full a in
      rw long (
        CharDrawn-room (new_line s) character left cols 0 (next_row row) (new_line-At a') lo hi
            a.wide,
        draw_char-new_line s character left cols row a',
      )
]
