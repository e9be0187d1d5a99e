-- ===== src/Video/Outside.antt =====
-- What drawing leaves alone, Kernel/drivers/video_driver.c: memory outside the framebuffer.
use mathlib.Core.Option
use so_bare_bones.Common.{
  ℕ, zero, suc, ◌+◌, ◌*◌, ◌%◌, ◌^◌, ◌≤◌, ◌<◌, ◌≡◌, ◌⊎◌, inl, inr, Option, none, some, List, [], ◌∷◌,
  false, refl, arith, ap, sym, ◌∙◌, subst, All, lt-or-le, if◌then◌else◌, pos, ◌+ℤ◌, ltb_ℤ,
  Bool-cases, rounds, ◌-ℤ◌, leb_ℤ, ℤ,
}
use so_bare_bones.Number.{Text}
use so_bare_bones.Video.{
  Mode, Screen, draw_pixel, column_loop, rectangle_loop, draw_rectangle, bit_is_present, row_loop,
  glyph_loop, draw_glyph, draw_char_personalized, move_pixel, move_row, scroll_loop, scroll,
  new_line, advance, draw_char, draw_string, font_color, background_color,
}
use so_bare_bones.Font.{char_bitmap}
use so_bare_bones.Video.Pixels.{IsMode, get_pixel_lem}
use so_bare_bones.Video.Cursor.{
  At, new_line-At, next_row, draw_char-new_line, draw_char-Typed, line_col, line_row,
}
use so_bare_bones.Video.Typing.{Printable, col_after, row_after}

-- An address that is none of the framebuffer's.
abbrev pub IsOutside : Mode → ℕ → Type 0
IsOutside m q = (q < m.framebuffer) ⊎ (m.framebuffer + 1024 * 768 * 3 ≤ q)

module _ (m : Mode) (v : IsMode m) (q : ℕ) (out : IsOutside m q) where
  draw_pixel-outside :
      (vram : Text) (x y color : ℕ) → x < 1024 → y < 768 → draw_pixel m vram x y color q ≡ vram q
  unfolding draw_pixel
  draw_pixel-outside vram x y color hx hy = ground (arith, get_pixel_lem m x y v hx hy)

  column_loop-outside :
      (n : ℕ) (vram : Text) (x y color : ℕ)
      → x < 1024
      → y + n ≤ 768
      → column_loop n m vram x y color q ≡ vram q
  unfolding column_loop
  column_loop-outside zero vram x y color hx hy = refl
  column_loop-outside (suc n) vram x y color hx hy =
      column_loop-outside n (draw_pixel m vram x y color) x (y + 1) color hx (omega arith)
      ∙ draw_pixel-outside vram x y color hx (omega arith)

  rectangle_loop-outside :
      (n : ℕ) (vram : Text) (x y h color : ℕ)
      → x + n ≤ 1024
      → y + h ≤ 768
      → rectangle_loop n m vram x y h color q ≡ vram q
  unfolding rectangle_loop
  rectangle_loop-outside zero vram x y h color hx hy = refl
  rectangle_loop-outside (suc n) vram x y h color hx hy =
      rectangle_loop-outside n (column_loop h m vram x y color) (x + 1) y h color (omega arith) hy
      ∙ column_loop-outside h vram x y color (omega arith) hy

  row_loop-outside :
      (n : ℕ) (vram : Text) (row j x y color background : ℕ)
      → x + n ≤ 1024
      → y < 768
      → row_loop n m vram row j x y 1 color background q ≡ vram q
  unfolding row_loop draw_rectangle
  row_loop-outside zero vram row j x y color background hx hy = refl
  row_loop-outside (suc n) vram row j x y color background hx hy =
      let c = if bit_is_present row j then color else background in
      row_loop-outside n (rectangle_loop 1 m vram x y 1 c) row (j + 1) (x + 1) y color background
        (omega arith) hy
      ∙ rectangle_loop-outside 1 vram x y 1 c (omega arith) (omega arith)

  glyph_loop-outside :
      (n : ℕ) (vram : Text) (character i x y color background : ℕ) (after : Text)
      → x + 8 ≤ 1024
      → y + n ≤ 768
      → glyph_loop n m vram character i x y 1 color background ≡ some after
      → after q ≡ vram q
  unfolding glyph_loop Option.bind
  glyph_loop-outside zero vram character i x y color background after hx hy e =
      let same : vram ≡ after = cc in ap (λ t. t q) (sym same)
  glyph_loop-outside (suc n) vram character i x y color background after hx hy e =
      by_row (char_bitmap character i) e (λ row e'.
        glyph_loop-outside n (row_loop 8 m vram row 0 x y 1 color background) character (i + 1) x
          (y + 1) color background after hx (omega arith) e'
        ∙ row_loop-outside 8 vram row 0 x y color background hx (omega arith))
    where
      by_row :
          (o : Option ℕ)
          → Option.bind o (λ row.
            glyph_loop n m
              (row_loop 8 m vram row 0 x y 1 color background)
              character
              (i + 1)
              x
              (y + 1)
              1
              color
              background)
            ≡ some after
          → ((row : ℕ)
              → glyph_loop n m
                  (row_loop 8 m vram row 0 x y 1 color background)
                  character
                  (i + 1)
                  x
                  (y + 1)
                  1
                  color
                  background
                ≡ some after
              → after q ≡ vram q)
          → after q ≡ vram q
      by_row none e' k = absurd (cc)
      by_row (some row) e' k = k row e'

  move_pixel-outside :
      (vram : Text) (x from to : ℕ)
      → x < 1024
      → from < 768
      → to < 768
      → move_pixel m vram x from to q ≡ vram q
  unfolding move_pixel
  move_pixel-outside vram x from to hx hf ht =
      ground (arith, get_pixel_lem m x from v hx hf, get_pixel_lem m x to v hx ht)

  move_row-outside :
      (n : ℕ) (vram : Text) (x from to : ℕ)
      → x + n ≤ 1024
      → from < 768
      → to < 768
      → move_row n m vram x from to q ≡ vram q
  unfolding move_row
  move_row-outside zero vram x from to hx hf ht = refl
  move_row-outside (suc n) vram x from to hx hf ht =
      move_row-outside n (move_pixel m vram x from to) (x + 1) from to (omega arith) hf ht
      ∙ move_pixel-outside vram x from to (omega arith) hf ht

  scroll_loop-outside :
      (r : ℕ) (vram : Text) (x n y : ℕ)
      → x + n ≤ 1024
      → y + r + 16 ≤ 768
      → scroll_loop r m vram x n 1 y q ≡ vram q
  unfolding scroll_loop
  scroll_loop-outside zero vram x n y hx hy = refl
  scroll_loop-outside (suc r) vram x n y hx hy =
      scroll_loop-outside r (move_row n m vram x (y + 16) y) x n (y + 1) hx (omega arith)
      ∙ move_row-outside n vram x (y + 16) y hx (omega arith) (omega arith)

-- The mode, the buffer for numbers and all memory outside the framebuffer are as before.
pub record Kept (s s' : Screen) : Type 0 where
  pub mode : s'.mode ≡ s.mode
  pub buffer : s'.buffer ≡ s.buffer
  pub same : (q : ℕ) → IsOutside s.mode q → s'.vram q ≡ s.vram q

pub Kept-refl : (s : Screen) → Kept s s
Kept-refl s = record { mode = refl; buffer = refl; same = λ q out. refl }

pub Kept-trans : {s t u : Screen} → Kept s t → Kept t u → Kept s u
Kept-trans {s} k l = record {
  mode = l.mode ∙ k.mode;
  buffer = l.buffer ∙ k.buffer;
  same = λ q out. l.same q (subst (λ m. IsOutside m q) (sym k.mode) out) ∙ k.same q out;
}

pub new_line-Kept :
    (s : Screen) (left cols col row : ℕ) → At s left cols col row → Kept s (new_line s)
unfolding new_line scroll
new_line-Kept s left cols col row a = elim (Bool-cases (leb_ℤ (pos 768) (s.cursor_y +ℤ pos 16))) [
  | inl last ↦ rw last (record {
    mode = refl;
    buffer = refl;
    same = λ q out.
        let low : left % 2 ^ 32 ≡ left = omega (arith, a.fits) in
        let wide : rounds (s.margin_right -ℤ s.margin_left) ≡ 8 * cols =
          ground (arith, a.left_at, a.right_at) in
        rw (wide, a.left_at, low)
          (scroll_loop-outside s.mode a.mode_ok q out 752 s.vram left (8 * cols) 0 a.fits
            (omega arith));
  })
  | inr more ↦ rw more (record { mode = refl; buffer = refl; same = λ q out. refl })
]

-- A glyph on the screen.
draw_glyph-Kept :
    (s s' : Screen) (character x y : ℕ)
    → IsMode s.mode
    → x + 8 ≤ 1024
    → y + 16 ≤ 768
    → Option.map advance (draw_glyph s (pos x) (pos y) character 1 font_color background_color)
      ≡ some s'
    → Kept s s'
unfolding draw_glyph advance
draw_glyph-Kept s s' character x y v hx hy e =
    let x_small : x % 2 ^ 32 ≡ x = omega arith in
    let y_small : y % 2 ^ 32 ≡ y = omega arith in
    go (glyph_loop 16 s.mode s.vram character 0 x y 1 font_color background_color) refl
      (rw (x_small, y_small) at e)
  where
    go :
        (o : Option Text)
        → glyph_loop 16 s.mode s.vram character 0 x y 1 font_color background_color ≡ o
        → Option.map advance (Option.map (λ w. record s { vram = w }) o) ≡ some s'
        → Kept s s'
    go none g e' = absurd (cc)
    go (some w) g e' =
        let after : advance (record s { vram = w }) ≡ s' = cc in
        subst (Kept s) after (record {
          mode = refl;
          buffer = refl;
          same = λ q out.
              glyph_loop-outside s.mode v q out 16 s.vram character 0 x y font_color
                background_color w hx hy g;
        })

draw_char-Kept_room :
    (s s' : Screen) (character left cols col row : ℕ)
    → At s left cols col row
    → col < cols
    → draw_char s character ≡ some s'
    → Kept s s'
unfolding draw_char draw_char_personalized
draw_char-Kept_room s s' character left cols col row a room e =
    let fits_in : ltb_ℤ s.margin_right (s.cursor_x +ℤ pos 8) ≡ false =
      ground (arith, a.x_at, a.right_at) in
    let drawn : ℤ → ℤ → Option Screen =
      λ x y. Option.map advance (draw_glyph s x y character 1 font_color background_color) in
    let e' : drawn s.cursor_x s.cursor_y ≡ some s' = rw (fits_in, fits_in) at e in
    draw_glyph-Kept s s' character (left + 8 * col) (16 * row) a.mode_ok (omega (arith, a.fits))
      (omega (arith, a.row_in))
      (subst (λ x. drawn x (pos (16 * row)) ≡ some s') a.x_at
        (subst (λ y. drawn s.cursor_x y ≡ some s') a.y_at e'))

-- `draw_char` writes only into the framebuffer, whatever the character is.
pub draw_char-Kept :
    (s s' : Screen) (character left cols col row : ℕ)
    → At s left cols col row
    → draw_char s character ≡ some s'
    → Kept s s'
draw_char-Kept s s' character left cols col row a e = elim (lt-or-le col cols) [
  | inl room ↦ draw_char-Kept_room s s' character left cols col row a room e
  | inr ge ↦
      let full : col ≡ cols = omega (arith, a.col_in) in
      let a' : At s left cols cols row = subst (λ c. At s left cols c row) full a in
      Kept-trans (new_line-Kept s left cols cols row a') (
        draw_char-Kept_room (new_line s) s' character left cols 0 (next_row row) (new_line-At a')
          a.wide (sym (draw_char-new_line s character left cols row a') ∙ e))
]

-- What a text leaves: the cursor behind it, and memory outside the framebuffer as it was.
pub record Written (s : Screen) (text : List ℕ) (left cols col row : ℕ) : Type 0 where
  pub after : Screen
  pub runs : draw_string s text ≡ some after
  pub at : At after left cols (col_after cols text col) (row_after cols text col row)
  pub kept : Kept s after

-- With the cursor in a cell of a text area on the screen, `draw_string` of characters of the font
-- returns, with the cursor in the text area behind as many cells as there are characters, and writes
-- only into the framebuffer.
pub draw_string-Written :
    (text : List ℕ) (s : Screen) (left cols col row : ℕ)
    → All Printable text
    → At s left cols col row
    → Written s text left cols col row
unfolding draw_string Option.bind
draw_string-Written [] s left cols col row printable a = record {
  after = s;
  runs = refl;
  at = a;
  kept = Kept-refl s;
}
draw_string-Written (c ∷ text) s left cols col row printable a =
    let t = draw_char-Typed s c left cols col row a printable.0.0 printable.0.1 in
    let runs : draw_char s c ≡ some t.0.after = t.1 ∙ t.0.runs in
    let rest =
      draw_string-Written text t.0.after left cols (line_col cols col + 1) (line_row cols col row)
        printable.1 t.0.at in
    record {
      after = rest.after;
      runs = rw runs rest.runs;
      at = rest.at;
      kept = Kept-trans (draw_char-Kept s t.0.after c left cols col row a runs) rest.kept;
    }
