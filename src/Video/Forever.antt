-- ===== src/Video/Forever.antt =====
-- `delete_line` of Kernel/drivers/video_driver.c, which system call 6 reaches with action 3.
use mathlib.Core.Option
use so_bare_bones.Common.{
  ℕ, zero, suc, ◌+◌, ◌*◌, ◌≤◌, ◌<◌, ◌≡◌, true, false, refl, arith, ap, ◌∙◌, some, none, pos, ◌+ℤ◌,
  ltb_ℤ, leb_ℤ, u32,
}
use so_bare_bones.Font.{char_bitmap-space}
use so_bare_bones.Number.{Text}
use so_bare_bones.Video.{
  Screen, Mode, advance, step_back, draw_char, draw_glyph, draw_char_personalized, glyph_loop,
  row_loop, delete_char, delete_line,
}
use so_bare_bones.Video.Erase.{back_col, stepped, delete_char-stepped}

-- The cursor is in a column of the text area, whatever its row.
pub record InColumn (s : Screen) (left cols col : ℕ) : Type 0 where
  pub left_at : s.margin_left ≡ pos left
  pub right_at : s.margin_right ≡ pos (left + 8 * cols)
  pub x_at : s.cursor_x ≡ pos (left + 8 * col)
  pub wide : 0 < cols
  pub col_in : col ≤ cols

glyph_loop-space :
    (n : ℕ) (m : Mode) (vram : Text) (i x y size color background : ℕ)
    → i + n ≤ 16
    → (v : Text) × (glyph_loop n m vram 32 i x y size color background ≡ some v)
unfolding glyph_loop Option.bind
glyph_loop-space zero m vram i x y size color background h = (vram, refl)
glyph_loop-space (suc n) m vram i x y size color background h =
    let r =
      glyph_loop-space n m (row_loop 8 m vram 0 0 x y size color background) (i + 1) x (y + size)
        size color background (omega arith) in
    (r.0, rw (char_bitmap-space i (omega arith)) r.1)

stepped-InColumn :
    (s : Screen) (left cols col : ℕ)
    → InColumn s left cols col
    → InColumn (stepped s) left cols (back_col cols col)
unfolding stepped step_back
stepped-InColumn s left cols zero a = ground (arith, a)
stepped-InColumn s left cols (suc col) a = ground (arith, a)

-- A space drawn in a column with room, on any row.
draw_char-InColumn :
    (s : Screen) (left cols col : ℕ)
    → InColumn s left cols col
    → col < cols
    → (v : Text) × (draw_char s 32 ≡ some (advance (record s { vram = v })))
unfolding draw_char draw_char_personalized draw_glyph
draw_char-InColumn s left cols col a room =
    let r =
      glyph_loop-space 16 s.mode s.vram 0 (u32 s.cursor_x) (u32 s.cursor_y) 1 0xFFFFFF 0
        (omega arith) in
    let fits_in : ltb_ℤ s.margin_right (s.cursor_x +ℤ pos 8) ≡ false =
      ground (arith, a.x_at, a.right_at) in
    (r.0, rw (fits_in, fits_in, r.1))

moved-InColumn :
    (s : Screen) (v : Text) (left cols col : ℕ)
    → InColumn s left cols col
    → InColumn (step_back (advance (record s { vram = v }))) left cols col
unfolding step_back advance
moved-InColumn s v left cols col a = ground (arith, a)

delete_char-InColumn :
    (s : Screen) (left cols col : ℕ)
    → InColumn s left cols col
    → (s' : Screen) × (delete_char s ≡ some s') × InColumn s' left cols (back_col cols col)
delete_char-InColumn s left cols col a =
    let b = stepped-InColumn s left cols col a in
    let (v, runs) =
      draw_char-InColumn (stepped s) left cols (back_col cols col) b
        (ground (arith, a.col_in, a.wide)) in
    (
      step_back (advance (record (stepped s) { vram = v })),
      delete_char-stepped s ∙ ap (Option.map step_back) runs,
      moved-InColumn (stepped s) v left cols (back_col cols col) b,
    )

delete_line-none :
    (fuel : ℕ) (s : Screen) (left cols col : ℕ)
    → InColumn s left cols col
    → delete_line fuel s ≡ none
unfolding delete_line Option.bind
delete_line-none zero s left cols col a = refl
delete_line-none (suc fuel) s left cols col a =
    let (s', runs, b) = delete_char-InColumn s left cols col a in
    let on : leb_ℤ s.margin_left s.cursor_x ≡ true = ground (arith, a.left_at, a.x_at) in
    rw (on, runs) (delete_line-none fuel s' left cols (back_col cols col) b)

-- With the cursor in a column of the text area `delete_line` never returns: each round of its loop
-- runs `delete_char`, which returns with the cursor in a column again, not left of the margin;
-- so no number of rounds suffices.
pub delete_line_lem :
    (s : Screen) (left cols col : ℕ)
    → InColumn s left cols col
    → ((fuel : ℕ) → delete_line fuel s ≡ none)
      × ((s' : Screen) × (delete_char s ≡ some s')
          × (leb_ℤ s'.margin_left s'.cursor_x ≡ true)
          × InColumn s' left cols (back_col cols col))
delete_line_lem s left cols col a =
    let (s', runs, b) = delete_char-InColumn s left cols col a in
    (
      λ fuel. delete_line-none fuel s left cols col a,
      (s', runs, ground (arith, b.left_at, b.x_at), b),
    )
