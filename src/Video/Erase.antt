-- ===== src/Video/Erase.antt =====
-- Erasing characters, Kernel/drivers/video_driver.c: `delete_char` and `delete_line`.
use mathlib.Core.Option
use native.Mathlib.Nat.{zero-div}
use so_bare_bones.Common.{
  ◌^◌, ℕ, zero, suc, ◌+◌, ◌-◌, ◌*◌, ◌<◌, ◌≡◌, ◌⊎◌, Bool, true, false, refl, arith, ap, ◌∙◌, ◌==◌,
  if◌then◌else◌, some, none, pos, ◌-ℤ◌, eqb_ℤ,
}
use so_bare_bones.Font.{char_bitmap-space}
use so_bare_bones.Video.{Screen, step_back, draw_char, delete_char, bit_is_present}
use so_bare_bones.Video.Pixels.{pixel, channel}
use so_bare_bones.Video.Glyph.{glyph_row, ink}
use so_bare_bones.Video.Cursor.{At, CharDrawn, CharDrawn-room, cell, cell_color, step_back-At}

-- The cell in front of the cursor.
abbrev pub back_col : (cols col : ℕ) → ℕ
back_col cols col = if col == 0 then cols - 1 else col - 1

abbrev pub back_row : (col row : ℕ) → ℕ
back_row col row = if col == 0 then row - 1 else row

-- The state in which `delete_char` draws its space.
unfoldable pub stepped : Screen → Screen
stepped s = step_back (
    if eqb_ℤ s.cursor_x s.margin_left
    then record s { cursor_x = s.margin_right; cursor_y = s.cursor_y -ℤ pos 16 }
    else s)

stepped-At :
    (s : Screen) (left cols col row : ℕ)
    → At s left cols col row
    → (0 < col) ⊎ (0 < row)
    → At (stepped s) left cols (back_col cols col) (back_row col row)
unfolding stepped step_back
stepped-At s left cols zero row a some_cell = ground (arith, a)
stepped-At s left cols (suc col) row a some_cell = ground (arith, a)

no_ink : (j k : ℕ) → channel (ink 0 j 0xFFFFFF 0) k ≡ 0
unfolding bit_is_present
no_ink j k = ground (arith, zero-div (2 ^ (8 - j - 1)))

space_color :
    (left col row x y k : ℕ)
    → cell left col row x y ≡ true
    → channel (cell_color left col row 32 x y) k ≡ 0
space_color left col row x y k inside =
    let small : y - 16 * row < 16 = ground arith in
    let blank : glyph_row 32 (y - 16 * row) ≡ 0 =
      ap (λ o. elim o [ none ↦ 0 | some r ↦ r ]) (char_bitmap-space (y - 16 * row) small) in
    ap (λ r. channel (ink r (x - (left + 8 * col)) 0xFFFFFF 0) k) blank ∙ no_ink _ k

-- What `delete_char` does: the cell in front of the cursor is blank, no other pixel changes, and
-- the cursor stands there.
pub record Erased (s : Screen) (left cols col row : ℕ) : Type 0 where
  pub after : Screen
  pub runs : delete_char s ≡ some after
  pub at : At after left cols (back_col cols col) (back_row col row)
  pub pixels :
      (x y k : ℕ)
      → x < 1024
      → y < 768
      → k < 3
      → pixel s.mode after.vram x y k ≡ (
          if cell left (back_col cols col) (back_row col row) x y
          then 0
          else pixel s.mode s.vram x y k)

stepped_mode : (s : Screen) → (stepped s).mode ≡ s.mode
unfolding stepped step_back
stepped_mode s = ground arith

stepped_vram : (s : Screen) → (stepped s).vram ≡ s.vram
unfolding stepped step_back
stepped_vram s = ground arith

pub delete_char-stepped :
    (s : Screen) → delete_char s ≡ Option.map step_back (draw_char (stepped s) 32)
unfolding delete_char stepped
delete_char-stepped s = refl

recolor :
    (p : Bool) {a c d : ℕ} (o : ℕ)
    → a ≡ (if p then c else o)
    → (p ≡ true → c ≡ d)
    → a ≡ (if p then d else o)
recolor true o e f = e ∙ f refl
recolor false o e f = e

CharDrawn-Erased :
    (s : Screen) (left cols col row : ℕ)
    → CharDrawn (stepped s) 32 left cols (back_col cols col) (back_row col row)
    → Erased s left cols col row
unfolding step_back
CharDrawn-Erased s left cols col row d = record {
  after = step_back d.after;
  runs = delete_char-stepped s ∙ ap (Option.map step_back) d.runs;
  at = step_back-At d.at;
  pixels = λ x y k hx hy hk.
      let e = d.pixels x y k hx hy hk in
      recolor (cell left (back_col cols col) (back_row col row) x y) (pixel s.mode s.vram x y k)
        (rw (stepped_mode s, stepped_vram s) at e)
        (space_color left (back_col cols col) (back_row col row) x y k);
}

-- `delete_char` anywhere but in the first cell of the text area blanks the cell in front of the
-- cursor, the last one of the row above where the cursor is at the left margin, changes no other
-- pixel, and moves the cursor there.
pub delete_char-Erased :
    (s : Screen) (left cols col row : ℕ)
    → At s left cols col row
    → (0 < col) ⊎ (0 < row)
    → Erased s left cols col row
delete_char-Erased s left cols col row a some_cell = CharDrawn-Erased s left cols col row (
    CharDrawn-room (stepped s) 32 left cols (back_col cols col) (back_row col row)
      (stepped-At s left cols col row a some_cell) (omega arith) (omega arith)
      (ground (arith, a.col_in, a.wide)))
