-- ===== src/Video/Typing.antt =====
-- Drawing texts, Kernel/drivers/video_driver.c: `draw_string`, and a character erased again.
use mathlib.Core.Option
use so_bare_bones.Common.{
  ℕ, ◌+◌, ◌≤◌, ◌<◌, ◌≡◌, inl, refl, arith, ap, ◌∙◌, if◌then◌else◌, some, List, [], ◌∷◌, All, true,
}
use so_bare_bones.Video.{Screen, draw_char, draw_string, delete_char}
use so_bare_bones.Video.Pixels.{pixel}
use so_bare_bones.Video.Cursor.{At, draw_char-Typed, line_col, line_row, cell}
use so_bare_bones.Video.Erase.{back_col, back_row, delete_char-Erased}

-- The characters of the font.
abbrev pub Printable : ℕ → Type 0
Printable c = (32 ≤ c) × (c ≤ 126)

-- The column and row behind a text: each character takes one cell, and the first cell of the next
-- line where its line is full.
abbrev pub col_after : (cols : ℕ) → List ℕ → (col : ℕ) → ℕ
col_after cols [] col = col
col_after cols (c ∷ text) col = col_after cols text (line_col cols col + 1)

abbrev pub row_after : (cols : ℕ) → List ℕ → (col row : ℕ) → ℕ
row_after cols [] col row = row
row_after cols (c ∷ text) col row =
    row_after cols text (line_col cols col + 1) (line_row cols col row)

-- `draw_string` of characters of the font returns, whatever their number, with the cursor in the
-- text area, behind as many cells as there are characters.
pub draw_string-At :
    (text : List ℕ) (s : Screen) (left cols col row : ℕ)
    → All Printable text
    → At s left cols col row
    → (s' : Screen) × (draw_string s text ≡ some s')
      × At s' left cols (col_after cols text col) (row_after cols text col row)
unfolding draw_string Option.bind
draw_string-At [] s left cols col row printable a = (s, refl, a)
draw_string-At (c ∷ text) s left cols col row printable a =
    let t = draw_char-Typed s c left cols col row a printable.0.0 printable.0.1 in
    let rest =
      draw_string-At text t.0.after left cols (line_col cols col + 1) (line_row cols col row)
        printable.1 t.0.at in
    (rest.0, rw (t.1, t.0.runs) rest.1, rest.2)

back_col-suc : (cols c : ℕ) → back_col cols (c + 1) ≡ c
back_col-suc cols c = ground arith

back_row-suc : (c row : ℕ) → back_row (c + 1) row ≡ row
back_row-suc c row = ground arith

-- `delete_char` behind `draw_char` puts the cursor back into the cell that the character took, and
-- blanks it.
pub delete_char-draw_char :
    (s : Screen) (character left cols col row : ℕ)
    → At s left cols col row
    → Printable character
    → (s' : Screen) × (s'' : Screen) × (draw_char s character ≡ some s')
      × (delete_char s' ≡ some s'')
      × At s'' left cols (line_col cols col) (line_row cols col row)
      × ((x y k : ℕ)
          → x < 1024
          → y < 768
          → k < 3
          → cell left (line_col cols col) (line_row cols col row) x y ≡ true
          → pixel s'.mode s''.vram x y k ≡ 0)
delete_char-draw_char s character left cols col row a printable =
    let t = draw_char-Typed s character left cols col row a printable.0 printable.1 in
    let s' = t.0.after in
    let e =
      delete_char-Erased s' left cols (line_col cols col + 1) (line_row cols col row) t.0.at
        (inl (omega arith)) in
    let col_back : back_col cols (line_col cols col + 1) ≡ line_col cols col =
      back_col-suc cols (line_col cols col) in
    let row_back : back_row (line_col cols col + 1) (line_row cols col row)
        ≡ line_row cols col row =
      back_row-suc (line_col cols col) (line_row cols col row) in
    (
      s',
      e.after,
      t.1 ∙ t.0.runs,
      e.runs,
      rw (col_back, row_back) at e.at,
      λ x y k hx hy hk inside.
          let p = rw (col_back, row_back) at (e.pixels x y k hx hy hk) in
          p ∙ ap (λ t. if t then 0 else pixel s'.mode s'.vram x y k) inside,
    )
