-- ===== src/Video/Fails.antt =====
-- Texts with a character that the font does not have, Kernel/drivers/video_driver.c.
use mathlib.Core.Option
use so_bare_bones.Common.{
  ℕ, zero, suc, ◌+◌, ◌≤◌, ◌<◌, ◌≡◌, ◌≢◌, ◌⊎◌, inl, inr, Option, none, some, List, [], ◌∷◌, length,
  get_or, refl, arith, sym, ◌∙◌, subst, ltb, lt-or-le, pos, ◌+ℤ◌, ltb_ℤ, ℤ, u32, true, false,
}
use so_bare_bones.Font.{char_bitmap, char_bitmap-inside}
use so_bare_bones.Number.{Text}
use so_bare_bones.Video.{
  Screen, new_line, advance, draw_char, draw_char_personalized, draw_glyph, glyph_loop, draw_string,
  font_color, background_color,
}
use so_bare_bones.Video.Cursor.{
  At, At-vram, advance-At, new_line-At, next_row, draw_char-new_line, line_col, line_row,
}
use so_bare_bones.Video.Outside.{Kept, Kept-refl, Kept-trans, draw_char-Kept}
use so_bare_bones.Video.Typing.{col_after, row_after}

draw_glyph-after :
    (s s' : Screen) (x y : ℤ) (character : ℕ)
    → Option.map advance (draw_glyph s x y character 1 font_color background_color) ≡ some s'
    → (w : Text) × (s' ≡ advance (record s { vram = w }))
unfolding draw_glyph
draw_glyph-after s s' x y character e =
    go (glyph_loop 16 s.mode s.vram character 0 (u32 x) (u32 y) 1 font_color background_color) e
  where
    go :
        (o : Option Text)
        → Option.map advance (Option.map (λ w. record s { vram = w }) o) ≡ some s'
        → (w : Text) × (s' ≡ advance (record s { vram = w }))
    go none e' = absurd (cc)
    go (some w) e' = let same : advance (record s { vram = w }) ≡ s' = cc in (w, sym same)

draw_char-At_room :
    (s s' : Screen) (character left cols col row : ℕ)
    → At s left cols col row
    → col < cols
    → draw_char s character ≡ some s'
    → At s' left cols (col + 1) row
unfolding draw_char draw_char_personalized
draw_char-At_room s s' character left cols col row a room e =
    let fits_in : ltb_ℤ s.margin_right (s.cursor_x +ℤ pos 8) ≡ false =
      ground (arith, a.x_at, a.right_at) in
    let t = draw_glyph-after s s' s.cursor_x s.cursor_y character (rw (fits_in, fits_in) at e) in
    subst (λ z. At z left cols (col + 1) row) (sym t.1) (advance-At (At-vram s t.0 a) room)

-- Wherever `draw_char` returns, the cursor stands behind the character.
pub draw_char-At :
    (s s' : Screen) (character left cols col row : ℕ)
    → At s left cols col row
    → draw_char s character ≡ some s'
    → At s' left cols (line_col cols col + 1) (line_row cols col row)
draw_char-At s s' character left cols col row a e = elim (lt-or-le col cols) [
  | inl room ↦
      let short : ltb col cols ≡ true = ground arith in
      rw short (draw_char-At_room s s' character left cols col row a room e)
  | inr ge ↦
      let long : ltb col cols ≡ false = ground arith in
      let full : col ≡ cols = omega (arith, a.col_in) in
      let a' : At s left cols cols row = subst (λ c. At s left cols c row) full a in
      rw long (
        draw_char-At_room (new_line s) s' character left cols 0 (next_row row) (new_line-At a')
          a.wide (sym (draw_char-new_line s character left cols row a') ∙ e))
]

-- What a text leaves that is drawn to its end, whatever its characters are.
pub record Drawn (s : Screen) (text : List ℕ) (left cols col row : ℕ) : Type 0 where
  pub after : Screen
  pub runs : draw_string s text ≡ some after
  pub at : At after left cols (col_after cols text col) (row_after cols text col row)
  pub kept : Kept s after

-- A text is drawn to its end or not at all.
pub draw_string-Drawn :
    (text : List ℕ) (s : Screen) (left cols col row : ℕ)
    → At s left cols col row
    → (draw_string s text ≡ none) ⊎ Drawn s text left cols col row
unfolding draw_string Option.bind
draw_string-Drawn [] s left cols col row a =
    inr (record { after = s; runs = refl; at = a; kept = Kept-refl s })
draw_string-Drawn (c ∷ text) s left cols col row a = go (draw_char s c) refl (λ s' e.
    draw_string-Drawn text s' left cols (line_col cols col + 1) (line_row cols col row)
      (draw_char-At s s' c left cols col row a e))
  where
    go :
        (o : Option Screen)
        → draw_char s c ≡ o
        → ((s' : Screen)
            → draw_char s c ≡ some s'
            → (draw_string s' text ≡ none)
              ⊎ Drawn s' text left cols (line_col cols col + 1) (line_row cols col row))
        → ((Option.bind o λ s'. draw_string s' text) ≡ none) ⊎ Drawn s (c ∷ text) left cols col row
    go none e k = inl refl
    go (some s') e k = elim (k s' e) [
      | inl fails ↦ inl fails
      | inr d ↦ inr (record {
        after = d.after;
        runs = rw e d.runs;
        at = d.at;
        kept = Kept-trans (draw_char-Kept s s' c left cols col row a e) d.kept;
      })
    ]

char_bitmap-none : (c : ℕ) → c < 256 → (c < 32) ⊎ (126 < c) → char_bitmap c 0 ≡ none
char_bitmap-none c byte out = go (char_bitmap c 0) (char_bitmap-inside c 0 byte (omega arith)).0
  where
    go : (o : Option ℕ) → (o ≢ none → (32 ≤ c) × (c ≤ 126)) → o ≡ none
    go none h = refl
    go (some b) h = absurd (omega (arith, h (λ e. cc)))

draw_glyph-none :
    (s : Screen) (x y : ℤ) (c : ℕ)
    → char_bitmap c 0 ≡ none
    → draw_glyph s x y c 1 font_color background_color ≡ none
unfolding draw_glyph glyph_loop Option.bind
draw_glyph-none s x y c e = rw e refl

draw_char-none_room :
    (s : Screen) (c left cols col row : ℕ)
    → At s left cols col row
    → col < cols
    → char_bitmap c 0 ≡ none
    → draw_char s c ≡ none
unfolding draw_char draw_char_personalized
draw_char-none_room s c left cols col row a room e =
    let fits_in : ltb_ℤ s.margin_right (s.cursor_x +ℤ pos 8) ≡ false =
      ground (arith, a.x_at, a.right_at) in
    rw (fits_in, fits_in, draw_glyph-none s s.cursor_x s.cursor_y c e) refl

draw_char-none :
    (s : Screen) (c left cols col row : ℕ)
    → At s left cols col row
    → c < 256
    → (c < 32) ⊎ (126 < c)
    → draw_char s c ≡ none
draw_char-none s c left cols col row a byte out = elim (lt-or-le col cols) [
  | inl room ↦ draw_char-none_room s c left cols col row a room (char_bitmap-none c byte out)
  | inr ge ↦
      let full : col ≡ cols = omega (arith, a.col_in) in
      let a' : At s left cols cols row = subst (λ k. At s left cols k row) full a in
      draw_char-new_line s c left cols row a'
      ∙ draw_char-none_room (new_line s) c left cols 0 (next_row row) (new_line-At a') a.wide
          (char_bitmap-none c byte out)
]

-- A text with a character outside the font is not drawn to its end.
pub draw_string-none :
    (text : List ℕ) (s : Screen) (left cols col row i : ℕ)
    → At s left cols col row
    → i < length text
    → get_or text i 0 < 256
    → (get_or text i 0 < 32) ⊎ (126 < get_or text i 0)
    → draw_string s text ≡ none
unfolding draw_string Option.bind
draw_string-none [] s left cols col row i a h byte out = absurd (omega arith)
draw_string-none (c ∷ text) s left cols col row zero a h byte out =
    rw (draw_char-none s c left cols col row a byte out) refl
draw_string-none (c ∷ text) s left cols col row (suc i) a h byte out =
    go (draw_char s c) refl λ s' e.
      draw_string-none text s' left cols (line_col cols col + 1) (line_row cols col row) i
        (draw_char-At s s' c left cols col row a e) (omega arith) byte out
  where
    go :
        (o : Option Screen)
        → draw_char s c ≡ o
        → ((s' : Screen) → draw_char s c ≡ some s' → draw_string s' text ≡ none)
        → (Option.bind o λ s'. draw_string s' text) ≡ none
    go none e k = refl
    go (some s') e k = k s' e
