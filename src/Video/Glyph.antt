-- ===== src/Video/Glyph.antt =====
-- What drawing a character leaves on the screen, Kernel/drivers/video_driver.c.
use mathlib.Core.Option
use so_bare_bones.Common.{
  ℕ, zero, suc, ◌+◌, ◌-◌, ◌≤◌, ◌<◌, ◌≡◌, ◌≢◌, true, refl, arith, ap, sym, ◌∙◌, ◌==◌, ◌&&◌,
  if◌then◌else◌, Option, some, none,
}
use so_bare_bones.Font.{char_bitmap, char_bitmap-inside}
use so_bare_bones.Number.{Text}
use so_bare_bones.Video.{Mode, draw_square, row_loop, glyph_loop, bit_is_present, char_width}
use so_bare_bones.Video.Pixels.{
  IsMode, pixel, channel, within, within-suc, and_or_left, paint_join, pixel-draw_rectangle,
}

-- Row `i` of a character in the font's table.
abbrev pub glyph_row : (character i : ℕ) → ℕ
glyph_row character i = elim (char_bitmap character i) [ none ↦ 0 | some row ↦ row ]

glyph_row_lem :
    (character i : ℕ)
    → 32 ≤ character
    → character ≤ 126
    → i < 16
    → char_bitmap character i ≡ some (glyph_row character i)
glyph_row_lem character i lo hi hi' =
    go (char_bitmap character i) refl
      ((char_bitmap-inside character i (omega arith) hi').1 (lo, hi))
  where
    go :
        (o : Option ℕ)
        → char_bitmap character i ≡ o
        → char_bitmap character i ≢ none
        → char_bitmap character i ≡ some (glyph_row character i)
    go none e ne = absurd (ne e)
    go (some row) e ne = e ∙ ap some (sym (ap (λ o. elim o [ none ↦ 0 | some r ↦ r ]) e))

-- The colour of a pixel of a glyph's row.
abbrev pub ink : (row j color background : ℕ) → ℕ
ink row j color background = if bit_is_present row j then color else background

module _ (m : Mode) (v : IsMode m) (color background x' y' k : ℕ) (hx' : x' < 1024) (hy' : y' < 768)
    (hk : k < 3) where
  pixel-row_loop :
      (n : ℕ) (vram : Text) (row j x y : ℕ)
      → x + n ≤ 1024
      → y < 768
      → pixel m (row_loop n m vram row j x y 1 color background) x' y' k ≡ (
          if within x n x' && (y' == y)
          then channel (ink row (j + (x' - x)) color background) k
          else pixel m vram x' y' k)
  unfolding row_loop
  pixel-row_loop zero vram row j x y hx hy = ground arith
  pixel-row_loop (suc n) vram row j x y hx hy =
      paint_join (within (x + 1) n x' && (y' == y)) (within x 1 x' && within y 1 y')
        (within x (suc n) x' && (y' == y)) (pixel m vram x' y' k)
        (channel (ink row (j + (x' - x)) color background) k)
        (pixel-row_loop n (draw_square m vram x y 1 (ink row j color background)) row (j + 1)
          (x + 1) y (omega arith) hy)
        (pixel-draw_rectangle m vram x y 1 1 (ink row j color background) x' y' k v (omega arith)
          (omega arith) hx' hy' hk)
        (ground arith)
        (λ p. ap (λ i. channel (ink row i color background) k) (omega (arith, right_of p)))
        (λ q. ap (λ i. channel (ink row i color background) k) (omega (arith, here_of q)))
    where
      right_of : (within (x + 1) n x' && (y' == y)) ≡ true → x + 1 ≤ x'
      right_of p = ground arith

      here_of : (within x 1 x' && within y 1 y') ≡ true → x' ≡ x
      here_of q = ground arith

-- What drawing `n` rows of a glyph does, from row `i` on.
pub record Drawn (n : ℕ) (m : Mode) (vram : Text) (character i x y color background : ℕ)
    : Type 0 where
  pub after : Text
  pub runs : glyph_loop n m vram character i x y 1 color background ≡ some after
  pub pixels :
      (x' y' k : ℕ)
      → x' < 1024
      → y' < 768
      → k < 3
      → pixel m after x' y' k ≡ (
          if within x 8 x' && within y n y'
          then channel (ink (glyph_row character (i + (y' - y))) (x' - x) color background) k
          else pixel m vram x' y' k)

module _ (m : Mode) (v : IsMode m) (character x color background : ℕ) (lo : 32 ≤ character)
    (hi : character ≤ 126) (hx : x + 8 ≤ 1024) where
  pub glyph_loop-Drawn :
      (n : ℕ) (vram : Text) (i y : ℕ)
      → i + n ≤ 16
      → y + n ≤ 768
      → Drawn n m vram character i x y color background
  unfolding glyph_loop Option.bind
  glyph_loop-Drawn zero vram i y hn hy = record {
    after = vram;
    runs = refl;
    pixels = λ x' y' k hx' hy' hk. ground arith;
  }
  glyph_loop-Drawn (suc n) vram i y hn hy =
      let bits = glyph_row character i in
      let painted = row_loop char_width m vram bits 0 x y 1 color background in
      let r = glyph_loop-Drawn n painted (i + 1) (y + 1) (omega arith) (omega arith) in
      let shade = λ (row j k : ℕ). channel (ink (glyph_row character row) j color background) k in
      record {
        after = r.after;
        runs = rw (glyph_row_lem character i lo hi (omega arith)) r.runs;
        pixels = λ x' y' k hx' hy' hk.
            paint_join (within x 8 x' && within (y + 1) n y') (within x 8 x' && (y' == y))
              (within x 8 x' && within y (suc n) y') (pixel m vram x' y' k)
              (shade (i + (y' - y)) (x' - x) k) (r.pixels x' y' k hx' hy' hk)
              (pixel-row_loop m v color background x' y' k hx' hy' hk 8 vram bits 0 x y hx
                (omega arith))
              (and_or_left (within (y + 1) n y') (y' == y) (within x 8 x')
                ∙ ap (λ t. within x 8 x' && t) (within-suc y n y'))
              (λ p. ap (λ row. shade row (x' - x) k) (omega (arith, below x' y' p)))
              (λ q.
                ap (λ row. shade row (0 + (x' - x)) k) (omega (arith, level x' y' q))
                ∙ ap (λ j. shade (i + (y' - y)) j k) (omega arith));
      }
    where
      below : (x' y' : ℕ) → (within x 8 x' && within (y + 1) n y') ≡ true → y + 1 ≤ y'
      below x' y' p = ground arith

      level : (x' y' : ℕ) → (within x 8 x' && (y' == y)) ≡ true → y' ≡ y
      level x' y' q = ground arith
