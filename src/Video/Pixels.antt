-- ===== src/Video/Pixels.antt =====
-- Where the pixels of Kernel/drivers/video_driver.c lie in memory, and what drawing one changes.
use so_bare_bones.Common.{
  ℕ, zero, suc, ◌+◌, ◌*◌, ◌^◌, ◌≤◌, ◌<◌, ◌≡◌, ◌≢◌, ◌⊎◌, Bool, true, false, refl, arith, ap, ◌∙◌,
  ltb, leb, ◌==◌, ◌&&◌, ◌||◌, if◌then◌else◌,
}
use so_bare_bones.Number.{Text}
use so_bare_bones.Video.{
  Mode, get_pixel, draw_pixel, red, green, blue, column_loop, rectangle_loop, draw_rectangle,
}

-- The mode that the code is written for: 1024 pixels in a row, and the frame below 4 GiB.
pub record IsMode (m : Mode) : Type 0 where
  pub wide : m.width ≡ 1024
  pub low : m.framebuffer + 1024 * 768 * 3 ≤ 2 ^ 32

-- Byte `k` of a pixel.
abbrev pub pixel : Mode → Text → (x y k : ℕ) → ℕ
pixel m vram x y k = vram (get_pixel m x y + k)

abbrev pub channel : (color k : ℕ) → ℕ
channel color k = if k == 0 then red color else if k == 1 then green color else blue color

pub get_pixel_lem :
    (m : Mode) (x y : ℕ)
    → IsMode m
    → x < 1024
    → y < 768
    → get_pixel m x y ≡ m.framebuffer + (y * 1024 + x) * 3
unfolding get_pixel
get_pixel_lem m x y v hx hy = rw (v.wide) (omega (arith, v.low))

-- Different bytes of the frame have different addresses.
pub get_pixel_ne :
    (m : Mode) (x y k x' y' k' : ℕ)
    → IsMode m
    → x < 1024
    → y < 768
    → k < 3
    → x' < 1024
    → y' < 768
    → k' < 3
    → (x ≢ x') ⊎ (y ≢ y') ⊎ (k ≢ k')
    → get_pixel m x y + k ≢ get_pixel m x' y' + k'
get_pixel_ne m x y k x' y' k' v hx hy hk hx' hy' hk' ne =
    omega (arith, get_pixel_lem m x y v hx hy, get_pixel_lem m x' y' v hx' hy')

pub pixel-draw_pixel :
    (m : Mode) (vram : Text) (x y color x' y' k : ℕ)
    → IsMode m
    → x < 1024
    → y < 768
    → x' < 1024
    → y' < 768
    → k < 3
    → pixel m (draw_pixel m vram x y color) x' y' k
      ≡ (if (x' == x) && (y' == y) then channel color k else pixel m vram x' y' k)
unfolding draw_pixel
pixel-draw_pixel m vram x y color x' y' k v hx hy hx' hy' hk =
    ground (arith, get_pixel_lem m x y v hx hy, get_pixel_lem m x' y' v hx' hy')

-- `v` is one of the `n` numbers from `lo` on.
abbrev pub within : (lo n v : ℕ) → Bool
within lo n v = leb lo v && ltb v (lo + n)

-- Two steps of painting are one, over both areas.
pub paint_join :
    {a b c d : ℕ} (p q r : Bool) (o e : ℕ)
    → a ≡ (if p then c else b)
    → b ≡ (if q then d else o)
    → (p || q) ≡ r
    → (p ≡ true → c ≡ e)
    → (q ≡ true → d ≡ e)
    → a ≡ (if r then e else o)
paint_join true q r o e later first area ce de = rw (← area) (later ∙ ce refl)
paint_join false true r o e later first area ce de = rw (← area) (later ∙ first ∙ de refl)
paint_join false false r o e later first area ce de = rw (← area) (later ∙ first)

pub within-suc : (lo n v : ℕ) → (within (lo + 1) n v || (v == lo)) ≡ within lo (suc n) v
within-suc lo n v = ground arith

pub and_or : (p q r : Bool) → ((p && r) || (q && r)) ≡ ((p || q) && r)
and_or true q true = refl
and_or true true false = refl
and_or true false false = refl
and_or false q true = refl
and_or false true false = refl
and_or false false false = refl

pub and_or_left : (p q r : Bool) → ((r && p) || (r && q)) ≡ (r && (p || q))
and_or_left p q true = refl
and_or_left p q false = refl

module _ (m : Mode) (v : IsMode m) (color x' y' k : ℕ) (hx' : x' < 1024) (hy' : y' < 768)
    (hk : k < 3) where
  pixel-column_loop :
      (n : ℕ) (vram : Text) (x y : ℕ)
      → x < 1024
      → y + n ≤ 768
      → pixel m (column_loop n m vram x y color) x' y' k
        ≡ (if (x' == x) && within y n y' then channel color k else pixel m vram x' y' k)
  unfolding column_loop
  pixel-column_loop zero vram x y hx hy = ground arith
  pixel-column_loop (suc n) vram x y hx hy =
      paint_join ((x' == x) && within (y + 1) n y') ((x' == x) && (y' == y)) _
        (pixel m vram x' y' k) (channel color k)
        (pixel-column_loop n (draw_pixel m vram x y color) x (y + 1) hx (omega arith))
        (pixel-draw_pixel m vram x y color x' y' k v hx (omega arith) hx' hy' hk)
        (and_or_left (within (y + 1) n y') (y' == y) (x' == x)
          ∙ ap (λ t. (x' == x) && t) (within-suc y n y'))
        (λ _. refl) (λ _. refl)

  pixel-rectangle_loop :
      (n : ℕ) (vram : Text) (x y h : ℕ)
      → x + n ≤ 1024
      → y + h ≤ 768
      → pixel m (rectangle_loop n m vram x y h color) x' y' k
        ≡ (if within x n x' && within y h y' then channel color k else pixel m vram x' y' k)
  unfolding rectangle_loop
  pixel-rectangle_loop zero vram x y h hx hy = ground arith
  pixel-rectangle_loop (suc n) vram x y h hx hy =
      paint_join (within (x + 1) n x' && within y h y') ((x' == x) && within y h y') _
        (pixel m vram x' y' k) (channel color k)
        (pixel-rectangle_loop n (column_loop h m vram x y color) (x + 1) y h (omega arith) hy)
        (pixel-column_loop h vram x y (omega arith) hy)
        (and_or (within (x + 1) n x') (x' == x) (within y h y')
          ∙ ap (λ t. t && within y h y') (within-suc x n x'))
        (λ _. refl) (λ _. refl)

-- `draw_rectangle` within the screen gives every pixel of the rectangle the colour, and leaves
-- every other pixel of the screen as it was.
pub pixel-draw_rectangle :
    (m : Mode) (vram : Text) (x y b h color x' y' k : ℕ)
    → IsMode m
    → x + b ≤ 1024
    → y + h ≤ 768
    → x' < 1024
    → y' < 768
    → k < 3
    → pixel m (draw_rectangle m vram x y b h color) x' y' k
      ≡ (if within x b x' && within y h y' then channel color k else pixel m vram x' y' k)
unfolding draw_rectangle
pixel-draw_rectangle m vram x y b h color x' y' k v hx hy hx' hy' hk =
    pixel-rectangle_loop m v color x' y' k hx' hy' hk b vram x y h hx hy
