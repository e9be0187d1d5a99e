-- ===== src/Video/Clean.antt =====
-- What `clean_all` of Kernel/drivers/video_driver.c paints.
use so_bare_bones.Common.{
  ℕ, zero, suc, ◌+◌, ◌-◌, ◌*◌, ◌/◌, ◌%◌, ◌^◌, ◌≤◌, ◌<◌, ◌≡◌, ◌⊎◌, inl, inr, lt-or-le, refl, arith,
  ◌∙◌, subst,
}
use so_bare_bones.Number.{Text}
use so_bare_bones.Video.{
  Mode, Screen, get_pixel, draw_pixel, column_loop, rectangle_loop, draw_rectangle, clean_all,
}

-- 1024 pixels in a row, and room below 4 GiB for the frame, one more row and one more pixel.
pub record IsRoomy (m : Mode) : Type 0 where
  pub wide : m.width ≡ 1024
  pub low : m.framebuffer + 1024 * 768 * 3 + 3075 ≤ 2 ^ 32

module _ (m : Mode) (q : ℕ) where
  draw_pixel-black : (t : Text) (x y : ℕ) → t q ≡ 0 → draw_pixel m t x y 0 q ≡ 0
  unfolding draw_pixel
  draw_pixel-black t x y h = ground arith

  draw_pixel-hit :
      (t : Text) (x y : ℕ)
      → get_pixel m x y ≤ q
      → q < get_pixel m x y + 3
      → draw_pixel m t x y 0 q ≡ 0
  unfolding draw_pixel
  draw_pixel-hit t x y lo hi = ground arith

  column_loop-black : (n : ℕ) (t : Text) (x y : ℕ) → t q ≡ 0 → column_loop n m t x y 0 q ≡ 0
  unfolding column_loop
  column_loop-black zero t x y h = h
  column_loop-black (suc n) t x y h =
      column_loop-black n (draw_pixel m t x y 0) x (y + 1) (draw_pixel-black t x y h)

  column_loop-hit :
      (n : ℕ) (t : Text) (x y d : ℕ)
      → d < n
      → get_pixel m x (y + d) ≤ q
      → q < get_pixel m x (y + d) + 3
      → column_loop n m t x y 0 q ≡ 0
  unfolding column_loop
  column_loop-hit zero t x y d lt lo hi = absurd (omega arith)
  column_loop-hit (suc n) t x y zero lt lo hi =
      let here : y + 0 ≡ y = omega arith in
      column_loop-black n (draw_pixel m t x y 0) x (y + 1) (
        draw_pixel-hit t x y (subst (λ j. get_pixel m x j ≤ q) here lo)
          (subst (λ j. q < get_pixel m x j + 3) here hi))
  column_loop-hit (suc n) t x y (suc d) lt lo hi =
      let next : y + suc d ≡ y + 1 + d = omega arith in
      column_loop-hit n (draw_pixel m t x y 0) x (y + 1) d (omega arith)
        (subst (λ j. get_pixel m x j ≤ q) next lo) (subst (λ j. q < get_pixel m x j + 3) next hi)

  rectangle_loop-black :
      (n : ℕ) (t : Text) (x y h : ℕ) → t q ≡ 0 → rectangle_loop n m t x y h 0 q ≡ 0
  unfolding rectangle_loop
  rectangle_loop-black zero t x y h z = z
  rectangle_loop-black (suc n) t x y h z =
      rectangle_loop-black n (column_loop h m t x y 0) (x + 1) y h (column_loop-black h t x y z)

  rectangle_loop-hit :
      (n : ℕ) (t : Text) (x y h c d : ℕ)
      → c < n
      → d < h
      → get_pixel m (x + c) (y + d) ≤ q
      → q < get_pixel m (x + c) (y + d) + 3
      → rectangle_loop n m t x y h 0 q ≡ 0
  unfolding rectangle_loop
  rectangle_loop-hit zero t x y h c d lt below lo hi = absurd (omega arith)
  rectangle_loop-hit (suc n) t x y h zero d lt below lo hi =
      let here : x + 0 ≡ x = omega arith in
      rectangle_loop-black n (column_loop h m t x y 0) (x + 1) y h (
        column_loop-hit h t x y d below (subst (λ i. get_pixel m i (y + d) ≤ q) here lo)
          (subst (λ i. q < get_pixel m i (y + d) + 3) here hi))
  rectangle_loop-hit (suc n) t x y h (suc c) d lt below lo hi =
      let next : x + suc c ≡ x + 1 + c = omega arith in
      rectangle_loop-hit n (column_loop h m t x y 0) (x + 1) y h c d (omega arith) below
        (subst (λ i. get_pixel m i (y + d) ≤ q) next lo)
        (subst (λ i. q < get_pixel m i (y + d) + 3) next hi)

module _ (m : Mode) (v : IsRoomy m) where
  get_pixel-far :
      (x y : ℕ) → x ≤ 1024 → y ≤ 768 → get_pixel m x y ≡ m.framebuffer + (y * 1024 + x) * 3
  unfolding get_pixel
  get_pixel-far x y hx hy = rw (v.wide) (omega (arith, v.low))

  module _ (q : ℕ) (out : (q < m.framebuffer) ⊎ (m.framebuffer + 1024 * 768 * 3 + 3075 ≤ q)) where
    column_loop-miss :
        (n : ℕ) (t : Text) (x y : ℕ) → x ≤ 1024 → y + n ≤ 769 → column_loop n m t x y 0 q ≡ t q
    unfolding column_loop draw_pixel
    column_loop-miss zero t x y hx hy = refl
    column_loop-miss (suc n) t x y hx hy =
        column_loop-miss n (draw_pixel m t x y 0) x (y + 1) hx (omega arith)
        ∙ ground (arith, get_pixel-far x y hx (omega arith))

    rectangle_loop-miss :
        (n : ℕ) (t : Text) (x : ℕ) → x + n ≤ 1025 → rectangle_loop n m t x 0 769 0 q ≡ t q
    unfolding rectangle_loop
    rectangle_loop-miss zero t x hx = refl
    rectangle_loop-miss (suc n) t x hx =
        rectangle_loop-miss n (column_loop 769 m t x 0 0) (x + 1) (omega arith)
        ∙ column_loop-miss 769 t x 0 (omega arith) (omega arith)

-- A byte of a pixel that is painted.
painted :
    (s : Screen) (q : ℕ)
    → IsRoomy s.mode
    → (x y : ℕ) → x ≤ 1024
    → y ≤ 768
    → s.mode.framebuffer + (y * 1024 + x) * 3 ≤ q
    → q < s.mode.framebuffer + (y * 1024 + x) * 3 + 3
    → rectangle_loop 1025 s.mode s.vram 0 0 769 0 q ≡ 0
painted s q v x y hx hy lo hi =
    let at = get_pixel-far s.mode v (0 + x) (0 + y) (omega arith) (omega arith) in
    rectangle_loop-hit s.mode q 1025 s.vram 0 0 769 x y (omega arith) (omega arith)
      (omega (arith, at)) (omega (arith, at))

-- `clean_all` makes every byte of the frame zero, and the 3075 bytes behind the frame too: it paints
-- 1025 columns and 769 rows. No other byte changes.
pub clean_all_lem :
    (s : Screen) (q : ℕ)
    → IsRoomy s.mode
    → (s.mode.framebuffer ≤ q
        → q < s.mode.framebuffer + 1024 * 768 * 3 + 3075
        → (clean_all s).vram q ≡ 0)
      × ((q < s.mode.framebuffer) ⊎ (s.mode.framebuffer + 1024 * 768 * 3 + 3075 ≤ q)
          → (clean_all s).vram q ≡ s.vram q)
unfolding clean_all draw_rectangle
clean_all_lem s q v = (
  λ lo hi. elim (lt-or-le (q - s.mode.framebuffer) (1024 * 769 * 3)) [
    | inl inside ↦
        let p = (q - s.mode.framebuffer) / 3 in
        painted s q v (p % 1024) (p / 1024) (omega arith) (omega arith) (omega arith) (omega arith)
    | inr last ↦ painted s q v 1024 768 (omega arith) (omega arith) (omega arith) (omega arith)
  ],
  λ out. rectangle_loop-miss s.mode v q out 1025 s.vram 0 (omega arith),
)
