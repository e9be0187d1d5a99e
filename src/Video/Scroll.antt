-- ===== src/Video/Scroll.antt =====
-- `scroll` of Kernel/drivers/video_driver.c: the text moves up by one line.
use so_bare_bones.Common.{
  ℕ, zero, suc, ◌+◌, ◌*◌, ◌≤◌, ◌<◌, ◌≡◌, ◌≢◌, inl, inr, refl, arith, ◌∙◌, ltb, ◌==◌, if◌then◌else◌,
  lt-or-le, Bool-cases, ◌-ℤ◌, u32, rounds,
}
use native.Mathlib.Decide.{ℕ_discrete}
use so_bare_bones.Number.{Text}
use so_bare_bones.Video.{Screen, Mode, move_pixel, move_row, scroll_loop, scroll}
use so_bare_bones.Video.Pixels.{IsMode, pixel, get_pixel_lem, within, within-suc, paint_join}
use so_bare_bones.Video.Cursor.{At}

module _ (m : Mode) (v : IsMode m) (from to : ℕ) (hf : from < 768) (ht : to < 768) (ne : from ≢ to)
    (x' k : ℕ) (hx' : x' < 1024) (hk : k < 3) where
  pixel-move_pixel_to :
      (vram : Text) (x : ℕ)
      → x < 1024
      → pixel m (move_pixel m vram x from to) x' to k
        ≡ (if x' == x then pixel m vram x' from k else pixel m vram x' to k)
  unfolding move_pixel
  pixel-move_pixel_to vram x hx = ground (
    arith,
    get_pixel_lem m x from v hx hf,
    get_pixel_lem m x to v hx ht,
    get_pixel_lem m x' to v hx' ht,
    get_pixel_lem m x' from v hx' hf,
  )

  pixel-move_pixel_from :
      (vram : Text) (x : ℕ)
      → x < 1024
      → pixel m (move_pixel m vram x from to) x' from k
        ≡ (if x' == x then 0 else pixel m vram x' from k)
  unfolding move_pixel
  pixel-move_pixel_from vram x hx = ground (
    arith,
    get_pixel_lem m x from v hx hf,
    get_pixel_lem m x to v hx ht,
    get_pixel_lem m x' from v hx' hf,
  )

  pixel-move_pixel_other :
      (vram : Text) (x y' : ℕ)
      → x < 1024
      → y' < 768
      → y' ≢ from
      → y' ≢ to
      → pixel m (move_pixel m vram x from to) x' y' k ≡ pixel m vram x' y' k
  unfolding move_pixel
  pixel-move_pixel_other vram x y' hx hy' nf nt = ground (
    arith,
    get_pixel_lem m x from v hx hf,
    get_pixel_lem m x to v hx ht,
    get_pixel_lem m x' y' v hx' hy',
  )

  pixel-move_row_to :
      (n : ℕ) (vram : Text) (x : ℕ)
      → x + n ≤ 1024
      → pixel m (move_row n m vram x from to) x' to k
        ≡ (if within x n x' then pixel m vram x' from k else pixel m vram x' to k)
  unfolding move_row
  pixel-move_row_to zero vram x hx = ground arith
  pixel-move_row_to (suc n) vram x hx =
      paint_join (within (x + 1) n x') (x' == x) (within x (suc n) x') (pixel m vram x' to k)
        (pixel m vram x' from k)
        (pixel-move_row_to n (move_pixel m vram x from to) (x + 1) (omega arith))
        (pixel-move_pixel_to vram x (omega arith)) (within-suc x n x')
        (λ p. ground (arith, pixel-move_pixel_from vram x)) (λ _. refl)

  pixel-move_row_from :
      (n : ℕ) (vram : Text) (x : ℕ)
      → x + n ≤ 1024
      → pixel m (move_row n m vram x from to) x' from k
        ≡ (if within x n x' then 0 else pixel m vram x' from k)
  unfolding move_row
  pixel-move_row_from zero vram x hx = ground arith
  pixel-move_row_from (suc n) vram x hx =
      paint_join (within (x + 1) n x') (x' == x) (within x (suc n) x') (pixel m vram x' from k) 0
        (pixel-move_row_from n (move_pixel m vram x from to) (x + 1) (omega arith))
        (pixel-move_pixel_from vram x (omega arith)) (within-suc x n x') (λ _. refl) (λ _. refl)

  pixel-move_row_other :
      (n : ℕ) (vram : Text) (x y' : ℕ)
      → x + n ≤ 1024
      → y' < 768
      → y' ≢ from
      → y' ≢ to
      → pixel m (move_row n m vram x from to) x' y' k ≡ pixel m vram x' y' k
  unfolding move_row
  pixel-move_row_other zero vram x y' hx hy' nf nt = refl
  pixel-move_row_other (suc n) vram x y' hx hy' nf nt =
      pixel-move_row_other n (move_pixel m vram x from to) (x + 1) y' (omega arith) hy' nf nt
      ∙ pixel-move_pixel_other vram x y' (omega arith) hy' nf nt

-- A pixel of the text area, or beside it, once `r` rows from `y` on have been moved.
abbrev moved : Mode → Text → (x n y r x' y' k : ℕ) → ℕ
moved m vram x n y r x' y' k =
    if within x n x'
    then (if within y r y'
        then pixel m vram x' (y' + 16) k
        else if within (y + 16) r y'
        then 0
        else pixel m vram x' y' k)
    else pixel m vram x' y' k

module _ (m : Mode) (v : IsMode m) (x n x' k : ℕ) (hx : x + n ≤ 1024) (hx' : x' < 1024)
    (hk : k < 3) where
  -- The pixels of any row behind `move_row`.
  pixel-move_row :
      (vram : Text) (y z : ℕ)
      → y + 16 < 768
      → z < 768
      → pixel m (move_row n m vram x (y + 16) y) x' z k ≡ (
          if within x n x'
          then (if z == y
              then pixel m vram x' (y + 16) k
              else if z == y + 16
              then 0
              else pixel m vram x' z k)
          else pixel m vram x' z k)
  pixel-move_row vram y z hy hz = elim (ℕ_discrete z y) [
    | yes at_to ↦
        let to =
          pixel-move_row_to m v (y + 16) y hy (omega arith) (omega arith) x' k hx' hk n vram x hx in
        ground (arith, to)
    | no not_to ↦ elim (ℕ_discrete z (y + 16)) [
      | yes at_from ↦
          let from =
            pixel-move_row_from m v (y + 16) y hy (omega arith) (omega arith) x' k hx' hk n vram x
              hx in
          ground (arith, from)
      | no not_from ↦
          let other =
            pixel-move_row_other m v (y + 16) y hy (omega arith) (omega arith) x' k hx' hk n vram x
              z hx hz not_from not_to in
          ground (arith, other)
    ]
  ]

  -- One row more.
  moved-suc :
      (vram : Text) (y r y' : ℕ)
      → y + suc r ≤ 752
      → y' < 768
      → moved m (move_row n m vram x (y + 16) y) x n (y + 1) r x' y' k
        ≡ moved m vram x n y (suc r) x' y' k
  moved-suc vram y r y' hy hy' =
      let here = pixel-move_row vram y y' (omega arith) hy' in
      elim (Bool-cases (within x n x')) [
        | inr beside ↦ rw beside (rw beside at here)
        | inl inside ↦ elim (lt-or-le y' (y + 1 + r)) [
          | inl inner ↦
              let above = pixel-move_row vram y (y' + 16) (omega arith) (omega arith) in
              rw inside (both inner (rw inside at here) (rw inside at above))
          | inr past ↦ rw inside (outer past (rw inside at here))
        ]
      ]
    where
      v₁ : Text
      v₁ = move_row n m vram x (y + 16) y

      both :
          y' < y + 1 + r
          → pixel m v₁ x' y' k ≡ (
              if y' == y
              then pixel m vram x' (y + 16) k
              else if y' == y + 16
              then 0
              else pixel m vram x' y' k)
          → pixel m v₁ x' (y' + 16) k ≡ (
              if y' + 16 == y
              then pixel m vram x' (y + 16) k
              else if y' + 16 == y + 16
              then 0
              else pixel m vram x' (y' + 16) k)
          → (if within (y + 1) r y'
              then pixel m v₁ x' (y' + 16) k
              else if within (y + 1 + 16) r y'
              then 0
              else pixel m v₁ x' y' k)
            ≡ (if within y (suc r) y'
                then pixel m vram x' (y' + 16) k
                else if within (y + 16) (suc r) y'
                then 0
                else pixel m vram x' y' k)
      both inner here above = ground arith

      outer :
          y + 1 + r ≤ y'
          → pixel m v₁ x' y' k ≡ (
              if y' == y
              then pixel m vram x' (y + 16) k
              else if y' == y + 16
              then 0
              else pixel m vram x' y' k)
          → (if within (y + 1) r y'
              then pixel m v₁ x' (y' + 16) k
              else if within (y + 1 + 16) r y'
              then 0
              else pixel m v₁ x' y' k)
            ≡ (if within y (suc r) y'
                then pixel m vram x' (y' + 16) k
                else if within (y + 16) (suc r) y'
                then 0
                else pixel m vram x' y' k)
      outer past here = ground arith

  pixel-scroll_loop :
      (r : ℕ) (vram : Text) (y y' : ℕ)
      → y + r ≤ 752
      → y' < 768
      → pixel m (scroll_loop r m vram x n 1 y) x' y' k ≡ moved m vram x n y r x' y' k
  unfolding scroll_loop
  pixel-scroll_loop zero vram y y' hy hy' = ground arith
  pixel-scroll_loop (suc r) vram y y' hy hy' =
      pixel-scroll_loop r (move_row n m vram x (y + 16) y) (y + 1) y' (omega arith) hy'
      ∙ moved-suc vram y r y' hy hy'

-- `scroll` moves every pixel of the text area up by a line of 16 rows, blanks the last line, and
-- changes no pixel beside the text area.
pub scroll-pixels :
    (s : Screen) (left cols col row x y k : ℕ)
    → At s left cols col row
    → x < 1024
    → y < 768
    → k < 3
    → pixel s.mode (scroll s 1).vram x y k ≡ (
        if within left (8 * cols) x
        then (if ltb y 752 then pixel s.mode s.vram x (y + 16) k else 0)
        else pixel s.mode s.vram x y k)
unfolding scroll
scroll-pixels s left cols col row x y k a hx hy hk =
    let start : u32 s.margin_left ≡ left = ground (arith, a.left_at, a.fits) in
    let width : rounds (s.margin_right -ℤ s.margin_left) ≡ 8 * cols =
      ground (arith, a.left_at, a.right_at) in
    rw (start, width)
      (pixel-scroll_loop s.mode a.mode_ok left (8 * cols) x k a.fits hx hk 752 s.vram 0 y
          (omega arith) hy
        ∙ ground arith)
