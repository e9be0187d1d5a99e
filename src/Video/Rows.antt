-- ===== src/Video/Rows.antt =====
-- The rows of a glyph, Kernel/include/font.h, as Kernel/drivers/video_driver.c draws them.
use so_bare_bones.Common.{ℕ, ◌≡◌, Bool, true, false, not, ◌==◌, arith}
use so_bare_bones.Font.Row.{bit, bit-le, row_byte}
use so_bare_bones.Video.{bit_is_present}

present : (n : ℕ) (p : Bool) → n ≡ bit p → not (n == 0) ≡ p
present n true h = rw h
present n false h = rw h

-- Pixel `j` of a row is drawn in the colour of the font exactly if the name of the row has an X at
-- place `j`, counted from the left.
pub bit_is_present-row_byte :
    (a b c d e f g h : Bool)
    → (bit_is_present (row_byte a b c d e f g h) 0 ≡ a)
      × (bit_is_present (row_byte a b c d e f g h) 1 ≡ b)
      × (bit_is_present (row_byte a b c d e f g h) 2 ≡ c)
      × (bit_is_present (row_byte a b c d e f g h) 3 ≡ d)
      × (bit_is_present (row_byte a b c d e f g h) 4 ≡ e)
      × (bit_is_present (row_byte a b c d e f g h) 5 ≡ f)
      × (bit_is_present (row_byte a b c d e f g h) 6 ≡ g)
      × (bit_is_present (row_byte a b c d e f g h) 7 ≡ h)
unfolding bit_is_present row_byte
bit_is_present-row_byte a b c d e f g h =
    let l₁ = bit-le a in
    let l₂ = bit-le b in
    let l₃ = bit-le c in
    let l₄ = bit-le d in
    let l₅ = bit-le e in
    let l₆ = bit-le f in
    let l₇ = bit-le g in
    let l₈ = bit-le h in
    (
      present _ a (omega (arith, l₁, l₂, l₃, l₄, l₅, l₆, l₇, l₈)),
      present _ b (omega (arith, l₁, l₂, l₃, l₄, l₅, l₆, l₇, l₈)),
      present _ c (omega (arith, l₁, l₂, l₃, l₄, l₅, l₆, l₇, l₈)),
      present _ d (omega (arith, l₁, l₂, l₃, l₄, l₅, l₆, l₇, l₈)),
      present _ e (omega (arith, l₁, l₂, l₃, l₄, l₅, l₆, l₇, l₈)),
      present _ f (omega (arith, l₁, l₂, l₃, l₄, l₅, l₆, l₇, l₈)),
      present _ g (omega (arith, l₁, l₂, l₃, l₄, l₅, l₆, l₇, l₈)),
      present _ h (omega (arith, l₁, l₂, l₃, l₄, l₅, l₆, l₇, l₈)),
    )
