-- ===== src/Font/Tests.antt =====
-- The font's table at a character that it has.
use so_bare_bones.Common.{◌≤◌, ◌≢◌, ◌↔◌, ◌≡◌, none, some, refl, arith}
use so_bare_bones.Font.{char_bitmap, char_bitmap-inside, font_bitmap}

char_bitmap_example : (char_bitmap 65 2 ≢ none) ↔ ((32 ≤ 65) × (65 ≤ 126))
char_bitmap_example = char_bitmap-inside 65 2 (omega arith) (omega arith)

-- The top row of the letter A.
letter_a : char_bitmap b'A' 2 ≡ some 0x10
unfolding char_bitmap font_bitmap
letter_a = refl
