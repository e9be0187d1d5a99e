-- ===== src/Font/Lower.antt =====
-- The glyphs of Kernel/font.c, `__font_bitmap__`: 16 rows of 8 pixels for each character, a row as
-- a byte with its leftmost pixel in the highest bit (the names in Kernel/include/font.h). This is the
-- half from 32 to 79.
use so_bare_bones.Common.{ℕ, List, [], ◌∷◌}

-- Characters 32 to 39.
unfoldable pub glyphs_32 : List (List ℕ)
glyphs_32 =
    (0x00 ∷ 0x00 ∷ 0x00 ∷ 0x00 ∷ 0x00 ∷ 0x00 ∷ 0x00 ∷ 0x00 ∷ 0x00 ∷ 0x00 ∷ 0x00 ∷ 0x00 ∷ 0x00 ∷ 0x00
      ∷ 0x00 ∷ 0x00 ∷ [])
    ∷ (0x00 ∷ 0x00 ∷ 0x18 ∷ 0x3c ∷ 0x3c ∷ 0x3c ∷ 0x18 ∷ 0x18 ∷ 0x18 ∷ 0x00 ∷ 0x18 ∷ 0x18 ∷ 0x00
        ∷ 0x00 ∷ 0x00 ∷ 0x00 ∷ [])
    ∷ (0x00 ∷ 0x66 ∷ 0x66 ∷ 0x66 ∷ 0x24 ∷ 0x00 ∷ 0x00 ∷ 0x00 ∷ 0x00 ∷ 0x00 ∷ 0x00 ∷ 0x00 ∷ 0x00
        ∷ 0x00 ∷ 0x00 ∷ 0x00 ∷ [])
    ∷ (0x00 ∷ 0x00 ∷ 0x00 ∷ 0x6c ∷ 0x6c ∷ 0xfe ∷ 0x6c ∷ 0x6c ∷ 0x6c ∷ 0xfe ∷ 0x6c ∷ 0x6c ∷ 0x00
        ∷ 0x00 ∷ 0x00 ∷ 0x00 ∷ [])
    ∷ (0x18 ∷ 0x18 ∷ 0x7c ∷ 0xc6 ∷ 0xc2 ∷ 0xc0 ∷ 0x7c ∷ 0x06 ∷ 0x06 ∷ 0x86 ∷ 0xc6 ∷ 0x7c ∷ 0x18
        ∷ 0x18 ∷ 0x00 ∷ 0x00 ∷ [])
    ∷ (0x00 ∷ 0x00 ∷ 0x00 ∷ 0x00 ∷ 0xc2 ∷ 0xc6 ∷ 0x0c ∷ 0x18 ∷ 0x30 ∷ 0x60 ∷ 0xc6 ∷ 0x86 ∷ 0x00
        ∷ 0x00 ∷ 0x00 ∷ 0x00 ∷ [])
    ∷ (0x00 ∷ 0x00 ∷ 0x38 ∷ 0x6c ∷ 0x6c ∷ 0x38 ∷ 0x76 ∷ 0xdc ∷ 0xcc ∷ 0xcc ∷ 0xcc ∷ 0x76 ∷ 0x00
        ∷ 0x00 ∷ 0x00 ∷ 0x00 ∷ [])
    ∷ (0x00 ∷ 0x30 ∷ 0x30 ∷ 0x30 ∷ 0x20 ∷ 0x00 ∷ 0x00 ∷ 0x00 ∷ 0x00 ∷ 0x00 ∷ 0x00 ∷ 0x00 ∷ 0x00
        ∷ 0x00 ∷ 0x00 ∷ 0x00 ∷ [])
    ∷ []

-- Characters 40 to 47.
unfoldable pub glyphs_40 : List (List ℕ)
glyphs_40 =
    (0x00 ∷ 0x00 ∷ 0x0c ∷ 0x18 ∷ 0x30 ∷ 0x30 ∷ 0x30 ∷ 0x30 ∷ 0x30 ∷ 0x30 ∷ 0x18 ∷ 0x0c ∷ 0x00 ∷ 0x00
      ∷ 0x00 ∷ 0x00 ∷ [])
    ∷ (0x00 ∷ 0x00 ∷ 0x30 ∷ 0x18 ∷ 0x0c ∷ 0x0c ∷ 0x0c ∷ 0x0c ∷ 0x0c ∷ 0x0c ∷ 0x18 ∷ 0x30 ∷ 0x00
        ∷ 0x00 ∷ 0x00 ∷ 0x00 ∷ [])
    ∷ (0x00 ∷ 0x00 ∷ 0x00 ∷ 0x00 ∷ 0x00 ∷ 0x66 ∷ 0x3c ∷ 0xff ∷ 0x3c ∷ 0x66 ∷ 0x00 ∷ 0x00 ∷ 0x00
        ∷ 0x00 ∷ 0x00 ∷ 0x00 ∷ [])
    ∷ (0x00 ∷ 0x00 ∷ 0x00 ∷ 0x00 ∷ 0x00 ∷ 0x18 ∷ 0x18 ∷ 0x7e ∷ 0x18 ∷ 0x18 ∷ 0x00 ∷ 0x00 ∷ 0x00
        ∷ 0x00 ∷ 0x00 ∷ 0x00 ∷ [])
    ∷ (0x00 ∷ 0x00 ∷ 0x00 ∷ 0x00 ∷ 0x00 ∷ 0x00 ∷ 0x00 ∷ 0x00 ∷ 0x00 ∷ 0x18 ∷ 0x18 ∷ 0x18 ∷ 0x30
        ∷ 0x00 ∷ 0x00 ∷ 0x00 ∷ [])
    ∷ (0x00 ∷ 0x00 ∷ 0x00 ∷ 0x00 ∷ 0x00 ∷ 0x00 ∷ 0x00 ∷ 0xfe ∷ 0x00 ∷ 0x00 ∷ 0x00 ∷ 0x00 ∷ 0x00
        ∷ 0x00 ∷ 0x00 ∷ 0x00 ∷ [])
    ∷ (0x00 ∷ 0x00 ∷ 0x00 ∷ 0x00 ∷ 0x00 ∷ 0x00 ∷ 0x00 ∷ 0x00 ∷ 0x00 ∷ 0x00 ∷ 0x18 ∷ 0x18 ∷ 0x00
        ∷ 0x00 ∷ 0x00 ∷ 0x00 ∷ [])
    ∷ (0x00 ∷ 0x00 ∷ 0x00 ∷ 0x00 ∷ 0x02 ∷ 0x06 ∷ 0x0c ∷ 0x18 ∷ 0x30 ∷ 0x60 ∷ 0xc0 ∷ 0x80 ∷ 0x00
        ∷ 0x00 ∷ 0x00 ∷ 0x00 ∷ [])
    ∷ []

-- Characters 48 to 55.
unfoldable pub glyphs_48 : List (List ℕ)
glyphs_48 =
    (0x00 ∷ 0x00 ∷ 0x38 ∷ 0x6c ∷ 0xc6 ∷ 0xc6 ∷ 0xd6 ∷ 0xd6 ∷ 0xc6 ∷ 0xc6 ∷ 0x6c ∷ 0x38 ∷ 0x00 ∷ 0x00
      ∷ 0x00 ∷ 0x00 ∷ [])
    ∷ (0x00 ∷ 0x00 ∷ 0x18 ∷ 0x38 ∷ 0x78 ∷ 0x18 ∷ 0x18 ∷ 0x18 ∷ 0x18 ∷ 0x18 ∷ 0x18 ∷ 0x7e ∷ 0x00
        ∷ 0x00 ∷ 0x00 ∷ 0x00 ∷ [])
    ∷ (0x00 ∷ 0x00 ∷ 0x7c ∷ 0xc6 ∷ 0x06 ∷ 0x0c ∷ 0x18 ∷ 0x30 ∷ 0x60 ∷ 0xc0 ∷ 0xc6 ∷ 0xfe ∷ 0x00
        ∷ 0x00 ∷ 0x00 ∷ 0x00 ∷ [])
    ∷ (0x00 ∷ 0x00 ∷ 0x7c ∷ 0xc6 ∷ 0x06 ∷ 0x06 ∷ 0x3c ∷ 0x06 ∷ 0x06 ∷ 0x06 ∷ 0xc6 ∷ 0x7c ∷ 0x00
        ∷ 0x00 ∷ 0x00 ∷ 0x00 ∷ [])
    ∷ (0x00 ∷ 0x00 ∷ 0x0c ∷ 0x1c ∷ 0x3c ∷ 0x6c ∷ 0xcc ∷ 0xfe ∷ 0x0c ∷ 0x0c ∷ 0x0c ∷ 0x1e ∷ 0x00
        ∷ 0x00 ∷ 0x00 ∷ 0x00 ∷ [])
    ∷ (0x00 ∷ 0x00 ∷ 0xfe ∷ 0xc0 ∷ 0xc0 ∷ 0xc0 ∷ 0xfc ∷ 0x06 ∷ 0x06 ∷ 0x06 ∷ 0xc6 ∷ 0x7c ∷ 0x00
        ∷ 0x00 ∷ 0x00 ∷ 0x00 ∷ [])
    ∷ (0x00 ∷ 0x00 ∷ 0x38 ∷ 0x60 ∷ 0xc0 ∷ 0xc0 ∷ 0xfc ∷ 0xc6 ∷ 0xc6 ∷ 0xc6 ∷ 0xc6 ∷ 0x7c ∷ 0x00
        ∷ 0x00 ∷ 0x00 ∷ 0x00 ∷ [])
    ∷ (0x00 ∷ 0x00 ∷ 0xfe ∷ 0xc6 ∷ 0x06 ∷ 0x06 ∷ 0x0c ∷ 0x18 ∷ 0x30 ∷ 0x30 ∷ 0x30 ∷ 0x30 ∷ 0x00
        ∷ 0x00 ∷ 0x00 ∷ 0x00 ∷ [])
    ∷ []

-- Characters 56 to 63.
unfoldable pub glyphs_56 : List (List ℕ)
glyphs_56 =
    (0x00 ∷ 0x00 ∷ 0x7c ∷ 0xc6 ∷ 0xc6 ∷ 0xc6 ∷ 0x7c ∷ 0xc6 ∷ 0xc6 ∷ 0xc6 ∷ 0xc6 ∷ 0x7c ∷ 0x00 ∷ 0x00
      ∷ 0x00 ∷ 0x00 ∷ [])
    ∷ (0x00 ∷ 0x00 ∷ 0x7c ∷ 0xc6 ∷ 0xc6 ∷ 0xc6 ∷ 0x7e ∷ 0x06 ∷ 0x06 ∷ 0x06 ∷ 0x0c ∷ 0x78 ∷ 0x00
        ∷ 0x00 ∷ 0x00 ∷ 0x00 ∷ [])
    ∷ (0x00 ∷ 0x00 ∷ 0x00 ∷ 0x00 ∷ 0x18 ∷ 0x18 ∷ 0x00 ∷ 0x00 ∷ 0x00 ∷ 0x18 ∷ 0x18 ∷ 0x00 ∷ 0x00
        ∷ 0x00 ∷ 0x00 ∷ 0x00 ∷ [])
    ∷ (0x00 ∷ 0x00 ∷ 0x00 ∷ 0x00 ∷ 0x18 ∷ 0x18 ∷ 0x00 ∷ 0x00 ∷ 0x00 ∷ 0x18 ∷ 0x18 ∷ 0x30 ∷ 0x00
        ∷ 0x00 ∷ 0x00 ∷ 0x00 ∷ [])
    ∷ (0x00 ∷ 0x00 ∷ 0x00 ∷ 0x06 ∷ 0x0c ∷ 0x18 ∷ 0x30 ∷ 0x60 ∷ 0x30 ∷ 0x18 ∷ 0x0c ∷ 0x06 ∷ 0x00
        ∷ 0x00 ∷ 0x00 ∷ 0x00 ∷ [])
    ∷ (0x00 ∷ 0x00 ∷ 0x00 ∷ 0x00 ∷ 0x00 ∷ 0x7e ∷ 0x00 ∷ 0x00 ∷ 0x7e ∷ 0x00 ∷ 0x00 ∷ 0x00 ∷ 0x00
        ∷ 0x00 ∷ 0x00 ∷ 0x00 ∷ [])
    ∷ (0x00 ∷ 0x00 ∷ 0x00 ∷ 0x60 ∷ 0x30 ∷ 0x18 ∷ 0x0c ∷ 0x06 ∷ 0x0c ∷ 0x18 ∷ 0x30 ∷ 0x60 ∷ 0x00
        ∷ 0x00 ∷ 0x00 ∷ 0x00 ∷ [])
    ∷ (0x00 ∷ 0x00 ∷ 0x7c ∷ 0xc6 ∷ 0xc6 ∷ 0x0c ∷ 0x18 ∷ 0x18 ∷ 0x18 ∷ 0x00 ∷ 0x18 ∷ 0x18 ∷ 0x00
        ∷ 0x00 ∷ 0x00 ∷ 0x00 ∷ [])
    ∷ []

-- Characters 64 to 71.
unfoldable pub glyphs_64 : List (List ℕ)
glyphs_64 =
    (0x00 ∷ 0x00 ∷ 0x00 ∷ 0x7c ∷ 0xc6 ∷ 0xc6 ∷ 0xde ∷ 0xde ∷ 0xde ∷ 0xdc ∷ 0xc0 ∷ 0x7c ∷ 0x00 ∷ 0x00
      ∷ 0x00 ∷ 0x00 ∷ [])
    ∷ (0x00 ∷ 0x00 ∷ 0x10 ∷ 0x38 ∷ 0x6c ∷ 0xc6 ∷ 0xc6 ∷ 0xfe ∷ 0xc6 ∷ 0xc6 ∷ 0xc6 ∷ 0xc6 ∷ 0x00
        ∷ 0x00 ∷ 0x00 ∷ 0x00 ∷ [])
    ∷ (0x00 ∷ 0x00 ∷ 0xfc ∷ 0x66 ∷ 0x66 ∷ 0x66 ∷ 0x7c ∷ 0x66 ∷ 0x66 ∷ 0x66 ∷ 0x66 ∷ 0xfc ∷ 0x00
        ∷ 0x00 ∷ 0x00 ∷ 0x00 ∷ [])
    ∷ (0x00 ∷ 0x00 ∷ 0x3c ∷ 0x66 ∷ 0xc2 ∷ 0xc0 ∷ 0xc0 ∷ 0xc0 ∷ 0xc0 ∷ 0xc2 ∷ 0x66 ∷ 0x3c ∷ 0x00
        ∷ 0x00 ∷ 0x00 ∷ 0x00 ∷ [])
    ∷ (0x00 ∷ 0x00 ∷ 0xf8 ∷ 0x6c ∷ 0x66 ∷ 0x66 ∷ 0x66 ∷ 0x66 ∷ 0x66 ∷ 0x66 ∷ 0x6c ∷ 0xf8 ∷ 0x00
        ∷ 0x00 ∷ 0x00 ∷ 0x00 ∷ [])
    ∷ (0x00 ∷ 0x00 ∷ 0xfe ∷ 0x66 ∷ 0x62 ∷ 0x68 ∷ 0x78 ∷ 0x68 ∷ 0x60 ∷ 0x62 ∷ 0x66 ∷ 0xfe ∷ 0x00
        ∷ 0x00 ∷ 0x00 ∷ 0x00 ∷ [])
    ∷ (0x00 ∷ 0x00 ∷ 0xfe ∷ 0x66 ∷ 0x62 ∷ 0x68 ∷ 0x78 ∷ 0x68 ∷ 0x60 ∷ 0x60 ∷ 0x60 ∷ 0xf0 ∷ 0x00
        ∷ 0x00 ∷ 0x00 ∷ 0x00 ∷ [])
    ∷ (0x00 ∷ 0x00 ∷ 0x3c ∷ 0x66 ∷ 0xc2 ∷ 0xc0 ∷ 0xc0 ∷ 0xde ∷ 0xc6 ∷ 0xc6 ∷ 0x66 ∷ 0x3a ∷ 0x00
        ∷ 0x00 ∷ 0x00 ∷ 0x00 ∷ [])
    ∷ []

-- Characters 72 to 79.
unfoldable pub glyphs_72 : List (List ℕ)
glyphs_72 =
    (0x00 ∷ 0x00 ∷ 0xc6 ∷ 0xc6 ∷ 0xc6 ∷ 0xc6 ∷ 0xfe ∷ 0xc6 ∷ 0xc6 ∷ 0xc6 ∷ 0xc6 ∷ 0xc6 ∷ 0x00 ∷ 0x00
      ∷ 0x00 ∷ 0x00 ∷ [])
    ∷ (0x00 ∷ 0x00 ∷ 0x3c ∷ 0x18 ∷ 0x18 ∷ 0x18 ∷ 0x18 ∷ 0x18 ∷ 0x18 ∷ 0x18 ∷ 0x18 ∷ 0x3c ∷ 0x00
        ∷ 0x00 ∷ 0x00 ∷ 0x00 ∷ [])
    ∷ (0x00 ∷ 0x00 ∷ 0x1e ∷ 0x0c ∷ 0x0c ∷ 0x0c ∷ 0x0c ∷ 0x0c ∷ 0xcc ∷ 0xcc ∷ 0xcc ∷ 0x78 ∷ 0x00
        ∷ 0x00 ∷ 0x00 ∷ 0x00 ∷ [])
    ∷ (0x00 ∷ 0x00 ∷ 0xe6 ∷ 0x66 ∷ 0x66 ∷ 0x6c ∷ 0x78 ∷ 0x78 ∷ 0x6c ∷ 0x66 ∷ 0x66 ∷ 0xe6 ∷ 0x00
        ∷ 0x00 ∷ 0x00 ∷ 0x00 ∷ [])
    ∷ (0x00 ∷ 0x00 ∷ 0xf0 ∷ 0x60 ∷ 0x60 ∷ 0x60 ∷ 0x60 ∷ 0x60 ∷ 0x60 ∷ 0x62 ∷ 0x66 ∷ 0xfe ∷ 0x00
        ∷ 0x00 ∷ 0x00 ∷ 0x00 ∷ [])
    ∷ (0x00 ∷ 0x00 ∷ 0xc6 ∷ 0xee ∷ 0xfe ∷ 0xfe ∷ 0xd6 ∷ 0xc6 ∷ 0xc6 ∷ 0xc6 ∷ 0xc6 ∷ 0xc6 ∷ 0x00
        ∷ 0x00 ∷ 0x00 ∷ 0x00 ∷ [])
    ∷ (0x00 ∷ 0x00 ∷ 0xc6 ∷ 0xe6 ∷ 0xf6 ∷ 0xfe ∷ 0xde ∷ 0xce ∷ 0xc6 ∷ 0xc6 ∷ 0xc6 ∷ 0xc6 ∷ 0x00
        ∷ 0x00 ∷ 0x00 ∷ 0x00 ∷ [])
    ∷ (0x00 ∷ 0x00 ∷ 0x7c ∷ 0xc6 ∷ 0xc6 ∷ 0xc6 ∷ 0xc6 ∷ 0xc6 ∷ 0xc6 ∷ 0xc6 ∷ 0xc6 ∷ 0x7c ∷ 0x00
        ∷ 0x00 ∷ 0x00 ∷ 0x00 ∷ [])
    ∷ []
