-- ===== src/Font/Upper.antt =====
-- The glyphs of Kernel/font.c, `__font_bitmap__`, continued: characters 80 to 126.
use so_bare_bones.Common.{ℕ, List, [], ◌∷◌}

-- Characters 80 to 87.
unfoldable pub glyphs_80 : List (List ℕ)
glyphs_80 =
    (0x00 ∷ 0x00 ∷ 0xfc ∷ 0x66 ∷ 0x66 ∷ 0x66 ∷ 0x7c ∷ 0x60 ∷ 0x60 ∷ 0x60 ∷ 0x60 ∷ 0xf0 ∷ 0x00 ∷ 0x00
      ∷ 0x00 ∷ 0x00 ∷ [])
    ∷ (0x00 ∷ 0x00 ∷ 0x7c ∷ 0xc6 ∷ 0xc6 ∷ 0xc6 ∷ 0xc6 ∷ 0xc6 ∷ 0xc6 ∷ 0xd6 ∷ 0xde ∷ 0x7c ∷ 0x0c
        ∷ 0x0e ∷ 0x00 ∷ 0x00 ∷ [])
    ∷ (0x00 ∷ 0x00 ∷ 0xfc ∷ 0x66 ∷ 0x66 ∷ 0x66 ∷ 0x7c ∷ 0x6c ∷ 0x66 ∷ 0x66 ∷ 0x66 ∷ 0xe6 ∷ 0x00
        ∷ 0x00 ∷ 0x00 ∷ 0x00 ∷ [])
    ∷ (0x00 ∷ 0x00 ∷ 0x7c ∷ 0xc6 ∷ 0xc6 ∷ 0x60 ∷ 0x38 ∷ 0x0c ∷ 0x06 ∷ 0xc6 ∷ 0xc6 ∷ 0x7c ∷ 0x00
        ∷ 0x00 ∷ 0x00 ∷ 0x00 ∷ [])
    ∷ (0x00 ∷ 0x00 ∷ 0x7e ∷ 0x7e ∷ 0x5a ∷ 0x18 ∷ 0x18 ∷ 0x18 ∷ 0x18 ∷ 0x18 ∷ 0x18 ∷ 0x3c ∷ 0x00
        ∷ 0x00 ∷ 0x00 ∷ 0x00 ∷ [])
    ∷ (0x00 ∷ 0x00 ∷ 0xc6 ∷ 0xc6 ∷ 0xc6 ∷ 0xc6 ∷ 0xc6 ∷ 0xc6 ∷ 0xc6 ∷ 0xc6 ∷ 0xc6 ∷ 0x7c ∷ 0x00
        ∷ 0x00 ∷ 0x00 ∷ 0x00 ∷ [])
    ∷ (0x00 ∷ 0x00 ∷ 0xc6 ∷ 0xc6 ∷ 0xc6 ∷ 0xc6 ∷ 0xc6 ∷ 0xc6 ∷ 0xc6 ∷ 0x6c ∷ 0x38 ∷ 0x10 ∷ 0x00
        ∷ 0x00 ∷ 0x00 ∷ 0x00 ∷ [])
    ∷ (0x00 ∷ 0x00 ∷ 0xc6 ∷ 0xc6 ∷ 0xc6 ∷ 0xc6 ∷ 0xd6 ∷ 0xd6 ∷ 0xd6 ∷ 0xfe ∷ 0xee ∷ 0x6c ∷ 0x00
        ∷ 0x00 ∷ 0x00 ∷ 0x00 ∷ [])
    ∷ []

-- Characters 88 to 95.
unfoldable pub glyphs_88 : List (List ℕ)
glyphs_88 =
    (0x00 ∷ 0x00 ∷ 0xc6 ∷ 0xc6 ∷ 0x6c ∷ 0x7c ∷ 0x38 ∷ 0x38 ∷ 0x7c ∷ 0x6c ∷ 0xc6 ∷ 0xc6 ∷ 0x00 ∷ 0x00
      ∷ 0x00 ∷ 0x00 ∷ [])
    ∷ (0x00 ∷ 0x00 ∷ 0x66 ∷ 0x66 ∷ 0x66 ∷ 0x66 ∷ 0x3c ∷ 0x18 ∷ 0x18 ∷ 0x18 ∷ 0x18 ∷ 0x3c ∷ 0x00
        ∷ 0x00 ∷ 0x00 ∷ 0x00 ∷ [])
    ∷ (0x00 ∷ 0x00 ∷ 0xfe ∷ 0xc6 ∷ 0x86 ∷ 0x0c ∷ 0x18 ∷ 0x30 ∷ 0x60 ∷ 0xc2 ∷ 0xc6 ∷ 0xfe ∷ 0x00
        ∷ 0x00 ∷ 0x00 ∷ 0x00 ∷ [])
    ∷ (0x00 ∷ 0x00 ∷ 0x3c ∷ 0x30 ∷ 0x30 ∷ 0x30 ∷ 0x30 ∷ 0x30 ∷ 0x30 ∷ 0x30 ∷ 0x30 ∷ 0x3c ∷ 0x00
        ∷ 0x00 ∷ 0x00 ∷ 0x00 ∷ [])
    ∷ (0x00 ∷ 0x00 ∷ 0x00 ∷ 0x80 ∷ 0xc0 ∷ 0xe0 ∷ 0x70 ∷ 0x38 ∷ 0x1c ∷ 0x0e ∷ 0x06 ∷ 0x02 ∷ 0x00
        ∷ 0x00 ∷ 0x00 ∷ 0x00 ∷ [])
    ∷ (0x00 ∷ 0x00 ∷ 0x3c ∷ 0x0c ∷ 0x0c ∷ 0x0c ∷ 0x0c ∷ 0x0c ∷ 0x0c ∷ 0x0c ∷ 0x0c ∷ 0x3c ∷ 0x00
        ∷ 0x00 ∷ 0x00 ∷ 0x00 ∷ [])
    ∷ (0x10 ∷ 0x38 ∷ 0x6c ∷ 0xc6 ∷ 0x00 ∷ 0x00 ∷ 0x00 ∷ 0x00 ∷ 0x00 ∷ 0x00 ∷ 0x00 ∷ 0x00 ∷ 0x00
        ∷ 0x00 ∷ 0x00 ∷ 0x00 ∷ [])
    ∷ (0x00 ∷ 0x00 ∷ 0x00 ∷ 0x00 ∷ 0x00 ∷ 0x00 ∷ 0x00 ∷ 0x00 ∷ 0x00 ∷ 0x00 ∷ 0x00 ∷ 0x00 ∷ 0x00
        ∷ 0xff ∷ 0x00 ∷ 0x00 ∷ [])
    ∷ []

-- Characters 96 to 103.
unfoldable pub glyphs_96 : List (List ℕ)
glyphs_96 =
    (0x30 ∷ 0x30 ∷ 0x18 ∷ 0x00 ∷ 0x00 ∷ 0x00 ∷ 0x00 ∷ 0x00 ∷ 0x00 ∷ 0x00 ∷ 0x00 ∷ 0x00 ∷ 0x00 ∷ 0x00
      ∷ 0x00 ∷ 0x00 ∷ [])
    ∷ (0x00 ∷ 0x00 ∷ 0x00 ∷ 0x00 ∷ 0x00 ∷ 0x78 ∷ 0x0c ∷ 0x7c ∷ 0xcc ∷ 0xcc ∷ 0xcc ∷ 0x76 ∷ 0x00
        ∷ 0x00 ∷ 0x00 ∷ 0x00 ∷ [])
    ∷ (0x00 ∷ 0x00 ∷ 0xe0 ∷ 0x60 ∷ 0x60 ∷ 0x78 ∷ 0x6c ∷ 0x66 ∷ 0x66 ∷ 0x66 ∷ 0x66 ∷ 0x7c ∷ 0x00
        ∷ 0x00 ∷ 0x00 ∷ 0x00 ∷ [])
    ∷ (0x00 ∷ 0x00 ∷ 0x00 ∷ 0x00 ∷ 0x00 ∷ 0x7c ∷ 0xc6 ∷ 0xc0 ∷ 0xc0 ∷ 0xc0 ∷ 0xc6 ∷ 0x7c ∷ 0x00
        ∷ 0x00 ∷ 0x00 ∷ 0x00 ∷ [])
    ∷ (0x00 ∷ 0x00 ∷ 0x1c ∷ 0x0c ∷ 0x0c ∷ 0x3c ∷ 0x6c ∷ 0xcc ∷ 0xcc ∷ 0xcc ∷ 0xcc ∷ 0x76 ∷ 0x00
        ∷ 0x00 ∷ 0x00 ∷ 0x00 ∷ [])
    ∷ (0x00 ∷ 0x00 ∷ 0x00 ∷ 0x00 ∷ 0x00 ∷ 0x7c ∷ 0xc6 ∷ 0xfe ∷ 0xc0 ∷ 0xc0 ∷ 0xc6 ∷ 0x7c ∷ 0x00
        ∷ 0x00 ∷ 0x00 ∷ 0x00 ∷ [])
    ∷ (0x00 ∷ 0x00 ∷ 0x38 ∷ 0x6c ∷ 0x64 ∷ 0x60 ∷ 0xf0 ∷ 0x60 ∷ 0x60 ∷ 0x60 ∷ 0x60 ∷ 0xf0 ∷ 0x00
        ∷ 0x00 ∷ 0x00 ∷ 0x00 ∷ [])
    ∷ (0x00 ∷ 0x00 ∷ 0x00 ∷ 0x00 ∷ 0x00 ∷ 0x76 ∷ 0xcc ∷ 0xcc ∷ 0xcc ∷ 0xcc ∷ 0xcc ∷ 0x7c ∷ 0x0c
        ∷ 0xcc ∷ 0x78 ∷ 0x00 ∷ [])
    ∷ []

-- Characters 104 to 111.
unfoldable pub glyphs_104 : List (List ℕ)
glyphs_104 =
    (0x00 ∷ 0x00 ∷ 0xe0 ∷ 0x60 ∷ 0x60 ∷ 0x6c ∷ 0x76 ∷ 0x66 ∷ 0x66 ∷ 0x66 ∷ 0x66 ∷ 0xe6 ∷ 0x00 ∷ 0x00
      ∷ 0x00 ∷ 0x00 ∷ [])
    ∷ (0x00 ∷ 0x00 ∷ 0x18 ∷ 0x18 ∷ 0x00 ∷ 0x38 ∷ 0x18 ∷ 0x18 ∷ 0x18 ∷ 0x18 ∷ 0x18 ∷ 0x3c ∷ 0x00
        ∷ 0x00 ∷ 0x00 ∷ 0x00 ∷ [])
    ∷ (0x00 ∷ 0x00 ∷ 0x06 ∷ 0x06 ∷ 0x00 ∷ 0x0e ∷ 0x06 ∷ 0x06 ∷ 0x06 ∷ 0x06 ∷ 0x06 ∷ 0x06 ∷ 0x66
        ∷ 0x66 ∷ 0x3c ∷ 0x00 ∷ [])
    ∷ (0x00 ∷ 0x00 ∷ 0xe0 ∷ 0x60 ∷ 0x60 ∷ 0x66 ∷ 0x6c ∷ 0x78 ∷ 0x78 ∷ 0x6c ∷ 0x66 ∷ 0xe6 ∷ 0x00
        ∷ 0x00 ∷ 0x00 ∷ 0x00 ∷ [])
    ∷ (0x00 ∷ 0x00 ∷ 0x38 ∷ 0x18 ∷ 0x18 ∷ 0x18 ∷ 0x18 ∷ 0x18 ∷ 0x18 ∷ 0x18 ∷ 0x18 ∷ 0x3c ∷ 0x00
        ∷ 0x00 ∷ 0x00 ∷ 0x00 ∷ [])
    ∷ (0x00 ∷ 0x00 ∷ 0x00 ∷ 0x00 ∷ 0x00 ∷ 0xec ∷ 0xfe ∷ 0xd6 ∷ 0xd6 ∷ 0xd6 ∷ 0xd6 ∷ 0xc6 ∷ 0x00
        ∷ 0x00 ∷ 0x00 ∷ 0x00 ∷ [])
    ∷ (0x00 ∷ 0x00 ∷ 0x00 ∷ 0x00 ∷ 0x00 ∷ 0xdc ∷ 0x66 ∷ 0x66 ∷ 0x66 ∷ 0x66 ∷ 0x66 ∷ 0x66 ∷ 0x00
        ∷ 0x00 ∷ 0x00 ∷ 0x00 ∷ [])
    ∷ (0x00 ∷ 0x00 ∷ 0x00 ∷ 0x00 ∷ 0x00 ∷ 0x7c ∷ 0xc6 ∷ 0xc6 ∷ 0xc6 ∷ 0xc6 ∷ 0xc6 ∷ 0x7c ∷ 0x00
        ∷ 0x00 ∷ 0x00 ∷ 0x00 ∷ [])
    ∷ []

-- Characters 112 to 119.
unfoldable pub glyphs_112 : List (List ℕ)
glyphs_112 =
    (0x00 ∷ 0x00 ∷ 0x00 ∷ 0x00 ∷ 0x00 ∷ 0xdc ∷ 0x66 ∷ 0x66 ∷ 0x66 ∷ 0x66 ∷ 0x66 ∷ 0x7c ∷ 0x60 ∷ 0x60
      ∷ 0xf0 ∷ 0x00 ∷ [])
    ∷ (0x00 ∷ 0x00 ∷ 0x00 ∷ 0x00 ∷ 0x00 ∷ 0x76 ∷ 0xcc ∷ 0xcc ∷ 0xcc ∷ 0xcc ∷ 0xcc ∷ 0x7c ∷ 0x0c
        ∷ 0x0c ∷ 0x1e ∷ 0x00 ∷ [])
    ∷ (0x00 ∷ 0x00 ∷ 0x00 ∷ 0x00 ∷ 0x00 ∷ 0xdc ∷ 0x76 ∷ 0x66 ∷ 0x60 ∷ 0x60 ∷ 0x60 ∷ 0xf0 ∷ 0x00
        ∷ 0x00 ∷ 0x00 ∷ 0x00 ∷ [])
    ∷ (0x00 ∷ 0x00 ∷ 0x00 ∷ 0x00 ∷ 0x00 ∷ 0x7c ∷ 0xc6 ∷ 0x60 ∷ 0x38 ∷ 0x0c ∷ 0xc6 ∷ 0x7c ∷ 0x00
        ∷ 0x00 ∷ 0x00 ∷ 0x00 ∷ [])
    ∷ (0x00 ∷ 0x00 ∷ 0x10 ∷ 0x30 ∷ 0x30 ∷ 0xfc ∷ 0x30 ∷ 0x30 ∷ 0x30 ∷ 0x30 ∷ 0x36 ∷ 0x1c ∷ 0x00
        ∷ 0x00 ∷ 0x00 ∷ 0x00 ∷ [])
    ∷ (0x00 ∷ 0x00 ∷ 0x00 ∷ 0x00 ∷ 0x00 ∷ 0xcc ∷ 0xcc ∷ 0xcc ∷ 0xcc ∷ 0xcc ∷ 0xcc ∷ 0x76 ∷ 0x00
        ∷ 0x00 ∷ 0x00 ∷ 0x00 ∷ [])
    ∷ (0x00 ∷ 0x00 ∷ 0x00 ∷ 0x00 ∷ 0x00 ∷ 0x66 ∷ 0x66 ∷ 0x66 ∷ 0x66 ∷ 0x66 ∷ 0x3c ∷ 0x18 ∷ 0x00
        ∷ 0x00 ∷ 0x00 ∷ 0x00 ∷ [])
    ∷ (0x00 ∷ 0x00 ∷ 0x00 ∷ 0x00 ∷ 0x00 ∷ 0xc6 ∷ 0xc6 ∷ 0xd6 ∷ 0xd6 ∷ 0xd6 ∷ 0xfe ∷ 0x6c ∷ 0x00
        ∷ 0x00 ∷ 0x00 ∷ 0x00 ∷ [])
    ∷ []

-- Characters 120 to 126.
unfoldable pub glyphs_120 : List (List ℕ)
glyphs_120 =
    (0x00 ∷ 0x00 ∷ 0x00 ∷ 0x00 ∷ 0x00 ∷ 0xc6 ∷ 0x6c ∷ 0x38 ∷ 0x38 ∷ 0x38 ∷ 0x6c ∷ 0xc6 ∷ 0x00 ∷ 0x00
      ∷ 0x00 ∷ 0x00 ∷ [])
    ∷ (0x00 ∷ 0x00 ∷ 0x00 ∷ 0x00 ∷ 0x00 ∷ 0xc6 ∷ 0xc6 ∷ 0xc6 ∷ 0xc6 ∷ 0xc6 ∷ 0xc6 ∷ 0x7e ∷ 0x06
        ∷ 0x0c ∷ 0xf8 ∷ 0x00 ∷ [])
    ∷ (0x00 ∷ 0x00 ∷ 0x00 ∷ 0x00 ∷ 0x00 ∷ 0xfe ∷ 0xcc ∷ 0x18 ∷ 0x30 ∷ 0x60 ∷ 0xc6 ∷ 0xfe ∷ 0x00
        ∷ 0x00 ∷ 0x00 ∷ 0x00 ∷ [])
    ∷ (0x00 ∷ 0x00 ∷ 0x0e ∷ 0x18 ∷ 0x18 ∷ 0x18 ∷ 0x70 ∷ 0x18 ∷ 0x18 ∷ 0x18 ∷ 0x18 ∷ 0x0e ∷ 0x00
        ∷ 0x00 ∷ 0x00 ∷ 0x00 ∷ [])
    ∷ (0x00 ∷ 0x00 ∷ 0x18 ∷ 0x18 ∷ 0x18 ∷ 0x18 ∷ 0x00 ∷ 0x18 ∷ 0x18 ∷ 0x18 ∷ 0x18 ∷ 0x18 ∷ 0x00
        ∷ 0x00 ∷ 0x00 ∷ 0x00 ∷ [])
    ∷ (0x00 ∷ 0x00 ∷ 0x70 ∷ 0x18 ∷ 0x18 ∷ 0x18 ∷ 0x0e ∷ 0x18 ∷ 0x18 ∷ 0x18 ∷ 0x18 ∷ 0x70 ∷ 0x00
        ∷ 0x00 ∷ 0x00 ∷ 0x00 ∷ [])
    ∷ (0x00 ∷ 0x00 ∷ 0x76 ∷ 0xdc ∷ 0x00 ∷ 0x00 ∷ 0x00 ∷ 0x00 ∷ 0x00 ∷ 0x00 ∷ 0x00 ∷ 0x00 ∷ 0x00
        ∷ 0x00 ∷ 0x00 ∷ 0x00 ∷ [])
    ∷ []
