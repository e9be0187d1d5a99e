-- ===== src/Font.antt =====
-- The bitmap font, Kernel/font.c: the table, in the children, and the look-up of a character's rows.
mod Lower
pub mod Row
mod Tests
mod Upper
use so_bare_bones.Font.Lower.{glyphs_32, glyphs_40, glyphs_48, glyphs_56, glyphs_64, glyphs_72}
use so_bare_bones.Font.Upper.{glyphs_80, glyphs_88, glyphs_96, glyphs_104, glyphs_112, glyphs_120}
use so_bare_bones.Common.{
  ℕ, zero, suc, ◌+◌, ◌-◌, ◌*◌, ◌≤◌, ◌<◌, ◌≡◌, ◌≢◌, ◌↔◌, Bool, true, false, ◌&&◌, ◌||◌, Option, none,
  some, List, [], ◌∷◌, ◌++◌, refl, arith, ltb, leb, ◌==◌, if◌then◌else◌, get_elem?, holds_under,
  holds_under_sound, not, ltb→lt,
}

abbrev pub char_height : ℕ
char_height = 16

join : List (List ℕ) → List ℕ → List ℕ
join [] rest = rest
join (g ∷ gs) rest = g ++ join gs rest

-- `__font_bitmap__`, the rows of all glyphs one after another.
pub font_bitmap : List ℕ
unfolding join glyphs_32 glyphs_40 glyphs_48 glyphs_56 glyphs_64 glyphs_72 glyphs_80 glyphs_88
    glyphs_96 glyphs_104 glyphs_112 glyphs_120
font_bitmap = join glyphs_32 (
    join glyphs_40 (
      join glyphs_48 (
        join glyphs_56 (
          join glyphs_64 (
            join glyphs_72 (
              join glyphs_80 (
                join glyphs_88
                  (join glyphs_96 (join glyphs_104 (join glyphs_112 (join glyphs_120 [])))))))))))

-- Row `i` behind the pointer `charBitmap(c)`, for the byte `c`; `none` is a read outside the table.
-- A byte of 128 or more is a negative `char`, and its row lies in front of the table.
unfoldable pub char_bitmap : (c i : ℕ) → Option ℕ
char_bitmap c i =
    if ltb c 32 || leb 128 c then none else get_elem? font_bitmap ((c - 32) * char_height + i)

abbrev same : Bool → Bool → Bool
same true b = b
same false b = not b

abbrev inside : Option ℕ → Bool
inside none = false
inside (some b) = true

-- Row `i` of character `c` is a byte of the table exactly if the font has the character.
abbrev row_is_right : ℕ → ℕ → Bool
row_is_right i c = same (inside (char_bitmap c i)) (leb 32 c && leb c 126)

rows_table : holds_under (λ i. holds_under (row_is_right i) 256) 16 ≡ true
unfolding holds_under char_bitmap font_bitmap
rows_table = refl

row_right : (c i : ℕ) → c < 256 → i < 16 → row_is_right i c ≡ true
row_right c i hc hi =
    holds_under_sound (row_is_right i) 256 hc
      (holds_under_sound (λ j. holds_under (row_is_right j) 256) 16 hi rows_table)

-- The rows that `draw_char` reads are in the font's table exactly for the characters 32 to 126;
-- for any other byte the pointer of `charBitmap` lies outside the table.
pub char_bitmap-inside :
    (c i : ℕ) → c < 256 → i < 16 → (char_bitmap c i ≢ none) ↔ ((32 ≤ c) × (c ≤ 126))
char_bitmap-inside c i hc hi = go (char_bitmap c i) (row_right c i hc hi)
  where
    some-ne-none : (b : ℕ) → some b ≢ none
    some-ne-none b e = cc

    go :
        (o : Option ℕ)
        → same (inside o) (leb 32 c && leb c 126) ≡ true
        → (o ≢ none) ↔ ((32 ≤ c) × (c ≤ 126))
    go none r = ((λ n. absurd (n refl)), λ h. absurd (ground arith))
    go (some b) r = ((λ n. ground arith), λ h. some-ne-none b)

is_blank : Option ℕ → Bool
is_blank none = false
is_blank (some b) = b == 0

blank_table : holds_under (λ i. is_blank (char_bitmap 32 i)) 16 ≡ true
unfolding holds_under char_bitmap font_bitmap is_blank
blank_table = refl

-- The glyph of the space has no ink.
pub char_bitmap-space : (i : ℕ) → i < 16 → char_bitmap 32 i ≡ some 0
unfolding is_blank
char_bitmap-space i h =
    go (char_bitmap 32 i) (holds_under_sound (λ j. is_blank (char_bitmap 32 j)) 16 h blank_table)
  where
    go : (o : Option ℕ) → is_blank o ≡ true → o ≡ some 0
    go none e = cc
    go (some b) e = ground arith
