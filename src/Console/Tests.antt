-- ===== src/Console/Tests.antt =====
-- The text console of Kernel/naiveConsole.c.
use so_bare_bones.Common.{ℕ, ◌+◌, ◌-◌, ◌*◌, ◌%◌, ◌≤◌, ◌<◌, ◌≡◌, ◌⊎◌, some, refl}
use so_bare_bones.Console.{Console, video, nc_newline}
use so_bare_bones.Console.Newline.{nc_newline_lem}

-- The cursor is in cell 5 of the second line.
abbrev console : Console
console = record { text = λ p. 0; current_video = video + 170; buffer = 0x108000 }

nc_newline_example :
    (c' : Console) × (nc_newline console ≡ some c')
    × (c'.current_video ≡ video + 320)
    × ((j : ℕ) → 85 ≤ j → j < 160 → c'.text (video + 2 * j) ≡ b' ')
    × ((q : ℕ) → (q < video + 170) ⊎ (c'.current_video ≤ q) ⊎ ((q - video) % 2 ≡ 1) → c'.text q ≡ 0)
nc_newline_example = nc_newline_lem console 85 refl
