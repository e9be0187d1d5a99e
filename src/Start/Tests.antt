-- ===== src/Start/Tests.antt =====
-- The start of the kernel, Kernel/kernel.c, at concrete states.
use so_bare_bones.Common.{ℕ, ◌+◌, ◌<◌, ◌≡◌, some, [], ◌∷◌, arith, ltb, if◌then◌else◌}
use so_bare_bones.Loader.{build_payload, build_modules, write_size, bytes32}
use so_bare_bones.Loader.RoundTrip.{IsAt}
use so_bare_bones.Loader.Tests.{held, held-IsAt}
use so_bare_bones.Number.{Text}
use so_bare_bones.Stress.{Literals}
use so_bare_bones.Stress.Left.{null_chars, passed_chars}
use so_bare_bones.System.{System}
use so_bare_bones.Stress.Tests.{system}
use so_bare_bones.Start.{initialize_kernel_binary}
use so_bare_bones.Start.Modules.{initialize_kernel_binary-IsAt}

abbrev literals : Literals
literals = record { null_text = 0x401000; error_text = 0x401200; passed_text = 0x401100 }

-- The user's module with the strings of the test.
abbrev module_text : Text
module_text p = if ltb p 0x401100 then held 0x401000 null_chars p else held 0x401100 passed_chars p

abbrev loaded : System
loaded = record system { screen = record system.screen { vram = module_text } }

initialize_kernel_binary-IsAt_example :
    (t : Text) × (initialize_kernel_binary
        (held 0x104000 (build_payload ((1 ∷ 2 ∷ 3 ∷ []) ∷ (4 ∷ []) ∷ [])))
        0x105000
        0x104000
        0x106000
      ≡ some (t, 0x10DFF8))
    × IsAt t 0x400000 (1 ∷ 2 ∷ 3 ∷ [])
    × IsAt t 0x500000 (4 ∷ [])
    × ((j : ℕ) → j < 0x1000 → t (0x105000 + j) ≡ 0)
unfolding build_payload build_modules write_size bytes32
initialize_kernel_binary-IsAt_example =
    initialize_kernel_binary-IsAt (held 0x104000 (build_payload ((1 ∷ 2 ∷ 3 ∷ []) ∷ (4 ∷ []) ∷ [])))
      (1 ∷ 2 ∷ 3 ∷ []) (4 ∷ []) 0x105000 0x104000 0x106000
      (held-IsAt 0x104000 (build_payload ((1 ∷ 2 ∷ 3 ∷ []) ∷ (4 ∷ []) ∷ []))) (omega arith)
      (omega arith) (omega arith) (omega arith) (omega arith)
