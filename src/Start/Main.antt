-- ===== src/Start/Main.antt =====
-- A whole run of Kernel/kernel.c with the user's module behind it.
use mathlib.Core.Option
use so_bare_bones.Common.{ℕ, ◌+◌, ◌-◌, ◌≤◌, ◌<◌, ◌≡◌, ◌⊎◌, List, length, [], ◌∷◌, replicate}
use so_bare_bones.Heap.{start_address}
use so_bare_bones.Heap.Init.{whole}
use so_bare_bones.Heap.Valid.{IsValid, heap_end}
use so_bare_bones.Idt.{Handlers}
use so_bare_bones.Idt.Entries.{IsGate}
use so_bare_bones.Number.{Text}
use so_bare_bones.Strings.Holds.{Holds}
use so_bare_bones.Stress.{malloc_returns_null, pasa_testeo}
use so_bare_bones.Video.{Mode}
use so_bare_bones.Video.Outside.{IsOutside}
use so_bare_bones.System.{System}
use so_bare_bones.Start.{Started}

-- The bytes that nothing of a run writes but the start of the user's module: none of the frame and
-- none of the heap.
abbrev pub IsKept : Mode → ℕ → Type 0
IsKept m q = IsOutside m q × ((q < start_address) ⊎ (heap_end ≤ q))

-- A string in the user's module in front of its BSS.
pub record IsLiteral (fuel : ℕ) (text : Text) (bss p : ℕ) (chars : List ℕ) : Type 0 where
  pub holds : Holds text p chars
  pub short : length chars < fuel
  pub below : p + length chars < bss

-- What the kernel has reached when `main` is done.
pub record HasPassed (s : System) (h : Handlers) (bss end_of_binary : ℕ) (r : Started)
    : Type 0 where
  pub gate : IsGate (r.table 0x80) h.int_80
  pub refusals : ℕ
  pub told : r.run.2 ≡ replicate refusals malloc_returns_null (pasa_testeo ∷ [])
  pub idle : IsValid r.run.0.heap (whole ∷ []) []
  pub bss_zero : (j : ℕ) → j < end_of_binary - bss → r.run.0.screen.vram (bss + j) ≡ 0
  pub same :
      (q : ℕ)
      → IsKept s.screen.mode q
      → (q < bss) ⊎ (bss + (end_of_binary - bss) ≤ q)
      → r.run.0.screen.vram q ≡ s.screen.vram q
