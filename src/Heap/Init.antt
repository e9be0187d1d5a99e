-- ===== src/Heap/Init.antt =====
-- `initHeap` of Kernel/memory/mem_man.c.
use so_bare_bones.Common.{ℕ, ◌<◌, refl, [], ◌∷◌, arith}
use so_bare_bones.Heap.{Memory, boot, init_heap, start_address}
use so_bare_bones.Heap.Blocks.{Block, block, total}
use so_bare_bones.Heap.Valid.{IsValid}

-- The whole heap as one block: 10 KiB less the end marker.
abbrev pub whole : Block
whole = block start_address 10176

-- At boot `initHeap` makes a valid heap of one free block, and nothing is in use.
pub init_heap-IsValid :
    (m : Memory) (start : ℕ)
    → start < start_address
    → IsValid (init_heap (boot m start)) (whole ∷ []) []
unfolding init_heap total
init_heap-IsValid m start low = record {
  end_at = refl;
  bit = refl;
  start_low = low;
  marker = ground arith;
  chain = ground arith;
  ordered = omega arith;
  free_fit = omega arith;
  used_fit = tt;
  headers = tt;
  free_used = tt;
  used_apart = tt;
  count = refl;
  bytes = refl;
}
