-- ===== src/Heap/Valid.antt =====
-- The allocator's invariant, for Kernel/memory/mem_man.c once `initHeap` has run: what the free
-- list and the blocks in use look like in memory.
use so_bare_bones.Common.{ℕ, ◌+◌, ◌^◌, ◌<◌, ◌≡◌, List, [], ◌∷◌, All, length, arith}
use so_bare_bones.Heap.{Heap, Header, start_address}
use so_bare_bones.Heap.Blocks.{
  Block, block, end_of, Chain, Ordered, Apart, Fits, total, length-Ordered,
}

-- The address of the end marker, the last aligned header of the heap.
abbrev pub heap_end : ℕ
heap_end = 0x6027C0

-- The static `start` as a block: it is empty and lies below the heap.
abbrev pub sentinel : ℕ → Block
sentinel start = block start 0

-- The blocks in use are apart from one another.
abbrev pub AllApart : List Block → Type 0
AllApart [] = Unit
AllApart (u ∷ us) = All (Apart u) us × AllApart us

-- The header of a block in use: the top bit of its size is set, and it has no successor.
abbrev pub used_header : Block → Header
used_header u = record { next = 0; size = u.size + 2 ^ 63 }

-- `free` are the free blocks in order of address, `used` the blocks in use.
pub record IsValid (h : Heap) (free used : List Block) : Type 0 where
  pub end_at : h.p_end ≡ heap_end
  pub bit : h.allocated_bit ≡ 2 ^ 63
  pub start_low : h.start_at < start_address
  pub marker : h.mem h.p_end ≡ record { next = 0; size = 0 }
  pub chain : Chain h.mem heap_end (sentinel h.start_at ∷ free)
  pub ordered : Ordered h.start_at free
  pub free_fit : All (Fits heap_end) free
  pub used_fit : All (Fits heap_end) used
  pub headers : All (λ u. h.mem u.addr ≡ used_header u) used
  pub free_used : All (λ u. All (Apart u) free) used
  pub used_apart : AllApart used
  pub count : h.free_bytes ≡ total free
  pub bytes : total free + total used + start_address ≡ heap_end

-- There is room for 159 free blocks at most, so that the loops' fuel suffices.
pub length-free :
    (e x : ℕ) (free : List Block)
    → e ≡ heap_end
    → Ordered x free
    → All (Fits e) free
    → length free < 255
length-free e x [] h o f = omega arith
length-free e x (c ∷ xs) h o f =
    let g : Fits e c = f.0 in
    omega (arith, g.low, g.nonempty, length-Ordered (end_of c) e xs g.high o.1 f.1)
