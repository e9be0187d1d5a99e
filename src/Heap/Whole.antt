-- ===== src/Heap/Whole.antt =====
-- Coalescing in Kernel/memory/mem_man.c is complete: an idle heap is one block.
use so_bare_bones.Common.{
  ℕ, ◌+◌, ◌≤◌, ◌<◌, ◌≡◌, ◌⊎◌, inl, inr, some, List, [], ◌∷◌, map, All, arith, sym, ◌∙◌, subst,
}
use so_bare_bones.Heap.{Heap, Memory, start_address}
use so_bare_bones.Heap.Blocks.{Block, end_of, Ordered, Fits, total}
use so_bare_bones.Heap.Client.{Call, World, run, booted, Sound, run-booted}
use so_bare_bones.Heap.Free.{payload}
use so_bare_bones.Heap.Init.{whole}
use so_bare_bones.Heap.Valid.{IsValid, heap_end}

total-le :
    (e : ℕ) (c : Block) (xs : List Block)
    → Ordered (end_of c) xs
    → All (Fits e) (c ∷ xs)
    → c.addr + total (c ∷ xs) ≤ e
unfolding total
total-le e c [] o f = let g : Fits e c = f.0 in omega (arith, g.high)
total-le e c (d ∷ xs) o f = omega (arith, total-le e d xs o.1 f.1)

only_block :
    (free : List Block) (x : ℕ)
    → Ordered x free
    → All (Fits heap_end) free
    → total free + start_address ≡ heap_end
    → free ≡ whole ∷ []
unfolding total
only_block [] x o f sum = absurd (omega arith)
only_block (c ∷ []) x o f sum =
    let g : Fits heap_end c = f.0 in
    let at : c.addr ≡ start_address = omega (arith, g.low, g.high) in
    let size : c.size ≡ 10176 = omega (arith, g.low, g.high) in cc
only_block (c ∷ d ∷ xs) x o f sum =
    let g : Fits heap_end c = f.0 in absurd (omega (arith, g.low, total-le heap_end d xs o.1.1 f.1))

idle_total :
    {h : Heap} {free : List Block} → IsValid h free [] → total free + start_address ≡ heap_end
unfolding total
idle_total v = omega (arith, v.bytes)

-- When nothing is in use, the heap is one free block.
pub idle-whole : (h : Heap) (free : List Block) → IsValid h free [] → IsValid h (whole ∷ []) []
idle-whole h free v =
    subst (λ l. IsValid h l []) (only_block free h.start_at v.ordered v.free_fit (idle_total v)) v

Sound-idle : (w : World) → Sound w → w.live ≡ [] → IsValid w.heap (whole ∷ []) []
Sound-idle w s none_live = go s.used_blocks s.valid s.pointers
  where
    go :
        (used : List Block)
        → IsValid w.heap s.free_blocks used
        → w.live ≡ map payload used
        → IsValid w.heap (whole ∷ []) []
    go [] v e = idle-whole w.heap s.free_blocks v
    go (u ∷ used) v e = absurd (cc)

-- From boot on, when the program has given back every block that it was given, in whatever order,
-- the heap is one free block again, or it was never set up.
pub run-idle :
    (cs : List Call) (m : Memory) (start : ℕ)
    → start < start_address
    → (w : World) → run cs (booted m start) ≡ some w
    → w.live ≡ []
    → (w ≡ booted m start) ⊎ IsValid w.heap (whole ∷ []) []
run-idle cs m start low w runs none_live =
    let (w', runs', s) = run-booted cs m start low in
    let same : w' ≡ w = cc in
    elim s [
      | inl untouched ↦ inl (sym same ∙ untouched)
      | inr sound ↦ inr (Sound-idle w (subst Sound same sound) none_live)
    ]
