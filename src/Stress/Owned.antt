-- ===== src/Stress/Owned.antt =====
-- Which blocks the requests of Userland/SampleCodeModule/test_mm.c hold: its first loop and its last.
use mathlib.Core.Option
use so_bare_bones.Common.{
  ℕ, ◌+◌, ◌%◌, ◌^◌, ◌≤◌, ◌<◌, ◌≡◌, Option, none, some, List, [], ◌∷◌, ◌==◌, false, refl, arith, ap,
}
use so_bare_bones.Heap.{Heap, rtos_malloc, rtos_free}
use so_bare_bones.Heap.Blocks.{Block}
use so_bare_bones.Heap.Free.{payload, rtos_free-IsValid}
use so_bare_bones.Heap.Init.{whole}
use so_bare_bones.Heap.Request.{alloc, Answers, null, got, rtos_malloc-alloc, alloc-Given}
use so_bare_bones.Heap.Used.{Remove, here, there}
use so_bare_bones.Heap.Valid.{IsValid}
use so_bare_bones.Heap.Whole.{idle-whole}
use so_bare_bones.System.{System, int80_dispatcher, my_malloc, my_free, widen}
use so_bare_bones.Stress.{MmRq, mmalloc, mfree, free_loop}

-- The bytes of a request lie in the block, behind its header.
pub record Has (r : MmRq) (b : Block) : Type 0 where
  pub at : r.address ≡ payload b
  pub room : r.size + 64 ≤ b.size

-- Every request that was not refused has a block of its own; the blocks of `base` are the others.
pub data Owned (base : List Block) : List MmRq → List Block → Type 0 where
  others : Owned base [] base
  refused :
      {r : MmRq} {rs : List MmRq} {used : List Block}
      → r.address ≡ 0
      → Owned base rs used
      → Owned base (r ∷ rs) used
  has :
      {r : MmRq} {rs : List MmRq} {b : Block} {used rest : List Block}
      → Has r b
      → Remove b used rest
      → Owned base rs rest
      → Owned base (r ∷ rs) used

-- Two blocks can be taken out in the other order.
Remove-swap :
    {b c : Block} {us vs ws : List Block}
    → Remove c us vs
    → Remove b vs ws
    → (xs : List Block) × Remove b us xs × Remove c xs ws
Remove-swap {us} {vs} here r = (_, there r, here)
Remove-swap (there r) here = (_, here, r)
Remove-swap (there r) (there q) = let s = Remove-swap r q in (_, there s.1, there s.2)

-- A block that no request holds can be taken out in front of theirs.
pub Owned-Remove :
    {b : Block} {base used : List Block} {rs : List MmRq}
    → Owned (b ∷ base) rs used
    → (rest : List Block) × Remove b used rest × Owned base rs rest
Owned-Remove others = (_, here, others)
Owned-Remove (refused z o) = let s = Owned-Remove o in (s.0, s.1, refused z s.2)
Owned-Remove (has h r o) =
    let s = Owned-Remove o in let t = Remove-swap r s.1 in (t.0, t.1, has h t.2 s.2)

-- The two ways in which call 14 returns.
pub data Malloced (s : System) (used : List Block) (size : ℕ) : Option (System × ℕ) → Type 0 where
  no_room : Malloced s used size (some (s, 0))
  given :
      (h : Heap) (b : Block) (free : List Block)
      → IsValid h free (b ∷ used)
      → size + 64 ≤ b.size
      → Malloced s used size (some (record s { heap = h }, payload b))

mmalloc-runs :
    (s : System) (size : ℕ)
    → size < 2 ^ 32
    → mmalloc s size
      ≡ Option.map {B = System × ℕ} (λ r. (record s { heap = r.0 }, r.1)) (rtos_malloc s.heap size)
unfolding mmalloc int80_dispatcher my_malloc
mmalloc-runs s size small =
    let word : widen size % 2 ^ 32 ≡ size = ground arith in
    ap
      (λ z.
        Option.map {B = System × ℕ} (λ r. (record s { heap = r.0 }, r.1)) (rtos_malloc s.heap z))
      word

pub mmalloc-Malloced :
    (s : System) (free used : List Block) (size : ℕ)
    → IsValid s.heap free used
    → size < 2 ^ 32
    → Malloced s used size (mmalloc s size)
mmalloc-Malloced s free used size v small = rw (mmalloc-runs s size small) (
    go (alloc size free) (rtos_malloc s.heap size) refl
      (rtos_malloc-alloc s.heap free used size v (omega arith)))
  where
    go :
        (o : Option (Block × List Block)) (res : Option (Heap × ℕ))
        → alloc size free ≡ o
        → Answers s.heap used o res
        → Malloced s used size
            (Option.map {B = System × ℕ} (λ r. (record s { heap = r.0 }, r.1)) res)
    go none res e null = no_room
    go o res e (got h b left valid) =
        given h b left valid (alloc-Given s.heap.start_at size free v.ordered v.free_fit e).room

mfree-runs :
    (s : System) (p : ℕ) (h : Heap)
    → rtos_free s.heap p ≡ some h
    → mfree s p ≡ some (record s { heap = h })
unfolding mfree int80_dispatcher my_free
mfree-runs s p h e = rw e refl

-- The last loop gives every block back, and the heap is one free block.
pub free_loop-whole :
    (s : System) (rs : List MmRq) (free used : List Block)
    → IsValid s.heap free used
    → Owned [] rs used
    → (h : Heap) × (free_loop s rs ≡ some (record s { heap = h })) × IsValid h (whole ∷ []) []
unfolding free_loop Option.bind
free_loop-whole s [] free used v others = (s.heap, refl, idle-whole s.heap free v)
free_loop-whole s (r ∷ rs) free used v (refused z o) = rw z (free_loop-whole s rs free used v o)
free_loop-whole s (r ∷ rs) free used v (has {b} {rest = rest} h m o) =
    let f = rtos_free-IsValid s.heap b free used rest v m in
    let there_is : (r.address == 0) ≡ false = ground (arith, h.at) in
    let frees : mfree s r.address ≡ some (record s { heap = f.0 }) =
      mfree-runs s r.address f.0 (rw h.at f.1) in
    let tail = free_loop-whole (record s { heap = f.0 }) rs _ rest f.2 o in
    (tail.0, (rw (there_is, frees) tail.1), tail.2)
