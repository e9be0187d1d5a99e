-- ===== src/System/Storage.antt =====
-- Memory that a program asked for, system calls 14 and 16 of Kernel/interrupts/int80.c.
use mathlib.Core.Option
use so_bare_bones.Common.{
  ℕ, ◌+◌, ◌%◌, ◌^◌, ◌≤◌, ◌<◌, ◌≡◌, ◌≢◌, ◌⊎◌, Option, none, some, refl, arith, ap, sym, ◌∙◌, List,
  All, All-map,
}
use so_bare_bones.Heap.{Heap, rtos_malloc, start_address}
use so_bare_bones.Heap.Blocks.{Block, end_of}
use so_bare_bones.Heap.Contract.{rtos_malloc-bounds}
use so_bare_bones.Heap.Valid.{IsValid, heap_end}
use so_bare_bones.Transfer.{memset}
use so_bare_bones.Transfer.Copied.{memset_lem}
use so_bare_bones.System.{System, int80_dispatcher, my_malloc, mem_set}

-- What a call 14 that returns has done.
my_malloc-runs :
    (s : System) (size p : ℕ) (s' : System) (o : Option (Heap × ℕ))
    → Option.map {B = System × ℕ} (λ r. (record s { heap = r.0 }, r.1)) o ≡ some (s', p)
    → (o ≡ some (s'.heap, p)) × (s'.screen ≡ s.screen)
my_malloc-runs s size p s' none e = absurd (cc)
my_malloc-runs s size p s' (some (h, q)) e =
    let same : (record s { heap = h }) ≡ s' = cc in
    let at : q ≡ p = cc in
    let heap_same : h ≡ s'.heap = ap (λ t. t.heap) same in (cc, ap (λ t. t.screen) (sym same))

int80_dispatcher-14 :
    (fuel : ℕ) (s : System) (size : ℕ) → int80_dispatcher fuel s 14 size 0 0 ≡ my_malloc s size
unfolding int80_dispatcher
int80_dispatcher-14 fuel s size = refl

-- A system call 14 for `size` bytes that returns a pointer, and then call 16 to fill no more than
-- these with a byte: call 16 returns the pointer, the bytes hold the value, and the bytes of every
-- block that was in use before, its header included, and all those outside the heap are as before.
pub int80_dispatcher-memset :
    (fuel : ℕ) (s : System) (free used : List Block) (size p c n : ℕ)
    → IsValid s.heap free used
    → size < 2 ^ 32
    → n ≤ size
    → (s' : System) → int80_dispatcher fuel s 14 size 0 0 ≡ some (s', p)
    → p ≢ 0
    → (s'' : System) × (int80_dispatcher fuel s' 16 p c n ≡ some (s'', p))
      × ((j : ℕ) → j < n → s''.screen.vram (p + j) ≡ c % 2 ^ 32 % 256)
      × All (λ u. (q : ℕ) → u.addr ≤ q → q < end_of u → s''.screen.vram q ≡ s.screen.vram q) used
      × ((q : ℕ) → (q < start_address) ⊎ (heap_end ≤ q) → s''.screen.vram q ≡ s.screen.vram q)
unfolding int80_dispatcher my_malloc mem_set
int80_dispatcher-memset fuel s free used size p c n v small le s' runs ne =
    let word : size % 2 ^ 32 ≡ size = omega arith in
    let done = my_malloc-runs s size p s' (rtos_malloc s.heap (size % 2 ^ 32)) runs in
    let bounds =
      rtos_malloc-bounds s.heap free used size v (omega arith) s'.heap p (rw word at done.0) ne in
    let before : (q : ℕ) → s'.screen.vram q ≡ s.screen.vram q = λ q. ap (λ sc. sc.vram q) done.1 in
    let set = memset_lem s'.screen.vram p (c % 2 ^ 32) n in
    (
      record s' { screen = record s'.screen { vram = memset s'.screen.vram p (c % 2 ^ 32) n } },
      refl,
      set.0,
      All-map (λ u. (p + size ≤ u.addr) ⊎ (end_of u ≤ p))
          (λ u.
            (q : ℕ)
            → u.addr ≤ q
            → q < end_of u
            → memset s'.screen.vram p (c % 2 ^ 32) n q ≡ s.screen.vram q)
          (λ u apart q lo hi. set.1 q (omega arith) ∙ before q) used bounds.3,
      λ q out. set.1 q (omega (arith, bounds.1, bounds.2)) ∙ before q,
    )
