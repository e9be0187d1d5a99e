-- ===== src/Heap/Client.antt =====
-- Any sequence of calls of the allocator of Kernel/memory/mem_man.c, from boot on. The program may
-- pass to `free` any pointer that `malloc` returned and that it has not passed to `free` since.
use mathlib.Core.Option
use so_bare_bones.Common.{
  ℕ, zero, suc, ◌^◌, ◌%◌, ◌<◌, ◌≡◌, ◌⊎◌, inl, inr, Option, none, some, List, [], ◌∷◌, map, refl,
  arith, ap, ◌∙◌, ◌==◌, false, if◌then◌else◌,
}
use so_bare_bones.Heap.{Heap, Memory, boot, init_heap, rtos_malloc, rtos_free, start_address}
use so_bare_bones.Heap.Blocks.{Block, insert_free}
use so_bare_bones.Heap.Free.{payload, rtos_free-IsValid}
use so_bare_bones.Heap.Init.{whole, init_heap-IsValid}
use so_bare_bones.Heap.Request.{alloc, Answers, null, got, rtos_malloc-alloc}
use so_bare_bones.Heap.Used.{Remove, here, there}
use so_bare_bones.Heap.Valid.{IsValid}

-- A request of so many bytes, or the release of the pointer at a place in the list of live ones.
pub data Call : Type 0 where
  malloc : ℕ → Call
  free : ℕ → Call

pub record World : Type 0 where
  pub heap : Heap
  pub live : List ℕ

unfoldable pub pointer_at : List ℕ → ℕ → Option ℕ
pointer_at [] i = none
pointer_at (p ∷ ps) zero = some p
pointer_at (p ∷ ps) (suc i) = pointer_at ps i

unfoldable pub without : List ℕ → ℕ → List ℕ
without [] i = []
without (p ∷ ps) zero = ps
without (p ∷ ps) (suc i) = p ∷ without ps i

-- `size_t` has 64 bits.
unfoldable pub step : Call → World → Option World
unfolding pointer_at without
step (malloc r) w =
    Option.map
      (λ res. record { heap = res.0; live = if res.1 == 0 then w.live else res.1 ∷ w.live })
      (rtos_malloc w.heap (r % 2 ^ 64))
step (free i) w = elim (pointer_at w.live i) [
  | none ↦ some w
  | some p ↦ Option.map (λ h. record { heap = h; live = without w.live i }) (rtos_free w.heap p)
]

unfoldable pub run : List Call → World → Option World
run [] w = some w
run (c ∷ cs) w = Option.bind (step c w) (run cs)

-- The heap is not set up yet, or it is valid and the live pointers are those of its used blocks.
pub record Sound (w : World) : Type 0 where
  pub free_blocks : List Block
  pub used_blocks : List Block
  pub valid : IsValid w.heap free_blocks used_blocks
  pub pointers : w.live ≡ map payload used_blocks

Removed-at :
    (us : List Block) (i p : ℕ)
    → pointer_at (map payload us) i ≡ some p
    → (u : Block) × (rest : List Block) × Remove u us rest
      × (p ≡ payload u)
      × (without (map payload us) i ≡ map payload rest)
unfolding pointer_at without
Removed-at [] i p h = absurd (cc)
Removed-at (u ∷ us) zero p h = (u, us, here, cc, refl)
Removed-at (u ∷ us) (suc i) p h =
    let (w, rest, r, e, k) = Removed-at us i p h in
    (w, u ∷ rest, there r, e, ap (λ l. payload u ∷ l) k)

step-malloc :
    (w : World) (s : Sound w) (o : Option (Block × List Block)) (res : Option (Heap × ℕ))
    → Answers w.heap s.used_blocks o res
    → (w' : World) × (Option.map
          (λ res. record { heap = res.0; live = if res.1 == 0 then w.live else res.1 ∷ w.live })
          res
        ≡ some w')
      × Sound w'
step-malloc w s none res null = (w, refl, s)
step-malloc w s o res (got h' b left v) =
    let ne : (payload b == 0) ≡ false = ground arith in
    (
      record { heap = h'; live = payload b ∷ w.live },
      rw ne,
      record {
        free_blocks = left;
        used_blocks = b ∷ s.used_blocks;
        valid = v;
        pointers = ap (λ l. payload b ∷ l) s.pointers;
      },
    )

step-free :
    (w : World) (i : ℕ) (s : Sound w) (o : Option ℕ)
    → pointer_at w.live i ≡ o
    → (w' : World) × (◌≡◌ {A = Option World}
        (elim o [
          | none ↦ some w
          | some p ↦
              Option.map (λ h. record { heap = h; live = without w.live i }) (rtos_free w.heap p)
        ])
        (some w'))
      × Sound w'
step-free w i s none e = (w, refl, s)
step-free w i s (some p) e =
    let (u, rest, r, same, left) = Removed-at s.used_blocks i p (rw s.pointers at e) in
    let (h', runs, v) = rtos_free-IsValid w.heap u s.free_blocks s.used_blocks rest s.valid r in
    (
      record { heap = h'; live = without w.live i },
      rw (same, runs),
      record {
        free_blocks = insert_free u s.free_blocks;
        used_blocks = rest;
        valid = v;
        pointers = ap (λ l. without l i) s.pointers ∙ left;
      },
    )

-- Every call in a sound world returns, and leaves a sound world.
pub step-Sound : (c : Call) (w : World) → Sound w → (w' : World) × (step c w ≡ some w') × Sound w'
unfolding step
step-Sound (malloc r) w s =
    let size = r % 2 ^ 64 in
    step-malloc w s (alloc size s.free_blocks) (rtos_malloc w.heap size)
      (rtos_malloc-alloc w.heap s.free_blocks s.used_blocks size s.valid (omega arith))
step-Sound (free i) w s = step-free w i s (pointer_at w.live i) refl

pub run-Sound :
    (cs : List Call) (w : World) → Sound w → (w' : World) × (run cs w ≡ some w') × Sound w'
unfolding run Option.bind
run-Sound [] w s = (w, refl, s)
run-Sound (c ∷ cs) w s =
    let (w', e, s') = step-Sound c w s in
    let (w'', e', s'') = run-Sound cs w' s' in (w'', rw e e', s'')

-- The first call finds the static variables at 0, and sets up the heap before it searches.
pub rtos_malloc-boot :
    (m : Memory) (start r : ℕ)
    → rtos_malloc (boot m start) r ≡ rtos_malloc (init_heap (boot m start)) r
unfolding rtos_malloc init_heap
rtos_malloc-boot m start r = refl

abbrev pub booted : Memory → ℕ → World
booted m start = record { heap = boot m start; live = [] }

set_up :
    (m : Memory) (start : ℕ)
    → start < start_address
    → Sound (record { heap = init_heap (boot m start); live = [] })
set_up m start low = record {
  free_blocks = whole ∷ [];
  used_blocks = [];
  valid = init_heap-IsValid m start low;
  pointers = refl;
}

-- From boot on every sequence of calls of `malloc` and `free` runs to its end, without running out of
-- fuel, and either the heap was never set up or it is valid, with the live pointers those of its
-- blocks in use.
pub run-booted :
    (cs : List Call) (m : Memory) (start : ℕ)
    → start < start_address
    → (w : World) × (run cs (booted m start) ≡ some w) × ((w ≡ booted m start) ⊎ Sound w)
unfolding run step Option.bind pointer_at
run-booted [] m start low = (booted m start, refl, inl refl)
run-booted (free i ∷ cs) m start low = run-booted cs m start low
run-booted (malloc r ∷ cs) m start low =
    let (w, e, s) =
      run-Sound (malloc r ∷ cs) (record { heap = init_heap (boot m start); live = [] })
        (set_up m start low) in
    (w, rw (rtos_malloc-boot m start (r % 2 ^ 64)) e, inr s)
