-- ===== src/Stress/Boot.antt =====
-- The shell as it is run, behind the kernel's start: Userland/SampleCodeModule/shell.c.
use mathlib.Core.Option
use so_bare_bones.Common.{ℕ, suc, ◌+◌, ◌-◌, ◌%◌, ◌^◌, ◌<◌, ◌≡◌, [], ◌∷◌, refl, ap, subst, sym, ◌∙◌}
use so_bare_bones.Heap.{Memory, start_address, boot, init_heap}
use so_bare_bones.Heap.Client.{rtos_malloc-boot}
use so_bare_bones.Heap.Init.{whole, init_heap-IsValid}
use so_bare_bones.System.{System, int80_dispatcher, my_malloc, widen}
use so_bare_bones.Stress.{
  Seed, mmalloc, request_loop, test_mm, shell, first_seed, get_uniform, max_memory, add_request,
  tell_null, Literals,
}
use so_bare_bones.Stress.Left.{null_chars, passed_chars}
use so_bare_bones.User.Ends.{IsFine, IsFine-screen, IsOffFrame, IsText}
use so_bare_bones.Number.{Text}
use so_bare_bones.Video.{Mode}
use so_bare_bones.Stress.Passes.{IsOffHeap, Passed, test_mm-passes}

abbrev booted : System → Memory → ℕ → System
booted s m start = record s { heap = boot m start }

abbrev ready : System → Memory → ℕ → System
ready s m start = record s { heap = init_heap (boot m start) }

-- The first request sets the heap up.
mmalloc-boot :
    (s : System) (m : Memory) (start size : ℕ)
    → mmalloc (booted s m start) size ≡ mmalloc (ready s m start) size
unfolding mmalloc int80_dispatcher my_malloc
mmalloc-boot s m start size =
    ap (Option.map {B = System × ℕ} (λ r. (record s { heap = r.0 }, r.1)))
      (rtos_malloc-boot m start (widen size % 2 ^ 32))

request_loop-boot :
    (uniform : ℕ → ℕ → ℕ) (fuel : ℕ) (l : Literals) (n : ℕ) (s : System) (m : Memory) (start : ℕ)
    (seed : Seed)
    → request_loop uniform fuel l (suc n) (booted s m start) seed 0
      ≡ request_loop uniform fuel l (suc n) (ready s m start) seed 0
unfolding request_loop
request_loop-boot uniform fuel l n s m start seed =
    let u = get_uniform uniform seed (max_memory - 1) in
    let size = (u.1 + 1) % 2 ^ 32 in
    ap
      (λ o. Option.bind o λ r. Option.bind (tell_null fuel l r.0 r.1) λ s'.
        Option.map (add_request r.1 size)
          (request_loop uniform fuel l n s' u.0 ((0 + size) % 2 ^ 32)))
      (mmalloc-boot s m start size)

test_mm-boot :
    (uniform : ℕ → ℕ → ℕ) (fuel : ℕ) (l : Literals) (s : System) (m : Memory) (start : ℕ)
    (seed : Seed)
    → test_mm uniform fuel l (booted s m start) seed ≡ test_mm uniform fuel l (ready s m start) seed
unfolding test_mm
test_mm-boot uniform fuel l s m start seed =
    rw (request_loop-boot uniform fuel l 127 s m start seed) refl

-- From boot on, with whatever the allocator's memory holds, and the strings of the test in memory
-- outside the frame and the heap, the shell returns: no error is found, and it prints at most that
-- requests were refused before it prints that the test passes; the heap is one free block then, and no
-- byte outside the frame and the heap has changed.
pub shell-passes :
    {mode : Mode} {b : ℕ} {P : ℕ → Type 0} {text : Text} (off : IsOffFrame mode P)
    (apart : IsOffHeap P) (uniform : ℕ → ℕ → ℕ) (fuel : ℕ) (l : Literals) (s : System) (m : Memory)
    (start : ℕ)
    → start < start_address
    → s.heap ≡ boot m start
    → IsText fuel P text l.null_text null_chars
    → IsText fuel P text l.passed_text passed_chars
    → IsFine mode b P text s
    → Passed mode b P text (shell uniform fuel l s)
unfolding shell
shell-passes {mode} {b} {P} {text} off apart uniform fuel l s m start low e null_in passed_in f =
    let p =
      test_mm-passes off apart uniform fuel l (ready s m start) first_seed (whole ∷ []) null_in
        passed_in (init_heap-IsValid m start low) (IsFine-screen s (ready s m start) refl f) in
    let same : booted s m start ≡ s = ap (λ h. record s { heap = h }) (sym e) in
    let runs =
      ap (λ t. test_mm uniform fuel l t first_seed) (sym same)
      ∙ test_mm-boot uniform fuel l s m start first_seed in
    subst (Passed mode b P text) (sym runs) p
