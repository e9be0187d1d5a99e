-- ===== src/Stress/Passes.antt =====
-- The stress test of Userland/SampleCodeModule/test_mm.c finds no error.
use mathlib.Core.Option
use so_bare_bones.Common.{
  ℕ, zero, suc, ◌+◌, ◌≤◌, ◌<◌, ◌≡◌, ◌⊎◌, Option, some, List, [], ◌∷◌, ◌++◌, All, refl, arith, ap,
  replicate,
}
use so_bare_bones.Heap.{start_address}
use so_bare_bones.Heap.Blocks.{Block, Apart, Fits}
use so_bare_bones.Heap.Init.{whole}
use so_bare_bones.Heap.Used.{Remove-All, Remove-AllApart}
use so_bare_bones.Heap.Valid.{IsValid, AllApart, heap_end}
use so_bare_bones.System.{System}
use so_bare_bones.Stress.{
  Seed, Literals, MmRq, Message, malloc_returns_null, pasa_testeo, max_blocks, test_mm,
}
use so_bare_bones.Stress.Left.{request_loop-Left, null_chars, passed_chars}
use so_bare_bones.User.Ends.{IsFine, IsFine-screen, IsFine-vram, IsOffFrame, IsText, print-Shown}
use so_bare_bones.Number.{Text}
use so_bare_bones.Video.{Mode}
use so_bare_bones.Stress.Filled.{
  filled, with_vram, fill_loop-filled, IsOutside, filled-outside, AreApart, AllSeparate,
  check_loop-filled,
}
use so_bare_bones.Stress.Owned.{Has, Owned, others, refused, has, free_loop-whole}

-- What holds of the blocks in use holds of the requests.
Owned-All :
    {base used : List Block} {rs : List MmRq} (P : Block → Type 0) (Q : MmRq → Type 0)
    → ((r : MmRq) (b : Block) → Has r b → P b → Q r)
    → ((r : MmRq) → r.address ≡ 0 → Q r)
    → Owned base rs used
    → All P used
    → All Q rs
Owned-All P Q f g others a = tt
Owned-All P Q f g (refused {r} z o) a = (g r z, Owned-All P Q f g o a)
Owned-All P Q f g (has {r} {b = b} h m o) a =
    let s = Remove-All P m a in (f r b h s.0, Owned-All P Q f g o s.1)

Owned-AllSeparate :
    {base used : List Block} {rs : List MmRq} → Owned base rs used → AllApart used → AllSeparate rs
Owned-AllSeparate others a = tt
Owned-AllSeparate (refused z o) a = ((λ ne. absurd (ne z)), Owned-AllSeparate o a)
Owned-AllSeparate (has {r} {b = b} h m o) a =
    let s = Remove-AllApart m a in
    (
      (λ ne.
          Owned-All (λ w. Apart w b) (AreApart r)
            (λ t c k apart some_address. apart_bytes t c k apart) (λ t z ne'. absurd (ne' z)) o
            s.0),
      Owned-AllSeparate o s.1,
    )
  where
    apart_bytes :
        (t : MmRq) (c : Block)
        → Has t c
        → Apart c b
        → (r.address + r.size ≤ t.address) ⊎ (t.address + t.size ≤ r.address)
    apart_bytes t c k apart = omega (arith, h.at, h.room, k.at, k.room)

outside-heap :
    (q : ℕ) (r : MmRq) (b : Block)
    → (q < start_address) ⊎ (heap_end ≤ q)
    → Has r b
    → Fits heap_end b
    → (q < r.address) ⊎ (r.address + r.size ≤ q)
outside-heap q r b out h f = omega (arith, h.at, h.room, f.low, f.high)

append-nil :
    (n : ℕ)
    → replicate n malloc_returns_null [] ++ pasa_testeo ∷ []
      ≡ replicate n malloc_returns_null (pasa_testeo ∷ [])
append-nil zero = refl
append-nil (suc n) = ap (λ m. malloc_returns_null ∷ m) (append-nil n)

-- `P` names no byte of the heap.
abbrev pub IsOffHeap : (ℕ → Type 0) → Type 0
IsOffHeap P = (q : ℕ) → P q → (q < start_address) ⊎ (heap_end ≤ q)

-- What the test leaves: the heap is one free block, the cursor stands in the text area, and the
-- memory that `P` names is as it was; it has printed at most that requests were refused before it
-- prints that it passes.
pub record Passed (m : Mode) (b : ℕ) (P : ℕ → Type 0) (text : Text)
    (o : Option (System × Seed × List Message)) : Type 0 where
  pub after : System
  pub seed : Seed
  pub refusals : ℕ
  pub runs : o ≡ some (after, seed, replicate refusals malloc_returns_null (pasa_testeo ∷ []))
  pub idle : IsValid after.heap (whole ∷ []) []
  pub fine : IsFine m b P text after

-- Whatever the random numbers are, the stress test in a valid heap with nothing in use returns, with
-- its strings in memory outside the frame and the heap: it finds no error, prints at most that requests
-- were refused before it prints that it passes, leaves the heap as one free block, and changes no
-- byte outside the frame and the heap.
pub test_mm-passes :
    {m : Mode} {b : ℕ} {P : ℕ → Type 0} {text : Text} (off : IsOffFrame m P) (apart : IsOffHeap P)
    (uniform : ℕ → ℕ → ℕ) (fuel : ℕ) (l : Literals) (s : System) (seed : Seed) (free : List Block)
    → IsText fuel P text l.null_text null_chars
    → IsText fuel P text l.passed_text passed_chars
    → IsValid s.heap free []
    → IsFine m b P text s
    → Passed m b P text (test_mm uniform fuel l s seed)
unfolding test_mm Option.bind
test_mm-passes off apart uniform fuel l s seed free null_in passed_in v f =
    let g = request_loop-Left off fuel l null_in uniform max_blocks s seed 0 free [] v f in
    let t = g.q.system in
    let rs = g.q.mm_rqs in
    let bytes = filled t.screen.vram 0 rs in
    let t' = with_vram t bytes in
    let freed = free_loop-whole t' rs g.free_blocks g.used_blocks g.valid g.owned in
    let clean = check_loop-filled fuel l t 0 rs (Owned-AllSeparate g.owned g.valid.used_apart) in
    let fine = IsFine-vram t bytes g.fine (λ q p. filled-outside t.screen.vram 0 rs q (
      Owned-All (Fits heap_end) (IsOutside q) (λ r b h k ne. outside-heap q r b (apart q p) h k)
        (λ r z ne. absurd (ne z)) g.owned g.valid.used_fit)) in
    let u = record t' { heap = freed.0 } in
    let shown =
      print-Shown off u (IsFine-screen t' u refl fine) fuel l.passed_text passed_chars passed_in in
    record {
      after = record u { screen = shown.screen };
      seed = g.q.seed;
      refusals = g.refusals;
      runs =
          rw
            (
              g.runs,
              fill_loop-filled t 0 rs,
              clean,
              freed.1,
              shown.runs,
              g.told,
              append-nil g.refusals,
            )
            refl;
      idle = freed.2;
      fine = shown.fine;
    }
