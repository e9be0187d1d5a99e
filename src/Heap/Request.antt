-- ===== src/Heap/Request.antt =====
-- `RTOSMalloc` of Kernel/memory/mem_man.c against its specification: first fit on the free blocks.
use mathlib.Core.Option
use so_bare_bones.Common.{
  ℕ, zero, suc, lt-or-le, ◌+◌, ◌*◌, ◌/◌, ◌^◌, ◌≤◌, ◌<◌, ◌≡◌, ◌⊎◌, inl, inr, Option, none, some,
  List, ◌∷◌, All, refl, arith, ap, ltb, ◌&&◌, true, false, ◌==◌, if◌then◌else◌, Bool-cases,
}
use so_bare_bones.Heap.{Heap, round_request, rtos_malloc, malloc_rounded, has_bit}
use so_bare_bones.Heap.Blocks.{Block, Ordered, Fits, pick, carve, insert_free}
use so_bare_bones.Heap.Carve.{carve-Carved}
use so_bare_bones.Heap.Undo.{insert_free-carve}
use so_bare_bones.Heap.Pick.{
  Picked, nothing, found, pick-Picked, Pick-All, Pick-le, Pick-Ordered, Pick-Apart,
}
use so_bare_bones.Heap.Valid.{IsValid, heap_end}
use so_bare_bones.Heap.Free.{payload}
use so_bare_bones.Heap.Malloc.{malloc_rounded-Pick, malloc_rounded-null}

-- What the code makes of a request: a header and the bytes, in whole multiples of 64.
abbrev pub rounded : ℕ → ℕ
rounded r = (r + 127) / 64 * 64

round_request-rounded : (r : ℕ) → 0 < r → r < 2 ^ 63 → round_request r ≡ rounded r
unfolding round_request
round_request-rounded r pos small = ground arith

-- The specification: the block that a request gets and the free blocks that are left, or none.
unfoldable pub alloc : ℕ → List Block → Option (Block × List Block)
alloc r free =
    if ltb 0 r && ltb r (2 ^ 63)
    then Option.map (λ p. carve (rounded r) p.0 p.1) (pick (rounded r) free)
    else none

-- How a result of `RTOSMalloc` answers to one of the specification: NULL and an unchanged state, or
-- the pointer behind the block's header and a valid heap in which the block is in use.
pub data Answers (h : Heap) (used : List Block)
    : Option (Block × List Block) → Option (Heap × ℕ) → Type 0 where
  null : Answers h used none (some (h, 0))
  got :
      (h' : Heap) (b : Block) (free : List Block)
      → IsValid h' free (b ∷ used)
      → Answers h used (some (b, free)) (some (h', payload b))

rtos_malloc-ready :
    (h : Heap) (free used : List Block) (r : ℕ)
    → IsValid h free used
    → rtos_malloc h r
      ≡ (if has_bit (2 ^ 63) r then some (h, 0) else malloc_rounded h (round_request r))
unfolding rtos_malloc
rtos_malloc-ready h free used r v =
    let ready : (h.p_end == 0) ≡ false = ground (arith, v.end_at) in rw (ready, v.bit)

Answers-Picked :
    (h : Heap) (free used : List Block) (r : ℕ) (o : Option (Block × List Block))
    → IsValid h free used
    → 0 < r
    → Picked (rounded r) free o
    → Answers h used (Option.map (λ p. carve (rounded r) p.0 p.1) o) (malloc_rounded h (rounded r))
Answers-Picked h free used r none v pos (nothing small) =
    rw (malloc_rounded-null h free used v (rounded r) small) null
Answers-Picked h free used r (some x) v pos (found c ys d) =
    let res = malloc_rounded-Pick h free used v (rounded r) c ys d (omega arith) (omega arith) in
    rw res.1 (got res.0 (carve (rounded r) c ys).0 (carve (rounded r) c ys).1 res.2)

malloc_rounded-zero : (h : Heap) → malloc_rounded h 0 ≡ some (h, 0)
unfolding malloc_rounded
malloc_rounded-zero h = refl

round_request-zero : round_request 0 ≡ 0
unfolding round_request
round_request-zero = refl

-- A request of the code's own range, of no byte, and one with the top bit set.
data Request : ℕ → Type 0 where
  plain : {r : ℕ} → 0 < r → r < 2 ^ 63 → Request r
  empty : {r : ℕ} → r ≡ 0 → Request r
  huge : {r : ℕ} → 2 ^ 63 ≤ r → Request r

request : (r : ℕ) → Request r
request zero = empty refl
request (suc n) = elim (lt-or-le (suc n) (2 ^ 63)) [
  | inl lt ↦ plain (omega arith) lt
  | inr ge ↦ huge ge
]

-- `RTOSMalloc` in a valid heap always returns, and answers as the specification says.
pub rtos_malloc-alloc :
    (h : Heap) (free used : List Block) (r : ℕ)
    → IsValid h free used
    → r < 2 ^ 64
    → Answers h used (alloc r free) (rtos_malloc h r)
unfolding alloc
rtos_malloc-alloc h free used r v small = answer (request r)
  where
    answer : Request r → Answers h used (alloc r free) (rtos_malloc h r)
    answer (plain pos lt) =
        let no_bit : has_bit (2 ^ 63) r ≡ false = ground arith in
        let guard : (ltb 0 r && ltb r (2 ^ 63)) ≡ true = ground arith in
        rw (rtos_malloc-ready h free used r v, no_bit, guard, round_request-rounded r pos lt)
          (Answers-Picked h free used r _ v pos (pick-Picked (rounded r) free))
    answer (empty z) =
        rw (rtos_malloc-ready h free used r v, z, round_request-zero, malloc_rounded-zero h) null
    answer (huge ge) =
        let bit : has_bit (2 ^ 63) r ≡ true = ground arith in
        let guard : (ltb 0 r && ltb r (2 ^ 63)) ≡ false = ground arith in
        rw (rtos_malloc-ready h free used r v, bit, guard) null

-- A block that the specification gives out holds the request behind its header, was free before,
-- and putting it back gives the free list that was there.
pub record Given (x r : ℕ) (free : List Block) (b : Block) (left : List Block) : Type 0 where
  pub room : r + 64 ≤ b.size
  pub size_bound : b.size < 2 ^ 63
  pub fits : Fits heap_end b
  pub undo : insert_free b left ≡ free

alloc-Picked :
    (x r : ℕ) (free : List Block) (o : Option (Block × List Block)) {b : Block} {left : List Block}
    → 0 < r
    → Ordered x free
    → All (Fits heap_end) free
    → Picked (rounded r) free o
    → Option.map (λ p. carve (rounded r) p.0 p.1) o ≡ some (b, left)
    → Given x r free b left
alloc-Picked x r free none pos o f (nothing small) eq = absurd (cc)
alloc-Picked x r free (some y) {b} {left} pos o f (found c ys d) eq =
    let pick_c = Pick-Apart x d o in
    let rest = Pick-All (Fits heap_end) d f in
    let cv =
      carve-Carved x (rounded r) c ys pick_c.0 rest.0 rest.1 (Pick-Ordered x d o) pick_c.1
        (Pick-le d) (omega arith) (omega arith) in
    let both : carve (rounded r) c ys ≡ (b, left) = cc in
    let block_eq : (carve (rounded r) c ys).0 ≡ b = ap (λ p. p.0) both in
    let left_eq : (carve (rounded r) c ys).1 ≡ left = ap (λ p. p.1) both in
    record {
      room = rw (← block_eq) (omega (arith, cv.enough));
      size_bound = rw (← block_eq) (omega (arith, cv.fits.high));
      fits = rw (← block_eq) cv.fits;
      undo = rw (← block_eq, ← left_eq) (insert_free-carve x d o);
    }

pub alloc-Given :
    (x r : ℕ) (free : List Block) {b : Block} {left : List Block}
    → Ordered x free
    → All (Fits heap_end) free
    → alloc r free ≡ some (b, left)
    → Given x r free b left
unfolding alloc
alloc-Given x r free o f eq = elim (Bool-cases (ltb 0 r && ltb r (2 ^ 63))) [
  | inl guard ↦
      alloc-Picked x r free _ (ground arith) o f (pick-Picked (rounded r) free) (rw guard at eq)
  | inr guard ↦ absurd (none-ne-some (rw guard at eq))
]
  where
    none-ne-some : {p : Block × List Block} → none ≡ some p → ⊥
    none-ne-some h = cc

-- Where the specification gives nothing out, it is for one of three reasons.
pub alloc-none :
    (r : ℕ) (free : List Block)
    → alloc r free ≡ none
    → (r ≡ 0) ⊎ (2 ^ 63 ≤ r) ⊎ All (λ c. c.size < rounded r) free
unfolding alloc
alloc-none r free eq = elim (Bool-cases (ltb 0 r && ltb r (2 ^ 63))) [
  | inl guard ↦
      inr (inr (too_large (pick (rounded r) free) (pick-Picked (rounded r) free) (rw guard at eq)))
  | inr guard ↦ out_of_range (request r) guard
]
  where
    too_large :
        (o : Option (Block × List Block))
        → Picked (rounded r) free o
        → Option.map (λ p. carve (rounded r) p.0 p.1) o ≡ none
        → All (λ c. c.size < rounded r) free
    too_large none (nothing small) e = small
    too_large (some y) p e = absurd (cc)

    out_of_range :
        Request r
        → (ltb 0 r && ltb r (2 ^ 63)) ≡ false
        → (r ≡ 0) ⊎ (2 ^ 63 ≤ r) ⊎ All (λ c. c.size < rounded r) free
    out_of_range (plain pos lt) g = absurd (ground arith)
    out_of_range (empty z) g = inl z
    out_of_range (huge ge) g = inr (inl ge)
