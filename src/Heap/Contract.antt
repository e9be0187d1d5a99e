-- ===== src/Heap/Contract.antt =====
-- What a caller of `RTOSMalloc` and `RTOSFree` (Kernel/memory/mem_man.c) may rely on.
use so_bare_bones.Common.{
  ℕ, ◌+◌, ◌%◌, ◌^◌, ◌≤◌, ◌<◌, ◌≡◌, ◌≢◌, ◌⊎◌, Option, none, some, List, ◌∷◌, All, All-map, refl,
  arith, ap, ◌∙◌, subst,
}
use so_bare_bones.Heap.{Heap, rtos_malloc, rtos_free, start_address}
use so_bare_bones.Heap.Blocks.{Block, end_of, Apart, Fits}
use so_bare_bones.Heap.Free.{payload, rtos_free-IsValid}
use so_bare_bones.Heap.Request.{
  alloc, Answers, null, got, Given, alloc-Given, rtos_malloc-alloc, rounded, alloc-none,
}
use so_bare_bones.Heap.Used.{here}
use so_bare_bones.Heap.Valid.{IsValid, heap_end}

-- A successful answer, opened: the block, what is left, and the state.
record Success (h : Heap) (free used : List Block) (r : ℕ) (h' : Heap) (p : ℕ) : Type 0 where
  block : Block
  left : List Block
  is_payload : p ≡ payload block
  given : Given h.start_at r free block left
  valid : IsValid h' left (block ∷ used)

Answers-Success :
    {h : Heap} {free used : List Block} (r : ℕ) (o : Option (Block × List Block))
    (res : Option (Heap × ℕ)) {h' : Heap} {p : ℕ}
    → IsValid h free used
    → alloc r free ≡ o
    → Answers h used o res
    → res ≡ some (h', p)
    → p ≢ 0
    → Success h free used r h' p
Answers-Success r none res v e null eq ne = absurd (ne (cc))
Answers-Success {h} {free} {used} r o res {h'} {p} v e (got g b left valid) eq ne =
    let state : g ≡ h' = cc in
    record {
      block = b;
      left = left;
      is_payload = cc;
      given = alloc-Given h.start_at r free v.ordered v.free_fit e;
      valid = subst (λ k. IsValid k left (b ∷ used)) state valid;
    }

module _ (h : Heap) (free used : List Block) (r : ℕ) (v : IsValid h free used) (small : r < 2 ^ 64)
    (h' : Heap) (p : ℕ) (runs : rtos_malloc h r ≡ some (h', p)) (ne : p ≢ 0) where
  success : Success h free used r h' p
  success =
      Answers-Success r (alloc r free) (rtos_malloc h r) v refl
        (rtos_malloc-alloc h free used r v small) runs ne

  -- A pointer that `RTOSMalloc` returns is aligned to 64 bytes, the requested bytes behind it lie in
  -- the heap, and they meet neither a block in use, its header included, nor the end marker.
  pub rtos_malloc-bounds :
      (p % 64 ≡ 0)
      × (start_address ≤ p)
      × (p + r ≤ heap_end)
      × All (λ u. (p + r ≤ u.addr) ⊎ (end_of u ≤ p)) used
  rtos_malloc-bounds =
      let b = success.block in
      let fb : Fits heap_end b = success.given.fits in
      let room : r + 64 ≤ b.size = success.given.room in
      let at : p ≡ payload b = success.is_payload in
      (
        omega (arith, fb.addr_aligned),
        omega (arith, fb.low),
        omega (arith, fb.high),
        All-map (Apart b) (λ u. (p + r ≤ u.addr) ⊎ (end_of u ≤ p)) (λ u a. omega arith) used
            success.valid.used_apart.0,
      )

  -- Freeing the pointer that `RTOSMalloc` has just returned gives back the very free list and the
  -- very blocks in use that there were before the request.
  pub rtos_free-rtos_malloc : (h'' : Heap) × (rtos_free h' p ≡ some h'') × IsValid h'' free used
  rtos_free-rtos_malloc =
      let b = success.block in
      let (h'', freed, valid) =
        rtos_free-IsValid h' b success.left (b ∷ used) used success.valid here in
      (
        h'',
        ap (rtos_free h') success.is_payload ∙ freed,
        subst (λ l. IsValid h'' l used) success.given.undo valid,
      )

-- In a valid heap, `RTOSMalloc` returns NULL only if the request is for no byte, has the top bit set,
-- or is larger, with its header and rounded up, than every free block; the heap is then as it was.
pub rtos_malloc-null :
    (h : Heap) (free used : List Block) (r : ℕ)
    → IsValid h free used
    → r < 2 ^ 64
    → (h' : Heap) → rtos_malloc h r ≡ some (h', 0)
    → (h' ≡ h) × ((r ≡ 0) ⊎ (2 ^ 63 ≤ r) ⊎ All (λ c. c.size < rounded r) free)
rtos_malloc-null h free used r v small h' runs =
    go (alloc r free) (rtos_malloc h r) refl (rtos_malloc-alloc h free used r v small) runs
  where
    go :
        (o : Option (Block × List Block)) (res : Option (Heap × ℕ))
        → alloc r free ≡ o
        → Answers h used o res
        → res ≡ some (h', 0)
        → (h' ≡ h) × ((r ≡ 0) ⊎ (2 ^ 63 ≤ r) ⊎ All (λ c. c.size < rounded r) free)
    go none res e null eq = (cc, alloc-none r free e)
    go o res e (got g b left valid) eq =
        let zero_payload : payload b ≡ 0 = cc in absurd (omega arith)
