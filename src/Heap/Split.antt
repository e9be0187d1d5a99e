-- ===== src/Heap/Split.antt =====
-- `RTOSMalloc` of Kernel/memory/mem_man.c: the block that it takes keeps the requested size, and a
-- large rest goes back to the free list.
use so_bare_bones.Common.{
  ℕ, ◌+◌, ◌-◌, ◌%◌, ◌≤◌, ◌<◌, ◌≡◌, ◌≢◌, ◌⊎◌, some, List, ◌∷◌, All, All-map, refl, arith, ap, ◌∙◌,
  ltb, true, false, sub64, add64, Bool-cases, inl, inr, ltb→lt,
}
use so_bare_bones.Heap.{Heap, Memory, split_block, start_address, set_size, minimum_block_size}
use so_bare_bones.Heap.Blocks.{
  Block, end_of, Chain, Ordered, Apart, Fits, NotHead, NotHead-Apart, frame, back, carve,
}
use so_bare_bones.Heap.Insert.{set_size_ne, set_size_self}
use so_bare_bones.Heap.Splice.{Spliced, splice}
use so_bare_bones.Heap.Valid.{heap_end, sentinel}

-- What `split_block` does to a block `c` that is unlinked from the free list `ys`.
pub record Taken (h : Heap) (size : ℕ) (c : Block) (ys : List Block) (unlinked : Memory)
    : Type 0 where
  pub after : Memory
  pub runs : split_block unlinked h.start_at h.p_end size c.addr ≡ some after
  pub own : (after c.addr).size ≡ (carve size c ys).0.size
  pub chain : Chain after heap_end (sentinel h.start_at ∷ (carve size c ys).1)
  pub same :
      (x : ℕ)
      → NotHead x (sentinel h.start_at ∷ ys)
      → (x < c.addr) ⊎ (end_of c ≤ x)
      → after x ≡ unlinked x

module _ (h : Heap) (size : ℕ) (c : Block) (ys : List Block) (unlinked : Memory)
    (end_at : h.p_end ≡ heap_end) (low : h.start_at < start_address)
    (ch : Chain unlinked heap_end (sentinel h.start_at ∷ ys))
    (own : (unlinked c.addr).size ≡ c.size) (o : Ordered h.start_at ys)
    (fi : All (Fits heap_end) ys) (fc : Fits heap_end c) (apart : All (Apart c) ys)
    (le : size ≤ c.size) (pos : 0 < size) (al : size % 64 ≡ 0) where
  Taken-whole : ltb minimum_block_size (c.size - size) ≡ false → Taken h size c ys unlinked
  unfolding split_block carve
  Taken-whole small =
      let e : sub64 (unlinked c.addr).size size ≡ c.size - size = omega (arith, own, fc.high) in
      record {
        after = unlinked;
        runs = rw (e, small);
        own = rw small own;
        chain = rw small ch;
        same = λ x n out. refl;
      }

  -- Memory when the two sizes are written.
  cut : Memory
  cut = set_size (set_size unlinked (c.addr + size) (c.size - size)) c.addr size

  back-Fits : 128 < c.size - size → Fits heap_end (back size c)
  back-Fits big = omega (arith, fc.low, fc.addr_aligned, fc.size_aligned, fc.nonempty, fc.high)

  back-Apart : All (Apart (back size c)) ys
  back-Apart = All-map (Apart c) (Apart (back size c)) (λ d a. omega arith) ys apart

  cut-same : (x : ℕ) → x ≢ c.addr → x ≢ c.addr + size → cut x ≡ unlinked x
  unfolding cut
  cut-same x n m =
      set_size_ne (set_size unlinked (c.addr + size) (c.size - size)) c.addr size x n
      ∙ set_size_ne unlinked (c.addr + size) (c.size - size) x m

  cut-Spliced : 128 < c.size - size → Spliced cut h.start_at (back size c) ys
  unfolding cut
  cut-Spliced big =
      let b = back size c in
      let m = set_size unlinked b.addr b.size in
      let fb = back-Fits big in
      let out_b : NotHead b.addr (sentinel h.start_at ∷ ys) =
        (omega (arith, fb.low), NotHead-Apart heap_end b ys fb.nonempty back-Apart fi) in
      let out_c : NotHead c.addr (sentinel h.start_at ∷ ys) =
        (omega (arith, fc.low), NotHead-Apart heap_end c ys fc.nonempty apart fi) in
      let chain_b =
        frame unlinked m heap_end b.addr (sentinel h.start_at ∷ ys)
          (set_size_ne unlinked b.addr b.size) out_b ch in
      let chain_c =
        frame m cut heap_end c.addr (sentinel h.start_at ∷ ys) (set_size_ne m c.addr size) out_c
          chain_b in
      splice cut h.start_at b ys low chain_c o fi fb back-Apart (
        ap (λ k. k.size) (set_size_ne m c.addr size b.addr (omega arith))
        ∙ set_size_self unlinked b.addr b.size)

  Taken-split : ltb minimum_block_size (c.size - size) ≡ true → Taken h size c ys unlinked
  unfolding split_block carve cut
  Taken-split big =
      let large : 128 < c.size - size = ltb→lt _ _ big in
      let sp = cut-Spliced large in
      let out_c : NotHead c.addr (sentinel h.start_at ∷ ys) =
        (omega (arith, fc.low), NotHead-Apart heap_end c ys fc.nonempty apart fi) in
      let e : sub64 (unlinked c.addr).size size ≡ c.size - size = omega (arith, own, fc.high) in
      let a : add64 c.addr size ≡ c.addr + size = omega (arith, fc.high) in
      record {
        after = sp.after;
        runs = rw (e, big, a, end_at) sp.runs;
        own = rw big (
            ap (λ k. k.size) (sp.same c.addr out_c (omega arith))
            ∙ set_size_self (set_size unlinked (c.addr + size) (c.size - size)) c.addr size);
        chain = rw big sp.chain;
        same = λ x n out.
            sp.same x n (omega arith)
            ∙ cut-same x (omega (arith, fc.nonempty)) (omega (arith, out));
      }

  pub split_block-Taken : Taken h size c ys unlinked
  split_block-Taken = elim (Bool-cases (ltb minimum_block_size (c.size - size))) [
    | inl big ↦ Taken-split big
    | inr small ↦ Taken-whole small
  ]
