-- ===== src/Heap/Carve.antt =====
-- What `carve` makes of a block that `RTOSMalloc` (Kernel/memory/mem_man.c) takes: the block in use
-- and the new free list.
use so_bare_bones.Common.{
  ℕ, ◌+◌, ◌-◌, ◌%◌, ◌≤◌, ◌<◌, ◌≡◌, inl, inr, List, All, All-map, refl, arith, ltb, ltb→lt,
  Bool-cases,
}
use so_bare_bones.Heap.{minimum_block_size}
use so_bare_bones.Heap.Blocks.{Block, Ordered, Apart, Fits, total, insert_free, front, back, carve}
use so_bare_bones.Heap.Splice.{insert_free-Ordered, insert_free-All, insert_free-total}
use so_bare_bones.Heap.Used.{Fits-join, Apart-join, insert_free-Apart}
use so_bare_bones.Heap.Valid.{heap_end}

-- The block `r.0` has the address of `c` and at least `size` bytes, and `r.1` is a free list apart
-- from it; together they cover `c` and `ys`, and nothing else.
pub record Carved (x size : ℕ) (c : Block) (ys : List Block) (r : Block × List Block) : Type 0 where
  pub addr : r.0.addr ≡ c.addr
  pub enough : size ≤ r.0.size
  pub fits : Fits heap_end r.0
  pub free_fit : All (Fits heap_end) r.1
  pub ordered : Ordered x r.1
  pub apart : All (Apart r.0) r.1
  pub sum : r.0.size + total r.1 ≡ c.size + total ys
  pub others_block : (us : List Block) → All (λ w. Apart w c) us → All (λ w. Apart w r.0) us
  pub others_free :
      (us : List Block)
      → All (Fits heap_end) us
      → All (λ w. Apart w c) us
      → All (λ w. All (Apart w) ys) us
      → All (λ w. All (Apart w) r.1) us

module _ (x size : ℕ) (c : Block) (ys : List Block) (above : x < c.addr) (fc : Fits heap_end c)
    (fi : All (Fits heap_end) ys) (o : Ordered x ys) (apart : All (Apart c) ys) (le : size ≤ c.size)
    (pos : 0 < size) (al : size % 64 ≡ 0) where
  Carved-whole : Carved x size c ys (c, ys)
  Carved-whole = record {
    addr = refl;
    enough = le;
    fits = fc;
    free_fit = fi;
    ordered = o;
    apart = apart;
    sum = refl;
    others_block = λ us h. h;
    others_free = λ us f h k. k;
  }

  Carved-split :
      128 < c.size - size → Carved x size c ys (front size c, insert_free (back size c) ys)
  Carved-split big =
      let b = back size c in
      let fb : Fits heap_end b =
        omega (arith, fc.low, fc.addr_aligned, fc.size_aligned, fc.nonempty, fc.high) in
      let ab : All (Apart b) ys = All-map (Apart c) (Apart b) (λ d a. omega arith) ys apart in
      let af : All (Apart (front size c)) ys =
        All-map (Apart c) (Apart (front size c)) (λ d a. omega arith) ys apart in
      let sum : total (insert_free b ys) ≡ b.size + total ys = insert_free-total b ys in
      record {
        addr = refl;
        enough = omega arith;
        fits = omega (arith, fc.low, fc.addr_aligned, fc.size_aligned, fc.nonempty, fc.high);
        free_fit = insert_free-All (Fits heap_end) (Fits-join heap_end) b ys fb fi;
        ordered =
            insert_free-Ordered x b ys (omega arith) fb.nonempty o ab
              (All-map (Fits heap_end) (λ d. 0 < d.size) (λ d f. f.nonempty) ys fi);
        apart =
            insert_free-All (Apart (front size c)) (λ d e. Apart-join (front size c) d e pos) b ys
              (inl (omega arith)) af;
        sum = omega (arith, sum);
        others_block = λ us h.
            All-map (λ w. Apart w c) (λ w. Apart w (front size c)) (λ w a. omega arith) us h;
        others_free = λ us f h k.
            insert_free-Apart b ys us f
              (All-map (λ w. Apart w c) (λ w. Apart w b) (λ w a. omega arith) us h) k;
      }

  pub carve-Carved : Carved x size c ys (carve size c ys)
  unfolding carve
  carve-Carved = elim (Bool-cases (ltb minimum_block_size (c.size - size))) [
    | inl big ↦ rw big (Carved-split (ltb→lt _ _ big))
    | inr small ↦ rw small Carved-whole
  ]
