-- ===== src/Heap/Splice.antt =====
-- A block goes back to a well-formed free list: `addBlockToFreeList` of Kernel/memory/mem_man.c in
-- memory, and what it does to the order, the contents and the size of the list.
use so_bare_bones.Common.{
  ℕ, ◌+◌, ◌<◌, ◌≡◌, ◌≢◌, some, List, [], ◌∷◌, All, refl, arith, ltb, Bool-cases, inl, inr, subst,
  ltb→lt, ltb→le,
}
use so_bare_bones.Heap.{Memory, add_block_to_free_list, link_block, start_address, max_rounds}
use so_bare_bones.Heap.Blocks.{
  Block, block, end_of, Chain, Ordered, Apart, Fits, NotHead, attach, glue, insert_after,
  insert_free, total,
}
use so_bare_bones.Heap.Order.{
  insert_after-Ordered, insert_after-All, insert_after-total, glue-Ordered, glue-All, glue-total,
}
use so_bare_bones.Heap.Place.{Placed, insert_after-Placed}
use so_bare_bones.Heap.Valid.{heap_end, sentinel, length-free}

pub insert_after-insert_free :
    (p b : Block) (xs : List Block) → end_of p < b.addr → insert_after p b xs ≡ p ∷ insert_free b xs
unfolding insert_after insert_free attach glue
insert_after-insert_free p b [] h = ground arith
insert_after-insert_free p b (c ∷ xs) h = ground arith

pub insert_free-Ordered :
    (x : ℕ) (b : Block) (xs : List Block)
    → x < b.addr
    → 0 < b.size
    → Ordered x xs
    → All (Apart b) xs
    → All (λ c. 0 < c.size) xs
    → Ordered x (insert_free b xs)
unfolding insert_free
insert_free-Ordered x b [] h pos o apart ps = (h, tt)
insert_free-Ordered x b (c ∷ xs) h pos o apart ps = elim (Bool-cases (ltb c.addr b.addr)) [
  | inl lt ↦
      rw lt (insert_after-Ordered x c b xs o.0 (omega (arith, ltb→lt _ _ lt)) pos o.1 apart.1 ps.1)
  | inr ge ↦ rw ge (glue-Ordered x b (c ∷ xs) h (omega (arith, ltb→le _ _ ge), o.1))
]

pub insert_free-All :
    (P : Block → Type 0)
    → ((b c : Block) → P b → P c → end_of b ≡ c.addr → P (block b.addr (b.size + c.size)))
    → (b : Block) (xs : List Block) → P b
    → All P xs
    → All P (insert_free b xs)
unfolding insert_free
insert_free-All P join b [] h k = (h, tt)
insert_free-All P join b (c ∷ xs) h k = elim (Bool-cases (ltb c.addr b.addr)) [
  | inl lt ↦ rw lt (insert_after-All P join c b xs k.0 h k.1)
  | inr ge ↦ rw ge (glue-All P join b (c ∷ xs) h k)
]

pub insert_free-total : (b : Block) (xs : List Block) → total (insert_free b xs) ≡ b.size + total xs
unfolding insert_free total
insert_free-total b [] = refl
insert_free-total b (c ∷ xs) = ground (arith, insert_after-total c b xs, glue-total b (c ∷ xs))

-- What `addBlockToFreeList` does with a block `b` that is apart from the free list.
pub record Spliced (m : Memory) (start : ℕ) (b : Block) (xs : List Block) : Type 0 where
  pub after : Memory
  pub runs : add_block_to_free_list m start heap_end b.addr ≡ some after
  pub chain : Chain after heap_end (sentinel start ∷ insert_free b xs)
  pub same : (x : ℕ) → NotHead x (sentinel start ∷ xs) → x ≢ b.addr → after x ≡ m x

pub splice :
    (m : Memory) (start : ℕ) (b : Block) (xs : List Block)
    → start < start_address
    → Chain m heap_end (sentinel start ∷ xs)
    → Ordered start xs
    → All (Fits heap_end) xs
    → Fits heap_end b
    → All (Apart b) xs
    → (m b.addr).size ≡ b.size
    → Spliced m start b xs
unfolding add_block_to_free_list
splice m start b xs low ch o fi fb apart sb =
    let base : start ≡ start + 0 = omega arith in
    let placed : Placed max_rounds m heap_end b (sentinel start) xs =
      insert_after-Placed m heap_end b (omega arith) sb fb.nonempty fb.high max_rounds
        (sentinel start) xs (omega (arith, length-free heap_end start xs refl o fi)) ch
        (subst (λ k. Ordered k xs) base o) (omega (arith, fb.low)) (omega (arith, fb.low)) fi
        apart in
    record {
      after = link_block m heap_end placed.it b.addr;
      runs = rw placed.found;
      chain =
          subst (Chain (link_block m heap_end placed.it b.addr) heap_end)
            (insert_after-insert_free (sentinel start) b xs (omega (arith, fb.low))) placed.chain;
      same = placed.same;
    }
