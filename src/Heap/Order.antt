-- ===== src/Heap/Order.antt =====
-- The abstract free list stays in order, inside the heap and of the same total size.
use so_bare_bones.Common.{
  ℕ, ◌+◌, ◌≤◌, ◌<◌, ◌≡◌, inl, inr, List, [], ◌∷◌, ltb, ◌==◌, All, refl, arith, Bool-cases, ltb→lt,
  ltb→le,
}
use so_bare_bones.Heap.Blocks.{
  Block, block, end_of, Ordered, Above, Apart, glue, attach, insert_after, total,
}

pub glue-Ordered :
    (x : ℕ) (b : Block) (xs : List Block) → x < b.addr → Above (end_of b) xs → Ordered x (glue b xs)
unfolding glue
glue-Ordered x b [] h o = ground arith
glue-Ordered x b (c ∷ xs) h o = ground arith

attach-Ordered :
    (x : ℕ) (p b : Block) (xs : List Block)
    → x < p.addr
    → end_of p ≤ b.addr
    → Above (end_of b) xs
    → Ordered x (attach p b xs)
unfolding attach
attach-Ordered x p b xs h k o =
    ground (arith, glue-Ordered x (block p.addr (p.size + b.size)) xs, glue-Ordered (end_of p) b xs)

-- Inserting an apart block keeps the order and leaves no two adjacent blocks unmerged.
pub insert_after-Ordered :
    (x : ℕ) (p b : Block) (xs : List Block)
    → x < p.addr
    → end_of p ≤ b.addr
    → 0 < b.size
    → Ordered (end_of p) xs
    → All (Apart b) xs
    → All (λ c. 0 < c.size) xs
    → Ordered x (insert_after p b xs)
unfolding insert_after
insert_after-Ordered x p b [] h k pos o ap ps = attach-Ordered x p b [] h k tt
insert_after-Ordered x p b (c ∷ xs) h k pos o ap ps = elim (Bool-cases (ltb c.addr b.addr)) [
  | inl lt ↦ rw lt (
    h,
    insert_after-Ordered (end_of p) c b xs o.0 (omega (arith, ltb→lt _ _ lt)) pos o.1 ap.1 ps.1,
  )
  | inr ge ↦ rw ge (attach-Ordered x p b (c ∷ xs) h k (omega (arith, ltb→le _ _ ge), o.1))
]

-- What holds of the blocks, and survives a merge, holds after the insertion.
module _ (P : Block → Type 0)
    (join : (b c : Block)
      → P b
      → P c
      → end_of b ≡ c.addr
      → P (block b.addr (b.size + c.size))) where
  pub glue-All : (b : Block) (xs : List Block) → P b → All P xs → All P (glue b xs)
  unfolding glue
  glue-All b [] h k = (h, tt)
  glue-All b (c ∷ xs) h k = elim (Bool-cases (end_of b == c.addr)) [
    | inl meet ↦ rw meet (join b c h k.0 (ground arith), k.1)
    | inr gap ↦ rw gap (h, k)
  ]

  attach-All : (p b : Block) (xs : List Block) → P p → P b → All P xs → All P (attach p b xs)
  unfolding attach
  attach-All p b xs hp h k = elim (Bool-cases (end_of p == b.addr)) [
    | inl meet ↦
        rw meet (glue-All (block p.addr (p.size + b.size)) xs (join p b hp h (ground arith)) k)
    | inr gap ↦ rw gap (hp, glue-All b xs h k)
  ]

  pub insert_after-All :
      (p b : Block) (xs : List Block) → P p → P b → All P xs → All P (insert_after p b xs)
  unfolding insert_after
  insert_after-All p b [] hp h k = attach-All p b [] hp h k
  insert_after-All p b (c ∷ xs) hp h k = elim (Bool-cases (ltb c.addr b.addr)) [
    | inl lt ↦ rw lt (hp, insert_after-All c b xs k.0 h k.1)
    | inr ge ↦ rw ge (attach-All p b (c ∷ xs) hp h k)
  ]

pub glue-total : (b : Block) (xs : List Block) → total (glue b xs) ≡ b.size + total xs
unfolding glue total
glue-total b [] = refl
glue-total b (c ∷ xs) = ground arith

attach-total : (p b : Block) (xs : List Block) → total (attach p b xs) ≡ p.size + b.size + total xs
unfolding attach total
attach-total p b xs =
    ground (arith, glue-total (block p.addr (p.size + b.size)) xs, glue-total b xs)

pub insert_after-total :
    (p b : Block) (xs : List Block) → total (insert_after p b xs) ≡ p.size + b.size + total xs
unfolding insert_after total
insert_after-total p b [] = attach-total p b []
insert_after-total p b (c ∷ xs) =
    ground (arith, attach-total p b (c ∷ xs), insert_after-total c b xs)
