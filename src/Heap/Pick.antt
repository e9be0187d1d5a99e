-- ===== src/Heap/Pick.antt =====
-- First fit on the abstract free list: what `pick` takes and what it leaves.
use so_bare_bones.Common.{
  ℕ, ◌+◌, ◌≤◌, ◌<◌, ◌≡◌, inl, inr, Option, none, some, List, [], ◌∷◌, leb, All, refl, arith,
  Bool-cases,
}
use so_bare_bones.Heap.Blocks.{Block, end_of, Ordered, Apart, pick, keep, total}

-- `b` is the first block of `xs` with at least `size` bytes, and `ys` are the others.
pub data Pick (size : ℕ) : List Block → Block → List Block → Type 0 where
  here : {c : Block} {xs : List Block} → size ≤ c.size → Pick size (c ∷ xs) c xs
  there :
      {c b : Block} {xs ys : List Block}
      → c.size < size
      → Pick size xs b ys
      → Pick size (c ∷ xs) b (c ∷ ys)

-- The two outcomes of the search.
pub data Picked (size : ℕ) (xs : List Block) : Option (Block × List Block) → Type 0 where
  nothing : All (λ c. c.size < size) xs → Picked size xs none
  found : (b : Block) (ys : List Block) → Pick size xs b ys → Picked size xs (some (b, ys))

Picked-keep :
    (size : ℕ) (c : Block) (xs : List Block) (o : Option (Block × List Block))
    → c.size < size
    → Picked size xs o
    → Picked size (c ∷ xs) (keep c o)
Picked-keep size c xs o h (nothing n) = nothing (h, n)
Picked-keep size c xs o h (found b ys d) = found b (c ∷ ys) (there h d)

pub pick-Picked : (size : ℕ) (xs : List Block) → Picked size xs (pick size xs)
unfolding pick
pick-Picked size [] = nothing tt
pick-Picked size (c ∷ xs) = elim (Bool-cases (leb size c.size)) [
  | inl fits ↦ rw fits (found c xs (here (ground arith)))
  | inr small ↦ rw small (Picked-keep size c xs _ (ground arith) (pick-Picked size xs))
]

pub Pick-All :
    {size : ℕ} {xs ys : List Block} {b : Block} (P : Block → Type 0)
    → Pick size xs b ys
    → All P xs
    → P b × All P ys
Pick-All P (here h) a = a
Pick-All P (there h d) a = let r = Pick-All P d a.1 in (r.0, (a.0, r.1))

pub Pick-le : {size : ℕ} {xs ys : List Block} {b : Block} → Pick size xs b ys → size ≤ b.size
Pick-le (here h) = h
Pick-le (there h d) = Pick-le d

pub Pick-total :
    {size : ℕ} {xs ys : List Block} {b : Block} → Pick size xs b ys → total xs ≡ b.size + total ys
unfolding total
Pick-total (here h) = refl
Pick-total (there h d) = omega (arith, Pick-total d)

weaken : {x y : ℕ} (xs : List Block) → x ≤ y → Ordered y xs → Ordered x xs
weaken [] h o = tt
weaken (c ∷ xs) h o = (omega arith, o.1)

pub Pick-Ordered :
    {size : ℕ} {xs ys : List Block} {b : Block} (x : ℕ)
    → Pick size xs b ys
    → Ordered x xs
    → Ordered x ys
Pick-Ordered x (here {c} {xs} h) o = weaken {y = end_of c} xs (omega arith) o.1
Pick-Ordered x (there {c} h d) o = (o.0, Pick-Ordered (end_of c) d o.1)

All-Apart-above :
    (b : Block) (x : ℕ) (xs : List Block) → end_of b ≤ x → Ordered x xs → All (Apart b) xs
All-Apart-above b x [] h o = tt
All-Apart-above b x (c ∷ xs) h o =
    (inl (omega arith), All-Apart-above b (end_of c) xs (omega arith) o.1)

-- The taken block lies above `x`, and apart from the blocks that are left.
pub Pick-Apart :
    {size : ℕ} {xs ys : List Block} {b : Block} (x : ℕ)
    → Pick size xs b ys
    → Ordered x xs
    → (x < b.addr) × All (Apart b) ys
Pick-Apart x (here {c} {xs} h) o = (o.0, All-Apart-above c (end_of c) xs (omega arith) o.1)
Pick-Apart x (there {c} h d) o =
    let r = Pick-Apart (end_of c) d o.1 in (omega arith, (inr (omega arith), r.1))
