-- ===== src/Heap/Blocks.antt =====
-- The abstract view of the free list of Kernel/memory/mem_man.c: blocks in order of address.
-- `insert_after` is what `addBlockToFreeList` does to them, `pick` and `carve` what `RTOSMalloc` does.
use so_bare_bones.Common.{
  ℕ, ◌+◌, ◌-◌, ◌*◌, ◌%◌, ◌≤◌, ◌<◌, ◌≡◌, ◌≢◌, ◌⊎◌, Option, none, some, List, [], ◌∷◌, ltb, leb, ◌==◌,
  if◌then◌else◌, All, length, sym, arith,
}
use so_bare_bones.Heap.{Memory, start_address, byte_alignment, minimum_block_size}

pub record Block : Type 0 where
  pub addr : ℕ
  pub size : ℕ

abbrev pub block : ℕ → ℕ → Block
block a s = record { addr = a; size = s }

abbrev pub end_of : Block → ℕ
end_of b = b.addr + b.size

abbrev pub first_addr : ℕ → List Block → ℕ
first_addr e [] = e
first_addr e (c ∷ xs) = c.addr

-- In memory `m` the blocks are linked by their headers, and the last one to `e`.
abbrev pub Chain : Memory → ℕ → List Block → Type 0
Chain m e [] = Unit
Chain m e (p ∷ xs) = ((m p.addr).size ≡ p.size) × ((m p.addr).next ≡ first_addr e xs) × Chain m e xs

-- The blocks lie above `x`, in order of address, with a gap between any two.
abbrev pub Ordered : ℕ → List Block → Type 0
Ordered x [] = Unit
Ordered x (c ∷ xs) = (x < c.addr) × Ordered (end_of c) xs

-- The same, but the first block may begin at `x`.
abbrev pub Above : ℕ → List Block → Type 0
Above x [] = Unit
Above x (c ∷ xs) = (x ≤ c.addr) × Ordered (end_of c) xs

abbrev pub Apart : Block → Block → Type 0
Apart b c = (end_of b ≤ c.addr) ⊎ (end_of c ≤ b.addr)

-- A block of the heap: aligned, not empty, and between the start of the heap and the end marker.
pub record Fits (e : ℕ) (b : Block) : Type 0 where
  pub low : start_address ≤ b.addr
  pub addr_aligned : b.addr % byte_alignment ≡ 0
  pub size_aligned : b.size % byte_alignment ≡ 0
  pub nonempty : 0 < b.size
  pub high : end_of b ≤ e

-- `a` is the address of none of the blocks.
abbrev pub NotHead : ℕ → List Block → Type 0
NotHead a = All (λ c. a ≢ c.addr)

unfoldable pub total : List Block → ℕ
total [] = 0
total (c ∷ xs) = c.size + total xs

-- `b` in front of `xs`, merged with their first block if that begins where `b` ends.
unfoldable pub glue : Block → List Block → List Block
glue b [] = b ∷ []
glue b (c ∷ xs) = if end_of b == c.addr then block b.addr (b.size + c.size) ∷ xs else b ∷ c ∷ xs

-- `b` between `p` and `xs`, merged with `p` if that ends where `b` begins.
unfoldable pub attach : Block → Block → List Block → List Block
attach p b xs =
    if end_of p == b.addr then glue (block p.addr (p.size + b.size)) xs else p ∷ glue b xs

-- `b` at its place by address in `p ∷ xs`.
unfoldable pub insert_after : Block → Block → List Block → List Block
insert_after p b [] = attach p b []
insert_after p b (c ∷ xs) =
    if ltb c.addr b.addr then p ∷ insert_after c b xs else attach p b (c ∷ xs)

-- `b` at its place in the free list.
unfoldable pub insert_free : Block → List Block → List Block
insert_free b [] = b ∷ []
insert_free b (c ∷ xs) = if ltb c.addr b.addr then insert_after c b xs else glue b (c ∷ xs)

abbrev pub keep : Block → Option (Block × List Block) → Option (Block × List Block)
keep c none = none
keep c (some (b, ys)) = some (b, c ∷ ys)

-- The first block of at least `size` bytes, and the others.
unfoldable pub pick : ℕ → List Block → Option (Block × List Block)
pick size [] = none
pick size (c ∷ xs) = if leb size c.size then some (c, xs) else keep c (pick size xs)

abbrev pub front : ℕ → Block → Block
front size c = block c.addr size

abbrev pub back : ℕ → Block → Block
back size c = block (c.addr + size) (c.size - size)

-- A block much larger than `size` keeps that much, and the rest is a free block again.
unfoldable pub carve : ℕ → Block → List Block → Block × List Block
carve size c xs =
    if ltb minimum_block_size (c.size - size)
    then (front size c, insert_free (back size c) xs)
    else (c, xs)

-- Fewer blocks than an aligned heap has room for.
pub length-Ordered :
    (x e : ℕ) (xs : List Block) → x ≤ e → Ordered x xs → All (Fits e) xs → 64 * length xs ≤ e - x
length-Ordered x e [] h o f = omega arith
length-Ordered x e (c ∷ xs) h o f =
    let g : Fits e c = f.0 in omega (arith, length-Ordered (end_of c) e xs g.high o.1 f.1)

-- A change at one address that is no block's leaves the chain alone.
pub frame :
    (m m' : Memory) (e a : ℕ) (xs : List Block)
    → ((x : ℕ) → x ≢ a → m' x ≡ m x)
    → NotHead a xs
    → Chain m e xs
    → Chain m' e xs
frame m m' e a [] same n ch = ch
frame m m' e a (c ∷ xs) same n ch =
    let eq : m' c.addr ≡ m c.addr = same c.addr (λ h. n.0 (sym h)) in
    (rw eq ch.0, rw eq ch.1, frame m m' e a xs same n.1 ch.2)

pub NotHead-below : (a x : ℕ) (xs : List Block) → a ≤ x → Ordered x xs → NotHead a xs
NotHead-below a x [] h o = tt
NotHead-below a x (c ∷ xs) h o = (omega arith, NotHead-below a (end_of c) xs (omega arith) o.1)

pub NotHead-Apart :
    (e : ℕ) (b : Block) (xs : List Block)
    → 0 < b.size
    → All (Apart b) xs
    → All (Fits e) xs
    → NotHead b.addr xs
NotHead-Apart e b [] pos ap f = tt
NotHead-Apart e b (c ∷ xs) pos ap f =
    let g = f.0 in (omega (arith, g.nonempty), NotHead-Apart e b xs pos ap.1 f.1)
