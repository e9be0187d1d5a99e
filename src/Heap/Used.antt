-- ===== src/Heap/Used.antt =====
-- Blocks in use of Kernel/memory/mem_man.c: taking one out of their list, and what a change of the
-- free list leaves alone.
use so_bare_bones.Common.{ℕ, ◌+◌, ◌≤◌, ◌<◌, ◌≡◌, ◌⊎◌, List, [], ◌∷◌, All, All-map, refl, arith, ◌∙◌}
use so_bare_bones.Heap.{Memory, start_address}
use so_bare_bones.Heap.Blocks.{
  Block, block, end_of, Apart, Fits, NotHead, NotHead-Apart, total, insert_free,
}
use so_bare_bones.Heap.Splice.{insert_free-All}
use so_bare_bones.Heap.Valid.{AllApart, heap_end, sentinel, used_header}

-- `used` is `u` somewhere among `rest`.
pub data Remove (u : Block) : List Block → List Block → Type 0 where
  here : {us : List Block} → Remove u (u ∷ us) us
  there : {w : Block} {us vs : List Block} → Remove u us vs → Remove u (w ∷ us) (w ∷ vs)

module _ {u : Block} where
  pub Remove-All :
      {us vs : List Block} (P : Block → Type 0) → Remove u us vs → All P us → P u × All P vs
  Remove-All P here a = a
  Remove-All P (there r) a = let q = Remove-All P r a.1 in (q.0, (a.0, q.1))

  pub Remove-total : {us vs : List Block} → Remove u us vs → total us ≡ u.size + total vs
  unfolding total
  Remove-total here = refl
  Remove-total (there r) = omega (arith, Remove-total r)

  pub Remove-AllApart :
      {us vs : List Block} → Remove u us vs → AllApart us → All (λ w. Apart w u) vs × AllApart vs
  Remove-AllApart (here {us}) a =
      (All-map (Apart u) (λ w. Apart w u) (λ w h. omega arith) us a.0, a.1)
  Remove-AllApart (there {w} {us} r) a =
      let q = Remove-AllApart r a.1 in
      let s = Remove-All (Apart w) r a.0 in ((s.0, q.0), (s.1, q.1))

pub Fits-join :
    (e : ℕ) (b c : Block)
    → Fits e b
    → Fits e c
    → end_of b ≡ c.addr
    → Fits e (block b.addr (b.size + c.size))
Fits-join e b c f g h =
    omega (arith, f.low, f.addr_aligned, f.size_aligned, f.nonempty, g.size_aligned, g.high)

pub Apart-join :
    (w b c : Block)
    → 0 < w.size
    → Apart w b
    → Apart w c
    → end_of b ≡ c.addr
    → Apart w (block b.addr (b.size + c.size))
Apart-join w b c pos h k eq = omega arith

-- Every block in use stays apart from the free list when a block apart from it is inserted.
pub insert_free-Apart :
    (b : Block) (xs us : List Block)
    → All (Fits heap_end) us
    → All (λ w. Apart w b) us
    → All (λ w. All (Apart w) xs) us
    → All (λ w. All (Apart w) (insert_free b xs)) us
insert_free-Apart b xs [] fits ab ax = tt
insert_free-Apart b xs (w ∷ us) fits ab ax =
    let f : Fits heap_end w = fits.0 in
    (
      insert_free-All (Apart w) (λ c d. Apart-join w c d f.nonempty) b xs ab.0 ax.0,
      insert_free-Apart b xs us fits.1 ab.1 ax.1,
    )

-- The headers of the blocks in use stay as they are when memory changes at most in the headers of
-- `start` and of the free list, and inside a block `b`.
pub headers-kept :
    (m m' : Memory) (start : ℕ) (b : Block) (xs us : List Block)
    → start < start_address
    → ((x : ℕ) → NotHead x (sentinel start ∷ xs) → (x < b.addr) ⊎ (end_of b ≤ x) → m' x ≡ m x)
    → All (Fits heap_end) xs
    → All (Fits heap_end) us
    → All (λ w. Apart w b) us
    → All (λ w. All (Apart w) xs) us
    → All (λ w. m w.addr ≡ used_header w) us
    → All (λ w. m' w.addr ≡ used_header w) us
headers-kept m m' start b xs [] low same fx fu ab ax hs = tt
headers-kept m m' start b xs (w ∷ us) low same fx fu ab ax hs =
    let f : Fits heap_end w = fu.0 in
    let out = NotHead-Apart heap_end w xs f.nonempty ax.0 fx in
    (
      same w.addr (omega (arith, f.low), out) (omega (arith, f.nonempty)) ∙ hs.0,
      headers-kept m m' start b xs us low same fx fu.1 ab.1 ax.1 hs.1,
    )
