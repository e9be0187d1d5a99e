-- ===== src/Heap/Undo.antt =====
-- Freeing undoes allocating, in Kernel/memory/mem_man.c: the free list is as it was before.
use so_bare_bones.Common.{
  ℕ, ◌+◌, ◌-◌, ◌≤◌, ◌<◌, ◌≡◌, List, [], ◌∷◌, refl, arith, ap, ◌∙◌, ltb, true, false, Bool-cases,
  inl, inr, ◌==◌,
}
use so_bare_bones.Heap.{minimum_block_size}
use so_bare_bones.Heap.Blocks.{Block, block, end_of, Ordered, insert_free, glue, front, back, carve}
use so_bare_bones.Heap.Pick.{Pick, here, there, Pick-Apart}
use so_bare_bones.Heap.Splice.{insert_after-insert_free}

-- In front of a list that lies above it with a gap, a block is only put.
insert_free-front :
    (b : Block) (xs : List Block) → Ordered (end_of b) xs → insert_free b xs ≡ b ∷ xs
unfolding insert_free glue
insert_free-front b [] o = refl
insert_free-front b (c ∷ xs) o = ground arith

insert_free-behind :
    (p b : Block) (xs : List Block)
    → end_of p < b.addr
    → insert_free b (p ∷ xs) ≡ p ∷ insert_free b xs
unfolding insert_free
insert_free-behind p b xs h =
    let lt : ltb p.addr b.addr ≡ true = ground arith in rw lt (insert_after-insert_free p b xs h)

insert_free-meet :
    (a s t : ℕ) (xs : List Block)
    → insert_free (block a s) (block (a + s) t ∷ xs) ≡ block a (s + t) ∷ xs
unfolding insert_free glue
insert_free-meet a s t xs =
    let ge : ltb (a + s) a ≡ false = ground arith in
    let meet : (a + s == a + s) ≡ true = ground arith in rw (ge, meet)

undo-whole :
    {size : ℕ} {xs ys : List Block} {c : Block} (x : ℕ)
    → Pick size xs c ys
    → Ordered x xs
    → insert_free c ys ≡ xs
undo-whole x (here {c} {xs} h) o = insert_free-front c xs o.1
undo-whole x (there {c} {b} {xs} {ys} h d) o =
    let above = (Pick-Apart (end_of c) d o.1).0 in
    insert_free-behind c b ys above ∙ ap (λ l. c ∷ l) (undo-whole (end_of c) d o.1)

back-above :
    (size x : ℕ) (c : Block) (xs : List Block)
    → size ≤ c.size
    → Ordered (end_of c) xs
    → Ordered (end_of (back size c)) xs
back-above size x c [] le o = tt
back-above size x c (d ∷ xs) le o = (omega arith, o.1)

undo-split :
    {size : ℕ} {xs ys : List Block} {c : Block} (x : ℕ)
    → Pick size xs c ys
    → Ordered x xs
    → insert_free (front size c) (insert_free (back size c) ys) ≡ xs
undo-split {size} x (here {c} {xs} h) o =
    let whole : size + (c.size - size) ≡ c.size = omega arith in
    ap (insert_free (front size c))
      (insert_free-front (back size c) xs (back-above size x c xs h o.1))
    ∙ insert_free-meet c.addr size (c.size - size) xs
    ∙ ap (λ s. block c.addr s ∷ xs) whole
undo-split {size} x (there {c} {b} {xs} {ys} h d) o =
    let above = (Pick-Apart (end_of c) d o.1).0 in
    ap (insert_free (front size b)) (insert_free-behind c (back size b) ys (omega arith))
    ∙ insert_free-behind c (front size b) (insert_free (back size b) ys) above
    ∙ ap (λ l. c ∷ l) (undo-split (end_of c) d o.1)

-- Putting back what `carve` took off the first fitting block gives the list that was there.
pub insert_free-carve :
    {size : ℕ} {xs ys : List Block} {c : Block} (x : ℕ)
    → Pick size xs c ys
    → Ordered x xs
    → insert_free (carve size c ys).0 (carve size c ys).1 ≡ xs
unfolding carve
insert_free-carve {size} {c} x d o = elim (Bool-cases (ltb minimum_block_size (c.size - size))) [
  | inl big ↦ rw big (undo-split x d o)
  | inr small ↦ rw small (undo-whole x d o)
]
