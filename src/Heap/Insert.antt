-- ===== src/Heap/Insert.antt =====
-- Behind the loop of `addBlockToFreeList`, Kernel/memory/mem_man.c: linking and merging a block.
use so_bare_bones.Common.{
  ℕ, ◌+◌, ◌≤◌, ◌<◌, ◌≡◌, ◌≢◌, inl, inr, List, [], ◌∷◌, ◌==◌, if◌then◌else◌, All, refl, arith, ap,
  sym, subst, ◌∙◌, add64, Bool-cases, Bool, true, false,
}
use so_bare_bones.Heap.{
  Header, Memory, update, set_size, set_next, merge_left, merge_right, link_block,
}
use so_bare_bones.Heap.Order.{glue-Ordered}
use so_bare_bones.Heap.Blocks.{
  Block, block, end_of, first_addr, Chain, Ordered, Fits, glue, attach, insert_after, frame, Above,
  NotHead-below,
}

Above-subst : (x y : ℕ) (xs : List Block) → x ≡ y → Above x xs → Above y xs
Above-subst x y [] h a = a
Above-subst x y (c ∷ xs) h a = (omega arith, a.1)

Above-Ordered : {x y : ℕ} (xs : List Block) → x < y → Above y xs → Ordered x xs
Above-Ordered [] h a = tt
Above-Ordered (c ∷ xs) h a = (omega arith, a.1)

pub update_self : (m : Memory) (a : ℕ) (h : Header) → update m a h a ≡ h
update_self m a h = ground arith

pub update_ne : (m : Memory) (a : ℕ) (h : Header) (x : ℕ) → x ≢ a → update m a h x ≡ m x
update_ne m a h x ne = ground arith

pub set_size_ne : (m : Memory) (a s x : ℕ) → x ≢ a → set_size m a s x ≡ m x
set_size_ne m a s x ne = update_ne m a (record { next = (m a).next; size = s }) x ne

pub set_size_self : (m : Memory) (a s : ℕ) → (set_size m a s a).size ≡ s
set_size_self m a s = ap (λ h. h.size) (update_self m a (record { next = (m a).next; size = s }))

pub set_next_ne : (m : Memory) (a n x : ℕ) → x ≢ a → set_next m a n x ≡ m x
set_next_ne m a n x ne = update_ne m a (record { next = n; size = (m a).size }) x ne

merge_right_same : (m : Memory) (e it a x : ℕ) → x ≢ a → merge_right m e it a x ≡ m x
unfolding merge_right
merge_right_same m e it a x ne = ground arith

-- The right half of the insertion, at a block `b` whose successor is the iterator's.
merge_right-glue :
    (m : Memory) (e it : ℕ) (b : Block) (xs : List Block)
    → e < 0x1000000
    → Chain m e xs
    → 0 < b.size
    → Above (end_of b) xs
    → All (Fits e) xs
    → (m b.addr).size ≡ b.size
    → (m it).next ≡ first_addr e xs
    → end_of b ≤ e
    → Chain (merge_right m e it b.addr) e (glue b xs)
unfolding merge_right glue
merge_right-glue m e it b [] small ch pos o f sb nx le = ground arith
merge_right-glue m e it b (c ∷ xs) small ch pos o f sb nx le =
    let g = f.0 in
    let same = merge_right_same m e it b.addr in
    let n = NotHead-below b.addr b.addr (c ∷ xs) (omega arith) (omega arith, o.1) in
    elim (Bool-cases (end_of b == c.addr)) [
      | inl meet ↦ rw meet (ground arith, ground arith, frame m _ e b.addr xs same n.1 ch.2)
      | inr gap ↦ rw gap (ground arith, ground arith, frame m _ e b.addr (c ∷ xs) same n ch)
    ]

first_addr-glue : (e : ℕ) (b : Block) (xs : List Block) → first_addr e (glue b xs) ≡ b.addr
unfolding glue
first_addr-glue e b [] = refl
first_addr-glue e b (c ∷ xs) = ground arith

module _ (m : Memory) (e : ℕ) (p b : Block) (xs : List Block) (small : e < 0x1000000)
    (ch : Chain m e (p ∷ xs)) (sb : (m b.addr).size ≡ b.size) (pb : end_of p ≤ b.addr)
    (ne : p.addr < b.addr) (pos : 0 < b.size) (ab : Above (end_of b) xs) (f : All (Fits e) xs)
    (be : end_of b ≤ e) where
  link_block-meet :
      end_of p ≡ b.addr
      → link_block m e p.addr b.addr
        ≡ merge_right (set_size m p.addr (p.size + b.size)) e p.addr p.addr
  unfolding link_block merge_left
  link_block-meet eq = ground arith

  link_block-gap :
      end_of p ≢ b.addr
      → link_block m e p.addr b.addr ≡ set_next (merge_right m e p.addr b.addr) p.addr b.addr
  unfolding link_block merge_left
  link_block-gap apart = ground arith

  link_block-glue :
      end_of p ≡ b.addr
      → Chain (link_block m e p.addr b.addr) e (glue (block p.addr (p.size + b.size)) xs)
  link_block-glue meet =
      let above = Above-subst (end_of b) (p.addr + (p.size + b.size)) xs (omega arith) ab in
      let below =
        NotHead-below p.addr p.addr xs (omega arith)
          (Above-Ordered {x = p.addr} {y = end_of b} xs (omega arith) ab) in
      rw (link_block-meet meet) (
        merge_right-glue (set_size m p.addr (p.size + b.size)) e p.addr
          (block p.addr (p.size + b.size)) xs small
          (frame m (set_size m p.addr (p.size + b.size)) e p.addr xs
            (λ x h.
              update_ne m p.addr (record { next = (m p.addr).next; size = p.size + b.size }) x h)
            below ch.2)
          (omega arith) above f (ground arith) (ground arith) (ground arith))

  link_block-cons : end_of p ≢ b.addr → Chain (link_block m e p.addr b.addr) e (p ∷ glue b xs)
  link_block-cons apart =
      let m' = merge_right m e p.addr b.addr in
      let same : m' p.addr ≡ m p.addr = merge_right_same m e p.addr b.addr p.addr (omega arith) in
      let below =
        NotHead-below p.addr p.addr (glue b xs) (omega arith) (glue-Ordered p.addr b xs ne ab) in
      subst (λ g. Chain g e (p ∷ glue b xs)) (sym (link_block-gap apart))
        (
          ap (λ h. h.size) (update_self m' p.addr _ ∙ refl) ∙ ap (λ h. h.size) same ∙ ch.0,
          ap (λ h. h.next) (update_self m' p.addr _) ∙ sym (first_addr-glue e b xs),
          frame m' (set_next m' p.addr b.addr) e p.addr (glue b xs)
              (λ x h. update_ne m' p.addr (record { next = b.addr; size = (m' p.addr).size }) x h)
              below (merge_right-glue m e p.addr b xs small ch.2 pos ab f sb ch.1 be),
        )

  -- Linking `b` behind `p` in memory is attaching it in the list.
  pub link_block-attach : Chain (link_block m e p.addr b.addr) e (attach p b xs)
  unfolding attach
  link_block-attach = elim (Bool-cases (end_of p == b.addr)) [
    | inl meet ↦ rw meet (link_block-glue (ground arith))
    | inr gap ↦ rw gap (link_block-cons (ground arith))
  ]

pub link_block_same : (m : Memory) (e it a x : ℕ) → x ≢ it → x ≢ a → link_block m e it a x ≡ m x
unfolding link_block merge_left
link_block_same m e it a x ni na = elim (Bool-cases (add64 it (m it).size == a)) [
  | inl meet ↦ rw meet (rw (self it) (merge_right_same _ e it it x ni ∙ update_ne m it _ x ni))
  | inr gap ↦ rw gap (apart (it == a))
]
  where
    self : (n : ℕ) → (n == n) ≡ true
    self n = ground arith

    apart :
        (t : Bool)
        → (if t then merge_right m e it a else set_next (merge_right m e it a) it a) x ≡ m x
    apart true = merge_right_same m e it a x na
    apart false =
        update_ne (merge_right m e it a) it
          (record { next = a; size = (merge_right m e it a it).size }) x ni
        ∙ merge_right_same m e it a x na

pub first_addr-insert_after :
    (e : ℕ) (p b : Block) (xs : List Block) → first_addr e (insert_after p b xs) ≡ p.addr
unfolding insert_after attach
first_addr-insert_after e p b [] =
    ground (arith, first_addr-glue e (block p.addr (p.size + b.size)) [])
first_addr-insert_after e p b (c ∷ xs) =
    ground (arith, first_addr-glue e (block p.addr (p.size + b.size)) (c ∷ xs))
