-- ===== src/Heap/Place.antt =====
-- The loop of `addBlockToFreeList`, Kernel/memory/mem_man.c: the place of a block in the list.
use so_bare_bones.Common.{
  ℕ, zero, suc, ◌≤◌, ◌<◌, ◌≡◌, ◌≢◌, inl, inr, some, List, [], ◌∷◌, ltb, All, length, arith, ap, sym,
  subst, ◌∙◌, Bool-cases, ltb→lt, ltb→le, le→ltb, true, false,
}
use so_bare_bones.Heap.{Memory, find_before, link_block}
use so_bare_bones.Heap.Blocks.{
  Block, end_of, first_addr, Chain, Ordered, Apart, Fits, NotHead, insert_after, Above,
  NotHead-below,
}
use so_bare_bones.Heap.Insert.{link_block_same, link_block-attach, first_addr-insert_after}

find_before-next :
    (f : ℕ) (m : Memory) (p n b : ℕ)
    → (m p).next ≡ n
    → ltb n b ≡ true
    → find_before (suc f) m p b ≡ find_before f m n b
unfolding find_before
find_before-next f m p n b eq lt =
    subst (λ k. ltb k b ≡ true → find_before (suc f) m p b ≡ find_before f m k b) eq (λ l. rw l) lt

find_before-stop :
    (f : ℕ) (m : Memory) (p b : ℕ) → ltb (m p).next b ≡ false → find_before (suc f) m p b ≡ some p
unfolding find_before
find_before-stop f m p b ge = rw ge

-- What the loop finds in front of `b` when it starts at `p`, and what linking `b` there does.
pub record Placed (f : ℕ) (m : Memory) (e : ℕ) (b p : Block) (xs : List Block) : Type 0 where
  pub it : ℕ
  pub found : find_before f m p.addr b.addr ≡ some it
  pub chain : Chain (link_block m e it b.addr) e (insert_after p b xs)
  pub same : (x : ℕ) → NotHead x (p ∷ xs) → x ≢ b.addr → link_block m e it b.addr x ≡ m x

module _ (m : Memory) (e : ℕ) (b : Block) (small : e < 0x1000000) (sb : (m b.addr).size ≡ b.size)
    (pos : 0 < b.size) (be : end_of b ≤ e) where
  Placed-next :
      (f : ℕ) (p c : Block) (xs : List Block)
      → Chain m e (p ∷ c ∷ xs)
      → Ordered (end_of p) (c ∷ xs)
      → p.addr < b.addr
      → ltb c.addr b.addr ≡ true
      → Placed f m e b c xs
      → Placed (suc f) m e b p (c ∷ xs)
  unfolding insert_after
  Placed-next f p c xs ch o ne lt r =
      let out = NotHead-below p.addr (end_of p) (c ∷ xs) (omega arith) o in
      let kept : link_block m e r.it b.addr p.addr ≡ m p.addr = r.same p.addr out (omega arith) in
      record {
        it = r.it;
        found = find_before-next f m p.addr c.addr b.addr ch.1 lt ∙ r.found;
        chain = rw lt (
          ap (λ h. h.size) kept ∙ ch.0,
          ap (λ h. h.next) kept ∙ ch.1 ∙ sym (first_addr-insert_after e c b xs),
          r.chain,
        );
        same = λ x n nb. r.same x n.1 nb;
      }

  Placed-here :
      (f : ℕ) (p : Block) (xs : List Block)
      → Chain m e (p ∷ xs)
      → ltb (first_addr e xs) b.addr ≡ false
      → Chain (link_block m e p.addr b.addr) e (insert_after p b xs)
      → Placed (suc f) m e b p xs
  Placed-here f p xs ch ge linked = record {
    it = p.addr;
    found = find_before-stop f m p.addr b.addr (rw ch.1 ge);
    chain = linked;
    same = λ x n nb. link_block_same m e p.addr b.addr x n.0 nb;
  }

  -- The loop stops in front of the place of `b`, and `b` is linked there.
  pub insert_after-Placed :
      (f : ℕ) (p : Block) (xs : List Block)
      → length xs < f
      → Chain m e (p ∷ xs)
      → Ordered (end_of p) xs
      → end_of p ≤ b.addr
      → p.addr < b.addr
      → All (Fits e) xs
      → All (Apart b) xs
      → Placed f m e b p xs
  unfolding insert_after
  insert_after-Placed zero p xs fu ch o pb ne fi apt = absurd (omega arith)
  insert_after-Placed (suc f) p [] fu ch o pb ne fi apt =
      Placed-here f p [] ch (le→ltb _ _ (omega arith))
        (link_block-attach m e p b [] small ch sb pb ne pos tt fi be)
  insert_after-Placed (suc f) p (c ∷ xs) fu ch o pb ne fi apt =
      elim (Bool-cases (ltb c.addr b.addr)) [
        | inl lt ↦
            let cb : c.addr < b.addr = ltb→lt _ _ lt in
            Placed-next f p c xs ch o ne lt
              (insert_after-Placed f c xs (omega arith) ch.2 o.1 (omega arith) cb fi.1 apt.1)
        | inr ge ↦
            let bc : b.addr ≤ c.addr = ltb→le _ _ ge in
            let above : Above (end_of b) (c ∷ xs) = (omega arith, o.1) in
            Placed-here f p (c ∷ xs) ch ge
              (rw ge (link_block-attach m e p b (c ∷ xs) small ch sb pb ne pos above fi be))
      ]
