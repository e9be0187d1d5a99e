-- ===== src/Heap/Search.antt =====
-- The search loop of `RTOSMalloc`, Kernel/memory/mem_man.c, on a well-formed free list.
use so_bare_bones.Common.{
  ℕ, zero, suc, ◌<◌, ◌≡◌, ◌≢◌, some, List, [], ◌∷◌, All, length, arith, ap, ◌∙◌, ltb, not, ◌==◌,
  ◌&&◌, true, false,
}
use so_bare_bones.Heap.{Memory, find_fit, set_next}
use so_bare_bones.Heap.Blocks.{
  Block, end_of, first_addr, Chain, Ordered, Fits, NotHead, NotHead-below, frame,
}
use so_bare_bones.Heap.Insert.{update_self, update_ne}
use so_bare_bones.Heap.Pick.{Pick, here, there, Pick-Ordered}

find_fit-stop :
    (f : ℕ) (m : Memory) (size prev curr : ℕ)
    → (ltb (m curr).size size && not ((m curr).next == 0)) ≡ false
    → find_fit (suc f) m size prev curr ≡ some (prev, curr)
unfolding find_fit
find_fit-stop f m size prev curr h = rw h

find_fit-next :
    (f : ℕ) (m : Memory) (size prev curr : ℕ)
    → (ltb (m curr).size size && not ((m curr).next == 0)) ≡ true
    → find_fit (suc f) m size prev curr ≡ find_fit f m size curr (m curr).next
unfolding find_fit
find_fit-next f m size prev curr h = rw h

first_addr-pos : (e : ℕ) (xs : List Block) → 0 < e → All (Fits e) xs → 0 < first_addr e xs
first_addr-pos e [] h f = h
first_addr-pos e (c ∷ xs) h f = let g : Fits e c = f.0 in omega (arith, g.low)

pub Pick-size :
    {size : ℕ} {xs ys : List Block} {c : Block} (m : Memory) (e : ℕ)
    → Pick size xs c ys
    → Chain m e xs
    → (m c.addr).size ≡ c.size
Pick-size m e (here h) ch = ch.0
Pick-size m e (there h d) ch = Pick-size m e d ch.2

-- Where the loop stops when there is a fit: at the block that `Pick` takes, with the node in front
-- of it, from which the block can be unlinked.
pub record Fit (f : ℕ) (m : Memory) (e size : ℕ) (p : Block) (xs : List Block) (c : Block)
    (ys : List Block) : Type 0 where
  pub prev : ℕ
  pub found : find_fit f m size p.addr (first_addr e xs) ≡ some (prev, c.addr)
  pub next : (m prev).next ≡ c.addr
  pub chain : Chain (set_next m prev (m c.addr).next) e (p ∷ ys)
  pub out : (x : ℕ) → NotHead x (p ∷ ys) → x ≢ prev

pub Pick-Fit :
    {size : ℕ} {xs ys : List Block} {c : Block} (f : ℕ) (m : Memory) (e : ℕ) (p : Block)
    → Pick size xs c ys
    → 0 < e
    → length xs < f
    → Chain m e (p ∷ xs)
    → Ordered (end_of p) xs
    → All (Fits e) xs
    → Fit f m e size p xs c ys
Pick-Fit zero m e p d pos fu ch o fi = absurd (omega arith)
Pick-Fit {size} (suc f) m e p (here {c} {xs} le) pos fu ch o fi =
    let g : Fits e c = fi.0 in
    let next = (m c.addr).next in
    let below : NotHead p.addr xs = NotHead-below p.addr (end_of c) xs (omega arith) o.1 in
    record {
      prev = p.addr;
      found = find_fit-stop f m size p.addr c.addr (ground arith);
      next = ch.1;
      chain = (
        ap (λ h. h.size) (update_self m p.addr _) ∙ ch.0,
        ap (λ h. h.next) (update_self m p.addr _) ∙ ch.2.1,
        frame m (set_next m p.addr next) e p.addr xs
            (λ x h. update_ne m p.addr (record { next = next; size = (m p.addr).size }) x h) below
            ch.2.2,
      );
      out = λ x n. n.0;
    }
Pick-Fit {size} (suc f) m e p (there {c} {b} {xs} {ys} lt d) pos fu ch o fi =
    let g : Fits e c = fi.0 in
    let r = Pick-Fit f m e c d pos (omega arith) ch.2 o.1 fi.1 in
    let below : NotHead p.addr (c ∷ ys) = (
      omega arith,
      NotHead-below p.addr (end_of c) ys (omega arith) (Pick-Ordered (end_of c) d o.1),
    ) in
    let kept = update_ne m r.prev _ p.addr (r.out p.addr below) in
    record {
      prev = r.prev;
      found =
          find_fit-next f m size p.addr c.addr (ground (arith, first_addr-pos e xs pos fi.1))
          ∙ ap (find_fit f m size c.addr) ch.2.1
          ∙ r.found;
      next = r.next;
      chain = (ap (λ h. h.size) kept ∙ ch.0, ap (λ h. h.next) kept ∙ ch.1, r.chain);
      out = λ x n. r.out x n.1;
    }

-- Where it stops when no block is large enough: at the end marker.
pub find_fit-end :
    (f : ℕ) (m : Memory) (e size : ℕ) (p : Block) (xs : List Block)
    → length xs < f
    → 0 < e
    → 0 < size
    → m e ≡ record { next = 0; size = 0 }
    → Chain m e (p ∷ xs)
    → All (Fits e) xs
    → All (λ c. c.size < size) xs
    → (prev : ℕ) × (find_fit f m size p.addr (first_addr e xs) ≡ some (prev, e))
find_fit-end zero m e size p xs fu pe ps me ch fi sm = absurd (omega arith)
find_fit-end (suc f) m e size p [] fu pe ps me ch fi sm =
    (p.addr, find_fit-stop f m size p.addr e (rw me (ground arith)))
find_fit-end (suc f) m e size p (c ∷ xs) fu pe ps me ch fi sm =
    let (prev, found) = find_fit-end f m e size c xs (omega arith) pe ps me ch.2 fi.1 sm.1 in
    (
      prev,
      find_fit-next f m size p.addr c.addr (ground (arith, first_addr-pos e xs pe fi.1))
          ∙ ap (find_fit f m size c.addr) ch.2.1
          ∙ found,
    )
