-- ===== src/Heap/Malloc.antt =====
-- `RTOSMalloc` of Kernel/memory/mem_man.c against first fit on the abstract free list.
use mathlib.Core.Option
use so_bare_bones.Common.{
  ℕ, ◌+◌, ◌/◌, ◌%◌, ◌^◌, ◌≤◌, ◌<◌, ◌≡◌, ◌⊎◌, inl, inr, some, List, ◌∷◌, All, All-map, refl, arith,
  ap, sym, ◌∙◌, subst, ltb, leb, ◌==◌, ◌&&◌, true, false, sub64, add64, Bool-cases,
}
use so_bare_bones.Heap.{
  Heap, Memory, malloc_rounded, take_block, mark_block, set_next, heap_struct_size, max_rounds,
  set_bit,
}
use so_bare_bones.Heap.Blocks.{
  Block, end_of, Chain, Ordered, Apart, Fits, NotHead, NotHead-Apart, frame, total, carve,
}
use so_bare_bones.Heap.Insert.{update_self, update_ne, set_next_ne}
use so_bare_bones.Heap.Pick.{Pick, Pick-All, Pick-le, Pick-total, Pick-Ordered, Pick-Apart}
use so_bare_bones.Heap.Search.{Fit, Pick-Fit, Pick-size, find_fit-end}
use so_bare_bones.Heap.Split.{Taken, split_block-Taken}
use so_bare_bones.Heap.Carve.{Carved, carve-Carved}
use so_bare_bones.Heap.Used.{headers-kept}
use so_bare_bones.Heap.Valid.{IsValid, heap_end, sentinel, used_header, length-free}
use so_bare_bones.Heap.Free.{payload, NotHead-end}

-- A valid heap whose first fitting block is `c`.
module _ (h : Heap) (free used : List Block) (v : IsValid h free used) (size : ℕ) (c : Block)
    (ys : List Block) (d : Pick size free c ys) (pos : 0 < size) (al : size % 64 ≡ 0) where
  fit : Fit max_rounds h.mem heap_end size (sentinel h.start_at) free c ys
  fit =
      let base : h.start_at ≡ h.start_at + 0 = omega arith in
      Pick-Fit max_rounds h.mem heap_end (sentinel h.start_at) d (omega arith)
        (omega (arith, length-free heap_end h.start_at free refl v.ordered v.free_fit)) v.chain
        (subst (λ k. Ordered k free) base v.ordered) v.free_fit

  Fits-rest : Fits heap_end c × All (Fits heap_end) ys
  Fits-rest = Pick-All (Fits heap_end) d v.free_fit

  above-Apart : (h.start_at < c.addr) × All (Apart c) ys
  above-Apart = Pick-Apart h.start_at d v.ordered

  not_head : NotHead c.addr (sentinel h.start_at ∷ ys)
  not_head =
      let fc = Fits-rest.0 in
      (
        omega (arith, v.start_low, fc.low),
        NotHead-Apart heap_end c ys fc.nonempty above-Apart.1 Fits-rest.1,
      )

  unlinked : Memory
  unlinked = set_next h.mem fit.prev (h.mem c.addr).next

  unlinked-same : (x : ℕ) → NotHead x (sentinel h.start_at ∷ ys) → unlinked x ≡ h.mem x
  unfolding unlinked
  unlinked-same x n = set_next_ne h.mem fit.prev (h.mem c.addr).next x (fit.out x n)

  taken : Taken h size c ys unlinked
  unfolding unlinked
  taken =
      split_block-Taken h size c ys unlinked v.end_at v.start_low fit.chain
        (ap (λ k. k.size) (unlinked-same c.addr not_head) ∙ Pick-size h.mem heap_end d v.chain.2)
        (Pick-Ordered h.start_at d v.ordered) Fits-rest.1 Fits-rest.0 above-Apart.1 (Pick-le d) pos
        al

  carved : Carved h.start_at size c ys (carve size c ys)
  carved =
      carve-Carved h.start_at size c ys above-Apart.0 Fits-rest.0 Fits-rest.1
        (Pick-Ordered h.start_at d v.ordered) above-Apart.1 (Pick-le d) pos al

  allocated : Heap
  allocated = mark_block h c.addr taken.after

  take_block-runs : take_block h size fit.prev c.addr ≡ some (allocated, payload c)
  unfolding take_block allocated unlinked
  take_block-runs =
      let fc = Fits-rest.0 in
      let away : (c.addr == h.p_end) ≡ false = ground (arith, v.end_at, fc.nonempty, fc.high) in
      let ret : add64 (h.mem fit.prev).next heap_struct_size ≡ payload c =
        omega (arith, fit.next, fc.high) in
      rw (away, ret, taken.runs)

  others : All (λ w. Apart w c) used × All (λ w. All (Apart w) ys) used
  others =
      let split = λ (w : Block) (a : All (Apart w) free). Pick-All (Apart w) d a in
      (
        All-map (λ w. All (Apart w) free) (λ w. Apart w c) (λ w a. (split w a).0) used v.free_used,
        All-map (λ w. All (Apart w) free) (λ w. All (Apart w) ys) (λ w a. (split w a).1) used
            v.free_used,
      )

  allocated-same :
      (x : ℕ)
      → NotHead x (sentinel h.start_at ∷ ys)
      → (x < c.addr) ⊎ (end_of c ≤ x)
      → allocated.mem x ≡ h.mem x
  unfolding allocated mark_block
  allocated-same x n out =
      update_ne taken.after c.addr _ x (omega (arith, Fits-rest.0.nonempty))
      ∙ taken.same x n out
      ∙ unlinked-same x n

  allocated-header : allocated.mem c.addr ≡ used_header (carve size c ys).0
  unfolding allocated mark_block
  allocated-header =
      let b = (carve size c ys).0 in
      let fb : Fits heap_end b = carved.fits in
      let small : b.size / 2 ^ 63 % 2 ≡ 0 = omega (arith, fb.high) in
      let marked : set_bit h.allocated_bit b.size ≡ b.size + 2 ^ 63 = rw (v.bit, small) in
      update_self taken.after c.addr _
      ∙ ap (λ s. record { next = 0; size = set_bit h.allocated_bit s }) taken.own
      ∙ ap (λ s. record { next = 0; size = s }) marked

  allocated-bytes : allocated.free_bytes ≡ total (carve size c ys).1
  unfolding allocated mark_block
  allocated-bytes =
      ap (sub64 h.free_bytes) taken.own ∙ omega (arith, v.count, v.bytes, carved.sum, Pick-total d)

  allocated-Chain : Chain allocated.mem heap_end (sentinel h.start_at ∷ (carve size c ys).1)
  unfolding allocated mark_block
  allocated-Chain =
      let b = (carve size c ys).0 in
      let F = (carve size c ys).1 in
      let fb : Fits heap_end b = carved.fits in
      let out_b = NotHead-Apart heap_end b F fb.nonempty carved.apart carved.free_fit in
      let out : NotHead c.addr (sentinel h.start_at ∷ F) =
        (not_head.0, subst (λ a. NotHead a F) carved.addr out_b) in
      frame taken.after allocated.mem heap_end c.addr (sentinel h.start_at ∷ F)
        (update_ne taken.after c.addr _) out taken.chain

  allocated-marker : allocated.mem h.p_end ≡ record { next = 0; size = 0 }
  allocated-marker =
      let fc = Fits-rest.0 in
      let out : NotHead h.p_end (sentinel h.start_at ∷ ys) = (
        omega (arith, v.end_at, v.start_low),
        subst (λ e. NotHead e ys) (sym v.end_at) (NotHead-end ys Fits-rest.1),
      ) in
      allocated-same h.p_end out (inr (omega (arith, v.end_at, fc.high))) ∙ v.marker

  -- The taken block is in use, what is carved off it is free again, and nothing else changes.
  allocated-IsValid : IsValid allocated (carve size c ys).1 ((carve size c ys).0 ∷ used)
  unfolding allocated mark_block total
  allocated-IsValid =
      let b = (carve size c ys).0 in
      let apart = carved.others_block used others.0 in
      record {
        end_at = v.end_at;
        bit = v.bit;
        start_low = v.start_low;
        marker = allocated-marker;
        chain = allocated-Chain;
        ordered = carved.ordered;
        free_fit = carved.free_fit;
        used_fit = (carved.fits, v.used_fit);
        headers = (
          subst (λ a. allocated.mem a ≡ used_header b) (sym carved.addr) allocated-header,
          headers-kept h.mem allocated.mem h.start_at c ys used v.start_low allocated-same
              Fits-rest.1 v.used_fit others.0 others.1 v.headers,
        );
        free_used = (carved.apart, carved.others_free used v.used_fit others.0 others.1);
        used_apart =
            (All-map (λ w. Apart w b) (Apart b) (λ w a. omega arith) used apart, v.used_apart);
        count = allocated-bytes;
        bytes = omega (arith, v.bytes, carved.sum, Pick-total d);
      }

-- With a block `c` that fits, the search takes `c`.
pub malloc_rounded-Pick :
    (h : Heap) (free used : List Block) (v : IsValid h free used) (size : ℕ) (c : Block)
    (ys : List Block) (d : Pick size free c ys)
    → 0 < size
    → size % 64 ≡ 0
    → (h' : Heap) × (malloc_rounded h size ≡ some (h', payload (carve size c ys).0))
      × IsValid h' (carve size c ys).1 ((carve size c ys).0 ∷ used)
unfolding malloc_rounded Option.bind
malloc_rounded-Pick h free used v size c ys d pos al =
    let ft = fit h free used v size c ys d pos al in
    let le : size ≤ h.free_bytes = omega (arith, v.count, Pick-total d, Pick-le d) in
    let guard : (ltb 0 size && leb size h.free_bytes) ≡ true = ground arith in
    let same : payload c ≡ payload (carve size c ys).0 =
      omega (arith, (carved h free used v size c ys d pos al).addr) in
    (
      allocated h free used v size c ys d pos al,
      rw (guard, v.chain.1, ft.found) (take_block-runs h free used v size c ys d pos al)
          ∙ ap (λ p. some (allocated h free used v size c ys d pos al, p)) same,
      allocated-IsValid h free used v size c ys d pos al,
    )

-- With no block that fits, `RTOSMalloc` returns NULL and changes nothing.
pub malloc_rounded-null :
    (h : Heap) (free used : List Block)
    → IsValid h free used
    → (size : ℕ) → All (λ c. c.size < size) free
    → malloc_rounded h size ≡ some (h, 0)
unfolding malloc_rounded Option.bind take_block
malloc_rounded-null h free used v size small =
    elim (Bool-cases (ltb 0 size && leb size h.free_bytes)) [
      | inl guard ↦
          let me = subst (λ e. h.mem e ≡ record { next = 0; size = 0 }) v.end_at v.marker in
          let at_end =
            find_fit-end max_rounds h.mem heap_end size (sentinel h.start_at) free
              (omega (arith, length-free heap_end h.start_at free refl v.ordered v.free_fit))
              (omega arith) (ground arith) me v.chain v.free_fit small in
          let self : (heap_end == h.p_end) ≡ true = ground (arith, v.end_at) in
          rw (guard, v.chain.1, at_end.1, self)
      | inr guard ↦ rw guard
    ]
