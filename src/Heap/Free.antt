-- ===== src/Heap/Free.antt =====
-- `RTOSFree` of Kernel/memory/mem_man.c.
use mathlib.Core.Option
use so_bare_bones.Common.{
  ℕ, ◌+◌, ◌%◌, ◌^◌, ◌<◌, ◌≡◌, ◌≢◌, some, List, ◌∷◌, All, All-map, arith, ap, sym, ◌∙◌, subst, add64,
  sub64, false, true, ◌==◌, ◌/◌, ◌-◌,
}
use so_bare_bones.Heap.{
  Heap, rtos_free, release_block, set_size, add_block_to_free_list, heap_struct_size,
}
use so_bare_bones.Heap.Blocks.{
  Block, Apart, Fits, NotHead, NotHead-Apart, frame, total, insert_free,
}
use so_bare_bones.Heap.Insert.{update_self, update_ne}
use so_bare_bones.Heap.Splice.{
  Spliced, splice, insert_free-Ordered, insert_free-All, insert_free-total,
}
use so_bare_bones.Heap.Used.{
  Remove, Remove-All, Remove-total, Remove-AllApart, Fits-join, insert_free-Apart, headers-kept,
}
use so_bare_bones.Heap.Valid.{IsValid, heap_end, sentinel, used_header}

-- The pointer that the program holds for a block in use.
abbrev pub payload : Block → ℕ
payload u = u.addr + heap_struct_size

rtos_free-payload :
    (h : Heap) (u : Block) → Fits heap_end u → rtos_free h (payload u) ≡ release_block h u.addr
unfolding rtos_free
rtos_free-payload h u f =
    let ne : (payload u == 0) ≡ false = ground arith in
    let back : sub64 (payload u) heap_struct_size ≡ u.addr = omega (arith, f.high) in rw (ne, back)

release_block-used :
    (h : Heap) (u : Block)
    → h.allocated_bit ≡ 2 ^ 63
    → Fits heap_end u
    → h.mem u.addr ≡ used_header u
    → release_block h u.addr
      ≡ Option.map
          (λ m. record h { mem = m; free_bytes = add64 h.free_bytes u.size })
          (add_block_to_free_list (set_size h.mem u.addr u.size) h.start_at h.p_end u.addr)
unfolding release_block
release_block-used h u bit f hd =
    let small : (u.size + 2 ^ 63) / 2 ^ 63 % 2 ≡ 1 = omega (arith, f.high) in
    let cleared : u.size + 2 ^ 63 - 2 ^ 63 ≡ u.size = omega arith in
    let self : (u.addr == u.addr) ≡ true = ground arith in rw (hd, bit, small, cleared, self)

pub NotHead-end : (xs : List Block) → All (Fits heap_end) xs → NotHead heap_end xs
NotHead-end xs =
    All-map (Fits heap_end) (λ c. heap_end ≢ c.addr) (λ c f. omega (arith, f.nonempty, f.high)) xs

-- Once `u` is spliced back into the free list, the heap is valid without it among the used blocks.
module _ (h : Heap) (u : Block) (free used rest : List Block) (v : IsValid h free used)
    (r : Remove u used rest) (sp : Spliced (set_size h.mem u.addr u.size) h.start_at u free) where
  freed : Heap
  freed = record h { mem = sp.after; free_bytes = add64 h.free_bytes u.size }

  freed-same : (x : ℕ) → NotHead x (sentinel h.start_at ∷ free) → x ≢ u.addr → sp.after x ≡ h.mem x
  freed-same x n nb = sp.same x n nb ∙ update_ne h.mem u.addr _ x nb

  freed-IsValid : IsValid freed (insert_free u free) rest
  unfolding freed
  freed-IsValid =
      let fit = Remove-All (Fits heap_end) r v.used_fit in
      let hd = Remove-All (λ w. h.mem w.addr ≡ used_header w) r v.headers in
      let ax = Remove-All (λ w. All (Apart w) free) r v.free_used in
      let aa = Remove-AllApart r v.used_apart in
      let fu : Fits heap_end u = fit.0 in
      let sum : total (insert_free u free) ≡ u.size + total free = insert_free-total u free in
      let sum' : total used ≡ u.size + total rest = Remove-total r in
      let off_end : h.p_end ≢ u.addr = omega (arith, v.end_at, fu.nonempty, fu.high) in
      let marker_out : NotHead h.p_end (sentinel h.start_at ∷ free) = (
        omega (arith, v.end_at, v.start_low),
        subst (λ e. NotHead e free) (sym v.end_at) (NotHead-end free v.free_fit),
      ) in
      record {
        end_at = v.end_at;
        bit = v.bit;
        start_low = v.start_low;
        marker = freed-same h.p_end marker_out off_end ∙ v.marker;
        chain = sp.chain;
        ordered =
            insert_free-Ordered h.start_at u free (omega (arith, v.start_low, fu.low)) fu.nonempty
              v.ordered ax.0
              (All-map (Fits heap_end) (λ c. 0 < c.size) (λ c f. f.nonempty) free v.free_fit);
        free_fit = insert_free-All (Fits heap_end) (Fits-join heap_end) u free fu v.free_fit;
        used_fit = fit.1;
        headers =
            headers-kept h.mem sp.after h.start_at u free rest v.start_low
              (λ x n out. freed-same x n (omega (arith, fu.nonempty))) v.free_fit fit.1 aa.0 ax.1
              hd.1;
        free_used = insert_free-Apart u free rest fit.1 aa.0 ax.1;
        used_apart = aa.1;
        count = omega (arith, v.count, v.bytes, sum, sum');
        bytes = omega (arith, v.bytes, sum, sum');
      }

  freed-runs : rtos_free h (payload u) ≡ some freed
  unfolding freed
  freed-runs =
      let fu = (Remove-All (Fits heap_end) r v.used_fit).0 in
      let hd = (Remove-All (λ w. h.mem w.addr ≡ used_header w) r v.headers).0 in
      let m = set_size h.mem u.addr u.size in
      let runs : add_block_to_free_list m h.start_at h.p_end u.addr ≡ some sp.after =
        subst (λ e. add_block_to_free_list m h.start_at e u.addr ≡ some sp.after) (sym v.end_at)
          sp.runs in
      rtos_free-payload h u fu
      ∙ release_block-used h u v.bit fu hd
      ∙ ap (Option.map (λ m. record h { mem = m; free_bytes = add64 h.free_bytes u.size })) runs

-- The block of a valid heap that `RTOSFree` clears can be spliced back.
released-Spliced :
    (h : Heap) (u : Block) (free used rest : List Block)
    → IsValid h free used
    → Remove u used rest
    → Spliced (set_size h.mem u.addr u.size) h.start_at u free
released-Spliced h u free used rest v r =
    let fu = (Remove-All (Fits heap_end) r v.used_fit).0 in
    let apart = (Remove-All (λ w. All (Apart w) free) r v.free_used).0 in
    let m = set_size h.mem u.addr u.size in
    let out : NotHead u.addr (sentinel h.start_at ∷ free) = (
      omega (arith, v.start_low, fu.low),
      NotHead-Apart heap_end u free fu.nonempty apart v.free_fit,
    ) in
    let same : (x : ℕ) → x ≢ u.addr → m x ≡ h.mem x = λ x n. update_ne h.mem u.addr _ x n in
    splice m h.start_at u free v.start_low
      (frame h.mem m heap_end u.addr (sentinel h.start_at ∷ free) same out v.chain) v.ordered
      v.free_fit fu apart (ap (λ k. k.size) (update_self h.mem u.addr _))

-- `RTOSFree` on the pointer of a block in use returns; the block is back in the free list, at its
-- place and merged with its neighbours, and the heap is valid again.
pub rtos_free-IsValid :
    (h : Heap) (u : Block) (free used rest : List Block)
    → IsValid h free used
    → Remove u used rest
    → (h' : Heap) × (rtos_free h (payload u) ≡ some h') × IsValid h' (insert_free u free) rest
rtos_free-IsValid h u free used rest v r =
    let sp = released-Spliced h u free used rest v r in
    (
      freed h u free used rest v r sp,
      freed-runs h u free used rest v r sp,
      freed-IsValid h u free used rest v r sp,
    )
