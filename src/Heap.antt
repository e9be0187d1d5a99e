-- ===== src/Heap.antt =====
-- The kernel's allocator, Kernel/memory/mem_man.c with the constants of mem_man.h.
--
-- Memory is a function from addresses to the `header` struct stored there; every pointer of the
-- code is a number. The static `start` is the header at `start_at`, an address that the linker
-- chooses; the other static variables are fields of `Heap`. Both loops run on `max_rounds` units of
-- fuel, and `none` means that the fuel ran out.
pub mod Blocks
pub mod Carve
pub mod Client
pub mod Contract
pub mod Free
pub mod Init
pub mod Insert
pub mod Malloc
pub mod Order
pub mod Pick
pub mod Place
pub mod Request
pub mod Search
pub mod Splice
pub mod Split
pub mod Tests
pub mod Undo
pub mod Used
pub mod Valid
pub mod Whole
use mathlib.Core.Option
use so_bare_bones.Common.{
  ℕ, zero, suc, ◌+◌, ◌-◌, ◌*◌, ◌/◌, ◌%◌, Bool, ◌&&◌, not, Option, none, some, ltb, leb, ◌==◌,
  if◌then◌else◌, add64, sub64,
}

pub record Header : Type 0 where
  pub next : ℕ
  pub size : ℕ

abbrev pub Memory : Type 0
Memory = ℕ → Header

pub record Heap : Type 0 where
  pub mem : Memory
  pub start_at : ℕ
  pub p_end : ℕ
  pub free_bytes : ℕ
  pub total_memory : ℕ
  pub top_address : ℕ
  pub allocated_bit : ℕ

abbrev pub byte_alignment : ℕ
byte_alignment = 64

abbrev pub total_heap_size : ℕ
total_heap_size = 10 * 1024

abbrev pub start_address : ℕ
start_address = 0x600000

abbrev pub end_address : ℕ
end_address = 0xF00000

-- `x & ~BYTE_ALIGNMENT_MASK`
abbrev pub align_down : ℕ → ℕ
align_down x = x - x % byte_alignment

-- `sizeof(header)` is 16.
abbrev pub heap_struct_size : ℕ
heap_struct_size = align_down (16 + (byte_alignment - 1))

abbrev pub minimum_block_size : ℕ
minimum_block_size = heap_struct_size * 2

abbrev pub max_rounds : ℕ
max_rounds = 256

abbrev pub update : Memory → ℕ → Header → Memory
update m a h q = if a == q then h else m q

-- `p->next = n`
abbrev pub set_next : Memory → ℕ → ℕ → Memory
set_next m p n = update m p (record { next = n; size = (m p).size })

-- `p->size = s`
abbrev pub set_size : Memory → ℕ → ℕ → Memory
set_size m p s = update m p (record { next = (m p).next; size = s })

-- `(x & bit) != 0`, `x | bit` and `x & ~bit`, for a `bit` that is 0 or a power of two.
abbrev pub has_bit : ℕ → ℕ → Bool
has_bit bit x = not (x / bit % 2 == 0)

abbrev pub set_bit : ℕ → ℕ → ℕ
set_bit bit x = if has_bit bit x then x else x + bit

abbrev pub clear_bit : ℕ → ℕ → ℕ
clear_bit bit x = if has_bit bit x then x - bit else x

-- The boot state: every static variable is 0, and memory holds anything.
abbrev pub boot : Memory → ℕ → Heap
boot m start = record {
  mem = m;
  start_at = start;
  p_end = 0;
  free_bytes = 0;
  total_memory = 0;
  top_address = 0;
  allocated_bit = 0;
}

-- The value written through `buffer` comes beside the new state.
pub sbrk_handler : Heap → ℕ → Heap × ℕ
sbrk_handler h increment =
    let top = if h.top_address == 0 then start_address else h.top_address in
    if leb (add64 top increment) end_address
    then (record h { top_address = add64 top increment }, top)
    else (record h { top_address = top }, 0)

-- The first free block, `start` and `*pEnd` are written once the bounds of the heap are known.
pub init_lists : Heap → (aligned heap_size : ℕ) → Heap
init_lists h aligned heap_size =
    let last = align_down (sub64 (add64 aligned heap_size) heap_struct_size) in
    let m₁ = update h.mem h.start_at (record { next = aligned; size = 0 }) in
    let m₂ = update m₁ last (record { next = 0; size = 0 }) in
    let m₃ = update m₂ aligned (record { next = last; size = sub64 last aligned }) in
    record h {
      mem = m₃;
      p_end = last;
      free_bytes = (m₃ aligned).size;
      allocated_bit = 0x8000000000000000;
    }

pub init_heap : Heap → Heap
unfolding sbrk_handler init_lists
init_heap h =
    let (h', base) = sbrk_handler h total_heap_size in
    let h'' = record h' { total_memory = base } in
    if base % byte_alignment == 0
    then init_lists h'' base total_heap_size
    else let aligned = align_down (add64 base (byte_alignment - 1)) in
      init_lists h'' aligned (sub64 total_heap_size (sub64 aligned base))

-- The loop of `addBlockToFreeList`: the last node before `block`.
pub find_before : ℕ → Memory → (iterator block : ℕ) → Option ℕ
find_before zero m iterator block = none
find_before (suc f) m iterator block =
    let rest = find_before f m (m iterator).next block in
    if ltb (m iterator).next block then rest else some iterator

-- `if (currp + iteratorp->size == blockToInsert)`: memory, and the block that goes on.
pub merge_left : Memory → (iterator block : ℕ) → Memory × ℕ
merge_left m iterator block =
    if add64 iterator (m iterator).size == block
    then (set_size m iterator (add64 (m iterator).size (m block).size), iterator)
    else (m, block)

pub merge_right : Memory → (p_end iterator block : ℕ) → Memory
merge_right m p_end iterator block =
    let after = (m iterator).next in
    if add64 block (m block).size == after
    then (if after == p_end
        then set_next m block p_end
        else let m' = set_size m block (add64 (m block).size (m after).size) in
          set_next m' block (m' (m' iterator).next).next)
    else set_next m block after

-- What `addBlockToFreeList` does behind its loop.
pub link_block : Memory → (p_end iterator block : ℕ) → Memory
link_block m p_end iterator block =
    let (m', merged) = merge_left m iterator block in
    let m'' = merge_right m' p_end iterator merged in
    if iterator == merged then m'' else set_next m'' iterator merged

pub add_block_to_free_list : Memory → (start_at p_end block : ℕ) → Option Memory
add_block_to_free_list m start_at p_end block =
    Option.map (λ iterator. link_block m p_end iterator block)
      (find_before max_rounds m start_at block)

-- The request grows by a header and to a multiple of the alignment.
pub align_request : ℕ → ℕ
align_request size =
    if size % byte_alignment == 0
    then size
    else let aligned = add64 size (byte_alignment - size % byte_alignment) in
      if ltb size aligned then aligned else 0

pub round_request : ℕ → ℕ
unfolding align_request
round_request requested =
    if ltb 0 requested && ltb requested (add64 requested heap_struct_size)
    then align_request (add64 requested heap_struct_size)
    else requested

-- The loop of `RTOSMalloc`: `prevp` and `currp` when it stops.
pub find_fit : ℕ → Memory → (size prev curr : ℕ) → Option (ℕ × ℕ)
find_fit zero m size prev curr = none
find_fit (suc f) m size prev curr =
    let rest = find_fit f m size curr (m curr).next in
    if ltb (m curr).size size && not ((m curr).next == 0) then rest else some (prev, curr)

-- A block much larger than the request is split, and the rest goes back to the free list.
pub split_block : Memory → (start_at p_end size curr : ℕ) → Option Memory
split_block m start_at p_end size curr =
    if ltb minimum_block_size (sub64 (m curr).size size)
    then (let insertp = add64 curr size in
        let m' = set_size m insertp (sub64 (m curr).size size) in
        add_block_to_free_list (set_size m' curr size) start_at p_end insertp)
    else some m

-- The taken block is marked and leaves the count of free bytes.
pub mark_block : Heap → (curr : ℕ) → Memory → Heap
mark_block h curr m = record h {
  mem = update m curr (record { next = 0; size = set_bit h.allocated_bit (m curr).size });
  free_bytes = sub64 h.free_bytes (m curr).size;
}

pub take_block : Heap → (size prev curr : ℕ) → Option (Heap × ℕ)
unfolding mark_block
take_block h size prev curr =
    if curr == h.p_end
    then some (h, 0)
    else let returned = add64 (h.mem prev).next heap_struct_size in
      let unlinked = set_next h.mem prev (h.mem curr).next in
      Option.map (λ m. (mark_block h curr m, returned))
        (split_block unlinked h.start_at h.p_end size curr)

-- The search for a block of a rounded size, in a heap that is set up.
pub malloc_rounded : Heap → ℕ → Option (Heap × ℕ)
malloc_rounded h size =
    if ltb 0 size && leb size h.free_bytes
    then Option.bind (find_fit max_rounds h.mem size h.start_at (h.mem h.start_at).next)
        (λ found. take_block h size found.0 found.1)
    else some (h, 0)

-- `RTOSMalloc`: the new state and the pointer that it returns.
pub rtos_malloc : Heap → ℕ → Option (Heap × ℕ)
rtos_malloc h requested =
    let ready = if h.p_end == 0 then init_heap h else h in
    if has_bit ready.allocated_bit requested
    then some (ready, 0)
    else malloc_rounded ready (round_request requested)

-- The header at `insertp` goes back to the free list if it is that of a block in use.
pub release_block : Heap → (insertp : ℕ) → Option Heap
release_block h insertp =
    if has_bit h.allocated_bit (h.mem insertp).size && ((h.mem insertp).next == 0)
    then (let m = set_size h.mem insertp (clear_bit h.allocated_bit (h.mem insertp).size) in
        Option.map (λ m'. record h { mem = m'; free_bytes = add64 h.free_bytes (m insertp).size })
          (add_block_to_free_list m h.start_at h.p_end insertp))
    else some h

pub rtos_free : Heap → ℕ → Option Heap
rtos_free h ptr = if ptr == 0 then some h else release_block h (sub64 ptr heap_struct_size)
