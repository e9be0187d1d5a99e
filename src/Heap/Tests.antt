-- ===== src/Heap/Tests.antt =====
-- Runs of the allocator, and its theorems at concrete heaps.
use mathlib.Core.Option
use so_bare_bones.Common.{
  List, none, Option, ℕ, ◌+◌, ◌%◌, ◌^◌, ◌≤◌, ◌<◌, ◌≡◌, ◌⊎◌, Option, none, some, [], ◌∷◌, All, refl,
  arith, ◌==◌, if◌then◌else◌,
}
use so_bare_bones.Heap.{
  rtos_free, release_block, Heap, Memory, boot, init_heap, rtos_malloc, rtos_free, malloc_rounded,
  find_fit, take_block, split_block, add_block_to_free_list, find_before, link_block, merge_left,
  merge_right, round_request, start_address,
}
use so_bare_bones.Heap.Blocks.{block, end_of, insert_free, total}
use so_bare_bones.Heap.Client.{
  Call, step, pointer_at, without, malloc, free, World, run, Sound, booted, run-booted,
}
use so_bare_bones.Heap.Contract.{rtos_malloc-bounds, rtos_free-rtos_malloc, rtos_malloc-null}
use so_bare_bones.Heap.Free.{rtos_free-IsValid}
use so_bare_bones.Heap.Init.{whole}
use so_bare_bones.Heap.Request.{Answers, alloc, rtos_malloc-alloc, rounded}
use so_bare_bones.Heap.Used.{here}
use so_bare_bones.Heap.Valid.{IsValid, heap_end}
use so_bare_bones.Heap.Whole.{run-idle}

abbrev pub blank : Memory
blank a = record { next = 0; size = 0 }

abbrev pub start : ℕ
start = 0x104000

abbrev ready : Heap
ready = init_heap (boot blank start)

-- A heap with one block of 128 bytes in use, in front of the free rest.
abbrev pub one_used : Heap
one_used = record {
  mem = λ a.
      if a == start
      then record { next = 0x600080; size = 0 }
      else if a == 0x600000
      then record { next = 0; size = 128 + 2 ^ 63 }
      else if a == 0x600080
      then record { next = heap_end; size = 10048 }
      else record { next = 0; size = 0 };
  start_at = start;
  p_end = heap_end;
  free_bytes = 10048;
  total_memory = start_address;
  top_address = 0x602800;
  allocated_bit = 2 ^ 63;
}

pub one_used-IsValid : IsValid one_used (block 0x600080 10048 ∷ []) (block 0x600000 128 ∷ [])
unfolding total
one_used-IsValid = record {
  end_at = refl;
  bit = refl;
  start_low = omega arith;
  marker = refl;
  chain = (refl, refl, (refl, refl, tt));
  ordered = omega arith;
  free_fit = omega arith;
  used_fit = omega arith;
  headers = (refl, tt);
  free_used = omega arith;
  used_apart = (tt, tt);
  count = refl;
  bytes = refl;
}

-- The pointer that a request returns, and the bytes that are free then.
abbrev pointer_and_rest : Option (Heap × ℕ) → Option (ℕ × ℕ)
pointer_and_rest = Option.map (λ r. (r.1, r.0.free_bytes))

first_request : pointer_and_rest (rtos_malloc (boot blank start) 100) ≡ some (0x600040, 9984)
unfolding rtos_malloc init_heap malloc_rounded find_fit take_block split_block
    add_block_to_free_list find_before link_block merge_left merge_right round_request Option.bind
first_request = refl

abbrev pub answer : Heap × ℕ
answer = elim (rtos_malloc one_used 100) [ none ↦ (one_used, 0) | some r ↦ r ]

pub answer-runs : rtos_malloc one_used 100 ≡ some (answer.0, 0x6000C0)
unfolding rtos_malloc init_heap malloc_rounded find_fit take_block split_block
    add_block_to_free_list find_before link_block merge_left merge_right round_request Option.bind
answer-runs = refl

rtos_malloc-alloc_example :
    Answers one_used
      (block 0x600000 128 ∷ [])
      (alloc 100 (block 0x600080 10048 ∷ []))
      (rtos_malloc one_used 100)
rtos_malloc-alloc_example =
    rtos_malloc-alloc one_used (block 0x600080 10048 ∷ []) (block 0x600000 128 ∷ []) 100
      one_used-IsValid (omega arith)

rtos_free-IsValid_example :
    (h' : Heap) × (rtos_free one_used 0x600040 ≡ some h')
    × IsValid h' (insert_free (block 0x600000 128) (block 0x600080 10048 ∷ [])) []
rtos_free-IsValid_example =
    rtos_free-IsValid one_used (block 0x600000 128) (block 0x600080 10048 ∷ [])
      (block 0x600000 128 ∷ []) [] one_used-IsValid here

rtos_malloc-bounds_example :
    (0x6000C0 % 64 ≡ 0)
    × (start_address ≤ 0x6000C0)
    × (0x6000C0 + 100 ≤ heap_end)
    × All (λ u. (0x6000C0 + 100 ≤ u.addr) ⊎ (end_of u ≤ 0x6000C0)) (block 0x600000 128 ∷ [])
rtos_malloc-bounds_example =
    rtos_malloc-bounds one_used (block 0x600080 10048 ∷ []) (block 0x600000 128 ∷ []) 100
      one_used-IsValid (omega arith) answer.0 0x6000C0 answer-runs (omega arith)

rtos_free-rtos_malloc_example :
    (h'' : Heap) × (rtos_free answer.0 0x6000C0 ≡ some h'')
    × IsValid h'' (block 0x600080 10048 ∷ []) (block 0x600000 128 ∷ [])
rtos_free-rtos_malloc_example =
    rtos_free-rtos_malloc one_used (block 0x600080 10048 ∷ []) (block 0x600000 128 ∷ []) 100
      one_used-IsValid (omega arith) answer.0 0x6000C0 answer-runs (omega arith)

too_large : rtos_malloc one_used 10000 ≡ some (one_used, 0)
unfolding rtos_malloc init_heap malloc_rounded find_fit take_block split_block round_request
    Option.bind
too_large = refl

rtos_malloc-null_example :
    (one_used ≡ one_used)
    × ((◌≡◌ {A = ℕ} 10000 0)
        ⊎ (2 ^ 63 ≤ 10000)
        ⊎ All (λ c. c.size < rounded 10000) (block 0x600080 10048 ∷ []))
rtos_malloc-null_example =
    rtos_malloc-null one_used (block 0x600080 10048 ∷ []) (block 0x600000 128 ∷ []) 10000
      one_used-IsValid (omega arith) one_used too_large

run-booted_example :
    (w : World) × (run (malloc 100 ∷ malloc 30 ∷ free 1 ∷ free 0 ∷ []) (booted blank start)
      ≡ some w)
    × ((w ≡ booted blank start) ⊎ Sound w)
run-booted_example =
    run-booted (malloc 100 ∷ malloc 30 ∷ free 1 ∷ free 0 ∷ []) blank start (omega arith)

-- Two blocks given out and given back, the older one first.
abbrev round_trip : List Call
round_trip = malloc 100 ∷ malloc 30 ∷ free 1 ∷ free 0 ∷ []

abbrev after_all : Option World → World
after_all none = booted blank start
after_all (some w) = w

abbrev emptied : World
emptied = after_all (run round_trip (booted blank start))

emptied-runs : run round_trip (booted blank start) ≡ some emptied
unfolding run step init_heap rtos_malloc malloc_rounded find_fit take_block split_block
    round_request rtos_free release_block add_block_to_free_list find_before link_block merge_left
    merge_right pointer_at without Option.bind
emptied-runs = refl

emptied-live : emptied.live ≡ []
unfolding run step init_heap rtos_malloc malloc_rounded find_fit take_block split_block
    round_request rtos_free release_block add_block_to_free_list find_before link_block merge_left
    merge_right pointer_at without Option.bind
emptied-live = refl

run-idle_example : (emptied ≡ booted blank start) ⊎ IsValid emptied.heap (whole ∷ []) []
run-idle_example = run-idle round_trip blank start (omega arith) emptied emptied-runs emptied-live
