-- ===== src/Keyboard/Ring.antt =====
-- The ring of Kernel/drivers/keyboard_driver.c: `getChar` takes the oldest character, and
-- `getLastInput`, which the shell reads by, the latest.
use so_bare_bones.Common.{
  ℕ, ◌+◌, ◌-◌, ◌%◌, ◌≤◌, ◌<◌, ◌≡◌, ◌≢◌, arith, refl, ap, ◌==◌, false, Bool-cases, inl, inr, length,
  get_or, length-set, get_or-set_self, get_or-set_ne,
}
use so_bare_bones.Keyboard.{Keyboard, add_to_buffer, get_char, get_last_input}

pub record IsValid (k : Keyboard) : Type 0 where
  pub room : length k.buffer ≡ 100
  pub start_in : k.start_position < 100
  pub end_at : k.end_position ≡ (k.start_position + k.size) % 100
  pub size_in : k.size ≤ 100

-- The `j`-th character that waits, the oldest first.
abbrev pub waiting : Keyboard → ℕ → ℕ
waiting k j = get_or k.buffer ((k.start_position + j) % 100) 0

-- Where the ring is not full, `addToBuffer` appends the character, keeps those that wait, and leaves
-- a valid ring.
pub add_to_buffer_lem :
    (k : Keyboard) (c : ℕ)
    → IsValid k
    → k.size < 100
    → IsValid (add_to_buffer k c)
      × ((add_to_buffer k c).size ≡ k.size + 1)
      × (waiting (add_to_buffer k c) k.size ≡ c)
      × ((j : ℕ) → j < k.size → waiting (add_to_buffer k c) j ≡ waiting k j)
unfolding add_to_buffer
add_to_buffer_lem k c v h = (
  ground (arith, v.room, v.start_in, v.end_at, v.size_in, length-set k.buffer k.end_position c),
  refl,
  rw (v.end_at)
      (get_or-set_self k.buffer ((k.start_position + k.size) % 100) c 0 (omega (arith, v.room))),
  λ j hj. get_or-set_ne k.buffer c 0 (omega (arith, v.end_at, v.start_in)),
)

-- `getChar` on a ring that is not empty returns the oldest character; the others move up by one.
pub get_char_lem :
    (k : Keyboard)
    → IsValid k
    → 0 < k.size
    → IsValid (get_char k).0
      × ((get_char k).1 ≡ waiting k 0)
      × ((get_char k).0.size ≡ k.size - 1)
      × ((j : ℕ) → waiting (get_char k).0 j ≡ waiting k (j + 1))
unfolding get_char
get_char_lem k v h =
    let some_wait : (k.size == 0) ≡ false = ground arith in
    let at = λ (i : ℕ). get_or k.buffer i 0 in
    rw some_wait (
      ground (arith, v.room, v.start_in, v.end_at, v.size_in),
      ap at (omega (arith, v.start_in)),
      refl,
      λ j. ap at (omega arith),
    )

-- `getLastInput` on a ring that is not empty returns the latest character; the others stay.
pub get_last_input_lem :
    (k : Keyboard)
    → IsValid k
    → 0 < k.size
    → IsValid (get_last_input k).0
      × ((get_last_input k).1 ≡ waiting k (k.size - 1))
      × ((get_last_input k).0.size ≡ k.size - 1)
      × ((j : ℕ) → waiting (get_last_input k).0 j ≡ waiting k j)
unfolding get_last_input
get_last_input_lem k v h =
    let some_wait : (k.size == 0) ≡ false = ground arith in
    let at = λ (i : ℕ). get_or k.buffer i 0 in
    elim (Bool-cases (k.end_position == 0)) [
      | inl zero_end ↦
          let e : k.end_position ≡ 0 = ground arith in
          rw (some_wait, zero_end)
            (
              ground (arith, v.room, v.start_in, v.end_at, v.size_in),
              ap at (omega (arith, v.start_in, v.end_at, v.size_in)),
              refl,
              λ j. refl,
            )
      | inr some_end ↦
          let ne : k.end_position ≢ 0 = ground arith in
          rw (some_wait, some_end)
            (
              ground (arith, v.room, v.start_in, v.end_at, v.size_in),
              ap at (omega (arith, v.start_in, v.end_at, v.size_in)),
              refl,
              λ j. refl,
            )
    ]
