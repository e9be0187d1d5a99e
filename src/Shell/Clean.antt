-- ===== src/Shell/Clean.antt =====
-- `cleanBuffer` of Userland/SampleCodeModule/shell.c, and the answers of `readNewInput`.
use so_bare_bones.Common.{
  ℕ, zero, suc, ◌+◌, ◌≤◌, ◌<◌, ◌≡◌, ◌≢◌, ◌⊎◌, ◌↔◌, inl, inr, List, [], ◌∷◌, length, get_or, set,
  length-set, get_or-set_self, get_or-set_ne, refl, arith, sym, ◌∙◌, All, lt-or-le,
}
use so_bare_bones.Shell.{Line, clean_loop, clean_buffer}
use so_bare_bones.Shell.Editor.{IsShown, get_or-behind}

length-clean_loop :
    (n : ℕ) (buffer : List ℕ) (i : ℕ) → length (clean_loop n buffer i) ≡ length buffer
unfolding clean_loop
length-clean_loop zero buffer i = refl
length-clean_loop (suc n) buffer i =
    length-clean_loop n (set buffer i 0) (i + 1) ∙ length-set buffer i 0

get_or-clean_loop :
    (n : ℕ) (buffer : List ℕ) (i j : ℕ)
    → (j < i) ⊎ (i + n ≤ j)
    → get_or (clean_loop n buffer i) j 0 ≡ get_or buffer j 0
unfolding clean_loop
get_or-clean_loop zero buffer i j out = refl
get_or-clean_loop (suc n) buffer i j out =
    get_or-clean_loop n (set buffer i 0) (i + 1) j (omega arith)
    ∙ get_or-set_ne buffer 0 0 (omega arith)

get_or-set_zero : (buffer : List ℕ) (i : ℕ) → get_or (set buffer i 0) i 0 ≡ 0
get_or-set_zero buffer i = elim (lt-or-le i (length buffer)) [
  | inl inside ↦ get_or-set_self buffer i 0 0 inside
  | inr behind ↦ get_or-behind (set buffer i 0) i (omega (arith, length-set buffer i 0))
]

clean_loop-cleans :
    (n : ℕ) (buffer : List ℕ) (i j : ℕ) → i ≤ j → j < i + n → get_or (clean_loop n buffer i) j 0 ≡ 0
unfolding clean_loop
clean_loop-cleans zero buffer i j lo hi = absurd (omega arith)
clean_loop-cleans (suc n) buffer i j lo hi = elim (lt-or-le i j) [
  | inl later ↦ clean_loop-cleans n (set buffer i 0) (i + 1) j (omega arith) (omega arith)
  | inr now ↦
      let here : j ≡ i = omega arith in
      rw here
        (get_or-clean_loop n (set buffer i 0) (i + 1) i (omega arith) ∙ get_or-set_zero buffer i)
]

get_or-All : (text : List ℕ) (i : ℕ) → All (λ c. c ≢ 0) text → i < length text → get_or text i 0 ≢ 0
get_or-All [] i a h = absurd (omega arith)
get_or-All (c ∷ text) zero a h = a.0
get_or-All (c ∷ text) (suc i) a h = get_or-All text i a.1 (omega arith)

-- `cleanBuffer` leaves an empty line exactly if the line had at most 100 characters: the loop does
-- not reach the byte of the 101st.
pub clean_buffer-IsShown :
    (l : Line) (text : List ℕ)
    → IsShown l text
    → All (λ c. c ≢ 0) text
    → IsShown (clean_buffer l) [] ↔ (length text ≤ 100)
unfolding clean_buffer
clean_buffer-IsShown l text v chars = (all_cleaned, cleaned)
  where
    buffer : List ℕ
    buffer = l.terminal_buffer

    all_cleaned : IsShown (clean_buffer l) [] → length text ≤ 100
    all_cleaned e = elim (lt-or-le 100 (length text)) [
      | inl full ↦ absurd (
          get_or-All text 100 chars full (
            sym (v.cells 100)
            ∙ sym (get_or-clean_loop 100 buffer 0 100 (omega arith))
            ∙ e.cells 100))
      | inr room ↦ room
    ]

    cleaned : length text ≤ 100 → IsShown (clean_buffer l) []
    cleaned room = record {
      room = length-clean_loop 100 buffer 0 ∙ v.room;
      count = refl;
      fits = omega arith;
      cells = λ i. elim (lt-or-le i 100) [
        | inl inside ↦ clean_loop-cleans 100 buffer 0 i (omega arith) inside
        | inr behind ↦
            get_or-clean_loop 100 buffer 0 i (omega arith)
            ∙ v.cells i
            ∙ get_or-behind text i (omega arith)
      ];
    }
