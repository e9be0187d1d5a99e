-- ===== src/Shell/Editor.antt =====
-- What the user sees as the command line of Userland/SampleCodeModule/shell.c: a line editor.
use so_bare_bones.Common.{
  ℕ, zero, suc, ◌+◌, ◌-◌, ◌≤◌, ◌<◌, ◌≡◌, ◌≢◌, ◌⊎◌, inl, inr, List, [], ◌∷◌, ◌++◌, length, get_or,
  set, length-set, get_or-set_self, get_or-set_ne, ltb, leb, ◌==◌, if◌then◌else◌, refl, arith, sym,
  ◌∙◌, true, false, ◌||◌, length-append, Bool-cases,
}
use so_bare_bones.Shell.{Line, enter, backspace, take_input}

abbrev pub drop_last : List ℕ → List ℕ
drop_last [] = []
drop_last (c ∷ []) = []
drop_last (c ∷ d ∷ text) = c ∷ drop_last (d ∷ text)

-- A character's effect on the line: 0 and the enter key none, backspace takes the last one away,
-- and any other is added where the line is not longer than 100.
abbrev pub edit : List ℕ → ℕ → List ℕ
edit text c =
    if c == 0 || c == enter
    then text
    else if c == backspace
    then drop_last text
    else if leb (length text) 100
    then text ++ c ∷ []
    else text

-- The buffer holds the line, at most 101 characters, and zeros behind it.
pub record IsShown (l : Line) (text : List ℕ) : Type 0 where
  pub room : length l.terminal_buffer ≡ 101
  pub count : l.buffersize ≡ length text
  pub fits : length text ≤ 101
  pub cells : (i : ℕ) → get_or l.terminal_buffer i 0 ≡ get_or text i 0

pub get_or-behind : (text : List ℕ) (i : ℕ) → length text ≤ i → get_or text i 0 ≡ 0
get_or-behind [] i h = refl
get_or-behind (c ∷ text) zero h = absurd (omega arith)
get_or-behind (c ∷ text) (suc i) h = get_or-behind text i (omega arith)

get_or-append_last : (text : List ℕ) (c : ℕ) → get_or (text ++ c ∷ []) (length text) 0 ≡ c
get_or-append_last [] c = refl
get_or-append_last (d ∷ text) c = get_or-append_last text c

get_or-append_ne :
    (text : List ℕ) (c i : ℕ) → i ≢ length text → get_or (text ++ c ∷ []) i 0 ≡ get_or text i 0
get_or-append_ne [] c zero n = absurd (n refl)
get_or-append_ne [] c (suc i) n = refl
get_or-append_ne (d ∷ text) c zero n = refl
get_or-append_ne (d ∷ text) c (suc i) n = get_or-append_ne text c i (omega arith)

length-drop_last : (text : List ℕ) → length (drop_last text) ≡ length text - 1
length-drop_last [] = refl
length-drop_last (c ∷ []) = refl
length-drop_last (c ∷ d ∷ text) = omega (arith, length-drop_last (d ∷ text))

get_or-drop_last :
    (text : List ℕ) (i : ℕ) → i + 1 ≢ length text → get_or (drop_last text) i 0 ≡ get_or text i 0
get_or-drop_last [] i n = refl
get_or-drop_last (c ∷ []) zero n = absurd (n refl)
get_or-drop_last (c ∷ []) (suc i) n = refl
get_or-drop_last (c ∷ d ∷ text) zero n = refl
get_or-drop_last (c ∷ d ∷ text) (suc i) n = get_or-drop_last (d ∷ text) i (omega arith)

same-or-not : (i j : ℕ) → (i ≡ j) ⊎ (i ≢ j)
same-or-not i j = omega arith

IsShown-add :
    (l : Line) (text : List ℕ) (c : ℕ)
    → IsShown l text
    → length text ≤ 100
    → IsShown
        (record {
          terminal_buffer = set l.terminal_buffer l.buffersize c;
          buffersize = l.buffersize + 1;
        })
        (text ++ c ∷ [])
IsShown-add l text c v room =
    let buffer = l.terminal_buffer in
    let longer : length (text ++ c ∷ []) ≡ length text + 1 = length-append text (c ∷ []) in
    record {
      room = length-set buffer l.buffersize c ∙ v.room;
      count = omega (arith, v.count, longer);
      fits = omega (arith, longer);
      cells = λ i. rw v.count (elim (same-or-not i (length text)) [
        | inl e ↦ rw e (
            get_or-set_self buffer (length text) c 0 (omega (arith, v.room))
            ∙ sym (get_or-append_last text c))
        | inr n ↦
            get_or-set_ne buffer c 0 (λ e. n (sym e))
            ∙ v.cells i
            ∙ sym (get_or-append_ne text c i n)
      ]);
    }

IsShown-drop :
    (l : Line) (text : List ℕ)
    → IsShown l text
    → 0 < length text
    → IsShown
        (record {
          terminal_buffer = set l.terminal_buffer (l.buffersize - 1) 0;
          buffersize = l.buffersize - 1;
        })
        (drop_last text)
IsShown-drop l text v some_char =
    let buffer = l.terminal_buffer in
    let shorter = length-drop_last text in
    let last = length text - 1 in
    record {
      room = length-set buffer (l.buffersize - 1) 0 ∙ v.room;
      count = omega (arith, v.count, shorter);
      fits = omega (arith, shorter, v.fits);
      cells = λ i. rw v.count (elim (same-or-not i last) [
        | inl e ↦ rw e (
            get_or-set_self buffer last 0 0 (omega (arith, v.room, v.fits))
            ∙ sym (get_or-behind (drop_last text) last (omega (arith, shorter))))
        | inr n ↦
            get_or-set_ne buffer 0 0 (λ e. n (sym e))
            ∙ v.cells i
            ∙ sym (get_or-drop_last text i (omega arith))
      ]);
    }

nothing-to-drop : (text : List ℕ) → length text ≡ 0 → drop_last text ≡ text
nothing-to-drop [] z = refl
nothing-to-drop (c ∷ text) z = absurd (omega arith)

-- `readNewInput` edits the line that is shown, whatever the character is.
take_input-edit :
    (l : Line) (text : List ℕ) (c : ℕ) → IsShown l text → IsShown (take_input l c).0 (edit text c)
unfolding take_input
take_input-edit l text c v = elim (Bool-cases (c == 0)) [
  | inl z ↦ rw z v
  | inr not_zero ↦ elim (Bool-cases (c == enter)) [
    | inl e ↦ rw (not_zero, e) v
    | inr not_enter ↦ elim (Bool-cases (c == backspace)) [
      | inl b ↦ elim (Bool-cases (ltb 0 l.buffersize)) [
        | inl more ↦
            rw (not_zero, not_enter, b, more) (IsShown-drop l text v (ground (arith, v.count)))
        | inr done ↦
            let empty = nothing-to-drop text (ground (arith, v.count)) in
            rw (not_zero, not_enter, b, done, empty) v
      ]
      | inr other ↦ elim (Bool-cases (leb (length text) 100)) [
        | inl room ↦
            let guard : leb l.buffersize 100 ≡ true = rw v.count room in
            rw (not_zero, not_enter, other, room, guard) (IsShown-add l text c v (ground arith))
        | inr full ↦
            let guard : leb l.buffersize 100 ≡ false = rw v.count full in
            rw (not_zero, not_enter, other, full, guard) v
      ]
    ]
  ]
]

-- Characters one after the other.
abbrev pub take_all : Line → List ℕ → Line
take_all l [] = l
take_all l (c ∷ cs) = take_all (take_input l c).0 cs

abbrev pub edit_all : List ℕ → List ℕ → List ℕ
edit_all text [] = text
edit_all text (c ∷ cs) = edit_all (edit text c) cs

-- Whatever characters come, and in whatever order, the buffer holds what a line editor makes of them:
-- it has at most 101 characters, each within the array, and zeros behind them.
pub take_all-edit_all :
    (l : Line) (text cs : List ℕ) → IsShown l text → IsShown (take_all l cs) (edit_all text cs)
take_all-edit_all l text [] v = v
take_all-edit_all l text (c ∷ cs) v =
    take_all-edit_all (take_input l c).0 (edit text c) cs (take_input-edit l text c v)
