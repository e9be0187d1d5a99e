-- ===== src/Shell/Tests.antt =====
-- The command line of Userland/SampleCodeModule/shell.c, from an empty one.
use so_bare_bones.Common.{
  ℕ, zero, suc, All, ◌+◌, ◌≤◌, ◌≡◌, ◌≢◌, ◌↔◌, List, [], ◌∷◌, length, get_or, replicate, refl, arith,
  none, some,
}
use so_bare_bones.Shell.{Line, clean_buffer, enter, backspace}
use so_bare_bones.Shell.Clean.{clean_buffer-IsShown}
use so_bare_bones.Number.{Text, store}
use so_bare_bones.Strings.Holds.{Holds}
use so_bare_bones.Shell.Command.{Places, run_command, not_valid, command_handler}
use so_bare_bones.Shell.Find.{index_of, print_mem_text, IsLaidOut, command_handler-index_of}
use so_bare_bones.Shell.Editor.{IsShown, take_all, edit_all, take_all-edit_all}

abbrev empty : Line
empty = record { terminal_buffer = replicate 101 0 []; buffersize = 0 }

zeros : (n i : ℕ) → get_or {A = ℕ} (replicate n 0 []) i 0 ≡ 0
zeros zero i = refl
zeros (suc n) zero = refl
zeros (suc n) (suc i) = zeros n i

empty-IsShown : IsShown empty []
empty-IsShown = record { room = refl; count = refl; fits = omega arith; cells = zeros 101 }

-- A misspelt word, taken back and written again, and the enter key.
abbrev keys : List ℕ
keys = b'h' ∷ b'e' ∷ b'o' ∷ 0 ∷ backspace ∷ b'l' ∷ b'p' ∷ enter ∷ []

abbrev pub help_chars : List ℕ
help_chars = b'h' ∷ b'e' ∷ b'l' ∷ b'p' ∷ []

take_all-edit_all_example : IsShown (take_all empty keys) help_chars
take_all-edit_all_example = take_all-edit_all empty [] keys empty-IsShown

-- 120 times the same key: 101 characters are taken.
abbrev long : List ℕ
long = replicate 101 b'a' []

abbrev full : Line
full = record { terminal_buffer = long; buffersize = 101 }

full-IsShown : IsShown full long
full-IsShown = record { room = refl; count = refl; fits = omega arith; cells = λ i. refl }

full_line : edit_all [] (replicate 120 b'a' []) ≡ long
full_line = refl

replicate-All : (n : ℕ) → All {A = ℕ} (λ c. c ≢ 0) (replicate n b'a' [])
replicate-All zero = tt
replicate-All (suc n) = (omega arith, replicate-All n)

clean_buffer-IsShown_example : IsShown (clean_buffer full) [] ↔ (length long ≤ 100)
clean_buffer-IsShown_example = clean_buffer-IsShown full long full-IsShown (replicate-All 101)

abbrev pub put : Text → (p : ℕ) → List ℕ → Text
put text p [] = text
put text p (c ∷ l) = put (store text p c) (p + 1) l

abbrev pub clean_chars : List ℕ
clean_chars = b'c' ∷ b'l' ∷ b'e' ∷ b'a' ∷ b'n' ∷ []

-- The line "help_chars" at 1000, and two commands.
abbrev memory : Text
memory =
    put (put (put (put (λ q. 0) 1000 help_chars) 2000 print_mem_text) 3000 clean_chars) 3200
      help_chars

abbrev entries : List (ℕ × List ℕ)
entries = (3000, clean_chars) ∷ (3200, help_chars) ∷ []

abbrev places : Places
places = record {
  potential_command = 4000;
  printmemcommand = 4200;
  arg = 4400;
  terminal_buffer = 1000;
  literal = 2000;
}

places-IsLaidOut : IsLaidOut places
places-IsLaidOut = record {
  line_potential = omega arith;
  potential_print = omega arith;
  potential_arg = omega arith;
  literal_potential = omega arith;
  literal_print = omega arith;
  literal_arg = omega arith;
}

help_at : Holds memory 1000 help_chars × Holds memory 3200 help_chars
help_at = (omega arith, omega arith)

clean_at : Holds memory 3000 clean_chars
clean_at = omega arith

literal_at : Holds memory 2000 print_mem_text
literal_at = omega arith

command_handler-index_of_example :
    ((i : ℕ)
      → index_of help_chars entries 0 ≡ some i
      → (t : Text) × (command_handler 10 memory places 4 (3000 ∷ 3200 ∷ [])
          ≡ some (t, run_command i)))
    × (index_of help_chars entries 0 ≡ none
        → ¬ (help_chars ≡ print_mem_text)
        → (t : Text) × (command_handler 10 memory places 4 (3000 ∷ 3200 ∷ [])
            ≡ some (t, not_valid)))
command_handler-index_of_example =
    command_handler-index_of 10 memory places help_chars entries places-IsLaidOut (omega arith)
      (omega arith) (omega arith) help_at.0 literal_at
      ((clean_at, omega arith), ((help_at.1, omega arith), tt))

second_entry : index_of help_chars entries 0 ≡ some 1
second_entry = refl
