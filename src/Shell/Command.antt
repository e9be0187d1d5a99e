-- ===== src/Shell/Command.antt =====
-- `CommandHandler` of Userland/SampleCodeModule/shell.c: which command a line runs.
--
-- Strings are in a memory of bytes; the places of the local arrays, of `terminalBuffer` and of the
-- names in `commandList` are parameters, and the loops of the string functions run on fuel.
use mathlib.Core.Option
use so_bare_bones.Common.{ℕ, ◌+◌, Option, none, some, List, [], ◌∷◌, not, ◌==◌, if◌then◌else◌}
use so_bare_bones.Number.{Text}
use so_bare_bones.Strings.{strlen, strcmp, strncpy, str_to_num_hex}
use so_bare_bones.Transfer.{memset}

-- Where the strings are: `potentialCommand`, `printmemcommand`, `arg`, `terminalBuffer`, and the
-- literal "printMem ".
pub record Places : Type 0 where
  pub potential_command : ℕ
  pub printmemcommand : ℕ
  pub arg : ℕ
  pub terminal_buffer : ℕ
  pub literal : ℕ

-- The entry of `commandList` that is called, the address that `printMem` is called with, or the
-- message that the command is not valid.
pub data Action : Type 0 where
  run_command : (i : ℕ) → Action
  print_mem : (mem : ℕ) → Action
  not_valid : Action

-- `char a[MAX_COMDESC] = {0}`
abbrev pub zeroed : Text → (a : ℕ) → Text
zeroed text a = memset text a 0 100

-- The loop over `commandList`, from the entry `i` on, at the names `names`.
unfoldable pub find_command :
    (fuel : ℕ) → Text → (line : ℕ) → (names : List ℕ) → (i : ℕ) → Option (Option ℕ)
find_command fuel text line [] i = some none
find_command fuel text line (name ∷ names) i =
    let rest = find_command fuel text line names (i + 1) in
    Option.bind (strcmp fuel text line name) λ r. if not (r == 0) then some (some i) else rest

-- What follows the loop.
unfoldable pub handle_print_mem : (fuel : ℕ) → Text → Places → Option (Text × Action)
handle_print_mem fuel text p =
    let t₁ = zeroed (zeroed text p.printmemcommand) p.arg in
    Option.bind (strncpy fuel t₁ p.potential_command p.printmemcommand 0 9) λ t₂.
      Option.bind (strcmp fuel t₂ p.printmemcommand p.literal) λ r.
        if not (r == 0)
        then (Option.bind (strlen fuel t₂ p.potential_command) λ n.
            Option.bind (strncpy fuel t₂ p.potential_command p.arg 11 n)
              λ t₃. Option.map (λ mem. (t₃, print_mem mem)) (str_to_num_hex fuel t₃ p.arg))
        else some (t₂, not_valid)

unfoldable pub command_handler :
    (fuel : ℕ) → Text → Places → (buffersize : ℕ) → (names : List ℕ) → Option (Text × Action)
command_handler fuel text p buffersize names =
    Option.bind
      (strncpy fuel (zeroed text p.potential_command) p.terminal_buffer p.potential_command 0
        buffersize)
      λ t₁. Option.bind (find_command fuel t₁ p.potential_command names 0) λ found. elim found [
        | none ↦ handle_print_mem fuel t₁ p
        | some i ↦ some (t₁, run_command i)
      ]
