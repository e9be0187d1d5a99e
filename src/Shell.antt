-- ===== src/Shell.antt =====
-- The command line of the shell, Userland/SampleCodeModule/shell.c.
--
-- `terminalBuffer` is a list of its 101 bytes. What a character asks of the screen is a list of system
-- calls, which `read_new_input` then makes.
pub mod Clean
pub mod Command
pub mod Commands
pub mod Editor
pub mod Find
pub mod Prints
mod PrintTests
pub mod Tests
use mathlib.Core.Option
use so_bare_bones.Common.{
  ℕ, zero, suc, ◌+◌, ◌-◌, ◌%◌, ◌^◌, Option, none, some, List, [], ◌∷◌, set, ltb, leb, ◌==◌,
  if◌then◌else◌,
}
use so_bare_bones.Strings.{sign_extend}
use so_bare_bones.System.{System, int80_dispatcher}

abbrev pub enter : ℕ
enter = 0x0A

abbrev pub backspace : ℕ
backspace = 0x08

abbrev pub buffer_size : ℕ
buffer_size = 100

-- `terminalBuffer` and `buffersize`.
pub record Line : Type 0 where
  pub terminal_buffer : List ℕ
  pub buffersize : ℕ

-- The loop of `cleanBuffer`, from `i` on.
unfoldable pub clean_loop : ℕ → List ℕ → (i : ℕ) → List ℕ
clean_loop zero buffer i = buffer
clean_loop (suc n) buffer i = clean_loop n (set buffer i 0) (i + 1)

unfoldable pub clean_buffer : Line → Line
clean_buffer l = record {
  terminal_buffer = clean_loop buffer_size l.terminal_buffer 0;
  buffersize = 0;
}

pub data ScreenCall : Type 0 where
  action_call : (action : ℕ) → ScreenCall
  put_char : (c : ℕ) → ScreenCall

-- `readNewInput` behind `read_input`: the line, the calls, and the answer.
unfoldable pub take_input : Line → (chartoadd : ℕ) → Line × List ScreenCall × ℕ
take_input l chartoadd =
    if chartoadd == 0
    then (l, [], 0)
    else if chartoadd == enter
    then (l, action_call 0 ∷ [], 1)
    else if chartoadd == backspace
    then (if ltb 0 l.buffersize
        then (
          record {
            terminal_buffer = set l.terminal_buffer (l.buffersize - 1) 0;
            buffersize = l.buffersize - 1;
          },
          action_call 1 ∷ [],
          0,
        )
        else (l, [], 0))
    else if leb l.buffersize 100
    then (
      record {
        terminal_buffer = set l.terminal_buffer l.buffersize chartoadd;
        buffersize = l.buffersize + 1;
      },
      put_char chartoadd ∷ [],
      0,
    )
    else (l, [], 0)

unfoldable pub run_calls : System → List ScreenCall → Option System
run_calls s [] = some s
run_calls s (action_call action ∷ calls) =
    Option.bind (int80_dispatcher 0 s 6 action 0 0) λ r. run_calls r.0 calls
run_calls s (put_char c ∷ calls) =
    Option.bind (int80_dispatcher 0 s 5 (sign_extend c) 0 0) λ r. run_calls r.0 calls

unfoldable pub read_new_input : System → Line → Option (System × Line × ℕ)
read_new_input s l =
    Option.bind (int80_dispatcher 0 s 0 0 0 0)
      λ r. let t = take_input l (r.1 % 256) in Option.map (λ s'. (s', t.0, t.2)) (run_calls r.0 t.1)
