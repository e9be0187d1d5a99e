-- ===== src/System.antt =====
-- The kernel behind its two gates: the dispatch of system calls, Kernel/interrupts/int80.c, and of
-- the timer's and the keyboard's interrupts, Kernel/interrupts/idt.c and Interrupt_routines.c, with
-- the register and memory snapshots of Kernel/asm/libasm.asm that calls read.
--
-- The state is that of the drivers. Memory is `screen.vram`; the allocator's headers, as `heap`, the
-- ring of keys and the timer are kept apart from it: the pointers that a program gives to calls 2, 4, 13
-- and 16 are taken to point to memory of its own. `none` is a read of the font or of `asciiMap` outside
-- its table, or a number that does not fit into the video driver's buffer.
pub mod Exception
pub mod Input
pub mod Storage
mod Tests
use mathlib.Core.Option
use so_bare_bones.Common.{
  ℕ, zero, suc, ◌+◌, ◌-◌, ◌*◌, ◌/◌, ◌%◌, ◌^◌, Bool, true, false, ◌&&◌, not, Option, none, some,
  List, [], ◌∷◌, ltb, leb, ◌==◌, if◌then◌else◌, ℤ, pos, negsuc, ltb_ℤ, eqb_ℤ, u32, rounds, to_int,
  add64,
}
use so_bare_bones.Clock.{read_seconds, read_minutes, read_hours}
use so_bare_bones.Heap.{Heap, rtos_malloc, rtos_free}
use so_bare_bones.Keyboard.{
  Keyboard, Effect, overflow_message, save_regs, keyboard_handler, get_last_input,
}
use so_bare_bones.Number.{Text, store}
use so_bare_bones.Strings.{sign_extend}
use so_bare_bones.Transfer.{memset, byte_loop}
use so_bare_bones.Video.{
  Screen, screen_width, screen_height, draw_string, read_text, new_line, draw_char, delete_char,
  delete_line, draw_decimal, draw_hex, clean, set_cursor, return_last_cursor, set_margins,
  get_coords,
}

-- `ticks` and `seconds` of Interrupt_routines.c, and the snapshot that exceptions return to.
pub record Timer : Type 0 where
  pub ticks : ℕ
  pub seconds : ℕ
  pub snapshot_ip : ℕ
  pub snapshot_sp : ℕ

-- `read_cmos` is the clock's chip; `regs` and `v` are the addresses of libasm's snapshots.
pub record System : Type 0 where
  pub keyboard : Keyboard
  pub screen : Screen
  pub heap : Heap
  pub timer : Timer
  pub reg_b_data : ℕ
  pub read_cmos : ℕ → ℕ
  pub regs : ℕ
  pub v : ℕ

unfoldable pub interrupt_routine1 : Timer → Timer
interrupt_routine1 t =
    let ticks = add64 t.ticks 1 in
    record t { ticks = ticks; seconds = if ticks % 18 == 0 then add64 t.seconds 1 else t.seconds }

unfoldable pub initial_state_snapshot : Timer → (ip sp : ℕ) → Timer
initial_state_snapshot t ip sp = record t { snapshot_ip = ip; snapshot_sp = sp }

-- `returnToSnapshot`, on the stack frame as a function of the index.
unfoldable pub return_to_snapshot : Timer → (stackframe : ℕ → ℕ) → ℕ → ℕ
return_to_snapshot t stackframe i =
    if i == 17 + 1 then t.snapshot_sp else if i == 17 - 2 then t.snapshot_ip else stackframe i

-- "ERROR: buffer overflow"
abbrev pub overflow_text : List ℕ
overflow_text =
    b'E' ∷ b'R' ∷ b'R' ∷ b'O' ∷ b'R' ∷ b':' ∷ b' ' ∷ b'b' ∷ b'u' ∷ b'f' ∷ b'f' ∷ b'e' ∷ b'r' ∷ b' '
    ∷ b'o' ∷ b'v' ∷ b'e' ∷ b'r' ∷ b'f' ∷ b'l' ∷ b'o' ∷ b'w' ∷ []

-- What the keyboard's handler asks for is done; `true` is a call of `saveRegs`, whose contents are
-- those of the processor.
unfoldable pub run_effects : Screen → List Effect → Option (Screen × Bool)
run_effects s [] = some (s, false)
run_effects s (overflow_message ∷ effects) =
    Option.bind (draw_string s overflow_text) λ s'. run_effects s' effects
run_effects s (save_regs ∷ effects) = Option.map (λ r. (r.0, true)) (run_effects s effects)

-- `interruptRoutine2`; `key` is what `get_key` reads of the keyboard.
unfoldable pub interrupt_routine2 : System → (key : ℕ) → Option (System × Bool)
interrupt_routine2 s key = Option.bind (keyboard_handler s.keyboard (key % 256)) λ r.
    Option.map (λ e. (record s { keyboard = r.0; screen = e.0 }, e.1)) (run_effects s.screen r.1)

unfoldable pub irq_dispatcher : System → (n key : ℕ) → Option (System × Bool)
irq_dispatcher s n key =
    if n == 0
    then some (record s { timer = interrupt_routine1 s.timer }, false)
    else if n == 1
    then interrupt_routine2 s key
    else some (s, false)

-- A call that changes the screen, or memory, and returns a number.
abbrev pub on_screen : System → (r : ℕ) → Option Screen → Option (System × ℕ)
on_screen s r o = Option.map (λ sc. (record s { screen = sc }, r)) o

abbrev pub on_memory : System → (r : ℕ) → Text → Option (System × ℕ)
on_memory s r text = some (record s { screen = record s.screen { vram = text } }, r)

-- `(char)x` as a byte, and `(uint64_t)(int)x`.
abbrev pub to_char : ℕ → ℕ
to_char x = x % 256

abbrev pub widen : ℕ → ℕ
widen x = if ltb (x % 2 ^ 32) (2 ^ 31) then x % 2 ^ 32 else 2 ^ 64 - 2 ^ 32 + x % 2 ^ 32

unfoldable pub sys_read : System → Option (System × ℕ)
sys_read s =
    let r = get_last_input s.keyboard in some (record s { keyboard = r.0 }, sign_extend r.1)

unfoldable pub sys_write : System → (rsi rdx : ℕ) → Option (System × ℕ)
sys_write s rsi rdx =
    on_screen s 0 (draw_string s.screen (read_text s.screen.vram rsi (rounds (to_int rdx))))

-- `saveMemory` and `getMemory`: 32 bytes, by way of `v`.
unfoldable pub sys_get_memory : System → (rsi rdx : ℕ) → Option (System × ℕ)
sys_get_memory s rsi rdx =
    on_memory s 0 (byte_loop 32 (byte_loop 32 s.screen.vram s.v rsi 0) rdx s.v 0)

-- `getRegs`: 16 numbers of 8 bytes.
unfoldable pub sys_get_info_reg : System → (rsi : ℕ) → Option (System × ℕ)
sys_get_info_reg s rsi = on_memory s 0 (byte_loop 128 s.screen.vram rsi s.regs 0)

-- `fuel` is for `delete_line`.
unfoldable pub sys_action_call : (fuel : ℕ) → System → (rsi : ℤ) → Option (System × ℕ)
sys_action_call fuel s rsi =
    if eqb_ℤ rsi (pos 0)
    then on_screen s 0 (some (new_line s.screen))
    else if eqb_ℤ rsi (pos 1)
    then on_screen s 0 (delete_char s.screen)
    else if eqb_ℤ rsi (pos 3)
    then on_screen s 0 (delete_line fuel s.screen)
    else some (s, 0)

unfoldable pub sys_get_clock : System → (rsi : ℤ) → Option (System × ℕ)
sys_get_clock s rsi =
    let answer : ℕ × ℕ → Option (System × ℕ) =
      λ r. some (record s { reg_b_data = r.0 }, r.1 % 256) in
    if eqb_ℤ rsi (pos 0)
    then answer (read_seconds s.read_cmos s.reg_b_data)
    else if eqb_ℤ rsi (pos 1)
    then answer (read_minutes s.read_cmos s.reg_b_data)
    else if eqb_ℤ rsi (pos 2)
    then answer (read_hours s.read_cmos s.reg_b_data)
    else some (s, 0)

unfoldable pub sys_print_num : System → (rsi : ℕ) → (rdx : ℤ) → Option (System × ℕ)
sys_print_num s rsi rdx =
    if eqb_ℤ rdx (pos 0)
    then on_screen s 0 (draw_decimal s.screen (widen rsi))
    else if eqb_ℤ rdx (pos 1)
    then on_screen s 0 (draw_hex s.screen (widen rsi))
    else some (s, 0)

unfoldable pub sys_cursor : Screen → (rsi rdx : ℤ) → Screen
sys_cursor s rsi rdx =
    if (ltb_ℤ (pos 0) rsi && ltb_ℤ (pos 0) rdx)
      && (ltb_ℤ rsi (pos screen_width) && ltb_ℤ rdx (pos screen_height))
    then set_cursor s rsi rdx
    else if eqb_ℤ rsi (negsuc 0) && eqb_ℤ rdx (negsuc 0)
    then return_last_cursor s
    else s

-- An `int` in memory.
unfoldable pub store32 : Text → (p n : ℕ) → Text
store32 text p n =
    store (store (store (store text p (n % 256)) (p + 1) (n / 256 % 256)) (p + 2) (n / 65536 % 256))
      (p + 3) (n / 16777216 % 256)

unfoldable pub sys_get_coords : System → (rsi : ℕ) → Option (System × ℕ)
sys_get_coords s rsi =
    let coords = get_coords s.screen in
    on_memory s 0 (store32 (store32 s.screen.vram rsi (u32 coords.0)) (rsi + 4) (u32 coords.1))

unfoldable pub my_malloc : System → (rsi : ℕ) → Option (System × ℕ)
my_malloc s rsi =
    Option.map (λ r. (record s { heap = r.0 }, r.1)) (rtos_malloc s.heap (rsi % 2 ^ 32))

unfoldable pub my_free : System → (rsi : ℕ) → Option (System × ℕ)
my_free s rsi = Option.map (λ h. (record s { heap = h }, 0)) (rtos_free s.heap rsi)

unfoldable pub mem_set : System → (rsi rdx rcx : ℕ) → Option (System × ℕ)
mem_set s rsi rdx rcx = on_memory s rsi (memset s.screen.vram rsi (rdx % 2 ^ 32) rcx)

unfoldable pub int80_dispatcher : (fuel : ℕ) → System → (rdi rsi rdx rcx : ℕ) → Option (System × ℕ)
int80_dispatcher fuel s rdi rsi rdx rcx =
    if rdi == 0
    then sys_read s
    else if rdi == 1
    then sys_write s rsi rdx
    else if rdi == 2
    then sys_get_memory s rsi rdx
    else if rdi == 3
    then on_screen s 0 (some (new_line s.screen))
    else if rdi == 4
    then sys_get_info_reg s rsi
    else if rdi == 5
    then on_screen s 0 (draw_char s.screen (to_char rsi))
    else if rdi == 6
    then sys_action_call fuel s (to_int rsi)
    else if rdi == 7
    then sys_get_clock s (to_int rsi)
    else if rdi == 8
    then sys_print_num s rsi (to_int rdx)
    else if rdi == 9
    then on_screen s 0 (some (clean s.screen))
    else if rdi == 10
    then some (s, s.timer.seconds)
    else if rdi == 11
    then on_screen s 0 (some (sys_cursor s.screen (to_int rsi) (to_int rdx)))
    else if rdi == 12
    then on_screen s 0 (some (set_margins s.screen (to_int rsi) (to_int rdx)))
    else if rdi == 13
    then sys_get_coords s rsi
    else if rdi == 14
    then my_malloc s rsi
    else if rdi == 15
    then my_free s rsi
    else if rdi == 16
    then mem_set s rsi rdx rcx
    else some (s, 0)
