-- ===== src/System/Tests.antt =====
-- The system calls of Kernel/interrupts/int80.c on a small state.
use so_bare_bones.Common.{
  ℕ, ◌+◌, ◌-◌, get_or, ◌≤◌, ◌<◌, ◌≡◌, ◌⊎◌, true, false, some, inl, refl, arith, All, replicate, [],
  ◌∷◌, pos,
}
use so_bare_bones.Strings.Holds.{Holds}
use so_bare_bones.Video.{Screen}
use so_bare_bones.Video.Cursor.{At}
use so_bare_bones.Heap.{start_address}
use so_bare_bones.Heap.Blocks.{block, end_of}
use so_bare_bones.Heap.Tests.{one_used, one_used-IsValid, answer, answer-runs}
use so_bare_bones.Heap.Valid.{heap_end}
use so_bare_bones.Keyboard.{Keyboard, plain_char, get_last_input}
use so_bare_bones.Keyboard.Ring.{IsValid, waiting}
use so_bare_bones.System.{
  System, int80_dispatcher, irq_dispatcher, my_malloc, sys_read, interrupt_routine1,
}
use so_bare_bones.System.Exception.{Messages, register_names, print_exception, reads_outside_font}
use so_bare_bones.System.Exception.Register.{print_exception-reads_outside_font}
use so_bare_bones.System.Input.{int80_dispatcher-irq_dispatcher}
use so_bare_bones.System.Storage.{int80_dispatcher-memset}

-- The left shift key is held, and one character waits in the last cell of the ring.
abbrev keyboard : Keyboard
keyboard = record {
  buffer = replicate 99 0 (b'a' ∷ []);
  start_position = 99;
  end_position = 0;
  size = 1;
  lshift_lckd = true;
  rshift_lckd = false;
  caps_lckd = false;
  ctrl_lckd = false;
}

keyboard-IsValid : IsValid keyboard
keyboard-IsValid = record {
  room = refl;
  start_in = omega arith;
  end_at = refl;
  size_in = omega arith;
}

abbrev system : System
system = record {
  keyboard = keyboard;
  screen = record {
    mode = record { framebuffer = 0xFD000000; width = 1024 };
    vram = λ p. 0;
    buffer = 0x108000;
    cursor_x = pos 0;
    cursor_y = pos 0;
    margin_left = pos 0;
    margin_right = pos 1024;
    aux_x = pos 0;
    aux_y = pos 0;
  };
  heap = one_used;
  timer = record { ticks = 17; seconds = 0; snapshot_ip = 0; snapshot_sp = 0 };
  reg_b_data = 0;
  read_cmos = λ r. 0x12;
  regs = 0x109000;
  v = 0x109100;
}

-- The eighteenth tick is the first second.
first_second : (interrupt_routine1 system.timer).seconds ≡ 1
unfolding interrupt_routine1
first_second = refl

q_key : plain_char 0x10 ≡ some b'q'
unfolding plain_char
q_key = refl

int80_dispatcher-irq_dispatcher_example :
    (s' : System) × (s'' : System) × (irq_dispatcher system 1 0x10 ≡ some (s', false))
    × (int80_dispatcher 0 s' 0 0 0 0 ≡ some (s'', b'Q'))
    × IsValid s''.keyboard
    × (s''.keyboard.size ≡ 1)
    × ((j : ℕ) → j < 1 → waiting s''.keyboard j ≡ waiting keyboard j)
int80_dispatcher-irq_dispatcher_example =
    int80_dispatcher-irq_dispatcher 0 system 0x10 b'q' (omega arith) q_key refl refl
      keyboard-IsValid (omega arith)

abbrev after_read : System
after_read = record system { keyboard = (get_last_input keyboard).0 }

reads_a : int80_dispatcher 0 system 0 0 0 0 ≡ some (after_read, b'a')
unfolding int80_dispatcher sys_read get_last_input
reads_a = refl

abbrev after_malloc : System
after_malloc = record system { heap = answer.0 }

mallocs : int80_dispatcher 0 system 14 100 0 0 ≡ some (after_malloc, 0x6000C0)
unfolding int80_dispatcher my_malloc
mallocs = rw answer-runs

int80_dispatcher-memset_example :
    (s'' : System) × (int80_dispatcher 0 after_malloc 16 0x6000C0 7 100 ≡ some (s'', 0x6000C0))
    × ((j : ℕ) → j < 100 → s''.screen.vram (0x6000C0 + j) ≡ 7)
    × All
        (λ u. (q : ℕ) → u.addr ≤ q → q < end_of u → s''.screen.vram q ≡ 0)
        (block 0x600000 128 ∷ [])
    × ((q : ℕ) → (q < start_address) ⊎ (heap_end ≤ q) → s''.screen.vram q ≡ 0)
int80_dispatcher-memset_example =
    int80_dispatcher-memset 0 system (block 0x600080 10048 ∷ []) (block 0x600000 128 ∷ []) 100
      0x6000C0 7 100 one_used-IsValid (omega arith) (omega arith) after_malloc mallocs (omega arith)

-- The cursor is in the first cell, and memory has the name of R13 at 0x1000.
abbrev named : Screen
named = record system.screen { vram = λ p. get_or (get_or register_names 2 []) (p - 0x1000) 0 }

abbrev messages : Messages
messages = record { division = 0x2000; operation = 0x2100; other = 0x2200; press = 0x2300 }

named-At : At named 0 128 0 0
named-At = record {
  mode_ok = record { wide = refl; low = omega arith };
  left_at = refl;
  right_at = refl;
  x_at = refl;
  y_at = refl;
  wide = omega arith;
  fits = omega arith;
  col_in = omega arith;
  row_in = omega arith;
}

named-Holds : Holds named.vram 0x1000 (get_or register_names 2 [])
named-Holds = omega arith

print_exception-reads_outside_font_example :
    print_exception named system.timer 6 (λ i. 0x1000) (λ i. 0) 0x200000 messages (0x2A ∷ [])
    ≡ reads_outside_font
print_exception-reads_outside_font_example =
    print_exception-reads_outside_font named system.timer 6 (λ i. 0x1000) (λ i. 0) 0x200000 messages
      (0x2A ∷ []) 0 128 0 0 named-At (λ i. omega arith) named-Holds (inl (omega arith))
      (inl (omega arith))
