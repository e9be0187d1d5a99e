-- ===== src/Stress/Tests.antt =====
-- The stress test of Userland/SampleCodeModule/test_mm.c on small states.
use so_bare_bones.Common.{
  ℕ, ◌*◌, ◌/◌, ◌^◌, ◌≡◌, [], refl, replicate, false, pos, ◌==◌, if◌then◌else◌,
}
use so_bare_bones.Heap.{boot}
use so_bare_bones.Heap.Tests.{blank, start}
use so_bare_bones.System.{System}
use so_bare_bones.Stress.{first_seed, get_uint, memcheck}

abbrev pub system : System
system = record {
  keyboard = record {
    buffer = replicate 100 0 [];
    start_position = 0;
    end_position = 0;
    size = 0;
    lshift_lckd = false;
    rshift_lckd = false;
    caps_lckd = false;
    ctrl_lckd = false;
  };
  screen = record {
    mode = record { framebuffer = 0xFD000000; width = 1024 };
    vram = λ p. 0;
    buffer = 0x108000;
    cursor_x = pos 0;
    cursor_y = pos 0;
    margin_left = pos 0;
    margin_right = pos 1024;
    aux_x = pos 0;
    aux_y = pos 0;
  };
  heap = boot blank start;
  timer = record { ticks = 0; seconds = 0; snapshot_ip = 0; snapshot_sp = 0 };
  reg_b_data = 0;
  read_cmos = λ r. 0;
  regs = 0x109000;
  v = 0x109100;
}

-- A number below `max`, in proportion to the random number.
abbrev pub share : ℕ → ℕ → ℕ
share u max = u * max / 2 ^ 32

first_number : (get_uint first_seed).1 ≡ 820856226
unfolding get_uint
first_number = refl

-- A byte that was overwritten is found; the message has a line feed, for which there is no glyph.
overwritten : memcheck 4 (λ p. if p == 0x600042 then 9 else 0) 0x600040 0 ≡ 0
unfolding memcheck
overwritten = refl
