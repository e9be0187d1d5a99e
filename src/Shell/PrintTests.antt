-- ===== src/Shell/PrintTests.antt =====
-- The commands that print, of Userland/SampleCodeModule/shell.c, with some strings in memory.
use so_bare_bones.Common.{ℕ, ◌<◌, inl, List, [], ◌∷◌, All, refl, arith}
use so_bare_bones.Number.{Text}
use so_bare_bones.Shell.Commands.{Command, draw_main_screen, help, get_time, print_mem}
use so_bare_bones.Shell.Prints.{IsEntry, Literals, IsLoaded, commands-Ends}
use so_bare_bones.Shell.Tests.{put, help_chars, clean_chars}
use so_bare_bones.Stress.Tests.{system}
use so_bare_bones.System.{System}
use so_bare_bones.User.Ends.{IsFine, Ends, IsAway, IsText}
use so_bare_bones.Video.{Mode}

abbrev colon : List ℕ
colon = b':' ∷ []

abbrev memory : Text
memory = put (put (put (λ p. 0) 1000 clean_chars) 2000 help_chars) 3000 colon

abbrev Stays : ℕ → Type 0
Stays q = q < 0x4000

abbrev mode : Mode
mode = record { framebuffer = 0xFD000000; width = 1024 }

abbrev ready : System
ready = record system { screen = record system.screen { vram = memory } }

away : IsAway mode 0x108000 Stays
away q p = (omega arith, omega arith)

ready-IsFine : IsFine mode 0x108000 Stays memory ready
ready-IsFine = record {
  left = 0;
  cols = 128;
  col = 0;
  row = 0;
  at = record {
    mode_ok = record { wide = refl; low = omega arith };
    left_at = refl;
    right_at = refl;
    x_at = refl;
    y_at = refl;
    wide = omega arith;
    fits = omega arith;
    col_in = omega arith;
    row_in = omega arith;
  };
  mode = refl;
  buffer = refl;
  memory = λ q p. refl;
}

clean_text : IsText 10 Stays memory 1000 clean_chars
clean_text = record {
  holds = omega arith;
  printable = omega arith;
  short = omega arith;
  int_length = omega arith;
  stays = λ q lo hi. omega arith;
}

help_text : IsText 10 Stays memory 2000 help_chars
help_text = record {
  holds = omega arith;
  printable = omega arith;
  short = omega arith;
  int_length = omega arith;
  stays = λ q lo hi. omega arith;
}

colon_text : IsText 10 Stays memory 3000 colon
colon_text = record {
  holds = omega arith;
  printable = omega arith;
  short = omega arith;
  int_length = omega arith;
  stays = λ q lo hi. omega arith;
}

abbrev literals : Literals
literals = record {
  welcome = 2000;
  hint = 1000;
  help_heading = 2000;
  time_heading = 1000;
  colon = 3000;
  gap = 3000;
}

literals-IsLoaded : IsLoaded 10 Stays memory literals
literals-IsLoaded = record {
  welcome_chars = help_chars;
  welcome = help_text;
  hint_chars = clean_chars;
  hint = clean_text;
  help_chars = help_chars;
  help_heading = help_text;
  time_chars = clean_chars;
  time_heading = clean_text;
  colon_chars = colon;
  colon = colon_text;
  gap_chars = colon;
  gap = colon_text;
}

abbrev commands : List Command
commands = record { command_name = 2000; desc = 1000 } ∷ []

commands-IsEntry : All (IsEntry 10 Stays memory) commands
commands-IsEntry = (
  record { name_chars = help_chars; name = help_text; desc_chars = clean_chars; desc = clean_text },
  tt,
)

commands-Ends_example :
    Ends mode 0x108000 Stays memory (draw_main_screen 10 ready 2000 1000)
    × Ends mode 0x108000 Stays memory (help 10 ready 2000 commands)
    × Ends mode 0x108000 Stays memory (get_time 10 ready 1000 3000)
    × Ends mode 0x108000 Stays memory (print_mem 10 ready 0x400000 0x8100 3000)
commands-Ends_example =
    commands-Ends away 10 ready literals commands 0x8100 0x400000 ready-IsFine literals-IsLoaded
      commands-IsEntry (λ q p. inl (omega arith)) (λ q p. inl (omega arith))
