-- ===== src/Shell/Prints.antt =====
-- The commands of Userland/SampleCodeModule/shell.c that only print: they return.
use so_bare_bones.Common.{
  ℕ, zero, suc, ◌+◌, ◌%◌, ◌≤◌, ◌<◌, ◌⊎◌, arith, ◌==◌, ◌&&◌, not, if◌then◌else◌, true, false, Bool,
  some, List, [], ◌∷◌, All, ◌∙◌,
}
use so_bare_bones.Number.{Text}
use so_bare_bones.Shell.Commands.{
  Command, help_loop, help, get_time, draw_main_screen, print_mem_loop, print_mem,
}
use so_bare_bones.System.{System, int80_dispatcher, sys_get_clock, sys_get_memory}
use so_bare_bones.User.{new_line, print_num, get_rtc, call, get_memory}
use so_bare_bones.User.Ends.{
  IsFine, Ends, IsFine-vram, IsAway, off_frame, IsText, Ends-some, Ends->>=, new_line-Ends,
  print-Ends, print_num-Ends_decimal, print_num-Ends_hex,
}
use so_bare_bones.Transfer.{memset, byte_loop}
use so_bare_bones.Transfer.Copied.{memset_lem, byte_loop-outside}
use so_bare_bones.Video.{Mode}

-- The two strings of an entry.
pub record IsEntry (fuel : ℕ) (P : ℕ → Type 0) (text : Text) (c : Command) : Type 0 where
  pub name_chars : List ℕ
  pub name : IsText fuel P text c.command_name name_chars
  pub desc_chars : List ℕ
  pub desc : IsText fuel P text c.desc desc_chars

-- Where the literals of the commands are.
pub record Literals : Type 0 where
  pub welcome : ℕ
  pub hint : ℕ
  pub help_heading : ℕ
  pub time_heading : ℕ
  pub colon : ℕ
  pub gap : ℕ

-- Each literal is a string of the font's characters, in memory that stays.
pub record IsLoaded (fuel : ℕ) (P : ℕ → Type 0) (text : Text) (l : Literals) : Type 0 where
  pub welcome_chars : List ℕ
  pub welcome : IsText fuel P text l.welcome welcome_chars
  pub hint_chars : List ℕ
  pub hint : IsText fuel P text l.hint hint_chars
  pub help_chars : List ℕ
  pub help_heading : IsText fuel P text l.help_heading help_chars
  pub time_chars : List ℕ
  pub time_heading : IsText fuel P text l.time_heading time_chars
  pub colon_chars : List ℕ
  pub colon : IsText fuel P text l.colon colon_chars
  pub gap_chars : List ℕ
  pub gap : IsText fuel P text l.gap gap_chars

module _ {m : Mode} {b : ℕ} {P : ℕ → Type 0} {text : Text} (away : IsAway m b P) (fuel : ℕ) where
  help_loop-Ends :
      (s : System) (commands : List Command)
      → IsFine m b P text s
      → All (IsEntry fuel P text) commands
      → Ends m b P text (help_loop fuel s commands)
  unfolding help_loop
  help_loop-Ends s [] f e = Ends-some s f
  help_loop-Ends s (c ∷ commands) f e =
      Ends->>= _ _
        (print-Ends (off_frame m b P away) s f fuel c.command_name e.0.name_chars e.0.name)
        λ s₁ f₁.
          Ends->>= _ _ (print-Ends (off_frame m b P away) s₁ f₁ fuel c.desc e.0.desc_chars e.0.desc)
            λ s₂ f₂.
              Ends->>= _ _ (new_line-Ends (off_frame m b P away) s₂ f₂)
                λ s₃ f₃. help_loop-Ends s₃ commands f₃ e.1

  draw_main_screen-Ends :
      (s : System) (welcome hint : ℕ) (w h : List ℕ)
      → IsFine m b P text s
      → IsText fuel P text welcome w
      → IsText fuel P text hint h
      → Ends m b P text (draw_main_screen fuel s welcome hint)
  unfolding draw_main_screen
  draw_main_screen-Ends s welcome hint w h f tw th =
      Ends->>= _ _ (print-Ends (off_frame m b P away) s f fuel welcome w tw) λ s₁ f₁.
        Ends->>= _ _ (new_line-Ends (off_frame m b P away) s₁ f₁) λ s₂ f₂.
          Ends->>= _ _ (new_line-Ends (off_frame m b P away) s₂ f₂) λ s₃ f₃.
            Ends->>= _ _ (print-Ends (off_frame m b P away) s₃ f₃ fuel hint h th) λ s₄ f₄.
              Ends->>= _ _ (new_line-Ends (off_frame m b P away) s₄ f₄)
                λ s₅ f₅. new_line-Ends (off_frame m b P away) s₅ f₅

  -- The clock's registers are not the screen.
  rtc-IsFine :
      (s : System) (reg : ℕ)
      → IsFine m b P text s
      → IsFine m b P text (record s { reg_b_data = reg })
  rtc-IsFine s reg f = record {
    left = f.left;
    cols = f.cols;
    col = f.col;
    row = f.row;
    at = f.at;
    mode = f.mode;
    buffer = f.buffer;
    memory = f.memory;
  }

  print_rtc-Ends :
      (s : System) (reg n : ℕ)
      → IsFine m b P text s
      → Ends m b P text (print_num (record s { reg_b_data = reg }) (n % 256) 0)
  print_rtc-Ends s reg n f =
      print_num-Ends_decimal away (record s { reg_b_data = reg }) (rtc-IsFine s reg f) (n % 256)
        (omega arith)

  get_time-Ends :
      (s : System) (heading colon : ℕ) (h c : List ℕ)
      → IsFine m b P text s
      → IsText fuel P text heading h
      → IsText fuel P text colon c
      → Ends m b P text (get_time fuel s heading colon)
  unfolding get_time get_rtc int80_dispatcher sys_get_clock
  get_time-Ends s heading colon h c f th tc =
      Ends->>= _ _ (print-Ends (off_frame m b P away) s f fuel heading h th) λ s₁ f₁.
        Ends->>= _ _ (print_rtc-Ends s₁ _ _ f₁) λ s₂ f₂.
          Ends->>= _ _ (print-Ends (off_frame m b P away) s₂ f₂ fuel colon c tc) λ s₃ f₃.
            Ends->>= _ _ (print_rtc-Ends s₃ _ _ f₃) λ s₄ f₄.
              Ends->>= _ _ (print-Ends (off_frame m b P away) s₄ f₄ fuel colon c tc)
                λ s₅ f₅. print_rtc-Ends s₅ _ _ f₅

  help-Ends :
      (s : System) (heading : ℕ) (h : List ℕ) (commands : List Command)
      → IsFine m b P text s
      → IsText fuel P text heading h
      → All (IsEntry fuel P text) commands
      → Ends m b P text (help fuel s heading commands)
  unfolding help
  help-Ends s heading h commands f th e =
      Ends->>= _ _ (print-Ends (off_frame m b P away) s f fuel heading h th) λ s₁ f₁.
        Ends->>= _ _ (new_line-Ends (off_frame m b P away) s₁ f₁) λ s₂ f₂.
          Ends->>= _ _ (new_line-Ends (off_frame m b P away) s₂ f₂)
            λ s₃ f₃. help_loop-Ends s₃ commands f₃ e

  print_mem_loop-Ends :
      (n : ℕ) (s : System) (vec gap i : ℕ) (g : List ℕ)
      → IsFine m b P text s
      → IsText fuel P text gap g
      → Ends m b P text (print_mem_loop n fuel s vec gap i)
  unfolding print_mem_loop
  print_mem_loop-Ends zero s vec gap i g f t = Ends-some s f
  print_mem_loop-Ends (suc n) s vec gap i g f t =
      Ends->>= _ _ (row_end (not (i == 0) && (i % 4 == 0))) λ s₁ f₁.
        Ends->>= _ _ (print_num-Ends_hex away s₁ f₁ (s₁.screen.vram (vec + i) % 256) (omega arith))
          λ s₂ f₂.
            Ends->>= _ _ (print-Ends (off_frame m b P away) s₂ f₂ fuel gap g t)
              λ s₃ f₃. print_mem_loop-Ends n s₃ vec gap (i + 1) g f₃ t
    where
      row_end : (e : Bool) → Ends m b P text (if e then new_line s else some s)
      row_end true = new_line-Ends (off_frame m b P away) s f
      row_end false = Ends-some s f

  print_mem-Ends :
      (s : System) (mem vec gap : ℕ) (g : List ℕ)
      → IsFine m b P text s
      → IsText fuel P text gap g
      → ((q : ℕ) → P q → (q < vec) ⊎ (vec + 32 ≤ q))
      → ((q : ℕ) → P q → (q < s.v) ⊎ (s.v + 32 ≤ q))
      → Ends m b P text (print_mem fuel s mem vec gap)
  unfolding print_mem get_memory call int80_dispatcher sys_get_memory
  print_mem-Ends s mem vec gap g f t apart apart_v =
      let zeros = memset s.screen.vram vec 0 32 in
      let saved = byte_loop 32 zeros s.v mem 0 in
      let f₁ = IsFine-vram s (byte_loop 32 saved vec s.v 0) f (λ q p.
        byte_loop-outside 32 saved vec s.v 0 q (omega (arith, apart q p))
        ∙ byte_loop-outside 32 zeros s.v mem 0 q (omega (arith, apart_v q p))
        ∙ (memset_lem s.screen.vram vec 0 32).1 q (apart q p)) in
      Ends->>= _ _ (print_mem_loop-Ends 32 _ vec gap 0 g f₁ t)
        λ s₂ f₂. new_line-Ends (off_frame m b P away) s₂ f₂

  -- With the cursor in a cell of a text area on the screen, the start screen and the commands help,
  -- get_time and printMem, with their strings in memory that neither the frame, the driver's ten bytes
  -- for numbers, the copy that the kernel keeps of the bytes to show, nor the local array `vec` lies in,
  -- all return, with the cursor in the text area and that memory as it was.
  pub commands-Ends :
      (s : System) (l : Literals) (commands : List Command) (vec mem : ℕ)
      → IsFine m b P text s
      → IsLoaded fuel P text l
      → All (IsEntry fuel P text) commands
      → ((q : ℕ) → P q → (q < vec) ⊎ (vec + 32 ≤ q))
      → ((q : ℕ) → P q → (q < s.v) ⊎ (s.v + 32 ≤ q))
      → Ends m b P text (draw_main_screen fuel s l.welcome l.hint)
        × Ends m b P text (help fuel s l.help_heading commands)
        × Ends m b P text (get_time fuel s l.time_heading l.colon)
        × Ends m b P text (print_mem fuel s mem vec l.gap)
  commands-Ends s l commands vec mem f t e apart_vec apart_saved = (
    draw_main_screen-Ends s l.welcome l.hint t.welcome_chars t.hint_chars f t.welcome t.hint,
    help-Ends s l.help_heading t.help_chars commands f t.help_heading e,
    get_time-Ends s l.time_heading l.colon t.time_chars t.colon_chars f t.time_heading t.colon,
    print_mem-Ends s mem vec l.gap t.gap_chars f t.gap apart_vec apart_saved,
  )
