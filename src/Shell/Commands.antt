-- ===== src/Shell/Commands.antt =====
-- The commands of the shell that print, and the list of commands, Userland/SampleCodeModule/shell.c.
--
-- The places of the literals and of the local arrays are parameters, and `fuel` is for the loops of
-- `strlen` and `strncpy`.
use so_bare_bones.Common.{
  ℕ, zero, suc, ◌+◌, ◌*◌, ◌%◌, Option, some, ◌>>=◌, List, [], ◌∷◌, ◌==◌, ◌&&◌, not, if◌then◌else◌,
}
use so_bare_bones.Number.{Text}
use so_bare_bones.Shell.{Line}
use so_bare_bones.Strings.{strlen, strncpy}
use so_bare_bones.System.{System}
use so_bare_bones.Transfer.{memset, byte_loop}
use so_bare_bones.User.{
  print, new_line, print_num, get_rtc, get_info_reg, get_memory, clear_screen, put_char,
}

-- An entry of `commandList`: where its two strings are.
pub record Command : Type 0 where
  pub command_name : ℕ
  pub desc : ℕ

abbrev pub cleared : System → (a n : ℕ) → System
cleared s a n = record s { screen = record s.screen { vram = memset s.screen.vram a 0 n } }

-- The low 32 bits of a `uint64_t` in memory.
abbrev pub read32 : System → (p : ℕ) → ℕ
read32 s p =
    let v = s.screen.vram in
    v p % 256 + 256 * (v (p + 1) % 256) + 65536 * (v (p + 2) % 256) + 16777216 * (v (p + 3) % 256)

-- `regs` is the array of the names, seven bytes each, and `v` that of the values.
unfoldable pub inforeg_loop : ℕ → (fuel : ℕ) → System → (regs v i : ℕ) → Option System
inforeg_loop zero fuel s regs v i = some s
inforeg_loop (suc n) fuel s regs v i = do
  s₁ ← print fuel s (regs + 7 * i)
  s₂ ← print_num s₁ (read32 s₁ (v + 8 * i)) 1
  s₃ ← new_line s₂
  inforeg_loop n fuel s₃ regs v (i + 1)

unfoldable pub inforeg : (fuel : ℕ) → System → (regs v : ℕ) → Option System
inforeg fuel s regs v = do
  s₁ ← get_info_reg (cleared s v 128) v
  s₂ ← new_line s₁
  inforeg_loop 16 fuel s₂ regs v 0

-- `gap` is the literal of two spaces.
unfoldable pub print_mem_loop : ℕ → (fuel : ℕ) → System → (vec gap i : ℕ) → Option System
print_mem_loop zero fuel s vec gap i = some s
print_mem_loop (suc n) fuel s vec gap i = do
  s₁ ← if not (i == 0) && (i % 4 == 0) then new_line s else some s
  s₂ ← print_num s₁ (s₁.screen.vram (vec + i) % 256) 1
  s₃ ← print fuel s₂ gap
  print_mem_loop n fuel s₃ vec gap (i + 1)

unfoldable pub print_mem : (fuel : ℕ) → System → (mem vec gap : ℕ) → Option System
print_mem fuel s mem vec gap = do
  s₁ ← get_memory (cleared s vec 32) mem vec
  s₂ ← print_mem_loop 32 fuel s₁ vec gap 0
  new_line s₂

unfoldable pub help_loop : (fuel : ℕ) → System → List Command → Option System
help_loop fuel s [] = some s
help_loop fuel s (c ∷ command_list) = do
  s₁ ← print fuel s c.command_name
  s₂ ← print fuel s₁ c.desc
  s₃ ← new_line s₂
  help_loop fuel s₃ command_list

unfoldable pub help : (fuel : ℕ) → System → (heading : ℕ) → List Command → Option System
help fuel s heading command_list = do
  s₁ ← print fuel s heading
  s₂ ← new_line s₁
  s₃ ← new_line s₂
  help_loop fuel s₃ command_list

-- One of the three numbers of the clock.
abbrev pub print_rtc : System → (c : ℕ) → Option System
print_rtc s c = get_rtc s c >>= λ r. print_num r.0 r.1 0

unfoldable pub get_time : (fuel : ℕ) → System → (heading colon : ℕ) → Option System
get_time fuel s heading colon = do
  s₁ ← print fuel s heading
  s₂ ← print_rtc s₁ 2
  s₃ ← print fuel s₂ colon
  s₄ ← print_rtc s₃ 1
  s₅ ← print fuel s₄ colon
  print_rtc s₅ 0

unfoldable pub draw_main_screen : (fuel : ℕ) → System → (welcome hint : ℕ) → Option System
draw_main_screen fuel s welcome hint = do
  s₁ ← print fuel s welcome
  s₂ ← new_line s₁
  s₃ ← new_line s₂
  s₄ ← print fuel s₃ hint
  s₅ ← new_line s₄
  new_line s₅

unfoldable pub clean : (fuel : ℕ) → System → (welcome hint : ℕ) → Option System
clean fuel s welcome hint = clear_screen s >>= λ s₁. draw_main_screen fuel s₁ welcome hint

-- `initializeOS`, with the new `buffersize`.
unfoldable pub initialize_os :
    (fuel : ℕ) → System → Line → (welcome hint : ℕ) → Option (System × Line)
initialize_os fuel s l welcome hint = do
  s₁ ← draw_main_screen fuel s welcome hint
  s₂ ← put_char s₁ b'>'
  some (s₂, record l { buffersize = 0 })

-- `fillCommand` copies the two strings into the local struct at `aux`, and this into the entry of
-- `commandList` at `entry`: 100 bytes each.
unfoldable pub fill_command :
    (fuel : ℕ) → Text → (name desc aux entry : ℕ) → Option (Text × Command)
fill_command fuel text name desc aux entry = do
  n ← strlen fuel text name
  t₁ ← strncpy fuel text name aux 0 n
  d ← strlen fuel t₁ desc
  t₂ ← strncpy fuel t₁ desc (aux + 100) 0 d
  some (byte_loop 200 t₂ entry aux 0, record { command_name = entry; desc = entry + 100 })

-- `fillCommandList`, at the strings of its seven calls: the entries, 208 bytes each, from
-- `command_list` on.
unfoldable pub fill_command_list :
    (fuel : ℕ) → Text → List (ℕ × ℕ) → (aux entry : ℕ) → Option (Text × List Command)
fill_command_list fuel text [] aux entry = some (text, [])
fill_command_list fuel text (e ∷ strings) aux entry = do
  r ← fill_command fuel text e.0 e.1 aux entry
  t ← fill_command_list fuel r.0 strings aux (entry + 208)
  some (t.0, r.1 ∷ t.1)
