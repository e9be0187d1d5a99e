-- ===== src/User.antt =====
-- The system calls as the user's programs make them, Userland/SampleCodeModule/Lib.c. The calls for
-- memory are in Stress.antt.
--
-- `fuel` is for the loop of `strlen`, and in `action_call` for that of `delete_line`; the other calls
-- have no loop on fuel. `none` is what it is in System.antt.
pub mod Ends
use mathlib.Core.Option
use so_bare_bones.Common.{ℕ, ◌+◌, ◌%◌, ◌^◌, Option, none, some, ◌>>=◌, ltb, if◌then◌else◌}
use so_bare_bones.Strings.{strlen, sign_extend}
use so_bare_bones.System.{System, int80_dispatcher, widen}
use so_bare_bones.Transfer.{memset, copy_word}

-- A call whose answer is not used.
unfoldable pub call : (fuel : ℕ) → System → (rdi rsi rdx rcx : ℕ) → Option System
call fuel s rdi rsi rdx rcx = Option.map (λ r. r.0) (int80_dispatcher fuel s rdi rsi rdx rcx)

-- `(char)` of the answer.
unfoldable pub read_input : System → Option (System × ℕ)
read_input s = Option.map (λ r. (r.0, r.1 % 256)) (int80_dispatcher 0 s 0 0 0 0)

unfoldable pub print : (fuel : ℕ) → System → (buffer : ℕ) → Option System
print fuel s buffer =
    strlen fuel s.screen.vram buffer >>= λ length. call 0 s 1 buffer (widen length) 0

unfoldable pub get_memory : System → (mem v : ℕ) → Option System
get_memory s mem v = call 0 s 2 mem v 0

unfoldable pub new_line : System → Option System
new_line s = call 0 s 3 0 0 0

unfoldable pub get_info_reg : System → (reg_pointer : ℕ) → Option System
get_info_reg s reg_pointer = call 0 s 4 reg_pointer 0 0

unfoldable pub put_char : System → (c : ℕ) → Option System
put_char s c = call 0 s 5 (sign_extend c) 0 0

unfoldable pub action_call : (fuel : ℕ) → System → (action : ℕ) → Option System
action_call fuel s action = call fuel s 6 (widen action) 0 0

unfoldable pub get_rtc : System → (c : ℕ) → Option (System × ℕ)
get_rtc s c = int80_dispatcher 0 s 7 c 0 0

unfoldable pub print_num : System → (num base_option : ℕ) → Option System
print_num s num base_option = call 0 s 8 (widen num) (widen base_option) 0

unfoldable pub clear_screen : System → Option System
clear_screen s = call 0 s 9 0 0 0

unfoldable pub get_seconds : System → Option (System × ℕ)
get_seconds s = int80_dispatcher 0 s 10 0 0 0

unfoldable pub set_cursor : System → (x y : ℕ) → Option System
set_cursor s x y = call 0 s 11 (widen x) (widen y) 0

unfoldable pub set_margins : System → (m_left m_right : ℕ) → Option System
set_margins s m_left m_right = call 0 s 12 (widen m_left) (widen m_right) 0

unfoldable pub get_cursor : System → (coords : ℕ) → Option System
get_cursor s coords = call 0 s 13 coords 0 0

-- `aux` is the local array, `coord_x` the address of that field of the struct.
unfoldable pub save_screen_cords : System → (aux coord_x : ℕ) → Option System
save_screen_cords s aux coord_x =
    let cleared = record s { screen = record s.screen { vram = memset s.screen.vram aux 0 8 } } in
    Option.map {A = System} {B = System}
      (λ t. record t {
        screen = record t.screen {
          vram = copy_word (copy_word t.screen.vram coord_x aux) (coord_x + 4) (aux + 4);
        };
      })
      (get_cursor cleared aux)
